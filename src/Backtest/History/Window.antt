-- ===== src/Backtest/History/Window.antt =====
-- The whole history view of engine.py, day after day.
use etf_platform_paper_mode.Common.{
  ℕ, zero, suc, ◌+◌, ◌-◌, ◌≤◌, ◌≡◌, ◌≢◌, ◌==◌, List, [], ◌∷◌, inl, inr, refl, sym, ◌∙◌, ap, leb,
  if◌then◌else◌, or_else, arith, ==→eq, Bool-cases, ok, keep,
}
use etf_platform_paper_mode.Common.Dict.{Dict, lookup-insert}
use etf_platform_paper_mode.Backtest.{Bar}
use etf_platform_paper_mode.Backtest.History.{
  insert_bar, sorted_bars, Observed, pointer_of, observe_bar, drop, observe, observe_all,
  symbol_view, build_history_view,
}
use etf_platform_paper_mode.Backtest.History.View.{
  From, IsSorted, observed_count, in_window, slice_keep, never_ahead,
}

-- A key that is not in a dict, and a dict with each key once.
abbrev pub Absent : ℕ → Dict (List Bar) → Type 0
Absent k [] = Unit
Absent k ((j, _) ∷ rest) = (k ≢ j) × Absent k rest

abbrev pub IsDict : Dict (List Bar) → Type 0
IsDict [] = Unit
IsDict ((k, _) ∷ rest) = Absent k rest × IsDict rest

abbrev pub AllSorted : Dict (List Bar) → Type 0
AllSorted [] = Unit
AllSorted ((_, bars) ∷ rest) = IsSorted bars × AllSorted rest

-- No symbol's pointer is past the bars up to the date.
abbrev pub Behind : ℕ → Dict (List Bar) → Observed → Type 0
Behind current_date [] o = Unit
Behind current_date ((k, bars) ∷ rest) o =
    (pointer_of k o ≤ observed_count current_date bars) × Behind current_date rest o

-- Every symbol's pointer is just past the bars up to the date.
abbrev pub Caught : ℕ → Dict (List Bar) → Observed → Type 0
Caught current_date [] o = Unit
Caught current_date ((k, bars) ∷ rest) o =
    (pointer_of k o ≡ observed_count current_date bars) × Caught current_date rest o

-- The bars of each symbol in the window, by a plain filter.
abbrev pub window : (cutoff current_date : ℕ) → Dict (List Bar) → Dict (List Bar)
window cutoff current_date [] = []
window cutoff current_date ((k, bars) ∷ rest) =
    (k, keep (in_window cutoff current_date) bars) ∷ window cutoff current_date rest

observe-pointer :
    (current_date k j : ℕ) (bars : List Bar) (o : Observed)
    → pointer_of j (observe current_date k bars o)
      ≡ (if k == j then pointer_of j o + observed_count current_date bars else pointer_of j o)
unfolding observe observed_count
observe-pointer current_date k j [] o = ground arith
observe-pointer current_date k j (bar ∷ bars) o =
    let later = observe-pointer current_date k j bars (observe_bar k bar o) in
    let moved = ap (λ n. or_else n 0) (lookup-insert k j (suc (pointer_of k o)) o.pointer) in
    elim (Bool-cases (leb bar.trade_date current_date)) [
      | inl t ↦ elim (Bool-cases (k == j)) [
        | inl e ↦
            let own = ap (λ i. pointer_of i o) (==→eq k j e) in
            let later' = rw e at later in
            let moved' = rw e at moved in rw (t, e) (omega (arith, later', moved', own))
        | inr e ↦
            let later' = rw e at later in let moved' = rw e at moved in rw (t, e) (later' ∙ moved')
      ]
      | inr t ↦ rw t (ground arith)
    ]

count-drop :
    (current_date p : ℕ) (bars : List Bar)
    → p ≤ observed_count current_date bars
    → p + observed_count current_date (drop p bars) ≡ observed_count current_date bars
unfolding observed_count
count-drop current_date zero bars h = omega arith
count-drop current_date (suc p) [] h = absurd (omega arith)
count-drop current_date (suc p) (bar ∷ bars) h = ground (arith, count-drop current_date p bars)

observe-other :
    (current_date k j : ℕ) (bars : List Bar) (o : Observed)
    → k ≢ j
    → pointer_of j (observe current_date k bars o) ≡ pointer_of j o
observe-other current_date k j bars o ne =
    let found = observe-pointer current_date k j bars o in ground arith

observe-Behind :
    (current_date k : ℕ) (bars : List Bar) (d : Dict (List Bar)) (o : Observed)
    → Absent k d
    → Behind current_date d o
    → Behind current_date d (observe current_date k bars o)
observe-Behind current_date k bars [] o a h = tt
observe-Behind current_date k bars ((j, own) ∷ d) o (ne, a) (h, rest) = (
  omega (arith, observe-other current_date k j bars o ne),
  observe-Behind current_date k bars d o a rest,
)

observe_all-other :
    (current_date k : ℕ) (d : Dict (List Bar)) (o : Observed)
    → Absent k d
    → pointer_of k (observe_all current_date d o) ≡ pointer_of k o
unfolding observe_all
observe_all-other current_date k [] o a = refl
observe_all-other current_date k ((j, bars) ∷ d) o (ne, a) =
    let from = drop (pointer_of j o) bars in
    observe_all-other current_date k d (observe current_date j from o) a
    ∙ observe-other current_date j k from o (λ e. ne (sym e))

pub observe_all-Caught :
    (current_date : ℕ) (d : Dict (List Bar)) (o : Observed)
    → IsDict d
    → Behind current_date d o
    → Caught current_date d (observe_all current_date d o)
unfolding observe_all
observe_all-Caught current_date [] o i h = tt
observe_all-Caught current_date ((k, bars) ∷ d) o (a, i) (h, rest) =
    let from = drop (pointer_of k o) bars in
    let o' = observe current_date k from o in
    let own = observe-pointer current_date k k from o in
    let kept = observe_all-other current_date k d o' a in
    let total = count-drop current_date (pointer_of k o) bars h in
    (
      (kept ∙ ground arith) ∙ total,
      observe_all-Caught current_date d o' i (observe-Behind current_date k from d o a rest),
    )

symbol_view-keep :
    (cutoff current_date : ℕ) (bars : List Bar)
    → IsSorted bars
    → symbol_view current_date cutoff bars (observed_count current_date bars)
      ≡ ok (keep (in_window cutoff current_date) bars)
unfolding symbol_view
symbol_view-keep cutoff current_date bars s =
    rw (never_ahead current_date bars) (ap ok (slice_keep cutoff current_date 0 bars s))

pub view-Caught :
    (lookback current_date : ℕ) (d : Dict (List Bar)) (o : Observed)
    → AllSorted d
    → Caught current_date d o
    → build_history_view lookback current_date d o
      ≡ ok (window (current_date - lookback) current_date d)
unfolding build_history_view
view-Caught lookback current_date [] o s h = refl
view-Caught lookback current_date ((k, bars) ∷ d) o (s, ss) (h, hs) =
    rw
      (
        h,
        symbol_view-keep (current_date - lookback) current_date bars s,
        view-Caught lookback current_date d o ss hs,
      )
      refl

-- After a day's bars are observed, from pointers that are not past them, the history view of bars
-- sorted by date is, for each symbol, exactly the bars from the cutoff to that day, as a filter of
-- all bars gives them: no later bar is in it, and the check for one never raises.
pub build_history_view-window :
    (lookback current_date : ℕ) (d : Dict (List Bar)) (o : Observed)
    → IsDict d
    → AllSorted d
    → Behind current_date d o
    → build_history_view lookback current_date d (observe_all current_date d o)
      ≡ ok (window (current_date - lookback) current_date d)
build_history_view-window lookback current_date d o i s h =
    view-Caught lookback current_date d (observe_all current_date d o) s
      (observe_all-Caught current_date d o i h)

count_mono : (d e : ℕ) (bars : List Bar) → d ≤ e → observed_count d bars ≤ observed_count e bars
unfolding observed_count
count_mono d e [] le = omega arith
count_mono d e (bar ∷ bars) le = ground (arith, count_mono d e bars le)

-- What a day has caught up with is not past any later day.
pub Caught-Behind :
    (d e : ℕ) (bars : Dict (List Bar)) (o : Observed) → d ≤ e → Caught d bars o → Behind e bars o
Caught-Behind d e [] o le h = tt
Caught-Behind d e ((k, bars) ∷ rest) o le (h, hs) =
    (omega (arith, count_mono d e bars le), Caught-Behind d e rest o le hs)

insert_bar-From :
    (d : ℕ) (bar : Bar) (bars : List Bar)
    → d ≤ bar.trade_date
    → From d bars
    → From d (insert_bar bar bars)
unfolding insert_bar
insert_bar-From d bar [] le h = (le, tt)
insert_bar-From d bar (first ∷ rest) le (h, hs) =
    elim (Bool-cases (leb bar.trade_date first.trade_date)) [
      | inl t ↦ rw t (le, (ground arith, hs))
      | inr t ↦ rw t (h, insert_bar-From first.trade_date bar rest (ground arith) hs)
    ]

-- The engine sorts the bars that it is given.
pub sorted_bars-IsSorted : (bars : List Bar) → IsSorted (sorted_bars bars)
unfolding sorted_bars
sorted_bars-IsSorted [] = tt
sorted_bars-IsSorted (bar ∷ bars) =
    insert_bar-From 0 bar (sorted_bars bars) (omega arith) (sorted_bars-IsSorted bars)
