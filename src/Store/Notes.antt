-- ===== src/Store/Notes.antt =====
-- The notes column of persistence.py: what joining by "|" and splitting again preserves.
use etf_platform_paper_mode.Common.{
  ℕ, ◌==◌, ◌≡◌, ◌≢◌, List, [], ◌∷◌, ◌++◌, All, true, false, arith, refl, ap, ◌⊎◌, inl, inr,
  Bool-cases, if◌then◌else◌,
}
use mathlib.Core.Path.{subst}
use mathlib.Core.Logic.{◌↔◌}
use etf_platform_paper_mode.Events.{Text}
use etf_platform_paper_mode.Store.{pipe, join_notes, split_notes, load_notes, extend_first}

abbrev pub NoPipe : Text → Type 0
NoPipe = All (λ c. c ≢ pipe)

split-append : (t rest : Text) → NoPipe t → split_notes (t ++ (pipe ∷ rest)) ≡ t ∷ split_notes rest
unfolding split_notes
split-append [] rest h = refl
split-append (c ∷ t) rest h = ground (arith, split-append t rest h.1)

split-plain : (t : Text) → NoPipe t → split_notes t ≡ t ∷ []
unfolding split_notes
split-plain [] h = refl
split-plain (c ∷ t) h = ground (arith, split-plain t h.1)

split-join :
    (t : Text) (ts : List Text)
    → NoPipe t
    → All NoPipe ts
    → split_notes (join_notes (t ∷ ts)) ≡ t ∷ ts
unfolding join_notes
split-join t [] h hs = split-plain t h
split-join t (u ∷ ts) h hs =
    rw (split-append t (join_notes (u ∷ ts)) h) (rw (split-join u ts hs.0 hs.1))

split-NoPipe : (t : Text) → All NoPipe (split_notes t)
unfolding split_notes
split-NoPipe [] = (tt, tt)
split-NoPipe (c ∷ t) = cons_NoPipe c (split_notes t) (split-NoPipe t) (Bool-cases (c == pipe))
  where
    cons_NoPipe :
        (c : ℕ) (ts : List Text)
        → All NoPipe ts
        → ((c == pipe) ≡ true) ⊎ ((c == pipe) ≡ false)
        → All NoPipe (if c == pipe then [] ∷ ts else extend_first c ts)
    cons_NoPipe c ts h (inl e) = rw e (tt, h)
    cons_NoPipe c [] h (inr e) = rw e ((ground arith, tt), tt)
    cons_NoPipe c (u ∷ ts) h (inr e) = rw e ((ground arith, h.0), h.1)

load-NoPipe : (t : Text) → All NoPipe (load_notes t)
unfolding load_notes
load-NoPipe [] = tt
load-NoPipe (c ∷ t) = split-NoPipe (c ∷ t)

load-join : (ts : List Text) → All NoPipe ts → ts ≢ [] ∷ [] → load_notes (join_notes ts) ≡ ts
unfolding load_notes join_notes
load-join [] h ne = refl
load-join ([] ∷ []) h ne = absurd (ne refl)
load-join ([] ∷ (u ∷ ts)) h ne = split-join [] (u ∷ ts) h.0 h.1
load-join ((c ∷ t) ∷ []) h ne = split-join (c ∷ t) [] h.0 h.1
load-join ((c ∷ t) ∷ (u ∷ ts)) h ne = split-join (c ∷ t) (u ∷ ts) h.0 h.1

lone_empty_note : load_notes (join_notes ([] ∷ [])) ≡ []
unfolding load_notes join_notes
lone_empty_note = refl

-- The notes of a record come back from the store exactly if none of them holds a "|" and they are
-- not one empty note.
pub notes_roundtrip :
    (ts : List Text) → (load_notes (join_notes ts) ≡ ts) ↔ (All NoPipe ts × (ts ≢ [] ∷ []))
notes_roundtrip ts = (
  (λ e. (
    subst (All NoPipe) e (load-NoPipe (join_notes ts)),
    λ e'. cc (lone_empty_note, ap (λ x. load_notes (join_notes x)) e'),
  )),
  λ h. load-join ts h.0 h.1,
)
