-- ===== src/RateLimiter/Calls.antt =====
-- How many calls rate_limiter.py lets through in a time.
use Prim.Native.Nat.{max}
use etf_platform_paper_mode.Common.{
  ℕ, suc, ◌+◌, ◌-◌, ◌*◌, ◌≤◌, ◌<◌, ◌≡◌, ◌==◌, List, [], ◌∷◌, inl, inr, refl, ap, length, arith,
  Bool-cases, Result-cases, ◌||◌, ok,
}
use etf_platform_paper_mode.Common.Int.{pos, ◌+ℤ◌, ◌≤ℤ◌, pos_part, neg_part, +ℤ_parts}
use etf_platform_paper_mode.RateLimiter.{
  unit, TokenBucket, RateLimiter, Sleep, acquire, acquire_all, rate_limiter, token_bucket,
}
use etf_platform_paper_mode.RateLimiter.Bounds.{
  IsSoundBucket, IsSound, Takes, spans, Sleeps, acquire-Takes,
}

-- The tokens of so many calls, from what there was and what has come in.
abbrev pub PaidBy : (calls finish : ℕ) → (before after : TokenBucket) → Type 0
PaidBy calls finish b b' =
    (b'.tokens +ℤ pos (calls * unit)) ≤ℤ (b.tokens +ℤ pos ((finish - b.last_refill) * b.rate))

paid_none : (finish : ℕ) (b : TokenBucket) → PaidBy 0 finish b b
paid_none finish b =
    let none = +ℤ_parts b.tokens (pos (0 * unit)) in
    let grown = +ℤ_parts b.tokens (pos ((finish - b.last_refill) * b.rate)) in omega arith

paid_more :
    (calls woken finish : ℕ) (b b1 b2 : TokenBucket)
    → Takes woken b b1
    → b.last_refill ≤ woken
    → woken ≤ finish
    → PaidBy calls finish b1 b2
    → PaidBy (suc calls) finish b b2
paid_more calls woken finish b b1 b2 (_, rate, _, last, took) past later paid =
    let total = spans b.last_refill woken finish b.rate past later in
    let later_gain : (finish - b1.last_refill) * b1.rate ≡ (finish - woken) * b.rate =
      rw (last, rate) refl in
    let first = +ℤ_parts b1.tokens (pos unit) in
    let first_grown = +ℤ_parts b.tokens (pos ((woken - b.last_refill) * b.rate)) in
    let others = +ℤ_parts b2.tokens (pos (calls * unit)) in
    let others_grown = +ℤ_parts b1.tokens (pos ((finish - b1.last_refill) * b1.rate)) in
    let all = +ℤ_parts b2.tokens (pos (suc calls * unit)) in
    let all_grown = +ℤ_parts b.tokens (pos ((finish - b.last_refill) * b.rate)) in omega arith

later-IsSound : (now pause : ℕ) (l : RateLimiter) → IsSound now l → IsSound (now + pause) l
later-IsSound now pause l ((a, b, c, d, e), (a', b', c', d', e')) =
    ((a, b, omega arith, d, e), (a', b', omega arith, d', e'))

acquire_all-PaidBy :
    (sleep : Sleep) (pauses : List ℕ) (now : ℕ) (l : RateLimiter)
    → Sleeps sleep
    → IsSound now l
    → let (l', finish) = acquire_all sleep pauses now l in
      (now ≤ finish)
      × IsSound finish l'
      × PaidBy (length pauses) finish l.per_second l'.per_second
      × PaidBy (length pauses) finish l.per_minute l'.per_minute
unfolding acquire_all
acquire_all-PaidBy sleep [] now l sleeps sound =
    (omega arith, sound, paid_none now l.per_second, paid_none now l.per_minute)
acquire_all-PaidBy sleep (pause ∷ pauses) now l sleeps sound =
    let out = acquire sleep (now + pause) l in
    let (later, fast, slow) =
      acquire-Takes sleep (now + pause) l sleeps (later-IsSound now pause l sound) in
    let (after, sound', paid, paid') =
      acquire_all-PaidBy sleep pauses out.1 out.0 sleeps (fast.0, slow.0) in
    let finish = (acquire_all sleep pauses out.1 out.0).1 in
    let l' = (acquire_all sleep pauses out.1 out.0).0 in
    let ((_, _, past, _, _), (_, _, past', _, _)) = sound in
    (
      omega arith,
      sound',
      paid_more (length pauses) out.1 finish l.per_second out.0.per_second l'.per_second fast
          (omega arith) after paid,
      paid_more (length pauses) out.1 finish l.per_minute out.0.per_minute l'.per_minute slow
          (omega arith) after paid',
    )

-- A full bucket of a rate that is not zero.
abbrev IsFresh : (now rate capacity : ℕ) → TokenBucket → Type 0
IsFresh now rate capacity b =
    (b.tokens ≡ pos b.capacity)
    × (b.last_refill ≡ now)
    × (b.capacity ≡ capacity)
    × (b.rate ≡ rate)
    × (0 < rate)

token_bucket-IsFresh :
    (rate capacity now : ℕ) (b : TokenBucket)
    → token_bucket rate capacity now ≡ ok b
    → IsFresh now rate capacity b
unfolding token_bucket
token_bucket-IsFresh rate capacity now b h = elim (Bool-cases ((rate == 0) || (capacity == 0))) [
  | inl t ↦ let shown = rw t at h in absurd (cc shown)
  | inr t ↦
      let shown = rw t at h in
      let same : record {
        rate = rate;
        capacity = capacity;
        tokens = pos capacity;
        last_refill = now;
      }
          ≡ b =
        cc in
      rw (← same) (refl, refl, refl, refl, ground arith)
]

rate_limiter-IsFresh :
    (per_second per_minute start : ℕ) (l : RateLimiter)
    → rate_limiter per_second per_minute start ≡ ok l
    → IsFresh start (60 * per_second) (max 1 per_second * unit) l.per_second
      × IsFresh start per_minute (per_minute * unit) l.per_minute
unfolding rate_limiter
rate_limiter-IsFresh per_second per_minute start l h =
    let fast = token_bucket (60 * per_second) (max 1 per_second * unit) start in
    let slow = token_bucket per_minute (per_minute * unit) start in
    elim (Result-cases fast) [
      | inl (b, e) ↦ elim (Result-cases slow) [
        | inl (b', e') ↦
            let shown = rw (e, e') at h in
            let same : record { per_second = b; per_minute = b' } ≡ l = cc in
            rw (← same) (
              token_bucket-IsFresh (60 * per_second) (max 1 per_second * unit) start b e,
              token_bucket-IsFresh per_minute (per_minute * unit) start b' e',
            )
        | inr (x, e') ↦ let shown = rw (e, e') at h in absurd (cc shown)
      ]
      | inr (x, e) ↦ let shown = rw e at h in absurd (cc shown)
    ]

-- So many calls in so many microseconds: no more than the bucket holds and the rate adds.
abbrev pub WithinBudget : (calls start finish : ℕ) → TokenBucket → Type 0
WithinBudget calls start finish b = calls * unit ≤ b.capacity + (finish - start) * b.rate

spent_within :
    (calls start finish : ℕ) (b b' : TokenBucket)
    → b.tokens ≡ pos b.capacity
    → b.last_refill ≡ start
    → IsSoundBucket finish b'
    → PaidBy calls finish b b'
    → WithinBudget calls start finish b
spent_within calls start finish b b' full last (low, _, _, _, _) paid =
    let same : (finish - b.last_refill) * b.rate ≡ (finish - start) * b.rate = rw last refl in
    let parts = ap pos_part full in
    let none = ap neg_part full in
    let used = +ℤ_parts b'.tokens (pos (calls * unit)) in
    let grown = +ℤ_parts b.tokens (pos ((finish - b.last_refill) * b.rate)) in omega arith

-- A new limiter for at least one call a second and a minute, used for any number of calls after any
-- pauses, with a sleep that lasts as long as it is asked to: the calls, from the start to the
-- moment the last one is let through, stay within the budget of a second and of a minute, a full
-- bucket and the rate for the time; and no bucket is overdrawn.
pub acquire_all-WithinBudget :
    (calls_per_second calls_per_minute start : ℕ) (sleep : Sleep) (pauses : List ℕ)
    (l : RateLimiter)
    → Sleeps sleep
    → rate_limiter calls_per_second calls_per_minute start ≡ ok l
    → let (l', finish) = acquire_all sleep pauses start l in
      IsSound finish l'
      × WithinBudget (length pauses) start finish l.per_second
      × WithinBudget (length pauses) start finish l.per_minute
acquire_all-WithinBudget per_second per_minute start sleep pauses l sleeps h =
    let (fast, slow) = rate_limiter-IsFresh per_second per_minute start l h in
    let (full, last, fits, rate, moves) = fast in
    let (full', last', fits', rate', moves') = slow in
    let up = ap pos_part full in
    let down = ap neg_part full in
    let up' = ap pos_part full' in
    let down' = ap neg_part full' in
    let most : unit ≤ max 1 per_second * unit = grind arith in
    let sound : IsSound start l = (
      (omega arith, omega arith, omega arith, omega arith, omega arith),
      (omega arith, omega arith, omega arith, omega arith, omega arith),
    ) in
    let (after, sound', paid, paid') = acquire_all-PaidBy sleep pauses start l sleeps sound in
    let finish = (acquire_all sleep pauses start l).1 in
    (
      sound',
      spent_within (length pauses) start finish l.per_second
          (acquire_all sleep pauses start l).0.per_second full last sound'.0 paid,
      spent_within (length pauses) start finish l.per_minute
          (acquire_all sleep pauses start l).0.per_minute full' last' sound'.1 paid',
    )
