-- ===== src/RateLimiter/Bounds.antt =====
-- What a call of rate_limiter.py waits for and takes.
use etf_platform_paper_mode.Common.{
  ℕ, ◌+◌, ◌-◌, ◌*◌, ◌≤◌, ◌<◌, ◌≡◌, ◌⊎◌, ◌==◌, inl, inr, refl, ◌∙◌, ap, leb, leb→le, arith,
  Bool-cases, mul_cancel, mul_le,
}
use etf_platform_paper_mode.Common.Int.{
  pos, ◌+ℤ◌, ◌-ℤ◌, ◌≤ℤ◌, leb_ℤ, pos_part, neg_part, +ℤ_parts, -ℤ_parts,
}
use etf_platform_paper_mode.RateLimiter.{
  unit, TokenBucket, refill, deficit, consume, RateLimiter, Wait, longer, wait_of, Sleep, wake,
  acquire,
}

-- The tokens are neither overdrawn nor more than fit, and a call's tokens fit.
abbrev pub IsSoundBucket : (now : ℕ) → TokenBucket → Type 0
IsSoundBucket now b =
    (pos 0 ≤ℤ b.tokens)
    × (b.tokens ≤ℤ pos b.capacity)
    × (b.last_refill ≤ now)
    × (unit ≤ b.capacity)
    × (0 < b.rate)

abbrev pub IsSound : (now : ℕ) → RateLimiter → Type 0
IsSound now l = IsSoundBucket now l.per_second × IsSoundBucket now l.per_minute

refill-tokens :
    (now : ℕ) (b : TokenBucket)
    → IsSoundBucket now b
    → (pos 0 ≤ℤ (refill now b).tokens)
      × ((refill now b).tokens ≤ℤ pos b.capacity)
      × ((refill now b).tokens ≤ℤ (b.tokens +ℤ pos ((now - b.last_refill) * b.rate)))
      × ((pos unit ≤ℤ (refill now b).tokens)
          ⊎ ((refill now b).tokens ≡ b.tokens +ℤ pos ((now - b.last_refill) * b.rate)))
unfolding refill
refill-tokens now b (low, high, past, room, rate) =
    elim (Bool-cases (leb_ℤ (pos b.capacity) (b.tokens +ℤ pos ((now - b.last_refill) * b.rate)))) [
      | inl t ↦ rw t (omega arith, omega arith, leb→le _ _ t, inl (omega arith))
      | inr t ↦
          let parts = +ℤ_parts b.tokens (pos ((now - b.last_refill) * b.rate)) in
          rw t (ground arith, ground arith, omega arith, inr refl)
    ]

-- What a call takes from a bucket.
abbrev pub Takes : (woken : ℕ) → (before after : TokenBucket) → Type 0
Takes woken b b' =
    IsSoundBucket woken b'
    × (b'.rate ≡ b.rate)
    × (b'.capacity ≡ b.capacity)
    × (b'.last_refill ≡ woken)
    × ((b'.tokens +ℤ pos unit) ≤ℤ (b.tokens +ℤ pos ((woken - b.last_refill) * b.rate)))

refill-fields :
    (now : ℕ) (b : TokenBucket)
    → ((refill now b).rate ≡ b.rate)
      × ((refill now b).capacity ≡ b.capacity)
      × ((refill now b).last_refill ≡ now)
unfolding refill
refill-fields now b = (refl, refl, refl)

pub spans :
    (last now woken rate : ℕ)
    → last ≤ now
    → now ≤ woken
    → (now - last) * rate + (woken - now) * rate ≡ (woken - last) * rate
spans last now woken rate h k = grind arith

-- After a long enough wait there is a token to take.
consume-Takes :
    (now woken : ℕ) (b : TokenBucket)
    → IsSoundBucket now b
    → now ≤ woken
    → deficit (refill now b) ≤ (woken - now) * b.rate
    → Takes woken b (consume woken (refill now b))
unfolding consume deficit
consume-Takes now woken b sound later waited =
    let r = refill now b in
    let (low, high, past, room, rate) = sound in
    let (same_rate, same_capacity, last) = refill-fields now b in
    let (low1, high1, grown1, _) = refill-tokens now b sound in
    let sound1 : IsSoundBucket now r =
      (low1, ground arith, ground arith, ground arith, ground arith) in
    let sound1' : IsSoundBucket woken r =
      (low1, ground arith, ground arith, ground arith, ground arith) in
    let (low2, high2, grown2, either) = refill-tokens woken r sound1' in
    let (same_rate2, same_capacity2, last2) = refill-fields woken r in
    let total = spans b.last_refill now woken b.rate past later in
    let gained : (woken - r.last_refill) * r.rate ≡ (woken - now) * b.rate =
      rw (last, same_rate) refl in
    let grown_parts = +ℤ_parts b.tokens (pos ((now - b.last_refill) * b.rate)) in
    let grown_parts2 = +ℤ_parts r.tokens (pos ((woken - r.last_refill) * r.rate)) in
    let missing = -ℤ_parts (pos unit) r.tokens in
    let enough : pos unit ≤ℤ (refill woken r).tokens = elim either [
      | inl h ↦ h
      | inr h ↦ let parts = ap pos_part h in let negative = ap neg_part h in omega arith
    ] in
    let taken = -ℤ_parts (refill woken r).tokens (pos unit) in
    let whole = +ℤ_parts ((refill woken r).tokens -ℤ pos unit) (pos unit) in
    let grown_all = +ℤ_parts b.tokens (pos ((woken - b.last_refill) * b.rate)) in
    let taken_parts : (((refill woken r).tokens -ℤ pos unit) +ℤ pos unit)
        ≤ℤ (b.tokens +ℤ pos ((woken - b.last_refill) * b.rate)) =
      omega arith in
    (
      (omega arith, omega arith, omega arith, omega arith, omega arith),
      same_rate2 ∙ same_rate,
      same_capacity2 ∙ same_capacity,
      last2,
      taken_parts,
    )

-- A sleep is as long as it was asked to be.
abbrev pub Sleeps : Sleep → Type 0
Sleeps sleep =
    (now : ℕ) (w : Wait) → 0 < w.per → (now ≤ sleep now w) × (w.parts ≤ (sleep now w - now) * w.per)

-- The longer of two waits covers both.
covers :
    (a b : Wait) (d : ℕ)
    → 0 < a.per
    → 0 < b.per
    → (longer a b).parts ≤ d * (longer a b).per
    → (a.parts ≤ d * a.per) × (b.parts ≤ d * b.per)
covers a b d pa pb h = elim (Bool-cases (leb (b.parts * a.per) (a.parts * b.per))) [
  | inl t ↦
      let own = rw t at h in
      let le = leb→le _ _ t in (own, scaled b.parts b.per a.parts a.per d pa le own)
  | inr t ↦
      let own = rw t at h in
      let le : a.parts * b.per ≤ b.parts * a.per = ground arith in
      (scaled a.parts a.per b.parts b.per d pb le own, own)
]
  where
    -- x / p ≤ y / q ≤ d
    scaled : (x p y q d : ℕ) → 0 < q → x * q ≤ y * p → y ≤ d * q → x ≤ d * p
    scaled x p y q d positive le most =
        let up = mul_le y (d * q) p most in
        let turned : d * q * p ≡ d * p * q = grind arith in
        mul_cancel x (d * p) q positive (omega arith)

longer-per : (a b : Wait) → 0 < a.per → 0 < b.per → 0 < (longer a b).per
longer-per a b pa pb = elim (Bool-cases (leb (b.parts * a.per) (a.parts * b.per))) [
  | inl t ↦ rw t pa
  | inr t ↦ rw t pb
]

wake-lem :
    (sleep : Sleep) (now : ℕ) (w : Wait)
    → Sleeps sleep
    → 0 < w.per
    → (now ≤ wake sleep now w) × (w.parts ≤ (wake sleep now w - now) * w.per)
wake-lem sleep now w sleeps some_rate = elim (Bool-cases (w.parts == 0)) [
  | inl t ↦ rw t (omega arith, ground arith)
  | inr t ↦ rw t (sleeps now w some_rate)
]

-- A call waits until both buckets have a token, and takes one of each.
pub acquire-Takes :
    (sleep : Sleep) (now : ℕ) (l : RateLimiter)
    → Sleeps sleep
    → IsSound now l
    → let (l', woken) = acquire sleep now l in
      (now ≤ woken)
      × Takes woken l.per_second l'.per_second
      × Takes woken l.per_minute l'.per_minute
unfolding acquire refill
acquire-Takes sleep now l sleeps (s, m) =
    let s' = refill now l.per_second in
    let m' = refill now l.per_minute in
    let (rate_s, _, _) = refill-fields now l.per_second in
    let (rate_m, _, _) = refill-fields now l.per_minute in
    let (_, _, _, _, fast) = s in
    let (_, _, _, _, slow) = m in
    let (later, waited) =
      wake-lem sleep now (longer (wait_of s') (wait_of m')) sleeps
        (longer-per (wait_of s') (wait_of m') fast slow) in
    let woken = wake sleep now (longer (wait_of s') (wait_of m')) in
    let (ds, dm) =
      covers (wait_of s') (wait_of m') (woken - now) (omega arith) (omega arith) waited in
    let ds' : deficit s' ≤ (woken - now) * l.per_second.rate = rw rate_s at ds in
    let dm' : deficit m' ≤ (woken - now) * l.per_minute.rate = rw rate_m at dm in
    (
      later,
      consume-Takes now woken l.per_second s later ds',
      consume-Takes now woken l.per_minute m later dm',
    )
