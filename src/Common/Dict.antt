-- ===== src/Common/Dict.antt =====
-- A Python dict, in insertion order. Its keys are identifiers, which the program only compares.
use Prim.Native.Nat.{ℕ}
use mathlib.Core.Path.{◌≡◌, refl}
use mathlib.Core.Option.{Option, none, some}
use mathlib.Core.List.{List, [], ◌∷◌}
use native.Mathlib.Omega.{arith}
use etf_platform_paper_mode.Common.Tests.{◌==◌, if◌then◌else◌}

-- Keys and values.
abbrev pub Dict {ℓ} : Type ℓ → Type ℓ
Dict V = List (ℕ × V)

module _ {ℓ} {V : Type ℓ} where
  -- `d.values()`
  abbrev pub values : Dict V → List V
  values [] = []
  values ((_, v) ∷ rest) = v ∷ values rest

  -- `del d[key]`; the keys of a dict differ, so at most one entry goes.
  abbrev pub erase : ℕ → Dict V → Dict V
  erase key [] = []
  erase key ((own, v) ∷ rest) = if own == key then erase key rest else (own, v) ∷ erase key rest

  -- `d.get(key)`
  abbrev pub lookup : ℕ → Dict V → Option V
  lookup key [] = none
  lookup key ((own, v) ∷ rest) = if own == key then some v else lookup key rest

  -- An assignment to `d[key]`: an old key keeps its place, a new one comes last.
  abbrev pub insert : ℕ → V → Dict V → Dict V
  insert key new [] = (key, new) ∷ []
  insert key new ((own, v) ∷ rest) =
      if own == key then (key, new) ∷ rest else (own, v) ∷ insert key new rest

  pub lookup-insert :
      (k j : ℕ) (v : V) (d : Dict V)
      → lookup j (insert k v d) ≡ (if k == j then some v else lookup j d)
  lookup-insert k j v [] = refl
  lookup-insert k j v ((i, w) ∷ d) = ground (arith, lookup-insert k j v d)

  pub lookup-insert_self : (k : ℕ) (v : V) (d : Dict V) → lookup k (insert k v d) ≡ some v
  lookup-insert_self k v d = ground (arith, lookup-insert k k v d)

  pub lookup-erase :
      (k j : ℕ) (d : Dict V) → lookup j (erase k d) ≡ (if k == j then none else lookup j d)
  lookup-erase k j [] = ground arith
  lookup-erase k j ((i, w) ∷ d) = ground (arith, lookup-erase k j d)

  pub insert-insert : (k : ℕ) (v w : V) (d : Dict V) → insert k v (insert k w d) ≡ insert k v d
  insert-insert k v w [] = ground arith
  insert-insert k v w ((i, x) ∷ d) = ground (arith, insert-insert k v w d)

  -- Writing back what a key holds changes nothing.
  pub insert-lookup : (k : ℕ) (v : V) (d : Dict V) → lookup k d ≡ some v → insert k v d ≡ d
  insert-lookup k v [] h = cc
  insert-lookup k v ((i, x) ∷ d) h = ground (arith, insert-lookup k v d)
