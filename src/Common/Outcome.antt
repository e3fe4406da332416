-- ===== src/Common/Outcome.antt =====
-- A call that may raise, and a method of an object: it returns or raises, and leaves the object in
-- a new state. What was written before a raise stays written.
use mathlib.Core.Path.{◌≡◌, refl, ap, sym, subst, ◌∙◌}
use mathlib.Core.Logic.{◌⊎◌, inl, inr}
use mathlib.Core.Bool.{Bool}
use mathlib.Core.Option.{Option, none, some}
use etf_platform_paper_mode.Common.Tests.{if◌then◌else◌}

pub data Result (E A : Type 0) : Type 0 where
  ok : A → Result E A
  raised : E → Result E A

abbrev pub Exec : Type 0 → Type 0 → Type 0 → Type 0
Exec E S A = S → Result E A × S

module _ {E S A : Type 0} where
  abbrev pub pure : A → Exec E S A
  pure a s = (ok a, s)

  abbrev pub raise : E → Exec E S A
  raise e s = (raised e, s)

  abbrev pub gets : (S → A) → Exec E S A
  gets f s = (ok (f s), s)

  abbrev pub or_raise : Option A → E → Exec E S A
  or_raise none e = raise e
  or_raise (some a) _ = pure a

-- A call of something that keeps no state here.
abbrev pub lift : {E S A : Type 0} → Result E A → Exec E S A
lift r s = (r, s)

infixl 5 ◌>>=◌ ◌>>◌
abbrev pub ◌>>=◌ : {E S A B : Type 0} → Exec E S A → (A → Exec E S B) → Exec E S B
◌>>=◌ m f s = let (r, s') = m s in elim r [ ok a ↦ f a s' | raised e ↦ raise e s' ]

abbrev pub ◌>>◌ : {E S A B : Type 0} → Exec E S A → Exec E S B → Exec E S B
m >> k = m >>= λ _. k

abbrev pub modify : {E S : Type 0} → (S → S) → Exec E S (Unit {0})
modify f s = (ok tt, f s)

abbrev pub raise_if : {E S : Type 0} → Bool → E → Exec E S (Unit {0})
raise_if c e s = (if c then raised e else ok tt, s)

-- `try … except`, for every exception.
abbrev pub catch : {E S A : Type 0} → Exec E S A → (E → Exec E S A) → Exec E S A
catch m handler s = let (r, s') = m s in elim r [ ok a ↦ (ok a, s') | raised e ↦ handler e s' ]

abbrev pub set_result : {E S A : Type 0} → Result E A → (A → S → S) → Exec E S (Unit {0})
set_result (ok a) f s = (ok tt, f a s)
set_result (raised e) f s = (raised e, s)

pub Result-cases :
    {E A : Type 0} (r : Result E A) → ((a : A) × (r ≡ ok a)) ⊎ ((e : E) × (r ≡ raised e))
Result-cases (ok a) = inl (a, refl)
Result-cases (raised e) = inr (e, refl)

pub >>=-ok :
    {E S A B : Type 0} (m : Exec E S A) (f : A → Exec E S B) {s : S} {a : A} {s' : S}
    → m s ≡ (ok a, s')
    → (m >>= f) s ≡ f a s'
>>=-ok m f e = rw (◌>>=◌, e, ap (λ p. p.1) e) refl

pub >>=-raised :
    {E S A B : Type 0} (m : Exec E S A) (f : A → Exec E S B) {s : S} {e : E} {s' : S}
    → m s ≡ (raised e, s')
    → (m >>= f) s ≡ (raised e, s')
>>=-raised m f e = rw (◌>>=◌, e, ap (λ p. p.1) e) refl

pub raised_not_ok : {E A : Type 0} {e : E} {a : A} → ¬ (raised e ≡ ok a)
raised_not_ok h = cc

-- What returns at the end returned before.
pub >>=-inv :
    {E S A B : Type 0} (m : Exec E S A) (f : A → Exec E S B) (s : S) (b : B)
    → ((m >>= f) s).0 ≡ ok b
    → (a : A) × (s' : S) × (m s ≡ (ok a, s')) × ((f a s').0 ≡ ok b)
>>=-inv m f s b h = elim (Result-cases (m s).0) [
  | inl (a, e) ↦
      let returns = ap (λ r. (r, (m s).1)) e in
      (a, (m s).1, returns, sym (ap (λ p. p.0) (>>=-ok m f returns)) ∙ h)
  | inr (x, e) ↦
      let fails = ap (λ r. (r, (m s).1)) e in
      absurd (raised_not_ok (sym (ap (λ p. p.0) (>>=-raised m f fails)) ∙ h))
]

-- What holds of the state after both parts, given what the first one returned.
pub >>=-after :
    {E S A B : Type 0} (Q : S → Type 0) (m : Exec E S A) (f : A → Exec E S B) (s : S)
    → ((a : A) → (m s).0 ≡ ok a → Q (f a (m s).1).1)
    → ((e : E) → (m s).0 ≡ raised e → Q (m s).1)
    → Q ((m >>= f) s).1
>>=-after Q m f s good bad = elim (Result-cases (m s).0) [
  | inl (a, e) ↦
      let returns = ap (λ r. (r, (m s).1)) e in
      subst (λ out. Q out.1) (sym (>>=-ok m f returns)) (good a e)
  | inr (x, e) ↦
      let fails = ap (λ r. (r, (m s).1)) e in
      subst (λ out. Q out.1) (sym (>>=-raised m f fails)) (bad x e)
]
