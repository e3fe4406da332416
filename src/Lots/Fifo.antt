-- ===== src/Lots/Fifo.antt =====
-- What a sale takes from the FIFO lots of cost_tax_engine.py.
use etf_platform_paper_mode.Common.{
  ℕ, ◌+◌, ◌-◌, ◌*◌, ◌≤◌, ◌<◌, ◌≡◌, ◌≢◌, inl, inr, refl, ap, sym, ◌∙◌, List, [], ◌∷◌, ok, raised,
  arith, Bool-cases, Option-cases, ◌==◌, leb, leb→le,
}
use etf_platform_paper_mode.Common.Dict.{lookup, insert, lookup-insert, lookup-insert_self}
use etf_platform_paper_mode.Lots.{
  insufficient_lots, GainConfig, TaxLot, RealizedGain, Lots, lots_or_none, open_lots,
  total_quantity, total_open_quantity, realize, match_lots, match_sell,
}

abbrev pub sold : List RealizedGain → ℕ
sold [] = 0
sold (g ∷ gs) = g.quantity + sold gs

-- What the units were bought for, by the value of a price that splits have divided.
abbrev pub cost_basis : (value : ℕ → ℕ → ℕ) → List TaxLot → ℕ
cost_basis value [] = 0
cost_basis value (lot ∷ lots) = value lot.buy_price lot.per * lot.quantity + cost_basis value lots

abbrev pub sold_basis : (value : ℕ → ℕ → ℕ) → List RealizedGain → ℕ
sold_basis value [] = 0
sold_basis value (g ∷ gs) = value g.buy_price g.per * g.quantity + sold_basis value gs

-- The gains account for the units and for their cost basis, whatever a unit of a price is worth.
abbrev pub Accounts : ℕ → List TaxLot → List TaxLot → List RealizedGain → Type 0
Accounts quantity lots lots' gains =
    (sold gains ≡ quantity)
    × (total_quantity lots' + quantity ≡ total_quantity lots)
    × ((value : ℕ → ℕ → ℕ)
        → cost_basis value lots' + sold_basis value gains ≡ cost_basis value lots)

module _ (cfg : GainConfig) (symbol sell_date sell_price : ℕ) where
  oversold :
      (remaining : ℕ) (lots : List TaxLot)
      → total_quantity lots < remaining
      → match_lots cfg symbol sell_date sell_price remaining lots ≡ (raised insufficient_lots, [])
  unfolding match_lots
  oversold remaining [] h = ground arith
  oversold remaining (lot ∷ lots) h = ground (arith, oversold (remaining - lot.quantity) lots)

  covered :
      (remaining : ℕ) (lots : List TaxLot)
      → remaining ≤ total_quantity lots
      → (gains : List RealizedGain) × ((match_lots cfg symbol sell_date sell_price remaining lots).0
          ≡ ok gains)
        × Accounts remaining lots
            (match_lots cfg symbol sell_date sell_price remaining lots).1
            gains
  unfolding match_lots
  covered remaining [] h =
      let none_left : remaining ≡ 0 = omega arith in
      rw none_left ([], refl, (refl, refl, λ value. refl))
  covered remaining (lot ∷ lots) h = elim (Bool-cases (remaining == 0)) [
    | inl t ↦ rw t ([], refl, (ground arith, ground arith, λ value. omega arith))
    | inr t ↦ elim (Bool-cases (leb lot.quantity remaining)) [
      | inl l ↦
          let le = leb→le lot.quantity remaining l in
          let (gains, e, (units, left, basis)) =
            covered (remaining - lot.quantity) lots (omega arith) in
          rw (t, l, e)
            (
              realize cfg symbol sell_date sell_price lot.quantity lot ∷ gains,
              refl,
              (omega arith, omega arith, λ value. grind (arith, basis value)),
            )
      | inr l ↦
          rw (t, l)
            (
              realize cfg symbol sell_date sell_price remaining lot ∷ [],
              refl,
              (omega arith, ground arith, λ value. grind arith),
            )
    ]
  ]

  from_none : (remaining : ℕ) → (match_lots cfg symbol sell_date sell_price remaining []).1 ≡ []
  unfolding match_lots
  from_none remaining = ground arith

  stored :
      (quantity : ℕ) (d : Lots)
      → open_lots symbol (match_sell cfg symbol sell_date quantity sell_price d).1
        ≡ (match_lots cfg symbol sell_date sell_price quantity (open_lots symbol d)).1
  unfolding match_sell open_lots
  stored quantity d = elim (Option-cases (lookup symbol d)) [
    | inl e ↦ rw e (ap lots_or_none e ∙ sym (from_none quantity))
    | inr (lots, e) ↦ rw e (
        ap lots_or_none (
          lookup-insert_self symbol (match_lots cfg symbol sell_date sell_price quantity lots).1 d))
  ]

  others_stay :
      (quantity other : ℕ) (d : Lots)
      → other ≢ symbol
      → open_lots other (match_sell cfg symbol sell_date quantity sell_price d).1
        ≡ open_lots other d
  unfolding match_sell open_lots
  others_stay quantity other d ne = elim (Option-cases (lookup symbol d)) [
    | inl e ↦ rw e refl
    | inr (lots, e) ↦
        let left = (match_lots cfg symbol sell_date sell_price quantity lots).1 in
        let same : lookup other (insert symbol left d) ≡ lookup other d =
          ground (arith, lookup-insert symbol other left d) in
        rw e (ap lots_or_none same)
  ]

  answer_of :
      (quantity : ℕ) (d : Lots)
      → (match_sell cfg symbol sell_date quantity sell_price d).0
        ≡ (match_lots cfg symbol sell_date sell_price quantity (open_lots symbol d)).0
  unfolding match_sell
  answer_of quantity d = refl

-- Selling at most what the symbol's lots hold succeeds: the gains add up to the sold units, the
-- lots keep the others, and lots and gains together keep the cost basis, whatever value is given to a
-- unit of a price and of splits since. Selling more raises, and
-- the symbol's lots are gone. Other symbols' lots stay.
pub match_sell_lem :
    (cfg : GainConfig) (symbol sell_date quantity sell_price : ℕ) (d : Lots)
    → let (r, d') = match_sell cfg symbol sell_date quantity sell_price d in
      (quantity ≤ total_open_quantity symbol d
        → (gains : List RealizedGain) × (r ≡ ok gains)
          × Accounts quantity (open_lots symbol d) (open_lots symbol d') gains)
      × (total_open_quantity symbol d < quantity
          → (r ≡ raised insufficient_lots) × (open_lots symbol d' ≡ []))
      × ((other : ℕ) → other ≢ symbol → open_lots other d' ≡ open_lots other d)
unfolding total_open_quantity
match_sell_lem cfg symbol sell_date quantity sell_price d =
    rw
      (
        stored cfg symbol sell_date sell_price quantity d,
        answer_of cfg symbol sell_date sell_price quantity d,
      )
      (
        covered cfg symbol sell_date sell_price quantity (open_lots symbol d),
        (λ h.
            rw (oversold cfg symbol sell_date sell_price quantity (open_lots symbol d) h)
              (refl, refl)),
        λ other ne. others_stay cfg symbol sell_date sell_price quantity other d ne,
      )
