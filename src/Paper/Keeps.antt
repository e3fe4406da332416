-- ===== src/Paper/Keeps.antt =====
-- Every operation of the simulated broker of paper_broker.py keeps its orders sound.
use etf_platform_paper_mode.Common.{
  ℕ, zero, suc, ◌<◌, ◌≡◌, inl, inr, refl, ◌∙◌, some, List, [], ◌∷◌, false, All, Result, ok, arith,
  Bool-cases, Option-cases, Result-cases, ==→eq, if◌then◌else◌, ◌==◌,
}
use mathlib.Core.Path.{subst}
use etf_platform_paper_mode.Common.Dict.{lookup, insert, lookup-insert}
use etf_platform_paper_mode.Cost.{Side}
use etf_platform_paper_mode.Lifecycle.{Error, cancelled}
use etf_platform_paper_mode.Scenarios.{
  Scenario, ScenarioParameters, Provider, fixed, sequential, seeded, scenario_for, get_elem?,
}
use etf_platform_paper_mode.Paper.{
  PaperOrder, PaperBroker, is_terminal, get_order_status, submit_order, cancel_order, accept,
}
use etf_platform_paper_mode.Paper.Sound.{
  IsFraction, AllFractions, IsSoundOrder, IsSoundAt, IsSound, partial_quantity_bounds,
}
use etf_platform_paper_mode.Paper.Reference.{Stores, minus_zero, polled}
use etf_platform_paper_mode.Paper.Polled.{get_order_status-unknown, get_order_status-polled}
use etf_platform_paper_mode.Paper.Cancelled.{cancel_order_lem, cancel_order-unknown}

pub polled-IsSoundOrder :
    (p : ScenarioParameters) (o : PaperOrder)
    → IsFraction p
    → IsSoundOrder o
    → IsSoundOrder (polled p o)
unfolding polled
polled-IsSoundOrder p o f h = ground (arith, partial_quantity_bounds p o.quantity)

-- A broker that differs from a sound one in a stored sound order, and not in its parameters and
-- provider, is sound.
Stores-IsSound :
    (b : PaperBroker) (id paid : ℕ) (o' : PaperOrder) (r : Result Error PaperOrder × PaperBroker)
    → IsSound b
    → IsSoundAt b id o'
    → Stores b id o' paid r
    → IsSound r.1
Stores-IsSound b id paid o' (r, b') h at (_, stored, _, same_parameters, same_scenarios, _, _) =
    record {
      orders_sound = λ j x e. found j x (rw (stored, lookup-insert) at e);
      provider_sound = rw same_scenarios h.provider_sound;
    }
  where
    moved : (j : ℕ) (x : PaperOrder) → IsSoundAt b j x → IsSoundAt b' j x
    moved j x s = record {
      sound = s.sound;
      own_id = s.own_id;
      parameters = s.parameters;
      parameters_found = rw same_parameters s.parameters_found;
      fraction = s.fraction;
    }

    found :
        (j : ℕ) (x : PaperOrder)
        → (if id == j then some o' else lookup j b.orders) ≡ some x
        → IsSoundAt b' j x
    found j x e = elim (Bool-cases (id == j)) [
      | inl t ↦
          let same : some o' ≡ some x = rw t at e in
          let same' : o' ≡ x = cc in
          moved j x
            (subst (λ y. IsSoundAt b j y) same' (subst (λ k. IsSoundAt b k o') (==→eq id j t) at))
      | inr t ↦ moved j x (h.orders_sound j x (rw t at e))
    ]

own_id-polled :
    (p : ScenarioParameters) (o : PaperOrder) → (polled p o).broker_order_id ≡ o.broker_order_id
unfolding polled
own_id-polled p o = ground arith

-- A poll keeps the broker sound, also when it raises.
pub get_order_status-IsSound :
    (b : PaperBroker) (id : ℕ) → IsSound b → IsSound (get_order_status id b).1
get_order_status-IsSound b id h = elim (Option-cases (lookup id b.orders)) [
  | inl e ↦ rw (get_order_status-unknown b id e) h
  | inr (o, e) ↦
      let s = h.orders_sound id o e in
      Stores-IsSound b id _ (polled s.parameters o) (get_order_status id b) h
        (record {
          sound = polled-IsSoundOrder s.parameters o s.fraction s.sound;
          own_id = own_id-polled s.parameters o ∙ s.own_id;
          parameters = s.parameters;
          parameters_found = s.parameters_found;
          fraction = s.fraction;
        })
        (get_order_status-polled b id o s.parameters s.sound e s.parameters_found)
]

get_elem?-IsFraction :
    (scenarios : List (Scenario × ScenarioParameters)) (i : ℕ) (x : Scenario × ScenarioParameters)
    → All (λ s. IsFraction s.1) scenarios
    → get_elem? scenarios i ≡ some x
    → IsFraction x.1
get_elem?-IsFraction [] i x h e = cc
get_elem?-IsFraction (s ∷ ss) zero x h e = let e' : s ≡ x = cc in subst (λ y. IsFraction y.1) e' h.0
get_elem?-IsFraction (s ∷ ss) (suc i) x h e = get_elem?-IsFraction ss i x h.1 e

-- A provider of fractions stays one, and the parameters that it assigns are a fraction.
scenario_for-fractions :
    (p : Provider)
    → AllFractions p
    → AllFractions (scenario_for p).1
      × ((x : Scenario × ScenarioParameters) → (scenario_for p).0 ≡ ok x → IsFraction x.1)
unfolding scenario_for
scenario_for-fractions (fixed s q) h = (h, λ x e. ground arith)
scenario_for-fractions (seeded draws q n) h = (h, λ x e. ground arith)
scenario_for-fractions (sequential ss i) h = elim (Option-cases (get_elem? ss i)) [
  | inl e ↦ rw e (h, λ x e'. cc)
  | inr (y, e) ↦ rw e (h, λ x e'. get_elem?-IsFraction ss i x h (ground arith))
]

module _ (b : PaperBroker) (h : IsSound b) where
  -- A broker with one more sound order and its parameters is sound.
  added-IsSound :
      (b' : PaperBroker) (id : ℕ) (o : PaperOrder) (p : ScenarioParameters)
      → IsSoundOrder o
      → o.broker_order_id ≡ id
      → IsFraction p
      → AllFractions b'.scenarios
      → b'.orders ≡ insert id o b.orders
      → b'.order_parameters ≡ insert id p b.order_parameters
      → IsSound b'
  added-IsSound b' id o p s own f provider eo ep = record {
    orders_sound = λ j x e. found j x (rw (eo, lookup-insert) at e);
    provider_sound = provider;
  }
    where
      found :
          (j : ℕ) (x : PaperOrder)
          → (if id == j then some o else lookup j b.orders) ≡ some x
          → IsSoundAt b' j x
      found j x e = elim (Bool-cases (id == j)) [
        | inl t ↦
            let same : some o ≡ some x = rw t at e in
            let same' : o ≡ x = cc in
            record {
              sound = subst IsSoundOrder same' s;
              own_id = rw (← same', own) (==→eq id j t);
              parameters = p;
              parameters_found = rw (ep, lookup-insert, t) refl;
              fraction = f;
            }
        | inr t ↦
            let old = h.orders_sound j x (rw t at e) in
            record {
              sound = old.sound;
              own_id = old.own_id;
              parameters = old.parameters;
              parameters_found = rw (ep, lookup-insert, t) old.parameters_found;
              fraction = old.fraction;
            }
      ]

  -- So is one that differs only in what soundness does not speak of.
  same-IsSound :
      (b' : PaperBroker)
      → AllFractions b'.scenarios
      → b'.orders ≡ b.orders
      → b'.order_parameters ≡ b.order_parameters
      → IsSound b'
  same-IsSound b' provider eo ep = record {
    orders_sound = λ j x e. moved j x (h.orders_sound j x (rw eo at e));
    provider_sound = provider;
  }
    where
      moved : (j : ℕ) (x : PaperOrder) → IsSoundAt b j x → IsSoundAt b' j x
      moved j x old = record {
        sound = old.sound;
        own_id = old.own_id;
        parameters = old.parameters;
        parameters_found = rw ep old.parameters_found;
        fraction = old.fraction;
      }

  accept-IsSound :
      (s : Scenario) (p : ScenarioParameters) (side : Side) (id symbol quantity price ref : ℕ)
      → IsFraction p
      → 0 < quantity
      → IsSound (accept s p side id symbol quantity price ref b).1
  unfolding accept
  accept-IsSound Scenario.immediate_fill p side id symbol quantity price ref f q =
      added-IsSound _ id _ p (record { positive = q; executed_as = (refl, refl); live = tt }) refl f
        h.provider_sound refl refl
  accept-IsSound Scenario.partial_fill p side id symbol quantity price ref f q =
      added-IsSound _ id _ p (record { positive = q; executed_as = (refl, refl); live = tt }) refl f
        h.provider_sound refl refl
  accept-IsSound Scenario.delayed_fill p side id symbol quantity price ref f q =
      added-IsSound _ id _ p (record { positive = q; executed_as = (refl, refl); live = tt }) refl f
        h.provider_sound refl refl
  accept-IsSound Scenario.order_cancelled p side id symbol quantity price ref f q =
      added-IsSound _ id _ p (record { positive = q; executed_as = (refl, refl); live = tt }) refl f
        h.provider_sound refl refl
  accept-IsSound Scenario.order_expired p side id symbol quantity price ref f q =
      added-IsSound _ id _ p (record { positive = q; executed_as = (refl, refl); live = tt }) refl f
        h.provider_sound refl refl
  accept-IsSound _ p side id symbol quantity price ref f q =
      same-IsSound _ h.provider_sound refl refl

-- A submission of a positive quantity keeps the broker sound, also when it raises.
pub submit_order-IsSound :
    (b : PaperBroker) (symbol : ℕ) (side : Side) (quantity price ref : ℕ)
    → IsSound b
    → 0 < quantity
    → IsSound (submit_order symbol side quantity price ref b).1
unfolding submit_order
submit_order-IsSound b symbol side quantity price ref h q =
    let (kept, fractions) = scenario_for-fractions b.scenarios h.provider_sound in
    elim (Result-cases (scenario_for b.scenarios).0) [
      | inl (x, e) ↦ rw e (
          accept-IsSound _ (same-IsSound b h _ kept refl refl) x.0 x.1 side (b.uuids b.drawn) symbol
            quantity price ref (fractions x e) q)
      | inr (x, e) ↦ rw e (same-IsSound b h _ kept refl refl)
    ]

cancelled-IsSoundOrder :
    (o : PaperOrder)
    → IsSoundOrder o
    → is_terminal o.state ≡ false
    → IsSoundOrder (record o { state = cancelled })
cancelled-IsSoundOrder o h t = ground arith

-- A cancellation keeps the broker sound, also when it raises.
pub cancel_order-IsSound : (b : PaperBroker) (id : ℕ) → IsSound b → IsSound (cancel_order id b).1
cancel_order-IsSound b id h = elim (Option-cases (lookup id b.orders)) [
  | inl e ↦ rw (cancel_order-unknown b id e) h
  | inr (o, e) ↦
      let s = h.orders_sound id o e in
      let (_, orders, same_cash, parameters, provider, uuids, drawn) =
        cancel_order_lem b id o s.sound e in
      elim (Bool-cases (is_terminal o.state)) [
        | inl t ↦ same-IsSound b h _ (rw provider h.provider_sound) (rw t at orders) parameters
        | inr t ↦
            Stores-IsSound b id 0 (record o { state = cancelled })
              (ok (record o { state = cancelled }), (cancel_order id b).1) h
              (record {
                sound = cancelled-IsSoundOrder o s.sound t;
                own_id = s.own_id;
                parameters = s.parameters;
                parameters_found = s.parameters_found;
                fraction = s.fraction;
              })
              (
                refl,
                rw t at orders,
                same_cash ∙ minus_zero b.cash,
                parameters,
                provider,
                uuids,
                drawn,
              )
      ]
]
