-- ===== src/Paper/Tests.antt =====
-- The simulated broker with one order that fills in part.
use etf_platform_paper_mode.Common.{◌≡◌, ◌-◌, ◌*◌, List, [], ◌∷◌, none, some, refl, ok, arith}
use etf_platform_paper_mode.Common.Int.{pos}
use etf_platform_paper_mode.Common.Dict.{lookup, insert}
use etf_platform_paper_mode.Cost.{buy}
use etf_platform_paper_mode.Fixtures.{noon}
use etf_platform_paper_mode.Lifecycle.{pending, cancelled}
use etf_platform_paper_mode.Scenarios.{Scenario, ScenarioParameters, fixed}
use etf_platform_paper_mode.Paper.{
  PaperOrder, PaperBroker, new_paper_broker, submit_order, get_order_status, cancel_order,
}
use etf_platform_paper_mode.Paper.Sound.{IsSound, IsSoundOrder}
use etf_platform_paper_mode.Paper.Reference.{Stores, polled}
use etf_platform_paper_mode.Paper.Polled.{get_order_status-polled}
use etf_platform_paper_mode.Paper.Cancelled.{cancel_order_lem}
use etf_platform_paper_mode.Paper.Ledger.{Balances}
use etf_platform_paper_mode.Paper.Runs.{Call, run, run_conserves_cash}
use etf_platform_paper_mode.Paper.Progress.{poll_times, Resolved, polls_resolve}

abbrev halves : ScenarioParameters
halves = record {
  partial_fill_num = 1;
  partial_fill_den = 2;
  delayed_fill_poll_count = 2;
  rejection_reason = [];
}

abbrev start : PaperBroker
start = new_paper_broker noon (fixed Scenario.partial_fill halves) (pos 50_000) (λ n. n)

abbrev calls : List Call
calls = Call.submit 3 buy 4 10_000 20 ∷ Call.status 0 ∷ Call.status 0 ∷ Call.cancel 0 ∷ []

run_conserves_cash_example : IsSound (run calls start) × Balances (pos 50_000) (run calls start)
run_conserves_cash_example =
    run_conserves_cash noon (fixed Scenario.partial_fill halves) (pos 50_000) (λ n. n) calls
      (omega arith) (λ i j e. e) (omega arith, (tt, (tt, (tt, tt))))

abbrev order : PaperOrder
order = record {
  broker_order_id = 0;
  symbol = 3;
  side = buy;
  quantity = 4;
  limit_price = 10_000;
  client_reference = 20;
  scenario = Scenario.partial_fill;
  state = pending;
  submitted_at = noon;
  poll_count = 0;
  executed_quantity = 0;
  executed_price = none;
}

abbrev placed : List Call
placed = Call.submit 3 buy 4 10_000 20 ∷ []

order_found : lookup 0 (run placed start).orders ≡ some order
unfolding run submit_order new_paper_broker
order_found = refl

parameters_found : lookup 0 (run placed start).order_parameters ≡ some halves
unfolding run submit_order new_paper_broker
parameters_found = refl

placed-IsSound : IsSound (run placed start)
placed-IsSound =
    (run_conserves_cash noon (fixed Scenario.partial_fill halves) (pos 50_000) (λ n. n) placed
      (omega arith) (λ i j e. e) (omega arith, tt)).0

order-IsSoundOrder : IsSoundOrder order
order-IsSoundOrder = record { positive = omega arith; executed_as = (refl, refl); live = tt }

polls_resolve_example : Resolved (poll_times 4 0 (run placed start)) 0
polls_resolve_example =
    polls_resolve 0 (run placed start) order halves placed-IsSound order_found parameters_found

get_order_status-polled_example :
    Stores
      (run placed start)
      0
      (polled halves order)
      (((polled halves order).executed_quantity - 0) * 10_000)
      (get_order_status 0 (run placed start))
get_order_status-polled_example =
    get_order_status-polled (run placed start) 0 order halves order-IsSoundOrder order_found
      parameters_found

cancel_order_lem_example :
    let (r, b) = cancel_order 0 (run placed start) in
    (r ≡ ok tt)
    × (b.orders ≡ insert 0 (record order { state = cancelled }) (run placed start).orders)
    × (b.cash ≡ (run placed start).cash)
    × (b.order_parameters ≡ (run placed start).order_parameters)
    × (b.scenarios ≡ (run placed start).scenarios)
    × (b.uuids ≡ (run placed start).uuids)
    × (b.drawn ≡ (run placed start).drawn)
cancel_order_lem_example =
    cancel_order_lem (run placed start) 0 order order-IsSoundOrder order_found
