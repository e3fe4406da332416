-- ===== src/Fixtures.antt =====
-- Concrete data for the tests: a record, a broker that always answers the same, and the services.
use etf_platform_paper_mode.Common.{ℕ, suc, true, none, some, [], ◌∷◌, ok, ◌*◌}
use etf_platform_paper_mode.Common.Int.{pos}
use etf_platform_paper_mode.Cost.{default_config}
use etf_platform_paper_mode.Events.{Text}
use etf_platform_paper_mode.Lifecycle.{State, filled}
use etf_platform_paper_mode.Orchestrator.{Orchestrator}
use etf_platform_paper_mode.Ports.{BrokerOrder, BrokerPort, pass, MarketDepthSnapshot}
use etf_platform_paper_mode.Reconcile.{ReconciliationService}
use etf_platform_paper_mode.Record.{ExecutionRecord}
use etf_platform_paper_mode.Store.{Store, row_of}
use etf_platform_paper_mode.Time.{Datetime, aware, utc, day}
use etf_platform_paper_mode.Verify.{Note, VerificationService}
use etf_platform_paper_mode.World.{World}

abbrev pub noon : Datetime
noon = aware (730_000 * day) utc

abbrev pub record_in : State → ExecutionRecord
record_in s = record {
  execution_id = 1;
  queue_id = none;
  cycle_id = 20;
  symbol = 3;
  quantity_proposed = 5;
  quantity_final = some 4;
  limit_price = 10_000;
  order_status = s;
  broker_order_id = none;
  executed_price = none;
  executed_quantity = 0;
  is_paper_trade = true;
  created_at = noon;
  last_status_check = none;
  priority_rank = 1;
  notes = [];
}

abbrev pub empty_store : Store
empty_store = record { execution_history = []; cycle_claims = [] }

abbrev pub store_of : ExecutionRecord → Store
store_of r = record { execution_history = (r.execution_id, row_of r) ∷ []; cycle_claims = [] }

-- The broker's state counts the submissions.
abbrev pub world_in : State → World ℕ
world_in s = record {
  store = store_of (record_in s);
  broker = 0;
  events = [];
  sent = [];
  now = noon;
  current = record_in s;
}

abbrev pub filled_order : BrokerOrder
filled_order = record {
  broker_order_id = 77;
  symbol = 3;
  state = filled;
  executed_quantity = 4;
  executed_price = some 10_000;
  client_reference = some 20;
}

abbrev pub port : BrokerPort ℕ
port = record {
  submit_order = λ symbol side quantity price ref b. (ok 77, suc b);
  get_order_status = λ id b. (ok filled_order, b);
  get_open_orders = λ b. (ok [], b);
  get_available_cash = λ b. (ok (pos 35_000), b);
}

abbrev pub depth : MarketDepthSnapshot
depth = record { bid_price = 10_000; ask_price = 10_010; bid_quantity = 50; ask_quantity = 50 }

abbrev pub describe : Note → Text
describe _ = []

abbrev pub verification : VerificationService
verification = record { cost_config = default_config; max_spread_bps = 50 }

abbrev pub orchestrator : Orchestrator ℕ
orchestrator = record {
  port = port;
  quotes = λ _. ok (some depth);
  compliance = λ _ _ _. ok pass;
  notifications = none;
  service = verification;
  describe = describe;
}

abbrev pub reconciliation : ReconciliationService ℕ
reconciliation = record { port = port; notifications = none }
