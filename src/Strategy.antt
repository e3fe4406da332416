-- ===== src/Strategy.antt =====
-- The data of the strategy engine: src/etf_platform/strategy_engine/models.py. Weights are whole
-- numbers of the part that a caller chooses, money is in paise, dates are ordinals. The f-strings of
-- the rationale's numbers are rendered by a parameter.
pub mod Priority
pub mod Orders
pub mod Funding
pub mod States
pub mod Cycle
pub mod Backtested
mod Tests
use etf_platform_paper_mode.Common.{
  ℕ, ◌+◌, Bool, false, Option, none, some, List, [], ◌∷◌, ◌++◌, Result, ok, raised,
}
use etf_platform_paper_mode.Common.Int.{ℤ, pos, negsuc}
use etf_platform_paper_mode.Common.Texts.{Text}
use etf_platform_paper_mode.Backtest.{OrderIntent}

-- `ValueError`, `SellInstructionAttemptedError`, a refused order, and what a port raises.
pub data StrategyError : Type 0 where
  value_error sell_instruction_attempted refused_order : StrategyError
  port_failed : ℕ → StrategyError

pub data ContributionSource : Type 0 where
  recurring_monthly lump_sum none_given : ContributionSource

pub data FundingState : Type 0 where
  awaiting_funds executing idle : FundingState

pub data Command : Type 0 where
  pause resume discontinue : Command

-- `AvailableInvestmentPool`
pub record Pool : Type 0 where
  pub existing_portfolio_value : ℕ
  pub new_capital : ℕ
  pub capital_source : ContributionSource

-- Its `__post_init__` refuses negative amounts.
unfoldable pub available_investment_pool : ℤ → ℤ → ContributionSource → Result StrategyError Pool
available_investment_pool (negsuc _) _ source = raised value_error
available_investment_pool (pos _) (negsuc _) source = raised value_error
available_investment_pool (pos existing) (pos capital) source =
    ok (record {
      existing_portfolio_value = existing;
      new_capital = capital;
      capital_source = source;
    })

abbrev pub total_investable : Pool → ℕ
total_investable pool = pool.existing_portfolio_value + pool.new_capital

pub record BuyOpportunity : Type 0 where
  pub symbol : ℕ
  pub current_weight : ℕ
  pub target_weight : ℕ
  pub gap : ℕ

-- `ProposedOrderExplanation`; the market context is advisory text.
pub record Explanation : Type 0 where
  pub symbol : ℕ
  pub gap_at_decision_time : ℕ
  pub priority_rank : ℕ
  pub funding_source : ContributionSource
  pub market_context : Option Text

-- "Buy-only allocation: "
abbrev pub allocation_prefix : Text
allocation_prefix =
    66 ∷ 117 ∷ 121 ∷ 45 ∷ 111 ∷ 110 ∷ 108 ∷ 121 ∷ 32 ∷ 97 ∷ 108 ∷ 108 ∷ 111 ∷ 99 ∷ 97 ∷ 116 ∷ 105
    ∷ 111 ∷ 110 ∷ 58 ∷ 32 ∷ []

unfoldable pub as_text : (render : Explanation → Text) → Explanation → Text
as_text render e = allocation_prefix ++ render e

-- `StrategyEngineState`
pub record StrategyState : Type 0 where
  pub current_month : ℕ
  pub funding_state : FundingState
  pub reminder_sent_this_month : Bool
  pub last_check_date : Option ℕ
  pub paused : Bool
  pub discontinued : Bool

-- A state of a month in which nothing has happened.
abbrev pub fresh_state : (month : ℕ) → (paused discontinued : Bool) → StrategyState
fresh_state month paused discontinued = record {
  current_month = month;
  funding_state = awaiting_funds;
  reminder_sent_this_month = false;
  last_check_date = none;
  paused = paused;
  discontinued = discontinued;
}

-- `PendingSideEffects`: a reminder as of a date, and an expected contribution of zero as of one.
pub record PendingSideEffects : Type 0 where
  pub reminder_message : Option ℕ
  pub expected_contribution : Option ℕ

-- The notes that are read again, or that tell the cases apart.
pub data Note : Type 0 where
  new_month lump_sum_initiated discontinued_note paused_note already_allocated : Note
  reminder_pending not_available funds_detected deferred_note : Note

-- `CycleResult`, without `reminder_sent`, which is read off the texts of the notes.
pub record CycleResult : Type 0 where
  pub as_of_date : ℕ
  pub funding_state_before : FundingState
  pub funding_state_after : FundingState
  pub orders : List OrderIntent
  pub notes : List Note
  pub cycle_id : Option (ℕ × ContributionSource)
  pub deferred_to_next_trading_day : Bool
