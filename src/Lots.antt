-- ===== src/Lots.antt =====
-- The FIFO tax lots of src/etf_platform/cost_tax_engine (cost_tax_engine.py and models.py). Quantities
-- are whole units, so the loop's tolerance of 1e-9 means zero. Dates count days, prices paise.
pub mod Fifo
mod Tests
use etf_platform_paper_mode.Common.{
  ℕ, ◌+◌, ◌-◌, ◌*◌, Option, none, some, List, [], ◌∷◌, ◌++◌, Result, ok, raised, Exec, ◌==◌, leb,
  ltb, if◌then◌else◌,
}
use etf_platform_paper_mode.Common.Dict.{Dict, lookup, insert}
use etf_platform_paper_mode.Common.Int.{ℤ, pos, negsuc, ◌-ℤ◌}
use etf_platform_paper_mode.Cost.{CostBreakdown}

-- `InsufficientLotsError`, and the `ValueError` of `apply_split`
pub data LotError : Type 0 where
  insufficient_lots invalid_ratio : LotError

pub data GainType : Type 0 where
  short_term long_term : GainType

-- The fields of `IndiaEquityCostConfig` for gains; the rates in ten-millionths.
pub record GainConfig : Type 0 where
  pub stcg_tax_rate : ℕ
  pub ltcg_tax_rate : ℕ
  pub long_term_threshold_days : ℕ

-- A lot's units were bought for `buy_price / per`, where `per` is the product of its splits' ratios.
pub record TaxLot : Type 0 where
  pub symbol : ℕ
  pub buy_date : ℕ
  pub quantity : ℕ
  pub buy_price : ℕ
  pub per : ℕ
  pub buy_cost_breakdown : CostBreakdown

-- `RealizedGain`, of units bought for `buy_price / per`. The gross gain counts parts of a paisa, of
-- which one has `per`, and the estimated tax ten-millionths of such a part.
pub record RealizedGain : Type 0 where
  pub symbol : ℕ
  pub sell_date : ℕ
  pub quantity : ℕ
  pub buy_date : ℕ
  pub buy_price : ℕ
  pub per : ℕ
  pub sell_price : ℕ
  pub gain_type : GainType
  pub gross_gain : ℤ
  pub tax_rate : ℕ
  pub estimated_tax : ℕ
  pub holding_period_days : ℤ

-- `self._lots`
abbrev pub Lots : Type 0
Lots = Dict (List TaxLot)

-- `self._lots.get(symbol, deque())`
abbrev pub lots_or_none : Option (List TaxLot) → List TaxLot
lots_or_none none = []
lots_or_none (some lots) = lots

unfoldable pub open_lots : ℕ → Lots → List TaxLot
open_lots symbol d = lots_or_none (lookup symbol d)

abbrev pub total_quantity : List TaxLot → ℕ
total_quantity [] = 0
total_quantity (lot ∷ lots) = lot.quantity + total_quantity lots

unfoldable pub total_open_quantity : ℕ → Lots → ℕ
unfolding open_lots
total_open_quantity symbol d = total_quantity (open_lots symbol d)

unfoldable pub record_buy : (symbol buy_date quantity price : ℕ) → CostBreakdown → Lots → Lots
unfolding open_lots
record_buy symbol buy_date quantity price cost d =
    insert symbol
      (open_lots symbol d
        ++ record {
          symbol = symbol;
          buy_date = buy_date;
          quantity = quantity;
          buy_price = price;
          per = 1;
          buy_cost_breakdown = cost;
        }
          ∷ [])
      d

-- `max(0.0, gross_gain)`
abbrev gain_or_zero : ℤ → ℕ
gain_or_zero (pos n) = n
gain_or_zero (negsuc _) = 0

-- `holding_days > threshold`
abbrev gain_type_of : GainConfig → (buy_date sell_date : ℕ) → GainType
gain_type_of cfg buy_date sell_date =
    if ltb (buy_date + cfg.long_term_threshold_days) sell_date then long_term else short_term

abbrev rate_of : GainConfig → GainType → ℕ
rate_of cfg long_term = cfg.ltcg_tax_rate
rate_of cfg short_term = cfg.stcg_tax_rate

-- What one turn of the loop appends.
abbrev pub realize : GainConfig → (symbol sell_date sell_price matched : ℕ) → TaxLot → RealizedGain
realize cfg symbol sell_date sell_price matched lot =
    let kind = gain_type_of cfg lot.buy_date sell_date in
    let gross = pos (sell_price * matched * lot.per) -ℤ pos (lot.buy_price * matched) in
    record {
      symbol = symbol;
      sell_date = sell_date;
      quantity = matched;
      buy_date = lot.buy_date;
      buy_price = lot.buy_price;
      per = lot.per;
      sell_price = sell_price;
      gain_type = kind;
      gross_gain = gross;
      tax_rate = rate_of cfg kind;
      estimated_tax = gain_or_zero gross * rate_of cfg kind;
      holding_period_days = pos sell_date -ℤ pos lot.buy_date;
    }

abbrev prepend :
    RealizedGain
    → Result LotError (List RealizedGain) × List TaxLot
    → Result LotError (List RealizedGain) × List TaxLot
prepend gain (ok gains, lots) = (ok (gain ∷ gains), lots)
prepend gain (raised e, lots) = (raised e, lots)

-- The loop of `match_sell`, by the lots that are left. A lot that covers all that remains ends it;
-- a lot that is used up is dropped, also if the loop raises later.
unfoldable pub match_lots :
    GainConfig
    → (symbol sell_date sell_price remaining : ℕ) → List TaxLot
    → Result LotError (List RealizedGain) × List TaxLot
match_lots cfg symbol sell_date sell_price remaining [] =
    if remaining == 0 then (ok [], []) else (raised insufficient_lots, [])
match_lots cfg symbol sell_date sell_price remaining (lot ∷ lots) =
    let rest = match_lots cfg symbol sell_date sell_price (remaining - lot.quantity) lots in
    if remaining == 0
    then (ok [], lot ∷ lots)
    else if leb lot.quantity remaining
    then prepend (realize cfg symbol sell_date sell_price lot.quantity lot) rest
    else (
      ok (realize cfg symbol sell_date sell_price remaining lot ∷ []),
      record lot { quantity = lot.quantity - remaining } ∷ lots,
    )

-- A symbol without lots gets no entry.
abbrev pub store_lots : ℕ → Option (List TaxLot) → List TaxLot → Lots → Lots
store_lots symbol none lots d = d
store_lots symbol (some _) lots d = insert symbol lots d

unfoldable pub match_sell :
    GainConfig → (symbol sell_date quantity sell_price : ℕ) → Exec LotError Lots (List RealizedGain)
unfolding match_lots open_lots
match_sell cfg symbol sell_date quantity sell_price d =
    let (r, lots) = match_lots cfg symbol sell_date sell_price quantity (open_lots symbol d) in
    (r, store_lots symbol (lookup symbol d) lots d)

abbrev pub adjusted : (ratio : ℕ) → TaxLot → TaxLot
adjusted ratio lot = record lot { quantity = lot.quantity * ratio; per = lot.per * ratio }

abbrev pub adjust_all : (ratio : ℕ) → List TaxLot → List TaxLot
adjust_all ratio [] = []
adjust_all ratio (lot ∷ lots) = adjusted ratio lot ∷ adjust_all ratio lots

abbrev pub split_lots : (symbol ratio : ℕ) → Option (List TaxLot) → Lots → Lots
split_lots symbol ratio none d = d
split_lots symbol ratio (some []) d = d
split_lots symbol ratio (some (lot ∷ lots)) d = insert symbol (adjust_all ratio (lot ∷ lots)) d

-- `apply_split`, for a whole ratio, where 0 stands for one that is not positive.
unfoldable pub apply_split : (symbol ratio : ℕ) → Exec LotError Lots (Unit {0})
apply_split symbol ratio d =
    if ratio == 0
    then (raised invalid_ratio, d)
    else (ok tt, split_lots symbol ratio (lookup symbol d) d)
