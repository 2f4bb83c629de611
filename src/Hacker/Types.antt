-- ===== src/Hacker/Types.antt =====
-- The contracts of the optimizer (packages/contracts/src/dto) and the types of hacker.algorithm.ts.
-- Prices and thresholds are whole paise and not negative, as the schemas demand; totals are signed.
use gusto_backend.Common.{ℕ, String, Bool, Option, List}
use gusto_backend.Common.Int.{ℤ}

pub record CartItem : Type 0 where
  pub item_id : String
  pub price : ℕ
  pub quantity : ℕ

pub data DiscountType : Type 0 where
  flat percentage : DiscountType

pub data PaymentMode : Type 0 where
  online cod wallet : PaymentMode

pub record Coupon : Type 0 where
  pub code : String
  pub discount_type : DiscountType
  pub discount_value : ℕ  -- paise if flat, per cent if percentage; no bound of 100 is checked
  pub max_discount : Option ℕ
  pub min_order_value : ℕ
  pub payment_modes : List PaymentMode
  pub is_applicable : Option Bool
  pub expires_at : Option String

pub record FillerCandidate : Type 0 where
  pub item_id : String
  pub price : ℕ
  pub category : Option String
  pub in_stock : Bool

-- An entry of `finalItems`.
pub record Line : Type 0 where
  pub item_id : String
  pub quantity : ℕ

-- The reasons of the decision log.
pub data Reason : Type 0 where
  not_applicable expired payment_mode_mismatch not_globally_optimal : Reason
  no_filler_combination not_cheaper exceeds_budget accepted : Reason

-- `outcome` is "accepted" exactly for the reason `accepted`.
pub record LogEntry : Type 0 where
  pub coupon_code : String
  pub reason : Reason
  pub computed_total : Option ℤ

pub record Contender : Type 0 where
  pub coupon_code : Option String
  pub items : List Line
  pub total : ℤ
  pub fillers_added : List String

pub record OptimizationInput : Type 0 where
  pub cart_items : List CartItem
  pub coupons : List Coupon
  pub filler_candidates : List FillerCandidate
  pub remaining_daily_budget : ℕ
  pub now : ℕ  -- milliseconds

pub record OptimizationResult : Type 0 where
  pub final_items : List Line
  pub applied_coupon_code : Option String
  pub base_total : ℕ
  pub final_total : ℤ
  pub savings_achieved : ℤ
  pub over_budget : Bool
  pub decision_log : List LogEntry

-- What `bestFillerCombo` returns.
pub record Combo : Type 0 where
  pub item_ids : List String
  pub total_price : ℕ
