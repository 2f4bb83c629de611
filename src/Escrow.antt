-- ===== src/Escrow.antt =====
-- escrow-service: the wallet of each user (apps/escrow-service/src/modules/wallet and rollover).
-- Amounts are integers in paise; the balance is signed, since no test keeps `currentBalance` above
-- zero in every method. `days_left` is only written by `deposit` (30) and by the guarded decrement
-- of `tick`, so it is a natural number. A method is an `Action` on the `subscriptions` table and on
-- the events that the bus took. `up` says whether the bus took the event of this call.
pub mod Api
pub mod Errors
pub mod Invariant
pub mod Spec
pub mod Cycle
pub mod Rows
pub mod Overdraft
pub mod Consumers
use gusto_backend.Common.{
  ℕ, ◌-◌, String, Bool, Option, none, some, List, [], ◌∷◌, ◌==◌, if◌then◌else◌, ltb,
}
use gusto_backend.Common.Int.{ℤ, pos, ◌+ℤ◌, ◌-ℤ◌, leb_ℤ, ltb_ℤ, floor_div}
use gusto_backend.Common.Dict.{Dict, lookup, insert}
use gusto_backend.Common.Http.{
  Action, ◌>>=◌, ◌>>◌, pure, or_throw, throw_if, gets, modify, not_found, conflict,
}

-- `model Subscription`; `userId` is the key of the table.
pub record Subscription : Type 0 where
  pub total_deposited : ℤ
  pub current_balance : ℤ
  pub reserved_amount : ℤ
  pub days_left : ℕ
  pub daily_avg_limit : ℤ

pub data BusEvent : Type 0 where
  budget_updated : String → ℤ → ℤ → BusEvent
  rollover_applied : String → ℤ → ℤ → BusEvent

pub record Escrow : Type 0 where
  pub subscriptions : Dict Subscription
  pub published : List BusEvent  -- newest first

abbrev pub cycle_days : ℕ
cycle_days = 30

-- A `try`/`catch` around `publish`: an event that the bus refuses is logged and dropped.
abbrev pub try_publish : Bool → BusEvent → Action Escrow (Unit {0})
try_publish up e = modify λ s. if up then record s { published = e ∷ s.published } else s

abbrev pub publish_budget_updated : Bool → String → Subscription → Action Escrow (Unit {0})
publish_budget_updated up user sub =
    try_publish up (budget_updated user sub.current_balance sub.daily_avg_limit)

-- `tx.subscription.findUnique` and the throw on `null`
abbrev pub find_subscription : String → Action Escrow Subscription
find_subscription user s = or_throw (lookup user s.subscriptions) not_found s

-- `tx.subscription.update`
abbrev pub save : String → Subscription → Action Escrow (Unit {0})
save user sub = modify λ s. record s { subscriptions = insert user sub s.subscriptions }

-- The row that `upsert` leaves: `create` takes the column's default 0 for `reservedAmount`, `update`
-- does not name that column.
abbrev pub fresh_cycle : ℤ → Option Subscription → Subscription
fresh_cycle amount none = record {
  total_deposited = amount;
  current_balance = amount;
  reserved_amount = pos 0;
  days_left = cycle_days;
  daily_avg_limit = floor_div amount cycle_days;
}
fresh_cycle amount (some sub) = record sub {
  total_deposited = amount;
  current_balance = amount;
  days_left = cycle_days;
  daily_avg_limit = floor_div amount cycle_days;
}

unfoldable pub deposit : Bool → String → ℤ → Action Escrow Subscription
deposit up user amount = do
  throw_if (leb_ℤ amount (pos 0)) conflict
  old ← gets (λ s. lookup user s.subscriptions)
  let sub = fresh_cycle amount old
  save user sub
  publish_budget_updated up user sub
  pure sub

-- `savingsAchieved` only reaches the log.
unfoldable pub debit : Bool → String → ℤ → ℤ → Action Escrow Subscription
debit up user amount savings = do
  throw_if (leb_ℤ amount (pos 0)) conflict
  sub ← find_subscription user
  throw_if (ltb_ℤ sub.current_balance amount) conflict
  let updated = record sub { current_balance = sub.current_balance -ℤ amount }
  save user updated
  publish_budget_updated up user updated
  pure updated

-- The daily limit over what is left of the cycle.
abbrev pub limit_over : ℤ → ℕ → ℤ
limit_over balance days = if ltb 0 days then floor_div balance days else balance

unfoldable pub tick : Bool → String → Action Escrow Subscription
tick up user = do
  sub ← find_subscription user
  throw_if (sub.days_left == 0) conflict
  let days = sub.days_left - 1
  let updated = record sub {
    days_left = days;
    daily_avg_limit = limit_over sub.current_balance days;
  }
  save user updated
  publish_budget_updated up user updated
  pure updated

unfoldable pub reserve : Bool → String → ℤ → Action Escrow Subscription
reserve up user amount = do
  throw_if (leb_ℤ amount (pos 0)) conflict
  sub ← find_subscription user
  throw_if (ltb_ℤ (sub.current_balance -ℤ sub.reserved_amount) amount) conflict
  let updated = record sub { reserved_amount = sub.reserved_amount +ℤ amount }
  save user updated
  publish_budget_updated up user updated
  pure updated

unfoldable pub capture_reservation : Bool → String → ℤ → Action Escrow Subscription
capture_reservation up user amount = do
  throw_if (leb_ℤ amount (pos 0)) conflict
  sub ← find_subscription user
  throw_if (ltb_ℤ sub.reserved_amount amount) conflict
  let updated = record sub {
    current_balance = sub.current_balance -ℤ amount;
    reserved_amount = sub.reserved_amount -ℤ amount;
  }
  save user updated
  publish_budget_updated up user updated
  pure updated

-- No event: `releaseReservation` does not publish.
unfoldable pub release_reservation : String → ℤ → Action Escrow Subscription
release_reservation user amount = do
  throw_if (leb_ℤ amount (pos 0)) conflict
  sub ← find_subscription user
  throw_if (ltb_ℤ sub.reserved_amount amount) conflict
  let updated = record sub { reserved_amount = sub.reserved_amount -ℤ amount }
  save user updated
  pure updated

-- `Math.max(daysLeft, 1)`
abbrev pub at_least_one : ℕ → ℕ
at_least_one days = if ltb days 1 then 1 else days

-- `RolloverService.redistribute`
unfoldable pub redistribute : Bool → String → Action Escrow Subscription
redistribute up user = do
  sub ← find_subscription user
  let new_limit = floor_div sub.current_balance (at_least_one sub.days_left)
  let updated = record sub { daily_avg_limit = new_limit }
  save user updated
  try_publish up (rollover_applied user sub.daily_avg_limit new_limit)
  pure updated

-- `rollover`
abbrev pub rollover : Bool → String → Action Escrow Subscription
rollover = redistribute

-- `getBalance`; `getSubscription` is the same.
unfoldable pub get_balance : String → Action Escrow Subscription
get_balance user = find_subscription user

-- The consumers of the queues: OrderPlaced is a debit, MealSkipped is a rollover.
abbrev pub on_order_placed : Bool → String → ℤ → ℤ → Action Escrow Subscription
on_order_placed up user final_total savings = debit up user final_total savings

abbrev pub on_meal_skipped : Bool → String → Action Escrow Subscription
on_meal_skipped up user = redistribute up user
