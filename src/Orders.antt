-- ===== src/Orders.antt =====
-- order-execution-service: OrderService and ConfirmationGateService
-- (apps/order-execution-service/src/modules). The state is the `orders` table, the wallets of
-- escrow-service behind EscrowClient, and the outgoing calls and events, newest first. What the
-- gateway, the network, the clock and `randomUUID` answer in a request is its `World`.
mod State
unfoldable pub use gusto_backend.Orders.State.*
pub mod Api
pub mod Wallet
pub mod Placement
pub mod Settle
pub mod Backing
use gusto_backend.Common.{
  String, Bool, true, false, Option, none, some, if◌then◌else◌, str_eq, not, ◌&&◌,
}
use gusto_backend.Common.Int.{leb_ℤ}
use gusto_backend.Common.Http.{
  Action, ◌>>=◌, ◌>>◌, pure, throw, or_throw, throw_if, attempt, conflict, unprocessable, internal,
}
use gusto_backend.Escrow.Api.{reserves, captures, releases}
use gusto_backend.Hacker.Service.{Reply, failed, refused, success}

-- `markFailed` returns never.
unfoldable pub mark_failed : {A : Type 0} → World → String → Order → Action Orders A
mark_failed w id order = do
  update_order id (λ o. record o { order_status = failed_order })
  attempt (
      wallet_call w.releasing
        (releases (amount_body order.user_id order.stored_cart.cart.final_total)))
  publish w.bus (order_failed order.user_id id)
  throw unprocessable

unfoldable pub mark_placed : World → String → Order → String → Action Orders Answer
mark_placed w id order ref = do
  updated ←
      update_order id (λ o. record o {
        order_status = placed;
        swiggy_order_ref = some ref;
        placed_at = some w.now;
      })
  attempt (
      wallet_call w.capturing
        (captures (amount_body order.user_id order.stored_cart.cart.final_total)))
  publish w.bus (order_placed order.user_id id order.stored_cart.cart)
  pure (placed_as id updated.order_status ref)

-- The answer of get_food_orders only reaches the reason's text.
unfoldable pub reconcile_ambiguous_failure : {A : Type 0} → World → String → Order → Action Orders A
reconcile_ambiguous_failure w id order = do
  attempt (call_out w.lists_orders (get_food_orders order.user_id order.stored_cart.address_id))
  mark_failed w id order

-- `if (cart.couponCode)`: an empty code is none.
unfoldable pub apply_coupon : World → String → StoredOrderCart → Action Orders (Unit {0})
apply_coupon w user stored = elim stored.cart.coupon_code [
  | none ↦ pure tt
  | some code ↦
      if str_eq code ""
      then pure tt
      else call_out w.applies_coupon (apply_food_coupon user code stored.address_id)
]

-- The body of the `try`; an answer with `success: false` is not looked at.
unfoldable pub populate_cart : World → String → StoredOrderCart → Action Orders (Unit {0})
populate_cart w user stored = do
  call_out w.updates_cart
      (update_food_cart user stored.restaurant_id stored.address_id stored.cart.items)
  apply_coupon w user stored
  call_out w.gets_cart (get_food_cart user stored.address_id)

-- `ConfirmationGateService.requestConfirmation`: a failure is logged.
unfoldable pub ask_confirmation : World → String → String → Action Orders Bool
ask_confirmation w id user = attempt (call_out w.confirms (request_confirmation user id))

-- `ConfirmationGateService.isConfirmed`
unfoldable pub is_confirmed : String → Action Orders Bool
is_confirmed id = do
  order ← find_order id
  pure (elim order.order_status [ pending_confirmation ↦ false | _ ↦ true ])

abbrev pub new_order : String → StoredOrderCart → Order
new_order user stored = record {
  user_id = user;
  swiggy_order_ref = none;
  order_status = pending_confirmation;
  stored_cart = stored;
  savings_achieved = stored.cart.savings_achieved;
  placed_at = none;
  delivered_at = none;
}

unfoldable pub populate_and_await_confirmation :
    World → String → StoredOrderCart → Action Orders Answer
populate_and_await_confirmation w user stored = do
  throw_if (leb_ℤ max_order_total_paise stored.cart.final_total) unprocessable
  wallet_call w.reserving (reserves (amount_body user stored.cart.final_total))
  create_order w.uuid (new_order user stored)
  populated ← attempt (populate_cart w user stored)
  if populated then pure tt else mark_failed w w.uuid (new_order user stored)
  ask_confirmation w w.uuid user
  pure (accepted w.uuid pending_confirmation)

-- `findUnique` and the two tests of `confirmAndPlace`.
unfoldable pub check_pending : String → Action Orders Order
check_pending id = do
  order ← find_order id
  elim order.order_status [ pending_confirmation ↦ pure order | _ ↦ throw conflict ]

-- `result.data?.orderId ?? result.data?.order_id ?? randomUUID()`
abbrev pub order_ref : World → Option PlaceData → String
order_ref w none = w.uuid
order_ref w (some d) = elim d.order_id_camel [
  | some ref ↦ ref
  | none ↦ elim d.order_id_snake [ some ref ↦ ref | none ↦ w.uuid ]
]

-- A text that counts as false is dropped.
abbrev pub truthy : Option String → Option String
truthy none = none
truthy (some ref) = if str_eq ref "" then none else some ref

-- What follows place_food_order, by its answer.
unfoldable pub settle : World → String → Order → Reply (Option PlaceData) → Action Orders Answer
settle w id order failed = reconcile_ambiguous_failure w id order
settle w id order (success answer) = mark_placed w id order (order_ref w answer)
settle w id order refused = mark_failed w id order

-- `confirmAndPlace` behind its tests.
unfoldable pub place_order : World → String → Order → Action Orders Answer
place_order w id order = do
  call_out true (
      place_food_order id order.user_id order.stored_cart.address_id
        (truthy order.stored_cart.payment_method))
  settle w id order w.placing

unfoldable pub confirm_and_place : World → String → Action Orders Answer
confirm_and_place w id = do order ← check_pending id; place_order w id order

unfoldable pub get_status : String → Action Orders Answer
get_status id = do order ← find_order id; pure (row id order)

-- `swiggyStatus && swiggyStatus.toUpperCase() === "DELIVERED"`
abbrev pub reports_delivery : (String → String) → Option String → Bool
reports_delivery to_upper_case none = false
reports_delivery to_upper_case (some s) = not (str_eq s "") && str_eq (to_upper_case s) "DELIVERED"

-- The branch of a delivered order.
unfoldable pub mark_delivered : World → String → Order → Action Orders Answer
mark_delivered w id order = do
  updated ← update_order id (λ o. record o { order_status = delivered; delivered_at = some w.now })
  publish w.bus (order_delivered order.user_id id)
  pure (accepted id updated.order_status)

unfoldable pub poll_delivery_status : (String → String) → World → String → Action Orders Answer
poll_delivery_status to_upper_case w id = do
  order ← find_order id
  ref ← or_throw (truthy order.swiggy_order_ref) conflict
  call_out true (track_food_order order.user_id ref)
  swiggy_status ← or_throw w.tracking internal
  if reports_delivery to_upper_case swiggy_status
      then mark_delivered w id order
      else pure (tracked id order.order_status swiggy_status)
