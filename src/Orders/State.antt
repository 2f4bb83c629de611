-- ===== src/Orders/State.antt =====
-- The data of order-execution-service and the steps that the methods of OrderService share.
use gusto_backend.Common.{ℕ, String, Bool, Option, none, some, List, ◌∷◌, if◌then◌else◌}
use gusto_backend.Common.Int.{ℤ, pos}
use gusto_backend.Common.Dict.{Dict, lookup, insert}
use gusto_backend.Common.Http.{
  Result, ok, err, Action, or_throw, not_found, internal, status, unreachable, response,
  map_upstream_error,
}
use gusto_backend.Escrow.{Escrow, Subscription}
use gusto_backend.Escrow.Api.{Body, Request, serve}
use gusto_backend.Hacker.Types.{Line}
use gusto_backend.Hacker.Service.{OptimizedCart, Reply}

pub data OrderStatus : Type 0 where
  pending_confirmation placed delivered failed_order : OrderStatus

-- `StoredOrderCart`, the `cart` column.
pub record StoredOrderCart : Type 0 where
  pub cart : OptimizedCart
  pub address_id : String
  pub restaurant_id : String
  pub payment_method : Option String

-- `model Order`; `id` is the key of the table.
pub record Order : Type 0 where
  pub user_id : String
  pub swiggy_order_ref : Option String
  pub order_status : OrderStatus
  pub stored_cart : StoredOrderCart
  pub savings_achieved : ℤ
  pub placed_at : Option ℕ
  pub delivered_at : Option ℕ

-- What goes out to mcp-gateway-service and notification-service. `place_food_order` has the order
-- it is for, which the tool is not given.
pub data Call : Type 0 where
  update_food_cart : String → String → String → List Line → Call
  apply_food_coupon : String → String → String → Call
  get_food_cart get_food_orders track_food_order : String → String → Call
  place_food_order : String → String → String → Option String → Call
  request_confirmation : String → String → Call

pub data OrderEvent : Type 0 where
  order_placed : String → String → OptimizedCart → OrderEvent
  order_delivered order_failed : String → String → OrderEvent

pub record Orders : Type 0 where
  pub orders : Dict Order
  pub escrow : Escrow
  pub calls : List Call
  pub events : List OrderEvent

-- How a call of escrow-service goes: it arrives and is answered, it never arrives, or it is served
-- and the answer is lost (the client's 5 s timeout). The Bool is the wallet's event bus.
pub data Delivery : Type 0 where
  answered reply_lost : Bool → Delivery
  lost : Delivery

-- `data` of place_food_order's answer.
pub record PlaceData : Type 0 where
  pub order_id_camel : Option String  -- `orderId`
  pub order_id_snake : Option String  -- `order_id`

pub record World : Type 0 where
  pub now : ℕ
  pub uuid : String
  pub reserving : Delivery
  pub capturing : Delivery
  pub releasing : Delivery
  -- Whether the call returns.
  pub updates_cart : Bool
  pub applies_coupon : Bool
  pub gets_cart : Bool
  pub lists_orders : Bool
  pub confirms : Bool
  pub placing : Reply (Option PlaceData)
  pub tracking : Option (Option String)  -- `none`: the call throws; `data?.status`
  pub bus : Bool  -- the event bus takes what is published

pub data Answer : Type 0 where
  accepted : String → OrderStatus → Answer
  placed_as : String → OrderStatus → String → Answer
  row : String → Order → Answer
  tracked : String → OrderStatus → Option String → Answer

abbrev pub max_order_total_paise : ℤ
max_order_total_paise = pos 100000

-- The answer of a served wallet request, as axios sees it.
abbrev pub reply_of : Result Subscription → Result (Unit {0})
reply_of (ok sub) = ok tt
reply_of (err e) = err (map_upstream_error (response (status e)))

-- A POST to escrow-service with `mapUpstreamError` on what it throws.
unfoldable pub wallet_call : Delivery → Request → Action Orders (Unit {0})
wallet_call lost r s = (err (map_upstream_error unreachable), s)
wallet_call (answered up) r s =
    (reply_of (serve up r s.escrow).0, record s { escrow = (serve up r s.escrow).1 })
wallet_call (reply_lost up) r s =
    (err (map_upstream_error unreachable), record s { escrow = (serve up r s.escrow).1 })

-- `{ userId, amount }`
abbrev pub amount_body : String → ℤ → Body
amount_body user total = record {
  user_id = some user;
  amount = some total;
  savings_achieved = none;
}

-- A call of the gateway that returns or throws.
abbrev pub call_out : Bool → Call → Action Orders (Unit {0})
call_out returns c s = (if returns then ok tt else err internal, record s { calls = c ∷ s.calls })

-- `publish` outside a `try`: the request fails where the bus does.
abbrev pub publish : Bool → OrderEvent → Action Orders (Unit {0})
publish up e s = if up then (ok tt, record s { events = e ∷ s.events }) else (err internal, s)

-- `prisma.order.findUnique` and the throw on `null`
abbrev pub find_order : String → Action Orders Order
find_order id s = or_throw (lookup id s.orders) not_found s

-- `prisma.order.create`: the id is the primary key.
abbrev pub create_order : String → Order → Action Orders (Unit {0})
create_order id o s = elim (lookup id s.orders) [
  | some old ↦ (err internal, s)
  | none ↦ (ok tt, record s { orders = insert id o s.orders })
]

-- `prisma.order.update`: it throws where the row is gone.
abbrev pub update_order : String → (Order → Order) → Action Orders Order
update_order id change s = elim (lookup id s.orders) [
  | none ↦ (err internal, s)
  | some o ↦ (ok (change o), record s { orders = insert id (change o) s.orders })
]
