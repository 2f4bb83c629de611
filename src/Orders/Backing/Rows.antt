-- ===== src/Orders/Backing/Rows.antt =====
-- What the waiting orders of a user need, and the steps of order.service.ts that end an order.
use gusto_backend.Common.{
  ℕ, ◌+◌, String, Bool, true, false, Option, none, some, [], ◌∷◌, ◌≡◌, refl, arith, str_eq,
  if◌then◌else◌,
}
use gusto_backend.Common.Int.{ℤ, pos, pos_part, ◌+ℤ◌, ◌≤ℤ◌, int_laws}
use gusto_backend.Common.Dict.{Dict, lookup, insert}
use gusto_backend.Escrow.Api.{serve, captures, releases}
use gusto_backend.Orders.{
  Orders, Order, OrderStatus, pending_confirmation, placed, failed_order, World, wallet_call,
  amount_body, mark_failed, mark_placed,
}
use gusto_backend.Orders.Placement.Marks.{is_decided}
use gusto_backend.Orders.Backing.Held.{held_in, share, captures-held, releases-held}

-- What an order awaiting confirmation needs from the wallet of `u`.
abbrev pub need : OrderStatus → ℤ → ℕ
need pending_confirmation t = pos_part t
need _ t = 0

abbrev pub need_of : String → Option Order → ℕ
need_of u none = 0
need_of u (some o) =
    if str_eq o.user_id u then need o.order_status o.stored_cart.cart.final_total else 0

-- The sum of the totals of the orders of `u` that await confirmation.
unfoldable pub pending_total : String → Dict Order → ℕ
pending_total u [] = 0
pending_total u ((id, o) ∷ m) = need_of u (some o) + pending_total u m

-- They are covered by the hold.
abbrev pub IsBacked : Orders → String → Type 0
IsBacked s u = pos (pending_total u s.orders) ≤ℤ held_in u s.escrow

-- A row written replaces the need of the row of before.
pub pending_total-insert :
    (u id : String) (o : Order) (m : Dict Order)
    → pending_total u (insert id o m) + need_of u (lookup id m)
      ≡ pending_total u m + need_of u (some o)
unfolding pending_total lookup insert
pending_total-insert u id o [] = omega arith
pending_total-insert u id o ((j, p) ∷ m) = ground (arith, pending_total-insert u id o m)

module _ (w : World) (id : String) (o : Order) (s : Orders) (u : String)
    (there : lookup id s.orders ≡ some o) (pending : o.order_status ≡ pending_confirmation)
    (backed : IsBacked s u) where
  abbrev released : Bool → ℤ
  released up =
      held_in u
        (serve up (releases (amount_body o.user_id o.stored_cart.cart.final_total)) s.escrow).1

  abbrev captured : Bool → ℤ
  captured up =
      held_in u
        (serve up (captures (amount_body o.user_id o.stored_cart.cart.final_total)) s.escrow).1

  abbrev failed_row : Order
  failed_row = record o { order_status = failed_order }

  abbrev placed_row : String → Order
  placed_row ref = record o {
    order_status = placed;
    swiggy_order_ref = some ref;
    placed_at = some w.now;
  }

  -- The need that goes is at most the hold that goes.
  rest_backed :
      (new : Order) (h : ℤ)
      → is_decided (some new) ≡ true
      → held_in u s.escrow ≤ℤ h +ℤ share o.user_id u o.stored_cart.cart.final_total
      → pos (pending_total u (insert id new s.orders)) ≤ℤ h
  rest_backed new h decided held = grind (int_laws, pending_total-insert u id new s.orders)

  unchanged_backed :
      (new : Order)
      → is_decided (some new) ≡ true
      → pos (pending_total u (insert id new s.orders)) ≤ℤ held_in u s.escrow
  unchanged_backed new decided = ground (arith, pending_total-insert u id new s.orders)

  pub mark_failed-IsBacked : (A : Type 0) → IsBacked (mark_failed {A = A} w id o s).1 u
  unfolding mark_failed wallet_call
  mark_failed-IsBacked A = ground (
    arith,
    unchanged_backed failed_row refl,
    rest_backed failed_row (released true) refl (releases-held true o.user_id u _ s.escrow),
    rest_backed failed_row (released false) refl (releases-held false o.user_id u _ s.escrow),
  )

  pub mark_placed-IsBacked : (ref : String) → IsBacked (mark_placed w id o ref s).1 u
  unfolding mark_placed wallet_call
  mark_placed-IsBacked ref = ground (
    arith,
    unchanged_backed (placed_row ref) refl,
    rest_backed (placed_row ref) (captured true) refl (captures-held true o.user_id u _ s.escrow),
    rest_backed (placed_row ref) (captured false) refl (captures-held false o.user_id u _ s.escrow),
  )
