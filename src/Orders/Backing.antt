-- ===== src/Orders/Backing.antt =====
-- The pending orders of a user against what escrow-service holds for the user.
pub mod Rows
pub mod Held
use gusto_backend.Common.{
  ℕ, ◌+◌, ◌≤◌, String, Bool, true, false, Option, none, some, List, [], ◌∷◌, ◌≡◌, refl, arith,
  str_eq, str_eq_iff, if◌then◌else◌, Option-cases, inl, inr, ◌⊎◌, sym, subst, ◌≢◌,
}
use gusto_backend.Common.Int.{ℤ, pos, pos_part, ◌+ℤ◌, ◌-ℤ◌, ◌≤ℤ◌, ◌<ℤ◌, int_laws}
use gusto_backend.Common.Dict.{Dict, lookup, insert}
use gusto_backend.Escrow.Api.{serve, reserves, captures, releases}
use gusto_backend.Orders.{
  Orders, Order, OrderStatus, pending_confirmation, placed, delivered, failed_order, World, Answer,
  StoredOrderCart, wallet_call, amount_body, mark_failed, mark_placed, settle,
  reconcile_ambiguous_failure, place_order, confirm_and_place, PlaceData, Delivery, answered,
  reply_lost, lost, order_ref, truthy, place_food_order, get_food_orders, new_order, populate_cart,
  populate_and_await_confirmation, ask_confirmation, apply_coupon, poll_delivery_status,
  mark_delivered,
}
use gusto_backend.Orders.Api.{
  OrderRequest, execute, confirm, status_of, poll_delivery, serve_order, serve_orders,
  parse_execute, parse_id,
}
use gusto_backend.Orders.Wallet.{confirm-cases, get_status-unchanged, reserving}
use gusto_backend.Common.Http.{is_ok}
use gusto_backend.Orders.Placement.{
  reserved_state, created, populated, reserved-IsQuiet, populated-IsQuiet, populated-lookup,
}
use gusto_backend.Orders.Placement.Marks.{is_decided}
use gusto_backend.Hacker.Service.{Reply, failed, refused, success}
use gusto_backend.Escrow.{Subscription}
use gusto_backend.Orders.Settle.{status_and_wallet, settled, confirm_settles}
use gusto_backend.Orders.Backing.Held.{held_in, share, reserves-held, captures-held, releases-held}
use gusto_backend.Orders.Backing.Rows.{
  need_of, pending_total, IsBacked, pending_total-insert, mark_failed-IsBacked,
  mark_placed-IsBacked,
}

settle-IsBacked :
    (w : World) (id : String) (o : Order) (s : Orders) (u : String)
    → lookup id s.orders ≡ some o
    → o.order_status ≡ pending_confirmation
    → IsBacked s u
    → (reply : Reply (Option PlaceData)) → IsBacked (settle w id o reply s).1 u
unfolding settle reconcile_ambiguous_failure
settle-IsBacked w id o s u e p b failed =
    mark_failed-IsBacked w id o
      (record s { calls = get_food_orders o.user_id o.stored_cart.address_id ∷ s.calls }) u e p b _
settle-IsBacked w id o s u e p b (success answer) = mark_placed-IsBacked w id o s u e p b _
settle-IsBacked w id o s u e p b refused = mark_failed-IsBacked w id o s u e p b _

confirm-IsBacked :
    (w : World) (id u : String) (s : Orders)
    → IsBacked s u
    → IsBacked (confirm_and_place w id s).1 u
unfolding place_order
confirm-IsBacked w id u s b = elim (confirm-cases w id s) [
  | inl e ↦ subst (λ t. IsBacked t u) (sym e) b
  | inr (o, e, p, f) ↦
      let c =
        place_food_order id o.user_id o.stored_cart.address_id
          (truthy o.stored_cart.payment_method) in
      subst (λ t. IsBacked t.1 u) (sym f)
        (settle-IsBacked w id o (record s { calls = c ∷ s.calls }) u e p b w.placing)
]

-- A reservation that is answered well adds the amount to the hold; no other takes from it.
wallet_call-held :
    (d : Delivery) (u v : String) (t : ℤ) (s : Orders)
    → held_in v s.escrow
        +ℤ (if is_ok (wallet_call d (reserves (amount_body u t)) s).0 then share u v t else pos 0)
      ≤ℤ held_in v (wallet_call d (reserves (amount_body u t)) s).1.escrow
unfolding wallet_call
wallet_call-held lost u v t s = grind int_laws
wallet_call-held (answered up) u v t s = grind (int_laws, reserves-held up u v t s.escrow)
wallet_call-held (reply_lost up) u v t s = grind (int_laws, reserves-held up u v t s.escrow)

populate_cart-escrow :
    (w : World) (user : String) (stored : StoredOrderCart) (s : Orders)
    → (populate_cart w user stored s).1.escrow ≡ s.escrow
unfolding populate_cart apply_coupon
populate_cart-escrow w user stored s = ground arith

module _ (w : World) (user : String) (stored : StoredOrderCart) (u : String) (s : Orders)
    (backed : IsBacked s u) where
  -- The state behind the reservation keeps the invariant; where it was answered well, there is room
  -- for the new order.
  reserved-room :
      pos (pending_total u s.orders)
        +ℤ (if is_ok
              (wallet_call w.reserving (reserves (amount_body user stored.cart.final_total)) s).0
            then share user u stored.cart.final_total
            else pos 0)
      ≤ℤ held_in u (reserved_state w user stored u s).escrow
  reserved-room = grind (int_laws, wallet_call-held w.reserving user u stored.cart.final_total s)

  reserved-IsBacked : IsBacked (reserved_state w user stored u s) u
  reserved-IsBacked =
      grind (int_laws, reserved-room, (reserved-IsQuiet w user stored u s).same_orders)

  created-IsBacked :
      is_ok (wallet_call w.reserving (reserves (amount_body user stored.cart.final_total)) s).0
        ≡ true
      → lookup w.uuid (reserved_state w user stored u s).orders ≡ none
      → IsBacked (created w user stored u s) u
  created-IsBacked well new = grind (
    int_laws,
    reserved-room,
    (reserved-IsQuiet w user stored u s).same_orders,
    pending_total-insert u w.uuid (new_order user stored) (reserved_state w user stored u s).orders,
  )

  populated-IsBacked :
      IsBacked (created w user stored u s) u → IsBacked (populated w user stored u s) u
  populated-IsBacked b = ground (
    arith,
    (populated-IsQuiet w user stored u s).same_orders,
    populate_cart-escrow w user stored (created w user stored u s),
  )

  abandoned-IsBacked :
      IsBacked (populated w user stored u s) u
      → IsBacked
          (mark_failed {A = Unit} w w.uuid (new_order user stored) (populated w user stored u s)).1
          u
  abandoned-IsBacked b =
      mark_failed-IsBacked w w.uuid (new_order user stored) (populated w user stored u s) u
        (populated-lookup w user stored u s) refl b Unit

  execute-IsBacked : IsBacked (populate_and_await_confirmation w user stored s).1 u
  unfolding populate_and_await_confirmation ask_confirmation
  execute-IsBacked =
      ground
        (arith, backed, reserved-IsBacked, created-IsBacked, populated-IsBacked, abandoned-IsBacked)

poll-IsBacked :
    (up : String → String) (w : World) (id u : String) (s : Orders)
    → IsBacked s u
    → IsBacked (poll_delivery_status up w id s).1 u
unfolding poll_delivery_status mark_delivered
poll-IsBacked up w id u s b = elim (Option-cases (lookup id s.orders)) [
  | inl e ↦ ground arith
  | inr (o, e) ↦ ground (
    arith,
    pending_total-insert u id (record o { order_status = delivered; delivered_at = some w.now })
        s.orders,
  )
]

serve_order-IsBacked :
    (up : String → String) (w : World) (r : OrderRequest) (u : String) (s : Orders)
    → IsBacked s u
    → IsBacked (serve_order up w r s).1 u
unfolding serve_order
serve_order-IsBacked up w (execute b) u s back = elim (Option-cases (parse_execute b)) [
  | inl e ↦ rw (serve_order, e) back
  | inr ((user, stored), e) ↦ rw (serve_order, e) (execute-IsBacked w user stored u s back)
]
serve_order-IsBacked up w (confirm id) u s back = elim (Option-cases (parse_id id)) [
  | inl e ↦ rw (serve_order, e) back
  | inr (order, e) ↦ rw (serve_order, e) (confirm-IsBacked w order u s back)
]
serve_order-IsBacked up w (status_of id) u s back =
    subst (λ t. IsBacked t u) (sym (get_status-unchanged id s)) back
serve_order-IsBacked up w (poll_delivery id) u s back = poll-IsBacked up w id u s back

-- Over any requests and any answers of the world, calls of the wallet that are lost and answers of it
-- that are lost included: where the totals of a user's orders that await confirmation are together at
-- most what escrow-service holds for the user, they are so afterwards.
pub serve_orders-IsBacked :
    (to_upper_case : String → String) (rs : List (World × OrderRequest)) (u : String) (s : Orders)
    → IsBacked s u
    → IsBacked (serve_orders to_upper_case rs s) u
unfolding serve_orders
serve_orders-IsBacked up [] u s back = back
serve_orders-IsBacked up ((w, r) ∷ rs) u s back =
    serve_orders-IsBacked up rs u (serve_order up w r s).1 (serve_order-IsBacked up w r u s back)

one_of_pending :
    (u id : String) (o : Order) (m : Dict Order)
    → lookup id m ≡ some o
    → need_of u (some o) ≤ pending_total u m
unfolding lookup pending_total
one_of_pending u id o [] e = ground arith
one_of_pending u id o ((j, p) ∷ m) e = ground (arith, one_of_pending u id o m)

-- The order that is confirmed after any requests has its hold: from a state in which the user's hold
-- covers the user's waiting orders, an order that still waits after the requests, of a user whose id
-- is not empty and who has a wallet then, with a positive total and a confirmation whose capture and
-- release arrive, ends placed and paid where Swiggy takes it, and failed with its hold given back
-- where not.
pub confirm_settles_after :
    (to_upper_case : String → String) (rs : List (World × OrderRequest)) (s : Orders) (w : World)
    (id : String) (o : Order) (sub : Subscription)
    → IsBacked s o.user_id
    → lookup id (serve_orders to_upper_case rs s).orders ≡ some o
    → o.order_status ≡ pending_confirmation
    → lookup o.user_id (serve_orders to_upper_case rs s).escrow.subscriptions ≡ some sub
    → pos 0 <ℤ o.stored_cart.cart.final_total
    → str_eq o.user_id "" ≡ false
    → w.releasing ≢ lost
    → w.capturing ≢ lost
    → status_and_wallet (confirm_and_place w id (serve_orders to_upper_case rs s)).1 id o.user_id
      ≡ settled w.placing sub o.stored_cart.cart.final_total
confirm_settles_after up rs s w id o sub back e p mine positive named r c =
    let t = serve_orders up rs s in
    confirm_settles w id o t sub e p mine positive
      (ground (
        arith,
        one_of_pending o.user_id id o t.orders e,
        serve_orders-IsBacked up rs o.user_id s back,
        str_eq_iff o.user_id o.user_id,
      ))
      named r c
