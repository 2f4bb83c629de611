-- ===== src/Orders/Settle.antt =====
-- `confirmAndPlace` of order.service.ts: the order and the wallet behind a confirmation, and two
-- confirmations that race.
use gusto_backend.Common.{
  suc, str_eq_iff, String, Bool, true, false, Option, none, some, ◌∷◌, arith, ◌≡◌, ◌≢◌, subst, sym,
  str_eq,
}
use gusto_backend.Common.Int.{ℤ, pos, ◌≤ℤ◌, ◌<ℤ◌, ◌-ℤ◌}
use gusto_backend.Common.Dict.{lookup, lookup-insert_self}
use gusto_backend.Common.Http.{ok}
use gusto_backend.Escrow.{Subscription}
use gusto_backend.Escrow.Api.{serve, post_capture, post_release, captures, releases}
use gusto_backend.Escrow.Rows.{capture_row, release_row}
use gusto_backend.Hacker.Service.{Reply, failed, refused, success}
use gusto_backend.Orders.Wallet.{confirm_test, confirm_pending}
use gusto_backend.Orders.Placement.Marks.{placements, settle-IsMarked, IsMarked}
use gusto_backend.Orders.{
  Orders, Order, World, lost, wallet_call, amount_body, Answer, get_food_orders, place_food_order,
  truthy, order_ref, check_pending, mark_failed, mark_placed, reconcile_ambiguous_failure, settle,
  PlaceData, place_order, confirm_and_place, OrderStatus, pending_confirmation, placed,
  failed_order,
}

-- The status of an order and the wallet of its user.
abbrev pub status_and_wallet : Orders → String → String → Option OrderStatus × Option Subscription
status_and_wallet s id user = (
  elim (lookup id s.orders) [ none ↦ none | some o ↦ some o.order_status ],
  lookup user s.escrow.subscriptions,
)

-- What the confirmation of an order leaves of it and of its wallet: placed and paid if Swiggy took
-- it, failed and given back otherwise.
abbrev pub settled :
    Reply (Option PlaceData) → Subscription → ℤ → Option OrderStatus × Option Subscription
settled (success answer) sub total = (
  some placed,
  some (record sub {
    current_balance = sub.current_balance -ℤ total;
    reserved_amount = sub.reserved_amount -ℤ total;
  }),
)
settled _ sub total =
    (some failed_order, some (record sub { reserved_amount = sub.reserved_amount -ℤ total }))

module _ (w : World) (id : String) (o : Order) (s : Orders) (sub : Subscription)
    (there : lookup id s.orders ≡ some o)
    (mine : lookup o.user_id s.escrow.subscriptions ≡ some sub)
    (positive : pos 0 <ℤ o.stored_cart.cart.final_total)
    (held : o.stored_cart.cart.final_total ≤ℤ sub.reserved_amount)
    (named : str_eq o.user_id "" ≡ false) where
  captured_wallet :
      (up : Bool)
      → lookup o.user_id
          (serve up
            (captures (amount_body o.user_id o.stored_cart.cart.final_total))
            s.escrow).1.subscriptions
        ≡ some (record sub {
          current_balance = sub.current_balance -ℤ o.stored_cart.cart.final_total;
          reserved_amount = sub.reserved_amount -ℤ o.stored_cart.cart.final_total;
        })
  unfolding serve post_capture
  captured_wallet up = ground (
    arith,
    (capture_row up o.user_id o.stored_cart.cart.final_total s.escrow sub positive mine held).1,
  )

  released_wallet :
      (up : Bool)
      → lookup o.user_id
          (serve up
            (releases (amount_body o.user_id o.stored_cart.cart.final_total))
            s.escrow).1.subscriptions
        ≡ some
            (record sub { reserved_amount = sub.reserved_amount -ℤ o.stored_cart.cart.final_total })
  unfolding serve post_release
  released_wallet up = ground (
    arith,
    (release_row up o.user_id o.stored_cart.cart.final_total s.escrow sub positive mine held).1,
  )

  mark_failed-settled :
      (A : Type 0)
      → w.releasing ≢ lost
      → status_and_wallet (mark_failed {A = A} w id o s).1 id o.user_id
        ≡ settled refused sub o.stored_cart.cart.final_total
  unfolding mark_failed wallet_call
  mark_failed-settled A arrives = ground (
    arith,
    released_wallet true,
    released_wallet false,
    lookup-insert_self id (record o { order_status = failed_order }) s.orders,
  )

  mark_placed-settled :
      (ref : String) (answer : Option PlaceData)
      → w.capturing ≢ lost
      → status_and_wallet (mark_placed w id o ref s).1 id o.user_id
        ≡ settled (success answer) sub o.stored_cart.cart.final_total
  unfolding mark_placed wallet_call
  mark_placed-settled ref answer arrives = ground (
    arith,
    captured_wallet true,
    captured_wallet false,
    lookup-insert_self id
        (record o { order_status = placed; swiggy_order_ref = some ref; placed_at = some w.now })
        s.orders,
  )

settle-settled :
    (w : World) (id : String) (o : Order) (s : Orders) (sub : Subscription)
    → lookup id s.orders ≡ some o
    → lookup o.user_id s.escrow.subscriptions ≡ some sub
    → pos 0 <ℤ o.stored_cart.cart.final_total
    → o.stored_cart.cart.final_total ≤ℤ sub.reserved_amount
    → str_eq o.user_id "" ≡ false
    → w.releasing ≢ lost
    → w.capturing ≢ lost
    → (reply : Reply (Option PlaceData))
    → status_and_wallet (settle w id o reply s).1 id o.user_id
      ≡ settled reply sub o.stored_cart.cart.final_total
unfolding settle reconcile_ambiguous_failure
settle-settled w id o s sub e m p h n r c failed =
    mark_failed-settled w id o
      (record s { calls = get_food_orders o.user_id o.stored_cart.address_id ∷ s.calls }) sub e m p
      h n Answer r
settle-settled w id o s sub e m p h n r c (success answer) =
    mark_placed-settled w id o s sub e m p h n (order_ref w answer) answer c
settle-settled w id o s sub e m p h n r c refused =
    mark_failed-settled w id o s sub e m p h n Answer r

-- An order that awaits confirmation, of a named user whose wallet holds its positive total, is
-- settled by the confirmation, if the wallet calls arrive (their answers may be lost): if
-- place_food_order took it, it is PLACED and the total leaves balance and hold; if the call threw or
-- was refused, it is FAILED and the hold is given back.
pub confirm_settles :
    (w : World) (id : String) (o : Order) (s : Orders) (sub : Subscription)
    → lookup id s.orders ≡ some o
    → o.order_status ≡ pending_confirmation
    → lookup o.user_id s.escrow.subscriptions ≡ some sub
    → pos 0 <ℤ o.stored_cart.cart.final_total
    → o.stored_cart.cart.final_total ≤ℤ sub.reserved_amount
    → str_eq o.user_id "" ≡ false
    → w.releasing ≢ lost
    → w.capturing ≢ lost
    → status_and_wallet (confirm_and_place w id s).1 id o.user_id
      ≡ settled w.placing sub o.stored_cart.cart.final_total
unfolding place_order
confirm_settles w id o s sub e pending m p h n r c =
    let call =
      place_food_order id o.user_id o.stored_cart.address_id
        (truthy o.stored_cart.payment_method) in
    subst
      (λ t.
        status_and_wallet t.1 id o.user_id ≡ settled w.placing sub o.stored_cart.cart.final_total)
      (sym (confirm_pending w id s o e pending))
      (settle-settled w id o (record s { calls = call ∷ s.calls }) sub e m p h n r c w.placing)

-- Two confirmations of a pending order that both pass the test before either writes: each calls
-- place_food_order, so the order is placed twice. Nothing between `findUnique` and the call stops it.
pub racing_confirms_place_twice :
    (w v : World) (id : String) (o : Order) (s : Orders)
    → lookup id s.orders ≡ some o
    → o.order_status ≡ pending_confirmation
    → ((check_pending id s) ≡ (ok o, s))
      × (placements id (place_order v id o (place_order w id o s).1).1.calls
          ≡ suc (suc (placements id s.calls)))
unfolding place_order placements
racing_confirms_place_twice w v id o s e p =
    let c =
      place_food_order id o.user_id o.stored_cart.address_id
        (truthy o.stored_cart.payment_method) in
    let t = (place_order w id o s).1 in
    let m : IsMarked id (record s { calls = c ∷ s.calls }) t =
      settle-IsMarked w id o o (record s { calls = c ∷ s.calls }) e w.placing in
    let there : lookup id t.orders ≡ some m.new =
      subst (λ k. lookup id k ≡ some m.new) (sym m.written)
        (lookup-insert_self id m.new s.orders) in
    let n = settle-IsMarked v id o m.new (record t { calls = c ∷ t.calls }) there v.placing in
    (confirm_test w id s o e p, ground (arith, m.quiet id, n.quiet id, str_eq_iff id id))
