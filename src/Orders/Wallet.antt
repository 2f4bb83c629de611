-- ===== src/Orders/Wallet.antt =====
-- The wallets of escrow-service under the requests of the order service (order.service.ts).
use gusto_backend.Common.{
  String, Bool, true, false, Option, some, List, [], ◌∷◌, if◌then◌else◌, arith, Option-cases, inl,
  inr, ◌≡◌, refl, ◌⊎◌, subst, sym,
}
use gusto_backend.Common.Int.{ℤ}
use gusto_backend.Common.Http.{bind_ok, ok, pure}
use gusto_backend.Common.Dict.{lookup, insert}
use gusto_backend.Escrow.Api.{reserves, captures, releases, serve}
use gusto_backend.Escrow.Invariant.{AllSolvent, serve-AllSolvent}
use gusto_backend.Hacker.Service.{Reply, failed, refused, success}
use gusto_backend.Orders.{
  Orders, Order, World, StoredOrderCart, wallet_call, mark_failed, mark_placed,
  reconcile_ambiguous_failure, apply_coupon, populate_cart, ask_confirmation,
  populate_and_await_confirmation, check_pending, place_order, confirm_and_place, get_status,
  mark_delivered, poll_delivery_status, amount_body, pending_confirmation, placed, delivered,
  failed_order, OrderStatus, settle, PlaceData, place_food_order, get_food_orders, truthy,
  new_order,
}
use gusto_backend.Orders.Api.{
  OrderRequest, execute, confirm, status_of, poll_delivery, serve_order, serve_orders,
  parse_execute, parse_id,
}

-- The wallets are solvent.
abbrev pub WalletsSolvent : Orders → Type 0
WalletsSolvent s = AllSolvent s.escrow

-- The three hold requests keep the wallets solvent.
module _ (up : Bool) (u : String) (total : ℤ) (s : Orders) (all : WalletsSolvent s) where
  served_reserve : AllSolvent (serve up (reserves (amount_body u total)) s.escrow).1
  served_reserve = serve-AllSolvent up (reserves (amount_body u total)) s.escrow tt all

  served_capture : AllSolvent (serve up (captures (amount_body u total)) s.escrow).1
  served_capture = serve-AllSolvent up (captures (amount_body u total)) s.escrow tt all

  served_release : AllSolvent (serve up (releases (amount_body u total)) s.escrow).1
  served_release = serve-AllSolvent up (releases (amount_body u total)) s.escrow tt all

module _ (w : World) (id : String) (o : Order) (s : Orders) (all : WalletsSolvent s) where
  captured :
      (up : Bool)
      → AllSolvent
          (serve up (captures (amount_body o.user_id o.stored_cart.cart.final_total)) s.escrow).1
  captured up = served_capture up o.user_id o.stored_cart.cart.final_total s all

  released :
      (up : Bool)
      → AllSolvent
          (serve up (releases (amount_body o.user_id o.stored_cart.cart.final_total)) s.escrow).1
  released up = served_release up o.user_id o.stored_cart.cart.final_total s all

  mark_failed-WalletsSolvent : (A : Type 0) → WalletsSolvent (mark_failed {A = A} w id o s).1
  unfolding mark_failed wallet_call
  mark_failed-WalletsSolvent A u sub h =
      grind (arith, all u sub, released true u sub, released false u sub)

  mark_placed-WalletsSolvent : (ref : String) → WalletsSolvent (mark_placed w id o ref s).1
  unfolding mark_placed wallet_call
  mark_placed-WalletsSolvent ref u sub h =
      grind (arith, all u sub, captured true u sub, captured false u sub)

  ready_or_failed-WalletsSolvent :
      (ready : Bool) → WalletsSolvent ((if ready then pure tt else mark_failed w id o) s).1
  ready_or_failed-WalletsSolvent true = all
  ready_or_failed-WalletsSolvent false = mark_failed-WalletsSolvent Unit

settle-WalletsSolvent :
    (w : World) (id : String) (o : Order) (s : Orders)
    → WalletsSolvent s
    → (reply : Reply (Option PlaceData)) → WalletsSolvent (settle w id o reply s).1
unfolding settle reconcile_ambiguous_failure
settle-WalletsSolvent w id o s all failed =
    mark_failed-WalletsSolvent w id o
      (record s { calls = get_food_orders o.user_id o.stored_cart.address_id ∷ s.calls }) all _
settle-WalletsSolvent w id o s all (success answer) = mark_placed-WalletsSolvent w id o s all _
settle-WalletsSolvent w id o s all refused = mark_failed-WalletsSolvent w id o s all _

-- A pending order passes the tests and is placed.
module _ (w : World) (id : String) (s : Orders) (o : Order) (there : lookup id s.orders ≡ some o)
    (pending : o.order_status ≡ pending_confirmation) where
  pub confirm_test : check_pending id s ≡ (ok o, s)
  unfolding check_pending
  confirm_test = ground arith

  pub confirm_pending : confirm_and_place w id s ≡ place_order w id o s
  unfolding confirm_and_place
  confirm_pending = bind_ok (check_pending id) (place_order w id) s o s confirm_test

-- Either a test refuses and nothing happens, or the pending order is placed.
pub confirm-cases :
    (w : World) (id : String) (s : Orders)
    → ((confirm_and_place w id s).1 ≡ s)
      ⊎ ((o : Order) × (lookup id s.orders ≡ some o)
          × (o.order_status ≡ pending_confirmation)
          × (confirm_and_place w id s ≡ place_order w id o s))
unfolding confirm_and_place check_pending
confirm-cases w id s = elim (Option-cases (lookup id s.orders)) [
  | inl e ↦ inl (ground arith)
  | inr (o, e) ↦ by_status o e o.order_status refl
]
  where
    by_status :
        (o : Order)
        → lookup id s.orders ≡ some o
        → (now : OrderStatus) → o.order_status ≡ now
        → ((confirm_and_place w id s).1 ≡ s)
          ⊎ ((o : Order) × (lookup id s.orders ≡ some o)
              × (o.order_status ≡ pending_confirmation)
              × (confirm_and_place w id s ≡ place_order w id o s))
    by_status o e pending_confirmation h = inr (o, e, h, confirm_pending w id s o e h)
    by_status o e placed h = inl (ground arith)
    by_status o e delivered h = inl (ground arith)
    by_status o e failed_order h = inl (ground arith)

confirm_and_place-WalletsSolvent :
    (w : World) (id : String) (s : Orders)
    → WalletsSolvent s
    → WalletsSolvent (confirm_and_place w id s).1
unfolding place_order
confirm_and_place-WalletsSolvent w id s all = elim (confirm-cases w id s) [
  | inl e ↦ subst WalletsSolvent (sym e) all
  | inr (o, e, p, f) ↦
      subst (λ t. WalletsSolvent t.1) (sym f)
        (settle-WalletsSolvent w id o
          (record s {
            calls =
                place_food_order id o.user_id o.stored_cart.address_id
                  (truthy o.stored_cart.payment_method)
                ∷ s.calls;
          })
          all w.placing)
]

poll-WalletsSolvent :
    (up : String → String) (w : World) (id : String) (s : Orders)
    → WalletsSolvent s
    → WalletsSolvent (poll_delivery_status up w id s).1
unfolding poll_delivery_status mark_delivered
poll-WalletsSolvent up w id s all u sub h = ground (arith, all u sub)

module _ (w : World) (user : String) (stored : StoredOrderCart) (s : Orders)
    (all : WalletsSolvent s) where
  populate_cart-WalletsSolvent : WalletsSolvent (populate_cart w user stored s).1
  unfolding populate_cart apply_coupon
  populate_cart-WalletsSolvent u sub h = ground (arith, all u sub)

  reserved :
      WalletsSolvent
        (wallet_call w.reserving (reserves (amount_body user stored.cart.final_total)) s).1
  unfolding wallet_call
  reserved u sub h = grind (
    arith,
    all u sub,
    served_reserve true user stored.cart.final_total s all u sub,
    served_reserve false user stored.cart.final_total s all u sub,
  )

abbrev pub reserving : World → String → StoredOrderCart → Orders → Orders
reserving w user stored s =
    (wallet_call w.reserving (reserves (amount_body user stored.cart.final_total)) s).1

abbrev populating : World → String → StoredOrderCart → Orders → Orders
populating w user stored s =
    (populate_cart w user stored
      (record s { orders = insert w.uuid (new_order user stored) s.orders })).1

execute-WalletsSolvent :
    (w : World) (user : String) (stored : StoredOrderCart) (s : Orders)
    → WalletsSolvent s
    → WalletsSolvent (populate_and_await_confirmation w user stored s).1
unfolding populate_and_await_confirmation ask_confirmation
execute-WalletsSolvent w user stored s all u sub h =
    let s1 = reserving w user stored s in
    let all1 : WalletsSolvent s1 = reserved w user stored s all in
    let s3 = populating w user stored s1 in
    let all3 : WalletsSolvent s3 =
      populate_cart-WalletsSolvent w user stored
        (record s1 { orders = insert w.uuid (new_order user stored) s1.orders }) all1 in
    ground (
      arith,
      all u sub,
      all1 u sub,
      all3 u sub,
      mark_failed-WalletsSolvent w w.uuid (new_order user stored) s3 all3 Unit u sub,
    )

pub get_status-unchanged : (id : String) (s : Orders) → (get_status id s).1 ≡ s
unfolding get_status
get_status-unchanged id s = ground arith

serve_order-WalletsSolvent :
    (up : String → String) (w : World) (r : OrderRequest) (s : Orders)
    → WalletsSolvent s
    → WalletsSolvent (serve_order up w r s).1
unfolding serve_order
serve_order-WalletsSolvent up w (execute b) s all = elim (Option-cases (parse_execute b)) [
  | inl e ↦ rw (serve_order, e) all
  | inr ((user, stored), e) ↦ rw (serve_order, e) (execute-WalletsSolvent w user stored s all)
]
serve_order-WalletsSolvent up w (confirm id) s all = elim (Option-cases (parse_id id)) [
  | inl e ↦ rw (serve_order, e) all
  | inr (order, e) ↦ rw (serve_order, e) (confirm_and_place-WalletsSolvent w order s all)
]
serve_order-WalletsSolvent up w (status_of id) s all =
    subst WalletsSolvent (sym (get_status-unchanged id s)) all
serve_order-WalletsSolvent up w (poll_delivery id) s all = poll-WalletsSolvent up w id s all

-- Whatever requests the order service answers, and whatever the gateway, the network (lost calls
-- and lost answers of the wallet included), the clock and the event bus do, wallets that are solvent
-- before are solvent after.
pub serve_orders-WalletsSolvent :
    (to_upper_case : String → String) (rs : List (World × OrderRequest)) (s : Orders)
    → WalletsSolvent s
    → WalletsSolvent (serve_orders to_upper_case rs s)
unfolding serve_orders
serve_orders-WalletsSolvent up [] s all = all
serve_orders-WalletsSolvent up ((w, r) ∷ rs) s all =
    serve_orders-WalletsSolvent up rs (serve_order up w r s).1
      (serve_order-WalletsSolvent up w r s all)
