-- ===== src/Orders/Placement.antt =====
-- The calls of place_food_order by order.service.ts: for which orders they go out, and how often.
pub mod Marks
use gusto_backend.Common.{
  ℕ, suc, String, Bool, true, false, Option, none, some, List, [], ◌∷◌, str_eq, str_eq_iff,
  if◌then◌else◌, arith, Option-cases, inl, inr, ◌≡◌, refl, ◌⊎◌, ◌≢◌, subst, sym, ap,
}
use gusto_backend.Common.Dict.{lookup, insert, lookup-insert, lookup-insert_self}
use gusto_backend.Escrow.Api.{Request}
use gusto_backend.Hacker.Service.{Reply, failed, refused, success}
use gusto_backend.Orders.{
  Orders, Order, World, Answer, StoredOrderCart, Delivery, wallet_call, mark_failed, mark_placed,
  reconcile_ambiguous_failure, apply_coupon, populate_cart, ask_confirmation,
  populate_and_await_confirmation, place_order, confirm_and_place, settle, PlaceData,
  mark_delivered, poll_delivery_status, pending_confirmation, placed, delivered, failed_order, Call,
  place_food_order, new_order, order_ref, truthy,
}
use gusto_backend.Orders.Api.{
  OrderRequest, execute, confirm, status_of, poll_delivery, serve_order, serve_orders,
  parse_execute, parse_id,
}
use gusto_backend.Orders.Wallet.{confirm-cases, get_status-unchanged, reserving}
use gusto_backend.Orders.Placement.Marks.{
  placements, OncePlaced, IsMarked, mark_failed-IsMarked, settle-IsMarked, placed_now-OncePlaced,
}

confirm-OncePlaced :
    (w : World) (id j : String) (s : Orders)
    → ((k : String) → OncePlaced s k)
    → OncePlaced (confirm_and_place w id s).1 j
unfolding place_order
confirm-OncePlaced w id j s once = elim (confirm-cases w id s) [
  | inl e ↦ subst (λ t. OncePlaced t j) (sym e) (once j)
  | inr (o, e, p, f) ↦
      let c =
        place_food_order id o.user_id o.stored_cart.address_id
          (truthy o.stored_cart.payment_method) in
      subst (λ t. OncePlaced t.1 j) (sym f)
        (placed_now-OncePlaced id j c s _ o e p (λ k. refl)
          (settle-IsMarked w id o o (record s { calls = c ∷ s.calls }) e w.placing) (once id)
          (once j))
]

-- The table and the placements are as before.
pub record IsQuiet (s t : Orders) : Type 0 where
  pub same_orders : t.orders ≡ s.orders
  pub same_placements : (j : String) → placements j t.calls ≡ placements j s.calls

wallet_call-IsQuiet : (d : Delivery) (r : Request) (s : Orders) → IsQuiet s (wallet_call d r s).1
unfolding wallet_call
wallet_call-IsQuiet d r s = record {
  same_orders = ground arith;
  same_placements = λ j. ground arith;
}

populate_cart-IsQuiet :
    (w : World) (user : String) (stored : StoredOrderCart) (s : Orders)
    → IsQuiet s (populate_cart w user stored s).1
unfolding populate_cart apply_coupon placements
populate_cart-IsQuiet w user stored s = record {
  same_orders = ground arith;
  same_placements = λ j. ground arith;
}

module _ (w : World) (user : String) (stored : StoredOrderCart) (j : String) (s : Orders) where
  abbrev pub reserved_state : Orders
  reserved_state = reserving w user stored s

  abbrev pub created : Orders
  created = record reserved_state {
    orders = insert w.uuid (new_order user stored) reserved_state.orders;
  }

  abbrev pub populated : Orders
  populated = (populate_cart w user stored created).1

  pub reserved-IsQuiet : IsQuiet s reserved_state
  reserved-IsQuiet = wallet_call-IsQuiet _ _ s

  pub populated-IsQuiet : IsQuiet created populated
  populated-IsQuiet = populate_cart-IsQuiet w user stored created

  pub populated-lookup : lookup w.uuid populated.orders ≡ some (new_order user stored)
  populated-lookup =
      subst (λ t. lookup w.uuid t ≡ some (new_order user stored))
        (sym populated-IsQuiet.same_orders)
        (lookup-insert_self w.uuid (new_order user stored) reserved_state.orders)

  abandoned-IsMarked :
      IsMarked w.uuid populated
        (mark_failed {A = Unit} w w.uuid (new_order user stored) populated).1
  abandoned-IsMarked =
      mark_failed-IsMarked w w.uuid (new_order user stored) (new_order user stored) populated
        populated-lookup Unit

  execute-OncePlaced :
      OncePlaced s j → OncePlaced (populate_and_await_confirmation w user stored s).1 j
  unfolding populate_and_await_confirmation ask_confirmation placements
  execute-OncePlaced once =
      let m = abandoned-IsMarked in
      ground (
        arith,
        once,
        reserved-IsQuiet.same_orders,
        reserved-IsQuiet.same_placements j,
        populated-IsQuiet.same_orders,
        populated-IsQuiet.same_placements j,
        m.decided,
        m.written,
        m.quiet j,
        lookup-insert w.uuid j m.new populated.orders,
        lookup-insert w.uuid j (new_order user stored) reserved_state.orders,
        str_eq_iff w.uuid j,
      )

  execute-quiet :
      placements j (populate_and_await_confirmation w user stored s).1.calls ≡ placements j s.calls
  unfolding populate_and_await_confirmation ask_confirmation placements
  execute-quiet = ground (
    arith,
    reserved-IsQuiet.same_placements j,
    populated-IsQuiet.same_placements j,
    abandoned-IsMarked.quiet j,
  )

poll-OncePlaced :
    (up : String → String) (w : World) (id j : String) (s : Orders)
    → OncePlaced s j
    → OncePlaced (poll_delivery_status up w id s).1 j
unfolding poll_delivery_status mark_delivered placements
poll-OncePlaced up w id j s once = elim (Option-cases (lookup id s.orders)) [
  | inl e ↦ ground arith
  | inr (o, e) ↦ ground (
    arith,
    lookup-insert id j (record o { order_status = delivered; delivered_at = some w.now }) s.orders,
  )
]

serve_order-OncePlaced :
    (up : String → String) (w : World) (r : OrderRequest) (s : Orders)
    → ((k : String) → OncePlaced s k)
    → (j : String) → OncePlaced (serve_order up w r s).1 j
unfolding serve_order
serve_order-OncePlaced up w (execute b) s once j = elim (Option-cases (parse_execute b)) [
  | inl e ↦ rw (serve_order, e) (once j)
  | inr ((user, stored), e) ↦ rw (serve_order, e) (execute-OncePlaced w user stored j s (once j))
]
serve_order-OncePlaced up w (confirm id) s once j = elim (Option-cases (parse_id id)) [
  | inl e ↦ rw (serve_order, e) (once j)
  | inr (order, e) ↦ rw (serve_order, e) (confirm-OncePlaced w order j s once)
]
serve_order-OncePlaced up w (status_of id) s once j =
    subst (λ t. OncePlaced t j) (sym (get_status-unchanged id s)) (once j)
serve_order-OncePlaced up w (poll_delivery id) s once j = poll-OncePlaced up w id j s (once j)

-- Over any requests and any answers of the world, from a state in which it holds of every order: for
-- each order place_food_order is called at most once, and when it was called the order is there and
-- no longer awaits confirmation.
pub serve_orders-OncePlaced :
    (to_upper_case : String → String) (rs : List (World × OrderRequest)) (s : Orders)
    → ((id : String) → OncePlaced s id)
    → (id : String) → OncePlaced (serve_orders to_upper_case rs s) id
unfolding serve_orders
serve_orders-OncePlaced up [] s once = once
serve_orders-OncePlaced up ((w, r) ∷ rs) s once =
    serve_orders-OncePlaced up rs (serve_order up w r s).1 (serve_order-OncePlaced up w r s once)

poll-quiet :
    (up : String → String) (w : World) (id j : String) (s : Orders)
    → placements j (poll_delivery_status up w id s).1.calls ≡ placements j s.calls
unfolding poll_delivery_status mark_delivered placements
poll-quiet up w id j s = ground arith

-- What a new placement needs: the confirmation of this order, while it waits.
abbrev pub Confirms : OrderRequest → String → Orders → Type 0
Confirms r id s =
    (r ≡ confirm (some id))
    × ((o : Order) × (lookup id s.orders ≡ some o) × (o.order_status ≡ pending_confirmation))

confirmed_places :
    (w : World) (id j : String) (s : Orders)
    → placements j (confirm_and_place w id s).1.calls ≢ placements j s.calls
    → Confirms (confirm (some id)) j s
unfolding place_order placements
confirmed_places w id j s ne = elim (confirm-cases w id s) [
  | inl e ↦ ground (arith, e)
  | inr (o, e, p, f) ↦
      let c =
        place_food_order id o.user_id o.stored_cart.address_id
          (truthy o.stored_cart.payment_method) in
      let m = settle-IsMarked w id o o (record s { calls = c ∷ s.calls }) e w.placing in
      let same : id ≡ j = ground (arith, m.quiet j, f, ne, str_eq_iff id j) in
      (ap (λ k. confirm (some k)) same, (o, subst (λ k. lookup k s.orders ≡ some o) same e, p))
]

parse_id-same : (id order : String) → parse_id (some id) ≡ some order → order ≡ id
parse_id-same id order e = ground arith

-- When a request makes one more call of place_food_order for an order, the request is the
-- confirmation of that order, and the order was there and awaited confirmation.
pub placed_only_by_confirm :
    (to_upper_case : String → String) (w : World) (r : OrderRequest) (s : Orders) (id : String)
    → placements id (serve_order to_upper_case w r s).1.calls ≢ placements id s.calls
    → Confirms r id s
unfolding serve_order
placed_only_by_confirm up w (execute b) s j ne = elim (Option-cases (parse_execute b)) [
  | inl e ↦ absurd (ne (rw (serve_order, e) refl))
  | inr ((user, stored), e) ↦ absurd (ne (rw (serve_order, e) (execute-quiet w user stored j s)))
]
placed_only_by_confirm up w (confirm none) s j ne = absurd (ne refl)
placed_only_by_confirm up w (confirm (some id)) s j ne = elim (Option-cases (parse_id (some id))) [
  | inl e ↦ absurd (ne (rw (serve_order, e) refl))
  | inr (order, e) ↦
      subst (λ k. Confirms (confirm (some k)) j s) (parse_id-same id order e)
        (confirmed_places w order j s (λ k. ne (rw (serve_order, e) k)))
]
placed_only_by_confirm up w (status_of id) s j ne =
    absurd (ne (ap (λ t. placements j t.calls) (get_status-unchanged id s)))
placed_only_by_confirm up w (poll_delivery id) s j ne = absurd (ne (poll-quiet up w id j s))
