-- ===== src/Orders/Placement/Marks.antt =====
-- The steps of order.service.ts that mark an order, and the calls of place_food_order they leave.
use gusto_backend.Common.{
  ℕ, suc, String, Bool, true, false, Option, none, some, List, [], ◌∷◌, str_eq, str_eq_iff,
  if◌then◌else◌, arith, ◌≡◌, ◌⊎◌,
}
use gusto_backend.Common.Dict.{lookup, insert, lookup-insert}
use gusto_backend.Hacker.Service.{Reply, failed, refused, success}
use gusto_backend.Orders.{
  Orders, Order, World, Answer, wallet_call, mark_failed, mark_placed, reconcile_ambiguous_failure,
  settle, PlaceData, pending_confirmation, placed, failed_order, Call, place_food_order, order_ref,
}

-- Whether a call places the order of this id.
abbrev pub places : String → Call → Bool
places id (place_food_order other user address payment) = str_eq other id
places id _ = false

-- How many calls to place_food_order there were for an order.
unfoldable pub placements : String → List Call → ℕ
placements id [] = 0
placements id (c ∷ cs) = if places id c then suc (placements id cs) else placements id cs

-- An order that waits no more.
abbrev pub is_decided : Option Order → Bool
is_decided none = false
is_decided (some o) = elim o.order_status [ pending_confirmation ↦ false | _ ↦ true ]

-- No call for the order yet; or one, and the order is there and waits no more.
abbrev pub OncePlaced : Orders → String → Type 0
OncePlaced s id =
    (placements id s.calls ≡ 0)
    ⊎ ((placements id s.calls ≡ 1) × (is_decided (lookup id s.orders) ≡ true))

-- The step to `t` gave the order a row that waits no more, and placed nothing.
pub record IsMarked (id : String) (s t : Orders) : Type 0 where
  pub new : Order
  pub decided : is_decided (some new) ≡ true
  pub written : t.orders ≡ insert id new s.orders
  pub quiet : (j : String) → placements j t.calls ≡ placements j s.calls

module _ (w : World) (id : String) (o old : Order) (s : Orders)
    (e : lookup id s.orders ≡ some old) where
  pub mark_failed-IsMarked : (A : Type 0) → IsMarked id s (mark_failed {A = A} w id o s).1
  unfolding mark_failed wallet_call
  mark_failed-IsMarked A = record {
    new = record old { order_status = failed_order };
    decided = ground arith;
    written = ground arith;
    quiet = λ j. ground arith;
  }

  mark_placed-IsMarked : (ref : String) → IsMarked id s (mark_placed w id o ref s).1
  unfolding mark_placed wallet_call
  mark_placed-IsMarked ref = record {
    new = record old { order_status = placed; swiggy_order_ref = some ref; placed_at = some w.now };
    decided = ground arith;
    written = ground arith;
    quiet = λ j. ground arith;
  }

  reconcile-IsMarked : (A : Type 0) → IsMarked id s (reconcile_ambiguous_failure {A = A} w id o s).1
  unfolding reconcile_ambiguous_failure mark_failed wallet_call placements
  reconcile-IsMarked A = record {
    new = record old { order_status = failed_order };
    decided = ground arith;
    written = ground arith;
    quiet = λ j. ground arith;
  }

  pub settle-IsMarked : (reply : Reply (Option PlaceData)) → IsMarked id s (settle w id o reply s).1
  unfolding settle
  settle-IsMarked failed = reconcile-IsMarked Answer
  settle-IsMarked (success answer) = mark_placed-IsMarked (order_ref w answer)
  settle-IsMarked refused = mark_failed-IsMarked Answer

-- Marking keeps the invariant.
marked-OncePlaced :
    (id j : String) (s t : Orders) → IsMarked id s t → OncePlaced s j → OncePlaced t j
marked-OncePlaced id j s t m once =
    ground (arith, m.quiet j, m.written, m.decided, lookup-insert id j m.new s.orders)

-- An order that waits, placed: the first placement.
pub placed_now-OncePlaced :
    (id j : String) (c : Call) (s t : Orders) (o : Order)
    → lookup id s.orders ≡ some o
    → o.order_status ≡ pending_confirmation
    → ((k : String) → places k c ≡ str_eq id k)
    → IsMarked id (record s { calls = c ∷ s.calls }) t
    → OncePlaced s id
    → OncePlaced s j
    → OncePlaced t j
unfolding placements
placed_now-OncePlaced id j c s t o e p for m once_id once = ground (
  arith,
  m.quiet j,
  m.written,
  m.decided,
  lookup-insert id j m.new s.orders,
  for j,
  str_eq_iff id j,
)
