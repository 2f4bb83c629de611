-- ===== src/Workflow/Service.antt =====
-- The handlers of workflow.service.ts: the row and the calls of each, in the source's order.
pub mod State
use gusto_backend.Common.{
  ℕ, zero, suc, String, Bool, true, false, Option, none, some, List, [], ◌∷◌, ◌++◌, if◌then◌else◌,
  not, ◌&&◌, leb, keep, any, str_eq,
}
use gusto_backend.Common.Int.{ℤ, pos, negsuc, ◌-ℤ◌, floor_div, leb_ℤ}
use gusto_backend.Common.Dict.{Dict, lookup, insert}
use gusto_backend.Common.Http.{
  ok, err, Action, ◌>>=◌, ◌>>◌, pure, or_throw, throw_if, gets, modify, not_found, conflict,
  internal, CallError, map_upstream_error,
}
use gusto_backend.Escrow.{Subscription}
use gusto_backend.Hacker.Types.{CartItem, Line}
use gusto_backend.Hacker.Service.{OptimizedCart}
use gusto_backend.Hacker.Mapping.{or_else}
use gusto_backend.Workflow.Phase.{
  Phase, scouting, optimizing, awaiting_approval, approved, executing, skipped, phase_eq,
  can_transition,
}
use gusto_backend.Workflow.Selection.{
  MenuItem, RankedMenuItem, RawItem, menu_of, select_next_candidate,
}
use gusto_backend.Workflow.Service.State.{
  ShortlistState, Decision, WorkflowState, parse_preference_profile, Workflow, Upstreams,
  start_call, settle, ask, try_publish, dispatch_menu_notification, update_row, begin_row,
  is_scouted, weekly_budget, cart_item, publish_scout_completed_and_menu_proposed, approve_meal,
  swap_meal, skip_meal, get_subscription, get_preference_profile, rollover, get_restaurant_menu,
  analyze, optimize_cart, execute_order, meal_skipped, meal_approved,
}

-- The answer of a handler: the phase it leaves.
pub data Answer : Type 0 where
  proposed : Phase → OptimizedCart → Answer
  ordered : Phase → String → String → Answer
  rolled : Phase → MenuItem → Answer
  reminded finalized : Bool → Answer

-- `Promise.all` starts its three calls before it waits; with several failures, which one is thrown is
-- open in the source and is the first in order here.
unfoldable pub run_scout_phase : Upstreams → String → String → String → Action Workflow Answer
run_scout_phase up user address restaurant = do
  existing ← gets (λ s. lookup user s.rows)
  throw_if (is_scouted existing) conflict
  modify (λ s. record s { rows = insert user (begin_row address restaurant existing) s.rows })
  throw_if (not (can_transition scouting optimizing)) conflict
  start_call (get_subscription user)
  start_call (get_preference_profile user)
  start_call (get_restaurant_menu user address restaurant)
  sub ← settle up.subscription
  profile ← settle up.profile
  body ← settle up.menu
  let menu = menu_of restaurant body
  ranked ← ask (analyze user (parse_preference_profile profile) menu (weekly_budget sub)) up.ranking
  proposal ← or_throw (select_next_candidate menu ranked []) conflict
  throw_if (not (can_transition optimizing awaiting_approval)) conflict
  cart ←
      ask (optimize_cart user restaurant address (cart_item proposal) sub.daily_avg_limit) up.cart
  updated ← update_row user (λ row. record row {
    phase = awaiting_approval;
    shortlist = some (record { ranked_items = ranked; current_item = proposal });
    optimized_cart = some cart;
    rejected_item_ids = [];
  })
  publish_scout_completed_and_menu_proposed up.bus user menu cart false
  dispatch_menu_notification user cart
  pure (proposed updated.phase cart)

unfoldable pub approve :
    Upstreams → String → String → String → OptimizedCart → ShortlistState → Action Workflow Answer
approve up user address restaurant cart shortlist = do
  throw_if (not (can_transition awaiting_approval approved)) conflict
  update_row user (λ row. record row { phase = approved; decision = some approve_meal })
  order ← ask (execute_order user address restaurant cart) up.order
  throw_if (not (can_transition approved executing)) conflict
  updated ← update_row user (λ row. record row { phase = executing })
  try_publish up.bus (meal_approved user shortlist.current_item restaurant)
  pure (ordered updated.phase order.0 order.1)

unfoldable pub skip : Upstreams → String → ShortlistState → Action Workflow Answer
skip up user shortlist = do
  throw_if (not (can_transition awaiting_approval skipped)) conflict
  updated ← update_row user (λ row. record row { phase = skipped; decision = some skip_meal })
  ask (rollover user) up.rolled_over
  try_publish up.bus (meal_skipped user)
  pure (rolled updated.phase shortlist.current_item)

-- The branch of `swap` that has a proposal.
unfoldable pub propose_next :
    Upstreams
    → String
    → String
    → String
    → ShortlistState
    → List String
    → List MenuItem
    → MenuItem
    → Action Workflow Answer
propose_next up user address restaurant shortlist next_rejected menu proposal = do
  sub ← ask (get_subscription user) up.subscription
  cart ←
      ask (optimize_cart user restaurant address (cart_item proposal) sub.daily_avg_limit) up.cart
  updated ← update_row user (λ row. record row {
    phase = awaiting_approval;
    shortlist = some (record shortlist { current_item = proposal });
    optimized_cart = some cart;
    rejected_item_ids = next_rejected;
  })
  publish_scout_completed_and_menu_proposed up.bus user menu cart true
  dispatch_menu_notification user cart
  pure (proposed updated.phase cart)

-- What `swap` does with the next candidate.
unfoldable pub swap_to :
    Upstreams
    → String
    → String
    → String
    → ShortlistState
    → List String
    → List MenuItem
    → Option MenuItem
    → Action Workflow Answer
swap_to up user address restaurant shortlist next_rejected menu none = skip up user shortlist
swap_to up user address restaurant shortlist next_rejected menu (some proposal) =
    propose_next up user address restaurant shortlist next_rejected menu proposal

unfoldable pub swap :
    Upstreams → String → String → String → ShortlistState → List String → Action Workflow Answer
swap up user address restaurant shortlist rejected = do
  throw_if (not (can_transition awaiting_approval awaiting_approval)) conflict
  let next_rejected = rejected ++ shortlist.current_item.item_id ∷ []
  body ← ask (get_restaurant_menu user address restaurant) up.menu
  let menu = menu_of restaurant body
  swap_to up user address restaurant shortlist next_rejected menu
      (select_next_candidate menu shortlist.ranked_items next_rejected)

-- The row of a user that awaits approval, with the columns that the scout phase wrote. A row in that
-- phase without them cannot be read (no handler leaves one); a property of `null` throws.
abbrev pub written : WorkflowState → Action Workflow (ShortlistState × OptimizedCart)
written row s = elim row.shortlist [
  | none ↦ (err internal, s)
  | some shortlist ↦ elim row.optimized_cart [
    | none ↦ (err internal, s)
    | some cart ↦ (ok (shortlist, cart), s)
  ]
]

abbrev pub decide :
    Upstreams
    → String
    → WorkflowState
    → ShortlistState × OptimizedCart
    → Decision
    → Action Workflow Answer
decide up user row cols approve_meal =
    approve up user row.address_id row.restaurant_id cols.1 cols.0
decide up user row cols skip_meal = skip up user cols.0
decide up user row cols swap_meal =
    swap up user row.address_id row.restaurant_id cols.0 row.rejected_item_ids

unfoldable pub handle_user_decision : Upstreams → String → Decision → Action Workflow Answer
handle_user_decision up user decision = do
  found ← gets (λ s. lookup user s.rows)
  row ← or_throw found not_found
  throw_if (not (phase_eq row.phase awaiting_approval)) conflict
  cols ← written row
  decide up user row cols decision

-- `!row || row.phase !== "AWAITING_APPROVAL"`, the other way round.
abbrev pub pending_row : Option WorkflowState → Option WorkflowState
pending_row none = none
pending_row (some row) = if phase_eq row.phase awaiting_approval then some row else none

abbrev pub remind : String → Option WorkflowState → Action Workflow Answer
remind user none = pure (reminded false)
remind user (some row) = do
  cols ← written row
  dispatch_menu_notification user cols.1
  pure (reminded true)

unfoldable pub send_reminder_if_pending : String → Action Workflow Answer
send_reminder_if_pending user = do
  found ← gets (λ s. pending_row (lookup user s.rows))
  remind user found

abbrev pub finalize_row : Upstreams → String → Option WorkflowState → Action Workflow Answer
finalize_row up user none = pure (finalized false)
finalize_row up user (some row) = do cols ← written row; skip up user cols.0; pure (finalized true)

unfoldable pub finalize_if_pending : Upstreams → String → Action Workflow Answer
finalize_if_pending up user = do
  found ← gets (λ s. pending_row (lookup user s.rows))
  finalize_row up user found
