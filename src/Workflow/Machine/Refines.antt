-- ===== src/Workflow/Machine/Refines.antt =====
-- Every request moves the row of each user along the steps of the machine.
use gusto_backend.Common.{
  String, Option, none, some, List, [], ◌∷◌, ◌≡◌, refl, sym, subst, inl, inr, arith, Bool-cases,
  str_eq, str_eq_iff,
}
use gusto_backend.Common.Dict.{Dict, lookup, insert, lookup-insert_self}
use gusto_backend.Hacker.Service.{OptimizedCart}
use gusto_backend.Workflow.Phase.{scouting, awaiting_approval, can_transition}
use gusto_backend.Workflow.Selection.{MenuItem, RawItem, select_next_candidate, menu_of}
use gusto_backend.Workflow.Service.State.{
  Workflow, WorkflowState, ShortlistState, Upstreams, Upstream, returns, fails, Call,
  get_restaurant_menu, Decision, begin_row, is_scouted, approve_meal, skip_meal, swap_meal,
}
use gusto_backend.Workflow.Service.{
  run_scout_phase, approve, skip, swap, swap_to, propose_next, decide,
}
use gusto_backend.Workflow.Requests.{
  handle_user_decision_keeps, send_reminder_if_pending_keeps, finalize_if_pending_keeps,
  serve_workflow_keeps,
}
use gusto_backend.Workflow.Machine.{
  RowSteps, stays, begins, proposes, swaps, approves, executes, skips, RowSteps-trans,
  rejected_with, approved_row,
}
use gusto_backend.Workflow.Api.{WorkflowRequest, serve_workflow, serve_day}
use gusto_backend.Workflow.Machine.Rows.{
  Moves, Moves-refl, Moves-insert, Moves-step, propose_next-tables, approve-tables, skip-tables,
  run_scout_phase-tables, begin_row-scouting, scouted_tables, first_calls, if_returns_both,
  if_some_both,
}

abbrev MovesTo : String → Dict WorkflowState → Dict WorkflowState × List Call → Type 0
MovesTo user before t = Moves user before t.0

scouted-Moves :
    (up : Upstreams) (user address restaurant : String) (begun : WorkflowState)
    (before rows : Dict WorkflowState) (calls : List Call)
    → lookup user rows ≡ some begun
    → begun.phase ≡ scouting
    → Moves user before rows
    → Moves user before (scouted_tables up user address restaurant begun rows calls).0
scouted-Moves up user address restaurant begun before rows calls there scouts m =
    if_returns_both P up.subscription _ _ m λ sub. if_returns_both P up.profile _ _ m λ profile.
      if_returns_both P up.menu _ _ m λ body. if_returns_both P up.ranking _ _ m λ ranked.
        if_some_both P (select_next_candidate (menu_of restaurant body) ranked []) _ _ m
          λ item chosen. if_returns_both P up.cart _ _ m λ cart.
            Moves-step user before rows begun _ m there
              (proposes (menu_of restaurant body) ranked item cart scouts chosen)
  where
    P : Dict WorkflowState × List Call → Type 0
    P = MovesTo user before

run_scout_phase-Moves :
    (up : Upstreams) (user address restaurant : String) (s : Workflow)
    → Moves user s.rows (run_scout_phase up user address restaurant s).1.rows
run_scout_phase-Moves up user address restaurant s =
    subst (MovesTo user s.rows) (sym (run_scout_phase-tables up user address restaurant s))
      (elim (Bool-cases (is_scouted (lookup user s.rows))) [
        | inl e ↦ rw e (Moves-refl user s.rows)
        | inr e ↦ rw e (
            scouted-Moves up user address restaurant begun s.rows (insert user begun s.rows)
              (first_calls user address restaurant s.calls) (lookup-insert_self user begun s.rows)
              (begin_row-scouting address restaurant (lookup user s.rows) e)
              (Moves-insert user s.rows s.rows begun (Moves-refl user s.rows)
                (begins address restaurant e)))
      ])
  where
    begun : WorkflowState
    begun = begin_row address restaurant (lookup user s.rows)

module _ (up : Upstreams) (user : String) (s : Workflow) (row : WorkflowState)
    (there : lookup user s.rows ≡ some row) (waits : row.phase ≡ awaiting_approval) where
  skip-Moves : (shortlist : ShortlistState) → Moves user s.rows (skip up user shortlist s).1.rows
  skip-Moves shortlist =
      subst (MovesTo user s.rows) (sym (skip-tables up user "" "" s row there shortlist))
        (Moves-step user s.rows s.rows row _ (Moves-refl user s.rows) there (skips waits))

  approve-Moves :
      (address restaurant : String) (cart : OptimizedCart) (shortlist : ShortlistState)
      → Moves user s.rows (approve up user address restaurant cart shortlist s).1.rows
  approve-Moves address restaurant cart shortlist =
      subst (MovesTo user s.rows)
        (sym (approve-tables up user address restaurant s row there cart shortlist))
        (if_returns_both (MovesTo user s.rows) up.order _ _ moved λ o.
          Moves-step user s.rows first (approved_row row) _ moved
            (lookup-insert_self user (approved_row row) s.rows) (executes refl))
    where
      first : Dict WorkflowState
      first = insert user (approved_row row) s.rows

      moved : Moves user s.rows first
      moved = Moves-step user s.rows s.rows row _ (Moves-refl user s.rows) there (approves waits)

  propose_next-Moves :
      (address restaurant : String) (shortlist : ShortlistState) (menu : List MenuItem)
      (item : MenuItem)
      → row.shortlist ≡ some shortlist
      → select_next_candidate menu shortlist.ranked_items (rejected_with row shortlist) ≡ some item
      → Moves user s.rows
          (propose_next up user address restaurant shortlist
            (rejected_with row shortlist)
            menu
            item
            s).1.rows
  propose_next-Moves address restaurant shortlist menu item listed chosen =
      subst (MovesTo user s.rows)
        (sym (propose_next-tables up user address restaurant s row there shortlist menu item))
        (if_returns_both (MovesTo user s.rows) up.subscription _ _ (Moves-refl user s.rows) λ sub.
          if_returns_both (MovesTo user s.rows) up.cart _ _ (Moves-refl user s.rows) λ cart.
            Moves-step user s.rows s.rows row _ (Moves-refl user s.rows) there
              (swaps menu shortlist item cart waits listed chosen))

  swap_to-Moves :
      (address restaurant : String) (shortlist : ShortlistState) (menu : List MenuItem)
      (item : Option MenuItem)
      → row.shortlist ≡ some shortlist
      → select_next_candidate menu shortlist.ranked_items (rejected_with row shortlist) ≡ item
      → Moves user s.rows
          (swap_to up user address restaurant shortlist
            (rejected_with row shortlist)
            menu
            item
            s).1.rows
  unfolding swap_to
  swap_to-Moves address restaurant shortlist menu none listed chosen = skip-Moves shortlist
  swap_to-Moves address restaurant shortlist menu (some item) listed chosen =
      propose_next-Moves address restaurant shortlist menu item listed chosen

swap-Moves :
    (up : Upstreams) (user : String) (s : Workflow) (row : WorkflowState)
    → lookup user s.rows ≡ some row
    → row.phase ≡ awaiting_approval
    → (address restaurant : String) (shortlist : ShortlistState) → row.shortlist ≡ some shortlist
    → Moves user s.rows (swap up user address restaurant shortlist row.rejected_item_ids s).1.rows
unfolding swap can_transition
swap-Moves up user s row there waits address restaurant shortlist listed = answered up.menu
  where
    answered :
        (menu : Upstream (Option (Option (List (Option (List RawItem))))))
        → Moves user s.rows
            (swap
              (record up { menu = menu })
              user
              address
              restaurant
              shortlist
              row.rejected_item_ids
              s).1.rows
    answered (fails e) = Moves-refl user s.rows
    answered (returns body) =
        swap_to-Moves (record up { menu = returns body }) user
          (record s { calls = get_restaurant_menu user address restaurant ∷ s.calls }) row there
          waits address restaurant shortlist (menu_of restaurant body) _ listed refl

decide-Moves :
    (up : Upstreams) (user : String) (s : Workflow) (row : WorkflowState)
    → lookup user s.rows ≡ some row
    → row.phase ≡ awaiting_approval
    → (shortlist : ShortlistState) (cart : OptimizedCart) → row.shortlist ≡ some shortlist
    → (made : Decision) → Moves user s.rows (decide up user row (shortlist, cart) made s).1.rows
decide-Moves up user s row there waits shortlist cart listed approve_meal =
    approve-Moves up user s row there waits row.address_id row.restaurant_id cart shortlist
decide-Moves up user s row there waits shortlist cart listed skip_meal =
    skip-Moves up user s row there waits shortlist
decide-Moves up user s row there waits shortlist cart listed swap_meal =
    swap-Moves up user s row there waits row.address_id row.restaurant_id shortlist listed

-- Of any user, whoever the request names.
Moves-anyone :
    (user j : String) (before after : Dict WorkflowState)
    → Moves user before after
    → RowSteps (lookup j before) (lookup j after)
Moves-anyone user j before after m = elim (Bool-cases (str_eq user j)) [
  | inl e ↦
      subst (λ k. RowSteps (lookup k before) (lookup k after)) ((str_eq_iff user j).0 e) m.steps
  | inr e ↦
      subst (RowSteps (lookup j before)) (sym (m.others j (ground (arith, str_eq_iff user j))))
        stays
]

pub serve_workflow-RowSteps :
    (up : Upstreams) (r : WorkflowRequest) (s : Workflow) (j : String)
    → RowSteps (lookup j s.rows) (lookup j (serve_workflow up r s).1.rows)
serve_workflow-RowSteps up r s j =
    serve_workflow_keeps (λ t. RowSteps (lookup j s.rows) (lookup j t.rows)) up r s stays
      (λ u a b. Moves-anyone u j _ _ (run_scout_phase-Moves up u a b s))
      (λ u made. Moves-anyone u j _ _ (
        handle_user_decision_keeps (λ t. Moves u s.rows t.rows) u s (Moves-refl u s.rows) up made
          λ w. decide-Moves up u s w.row w.there w.waits w.shortlist w.cart w.listed made))
      (λ u.
        send_reminder_if_pending_keeps (λ t. RowSteps (lookup j s.rows) (lookup j t.rows)) u s stays
          λ w. stays)
      (λ u. Moves-anyone u j _ _ (
        finalize_if_pending_keeps (λ t. Moves u s.rows t.rows) u s (Moves-refl u s.rows) up
          λ w. skip-Moves up u s w.row w.there w.waits w.shortlist))

-- Over any requests of a day and any answers of the other services, the row of every user goes along
-- steps of the machine: it begins, is proposed, swapped, approved, executed or skipped, each from the
-- phase and with the columns that the step names.
pub serve_day-RowSteps :
    (rs : List (Upstreams × WorkflowRequest)) (s : Workflow) (user : String)
    → RowSteps (lookup user s.rows) (lookup user (serve_day rs s).rows)
unfolding serve_day
serve_day-RowSteps [] s user = stays
serve_day-RowSteps ((up, r) ∷ rs) s user =
    RowSteps-trans (serve_workflow-RowSteps up r s user)
      (serve_day-RowSteps rs (serve_workflow up r s).1 user)
