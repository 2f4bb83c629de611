-- ===== src/Workflow/Machine/Announced.antt =====
-- executeOrder of workflow.service.ts and the menu notification before it.
pub mod Calls
use gusto_backend.Common.{
  String, Bool, true, false, Option, none, some, List, [], ◌∷◌, ◌≡◌, ◌≢◌, inl, inr, refl, sym,
  subst, arith, str_eq, str_eq_iff, Any, Bool-cases,
}
use gusto_backend.Common.Dict.{Dict, lookup, insert, lookup-insert}
use gusto_backend.Hacker.Service.{OptimizedCart}
use gusto_backend.Workflow.Phase.{awaiting_approval, can_transition}
use gusto_backend.Workflow.Selection.{MenuItem, RawItem, select_next_candidate, menu_of}
use gusto_backend.Workflow.Service.State.{
  Workflow, WorkflowState, ShortlistState, Upstreams, Upstream, returns, fails, Call,
  get_restaurant_menu, Decision, begin_row, is_scouted, approve_meal, skip_meal, swap_meal,
  execute_order, send_menu_of_the_day, get_subscription,
}
use gusto_backend.Workflow.Service.{
  run_scout_phase, approve, skip, swap, swap_to, propose_next, decide,
}
use gusto_backend.Workflow.Api.{WorkflowRequest, serve_workflow, serve_day}
use gusto_backend.Workflow.Requests.{
  handle_user_decision_keeps, send_reminder_if_pending_keeps, finalize_if_pending_keeps,
  serve_workflow_keeps,
}
use gusto_backend.Workflow.Machine.{rejected_with, approved_row}
use gusto_backend.Workflow.Machine.Rows.{
  propose_next-tables, approve-tables, skip-tables, run_scout_phase-tables, begin_row-scouting,
  scouted_tables, if_returns_both, if_some_both,
}
use gusto_backend.Workflow.Machine.Announced.Calls.{
  WasSent, Announced, other_call, order_call, write_decided, write_proposed,
}

abbrev AnnouncedIn : Dict WorkflowState × List Call → Type 0
AnnouncedIn t = Announced t.0 t.1

-- The invariant of the state.
abbrev pub IsAnnounced : Workflow → Type 0
IsAnnounced s = Announced s.rows s.calls

module _ (up : Upstreams) (user : String) (s : Workflow) (row : WorkflowState)
    (there : lookup user s.rows ≡ some row) (h : IsAnnounced s) where
  skip-IsAnnounced : (shortlist : ShortlistState) → IsAnnounced (skip up user shortlist s).1
  skip-IsAnnounced shortlist =
      subst AnnouncedIn (sym (skip-tables up user "" "" s row there shortlist))
        (other_call _ _ (write_decided s.rows s.calls h user _ (λ e. ground arith)) _ refl)

  approve-IsAnnounced :
      (address restaurant : String) (cart : OptimizedCart) (shortlist : ShortlistState)
      → WasSent user cart s.calls
      → IsAnnounced (approve up user address restaurant cart shortlist s).1
  approve-IsAnnounced address restaurant cart shortlist sent =
      subst AnnouncedIn (sym (approve-tables up user address restaurant s row there cart shortlist))
        (if_returns_both AnnouncedIn up.order _ _ first
          λ o. write_decided _ _ first user _ (λ e. ground arith))
    where
      first :
          Announced
            (insert user (approved_row row) s.rows)
            (execute_order user address restaurant cart ∷ s.calls)
      first =
          order_call _ s.calls (write_decided s.rows s.calls h user _ (λ e. ground arith)) user
            address restaurant cart sent

  propose_next-IsAnnounced :
      (address restaurant : String) (shortlist : ShortlistState) (menu : List MenuItem)
      (item : MenuItem)
      → IsAnnounced
          (propose_next up user address restaurant shortlist
            (rejected_with row shortlist)
            menu
            item
            s).1
  propose_next-IsAnnounced address restaurant shortlist menu item =
      subst AnnouncedIn
        (sym (propose_next-tables up user address restaurant s row there shortlist menu item))
        (if_returns_both AnnouncedIn up.subscription _ _ asked λ sub.
          if_returns_both AnnouncedIn up.cart _ _ (other_call _ _ asked _ refl)
            λ cart. write_proposed _ _ (other_call _ _ asked _ refl) user _ cart refl)
    where
      asked : Announced s.rows (get_subscription user ∷ s.calls)
      asked = other_call s.rows s.calls h _ refl

  swap_to-IsAnnounced :
      (address restaurant : String) (shortlist : ShortlistState) (menu : List MenuItem)
      (item : Option MenuItem)
      → IsAnnounced
          (swap_to up user address restaurant shortlist (rejected_with row shortlist) menu item s).1
  unfolding swap_to
  swap_to-IsAnnounced address restaurant shortlist menu none = skip-IsAnnounced shortlist
  swap_to-IsAnnounced address restaurant shortlist menu (some item) =
      propose_next-IsAnnounced address restaurant shortlist menu item

swap-IsAnnounced :
    (up : Upstreams) (user : String) (s : Workflow) (row : WorkflowState)
    → lookup user s.rows ≡ some row
    → IsAnnounced s
    → (address restaurant : String) (shortlist : ShortlistState)
    → IsAnnounced (swap up user address restaurant shortlist row.rejected_item_ids s).1
unfolding swap can_transition
swap-IsAnnounced up user s row there h address restaurant shortlist = answered up.menu
  where
    asked : Announced s.rows (get_restaurant_menu user address restaurant ∷ s.calls)
    asked = other_call s.rows s.calls h _ refl

    answered :
        (menu : Upstream (Option (Option (List (Option (List RawItem))))))
        → IsAnnounced
            (swap
              (record up { menu = menu })
              user
              address
              restaurant
              shortlist
              row.rejected_item_ids
              s).1
    answered (fails e) = asked
    answered (returns body) =
        swap_to-IsAnnounced (record up { menu = returns body }) user
          (record s { calls = get_restaurant_menu user address restaurant ∷ s.calls }) row there
          asked address restaurant shortlist (menu_of restaurant body) _

decide-IsAnnounced :
    (up : Upstreams) (user : String) (s : Workflow) (row : WorkflowState)
    → lookup user s.rows ≡ some row
    → IsAnnounced s
    → (shortlist : ShortlistState) (cart : OptimizedCart) → WasSent user cart s.calls
    → (made : Decision) → IsAnnounced (decide up user row (shortlist, cart) made s).1
decide-IsAnnounced up user s row there h shortlist cart sent approve_meal =
    approve-IsAnnounced up user s row there h row.address_id row.restaurant_id cart shortlist sent
decide-IsAnnounced up user s row there h shortlist cart sent skip_meal =
    skip-IsAnnounced up user s row there h shortlist
decide-IsAnnounced up user s row there h shortlist cart sent swap_meal =
    swap-IsAnnounced up user s row there h row.address_id row.restaurant_id shortlist

scouted-IsAnnounced :
    (up : Upstreams) (user address restaurant : String) (begun : WorkflowState)
    (rows : Dict WorkflowState) (calls : List Call)
    → Announced rows calls
    → AnnouncedIn (scouted_tables up user address restaurant begun rows calls)
scouted-IsAnnounced up user address restaurant begun rows calls h =
    if_returns_both AnnouncedIn up.subscription _ _ h λ sub.
      if_returns_both AnnouncedIn up.profile _ _ h λ profile.
        if_returns_both AnnouncedIn up.menu _ _ h λ body.
          if_returns_both AnnouncedIn up.ranking _ _ (other_call rows calls h _ refl) λ ranked.
            if_some_both AnnouncedIn (select_next_candidate (menu_of restaurant body) ranked []) _ _
              (other_call rows calls h _ refl)
              λ item chosen.
                if_returns_both AnnouncedIn up.cart _ _
                  (other_call _ _ (other_call rows calls h _ refl) _ refl)
                  λ cart.
                    write_proposed _ _ (other_call _ _ (other_call rows calls h _ refl) _ refl) user
                      _ cart refl

scout-IsAnnounced :
    (up : Upstreams) (user address restaurant : String) (s : Workflow)
    → IsAnnounced s
    → IsAnnounced (run_scout_phase up user address restaurant s).1
scout-IsAnnounced up user address restaurant s h =
    subst AnnouncedIn (sym (run_scout_phase-tables up user address restaurant s))
      (elim (Bool-cases (is_scouted (lookup user s.rows))) [
        | inl e ↦ rw e h
        | inr e ↦ rw e (
            scouted-IsAnnounced up user address restaurant begun (insert user begun s.rows) _
              (other_call _ _ (other_call _ _ (other_call _ _ (begins e) _ refl) _ refl) _ refl))
      ])
  where
    begun : WorkflowState
    begun = begin_row address restaurant (lookup user s.rows)

    begins : is_scouted (lookup user s.rows) ≡ false → Announced (insert user begun s.rows) s.calls
    begins e =
        write_decided s.rows s.calls h user begun
          λ w. ground (arith, begin_row-scouting address restaurant (lookup user s.rows) e)

serve_workflow-IsAnnounced :
    (up : Upstreams) (r : WorkflowRequest) (s : Workflow)
    → IsAnnounced s
    → IsAnnounced (serve_workflow up r s).1
serve_workflow-IsAnnounced up r s h =
    serve_workflow_keeps IsAnnounced up r s h
      (λ user address restaurant. scout-IsAnnounced up user address restaurant s h)
      (λ user made. handle_user_decision_keeps IsAnnounced user s h up made λ w.
        decide-IsAnnounced up user s w.row w.there h w.shortlist w.cart
          (h.waiting user w.row w.cart w.there w.waits w.shown) made)
      (λ user.
        send_reminder_if_pending_keeps IsAnnounced user s h λ w. other_call s.rows s.calls h _ refl)
      (λ user.
        finalize_if_pending_keeps IsAnnounced user s h up
          λ w. skip-IsAnnounced up user s w.row w.there h w.shortlist)

-- Over any requests of a day and any answers of the other services, from a state in which it holds:
-- executeOrder was called only with carts that notification-service was asked to show to the user
-- before, and so was the cart of each row that awaits approval.
pub serve_day-IsAnnounced :
    (rs : List (Upstreams × WorkflowRequest)) (s : Workflow)
    → IsAnnounced s
    → IsAnnounced (serve_day rs s)
unfolding serve_day
serve_day-IsAnnounced [] s h = h
serve_day-IsAnnounced ((up, r) ∷ rs) s h =
    serve_day-IsAnnounced rs (serve_workflow up r s).1 (serve_workflow-IsAnnounced up r s h)
