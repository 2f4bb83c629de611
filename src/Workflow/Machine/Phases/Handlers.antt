-- ===== src/Workflow/Machine/Phases/Handlers.antt =====
-- The handlers of workflow.service.ts, each against the moves of a phase that its request may make.
use gusto_backend.Common.{
  String, Option, none, some, List, [], ◌∷◌, ◌≡◌, refl, sym, subst, inl, inr, arith, Bool-cases,
}
use gusto_backend.Common.Dict.{Dict, lookup, insert, lookup-insert_ne}
use gusto_backend.Workflow.Phase.{awaiting_approval, skipped, can_transition}
use gusto_backend.Workflow.Selection.{MenuItem, RawItem, select_next_candidate, menu_of}
use gusto_backend.Hacker.Service.{OptimizedCart}
use gusto_backend.Workflow.Service.State.{
  Workflow, WorkflowState, ShortlistState, Upstreams, Upstream, returns, fails, Call,
  get_restaurant_menu, begin_row, is_scouted, approve_meal, swap_meal,
}
use gusto_backend.Workflow.Service.{run_scout_phase, approve, skip, swap, swap_to, propose_next}
use gusto_backend.Workflow.Api.{WorkflowRequest, scout_run, decision}
use gusto_backend.Workflow.Machine.{rejected_with, approved_row}
use gusto_backend.Workflow.Machine.Rows.{
  propose_next-tables, approve-tables, skip-tables, run_scout_phase-tables, begin_row-scouting,
  scouted_tables, first_calls, if_returns_both, if_some_both,
}
use gusto_backend.Workflow.Machine.Phases.{
  phase_at, PhaseMove, kept, scouts, proposes, approves, executes, runs_out, Shifts, if_returned,
  phase_at-there, unscouted, Shifts-refl, Shifts-insert,
}

module _ (up : Upstreams) (user : String) (s : Workflow) where
  module _ (r : WorkflowRequest) where
    abbrev Shifted : Dict WorkflowState × List Call → Type 0
    Shifted t = Shifts up r user s.rows t.0

    scouted-Shifts :
        (address restaurant : String) (begun : WorkflowState)
        → PhaseMove up user r (phase_at user s.rows) (some awaiting_approval)
        → Shifts up r user s.rows (insert user begun s.rows)
        → (calls : List Call)
        → Shifted (scouted_tables up user address restaurant begun (insert user begun s.rows) calls)
    scouted-Shifts address restaurant begun move m calls =
        if_returns_both Shifted up.subscription _ _ m λ sub.
          if_returns_both Shifted up.profile _ _ m λ profile.
            if_returns_both Shifted up.menu _ _ m λ body.
              if_returns_both Shifted up.ranking _ _ m λ ranked.
                if_some_both Shifted (select_next_candidate (menu_of restaurant body) ranked []) _ _
                  m
                  λ item chosen. if_returns_both Shifted up.cart _ _ m λ cart.
                    Shifts-insert up r user s.rows (insert user begun s.rows) _ _ m.others refl move

    module _ (row : WorkflowState) (there : lookup user s.rows ≡ some row)
        (waits : row.phase ≡ awaiting_approval) where
      -- A write to the row behind the one that was there.
      written_row :
          (new : WorkflowState)
          → PhaseMove up user r (some awaiting_approval) (some new.phase)
          → Shifts up r user s.rows (insert user new s.rows)
      written_row new =
          Shifts-insert up r user s.rows s.rows new _ (λ j ne. refl)
            (phase_at-there user s.rows row there waits)

      pub skip-Shifts :
          PhaseMove up user r (some awaiting_approval) (some skipped)
          → (shortlist : ShortlistState) → Shifts up r user s.rows (skip up user shortlist s).1.rows
      skip-Shifts move shortlist =
          subst Shifted (sym (skip-tables up user "" "" s row there shortlist)) (written_row _ move)

      propose_next-Shifts :
          (address restaurant : String) (shortlist : ShortlistState) (menu : List MenuItem)
          (item : MenuItem)
          → Shifts up r user s.rows
              (propose_next up user address restaurant shortlist
                (rejected_with row shortlist)
                menu
                item
                s).1.rows
      propose_next-Shifts address restaurant shortlist menu item =
          subst Shifted
            (sym (propose_next-tables up user address restaurant s row there shortlist menu item))
            (if_returns_both Shifted up.subscription _ _ (Shifts-refl up r user s.rows) λ sub.
              if_returns_both Shifted up.cart _ _ (Shifts-refl up r user s.rows)
                λ cart. written_row _ kept)

      swap_to-Shifts :
          PhaseMove up user r (some awaiting_approval) (some skipped)
          → (address restaurant : String) (shortlist : ShortlistState) (menu : List MenuItem)
            (item : Option MenuItem)
          → Shifts up r user s.rows
              (swap_to up user address restaurant shortlist
                (rejected_with row shortlist)
                menu
                item
                s).1.rows
      unfolding swap_to
      swap_to-Shifts move address restaurant shortlist menu none = skip-Shifts move shortlist
      swap_to-Shifts move address restaurant shortlist menu (some item) =
          propose_next-Shifts address restaurant shortlist menu item

  pub run_scout_phase-Shifts :
      (a b : Option String) (address restaurant : String)
      → Shifts up
          (scout_run (some user) a b)
          user
          s.rows
          (run_scout_phase up user address restaurant s).1.rows
  run_scout_phase-Shifts a b address restaurant =
      subst (Shifted r) (sym (run_scout_phase-tables up user address restaurant s))
        (elim (Bool-cases (is_scouted (lookup user s.rows))) [
          | inl e ↦ rw e (Shifts-refl up r user s.rows)
          | inr e ↦ rw e (
              let free = unscouted user s.rows e in
              scouted-Shifts r address restaurant begun (proposes free)
                (Shifts-insert up r user s.rows s.rows begun _ (λ j ne. refl) refl
                  (subst (λ p. PhaseMove up user r (phase_at user s.rows) (some p))
                    (sym (begin_row-scouting address restaurant (lookup user s.rows) e))
                    (scouts free)))
                (first_calls user address restaurant s.calls))
        ])
    where
      r : WorkflowRequest
      r = scout_run (some user) a b

      begun : WorkflowState
      begun = begin_row address restaurant (lookup user s.rows)

  module _ (row : WorkflowState) (there : lookup user s.rows ≡ some row)
      (waits : row.phase ≡ awaiting_approval) where
    pub approve-Shifts :
        (address restaurant : String) (cart : OptimizedCart) (shortlist : ShortlistState)
        → Shifts up
            (decision (some user) (some approve_meal))
            user
            s.rows
            (approve up user address restaurant cart shortlist s).1.rows
    approve-Shifts address restaurant cart shortlist =
        subst (Shifted r)
          (sym (approve-tables up user address restaurant s row there cart shortlist))
          (if_returned (Shifted r) up.order _ _ (λ e. written_row r row there waits _ (approves e))
            λ o e.
              Shifts-insert up r user s.rows (insert user (approved_row row) s.rows) _ _
                (λ j ne. grind (arith, lookup-insert_ne))
                (phase_at-there user s.rows row there waits) (executes e))
      where
        r : WorkflowRequest
        r = decision (some user) (some approve_meal)

pub swap-Shifts :
    (up : Upstreams) (user : String) (s : Workflow) (row : WorkflowState)
    → lookup user s.rows ≡ some row
    → row.phase ≡ awaiting_approval
    → (address restaurant : String) (shortlist : ShortlistState)
    → Shifts up
        (decision (some user) (some swap_meal))
        user
        s.rows
        (swap up user address restaurant shortlist row.rejected_item_ids s).1.rows
unfolding swap can_transition
swap-Shifts up user s row there waits address restaurant shortlist = answered up.menu
  where
    r : WorkflowRequest
    r = decision (some user) (some swap_meal)

    answered :
        (menu : Upstream (Option (Option (List (Option (List RawItem))))))
        → Shifts
            (record up { menu = menu })
            r
            user
            s.rows
            (swap
              (record up { menu = menu })
              user
              address
              restaurant
              shortlist
              row.rejected_item_ids
              s).1.rows
    answered (fails e) = Shifts-refl (record up { menu = fails e }) r user s.rows
    answered (returns body) =
        swap_to-Shifts (record up { menu = returns body }) user
          (record s { calls = get_restaurant_menu user address restaurant ∷ s.calls }) r row there
          waits runs_out address restaurant shortlist (menu_of restaurant body) _
