-- ===== src/Workflow/Machine/Finished.antt =====
-- finalizeIfPending of workflow.service.ts at the end of a day.
use gusto_backend.Common.{
  String, Bool, true, false, Option, none, some, List, ◌≡◌, inl, inr, refl, ap, subst, arith,
  str_eq, Option-cases, Bool-cases,
}
use gusto_backend.Common.Dict.{Dict, lookup, lookup-insert_self}
use gusto_backend.Common.Http.{then_pure-state}
use gusto_backend.Hacker.Service.{OptimizedCart}
use gusto_backend.Workflow.Phase.{awaiting_approval, phase_eq}
use gusto_backend.Workflow.Service.State.{
  Workflow, WorkflowState, ShortlistState, Upstreams, is_scouted, Call,
}
use gusto_backend.Workflow.Service.{finalize_if_pending, finalize_row, skip, finalized}
use gusto_backend.Workflow.Api.{WorkflowRequest, finalize, serve_workflow, serve_day}
use gusto_backend.Workflow.Machine.{
  RowStep, RowSteps, stays, along, begins, proposes, swaps, approves, executes, skips, skipped_row,
}
use gusto_backend.Workflow.Machine.Rows.{skip-tables, begin_row-scouting}
use gusto_backend.Workflow.Machine.Refines.{serve_day-RowSteps, serve_workflow-RowSteps}

abbrev pub awaits_approval : Option WorkflowState → Bool
awaits_approval none = false
awaits_approval (some row) = phase_eq row.phase awaiting_approval

-- A row that awaits approval has the columns of its proposal.
pub record IsWritten (row : WorkflowState) : Type 0 where
  pub written_columns :
      phase_eq row.phase awaiting_approval ≡ true
      → ((shortlist : ShortlistState) × (row.shortlist ≡ some shortlist))
        × ((cart : OptimizedCart) × (row.optimized_cart ≡ some cart))

abbrev pub AllWritten : Option WorkflowState → Type 0
AllWritten none = Unit
AllWritten (some row) = IsWritten row

step-IsWritten : {o : Option WorkflowState} {row : WorkflowState} → RowStep o row → IsWritten row
step-IsWritten (begins {old} address restaurant e) = record {
  written_columns = λ w. absurd (ground (arith, begin_row-scouting address restaurant old e));
}
step-IsWritten (proposes menu ranked item cart e chosen) = record {
  written_columns = λ w. ((_, refl), (_, refl));
}
step-IsWritten (swaps menu shortlist item cart e l chosen) = record {
  written_columns = λ w. ((_, refl), (_, refl));
}
step-IsWritten (approves e) = record { written_columns = λ w. absurd (ground arith) }
step-IsWritten (executes e) = record { written_columns = λ w. absurd (ground arith) }
step-IsWritten (skips e) = record { written_columns = λ w. absurd (ground arith) }

steps-AllWritten :
    {old new : Option WorkflowState} → RowSteps old new → AllWritten old → AllWritten new
steps-AllWritten stays h = h
steps-AllWritten (along q step) h = step-IsWritten step

finalize_row-closed :
    (up : Upstreams) (user : String) (s : Workflow) (row : WorkflowState)
    (shortlist : ShortlistState) (cart : OptimizedCart)
    → lookup user s.rows ≡ some row
    → row.shortlist ≡ some shortlist
    → row.optimized_cart ≡ some cart
    → awaits_approval (lookup user (finalize_row up user (some row) s).1.rows) ≡ false
finalize_row-closed up user s row shortlist cart e l c =
    rw (l, c, then_pure-state (skip up user shortlist) (finalized true) s)
      (rw
        (
          ap (λ (t : Dict WorkflowState × List Call). t.0)
              (skip-tables up user "" "" s row e shortlist),
          lookup-insert_self user (skipped_row row) s.rows,
        )
        refl)

finalize-closed :
    (up : Upstreams) (user : String) (s : Workflow)
    → AllWritten (lookup user s.rows)
    → awaits_approval (lookup user (finalize_if_pending up user s).1.rows) ≡ false
unfolding finalize_if_pending
finalize-closed up user s h = elim (Option-cases (lookup user s.rows)) [
  | inl e ↦ rw (finalize_if_pending, e, e) refl
  | inr (row, e) ↦ elim (Bool-cases (phase_eq row.phase awaiting_approval)) [
    | inr w ↦ rw (finalize_if_pending, e, w, e, w) refl
    | inl w ↦
        let ((shortlist, l), (cart, c)) = (subst AllWritten e h).written_columns w in
        rw (finalize_if_pending, e, w) (finalize_row-closed up user s row shortlist cart e l c)
  ]
]

-- Past the scout phase and not awaiting approval.
record IsClosed (o : Option WorkflowState) : Type 0 where
  scouted : is_scouted o ≡ true
  decided : awaits_approval o ≡ false

step-IsClosed :
    {o : Option WorkflowState} {row : WorkflowState}
    → RowStep o row
    → IsClosed o
    → IsClosed (some row)
step-IsClosed (begins address restaurant e) h = absurd (ground (arith, h.scouted))
step-IsClosed (proposes menu ranked item cart e chosen) h = absurd (ground (arith, h.scouted))
step-IsClosed (swaps menu shortlist item cart e l chosen) h = absurd (ground (arith, h.decided))
step-IsClosed (approves e) h = absurd (ground (arith, h.decided))
step-IsClosed (executes e) h = record { scouted = refl; decided = refl }
step-IsClosed (skips e) h = absurd (ground (arith, h.decided))

steps-IsClosed : {old new : Option WorkflowState} → RowSteps old new → IsClosed old → IsClosed new
steps-IsClosed stays h = h
steps-IsClosed (along q step) h = step-IsClosed step (steps-IsClosed q h)

steps_scouted :
    {old new : Option WorkflowState}
    → RowSteps old new
    → is_scouted old ≡ true
    → is_scouted new ≡ true
steps_scouted stays h = h
steps_scouted (along q step) h = step_scouted step (steps_scouted q h)
  where
    step_scouted :
        {o : Option WorkflowState} {row : WorkflowState}
        → RowStep o row
        → is_scouted o ≡ true
        → is_scouted (some row) ≡ true
    step_scouted (begins address restaurant e) k = absurd (ground arith)
    step_scouted (proposes menu ranked item cart e chosen) k = refl
    step_scouted (swaps menu shortlist item cart e l chosen) k = refl
    step_scouted (approves e) k = refl
    step_scouted (executes e) k = refl
    step_scouted (skips e) k = refl

-- From a row with the columns of its phase, after any requests of a day that scouted the user: once
-- the day was finalized for the user, and whatever the other services answered and is requested then,
-- the row of the user does not await approval.
pub finalized_day_closed :
    (rs later : List (Upstreams × WorkflowRequest)) (up : Upstreams) (s : Workflow) (user : String)
    → AllWritten (lookup user s.rows)
    → is_scouted (lookup user (serve_day rs s).rows) ≡ true
    → str_eq user "" ≡ false
    → awaits_approval (
        lookup user
          (serve_day later (serve_workflow up (finalize (some user)) (serve_day rs s)).1).rows)
      ≡ false
unfolding serve_workflow
finalized_day_closed rs later up s user h scouted named =
    (steps-IsClosed (serve_day-RowSteps later _ user) (record {
      scouted = steps_scouted (serve_workflow-RowSteps up (finalize (some user)) day user) scouted;
      decided =
          rw (serve_workflow, named)
            (finalize-closed up user day (steps-AllWritten (serve_day-RowSteps rs s user) h));
    })).decided
  where
    day : Workflow
    day = serve_day rs s
