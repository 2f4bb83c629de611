-- ===== src/Workflow/Machine/Phases.antt =====
-- The phase that each request leaves, by the request, against TRANSITIONS of
-- workflow.state-machine.ts: the scout phase alone goes from SCOUTING to AWAITING_APPROVAL in one write.
pub mod Handlers
pub mod Served
use gusto_backend.Common.{
  String, Bool, true, false, Option, none, some, List, ◌≡◌, ◌≢◌, refl, sym, ap, subst, ◌∙◌, inl,
  inr, arith, Bool-cases, Option-cases, str_eq, str_eq_iff,
}
use gusto_backend.Common.Dict.{Dict, lookup, insert, lookup-insert_self, lookup-insert_ne}
use gusto_backend.Hacker.Service.{OptimizedCart}
use gusto_backend.Workflow.Phase.{
  Phase, scouting, awaiting_approval, approved, executing, skipped, phase_eq, can_transition,
}
use gusto_backend.Workflow.Selection.{MenuItem, RawItem, select_next_candidate, menu_of}
use gusto_backend.Workflow.Service.State.{
  Workflow, WorkflowState, ShortlistState, Upstreams, Upstream, returns, fails, Call,
  get_restaurant_menu, Decision, begin_row, is_scouted, approve_meal, skip_meal, swap_meal,
}
use gusto_backend.Workflow.Service.{
  run_scout_phase, approve, skip, swap, swap_to, propose_next, decide,
}
use gusto_backend.Workflow.Requests.{
  handle_user_decision_keeps, send_reminder_if_pending_keeps, finalize_if_pending_keeps,
}
use gusto_backend.Workflow.Api.{
  WorkflowRequest, scout_run, decision, notify_reminder, finalize, serve_workflow, parse_scout_run,
}
use gusto_backend.Workflow.Machine.{rejected_with, approved_row}
use gusto_backend.Workflow.Machine.Rows.{
  propose_next-tables, approve-tables, skip-tables, run_scout_phase-tables, begin_row-scouting,
  scouted_tables, first_calls, if_returns, if_returns_both, if_some_both,
}

abbrev pub phase_at : String → Dict WorkflowState → Option Phase
phase_at user rows = elim (lookup user rows) [ none ↦ none | some row ↦ some row.phase ]

abbrev pub is_returned : {A : Type 0} → Upstream A → Bool
is_returned (returns a) = true
is_returned (fails e) = false

-- No row yet, or one that is still scouted.
abbrev pub is_unscouted : Option Phase → Bool
is_unscouted none = true
is_unscouted (some p) = phase_eq p scouting

-- What a request may do to the phase of the user.
pub data PhaseMove (up : Upstreams) (user : String)
    : WorkflowRequest → Option Phase → Option Phase → Type 0 where
  kept : {r : WorkflowRequest} {p : Option Phase} → PhaseMove up user r p p
  scouts :
      {address restaurant : Option String} {p : Option Phase}
      → is_unscouted p ≡ true
      → PhaseMove up user (scout_run (some user) address restaurant) p (some scouting)
  proposes :
      {address restaurant : Option String} {p : Option Phase}
      → is_unscouted p ≡ true
      → PhaseMove up user (scout_run (some user) address restaurant) p (some awaiting_approval)
  approves :
      is_returned up.order ≡ false
      → PhaseMove up user
          (decision (some user) (some approve_meal))
          (some awaiting_approval)
          (some approved)
  executes :
      is_returned up.order ≡ true
      → PhaseMove up user
          (decision (some user) (some approve_meal))
          (some awaiting_approval)
          (some executing)
  skips :
      PhaseMove up user
        (decision (some user) (some skip_meal))
        (some awaiting_approval)
        (some skipped)
  runs_out :
      PhaseMove up user
        (decision (some user) (some swap_meal))
        (some awaiting_approval)
        (some skipped)
  expires : PhaseMove up user (finalize (some user)) (some awaiting_approval) (some skipped)

-- Between two tables: the user's phase moves as the request may move it, the other rows stay.
pub record Shifts (up : Upstreams) (r : WorkflowRequest) (user : String)
    (before after : Dict WorkflowState) : Type 0 where
  pub moved : PhaseMove up user r (phase_at user before) (phase_at user after)
  pub others : (j : String) → user ≢ j → lookup j after ≡ lookup j before

pub if_returned :
    {A B : Type 0} (P : B → Type 0) (u : Upstream A) (x : B) (f : A → B)
    → (is_returned u ≡ false → P x)
    → ((a : A) → is_returned u ≡ true → P (f a))
    → P (if_returns u x f)
if_returned P (returns a) x f p q = q a refl
if_returned P (fails e) x f p q = p refl

pub phase_at-there :
    (user : String) (rows : Dict WorkflowState) (row : WorkflowState)
    → lookup user rows ≡ some row
    → row.phase ≡ awaiting_approval
    → phase_at user rows ≡ some awaiting_approval
phase_at-there user rows row there waits = ground arith

pub unscouted :
    (user : String) (rows : Dict WorkflowState)
    → is_scouted (lookup user rows) ≡ false
    → is_unscouted (phase_at user rows) ≡ true
unscouted user rows e = ground arith

pub parsed_user :
    (user address restaurant : Option String) (u a r : String)
    → parse_scout_run user address restaurant ≡ some (u, a, r)
    → user ≡ some u
parsed_user user address restaurant u a r e = ground arith

pub Shifts-anyone :
    (up : Upstreams) (r : WorkflowRequest) (user j : String) (before after : Dict WorkflowState)
    → Shifts up r user before after
    → PhaseMove up j r (phase_at j before) (phase_at j after)
Shifts-anyone up r user j before after m = elim (Bool-cases (str_eq user j)) [
  | inl e ↦
      subst (λ k. PhaseMove up k r (phase_at k before) (phase_at k after)) ((str_eq_iff user j).0 e)
        m.moved
  | inr e ↦
      subst
        (λ o.
          PhaseMove up j r (phase_at j before)
            (elim o as (λ _. Option Phase) [ none ↦ none | some row ↦ some row.phase ]))
        (sym (m.others j (ground (arith, str_eq_iff user j)))) kept
]

module _ (up : Upstreams) (r : WorkflowRequest) (user : String) where
  pub Shifts-refl : (rows : Dict WorkflowState) → Shifts up r user rows rows
  Shifts-refl rows = record { moved = kept; others = λ j ne. refl }

  pub Shifts-insert :
      (before mid : Dict WorkflowState) (row : WorkflowState) (p : Option Phase)
      → ((j : String) → user ≢ j → lookup j mid ≡ lookup j before)
      → phase_at user before ≡ p
      → PhaseMove up user r p (some row.phase)
      → Shifts up r user before (insert user row mid)
  Shifts-insert before mid row p same e move = record {
    moved =
        subst
          (λ o.
            PhaseMove up user r (phase_at user before)
              (elim o as (λ _. Option Phase) [ none ↦ none | some x ↦ some x.phase ]))
          (sym (lookup-insert_self user row mid))
          (subst (λ q. PhaseMove up user r q (some row.phase)) (sym e) move);
    others = λ j ne. grind (arith, lookup-insert_ne, same);
  }
