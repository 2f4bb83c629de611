-- ===== src/Workflow/Outcome.antt =====
-- The calls of workflow.service.ts that end the day of a user: executeOrder and the rollover.
use gusto_backend.Common.{
  ℕ, suc, String, Bool, true, false, not, Option, none, some, List, [], ◌∷◌, ◌≡◌, refl, sym, subst,
  ◌⊎◌, inl, inr, arith, str_eq, str_eq_iff, if◌then◌else◌, Bool-cases, ◌≢◌,
}
use gusto_backend.Common.Dict.{lookup, insert, lookup-insert, lookup-insert_self, lookup-insert_ne}
use gusto_backend.Hacker.Service.{OptimizedCart}
use gusto_backend.Workflow.Phase.{
  Phase, scouting, optimizing, awaiting_approval, approved, executing, skipped, can_transition,
}
use gusto_backend.Workflow.Selection.{MenuItem}
use gusto_backend.Workflow.Service.{
  swap_to, decide, approve, skip, swap, propose_next, run_scout_phase,
}
use gusto_backend.Workflow.Service.State.{
  Workflow, WorkflowState, Upstreams, Decision, ShortlistState, Upstream, Call, is_scouted, returns,
  fails, skip_meal, approve_meal, execute_order, rollover, get_restaurant_menu, swap_meal,
}
use gusto_backend.Workflow.Requests.{
  handle_user_decision_keeps, send_reminder_if_pending_keeps, finalize_if_pending_keeps,
  serve_workflow_keeps,
}
use gusto_backend.Workflow.Api.{WorkflowRequest, serve_workflow, serve_day}

-- A call that ends the day of a user.
abbrev pub ends_day : String → Call → Bool
ends_day user (execute_order other address restaurant cart) = str_eq other user
ends_day user (rollover other) = str_eq other user
ends_day user _ = false

-- How often the day of a user was ended.
unfoldable pub outcomes : String → List Call → ℕ
outcomes user [] = 0
outcomes user (c ∷ cs) = if ends_day user c then suc (outcomes user cs) else outcomes user cs

abbrev pub is_open : Phase → Bool
is_open scouting = true
is_open optimizing = true
is_open awaiting_approval = true
is_open _ = false

abbrev pub is_ended : Option WorkflowState → Bool
is_ended none = false
is_ended (some row) = not (is_open row.phase)

-- No outcome yet; or one, and the day's row is past its decision.
abbrev pub OnceEnded : Workflow → String → Type 0
OnceEnded s user =
    (outcomes user s.calls ≡ 0)
    ⊎ ((outcomes user s.calls ≡ 1) × (is_ended (lookup user s.rows) ≡ true))

-- The step to `t` leaves the user's row in a phase past the decision, with one outcome more or none.
record Ends (user : String) (s t : Workflow) : Type 0 where
  new : WorkflowState
  past : is_ended (some new) ≡ true
  looked : (j : String) → lookup j t.rows ≡ (if str_eq user j then some new else lookup j s.rows)
  counted :
      (j : String)
      → (outcomes j t.calls ≡ outcomes j s.calls)
        ⊎ ((user ≡ j) × (outcomes j t.calls ≡ suc (outcomes j s.calls)))

-- The step to `t` may write the user's row, and ends no day.
record IsQuiet (user : String) (s t : Workflow) : Type 0 where
  looked : (j : String) → user ≢ j → lookup j t.rows ≡ lookup j s.rows
  counted : (j : String) → outcomes j t.calls ≡ outcomes j s.calls

-- The phase behind an approval, by what executeOrder came to.
abbrev pub phase_after : {A : Type 0} → Upstream A → Phase
phase_after (returns a) = executing
phase_after (fails e) = approved

module _ (up : Upstreams) (user : String) (s : Workflow) (row : WorkflowState)
    (there : lookup user s.rows ≡ some row) where
  abbrev first_row : WorkflowState
  first_row = record row { phase = approved; decision = some approve_meal }

  approve-Ends :
      (address restaurant : String) (cart : OptimizedCart) (shortlist : ShortlistState)
      → Ends user s (approve up user address restaurant cart shortlist s).1
  unfolding approve outcomes can_transition
  approve-Ends address restaurant cart shortlist = record {
    new = record row { phase = phase_after up.order; decision = some approve_meal };
    past = ground arith;
    looked = λ j. ground (
      arith,
      lookup-insert user j first_row s.rows,
      lookup-insert_self user first_row s.rows,
      lookup-insert user j (record first_row { phase = executing }) (insert user first_row s.rows),
    );
    counted = λ j. ground (arith, str_eq_iff user j);
  }

  skip-Ends : (shortlist : ShortlistState) → Ends user s (skip up user shortlist s).1
  unfolding skip outcomes can_transition
  skip-Ends shortlist = record {
    new = record row { phase = skipped; decision = some skip_meal };
    past = refl;
    looked = λ j. ground (
      arith,
      lookup-insert user j (record row { phase = skipped; decision = some skip_meal }) s.rows,
    );
    counted = λ j. ground (arith, str_eq_iff user j);
  }

  propose_next-IsQuiet :
      (address restaurant : String) (shortlist : ShortlistState) (rejected : List String)
      (menu : List MenuItem) (proposal : MenuItem)
      → IsQuiet user s
          (propose_next up user address restaurant shortlist rejected menu proposal s).1
  unfolding propose_next outcomes
  propose_next-IsQuiet address restaurant shortlist rejected menu proposal = record {
    looked = λ j ne. grind (arith, lookup-insert_ne);
    counted = λ j. ground arith;
  }

run_scout_phase-IsQuiet :
    (up : Upstreams) (user address restaurant : String) (s : Workflow)
    → IsQuiet user s (run_scout_phase up user address restaurant s).1
unfolding run_scout_phase outcomes
run_scout_phase-IsQuiet up user address restaurant s = record {
  looked = λ j ne. grind (arith, lookup-insert_ne);
  counted = λ j. ground arith;
}

module _ (user j : String) (s t : Workflow) (once : OnceEnded s j)
    (open_day : is_ended (lookup user s.rows) ≡ false) where
  Ends-OnceEnded : Ends user s t → OnceEnded t j
  Ends-OnceEnded e = ground (arith, e.past, e.looked j, e.counted j, str_eq_iff user j)

  quiet-OnceEnded : IsQuiet user s t → OnceEnded t j
  quiet-OnceEnded q = ground (arith, q.looked j, q.counted j, str_eq_iff user j)

module _ (up : Upstreams) (user j : String) (s : Workflow) (row : WorkflowState)
    (there : lookup user s.rows ≡ some row) (waits : is_open row.phase ≡ true)
    (once : OnceEnded s j) where
  open_day : is_ended (lookup user s.rows) ≡ false
  open_day = ground arith

  skip-OnceEnded : (shortlist : ShortlistState) → OnceEnded (skip up user shortlist s).1 j
  skip-OnceEnded shortlist =
      Ends-OnceEnded user j s _ once open_day (skip-Ends up user s row there shortlist)

  swap_to-OnceEnded :
      (address restaurant : String) (shortlist : ShortlistState) (rejected : List String)
      (menu : List MenuItem) (proposal : Option MenuItem)
      → OnceEnded (swap_to up user address restaurant shortlist rejected menu proposal s).1 j
  unfolding swap_to
  swap_to-OnceEnded address restaurant shortlist rejected menu none = skip-OnceEnded shortlist
  swap_to-OnceEnded address restaurant shortlist rejected menu (some p) =
      quiet-OnceEnded user j s _ once open_day
        (propose_next-IsQuiet up user s row there address restaurant shortlist rejected menu p)

swap-OnceEnded :
    (up : Upstreams) (user j : String) (s : Workflow) (row : WorkflowState)
    → lookup user s.rows ≡ some row
    → is_open row.phase ≡ true
    → OnceEnded s j
    → (address restaurant : String) (shortlist : ShortlistState) (rejected : List String)
    → OnceEnded (swap up user address restaurant shortlist rejected s).1 j
unfolding swap outcomes can_transition
swap-OnceEnded up user j s row there waits once address restaurant shortlist rejected = grind (
  arith,
  swap_to-OnceEnded up user j
      (record s { calls = get_restaurant_menu user address restaurant ∷ s.calls }) row there waits
      once address restaurant shortlist,
)

-- A day that was scouted is not scouted again.
scouted-unchanged :
    (up : Upstreams) (user address restaurant : String) (s : Workflow)
    → is_scouted (lookup user s.rows) ≡ true
    → (run_scout_phase up user address restaurant s).1 ≡ s
unfolding run_scout_phase
scouted-unchanged up user address restaurant s e = ground arith

decide-OnceEnded :
    (up : Upstreams) (user j : String) (s : Workflow) (row : WorkflowState)
    → lookup user s.rows ≡ some row
    → is_open row.phase ≡ true
    → OnceEnded s j
    → (cols : ShortlistState × OptimizedCart) (made : Decision)
    → OnceEnded (decide up user row cols made s).1 j
decide-OnceEnded up user j s row there waits once cols approve_meal =
    Ends-OnceEnded user j s _ once (open_day up user j s row there waits once)
      (approve-Ends up user s row there row.address_id row.restaurant_id cols.1 cols.0)
decide-OnceEnded up user j s row there waits once cols skip_meal =
    Ends-OnceEnded user j s _ once (open_day up user j s row there waits once)
      (skip-Ends up user s row there cols.0)
decide-OnceEnded up user j s row there waits once cols swap_meal =
    swap-OnceEnded up user j s row there waits once row.address_id row.restaurant_id cols.0
      row.rejected_item_ids

scout-OnceEnded :
    (up : Upstreams) (user address restaurant j : String) (s : Workflow)
    → OnceEnded s j
    → OnceEnded (run_scout_phase up user address restaurant s).1 j
scout-OnceEnded up user address restaurant j s once =
    elim (Bool-cases (is_scouted (lookup user s.rows))) [
      | inl e ↦
          subst (λ t. OnceEnded t j) (sym (scouted-unchanged up user address restaurant s e)) once
      | inr e ↦
          quiet-OnceEnded user j s _ once (ground arith)
            (run_scout_phase-IsQuiet up user address restaurant s)
    ]

serve_workflow-OnceEnded :
    (up : Upstreams) (r : WorkflowRequest) (s : Workflow) (j : String)
    → OnceEnded s j
    → OnceEnded (serve_workflow up r s).1 j
unfolding outcomes
serve_workflow-OnceEnded up r s j once =
    serve_workflow_keeps (λ t. OnceEnded t j) up r s once
      (λ u a b. scout-OnceEnded up u a b j s once)
      (λ u made.
        handle_user_decision_keeps (λ t. OnceEnded t j) u s once up made
          λ w.
            decide-OnceEnded up u j s w.row w.there (ground (arith, w.waits)) once
              (w.shortlist, w.cart) made)
      (λ u. send_reminder_if_pending_keeps (λ t. OnceEnded t j) u s once λ w. once)
      (λ u.
        finalize_if_pending_keeps (λ t. OnceEnded t j) u s once up
          λ w. skip-OnceEnded up u j s w.row w.there (ground (arith, w.waits)) once w.shortlist)

-- Over any requests of a day and any answers of the other services, from a state in which it holds of
-- a user: executeOrder and the rollover together are called at most once for the user, and when one
-- was, the user's row is past the decision.
pub serve_day-OnceEnded :
    (rs : List (Upstreams × WorkflowRequest)) (s : Workflow) (user : String)
    → OnceEnded s user
    → OnceEnded (serve_day rs s) user
unfolding serve_day
serve_day-OnceEnded [] s user once = once
serve_day-OnceEnded ((up, r) ∷ rs) s user once =
    serve_day-OnceEnded rs (serve_workflow up r s).1 user
      (serve_workflow-OnceEnded up r s user once)
