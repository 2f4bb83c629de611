-- ===== src/Workflow/Api.antt =====
-- The routes of workflow.controller.ts and decision.controller.ts. A field of a body is `none` where
-- it is missing or of another type.
use gusto_backend.Common.{String, Option, none, some, List, [], ◌∷◌, str_eq, if◌then◌else◌}
use gusto_backend.Common.Http.{Action, throw, bad_request}
use gusto_backend.Workflow.Service.{
  Answer, run_scout_phase, handle_user_decision, send_reminder_if_pending, finalize_if_pending,
}
use gusto_backend.Workflow.Service.State.{Workflow, Upstreams, Decision}

-- `z.string().min(1)`
abbrev pub parse_text : Option String → Option String
parse_text none = none
parse_text (some t) = if str_eq t "" then none else some t

-- `ScoutRunRequestSchema`
abbrev pub parse_scout_run :
    Option String → Option String → Option String → Option (String × String × String)
parse_scout_run user address restaurant = elim (parse_text user) [
  | none ↦ none
  | some u ↦ elim (parse_text address) [
    | none ↦ none
    | some a ↦ elim (parse_text restaurant) [ none ↦ none | some r ↦ some (u, a, r) ]
  ]
]

-- `DecisionRequestSchema`; a decision outside the enumeration is `none`.
abbrev pub parse_decision : Option String → Option Decision → Option (String × Decision)
parse_decision user decision = elim (parse_text user) [
  | none ↦ none
  | some u ↦ elim decision [ none ↦ none | some d ↦ some (u, d) ]
]

pub data WorkflowRequest : Type 0 where
  scout_run : Option String → Option String → Option String → WorkflowRequest
  decision : Option String → Option Decision → WorkflowRequest
  notify_reminder finalize : Option String → WorkflowRequest

unfoldable pub serve_workflow : Upstreams → WorkflowRequest → Action Workflow Answer
serve_workflow up (scout_run user address restaurant) =
    elim (parse_scout_run user address restaurant) [
      | none ↦ throw bad_request
      | some (u, a, r) ↦ run_scout_phase up u a r
    ]
serve_workflow up (decision user made) = elim (parse_decision user made) [
  | none ↦ throw bad_request
  | some (u, d) ↦ handle_user_decision up u d
]
serve_workflow up (notify_reminder user) = elim (parse_text user) [
  | none ↦ throw bad_request
  | some u ↦ send_reminder_if_pending u
]
serve_workflow up (finalize user) = elim (parse_text user) [
  | none ↦ throw bad_request
  | some u ↦ finalize_if_pending up u
]

-- The requests of a day, one behind the other.
unfoldable pub serve_day : List (Upstreams × WorkflowRequest) → Workflow → Workflow
unfolding serve_workflow
serve_day [] s = s
serve_day ((up, r) ∷ rs) s = serve_day rs (serve_workflow up r s).1
