-- ===== src/Examples/Days.antt =====
-- The theorems on orchestrator-service at a menu of two dishes.
use gusto_backend.Common.{
  ℕ, String, true, false, Option, none, some, List, [], ◌∷◌, ◌≡◌, refl, inl, Any, ◌≢◌, arith,
  str_eq_iff,
}
use gusto_backend.Common.Int.{pos}
use gusto_backend.Common.Http.{unreachable}
use gusto_backend.Hacker.Service.{OptimizedCart}
use gusto_backend.Workflow.Phase.{awaiting_approval, executing, can_transition}
use gusto_backend.Workflow.Selection.{
  MenuItem, RankedMenuItem, RawItem, select_next_candidate, menu_of,
}
use gusto_backend.Workflow.Selection.Best.{offered, IsBestOffered, select_next_candidate_best}
use gusto_backend.Workflow.Service.State.{
  Workflow, WorkflowState, Upstreams, returns, fails, approve_meal, swap_meal, is_scouted,
}
use gusto_backend.Workflow.Service.{
  run_scout_phase, handle_user_decision, swap, swap_to, propose_next, approve,
}
use gusto_backend.Workflow.Api.{
  WorkflowRequest, decision, finalize, scout_run, serve_day, serve_workflow,
}
use gusto_backend.Common.Dict.{lookup, insert}
use gusto_backend.Workflow.Machine.{RowSteps}
use gusto_backend.Workflow.Machine.Refines.{serve_day-RowSteps}
use gusto_backend.Workflow.Machine.Phases.{PhaseMove, phase_at}
use gusto_backend.Workflow.Machine.Phases.Served.{serve_workflow-PhaseMove}
use gusto_backend.Workflow.Machine.Swapped.{proposal, replaced_stays_away}
use gusto_backend.Workflow.Machine.Announced.{IsAnnounced, serve_day-IsAnnounced}
use gusto_backend.Workflow.Machine.Finished.{awaits_approval, finalized_day_closed}
use gusto_backend.Workflow.Outcome.{OnceEnded, outcomes, serve_day-OnceEnded}

abbrev dish : String → ℕ → MenuItem
dish id price = record {
  item_id = id;
  restaurant_id = "r1";
  name = id;
  price = price;
  description = none;
}

abbrev menu : List MenuItem
menu = dish "thali" 15000 ∷ dish "dosa" 9000 ∷ []

abbrev ranked : List RankedMenuItem
ranked =
    record { item_id = "dosa"; match_score = 70 }
    ∷ record { item_id = "biryani"; match_score = 99 }
    ∷ record { item_id = "thali"; match_score = 90 }
    ∷ []

chosen : select_next_candidate menu ranked ("thali" ∷ []) ≡ some (dish "dosa" 9000)
unfolding select_next_candidate
chosen = refl

select_next_candidate_best_example :
    Any
      (λ r.
        (offered menu ("thali" ∷ []) r ≡ some (dish "dosa" 9000))
        × IsBestOffered menu ("thali" ∷ []) ranked r)
      ranked
select_next_candidate_best_example =
    select_next_candidate_best menu ranked ("thali" ∷ []) (dish "dosa" 9000) chosen

exhausted : select_next_candidate menu ranked ("thali" ∷ "dosa" ∷ []) ≡ none
unfolding select_next_candidate
exhausted = refl

abbrev cart : OptimizedCart
cart = record {
  items = record { item_id = "thali"; quantity = 1 } ∷ [];
  base_cost = 15000;
  filler_cost = 0;
  discount_applied = pos 0;
  final_total = pos 15000;
  savings_achieved = pos 0;
  coupon_code = none;
  over_budget = false;
  decision_log = [];
}

abbrev waiting : WorkflowState
waiting = record {
  phase = awaiting_approval;
  address_id = "home";
  restaurant_id = "r1";
  shortlist = some (record { ranked_items = ranked; current_item = dish "thali" 15000 });
  optimized_cart = some cart;
  rejected_item_ids = [];
  decision = none;
}

abbrev morning : Workflow
morning = record { rows = ("asha", waiting) ∷ []; calls = []; events = [] }

abbrev ups : Upstreams
ups = record {
  subscription = fails unreachable;
  profile = fails unreachable;
  menu = fails unreachable;
  ranking = fails unreachable;
  cart = fails unreachable;
  order = returns ("o1", "PENDING_CONFIRMATION");
  rolled_over = returns tt;
  bus = true;
}

-- An approval, a second one, and the finalization of the day.
abbrev requests : List (Upstreams × WorkflowRequest)
requests =
    (ups, decision (some "asha") (some approve_meal))
    ∷ (ups, decision (some "asha") (some approve_meal))
    ∷ (ups, finalize (some "asha"))
    ∷ []

serve_day-OnceEnded_example : OnceEnded (serve_day requests morning) "asha"
unfolding outcomes
serve_day-OnceEnded_example = serve_day-OnceEnded requests morning "asha" (inl refl)

-- A whole day: the scout phase, a swap and an approval.
abbrev raw_dish : String → ℕ → RawItem
raw_dish id price = record {
  id = some id;
  name = some id;
  price = some price;
  description = some none;
}

abbrev awake : Upstreams
awake = record {
  subscription = returns (record {
    total_deposited = pos 300000;
    current_balance = pos 300000;
    reserved_amount = pos 0;
    days_left = 30;
    daily_avg_limit = pos 10000;
  });
  profile = returns none;
  menu = returns (some (some (some (raw_dish "thali" 15000 ∷ raw_dish "dosa" 9000 ∷ []) ∷ [])));
  ranking = returns ranked;
  cart = returns cart;
  order = returns ("o1", "PENDING_CONFIRMATION");
  rolled_over = returns tt;
  bus = true;
}

abbrev blank : Workflow
blank = record { rows = []; calls = []; events = [] }

abbrev scout : List (Upstreams × WorkflowRequest)
scout = (awake, scout_run (some "asha") (some "home") (some "r1")) ∷ []

abbrev swap_once : List (Upstreams × WorkflowRequest)
swap_once = (awake, decision (some "asha") (some swap_meal)) ∷ []

abbrev whole_day : List (Upstreams × WorkflowRequest)
whole_day =
    (awake, scout_run (some "asha") (some "home") (some "r1"))
    ∷ (awake, decision (some "asha") (some swap_meal))
    ∷ (awake, decision (some "asha") (some approve_meal))
    ∷ []

ordered_once : outcomes "asha" (serve_day whole_day blank).calls ≡ 1
unfolding serve_day lookup insert run_scout_phase can_transition select_next_candidate menu_of
    handle_user_decision swap swap_to propose_next approve outcomes
ordered_once = refl

proposed :
    (is_scouted (lookup "asha" (serve_day scout blank).rows) ≡ true)
    × (proposal (lookup "asha" (serve_day scout blank).rows) ≡ some "thali")
unfolding serve_day lookup insert run_scout_phase can_transition select_next_candidate menu_of
proposed = (refl, refl)

swapped : proposal (lookup "asha" (serve_day swap_once (serve_day scout blank)).rows) ≡ some "dosa"
unfolding serve_day lookup insert run_scout_phase can_transition select_next_candidate menu_of
    handle_user_decision swap swap_to propose_next
swapped = refl

serve_day-RowSteps_example : RowSteps none (lookup "asha" (serve_day whole_day blank).rows)
unfolding lookup
serve_day-RowSteps_example = serve_day-RowSteps whole_day blank "asha"

serve_workflow-PhaseMove_example :
    PhaseMove ups "asha" (decision (some "asha") (some approve_meal)) (some awaiting_approval) (
      phase_at "asha"
        (serve_workflow ups (decision (some "asha") (some approve_meal)) morning).1.rows)
unfolding lookup
serve_workflow-PhaseMove_example =
    serve_workflow-PhaseMove ups (decision (some "asha") (some approve_meal)) morning "asha"

executed :
    phase_at "asha" (serve_workflow ups (decision (some "asha") (some approve_meal)) morning).1.rows
    ≡ some executing
unfolding lookup insert serve_workflow handle_user_decision approve can_transition
executed = refl

other_than : {o : Option String} → o ≡ some "dosa" → o ≢ some "thali"
other_than e t = ground (arith, str_eq_iff "dosa" "thali")

replaced_stays_away_example :
    proposal
      (lookup "asha" (serve_day swap_once (serve_day swap_once (serve_day scout blank))).rows)
    ≢ some "thali"
replaced_stays_away_example =
    replaced_stays_away swap_once swap_once (serve_day scout blank) "asha" "thali" proposed.0
      proposed.1 (other_than swapped)

serve_day-IsAnnounced_example : IsAnnounced (serve_day whole_day blank)
unfolding lookup
serve_day-IsAnnounced_example =
    serve_day-IsAnnounced whole_day blank
      (record { ordered = tt; waiting = λ user row cart l p o. ground arith })

finalized_day_closed_example :
    awaits_approval (
      lookup "asha"
        (serve_day swap_once
          (serve_workflow ups (finalize (some "asha")) (serve_day scout blank)).1).rows)
    ≡ false
unfolding lookup
finalized_day_closed_example =
    finalized_day_closed scout swap_once ups blank "asha" tt proposed.0 refl
