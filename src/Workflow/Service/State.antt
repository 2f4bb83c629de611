-- ===== src/Workflow/Service/State.antt =====
-- The state of WorkflowService, the calls of the other services and the helpers of
-- workflow.service.ts that its handlers share.
use gusto_backend.Common.{
  ℕ, zero, suc, String, Bool, false, Option, none, some, List, [], ◌∷◌, if◌then◌else◌, not, ◌&&◌,
  leb, keep, any, str_eq,
}
use gusto_backend.Common.Int.{ℤ, pos, negsuc, ◌-ℤ◌, floor_div, leb_ℤ}
use gusto_backend.Common.Dict.{Dict, lookup, insert}
use gusto_backend.Common.Http.{
  ok, err, Action, ◌>>◌, pure, modify, internal, CallError, map_upstream_error,
}
use gusto_backend.Escrow.{Subscription}
use gusto_backend.Hacker.Types.{CartItem, Line}
use gusto_backend.Hacker.Service.{OptimizedCart}
use gusto_backend.Hacker.Mapping.{or_else}
use gusto_backend.Workflow.Phase.{Phase, scouting, phase_eq}
use gusto_backend.Workflow.Selection.{MenuItem, RankedMenuItem, RawItem}

-- `ShortlistState`
pub record ShortlistState : Type 0 where
  pub ranked_items : List RankedMenuItem
  pub current_item : MenuItem

pub data Decision : Type 0 where
  approve_meal swap_meal skip_meal : Decision

-- `model WorkflowState`. The columns that only the end of the scout phase writes are `none` before.
pub record WorkflowState : Type 0 where
  pub phase : Phase
  pub address_id : String
  pub restaurant_id : String
  pub shortlist : Option ShortlistState
  pub optimized_cart : Option OptimizedCart
  pub rejected_item_ids : List String
  pub decision : Option Decision

-- `weeklyBudget`
pub record WeeklyBudget : Type 0 where
  pub total_amount : ℤ
  pub spent_so_far : ℤ
  pub meals_remaining : ℤ
  pub daily_avg_limit : ℤ

pub data Diet : Type 0 where
  veg non_veg eggetarian vegan : Diet

-- `PreferenceProfileSchema`; the spice level is 1 to 5.
pub record PreferenceProfile : Type 0 where
  pub diet : Diet
  pub spice_level : ℕ
  pub cuisine_favorites : List String
  pub nutrition_tags : Option (List String)
  pub default_address_id : Option String
  pub default_restaurant_id : Option String

-- The stored profile, with `none` for a field that has not the schema's type; of an optional field
-- `some none` where it is absent.
pub record RawProfile : Type 0 where
  pub diet : Option Diet
  pub spice_level : Option ℕ
  pub cuisine_favorites : Option (List String)
  pub nutrition_tags : Option (Option (List String))
  pub default_address_id : Option (Option String)
  pub default_restaurant_id : Option (Option String)

abbrev pub in_spice_range : ℕ → Bool
in_spice_range n = leb 1 n && leb n 5

-- `PreferenceProfileSchema.safeParse`
unfoldable pub parse_profile : RawProfile → Option PreferenceProfile
parse_profile raw = elim raw.diet [
  | none ↦ none
  | some diet ↦ elim raw.spice_level [
    | none ↦ none
    | some level ↦ elim raw.cuisine_favorites [
      | none ↦ none
      | some cuisines ↦ elim raw.nutrition_tags [
        | none ↦ none
        | some tags ↦ elim raw.default_address_id [
          | none ↦ none
          | some address ↦ elim raw.default_restaurant_id [
            | none ↦ none
            | some restaurant ↦
                if in_spice_range level
                then some (record {
                  diet = diet;
                  spice_level = level;
                  cuisine_favorites = cuisines;
                  nutrition_tags = tags;
                  default_address_id = address;
                  default_restaurant_id = restaurant;
                })
                else none
          ]
        ]
      ]
    ]
  ]
]

abbrev neutral_profile : PreferenceProfile
neutral_profile = record {
  diet = veg;
  spice_level = 3;
  cuisine_favorites = [];
  nutrition_tags = none;
  default_address_id = none;
  default_restaurant_id = none;
}

-- `raw` is `none` where the column is no object.
unfoldable pub parse_preference_profile : Option RawProfile → PreferenceProfile
unfolding parse_profile
parse_preference_profile none = neutral_profile
parse_preference_profile (some raw) = or_else (parse_profile raw) neutral_profile

-- What goes out: the user first.
pub data Call : Type 0 where
  get_subscription get_preference_profile rollover : String → Call
  get_restaurant_menu : String → String → String → Call
  analyze : String → PreferenceProfile → List MenuItem → WeeklyBudget → Call
  optimize_cart : String → String → String → CartItem → ℤ → Call
  execute_order : String → String → String → OptimizedCart → Call
  send_menu_of_the_day : String → OptimizedCart → Call

pub data Event : Type 0 where
  scout_completed meal_skipped : String → Event
  menu_proposed : String → List MenuItem → Event
  meal_approved : String → MenuItem → String → Event

pub record Workflow : Type 0 where
  pub rows : Dict WorkflowState
  pub calls : List Call
  pub events : List Event

-- What a call of another service comes to.
pub data Upstream (A : Type 0) : Type 0 where
  returns : A → Upstream A
  fails : CallError → Upstream A

pub record Upstreams : Type 0 where
  pub subscription : Upstream Subscription
  pub profile : Upstream (Option RawProfile)
  pub menu : Upstream (Option (Option (List (Option (List RawItem)))))
  pub ranking : Upstream (List RankedMenuItem)
  pub cart : Upstream OptimizedCart
  pub order : Upstream (String × String)  -- the order's id and status
  pub rolled_over : Upstream (Unit {0})
  pub bus : Bool

-- A call that goes out, and its answer, with `mapUpstreamError` on what it throws.
abbrev pub start_call : Call → Action Workflow (Unit {0})
start_call c = modify λ s. record s { calls = c ∷ s.calls }

abbrev pub settle : {A : Type 0} → Upstream A → Action Workflow A
settle (returns a) s = (ok a, s)
settle (fails e) s = (err (map_upstream_error e), s)

abbrev pub ask : {A : Type 0} → Call → Upstream A → Action Workflow A
ask c (returns a) s = (ok a, record s { calls = c ∷ s.calls })
ask c (fails e) s = (err (map_upstream_error e), record s { calls = c ∷ s.calls })

-- `publish` in a `try`: an event that the bus refuses is logged and dropped.
abbrev pub try_publish : Bool → Event → Action Workflow (Unit {0})
try_publish up e = modify λ s. if up then record s { events = e ∷ s.events } else s

-- `dispatchMenuNotification`: a failure is logged.
abbrev pub dispatch_menu_notification : String → OptimizedCart → Action Workflow (Unit {0})
dispatch_menu_notification user cart =
    modify λ s. record s { calls = send_menu_of_the_day user cart ∷ s.calls }

-- `prisma.workflowState.update`: it throws where the row is gone.
abbrev pub update_row : String → (WorkflowState → WorkflowState) → Action Workflow WorkflowState
update_row user change s = elim (lookup user s.rows) [
  | none ↦ (err internal, s)
  | some row ↦ (ok (change row), record s { rows = insert user (change row) s.rows })
]

-- `upsert` at the start of the scout phase.
abbrev pub begin_row : String → String → Option WorkflowState → WorkflowState
begin_row address restaurant none = record {
  phase = scouting;
  address_id = address;
  restaurant_id = restaurant;
  shortlist = none;
  optimized_cart = none;
  rejected_item_ids = [];
  decision = none;
}
begin_row address restaurant (some row) = record row {
  address_id = address;
  restaurant_id = restaurant;
}

-- `existing && existing.phase !== "SCOUTING"`
abbrev pub is_scouted : Option WorkflowState → Bool
is_scouted none = false
is_scouted (some row) = not (phase_eq row.phase scouting)

-- `Math.floor(balance / (limit || 1))`
abbrev pub meals_in : ℤ → ℤ → ℤ
meals_in balance (pos zero) = floor_div balance 1
meals_in balance (pos (suc n)) = floor_div balance (suc n)
meals_in balance (negsuc n) = floor_div (pos 0 -ℤ balance) (suc n)

-- `Math.max(1, …)`
abbrev pub max_one : ℤ → ℤ
max_one n = if leb_ℤ (pos 1) n then n else pos 1

unfoldable pub weekly_budget : Subscription → WeeklyBudget
weekly_budget sub = record {
  total_amount = sub.total_deposited;
  spent_so_far = sub.total_deposited -ℤ sub.current_balance;
  meals_remaining = max_one (meals_in sub.current_balance sub.daily_avg_limit);
  daily_avg_limit = sub.daily_avg_limit;
}

-- One portion of the proposal.
abbrev pub cart_item : MenuItem → CartItem
cart_item item = record { item_id = item.item_id; price = item.price; quantity = 1 }

-- `proposedItems`: the menu's items that are in the cart.
abbrev pub proposed_items : List MenuItem → OptimizedCart → List MenuItem
proposed_items menu cart =
    keep (λ m. any (λ (l : Line). str_eq l.item_id m.item_id) cart.items) menu

abbrev pub publish_scout_completed_and_menu_proposed :
    Bool → String → List MenuItem → OptimizedCart → Bool → Action Workflow (Unit {0})
publish_scout_completed_and_menu_proposed up user menu cart skip_scout_completed = do
  if skip_scout_completed then pure tt else try_publish up (scout_completed user)
  try_publish up (menu_proposed user (proposed_items menu cart))
