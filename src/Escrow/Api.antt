-- ===== src/Escrow/Api.antt =====
-- The routes of wallet.controller.ts. Each `…RequestSchema` names the fields that it checks; a body
-- is the three fields that the schemas read, `none` where the field is missing or of another type.
use gusto_backend.Common.{String, Bool, Option, none, some, str_eq, if◌then◌else◌}
use gusto_backend.Common.Int.{ℤ, pos, ltb_ℤ, leb_ℤ}
use gusto_backend.Common.Http.{Action, throw, bad_request}
use gusto_backend.Escrow.{
  Escrow, Subscription, deposit, debit, tick, reserve, capture_reservation, release_reservation,
  rollover, get_balance,
}

pub record Body : Type 0 where
  pub user_id : Option String
  pub amount : Option ℤ
  pub savings_achieved : Option ℤ

-- `z.string().min(1)`
abbrev pub parse_user : Body → Option String
parse_user b = elim b.user_id [ none ↦ none | some u ↦ if str_eq u "" then none else some u ]

-- `z.number().int().positive()`
abbrev pub parse_positive : Option ℤ → Option ℤ
parse_positive none = none
parse_positive (some a) = if ltb_ℤ (pos 0) a then some a else none

-- `z.number().int().nonnegative()`
abbrev pub parse_nonnegative : Option ℤ → Option ℤ
parse_nonnegative none = none
parse_nonnegative (some a) = if leb_ℤ (pos 0) a then some a else none

-- `DepositRequestSchema`, `ReserveRequestSchema`, `CaptureRequestSchema`, `ReleaseRequestSchema`
abbrev pub parse_amount_request : Body → Option (String × ℤ)
parse_amount_request b = elim (parse_user b) [
  | none ↦ none
  | some u ↦ elim (parse_positive b.amount) [ none ↦ none | some a ↦ some (u, a) ]
]

-- `DebitRequestSchema`
abbrev pub parse_debit_request : Body → Option (String × ℤ × ℤ)
parse_debit_request b = elim (parse_amount_request b) [
  | none ↦ none
  | some (u, a) ↦ elim (parse_nonnegative b.savings_achieved) [
    | none ↦ none
    | some v ↦ some (u, a, v)
  ]
]

-- `throw new BadRequestException` unless the schema accepts
abbrev pub with_amount :
    Body → (String → ℤ → Action Escrow Subscription) → Action Escrow Subscription
with_amount b handler = elim (parse_amount_request b) [
  | none ↦ throw bad_request
  | some (u, a) ↦ handler u a
]

unfoldable pub post_deposit : Bool → Body → Action Escrow Subscription
post_deposit up b = with_amount b (deposit up)

unfoldable pub post_debit : Bool → Body → Action Escrow Subscription
post_debit up b = elim (parse_debit_request b) [
  | none ↦ throw bad_request
  | some (u, a, v) ↦ debit up u a v
]

unfoldable pub post_rollover : Bool → Body → Action Escrow Subscription
post_rollover up b = elim (parse_user b) [ none ↦ throw bad_request | some u ↦ rollover up u ]

unfoldable pub post_reserve : Bool → Body → Action Escrow Subscription
post_reserve up b = with_amount b (reserve up)

unfoldable pub post_capture : Bool → Body → Action Escrow Subscription
post_capture up b = with_amount b (capture_reservation up)

unfoldable pub post_release : Body → Action Escrow Subscription
post_release b = with_amount b release_reservation

-- The routes with the user in the path.
unfoldable pub post_tick : Bool → String → Action Escrow Subscription
post_tick up user = tick up user

unfoldable pub get_subscription : String → Action Escrow Subscription
get_subscription user = get_balance user

-- One request to the controller.
pub data Request : Type 0 where
  deposits debits rollovers reserves captures releases : Body → Request
  ticks reads : String → Request

unfoldable pub serve : Bool → Request → Action Escrow Subscription
unfolding post_deposit post_debit post_rollover post_reserve post_capture post_release post_tick
    get_subscription
serve up (deposits b) = post_deposit up b
serve up (debits b) = post_debit up b
serve up (rollovers b) = post_rollover up b
serve up (reserves b) = post_reserve up b
serve up (captures b) = post_capture up b
serve up (releases b) = post_release b
serve up (ticks u) = post_tick up u
serve up (reads u) = get_subscription u

-- The user that a request names.
unfoldable pub subject : Request → Option String
subject (deposits b) = b.user_id
subject (debits b) = b.user_id
subject (rollovers b) = b.user_id
subject (reserves b) = b.user_id
subject (captures b) = b.user_id
subject (releases b) = b.user_id
subject (ticks u) = some u
subject (reads u) = some u
