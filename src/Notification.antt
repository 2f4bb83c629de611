-- ===== src/Notification.antt =====
-- notification-service (apps/notification-service/src): `DispatchService` of dispatch.service.ts and
-- `ContactPreferenceService`. What SES, SNS, the database and the event bus do is the `World`.
pub mod Consumers
pub mod Expected
pub mod Steps
pub mod FanOut
use gusto_backend.Common.{
  String, Bool, true, false, not, ◌&&◌, Option, none, some, List, [], ◌∷◌, ◌++◌ as ◌<>◌,
  if◌then◌else◌, str_eq,
}
use gusto_backend.Common.Dict.{Dict, lookup, insert}
use gusto_backend.Common.Text.{◌++◌}
use gusto_backend.Common.Http.{
  Result, ok, err, Action, ◌>>=◌, ◌>>◌, pure, throw, throw_if, or_throw, attempt, bad_request,
  not_found, internal,
}

pub data NotificationType : Type 0 where
  menu_of_the_day confirm_payment order_status : NotificationType

pub data Channel : Type 0 where
  email push : Channel

pub record DispatchResult : Type 0 where
  pub channel : Channel
  pub success : Bool

-- The fields of the payload that the texts read: the items' names, the order's id and status.
pub record Payload : Type 0 where
  pub proposed_items : List (Option String)
  pub order_id : Option String
  pub status : Option String

-- `model ContactPreference`; `userId` is the key of the table.
pub record ContactPreference : Type 0 where
  pub email : Option String
  pub phone : Option String
  pub push_token : Option String
  pub push_platform : Option String
  pub push_endpoint_arn : Option String
  pub email_opt_out : Bool
  pub push_opt_out : Bool

pub record Email : Type 0 where
  pub to : String
  pub subject : String
  pub text : String

pub record Push : Type 0 where
  pub endpoint : String
  pub notification_type : NotificationType
  pub payload : Payload

pub record Sent : Type 0 where
  pub user_id : String
  pub notification_type : NotificationType
  pub channel : Channel

pub record Notification : Type 0 where
  pub contacts : Dict ContactPreference
  pub emails : List Email
  pub pushes : List Push
  pub log : List Sent
  pub published : List Sent

pub record World : Type 0 where
  pub ses : Bool  -- `sendEmail` returns
  pub sns : Bool  -- `publish` returns
  pub new_endpoint : Option String  -- what `createEndpoint` returns
  pub stores_endpoint : Bool  -- `setPushEndpointArn` returns
  pub email_logged : Bool  -- the write to the log returns, by the channel
  pub push_logged : Bool
  pub email_announced : Bool  -- the bus takes the event, by the channel
  pub push_announced : Bool
  pub ios_arn : Option String
  pub android_arn : Option String

abbrev pub parse_type : String → Option NotificationType
parse_type t =
    if str_eq t "MENU_OF_THE_DAY"
    then some menu_of_the_day
    else if str_eq t "CONFIRM_PAYMENT"
    then some confirm_payment
    else if str_eq t "ORDER_STATUS"
    then some order_status
    else none

abbrev pub subject_for : NotificationType → String
subject_for menu_of_the_day = "Your meal cart is ready for review"
subject_for confirm_payment = "Confirm your order"
subject_for order_status = "Order update"

-- `names.filter(Boolean)`
abbrev pub named : List (Option String) → List String
named [] = []
named (none ∷ xs) = named xs
named (some n ∷ xs) = let rest = named xs in if str_eq n "" then rest else n ∷ rest

-- `join(", ")`
abbrev pub join_names : List String → String
join_names [] = ""
join_names (x ∷ []) = x
join_names (x ∷ y ∷ ys) = x ++ (", " ++ join_names (y ∷ ys))

abbrev pub or_text : Option String → String → String
or_text none t = t
or_text (some s) t = s

unfoldable pub body_for : NotificationType → Payload → String
body_for menu_of_the_day p =
    let names = join_names (named p.proposed_items) in
    if str_eq names ""
    then "Your cart is ready. Review and place your order."
    else "Today's cart: " ++ (names ++ ". Review and place your order.")
body_for confirm_payment p = "Please confirm order " ++ (or_text p.order_id "" ++ " to proceed.")
body_for order_status p =
    "Order " ++ (or_text p.order_id "" ++ (" status: " ++ (or_text p.status "updated" ++ ".")))

-- The tables and the calls of the adapters.
abbrev pub send_email : World → Email → Action Notification (Unit {0})
send_email w m s = if w.ses then (ok tt, record s { emails = m ∷ s.emails }) else (err internal, s)

abbrev pub publish_push : World → Push → Action Notification (Unit {0})
publish_push w p s =
    if w.sns then (ok tt, record s { pushes = p ∷ s.pushes }) else (err internal, s)

abbrev by_channel : Channel → Bool → Bool → Bool
by_channel email e p = e
by_channel push e p = p

abbrev pub create_log : World → Sent → Action Notification (Unit {0})
create_log w e s =
    if by_channel e.channel w.email_logged w.push_logged
    then (ok tt, record s { log = e ∷ s.log })
    else (err internal, s)

abbrev pub publish_sent : World → Sent → Action Notification (Unit {0})
publish_sent w e s =
    if by_channel e.channel w.email_announced w.push_announced
    then (ok tt, record s { published = e ∷ s.published })
    else (err internal, s)

unfoldable pub record_sent :
    World → String → NotificationType → Channel → Action Notification (Unit {0})
record_sent w user t channel = do
  create_log w (record { user_id = user; notification_type = t; channel = channel })
  publish_sent w (record { user_id = user; notification_type = t; channel = channel })

unfoldable pub dispatch_email :
    World → String → NotificationType → Payload → String → Action Notification DispatchResult
dispatch_email w user t p to = do
  success ← attempt (
      send_email w (record { to = to; subject = subject_for t; text = body_for t p })
      >> record_sent w user t email)
  pure (record { channel = email; success = success })

-- `setPushEndpointArn`: it throws where the row is gone.
unfoldable pub set_push_endpoint_arn : World → String → String → Action Notification (Unit {0})
set_push_endpoint_arn w user arn s = elim (lookup user s.contacts) [
  | none ↦ (err internal, s)
  | some c ↦
      if w.stores_endpoint
      then (
        ok tt,
        record s { contacts = insert user (record c { push_endpoint_arn = some arn }) s.contacts },
      )
      else (err internal, s)
]

-- A text that counts as false is none.
abbrev pub truthy : Option String → Option String
truthy none = none
truthy (some t) = if str_eq t "" then none else some t

abbrev pub platform_arn : World → Option String → Option String
platform_arn w none = truthy w.android_arn
platform_arn w (some p) = if str_eq p "ios" then truthy w.ios_arn else truthy w.android_arn

unfoldable pub ensure_push_endpoint :
    World → String → ContactPreference → Action Notification String
ensure_push_endpoint w user c = do
  arn ← or_throw (platform_arn w c.push_platform) internal
  token ← or_throw (truthy c.push_token) internal
  endpoint ← or_throw w.new_endpoint internal
  set_push_endpoint_arn w user endpoint
  pure endpoint

-- `contact.pushEndpointArn ?? (await this.ensurePushEndpoint(…))`
unfoldable pub endpoint_of :
    World → String → ContactPreference → Option String → Action Notification String
endpoint_of w user c none = ensure_push_endpoint w user c
endpoint_of w user c (some arn) = pure arn

unfoldable pub dispatch_push :
    World
    → String
    → NotificationType
    → Payload
    → ContactPreference
    → Action Notification DispatchResult
dispatch_push w user t p c = do
  success ← attempt (do
    endpoint ← endpoint_of w user c c.push_endpoint_arn
    publish_push w (record { endpoint = endpoint; notification_type = t; payload = p })
    record_sent w user t push)
  pure (record { channel = push; success = success })

-- The address of a channel that is on file and not opted out.
abbrev pub reachable : Option String → Bool → Option String
reachable address true = none
reachable address false = truthy address

unfoldable pub email_part :
    World
    → String
    → NotificationType
    → Payload
    → Option String
    → Action Notification (List DispatchResult)
email_part w user t p none = pure []
email_part w user t p (some to) = do r ← dispatch_email w user t p to; pure (r ∷ [])

unfoldable pub push_part :
    World
    → String
    → NotificationType
    → Payload
    → ContactPreference
    → Option String
    → Action Notification (List DispatchResult)
push_part w user t p c none = pure []
push_part w user t p c (some token) = do r ← dispatch_push w user t p c; pure (r ∷ [])

unfoldable pub fan_out :
    World
    → String
    → NotificationType
    → Payload
    → Option ContactPreference
    → Action Notification (List DispatchResult)
fan_out w user t p none = pure []
fan_out w user t p (some c) = do
  a ← email_part w user t p (reachable c.email c.email_opt_out)
  b ← push_part w user t p c (reachable c.push_token c.push_opt_out)
  pure (a <> b)

unfoldable pub send : World → String → String → Payload → Action Notification (List DispatchResult)
send w user type_text p s = elim (parse_type type_text) [
  | none ↦ (err bad_request, s)
  | some t ↦ fan_out w user t p (lookup user s.contacts) s
]
