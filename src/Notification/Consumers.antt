-- ===== src/Notification/Consumers.antt =====
-- The routes of contact-preference.controller.ts over `ContactPreferenceService`, and the consumers
-- of apps/notification-service/src/events/consumers.
use gusto_backend.Common.{
  String, Bool, true, false, not, ◌&&◌, Option, none, some, List, [], if◌then◌else◌, str_eq,
}
use gusto_backend.Common.Dict.{lookup, insert}
use gusto_backend.Common.Http.{ok, err, Action, ◌>>◌, pure, throw, bad_request, not_found}
use gusto_backend.EventBus.{Message, Envelope, Consumer, process_message}
use gusto_backend.Notification.{Notification, World, ContactPreference, send}

-- The body of the upsert: the fields that are present and of their type.
pub record PreferenceInput : Type 0 where
  pub email : Option String
  pub phone : Option String
  pub push_token : Option String
  pub push_platform : Option String
  pub email_opt_out : Option Bool
  pub push_opt_out : Option Bool

abbrev pub or_kept : {A : Type 0} → Option A → A → A
or_kept none old = old
or_kept (some a) old = a

abbrev pub or_kept_option : {A : Type 0} → Option A → Option A → Option A
or_kept_option none old = old
or_kept_option (some a) old = some a

abbrev no_contact : ContactPreference
no_contact = record {
  email = none;
  phone = none;
  push_token = none;
  push_platform = none;
  push_endpoint_arn = none;
  email_opt_out = false;
  push_opt_out = false;
}

-- `update: { ...input }`: a field that is absent is kept.
abbrev pub merged : PreferenceInput → ContactPreference → ContactPreference
merged i c = record c {
  email = or_kept_option i.email c.email;
  phone = or_kept_option i.phone c.phone;
  push_token = or_kept_option i.push_token c.push_token;
  push_platform = or_kept_option i.push_platform c.push_platform;
  email_opt_out = or_kept i.email_opt_out c.email_opt_out;
  push_opt_out = or_kept i.push_opt_out c.push_opt_out;
}

unfoldable pub upsert : String → PreferenceInput → Action Notification (Unit {0})
upsert user i s = (
  ok tt,
  record s {
    contacts = insert user (merged i (or_kept (lookup user s.contacts) no_contact)) s.contacts;
  },
)

-- The refinement of the schema: a token comes with its platform.
abbrev pub is_given : Option String → Bool
is_given none = false
is_given (some t) = true

abbrev pub is_consistent : PreferenceInput → Bool
is_consistent i =
    if is_given i.push_token then is_given i.push_platform else not (is_given i.push_platform)

unfoldable pub post_preferences : String → PreferenceInput → Action Notification (Unit {0})
post_preferences user i =
    if not (str_eq user "") && is_consistent i then upsert user i else throw bad_request

unfoldable pub get_preferences : String → Action Notification ContactPreference
get_preferences user s = (elim (lookup user s.contacts) [ none ↦ err not_found | some c ↦ ok c ], s)

-- What the consumers read of their events.
pub record MenuProposed : Type 0 where
  pub user_id : String
  pub proposed_items : List (Option String)

pub record OrderEvent : Type 0 where
  pub user_id : String
  pub order_id : String

abbrev pub on_menu_proposed : World → MenuProposed → Action Notification (Unit {0})
on_menu_proposed w e =
    send w e.user_id "MENU_OF_THE_DAY"
      (record { proposed_items = e.proposed_items; order_id = none; status = none })
    >> pure tt

abbrev pub on_order_placed_notice : World → OrderEvent → Action Notification (Unit {0})
on_order_placed_notice w e =
    send w e.user_id "ORDER_STATUS"
      (record { proposed_items = []; order_id = some e.order_id; status = some "PLACED" })
    >> pure tt

abbrev pub on_order_delivered : World → OrderEvent → Action Notification (Unit {0})
on_order_delivered w e =
    send w e.user_id "ORDER_STATUS"
      (record { proposed_items = []; order_id = some e.order_id; status = some "DELIVERED" })
    >> pure tt

-- The subscriptions: a message of the queue, by its event type.
unfoldable pub consume_menu_proposed :
    (String → Option (Envelope MenuProposed))
    → World
    → Message
    → Consumer Notification
    → Consumer Notification
consume_menu_proposed parse w = process_message parse "MenuProposed" (on_menu_proposed w)

unfoldable pub consume_order_placed :
    (String → Option (Envelope OrderEvent))
    → World
    → Message
    → Consumer Notification
    → Consumer Notification
consume_order_placed parse w = process_message parse "OrderPlaced" (on_order_placed_notice w)

unfoldable pub consume_order_delivered :
    (String → Option (Envelope OrderEvent))
    → World
    → Message
    → Consumer Notification
    → Consumer Notification
consume_order_delivered parse w = process_message parse "OrderDelivered" (on_order_delivered w)
