-- ===== src/EventBus.antt =====
-- `EventSubscriber` of packages/event-bus/src/subscriber.ts, for a handler over the state `S` of its
-- service and payloads of type `P`. `E` is what the outside does while a message is handled.
pub mod Delivery
pub mod Deleted
use gusto_backend.Common.{
  String, Bool, true, false, Option, none, some, List, [], ◌∷◌, if◌then◌else◌, str_eq, if_both, ◌≡◌,
  refl,
}
use gusto_backend.Common.Http.{Result, ok, err, Action}

pub record Message : Type 0 where
  pub body : Option String
  pub receipt_handle : String
  pub deletes : Bool  -- SQS takes the delete command

-- The body as `JSON.parse` gives it: the fields that count as true, and the body itself. `detail` is
-- its text parsed again, `none` in it where that throws.
pub record Envelope (P : Type 0) : Type 0 where
  pub detail_type : Option String
  pub detail : Option (Option P)
  pub event_type : Option String
  pub payload : Option P
  pub whole : P

pub record Consumer (S : Type 0) : Type 0 where
  pub state : S
  pub deleted : List String  -- the receipt handles, newest first

abbrev or_else : {A : Type 0} → Option A → A → A
or_else none b = b
or_else (some a) b = a

module _ {P : Type 0} where
  -- The event's type and payload; `none` where reading it throws.
  abbrev pub open_envelope : String → Envelope P → Option (String × P)
  open_envelope event_type b = elim b.detail_type [
    | none ↦ some (or_else b.event_type event_type, or_else b.payload b.whole)
    | some t ↦ elim b.detail [
      | none ↦ some (or_else b.event_type event_type, or_else b.payload b.whole)
      | some d ↦ elim d [ none ↦ none | some p ↦ some (t, p) ]
    ]
  ]

module _ {S : Type 0} where
  abbrev pub delete_message : Message → Consumer S → Consumer S
  delete_message m c = if m.deletes then record c { deleted = m.receipt_handle ∷ c.deleted } else c

  -- Behind the handler: what it wrote stays, the message goes if it returned.
  abbrev pub handled : Message → Consumer S → Result (Unit {0}) × S → Consumer S
  handled m c (ok u, s) = delete_message m (record c { state = s })
  handled m c (err e, s) = record c { state = s }

  pub delete_message-state : (m : Message) (c : Consumer S) → (delete_message m c).state ≡ c.state
  delete_message-state m c =
      if_both (λ d. d.state ≡ c.state) m.deletes
        (record c { deleted = m.receipt_handle ∷ c.deleted }) c refl refl

  pub handled-state :
      (m : Message) (c : Consumer S) (r : Result (Unit {0}) × S) → (handled m c r).state ≡ r.1
  handled-state m c (ok u, s) = delete_message-state m (record c { state = s })
  handled-state m c (err e, s) = refl

module _ {S P : Type 0} where
  abbrev pub process_event :
      String → (P → Action S (Unit {0})) → Message → String × P → Consumer S → Consumer S
  process_event event_type handler m (t, payload) c =
      if str_eq t event_type then handled m c (handler payload c.state) else delete_message m c

module _ {P : Type 0} where
  -- The event of a message; `none` where there is no body or reading it throws.
  unfoldable pub event_of : (String → Option (Envelope P)) → String → Message → Option (String × P)
  event_of parse event_type m = elim m.body [
    | none ↦ none
    | some text ↦
        if str_eq text ""
        then none
        else elim (parse text) [ none ↦ none | some b ↦ open_envelope event_type b ]
  ]

module _ {S P : Type 0} where
  unfoldable pub process_message :
      (String → Option (Envelope P))
      → String
      → (P → Action S (Unit {0}))
      → Message
      → Consumer S
      → Consumer S
  unfolding event_of
  process_message parse event_type handler m c = elim (event_of parse event_type m) [
    | none ↦ c
    | some event ↦ process_event event_type handler m event c
  ]

-- What ReceiveMessage comes to; `Messages` may be missing.
pub data Receive (E : Type 0) : Type 0 where
  receive_fails : Receive E
  receives : Option (List (E × Message)) → Receive E

pub record Subscriber (S : Type 0) : Type 0 where
  pub consumer : Consumer S
  pub is_running : Bool

module _ {S P E : Type 0} (parse : String → Option (Envelope P)) (event_type : String)
    (handler : E → P → Action S (Unit {0})) where
  unfoldable pub process_batch : List (E × Message) → Consumer S → Consumer S
  unfolding process_message
  process_batch [] c = c
  process_batch ((e, m) ∷ ms) c =
      process_batch ms (process_message parse event_type (handler e) m c)

  -- The body of the loop of `poll`; the pause after a failure is left out.
  unfoldable pub poll_once : Receive E → Consumer S → Consumer S
  unfolding process_batch
  poll_once receive_fails c = c
  poll_once (receives none) c = c
  poll_once (receives (some ms)) c = process_batch ms c

-- `on` starts the loop, unless it runs; `stop` ends it behind the round in which it is called.
pub data SubscriberStep (E : Type 0) : Type 0 where
  on_called stop_called : SubscriberStep E
  round : Receive E → SubscriberStep E

module _ {S P E : Type 0} (parse : String → Option (Envelope P)) (event_type : String)
    (handler : E → P → Action S (Unit {0})) where
  unfoldable pub subscriber_step : SubscriberStep E → Subscriber S → Subscriber S
  unfolding poll_once
  subscriber_step on_called s = if s.is_running then s else record s { is_running = true }
  subscriber_step stop_called s = record s { is_running = false }
  subscriber_step (round r) s =
      if s.is_running
      then record s { consumer = poll_once parse event_type handler r s.consumer }
      else s

  unfoldable pub run_subscriber : List (SubscriberStep E) → Subscriber S → Subscriber S
  unfolding subscriber_step
  run_subscriber [] s = s
  run_subscriber (step ∷ steps) s = run_subscriber steps (subscriber_step step s)
