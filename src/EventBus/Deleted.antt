-- ===== src/EventBus/Deleted.antt =====
-- Which messages EventSubscriber deletes from its queue.
use gusto_backend.Common.{
  String, Bool, false, Option, some, List, [], ◌∷◌, ◌≡◌, ◌⊎◌, inl, inr, refl, sym, subst, All, Any,
  str_eq, Option-cases, Bool-cases, if_both,
}
use gusto_backend.Common.Http.{Result, ok, err, Action}
use gusto_backend.EventBus.{
  Message, Envelope, Consumer, SubscriberStep, event_of, delete_message, handled, process_event,
  process_message, process_batch, run_subscriber,
}
use gusto_backend.EventBus.Delivery.{received, run_subscriber-batch}

-- The handler with a list of the payloads for which it returned, newest first.
abbrev logged :
    {S P : Type 0} → P → Result (Unit {0}) × S → List P → Result (Unit {0}) × (S × List P)
logged p (ok u, s) log = (ok u, (s, p ∷ log))
logged p (err e, s) log = (err e, (s, log))

abbrev pub logging :
    {S P E : Type 0} → (E → P → Action S (Unit {0})) → E → P → Action (S × List P) (Unit {0})
logging handler e p s = logged p (handler e p s.0) s.1

module _ {P : Type 0} (parse : String → Option (Envelope P)) (event_type : String) where
  -- The message is an event of another type, or one for whose payload the handler returned.
  abbrev pub WasHandled : List P → Message → Type 0
  WasHandled log m =
      (event : String × P) × (event_of parse event_type m ≡ some event)
      × ((str_eq event.0 event_type ≡ false) ⊎ Any (λ p. p ≡ event.1) log)

  -- Each deleted receipt is that of a message of `Known` that was handled.
  abbrev pub IsAccounted : {S E : Type 0} → (E × Message → Type 0) → Consumer (S × List P) → Type 0
  IsAccounted {E = E} Known c =
      All
        (λ receipt.
          (q : E × Message) × Known q × (q.1.receipt_handle ≡ receipt) × WasHandled c.state.1 q.1)
        c.deleted

module _ {S P E : Type 0} (parse : String → Option (Envelope P)) (event_type : String)
    (handler : E → P → Action S (Unit {0})) where
  module _ (Known : E × Message → Type 0) where
    more_log :
        (p : P) (log : List P) (receipts : List String)
        → All
            (λ receipt.
              (q : E × Message) × Known q
              × (q.1.receipt_handle ≡ receipt)
              × WasHandled parse event_type log q.1)
            receipts
        → All
            (λ receipt.
              (q : E × Message) × Known q
              × (q.1.receipt_handle ≡ receipt)
              × WasHandled parse event_type (p ∷ log) q.1)
            receipts
    more_log p log [] h = tt
    more_log p log (receipt ∷ receipts) ((q, k, same, (event, read, inl o)), h) =
        ((q, k, same, (event, read, inl o)), more_log p log receipts h)
    more_log p log (receipt ∷ receipts) ((q, k, same, (event, read, inr a)), h) =
        ((q, k, same, (event, read, inr (inr a))), more_log p log receipts h)

    delete-IsAccounted :
        (e : E) (m : Message) (c : Consumer (S × List P))
        → Known (e, m)
        → WasHandled parse event_type c.state.1 m
        → IsAccounted parse event_type Known c
        → IsAccounted parse event_type Known (delete_message m c)
    delete-IsAccounted e m c k w h =
        if_both {A = Consumer (S × List P)} (IsAccounted parse event_type Known) m.deletes
          (record c { deleted = m.receipt_handle ∷ c.deleted }) c (((e, m), k, refl, w), h) h

    process_event-IsAccounted :
        (e : E) (m : Message) (event : String × P) (c : Consumer (S × List P))
        → Known (e, m)
        → event_of parse event_type m ≡ some event
        → IsAccounted parse event_type Known c
        → IsAccounted parse event_type Known
            (process_event event_type (logging handler e) m event c)
    process_event-IsAccounted e m (t, p) c k read h = elim (Bool-cases (str_eq t event_type)) [
      | inr other ↦ rw other (delete-IsAccounted e m c k ((t, p), read, inl other) h)
      | inl same ↦ rw same (answered (handler e p c.state.0))
    ]
      where
        answered :
            (r : Result (Unit {0}) × S)
            → IsAccounted parse event_type Known (handled m c (logged p r c.state.1))
        answered (ok u, s) =
            delete-IsAccounted e m (record c { state = (s, p ∷ c.state.1) }) k
              ((t, p), read, inr (inl refl)) (more_log p c.state.1 c.deleted h)
        answered (err x, s) = h

    process_message-IsAccounted :
        (e : E) (m : Message) (c : Consumer (S × List P))
        → Known (e, m)
        → IsAccounted parse event_type Known c
        → IsAccounted parse event_type Known
            (process_message parse event_type (logging handler e) m c)
    unfolding process_message
    process_message-IsAccounted e m c k h = elim (Option-cases (event_of parse event_type m)) [
      | inl unread ↦ rw (process_message, unread) h
      | inr (event, read) ↦
          rw (process_message, read) (process_event-IsAccounted e m event c k read h)
    ]

    process_batch-IsAccounted :
        (ms : List (E × Message)) (c : Consumer (S × List P))
        → All Known ms
        → IsAccounted parse event_type Known c
        → IsAccounted parse event_type Known (process_batch parse event_type (logging handler) ms c)
    unfolding process_batch
    process_batch-IsAccounted [] c k h = h
    process_batch-IsAccounted ((e, m) ∷ ms) c k h =
        process_batch-IsAccounted ms (process_message parse event_type (logging handler e) m c) k.1
          (process_message-IsAccounted e m c k.0 h)

  among :
      {A : Type 0} (xs ys : List A)
      → ((x : A) → Any (λ y. y ≡ x) xs → Any (λ y. y ≡ x) ys)
      → All (λ x. Any (λ y. y ≡ x) ys) xs
  among [] ys h = tt
  among (x ∷ xs) ys h = (h x (inl refl), among xs ys (λ z a. h z (inr a)))

  -- Over any rounds of a subscriber with an empty history, and whatever the handler does: each message
  -- that is deleted was received in a round of the loop, and is an event of another type or one for
  -- whose payload the handler returned.
  pub deleted_was_handled :
      (steps : List (SubscriberStep E)) (running : Bool) (s : S)
      → IsAccounted parse event_type
          (λ q. Any (λ r. r ≡ q) (received running steps))
          (run_subscriber parse event_type (logging handler) steps (record {
            consumer = record { state = (s, []); deleted = [] };
            is_running = running;
          })).consumer
  deleted_was_handled steps running s =
      subst (IsAccounted parse event_type (λ q. Any (λ r. r ≡ q) (received running steps)))
        (sym (run_subscriber-batch parse event_type (logging handler) steps running _))
        (process_batch-IsAccounted _ (received running steps) _ (among _ _ (λ x a. a)) tt)
