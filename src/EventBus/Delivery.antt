-- ===== src/EventBus/Delivery.antt =====
-- What EventSubscriber handles and deletes over the rounds of its loop.
use gusto_backend.Common.{
  String, Bool, true, false, Option, none, some, List, [], ◌∷◌, ◌++◌, ◌≡◌, refl, sym, ap, ◌∙◌,
}
use gusto_backend.Common.Http.{Action}
use gusto_backend.EventBus.{
  Message, Envelope, Consumer, Receive, receive_fails, receives, SubscriberStep, on_called,
  stop_called, round, process_message, process_batch, poll_once, run_subscriber,
}

-- The messages of a round, and those of the rounds that are run.
abbrev pub batch : {E : Type 0} → Receive E → List (E × Message)
batch receive_fails = []
batch (receives none) = []
batch (receives (some ms)) = ms

abbrev pub received : {E : Type 0} → Bool → List (SubscriberStep E) → List (E × Message)
received running [] = []
received running (on_called ∷ steps) = received true steps
received running (stop_called ∷ steps) = received false steps
received true (round r ∷ steps) = batch r ++ received true steps
received false (round r ∷ steps) = received false steps

module _ {S P E : Type 0} (parse : String → Option (Envelope P)) (event_type : String)
    (handler : E → P → Action S (Unit {0})) where
  process_batch-append :
      (xs ys : List (E × Message)) (c : Consumer S)
      → process_batch parse event_type handler (xs ++ ys) c
        ≡ process_batch parse event_type handler ys (process_batch parse event_type handler xs c)
  unfolding process_batch
  process_batch-append [] ys c = refl
  process_batch-append ((e, m) ∷ xs) ys c =
      process_batch-append xs ys (process_message parse event_type (handler e) m c)

  poll_once-batch :
      (r : Receive E) (c : Consumer S)
      → poll_once parse event_type handler r c ≡ process_batch parse event_type handler (batch r) c
  unfolding poll_once process_batch
  poll_once-batch receive_fails c = refl
  poll_once-batch (receives none) c = refl
  poll_once-batch (receives (some ms)) c = refl

  -- The loop handles the messages of its rounds, one behind the other.
  pub run_subscriber-batch :
      (steps : List (SubscriberStep E)) (running : Bool) (c : Consumer S)
      → (run_subscriber parse event_type handler steps
          (record { consumer = c; is_running = running })).consumer
        ≡ process_batch parse event_type handler (received running steps) c
  unfolding run_subscriber process_batch
  run_subscriber-batch [] running c = refl
  run_subscriber-batch (on_called ∷ steps) true c = run_subscriber-batch steps true c
  run_subscriber-batch (on_called ∷ steps) false c = run_subscriber-batch steps true c
  run_subscriber-batch (stop_called ∷ steps) running c = run_subscriber-batch steps false c
  run_subscriber-batch (round r ∷ steps) true c =
      run_subscriber-batch steps true (poll_once parse event_type handler r c)
      ∙ ap (process_batch parse event_type handler (received true steps)) (poll_once-batch r c)
      ∙ sym (process_batch-append (batch r) (received true steps) c)
  run_subscriber-batch (round r ∷ steps) false c = run_subscriber-batch steps false c
