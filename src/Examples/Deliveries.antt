-- ===== src/Examples/Deliveries.antt =====
-- The theorems on EventSubscriber at queues of one event.
use gusto_backend.Common.{
  String, Bool, true, false, Option, none, some, List, [], ◌∷◌, ◌≡◌, refl, arith, Any,
}
use gusto_backend.Common.Int.{ℤ, pos, ◌-ℤ◌, ◌+ℤ◌}
use gusto_backend.Common.Dict.{lookup}
use gusto_backend.EventBus.{
  Message, Envelope, Consumer, SubscriberStep, round, on_called, stop_called, receives,
  receive_fails, event_of, run_subscriber,
}
use gusto_backend.EventBus.Delivery.{received}
use gusto_backend.EventBus.Deleted.{IsAccounted, logging, deleted_was_handled}
use gusto_backend.Escrow.{Escrow, Subscription}
use gusto_backend.Escrow.Consumers.{
  OrderPlaced, handle_meal_skipped, handle_order_placed, meal_skipped_redelivered,
  order_placed_redelivered, rolled,
}

abbrev wallet_of : ℤ → Subscription
wallet_of balance = record {
  total_deposited = pos 3000;
  current_balance = balance;
  reserved_amount = pos 0;
  days_left = 12;
  daily_avg_limit = pos 100;
}

abbrev queue : Consumer Escrow
queue = record {
  state = record { subscriptions = ("asha", wallet_of (pos 3000)) ∷ []; published = [] };
  deleted = [];
}

abbrev message : Bool → Message
message deletes = record { body = some "event"; receipt_handle = "h1"; deletes = deletes }

-- An event of the bus, whatever the text.
abbrev as_event : {P : Type 0} → String → P → String → Option (Envelope P)
as_event event_type p text = some (record {
  detail_type = some event_type;
  detail = some (some p);
  event_type = none;
  payload = none;
  whole = p;
})

-- A delivery that SQS does not delete, a failure, and a second delivery.
abbrev rounds : List (SubscriberStep Bool)
rounds =
    on_called
    ∷ round (receives (some ((true, message false) ∷ [])))
    ∷ round receive_fails
    ∷ round (receives (some ((false, message true) ∷ [])))
    ∷ stop_called
    ∷ []

deleted_was_handled_example :
    IsAccounted
      (as_event "MealSkipped" "asha")
      "MealSkipped"
      (λ q. Any (λ r. r ≡ q) (received false rounds))
      (run_subscriber
        (as_event "MealSkipped" "asha")
        "MealSkipped"
        (logging handle_meal_skipped)
        rounds
        (record {
          consumer = record { state = (queue.state, []); deleted = [] };
          is_running = false;
        })).consumer
deleted_was_handled_example =
    deleted_was_handled (as_event "MealSkipped" "asha") "MealSkipped" handle_meal_skipped rounds
      false queue.state

meal_skipped_redelivered_example :
    lookup "asha"
      (run_subscriber
        (as_event "MealSkipped" "asha")
        "MealSkipped"
        handle_meal_skipped
        rounds
        (record { consumer = queue; is_running = false })).consumer.state.subscriptions
    ≡ some (rolled (wallet_of (pos 3000)))
unfolding event_of lookup
meal_skipped_redelivered_example =
    meal_skipped_redelivered (as_event "MealSkipped" "asha") rounds false queue "asha"

abbrev order : OrderPlaced
order = record { user_id = "asha"; final_total = pos 1200; savings_achieved = pos 0 }

order_placed_redelivered_example :
    lookup "asha"
      (run_subscriber
        (as_event "OrderPlaced" order)
        "OrderPlaced"
        handle_order_placed
        (round (receives (some ((true, message false) ∷ [])))
          ∷ round (receives (some ((true, message false) ∷ [])))
          ∷ [])
        (record { consumer = queue; is_running = true })).consumer.state.subscriptions
    ≡ some (wallet_of (pos 600))
unfolding event_of lookup ◌-ℤ◌ ◌+ℤ◌
order_placed_redelivered_example =
    order_placed_redelivered (as_event "OrderPlaced" order) true true (message false) order queue
      (wallet_of (pos 3000)) refl refl (omega arith) (omega arith)
