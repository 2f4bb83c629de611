-- ===== src/Escrow/Consumers.antt =====
-- The consumers of escrow-service on their queues (src/events/consumers), which SQS may deliver to more
-- than once.
use gusto_backend.Common.{
  String, Bool, true, false, Option, none, some, List, [], ◌∷◌, ◌≡◌, inl, inr, refl, ap, ◌∙◌, arith,
  any, str_eq, str_eq_iff, Option-cases, Bool-cases, ◌&&◌, ◌||◌,
}
use gusto_backend.Common.Int.{ℤ, pos, ◌+ℤ◌, ◌-ℤ◌, ◌≤ℤ◌, ◌<ℤ◌, floor_div, int_laws}
use gusto_backend.Common.Dict.{lookup, lookup-insert}
use gusto_backend.Common.Http.{then_pure-state, Action, ◌>>◌, pure}
use gusto_backend.EventBus.{
  Message, Envelope, Consumer, SubscriberStep, round, receives, event_of, process_message,
  process_batch, process_event, delete_message-state, handled-state, run_subscriber,
}
use gusto_backend.EventBus.Delivery.{received, run_subscriber-batch}
use gusto_backend.Escrow.Rows.{debit_row}
use gusto_backend.Escrow.{
  Escrow, Subscription, at_least_one, redistribute, on_order_placed, on_meal_skipped,
}

-- `OrderPlacedEvent`, as far as the consumer reads it.
pub record OrderPlaced : Type 0 where
  pub user_id : String
  pub final_total : ℤ
  pub savings_achieved : ℤ

-- The handlers that the consumers register; `up` says whether the bus takes the event of the wallet.
unfoldable pub handle_meal_skipped : Bool → String → Action Escrow (Unit {0})
handle_meal_skipped up user = on_meal_skipped up user >> pure tt

unfoldable pub handle_order_placed : Bool → OrderPlaced → Action Escrow (Unit {0})
handle_order_placed up e = on_order_placed up e.user_id e.final_total e.savings_achieved >> pure tt

-- The row behind a rollover.
abbrev pub rolled : Subscription → Subscription
rolled sub = record sub {
  daily_avg_limit = floor_div sub.current_balance (at_least_one sub.days_left);
}

abbrev pub if_rolled : Bool → Option Subscription → Option Subscription
if_rolled true (some sub) = some (rolled sub)
if_rolled _ o = o

module _ (parse : String → Option (Envelope String)) (user : String) where
  -- The message is a MealSkipped of the user.
  abbrev names : Option (String × String) → Bool
  names none = false
  names (some (t, u)) = str_eq t "MealSkipped" && str_eq u user

  abbrev pub skips : Bool × Message → Bool
  skips (up, m) = names (event_of parse "MealSkipped" m)

  handle-row :
      (up : Bool) (u : String) (s : Escrow)
      → lookup user (handle_meal_skipped up u s).1.subscriptions
        ≡ if_rolled (str_eq u user) (lookup user s.subscriptions)
  unfolding handle_meal_skipped redistribute
  handle-row up u s = grind (arith, lookup-insert, str_eq_iff u user)

  event-row :
      (up : Bool) (m : Message) (event : String × String) (c : Consumer Escrow)
      → lookup user
          (process_event "MealSkipped" (handle_meal_skipped up) m event c).state.subscriptions
        ≡ if_rolled (names (some event)) (lookup user c.state.subscriptions)
  event-row up m (t, u) c = elim (Bool-cases (str_eq t "MealSkipped")) [
    | inr other ↦ rw (other, delete_message-state m c) refl
    | inl same ↦
        rw (same, handled-state m c (handle_meal_skipped up u c.state)) (handle-row up u c.state)
  ]

  message-row :
      (up : Bool) (m : Message) (c : Consumer Escrow)
      → lookup user
          (process_message parse "MealSkipped" (handle_meal_skipped up) m c).state.subscriptions
        ≡ if_rolled (skips (up, m)) (lookup user c.state.subscriptions)
  unfolding process_message
  message-row up m c = elim (Option-cases (event_of parse "MealSkipped" m)) [
    | inl unread ↦ rw (process_message, unread) refl
    | inr (event, read) ↦ rw (process_message, read) (event-row up m event c)
  ]

  rolled_again :
      (a b : Bool) (o : Option Subscription) → if_rolled b (if_rolled a o) ≡ if_rolled (a || b) o
  rolled_again true true (some sub) = refl
  rolled_again true true none = refl
  rolled_again true false (some sub) = refl
  rolled_again true false none = refl
  rolled_again false b o = refl

  batch-row :
      (ms : List (Bool × Message)) (c : Consumer Escrow)
      → lookup user (process_batch parse "MealSkipped" handle_meal_skipped ms c).state.subscriptions
        ≡ if_rolled (any skips ms) (lookup user c.state.subscriptions)
  unfolding process_batch
  batch-row [] c = refl
  batch-row ((up, m) ∷ ms) c =
      batch-row ms (process_message parse "MealSkipped" (handle_meal_skipped up) m c)
      ∙ ap (if_rolled (any skips ms)) (message-row up m c)
      ∙ rolled_again (skips (up, m)) (any skips ms) (lookup user c.state.subscriptions)

-- Over any rounds of the MealSkipped subscriber: the row of a user is as before, or, if some message
-- that was received named the user, as behind one rollover; however often such messages came, and
-- whether the handler returned, the bus took its event and SQS the deletion or not.
pub meal_skipped_redelivered :
    (parse : String → Option (Envelope String)) (steps : List (SubscriberStep Bool))
    (running : Bool) (c : Consumer Escrow) (user : String)
    → lookup user
        (run_subscriber parse "MealSkipped" handle_meal_skipped steps
          (record { consumer = c; is_running = running })).consumer.state.subscriptions
      ≡ if_rolled
          (any (skips parse user) (received running steps))
          (lookup user c.state.subscriptions)
meal_skipped_redelivered parse steps running c user =
    ap (λ (d : Consumer Escrow). lookup user d.state.subscriptions)
      (run_subscriber-batch parse "MealSkipped" handle_meal_skipped steps running c)
    ∙ batch-row parse user (received running steps) c

-- One delivery of OrderPlaced, where the balance covers the total.
order-row :
    (parse : String → Option (Envelope OrderPlaced)) (up : Bool) (m : Message) (e : OrderPlaced)
    (c : Consumer Escrow) (sub : Subscription)
    → event_of parse "OrderPlaced" m ≡ some ("OrderPlaced", e)
    → lookup e.user_id c.state.subscriptions ≡ some sub
    → pos 0 <ℤ e.final_total
    → e.final_total ≤ℤ sub.current_balance
    → lookup e.user_id
        (process_message parse "OrderPlaced" (handle_order_placed up) m c).state.subscriptions
      ≡ some (record sub { current_balance = sub.current_balance -ℤ e.final_total })
unfolding process_message handle_order_placed
order-row parse up m e c sub read there positive covered =
    rw (process_message, read, handled-state m c (handle_order_placed up e c.state))
      (rw
        (then_pure-state (on_order_placed up e.user_id e.final_total e.savings_achieved) tt c.state)
        (debit_row up e.user_id e.final_total c.state sub e.savings_achieved positive there
          covered).1)

-- The consumer does not look at the event's id: a message that SQS delivers a second time, with a
-- positive total that the balance holds twice, is debited a second time.
pub order_placed_redelivered :
    (parse : String → Option (Envelope OrderPlaced)) (up again : Bool) (m : Message)
    (e : OrderPlaced) (c : Consumer Escrow) (sub : Subscription)
    → event_of parse "OrderPlaced" m ≡ some ("OrderPlaced", e)
    → lookup e.user_id c.state.subscriptions ≡ some sub
    → pos 0 <ℤ e.final_total
    → e.final_total +ℤ e.final_total ≤ℤ sub.current_balance
    → lookup e.user_id
        (run_subscriber parse "OrderPlaced" handle_order_placed
          (round (receives (some ((up, m) ∷ []))) ∷ round (receives (some ((again, m) ∷ []))) ∷ [])
          (record { consumer = c; is_running = true })).consumer.state.subscriptions
      ≡ some
          (record sub { current_balance = sub.current_balance -ℤ e.final_total -ℤ e.final_total })
unfolding process_batch
order_placed_redelivered parse up again m e c sub read there positive covered =
    ap (λ (d : Consumer Escrow). lookup e.user_id d.state.subscriptions)
      (run_subscriber-batch parse "OrderPlaced" handle_order_placed _ true c)
    ∙ order-row parse again m e _ _ read
        (order-row parse up m e c sub read there positive (omega int_laws)) positive
        (omega int_laws)
