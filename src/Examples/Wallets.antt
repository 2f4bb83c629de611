-- ===== src/Examples/Wallets.antt =====
-- The theorems on escrow-service at a wallet of 3000 paise of which 1000 are held.
use gusto_backend.Common.{true, false, none, some, [], ◌∷◌, ◌≡◌, refl, arith}
use gusto_backend.Common.Int.{ℤ, pos, ◌-ℤ◌, ◌<ℤ◌, ◌+ℤ◌}
use gusto_backend.Common.Dict.{lookup}
use gusto_backend.Common.Http.{is_ok}
use gusto_backend.Escrow.{
  Escrow, Subscription, deposit, reserve, capture_reservation, on_order_placed,
}
use gusto_backend.Escrow.Api.{Body, reserves, serve}
use gusto_backend.Escrow.Errors.{serve_error_unchanged}
use gusto_backend.Escrow.Invariant.{AllSolvent, IsSolvent, serve-AllSolvent}
use gusto_backend.Escrow.Spec.{hold, perform, account, perform-refines}
use gusto_backend.Escrow.Rows.{Leaves}
use gusto_backend.Escrow.Overdraft.{order_placed_charges_twice, redeposit-capture_negative}

abbrev sub : Subscription
sub = record {
  total_deposited = pos 3000;
  current_balance = pos 3000;
  reserved_amount = pos 1000;
  days_left = 12;
  daily_avg_limit = pos 100;
}

abbrev wallet : Escrow
wallet = record { subscriptions = ("asha", sub) ∷ []; published = [] }

abbrev body : ℤ → Body
body amount = record { user_id = some "asha"; amount = some amount; savings_achieved = none }

found : lookup "asha" wallet.subscriptions ≡ some sub
unfolding lookup
found = refl

sub-IsSolvent : IsSolvent sub
sub-IsSolvent = record { reserved_nonneg = omega arith; covered = omega arith }

wallet-AllSolvent : AllSolvent wallet
unfolding lookup
wallet-AllSolvent user row h = ground (arith, sub-IsSolvent)

serve-AllSolvent_example : AllSolvent (serve true (reserves (body (pos 500))) wallet).1
serve-AllSolvent_example =
    serve-AllSolvent true (reserves (body (pos 500))) wallet tt wallet-AllSolvent

perform-refines_example :
    (is_ok (perform true hold "asha" (pos 500) wallet).0 ≡ true)
    × (account "asha" (perform true hold "asha" (pos 500) wallet).1
        ≡ some (record { free = 1500; held = 1500 }))
unfolding ◌-ℤ◌
perform-refines_example =
    perform-refines true hold "asha" 500 wallet sub (omega arith) found sub-IsSolvent

refused : is_ok (serve true (reserves (body (pos 2001))) wallet).0 ≡ false
unfolding serve reserve lookup ◌-ℤ◌
refused = refl

serve_error_unchanged_example : (serve true (reserves (body (pos 2001))) wallet).1 ≡ wallet
serve_error_unchanged_example =
    serve_error_unchanged true (reserves (body (pos 2001))) wallet refused

order_placed_charges_twice_example :
    Leaves "asha"
      (on_order_placed true "asha" (pos 500) (pos 0))
      (capture_reservation true "asha" (pos 500) (reserve true "asha" (pos 500) wallet).1).1
      (record sub { current_balance = pos 2000 })
unfolding ◌-ℤ◌ ◌+ℤ◌
order_placed_charges_twice_example =
    order_placed_charges_twice true "asha" (pos 500) wallet sub (pos 0) (omega arith) found
      (ground arith) (omega arith) (ground arith)

redeposit-capture_negative_example :
    (row : Subscription) × Leaves "asha"
      (capture_reservation true "asha" (pos 1000))
      (deposit true "asha" (pos 600) wallet).1
      row
    × (row.current_balance <ℤ pos 0)
redeposit-capture_negative_example =
    redeposit-capture_negative true "asha" (pos 600) wallet sub (omega arith) found (omega arith)
