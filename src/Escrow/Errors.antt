-- ===== src/Escrow/Errors.antt =====
-- What a request to wallet.controller.ts changes: with an exception, for other users, and with or
-- without the event bus.
use gusto_backend.Common.{String, Bool, true, false, some, ◌≡◌, ◌≢◌, arith}
use gusto_backend.Common.Dict.{lookup, lookup-insert_ne}
use gusto_backend.Common.Http.{is_ok}
use gusto_backend.Escrow.{
  Escrow, deposit, debit, tick, reserve, capture_reservation, release_reservation, redistribute,
  get_balance,
}
use gusto_backend.Escrow.Api.{Request, deposits, serve, subject}

-- A request that is answered with an exception leaves the subscriptions and the published events
-- exactly as they were.
pub serve_error_unchanged :
    (up : Bool) (r : Request) (s : Escrow) → is_ok (serve up r s).0 ≡ false → (serve up r s).1 ≡ s
unfolding serve deposit debit tick reserve capture_reservation release_reservation redistribute
    get_balance
serve_error_unchanged up (deposits b) s h = ground arith
serve_error_unchanged up _ s h = ground arith

-- A request changes the row of no user but the one that it names.
serve_frame :
    (up : Bool) (r : Request) (s : Escrow) (other : String)
    → subject r ≢ some other
    → lookup other (serve up r s).1.subscriptions ≡ lookup other s.subscriptions
unfolding serve subject deposit debit tick reserve capture_reservation release_reservation
    redistribute get_balance
serve_frame up (deposits b) s other h = grind (arith, lookup-insert_ne)
serve_frame up _ s other h = grind (arith, lookup-insert_ne)

-- Whether the bus takes the event or not, the answer and the subscriptions are the same.
serve_bus_independent :
    (r : Request) (s : Escrow)
    → ((serve true r s).0 ≡ (serve false r s).0)
      × ((serve true r s).1.subscriptions ≡ (serve false r s).1.subscriptions)
unfolding serve deposit debit tick reserve capture_reservation release_reservation redistribute
    get_balance
serve_bus_independent (deposits b) s = ground arith
serve_bus_independent _ s = ground arith
