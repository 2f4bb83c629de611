-- ===== src/Orders/Backing/Held.antt =====
-- The amount that escrow-service holds for a user, under the three requests of EscrowClient.
use gusto_backend.Common.{String, Bool, Option, none, some, str_eq, str_eq_iff, if◌then◌else◌}
use gusto_backend.Common.Int.{ℤ, pos, pos_part, ◌+ℤ◌, ◌≤ℤ◌, int_laws}
use gusto_backend.Common.Dict.{lookup, lookup-insert}
use gusto_backend.Common.Http.{is_ok}
use gusto_backend.Escrow.Api.{
  serve, reserves, captures, releases, post_reserve, post_capture, post_release,
}
use gusto_backend.Orders.{amount_body}
use gusto_backend.Escrow.{Escrow, Subscription, reserve, capture_reservation, release_reservation}

abbrev pub held_of : Option Subscription → ℤ
held_of none = pos 0
held_of (some sub) = sub.reserved_amount

-- What is held for a user.
abbrev pub held_in : String → Escrow → ℤ
held_in u e = held_of (lookup u e.subscriptions)

-- A share of the user `u` of an amount.
abbrev pub share : String → String → ℤ → ℤ
share u v t = if str_eq u v then pos (pos_part t) else pos 0

module _ (up : Bool) (u v : String) (t : ℤ) (e : Escrow) where
  -- A reservation that is answered well adds the amount.
  reserve-held :
      held_in v e +ℤ (if is_ok (reserve up u t e).0 then share u v t else pos 0)
      ≤ℤ held_in v (reserve up u t e).1
  unfolding reserve
  reserve-held = grind (int_laws, lookup-insert, str_eq_iff u v)

  -- A capture or a release takes no more than the amount.
  capture-held : held_in v e ≤ℤ held_in v (capture_reservation up u t e).1 +ℤ share u v t
  unfolding capture_reservation
  capture-held = grind (int_laws, lookup-insert, str_eq_iff u v)

  release-held : held_in v e ≤ℤ held_in v (release_reservation u t e).1 +ℤ share u v t
  unfolding release_reservation
  release-held = grind (int_laws, lookup-insert, str_eq_iff u v)

  -- The same of the routes.
  pub reserves-held :
      held_in v e
        +ℤ (if is_ok (serve up (reserves (amount_body u t)) e).0 then share u v t else pos 0)
      ≤ℤ held_in v (serve up (reserves (amount_body u t)) e).1
  unfolding serve post_reserve
  reserves-held = grind (int_laws, reserve-held)

  pub captures-held :
      held_in v e ≤ℤ held_in v (serve up (captures (amount_body u t)) e).1 +ℤ share u v t
  unfolding serve post_capture
  captures-held = grind (int_laws, capture-held)

  pub releases-held :
      held_in v e ≤ℤ held_in v (serve up (releases (amount_body u t)) e).1 +ℤ share u v t
  unfolding serve post_release
  releases-held = grind (int_laws, release-held)
