-- ===== src/Escrow/Rows.antt =====
-- The row that each wallet method leaves when its tests pass, for proofs that keep the methods shut.
use gusto_backend.Common.{String, Bool, some, ◌≡◌, arith}
use gusto_backend.Common.Int.{ℤ, pos, ◌-ℤ◌, ◌+ℤ◌, ◌≤ℤ◌, ◌<ℤ◌}
use gusto_backend.Common.Dict.{lookup, lookup-insert_self}
use gusto_backend.Common.Http.{Action, ok}
use gusto_backend.Escrow.{
  Escrow, Subscription, deposit, debit, reserve, capture_reservation, release_reservation,
  fresh_cycle,
}

-- A call that succeeds with a row and leaves it in the table.
abbrev pub Leaves : String → Action Escrow Subscription → Escrow → Subscription → Type 0
Leaves u call s row = ((call s).0 ≡ ok row) × (lookup u (call s).1.subscriptions ≡ some row)

module _ (up : Bool) (u : String) (a : ℤ) (s : Escrow) (sub : Subscription) where
  pub reserve_row :
      pos 0 <ℤ a
      → lookup u s.subscriptions ≡ some sub
      → a ≤ℤ sub.current_balance -ℤ sub.reserved_amount
      → Leaves u (reserve up u a) s (record sub { reserved_amount = sub.reserved_amount +ℤ a })
  unfolding reserve
  reserve_row p e c = grind (arith, lookup-insert_self)

  pub capture_row :
      pos 0 <ℤ a
      → lookup u s.subscriptions ≡ some sub
      → a ≤ℤ sub.reserved_amount
      → Leaves u (capture_reservation up u a) s (record sub {
        current_balance = sub.current_balance -ℤ a;
        reserved_amount = sub.reserved_amount -ℤ a;
      })
  unfolding capture_reservation
  capture_row p e c = grind (arith, lookup-insert_self)

  pub release_row :
      pos 0 <ℤ a
      → lookup u s.subscriptions ≡ some sub
      → a ≤ℤ sub.reserved_amount
      → Leaves u
          (release_reservation u a)
          s
          (record sub { reserved_amount = sub.reserved_amount -ℤ a })
  unfolding release_reservation
  release_row p e c = grind (arith, lookup-insert_self)

  pub debit_row :
      (savings : ℤ)
      → pos 0 <ℤ a
      → lookup u s.subscriptions ≡ some sub
      → a ≤ℤ sub.current_balance
      → Leaves u
          (debit up u a savings)
          s
          (record sub { current_balance = sub.current_balance -ℤ a })
  unfolding debit
  debit_row savings p e c = grind (arith, lookup-insert_self)

  pub deposit_row :
      pos 0 <ℤ a
      → lookup u s.subscriptions ≡ some sub
      → Leaves u (deposit up u a) s (fresh_cycle a (some sub))
  unfolding deposit
  deposit_row p e = grind (arith, lookup-insert_self)
