-- ===== src/Escrow/Overdraft.antt =====
-- The payment path of an order over wallet.service.ts: reservation, capture and release, with a
-- debit by the OrderPlaced consumer or a deposit between them.
use gusto_backend.Common.{String, Bool, Option, some, ◌≡◌, sym, ap, subst, ◌∙◌, arith}
use gusto_backend.Common.Int.{ℤ, pos, ◌-ℤ◌, ◌+ℤ◌, ◌≤ℤ◌, ◌<ℤ◌, int_laws}
use gusto_backend.Common.Dict.{lookup}
use gusto_backend.Escrow.{
  Escrow, Subscription, deposit, debit, reserve, capture_reservation, release_reservation,
  on_order_placed,
}
use gusto_backend.Escrow.Rows.{
  Leaves, reserve_row, capture_row, release_row, debit_row, deposit_row,
}

module _ (up : Bool) (u : String) (a : ℤ) (s : Escrow) (sub : Subscription) where
  -- After a reservation of `a`, the row holds `a` more; captured, it is the row of one debit.
  reserve_capture_row :
      pos 0 <ℤ a
      → lookup u s.subscriptions ≡ some sub
      → a ≤ℤ sub.current_balance -ℤ sub.reserved_amount
      → pos 0 ≤ℤ sub.reserved_amount
      → Leaves u
          (capture_reservation up u a)
          (reserve up u a s).1
          (record sub { current_balance = sub.current_balance -ℤ a })
  reserve_capture_row p e c v =
      let held = reserve_row up u a s sub p e c in
      subst
        (λ (r : ℤ).
          Leaves u (capture_reservation up u a) (reserve up u a s).1
            (record sub { current_balance = sub.current_balance -ℤ a; reserved_amount = r }))
        back (capture_row up u a (reserve up u a s).1 _ p held.1 (omega int_laws))
    where
      back : sub.reserved_amount +ℤ a -ℤ a ≡ sub.reserved_amount
      back = omega int_laws

  -- A reservation that succeeded and was then captured leaves the row that one plain debit of the
  -- amount leaves; released instead, it leaves the row of before.
  reserve-settled :
      pos 0 <ℤ a
      → lookup u s.subscriptions ≡ some sub
      → a ≤ℤ sub.current_balance -ℤ sub.reserved_amount
      → pos 0 ≤ℤ sub.reserved_amount
      → let s₁ = (reserve up u a s).1 in
        (lookup u (capture_reservation up u a s₁).1.subscriptions
          ≡ lookup u (debit up u a (pos 0) s).1.subscriptions)
        × (lookup u (release_reservation u a s₁).1.subscriptions ≡ some sub)
  reserve-settled p e c v = (
    (reserve_capture_row p e c v).1 ∙ sym (debit_row up u a s sub (pos 0) p e (omega int_laws)).1,
    (release_row up u a (reserve up u a s).1 _ p held.1 (omega int_laws)).1 ∙ ap back_to back,
  )
    where
      held : Leaves u (reserve up u a) s (record sub { reserved_amount = sub.reserved_amount +ℤ a })
      held = reserve_row up u a s sub p e c

      back : sub.reserved_amount +ℤ a -ℤ a ≡ sub.reserved_amount
      back = omega int_laws

      back_to : ℤ → Option Subscription
      back_to r = some (record sub { reserved_amount = r })

  -- An order whose amount was reserved and captured, and whose OrderPlaced event then reaches the
  -- consumer, is charged twice: of a balance that holds the amount twice, both are gone.
  pub order_placed_charges_twice :
      (savings : ℤ)
      → pos 0 <ℤ a
      → lookup u s.subscriptions ≡ some sub
      → a ≤ℤ sub.current_balance -ℤ sub.reserved_amount
      → pos 0 ≤ℤ sub.reserved_amount
      → a +ℤ a ≤ℤ sub.current_balance
      → Leaves u
          (on_order_placed up u a savings)
          (capture_reservation up u a (reserve up u a s).1).1
          (record sub { current_balance = sub.current_balance -ℤ a -ℤ a })
  order_placed_charges_twice savings p e c v d =
      debit_row up u a _ _ savings p (reserve_capture_row p e c v).1 (omega int_laws)

  -- A deposit below what is held succeeds and keeps the hold; capturing the hold then succeeds too
  -- and leaves a negative balance.
  pub redeposit-capture_negative :
      pos 0 <ℤ a
      → lookup u s.subscriptions ≡ some sub
      → a <ℤ sub.reserved_amount
      → (row : Subscription) × Leaves u
          (capture_reservation up u sub.reserved_amount)
          (deposit up u a s).1
          row
        × (row.current_balance <ℤ pos 0)
  redeposit-capture_negative p e c =
      let charged =
        capture_row up u sub.reserved_amount (deposit up u a s).1 _ (omega arith)
          (deposit_row up u a s sub p e).1 (omega arith) in
      (_, charged, omega int_laws)
