-- ===== src/Escrow/Invariant.antt =====
-- Solvency of the rows of wallet.service.ts: what is held for orders against the balance.
use gusto_backend.Common.{String, Bool, some, ◌≡◌, arith, inl, inr, Option-cases}
use gusto_backend.Common.Int.{ℤ, pos, ◌≤ℤ◌, ◌-ℤ◌, int_laws}
use gusto_backend.Common.Dict.{lookup, insert, lookup-insert}
use gusto_backend.Common.Http.{Action}
use gusto_backend.Escrow.Api.{
  Body, Request, deposits, debits, rollovers, reserves, captures, releases, ticks, reads, serve,
  parse_user, post_debit, post_rollover, parse_amount_request, parse_debit_request, with_amount,
}
use gusto_backend.Escrow.{
  Escrow, Subscription, deposit, debit, tick, reserve, capture_reservation, release_reservation,
  redistribute, get_balance,
}

pub record IsSolvent (sub : Subscription) : Type 0 where
  pub reserved_nonneg : pos 0 ≤ℤ sub.reserved_amount
  pub covered : sub.reserved_amount ≤ℤ sub.current_balance

-- The row of every user is solvent.
abbrev pub AllSolvent : Escrow → Type 0
AllSolvent s =
    (user : String) (sub : Subscription) → lookup user s.subscriptions ≡ some sub → IsSolvent sub

-- One row replaced by a solvent one.
pub insert-AllSolvent :
    (s : Escrow) (user : String) (sub : Subscription)
    → AllSolvent s
    → IsSolvent sub
    → AllSolvent (record s { subscriptions = insert user sub s.subscriptions })
insert-AllSolvent s user sub all new other row h =
    ground (arith, lookup-insert user other sub s.subscriptions, all other row)

module _ (s : Escrow) (u : String) (a : ℤ) (all : AllSolvent s) where
  reserve-AllSolvent : (up : Bool) → AllSolvent (reserve up u a s).1
  unfolding reserve
  reserve-AllSolvent up other row h = grind (int_laws, lookup-insert, all u, all other row)

  capture-AllSolvent : (up : Bool) → AllSolvent (capture_reservation up u a s).1
  unfolding capture_reservation
  capture-AllSolvent up other row h = grind (int_laws, lookup-insert, all u, all other row)

  release-AllSolvent : AllSolvent (release_reservation u a s).1
  unfolding release_reservation
  release-AllSolvent other row h = grind (int_laws, lookup-insert, all u, all other row)

  -- A debit keeps solvency if it leaves the held amount in the account.
  debit-AllSolvent :
      (up : Bool) (savings : ℤ)
      → ((sub : Subscription)
          → lookup u s.subscriptions ≡ some sub
          → a ≤ℤ sub.current_balance -ℤ sub.reserved_amount)
      → AllSolvent (debit up u a savings s).1
  unfolding debit
  debit-AllSolvent up savings covered other row h = elim (Option-cases (lookup u s.subscriptions)) [
    | inl absent ↦ ground (arith, all other row)
    | inr (sub, e) ↦ grind (int_laws, lookup-insert, all u sub e, covered sub e, all other row)
  ]

  -- A deposit keeps solvency if it is no less than the held amount.
  deposit-AllSolvent :
      (up : Bool)
      → ((sub : Subscription) → lookup u s.subscriptions ≡ some sub → sub.reserved_amount ≤ℤ a)
      → AllSolvent (deposit up u a s).1
  unfolding deposit
  deposit-AllSolvent up covered other row h =
      grind (int_laws, lookup-insert, all u, covered, all other row)

module _ (s : Escrow) (u : String) (all : AllSolvent s) where
  tick-AllSolvent : (up : Bool) → AllSolvent (tick up u s).1
  unfolding tick
  tick-AllSolvent up other row h = grind (int_laws, lookup-insert, all u, all other row)

  redistribute-AllSolvent : (up : Bool) → AllSolvent (redistribute up u s).1
  unfolding redistribute
  redistribute-AllSolvent up other row h = grind (int_laws, lookup-insert, all u, all other row)

  get_balance-AllSolvent : AllSolvent (get_balance u s).1
  unfolding get_balance
  get_balance-AllSolvent other row h = ground (arith, all other row)

-- The condition on a request: a deposit is no less than what is held for its user, a debit no more
-- than what is not held. The other requests need none.
abbrev pub LeavesHeld : Request → Escrow → Type 0
LeavesHeld (deposits b) s =
    (u : String) (a : ℤ) (sub : Subscription)
    → b.user_id ≡ some u
    → b.amount ≡ some a
    → lookup u s.subscriptions ≡ some sub
    → sub.reserved_amount ≤ℤ a
LeavesHeld (debits b) s =
    (u : String) (a : ℤ) (sub : Subscription)
    → b.user_id ≡ some u
    → b.amount ≡ some a
    → lookup u s.subscriptions ≡ some sub
    → a ≤ℤ sub.current_balance -ℤ sub.reserved_amount
LeavesHeld _ s = Unit

-- The checks of a schema that accepts.
parse_amount_request-fields :
    (b : Body) (u : String) (a : ℤ)
    → parse_amount_request b ≡ some (u, a)
    → (b.user_id ≡ some u) × (b.amount ≡ some a)
parse_amount_request-fields b u a h = ground arith

with_amount-AllSolvent :
    (b : Body) (handler : String → ℤ → Action Escrow Subscription) (s : Escrow)
    → AllSolvent s
    → ((u : String) (a : ℤ)
        → (b.user_id ≡ some u) × (b.amount ≡ some a)
        → AllSolvent (handler u a s).1)
    → AllSolvent (with_amount b handler s).1
with_amount-AllSolvent b handler s all next = elim (Option-cases (parse_amount_request b)) [
  | inl e ↦ rw (e, with_amount) all
  | inr ((u, a), e) ↦ rw (e, with_amount) (next u a (parse_amount_request-fields b u a e))
]

parse_debit_request-fields :
    (b : Body) (u : String) (a v : ℤ)
    → parse_debit_request b ≡ some (u, a, v)
    → (b.user_id ≡ some u) × (b.amount ≡ some a)
parse_debit_request-fields b u a v h = ground arith

-- Every request to the wallet keeps all users solvent (nothing held is negative, and what is held is
-- covered by the balance), if a deposit is no less than the held amount and a debit leaves it.
pub serve-AllSolvent :
    (up : Bool) (r : Request) (s : Escrow)
    → LeavesHeld r s
    → AllSolvent s
    → AllSolvent (serve up r s).1
unfolding serve
serve-AllSolvent up (deposits b) s c all =
    with_amount-AllSolvent b (deposit up) s all
      λ u a e. deposit-AllSolvent s u a all up (λ sub l. c u a sub e.0 e.1 l)
serve-AllSolvent up (debits b) s c all = elim (Option-cases (parse_debit_request b)) [
  | inl e ↦ rw (e, post_debit) all
  | inr ((u, a, v), e) ↦
      rw (e, post_debit)
        (debit-AllSolvent s u a all up v (λ sub l.
          c u a sub (parse_debit_request-fields b u a v e).0
            (parse_debit_request-fields b u a v e).1 l))
]
serve-AllSolvent up (rollovers b) s c all = elim (Option-cases (parse_user b)) [
  | inl e ↦ rw (e, post_rollover) all
  | inr (u, e) ↦ rw (e, post_rollover) (redistribute-AllSolvent s u all up)
]
serve-AllSolvent up (reserves b) s c all =
    with_amount-AllSolvent b (reserve up) s all λ u a e. reserve-AllSolvent s u a all up
serve-AllSolvent up (captures b) s c all =
    with_amount-AllSolvent b (capture_reservation up) s all λ u a e. capture-AllSolvent s u a all up
serve-AllSolvent up (releases b) s c all =
    with_amount-AllSolvent b release_reservation s all λ u a e. release-AllSolvent s u a all
serve-AllSolvent up (ticks u) s c all = tick-AllSolvent s u all up
serve-AllSolvent up (reads u) s c all = get_balance-AllSolvent s u all
