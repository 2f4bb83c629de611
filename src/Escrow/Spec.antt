-- ===== src/Escrow/Spec.antt =====
-- What a wallet promises to the order flow, without rows, signs and exceptions: an account with a
-- free and a held part, from which money is held, then settled or refunded.
use gusto_backend.Common.{
  ℕ, ◌+◌, ◌-◌, ◌<◌, String, Bool, true, false, Option, none, some, ◌≡◌, leb, if◌then◌else◌,
}
use gusto_backend.Common.Int.{ℤ, pos, pos_part, ◌-ℤ◌, int_laws}
use gusto_backend.Common.Dict.{lookup, lookup-insert_self}
use gusto_backend.Common.Http.{Action, is_ok}
use gusto_backend.Escrow.{Escrow, Subscription, reserve, capture_reservation, release_reservation}
use gusto_backend.Escrow.Invariant.{IsSolvent}

pub record Account : Type 0 where
  pub free : ℕ
  pub held : ℕ

pub data Move : Type 0 where
  hold settle refund : Move

-- `none` is a refusal.
abbrev pub apply : Move → ℕ → Account → Option Account
apply hold n a =
    if leb n a.free then some (record { free = a.free - n; held = a.held + n }) else none
apply settle n a = if leb n a.held then some (record { free = a.free; held = a.held - n }) else none
apply refund n a =
    if leb n a.held then some (record { free = a.free + n; held = a.held - n }) else none

-- The method that carries a move out.
unfoldable pub perform : Bool → Move → String → ℤ → Action Escrow Subscription
perform up hold u a = reserve up u a
perform up settle u a = capture_reservation up u a
perform up refund u a = release_reservation u a

-- How a row is seen.
abbrev pub view : Subscription → Account
view sub = record {
  free = pos_part (sub.current_balance -ℤ sub.reserved_amount);
  held = pos_part sub.reserved_amount;
}

abbrev pub is_some : Option Account → Bool
is_some none = false
is_some (some a) = true

abbrev pub account : String → Escrow → Option Account
account u s = elim (lookup u s.subscriptions) [ none ↦ none | some sub ↦ some (view sub) ]

abbrev or_same : Option Account → Account → Account
or_same none a = a
or_same (some b) a = b

-- On a solvent row, `reserve`, `captureReservation` and `releaseReservation` of a positive amount
-- succeed exactly when the account allows the hold, the settlement or the refund, and leave the
-- account that it gives; when refused they leave it as it was.
pub perform-refines :
    (up : Bool) (m : Move) (u : String) (n : ℕ) (s : Escrow) (sub : Subscription)
    → 0 < n
    → lookup u s.subscriptions ≡ some sub
    → IsSolvent sub
    → (is_ok (perform up m u (pos n) s).0 ≡ is_some (apply m n (view sub)))
      × (account u (perform up m u (pos n) s).1 ≡ some (or_same (apply m n (view sub)) (view sub)))
unfolding perform reserve capture_reservation release_reservation
perform-refines up hold u n s sub p e v = grind (int_laws, lookup-insert_self)
perform-refines up settle u n s sub p e v = grind (int_laws, lookup-insert_self)
perform-refines up refund u n s sub p e v = grind (int_laws, lookup-insert_self)
