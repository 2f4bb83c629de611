-- ===== src/Escrow/Cycle.antt =====
-- The 30-day cycle: the daily limit after a deposit, a tick and a rollover, the countdown of the
-- days, and the redelivery of MealSkipped.
use gusto_backend.Common.{
  ℕ, zero, suc, ◌+◌, ◌-◌, ◌*◌, ◌/◌, ◌≤◌, ◌<◌, String, Bool, Option, some, none, ◌≡◌, refl, arith,
}
use gusto_backend.Common.Int.{ℤ, pos, ◌<ℤ◌, floor_div}
use gusto_backend.Common.Dict.{lookup, lookup-insert_self}
use gusto_backend.Escrow.Rows.{Leaves}
use gusto_backend.Escrow.{
  Escrow, Subscription, deposit, tick, redistribute, fresh_cycle, limit_over, at_least_one,
  cycle_days,
}

-- The daily limit of a row is the whole quotient of its balance by the days left (by one at the end
-- of the cycle): spending it every day stays within the balance, and one paisa more a day would not.
abbrev pub IsBudgeted : Subscription → Type 0
IsBudgeted row =
    (b l : ℕ) × (row.current_balance ≡ pos b)
    × (row.daily_avg_limit ≡ pos l)
    × (l * at_least_one row.days_left ≤ b)
    × (b < (l + 1) * at_least_one row.days_left)

quotient : (b d : ℕ) → 0 < d → (b / d * d ≤ b) × (b < (b / d + 1) * d)
quotient b d h = grind arith

-- The row of a user, which there is, satisfies `P`.
abbrev pub RowIs : (Subscription → Type 0) → String → Escrow → Type 0
RowIs P u s = (row : Subscription) × (lookup u s.subscriptions ≡ some row) × P row

at_least_one_pos : (d : ℕ) → 0 < at_least_one d
at_least_one_pos d = ground arith

-- A row whose limit has just been computed.
recomputed-IsBudgeted :
    (sub : Subscription) (b : ℕ)
    → sub.current_balance ≡ pos b
    → sub.daily_avg_limit ≡ pos (b / at_least_one sub.days_left)
    → IsBudgeted sub
recomputed-IsBudgeted sub b e l =
    let (low, high) = quotient b (at_least_one sub.days_left) (at_least_one_pos sub.days_left) in
    (b, b / at_least_one sub.days_left, e, l, low, high)

limit_over_quotient : (b d : ℕ) → limit_over (pos b) d ≡ pos (b / at_least_one d)
unfolding floor_div
limit_over_quotient b d = ground arith

floor_div_pos : (b d : ℕ) → floor_div (pos b) d ≡ pos (b / d)
unfolding floor_div
floor_div_pos b d = refl

-- The rows that `tick` and `redistribute` leave.
abbrev pub ticked : Subscription → Subscription
ticked sub = record sub {
  days_left = sub.days_left - 1;
  daily_avg_limit = limit_over sub.current_balance (sub.days_left - 1);
}

abbrev pub rolled_over : Subscription → Subscription
rolled_over sub = record sub {
  daily_avg_limit = floor_div sub.current_balance (at_least_one sub.days_left);
}

module _ (up : Bool) (u : String) (s : Escrow) where
  deposit_row :
      (a : ℤ)
      → pos 0 <ℤ a
      → lookup u (deposit up u a s).1.subscriptions
        ≡ some (fresh_cycle a (lookup u s.subscriptions))
  unfolding deposit
  deposit_row a p = grind (arith, lookup-insert_self)

  pub tick_row :
      (sub : Subscription)
      → lookup u s.subscriptions ≡ some sub
      → 0 < sub.days_left
      → Leaves u (tick up u) s (ticked sub)
  unfolding tick
  tick_row sub e p = grind (arith, lookup-insert_self)

  redistribute_row :
      (sub : Subscription)
      → lookup u s.subscriptions ≡ some sub
      → Leaves u (redistribute up u) s (rolled_over sub)
  unfolding redistribute
  redistribute_row sub e = grind (arith, lookup-insert_self)

  fresh_cycle-IsBudgeted :
      (a : ℕ) (old : Option Subscription) → IsBudgeted (fresh_cycle (pos a) old)
  fresh_cycle-IsBudgeted a none =
      recomputed-IsBudgeted (fresh_cycle (pos a) none) a refl (floor_div_pos a cycle_days)
  fresh_cycle-IsBudgeted a (some sub) =
      recomputed-IsBudgeted (fresh_cycle (pos a) (some sub)) a refl (floor_div_pos a cycle_days)

  -- A deposit of a positive amount, and on a row with days left and a balance that is not negative a
  -- tick and a rollover, each leave a row whose daily limit is the whole quotient of its balance by
  -- its days left.
  limits-IsBudgeted :
      (a b : ℕ) (sub : Subscription)
      → 0 < a
      → lookup u s.subscriptions ≡ some sub
      → sub.current_balance ≡ pos b
      → 0 < sub.days_left
      → RowIs IsBudgeted u (deposit up u (pos a) s).1
        × RowIs IsBudgeted u (tick up u s).1
        × RowIs IsBudgeted u (redistribute up u s).1
  limits-IsBudgeted a b sub pa e eb pd = (
    (_, deposit_row (pos a) (omega arith), fresh_cycle-IsBudgeted a (lookup u s.subscriptions)),
    (
      _,
      (tick_row sub e pd).1,
      recomputed-IsBudgeted (ticked sub) b eb (rw eb (limit_over_quotient b _)),
    ),
    (
      _,
      (redistribute_row sub e).1,
      recomputed-IsBudgeted (rolled_over sub) b eb (rw eb (floor_div_pos b _)),
    ),
  )

-- The same user's tick, `k` times.
unfoldable pub ticks : Bool → String → ℕ → Escrow → Escrow
ticks up u zero s = s
ticks up u (suc k) s = ticks up u k (tick up u s).1
