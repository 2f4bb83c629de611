-- ===== src/Hacker/Algorithm/Coupons.antt =====
-- What one coupon can come to: `discount`, `optimizeSingleCoupon` and the loop's body.
use gusto_backend.Common.{
  ℕ, ◌+◌, ◌-◌, ◌*◌, ◌/◌, ◌≤◌, String, Option, none, some, List, [], ◌++◌, ◌≡◌, refl, ap, ◌∙◌, inl,
  inr, arith, Bool-cases, Option-cases, ltb, sym, subst, ◌≢◌,
}
use gusto_backend.Common.Int.{ℤ, pos, ◌≤ℤ◌, ◌<ℤ◌, sub_ℕ}
use gusto_backend.Hacker.Types.{
  Coupon, percentage, FillerCandidate, Line, Reason, accepted, Contender, Combo, OptimizationInput,
}
use gusto_backend.Hacker.Filler.{prepare_filler_candidates, best_filler_combo}
use gusto_backend.Hacker.Filler.Best.{IsBestCombo}
use gusto_backend.Hacker.Filler.Prepared.{filler_search_optimal}
use gusto_backend.Hacker.Algorithm.{
  Outcome, discount, price_coupon, optimize_single_coupon, check_eligibility, consider,
  single_lines, step_of, baseline_items, base_total_of, affordable_of,
}

-- The bound that the contract's comment states for percentage coupons and no schema checks.
abbrev pub IsBounded : Coupon → Type 0
IsBounded coupon = coupon.discount_type ≡ percentage → coupon.discount_value ≤ 100

quotient-le : (a v : ℕ) → v ≤ 100 → a * v / 100 ≤ a
quotient-le a v h = grind arith

-- A discount of a flat coupon, or of at most 100 per cent, is no more than the amount.
pub discount-le :
    (amount : ℕ) (coupon : Coupon) → IsBounded coupon → discount amount coupon ≤ amount
unfolding discount
discount-le amount coupon b = ground (arith, quotient-le amount coupon.discount_value)

-- What a contender owes to its coupon: the amount reaches the threshold, the total is that amount
-- less the discount, below the base total and within the budget; and it is logged.
abbrev pub IsEarned : Coupon → (base budget : ℕ) → Outcome → Contender → Type 0
IsEarned coupon base budget o c =
    (amount : ℕ) × (coupon.min_order_value ≤ amount)
    × (c.total ≡ sub_ℕ amount (discount amount coupon))
    × (c.total <ℤ pos base)
    × (c.total ≤ℤ pos budget)
    × (c.coupon_code ≡ some coupon.code)
    × (o.entry.reason ≡ accepted)
    × (o.entry.computed_total ≡ some c.total)

price_coupon-IsEarned :
    (coupon : Coupon) (base : ℕ) (items : List Line) (fillers : List String) (amount budget : ℕ)
    (c : Contender)
    → coupon.min_order_value ≤ amount
    → (price_coupon coupon base items fillers amount budget).contender ≡ some c
    → IsEarned coupon base budget (price_coupon coupon base items fillers amount budget) c
unfolding price_coupon
price_coupon-IsEarned coupon base items fillers amount budget c m e =
    (amount, m, ground arith, ground arith, ground arith, ground arith, ground arith, ground arith)

-- A combination that the search returns crosses the gap.
IsBestCombo-crosses :
    (gap : ℕ) (cs : List FillerCandidate) (combo : Combo)
    → IsBestCombo gap cs (some combo)
    → gap ≤ combo.total_price
IsBestCombo-crosses gap cs combo (inl (f, there, same, crosses, least)) = ground arith
IsBestCombo-crosses gap cs combo (inr (no_one, (a, b, ab, bl, crosses, same), least)) = ground arith

module _ (coupon : Coupon) (items : List Line) (base budget : ℕ) (affordable : ℤ)
    (fillers : List FillerCandidate) (c : Contender) where
  abbrev prepared : List FillerCandidate
  prepared = prepare_filler_candidates fillers affordable

  optimize_single_coupon-IsEarned :
      (optimize_single_coupon coupon items base prepared budget).contender ≡ some c
      → IsEarned coupon base budget (optimize_single_coupon coupon items base prepared budget) c
  unfolding optimize_single_coupon
  optimize_single_coupon-IsEarned e = elim (Bool-cases (ltb base coupon.min_order_value)) [
    | inr reached ↦
        rw (reached, optimize_single_coupon)
          (price_coupon-IsEarned coupon base items [] base budget c (ground arith)
            (rw (reached, optimize_single_coupon) at e))
    | inl short ↦ elim (Option-cases (best_filler_combo (coupon.min_order_value - base) prepared)) [
      | inl absent ↦ ground arith
      | inr (combo, found) ↦
          let same : optimize_single_coupon coupon items base prepared budget
              ≡ price_coupon coupon base (items ++ single_lines combo.item_ids) combo.item_ids
                  (base + combo.total_price) budget =
            rw (short, optimize_single_coupon) (rw (found, optimize_single_coupon)) in
          let crosses : coupon.min_order_value - base ≤ combo.total_price =
            IsBestCombo-crosses (coupon.min_order_value - base) prepared combo (
              subst (IsBestCombo (coupon.min_order_value - base) prepared) found
                (filler_search_optimal fillers affordable (coupon.min_order_value - base))) in
          subst (λ o. IsEarned coupon base budget o c) (sym same)
            (price_coupon-IsEarned coupon base (items ++ single_lines combo.item_ids) combo.item_ids
              (base + combo.total_price) budget c (omega arith)
              (subst (λ (o : Outcome). o.contender ≡ some c) same e))
    ]
  ]

module _ (parse_date : String → Option ℕ) (input : OptimizationInput) (coupon : Coupon) where
  abbrev outcome : Outcome
  outcome = step_of parse_date input coupon

  -- A contender of the loop's body is earned.
  pub step_of-IsEarned :
      (c : Contender)
      → outcome.contender ≡ some c
      → IsEarned coupon (base_total_of input.cart_items) input.remaining_daily_budget outcome c
  unfolding consider
  step_of-IsEarned c e = elim (Option-cases eligibility) [
    | inr (reason, refused) ↦ absurd (rejected_empty reason refused)
    | inl eligible ↦
        rw (eligible, consider)
          (optimize_single_coupon-IsEarned coupon (baseline_items input.cart_items)
            (base_total_of input.cart_items) input.remaining_daily_budget (affordable_of input)
            input.filler_candidates c (rw (eligible, consider) at e))
  ]
    where
      eligibility : Option Reason
      eligibility =
          check_eligibility parse_date coupon (base_total_of input.cart_items) input.now
            (affordable_of input)

      rejected_empty : (reason : Reason) → eligibility ≡ some reason → ⊥
      rejected_empty reason refused =
          let none_is : none ≡ some c = rw (refused, consider) at e in cc

-- The log entry of an outcome: it names the coupon, and is accepted exactly with a contender, whose
-- total it shows.
abbrev pub IsLogged : Coupon → Outcome → Type 0
IsLogged coupon o =
    (o.entry.coupon_code ≡ coupon.code)
    × (o.entry.reason ≡ accepted
        → (c : Contender) × (o.contender ≡ some c) × (o.entry.computed_total ≡ some c.total))

price_coupon-IsLogged :
    (coupon : Coupon) (base : ℕ) (items : List Line) (fillers : List String) (amount budget : ℕ)
    → IsLogged coupon (price_coupon coupon base items fillers amount budget)
unfolding price_coupon
price_coupon-IsLogged coupon base items fillers amount budget =
    (ground arith, λ h. (sold, ground arith, ground arith))
  where
    sold : Contender
    sold = record {
      coupon_code = some coupon.code;
      items = items;
      total = sub_ℕ amount (discount amount coupon);
      fillers_added = fillers;
    }

optimize_single_coupon-IsLogged :
    (coupon : Coupon) (items : List Line) (base : ℕ) (cs : List FillerCandidate) (budget : ℕ)
    → IsLogged coupon (optimize_single_coupon coupon items base cs budget)
unfolding optimize_single_coupon
optimize_single_coupon-IsLogged coupon items base cs budget =
    elim (Bool-cases (ltb base coupon.min_order_value)) [
      | inr reached ↦
          rw (reached, optimize_single_coupon)
            (price_coupon-IsLogged coupon base items [] base budget)
      | inl short ↦ elim (Option-cases (best_filler_combo (coupon.min_order_value - base) cs)) [
        | inl absent ↦
            rw (short, optimize_single_coupon)
              (rw (absent, optimize_single_coupon) (refl, λ h. absurd (cc)))
        | inr (combo, found) ↦
            rw (short, optimize_single_coupon)
              (rw (found, optimize_single_coupon)
                (price_coupon-IsLogged coupon base (items ++ single_lines combo.item_ids)
                  combo.item_ids (base + combo.total_price) budget))
      ]
    ]

check_eligibility-ne-accepted :
    (parse_date : String → Option ℕ) (coupon : Coupon) (base now : ℕ) (affordable : ℤ)
    → check_eligibility parse_date coupon base now affordable ≢ some accepted
unfolding check_eligibility
check_eligibility-ne-accepted parse_date coupon base now affordable h = ground arith

pub step_of-IsLogged :
    (parse_date : String → Option ℕ) (input : OptimizationInput) (coupon : Coupon)
    → IsLogged coupon (step_of parse_date input coupon)
unfolding consider
step_of-IsLogged parse_date input coupon =
    elim (Option-cases (
      check_eligibility parse_date coupon (base_total_of input.cart_items) input.now
        (affordable_of input))) [
          | inl eligible ↦
              rw (eligible, consider)
                (optimize_single_coupon-IsLogged coupon (baseline_items input.cart_items)
                  (base_total_of input.cart_items)
                  (prepare_filler_candidates input.filler_candidates (affordable_of input))
                  input.remaining_daily_budget)
          | inr (reason, refused) ↦
              rw (refused, consider)
                (
                  refl,
                  λ h. absurd (
                      check_eligibility-ne-accepted parse_date coupon
                        (base_total_of input.cart_items) input.now (affordable_of input)
                        (refused ∙ ap some h)),
                )
        ]
