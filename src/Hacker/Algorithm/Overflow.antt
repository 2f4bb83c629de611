-- ===== src/Hacker/Algorithm/Overflow.antt =====
-- `optimize` of hacker.algorithm.ts on a percentage coupon whose discount exceeds the amount.
use gusto_backend.Common.{
  ℕ, ◌*◌, ◌/◌, ◌≤◌, ◌<◌, String, false, Option, none, some, List, [], ◌∷◌, ◌≡◌, ◌∙◌, inl, inr,
  arith, All, Any,
}
use gusto_backend.Common.Int.{ℤ, pos, ◌≤ℤ◌, ◌<ℤ◌, sub_ℕ, sub_ℕ_parts}
use gusto_backend.Common.Http.{err, internal}
use gusto_backend.Hacker.Types.{Coupon, percentage, LogEntry, Contender, OptimizationInput}
use gusto_backend.Hacker.Filler.{prepare_filler_candidates}
use gusto_backend.Hacker.Algorithm.{
  discount, optimize_single_coupon, check_eligibility, consider, is_trivial, optimize, build_result,
  base_total_of, baseline, affordable_of, baseline_items, step_of,
}
use gusto_backend.Hacker.Algorithm.Winner.{
  NoDearer, gather, select_winner_least, select_winner-some,
}
use gusto_backend.Hacker.Algorithm.Optimal.{optimize_searched}
use gusto_backend.Hacker.Algorithm.Optimal.Run.{gather-All}

-- An uncapped percentage coupon whose discount is more than the base total that it is taken from.
abbrev pub Overshoots : ℕ → Coupon → Type 0
Overshoots base coupon =
    (coupon.discount_type ≡ percentage)
    × (coupon.max_discount ≡ none)
    × (coupon.min_order_value ≤ base)
    × (base < base * coupon.discount_value / 100)

module _ (parse_date : String → Option ℕ) (input : OptimizationInput) where
  abbrev base : ℕ
  base = base_total_of input.cart_items

  -- What the coupon would make of the cart.
  abbrev reduced : Coupon → Contender
  reduced coupon = record {
    coupon_code = some coupon.code;
    items = baseline_items input.cart_items;
    total = sub_ℕ base (discount base coupon);
    fillers_added = [];
  }

  overshoot-discount : (coupon : Coupon) → Overshoots base coupon → base < discount base coupon
  unfolding discount
  overshoot-discount coupon (kind, uncapped, reached, over) = ground arith

  overshoot-contender :
      (coupon : Coupon)
      → Overshoots base coupon
      → check_eligibility parse_date coupon base input.now (affordable_of input) ≡ none
      → (step_of parse_date input coupon).contender ≡ some (reduced coupon)
  unfolding consider
  overshoot-contender coupon o eligible = rw (eligible, consider) (single coupon o)
    where
      single :
          (coupon : Coupon)
          → Overshoots base coupon
          → (optimize_single_coupon coupon
              (baseline_items input.cart_items)
              base
              (prepare_filler_candidates input.filler_candidates (affordable_of input))
              input.remaining_daily_budget).contender
            ≡ some (reduced coupon)
      single coupon o =
          let over : base < discount base coupon = overshoot-discount coupon o in
          ground (arith, over, o.2)

  overshoot_negative : (coupon : Coupon) → Overshoots base coupon → (reduced coupon).total <ℤ pos 0
  overshoot_negative coupon o =
      omega (arith, overshoot-discount coupon o, sub_ℕ_parts base (discount base coupon))

  negative_of_any :
      (t : ℤ) (cs : List Coupon)
      → Any
          (λ c.
            Overshoots base c
            × (check_eligibility parse_date c base input.now (affordable_of input) ≡ none))
          cs
      → All
          (λ c. (x : Contender) → (step_of parse_date input c).contender ≡ some x → t ≤ℤ x.total)
          cs
      → t <ℤ pos 0
  negative_of_any t [] there least = absurd there
  negative_of_any t (c ∷ cs) (inl (o, eligible)) least =
      let below = least.0 (reduced c) (overshoot-contender c o eligible) in
      let negative = overshoot_negative c o in omega arith
  negative_of_any t (c ∷ cs) (inr rest) least = negative_of_any t cs rest least.1

  build_result_negative :
      (w : Contender) (log : List LogEntry)
      → w.total <ℤ pos 0
      → build_result w base input.remaining_daily_budget log ≡ err internal
  unfolding build_result
  build_result_negative w log h = ground arith

  -- One eligible, uncapped percentage coupon among the input's, whose discount of the base total
  -- exceeds it, makes `optimize` throw for a cart that costs something, whatever the other coupons
  -- offer.
  pub overshoot_aborts :
      (locale_compare : String → String → ℤ)
      → is_trivial input ≡ false
      → Any
          (λ c.
            Overshoots base c
            × (check_eligibility parse_date c base input.now (affordable_of input) ≡ none))
          input.coupons
      → optimize parse_date locale_compare input ≡ err internal
  overshoot_aborts locale_compare t there =
      let (w, chosen) =
        select_winner-some locale_compare (baseline input.cart_items)
          (gather (step_of parse_date input) input.coupons) in
      let least =
        gather-All (step_of parse_date input) (NoDearer w) input.coupons
          (select_winner_least locale_compare _ w chosen).0.1 in
      optimize_searched parse_date locale_compare input w t chosen
      ∙ build_result_negative w _ (negative_of_any w.total input.coupons there least)
