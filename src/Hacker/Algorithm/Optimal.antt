-- ===== src/Hacker/Algorithm/Optimal.antt =====
-- `optimize` of hacker.algorithm.ts as a whole, against the coupons and contenders of its input.
pub mod Run
use gusto_backend.Common.{
  ℕ, ◌≤◌, String, true, false, Option, none, some, List, [], ◌∷◌, map, ◌≡◌, refl, sym, ap, ◌∙◌,
  subst, ◌⊎◌, inl, inr, ◌↔◌, arith, All, Any, Bool-cases, Option-cases,
}
use gusto_backend.Common.Int.{ℤ, pos, ◌≤ℤ◌, ◌<ℤ◌, ◌-ℤ◌, ltb_ℤ, sub_ℕ, sub_ℕ_parts}
use gusto_backend.Common.Http.{ok}
use gusto_backend.Hacker.Types.{
  Coupon, LogEntry, accepted, Contender, OptimizationInput, OptimizationResult,
}
use gusto_backend.Hacker.Algorithm.{
  Outcome, is_trivial, search_coupons, baseline_items, base_total_of, select_winner, build_result,
  baseline, step_of, optimize, discount,
}
use gusto_backend.Hacker.Algorithm.Winner.{
  NoDearer, select_winner_least, select_winner-some, gather, run_coupons_lem,
}
use gusto_backend.Hacker.Algorithm.Coupons.{
  IsBounded, discount-le, IsEarned, step_of-IsEarned, IsLogged, step_of-IsLogged,
}
use gusto_backend.Hacker.Algorithm.Optimal.Run.{
  Earns, gather-Earns, gather-All, log_codes, log_least,
}

module _ (parse_date : String → Option ℕ) (locale_compare : String → String → ℤ)
    (input : OptimizationInput) where
  abbrev base : ℕ
  base = base_total_of input.cart_items

  -- The contenders that the winner is chosen from.
  abbrev contenders : List Contender
  contenders = baseline input.cart_items ∷ gather (step_of parse_date input) input.coupons

  abbrev log : List LogEntry
  log = map (λ c. (step_of parse_date input c).entry) input.coupons

  optimize_trivial :
      is_trivial input ≡ true
      → optimize parse_date locale_compare input
        ≡ build_result (baseline input.cart_items) base input.remaining_daily_budget []
  unfolding optimize
  optimize_trivial t = rw (t, optimize)

  pub optimize_searched :
      (w : Contender)
      → is_trivial input ≡ false
      → select_winner locale_compare contenders ≡ some w
      → optimize parse_date locale_compare input
        ≡ build_result w base input.remaining_daily_budget log
  unfolding optimize
  optimize_searched w t e =
      rw (t, optimize)
        (rw
          (
            run_coupons_lem (step_of parse_date input) input.coupons []
                (baseline input.cart_items ∷ []),
            search_coupons,
          )
          (rw e))

  -- The winner of a search: the cart as it is, or what some coupon earned.
  abbrev FromCoupon : Contender → Type 0
  FromCoupon w =
      Earns (step_of parse_date input) (λ c o x. IsEarned c base input.remaining_daily_budget o x)
        input.coupons w

  winner_origin :
      (w : Contender)
      → select_winner locale_compare contenders ≡ some w
      → (w ≡ baseline input.cart_items) ⊎ FromCoupon w
  winner_origin w e = elim (select_winner_least locale_compare contenders w e).1 [
    | inl same ↦ inl (sym same)
    | inr there ↦ inr (
        gather-Earns (step_of parse_date input)
          (λ c o x. IsEarned c base input.remaining_daily_budget o x) input.coupons w
          (λ c f. step_of-IsEarned parse_date input c w f) there)
  ]

  -- What a result says, for a coupon applied or none.
  pub record IsSound (r : OptimizationResult) : Type 0 where
    pub nonnegative : pos 0 ≤ℤ r.final_total
    pub no_worse : r.final_total ≤ℤ pos base
    pub base_kept : r.base_total ≡ base
    pub saved : r.savings_achieved ≡ pos base -ℤ r.final_total
    pub flagged : (r.over_budget ≡ true) ↔ (pos input.remaining_daily_budget <ℤ r.final_total)
    pub unapplied :
        r.applied_coupon_code ≡ none
        → (r.final_total ≡ pos base) × (r.final_items ≡ baseline_items input.cart_items)
    pub applied :
        (code : String)
        → r.applied_coupon_code ≡ some code
        → (r.final_total <ℤ pos base)
          × (r.final_total ≤ℤ pos input.remaining_daily_budget)
          × Any
              (λ c.
                (c.code ≡ code)
                × ((amount : ℕ) × (c.min_order_value ≤ amount)
                    × (r.final_total ≡ sub_ℕ amount (discount amount c))))
              input.coupons

  build_result-IsSound-baseline :
      (lines : List LogEntry) (r : OptimizationResult)
      → build_result (baseline input.cart_items) base input.remaining_daily_budget lines ≡ ok r
      → IsSound r
  unfolding build_result
  build_result-IsSound-baseline lines r e = record {
    nonnegative = ground arith;
    no_worse = ground arith;
    base_kept = ground arith;
    saved = ground arith;
    flagged = (λ h. ground arith, λ h. ground arith);
    unapplied = λ h. (ground arith, ground arith);
    applied = λ code h. absurd (ground arith);
  }

  -- A coupon of the list that the winner comes from, in the words of `IsSound`.
  applied_of :
      (w : Contender) (code : String) (cs : List Coupon)
      → w.coupon_code ≡ some code
      → Earns
          (step_of parse_date input)
          (λ c o x. IsEarned c base input.remaining_daily_budget o x)
          cs
          w
      → Any
          (λ c.
            (c.code ≡ code)
            × ((amount : ℕ) × (c.min_order_value ≤ amount)
                × (w.total ≡ sub_ℕ amount (discount amount c))))
          cs
  applied_of w code [] e there = absurd there
  applied_of w code (c ∷ cs) e
        (inl (f, (amount, reached, priced, below, within, named, logged, shown))) =
      inl (ground arith, (amount, reached, priced))
  applied_of w code (c ∷ cs) e (inr rest) = inr (applied_of w code cs e rest)

  earned_bounds :
      (w : Contender) (cs : List Coupon)
      → Earns
          (step_of parse_date input)
          (λ c o x. IsEarned c base input.remaining_daily_budget o x)
          cs
          w
      → (w.total <ℤ pos base)
        × (w.total ≤ℤ pos input.remaining_daily_budget)
        × ((code : String) × (w.coupon_code ≡ some code))
  earned_bounds w [] there = absurd there
  earned_bounds w (c ∷ cs)
        (inl (f, (amount, reached, priced, below, within, named, logged, shown))) =
      (below, within, (c.code, named))
  earned_bounds w (c ∷ cs) (inr rest) = earned_bounds w cs rest

  build_result-IsSound_coupon :
      (w : Contender) (lines : List LogEntry) (r : OptimizationResult)
      → FromCoupon w
      → build_result w base input.remaining_daily_budget lines ≡ ok r
      → IsSound r
  unfolding build_result
  build_result-IsSound_coupon w lines r from e =
      let (below, within, (code, named)) = earned_bounds w input.coupons from in
      let same : (w.total ≡ r.final_total) × (w.coupon_code ≡ r.applied_coupon_code) =
        (ground arith, ground arith) in
      record {
        nonnegative = ground arith;
        no_worse = ground arith;
        base_kept = ground arith;
        saved = ground arith;
        flagged = (λ h. ground arith, λ h. ground arith);
        unapplied = λ h. absurd (ground arith);
        applied = λ other h. (
          ground arith,
          ground arith,
          subst
              (λ t.
                Any
                  (λ c.
                    (c.code ≡ other)
                    × ((amount : ℕ) × (c.min_order_value ≤ amount)
                        × (t ≡ sub_ℕ amount (discount amount c))))
                  input.coupons)
              same.0 (applied_of w other input.coupons (same.1 ∙ h) from),
        );
      }

  -- A result of `optimize` is at least 0 and at most the base total, with the difference as its
  -- savings, and is flagged exactly when it is over the budget. With no coupon applied it is the cart
  -- as it is at its own price. With one, that coupon is in the input, its threshold is reached by the
  -- amount that it discounts, and the total is below the base total and within the budget.
  pub optimize-IsSound :
      (r : OptimizationResult) → optimize parse_date locale_compare input ≡ ok r → IsSound r
  unfolding optimize
  optimize-IsSound r e = elim (Bool-cases (is_trivial input)) [
    | inl t ↦ build_result-IsSound-baseline [] r (rw (t, optimize) at e)
    | inr t ↦
        let (w, chosen) =
          select_winner-some locale_compare (baseline input.cart_items)
            (gather (step_of parse_date input) input.coupons) in
        let built : build_result w base input.remaining_daily_budget log ≡ ok r =
          sym (optimize_searched w t chosen) ∙ e in
        elim (winner_origin w chosen) [
          | inl same ↦
              build_result-IsSound-baseline log r (
                subst (λ x. build_result x base input.remaining_daily_budget log ≡ ok r) same built)
          | inr from ↦ build_result-IsSound_coupon w log r from built
        ]
  ]

  earned_nonneg :
      (w : Contender) (cs : List Coupon)
      → All IsBounded cs
      → Earns
          (step_of parse_date input)
          (λ c o x. IsEarned c base input.remaining_daily_budget o x)
          cs
          w
      → pos 0 ≤ℤ w.total
  earned_nonneg w [] bounded there = absurd there
  earned_nonneg w (c ∷ cs) bounded
        (inl (f, (amount, reached, priced, below, within, named, logged, shown))) =
      let d = discount-le amount c bounded.0 in
      rw priced (omega (arith, sub_ℕ_parts amount (discount amount c)))
  earned_nonneg w (c ∷ cs) bounded (inr rest) = earned_nonneg w cs bounded.1 rest

  winner_nonneg :
      All IsBounded input.coupons
      → (w : Contender) → select_winner locale_compare contenders ≡ some w
      → pos 0 ≤ℤ w.total
  winner_nonneg bounded w chosen = elim (winner_origin w chosen) [
    | inl same ↦ rw same (omega arith)
    | inr from ↦ earned_nonneg w input.coupons bounded from
  ]

  build_result_ok :
      (w : Contender) (lines : List LogEntry)
      → pos 0 ≤ℤ w.total
      → (r : OptimizationResult) × (build_result w base input.remaining_daily_budget lines ≡ ok r)
  unfolding build_result
  build_result_ok w lines h = (built, ground arith)
    where
      built : OptimizationResult
      built = record {
        final_items = w.items;
        applied_coupon_code = w.coupon_code;
        base_total = base;
        final_total = w.total;
        savings_achieved = pos base -ℤ w.total;
        over_budget = ltb_ℤ (pos input.remaining_daily_budget) w.total;
        decision_log = lines;
      }

  build_result_fields :
      (w : Contender) (lines : List LogEntry) (r : OptimizationResult)
      → build_result w base input.remaining_daily_budget lines ≡ ok r
      → (r.final_total ≡ w.total) × (r.decision_log ≡ lines)
  unfolding build_result
  build_result_fields w lines r e = (ground arith, ground arith)

  -- If every percentage coupon is of at most 100 per cent, `optimize` returns a result.
  pub optimize_total :
      All IsBounded input.coupons
      → (r : OptimizationResult) × (optimize parse_date locale_compare input ≡ ok r)
  optimize_total bounded = elim (Bool-cases (is_trivial input)) [
    | inl t ↦
        let (r, built) = build_result_ok (baseline input.cart_items) [] (omega arith) in
        (r, optimize_trivial t ∙ built)
    | inr t ↦
        let (w, chosen) =
          select_winner-some locale_compare (baseline input.cart_items)
            (gather (step_of parse_date input) input.coupons) in
        let (r, built) = build_result_ok w log (winner_nonneg bounded w chosen) in
        (r, optimize_searched w t chosen ∙ built)
  ]

  -- For a cart that costs something the decision log has one entry for each coupon, in order, and
  -- no accepted entry shows a lower total than the result.
  pub optimize_optimal :
      (r : OptimizationResult)
      → is_trivial input ≡ false
      → optimize parse_date locale_compare input ≡ ok r
      → (map (λ l. l.coupon_code) r.decision_log ≡ map (λ c. c.code) input.coupons)
        × All
            (λ l.
              l.reason ≡ accepted → (t : ℤ) × (l.computed_total ≡ some t) × (r.final_total ≤ℤ t))
            r.decision_log
  optimize_optimal r t e =
      let (w, chosen) =
        select_winner-some locale_compare (baseline input.cart_items)
          (gather (step_of parse_date input) input.coupons) in
      let (total, lines) = build_result_fields w log r (sym (optimize_searched w t chosen) ∙ e) in
      rw (lines, total)
        (
          log_codes (step_of parse_date input) (step_of-IsLogged parse_date input) input.coupons,
          log_least (step_of parse_date input) (step_of-IsLogged parse_date input) w.total
              input.coupons
              (gather-All (step_of parse_date input) (NoDearer w) input.coupons
                (select_winner_least locale_compare contenders w chosen).0.1),
        )
