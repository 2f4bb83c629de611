-- ===== src/Examples/Carts.antt =====
-- The theorems on coupon-optimization-service at a cart of one dish of 15000 paise.
use gusto_backend.Common.{
  ℕ, zero, suc, if◌then◌else◌, ◌==◌, String, true, false, Option, none, some, List, [], ◌∷◌, map,
  ◌≡◌, refl, arith, ◌≤◌, ◌<◌, ◌+◌, ◌*◌, ◌/◌, ◌⊎◌, inl, inr, All, length,
}
use gusto_backend.Common.Int.{ℤ, pos, ◌≤ℤ◌, ◌+ℤ◌, ◌-ℤ◌}
use gusto_backend.Common.Http.{ok, err, internal}
use gusto_backend.Hacker.Types.{
  Coupon, flat, percentage, online, FillerCandidate, OptimizationInput, OptimizationResult,
  accepted,
}
use gusto_backend.Hacker.Filler.{prepare_filler_candidates, best_filler_combo}
use gusto_backend.Hacker.Filler.Best.{IsBestCombo}
use gusto_backend.Hacker.Filler.Prepared.{filler_search_optimal}
use gusto_backend.Hacker.Algorithm.{
  optimize, is_trivial, sum_items, base_total_of, check_eligibility, affordable_of,
}
use gusto_backend.Hacker.Algorithm.Coupons.{IsBounded}
use gusto_backend.Hacker.Algorithm.Optimal.{
  IsSound, optimize-IsSound, optimize_total, optimize_optimal,
}
use gusto_backend.Hacker.Algorithm.Overflow.{overshoot_aborts}
use gusto_backend.Hacker.Mapping.{RawMenu, RawMenuItem, map_menu_response_to_filler_candidates}
use gusto_backend.Hacker.Service.{Reply, failed, success, fetch_filler_candidates}
use gusto_backend.Hacker.Service.Laws.{
  page_items, pages_from, WentOn, fetch_filler_candidates_pages,
}

-- A date parser that knows no date, and a collation that puts all texts alike.
abbrev no_date : String → Option ℕ
no_date text = none

abbrev alike : String → String → ℤ
alike a b = pos 0

abbrev filler : String → ℕ → FillerCandidate
filler id price = record { item_id = id; price = price; category = some "side"; in_stock = true }

abbrev fillers : List FillerCandidate
fillers = filler "raita" 4000 ∷ filler "naan" 3000 ∷ filler "chai" 2000 ∷ []

abbrev flat_coupon : Coupon
flat_coupon = record {
  code = "FLAT60";
  discount_type = flat;
  discount_value = 6000;
  max_discount = none;
  min_order_value = 20000;
  payment_modes = online ∷ [];
  is_applicable = none;
  expires_at = none;
}

abbrev input : OptimizationInput
input = record {
  cart_items = record { item_id = "thali"; price = 15000; quantity = 1 } ∷ [];
  coupons = flat_coupon ∷ [];
  filler_candidates = fillers;
  remaining_daily_budget = 25000;
  now = 0;
}

filler_search_optimal_example :
    IsBestCombo 5000
      (prepare_filler_candidates fillers (pos 10000))
      (best_filler_combo 5000 (prepare_filler_candidates fillers (pos 10000)))
filler_search_optimal_example = filler_search_optimal fillers (pos 10000) 5000

bounded : All IsBounded input.coupons
bounded = (ground arith, tt)

optimize_total_example : (r : OptimizationResult) × (optimize no_date alike input ≡ ok r)
optimize_total_example = optimize_total no_date alike input bounded

-- The dish with the two cheapest fillers that reach the threshold.
abbrev result : OptimizationResult
result = record {
  final_items =
      record { item_id = "thali"; quantity = 1 }
      ∷ record { item_id = "chai"; quantity = 1 }
      ∷ record { item_id = "naan"; quantity = 1 }
      ∷ [];
  applied_coupon_code = some "FLAT60";
  base_total = 15000;
  final_total = pos 14000;
  savings_achieved = pos 1000;
  over_budget = false;
  decision_log =
      record { coupon_code = "FLAT60"; reason = accepted; computed_total = some (pos 14000) } ∷ [];
}

ran : optimize no_date alike input ≡ ok result
unfolding optimize ◌+ℤ◌ ◌-ℤ◌
ran = refl

untrivial : is_trivial input ≡ false
unfolding sum_items
untrivial = refl

optimize-IsSound_example : IsSound no_date alike input result
optimize-IsSound_example = optimize-IsSound no_date alike input result ran

optimize_optimal_example :
    (map (λ l. l.coupon_code) result.decision_log ≡ "FLAT60" ∷ [])
    × All
        (λ l.
          l.reason ≡ accepted → (t : ℤ) × (l.computed_total ≡ some t) × (result.final_total ≤ℤ t))
        result.decision_log
optimize_optimal_example = optimize_optimal no_date alike input result untrivial ran

abbrev huge_coupon : Coupon
huge_coupon = record flat_coupon {
  code = "HUGE";
  discount_type = percentage;
  discount_value = 150;
  min_order_value = 0;
}

abbrev huge_input : OptimizationInput
huge_input = record input { coupons = flat_coupon ∷ huge_coupon ∷ [] }

huge : base_total_of huge_input.cart_items < base_total_of huge_input.cart_items * 150 / 100
unfolding sum_items
huge = omega arith

eligible :
    check_eligibility no_date huge_coupon
      (base_total_of huge_input.cart_items)
      0
      (affordable_of huge_input)
    ≡ none
unfolding check_eligibility sum_items ◌+ℤ◌
eligible = refl

overshoot_aborts_example : optimize no_date alike huge_input ≡ err internal
overshoot_aborts_example =
    overshoot_aborts no_date huge_input alike untrivial
      (inr (inl ((refl, refl, omega arith, huge), eligible)))

-- A menu of `n` dishes a page, whose second page fails.
abbrev dishes : ℕ → List RawMenuItem
dishes zero = []
dishes (suc n) =
    record { id = some "idli"; price = some 4000; category = some none; in_stock = some true }
    ∷ dishes n

abbrev menu : ℕ → ℕ → Reply (Option RawMenu)
menu n page =
    if page == 2
    then failed
    else success (some (record { items = some (dishes n); categories = none }))

fetch_filler_candidates_pages_example :
    (k : ℕ) × (k ≤ 6)
    × (fetch_filler_candidates (menu 2) ≡ pages_from (menu 2) k 1)
    × ((k ≡ 6)
        ⊎ ((60 ≤ length (fetch_filler_candidates (menu 2))) ⊎ (page_items (menu 2 (1 + k)) ≡ [])))
    × WentOn (menu 2) [] k 1
fetch_filler_candidates_pages_example = fetch_filler_candidates_pages (menu 2)

-- Two dishes, and no more behind the page that fails; sixty, and no second page.
two_fetched : length (fetch_filler_candidates (menu 2)) ≡ 2
unfolding fetch_filler_candidates map_menu_response_to_filler_candidates
two_fetched = refl

sixty_fetched :
    length (
      fetch_filler_candidates
        λ page. success (some (record { items = some (dishes 60); categories = none })))
    ≡ 60
unfolding fetch_filler_candidates map_menu_response_to_filler_candidates
sixty_fetched = refl
