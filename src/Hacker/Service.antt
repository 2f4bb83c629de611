-- ===== src/Hacker/Service.antt =====
-- `HackerService` of hacker.service.ts. The gateway's answers are inputs: a reply to a tool call
-- throws, is a domain failure (`success: false`), or carries data.
pub mod Laws
use gusto_backend.Common.{
  ℕ, zero, suc, ◌+◌, ◌*◌, String, Bool, true, false, not, Option, none, some, List, [], ◌∷◌, ◌++◌,
  keep, leb, str_eq, if◌then◌else◌, length, map, ◌||◌,
}
use gusto_backend.Common.Int.{ℤ, pos, ◌+ℤ◌, ◌-ℤ◌}
use gusto_backend.Common.Http.{Result, ok, err}
use gusto_backend.Hacker.Types.{
  CartItem, Coupon, FillerCandidate, Line, LogEntry, OptimizationInput, OptimizationResult,
}
use gusto_backend.Hacker.Algorithm.{optimize}
use gusto_backend.Hacker.Mapping.{
  RawCoupon, RawMenu, map_fetch_food_coupons_response, map_menu_response_to_filler_candidates,
}

pub data Reply (A : Type 0) : Type 0 where
  failed refused : Reply A
  success : A → Reply A

pub record OptimizedCart : Type 0 where
  pub items : List Line
  pub base_cost : ℕ
  pub filler_cost : ℕ
  pub discount_applied : ℤ
  pub final_total : ℤ
  pub savings_achieved : ℤ
  pub coupon_code : Option String
  pub over_budget : Bool
  pub decision_log : List LogEntry

abbrev pub max_menu_pages : ℕ
max_menu_pages = 6

abbrev pub min_filler_candidates_target : ℕ
min_filler_candidates_target = 60

unfoldable pub fetch_coupons : Reply (Option (List RawCoupon)) → List Coupon
fetch_coupons failed = []
fetch_coupons refused = []
fetch_coupons (success raw) = map_fetch_food_coupons_response raw

-- The pages still allowed, the page to ask for, and the candidates so far.
unfoldable pub fetch_pages :
    (ℕ → Reply (Option RawMenu)) → (pages page : ℕ) → List FillerCandidate → List FillerCandidate
fetch_pages menu zero page candidates = candidates
fetch_pages menu (suc pages) page candidates = elim (menu page) [
  | failed ↦ candidates
  | refused ↦ candidates
  | success raw ↦ elim (map_menu_response_to_filler_candidates raw) [
    | [] ↦ candidates
    | item ∷ items ↦ elim (leb min_filler_candidates_target (length (candidates ++ item ∷ items))) [
      | true ↦ candidates ++ item ∷ items
      | false ↦ fetch_pages menu pages (page + 1) (candidates ++ item ∷ items)
    ]
  ]
]

unfoldable pub fetch_filler_candidates : (ℕ → Reply (Option RawMenu)) → List FillerCandidate
unfolding fetch_pages
fetch_filler_candidates menu = fetch_pages menu max_menu_pages 1 []

-- `fillerItemIds.has(id)`: the set of the cart's own ids.
abbrev pub in_cart : List CartItem → String → Bool
in_cart [] id = false
in_cart (i ∷ is) id = str_eq i.item_id id || in_cart is id

-- `fillerCandidateByItemId.get(id)`: a later candidate of the same id replaces an earlier one.
abbrev pub candidate_price : List FillerCandidate → String → Option ℕ
candidate_price [] id = none
candidate_price (c ∷ cs) id = elim (candidate_price cs id) [
  | some p ↦ some p
  | none ↦ if str_eq c.item_id id then some c.price else none
]

abbrev pub line_cost : List FillerCandidate → Line → ℕ
line_cost cs l = elim (candidate_price cs l.item_id) [ none ↦ 0 | some p ↦ p * l.quantity ]

unfoldable pub sum_cost : List FillerCandidate → ℕ → List Line → ℕ
sum_cost cs sum [] = sum
sum_cost cs sum (l ∷ ls) = sum_cost cs (sum + line_cost cs l) ls

abbrev pub filler_items : List CartItem → List Line → List Line
filler_items cart = keep (λ l. not (in_cart cart l.item_id))

-- The cart that is returned, from the result and the candidates.
unfoldable pub to_optimized_cart :
    List CartItem → List FillerCandidate → OptimizationResult → OptimizedCart
unfolding sum_cost
to_optimized_cart cart candidates r =
    let cost = sum_cost candidates 0 (filler_items cart r.final_items) in
    record {
      items = r.final_items;
      base_cost = r.base_total;
      filler_cost = cost;
      discount_applied = pos r.base_total +ℤ pos cost -ℤ r.final_total;
      final_total = r.final_total;
      savings_achieved = r.savings_achieved;
      coupon_code = r.applied_coupon_code;
      over_budget = r.over_budget;
      decision_log = r.decision_log;
    }

-- `optimize`; the CartOptimized event is published on the side and changes nothing.
unfoldable pub optimize_cart :
    (parse_date : String → Option ℕ) (locale_compare : String → String → ℤ)
    → (cart : List CartItem) (budget now : ℕ) → Reply (Option (List RawCoupon))
    → (ℕ → Reply (Option RawMenu))
    → Result OptimizedCart
unfolding fetch_coupons fetch_filler_candidates to_optimized_cart
optimize_cart parse_date locale_compare cart budget now coupons menu =
    let candidates = fetch_filler_candidates menu in
    elim (optimize parse_date locale_compare (record {
      cart_items = cart;
      coupons = fetch_coupons coupons;
      filler_candidates = candidates;
      remaining_daily_budget = budget;
      now = now;
    })) [ err e ↦ err e | ok r ↦ ok (to_optimized_cart cart candidates r) ]
