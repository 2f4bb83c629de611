-- ===== src/Hacker/Algorithm.antt =====
-- `HackerAlgorithm` of hacker.algorithm.ts. `new Date(text)` and `localeCompare` are the language's:
-- parameters, a parser with `none` for an invalid date and a signed comparison.
pub mod Winner
pub mod Optimal
pub mod Overflow
pub mod Coupons
use Prim.Native.Nat.{min}
use gusto_backend.Common.{
  ℕ, ◌+◌, ◌-◌, ◌*◌, ◌/◌, String, Bool, true, false, not, ◌&&◌, ◌||◌, Option, none, some, List, [],
  ◌∷◌, ◌++◌, map, ltb, leb, ◌==◌, str_eq, if◌then◌else◌, length,
}
use gusto_backend.Common.Int.{ℤ, pos, negsuc, ◌+ℤ◌, ◌-ℤ◌, ltb_ℤ, leb_ℤ, eqb_ℤ, sub_ℕ}
use gusto_backend.Common.Http.{Result, ok, err, internal}
use gusto_backend.Hacker.Types.{
  CartItem, Coupon, flat, percentage, PaymentMode, online, cod, wallet, FillerCandidate, Line,
  Reason, not_applicable, expired, payment_mode_mismatch, not_globally_optimal,
  no_filler_combination, not_cheaper, exceeds_budget, accepted, LogEntry, Contender,
  OptimizationInput, OptimizationResult, Combo,
}
use gusto_backend.Hacker.Sorting.{sort_by, first}
use gusto_backend.Hacker.Filler.{prepare_filler_candidates, best_filler_combo}

-- `maxDiscount ?? raw`
abbrev pub capped : Option ℕ → ℕ → ℕ
capped none raw = raw
capped (some m) raw = min raw m

unfoldable pub discount : ℕ → Coupon → ℕ
discount amount coupon = elim coupon.discount_type [
  | flat ↦ min coupon.discount_value amount
  | percentage ↦ capped coupon.max_discount (amount * coupon.discount_value / 100)
]

abbrev pub accepts : PaymentMode → Bool
accepts online = true
accepts cod = true
accepts wallet = false

abbrev pub pays_online_or_cod : List PaymentMode → Bool
pays_online_or_cod [] = false
pays_online_or_cod (m ∷ ms) = accepts m || pays_online_or_cod ms

abbrev pub is_false : Option Bool → Bool
is_false none = false
is_false (some b) = not b

-- `items.map(({ itemId, quantity }) => …)` and the sum of the base cost.
abbrev pub baseline_items : List CartItem → List Line
baseline_items items = map (λ i. record { item_id = i.item_id; quantity = i.quantity }) items

unfoldable pub sum_items : ℕ → List CartItem → ℕ
sum_items sum [] = sum
sum_items sum (i ∷ is) = sum_items (sum + i.price * i.quantity) is

abbrev pub base_total_of : List CartItem → ℕ
base_total_of items = sum_items 0 items

abbrev pub is_empty {ℓ} : {A : Type ℓ} → List A → Bool
is_empty [] = true
is_empty (x ∷ xs) = false

-- What one coupon comes to.
pub record Outcome : Type 0 where
  pub contender : Option Contender
  pub entry : LogEntry

abbrev pub rejected : Coupon → Reason → Option ℤ → Outcome
rejected coupon reason total = record {
  contender = none;
  entry = record { coupon_code = coupon.code; reason = reason; computed_total = total };
}

abbrev pub single_lines : List String → List Line
single_lines ids = map (λ id. record { item_id = id; quantity = 1 }) ids

-- The part of `optimizeSingleCoupon` behind the filler search.
unfoldable pub price_coupon :
    Coupon → (base : ℕ) → List Line → List String → (amount budget : ℕ) → Outcome
unfolding discount
price_coupon coupon base items fillers amount budget =
    let total = sub_ℕ amount (discount amount coupon) in
    if leb_ℤ (pos base) total
    then rejected coupon not_cheaper (some total)
    else if ltb_ℤ (pos budget) total
    then rejected coupon exceeds_budget (some total)
    else record {
      contender = some (record {
        coupon_code = some coupon.code;
        items = items;
        total = total;
        fillers_added = fillers;
      });
      entry = record { coupon_code = coupon.code; reason = accepted; computed_total = some total };
    }

unfoldable pub optimize_single_coupon :
    Coupon → List Line → (base : ℕ) → List FillerCandidate → (budget : ℕ) → Outcome
unfolding price_coupon best_filler_combo
optimize_single_coupon coupon items base candidates budget =
    if ltb base coupon.min_order_value
    then elim (best_filler_combo (coupon.min_order_value - base) candidates) [
      | none ↦ rejected coupon no_filler_combination none
      | some combo ↦
          price_coupon coupon base (items ++ single_lines combo.item_ids) combo.item_ids
            (base + combo.total_price) budget
    ]
    else price_coupon coupon base items [] base budget

abbrev pub push : List Contender → Option Contender → List Contender
push cs none = cs
push cs (some c) = cs ++ c ∷ []

-- The loop, with the decision log and the contenders so far.
unfoldable pub run_coupons :
    (Coupon → Outcome)
    → List Coupon
    → List LogEntry
    → List Contender
    → List LogEntry × List Contender
run_coupons step [] log contenders = (log, contenders)
run_coupons step (c ∷ cs) log contenders =
    run_coupons step cs (log ++ (step c).entry ∷ []) (push contenders (step c).contender)

abbrev pub code_or_empty : Option String → String
code_or_empty none = ""
code_or_empty (some c) = c

-- `buildResult`; a negative total is thrown as a plain `Error`.
unfoldable pub build_result :
    Contender → (base budget : ℕ) → List LogEntry → Result OptimizationResult
build_result winner base budget log =
    if ltb_ℤ winner.total (pos 0)
    then err internal
    else ok (record {
      final_items = winner.items;
      applied_coupon_code = winner.coupon_code;
      base_total = base;
      final_total = winner.total;
      savings_achieved = pos base -ℤ winner.total;
      over_budget = ltb_ℤ (pos budget) winner.total;
      decision_log = log;
    })

abbrev pub baseline : List CartItem → Contender
baseline items = record {
  coupon_code = none;
  items = baseline_items items;
  total = pos (base_total_of items);
  fillers_added = [];
}

abbrev pub affordable_of : OptimizationInput → ℤ
affordable_of input = sub_ℕ input.remaining_daily_budget (base_total_of input.cart_items)

module _ (parse_date : String → Option ℕ) where
  -- `coupon.expiresAt && new Date(coupon.expiresAt) <= now`; no comparison with an invalid date holds.
  unfoldable pub has_expired : Coupon → ℕ → Bool
  has_expired coupon now = elim coupon.expires_at [
    | none ↦ false
    | some text ↦
        if str_eq text ""
        then false
        else elim (parse_date text) [ none ↦ false | some t ↦ leb t now ]
  ]

  -- `none` is `{ eligible: true }`.
  unfoldable pub check_eligibility : Coupon → (base now : ℕ) → ℤ → Option Reason
  unfolding has_expired
  check_eligibility coupon base now affordable =
      if is_false coupon.is_applicable
      then some not_applicable
      else if has_expired coupon now
      then some expired
      else if not (pays_online_or_cod coupon.payment_modes)
      then some payment_mode_mismatch
      else if ltb_ℤ (pos base +ℤ affordable) (pos coupon.min_order_value)
      then some not_globally_optimal
      else none

  -- The body of the loop over the coupons.
  unfoldable pub consider :
      List Line → (base now budget : ℕ) → ℤ → List FillerCandidate → Coupon → Outcome
  unfolding check_eligibility optimize_single_coupon
  consider items base now budget affordable candidates coupon =
      elim (check_eligibility coupon base now affordable) [
        | some reason ↦ rejected coupon reason none
        | none ↦ optimize_single_coupon coupon items base candidates budget
      ]

  -- The loop's body for an input.
  abbrev pub step_of : OptimizationInput → Coupon → Outcome
  step_of input =
      consider (baseline_items input.cart_items) (base_total_of input.cart_items) input.now
        input.remaining_daily_budget (affordable_of input)
        (prepare_filler_candidates input.filler_candidates (affordable_of input))

module _ (locale_compare : String → String → ℤ) where
  -- The comparator of `selectWinner`.
  unfoldable pub compare_contenders : Contender → Contender → ℤ
  compare_contenders a b =
      let a_filler = not (is_empty a.fillers_added) in
      let b_filler = not (is_empty b.fillers_added) in
      if not (eqb_ℤ a.total b.total)
      then a.total -ℤ b.total
      else if a_filler && not b_filler
      then negsuc 0
      else if b_filler && not a_filler
      then pos 1
      else if not (length a.items == length b.items)
      then sub_ℕ (length a.items) (length b.items)
      else locale_compare (code_or_empty a.coupon_code) (code_or_empty b.coupon_code)

  abbrev pub not_behind : Contender → Contender → Bool
  not_behind a b = leb_ℤ (compare_contenders a b) (pos 0)

  unfoldable pub select_winner : List Contender → Option Contender
  unfolding sort_by compare_contenders
  select_winner contenders = first (sort_by not_behind contenders)

-- The first `if`: no coupon is looked at for an empty cart or one that costs nothing.
abbrev pub is_trivial : OptimizationInput → Bool
is_trivial input = is_empty input.cart_items || base_total_of input.cart_items == 0

-- The result of a search: `sorted[0]` of no contenders would have no `total` to read.
abbrev pub finish : Option Contender → (base budget : ℕ) → List LogEntry → Result OptimizationResult
finish none base budget log = err internal
finish (some winner) base budget log = build_result winner base budget log

module _ (parse_date : String → Option ℕ) (locale_compare : String → String → ℤ) where
  -- The part of `optimize` behind the first `if`.
  unfoldable pub search_coupons : OptimizationInput → Result OptimizationResult
  unfolding consider run_coupons select_winner build_result prepare_filler_candidates
  search_coupons input =
      let (log, contenders) =
        run_coupons (step_of parse_date input) input.coupons [] (baseline input.cart_items ∷ []) in
      finish (select_winner locale_compare contenders) (base_total_of input.cart_items)
        input.remaining_daily_budget log

  unfoldable pub optimize : OptimizationInput → Result OptimizationResult
  unfolding sum_items search_coupons build_result
  optimize input =
      if is_trivial input
      then build_result (baseline input.cart_items) (base_total_of input.cart_items)
          input.remaining_daily_budget []
      else search_coupons input
