-- ===== src/Hacker/Mapping.antt =====
-- The mappers of apps/coupon-optimization-service/src/modules/hacker/mapping. A raw record is what
-- its zod schema reads: each field is `none` where the value is missing or the field's schema
-- refuses it (a number that does not coerce to an integer in range, for one), so that `.catch` is a
-- default and a field with none makes the record malformed.
use gusto_backend.Common.{
  ℕ, String, Bool, true, false, Option, none, some, List, [], ◌∷◌, ◌++◌, ◌==◌, if◌then◌else◌,
}
use gusto_backend.Hacker.Types.{DiscountType, flat, Coupon, online, cod, FillerCandidate}

-- `value ?? fallback`, and `.catch(fallback)`
abbrev pub or_else : {A : Type 0} → Option A → A → A
or_else none d = d
or_else (some a) d = a

-- `RawCouponSchema`; an inner `none` is a JSON `null`, where the field is nullable.
pub record RawCoupon : Type 0 where
  pub code : Option String
  pub min_cart_value : Option ℕ
  pub requires_online_payment : Option Bool
  pub discount_type : Option DiscountType
  pub discount_value : Option ℕ
  pub max_discount : Option (Option ℕ)
  pub is_applicable : Option (Option Bool)
  pub expires_at : Option (Option String)

unfoldable pub map_coupon : RawCoupon → Option Coupon
map_coupon raw = elim raw.code [
  | none ↦ none
  | some code ↦ some (record {
    code = code;
    discount_type = or_else raw.discount_type flat;
    discount_value = or_else raw.discount_value 0;
    max_discount = or_else raw.max_discount none;
    min_order_value = or_else raw.min_cart_value 0;
    payment_modes = if or_else raw.requires_online_payment false then online ∷ [] else cod ∷ [];
    is_applicable = or_else raw.is_applicable none;
    expires_at = or_else raw.expires_at none;
  })
]

-- The records that parse, in order.
abbrev pub collect : {A B : Type 0} → (A → Option B) → List A → List B
collect f [] = []
collect f (x ∷ xs) = elim (f x) [ none ↦ collect f xs | some y ↦ y ∷ collect f xs ]

-- `none` is data that is no array.
unfoldable pub map_fetch_food_coupons_response : Option (List RawCoupon) → List Coupon
unfolding map_coupon
map_fetch_food_coupons_response none = []
map_fetch_food_coupons_response (some items) = collect map_coupon items

-- `RawMenuItemSchema`; the price is a positive integer or `none`.
pub record RawMenuItem : Type 0 where
  pub id : Option String
  pub price : Option ℕ
  pub category : Option (Option String)  -- `some none` where it is absent
  pub in_stock : Option Bool

abbrev positive : Option ℕ → Option ℕ
positive none = none
positive (some n) = if n == 0 then none else some n

unfoldable pub map_menu_item : RawMenuItem → Option FillerCandidate
map_menu_item raw = elim raw.id [
  | none ↦ none
  | some id ↦ elim (positive raw.price) [
    | none ↦ none
    | some price ↦ elim raw.category [
      | none ↦ none
      | some category ↦ some (record {
        item_id = id;
        price = price;
        category = category;
        in_stock = or_else raw.in_stock true;
      })
    ]
  ]
]

-- `RawMenuResponseSchema`: the items at the top and those of each category, each list optional.
pub record RawMenu : Type 0 where
  pub items : Option (List RawMenuItem)
  pub categories : Option (List (Option (List RawMenuItem)))

abbrev pub flatten_categories : List (Option (List RawMenuItem)) → List RawMenuItem
flatten_categories [] = []
flatten_categories (c ∷ cs) = or_else c [] ++ flatten_categories cs

abbrev pub flat_items : RawMenu → List RawMenuItem
flat_items raw = or_else raw.items [] ++ flatten_categories (or_else raw.categories [])

unfoldable pub map_menu_response_to_filler_candidates : Option RawMenu → List FillerCandidate
unfolding map_menu_item
map_menu_response_to_filler_candidates none = []
map_menu_response_to_filler_candidates (some raw) = collect map_menu_item (flat_items raw)
