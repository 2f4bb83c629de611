-- ===== src/Gateway/Keys.antt =====
-- The Redis keys of mcp-gateway-service: which of them differ.
use gusto_backend.Common.{
  String, true, false, ◌≡◌, ◌≢◌, refl, sym, ◌∙◌, arith, str_eq, str_eq_iff, or-cases, inl, inr,
  subst,
}
use gusto_backend.Common.Text.{◌++◌, count, occurs, joined_inj, tails_inj, behind_inj, behind_apart}
use text.Mathlib.TextLemmas.{append_assoc, length-append}
use gusto_backend.Gateway.{cache_key, is_cacheable}
use gusto_backend.Gateway.Redis.{Library, Args, token_key}

-- No cached tool has a colon in its name.
cacheable_plain : (t : String) → is_cacheable t ≡ true → occurs ":" t ≡ false
unfolding occurs
cacheable_plain t h = elim (or-cases _ (str_eq t "get_food_cart") h) [
  | inr e ↦ named "get_food_cart" refl e
  | inl g ↦ elim (or-cases _ (str_eq t "get_restaurant_menu") g) [
    | inr e ↦ named "get_restaurant_menu" refl e
    | inl f ↦ elim (or-cases (str_eq t "search_restaurants") (str_eq t "search_menu") f) [
      | inr e ↦ named "search_menu" refl e
      | inl e ↦ named "search_restaurants" refl e
    ]
  ]
]
  where
    named : (name : String) → occurs ":" name ≡ false → str_eq t name ≡ true → occurs ":" t ≡ false
    named name plain e = subst (λ x. occurs ":" x ≡ false) (sym ((str_eq_iff t name).0 e)) plain

-- Digests of one length.
abbrev pub HasDigests : Library → Type 0
HasDigests l = (a b : Args) → count (l.digest a) ≡ count (l.digest b)

pub cache_key_inj :
    (l : Library) (t t' u u' : String) (a a' : Args)
    → HasDigests l
    → is_cacheable t ≡ true
    → is_cacheable t' ≡ true
    → cache_key l t u a ≡ cache_key l t' u' a'
    → (t ≡ t') × (u ≡ u') × (l.digest a ≡ l.digest a')
cache_key_inj l t t' u u' a a' same h h' e =
    let tools =
      joined_inj ":" t t' (u ++ (":" ++ l.digest a)) (u' ++ (":" ++ l.digest a'))
        (cacheable_plain t h) (cacheable_plain t' h') (behind_inj "mcp:food:" _ _ e) in
    let users =
      tails_inj u u' (":" ++ l.digest a) (":" ++ l.digest a')
        (omega (arith, same a a', length-append ":" (l.digest a), length-append ":" (l.digest a')))
        tools.1 in
    (tools.0, users.0, behind_inj ":" _ _ users.1)

-- A token's key is no answer's key.
pub token_key_apart : (l : Library) (u t v : String) (a : Args) → token_key u ≢ cache_key l t v a
token_key_apart l u t v a e =
    behind_apart "mcp:token" "mcp:food:" (":" ++ u) (t ++ (":" ++ (v ++ (":" ++ l.digest a)))) refl
      refl (sym (append_assoc "mcp:token" ":" u) ∙ e)
