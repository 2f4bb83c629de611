-- ===== src/Examples/Tools.antt =====
-- The theorems on mcp-gateway-service at one user's cart and at requests 20 seconds apart.
use Prim.Native.String.{[], ◌∷◌}
use gusto_backend.Common.{
  ℕ, String, Bool, true, false, Option, none, some, List, [], ◌∷◌, Any, ◌≡◌, ◌≢◌, refl, sym, subst,
  arith, inl, inr, if◌then◌else◌, ◌≤◌, length, str_eq, str_eq_iff, ◌==◌, Bool-cases, ◌⊎◌,
}
use text.Mathlib.TextEquality.{starts_with_iff}
use gusto_backend.Common.Dict.{Dict, lookup, insert, erase}
use gusto_backend.Common.Http.{ok}
use gusto_backend.Common.Text.{
  ◌++◌, before, starts_with, char_eq, IsPlain, before-append, occurs, includes, split,
}
use gusto_backend.Gateway.{
  store, invalidate, invalidate_cart_cache, invalidate_address, accept, is_retryable, try_tool,
  look_up, serve_cached, call_tool, call_tools, send_tool, initial, cart_prefix, address_id,
}
use gusto_backend.Gateway.Redis.{
  Gateway, World, Library, Args, Cell, ToolCall, Answer, Reply, ErrorResponse, redis_get,
  redis_setex, redis_del, cache_get, cache_set, get_token, request_token, del_by_prefix,
  string_value, result, no_result, answered, failed,
}
use gusto_backend.Gateway.Limiter.{Hit, limit_rate, limit_rates}
use gusto_backend.Gateway.Limiter.Tracking.Keys.{InOrder, recent}
use gusto_backend.Gateway.Limiter.Trailing.{limit_rate_trailing}
use gusto_backend.Gateway.Keys.{HasDigests}
use gusto_backend.Gateway.Calls.{call_tool_bounded, total}
use gusto_backend.Gateway.Sources.{Answers, call_of}
use gusto_backend.Gateway.Answers.{call_tool_own_answer}
use gusto_backend.Gateway.Carts.{updated_cart_is_fresh, flushed_carts_are_fresh, ScansAll}

-- A result is written as a letter for its `success` and its rest.
abbrev stringify : Answer → String
stringify no_result = "n"
stringify (result true rest) = "t" ∷ rest
stringify (result false rest) = "f" ∷ rest

abbrev parse : String → Option Answer
parse [] = none
parse (c ∷ rest) =
    if char_eq c "t"
    then some (result true rest)
    else if char_eq c "f"
    then some (result false rest)
    else some no_result

abbrev digest : Args → String
digest [] = "0"
digest (a ∷ more) = "1"

-- One page, with the keys behind what stands in front of the star.
abbrev keys_behind : String → Dict Cell → List String
keys_behind prefix [] = []
keys_behind prefix ((k, c) ∷ m) =
    let rest = keys_behind prefix m in if starts_with k prefix then k ∷ rest else rest

abbrev library : Library
library = record {
  digest = digest;
  stringify = stringify;
  parse = parse;
  scan = λ pattern m. keys_behind (before "*" pattern) m ∷ [];
}

library-HasDigests : HasDigests library
library-HasDigests [] [] = refl
library-HasDigests [] (b ∷ bs) = refl
library-HasDigests (a ∷ more) [] = refl
library-HasDigests (a ∷ more) (b ∷ bs) = refl

library_reads_back : (x : Answer) → parse (stringify x) ≡ some x
library_reads_back no_result = refl
library_reads_back (result true rest) = refl
library_reads_back (result false rest) = refl

plain_no_star : (s : String) → IsPlain s → occurs "*" s ≡ false
unfolding occurs
plain_no_star [] h = refl
plain_no_star (c ∷ s) (hc, h) = ground (arith, plain_no_star s h)

Any-if :
    (b : Bool) (k : String) (ks : List String) (key : String)
    → ((b ≡ true) × (k ≡ key)) ⊎ Any (λ j. j ≡ key) ks
    → Any (λ j. j ≡ key) (if b then k ∷ ks else ks)
Any-if true k ks key (inl (b, e)) = inl e
Any-if true k ks key (inr h) = inr h
Any-if false k ks key (inl (b, e)) = absurd (ground arith)
Any-if false k ks key (inr h) = h

keys_behind-there :
    (prefix rest : String) (m : Dict Cell)
    → lookup (prefix ++ rest) m ≢ none
    → Any (λ k. k ≡ prefix ++ rest) (keys_behind prefix m)
unfolding lookup
keys_behind-there prefix rest [] h = absurd (h refl)
keys_behind-there prefix rest ((k, c) ∷ m) h = elim (Bool-cases (str_eq k (prefix ++ rest))) [
  | inl same ↦
      let e = (str_eq_iff k (prefix ++ rest)).0 same in
      Any-if (starts_with k prefix) k (keys_behind prefix m) (prefix ++ rest)
        (inl ((starts_with_iff k prefix).1 (rest, sym e), e))
  | inr other ↦
      Any-if (starts_with k prefix) k (keys_behind prefix m) (prefix ++ rest)
        (inr (keys_behind-there prefix rest m (ground arith)))
]

library-ScansAll : ScansAll library
library-ScansAll prefix rest m plain h = inl (
    subst (λ p. Any (λ k. k ≡ prefix ++ rest) (keys_behind p m))
      (sym (before-append "*" prefix [] (plain_no_star prefix plain)))
      (keys_behind-there prefix rest m h))

abbrev home : Args
home = ("addressId", string_value "home") ∷ []

abbrev get_cart : ToolCall
get_cart = record { tool = "get_food_cart"; args = home; user_id = "asha" }

-- Swiggy answers 503 to the first post and takes the second.
abbrev busy : ErrorResponse
busy = record { http_status = 503; code = none; message = ""; success = none }

abbrev replies : ℕ → Reply
replies n = if n == 0 then failed (some busy) else answered (result true "cart")

abbrev world : World
world = record { now = 5; reads = true; writes = true; token = some "t1"; replies = replies }

-- The cart was cached before it is changed.
abbrev with_cart : Gateway
with_cart = (call_tool library world get_cart initial).1

abbrev place : ToolCall
place = record { tool = "place_food_order"; args = home; user_id = "asha" }

call_tool_bounded_example :
    (length (call_tool library world place initial).1.sent ≤ 1)
    × (total (call_tool library world place initial).1.waits ≤ 0)
unfolding total
call_tool_bounded_example = call_tool_bounded library world place initial

-- The same answers make a get_food_cart post again.
posted_twice : length (call_tool library world get_cart initial).1.sent ≡ 2
unfolding call_tool look_up cache_get redis_get serve_cached get_token request_token redis_setex
    try_tool accept store cache_set invalidate invalidate_cart_cache is_retryable includes lookup
    insert
posted_twice = refl

cached_again : (call_tool library world get_cart with_cart).0 ≡ ok (result true "cart")
unfolding call_tool look_up cache_get redis_get serve_cached get_token request_token redis_setex
    try_tool accept store cache_set invalidate invalidate_cart_cache is_retryable includes lookup
    insert
cached_again = refl

call_tool_own_answer_example :
    Answers library get_cart
      (result true "cart")
      (call_tool library world get_cart
        (call_tools library ((world, get_cart) ∷ []) initial)).1.sent
unfolding call_tools
call_tool_own_answer_example =
    call_tool_own_answer library ((world, get_cart) ∷ []) world get_cart (result true "cart")
      library-HasDigests library_reads_back cached_again

updates :
    (call_tool library world (call_of library "update_food_cart" "asha" home) with_cart).0
    ≡ ok (result true "cart")
unfolding call_tool look_up cache_get redis_get serve_cached get_token request_token redis_setex
    try_tool accept store cache_set invalidate invalidate_cart_cache invalidate_address is_retryable
    includes redis_del lookup insert erase
updates = refl

address : address_id home ≡ some "home"
unfolding lookup
address = refl

updated_cart_is_fresh_example :
    let t =
      (call_tool library world (call_of library "update_food_cart" "asha" home) with_cart).1 in
    call_tool library world get_cart t ≡ send_tool library world get_cart t
updated_cart_is_fresh_example =
    updated_cart_is_fresh library world world "asha" "home" home (result true "cart") with_cart
      address updates refl refl

flushes :
    (call_tool library world (call_of library "flush_food_cart" "asha" []) with_cart).0
    ≡ ok (result true "cart")
unfolding call_tool look_up cache_get redis_get serve_cached get_token request_token redis_setex
    try_tool accept store cache_set invalidate invalidate_cart_cache del_by_prefix is_retryable
    includes lookup insert erase
flushes = refl

plain : IsPlain (cart_prefix "asha")
plain = ground arith

flushed_carts_are_fresh_example :
    let t = (call_tool library world (call_of library "flush_food_cart" "asha" []) with_cart).1 in
    call_tool library world get_cart t ≡ send_tool library world get_cart t
flushed_carts_are_fresh_example =
    flushed_carts_are_fresh library world world "asha" home [] (result true "cart") with_cart
      library-ScansAll plain flushes refl refl

-- Three writes by one user at 1, 21 and 41 s, then one at 61 s: the first is out of the window.
abbrev hit : ℕ → Hit
hit now = record { now = now; user_id = some "asha"; path = "/mcp/food/update_food_cart" }

in_order : InOrder 0 (hit 1000 ∷ hit 21000 ∷ hit 41000 ∷ [])
in_order = (omega arith, (omega arith, (omega arith, tt)))

limit_rate_trailing_example :
    (limit_rate 3 9 (hit 61000) (limit_rates 3 9 (hit 1000 ∷ hit 21000 ∷ hit 41000 ∷ []) [])).0
    ≡ ok 0
unfolding recent split
limit_rate_trailing_example =
    limit_rate_trailing 3 9 (hit 1000 ∷ hit 21000 ∷ hit 41000 ∷ []) (hit 61000) "asha" in_order
      (omega arith) refl refl
