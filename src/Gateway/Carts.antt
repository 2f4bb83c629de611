-- ===== src/Gateway/Carts.antt =====
-- The cached carts behind update_food_cart and flush_food_cart.
use gusto_backend.Common.{
  ℕ, zero, suc, ◌-◌, String, true, false, Option, none, some, List, [], ◌∷◌, Any, if_both, ◌≡◌, ◌≢◌,
  refl, sym, ap, ◌∙◌, subst, arith, inl, inr, ◌⊎◌, Option-cases, Bool-cases,
}
use gusto_backend.Common.Dict.{Dict, lookup, erase, lookup-erase, lookup-erase_self}
use gusto_backend.Common.Http.{Result, ok, err, service_unavailable, HttpError}
use gusto_backend.Common.Text.{◌++◌, IsPlain}
use text.Mathlib.TextLemmas.{append_assoc}
use gusto_backend.Gateway.{
  final_error, is_retryable, cache_key, cart_prefix, succeeded, address_id, invalidate_cart_cache,
  invalidate_address, store, invalidate, accept, try_tool, call_tool, max_attempts, send_tool,
  serve_cached, truthy_answer,
}
use gusto_backend.Gateway.Redis.{
  Gateway, World, Library, Args, Cell, ToolCall, Answer, redis_del, del_by_prefix, erase_all,
  erase_pages, get_token, parsed, live, string_value, result, no_result,
}
use gusto_backend.Gateway.Calls.{Reply-cases, posted, paused, look_up_answered, looked}
use gusto_backend.Gateway.Sources.{call_of, accept-answer}

abbrev Fetched : Type 0
Fetched = Result Answer × Gateway

-- What an accepted answer with `success` leaves, a loop that returns one leaves.
module _ (l : Library) (w : World) (c : ToolCall) (P : Gateway → Type 0)
    (accepts : (v : Answer) (s : Gateway)
      → (accept l w c v s).0 ≡ ok v
      → succeeded v ≡ true
      → P (accept l w c v s).1) where
  abbrev Leaves : Fetched → Type 0
  Leaves out = (v : Answer) → out.0 ≡ ok v → succeeded v ≡ true → P out.1

  accepted-Leaves : (v : Answer) (s : Gateway) → Leaves (accept l w c v s)
  accepted-Leaves v s x e h =
      let q = accept-answer l w c v x s e in accepts v s (e ∙ ap ok q) (sym (ap succeeded q) ∙ h)

  refused-Leaves : (e : HttpError) (s : Gateway) → Leaves (err e, s)
  refused-Leaves e s v f h = absurd (ground arith)

  try_tool-Leaves : (left n : ℕ) (s : Gateway) → Leaves (try_tool l w c left n s)
  unfolding try_tool
  try_tool-Leaves zero n s = elim (Reply-cases (w.replies n)) [
    | inl (v, e) ↦ rw (try_tool, e) (accepted-Leaves v (posted l w c n s))
    | inr (f, e) ↦ rw (try_tool, e) (refused-Leaves (final_error f) (posted l w c n s))
  ]
  try_tool-Leaves (suc left) n s = elim (Reply-cases (w.replies n)) [
    | inl (v, e) ↦ rw (try_tool, e) (accepted-Leaves v (posted l w c n s))
    | inr (f, e) ↦
        rw (try_tool, e)
          (if_both Leaves (is_retryable f (suc n)) (try_tool l w c left (suc n) (paused l w c n s))
            (err (final_error f), posted l w c n s)
            (try_tool-Leaves left (suc n) (paused l w c n s))
            (refused-Leaves (final_error f) (posted l w c n s)))
  ]

  send_tool-Leaves : (s : Gateway) → Leaves (send_tool l w c s)
  send_tool-Leaves s = by_token (get_token w c.user_id s)
    where
      by_token :
          (r : Result String × Gateway)
          → Leaves (elim r.0 as (λ _. Result Answer × Gateway) [
            | ok token ↦ try_tool l w c (max_attempts c.tool - 1) 0 r.1
            | err e ↦ (err e, r.1)
          ])
      by_token (ok token, t) = try_tool-Leaves (max_attempts c.tool - 1) 0 t
      by_token (err e, t) = refused-Leaves e t

-- No cart of this key.
abbrev Forgets : String → Gateway → Type 0
Forgets key s = lookup key s.redis ≡ none

abbrev cart_of : String → Args
cart_of a = ("addressId", string_value a) ∷ []

-- The step of the `try` did not fail.
abbrev passed : Answer → Result (Unit {0}) → Result Answer
passed v r = elim r [ ok _ ↦ ok v | err _ ↦ err service_unavailable ]

module _ (l : Library) (w : World) (user a : String) where
  abbrev cart_key : String
  cart_key = cache_key l "get_food_cart" user (cart_of a)

  address-Forgets :
      (o : Option String) (v : Answer) (s : Gateway)
      → o ≡ some a
      → passed v (invalidate_address l w user o s).0 ≡ ok v
      → Forgets cart_key (invalidate_address l w user o s).1
  unfolding invalidate_address redis_del
  address-Forgets none v s h e = absurd (ground arith)
  address-Forgets (some b) v s h e =
      ground (arith, lookup-erase_self cart_key s.redis, cart_same b (ground arith))
    where
      cart_same : (b : String) → b ≡ a → cache_key l "get_food_cart" user (cart_of b) ≡ cart_key
      cart_same b h = ap (λ x. cache_key l "get_food_cart" user (cart_of x)) h

  module _ (args : Args) (addressed : address_id args ≡ some a) where
    update_accepts :
        (v : Answer) (s : Gateway)
        → (accept l w (call_of l "update_food_cart" user args) v s).0 ≡ ok v
        → succeeded v ≡ true
        → Forgets cart_key (accept l w (call_of l "update_food_cart" user args) v s).1
    unfolding accept store invalidate invalidate_cart_cache
    update_accepts no_result s e h = absurd (ground arith)
    update_accepts (result false rest) s e h = absurd (ground arith)
    update_accepts (result true rest) s e h =
        address-Forgets (address_id args) (result true rest) s addressed e

    update-Forgets :
        (v : Answer) (s : Gateway)
        → (call_tool l w (call_of l "update_food_cart" user args) s).0 ≡ ok v
        → succeeded v ≡ true
        → Forgets cart_key (call_tool l w (call_of l "update_food_cart" user args) s).1
    unfolding call_tool
    update-Forgets v s e h =
        send_tool-Leaves l w (call_of l "update_food_cart" user args) (Forgets cart_key)
          update_accepts s v e h

-- A key that is not there is no hit.
forgotten_posts :
    (l : Library) (w : World) (user : String) (args : Args) (s : Gateway)
    → w.reads ≡ true
    → Forgets (cache_key l "get_food_cart" user args) s
    → call_tool l w (call_of l "get_food_cart" user args) s
      ≡ send_tool l w (call_of l "get_food_cart" user args) s
unfolding serve_cached
forgotten_posts l w user args s read e =
    let c = call_of l "get_food_cart" user args in
    looked l w c s refl
    ∙ look_up_answered l w c s read
    ∙ ap (λ o. serve_cached l w c (truthy_answer (parsed l (live w.now o))) s) e

-- Where update_food_cart for an address returned a result with `success`, the next get_food_cart of
-- the user whose only argument is that addressId, and whose read Redis answers, is not answered out
-- of the cache: it does what the token and the posts do, whatever the cache held before. A call with
-- a further argument, such as restaurantName, has another key, of which nothing is stated.
pub updated_cart_is_fresh :
    (l : Library) (w next : World) (user a : String) (args : Args) (v : Answer) (s : Gateway)
    → address_id args ≡ some a
    → (call_tool l w (call_of l "update_food_cart" user args) s).0 ≡ ok v
    → succeeded v ≡ true
    → next.reads ≡ true
    → let t = (call_tool l w (call_of l "update_food_cart" user args) s).1 in
      call_tool l next (call_of l "get_food_cart" user (cart_of a)) t
      ≡ send_tool l next (call_of l "get_food_cart" user (cart_of a)) t
updated_cart_is_fresh l w next user a args v s addressed e h read =
    forgotten_posts l next user (cart_of a) _ read
      (update-Forgets l w user a args addressed v s e h)

-- A whole SCAN for a prefix in front of a star returns every key behind the prefix that is there
-- throughout, where the prefix has no character with a meaning.
abbrev pub ScansAll : Library → Type 0
ScansAll l =
    (prefix rest : String) (m : Dict Cell)
    → IsPlain prefix
    → lookup (prefix ++ rest) m ≢ none
    → Any (Any (λ k. k ≡ prefix ++ rest)) (l.scan (prefix ++ "*") m)

erase_all_gone :
    (ks : List String) (key : String) (m : Dict Cell)
    → (lookup key m ≡ none) ⊎ Any (λ k. k ≡ key) ks
    → lookup key (erase_all ks m) ≡ none
erase_all_gone [] key m (inl e) = e
erase_all_gone [] key m (inr h) = elim h [ ]
erase_all_gone (k ∷ ks) key m (inl e) =
    erase_all_gone ks key (erase k m) (inl (ground (arith, lookup-erase k key m)))
erase_all_gone (k ∷ ks) key m (inr (inl e)) = erase_all_gone ks key (erase k m) (
    inl (
      ground
        (arith, lookup-erase k key m, lookup-erase_self k m, ap (λ j. lookup j (erase k m)) e)))
erase_all_gone (k ∷ ks) key m (inr (inr h)) = erase_all_gone ks key (erase k m) (inr h)

erase_pages_gone :
    (pages : List (List String)) (key : String) (m : Dict Cell)
    → (lookup key m ≡ none) ⊎ Any (Any (λ k. k ≡ key)) pages
    → lookup key (erase_pages pages m) ≡ none
erase_pages_gone [] key m (inl e) = e
erase_pages_gone [] key m (inr h) = elim h [ ]
erase_pages_gone (ks ∷ pages) key m (inl e) =
    erase_pages_gone pages key (erase_all ks m) (inl (erase_all_gone ks key m (inl e)))
erase_pages_gone (ks ∷ pages) key m (inr (inl h)) =
    erase_pages_gone pages key (erase_all ks m) (inl (erase_all_gone ks key m (inr h)))
erase_pages_gone (ks ∷ pages) key m (inr (inr h)) =
    erase_pages_gone pages key (erase_all ks m) (inr h)

cart_key_behind :
    (l : Library) (user : String) (args : Args)
    → cart_prefix user ++ l.digest args ≡ cache_key l "get_food_cart" user args
cart_key_behind l user args =
    append_assoc "mcp:food:get_food_cart:" (user ++ ":") (l.digest args)
    ∙ ap (λ x. "mcp:food:get_food_cart:" ++ x) (append_assoc user ":" (l.digest args))
    ∙ append_assoc "mcp:food:get_food_cart" ":" (user ++ (":" ++ l.digest args))
    ∙ append_assoc "mcp:food:" "get_food_cart" (":" ++ (user ++ (":" ++ l.digest args)))

module _ (l : Library) (w : World) (user : String) (args sent_args : Args) (scans : ScansAll l)
    (plain : IsPlain (cart_prefix user)) where
  abbrev any_cart_key : String
  any_cart_key = cache_key l "get_food_cart" user args

  swept :
      (m : Dict Cell)
      → lookup any_cart_key (erase_pages (l.scan (cart_prefix user ++ "*") m) m) ≡ none
  swept m = elim (Option-cases (lookup any_cart_key m)) [
    | inl e ↦ erase_pages_gone (l.scan (cart_prefix user ++ "*") m) any_cart_key m (inl e)
    | inr (cell, e) ↦ erase_pages_gone (l.scan (cart_prefix user ++ "*") m) any_cart_key m (
        inr (
          subst (λ k. Any (Any (λ j. j ≡ k)) (l.scan (cart_prefix user ++ "*") m))
            (cart_key_behind l user args)
            (scans (cart_prefix user) (l.digest args) m plain
              (λ h. ground (arith, ap (λ k. lookup k m) (cart_key_behind l user args))))))
  ]

  flush_accepts :
      (v : Answer) (s : Gateway)
      → (accept l w (call_of l "flush_food_cart" user sent_args) v s).0 ≡ ok v
      → succeeded v ≡ true
      → Forgets any_cart_key (accept l w (call_of l "flush_food_cart" user sent_args) v s).1
  unfolding accept store invalidate invalidate_cart_cache del_by_prefix
  flush_accepts no_result s e h = absurd (ground arith)
  flush_accepts (result false rest) s e h = absurd (ground arith)
  flush_accepts (result true rest) s e h = elim (Bool-cases w.writes) [
    | inl writes ↦ ground (arith, swept s.redis)
    | inr fails ↦ ground arith
  ]

  flush-Forgets :
      (v : Answer) (s : Gateway)
      → (call_tool l w (call_of l "flush_food_cart" user sent_args) s).0 ≡ ok v
      → succeeded v ≡ true
      → Forgets any_cart_key (call_tool l w (call_of l "flush_food_cart" user sent_args) s).1
  unfolding call_tool
  flush-Forgets v s e h =
      send_tool-Leaves l w (call_of l "flush_food_cart" user sent_args) (Forgets any_cart_key)
        flush_accepts s v e h

-- Where flush_food_cart returned a result with `success`, the next get_food_cart of the user, with
-- whatever arguments, is not answered out of the cache, if Redis answers its read, a SCAN is complete
-- and the user id has no character that Redis gives a meaning.
pub flushed_carts_are_fresh :
    (l : Library) (w next : World) (user : String) (args flush_args : Args) (v : Answer)
    (s : Gateway)
    → ScansAll l
    → IsPlain (cart_prefix user)
    → (call_tool l w (call_of l "flush_food_cart" user flush_args) s).0 ≡ ok v
    → succeeded v ≡ true
    → next.reads ≡ true
    → let t = (call_tool l w (call_of l "flush_food_cart" user flush_args) s).1 in
      call_tool l next (call_of l "get_food_cart" user args) t
      ≡ send_tool l next (call_of l "get_food_cart" user args) t
flushed_carts_are_fresh l w next user args flush_args v s scans plain e h read =
    forgotten_posts l next user args _ read
      (flush-Forgets l w user args flush_args scans plain v s e h)
