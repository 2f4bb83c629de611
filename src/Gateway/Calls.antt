-- ===== src/Gateway/Calls.antt =====
-- How often `callTool` posts, how long it waits between, and what the last answer makes of it.
use gusto_backend.Common.{
  ℕ, zero, suc, ◌+◌, ◌*◌, ◌-◌, ◌^◌, ◌≤◌, String, true, false, Option, none, some, List, [], ◌∷◌,
  str_eq, if◌then◌else◌, ◌≡◌, refl, ap, ◌∙◌, arith, length, if_both, ◌&&◌, Bool-cases, Option-cases,
  inl, inr, ◌⊎◌,
}
use gusto_backend.Common.Http.{ok, err, internal, pure, Action, bind_ok, bind_keeps}
use gusto_backend.Common.Dict.{lookup}
use gusto_backend.Gateway.{
  invalidate_cart_cache, invalidate_address, flush_carts, address_id, changes_cart, succeeded,
  store, invalidate, accept, max_attempts, try_tool, send_tool, serve_cached, look_up, call_tool,
  cache_key, is_cacheable, truthy_answer,
}
use gusto_backend.Gateway.Redis.{
  Gateway, World, Library, ToolCall, Answer, Reply, ErrorResponse, redis_get, redis_setex,
  redis_del, cache_get, cache_set, del_by_prefix, request_token, get_token, live, parsed, answered,
  failed,
}

-- The sum of the waits.
unfoldable pub total : List ℕ → ℕ
total [] = 0
total (x ∷ xs) = x + total xs

-- The same posts and waits.
pub record IsSilent (s t : Gateway) : Type 0 where
  pub same_sent : t.sent ≡ s.sent
  pub same_waits : t.waits ≡ s.waits

module _ (l : Library) (w : World) (s : Gateway) where
  pub get_token-IsSilent : (user : String) → IsSilent s (get_token w user s).1
  unfolding get_token request_token redis_get redis_setex
  get_token-IsSilent user = record { same_sent = ground arith; same_waits = ground arith }

  pub cache_get-IsSilent : (key : String) → IsSilent s (cache_get l w key s).1
  unfolding cache_get redis_get
  cache_get-IsSilent key = record { same_sent = ground arith; same_waits = ground arith }

  refl-IsSilent : IsSilent s s
  refl-IsSilent = record { same_sent = refl; same_waits = refl }

  store-IsSilent : (c : ToolCall) (v : Answer) → IsSilent s (store l w c v s).1
  unfolding store cache_set redis_setex
  store-IsSilent c v =
      if_both {A = Action Gateway Unit} (λ m. IsSilent s (m s).1)
        (is_cacheable c.tool && succeeded v)
        (cache_set l w (cache_key l c.tool c.user_id c.args) v 300) (pure tt)
        (record { same_sent = ground arith; same_waits = ground arith }) refl-IsSilent

  invalidate_address-IsSilent :
      (user : String) (a : Option String) → IsSilent s (invalidate_address l w user a s).1
  unfolding invalidate_address del_by_prefix redis_del
  invalidate_address-IsSilent user none = record {
    same_sent = ground arith;
    same_waits = ground arith;
  }
  invalidate_address-IsSilent user (some a) = record {
    same_sent = ground arith;
    same_waits = ground arith;
  }

  invalidate-IsSilent : (c : ToolCall) (v : Answer) → IsSilent s (invalidate l w c v s).1
  unfolding invalidate invalidate_cart_cache del_by_prefix
  invalidate-IsSilent c v =
      if_both {A = Action Gateway Unit} (λ m. IsSilent s (m s).1)
        (succeeded v && changes_cart c.tool) (invalidate_cart_cache l w c) (pure tt)
        (if_both {A = Action Gateway Unit} (λ m. IsSilent s (m s).1)
          (str_eq c.tool "update_food_cart") (invalidate_address l w c.user_id (address_id c.args))
          (flush_carts l w c.user_id) (invalidate_address-IsSilent c.user_id (address_id c.args))
          (record { same_sent = ground arith; same_waits = ground arith }))
        refl-IsSilent

trans-IsSilent : {s t r : Gateway} → IsSilent s t → IsSilent t r → IsSilent s r
trans-IsSilent p q = record {
  same_sent = q.same_sent ∙ p.same_sent;
  same_waits = q.same_waits ∙ p.same_waits;
}

pub accept-IsSilent :
    (l : Library) (w : World) (s : Gateway) (c : ToolCall) (v : Answer)
    → IsSilent s (accept l w c v s).1
unfolding accept
accept-IsSilent l w s c v =
    bind_keeps (IsSilent s) (store l w c v) (λ _. invalidate l w c v) s (store-IsSilent l w s c v)
      (λ _ t h. trans-IsSilent h (invalidate-IsSilent l w t c v))

-- The waits of a loop with `left` attempts behind it that has failed `n` times, if all are made.
abbrev all_waits : ℕ → ℕ → ℕ
all_waits zero n = 0
all_waits (suc left) n = 500 * 2 ^ n + all_waits left (suc n)

-- It posts once, and at most that often again, and waits at most that long.
pub record IsBounded (left n : ℕ) (s t : Gateway) : Type 0 where
  pub posts : length t.sent ≤ suc left + length s.sent
  pub pauses : total t.waits ≤ all_waits left n + total s.waits

pub Reply-cases :
    (r : Reply) → ((v : Answer) × (r ≡ answered v)) ⊎ ((e : Option ErrorResponse) × (r ≡ failed e))
Reply-cases (answered v) = inl (v, refl)
Reply-cases (failed e) = inr (e, refl)

module _ (l : Library) (w : World) (c : ToolCall) where
  -- The state behind the post of the attempt.
  abbrev pub posted : ℕ → Gateway → Gateway
  posted n s = record s { sent = record { call = c; reply = w.replies n } ∷ s.sent }

  abbrev pub paused : ℕ → Gateway → Gateway
  paused n s = record (posted n s) { waits = 500 * 2 ^ n ∷ s.waits }

  pub try_tool-IsBounded :
      (left n : ℕ) (s : Gateway) → IsBounded left n s (try_tool l w c left n s).1
  unfolding try_tool total
  try_tool-IsBounded zero n s = elim (Reply-cases (w.replies n)) [
    | inl (v, e) ↦
        let a = accept-IsSilent l w (posted n s) c v in
        record { posts = ground (arith, a.same_sent); pauses = ground (arith, a.same_waits) }
    | inr (f, e) ↦ record { posts = ground arith; pauses = ground arith }
  ]
  try_tool-IsBounded (suc left) n s = elim (Reply-cases (w.replies n)) [
    | inl (v, e) ↦
        let a = accept-IsSilent l w (posted n s) c v in
        record { posts = ground (arith, a.same_sent); pauses = ground (arith, a.same_waits) }
    | inr (f, e) ↦
        let b = try_tool-IsBounded left (suc n) (paused n s) in
        record { posts = ground (arith, b.posts); pauses = ground (arith, b.pauses) }
  ]

  pub send_tool-bounded :
      (s : Gateway)
      → (length (send_tool l w c s).1.sent
          ≤ (if str_eq c.tool "place_food_order" then 1 else 5) + length s.sent)
        × (total (send_tool l w c s).1.waits
            ≤ (if str_eq c.tool "place_food_order" then 0 else 7500) + total s.waits)
  send_tool-bounded s =
      let q = get_token-IsSilent l w s c.user_id in
      let b = try_tool-IsBounded (max_attempts c.tool - 1) 0 (get_token w c.user_id s).1 in
      (ground (arith, q.same_sent, b.posts), ground (arith, q.same_waits, b.pauses))

-- What the cache holds for a call.
abbrev pub cached_answer : Library → World → ToolCall → Gateway → Option Answer
cached_answer l w c s =
    truthy_answer (parsed l (live w.now (lookup (cache_key l c.tool c.user_id c.args) s.redis)))

module _ (l : Library) (w : World) (c : ToolCall) (s : Gateway) where
  cache_get_answered :
      w.reads ≡ true
      → cache_get l w (cache_key l c.tool c.user_id c.args) s
        ≡ (ok (parsed l (live w.now (lookup (cache_key l c.tool c.user_id c.args) s.redis))), s)
  unfolding cache_get redis_get
  cache_get_answered h = ground arith

  pub look_up_answered :
      w.reads ≡ true → look_up l w c s ≡ serve_cached l w c (cached_answer l w c s) s
  unfolding look_up
  look_up_answered h =
      bind_ok (cache_get l w (cache_key l c.tool c.user_id c.args))
        (λ cached. serve_cached l w c (truthy_answer cached)) s _ s (cache_get_answered h)

  look_up_refused : w.reads ≡ false → look_up l w c s ≡ (err internal, s)
  unfolding look_up cache_get redis_get
  look_up_refused h = ground arith

  pub looked : is_cacheable c.tool ≡ true → call_tool l w c s ≡ look_up l w c s
  unfolding call_tool
  looked h = ground arith

  -- A call of a tool goes to the loop, or it ends with the state as it is: Redis did not answer, or
  -- the answer was in the cache.
  pub call_tool-cases :
      (call_tool l w c s ≡ send_tool l w c s)
      ⊎ ((call_tool l w c s ≡ (err internal, s))
          ⊎ ((v : Answer) × (call_tool l w c s ≡ (ok v, s))
              × (is_cacheable c.tool ≡ true)
              × (cached_answer l w c s ≡ some v)))
  unfolding call_tool serve_cached
  call_tool-cases = elim (Bool-cases (is_cacheable c.tool)) [
    | inr plain ↦ inl (ground arith)
    | inl cacheable ↦ elim (Bool-cases w.reads) [
      | inr lost ↦ inr (inl (looked cacheable ∙ look_up_refused lost))
      | inl read ↦ elim (Option-cases (cached_answer l w c s)) [
        | inl e ↦
            inl (looked cacheable ∙ look_up_answered read ∙ ap (λ o. serve_cached l w c o s) e)
        | inr (v, e) ↦ inr (
            inr (
              v,
              looked cacheable ∙ look_up_answered read ∙ ap (λ o. serve_cached l w c o s) e,
              cacheable,
              e,
            ))
      ]
    ]
  ]

-- A call of place_food_order posts at most once and never waits; a call of any other tool posts at
-- most five times and waits at most 7.5 s between the posts, before the jitter.
pub call_tool_bounded :
    (l : Library) (w : World) (c : ToolCall) (s : Gateway)
    → (length (call_tool l w c s).1.sent
        ≤ (if str_eq c.tool "place_food_order" then 1 else 5) + length s.sent)
      × (total (call_tool l w c s).1.waits
          ≤ (if str_eq c.tool "place_food_order" then 0 else 7500) + total s.waits)
call_tool_bounded l w c s =
    let b = send_tool-bounded l w c s in
    elim (call_tool-cases l w c s) [
      | inl e ↦ (ground (arith, e, b.0), ground (arith, e, b.1))
      | inr (inl e) ↦ (ground (arith, e), ground (arith, e))
      | inr (inr (v, e, _, _)) ↦ (ground (arith, e), ground (arith, e))
    ]
