-- ===== src/Gateway/Sources.antt =====
-- Where the answers of `callTool` come from: the posts for the same tool and user with arguments of
-- the same digest.
use gusto_backend.Common.{
  ℕ, ◌+◌, ◌*◌, String, true, Option, none, some, List, [], ◌∷◌, Any, ◌&&◌, if◌then◌else◌, str_eq,
  str_eq_iff, ◌≡◌, ◌≢◌, refl, sym, subst, arith, if_both, Bool-cases, inl, inr, ◌⊎◌,
}
use gusto_backend.Common.Dict.{Dict, lookup, erase, lookup-insert, lookup-erase}
use gusto_backend.Common.Http.{ok, Action, pure, bind_keeps}
use gusto_backend.Gateway.{
  cache_key, is_cacheable, succeeded, invalidate_cart_cache, invalidate_address, changes_cart,
  flush_carts, address_id, store, invalidate, accept,
}
use gusto_backend.Gateway.Redis.{
  Gateway, World, Library, Args, Cell, ToolCall, Sent, Answer, redis_get, redis_setex, redis_del,
  cache_set, del_by_prefix, erase_all, erase_pages, request_token, get_token, answered,
}
use gusto_backend.Gateway.Keys.{HasDigests, cache_key_inj, token_key_apart}

module _ (l : Library) where
  -- A post for this tool and user, with arguments of this digest, that was answered by `v`.
  pub record IsAnswerOf (tool user digest : String) (v : Answer) (x : Sent) : Type 0 where
    pub same_tool : x.call.tool ≡ tool
    pub same_user : x.call.user_id ≡ user
    pub same_args : l.digest x.call.args ≡ digest
    pub same_answer : x.reply ≡ answered v

  abbrev pub Answers : ToolCall → Answer → List Sent → Type 0
  Answers c v = Any (IsAnswerOf c.tool c.user_id (l.digest c.args) v)

  abbrev pub call_of : String → String → Args → ToolCall
  call_of tool user args = record { tool = tool; args = args; user_id = user }

  -- Every cached text is an answer to a post for the key's tool, user and arguments.
  abbrev pub IsSourced : Gateway → Type 0
  IsSourced s =
      (tool user : String) (args : Args) (cell : Cell)
      → is_cacheable tool ≡ true
      → lookup (cache_key l tool user args) s.redis ≡ some cell
      → (v : Answer) × (cell.value ≡ l.stringify v) × Answers (call_of tool user args) v s.sent

  -- The same posts, and no answer in the cache that was not there.
  pub record IsWithin (s t : Gateway) : Type 0 where
    same_sent : t.sent ≡ s.sent
    cells :
        (tool user : String) (args : Args) (cell : Cell)
        → is_cacheable tool ≡ true
        → lookup (cache_key l tool user args) t.redis ≡ some cell
        → lookup (cache_key l tool user args) s.redis ≡ some cell

  pub within-IsSourced : (s t : Gateway) → IsWithin s t → IsSourced s → IsSourced t
  within-IsSourced s t h sourced tool user args cell ok_tool e =
      let (v, same, from) =
        sourced tool user args cell ok_tool (h.cells tool user args cell ok_tool e) in
      (v, same, subst (λ xs. Answers (call_of tool user args) v xs) (sym h.same_sent) from)

  module _ (w : World) (s : Gateway) where
    setex_cells :
        (k key value : String) (ttl : ℕ) (cell : Cell)
        → k ≢ key
        → lookup key (redis_setex w k ttl value s).1.redis ≡ some cell
        → lookup key s.redis ≡ some cell
    unfolding redis_setex
    setex_cells k key value ttl cell ne e = ground (
      arith,
      lookup-insert k key (record { value = value; expires = w.now + 1000 * ttl }) s.redis,
      str_eq_iff k key,
    )

    setex_sent : (k value : String) (ttl : ℕ) → (redis_setex w k ttl value s).1.sent ≡ s.sent
    unfolding redis_setex
    setex_sent k value ttl = ground arith

    pub get_token-IsWithin : (user : String) → IsWithin s (get_token w user s).1
    unfolding get_token redis_get request_token
    get_token-IsWithin user = record {
      same_sent = grind (arith, setex_sent);
      cells = λ tool owner args cell h e.
          grind (arith, setex_cells, token_key_apart l user tool owner args);
    }

    erase_all_cells :
        (ks : List String) (m : Dict Cell) (key : String) (cell : Cell)
        → lookup key (erase_all ks m) ≡ some cell
        → lookup key m ≡ some cell
    erase_all_cells [] m key cell e = e
    erase_all_cells (k ∷ ks) m key cell e =
        ground (arith, erase_all_cells ks (erase k m) key cell e, lookup-erase k key m)

    erase_pages_cells :
        (pages : List (List String)) (m : Dict Cell) (key : String) (cell : Cell)
        → lookup key (erase_pages pages m) ≡ some cell
        → lookup key m ≡ some cell
    erase_pages_cells [] m key cell e = e
    erase_pages_cells (ks ∷ pages) m key cell e =
        erase_all_cells ks m key cell (erase_pages_cells pages (erase_all ks m) key cell e)

    flush_carts-IsWithin : (user : String) → IsWithin s (flush_carts l w user s).1
    unfolding del_by_prefix
    flush_carts-IsWithin user = record {
      same_sent = ground arith;
      cells = λ tool owner args cell h e. grind (arith, erase_pages_cells);
    }

    del-IsWithin : (key : String) → IsWithin s (redis_del w key s).1
    unfolding redis_del
    del-IsWithin key = record {
      same_sent = ground arith;
      cells = λ tool owner args cell h e.
          ground (arith, lookup-erase key (cache_key l tool owner args) s.redis);
    }

    unchanged-IsWithin : IsWithin s s
    unchanged-IsWithin = record { same_sent = refl; cells = λ tool owner args cell h e. e }

    invalidate_address-IsWithin :
        (user : String) (a : Option String) → IsWithin s (invalidate_address l w user a s).1
    unfolding invalidate_address
    invalidate_address-IsWithin user none = flush_carts-IsWithin user
    invalidate_address-IsWithin user (some a) = del-IsWithin _

    invalidate-IsWithin : (c : ToolCall) (v : Answer) → IsWithin s (invalidate l w c v s).1
    unfolding invalidate invalidate_cart_cache
    invalidate-IsWithin c v =
        if_both {A = Action Gateway Unit} (λ m. IsWithin s (m s).1)
          (succeeded v && changes_cart c.tool) (invalidate_cart_cache l w c) (pure tt)
          (if_both {A = Action Gateway Unit} (λ m. IsWithin s (m s).1)
            (str_eq c.tool "update_food_cart")
            (invalidate_address l w c.user_id (address_id c.args)) (flush_carts l w c.user_id)
            (invalidate_address-IsWithin c.user_id (address_id c.args))
            (flush_carts-IsWithin c.user_id))
          unchanged-IsWithin

  -- An answer to a post, stored under the key of the post.
  module _ (w : World) (c : ToolCall) (v : Answer) (s : Gateway) (same : HasDigests l)
      (cacheable : is_cacheable c.tool ≡ true) (sourced : IsSourced s)
      (from : Answers c v s.sent) where
    abbrev stored : Gateway
    stored = (redis_setex w (cache_key l c.tool c.user_id c.args) 300 (l.stringify v) s).1

    stored_value :
        (key : String) (cell : Cell)
        → lookup key stored.redis ≡ some cell
        → ((cache_key l c.tool c.user_id c.args ≡ key) × (cell.value ≡ l.stringify v))
          ⊎ (lookup key s.redis ≡ some cell)
    unfolding redis_setex
    stored_value key cell e = ground (
      arith,
      lookup-insert (cache_key l c.tool c.user_id c.args) key
          (record { value = l.stringify v; expires = w.now + 1000 * 300 }) s.redis,
      str_eq_iff (cache_key l c.tool c.user_id c.args) key,
    )

    own_answer :
        (tool user : String) (args : Args)
        → (c.tool ≡ tool) × (c.user_id ≡ user) × (l.digest c.args ≡ l.digest args)
        → Answers (call_of tool user args) v s.sent
    own_answer tool user args (a, b, d) =
        subst (λ t. Any (IsAnswerOf t user (l.digest args) v) s.sent) a
          (subst (λ u. Any (IsAnswerOf c.tool u (l.digest args) v) s.sent) b
            (subst (λ h. Any (IsAnswerOf c.tool c.user_id h v) s.sent) d from))

    stored-IsSourced : IsSourced stored
    stored-IsSourced tool user args cell h e = elim (stored_value _ cell e) [
      | inl (k, is) ↦ (
        v,
        is,
        subst (λ xs. Answers (call_of tool user args) v xs)
            (sym (setex_sent w s (cache_key l c.tool c.user_id c.args) (l.stringify v) 300))
            (own_answer tool user args
              (cache_key_inj l c.tool tool c.user_id user c.args args same cacheable h k)),
      )
      | inr old ↦
          let (x, is, f) = sourced tool user args cell h old in
          (
            x,
            is,
            subst (λ xs. Answers (call_of tool user args) x xs)
                (sym (setex_sent w s (cache_key l c.tool c.user_id c.args) (l.stringify v) 300)) f,
          )
    ]

    sent_within : Answers c v stored.sent
    sent_within =
        subst (λ xs. Answers c v xs)
          (sym (setex_sent w s (cache_key l c.tool c.user_id c.args) (l.stringify v) 300)) from

  -- The cache is sourced, and the answer is one to a post for this call.
  abbrev pub Sourced : ToolCall → Answer → Gateway → Type 0
  Sourced c v s = IsSourced s × Answers c v s.sent

  store-Sourced :
      (w : World) (c : ToolCall) (v : Answer) (s : Gateway)
      → HasDigests l
      → Sourced c v s
      → Sourced c v (store l w c v s).1
  unfolding store cache_set
  store-Sourced w c v s same (sourced, from) = elim (Bool-cases (is_cacheable c.tool)) [
    | inl cached ↦
        if_both {A = Action Gateway Unit} (λ m. Sourced c v (m s).1)
          (is_cacheable c.tool && succeeded v)
          (cache_set l w (cache_key l c.tool c.user_id c.args) v 300) (pure tt)
          (
            stored-IsSourced w c v s same cached sourced from,
            sent_within w c v s same cached sourced from,
          )
          (sourced, from)
    | inr plain ↦
        subst
          (λ b.
            Sourced c v
              ((if b && succeeded v
                  then cache_set l w (cache_key l c.tool c.user_id c.args) v 300
                  else pure {S = Gateway} (tt {0}))
                s).1)
          (sym plain) (sourced, from)
  ]

  within-Sourced :
      (c : ToolCall) (v : Answer) (s t : Gateway) → IsWithin s t → Sourced c v s → Sourced c v t
  within-Sourced c v s t h (sourced, from) =
      (within-IsSourced s t h sourced, subst (λ xs. Answers c v xs) (sym h.same_sent) from)

  pub accept-Sourced :
      (w : World) (c : ToolCall) (v : Answer) (s : Gateway)
      → HasDigests l
      → Sourced c v s
      → Sourced c v (accept l w c v s).1
  unfolding accept
  accept-Sourced w c v s same h =
      bind_keeps (Sourced c v) (store l w c v) (λ _. invalidate l w c v) s
        (store-Sourced w c v s same h)
        (λ _ t k. within-Sourced c v t (invalidate l w c v t).1 (invalidate-IsWithin w t c v) k)

  pub accept-answer :
      (w : World) (c : ToolCall) (v x : Answer) (s : Gateway) → (accept l w c v s).0 ≡ ok x → x ≡ v
  unfolding accept
  accept-answer w c v x s e = ground arith
