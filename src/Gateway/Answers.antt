-- ===== src/Gateway/Answers.antt =====
-- Whose answers `callTool` returns.
use gusto_backend.Common.{
  ℕ, zero, suc, ◌-◌, String, true, some, List, [], ◌∷◌, ◌≡◌, ◌≢◌, if_both, Option-cases, refl, sym,
  ap, subst, arith, inl, inr,
}
use gusto_backend.Common.Dict.{lookup}
use gusto_backend.Common.Http.{Result, ok, err, HttpError}
use gusto_backend.Gateway.{
  cache_key, is_cacheable, is_retryable, final_error, accept, try_tool, call_tool, call_tools,
  initial, max_attempts, send_tool, truthy_answer,
}
use gusto_backend.Gateway.Redis.{
  Gateway, World, Library, Cell, ToolCall, Answer, get_token, live, parsed, answered,
}
use gusto_backend.Gateway.Keys.{HasDigests}
use gusto_backend.Gateway.Calls.{Reply-cases, posted, paused, call_tool-cases, cached_answer}
use gusto_backend.Gateway.Sources.{
  Answers, IsSourced, accept-Sourced, accept-answer, get_token-IsWithin, within-IsSourced,
}

err≢ok : {A : Type 0} (e : HttpError) (v : A) → err e ≢ ok v
err≢ok e v = λ p. ground arith

module _ (l : Library) (w : World) (c : ToolCall) (same : HasDigests l) where
  -- What a loop leaves.
  record IsFetched (out : Result Answer × Gateway) : Type 0 where
    sourced : IsSourced l out.1
    own : (v : Answer) → out.0 ≡ ok v → Answers l c v out.1.sent

  posted-IsSourced : (n : ℕ) (s : Gateway) → IsSourced l s → IsSourced l (posted l w c n s)
  posted-IsSourced n s h tool user args cell k e =
      let (v, is, from) = h tool user args cell k e in (v, is, inr from)

  accepted-IsFetched :
      (n : ℕ) (v : Answer) (s : Gateway)
      → w.replies n ≡ answered v
      → IsSourced l s
      → IsFetched (accept l w c v (posted l w c n s))
  accepted-IsFetched n v s e h =
      let own : Answers l c v (posted l w c n s).sent =
        inl (record { same_tool = refl; same_user = refl; same_args = refl; same_answer = e }) in
      let (left, from) =
        accept-Sourced l w c v (posted l w c n s) same (posted-IsSourced n s h, own) in
      record {
        sourced = left;
        own = λ x f.
            subst (λ y. Answers l c y (accept l w c v (posted l w c n s)).1.sent)
              (sym (accept-answer l w c v x (posted l w c n s) f)) from;
      }

  refused-IsFetched :
      (n : ℕ) (e : HttpError) (s : Gateway) → IsSourced l s → IsFetched (err e, posted l w c n s)
  refused-IsFetched n e s h = record {
    sourced = posted-IsSourced n s h;
    own = λ v f. absurd (err≢ok e v f);
  }

  try_tool-IsFetched :
      (left n : ℕ) (s : Gateway) → IsSourced l s → IsFetched (try_tool l w c left n s)
  unfolding try_tool
  try_tool-IsFetched zero n s h = elim (Reply-cases (w.replies n)) [
    | inl (v, e) ↦ rw (try_tool, e) (accepted-IsFetched n v s e h)
    | inr (f, e) ↦ rw (try_tool, e) (refused-IsFetched n (final_error f) s h)
  ]
  try_tool-IsFetched (suc left) n s h = elim (Reply-cases (w.replies n)) [
    | inl (v, e) ↦ rw (try_tool, e) (accepted-IsFetched n v s e h)
    | inr (f, e) ↦
        rw (try_tool, e)
          (if_both IsFetched (is_retryable f (suc n))
            (try_tool l w c left (suc n) (paused l w c n s)) (err (final_error f), posted l w c n s)
            (try_tool-IsFetched left (suc n) (paused l w c n s) (posted-IsSourced n s h))
            (refused-IsFetched n (final_error f) s h))
  ]

  send_tool-IsFetched : (s : Gateway) → IsSourced l s → IsFetched (send_tool l w c s)
  send_tool-IsFetched s h =
      let t = (get_token w c.user_id s).1 in
      let ht : IsSourced l t = within-IsSourced l s t (get_token-IsWithin l w s c.user_id) h in
      by_token (get_token w c.user_id s) ht
    where
      by_token :
          (r : Result String × Gateway)
          → IsSourced l r.1
          → IsFetched (elim r.0 as (λ _. Result Answer × Gateway) [
            | ok token ↦ try_tool l w c (max_attempts c.tool - 1) 0 r.1
            | err e ↦ (err e, r.1)
          ])
      by_token (ok token, t) k = try_tool-IsFetched (max_attempts c.tool - 1) 0 t k
      by_token (err e, t) k = record { sourced = k; own = λ v f. absurd (err≢ok e v f) }

  -- A hit is a text of the cache, parsed.
  hit_cell :
      (v : Answer) (s : Gateway)
      → cached_answer l w c s ≡ some v
      → (cell : Cell) × (lookup (cache_key l c.tool c.user_id c.args) s.redis ≡ some cell)
        × (l.parse cell.value ≡ some v)
  hit_cell v s e = elim (Option-cases (lookup (cache_key l c.tool c.user_id c.args) s.redis)) [
    | inl none_there ↦ absurd (ground arith)
    | inr (cell, there) ↦ (cell, there, hit_text cell (ground arith))
  ]
    where
      hit_text :
          (cell : Cell)
          → truthy_answer (parsed l (live w.now (some cell))) ≡ some v
          → l.parse cell.value ≡ some v
      hit_text cell h = elim (Option-cases (l.parse cell.value)) [
        | inl e ↦ ground arith
        | inr (x, e) ↦ ground arith
      ]

  hit-Answers :
      (v : Answer) (s : Gateway)
      → ((x : Answer) → l.parse (l.stringify x) ≡ some x)
      → IsSourced l s
      → is_cacheable c.tool ≡ true
      → cached_answer l w c s ≡ some v
      → Answers l c v s.sent
  hit-Answers v s back h k e =
      let (cell, there, parses) = hit_cell v s e in
      let (x, is, from) = h c.tool c.user_id c.args cell k there in
      subst (λ y. Answers l c y s.sent) (ground (arith, back x, ap l.parse is)) from

  call_tool-IsFetched :
      (s : Gateway)
      → ((x : Answer) → l.parse (l.stringify x) ≡ some x)
      → IsSourced l s
      → IsFetched (call_tool l w c s)
  call_tool-IsFetched s back h = elim (call_tool-cases l w c s) [
    | inl e ↦ subst IsFetched (sym e) (send_tool-IsFetched s h)
    | inr (inl e) ↦
        subst IsFetched (sym e) (record { sourced = h; own = λ v f. absurd (err≢ok _ v f) })
    | inr (inr (v, e, k, hit)) ↦ subst IsFetched (sym e) (record {
      sourced = h;
      own = λ x f. subst (λ y. Answers l c y s.sent) (ground arith) (hit-Answers v s back h k hit);
    })
  ]

call_tools-IsSourced :
    (l : Library) (cs : List (World × ToolCall)) (s : Gateway)
    → HasDigests l
    → ((x : Answer) → l.parse (l.stringify x) ≡ some x)
    → IsSourced l s
    → IsSourced l (call_tools l cs s)
unfolding call_tools
call_tools-IsSourced l [] s same back h = h
call_tools-IsSourced l ((w, c) ∷ cs) s same back h =
    call_tools-IsSourced l cs (call_tool l w c s).1 same back
      (call_tool-IsFetched l w c same s back h).sourced

initial-IsSourced : (l : Library) → IsSourced l initial
unfolding lookup
initial-IsSourced l tool user args cell k e = absurd (ground arith)

-- After any calls, by any users, on an empty cache: where digests have one length and JSON texts read
-- back as what they were written from, the answer that a call returns, out of the cache or not, was
-- Swiggy's answer to a post for the same tool, by the same user and with arguments of the same digest.
pub call_tool_own_answer :
    (l : Library) (before_it : List (World × ToolCall)) (w : World) (c : ToolCall) (v : Answer)
    → HasDigests l
    → ((x : Answer) → l.parse (l.stringify x) ≡ some x)
    → (call_tool l w c (call_tools l before_it initial)).0 ≡ ok v
    → Answers l c v (call_tool l w c (call_tools l before_it initial)).1.sent
call_tool_own_answer l cs w c v same back e =
    let s = call_tools l cs initial in
    (call_tool-IsFetched l w c same s back
        (call_tools-IsSourced l cs initial same back (initial-IsSourced l))).own
      v e
