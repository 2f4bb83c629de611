-- ===== src/Gateway/Limiter.antt =====
-- `RateLimiterMiddleware.use` of rate-limiter.middleware.ts: the sorted set of a user's request times
-- in Redis.
pub mod Tracking
pub mod Trailing
use gusto_backend.Common.{
  ℕ, zero, suc, ◌+◌, ◌*◌, ◌-◌, String, Bool, true, false, Option, none, some, List, [], ◌∷◌, ◌||◌,
  if◌then◌else◌, str_eq, leb, ltb, length, keep,
}
use gusto_backend.Common.Dict.{Dict, lookup, insert}
use gusto_backend.Common.Text.{◌++◌, split, last_of}
use gusto_backend.Common.Http.{Result, ok, err, Action, bad_request, too_many_requests}

-- A sorted set as its scores, which the unique members leave all apart, with the time it expires.
pub record Window : Type 0 where
  pub scores : List ℕ
  pub expires : ℕ

-- A request, with the time of `Date.now()`.
pub record Hit : Type 0 where
  pub now : ℕ  -- ms
  pub user_id : Option String  -- the header `x-user-id`
  pub path : String

abbrev pub window_seconds : ℕ
window_seconds = 60

abbrev pub write_tool : String → Bool
write_tool tool =
    str_eq tool "update_food_cart"
    || str_eq tool "flush_food_cart"
    || str_eq tool "apply_food_coupon"
    || str_eq tool "place_food_order"
    || str_eq tool "report_error"

abbrev pub limit_key : Bool → String → String
limit_key writes user =
    "rate-limit:mcp:food:" ++ ((if writes then "write" else "read") ++ (":" ++ user))

-- The scores of a set that has not expired.
abbrev pub live_scores : ℕ → Option Window → List ℕ
live_scores now none = []
live_scores now (some w) = if ltb now w.expires then w.scores else []

-- `zremrangebyscore key 0 (now - 60000)`
abbrev pub fresh : ℕ → List ℕ → List ℕ
fresh now = keep (λ x. ltb now (x + window_seconds * 1000))

-- The pipeline: the old scores go, this one is added, counted, and the set's time to live set.
abbrev pub with_hit : ℕ → Option Window → Window
with_hit now w = record {
  scores = now ∷ fresh now (live_scores now w);
  expires = now + window_seconds * 1000;
}

abbrev pub limit_of : ℕ → ℕ → Bool → ℕ
limit_of write_limit read_limit writes = if writes then write_limit else read_limit

-- The limits are `RATE_LIMIT_WRITE` and `RATE_LIMIT_READ`. The answer is `X-RateLimit-Remaining`.
unfoldable pub limit_rate : ℕ → ℕ → Hit → Action (Dict Window) ℕ
limit_rate write_limit read_limit h m = elim h.user_id [
  | none ↦ (err bad_request, m)
  | some user ↦
      if str_eq user ""
      then (err bad_request, m)
      else let writes = write_tool (last_of (split "/" h.path)) in
        let w = with_hit h.now (lookup (limit_key writes user) m) in
        let limit = limit_of write_limit read_limit writes in
        (
          if leb (length w.scores) limit
              then ok (limit - length w.scores)
              else err too_many_requests,
          insert (limit_key writes user) w m,
        )
]

unfoldable pub limit_rates : ℕ → ℕ → List Hit → Dict Window → Dict Window
limit_rates write_limit read_limit [] m = m
limit_rates write_limit read_limit (h ∷ hs) m =
    limit_rates write_limit read_limit hs (limit_rate write_limit read_limit h m).1
