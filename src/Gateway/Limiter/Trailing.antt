-- ===== src/Gateway/Limiter/Trailing.antt =====
-- The sliding window of rate-limiter.middleware.ts against the requests of the last 60 seconds.
use gusto_backend.Common.{
  ℕ, suc, ◌+◌, ◌-◌, ◌≤◌, String, Bool, false, some, List, [], ◌∷◌, if◌then◌else◌, str_eq, leb,
  length, ◌≡◌, refl, ap, ◌∙◌, arith,
}
use gusto_backend.Common.Dict.{Dict, lookup}
use gusto_backend.Common.Text.{split, last_of}
use gusto_backend.Common.Http.{Result, ok, err, too_many_requests}
use gusto_backend.Gateway.Limiter.{
  Window, Hit, write_tool, limit_key, live_scores, fresh, limit_of, limit_rate, limit_rates,
}
use gusto_backend.Gateway.Limiter.Tracking.{IsTracking, plus, hit-IsTracking, live_fresh}
use gusto_backend.Gateway.Limiter.Tracking.Keys.{InOrder, last_time, recent}

initial-IsTracking : (n : ℕ) → IsTracking (λ t writes user. 0) [] n
unfolding lookup
initial-IsTracking n = record {
  tracked = λ t writes user k. refl;
  lives = λ key w e. absurd (ground arith);
}

requests-IsTracking :
    (write_limit read_limit : ℕ) (hs : List Hit) (counts : ℕ → Bool → String → ℕ) (m : Dict Window)
    (n : ℕ)
    → InOrder n hs
    → IsTracking counts m n
    → IsTracking
        (λ t writes user. recent t writes user hs + counts t writes user)
        (limit_rates write_limit read_limit hs m)
        (last_time n hs)
unfolding limit_rates recent
requests-IsTracking wl rl [] counts m n order state = record {
  tracked = λ t writes user k. ground (arith, state.tracked t writes user k);
  lives = state.lives;
}
requests-IsTracking wl rl (h ∷ hs) counts m n (first, order) state =
    let next =
      requests-IsTracking wl rl hs (plus h counts) (limit_rate wl rl h m).1 h.now order
        (hit-IsTracking wl rl counts m n h first state) in
    record {
      tracked = λ t writes user k. ground (arith, next.tracked t writes user k);
      lives = next.lives;
    }

-- The answer to a count.
abbrev judged : ℕ → ℕ → Result ℕ
judged limit count = if leb count limit then ok (limit - count) else err too_many_requests

limit_answer :
    (write_limit read_limit : ℕ) (h : Hit) (user : String) (m : Dict Window)
    → h.user_id ≡ some user
    → str_eq user "" ≡ false
    → let writes = write_tool (last_of (split "/" h.path)) in
      (limit_rate write_limit read_limit h m).0
      ≡ judged
          (limit_of write_limit read_limit writes)
          (suc (length (fresh h.now (live_scores h.now (lookup (limit_key writes user) m)))))
unfolding limit_rate
limit_answer wl rl h user m named there = ground arith

-- Whatever requests came before, their times in order: a request of a named user is let through
-- exactly when there were fewer requests of this user and of this class of tools, refused ones
-- included, in the 60 seconds up to it than the limit, and the answer states what is left of it.
pub limit_rate_trailing :
    (write_limit read_limit : ℕ) (hs : List Hit) (h : Hit) (user : String)
    → InOrder 0 hs
    → last_time 0 hs ≤ h.now
    → h.user_id ≡ some user
    → str_eq user "" ≡ false
    → let writes = write_tool (last_of (split "/" h.path)) in
      let count = suc (recent h.now writes user hs) in
      let limit = limit_of write_limit read_limit writes in
      (limit_rate write_limit read_limit h (limit_rates write_limit read_limit hs [])).0
      ≡ (if leb count limit then ok (limit - count) else err too_many_requests)
unfolding limit_rate
limit_rate_trailing wl rl hs h user order later named there =
    let writes = write_tool (last_of (split "/" h.path)) in
    let m = limit_rates wl rl hs [] in
    let state = requests-IsTracking wl rl hs (λ t c u. 0) [] 0 order (initial-IsTracking 0) in
    let o = lookup (limit_key writes user) m in
    let fresh_now : length (fresh h.now (live_scores h.now o)) ≡ recent h.now writes user hs + 0 =
      ap length (
        live_fresh o h.now h.now (omega arith) (λ w e. (state.lives (limit_key writes user) w e).0))
      ∙ state.tracked h.now writes user later in
    limit_answer wl rl h user m named there
    ∙ ap (judged (limit_of wl rl writes)) (ground (arith, fresh_now))
