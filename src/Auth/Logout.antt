-- ===== src/Auth/Logout.antt =====
-- A session token after its logout: the blocklist of jwt.middleware.ts against `jwt.verify`.
use gusto_backend.Common.{
  ℕ, zero, suc, ◌+◌, ◌*◌, ◌/◌, ◌-◌, ◌≤◌, ◌<◌, String, false, Option, none, some, List, [], ◌∷◌,
  if_both, ◌≡◌, refl, sym, ap, ◌∙◌, subst, arith, inl, inr, ◌⊎◌, Option-cases, Bool-cases, str_eq,
  str_eq_iff,
}
use gusto_backend.Common.Dict.{lookup, lookup-insert, lookup-insert_self}
use gusto_backend.Common.Text.{behind_inj}
use gusto_backend.Common.Http.{ok, err, Action, pure, throw, bind_keeps, unauthorized}
use gusto_backend.Auth.{
  Auth, Library, Config, World, Claims, Answer, challenge, done, start_pkce_flow,
  exchange_code_for_token, refresh, get_decrypted_mcp_token, get_preference_profile,
  sweep_expired_sessions, create_session, check_session, redeem,
}
use gusto_backend.Auth.Guard.{
  blocklist_key, revoke, is_revoked, with_expiry, logout, bearer, can_activate, verify_jwt,
}
use gusto_backend.Auth.Api.{
  AuthRequest, login_start, token_refresh, login_callback, logout_route, internal_token,
  internal_profile, sweep, has_secret, logout_by_header, serve_auth, serve_auths,
}

-- What jsonwebtoken does: a token has one payload, an expired token is refused, and two tokens with
-- one id, which is a random UUID, expire together.
pub record IsJwt (l : Library) : Type 0 where
  pub same_claims :
      (n m : ℕ) (t : String) (c d : Claims) → l.verify n t ≡ some c → l.verify m t ≡ some d → c ≡ d
  pub not_expired :
      (n : ℕ) (t : String) (c : Claims) (e : ℕ)
      → l.verify n t ≡ some c
      → c.exp ≡ some e
      → n / 1000 < e
  pub expire_together :
      (n m : ℕ) (t u : String) (c d : Claims)
      → l.verify n t ≡ some c
      → l.verify m u ≡ some d
      → c.jti ≡ d.jti
      → c.exp ≡ d.exp

-- The id is on the blocklist until the expiry.
abbrev pub Blocked : String → ℕ → Auth → Type 0
Blocked jti e s = (x : ℕ) × (lookup (blocklist_key jti) s.blocklist ≡ some x) × (1000 * e ≤ x)

-- The claims that a logout found.
abbrev pub Found : Library → String → String → ℕ → Type 0
Found l token jti e =
    (n : ℕ) × (c : Claims) × (l.verify n token ≡ some c) × (c.jti ≡ some jti) × (c.exp ≡ some e)

revoke-Blocked :
    (now e : ℕ) (jti : String) (s : Auth)
    → now / 1000 < e
    → Blocked jti e (revoke now jti (e - now / 1000) s).1
unfolding revoke
revoke-Blocked now e jti s h = by_ttl (e - now / 1000) (omega arith)
  where
    by_ttl : (ttl : ℕ) → e ≤ ttl + now / 1000 → Blocked jti e (revoke now jti ttl s).1
    by_ttl zero k = absurd (omega arith)
    by_ttl (suc ttl) k = (
      now + 1000 * suc ttl,
      lookup-insert_self (blocklist_key jti) (now + 1000 * suc ttl) s.blocklist,
      omega arith,
    )

revoke-Keeps :
    (now ttl e : ℕ) (jti other : String) (s : Auth)
    → Blocked jti e s
    → (other ≡ jti → 1000 * e ≤ now + 1000 * ttl)
    → Blocked jti e (revoke now other ttl s).1
unfolding revoke
revoke-Keeps now zero e jti other s b k = b
revoke-Keeps now (suc ttl) e jti other s (x, there, late) k =
    elim (Bool-cases (str_eq (blocklist_key other) (blocklist_key jti))) [
      | inl same ↦ (
        now + 1000 * suc ttl,
        ground (
          arith,
          lookup-insert (blocklist_key other) (blocklist_key jti) (now + 1000 * suc ttl)
              s.blocklist,
        ),
        k (behind_inj "jwt:blocklist:" other jti ((str_eq_iff _ _).0 same)),
      )
      | inr apart ↦ (
        x,
        ground (
          arith,
          lookup-insert (blocklist_key other) (blocklist_key jti) (now + 1000 * suc ttl)
              s.blocklist,
        ),
        late,
      )
    ]

with_expiry-found :
    (o : Option Claims) (jti : String) (e : ℕ)
    → with_expiry o ≡ some (jti, e)
    → (c : Claims) × (o ≡ some c) × (c.jti ≡ some jti) × (c.exp ≡ some e)
with_expiry-found none jti e h = absurd (ground arith)
with_expiry-found (some c) jti e h = (c, refl, ground arith, ground arith)

-- The two ways of a logout.
logout-cases :
    (l : Library) (now : ℕ) (token : String) (s : Auth)
    → (logout l now token s ≡ (err unauthorized, s))
      ⊎ ((jti : String) × (e : ℕ) × (with_expiry (l.verify now token) ≡ some (jti, e))
          × (logout l now token s ≡ revoke now jti (e - now / 1000) s))
unfolding logout
logout-cases l now token s = elim (Option-cases (with_expiry (l.verify now token))) [
  | inl e ↦ inl (ground arith)
  | inr ((jti, exp), e) ↦ inr (jti, exp, e, ground arith)
]

module _ (l : Library) (jwt : IsJwt l) (config : Config) (token jti : String) (e : ℕ)
    (found : Found l token jti e) where
  -- No logout takes the id off the list too early.
  logout-Keeps :
      (now : ℕ) (other : String) (s : Auth)
      → Blocked jti e s
      → Blocked jti e (logout l now other s).1
  logout-Keeps now other s b = elim (logout-cases l now other s) [
    | inl h ↦ subst (λ r. Blocked jti e r.1) (sym h) b
    | inr (id, exp, h, is) ↦
        let (d, verified, its_id, its_exp) = with_expiry-found (l.verify now other) id exp h in
        let (n, c, was, was_id, was_exp) = found in
        subst (λ r. Blocked jti e r.1) (sym is)
          (revoke-Keeps now (exp - now / 1000) e jti id s b (λ same.
            let alive = jwt.not_expired now other d exp verified its_exp in
            let together =
              jwt.expire_together n now token other c d was verified
                (was_id ∙ ap some (sym same) ∙ sym its_id) in
            let equal : e ≡ exp = ground (arith, together) in omega (arith, alive, equal)))
  ]

  -- The others do not write the list.
  abbrev Keeps : {A : Type 0} → Action Auth A → Type 0
  Keeps m = (s : Auth) → Blocked jti e s → Blocked jti e (m s).1

  same_list : (s t : Auth) → t.blocklist ≡ s.blocklist → Blocked jti e s → Blocked jti e t
  same_list s t h (x, there, late) = (x, ap (lookup (blocklist_key jti)) h ∙ there, late)

  start-Keeps : (w : World) (user : String) → Keeps (start_pkce_flow l config w user)
  unfolding start_pkce_flow sweep_expired_sessions create_session
  start-Keeps w user s b = same_list s (start_pkce_flow l config w user s).1 (ground arith) b

  exchange-Keeps :
      (w : World) (code state : String) → Keeps (exchange_code_for_token l w code state)
  unfolding exchange_code_for_token check_session redeem
  exchange-Keeps w code state s b =
      same_list s (exchange_code_for_token l w code state s).1 (ground arith) b

  refresh-Keeps : (w : World) (user : String) → Keeps (refresh l config w user)
  unfolding refresh start_pkce_flow sweep_expired_sessions create_session
  refresh-Keeps w user s b = same_list s (refresh l config w user s).1 (ground arith) b

  header-Keeps : (now : ℕ) (header : Option String) → Keeps (logout_by_header l now header)
  unfolding logout_by_header
  header-Keeps now header s b = elim (Option-cases (bearer header)) [
    | inl h ↦ rw (logout_by_header, h) b
    | inr (other, h) ↦
        rw (logout_by_header, h)
          (bind_keeps (Blocked jti e) (logout l now other) (λ _. pure done) s
            (logout-Keeps now other s b) (λ _ t k. k))
  ]

  pub serve_auth-Keeps : (w : World) (r : AuthRequest) → Keeps (serve_auth l config w r)
  unfolding serve_auth get_decrypted_mcp_token get_preference_profile sweep_expired_sessions
  serve_auth-Keeps w (login_start user) s b =
      bind_keeps (Blocked jti e) (start_pkce_flow l config w user) (λ c. pure (challenge c.0 c.1)) s
        (start-Keeps w user s b) (λ _ t k. k)
  serve_auth-Keeps w (login_callback code state) s b = exchange-Keeps w code state s b
  serve_auth-Keeps w (token_refresh user) s b = refresh-Keeps w user s b
  serve_auth-Keeps w (logout_route header) s b = header-Keeps w.now header s b
  serve_auth-Keeps w (internal_token secret user) s b =
      if_both {A = Action Auth Answer} (λ m. Blocked jti e (m s).1) (has_secret config secret)
        (get_decrypted_mcp_token l w user) (throw unauthorized) b b
  serve_auth-Keeps w (internal_profile secret user) s b =
      if_both {A = Action Auth Answer} (λ m. Blocked jti e (m s).1) (has_secret config secret)
        (get_preference_profile user) (throw unauthorized) b b
  serve_auth-Keeps w sweep s b = b

  serve_auths-Keeps :
      (rs : List (World × AuthRequest)) (s : Auth)
      → Blocked jti e s
      → Blocked jti e (serve_auths l config rs s)
  unfolding serve_auths
  serve_auths-Keeps [] s b = b
  serve_auths-Keeps ((w, r) ∷ rs) s b =
      serve_auths-Keeps rs (serve_auth l config w r s).1 (serve_auth-Keeps w r s b)

  -- A blocked token passes at no time: it is refused by `jwt.verify`, or it is on the list.
  pub Blocked-refused :
      (later : ℕ) (header : Option String) (s : Auth)
      → bearer header ≡ some token
      → Blocked jti e s
      → (can_activate l later false header s).0 ≡ err unauthorized
  unfolding can_activate verify_jwt is_revoked
  Blocked-refused later header s h (x, there, late) = elim (Option-cases (l.verify later token)) [
    | inl none_valid ↦ ground arith
    | inr (d, verified) ↦
        let (n, c, was, was_id, was_exp) = found in
        let same : c ≡ d = jwt.same_claims n later token c d was verified in
        let alive =
          jwt.not_expired later token d e verified (ap (λ k. k.exp) (sym same) ∙ was_exp) in
        let id : d.jti ≡ some jti = ap (λ k. k.jti) (sym same) ∙ was_id in
        let listed : later < x = omega (arith, alive, late) in ground (arith, id, there, listed)
  ]

-- What a logout that was answered well did.
pub logged_out :
    (l : Library) (jwt : IsJwt l) (n : ℕ) (header : Option String) (s : Auth)
    → (logout_by_header l n header s).0 ≡ ok done
    → (token : String) × (jti : String) × (e : ℕ) × (bearer header ≡ some token)
      × Found l token jti e
      × Blocked jti e (logout_by_header l n header s).1
unfolding logout_by_header
logged_out l jwt n header s h = elim (Option-cases (bearer header)) [
  | inl missing ↦ absurd (ground arith)
  | inr (token, has) ↦ elim (logout-cases l n token s) [
    | inl refused ↦ absurd (ground (arith, refused))
    | inr (jti, e, we, is) ↦
        let (c, verified, id, exp) = with_expiry-found (l.verify n token) jti e we in
        let blocked : Blocked jti e (logout l n token s).1 =
          subst (λ r. Blocked jti e r.1) (sym is)
            (revoke-Blocked n e jti s (jwt.not_expired n token c e verified exp)) in
        (
          token,
          jti,
          e,
          has,
          (n, c, verified, id, exp),
          rw (logout_by_header, has)
              (bind_keeps (Blocked jti e) (logout l n token) (λ _. pure done) s blocked
                (λ _ t k. k)),
        )
  ]
]

-- After a logout that was answered well, and whatever requests auth-service then serves, at whatever
-- times, api-gateway refuses every request with the same Authorization header on a route that is not
-- public, if `jwt.verify` gives a token one payload, refuses expired ones, and tokens with one id
-- expire together.
logged_out_is_refused :
    (l : Library) (config : Config) (n later : ℕ) (header : Option String) (s : Auth)
    (rs : List (World × AuthRequest))
    → IsJwt l
    → (logout_by_header l n header s).0 ≡ ok done
    → (can_activate l later false header
        (serve_auths l config rs (logout_by_header l n header s).1)).0
      ≡ err unauthorized
logged_out_is_refused l config n later header s rs jwt h =
    let (token, jti, e, has, found, blocked) = logged_out l jwt n header s h in
    Blocked-refused l jwt config token jti e found later header
      (serve_auths l config rs (logout_by_header l n header s).1) has
      (serve_auths-Keeps l jwt config token jti e found rs (logout_by_header l n header s).1
        blocked)
