-- ===== src/Auth/Proxy/Refused.antt =====
-- A session token at the routes of api-gateway once its user has logged out there.
use gusto_backend.Common.{
  ℕ, String, Bool, true, false, Option, none, some, List, [], ◌∷◌, ◌≡◌, ◌⊎◌, inl, inr, refl, sym,
  ap, ◌∙◌, subst, arith, Option-cases, Bool-cases,
}
use gusto_backend.Common.Http.{
  Result, ok, err, Action, ◌>>=◌, or_throw, internal, unauthorized, bind_ok, bind_err, bind_keeps,
}
use gusto_backend.Auth.{Auth, Library, Config, World, Answer, done}
use gusto_backend.Auth.Guard.{can_activate, bearer, verify_jwt, is_revoked}
use gusto_backend.Auth.Api.{
  AuthRequest, login_start, login_callback, token_refresh, logout_route, serve_auth,
  logout_by_header,
}
use gusto_backend.Auth.Logout.{IsJwt, Blocked, Found, logged_out, serve_auth-Keeps, Blocked-refused}
use gusto_backend.Auth.Proxy.{
  Transport, lost, unanswered, answered, upstream_error, forward, ProxyRequest, proxy_login_start,
  proxy_login_callback, proxy_refresh, proxy_logout, serve_proxy, Request, from_outside,
  from_within, serve_request, serve_requests,
}

-- The guard of a route that is not public: it names the user, or refuses.
guard-cases :
    (l : Library) (now : ℕ) (header : Option String) (s : Auth)
    → ((user : String) × (can_activate l now false header s ≡ (ok (some user), s)))
      ⊎ (can_activate l now false header s ≡ (err unauthorized, s))
unfolding can_activate
guard-cases l now header s = elim (Option-cases (bearer header)) [
  | inl h ↦ inr (rw h refl)
  | inr (token, h) ↦ elim (Option-cases (verify_jwt l now token)) [
    | inl v ↦ inr (rw (h, v) refl)
    | inr (p, v) ↦ elim (Bool-cases (is_revoked now p.jti s)) [
      | inl r ↦ inr (rw (h, v, r) refl)
      | inr r ↦ inl (p.sub, rw (h, v, r) refl)
    ]
  ]
]

-- A refused guard answers for the route.
refused :
    (l : Library) (now : ℕ) (header : Option String) (s : Auth)
    (f : Option String → Action Auth Answer)
    → (can_activate l now false header s).0 ≡ err unauthorized
    → (can_activate l now false header >>= f) s ≡ (err unauthorized, s)
refused l now header s f h = elim (guard-cases l now header s) [
  | inl (user, e) ↦ absurd (ground (arith, e))
  | inr e ↦ bind_err (can_activate l now false header) f s unauthorized s e
]

guard-state :
    (l : Library) (now : ℕ) (public : Bool) (header : Option String) (s : Auth)
    → (can_activate l now public header s).1 ≡ s
unfolding can_activate
guard-state l now true header s = refl
guard-state l now false header s = refl

upstream-ok : (r : Result Answer) (a : Answer) → upstream_error r ≡ ok a → r ≡ ok a
upstream-ok (ok b) a h = h
upstream-ok (err e) a h = absurd (ground arith)

-- A call that was answered well got there.
forwarded :
    (net : Transport) (call : Action Auth Answer) (s : Auth) (a : Answer)
    → (forward net call s).0 ≡ ok a
    → ((call s).0 ≡ ok a) × ((forward net call s).1 ≡ (call s).1)
unfolding forward
forwarded lost call s a h = absurd (ground arith)
forwarded unanswered call s a h = absurd (ground arith)
forwarded answered call s a h = (upstream-ok (call s).0 a h, refl)

-- What a logout at api-gateway that was answered well did at auth-service.
proxied_logout :
    (l : Library) (config : Config) (w : World) (net : Transport) (header : Option String)
    (s : Auth)
    → (serve_proxy l config w net (proxy_logout header) s).0 ≡ ok done
    → ((logout_by_header l w.now header s).0 ≡ ok done)
      × ((serve_proxy l config w net (proxy_logout header) s).1
          ≡ (logout_by_header l w.now header s).1)
unfolding serve_proxy serve_auth
proxied_logout l config w net header s h = elim (guard-cases l w.now header s) [
  | inr e ↦
      absurd (ground (arith, ap (λ r. r.0) (bind_err guard (λ u. passed) s unauthorized s e), h))
  | inl (user, e) ↦
      let same = bind_ok guard (λ u. passed) s (some user) s e in
      let (well, left) =
        forwarded net (logout_by_header l w.now header) s done (sym (ap (λ r. r.0) same) ∙ h) in
      (well, ap (λ r. r.1) same ∙ left)
]
  where
    guard : Action Auth (Option String)
    guard = can_activate l w.now false header

    passed : Action Auth Answer
    passed = forward net (logout_by_header l w.now header)

module _ (l : Library) (jwt : IsJwt l) (config : Config) (token jti : String) (e : ℕ)
    (found : Found l token jti e) where
  forward-Keeps :
      (net : Transport) (call : Action Auth Answer) (s : Auth)
      → Blocked jti e s
      → Blocked jti e (call s).1
      → Blocked jti e (forward net call s).1
  unfolding forward
  forward-Keeps lost call s b c = b
  forward-Keeps unanswered call s b c = c
  forward-Keeps answered call s b c = c

  guarded-Keeps :
      (w : World) (net : Transport) (public : Bool) (header : Option String)
      (r : Option String → AuthRequest) (s : Auth)
      → Blocked jti e s
      → Blocked jti e
          ((can_activate l w.now public header >>= λ u. forward net (serve_auth l config w (r u)))
            s).1
  guarded-Keeps w net public header r s b =
      bind_keeps (Blocked jti e) (can_activate l w.now public header)
        (λ u. forward net (serve_auth l config w (r u))) s
        (subst (Blocked jti e) (sym (guard-state l w.now public header s)) b)
        (λ u t k.
          forward-Keeps net (serve_auth l config w (r u)) t k
            (serve_auth-Keeps l jwt config token jti e found w (r u) t k))

  serve_proxy-Keeps :
      (w : World) (net : Transport) (r : ProxyRequest) (s : Auth)
      → Blocked jti e s
      → Blocked jti e (serve_proxy l config w net r s).1
  unfolding serve_proxy
  serve_proxy-Keeps w net (proxy_login_start header user) s b =
      guarded-Keeps w net true header (λ u. login_start user) s b
  serve_proxy-Keeps w net (proxy_login_callback header code state) s b =
      guarded-Keeps w net true header (λ u. login_callback code state) s b
  serve_proxy-Keeps w net (proxy_logout header) s b =
      guarded-Keeps w net false header (λ u. logout_route header) s b
  serve_proxy-Keeps w net (proxy_refresh header) s b =
      bind_keeps (Blocked jti e) (can_activate l w.now false header)
        (λ u. or_throw u internal >>= λ v. forward net (serve_auth l config w (token_refresh v))) s
        (subst (Blocked jti e) (sym (guard-state l w.now false header s)) b) named
    where
      named :
          (u : Option String) (t : Auth)
          → Blocked jti e t
          → Blocked jti e
              ((or_throw u internal >>= λ v. forward net (serve_auth l config w (token_refresh v)))
                t).1
      named none t k = k
      named (some v) t k =
          forward-Keeps net (serve_auth l config w (token_refresh v)) t k
            (serve_auth-Keeps l jwt config token jti e found w (token_refresh v) t k)

  serve_requests-Keeps :
      (rs : List Request) (s : Auth)
      → Blocked jti e s
      → Blocked jti e (serve_requests l config rs s)
  unfolding serve_requests serve_request
  serve_requests-Keeps [] s b = b
  serve_requests-Keeps (from_outside w net r ∷ rs) s b =
      serve_requests-Keeps rs (serve_proxy l config w net r s).1 (serve_proxy-Keeps w net r s b)
  serve_requests-Keeps (from_within w r ∷ rs) s b =
      serve_requests-Keeps rs (serve_auth l config w r s).1
        (serve_auth-Keeps l jwt config token jti e found w r s b)

-- After a logout at api-gateway that was answered well, and whatever requests api-gateway and
-- auth-service then serve, at whatever times and with whatever losses between the two: api-gateway
-- refuses a refresh and a logout with the same Authorization header and passes neither on, if
-- `jwt.verify` gives a token one payload, refuses expired ones, and tokens with one id expire
-- together.
pub logged_out_everywhere :
    (l : Library) (config : Config) (w later : World) (net again : Transport)
    (header : Option String) (s : Auth) (rs : List Request)
    → IsJwt l
    → (serve_proxy l config w net (proxy_logout header) s).0 ≡ ok done
    → let t = serve_requests l config rs (serve_proxy l config w net (proxy_logout header) s).1 in
      (serve_proxy l config later again (proxy_refresh header) t ≡ (err unauthorized, t))
      × (serve_proxy l config later again (proxy_logout header) t ≡ (err unauthorized, t))
unfolding serve_proxy
logged_out_everywhere l config w later net again header s rs jwt h =
    let (well, left) = proxied_logout l config w net header s h in
    let (token, jti, e, has, found, blocked) = logged_out l jwt w.now header s well in
    let kept =
      serve_requests-Keeps l jwt config token jti e found rs _
        (subst (Blocked jti e) (sym left) blocked) in
    let no = Blocked-refused l jwt config token jti e found later.now header _ has kept in
    (
      refused l later.now header _
          (λ u. or_throw u internal >>= λ v.
            forward again (serve_auth l config later (token_refresh v)))
          no,
      refused l later.now header _
          (λ u. forward again (serve_auth l config later (logout_route header))) no,
    )
