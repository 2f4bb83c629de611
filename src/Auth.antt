-- ===== src/Auth.antt =====
-- auth-service (apps/auth-service/src/modules): the login with Swiggy, the stored tokens and the
-- logout; Auth/Vault is the token vault, Auth/Guard the check of api-gateway. `Library` stands for
-- the packages' code, `World` for what the clock, the random source, Swiggy and the event bus do.
pub mod Vault
pub mod Guard
pub mod Api
pub mod Login
pub mod Logout
pub mod Proxy
use gusto_backend.Common.{
  ℕ, ◌+◌, ◌*◌, ◌/◌, ◌-◌, String, Bool, true, false, not, ◌&&◌, Option, none, some, List, [], ◌∷◌,
  if◌then◌else◌, str_eq, ltb, leb, keep, map,
}
use gusto_backend.Common.Dict.{Dict, lookup, insert, erase}
use gusto_backend.Common.Text.{◌++◌, starts_with, drop}
use gusto_backend.Common.Http.{
  Result, ok, err, Action, ◌>>=◌, ◌>>◌, pure, throw, throw_if, or_throw, HttpError, bad_request,
  unauthorized, not_found, internal, service_unavailable,
}
use gusto_backend.Auth.Vault.{Cipher, encrypt, decrypt}

-- `model PendingAuthSession`; `state` is the key of the table.
pub record Session : Type 0 where
  pub user_id : String
  pub code_verifier : String
  pub redirect_uri : String
  pub expires_at : ℕ  -- ms

-- `model User`; `id` is the key of the table.
pub record User : Type 0 where
  pub pref_profile : String
  pub encrypted_mcp_token : Option String
  pub mcp_token_expires_at : Option ℕ  -- ms
  pub mcp_token_scope : Option String

-- What `jwt.verify` returns: the fields that the code reads, where they have their type.
pub record Claims : Type 0 where
  pub sub : Option String
  pub jti : Option String
  pub exp : Option ℕ  -- s

pub record Library : Type 0 where
  pub cipher : Cipher
  pub code_challenge : String → String  -- base64url of the SHA-256
  pub sign : String → String → ℕ → String  -- `jwt.sign` of `sub` and `jti`, at a time
  pub verify : ℕ → String → Option Claims  -- `jwt.verify` at a time in ms

pub record Config : Type 0 where
  pub base_url : String
  pub client_id : String
  pub redirect_uri : String
  pub scope : String
  pub internal_secret : String

pub record TokenResponse : Type 0 where
  pub access_token : String
  pub expires_in : ℕ
  pub scope : String

-- Swiggy's answer to a token request.
pub data TokenReply : Type 0 where
  granted : TokenResponse → TokenReply
  rejected unreachable other_error : TokenReply

-- What a token request sends beside `grant_type` and `client_id`.
pub record TokenRequest : Type 0 where
  pub code : String
  pub code_verifier : String
  pub redirect_uri : String

pub record World : Type 0 where
  pub now : ℕ  -- ms
  pub random_state : String
  pub random_verifier : String
  pub random_iv : String
  pub uuid : String
  pub swiggy : TokenReply
  pub bus : Bool  -- the event bus takes what is published

pub record Auth : Type 0 where
  pub sessions : Dict Session
  pub users : Dict User
  pub blocklist : Dict ℕ  -- the ms at which the Redis key expires
  pub events : List String  -- the users of `UserAuthenticated`
  pub token_requests : List TokenRequest  -- what went out to Swiggy, newest first

pub record Url : Type 0 where
  pub base : String
  pub path : String
  pub query : List (String × String)

pub data Answer : Type 0 where
  challenge : Url → String → Answer
  signed_in : String → String → Answer
  valid_until : ℕ → Answer
  reauthentication_required : Url → String → Answer
  mcp_token : String → Answer
  profile : String → String → Answer
  done : Answer

abbrev pub pending_session_ttl_ms : ℕ
pending_session_ttl_ms = 600000

abbrev pub reauth_threshold_ms : ℕ
reauth_threshold_ms = 60000

-- `deleteMany({ where: { expiresAt: { lt: new Date() } } })`
unfoldable pub sweep_expired_sessions : World → Action Auth (Unit {0})
sweep_expired_sessions w s =
    (ok tt, record s { sessions = keep (λ p. not (ltb p.1.expires_at w.now)) s.sessions })

-- `.catch(() => undefined)`: a row that is gone is none to delete.
abbrev pub delete_session : String → Action Auth (Unit {0})
delete_session state s = (ok tt, record s { sessions = erase state s.sessions })

abbrev pub build_authorization_url : Config → String → String → Url
build_authorization_url config code_challenge state = record {
  base = config.base_url;
  path = "/auth/authorize";
  query =
      ("response_type", "code")
      ∷ ("client_id", config.client_id)
      ∷ ("redirect_uri", config.redirect_uri)
      ∷ ("code_challenge", code_challenge)
      ∷ ("code_challenge_method", "S256")
      ∷ ("state", state)
      ∷ ("scope", config.scope)
      ∷ [];
}

-- `create`: the state is the primary key.
unfoldable pub create_session : String → Session → Action Auth (Unit {0})
create_session state session s = elim (lookup state s.sessions) [
  | some old ↦ (err internal, s)
  | none ↦ (ok tt, record s { sessions = insert state session s.sessions })
]

unfoldable pub start_pkce_flow : Library → Config → World → String → Action Auth (Url × String)
start_pkce_flow l config w user = do
  sweep_expired_sessions w
  create_session w.random_state (record {
    user_id = user;
    code_verifier = w.random_verifier;
    redirect_uri = config.redirect_uri;
    expires_at = w.now + pending_session_ttl_ms;
  })
  pure (
    build_authorization_url config (l.code_challenge w.random_verifier) w.random_state,
    w.random_state,
  )

-- `requestToken`: the answers of Swiggy as exceptions.
abbrev pub request_token : World → TokenRequest → Action Auth TokenResponse
request_token w r s = (
  elim w.swiggy [
    | granted t ↦ ok t
    | rejected ↦ err unauthorized
    | unreachable ↦ err service_unavailable
    | other_error ↦ err internal
  ],
  record s { token_requests = r ∷ s.token_requests },
)

-- `findUnique` and the test of the session; an expired one is deleted.
unfoldable pub check_session : World → String → Action Auth Session
check_session w state s = elim (lookup state s.sessions) [
  | none ↦ (err unauthorized, s)
  | some session ↦
      if ltb session.expires_at w.now
      then (err unauthorized, (delete_session state s).1)
      else (ok session, s)
]

-- The upsert: an update keeps the profile.
abbrev pub with_token : Option User → String → ℕ → String → User
with_token old encrypted expires scope = record {
  pref_profile = elim old [ none ↦ "{}" | some u ↦ u.pref_profile ];
  encrypted_mcp_token = some encrypted;
  mcp_token_expires_at = some expires;
  mcp_token_scope = some scope;
}

abbrev pub save_token : Library → World → String → TokenResponse → Action Auth (Unit {0})
save_token l w user t s = (
  ok tt,
  record s {
    users =
        insert user
          (with_token (lookup user s.users) (encrypt l.cipher w.random_iv t.access_token)
            (w.now + t.expires_in * 1000) t.scope)
          s.users;
  },
)

abbrev pub publish_user_authenticated : World → String → Action Auth (Unit {0})
publish_user_authenticated w user s =
    if w.bus then (ok tt, record s { events = user ∷ s.events }) else (err internal, s)

-- Behind the test of the session.
unfoldable pub redeem : Library → World → String → String → Session → Action Auth Answer
redeem l w code state session = do
  t ← request_token w (record {
    code = code;
    code_verifier = session.code_verifier;
    redirect_uri = session.redirect_uri;
  })
  save_token l w session.user_id t
  delete_session state
  publish_user_authenticated w session.user_id
  pure (signed_in (l.sign session.user_id w.uuid w.now) session.user_id)

unfoldable pub exchange_code_for_token : Library → World → String → String → Action Auth Answer
exchange_code_for_token l w code state = do
  session ← check_session w state
  redeem l w code state session

-- An empty encrypted token counts as none.
abbrev pub usable_token : Option String → Option String
usable_token none = none
usable_token (some t) = if str_eq t "" then none else some t

-- `stillValid`
abbrev pub valid_expiry : World → Option User → Option ℕ
valid_expiry w none = none
valid_expiry w (some u) = elim (usable_token u.encrypted_mcp_token) [
  | none ↦ none
  | some t ↦ elim u.mcp_token_expires_at [
    | none ↦ none
    | some e ↦ if ltb (w.now + reauth_threshold_ms) e then some e else none
  ]
]

unfoldable pub refresh : Library → Config → World → String → Action Auth Answer
refresh l config w user s = elim (valid_expiry w (lookup user s.users)) [
  | some e ↦ (ok (valid_until e), s)
  | none ↦ (do c ← start_pkce_flow l config w user; pure (reauthentication_required c.0 c.1)) s
]

-- The stored token with its expiry, where there are both.
abbrev pub stored_token : Option User → Option (String × ℕ)
stored_token none = none
stored_token (some u) = elim (usable_token u.encrypted_mcp_token) [
  | none ↦ none
  | some t ↦ elim u.mcp_token_expires_at [ none ↦ none | some e ↦ some (t, e) ]
]

unfoldable pub get_decrypted_mcp_token : Library → World → String → Action Auth Answer
get_decrypted_mcp_token l w user s = (
  elim (stored_token (lookup user s.users)) [
    | none ↦ err unauthorized
    | some (t, e) ↦
        if ltb e w.now
        then err unauthorized
        else elim (decrypt l.cipher t) [ none ↦ err internal | some raw ↦ ok (mcp_token raw) ]
  ],
  s,
)

unfoldable pub get_preference_profile : String → Action Auth Answer
get_preference_profile user s = (
  elim (lookup user s.users) [ none ↦ err not_found | some u ↦ ok (profile user u.pref_profile) ],
  s,
)
