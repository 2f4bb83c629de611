-- ===== src/Auth/Guard.antt =====
-- The session tokens: packages/auth-middleware/src/jwt.middleware.ts, jwt-issuer.service.ts, the
-- logout of oauth.service.ts, and apps/api-gateway/src/auth/jwt-auth.guard.ts. api-gateway and
-- auth-service have one secret and one Redis.
use gusto_backend.Common.{
  ℕ, zero, suc, ◌+◌, ◌*◌, ◌/◌, ◌-◌, String, Bool, true, false, Option, none, some, if◌then◌else◌,
  ltb,
}
use gusto_backend.Common.Dict.{lookup, insert}
use gusto_backend.Common.Text.{◌++◌, starts_with, drop}
use gusto_backend.Common.Http.{ok, err, Action, ◌>>=◌, or_throw, unauthorized}
use gusto_backend.Auth.{Auth, Library, Claims}

-- `GustoJwtPayload`
pub record Payload : Type 0 where
  pub sub : String
  pub jti : String

-- `verifyJwt`; `none` where it throws.
abbrev pub payload_of : Option Claims → Option Payload
payload_of none = none
payload_of (some c) = elim c.sub [
  | none ↦ none
  | some sub ↦ elim c.jti [ none ↦ none | some jti ↦ some (record { sub = sub; jti = jti }) ]
]

unfoldable pub verify_jwt : Library → ℕ → String → Option Payload
verify_jwt l now token = payload_of (l.verify now token)

abbrev pub blocklist_key : String → String
blocklist_key jti = "jwt:blocklist:" ++ jti

-- `TokenBlocklistService.revoke`
unfoldable pub revoke : ℕ → String → ℕ → Action Auth (Unit {0})
revoke now jti zero s = (ok tt, s)
revoke now jti (suc ttl) s =
    (ok tt, record s { blocklist = insert (blocklist_key jti) (now + 1000 * suc ttl) s.blocklist })

-- `TokenBlocklistService.isRevoked`
abbrev pub unexpired : ℕ → Option ℕ → Bool
unexpired now none = false
unexpired now (some expires) = ltb now expires

unfoldable pub is_revoked : ℕ → String → Auth → Bool
is_revoked now jti s = unexpired now (lookup (blocklist_key jti) s.blocklist)

-- `verifyWithExpiry`
abbrev pub with_expiry : Option Claims → Option (String × ℕ)
with_expiry none = none
with_expiry (some c) = elim c.sub [
  | none ↦ none
  | some sub ↦ elim c.jti [
    | none ↦ none
    | some jti ↦ elim c.exp [ none ↦ none | some exp ↦ some (jti, exp) ]
  ]
]

-- A time to live below 0 is 0 here, which revokes nothing either.
unfoldable pub logout : Library → ℕ → String → Action Auth (Unit {0})
logout l now token = do
  checked ← or_throw (with_expiry (l.verify now token)) unauthorized
  revoke now checked.0 (checked.1 - now / 1000)

-- The token of `Authorization: Bearer …`
abbrev pub bearer : Option String → Option String
bearer none = none
bearer (some header) = if starts_with header "Bearer " then some (drop 7 header) else none

-- `canActivate`: the user of the request, none for a public route.
unfoldable pub can_activate : Library → ℕ → Bool → Option String → Action Auth (Option String)
can_activate l now true header s = (ok none, s)
can_activate l now false header s = (
  elim (bearer header) [
    | none ↦ err unauthorized
    | some token ↦ elim (verify_jwt l now token) [
      | none ↦ err unauthorized
      | some p ↦ if is_revoked now p.jti s then err unauthorized else ok (some p.sub)
    ]
  ],
  s,
)
