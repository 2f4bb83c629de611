-- ===== src/Auth/Api.antt =====
-- The routes of oauth.controller.ts with the guard of the internal ones, and the hourly sweep of
-- session-cleanup.service.ts.
use gusto_backend.Common.{
  ℕ, String, Bool, false, Option, none, some, List, [], ◌∷◌, if◌then◌else◌, str_eq,
}
use gusto_backend.Common.Http.{Action, ◌>>=◌, ◌>>◌, pure, throw, unauthorized}
use gusto_backend.Auth.{
  Auth, Library, Config, World, Answer, challenge, done, start_pkce_flow, exchange_code_for_token,
  refresh, get_decrypted_mcp_token, get_preference_profile, sweep_expired_sessions,
}
use gusto_backend.Auth.Guard.{logout, bearer}

pub data AuthRequest : Type 0 where
  login_start token_refresh : String → AuthRequest
  login_callback : String → String → AuthRequest
  logout_route : Option String → AuthRequest
  internal_token internal_profile : Option String → String → AuthRequest
  sweep : AuthRequest

-- `InternalSecretGuard`: an empty header counts as none.
abbrev pub has_secret : Config → Option String → Bool
has_secret config none = false
has_secret config (some t) = if str_eq t "" then false else str_eq t config.internal_secret

unfoldable pub logout_by_header : Library → ℕ → Option String → Action Auth Answer
logout_by_header l now header = elim (bearer header) [
  | none ↦ throw unauthorized
  | some token ↦ logout l now token >> pure done
]

unfoldable pub serve_auth : Library → Config → World → AuthRequest → Action Auth Answer
serve_auth l config w (login_start user) = do
  c ← start_pkce_flow l config w user
  pure (challenge c.0 c.1)
serve_auth l config w (login_callback code state) = exchange_code_for_token l w code state
serve_auth l config w (token_refresh user) = refresh l config w user
serve_auth l config w (logout_route header) = logout_by_header l w.now header
serve_auth l config w (internal_token secret user) =
    if has_secret config secret then get_decrypted_mcp_token l w user else throw unauthorized
serve_auth l config w (internal_profile secret user) =
    if has_secret config secret then get_preference_profile user else throw unauthorized
serve_auth l config w sweep = sweep_expired_sessions w >> pure done

-- Requests one behind the other, each with the world it meets.
unfoldable pub serve_auths : Library → Config → List (World × AuthRequest) → Auth → Auth
serve_auths l config [] s = s
serve_auths l config ((w, r) ∷ rs) s = serve_auths l config rs (serve_auth l config w r s).1
