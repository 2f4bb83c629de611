-- ===== src/Auth/Proxy.antt =====
-- The session routes of api-gateway: AuthProxyController and AuthProxyService
-- (apps/api-gateway/src/routing) behind JwtAuthGuard, in front of auth-service.
pub mod Refused
use gusto_backend.Common.{String, Bool, true, false, Option, none, some, List, [], ◌∷◌}
use gusto_backend.Common.Http.{
  Result, ok, err, Action, ◌>>=◌, ◌>>◌, or_throw, http, status, internal, service_unavailable,
}
use gusto_backend.Auth.{Auth, Library, Config, World, Answer}
use gusto_backend.Auth.Guard.{can_activate}
use gusto_backend.Auth.Api.{
  AuthRequest, login_start, login_callback, token_refresh, logout_route, serve_auth,
}

-- What becomes of the call of auth-service: it does not get there, its answer does not come back
-- within the 10 s, or it is answered.
pub data Transport : Type 0 where
  lost unanswered answered : Transport

-- `throw new HttpException(error.response.data, error.response.status)`
abbrev pub upstream_error : Result Answer → Result Answer
upstream_error (ok a) = ok a
upstream_error (err e) = err (http (status e))

-- `AuthProxyService.forward`
unfoldable pub forward : Transport → Action Auth Answer → Action Auth Answer
forward lost call s = (err service_unavailable, s)
forward unanswered call s = (err service_unavailable, (call s).1)
forward answered call s = let (r, t) = call s in (upstream_error r, t)

-- The routes of the controller; a header is that of the request.
pub data ProxyRequest : Type 0 where
  proxy_login_start : Option String → String → ProxyRequest
  proxy_login_callback : Option String → String → String → ProxyRequest
  proxy_refresh proxy_logout : Option String → ProxyRequest

unfoldable pub serve_proxy :
    Library → Config → World → Transport → ProxyRequest → Action Auth Answer
unfolding forward
serve_proxy l config w net (proxy_login_start header user) =
    can_activate l w.now true header >> forward net (serve_auth l config w (login_start user))
serve_proxy l config w net (proxy_login_callback header code state) =
    can_activate l w.now true header
    >> forward net (serve_auth l config w (login_callback code state))
serve_proxy l config w net (proxy_refresh header) = do
  caller ← can_activate l w.now false header
  user ← or_throw caller internal
  forward net (serve_auth l config w (token_refresh user))
serve_proxy l config w net (proxy_logout header) =
    can_activate l w.now false header >> forward net (serve_auth l config w (logout_route header))

-- A request at api-gateway, or one that reaches auth-service from within.
pub data Request : Type 0 where
  from_outside : World → Transport → ProxyRequest → Request
  from_within : World → AuthRequest → Request

unfoldable pub serve_request : Library → Config → Request → Auth → Auth
unfolding serve_proxy
serve_request l config (from_outside w net r) s = (serve_proxy l config w net r s).1
serve_request l config (from_within w r) s = (serve_auth l config w r s).1

unfoldable pub serve_requests : Library → Config → List Request → Auth → Auth
unfolding serve_request
serve_requests l config [] s = s
serve_requests l config (r ∷ rs) s = serve_requests l config rs (serve_request l config r s)
