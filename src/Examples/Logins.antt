-- ===== src/Examples/Logins.antt =====
-- The theorems on auth-service at one user with one token.
use Prim.Native.Char.{Char}
use Prim.Native.String.{[], ◌∷◌}
use text.Mathlib.TextEquality.{Char-path}
use gusto_backend.Common.{
  ℕ, ◌/◌, ◌≤◌, String, true, false, ◌&&◌, Option, none, some, List, [], ◌∷◌, if◌then◌else◌, ◌≡◌,
  refl, arith, str_eq, str_eq_iff, ltb,
}
use gusto_backend.Common.Dict.{lookup}
use gusto_backend.Common.Text.{char_eq, occurs}
use gusto_backend.Common.Http.{ok, err, unauthorized}
use gusto_backend.Auth.{
  Auth, Library, Config, World, Session, TokenResponse, granted, Claims, signed_in, done,
  exchange_code_for_token, check_session, redeem,
}
use gusto_backend.Auth.Vault.{Cipher, IsCipher, encrypt, decrypt, decrypt-encrypt}
use gusto_backend.Auth.Guard.{logout, revoke, can_activate, verify_jwt, is_revoked}
use gusto_backend.Auth.Api.{sweep, logout_by_header, serve_auth}
use gusto_backend.Auth.Logout.{IsJwt}
use gusto_backend.Auth.Proxy.{
  answered, lost, forward, proxy_login_start, proxy_refresh, proxy_logout, serve_proxy, Request,
  from_outside, from_within, serve_requests,
}
use gusto_backend.Auth.Proxy.Refused.{logged_out_everywhere}
use gusto_backend.Auth.Login.{IsSignedIn, exchange-IsSignedIn}

-- A text without dots: each character behind a letter that says whether it was one.
abbrev coded : String → String
coded [] = []
coded (c ∷ s) = if char_eq c "." then "d" ∷ ("x" ∷ coded s) else "c" ∷ (c ∷ coded s)

abbrev decoded : String → String
decoded [] = []
decoded (f ∷ []) = []
decoded (f ∷ (c ∷ s)) = (if char_eq f "d" then "." else c) ∷ decoded s

decoded-coded : (s : String) → decoded (coded s) ≡ s
decoded-coded [] = refl
decoded-coded (c ∷ s) = ground (arith, decoded-coded s, dot c)
  where
    dot : (c : Char) → char_eq c "." ≡ true → "." ≡ c
    dot c h = Char-path "." c (ground arith)

coded_no_dot : (s : String) → occurs "." (coded s) ≡ false
unfolding occurs
coded_no_dot [] = refl
coded_no_dot (c ∷ s) = ground (arith, coded_no_dot s)

-- A seal that has the iv as its tag.
abbrev cipher : Cipher
cipher = record {
  seal = λ iv raw. (raw, iv);
  open_sealed = λ iv tag ciphertext. if str_eq iv tag then some ciphertext else none;
  to_base64 = coded;
  from_base64 = decoded;
}

cipher-IsCipher : IsCipher cipher
cipher-IsCipher = record {
  reads_back = decoded-coded;
  no_dot = coded_no_dot;
  opens = λ iv raw. ground (arith, str_eq_iff iv iv);
}

decrypt-encrypt_example : decrypt cipher (encrypt cipher "iv" "swiggy.token") ≡ some "swiggy.token"
decrypt-encrypt_example = decrypt-encrypt cipher "iv" "swiggy.token" cipher-IsCipher

-- One token, until 1000 s.
abbrev claims : Claims
claims = record { sub = some "asha"; jti = some "j1"; exp = some 1000 }

abbrev verify : ℕ → String → Option Claims
verify now token = if str_eq token "t1" && ltb (now / 1000) 1000 then some claims else none

abbrev library : Library
library = record {
  cipher = cipher;
  code_challenge = λ verifier. verifier;
  sign = λ user jti now. "t1";
  verify = verify;
}

library-IsJwt : IsJwt library
library-IsJwt = record {
  same_claims = λ n m t c d a b. ground arith;
  not_expired = λ n t c e a b. ground arith;
  expire_together = λ n m t u c d a b h. ground arith;
}

abbrev config : Config
config = record {
  base_url = "https://mcp.swiggy.com";
  client_id = "gusto";
  redirect_uri = "https://gusto/callback";
  scope = "food";
  internal_secret = "s";
}

abbrev tokens : TokenResponse
tokens = record { access_token = "swiggy.token"; expires_in = 3600; scope = "food" }

abbrev world : World
world = record {
  now = 5000;
  random_state = "st2";
  random_verifier = "v2";
  random_iv = "iv";
  uuid = "j1";
  swiggy = granted tokens;
  bus = true;
}

abbrev session : Session
session = record {
  user_id = "asha";
  code_verifier = "v1";
  redirect_uri = "https://gusto/callback";
  expires_at = 9000;
}

abbrev waiting : Auth
waiting = record {
  sessions = ("st1", session) ∷ [];
  users = [];
  blocklist = [];
  events = [];
  token_requests = [];
}

exchanges :
    (exchange_code_for_token library world "code" "st1" waiting).0 ≡ ok (signed_in "t1" "asha")
unfolding exchange_code_for_token check_session redeem lookup
exchanges = refl

exchange-IsSignedIn_example :
    (s : Session) × (t : TokenResponse) × (lookup "st1" waiting.sessions ≡ some s)
    × (5000 ≤ s.expires_at)
    × (granted tokens ≡ granted t)
    × (signed_in "t1" "asha" ≡ signed_in "t1" s.user_id)
    × IsSignedIn library world "code" "st1" s t
        (exchange_code_for_token library world "code" "st1" waiting).1
exchange-IsSignedIn_example =
    exchange-IsSignedIn library world "code" "st1" waiting (signed_in "t1" "asha") cipher-IsCipher
      exchanges

logs_out :
    (serve_proxy library config world answered (proxy_logout (some "Bearer t1")) waiting).0
    ≡ ok done
unfolding serve_proxy forward serve_auth can_activate verify_jwt is_revoked logout_by_header logout
    revoke lookup
logs_out = refl

-- A second login and an hourly sweep between the logout and the next requests.
abbrev between : List Request
between =
    from_outside world lost (proxy_login_start none "asha")
    ∷ from_outside world answered (proxy_login_start none "asha")
    ∷ from_within world sweep
    ∷ []

abbrev left_out : Auth
left_out =
    serve_requests library config between
      (serve_proxy library config world answered (proxy_logout (some "Bearer t1")) waiting).1

logged_out_everywhere_example :
    (serve_proxy library config world answered (proxy_refresh (some "Bearer t1")) left_out
      ≡ (err unauthorized, left_out))
    × (serve_proxy library config world answered (proxy_logout (some "Bearer t1")) left_out
        ≡ (err unauthorized, left_out))
logged_out_everywhere_example =
    logged_out_everywhere library config world world answered answered (some "Bearer t1") waiting
      between library-IsJwt logs_out
