-- ===== src/Auth/Login.antt =====
-- `exchangeCodeForToken` of oauth.service.ts: the session it takes, and the token it leaves for
-- `getDecryptedMcpToken`.
use gusto_backend.Common.{
  ◌+◌, ◌*◌, ◌≤◌, String, false, Option, none, some, List, ◌∷◌, ◌≡◌, refl, sym, ap, ◌∙◌, subst,
  arith, inl, inr, ◌⊎◌, Option-cases, Bool-cases, str_eq, str_eq_iff, ltb,
}
use gusto_backend.Common.Dict.{lookup, lookup-insert_self, lookup-erase_self}
use gusto_backend.Common.Text.{split}
use gusto_backend.Common.Http.{ok, err, unauthorized, bind_ok}
use gusto_backend.Auth.{
  Auth, Library, World, Session, User, TokenRequest, TokenResponse, TokenReply, granted, rejected,
  unreachable, other_error, Answer, signed_in, mcp_token, exchange_code_for_token, check_session,
  redeem, get_decrypted_mcp_token, with_token,
}
use gusto_backend.Auth.Vault.{Cipher, IsCipher, encrypt, decrypt-encrypt, encrypt-split}

-- An encrypted token is no empty text.
encrypt_nonempty :
    (c : Cipher) (iv raw : String) → IsCipher c → str_eq (encrypt c iv raw) "" ≡ false
unfolding split
encrypt_nonempty c iv raw is = elim (Bool-cases (str_eq (encrypt c iv raw) "")) [
  | inr full ↦ full
  | inl empty ↦ absurd (
      ground (
        arith,
        sym (ap (split ".") ((str_eq_iff (encrypt c iv raw) "").0 empty))
            ∙ encrypt-split c iv raw is,
      ))
]

-- What a sign-in leaves.
pub record IsSignedIn (l : Library) (w : World) (code state : String) (session : Session)
    (t : TokenResponse) (s : Auth) : Type 0 where
  -- Swiggy was sent the verifier of the session, with the code.
  pub verified :
      (more : List TokenRequest) × (s.token_requests
        ≡ record {
          code = code;
          code_verifier = session.code_verifier;
          redirect_uri = session.redirect_uri;
        }
          ∷ more)
  -- No second callback with this state passes.
  pub used_up :
      (w' : World) (other : String)
      → (exchange_code_for_token l w' other state s).0 ≡ err unauthorized
  -- Until it expires, the token of Swiggy is there for the user.
  pub token_there :
      (w' : World)
      → w'.now ≤ w.now + t.expires_in * 1000
      → (get_decrypted_mcp_token l w' session.user_id s).0 ≡ ok (mcp_token t.access_token)

module _ (l : Library) (cipher : IsCipher l.cipher) (w : World) (code state : String) (s : Auth)
    (session : Session) where
  unknown-refused :
      (w' : World) (other : String) (t : Auth)
      → lookup state t.sessions ≡ none
      → (exchange_code_for_token l w' other state t).0 ≡ err unauthorized
  unfolding exchange_code_for_token check_session
  unknown-refused w' other t e = ground (arith, e)

  redeemed_row :
      (t : TokenResponse)
      → w.swiggy ≡ granted t
      → (old : Option User) × (lookup session.user_id (redeem l w code state session s).1.users
          ≡ some (
              with_token old
                (encrypt l.cipher w.random_iv t.access_token)
                (w.now + t.expires_in * 1000)
                t.scope))
  unfolding redeem
  redeemed_row t e = (
    lookup session.user_id s.users,
    ground (
      arith,
      lookup-insert_self session.user_id
          (with_token (lookup session.user_id s.users) (encrypt l.cipher w.random_iv t.access_token)
            (w.now + t.expires_in * 1000) t.scope)
          s.users,
    ),
  )

  redeemed_session :
      (a : Answer)
      → (redeem l w code state session s).0 ≡ ok a
      → lookup state (redeem l w code state session s).1.sessions ≡ none
  unfolding redeem
  redeemed_session a e = ground (arith, lookup-erase_self state s.sessions)

  redeemed_request :
      (more : List TokenRequest) × ((redeem l w code state session s).1.token_requests
        ≡ record {
          code = code;
          code_verifier = session.code_verifier;
          redirect_uri = session.redirect_uri;
        }
          ∷ more)
  unfolding redeem
  redeemed_request = (s.token_requests, ground arith)

  token_of :
      (w' : World) (old : Option User) (t : TokenResponse) (r : Auth)
      → lookup session.user_id r.users
        ≡ some (
            with_token old
              (encrypt l.cipher w.random_iv t.access_token)
              (w.now + t.expires_in * 1000)
              t.scope)
      → w'.now ≤ w.now + t.expires_in * 1000
      → (get_decrypted_mcp_token l w' session.user_id r).0 ≡ ok (mcp_token t.access_token)
  unfolding get_decrypted_mcp_token
  token_of w' old t r there early = ground (
    arith,
    there,
    encrypt_nonempty l.cipher w.random_iv t.access_token cipher,
    decrypt-encrypt l.cipher w.random_iv t.access_token cipher,
  )

  redeem_granted :
      (a : Answer)
      → (redeem l w code state session s).0 ≡ ok a
      → (t : TokenResponse) × (w.swiggy ≡ granted t)
        × (a ≡ signed_in (l.sign session.user_id w.uuid w.now) session.user_id)
  unfolding redeem
  redeem_granted a e = by_reply w.swiggy refl
    where
      by_reply :
          (reply : TokenReply)
          → w.swiggy ≡ reply
          → (t : TokenResponse) × (w.swiggy ≡ granted t)
            × (a ≡ signed_in (l.sign session.user_id w.uuid w.now) session.user_id)
      by_reply (granted t) h = (t, h, ground arith)
      by_reply rejected h = absurd (ground arith)
      by_reply unreachable h = absurd (ground arith)
      by_reply other_error h = absurd (ground arith)

  redeemed-IsSignedIn :
      (a : Answer) (t : TokenResponse)
      → (redeem l w code state session s).0 ≡ ok a
      → w.swiggy ≡ granted t
      → IsSignedIn l w code state session t (redeem l w code state session s).1
  redeemed-IsSignedIn a t e h =
      let (old, row) = redeemed_row t h in
      record {
        verified = redeemed_request;
        used_up = λ w' other.
            unknown-refused w' other (redeem l w code state session s).1 (redeemed_session a e);
        token_there = λ w' early. token_of w' old t (redeem l w code state session s).1 row early;
      }

-- A session that is there and has not expired goes to Swiggy; no other does.
exchange-cases :
    (l : Library) (w : World) (code state : String) (s : Auth)
    → ((exchange_code_for_token l w code state s).0 ≡ err unauthorized)
      ⊎ ((session : Session) × (lookup state s.sessions ≡ some session)
          × (w.now ≤ session.expires_at)
          × (exchange_code_for_token l w code state s ≡ redeem l w code state session s))
unfolding exchange_code_for_token check_session
exchange-cases l w code state s = elim (Option-cases (lookup state s.sessions)) [
  | inl e ↦ inl (ground arith)
  | inr (session, e) ↦ elim (Bool-cases (ltb session.expires_at w.now)) [
    | inl expired ↦ inl (ground arith)
    | inr alive ↦ inr (
      session,
      e,
      ground arith,
      bind_ok (check_session w state) (redeem l w code state) s session s (ground arith),
    )
  ]
]

-- A callback that is answered well took a session of its state that was there and had not expired,
-- and Swiggy granted a token for the code and the session's
-- verifier; it signs in the user of the session. No second callback with the state
-- passes, and until the token expires getDecryptedMcpToken returns Swiggy's token for this user, if
-- base64 reads back without dots and the cipher opens what it sealed.
pub exchange-IsSignedIn :
    (l : Library) (w : World) (code state : String) (s : Auth) (a : Answer)
    → IsCipher l.cipher
    → (exchange_code_for_token l w code state s).0 ≡ ok a
    → (session : Session) × (t : TokenResponse) × (lookup state s.sessions ≡ some session)
      × (w.now ≤ session.expires_at)
      × (w.swiggy ≡ granted t)
      × (a ≡ signed_in (l.sign session.user_id w.uuid w.now) session.user_id)
      × IsSignedIn l w code state session t (exchange_code_for_token l w code state s).1
exchange-IsSignedIn l w code state s a cipher e = elim (exchange-cases l w code state s) [
  | inl refused ↦ absurd (ground (arith, refused))
  | inr (session, there, alive, is) ↦
      let e' : (redeem l w code state session s).0 ≡ ok a = sym (ap (λ r. r.0) is) ∙ e in
      let (t, grants, answers) = redeem_granted l cipher w code state s session a e' in
      (
        session,
        t,
        there,
        alive,
        grants,
        answers,
        subst (λ r. IsSignedIn l w code state session t r.1) (sym is)
            (redeemed-IsSignedIn l cipher w code state s session a t e' grants),
      )
]
