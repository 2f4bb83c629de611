-- ===== src/Auth/Vault.antt =====
-- `TokenVaultService` of token-vault.service.ts: what `encrypt` writes and `decrypt` reads. The
-- cipher and the base64 text are the runtime's; a buffer is a text of its bytes.
use gusto_backend.Common.{String, false, Option, none, some, List, [], ◌∷◌, ◌≡◌, ap, ◌∙◌, arith}
use gusto_backend.Common.Text.{split, join, occurs, split-plain, split-append}

-- AES-256-GCM under the configured key, and `Buffer`'s base64.
pub record Cipher : Type 0 where
  pub seal : String → String → String × String  -- of iv and text: ciphertext and tag
  pub open_sealed : String → String → String → Option String  -- of iv, tag and ciphertext
  pub to_base64 : String → String
  pub from_base64 : String → String

unfoldable pub encrypt : Cipher → String → String → String
encrypt c iv raw =
    let (ciphertext, tag) = c.seal iv raw in
    join "." (c.to_base64 iv ∷ c.to_base64 tag ∷ c.to_base64 ciphertext ∷ [])

-- `none` where it throws.
abbrev pub decrypt_parts : Cipher → List String → Option String
decrypt_parts c (iv ∷ tag ∷ ciphertext ∷ []) =
    c.open_sealed (c.from_base64 iv) (c.from_base64 tag) (c.from_base64 ciphertext)
decrypt_parts c _ = none

unfoldable pub decrypt : Cipher → String → Option String
decrypt c encrypted = decrypt_parts c (split "." encrypted)

-- What the runtime's code does: base64 reads back and has no dot, and what was sealed opens under
-- the same iv and tag.
pub record IsCipher (c : Cipher) : Type 0 where
  pub reads_back : (b : String) → c.from_base64 (c.to_base64 b) ≡ b
  pub no_dot : (b : String) → occurs "." (c.to_base64 b) ≡ false
  pub opens : (iv raw : String) → c.open_sealed iv (c.seal iv raw).1 (c.seal iv raw).0 ≡ some raw

-- The parts of an encrypted token.
pub encrypt-split :
    (c : Cipher) (iv raw : String)
    → IsCipher c
    → split "." (encrypt c iv raw)
      ≡ c.to_base64 iv ∷ c.to_base64 (c.seal iv raw).1 ∷ c.to_base64 (c.seal iv raw).0 ∷ []
unfolding encrypt
encrypt-split c iv raw is =
    let a = c.to_base64 iv in
    let b = c.to_base64 (c.seal iv raw).1 in
    let d = c.to_base64 (c.seal iv raw).0 in
    split-append "." a (join "." (b ∷ d ∷ [])) (is.no_dot iv)
    ∙ ap (λ xs. a ∷ xs) (split-append "." b d (is.no_dot _))
    ∙ ap (λ xs. a ∷ b ∷ xs) (split-plain "." d (is.no_dot _))

-- `decrypt` gives back what `encrypt` was given, whatever the iv, where base64 reads back and has no
-- dot and the cipher opens what it sealed.
pub decrypt-encrypt :
    (c : Cipher) (iv raw : String) → IsCipher c → decrypt c (encrypt c iv raw) ≡ some raw
unfolding decrypt
decrypt-encrypt c iv raw is =
    ap (decrypt_parts c) (encrypt-split c iv raw is)
    ∙ ground (
      arith,
      is.reads_back iv,
      is.reads_back (c.seal iv raw).1,
      is.reads_back (c.seal iv raw).0,
      is.opens iv raw,
    )
