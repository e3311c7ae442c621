-- ===== src/Auth/SecretCrypto.antt =====
-- backend-core/src/auth/two-factor-crypto.ts: the encryption of the TOTP secrets. AES-256-GCM, base64
-- and the random bytes are Node's, and parameters with what their documentation states.
pub mod Boxed
mod Examples
use Prim.Native.String
use skillhunt.Common.{
  ℕ, suc, ◌+◌, ◌≡◌, String, Bool, true, Option, none, some, List, [], ◌∷◌, map, ◌==◌, nat_eq,
  if◌then◌else◌, Exec, Result, ok, err, internal, truthy, ◌>>=◌, pure,
}
use skillhunt.Common.Text.{trim, split_on}
use skillhunt.Common.Text.Laws.{lacks}

-- `B` is `Buffer`.
pub record NodeCrypto (B : Type 0) : Type 0 where
  -- `Buffer.from(text, 'base64')` and `toString('base64')`
  pub of_base64 : String → B
  pub to_base64 : B → String
  pub byte_length : B → ℕ
  -- `randomBytes(size)`, by the number of draws
  pub random_bytes : ℕ → ℕ → B
  -- `createCipheriv('aes-256-gcm', key, iv)` to its end: the ciphertext and the tag.
  pub seal : B → B → String → B × B
  -- `createDecipheriv` with the tag, which throws (`none`) on what was not sealed.
  pub unseal : B → B → B → B → Option String
  pub of_base64-to_base64 : (b : B) → of_base64 (to_base64 b) ≡ b
  pub to_base64-lacks : (b : B) → lacks "." (to_base64 b) ≡ true
  pub byte_length-random_bytes : (n size : ℕ) → byte_length (random_bytes n size) ≡ size
  pub unseal-seal :
      (key iv : B) (text : String)
      → byte_length key ≡ 32
      → let (ciphertext, tag) = seal key iv text in unseal key iv ciphertext tag ≡ some text

-- `ephemeralKey` and `warnedEphemeral`, with the number of draws.
pub record Keys (B : Type 0) : Type 0 where
  pub ephemeral : Option B
  pub warned : Bool
  pub draws : ℕ

abbrev pub wrong_size : String
wrong_size =
    "TWO_FACTOR_ENCRYPTION_KEY doit contenir exactement 32 octets encodés en base64 (AES-256)"

module _ {B : Type 0} (node : NodeCrypto B) where
  abbrev pub generated : B → Keys B → Keys B
  generated key s = record { ephemeral = some key; warned = true; draws = suc s.draws }

  abbrev pub ephemeral_key : Option B → Exec (Keys B) B
  ephemeral_key (some key) s = (ok key, s)
  ephemeral_key none s = let key = node.random_bytes s.draws 32 in (ok key, generated key s)

  abbrev pub configured_key : B → Result B
  configured_key key = if node.byte_length key == 32 then ok key else err (internal wrong_size)

  -- The argument is the environment's `TWO_FACTOR_ENCRYPTION_KEY`, if it is set and not empty.
  abbrev pub key_of : Option String → Exec (Keys B) B
  key_of (some raw) s = (configured_key (node.of_base64 (trim raw)), s)
  key_of none s = ephemeral_key s.ephemeral s

  abbrev pub load_two_factor_key : Option String → Exec (Keys B) B
  load_two_factor_key env = key_of (truthy env)

  abbrev pub draw_iv : Exec (Keys B) B
  draw_iv s = (ok (node.random_bytes s.draws 12), record s { draws = suc s.draws })

  -- `[iv, ciphertext, tag]`, in base64, joined by points
  abbrev pub framed : B → B × B → String
  framed iv (ciphertext, tag) = String.◌++◌ (node.to_base64 iv) (
      String.◌++◌ "."
        (String.◌++◌ (node.to_base64 ciphertext) (String.◌++◌ "." (node.to_base64 tag))))

  -- Missing parts are `undefined`, on which the calls throw; further parts are ignored.
  abbrev pub unframed : B → List B → Option String
  unframed key [] = none
  unframed key (iv ∷ []) = none
  unframed key (iv ∷ ciphertext ∷ []) = none
  unframed key (iv ∷ ciphertext ∷ tag ∷ parts) = node.unseal key iv ciphertext tag

  abbrev pub plaintext : Option String → Result String
  plaintext none = err (internal "decipher")
  plaintext (some text) = ok text

  unfoldable pub encrypt_two_factor_secret : Option String → String → Exec (Keys B) String
  encrypt_two_factor_secret env text = do
    key ← load_two_factor_key env
    iv ← draw_iv
    pure (framed iv (node.seal key iv text))

  unfoldable pub decrypt_two_factor_secret : Option String → String → Exec (Keys B) String
  decrypt_two_factor_secret env payload = do
    key ← load_two_factor_key env
    λ s. (plaintext (unframed key (map node.of_base64 (split_on "." payload))), s)
