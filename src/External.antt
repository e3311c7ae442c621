-- ===== src/External.antt =====
-- The packages and built-ins that the identity component calls: jsonwebtoken through Nest's
-- `JwtService`, argon2, otplib and Node's `crypto`. None is part of the repository: each is a
-- parameter with the behaviour that its documentation states.
pub mod Plain
use skillhunt.Common.{ℕ, ◌+◌, ◌≤◌, ◌<◌, ◌≡◌, String, Bool, true, Option, none, some}
use skillhunt.Enums.{UserRole}

-- The claims of a token; a claim that a kind of token lacks is `undefined`.
pub record Claims : Type 0 where
  pub user_id : String
  pub email : Option String
  pub role : Option UserRole
  pub type : Option String
  pub jti : Option String

-- `sign(payload, { expiresIn })` and `verify(token)`, which throws (`none`) on a token that was
-- altered or has expired. Times are in seconds, and `T` stands for the encoded token, which the
-- services only pass on.
pub record Jwt (T : Type 0) : Type 0 where
  pub sign : Claims → ℕ → ℕ → T
  pub verify : ℕ → T → Option Claims
  pub verify-sign :
      (c : Claims) (ttl now later : ℕ)
      → now ≤ later
      → later < now + ttl
      → verify later (sign c ttl now) ≡ some c
  pub verify-sign_expired :
      (c : Claims) (ttl now later : ℕ) → now + ttl ≤ later → verify later (sign c ttl now) ≡ none

-- `hash(password, { algorithm: Argon2id })` with its random salt, and `verify(hash, password)`,
-- which throws (`none`) on what is no Argon2 hash.
pub record Argon : Type 0 where
  pub hash : ℕ → String → String
  pub verify : String → String → Option Bool
  pub verify-hash : (salt : ℕ) (p : String) → verify (hash salt p) p ≡ some true

-- otplib's `authenticator`: `verify({ token, secret })` at a time, which throws (`none`) on a token
-- of another format, `generateSecret()` and `keyuri(...)`.
pub record Otp : Type 0 where
  pub verify : ℕ → String → String → Option Bool
  pub generate_secret : ℕ → String
  pub keyuri : String → String → String → String

-- Node's source of randomness, by the number of draws: `randomUUID()` and `randomBytes(8)` as a
-- byte at each position.
pub record Random : Type 0 where
  pub uuid : ℕ → String
  pub byte : ℕ → ℕ → ℕ

-- two-factor-crypto.ts as its callers see it.
pub record SecretBox : Type 0 where
  pub encrypt : ℕ → String → String
  pub decrypt : String → Option String
  pub decrypt-encrypt : (seed : ℕ) (secret : String) → decrypt (encrypt seed secret) ≡ some secret
