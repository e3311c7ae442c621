-- ===== src/External/Plain.antt =====
-- Plain stand-ins for the packages, on which the tests run the services: they show that the laws can
-- hold. A token is its claims with their expiry, a hash is the password itself and a secret is kept
-- in the clear.
use Prim.Native.String
use skillhunt.Common.{
  ℕ, zero, suc, ◌+◌, ◌≤◌, ◌<◌, ◌≡◌, String, Option, none, some, ◌==◌, string_eq, beq_self, ap,
  if◌then◌else◌, ltb, arith, refl,
}
use skillhunt.External.{Claims, Jwt, Argon, Otp, Random, SecretBox}

pub record Ticket : Type 0 where
  pub claims : Claims
  pub expires : ℕ

abbrev pub read_ticket : ℕ → Ticket → Option Claims
read_ticket now ticket = if ltb now ticket.expires then some ticket.claims else none

pub read_live :
    (c : Claims) (expires later : ℕ)
    → later < expires
    → read_ticket later (record { claims = c; expires = expires }) ≡ some c
read_live c expires later h = ground arith

pub read_expired :
    (c : Claims) (expires later : ℕ)
    → expires ≤ later
    → read_ticket later (record { claims = c; expires = expires }) ≡ none
read_expired c expires later h = ground arith

abbrev pub jwt : Jwt Ticket
jwt = record {
  sign = λ c ttl now. record { claims = c; expires = now + ttl };
  verify = read_ticket;
  verify-sign = λ c ttl now later _ h. read_live c (now + ttl) later h;
  verify-sign_expired = λ c ttl now later h. read_expired c (now + ttl) later h;
}

abbrev pub argon : Argon
argon = record {
  hash = λ salt p. p;
  verify = λ h p. some (h == p);
  verify-hash = λ salt p. ap some (beq_self p);
}

-- The one-time password is the secret, at every moment.
abbrev pub otp : Otp
otp = record {
  verify = λ now code secret. some (code == secret);
  generate_secret = λ seed. "secret";
  keyuri = λ account issuer secret. String.◌++◌ "otpauth:" secret;
}

abbrev pub marks : ℕ → String
marks zero = "#"
marks (suc n) = String.◌++◌ "I" (marks n)

abbrev pub random : Random
random = record { uuid = marks; byte = λ n i. n }

abbrev pub box : SecretBox
box = record {
  encrypt = λ seed secret. secret;
  decrypt = λ payload. some payload;
  decrypt-encrypt = λ seed secret. refl;
}
