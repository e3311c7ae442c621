-- ===== src/Auth/SecretCrypto/Examples.antt =====
-- two-factor-crypto.ts over a stand-in for Node's cipher: bytes are a text, base64 escapes the point,
-- and the tag is the key.
use Prim.Native.String
use Prim.Native.String.{String, [], ◌∷◌, count as text_length}
use Prim.Native.String.count as text_length
use Prim.Native.Nat.{Ordering, compare as compare_ℕ}
use Prim.Native.Char.{Char, code}
use text.Mathlib.TextEquality.{codes_equal}
use text.Mathlib.TextPositions.{compare_self}
use skillhunt.Common.{
  ℕ, zero, suc, ◌≡◌, ◌⊎◌, refl, ap, ◌∙◌, subst, Bool, true, false, Option, none, some, ok, err,
  internal, ◌==◌, nat_eq, string_eq, beq_self, nat_beq_iff, Bool-cases, inl, inr, if◌then◌else◌,
}
use skillhunt.Common.Text.{is_char}
use skillhunt.Common.Text.Laws.{lacks}
use skillhunt.External.{SecretBox}
use skillhunt.Auth.SecretCrypto.{
  NodeCrypto, Keys, wrong_size, encrypt_two_factor_secret, decrypt_two_factor_secret,
}
use skillhunt.Auth.SecretCrypto.Boxed.{IsBoxed, IsMisconfigured, two_factor_crypto-IsBoxed}

abbrev escape : String → String
escape [] = []
escape (c ∷ s) =
    let rest = escape s in
    if is_char "." c then "a" ∷ "b" ∷ rest else if is_char "a" c then "a" ∷ "a" ∷ rest else c ∷ rest

-- The flag is set after an `a`.
abbrev unescape : Bool → String → String
unescape pending [] = []
unescape true (c ∷ s) = (if is_char "b" c then "." else "a") ∷ unescape false s
unescape false (c ∷ s) =
    let more = unescape true s in
    let rest = unescape false s in if is_char "a" c then more else c ∷ rest

is_char_sound : (d c : Char) → is_char d c ≡ true → c ≡ d
is_char_sound d c h = codes_equal c d (
    subst (λ n. compare_ℕ (code c) n ≡ Ordering.eq) ((nat_beq_iff (code c) (code d)).0 h)
      (compare_self (code c)))

unescape-escape : (s : String) → unescape false (escape s) ≡ s
unescape-escape [] = refl
unescape-escape (c ∷ s) = elim (Bool-cases (is_char "." c)) [
  | inl e ↦ simp e (rw (unescape-escape s, is_char_sound "." c e) refl)
  | inr e ↦ elim (Bool-cases (is_char "a" c)) [
    | inl f ↦ simp (e, f) (rw (unescape-escape s, is_char_sound "a" c f) refl)
    | inr f ↦ simp (e, f) (ap (λ t. c ∷ t) (unescape-escape s))
  ]
]

escape-lacks : (s : String) → lacks "." (escape s) ≡ true
escape-lacks [] = refl
escape-lacks (c ∷ s) = elim (Bool-cases (is_char "." c)) [
  | inl e ↦ simp e (escape-lacks s)
  | inr e ↦ elim (Bool-cases (is_char "a" c)) [
    | inl f ↦ simp (e, f) (escape-lacks s)
    | inr f ↦ simp (e, f) (escape-lacks s)
  ]
]

abbrev padding : ℕ → String
padding zero = ""
padding (suc n) = "I" ∷ padding n

length-padding : (n : ℕ) → text_length (padding n) ≡ n
length-padding zero = refl
length-padding (suc n) = text_length.cons "I" (padding n) ∙ ap suc (length-padding n)

abbrev node : NodeCrypto String
node = record {
  of_base64 = unescape false;
  to_base64 = escape;
  byte_length = λ b. text_length b;
  random_bytes = λ n size. padding size;
  seal = λ key iv text. (text, key);
  unseal = λ key iv ciphertext tag. if tag == key then some ciphertext else none;
  of_base64-to_base64 = unescape-escape;
  to_base64-lacks = escape-lacks;
  byte_length-random_bytes = λ n size. length-padding size;
  unseal-seal = λ key iv text h. simp (beq_self key) refl;
}

abbrev fresh : Keys String
fresh = record { ephemeral = none; warned = false; draws = 0 }

-- Without a configured key: a secret is sealed under a new key, and opened again.
abbrev sealed : String
sealed = String.◌++◌ (padding 12) (String.◌++◌ ".secret." (padding 32))

seals : (encrypt_two_factor_secret node none "secret" fresh).0 ≡ ok sealed
unfolding encrypt_two_factor_secret
seals = refl

opens :
    (decrypt_two_factor_secret node none sealed
      (encrypt_two_factor_secret node none "secret" fresh).1).0
    ≡ ok "secret"
unfolding encrypt_two_factor_secret decrypt_two_factor_secret
opens = refl

-- With a configured key of 32 bytes.
abbrev configured : Option String
configured = some (padding 32)

configured_seals : (encrypt_two_factor_secret node configured "secret" fresh).0 ≡ ok sealed
unfolding encrypt_two_factor_secret
configured_seals = refl

no_key : (key : String) → fresh.ephemeral ≡ some key → text_length key ≡ 32
no_key key h = cc

two_factor_crypto-IsBoxed_example :
    (IsMisconfigured node configured
      × ((text : String)
          → (encrypt_two_factor_secret node configured text fresh
              ≡ (err (internal wrong_size), fresh))
            × (decrypt_two_factor_secret node configured text fresh
                ≡ (err (internal wrong_size), fresh))))
    ⊎ ((box : SecretBox) × (held : Option String) × IsBoxed node configured held box
        × ((text : String)
            → ((encrypt_two_factor_secret node configured text fresh).1.ephemeral ≡ held)
              × ((decrypt_two_factor_secret node configured text fresh).1.ephemeral ≡ held)))
two_factor_crypto-IsBoxed_example = two_factor_crypto-IsBoxed node configured fresh no_key
