-- ===== src/Auth/TokenStore/Keys.antt =====
-- The Redis keys of the registry do not collide.
use text.Mathlib.TextLemmas.{append_inj, append_assoc, append_cancel_left, append_cancel_right}
use skillhunt.Common.{◌≡◌, ◌≢◌, String, false, ◌==◌, string_eq, eq_iff, arith, refl, ◌∙◌, sym}
use skillhunt.Auth.TokenStore.{refresh_key, index_key}

pub refresh_key-injective : (a b : String) → refresh_key a ≡ refresh_key b → a ≡ b
refresh_key-injective a b e = append_cancel_left "refresh:" a b e

pub index_key-injective : (a b : String) → index_key a ≡ index_key b → a ≡ b
index_key-injective a b e = append_cancel_right a b ":jtis" (append_cancel_left "user:" _ _ e)

-- The first letters differ.
pub refresh_key-ne-index_key : (a b : String) → refresh_key a ≢ index_key b
refresh_key-ne-index_key a b e =
    let split = sym (append_assoc "r" "efresh:" a) ∙ e ∙ append_assoc "u" "ser:" _ in
    let same = (append_inj {s₁ = "r"} {s₂ = "u"} split refl).0 in cc ((eq_iff "r" "u").1 same)

pub refresh_key-beq : (a b : String) → (refresh_key a == refresh_key b) ≡ (a == b)
refresh_key-beq a b =
    ground (arith, eq_iff a b, eq_iff (refresh_key a) (refresh_key b), refresh_key-injective a b)

pub index_key-beq : (a b : String) → (index_key a == index_key b) ≡ (a == b)
index_key-beq a b =
    ground (arith, eq_iff a b, eq_iff (index_key a) (index_key b), index_key-injective a b)

pub refresh_index-beq : (a b : String) → (refresh_key a == index_key b) ≡ false
refresh_index-beq a b =
    ground (arith, eq_iff (refresh_key a) (index_key b), refresh_key-ne-index_key a b)

pub index_refresh-beq : (a b : String) → (index_key a == refresh_key b) ≡ false
index_refresh-beq a b = ground (
  arith,
  eq_iff (index_key a) (refresh_key b),
  λ (e : index_key a ≡ refresh_key b). refresh_key-ne-index_key b a (sym e),
)
