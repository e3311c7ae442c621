-- ===== src/Auth/Controller/TwoFactor/Codes.antt =====
-- The backup codes of two-factor.service.ts pass the pattern of dto/two-factor.dto.ts.
use Prim.Native.String.append
use Prim.Native.Char.{Char}
use skillhunt.Common.{
  ℕ, zero, suc, ◌%◌, ◌<◌, ◌≡◌, refl, ap, ◌∙◌, String, Bool, true, ◌&&◌, ◌||◌, List, [], ◌∷◌, map,
  All, arith, length,
}
use skillhunt.External.{Random}
use skillhunt.Auth.TwoFactor.{letter, letter_at, alphabet, concat, codes_from}
use skillhunt.Auth.Controller.TwoFactor.{is_code, is_code_char}

abbrev single : Char → String
single c = String.◌∷◌ c String.[]

-- A text of one character of a code.
pub record IsLetter (s : String) : Type 0 where
  pub char : Char
  pub same : s ≡ single char
  pub fits : is_code_char char ≡ true

letter_at-IsLetter :
    (cs : List String) (i : ℕ) → All IsLetter cs → i < length cs → IsLetter (letter_at cs i)
letter_at-IsLetter [] i h k = absurd (omega (arith, k))
letter_at-IsLetter (c ∷ cs) zero (b, h) k = b
letter_at-IsLetter (c ∷ cs) (suc i) (b, h) k = letter_at-IsLetter cs i h (omega (arith, k))

abbrev all_fit : List Char → Bool
all_fit [] = true
all_fit (c ∷ cs) = is_code_char c && all_fit cs

singles-AreLetters : (cs : List Char) → all_fit cs ≡ true → All IsLetter (map single cs)
singles-AreLetters [] h = tt
singles-AreLetters (c ∷ cs) h = (
  record { char = c; same = refl; fits = ground (arith, h) },
  singles-AreLetters cs (ground (arith, h)),
)

abbrev letters : List Char
letters =
    "A" ∷ "B" ∷ "C" ∷ "D" ∷ "E" ∷ "F" ∷ "G" ∷ "H" ∷ "J" ∷ "K" ∷ "M" ∷ "N" ∷ "P" ∷ "Q" ∷ "R" ∷ "S"
    ∷ "T" ∷ "U" ∷ "V" ∷ "W" ∷ "X" ∷ "Y" ∷ "Z" ∷ "2" ∷ "3" ∷ "4" ∷ "5" ∷ "6" ∷ "7" ∷ "8" ∷ "9" ∷ []

letter-IsLetter : (byte : ℕ) → IsLetter (letter byte)
letter-IsLetter byte =
    letter_at-IsLetter alphabet (byte % 31) (singles-AreLetters letters refl) (omega arith)

abbrev text : List Char → String
text [] = ""
text (c ∷ cs) = String.◌∷◌ c (text cs)

concat-singles : (cs : List Char) → concat (map single cs) ≡ text cs
concat-singles [] = refl
concat-singles (c ∷ cs) =
    append.cons c "" (concat (map single cs))
    ∙ ap (String.◌∷◌ c) (append.nil (concat (map single cs)) ∙ concat-singles cs)

or_true : (b : Bool) → (b || true) ≡ true
or_true b = ground arith

letters_code :
    (a b c d e f g h : String)
    → IsLetter a
    → IsLetter b
    → IsLetter c
    → IsLetter d
    → IsLetter e
    → IsLetter f
    → IsLetter g
    → IsLetter h
    → is_code (concat (a ∷ b ∷ c ∷ d ∷ "-" ∷ e ∷ f ∷ g ∷ h ∷ [])) ≡ true
letters_code a b c d e f g h i j k l m n o p =
    rw (i.same, j.same, k.same, l.same, m.same, n.same, o.same, p.same)
      (ap is_code (
          concat-singles
            (i.char ∷ j.char ∷ k.char ∷ l.char ∷ "-" ∷ m.char ∷ n.char ∷ o.char ∷ p.char ∷ []))
        ∙ simp (i.fits, j.fits, k.fits, l.fits, m.fits, n.fits, o.fits, p.fits) (or_true _))

-- Every backup code that the service gives out passes the pattern of the routes that take one.
pub codes_from-AreAccepted :
    (random : Random) (seed n : ℕ) → All (λ code. is_code code ≡ true) (codes_from random seed n)
codes_from-AreAccepted random seed zero = tt
codes_from-AreAccepted random seed (suc n) =
    let l = λ (i : ℕ). letter-IsLetter (random.byte seed i) in
    (
      letters_code _ _ _ _ _ _ _ _ (l 0) (l 1) (l 2) (l 3) (l 4) (l 5) (l 6) (l 7),
      codes_from-AreAccepted random (suc seed) n,
    )
