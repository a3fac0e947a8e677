-- ===== src/Argparser/Numbers.antt =====
-- What the functions of src/protocol/argparser.c make of decimal numbers.
use mpd_legacy.Common.{
  ℕ, ◌+◌, ◌-◌, ◌*◌, ◌<◌, ◌≡◌, refl, ap, ◌∙◌, some, Bool, true, false, ◌&&◌, ◌||◌, List, [], ◌∷◌,
  ◌++◌, arith, length, All, leb, ◌==◌,
}
use mpd_legacy.Argparser.{
  minus, skip_space, is_digit, read_digits, read_unsigned, read_sign, clamp, wrap, as_long,
  as_unsigned_long, strtol, strtoul,
}

-- A number is a list of decimal digits, at least one, the first of which counts most.
abbrev pub IsNumber : List ℕ → Type 0
IsNumber ds = (0 < length ds) × All (λ d. d < 10) ds

abbrev pub text_of : List ℕ → List ℕ
text_of [] = []
text_of (d ∷ ds) = (48 + d) ∷ text_of ds

abbrev pub value_from : ℕ → List ℕ → ℕ
value_from n [] = n
value_from n (d ∷ ds) = value_from (n * 10 + d) ds

abbrev pub value_of : List ℕ → ℕ
value_of ds = value_from 0 ds

-- A text that goes on with no digit.
abbrev pub NoDigit : List ℕ → Type 0
NoDigit [] = Unit
NoDigit (x ∷ xs) = is_digit x ≡ false

read_digits-text :
    (n : ℕ) (ds rest : List ℕ)
    → All (λ d. d < 10) ds
    → NoDigit rest
    → read_digits n (text_of ds ++ rest) ≡ (value_from n ds, rest)
unfolding read_digits
read_digits-text n [] [] h none_left = refl
read_digits-text n [] (x ∷ xs) h none_left = rw none_left refl
read_digits-text n (d ∷ ds) rest (lt, hs) none_left =
    let digit : is_digit (48 + d) ≡ true = ground arith in
    let e : n * 10 + (48 + d - 48) ≡ n * 10 + d = omega arith in
    rw (digit, e) (read_digits-text (n * 10 + d) ds rest hs none_left)

read_unsigned-text :
    (ds rest : List ℕ) (negative : Bool)
    → IsNumber ds
    → NoDigit rest
    → read_unsigned negative (text_of ds ++ rest) ≡ some (negative, (value_of ds, rest))
unfolding read_unsigned
read_unsigned-text [] rest negative (some_digit, _) none_left = absurd (omega (arith, some_digit))
read_unsigned-text (d ∷ ds) rest negative (some_digit, (lt, hs)) none_left =
    let digit : is_digit (48 + d) ≡ true = ground arith in
    rw digit (ap (λ r. some (negative, r)) (read_digits-text 0 (d ∷ ds) rest (lt, hs) none_left))

-- A digit is no white space and no sign.
read_sign-digit :
    (ds rest : List ℕ)
    → IsNumber ds
    → read_sign (skip_space (text_of ds ++ rest)) ≡ read_unsigned false (text_of ds ++ rest)
unfolding read_sign skip_space
read_sign-digit [] rest (some_digit, _) = absurd (omega (arith, some_digit))
read_sign-digit (d ∷ ds) rest (some_digit, (lt, hs)) =
    let no_space : ((leb 9 (48 + d) && leb (48 + d) 13) || ((48 + d) == 32)) ≡ false =
      ground arith in
    let no_minus : ((48 + d) == minus) ≡ false = ground arith in
    let no_plus : ((48 + d) == 43) ≡ false = ground arith in rw (no_space, no_minus, no_plus) refl

module _ (ds rest : List ℕ) (number : IsNumber ds) (none_left : NoDigit rest) where
  pub strtol-text : strtol (text_of ds ++ rest) ≡ some (clamp false (value_of ds), rest)
  unfolding strtol
  strtol-text =
      ap as_long
        (read_sign-digit ds rest number ∙ read_unsigned-text ds rest false number none_left)

  pub strtol-minus : strtol (minus ∷ text_of ds ++ rest) ≡ some (clamp true (value_of ds), rest)
  unfolding strtol read_sign skip_space
  strtol-minus = ap as_long (read_unsigned-text ds rest true number none_left)

  pub strtoul-text : strtoul (text_of ds ++ rest) ≡ some (wrap false (value_of ds), rest)
  unfolding strtoul
  strtoul-text =
      ap as_unsigned_long
        (read_sign-digit ds rest number ∙ read_unsigned-text ds rest false number none_left)

  pub strtoul-minus : strtoul (minus ∷ text_of ds ++ rest) ≡ some (wrap true (value_of ds), rest)
  unfolding strtoul read_sign skip_space
  strtoul-minus = ap as_unsigned_long (read_unsigned-text ds rest true number none_left)
