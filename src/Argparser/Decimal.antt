-- ===== src/Argparser/Decimal.antt =====
-- What the functions of src/protocol/argparser.c store for decimal numbers.
use mathlib.Core.List.{append-nil}
use mpd_legacy.Common.{
  ℕ, zero, suc, ◌+◌, ◌-◌, ◌%◌, ◌^◌, ◌<◌, ◌≡◌, refl, ap, sym, ◌∙◌, some, true, false, List, [], ◌∷◌,
  ◌++◌, arith, if_cases, ltb, leb, if◌then◌else◌,
}
use mpd_legacy.Common.Int.{ℤ, pos, negsuc}
use mpd_legacy.Argparser.{
  colon, minus, uint_max, int_max, negate, clamp, wrap, strtol, strtoul, Checked, checked, refused,
  number_too_large, read_sign, skip_space, store_unsigned, check_unsigned, store_int, check_int,
  range_end, range_start, store_range, check_range,
}
use mpd_legacy.Argparser.Numbers.{
  IsNumber, text_of, value_of, strtol-text, strtol-minus, strtoul-text, strtoul-minus,
}

-- A number that may be at most `max`.
abbrev pub within {ℓ} : {A : Type ℓ} → ℕ → ℕ → A → Checked A
within max n a = if ltb max n then refused number_too_large else checked a

leb→large : (n : ℕ) → leb (2 ^ 63) n ≡ true → ltb uint_max n ≡ true
leb→large n e = ground arith

-- A `long` that is too large for `unsigned` stays so when it has been brought into range.
clamp-within :
    {A : Type 0} (store : ℤ → Checked A) (r : Checked A) (n : ℕ)
    → store (pos (2 ^ 63 - 1)) ≡ refused number_too_large
    → store (pos n) ≡ (if ltb uint_max n then refused number_too_large else r)
    → store (clamp false n) ≡ (if ltb uint_max n then refused number_too_large else r)
clamp-within store r n large small =
    if_cases (λ z. store z ≡ (if ltb uint_max n then refused number_too_large else r))
      (leb (2 ^ 63) n) (λ e. rw (leb→large n e) large) (λ e. small)

range-number : (n : ℕ) → range_start (clamp false n) [] ≡ within uint_max n (n, (n + 1) % 2 ^ 32)
unfolding range_start
range-number n = clamp-within (λ z. range_start z []) (checked (n, (n + 1) % 2 ^ 32)) n refl refl

range-open : (n : ℕ) → range_start (clamp false n) (colon ∷ []) ≡ within uint_max n (n, uint_max)
unfolding range_start range_end strtol read_sign skip_space
range-open n = clamp-within (λ z. range_start z (colon ∷ [])) (checked (n, uint_max)) n refl refl

end-number :
    (m n : ℕ) (test : List ℕ)
    → range_end m test (some (clamp false n, [])) ≡ within uint_max n (m, n)
unfolding range_end
end-number m n test =
    clamp-within (λ z. range_end m test (some (z, []))) (checked (m, n)) n refl refl

range-both :
    (m n : ℕ) (test : List ℕ)
    → strtol test ≡ some (clamp false n, [])
    → range_start (clamp false m) (colon ∷ test)
      ≡ (if ltb uint_max m then refused number_too_large else within uint_max n (m, n))
unfolding range_start
range-both m n test e =
    let last = ap (range_end m test) e ∙ end-number m n test in
    clamp-within (λ z. range_start z (colon ∷ test)) (within uint_max n (m, n)) m refl
      (ap (λ r. if ltb uint_max m then refused number_too_large else r) last)

number_alone :
    (ds : List ℕ) → IsNumber ds → strtol (text_of ds) ≡ some (clamp false (value_of ds), [])
number_alone ds h = ap strtol (sym (append-nil (text_of ds))) ∙ strtol-text ds [] h tt

minus_alone :
    {R : Type 0} (read : List ℕ → R) (ds : List ℕ) {r : R}
    → read (minus ∷ text_of ds ++ []) ≡ r
    → read (minus ∷ text_of ds) ≡ r
minus_alone read ds e = ap (λ t. read (minus ∷ t)) (sym (append-nil (text_of ds))) ∙ e

-- check_range stores n and (n + 1) modulo 2 ^ 32 for the number n, n and 2 ^ 32 - 1 for n and a
-- colon, and n and m for n, a colon and m, provided the numbers, which have any count of decimal
-- digits, are below 2 ^ 32; otherwise it answers that a number is too large.
pub check_range_lem :
    (first last : List ℕ)
    → IsNumber first
    → IsNumber last
    → (check_range (text_of first)
        ≡ within uint_max (value_of first) (value_of first, (value_of first + 1) % 2 ^ 32))
      × (check_range (text_of first ++ colon ∷ [])
          ≡ within uint_max (value_of first) (value_of first, uint_max))
      × (check_range (text_of first ++ colon ∷ text_of last) ≡ (
          if ltb uint_max (value_of first)
          then refused number_too_large
          else within uint_max (value_of last) (value_of first, value_of last)))
unfolding check_range store_range
check_range_lem first last h g = (
  ap store_range (number_alone first h) ∙ range-number (value_of first),
  ap store_range (strtol-text first (colon ∷ []) h refl) ∙ range-open (value_of first),
  ap store_range (strtol-text first (colon ∷ text_of last) h refl)
      ∙ range-both (value_of first) (value_of last) (text_of last) (number_alone last g),
)

int-number : (n : ℕ) → store_int (some (clamp false n, [])) ≡ within int_max n (pos n)
unfolding store_int
int-number n =
    if_cases (λ z. store_int (some (z, [])) ≡ within int_max n (pos n)) (leb (2 ^ 63) n)
      (λ e. ground (arith, e)) (λ e. refl)

int-minus : (n : ℕ) → store_int (some (clamp true n, [])) ≡ within (2 ^ 31) n (negate n)
unfolding store_int
int-minus zero = refl
int-minus (suc n) =
    if_cases (λ z. store_int (some (z, [])) ≡ within (2 ^ 31) (suc n) (negsuc n))
      (ltb (2 ^ 63) (suc n)) (λ e. ground (arith, e)) (λ e. ground arith)

unsigned-number : (n : ℕ) → store_unsigned (some (wrap false n, [])) ≡ within uint_max n n
unfolding store_unsigned
unsigned-number n =
    if_cases (λ z. store_unsigned (some (z, [])) ≡ within uint_max n n) (leb (2 ^ 64) n)
      (λ e. ground (arith, e)) (λ e. refl)

-- What `unsigned long` makes of a number with a minus sign.
abbrev pub negated : ℕ → ℕ
negated n = (2 ^ 64 - n) % 2 ^ 64

unsigned-minus :
    (n : ℕ)
    → store_unsigned (some (wrap true n, [])) ≡ (
        if leb (2 ^ 64) n
        then refused number_too_large
        else within uint_max (negated n) (negated n))
unfolding store_unsigned
unsigned-minus n =
    if_cases
      (λ z. store_unsigned (some (z, [])) ≡ (
        if leb (2 ^ 64) n
        then refused number_too_large
        else within uint_max (negated n) (negated n)))
      (leb (2 ^ 64) n) (λ e. rw e refl) (λ e. rw e refl)

-- check_int stores a decimal number with a minus sign or without, where it lies between -2 ^ 31 and
-- 2 ^ 31 - 1, and answers that any other is too large. check_unsigned stores a number without a sign that
-- is below 2 ^ 32, and answers that any other is too large; of a number below 2 ^ 64 with a minus sign it
-- takes what the number lacks to 2 ^ 64, modulo 2 ^ 64, stores that if it is below 2 ^ 32, and answers that
-- it is too large otherwise, as for a number from 2 ^ 64 on.
pub check_number_lem :
    (ds : List ℕ)
    → IsNumber ds
    → (check_int (text_of ds) ≡ within int_max (value_of ds) (pos (value_of ds)))
      × (check_int (minus ∷ text_of ds) ≡ within (2 ^ 31) (value_of ds) (negate (value_of ds)))
      × (check_unsigned (text_of ds) ≡ within uint_max (value_of ds) (value_of ds))
      × (check_unsigned (minus ∷ text_of ds) ≡ (
          if leb (2 ^ 64) (value_of ds)
          then refused number_too_large
          else within uint_max (negated (value_of ds)) (negated (value_of ds))))
unfolding check_int check_unsigned
check_number_lem ds h = (
  ap store_int (number_alone ds h) ∙ int-number (value_of ds),
  ap store_int (minus_alone strtol ds (strtol-minus ds [] h tt)) ∙ int-minus (value_of ds),
  ap store_unsigned (ap strtoul (sym (append-nil (text_of ds))) ∙ strtoul-text ds [] h tt)
      ∙ unsigned-number (value_of ds),
  ap store_unsigned (minus_alone strtoul ds (strtoul-minus ds [] h tt))
      ∙ unsigned-minus (value_of ds),
)

-- Numbers that are not too large.
pub check_unsigned-number :
    (ds : List ℕ)
    → IsNumber ds
    → value_of ds < 2 ^ 32
    → check_unsigned (text_of ds) ≡ checked (value_of ds)
unfolding check_unsigned
check_unsigned-number ds h less =
    ap store_unsigned (ap strtoul (sym (append-nil (text_of ds))) ∙ strtoul-text ds [] h tt)
    ∙ unsigned-number (value_of ds)
    ∙ ground arith

pub check_int-number :
    (ds : List ℕ)
    → IsNumber ds
    → value_of ds < 2 ^ 31
    → check_int (text_of ds) ≡ checked (pos (value_of ds))
unfolding check_int
check_int-number ds h less =
    ap store_int (number_alone ds h) ∙ int-number (value_of ds) ∙ ground arith
