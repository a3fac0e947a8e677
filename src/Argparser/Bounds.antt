-- ===== src/Argparser/Bounds.antt =====
-- What the functions of src/protocol/argparser.c store is what they read, and fits its type.
use mpd_legacy.Common.{
  ℕ, zero, suc, ◌+◌, ◌%◌, ◌^◌, ◌<◌, ◌≡◌, refl, Option, none, some, List, [], ◌∷◌, arith, ltb, ◌==◌,
  if_cases, ltb→le,
}
use mpd_legacy.Common.Int.{ℤ, pos, negsuc}
use mpd_legacy.Argparser.{
  colon, uint_max, int_max, strtol, strtoul, Checked, checked, refused, store_uint32, check_uint32,
  store_unsigned, check_unsigned, store_int, check_int, range_end, range_start, store_range,
  check_range,
}

-- A value that is stored has the property.
abbrev pub Passes {ℓ} : {A : Type ℓ} → (A → Type 0) → Checked A → Type 0
Passes P (checked a) = P a
Passes P (refused e) = Unit

-- From -2 ^ 31 up to 2 ^ 31 - 1.
abbrev pub IsInt : ℤ → Type 0
IsInt (pos n) = n < 2 ^ 31
IsInt (negsuc n) = n < 2 ^ 31

-- A number that was read up to the end of the text, and is stored as it was read, or cut to 32 bits.
abbrev pub IsRead : Option (ℕ × List ℕ) → ℕ → Type 0
IsRead r n = (r ≡ some (n, [])) × (n < 2 ^ 32)

abbrev pub IsCut : Option (ℕ × List ℕ) → ℕ → Type 0
IsCut r n = (m : ℕ) × (r ≡ some (m, [])) × (n ≡ m % 2 ^ 32)

abbrev pub IsIntRead : Option (ℤ × List ℕ) → ℤ → Type 0
IsIntRead r z = (r ≡ some (z, [])) × IsInt z

-- Where the ends of a range come from.
pub data RangeRead : Option (ℤ × List ℕ) → ℕ × ℕ → Type 0 where
  whole : RangeRead (some (negsuc 0, [])) (0, uint_max)
  alone : (n : ℕ) → n < 2 ^ 32 → RangeRead (some (pos n, [])) (n, (n + 1) % 2 ^ 32)
  open_end : (n : ℕ) → n < 2 ^ 32 → RangeRead (some (pos n, colon ∷ [])) (n, uint_max)
  both :
      (n m : ℕ) (test : List ℕ)
      → n < 2 ^ 32
      → m < 2 ^ 32
      → strtol test ≡ some (pos m, [])
      → RangeRead (some (pos n, colon ∷ test)) (n, m)

store_unsigned-Passes : (r : Option (ℕ × List ℕ)) → Passes (IsRead r) (store_unsigned r)
unfolding store_unsigned
store_unsigned-Passes none = tt
store_unsigned-Passes (some (value, x ∷ xs)) = tt
store_unsigned-Passes (some (value, [])) =
    if_cases (Passes (IsRead (some (value, [])))) (ltb uint_max value) (λ e. tt)
      (λ e. (refl, omega (arith, ltb→le uint_max value e)))

store_uint32-Passes : (r : Option (ℕ × List ℕ)) → Passes (IsCut r) (store_uint32 r)
unfolding store_uint32
store_uint32-Passes none = tt
store_uint32-Passes (some (value, x ∷ xs)) = tt
store_uint32-Passes (some (value, [])) = (value, refl, refl)

store_int-Passes : (r : Option (ℤ × List ℕ)) → Passes (IsIntRead r) (store_int r)
unfolding store_int
store_int-Passes none = tt
store_int-Passes (some (value, x ∷ xs)) = tt
store_int-Passes (some (pos n, [])) =
    if_cases (Passes (IsIntRead (some (pos n, [])))) (ltb int_max n) (λ e. tt)
      (λ e. (refl, omega (arith, ltb→le int_max n e)))
store_int-Passes (some (negsuc n, [])) =
    if_cases (Passes (IsIntRead (some (negsuc n, [])))) (ltb int_max n) (λ e. tt)
      (λ e. (refl, omega (arith, ltb→le int_max n e)))

range_end-Passes :
    (start : ℕ) (test : List ℕ) (r : Option (ℤ × List ℕ))
    → strtol test ≡ r
    → start < 2 ^ 32
    → Passes (RangeRead (some (pos start, colon ∷ test))) (range_end start test r)
unfolding range_end
range_end-Passes start [] none e h = open_end start h
range_end-Passes start (x ∷ xs) none e h = tt
range_end-Passes start test (some (value, x ∷ xs)) e h = tt
range_end-Passes start test (some (negsuc n, [])) e h = tt
range_end-Passes start test (some (pos n, [])) e h =
    if_cases (Passes (RangeRead (some (pos start, colon ∷ test)))) (ltb uint_max n) (λ large. tt)
      (λ fits. both start n test h (omega (arith, ltb→le uint_max n fits)) e)

store_range-Passes : (r : Option (ℤ × List ℕ)) → Passes (RangeRead r) (store_range r)
unfolding store_range range_start
store_range-Passes none = tt
store_range-Passes (some (negsuc zero, [])) = whole
store_range-Passes (some (negsuc (suc n), [])) = tt
store_range-Passes (some (pos n, [])) =
    if_cases (Passes (RangeRead (some (pos n, [])))) (ltb uint_max n) (λ e. tt)
      (λ e. alone n (omega (arith, ltb→le uint_max n e)))
store_range-Passes (some (negsuc n, x ∷ xs)) =
    if_cases (Passes (RangeRead (some (negsuc n, x ∷ xs)))) (x == colon) (λ e. tt) (λ e. tt)
store_range-Passes (some (pos n, x ∷ xs)) =
    if_cases (Passes (RangeRead (some (pos n, x ∷ xs)))) (x == colon)
      (λ at.
        let is_colon : x ≡ colon = ground (arith, at) in
        rw is_colon (
          if_cases (Passes (RangeRead (some (pos n, colon ∷ xs)))) (ltb uint_max n) (λ e. tt)
            (λ e. range_end-Passes n xs (strtol xs) refl (omega (arith, ltb→le uint_max n e)))))
      (λ at. tt)

-- Whatever the text: what check_unsigned stores is the number that strtoul reads up to the end of the text,
-- and below 2 ^ 32; what check_uint32 stores is such a number modulo 2 ^ 32; what check_int stores is
-- what strtol reads up to the end, between -2 ^ 31 and 2 ^ 31 - 1; and what check_range stores is 0 and
-- 2 ^ 32 - 1 for -1, n and (n + 1) modulo 2 ^ 32 for n, n and 2 ^ 32 - 1 for n and a colon, or n and
-- m for n, a colon and m, as strtol reads them, with n and m below 2 ^ 32.
pub check_bounds :
    (s : List ℕ)
    → Passes (IsRead (strtoul s)) (check_unsigned s)
      × Passes (IsCut (strtoul s)) (check_uint32 s)
      × Passes (IsIntRead (strtol s)) (check_int s)
      × Passes (RangeRead (strtol s)) (check_range s)
unfolding check_unsigned check_uint32 check_int check_range
check_bounds s = (
  store_unsigned-Passes (strtoul s),
  store_uint32-Passes (strtoul s),
  store_int-Passes (strtol s),
  store_range-Passes (strtol s),
)
