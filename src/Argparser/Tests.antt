-- ===== src/Argparser/Tests.antt =====
-- Tests of the reader of numbers.
use mpd_legacy.Common.{ℕ, ◌≡◌, refl, true, List, [], ◌∷◌, ◌++◌, arith}
use mpd_legacy.Common.Int.{pos, negsuc}
use mpd_legacy.Argparser.{
  colon, minus, uint_max, skip_space, read_digits, read_unsigned, read_sign, strtol, strtoul,
  checked, refused, range_expected, boolean_expected, number_negative, number_too_large,
  store_uint32, check_uint32, store_unsigned, check_unsigned, check_int, store_bool, check_bool,
  range_end, range_start, store_range, check_range,
}
use mpd_legacy.Argparser.Numbers.{text_of}
use mpd_legacy.Argparser.Bounds.{Passes, IsRead, IsCut, IsIntRead, RangeRead, check_bounds}
use mpd_legacy.Argparser.Decimal.{check_range_lem, check_number_lem}

-- " -1", "-2", "1:2:3".
whole_list : check_range (32 ∷ minus ∷ 49 ∷ []) ≡ checked (0, uint_max)
unfolding check_range store_range range_start strtol read_sign read_unsigned read_digits skip_space
whole_list = refl

negative_refused : check_range (minus ∷ 50 ∷ []) ≡ refused number_negative
unfolding check_range store_range range_start strtol read_sign read_unsigned read_digits skip_space
negative_refused = refl

second_colon : check_range (49 ∷ colon ∷ 50 ∷ colon ∷ 51 ∷ []) ≡ refused range_expected
unfolding check_range store_range range_start range_end strtol read_sign read_unsigned read_digits
    skip_space
second_colon = refl

bool_set : check_bool (49 ∷ []) ≡ checked true
unfolding check_bool store_bool strtol read_sign read_unsigned read_digits skip_space
bool_set = refl

bool_refused : check_bool (50 ∷ []) ≡ refused boolean_expected
unfolding check_bool store_bool strtol read_sign read_unsigned read_digits skip_space
bool_refused = refl

-- 4294967297 is cut to 32 bits.
version_cut : check_uint32 (text_of (4 ∷ 2 ∷ 9 ∷ 4 ∷ 9 ∷ 6 ∷ 7 ∷ 2 ∷ 9 ∷ 7 ∷ [])) ≡ checked 1
unfolding check_uint32 store_uint32 strtoul read_sign read_unsigned read_digits skip_space
version_cut = refl

check_range_example :
    (check_range (text_of (1 ∷ 2 ∷ [])) ≡ checked (12, 13))
    × (check_range (text_of (1 ∷ 2 ∷ []) ++ colon ∷ []) ≡ checked (12, uint_max))
    × (check_range (text_of (1 ∷ 2 ∷ []) ++ colon ∷ text_of (3 ∷ [])) ≡ checked (12, 3))
check_range_example =
    check_range_lem (1 ∷ 2 ∷ []) (3 ∷ []) (omega arith, (omega arith, (omega arith, tt)))
      (omega arith, (omega arith, tt))

check_bounds_example :
    Passes (IsRead (strtoul (minus ∷ 49 ∷ []))) (check_unsigned (minus ∷ 49 ∷ []))
    × Passes (IsCut (strtoul (minus ∷ 49 ∷ []))) (check_uint32 (minus ∷ 49 ∷ []))
    × Passes (IsIntRead (strtol (minus ∷ 49 ∷ []))) (check_int (minus ∷ 49 ∷ []))
    × Passes (RangeRead (strtol (minus ∷ 49 ∷ []))) (check_range (minus ∷ 49 ∷ []))
check_bounds_example = check_bounds (minus ∷ 49 ∷ [])

-- 2 ^ 64 - 1.
abbrev greatest : List ℕ
greatest = 1 ∷ 8 ∷ 4 ∷ 4 ∷ 6 ∷ 7 ∷ 4 ∷ 4 ∷ 0 ∷ 7 ∷ 3 ∷ 7 ∷ 0 ∷ 9 ∷ 5 ∷ 5 ∷ 1 ∷ 6 ∷ 1 ∷ 5 ∷ []

-- A minus sign makes it 1.
greatest_negated : check_unsigned (minus ∷ text_of greatest) ≡ checked 1
unfolding check_unsigned store_unsigned strtoul read_sign read_unsigned read_digits skip_space
greatest_negated = refl

check_number_example :
    (check_int (text_of (7 ∷ [])) ≡ checked (pos 7))
    × (check_int (minus ∷ text_of (7 ∷ [])) ≡ checked (negsuc 6))
    × (check_unsigned (text_of (7 ∷ [])) ≡ checked 7)
    × (check_unsigned (minus ∷ text_of (7 ∷ [])) ≡ refused number_too_large)
check_number_example = check_number_lem (7 ∷ []) (omega arith, (omega arith, tt))
