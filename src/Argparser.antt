-- ===== src/Argparser.antt =====
-- src/protocol/argparser.c: the numbers and ranges among the arguments of a command. A text is the list
-- of its bytes; `long` has 64 bits and `unsigned` has 32. A function gives the value that it stores, or
-- the error that it tells the client. `check_uint32` stores a value even where it refuses the text.
use mpd_legacy.Common.{
  ℕ, zero, suc, ◌+◌, ◌-◌, ◌*◌, ◌%◌, ◌^◌, Option, none, some, Bool, true, false, ◌&&◌, ◌||◌, List,
  [], ◌∷◌, ltb, leb, ◌==◌, if◌then◌else◌,
}
use mpd_legacy.Common.Int.{ℤ, pos, negsuc}
pub mod Numbers
pub mod Bounds
pub mod Decimal
mod Tests

abbrev pub colon : ℕ
colon = 58

abbrev pub minus : ℕ
minus = 45

abbrev pub uint_max : ℕ
uint_max = 4294967295

abbrev pub int_max : ℕ
int_max = 2147483647

unfoldable pub skip_space : List ℕ → List ℕ
skip_space [] = []
skip_space (x ∷ xs) = if (leb 9 x && leb x 13) || (x == 32) then skip_space xs else x ∷ xs

abbrev pub is_digit : ℕ → Bool
is_digit x = leb 48 x && leb x 57

-- The value of the digits at the start, behind those already read, and what follows them.
unfoldable pub read_digits : ℕ → List ℕ → ℕ × List ℕ
read_digits n [] = (n, [])
read_digits n (x ∷ xs) = if is_digit x then read_digits (n * 10 + (x - 48)) xs else (n, x ∷ xs)

unfoldable pub read_unsigned : Bool → List ℕ → Option (Bool × (ℕ × List ℕ))
read_unsigned negative [] = none
read_unsigned negative (x ∷ xs) =
    if is_digit x then some (negative, read_digits 0 (x ∷ xs)) else none

unfoldable pub read_sign : List ℕ → Option (Bool × (ℕ × List ℕ))
read_sign [] = none
read_sign (x ∷ xs) =
    if x == minus
    then read_unsigned true xs
    else if x == 43
    then read_unsigned false xs
    else read_unsigned false (x ∷ xs)

-- `negate n` is -n.
abbrev pub negate : ℕ → ℤ
negate zero = pos 0
negate (suc n) = negsuc n

-- The nearest `long`.
abbrev pub clamp : Bool → ℕ → ℤ
clamp true n = if ltb (2 ^ 63) n then negate (2 ^ 63) else negate n
clamp false n = if leb (2 ^ 63) n then pos (2 ^ 63 - 1) else pos n

-- What C makes of it as `unsigned long`: a sign negates, and what is too large is the greatest.
abbrev pub wrap : Bool → ℕ → ℕ
wrap true n = if leb (2 ^ 64) n then 2 ^ 64 - 1 else (2 ^ 64 - n) % 2 ^ 64
wrap false n = if leb (2 ^ 64) n then 2 ^ 64 - 1 else n

abbrev pub as_long : Option (Bool × (ℕ × List ℕ)) → Option (ℤ × List ℕ)
as_long none = none
as_long (some (negative, (n, end))) = some (clamp negative n, end)

abbrev pub as_unsigned_long : Option (Bool × (ℕ × List ℕ)) → Option (ℕ × List ℕ)
as_unsigned_long none = none
as_unsigned_long (some (negative, (n, end))) = some (wrap negative n, end)

-- C's `strtol` and `strtoul` in base 10: the number and the text behind it, or nothing if there is no
-- number, when the end pointer is the start.
unfoldable pub strtol : List ℕ → Option (ℤ × List ℕ)
strtol s = as_long (read_sign (skip_space s))

unfoldable pub strtoul : List ℕ → Option (ℕ × List ℕ)
strtoul s = as_unsigned_long (read_sign (skip_space s))

pub data ArgError : Type 0 where
  integer_expected range_expected boolean_expected number_too_large number_negative : ArgError

pub data Checked {ℓ} (A : Type ℓ) : Type ℓ where
  checked : A → Checked A
  refused : ArgError → Checked A

unfoldable pub store_uint32 : Option (ℕ × List ℕ) → Checked ℕ
store_uint32 none = refused integer_expected
store_uint32 (some (value, x ∷ xs)) = refused integer_expected
store_uint32 (some (value, [])) = checked (value % 2 ^ 32)

unfoldable pub check_uint32 : List ℕ → Checked ℕ
check_uint32 s = store_uint32 (strtoul s)

unfoldable pub store_unsigned : Option (ℕ × List ℕ) → Checked ℕ
store_unsigned none = refused integer_expected
store_unsigned (some (value, x ∷ xs)) = refused integer_expected
store_unsigned (some (value, [])) =
    if ltb uint_max value then refused number_too_large else checked value

unfoldable pub check_unsigned : List ℕ → Checked ℕ
check_unsigned s = store_unsigned (strtoul s)

unfoldable pub store_int : Option (ℤ × List ℕ) → Checked ℤ
store_int none = refused integer_expected
store_int (some (value, x ∷ xs)) = refused integer_expected
store_int (some (pos n, [])) = if ltb int_max n then refused number_too_large else checked (pos n)
store_int (some (negsuc n, [])) =
    if ltb int_max n then refused number_too_large else checked (negsuc n)

unfoldable pub check_int : List ℕ → Checked ℤ
check_int s = store_int (strtol s)

unfoldable pub store_bool : Option (ℤ × List ℕ) → Checked Bool
store_bool none = refused boolean_expected
store_bool (some (value, x ∷ xs)) = refused boolean_expected
store_bool (some (negsuc n, [])) = refused boolean_expected
store_bool (some (pos zero, [])) = checked false
store_bool (some (pos (suc zero), [])) = checked true
store_bool (some (pos (suc (suc n)), [])) = refused boolean_expected

unfoldable pub check_bool : List ℕ → Checked Bool
check_bool s = store_bool (strtol s)

-- The number behind the colon; without one the range has no end.
unfoldable pub range_end : ℕ → List ℕ → Option (ℤ × List ℕ) → Checked (ℕ × ℕ)
range_end start [] none = checked (start, uint_max)
range_end start (x ∷ xs) none = refused range_expected
range_end start test (some (value, x ∷ xs)) = refused range_expected
range_end start test (some (negsuc n, [])) = refused number_negative
range_end start test (some (pos n, [])) =
    if ltb uint_max n then refused number_too_large else checked (start, n)

-- The number before the colon, or the only one; -1 alone is the whole list.
unfoldable pub range_start : ℤ → List ℕ → Checked (ℕ × ℕ)
range_start (negsuc zero) [] = checked (0, uint_max)
range_start (negsuc (suc n)) [] = refused number_negative
range_start (pos n) [] =
    if ltb uint_max n then refused number_too_large else checked (n, (n + 1) % 2 ^ 32)
range_start (negsuc n) (x ∷ xs) =
    if x == colon then refused number_negative else refused range_expected
range_start (pos n) (x ∷ xs) =
    if x == colon
    then if ltb uint_max n then refused number_too_large else range_end n xs (strtol xs)
    else refused range_expected

unfoldable pub store_range : Option (ℤ × List ℕ) → Checked (ℕ × ℕ)
store_range none = refused range_expected
store_range (some (value, test)) = range_start value test

unfoldable pub check_range : List ℕ → Checked (ℕ × ℕ)
check_range s = store_range (strtol s)
