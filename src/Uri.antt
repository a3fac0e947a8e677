-- ===== src/Uri.antt =====
-- src/uri.c: tests and edits of the texts that name songs. A text is the list of its bytes without the
-- zero byte at its end, and a pointer into it is the text from there on.
use mpd_legacy.Common.{
  ℕ, zero, suc, ◌+◌, ◌%◌, ◌^◌, Option, none, some, get_or, Bool, true, false, ◌&&◌, ◌||◌, not, List,
  [], ◌∷◌, ◌++◌, ltb, leb, ◌==◌, if◌then◌else◌, length, drop,
}
pub mod Segments
pub mod SafeLocal
pub mod Auth
mod Tests

abbrev pub dot : ℕ
dot = 46

abbrev pub slash : ℕ
slash = 47

abbrev pub at_sign : ℕ
at_sign = 64

-- The text from the first `c` on.
unfoldable pub strchr : List ℕ → ℕ → Option (List ℕ)
strchr [] c = none
strchr (x ∷ xs) c = if x == c then some (x ∷ xs) else strchr xs c

-- The number of dots at the start, and what follows them.
unfoldable pub skip_dots : List ℕ → ℕ × List ℕ
skip_dots [] = (0, [])
skip_dots (x ∷ xs) =
    let rest = skip_dots xs in if x == dot then (suc rest.0, rest.1) else (0, x ∷ xs)

-- What `verify_uri_segment` gives: null, or the text from the next slash on. `overrun` is a read
-- behind the end of the text.
pub data Segment : Type 0 where
  invalid overrun : Segment
  verified : List ℕ → Segment

-- `dots` is `unsigned`. `strchr` starts one byte behind the dots.
unfoldable pub after_dots : ℕ × List ℕ → Segment
after_dots (dots, []) = if leb (dots % 2 ^ 32) 2 then invalid else overrun
after_dots (dots, x ∷ xs) =
    if leb (dots % 2 ^ 32) 2 && (x == slash)
    then invalid
    else verified (get_or (strchr xs slash) [])

unfoldable pub verify_uri_segment : List ℕ → Segment
verify_uri_segment p = after_dots (skip_dots p)

-- What `uri_safe_local` answers; `overruns` if it reads behind the end of the text, and `no_fuel` if
-- the count of rounds is too small.
pub data Answer : Type 0 where
  answer : Bool → Answer
  overruns no_fuel : Answer

unfoldable pub verify_segments : ℕ → List ℕ → Answer
verify_segments zero uri = no_fuel
verify_segments (suc n) uri = elim (verify_uri_segment uri) [
  | invalid ↦ answer false
  | overrun ↦ overruns
  | verified [] ↦ answer true
  | verified (x ∷ next) ↦ verify_segments n next
]

unfoldable pub uri_safe_local : List ℕ → Answer
uri_safe_local uri = verify_segments (suc (length uri)) uri

-- The text behind a text that it starts with.
unfoldable pub after_prefix : List ℕ → List ℕ → Option (List ℕ)
after_prefix [] xs = some xs
after_prefix (p ∷ ps) [] = none
after_prefix (p ∷ ps) (x ∷ xs) = if p == x then after_prefix ps xs else none

abbrev pub http : List ℕ
http = 104 ∷ 116 ∷ 116 ∷ 112 ∷ 58 ∷ 47 ∷ 47 ∷ []

abbrev pub https : List ℕ
https = 104 ∷ 116 ∷ 116 ∷ 112 ∷ 115 ∷ 58 ∷ 47 ∷ 47 ∷ []

-- `memchr` for the at sign, up to the first slash: the text behind it.
unfoldable pub find_at : List ℕ → Option (List ℕ)
find_at [] = none
find_at (x ∷ xs) = if x == slash then none else if x == at_sign then some xs else find_at xs

-- The scheme, and what follows the at sign.
unfoldable pub without_auth : List ℕ → Option (List ℕ) → Option (List ℕ)
without_auth scheme none = none
without_auth scheme (some rest) = some (scheme ++ rest)

unfoldable pub uri_remove_auth : List ℕ → Option (List ℕ)
uri_remove_auth uri = elim (after_prefix http uri) [
  | some auth ↦ without_auth http (find_at auth)
  | none ↦ elim (after_prefix https uri) [
    | some auth ↦ without_auth https (find_at auth)
    | none ↦ none
  ]
]

abbrev pub scheme_end : List ℕ
scheme_end = 58 ∷ 47 ∷ 47 ∷ []

abbrev is_some : Option (List ℕ) → Bool
is_some none = false
is_some (some xs) = true

-- `strstr` for "://".
unfoldable pub uri_has_scheme : List ℕ → Bool
uri_has_scheme [] = false
uri_has_scheme (x ∷ xs) = is_some (after_prefix scheme_end (x ∷ xs)) || uri_has_scheme xs

-- The text from the last `c` on.
unfoldable pub strrchr : List ℕ → ℕ → Option (List ℕ)
strrchr [] c = none
strrchr (x ∷ xs) c = elim (strrchr xs c) [
  | some rest ↦ some rest
  | none ↦ if x == c then some (x ∷ xs) else none
]

-- Whether the text has one of the characters.
unfoldable pub strpbrk : List ℕ → List ℕ → Bool
strpbrk [] accept = false
strpbrk (x ∷ xs) accept = is_some (strchr accept x) || strpbrk xs accept

abbrev pub separators : List ℕ
separators = 47 ∷ 92 ∷ []

unfoldable pub uri_get_suffix : List ℕ → Option (List ℕ)
uri_get_suffix uri = elim (strrchr uri dot) [
  | none ↦ none
  | some [] ↦ none
  | some (x ∷ suffix) ↦ if strpbrk suffix separators then none else some suffix
]
