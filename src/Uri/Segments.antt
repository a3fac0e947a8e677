-- ===== src/Uri/Segments.antt =====
-- The segments of a text between its slashes, and how src/uri.c reads one of them.
use mpd_legacy.Common.{
  ℕ, suc, ◌≤◌, ◌≡◌, refl, ap, ◌∙◌, sym, ◌⊎◌, inl, inr, none, some, Bool, true, false, ◌&&◌, not,
  List, [], ◌∷◌, ◌++◌, ◌==◌, if◌then◌else◌, arith, length, Bool-cases,
}
use mathlib.Core.List.{append-nil}
use mpd_legacy.Uri.{
  dot, slash, strchr, skip_dots, Segment, invalid, verified, after_dots, verify_uri_segment,
}

abbrev put_first : ℕ → List (List ℕ) → List (List ℕ)
put_first x [] = (x ∷ []) ∷ []
put_first x (s ∷ ss) = (x ∷ s) ∷ ss

abbrev put_char : ℕ → List (List ℕ) → List (List ℕ)
put_char x ss = if x == slash then [] ∷ ss else put_first x ss

-- The segments of a text.
unfoldable pub segments : List ℕ → List (List ℕ)
segments [] = [] ∷ []
segments (x ∷ xs) = put_char x (segments xs)

-- A segment that names something within its directory: not empty, one dot or two dots.
abbrev pub is_proper : List ℕ → Bool
is_proper [] = false
is_proper (x ∷ []) = not (x == dot)
is_proper (x ∷ y ∷ []) = not ((x == dot) && (y == dot))
is_proper (x ∷ y ∷ z ∷ s) = true

abbrev pub all_proper : List (List ℕ) → Bool
all_proper [] = true
all_proper (s ∷ ss) = is_proper s && all_proper ss

abbrev pub only_dots : List ℕ → Bool
only_dots [] = true
only_dots (x ∷ s) = (x == dot) && only_dots s

-- Neither three dots nor more without any other character.
abbrev pub IsShort : List ℕ → Type 0
IsShort s = only_dots s ≡ true → length s ≤ 2

-- A text is a segment, or a segment, a slash and another text.
pub segments-cases :
    (u : List ℕ)
    → ((strchr u slash ≡ none) × (segments u ≡ u ∷ []))
      ⊎ ((s r : List ℕ) × (u ≡ s ++ slash ∷ r)
          × (strchr s slash ≡ none)
          × (segments u ≡ s ∷ segments r))
unfolding strchr segments
segments-cases [] = inl (refl, refl)
segments-cases (x ∷ xs) = elim (Bool-cases (x == slash)) [
  | inl e ↦ inr ([], xs, ap (λ c. c ∷ xs) (ground (arith, e)), refl, rw e refl)
  | inr e ↦ elim (segments-cases xs) [
    | inl (h, g) ↦ inl (ground (arith, e, h), ground (arith, e, g))
    | inr (s, r, u, h, g) ↦
        inr (x ∷ s, r, ap (λ t. x ∷ t) u, ground (arith, e, h), ground (arith, e, g))
  ]
]

pub strchr-append :
    (s r : List ℕ) → strchr s slash ≡ none → strchr (s ++ slash ∷ r) slash ≡ some (slash ∷ r)
unfolding strchr
strchr-append [] r h = refl
strchr-append (x ∷ s) r h = elim (Bool-cases (x == slash)) [
  | inl e ↦ absurd (ground (arith, e, h))
  | inr e ↦ ground (arith, e, h, strchr-append s r)
]

-- Dots only.
skip_dots-only :
    (s r : List ℕ)
    → only_dots s ≡ true
    → (strchr s slash ≡ none)
      × (skip_dots s ≡ (length s, []))
      × (skip_dots (s ++ slash ∷ r) ≡ (length s, slash ∷ r))
unfolding skip_dots strchr
skip_dots-only [] r h = (refl, refl, refl)
skip_dots-only (x ∷ s) r h = ground (arith, h, skip_dots-only s r)

-- The dots at the start of a segment that has another character.
skip_dots-other :
    (s : List ℕ)
    → only_dots s ≡ false
    → strchr s slash ≡ none
    → (d x : ℕ) × (s' : List ℕ) × ((t : List ℕ) → skip_dots (s ++ t) ≡ (d, x ∷ s' ++ t))
      × ((x == slash) ≡ false)
      × (strchr s' slash ≡ none)
unfolding skip_dots strchr
skip_dots-other [] h g = absurd (ground (arith, h))
skip_dots-other (x ∷ s) h g = elim (Bool-cases (x == dot)) [
  | inl e ↦
      let (d, y, s', parts, ny, ns) =
        skip_dots-other s (ground (arith, h, e)) (ground (arith, g, e)) in
      (suc d, y, s', λ t. ground (arith, e, parts t), ny, ns)
  | inr e ↦ (0, x, s, λ t. ground (arith, e), ground (arith, g), ground (arith, g))
]

proper_other : (s : List ℕ) → only_dots s ≡ false → is_proper s ≡ true
proper_other [] h = ground (arith, h)
proper_other (x ∷ []) h = ground (arith, h)
proper_other (x ∷ y ∷ []) h = ground (arith, h)
proper_other (x ∷ y ∷ z ∷ s) h = refl

improper_dots : (s : List ℕ) → only_dots s ≡ true → length s ≤ 2 → is_proper s ≡ false
improper_dots [] h g = refl
improper_dots (x ∷ []) h g = ground (arith, h)
improper_dots (x ∷ y ∷ []) h g = ground (arith, h)
improper_dots (x ∷ y ∷ z ∷ s) h g = absurd (omega (arith, g))

abbrev pub verdict : Bool → List ℕ → Segment
verdict true next = verified next
verdict false next = invalid

pub verify-last :
    (s : List ℕ)
    → strchr s slash ≡ none
    → IsShort s
    → verify_uri_segment s ≡ verdict (is_proper s) []
unfolding verify_uri_segment after_dots
verify-last s h short = elim (Bool-cases (only_dots s)) [
  | inl e ↦
      let (_, parts, _) = skip_dots-only s [] e in
      let le = short e in rw (parts, improper_dots s e le) (ground arith)
  | inr e ↦
      let (d, x, s', parts, ns, rest) = skip_dots-other s e h in
      let whole : skip_dots s ≡ (d, x ∷ s') =
        ap skip_dots (sym (append-nil s)) ∙ parts [] ∙ ap (λ t. (d, x ∷ t)) (append-nil s') in
      rw (whole, proper_other s e, rest) (ground (arith, ns))
]

pub verify-next :
    (s r : List ℕ)
    → strchr s slash ≡ none
    → IsShort s
    → verify_uri_segment (s ++ slash ∷ r) ≡ verdict (is_proper s) (slash ∷ r)
unfolding verify_uri_segment after_dots
verify-next s r h short = elim (Bool-cases (only_dots s)) [
  | inl e ↦
      let (_, _, parts) = skip_dots-only s r e in
      let le = short e in rw (parts, improper_dots s e le) (ground arith)
  | inr e ↦
      let (d, x, s', parts, ns, rest) = skip_dots-other s e h in
      rw (parts (slash ∷ r), proper_other s e, strchr-append s' r rest) (ground (arith, ns))
]
