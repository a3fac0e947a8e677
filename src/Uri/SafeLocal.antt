-- ===== src/Uri/SafeLocal.antt =====
-- `uri_safe_local` of src/uri.c: when it accepts a text, and what it overlooks.
use mpd_legacy.Common.{
  ℕ, zero, suc, ◌%◌, ◌^◌, ◌<◌, ◌≡◌, refl, ap, ◌∙◌, inl, inr, none, Bool, true, false, List, [], ◌∷◌,
  ◌++◌, arith, length, Bool-cases, All, length-append, leb, if◌then◌else◌,
}
use mathlib.Core.Path.{subst}
use mpd_legacy.Uri.{
  dot, slash, strchr, skip_dots, overrun, after_dots, verify_uri_segment, answer, overruns,
  verify_segments, uri_safe_local,
}
use mpd_legacy.Uri.Segments.{
  segments, verdict, is_proper, all_proper, IsShort, segments-cases, verify-last, verify-next,
  strchr-append,
}

-- What a round does with its segment.
step-last :
    (n : ℕ) (u : List ℕ)
    → (b : Bool) → verify_uri_segment u ≡ verdict b []
    → verify_segments (suc n) u ≡ answer b
unfolding verify_segments
step-last n u true h = rw (h, verify_segments) refl
step-last n u false h = rw (h, verify_segments) refl

step-next :
    (n : ℕ) (u r : List ℕ)
    → (b : Bool) → verify_uri_segment u ≡ verdict b (slash ∷ r)
    → verify_segments (suc n) u ≡ (if b then verify_segments n r else answer false)
unfolding verify_segments
step-next n u r true h = rw (h, verify_segments) refl
step-next n u r false h = rw (h, verify_segments) refl

safe_within :
    (n : ℕ) (u : List ℕ)
    → length u < n
    → All IsShort (segments u)
    → verify_segments n u ≡ answer (all_proper (segments u))
safe_within zero u h short = absurd (omega arith)
safe_within (suc n) u h short = elim (segments-cases u) [
  | inl (e, whole) ↦
      let (this, _) : All IsShort (u ∷ []) = subst (All IsShort) whole short in
      step-last n u (is_proper u) (verify-last u e this) ∙ ap answer (ground (arith, whole))
  | inr (s, r, cut, e, parts) ↦
      let (this, others) : All IsShort (s ∷ segments r) = subst (All IsShort) parts short in
      let shorter : length r < n = omega (arith, length-append s (slash ∷ r), h, ap length cut) in
      let this_round = step-next n u r (is_proper s) (rw cut (verify-next s r e this)) in
      let later = safe_within n r shorter others in
      elim (Bool-cases (is_proper s)) [
        | inl ok ↦ this_round ∙ rw (parts, ok) later
        | inr bad ↦ this_round ∙ rw (parts, bad) refl
      ]
]

-- A text whose segments, the parts between its slashes, are none of them made of three or more dots
-- and nothing else is accepted if no segment is empty, one dot or two dots, also where segments begin with
-- dots and go on with another character, and refused if one is.
pub uri_safe_local_lem :
    (uri : List ℕ)
    → All IsShort (segments uri)
    → uri_safe_local uri ≡ answer (all_proper (segments uri))
unfolding uri_safe_local
uri_safe_local_lem uri short = safe_within (suc (length uri)) uri (omega arith) short

abbrev pub dots : ℕ → List ℕ
dots zero = []
dots (suc d) = dot ∷ dots d

skip_dots-dots :
    (d : ℕ)
    → (skip_dots (dots d) ≡ (d, []))
      × ((t : List ℕ) → skip_dots (dots d ++ slash ∷ t) ≡ (d, slash ∷ t))
unfolding skip_dots
skip_dots-dots zero = (refl, λ t. refl)
skip_dots-dots (suc d) =
    let (alone, before) = skip_dots-dots d in (ground (arith, alone), λ t. ground (arith, before t))

-- Where a text starts with a segment of three or more dots, fewer than 2 ^ 32, the segment behind it is
-- not looked at, whatever it is: if it is the last one, the text is accepted; if a slash follows it and
-- no later segment is three or more dots and nothing else, the answer is the one for the text behind
-- that slash. A text of such dots alone is read behind its end.
pub uri_safe_local-dots :
    (d : ℕ) (s rest : List ℕ)
    → 2 < d
    → d < 2 ^ 32
    → strchr s slash ≡ none
    → All IsShort (segments rest)
    → (uri_safe_local (dots d ++ slash ∷ (s ++ slash ∷ rest)) ≡ answer (all_proper (segments rest)))
      × (uri_safe_local (dots d ++ slash ∷ s) ≡ answer true)
      × (uri_safe_local (dots d) ≡ overruns)
unfolding uri_safe_local verify_uri_segment after_dots verify_segments
uri_safe_local-dots d s rest many few h short =
    let (alone, before) = skip_dots-dots d in
    let t : List ℕ = s ++ slash ∷ rest in
    let u : List ℕ = dots d ++ slash ∷ t in
    let no_wrap : leb (d % 2 ^ 32) 2 ≡ false = ground arith in
    let shorter : length rest < length u =
      omega (arith, length-append (dots d) (slash ∷ t), length-append s (slash ∷ rest)) in
    let skipped : verify_uri_segment u ≡ verdict true (slash ∷ rest) =
      rw (before t, no_wrap, strchr-append s rest h) refl in
    let skipped_last : verify_uri_segment (dots d ++ slash ∷ s) ≡ verdict true [] =
      rw (before s, no_wrap, h) refl in
    let read_past : verify_uri_segment (dots d) ≡ overrun = rw (alone, no_wrap) refl in
    (
      step-next (length u) u rest true skipped ∙ safe_within (length u) rest shorter short,
      step-last (length (dots d ++ slash ∷ s)) (dots d ++ slash ∷ s) true skipped_last,
      rw (verify_segments, read_past) refl,
    )
