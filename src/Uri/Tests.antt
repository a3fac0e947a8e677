-- ===== src/Uri/Tests.antt =====
-- Tests of the reader of URIs.
use mpd_legacy.Common.{ℕ, ◌≡◌, refl, some, none, true, false, List, [], ◌∷◌, ◌++◌, arith}
use mpd_legacy.Uri.{
  dot, slash, http, answer, overruns, strchr, skip_dots, after_dots, verify_uri_segment,
  verify_segments, uri_safe_local, uri_has_scheme, uri_get_suffix, after_prefix, strrchr, strpbrk,
}
use mpd_legacy.Uri.Segments.{segments, all_proper}
use mpd_legacy.Uri.SafeLocal.{dots, uri_safe_local_lem, uri_safe_local-dots}

-- "a/../b".
abbrev up : List ℕ
up = 97 ∷ slash ∷ dot ∷ dot ∷ slash ∷ 98 ∷ []

-- ".../../b".
abbrev hidden_up : List ℕ
hidden_up = dot ∷ dot ∷ dot ∷ slash ∷ dot ∷ dot ∷ slash ∷ 98 ∷ []

safe_local_up : uri_safe_local up ≡ answer false
unfolding uri_safe_local verify_segments verify_uri_segment after_dots skip_dots strchr
safe_local_up = refl

safe_local_hidden : uri_safe_local hidden_up ≡ answer true
unfolding uri_safe_local verify_segments verify_uri_segment after_dots skip_dots strchr
safe_local_hidden = refl

uri_safe_local_example : uri_safe_local up ≡ answer (all_proper (segments up))
unfolding segments
uri_safe_local_example =
    uri_safe_local_lem up ((λ h. omega arith), ((λ h. omega arith), ((λ h. omega arith), tt)))

dots_example :
    (uri_safe_local hidden_up ≡ answer (all_proper (segments (98 ∷ []))))
    × (uri_safe_local (dots 3 ++ slash ∷ dot ∷ dot ∷ []) ≡ answer true)
    × (uri_safe_local (dots 3) ≡ overruns)
unfolding strchr segments
dots_example =
    uri_safe_local-dots 3 (dot ∷ dot ∷ []) (98 ∷ []) (omega arith) (omega arith) refl
      ((λ h. omega arith), tt)

-- "/a.b/c.ogg" and "/a.b/c".
suffix_found : uri_get_suffix (47 ∷ 97 ∷ dot ∷ 98 ∷ 47 ∷ 99 ∷ dot ∷ 111 ∷ []) ≡ some (111 ∷ [])
unfolding uri_get_suffix strrchr strpbrk strchr
suffix_found = refl

suffix_missing : uri_get_suffix (47 ∷ 97 ∷ dot ∷ 98 ∷ 47 ∷ 99 ∷ []) ≡ none
unfolding uri_get_suffix strrchr strpbrk strchr
suffix_missing = refl

scheme_found : uri_has_scheme (http ++ 97 ∷ []) ≡ true
unfolding uri_has_scheme after_prefix
scheme_found = refl

scheme_missing : uri_has_scheme up ≡ false
unfolding uri_has_scheme after_prefix
scheme_missing = refl
