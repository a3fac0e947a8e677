-- ===== src/Uri/Auth.antt =====
-- `uri_remove_auth` of src/uri.c: the user and the password are cut out of a text.
use mpd_legacy.Common.{
  ℕ, ◌≡◌, refl, ap, ◌∙◌, none, some, false, List, [], ◌∷◌, ◌++◌, arith, ◌==◌, All,
}
use mpd_legacy.Uri.{
  slash, at_sign, http, https, find_at, after_prefix, without_auth, uri_remove_auth,
}

-- Neither a slash nor an at sign.
abbrev pub IsPlain : List ℕ → Type 0
IsPlain = All (λ x. ((x == slash) ≡ false) × ((x == at_sign) ≡ false))

find_at-at : (auth rest : List ℕ) → IsPlain auth → find_at (auth ++ at_sign ∷ rest) ≡ some rest
unfolding find_at
find_at-at [] rest h = refl
find_at-at (x ∷ auth) rest (h, hs) = ground (arith, h, find_at-at auth rest hs)

find_at-slash : (host rest : List ℕ) → IsPlain host → find_at (host ++ slash ∷ rest) ≡ none
unfolding find_at
find_at-slash [] rest h = refl
find_at-slash (x ∷ host) rest (h, hs) = ground (arith, h, find_at-slash host rest hs)

find_at-end : (host : List ℕ) → IsPlain host → find_at host ≡ none
unfolding find_at
find_at-end [] h = refl
find_at-end (x ∷ host) (h, hs) = ground (arith, h, find_at-end host hs)

-- What the two schemes make of the rest of the text.
by_scheme :
    (text : List ℕ)
    → (uri_remove_auth (http ++ text) ≡ without_auth http (find_at text))
      × (uri_remove_auth (https ++ text) ≡ without_auth https (find_at text))
unfolding uri_remove_auth after_prefix
by_scheme text = (refl, refl)

-- Of a text with the scheme http or https, what stands before the first at sign is cut out with the
-- at sign, if there is no slash before it. A text that has a slash before any at sign, or neither, is
-- left alone.
pub uri_remove_auth_lem :
    (auth rest : List ℕ)
    → IsPlain auth
    → (uri_remove_auth (http ++ auth ++ at_sign ∷ rest) ≡ some (http ++ rest))
      × (uri_remove_auth (https ++ auth ++ at_sign ∷ rest) ≡ some (https ++ rest))
      × (uri_remove_auth (http ++ auth ++ slash ∷ rest) ≡ none)
      × (uri_remove_auth (https ++ auth ++ slash ∷ rest) ≡ none)
      × (uri_remove_auth (http ++ auth) ≡ none)
      × (uri_remove_auth (https ++ auth) ≡ none)
unfolding without_auth
uri_remove_auth_lem auth rest h =
    let with_at = find_at-at auth rest h in
    let with_slash = find_at-slash auth rest h in
    let without = find_at-end auth h in
    (
      (by_scheme (auth ++ at_sign ∷ rest)).0 ∙ ap (without_auth http) with_at,
      (by_scheme (auth ++ at_sign ∷ rest)).1 ∙ ap (without_auth https) with_at,
      (by_scheme (auth ++ slash ∷ rest)).0 ∙ ap (without_auth http) with_slash,
      (by_scheme (auth ++ slash ∷ rest)).1 ∙ ap (without_auth https) with_slash,
      (by_scheme auth).0 ∙ ap (without_auth http) without,
      (by_scheme auth).1 ∙ ap (without_auth https) without,
    )
