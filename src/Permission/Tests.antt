-- ===== src/Permission/Tests.antt =====
-- Tests of the passwords, with a hash table that is a function.
use mpd_legacy.Common.{ℕ, ◌≡◌, refl, Option, some, none, List, [], ◌∷◌, ◌==◌, if◌then◌else◌}
use mpd_legacy.Command.{codes, strcmp, is_text}
use mpd_legacy.Permission.{
  HashTable, Permissions, parse_permission, parse_tokens, separate, parse_permissions, add_password,
  add_passwords, parse_default, init_permissions, get_permission_from_password,
  get_default_permissions,
}
use mpd_legacy.Permission.Passwords.{Entry, lines_of, init_permissions_lem}

abbrev pub functions : HashTable (List ℕ → Option ℕ)
functions = record {
  empty = λ key. none;
  replace = λ h key value other. if is_text key other then some value else h other;
  lookup = λ h key. h key;
  lookup-empty = λ key. refl;
  lookup-replace = λ h key value other. refl;
}

abbrev pub put_token : ℕ → List (List ℕ) → List (List ℕ)
put_token x [] = (x ∷ []) ∷ []
put_token x (t ∷ ts) = (x ∷ t) ∷ ts

abbrev pub at_commas : List ℕ → List (List ℕ)
at_commas [] = [] ∷ []
at_commas (x ∷ xs) = if x == 44 then [] ∷ at_commas xs else put_token x (at_commas xs)

-- As GLib does, nothing for an empty text.
abbrev pub tokens_of : List ℕ → List (List ℕ)
tokens_of [] = []
tokens_of (x ∷ xs) = at_commas (x ∷ xs)

abbrev pub entries : List Entry
entries =
    (codes "pw", (codes "read,add", 3))
    ∷ (codes "root", (codes "admin", 8))
    ∷ (codes "pw", (codes "control", 4))
    ∷ []

unknown_token : parse_permissions tokens_of (codes "read,write") ≡ none
unfolding parse_permissions parse_tokens parse_permission is_text strcmp
unknown_token = refl

no_separator : init_permissions tokens_of functions (codes "pw" ∷ []) none ≡ none
unfolding init_permissions add_passwords add_password separate parse_default
no_separator = refl

init_permissions_example :
    (s : Permissions (List ℕ → Option ℕ)) × (init_permissions tokens_of functions
        (lines_of entries)
        none
      ≡ some s)
    × (get_permission_from_password tokens_of functions s (codes "pw") ≡ some 4)
    × (get_default_permissions tokens_of functions s ≡ 0)
unfolding is_text strcmp parse_permissions parse_tokens parse_permission
init_permissions_example = init_permissions_lem tokens_of functions entries (codes "pw") (
  ((refl, (refl, tt)), refl),
  (((refl, (refl, (refl, (refl, tt)))), refl), (((refl, (refl, tt)), refl), tt)),
)
