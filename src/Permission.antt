-- ===== src/Permission.antt =====
-- src/permission.c: which permissions a password gives. GLib's hash table, keyed by texts, is an
-- interface, and `g_strsplit` with the separator "," is an argument. `none` is an exit with an error
-- message. A configuration is the values of its `password` lines, in their sequence, and that of
-- `default_permissions`, if there is one.
use Prim.Native.Nat.{Ordering, bit_or}
use mpd_legacy.Common.{
  ℕ, zero, suc, ◌≡◌, Option, none, some, Bool, true, false, List, [], ◌∷◌, ◌==◌, if◌then◌else◌,
}
use mpd_legacy.Command.{codes, strcmp, is_text}
use mpd_legacy.Command.Table.{permission_read, permission_add, permission_control, permission_admin}
pub mod Passwords
pub mod Tests

abbrev pub password_char : ℕ
password_char = 64

pub record HashTable (H : Type 0) : Type 0 where
  pub empty : H
  pub replace : H → List ℕ → ℕ → H
  pub lookup : H → List ℕ → Option ℕ
  pub lookup-empty : (key : List ℕ) → lookup empty key ≡ none
  pub lookup-replace :
      (h : H) (key : List ℕ) (value : ℕ) (other : List ℕ)
      → lookup (replace h key value) other
        ≡ (if is_text key other then some value else lookup h other)

unfoldable pub parse_permission : List ℕ → Option ℕ
parse_permission token =
    if is_text token (codes "read")
    then some permission_read
    else if is_text token (codes "add")
    then some permission_add
    else if is_text token (codes "control")
    then some permission_control
    else if is_text token (codes "admin")
    then some permission_admin
    else none

-- The permission of one token, if it is known, is added to those before.
abbrev add_permission : Option ℕ → (ℕ → Option ℕ) → Option ℕ
add_permission none next = none
add_permission (some p) next = next p

unfoldable pub parse_tokens : ℕ → List (List ℕ) → Option ℕ
parse_tokens permission [] = some permission
parse_tokens permission (token ∷ tokens) =
    add_permission (parse_permission token) (λ p. parse_tokens (bit_or permission p) tokens)

abbrev put_first : ℕ → Option (List ℕ × List ℕ) → Option (List ℕ × List ℕ)
put_first x none = none
put_first x (some (before, behind)) = some (x ∷ before, behind)

-- What stands before the first `c`, and what behind it.
unfoldable pub separate : List ℕ → ℕ → Option (List ℕ × List ℕ)
separate [] c = none
separate (x ∷ xs) c = if x == c then some ([], xs) else put_first x (separate xs c)

abbrev pub all_permissions : ℕ
all_permissions =
    bit_or (bit_or (bit_or permission_read permission_add) permission_control) permission_admin

abbrev pub is_empty : List (List ℕ) → Bool
is_empty [] = true
is_empty (x ∷ xs) = false

pub record Permissions (H : Type 0) : Type 0 where
  pub permission_passwords : H
  pub permission_default : ℕ

module _ (g_strsplit : List ℕ → List (List ℕ)) where
  unfoldable pub parse_permissions : List ℕ → Option ℕ
  parse_permissions string = parse_tokens 0 (g_strsplit string)

  module _ {H : Type 0} (table : HashTable H) where
    abbrev replace_password : H → List ℕ → Option ℕ → Option H
    replace_password h password none = none
    replace_password h password (some permission) = some (table.replace h password permission)

    unfoldable pub add_password : H → Option (List ℕ × List ℕ) → Option H
    add_password h none = none
    add_password h (some (password, string)) =
        replace_password h password (parse_permissions string)

    abbrev then_passwords : (H → Option H) → Option H → Option H
    then_passwords next none = none
    then_passwords next (some h) = next h

    unfoldable pub add_passwords : H → List (List ℕ) → Option H
    add_passwords h [] = some h
    add_passwords h (value ∷ values) =
        then_passwords (λ h'. add_passwords h' values)
          (add_password h (separate value password_char))

    unfoldable pub parse_default : ℕ → Option (List ℕ) → Option ℕ
    parse_default start none = some start
    parse_default start (some string) = parse_permissions string

    abbrev make_permissions : Option H → Option ℕ → Option (Permissions H)
    make_permissions none default = none
    make_permissions (some h) none = none
    make_permissions (some h) (some default) =
        some (record { permission_passwords = h; permission_default = default })

    unfoldable pub init_permissions : List (List ℕ) → Option (List ℕ) → Option (Permissions H)
    init_permissions values default =
        make_permissions (add_passwords table.empty values)
          (parse_default (if is_empty values then all_permissions else 0) default)

    -- `none` is -1.
    unfoldable pub get_permission_from_password : Permissions H → List ℕ → Option ℕ
    get_permission_from_password s password = table.lookup s.permission_passwords password

    unfoldable pub get_default_permissions : Permissions H → ℕ
    get_default_permissions s = s.permission_default
