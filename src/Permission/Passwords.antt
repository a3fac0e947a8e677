-- ===== src/Permission/Passwords.antt =====
-- What the passwords of a configuration give, by src/permission.c.
use mpd_legacy.Common.{
  ℕ, ◌≡◌, refl, ap, ◌∙◌, Option, none, some, Bool, true, false, List, [], ◌∷◌, ◌++◌, ◌==◌,
  if◌then◌else◌, arith, All,
}
use mpd_legacy.Command.{is_text}
use mpd_legacy.Permission.{
  password_char, HashTable, separate, is_empty, Permissions, parse_permissions, add_password,
  add_passwords, parse_default, all_permissions, init_permissions, get_permission_from_password,
  get_default_permissions,
}

separate-append :
    (password rest : List ℕ)
    → All (λ x. (x == password_char) ≡ false) password
    → separate (password ++ password_char ∷ rest) password_char ≡ some (password, rest)
unfolding separate
separate-append [] rest h = refl
separate-append (x ∷ xs) rest (h, hs) = ground (arith, h, separate-append xs rest hs)

-- A password, a text of permissions, and the permissions.
abbrev pub Entry : Type 0
Entry = List ℕ × (List ℕ × ℕ)

abbrev pub line_of : Entry → List ℕ
line_of (password, (string, permission)) = password ++ password_char ∷ string

abbrev pub lines_of : List Entry → List (List ℕ)
lines_of [] = []
lines_of (e ∷ es) = line_of e ∷ lines_of es

abbrev or_else : Option ℕ → Option ℕ → Option ℕ
or_else (some p) o = some p
or_else none o = o

-- The permissions of the last entry with the password.
abbrev pub last_permission : List Entry → List ℕ → Option ℕ
last_permission [] key = none
last_permission ((password, (string, permission)) ∷ es) key =
    or_else (last_permission es key) (if is_text password key then some permission else none)

or_else_assoc :
    (o d : Option ℕ) (b : Bool) (p : ℕ)
    → or_else o (if b then some p else d) ≡ or_else (or_else o (if b then some p else none)) d
or_else_assoc (some q) d b p = refl
or_else_assoc none d true p = refl
or_else_assoc none d false p = refl

or_else-none : (o : Option ℕ) → or_else o none ≡ o
or_else-none none = refl
or_else-none (some p) = refl

module _ (g_strsplit : List ℕ → List (List ℕ)) where
  -- The password has no at sign, and the text is that of the permissions.
  abbrev pub IsEntry : Entry → Type 0
  IsEntry (password, (string, permission)) =
      All (λ x. (x == password_char) ≡ false) password
      × (parse_permissions g_strsplit string ≡ some permission)

  module _ {H : Type 0} (table : HashTable H) where
    add_passwords_lem :
        (es : List Entry) (h : H) (key : List ℕ)
        → All IsEntry es
        → (h' : H) × (add_passwords g_strsplit table h (lines_of es) ≡ some h')
          × (table.lookup h' key ≡ or_else (last_permission es key) (table.lookup h key))
    unfolding add_passwords add_password
    add_passwords_lem [] h key entries = (h, refl, refl)
    add_passwords_lem ((password, (string, permission)) ∷ es) h key ((plain, parsed), entries) =
        let (h', added, found) =
          add_passwords_lem es (table.replace h password permission) key entries in
        (
          h',
          rw (separate-append password string plain, parsed) added,
          found
              ∙ ap (or_else (last_permission es key))
                  (table.lookup-replace h password permission key)
              ∙ or_else_assoc (last_permission es key) (table.lookup h key) (is_text password key)
                  permission,
        )

    -- A configuration with a line for each entry, whose password has no at sign and whose permissions are
    -- known, is accepted: a password gives the permissions of the last entry that has it, and none
    -- if there is no such entry; without a password a client has every permission if there is no
    -- entry, and no permission if there is one. There is no line `default_permissions`.
    pub init_permissions_lem :
        (es : List Entry) (key : List ℕ)
        → All IsEntry es
        → (s : Permissions H) × (init_permissions g_strsplit table (lines_of es) none ≡ some s)
          × (get_permission_from_password g_strsplit table s key ≡ last_permission es key)
          × (get_default_permissions g_strsplit table s
              ≡ (if is_empty (lines_of es) then all_permissions else 0))
    unfolding init_permissions parse_default get_permission_from_password get_default_permissions
    init_permissions_lem es key entries =
        let (h, added, found) = add_passwords_lem es table.empty key entries in
        (
          record {
            permission_passwords = h;
            permission_default = if is_empty (lines_of es) then all_permissions else 0;
          },
          rw added refl,
          found
              ∙ ap (or_else (last_permission es key)) (table.lookup-empty key)
              ∙ or_else-none (last_permission es key),
          refl,
        )
