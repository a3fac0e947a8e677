-- ===== src/Handlers/Granted.antt =====
-- What a password and a user id let a client do, by src/command.c, src/permission.c and
-- src/client_file.c.
use Prim.Native.Nat.{bit_and}
use mpd_legacy.Common.{ℕ, suc, ◌≡◌, ◌↔◌, refl, none, some, List, [], ◌∷◌, All}
use mpd_legacy.Command.{Command, command_check_request}
use mpd_legacy.Command.Request.{Within, command_check_request_lem}
use mpd_legacy.Permission.{HashTable, Permissions, init_permissions}
use mpd_legacy.Permission.Passwords.{
  Entry, IsEntry, lines_of, last_permission, init_permissions_lem,
}
use mpd_legacy.Playlist.{Playlist}
use mpd_legacy.Handlers.{Session, done}
use mpd_legacy.Handlers.Access.{handle_password}

module _ {H : Type 0} (g_strsplit : List ℕ → List (List ℕ)) (table : HashTable H) where
  -- With a configuration whose passwords have no at sign and whose permissions are known, `password`
  -- with the password of an entry gives the client the permissions p of the last such entry, and
  -- changes nothing else; a command is then allowed if p has the permissions of the command
  -- and the number of arguments is within its bounds, and only then.
  pub handle_password_lem :
      (es : List Entry) (command password : List ℕ) (s : Session) (p : ℕ) (cmd : Command) (argc : ℕ)
      → All (IsEntry g_strsplit) es
      → last_permission es password ≡ some p
      → (permissions : Permissions H) × (s' : Session) × (init_permissions g_strsplit table
            (lines_of es)
            none
          ≡ some permissions)
        × (handle_password g_strsplit table permissions (command ∷ password ∷ []) s ≡ (done tt, s'))
        × (s' ≡ record s { permission = p })
        × ((command_check_request cmd s'.permission (suc argc) ≡ none)
            ↔ ((cmd.permission ≡ bit_and p cmd.permission) × Within cmd.min cmd.max argc))
  unfolding handle_password
  handle_password_lem es command password s p cmd argc entries known =
      let (permissions, read, found, _) =
        init_permissions_lem g_strsplit table es password entries in
      (
        permissions,
        record s { permission = p },
        read,
        rw (found, known) refl,
        refl,
        command_check_request_lem cmd p argc,
      )
