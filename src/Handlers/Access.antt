-- ===== src/Handlers/Access.antt =====
-- The handlers of src/command.c that add files and check passwords, and src/client_file.c, by which a
-- client may use a file. `client_get_uid` and `geteuid` are arguments, and so are `stat`, which gives
-- the owner and the mode of a file, `song_file_load`, and the functions that ask the database.
use Prim.Native.Nat.{bit_and}
use mpd_legacy.Common.{
  ℕ, ◌-◌, ◌^◌, Option, none, some, Bool, ◌&&◌, not, List, [], ◌∷◌, ltb, ◌==◌, if◌then◌else◌, length,
}
use mpd_legacy.Common.Int.{ℤ, pos, negsuc}
use mpd_legacy.Argparser.{check_unsigned}
use mpd_legacy.Uri.{slash, after_prefix, uri_has_scheme}
use mpd_legacy.Permission.{HashTable, Permissions, get_permission_from_password}
use mpd_legacy.Queue.{Song}
use mpd_legacy.Queue.Random.{RandIntRange, QSort}
use mpd_legacy.Playlist.{Playlist, Player, PlaylistResult, success, no_such_song}
use mpd_legacy.Playlist.Edit.{append_song, move_id, delete_id}
use mpd_legacy.Handlers.{
  incorrect_password, unsupported_scheme, done, Action, ◌>>=◌, pure, fail, arg, check, edit,
  print_error2,
}

-- `MPD_SUCCESS`, `-MPD_PERM` and `-MPD_ACCESS`
pub data FileAccess : Type 0 where
  allowed perm access : FileAccess

abbrev pub Stat : Type 0
Stat = List ℕ → Option (ℕ × ℕ)

-- What `stat` tells of a file, and a client that is known and not the user of the server.
unfoldable pub allow_known : ℕ → Option (ℕ × ℕ) → FileAccess
allow_known uid none = access
allow_known uid (some (owner, mode)) =
    if not (owner == uid) && not (bit_and mode 292 == 292) then perm else allowed

unfoldable pub client_allow_file : Stat → ℕ → ℤ → List ℕ → FileAccess
unfolding allow_known
client_allow_file stat euid (negsuc n) path = perm
client_allow_file stat euid (pos uid) path =
    if uid == euid then perm else if uid == 0 then perm else allow_known uid (stat path)

-- "file:///"; the path begins with the last slash.
abbrev pub file_scheme : List ℕ
file_scheme = 102 ∷ 105 ∷ 108 ∷ 101 ∷ 58 ∷ 47 ∷ 47 ∷ 47 ∷ []

-- An `unsigned` position where the playlist takes an `int`.
abbrev pub to_int : ℕ → ℤ
to_int n = if ltb n (2 ^ 31) then pos n else negsuc (2 ^ 32 - n - 1)

-- What the functions that add a song give: the result, the id, and the playlist.
abbrev pub Added : Type 0
Added = PlaylistResult × Option ℕ × Playlist

abbrev pub without_id : (Playlist → Added) → Playlist → PlaylistResult × Playlist
without_id f p = let (r, id, p') = f p in (r, p')

abbrev grant : ℕ → Action (Unit {0})
grant permission s = (done tt, record s { permission = permission })

module _ {H : Type 0} (g_strsplit : List ℕ → List (List ℕ)) (table : HashTable H) where
  abbrev set_permission : Option ℕ → Action (Unit {0})
  set_permission none = fail incorrect_password
  set_permission (some permission) = grant permission

  unfoldable pub handle_password : Permissions H → List (List ℕ) → Action (Unit {0})
  handle_password permissions argv =
      set_permission (get_permission_from_password g_strsplit table permissions (arg argv 1))

module _ (g_rand_int_range : RandIntRange) (g_qsort : QSort)
    (song_file_load : List ℕ → Option Song) where
  unfoldable pub append_file : List ℕ → Playlist → Added
  append_file path p = elim (song_file_load path) [
    | none ↦ (no_such_song, none, p)
    | some song ↦ append_song g_rand_int_range g_qsort p song
  ]

  module _ (stat : Stat) (euid : ℕ) (uid : ℤ) (uri_supported_scheme : List ℕ → Bool)
      (append_uri : List ℕ → Playlist → Added)
      (add_all_in : List ℕ → Playlist → PlaylistResult × Playlist) where
    -- `file:///` with the result of `client_allow_file`, which returns where it is zero.
    unfoldable pub add_file : FileAccess → List ℕ → Action (Unit {0})
    unfolding append_file
    add_file allowed path = print_error2 success
    add_file perm path = edit (without_id (append_file path))
    add_file access path = edit (without_id (append_file path))

    unfoldable pub add_other : List ℕ → Action (Unit {0})
    add_other uri =
        if uri_has_scheme uri
        then if not (uri_supported_scheme uri)
          then fail unsupported_scheme
          else edit (without_id (append_uri uri))
        else edit (add_all_in uri)

    unfoldable pub handle_add : List (List ℕ) → Action (Unit {0})
    unfolding add_file add_other
    handle_add argv = elim (after_prefix file_scheme (arg argv 1)) [
      | some rest ↦ add_file (client_allow_file stat euid uid (slash ∷ rest)) (slash ∷ rest)
      | none ↦ add_other (arg argv 1)
    ]

    module _ (player : Player) where
      -- "Id: %u"
      abbrev print_id : ℕ → Action (Unit {0})
      print_id id s = (done tt, record s { printed = id ∷ s.printed })

      -- Where the move failed the song is deleted behind the error.
      unfoldable pub not_moved : ℕ → PlaylistResult → Action (Unit {0})
      unfolding print_error2
      not_moved id r s =
          let (o, s1) = print_error2 r s in
          (o, record s1 { playlist = (delete_id g_rand_int_range g_qsort player s1.playlist id).1 })

      unfoldable pub moved : ℕ → PlaylistResult → Action (Unit {0})
      unfolding not_moved
      moved id success = print_id id
      moved id r = not_moved id r

      unfoldable pub move_added : ℕ → ℕ → Action (Unit {0})
      unfolding moved
      move_added id to s =
          let (r, p) = move_id g_rand_int_range g_qsort s.playlist id (to_int to) in
          moved id r (record s { playlist = p })

      -- What follows the addition of the song.
      unfoldable pub added : List (List ℕ) → PlaylistResult → Option ℕ → Action (Unit {0})
      unfolding move_added
      added argv success (some id) =
          if length argv == 3
          then check (check_unsigned (arg argv 2)) >>= (λ to. move_added id to)
          else print_id id
      added argv success none = pure tt
      added argv r id = print_error2 r

      abbrev add_with : List (List ℕ) → (Playlist → Added) → Action (Unit {0})
      add_with argv f s =
          let (r, id, p) = f s.playlist in added argv r id (record s { playlist = p })

      abbrev addid_file : List (List ℕ) → FileAccess → List ℕ → Action (Unit {0})
      addid_file argv allowed path = print_error2 success
      addid_file argv perm path = add_with argv (append_file path)
      addid_file argv access path = add_with argv (append_file path)

      unfoldable pub handle_addid : List (List ℕ) → Action (Unit {0})
      unfolding append_file added
      handle_addid argv = elim (after_prefix file_scheme (arg argv 1)) [
        | some rest ↦
            addid_file argv (client_allow_file stat euid uid (slash ∷ rest)) (slash ∷ rest)
        | none ↦
            if uri_has_scheme (arg argv 1) && not (uri_supported_scheme (arg argv 1))
            then fail unsupported_scheme
            else add_with argv (append_uri (arg argv 1))
      ]
