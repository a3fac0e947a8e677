-- ===== src/Handlers.antt =====
-- The handlers of src/command.c that work on the playlist, the player and the permissions of a client.
-- A handler is an `Action` on the `Session`: the playlist, the permissions of the client, the ids that
-- are written to it, and what `command_error` tells it, the latest first. An action that is `stopped`
-- is an early return of COMMAND_RETURN_ERROR.
use mpd_legacy.Common.{
  ℕ, zero, suc, Option, none, some, Bool, true, false, List, [], ◌∷◌, if◌then◌else◌,
}
use mpd_legacy.Argparser.{ArgError, Checked, checked, refused}
use mpd_legacy.Command.{CommandReturn, ok, error}
use mpd_legacy.Playlist.{
  Playlist, PlaylistResult, success, bad_range, no_such_song, too_large, not_playing,
}
pub mod Queue
pub mod Access
pub mod Dispatch
pub mod Line
pub mod Messages
pub mod Atomic
pub mod Granted
mod Tests

-- The messages of `command_error`.
pub data Told : Type 0 where
  bad_argument : ArgError → Told
  bad_song_index no_such_song_told playlist_full not_playing_told : Told
  access_denied access_failed unsupported_scheme : Told
  priority_out_of_range invalid_volume volume_problem incorrect_password : Told

pub record Session : Type 0 where
  pub playlist : Playlist
  pub permission : ℕ
  pub told : List Told
  pub printed : List ℕ

pub data Outcome (A : Type 0) : Type 0 where
  done : A → Outcome A
  stopped : Outcome A

abbrev pub Action : Type 0 → Type 0
Action A = Session → Outcome A × Session

infixl 5 ◌>>=◌ ◌>>◌
abbrev pub ◌>>=◌ : {A B : Type 0} → Action A → (A → Action B) → Action B
◌>>=◌ m f s = let (r, s') = m s in elim r [ done a ↦ f a s' | stopped ↦ (stopped, s') ]

abbrev pub ◌>>◌ : {A B : Type 0} → Action A → Action B → Action B
m >> k = m >>= λ _. k

abbrev pub pure : {A : Type 0} → A → Action A
pure a s = (done a, s)

abbrev pub fail : {A : Type 0} → Told → Action A
fail t s = (stopped, record s { told = t ∷ s.told })

-- `argv[i]`; the table of commands keeps the number of arguments in the range that a handler reads.
abbrev pub arg : List (List ℕ) → ℕ → List ℕ
arg [] i = []
arg (a ∷ args) zero = a
arg (a ∷ args) (suc i) = arg args i

unfoldable pub check : {A : Type 0} → Checked A → Action A
check (checked a) = pure a
check (refused e) = fail (bad_argument e)

-- `print_error2` for the results of a playlist.
unfoldable pub print_error2 : PlaylistResult → Action (Unit {0})
print_error2 success = pure tt
print_error2 bad_range = fail bad_song_index
print_error2 no_such_song = fail no_such_song_told
print_error2 too_large = fail playlist_full
print_error2 not_playing = fail not_playing_told

-- A function of the playlist that cannot fail, and one that gives a result for `print_error2`.
abbrev pub change : (Playlist → Playlist) → Action (Unit {0})
change f s = (done tt, record s { playlist = f s.playlist })

unfoldable pub edit : (Playlist → PlaylistResult × Playlist) → Action (Unit {0})
unfolding print_error2
edit f s = let (r, p) = f s.playlist in print_error2 r (record s { playlist = p })

-- What the handler returns.
abbrev pub returned : Outcome (Unit {0}) → CommandReturn
returned (done x) = ok
returned stopped = error

unfoldable pub run : Action (Unit {0}) → Session → CommandReturn × Session
run m s = let (r, s') = m s in (returned r, s')
