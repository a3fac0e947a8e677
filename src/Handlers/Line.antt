-- ===== src/Handlers/Line.antt =====
-- From a line of the protocol to the playlist: the command is looked up and allowed, its arguments are
-- read as numbers, and the songs of the queue move.
use Prim.Native.Nat.{bit_and}
use mpd_legacy.Common.{
  ℕ, ◌+◌, ◌^◌, ◌<◌, ◌≡◌, refl, ap, ◌∙◌, none, some, Bool, List, [], ◌∷◌, ◌++◌, arith,
}
use mpd_legacy.Common.Int.{ℤ, pos}
use mpd_legacy.Argparser.{checked, check_unsigned, check_int}
use mpd_legacy.Argparser.Numbers.{IsNumber, text_of, value_of}
use mpd_legacy.Argparser.Decimal.{check_unsigned-number, check_int-number}
use mpd_legacy.Tokenizer.Quote.{IsAscii, parameters}
use mpd_legacy.Command.{CommandReturn, ok, codes, command_process}
use mpd_legacy.Command.Table.{commands, permission_control}
use mpd_legacy.Command.Lookup.{commands-Ascends}
use mpd_legacy.Command.Request.{IsName, command_process-calls}
use mpd_legacy.Queue.{id_to_position}
use mpd_legacy.Queue.Random.{RandIntRange, QSort}
use mpd_legacy.Queue.Random.Shuffled.{DrawsInRange, SortsArrays}
use mpd_legacy.Queue.Edit.Swap.{exchange}
use mpd_legacy.Queue.Edit.Block.{block_move}
use mpd_legacy.Playlist.{Playlist, Player, PlaylistResult, success}
use mpd_legacy.Playlist.Ready.{IsReady}
use mpd_legacy.Playlist.Edit.{swap_songs, move_id}
use mpd_legacy.Playlist.Edit.Kept.{MovesSongs, swap_songs_lem}
use mpd_legacy.Playlist.Edit.MoveSong.{move_id_lem}
use mpd_legacy.Handlers.{Session, Action, done, edit, check, run, print_error2}
use mpd_legacy.Handlers.Queue.{handle_swap, handle_moveid}
use mpd_legacy.Handlers.Dispatch.{Handler, call_handler}

-- An edit that succeeds.
pub edit-success :
    (f : Playlist → PlaylistResult × Playlist) (s : Session)
    → (f s.playlist).0 ≡ success
    → edit f s ≡ (done tt, record s { playlist = (f s.playlist).1 })
unfolding edit print_error2
edit-success f s h = rw h

module _ (g : RandIntRange) (sort : QSort) (s : Session) where
  pub handle_swap-numbers :
      (name a b : List ℕ) (song1 song2 : ℕ)
      → check_unsigned a ≡ checked song1
      → check_unsigned b ≡ checked song2
      → handle_swap g sort (name ∷ a ∷ b ∷ []) s ≡ edit (λ p. swap_songs g sort p song1 song2) s
  unfolding handle_swap check
  handle_swap-numbers name a b song1 song2 e f = rw (e, f) refl

  pub handle_moveid-numbers :
      (name a b : List ℕ) (id : ℕ) (to : ℤ)
      → check_unsigned a ≡ checked id
      → check_int b ≡ checked to
      → handle_moveid g sort (name ∷ a ∷ b ∷ []) s ≡ edit (λ p. move_id g sort p id to) s
  unfolding handle_moveid check
  handle_moveid-numbers name a b id to e f = rw (e, f) refl

-- The session with another playlist.
abbrev pub with_playlist : Session → Playlist → Session
with_playlist s p = record s { playlist = p }

below_word : {p : Playlist} (n : ℕ) (r : IsReady p) → n < p.queue.length → n < 2 ^ 31
below_word n r h = omega (arith, r.valid.fits, r.valid.small)

run-done : (m : Action (Unit {0})) (s s' : Session) → m s ≡ (done tt, s') → run m s ≡ (ok, s')
unfolding run
run-done m s s' h = rw h

module _ (g : RandIntRange) (sort : QSort) (player : Player) (volume_level_change : ℕ → Bool)
    (other : Handler) where
  call-swap :
      (i : ℕ) (args : List (List ℕ)) (s : Session)
      → call_handler g sort player volume_level_change other i (codes "swap" ∷ args) s
        ≡ run (handle_swap g sort (codes "swap" ∷ args)) s
  unfolding call_handler
  call-swap i args s = refl

  call-moveid :
      (i : ℕ) (args : List (List ℕ)) (s : Session)
      → call_handler g sort player volume_level_change other i (codes "moveid" ∷ args) s
        ≡ run (handle_moveid g sort (codes "moveid" ∷ args)) s
  unfolding call_handler
  call-moveid i args s = refl

module _ (isspace isalpha isalnum : ℕ → Bool) (ascii : IsAscii isspace) (g : RandIntRange)
    (random : DrawsInRange g) (sort : QSort) (sorts : SortsArrays sort) (player : Player)
    (volume_level_change : ℕ → Bool) (other : Handler) (s : Session) (permission : ℕ)
    (permitted : permission_control ≡ bit_and permission permission_control)
    (ready : IsReady s.playlist) where
  -- The line `swap "a" "b"`, for decimal numbers a and b of songs in the queue, from a client with the
  -- permission to control, is answered OK with no error, and exchanges the two songs: the current
  -- song stays, and nothing else of the session changes.
  pub swap_line :
      (a b : List ℕ)
      → IsName isspace isalpha isalnum ascii (codes "swap")
      → IsNumber a
      → IsNumber b
      → value_of a < s.playlist.queue.length
      → value_of b < s.playlist.queue.length
      → let p' = (swap_songs g sort s.playlist (value_of a) (value_of b)).1 in
        (command_process isspace isalpha isalnum commands
            (call_handler g sort player volume_level_change other)
            permission
            (codes "swap" ++ parameters (text_of a ∷ text_of b ∷ []))
            s
          ≡ (ok, none, with_playlist s p'))
        × MovesSongs (exchange (value_of a) (value_of b)) s.playlist p'
  unfolding commands
  swap_line a b name ha hb la lb =
      let m : ℕ = value_of a in
      let n : ℕ = value_of b in
      let argv = codes "swap" ∷ text_of a ∷ text_of b ∷ [] in
      let (succeeds, moves) = swap_songs_lem g random sort sorts m n ready la lb in
      let p' = (swap_songs g sort s.playlist m n).1 in
      let first = check_unsigned-number a ha (omega (arith, below_word m ready la)) in
      let second = check_unsigned-number b hb (omega (arith, below_word n ready lb)) in
      let handled =
        handle_swap-numbers g sort s (codes "swap") (text_of a) (text_of b) m n first second
        ∙ edit-success (λ p. swap_songs g sort p m n) s succeeds in
      let returns =
        call-swap g sort player volume_level_change other 79 (text_of a ∷ text_of b ∷ []) s
        ∙ run-done (handle_swap g sort argv) s (with_playlist s p') handled in
      (
        command_process-calls isspace isalpha isalnum ascii commands
              (call_handler g sort player volume_level_change other) permission
              (text_of a ∷ text_of b ∷ []) s 79
              (record {
                cmd = codes "swap";
                permission = permission_control;
                min = some 2;
                max = some 2;
              })
              name (omega arith) commands-Ascends (omega arith) refl refl (permitted, omega arith)
            ∙ ap (λ (r : CommandReturn × Session). (r.0, none, r.1)) returns,
        moves,
      )

  -- The line `moveid "a" "b"`, for decimal numbers a of an id in use and b of a position in the queue,
  -- from a client with the permission to control, is answered OK with no error, and moves the song
  -- with the id to the position past the songs between: the current song stays, and nothing else of
  -- the session changes.
  pub moveid_line :
      (a b : List ℕ) (song : ℕ)
      → IsName isspace isalpha isalnum ascii (codes "moveid")
      → IsNumber a
      → IsNumber b
      → value_of a < 2 ^ 32
      → id_to_position s.playlist.queue (value_of a) ≡ some song
      → value_of b < s.playlist.queue.length
      → let p' = (move_id g sort s.playlist (value_of a) (pos (value_of b))).1 in
        (command_process isspace isalpha isalnum commands
            (call_handler g sort player volume_level_change other)
            permission
            (codes "moveid" ++ parameters (text_of a ∷ text_of b ∷ []))
            s
          ≡ (ok, none, with_playlist s p'))
        × MovesSongs (block_move song (song + 1) (value_of b)) s.playlist p'
  unfolding commands
  moveid_line a b song name ha hb la known lb =
      let m : ℕ = value_of a in
      let n : ℕ = value_of b in
      let argv = codes "moveid" ∷ text_of a ∷ text_of b ∷ [] in
      let (succeeds, moves) = move_id_lem g random sort sorts m song n ready known lb in
      let p' = (move_id g sort s.playlist m (pos n)).1 in
      let first = check_unsigned-number a ha la in
      let second = check_int-number b hb (below_word n ready lb) in
      let handled =
        handle_moveid-numbers g sort s (codes "moveid") (text_of a) (text_of b) m (pos n) first
          second
        ∙ edit-success (λ p. move_id g sort p m (pos n)) s succeeds in
      let returns =
        call-moveid g sort player volume_level_change other 32 (text_of a ∷ text_of b ∷ []) s
        ∙ run-done (handle_moveid g sort argv) s (with_playlist s p') handled in
      (
        command_process-calls isspace isalpha isalnum ascii commands
              (call_handler g sort player volume_level_change other) permission
              (text_of a ∷ text_of b ∷ []) s 32
              (record {
                cmd = codes "moveid";
                permission = permission_control;
                min = some 2;
                max = some 2;
              })
              name (omega arith) commands-Ascends (omega arith) refl refl (permitted, omega arith)
            ∙ ap (λ (r : CommandReturn × Session). (r.0, none, r.1)) returns,
        moves,
      )
