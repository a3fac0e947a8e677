-- ===== src/Handlers/Atomic.antt =====
-- A handler of src/command.c that edits the queue and answers an error leaves the playlist alone.
use mpd_legacy.Common.{
  ℕ, ◌+◌, ◌≡◌, refl, ◌==◌, sub32, add32, sym, Option, none, some, Bool, true, false, ◌||◌, ◌&&◌,
  ◌-◌, ◌^◌, not, List, ltb, leb, if◌then◌else◌,
}
use mpd_legacy.Common.Int.{ℤ, pos, negsuc}
use mpd_legacy.Argparser.{Checked, checked, refused, check_range, check_unsigned, check_int}
use mpd_legacy.Queue.{id_to_position, valid_position}
use mpd_legacy.Queue.Random.{RandIntRange, QSort}
use mpd_legacy.Playlist.{
  Playlist, Player, PlaylistResult, success, bad_range, no_such_song, too_large, not_playing,
}
use mpd_legacy.Playlist.Edit.{
  swap_songs, swap_songs_id, move_range, move_id, delete, delete_range, delete_id, move_block,
  current_position, offset_target,
}
use mpd_legacy.Handlers.{Session, Outcome, done, stopped, check, edit, print_error2, arg, ◌>>=◌}
use mpd_legacy.Handlers.Queue.{
  handle_move, handle_moveid, handle_swap, handle_swapid, handle_delete, handle_deleteid,
}

-- With a result that is an error the playlist is what it was.
pub data Spares (p : Playlist) : PlaylistResult × Playlist → Type 0 where
  unchanged : (r : PlaylistResult) → Spares p (r, p)
  succeeded : (p' : Playlist) → Spares p (success, p')

either :
    (p : Playlist) (b : Bool) (x y : PlaylistResult × Playlist)
    → Spares p x
    → Spares p y
    → Spares p (if b then x else y)
either p true x y h k = h
either p false x y h k = k

-- A song that is looked up.
found :
    (p : Playlist) (o : Option ℕ) (x : PlaylistResult × Playlist)
    (f : ℕ → PlaylistResult × Playlist)
    → Spares p x
    → ((k : ℕ) → Spares p (f k))
    → Spares p (elim o [ none ↦ x | some k ↦ f k ])
found p none x f h k = h
found p (some song) x f h k = k song

module _ (g : RandIntRange) (sort : QSort) (p : Playlist) where
  swap_songs-Spares : (song1 song2 : ℕ) → Spares p (swap_songs g sort p song1 song2)
  unfolding swap_songs
  swap_songs-Spares song1 song2 = either p _ _ _ (unchanged bad_range) (succeeded _)

  swap_songs_id-Spares : (id1 id2 : ℕ) → Spares p (swap_songs_id g sort p id1 id2)
  unfolding swap_songs_id
  swap_songs_id-Spares id1 id2 =
      found p (id_to_position p.queue id1) (no_such_song, p)
        (λ song1. elim (id_to_position p.queue id2) [
          | none ↦ (no_such_song, p)
          | some song2 ↦ swap_songs g sort p song1 song2
        ])
        (unchanged no_such_song)
        (λ song1.
          found p (id_to_position p.queue id2) (no_such_song, p) (swap_songs g sort p song1)
            (unchanged no_such_song) (swap_songs-Spares song1))

  move_range-Spares : (start end : ℕ) (to : ℤ) → Spares p (move_range g sort p start end to)
  unfolding move_range
  move_range-Spares start end (pos to) =
      either p (not (valid_position p.queue start) || not (valid_position p.queue (sub32 end 1))) _
        _ (unchanged bad_range)
        (either p (leb p.queue.length (sub32 (sub32 (add32 to end) start) 1)) _ _
          (unchanged bad_range)
          (either p (start == to) (success, p) (success, move_block g sort p start end to)
            (succeeded p) (succeeded (move_block g sort p start end to))))
  move_range-Spares start end (negsuc n) = either p _ _ _ (unchanged bad_range) (
      either p _ _ _ (unchanged bad_range) (
        found p (current_position p) (success, move_block g sort p start end (2 ^ 32 - (n + 1)))
          (λ song. if leb start song && ltb song end then (success, p) else (
            success,
            move_block g sort p start end (offset_target song p.queue.length start (n + 1)),
          ))
          (succeeded _) (λ song. either p _ _ _ (succeeded _) (succeeded _))))

  move_id-Spares : (id : ℕ) (to : ℤ) → Spares p (move_id g sort p id to)
  unfolding move_id
  move_id-Spares id to =
      found p (id_to_position p.queue id) (no_such_song, p)
        (λ song. move_range g sort p song (song + 1) to) (unchanged no_such_song)
        (λ song. move_range-Spares song (song + 1) to)

  module _ (player : Player) where
    delete_range-Spares : (start end : ℕ) → Spares p (delete_range g sort player p start end)
    unfolding delete_range
    delete_range-Spares start end =
        either p _ _ _ (unchanged bad_range) (either p _ _ _ (succeeded _) (succeeded _))

    delete-Spares : (song : ℕ) → Spares p (delete g sort player p song)
    unfolding delete
    delete-Spares song = either p _ _ _ (unchanged bad_range) (succeeded _)

    delete_id-Spares : (id : ℕ) → Spares p (delete_id g sort player p id)
    unfolding delete_id
    delete_id-Spares id =
        found p (id_to_position p.queue id) (no_such_song, p) (delete g sort player p)
          (unchanged no_such_song) delete-Spares

-- With an early return the playlist is what it was.
abbrev pub Spared : {A : Type 0} → Session → Outcome A × Session → Type 0
Spared s (done a, s') = Unit
Spared s (stopped, s') = s'.playlist ≡ s.playlist

told :
    (s : Session) (p : Playlist) (m : PlaylistResult × Playlist)
    → s.playlist ≡ p
    → Spares p m
    → Spared s (print_error2 m.0 (record s { playlist = m.1 }))
unfolding print_error2
told s p m e (unchanged success) = tt
told s p m e (unchanged bad_range) = sym e
told s p m e (unchanged no_such_song) = sym e
told s p m e (unchanged too_large) = sym e
told s p m e (unchanged not_playing) = sym e
told s p m e (succeeded p') = tt

edit-Spared :
    (s : Session) (f : Playlist → PlaylistResult × Playlist)
    → Spares s.playlist (f s.playlist)
    → Spared s (edit f s)
unfolding edit
edit-Spared s f h = told s s.playlist (f s.playlist) refl h

-- An argument that is refused ends the handler at once.
one_argument :
    {A : Type 0} (s : Session) (c : Checked A) (f : A → Playlist → PlaylistResult × Playlist)
    → ((a : A) → Spares s.playlist (f a s.playlist))
    → Spared s ((check c >>= (λ a. edit (f a))) s)
unfolding check
one_argument s (checked a) f h = edit-Spared s (f a) (h a)
one_argument s (refused e) f h = refl

two_arguments :
    {A B : Type 0} (s : Session) (c : Checked A) (d : Checked B)
    (f : A → B → Playlist → PlaylistResult × Playlist)
    → ((a : A) (b : B) → Spares s.playlist (f a b s.playlist))
    → Spared s ((check c >>= (λ a. check d >>= (λ b. edit (f a b)))) s)
unfolding check
two_arguments s (checked a) d f h = one_argument s d (f a) (h a)
two_arguments s (refused e) d f h = refl

module _ (g : RandIntRange) (sort : QSort) (player : Player) (s : Session)
    (argv : List (List ℕ)) where
  -- A handler of `delete`, `deleteid`, `move`, `moveid`, `swap` or `swapid` that answers an error, whether
  -- for an argument or for a song that is not there, leaves the playlist as it was.
  pub handlers-Spared :
      Spared s (handle_delete g sort player argv s)
      × Spared s (handle_deleteid g sort player argv s)
      × Spared s (handle_move g sort argv s)
      × Spared s (handle_moveid g sort argv s)
      × Spared s (handle_swap g sort argv s)
      × Spared s (handle_swapid g sort argv s)
  unfolding handle_delete handle_deleteid handle_move handle_moveid handle_swap handle_swapid
  handlers-Spared =
      let p = s.playlist in
      (
        one_argument s (check_range (arg argv 1)) (λ r p'. delete_range g sort player p' r.0 r.1)
            (λ r. delete_range-Spares g sort p player r.0 r.1),
        one_argument s (check_unsigned (arg argv 1)) (λ id p'. delete_id g sort player p' id)
            (delete_id-Spares g sort p player),
        two_arguments s (check_range (arg argv 1)) (check_int (arg argv 2))
            (λ r to p'. move_range g sort p' r.0 r.1 to) (λ r. move_range-Spares g sort p r.0 r.1),
        two_arguments s (check_unsigned (arg argv 1)) (check_int (arg argv 2))
            (λ id to p'. move_id g sort p' id to) (move_id-Spares g sort p),
        two_arguments s (check_unsigned (arg argv 1)) (check_unsigned (arg argv 2))
            (λ song1 song2 p'. swap_songs g sort p' song1 song2) (swap_songs-Spares g sort p),
        two_arguments s (check_unsigned (arg argv 1)) (check_unsigned (arg argv 2))
            (λ id1 id2 p'. swap_songs_id g sort p' id1 id2) (swap_songs_id-Spares g sort p),
      )
