-- ===== src/Handlers/Queue.antt =====
-- The handlers of src/command.c that edit the queue and control the playback.
use mpd_legacy.Common.{
  ℕ, zero, suc, ◌-◌, ◌^◌, Option, none, some, Bool, false, List, [], ◌∷◌, ltb, ◌==◌, if◌then◌else◌,
  length,
}
use mpd_legacy.Common.Int.{ℤ, pos, negsuc}
use mpd_legacy.Argparser.{check_int, check_range, check_unsigned, check_bool}
use mpd_legacy.Queue.Random.{RandIntRange, QSort}
use mpd_legacy.Playlist.{Playlist, Player, stop, set_repeat, set_single, set_consume, set_random}
use mpd_legacy.Playlist.Playback.{play, play_id, next, previous, seek_song, seek_song_id}
use mpd_legacy.Playlist.Edit.{
  clear, swap_songs, swap_songs_id, set_priority, set_priority_id, move_range, move_id, shuffle,
  delete_range, delete_id,
}
use mpd_legacy.Handlers.{
  priority_out_of_range, invalid_volume, volume_problem, Action, ◌>>=◌, ◌>>◌, pure, fail, arg,
  check, change, edit,
}

-- An `int` where the playlist takes -1 for none, and otherwise compares as `unsigned`.
abbrev pub song_number : ℤ → Option ℕ
song_number (pos n) = some n
song_number (negsuc zero) = none
song_number (negsuc (suc n)) = some (2 ^ 32 - suc (suc n))

-- A flag as an argument, and what is done with it.
unfoldable pub with_bool : (Bool → Playlist → Playlist) → List (List ℕ) → Action (Unit {0})
with_bool f argv = do status ← check (check_bool (arg argv 1)); change (f status)

module _ (g_rand_int_range : RandIntRange) (g_qsort : QSort) where
  unfoldable pub handle_stop : List (List ℕ) → Action (Unit {0})
  handle_stop argv = change (stop g_rand_int_range g_qsort)

  unfoldable pub handle_clear : List (List ℕ) → Action (Unit {0})
  handle_clear argv = change (clear g_rand_int_range g_qsort)

  unfoldable pub handle_shuffle : List (List ℕ) → Action (Unit {0})
  handle_shuffle argv s =
      (do
        range ←
            (if length argv == 2
              then check (check_range (arg argv 1))
              else pure (0, s.playlist.queue.length))
        change (λ p. shuffle g_rand_int_range g_qsort p range.0 range.1))
        s

  unfoldable pub handle_repeat : List (List ℕ) → Action (Unit {0})
  unfolding with_bool
  handle_repeat = with_bool (λ b p. set_repeat g_rand_int_range g_qsort p b)

  unfoldable pub handle_single : List (List ℕ) → Action (Unit {0})
  unfolding with_bool
  handle_single = with_bool (λ b p. set_single g_rand_int_range g_qsort p b)

  unfoldable pub handle_random : List (List ℕ) → Action (Unit {0})
  unfolding with_bool
  handle_random = with_bool (λ b p. set_random g_rand_int_range g_qsort p b)

  unfoldable pub handle_move : List (List ℕ) → Action (Unit {0})
  handle_move argv = do
    range ← check (check_range (arg argv 1))
    to ← check (check_int (arg argv 2))
    edit (λ p. move_range g_rand_int_range g_qsort p range.0 range.1 to)

  unfoldable pub handle_moveid : List (List ℕ) → Action (Unit {0})
  handle_moveid argv = do
    id ← check (check_unsigned (arg argv 1))
    to ← check (check_int (arg argv 2))
    edit (λ p. move_id g_rand_int_range g_qsort p id to)

  unfoldable pub handle_swap : List (List ℕ) → Action (Unit {0})
  handle_swap argv = do
    song1 ← check (check_unsigned (arg argv 1))
    song2 ← check (check_unsigned (arg argv 2))
    edit (λ p. swap_songs g_rand_int_range g_qsort p song1 song2)

  unfoldable pub handle_swapid : List (List ℕ) → Action (Unit {0})
  handle_swapid argv = do
    id1 ← check (check_unsigned (arg argv 1))
    id2 ← check (check_unsigned (arg argv 2))
    edit (λ p. swap_songs_id g_rand_int_range g_qsort p id1 id2)

  -- The loop over the ranges of `prio`.
  unfoldable pub prio_ranges : ℕ → List (List ℕ) → Action (Unit {0})
  prio_ranges priority [] = pure tt
  prio_ranges priority (a ∷ args) = do
    range ← check (check_range a)
    edit (λ p. set_priority g_rand_int_range g_qsort p range.0 range.1 priority)
    prio_ranges priority args

  -- The loop over the ids of `prioid`.
  unfoldable pub prio_ids : ℕ → List (List ℕ) → Action (Unit {0})
  prio_ids priority [] = pure tt
  prio_ids priority (a ∷ args) = do
    id ← check (check_unsigned a)
    edit (λ p. set_priority_id g_rand_int_range g_qsort p id priority)
    prio_ids priority args

  -- The arguments from the third on.
  abbrev pub behind_two : List (List ℕ) → List (List ℕ)
  behind_two (a ∷ b ∷ args) = args
  behind_two args = []

  unfoldable pub handle_prio : List (List ℕ) → Action (Unit {0})
  unfolding prio_ranges
  handle_prio argv = do
    priority ← check (check_unsigned (arg argv 1))
    if ltb 255 priority then fail priority_out_of_range else prio_ranges priority (behind_two argv)

  unfoldable pub handle_prioid : List (List ℕ) → Action (Unit {0})
  unfolding prio_ids
  handle_prioid argv = do
    priority ← check (check_unsigned (arg argv 1))
    if ltb 255 priority then fail priority_out_of_range else prio_ids priority (behind_two argv)

  module _ (player : Player) where
    unfoldable pub handle_delete : List (List ℕ) → Action (Unit {0})
    handle_delete argv = do
      range ← check (check_range (arg argv 1))
      edit (λ p. delete_range g_rand_int_range g_qsort player p range.0 range.1)

    unfoldable pub handle_deleteid : List (List ℕ) → Action (Unit {0})
    handle_deleteid argv = do
      id ← check (check_unsigned (arg argv 1))
      edit (λ p. delete_id g_rand_int_range g_qsort player p id)

    -- The mode `single` is off while the next song is chosen.
    unfoldable pub handle_next : List (List ℕ) → Action (Unit {0})
    handle_next argv = change (λ p.
        let p1 =
          next g_rand_int_range g_qsort player
            (record p { queue = record (p.queue) { single = false } }) in
        record p1 { queue = record (p1.queue) { single = p.queue.single } })

    unfoldable pub handle_seek : List (List ℕ) → Action (Unit {0})
    handle_seek argv = do
      song ← check (check_unsigned (arg argv 1))
      seek_time ← check (check_unsigned (arg argv 2))
      edit (λ p. seek_song g_rand_int_range g_qsort player p song seek_time)

    unfoldable pub handle_seekid : List (List ℕ) → Action (Unit {0})
    handle_seekid argv = do
      id ← check (check_unsigned (arg argv 1))
      seek_time ← check (check_unsigned (arg argv 2))
      edit (λ p. seek_song_id g_rand_int_range g_qsort player p id seek_time)

unfoldable pub handle_consume : List (List ℕ) → Action (Unit {0})
unfolding with_bool
handle_consume = with_bool (λ b p. set_consume p b)

unfoldable pub handle_previous : List (List ℕ) → Action (Unit {0})
handle_previous argv = change previous

unfoldable pub handle_play : List (List ℕ) → Action (Unit {0})
handle_play argv = do
  song ← (if length argv == 2 then check (check_int (arg argv 1)) else pure (negsuc 0))
  edit (λ p. play p (song_number song))

unfoldable pub handle_playid : List (List ℕ) → Action (Unit {0})
handle_playid argv = do
  id ← (if length argv == 2 then check (check_int (arg argv 1)) else pure (negsuc 0))
  edit (λ p. play_id p (song_number id))

-- `volume_level_change` is an argument; it tells whether it succeeds.
unfoldable pub handle_setvol : (ℕ → Bool) → List (List ℕ) → Action (Unit {0})
handle_setvol volume_level_change argv = do
  level ← check (check_unsigned (arg argv 1))
  if ltb 100 level
      then fail invalid_volume
      else if volume_level_change level
      then pure tt
      else fail volume_problem
