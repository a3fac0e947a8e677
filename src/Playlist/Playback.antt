-- ===== src/Playlist/Playback.antt =====
-- src/playlist_control.c, and the part of src/playlist.c that follows the player: playing, skipping,
-- seeking, and the events of the player thread. A seek time is a number of seconds; the real
-- functions take a float and pass it on.
use mpd_legacy.Common.{
  ℕ, ◌-◌, Option, none, some, Bool, true, false, ◌&&◌, ◌||◌, not, ltb, leb, ◌==◌, if◌then◌else◌,
  add32,
}
use mpd_legacy.Queue.{
  is_empty, valid_position, id_to_position, get_order, order_to_position, position_to_order,
  swap_order, next_order,
}
use mpd_legacy.Queue.Random.{RandIntRange, QSort, shuffle_order}
use mpd_legacy.Playlist.{
  Playlist, Player, PlayerState, PlayerError, PlaylistResult, success, bad_range, no_such_song,
  pc_set_pause, pc_clear_error, pc_seek, idle_add, idle_player, call, is_order, is_some,
  to_unsigned, update_queued_song, play_order, stop,
}
use mpd_legacy.Playlist.Edit.{delete}
pub mod Play

-- The order number to play, when a song is given by its position, or `none` for -1.
unfoldable pub play_target : Playlist → Option ℕ → ℕ
play_target p none = elim p.current [ none ↦ 0 | some c ↦ c ]
play_target p (some song) = if p.queue.random then position_to_order p.queue song else song

-- In random mode the song to play takes the place of the current one in the order.
unfoldable pub play_at : Playlist → ℕ → Playlist
play_at p i =
    let c = if p.playing then to_unsigned p.current else 0 in
    let p1 = record p { stop_on_error = false; error_count = 0 } in
    if p.queue.random
    then play_order (record p1 { queue = swap_order p.queue i c }) c
    else play_order p1 i

unfoldable pub play : Playlist → Option ℕ → PlaylistResult × Playlist
play p none =
    let p1 = call pc_clear_error p in
    if is_empty p.queue
    then (success, p1)
    else if p.playing
    then (success, call (pc_set_pause false) p1)
    else (success, play_at p1 (play_target p none))
play p (some song) =
    let p1 = call pc_clear_error p in
    if not (valid_position p.queue song)
    then (bad_range, p1)
    else (success, play_at p1 (play_target p (some song)))

unfoldable pub play_id : Playlist → Option ℕ → PlaylistResult × Playlist
play_id p none = play p none
play_id p (some id) = elim (id_to_position p.queue id) [
  | none ↦ (no_such_song, p)
  | some song ↦ play p (some song)
]

unfoldable pub previous : Playlist → Playlist
previous p =
    let c = to_unsigned p.current in
    if not p.playing
    then p
    else if is_some p.current && ltb 0 c
    then play_order p (c - 1)
    else if p.queue.repeat
    then play_order p (p.queue.length - 1)
    else play_order p c

module _ (g_rand_int_range : RandIntRange) (g_qsort : QSort) (player : Player) where
  -- Consume mode: the song of an order number is deleted.
  unfoldable pub consume_order : Playlist → ℕ → Playlist
  consume_order p o =
      let rest = (delete g_rand_int_range g_qsort player p (order_to_position p.queue o)).1 in
      if p.queue.consume then rest else p

  unfoldable pub next : Playlist → Playlist
  next p =
      let c = to_unsigned p.current in
      let p1 = record p { stop_on_error = false } in
      let p2 : Playlist = elim (next_order p.queue c) [
        | none ↦ record (stop g_rand_int_range g_qsort p1) { current = none }
        | some o ↦
            let shuffled = record p1 { queue = shuffle_order g_rand_int_range g_qsort p1.queue } in
            if o == 0 && p1.queue.random then play_order shuffled o else play_order p1 o
      ] in
      if not p.playing then p else consume_order p2 c

  unfoldable pub song_started : Playlist → Playlist
  song_started p =
      let p1 = record p { current = p.queued; queued = none } in
      call (idle_add idle_player) (consume_order p1 (to_unsigned p.current))

  unfoldable pub resume_playback : Playlist → Playlist
  resume_playback p =
      let error = player.error p.calls in
      let fine : Bool = elim error [ PlayerError.noerror ↦ true | _ ↦ false ] in
      let fatal : Bool = elim error [
        | PlayerError.audio ↦ true
        | PlayerError.system ↦ true
        | _ ↦ false
      ] in
      let p1 = record p { error_count = if fine then 0 else add32 p.error_count 1 } in
      if (p1.stop_on_error && not fine) || fatal || leb p1.queue.length p1.error_count
      then stop g_rand_int_range g_qsort p1
      else next p1

  unfoldable pub sync : Playlist → Playlist
  sync p =
      let stopped : Bool = elim (player.state p.calls) [ PlayerState.stopped ↦ true | _ ↦ false ] in
      let p1 =
        if not (is_some (player.next_song p.calls)) && is_some p.queued
        then song_started p
        else p in
      let p2 =
        if not (is_some (player.next_song p1.calls)) && not (is_some p1.queued)
        then update_queued_song g_rand_int_range g_qsort p1 none
        else p1 in
      if not p.playing then p else if stopped then resume_playback p else p2

  -- `pc_seek` always succeeds.
  unfoldable pub seek_song : Playlist → ℕ → ℕ → PlaylistResult × Playlist
  seek_song p song seek_time =
      let i = if p.queue.random then position_to_order p.queue song else song in
      let p1 = record (call pc_clear_error p) { stop_on_error = true; error_count = 0 } in
      let p2 =
        if not p.playing || not (is_order p.current i)
        then record p1 { playing = true; current = some i }
        else p1 in
      let p3 = record (call (pc_seek (get_order p2.queue i) seek_time) p2) { queued = none } in
      if not (valid_position p.queue song)
      then (bad_range, p)
      else (success, update_queued_song g_rand_int_range g_qsort p3 none)

  unfoldable pub seek_song_id : Playlist → ℕ → ℕ → PlaylistResult × Playlist
  seek_song_id p id seek_time = elim (id_to_position p.queue id) [
    | none ↦ (no_such_song, p)
    | some song ↦ seek_song p song seek_time
  ]
