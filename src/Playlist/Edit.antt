-- ===== src/Playlist/Edit.antt =====
-- src/playlist_edit.c: adding, removing, reordering songs, and what becomes of the current song.
use mpd_legacy.Common.{
  ℕ, ◌+◌, ◌-◌, ◌%◌, ◌^◌, Option, none, some, Bool, true, false, ◌&&◌, ◌||◌, not, ltb, leb, ◌==◌,
  if◌then◌else◌, add32, sub32, for_up, for_down,
}
use mpd_legacy.Common.Int.{ℤ, pos, negsuc}
use mpd_legacy.Queue.{
  Song, song_in_database, is_full, valid_position, id_to_position, get, order_to_position,
  position_to_order, swap_order, increment_version, next_order,
}
use mpd_legacy.Queue.Edit.{
  append, clear as queue_clear, swap as queue_swap, delete as queue_delete,
  move_range as queue_move_range,
}
use mpd_legacy.Queue.Random.{
  RandIntRange, QSort, shuffle_order_last, shuffle_range, set_priority_range,
}
use mpd_legacy.Playlist.{
  Playlist, Player, PlayerState, PlaylistResult, success, bad_range, no_such_song, too_large,
  pc_song_deleted, pc_stop, idle_add, idle_playlist, call, same_song, is_order, get_queued_song,
  update_queued_song, play_order, stop,
}
pub mod Kept
pub mod MoveSong

-- `playlist_increment_version`
unfoldable pub bump_version : Playlist → Playlist
bump_version p = call (idle_add idle_playlist) (record p { queue = increment_version p.queue })

-- Tell the player that a song outside the database is gone.
unfoldable pub song_deleted : Playlist → Song → Playlist
song_deleted p song = if song_in_database song then p else call (pc_song_deleted song) p

-- The position of the current song, `none` for -1.
unfoldable pub current_position : Playlist → Option ℕ
current_position p = elim p.current [ none ↦ none | some o ↦ some (order_to_position p.queue o) ]

-- Where the current order number goes when the song of one goes.
unfoldable pub current_behind : Option ℕ → ℕ → Option ℕ
current_behind none order = none
current_behind (some c) order = some (if ltb order c then c - 1 else c)

-- The current song while two songs of a list in "position" order change places.
unfoldable pub current_swapped : Option ℕ → ℕ → ℕ → Option ℕ
current_swapped none song1 song2 = none
current_swapped (some c) song1 song2 =
    some (if c == song1 then song2 else if c == song2 then song1 else c)

-- `to` as `playlist_move_range` computes it from an offset, at the current song's position.
unfoldable pub offset_target : ℕ → ℕ → ℕ → ℕ → ℕ
offset_target song length start distance =
    let to = add32 song distance % length in if ltb start to then to - 1 else to

-- The current song while a block moves in a list in "position" order. `to` is a position, or 2 ^ 31 and
-- more for a negative number, which is not above the -1 of no current song.
unfoldable pub current_moved : Option ℕ → ℕ → ℕ → ℕ → Option ℕ
current_moved none start end to =
    if leb (2 ^ 31) to && ltb start end then some (end - start - 1) else none
current_moved (some c) start end to = some (
    if leb start c && ltb c end
    then sub32 (add32 c to) start
    else if leb end c && leb c to
    then sub32 c (sub32 end start)
    else if leb to c && ltb c start
    then add32 c (sub32 end start)
    else c)

module _ (g_rand_int_range : RandIntRange) (g_qsort : QSort) where
  -- The end of an operation: a new version, and the queued song is chosen again.
  unfoldable pub finish_edit : Playlist → Option Song → Playlist
  finish_edit p queued = update_queued_song g_rand_int_range g_qsort (bump_version p) queued

  unfoldable pub clear : Playlist → Playlist
  unfolding for_up
  clear p =
      let p1 = stop g_rand_int_range g_qsort p in
      let p2 = for_up p1.queue.length 0 (λ i s. song_deleted s (get s.queue i)) p1 in
      bump_version (record p2 { queue = queue_clear p2.queue; current = none })

  -- The result, the new id where one was given, and the playlist.
  unfoldable pub append_song : Playlist → Song → PlaylistResult × Option ℕ × Playlist
  append_song p song =
      let queued = get_queued_song p in
      let (id, q1) = append p.queue song 0 in
      let start : ℕ = elim p.queued [
        | some o ↦ o + 1
        | none ↦ elim p.current [ some c ↦ c + 1 | none ↦ 0 ]
      ] in
      let q2 =
        if q1.random && ltb start q1.length
        then shuffle_order_last g_rand_int_range q1 start q1.length
        else q1 in
      if is_full p.queue
      then (too_large, none, p)
      else (success, some id, finish_edit (record p { queue = q2 }) queued)

  unfoldable pub swap_songs : Playlist → ℕ → ℕ → PlaylistResult × Playlist
  swap_songs p song1 song2 =
      let queued = get_queued_song p in
      let q1 = queue_swap p.queue song1 song2 in
      let p1 = record p { queue = q1 } in
      let p2 =
        if q1.random
        then record p1 {
          queue = swap_order q1 (position_to_order q1 song1) (position_to_order q1 song2);
        }
        else record p1 { current = current_swapped p.current song1 song2 } in
      if not (valid_position p.queue song1) || not (valid_position p.queue song2)
      then (bad_range, p)
      else (success, finish_edit p2 queued)

  unfoldable pub swap_songs_id : Playlist → ℕ → ℕ → PlaylistResult × Playlist
  swap_songs_id p id1 id2 = elim (id_to_position p.queue id1) [
    | none ↦ (no_such_song, p)
    | some song1 ↦ elim (id_to_position p.queue id2) [
      | none ↦ (no_such_song, p)
      | some song2 ↦ swap_songs p song1 song2
    ]
  ]

  unfoldable pub set_priority : Playlist → ℕ → ℕ → ℕ → PlaylistResult × Playlist
  set_priority p start end priority =
      let last = if ltb p.queue.length end then p.queue.length else end in
      let position = current_position p in
      let queued = get_queued_song p in
      let q1 = (set_priority_range g_rand_int_range p.queue start last priority p.current).1 in
      let p1 = bump_version (record p { queue = q1 }) in
      let p2 : Playlist = elim position [
        | none ↦ p1
        | some c ↦ record p1 { current = some (position_to_order p1.queue c) }
      ] in
      if leb p.queue.length start
      then (bad_range, p)
      else if leb last start
      then (success, p)
      else (success, update_queued_song g_rand_int_range g_qsort p2 queued)

  unfoldable pub set_priority_id : Playlist → ℕ → ℕ → PlaylistResult × Playlist
  set_priority_id p song_id priority = elim (id_to_position p.queue song_id) [
    | none ↦ (no_such_song, p)
    | some song_position ↦ set_priority p song_position (song_position + 1) priority
  ]

  -- `playlist_move_range` past the checks, at a `to` that is a position or an `unsigned` that came
  -- from a negative number.
  unfoldable pub move_block : Playlist → ℕ → ℕ → ℕ → Playlist
  move_block p start end to =
      let queued = get_queued_song p in
      let q1 = queue_move_range p.queue start end to in
      let current = if q1.random then p.current else current_moved p.current start end to in
      finish_edit (record p { queue = q1; current = current }) queued

  unfoldable pub move_range : Playlist → ℕ → ℕ → ℤ → PlaylistResult × Playlist
  move_range p start end (pos to) =
      if not (valid_position p.queue start) || not (valid_position p.queue (sub32 end 1))
      then (bad_range, p)
      else if leb p.queue.length (sub32 (sub32 (add32 to end) start) 1)
      then (bad_range, p)
      else if start == to
      then (success, p)
      else (success, move_block p start end to)
  move_range p start end (negsuc n) =
      if not (valid_position p.queue start) || not (valid_position p.queue (sub32 end 1))
      then (bad_range, p)
      else if ltb p.queue.length (n + 1)
      then (bad_range, p)
      else elim (current_position p) [
        | none ↦ (success, move_block p start end (2 ^ 32 - (n + 1)))
        | some song ↦
            if leb start song && ltb song end
            then (success, p)
            else (success, move_block p start end (offset_target song p.queue.length start (n + 1)))
      ]

  unfoldable pub move_id : Playlist → ℕ → ℤ → PlaylistResult × Playlist
  move_id p id1 to = elim (id_to_position p.queue id1) [
    | none ↦ (no_such_song, p)
    | some song ↦ move_range p song (song + 1) to
  ]

  -- `start` and the playlist once the current song comes first.
  unfoldable pub put_current_first : Playlist → ℕ → ℕ → ℕ × Playlist
  put_current_first p start end = elim p.current [
    | none ↦ (start, record p { current = none })
    | some o ↦
        let position = order_to_position p.queue o in
        let q1 = queue_swap p.queue start position in
        let c = if q1.random then position_to_order q1 start else start in
        if not p.playing
        then (start, record p { current = none })
        else if leb start position && ltb position end
        then (start + 1, record p { queue = q1; current = some c })
        else (start, p)
  ]

  unfoldable pub shuffle : Playlist → ℕ → ℕ → Playlist
  shuffle p start end =
      let last = if ltb p.queue.length end then p.queue.length else end in
      let queued = get_queued_song p in
      let (first, p1) = put_current_first p start last in
      let p2 = record p1 { queue = shuffle_range g_rand_int_range p1.queue first last } in
      if leb last (add32 start 1) then p else finish_edit p2 queued

  module _ (player : Player) where
    -- What becomes of the playback when the current song is deleted: the playlist and the queued
    -- song.
    unfoldable pub leave_current : Playlist → ℕ → Option Song → Playlist × Option Song
    leave_current p order queued =
        let paused : Bool = elim (player.state p.calls) [ PlayerState.paused ↦ true | _ ↦ false ] in
        let next = next_order p.queue order in
        let current : Option ℕ = if is_order next order then none else next in
        let p1 = record p { current = current } in
        let halted = record (call pc_stop (stop g_rand_int_range g_qsort p1)) { playing = false } in
        let p2 : Playlist = elim current [
          | none ↦ halted
          | some o ↦ if paused then halted else play_order p1 o
        ] in
        if p.playing && is_order p.current order
        then (p2, none)
        else if is_order p.current order
        then (record p { current = none }, queued)
        else (p, queued)

    unfoldable pub delete_internal : Playlist → ℕ → Option Song → Playlist × Option Song
    delete_internal p song queued =
        let order = position_to_order p.queue song in
        let (p1, queued1) = leave_current p order queued in
        let p2 = song_deleted p1 (get p1.queue song) in
        (
          record p2 {
            queue = queue_delete p2.queue song;
            current = current_behind p2.current order;
          },
          queued1,
        )

    unfoldable pub delete : Playlist → ℕ → PlaylistResult × Playlist
    delete p song =
        let (p1, queued) = delete_internal p song (get_queued_song p) in
        if leb p.queue.length song then (bad_range, p) else (success, finish_edit p1 queued)

    unfoldable pub delete_range : Playlist → ℕ → ℕ → PlaylistResult × Playlist
    unfolding for_down
    delete_range p start end =
        let last = if ltb p.queue.length end then p.queue.length else end in
        let step : ℕ → Playlist × Option Song → Playlist × Option Song =
          λ i s. delete_internal s.0 i s.1 in
        let (p1, queued) = for_down (last - start) start step (p, get_queued_song p) in
        if leb p.queue.length start
        then (bad_range, p)
        else if leb last start
        then (success, p)
        else (success, finish_edit p1 queued)

    unfoldable pub delete_id : Playlist → ℕ → PlaylistResult × Playlist
    delete_id p id = elim (id_to_position p.queue id) [
      | none ↦ (no_such_song, p)
      | some song ↦ delete p song
    ]

    unfoldable pub delete_song : Playlist → Song → Playlist
    unfolding for_down
    delete_song p song = call (pc_song_deleted song) (
        for_down p.queue.length 0
          (λ i s. if same_song (some song) (some (get s.queue i)) then (delete s i).1 else s) p)
