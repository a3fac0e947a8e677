-- ===== src/Playlist.antt =====
-- src/playlist.h and src/playlist.c: the queue with a current and a queued song, in step with the
-- player. `struct playlist` is `Playlist`; the prefix `playlist_` of the functions is the module.
-- `current` and `queued` are `none` for -1. What is called on `struct player_control` and `idle_add`
-- is collected in `calls`, the latest first. What the player thread shows in return may depend on
-- all that, and is a parameter.
use mpd_legacy.Common.{
  ℕ, zero, suc, ◌+◌, ◌-◌, ◌^◌, Option, none, some, Bool, true, false, ◌&&◌, ◌||◌, not, List, [],
  ◌∷◌, ltb, leb, ◌==◌, if◌then◌else◌, add32, bool_eq,
}
use mpd_legacy.Queue.{
  Queue, Song, get_order, order_to_position, position_to_order, restore_order, swap_order,
  position_to_id, modify, modify_all,
}
use mpd_legacy.Queue.{next_order}
use mpd_legacy.Queue.Edit.{init as queue_init}
use mpd_legacy.Queue.Random.{RandIntRange, QSort, shuffle_order}
pub mod Playback
pub mod Edit
pub mod Ready
pub mod Modes
pub mod Tests

pub data PlayerState : Type 0 where
  stopped paused playing : PlayerState

pub data PlayerError : Type 0 where
  noerror file audio system unktype filenotfound pending : PlayerError

pub data IdleEvent : Type 0 where
  idle_playlist idle_player idle_options : IdleEvent

pub data Call : Type 0 where
  pc_play pc_enqueue_song pc_song_deleted : Song → Call
  pc_seek : Song → ℕ → Call
  pc_cancel pc_stop pc_clear_error : Call
  pc_set_pause pc_set_border_pause : Bool → Call
  idle_add : IdleEvent → Call

-- What `pc_get_state`, `pc_get_error` and `next_song` show after a sequence of calls.
pub record Player : Type 0 where
  pub state : List Call → PlayerState
  pub error : List Call → PlayerError
  pub next_song : List Call → Option Song

pub record Playlist : Type 0 where
  pub queue : Queue
  pub playing : Bool
  pub stop_on_error : Bool
  pub error_count : ℕ
  pub current : Option ℕ
  pub queued : Option ℕ
  pub calls : List Call

-- `MPD_SUCCESS` or an error of src/err.h
pub data PlaylistResult : Type 0 where
  success bad_range no_such_song too_large not_playing : PlaylistResult

-- An `int` order number where the source takes an `unsigned`: -1 becomes the greatest number.
abbrev pub to_unsigned : Option ℕ → ℕ
to_unsigned none = 2 ^ 32 - 1
to_unsigned (some o) = o

-- The pointers are equal.
abbrev pub same_song : Option Song → Option Song → Bool
same_song none none = true
same_song none (some s) = false
same_song (some s) none = false
same_song (some s) (some t) = s.address == t.address

abbrev pub is_some {ℓ} : {A : Type ℓ} → Option A → Bool
is_some none = false
is_some (some a) = true

abbrev pub is_order : Option ℕ → ℕ → Bool
is_order none o = false
is_order (some c) o = c == o

abbrev pub call : Call → Playlist → Playlist
call c p = record p { calls = c ∷ p.calls }

unfoldable pub increment_version_all : Playlist → Playlist
increment_version_all p = call (idle_add idle_playlist) (record p { queue = modify_all p.queue })

unfoldable pub tag_changed : Playlist → Playlist
tag_changed p =
    if not p.playing
    then p
    else call (idle_add idle_playlist) (record p { queue = modify p.queue (to_unsigned p.current) })

-- `memory` and `seed` as for `queue_init`.
unfoldable pub init : Playlist → ℕ → ℕ → Playlist
init memory max_length seed = record memory {
  queue = queue_init memory.queue max_length seed;
  queued = none;
  current = none;
}

unfoldable pub queue_song_order : Playlist → ℕ → Playlist
queue_song_order p order =
    call (pc_enqueue_song (get_order p.queue order)) (record p { queued = some order })

unfoldable pub get_queued_song : Playlist → Option Song
get_queued_song p =
    if not p.playing
    then none
    else elim p.queued [ none ↦ none | some o ↦ some (get_order p.queue o) ]

unfoldable pub play_order : Playlist → ℕ → Playlist
play_order p order =
    let p' = record p { playing = true; queued = none } in
    record (call (pc_play (get_order p'.queue order)) p') { current = some order }

-- Point `current` at the song of a position again.
unfoldable pub follow : Playlist → ℕ → Playlist
follow p position = record p { current = some (position_to_order p.queue position) }

unfoldable pub order : Playlist → Playlist
order p =
    let current : Option ℕ = elim p.current [
      | none ↦ none
      | some o ↦ some (order_to_position p.queue o)
    ] in
    record p { current = current; queue = restore_order p.queue }

unfoldable pub get_current_song : Playlist → Option ℕ
get_current_song p = elim p.current [ none ↦ none | some o ↦ some (order_to_position p.queue o) ]

unfoldable pub get_next_song : Playlist → Option ℕ
get_next_song p = elim p.current [
  | none ↦ none
  | some o ↦
      if p.queue.single && p.queue.repeat
      then some (order_to_position p.queue o)
      else if ltb (o + 1) p.queue.length
      then some (order_to_position p.queue (o + 1))
      else if p.queue.repeat
      then some (order_to_position p.queue 0)
      else none
]

unfoldable pub set_consume : Playlist → Bool → Playlist
set_consume p status =
    if bool_eq p.queue.consume status
    then p
    else call (idle_add idle_options) (record p { queue = record (p.queue) { consume = status } })

module _ (g_rand_int_range : RandIntRange) (g_qsort : QSort) where
  -- The order is shuffled again, and `current` follows its song.
  unfoldable pub shuffle_around_current : Playlist → Playlist
  unfolding follow
  shuffle_around_current p =
      let current_position = order_to_position p.queue (to_unsigned p.current) in
      follow (record p { queue = shuffle_order g_rand_int_range g_qsort p.queue }) current_position

  unfoldable pub stop : Playlist → Playlist
  stop p =
      let p' = record (call pc_stop p) { queued = none; playing = false } in
      if not p.playing then p else if p'.queue.random then shuffle_around_current p' else p'

  -- What `playlist_update_queued_song` does when it knows the next order number.
  unfoldable pub set_queued : Playlist → Option ℕ → Option Song → Playlist
  set_queued p next prev =
      let next_song : Option Song = elim next [
        | none ↦ none
        | some o ↦ some (get_order p.queue o)
      ] in
      let changed = not (same_song next_song prev) in
      let p' = if is_some prev && changed then record (call pc_cancel p) { queued = none } else p in
      elim next [
        | none ↦ p'
        | some o ↦ if changed then queue_song_order p' o else record p' { queued = some o }
      ]

  unfoldable pub update_queued_song : Playlist → Option Song → Playlist
  update_queued_song p prev =
      let next : Option ℕ = elim p.current [ none ↦ some 0 | some o ↦ next_order p.queue o ] in
      let p' =
        if is_order next 0 && p.queue.random && not p.queue.single
        then shuffle_around_current p
        else p in
      if not p.playing then p else set_queued p' next prev

  unfoldable pub set_repeat : Playlist → Bool → Playlist
  set_repeat p status =
      let p1 = record p { queue = record (p.queue) { repeat = status } } in
      let p2 = call (pc_set_border_pause (p1.queue.single && not p1.queue.repeat)) p1 in
      if bool_eq status p.queue.repeat
      then p
      else call (idle_add idle_options) (update_queued_song p2 (get_queued_song p2))

  unfoldable pub set_single : Playlist → Bool → Playlist
  set_single p status =
      let p1 = record p { queue = record (p.queue) { single = status } } in
      let p2 = call (pc_set_border_pause (p1.queue.single && not p1.queue.repeat)) p1 in
      if bool_eq status p.queue.single
      then p
      else call (idle_add idle_options) (update_queued_song p2 (get_queued_song p2))

  -- The order is shuffled with the current song first, or there is no current song.
  unfoldable pub randomize : Playlist → Playlist
  randomize p =
      let shuffled = record p { queue = shuffle_order g_rand_int_range g_qsort p.queue } in
      elim p.current [
        | none ↦ record shuffled { current = none }
        | some o ↦
            let current_order = position_to_order shuffled.queue (order_to_position p.queue o) in
            if p.playing
            then record shuffled {
              queue = swap_order shuffled.queue 0 current_order;
              current = some 0;
            }
            else record shuffled { current = none }
      ]

  unfoldable pub set_random : Playlist → Bool → Playlist
  set_random p status =
      let queued = get_queued_song p in
      let p1 = record p { queue = record (p.queue) { random = status } } in
      let p2 = if p1.queue.random then randomize p1 else order p1 in
      if bool_eq status p.queue.random
      then p
      else call (idle_add idle_options) (update_queued_song p2 queued)
