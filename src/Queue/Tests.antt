-- ===== src/Queue/Tests.antt =====
-- A small queue, and the theorems about `struct queue` applied to it.
pub mod Sort
mod Witnesses
use mpd_legacy.Common.{
  ◌^◌, ℕ, zero, suc, ◌+◌, ◌-◌, ◌*◌, ◌%◌, ◌≤◌, ◌<◌, ◌≡◌, ◌≢◌, refl, Option, none, some, Bool, true,
  false, List, [], ◌∷◌, arith, for_up, for_down, ◌⊎◌, ◌||◌, if◌then◌else◌, map, slice,
}
use mpd_legacy.Queue.{
  Queue, QueueItem, Song, id_to_position, position_to_id, position_to_order, get, get_order, modify,
  song_newer, swap_order, is_empty, set_item_version, increment_version, set_all_versions,
  find_order, modify_all,
}
use mpd_legacy.Queue.Inv.{IsValid}
use mpd_legacy.Queue.Walk.{walk, walk-once, walk-round, position_to_order_lem}
use mpd_legacy.Queue.Version.{song_newer-modify_all}
use mpd_legacy.Queue.Edit.{
  init, append, delete, move_range, swap, clear, generate_id, next_id, search_id, pull_songs,
  pull_orders, lower_orders, map_order, release_all,
}
use mpd_legacy.Queue.Edit.Ids.{append-IsValid, append_others, generate_id_free}
use mpd_legacy.Queue.Edit.Reset.{init-IsValid, clear-IsValid}

abbrev item0 : QueueItem
item0 = record {
  song = record { address = 0; has_parent = false };
  id = 0;
  version = 0;
  priority = 0;
}

-- What malloc may return.
abbrev pub memory : Queue
memory = record {
  max_length = 0;
  length = 0;
  version = 0;
  items = λ i. item0;
  order = λ i. 7;
  id_to_position = λ i. some 7;
  repeat = false;
  single = false;
  consume = false;
  random = false;
  rand = 0;
  cur = 2 ^ 32 - 1;
  freed = [];
}

abbrev pub song_a : Song
song_a = record { address = 100; has_parent = true }

abbrev pub song_b : Song
song_b = record { address = 200; has_parent = false }

abbrev pub song_c : Song
song_c = record { address = 300; has_parent = true }

abbrev pub queue0 : Queue
queue0 = init memory 4 11

abbrev pub queue1 : Queue
queue1 = (append queue0 song_a 3).1

abbrev pub queue2 : Queue
queue2 = (append queue1 song_b 5).1

abbrev pub queue3 : Queue
queue3 = (append queue2 song_c 5).1

generated : generate_id queue0 ≡ 0
unfolding generate_id init
generated = refl

queue0-IsValid : IsValid queue0
queue0-IsValid = (init-IsValid memory 4 11 (omega arith)).0

queue1-IsValid : IsValid queue1
unfolding append init
queue1-IsValid = (append-IsValid song_a 3 queue0-IsValid (omega arith)).0

pub queue2-IsValid : IsValid queue2
unfolding append init
queue2-IsValid = (append-IsValid song_b 5 queue1-IsValid (omega arith)).0

pub queue3-IsValid : IsValid queue3
unfolding append init
queue3-IsValid = (append-IsValid song_c 5 queue2-IsValid (omega arith)).0

-- Deleting the first song closes up positions, ids and order.
delete_runs :
    map (λ (i : QueueItem). i.song.address) (slice (delete queue3 0).items 0 2) ≡ 200 ∷ 300 ∷ []
unfolding delete init append generate_id pull_songs pull_orders lower_orders position_to_order
delete_runs = refl

move_range_runs :
    map (λ (i : QueueItem). i.song.address) (slice (move_range queue3 0 2 1).items 0 3)
    ≡ 300 ∷ 100 ∷ 200 ∷ []
unfolding move_range init append generate_id
move_range_runs = refl

song_newer_runs : song_newer (modify queue3 1) 1 1 ≡ true
unfolding modify song_newer set_item_version increment_version init append generate_id
song_newer_runs = refl
