-- ===== src/Queue/Edit.antt =====
-- src/playqueue.c: adding, swapping, moving and removing songs.
-- A loop index stays below the length, so its increment does not wrap; sums with an argument of the
-- function are written modulo 2 ^ 32.
use mpd_legacy.Common.{
  ℕ, zero, suc, ◌+◌, ◌-◌, Option, none, some, Bool, true, false, ◌&&◌, ◌||◌, List, ◌∷◌, ltb, leb,
  ◌==◌, if◌then◌else◌, add32, sub32, update, for_up, for_down,
}
use mpd_legacy.Queue.{
  Queue, QueueItem, Song, song_in_database, get, position_to_id, position_to_order, id_space,
}
pub mod Ids
pub mod Shift
pub mod Relocate
pub mod Block
pub mod Move
pub mod Swap
pub mod Close
pub mod Delete
pub mod Reset

-- One round of the loop in `queue_generate_id`.
unfoldable pub next_id : Queue → ℕ → ℕ
next_id q cur = let c = add32 cur 1 in if leb (id_space q) c then 0 else c

-- The loop, for at most `n` more rounds after the first.
unfoldable pub search_id : ℕ → Queue → ℕ → ℕ
search_id zero q cur = cur
search_id (suc n) q cur =
    let rest = search_id n q (next_id q cur) in
    elim (q.id_to_position cur) [ none ↦ cur | some _ ↦ rest ]

-- As many rounds as there are ids are enough.
unfoldable pub generate_id : Queue → ℕ
unfolding search_id next_id
generate_id q = search_id (id_space q) q (next_id q q.cur)

-- The new id, and the queue.
unfoldable pub append : Queue → Song → ℕ → ℕ × Queue
append q song priority =
    let id = generate_id q in
    let item : QueueItem = record {
      song = song;
      id = id;
      version = q.version;
      priority = priority;
    } in
    (
      id,
      record q {
        length = q.length + 1;
        items = update q.items q.length item;
        order = update q.order q.length q.length;
        id_to_position = update q.id_to_position id (some q.length);
        cur = id;
      },
    )

unfoldable pub swap : Queue → ℕ → ℕ → Queue
swap q position1 position2 =
    let tmp = q.items position1 in
    let id1 = (q.items position1).id in
    let id2 = (q.items position2).id in
    let items1 = update q.items position1 (q.items position2) in
    let items2 = update items1 position2 tmp in
    let items3 = update items2 position1 (record (items2 position1) { version = q.version }) in
    let items4 = update items3 position2 (record (items3 position2) { version = q.version }) in
    record q {
      items = items4;
      id_to_position = update (update q.id_to_position id1 (some position2)) id2 (some position1);
    }

unfoldable pub move_song_to : Queue → ℕ → ℕ → Queue
move_song_to q from to =
    let from_id = (q.items from).id in
    let items1 = update q.items to (q.items from) in
    record q {
      items = update items1 to (record (items1 to) { version = q.version });
      id_to_position = update q.id_to_position from_id (some to);
    }

-- Puts an item that was saved before the other songs moved.
unfoldable pub put_item : Queue → QueueItem → ℕ → Queue
put_item q item to = record q {
  items = update q.items to (record item { version = q.version });
  id_to_position = update q.id_to_position item.id (some to);
}

-- Where `queue_move` sends the position in an entry of the order.
unfoldable pub moved_position : ℕ → ℕ → ℕ → ℕ
moved_position from to p =
    if ltb from p && leb p to
    then p - 1
    else if ltb p from && leb to p
    then p + 1
    else if from == p
    then to
    else p

-- The loop that sends each entry of the order through `f`.
unfoldable pub map_order : (ℕ → ℕ) → (ℕ → ℕ) → ℕ → ℕ → ℕ
unfolding for_up
map_order f order n = for_up n 0 (λ i a. update a i (f (a i))) order

unfoldable pub move : Queue → ℕ → ℕ → Queue
unfolding for_up for_down move_song_to put_item
move q from to =
    let item = q.items from in
    let q1 = for_up (to - from) from (λ i s. move_song_to s (i + 1) i) q in
    let q2 = for_down (from - to) (suc to) (λ i s. move_song_to s (i - 1) i) q1 in
    let q3 = put_item q2 item to in
    if q3.random
    then record q3 { order = map_order (moved_position from to) q3.order q3.length }
    else q3

-- Where `queue_move_range` sends the position in an entry of the order.
unfoldable pub moved_range_position : ℕ → ℕ → ℕ → ℕ → ℕ
moved_range_position start end to p =
    if leb end p && ltb p (sub32 (add32 to end) start)
    then sub32 p (sub32 end start)
    else if ltb p start && leb to p
    then add32 p (sub32 end start)
    else if leb start p && ltb p end
    then add32 p (sub32 to start)
    else p

unfoldable pub move_range : Queue → ℕ → ℕ → ℕ → Queue
unfolding for_up for_down move_song_to put_item
move_range q start end to =
    let items = q.items in
    let q1 =
      for_up (sub32 (add32 end to) start - end) end
        (λ i s. move_song_to s i (sub32 (add32 start i) end)) q in
    let q2 = for_down (start - to) to (λ i s. move_song_to s i (sub32 (add32 i end) start)) q1 in
    let q3 =
      for_up (end - start) start (λ i s. put_item s (items i) (sub32 (add32 to i) start)) q2 in
    if q3.random
    then record q3 { order = map_order (moved_range_position start end to) q3.order q3.length }
    else q3

-- `if (!song_in_database(song)) song_free(song);`
unfoldable pub song_free : List Song → Song → List Song
unfolding song_in_database
song_free freed song = if song_in_database song then freed else song ∷ freed

-- The loop that copies each entry from `i` on, `n` of them, from the one behind it.
unfoldable pub pull_orders : (ℕ → ℕ) → ℕ → ℕ → ℕ → ℕ
unfolding for_up
pull_orders order i n = for_up n i (λ k a. update a k (a (k + 1))) order

-- The loop that readjusts the first `n` entries to the removal of a position.
unfoldable pub lower_orders : (ℕ → ℕ) → ℕ → ℕ → ℕ → ℕ
unfolding for_up
lower_orders order n position =
    for_up n 0 (λ i a. if ltb position (a i) then update a i (a i - 1) else a) order

-- The loop that moves each song from `i` on, `n` of them, from the place behind it.
unfoldable pub pull_songs : Queue → ℕ → ℕ → Queue
unfolding for_up move_song_to
pull_songs q i n = for_up n i (λ k s. move_song_to s (k + 1) k) q

unfoldable pub delete : Queue → ℕ → Queue
unfolding song_free get position_to_id
delete q position =
    let song = get q position in
    let q1 = record q { freed = song_free q.freed song } in
    let id = position_to_id q position in
    let order = position_to_order q position in
    let q2 = record q1 {
      length = q.length - 1;
      id_to_position = update q.id_to_position id none;
    } in
    let q3 = pull_songs q2 position (q2.length - position) in
    let order1 = pull_orders q3.order order (q3.length - order) in
    record q3 { order = lower_orders order1 q3.length position }

-- The loop of `queue_clear`.
unfoldable pub release_all : Queue → Queue
unfolding for_up song_free
release_all q =
    for_up q.length 0
      (λ i s. record s {
        freed = song_free s.freed (s.items i).song;
        id_to_position = update s.id_to_position (s.items i).id none;
      })
      q

unfoldable pub clear : Queue → Queue
clear q = record (release_all q) { length = 0 }

-- `memory` is what the structure and its new arrays hold before, `seed` the state of `g_rand_new`.
unfoldable pub init : Queue → ℕ → ℕ → Queue
unfolding for_up
init memory max_length seed =
    let q = record memory {
      max_length = max_length;
      length = 0;
      version = 1;
      repeat = false;
      single = false;
      consume = false;
      random = false;
      rand = seed;
    } in
    record q { id_to_position = for_up (id_space q) 0 (λ i a. update a i none) q.id_to_position }
