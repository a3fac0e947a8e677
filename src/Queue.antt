-- ===== src/Queue.antt =====
-- src/playqueue.h, and the part of src/playqueue.c that counts versions and walks the order:
-- the queue of songs behind the playlist. `struct queue` is `Queue`; its three arrays are functions
-- of the index, and the entries from `length` on are what malloc or an older song left there.
-- `int` results with -1 for "none" are options. GRand's state is a number, and GLib's
-- `g_rand_int_range` a parameter of the functions that draw.
-- An `assert` is a hypothesis of the theorems.
use mpd_legacy.Common.{
  ℕ, zero, suc, ◌+◌, ◌^◌, ◌-◌, Option, none, some, Bool, true, false, ◌&&◌, ◌||◌, not, List, [],
  ltb, leb, ◌==◌, if◌then◌else◌, add32, mul32, update, for_up,
}
pub mod Inv
pub mod Version
pub mod Walk
pub mod Edit
pub mod Random
pub mod Tests

-- `struct song *`: which object it points to, and whether the song has a parent directory
pub record Song : Type 0 where
  pub address : ℕ
  pub has_parent : Bool

unfoldable pub song_in_database : Song → Bool
song_in_database s = s.has_parent

pub record QueueItem : Type 0 where
  pub song : Song
  pub id : ℕ
  pub version : ℕ
  pub priority : ℕ

-- `cur` is the static variable of `queue_generate_id`; `freed` collects what `song_free` is called
-- on, the latest first.
pub record Queue : Type 0 where
  pub max_length : ℕ
  pub length : ℕ
  pub version : ℕ
  pub items : ℕ → QueueItem
  pub order : ℕ → ℕ
  pub id_to_position : ℕ → Option ℕ
  pub repeat : Bool
  pub single : Bool
  pub consume : Bool
  pub random : Bool
  pub rand : ℕ
  pub cur : ℕ
  pub freed : List Song

abbrev pub queue_hash_mult : ℕ
queue_hash_mult = 4

-- `max_length * QUEUE_HASH_MULT`, an `unsigned` product
abbrev pub id_space : Queue → ℕ
id_space q = mul32 q.max_length queue_hash_mult

unfoldable pub is_empty : Queue → Bool
is_empty q = q.length == 0

unfoldable pub is_full : Queue → Bool
is_full q = leb q.max_length q.length

unfoldable pub valid_position : Queue → ℕ → Bool
valid_position q position = ltb position q.length

unfoldable pub valid_order : Queue → ℕ → Bool
valid_order q order = ltb order q.length

unfoldable pub id_to_position : Queue → ℕ → Option ℕ
id_to_position q id = if leb (id_space q) id then none else q.id_to_position id

unfoldable pub position_to_id : Queue → ℕ → ℕ
position_to_id q position = (q.items position).id

unfoldable pub order_to_position : Queue → ℕ → ℕ
order_to_position q order = q.order order

-- The loop has no bound of its own; here it ends at `length` at the latest, where the assertion in
-- it would fail.
unfoldable pub find_order : ℕ → ℕ → Queue → ℕ → ℕ
find_order zero i q position = i
find_order (suc n) i q position =
    let rest = find_order n (suc i) q position in if q.order i == position then i else rest

unfoldable pub position_to_order : Queue → ℕ → ℕ
unfolding find_order
position_to_order q position = find_order q.length 0 q position

unfoldable pub get_priority_at_position : Queue → ℕ → ℕ
get_priority_at_position q position = (q.items position).priority

unfoldable pub get : Queue → ℕ → Song
get q position = (q.items position).song

unfoldable pub get_order : Queue → ℕ → Song
unfolding get order_to_position
get_order q order = get q (order_to_position q order)

unfoldable pub song_newer : Queue → ℕ → ℕ → Bool
song_newer q position version =
    let item = q.items position in
    ltb q.version version || leb version item.version || item.version == 0

unfoldable pub swap_order : Queue → ℕ → ℕ → Queue
swap_order q order1 order2 = record q {
  order = update (update q.order order1 (q.order order2)) order2 (q.order order1);
}

unfoldable pub restore_order : Queue → Queue
unfolding for_up
restore_order q = for_up q.length 0 (λ i s. record s { order = update s.order i i }) q

unfoldable pub next_order : Queue → ℕ → Option ℕ
next_order q order =
    if q.single && q.repeat && not q.consume
    then some order
    else if ltb (add32 order 1) q.length
    then some (add32 order 1)
    else if q.repeat && (ltb 0 order || not q.consume)
    then some 0
    else none

-- `((uint32_t) 1 << 31) - 1`
abbrev pub max_version : ℕ
max_version = 2 ^ 31 - 1

unfoldable pub set_item_version : Queue → ℕ → ℕ → Queue
set_item_version q position v = record q {
  items = update q.items position (record (q.items position) { version = v });
}

-- The loop that dates every item: `queue_increment_version` has it at 0, and `queue_modify_all` at
-- the version, which it does not change.
unfoldable pub set_all_versions : Queue → ℕ → Queue
unfolding for_up set_item_version
set_all_versions q v = for_up q.length 0 (λ i s. set_item_version s i v) q

unfoldable pub increment_version : Queue → Queue
increment_version q =
    let q' = record q { version = add32 q.version 1 } in
    if leb max_version q'.version then record (set_all_versions q' 0) { version = 1 } else q'

unfoldable pub modify : Queue → ℕ → Queue
modify q order = increment_version (set_item_version q (q.order order) q.version)

unfoldable pub modify_all : Queue → Queue
modify_all q = increment_version (set_all_versions q q.version)
