-- ===== src/Queue/Random.antt =====
-- src/playqueue.c: random mode. The order is sorted by priority and shuffled within each priority.
-- GLib draws the random numbers and sorts: `g_rand_int_range` maps the state of the generator, the
-- first number of the range and the one behind the last to a number and the new state; `g_qsort`
-- sorts `n` entries of an array from an index on.
use Prim.Native.Nat.{Ordering}
use mpd_legacy.Common.{
  ℕ, zero, suc, ◌+◌, ◌-◌, Option, none, some, Bool, true, false, ◌&&◌, ◌||◌, not, ltb, leb, ◌==◌,
  if◌then◌else◌, add32, update, for_up, for_down,
}
use mpd_legacy.Queue.{
  Queue, QueueItem, order_to_position, position_to_order, swap_order, set_item_version,
}
use mpd_legacy.Queue.Edit.{swap, pull_orders}
pub mod Shuffled
pub mod Laws
pub mod Place
pub mod Priority
pub mod SetPriority

abbrev pub RandIntRange : Type 0
RandIntRange = ℕ → ℕ → ℕ → ℕ × ℕ

abbrev pub QSort : Type 0
QSort = (ℕ → ℕ → Ordering) → (ℕ → ℕ) → ℕ → ℕ → ℕ → ℕ

unfoldable pub get_order_priority : Queue → ℕ → ℕ
get_order_priority q order = (q.items (q.order order)).priority

-- The sign of the C result: `lt` is -1.
unfoldable pub item_compare_order_priority : Queue → ℕ → ℕ → Ordering
item_compare_order_priority q a b =
    let pa = (q.items a).priority in
    let pb = (q.items b).priority in
    if pa == pb then Ordering.eq else if ltb pb pa then Ordering.lt else Ordering.gt

-- The first order number of lower or the same priority, from `order` on for `n` entries.
unfoldable pub find_priority_from : ℕ → ℕ → Queue → ℕ → ℕ → ℕ
find_priority_from zero order q priority exclude_order = order
find_priority_from (suc n) order q priority exclude_order =
    let rest = find_priority_from n (suc order) q priority exclude_order in
    if leb (q.items (q.order order)).priority priority && not (order == exclude_order)
    then order
    else rest

unfoldable pub find_priority_order : Queue → ℕ → ℕ → ℕ → ℕ
unfolding find_priority_from
find_priority_order q start_order priority exclude_order =
    find_priority_from (q.length - start_order) start_order q priority exclude_order

-- The first order number of another priority.
unfoldable pub other_priority_from : ℕ → ℕ → Queue → ℕ → ℕ
other_priority_from zero order q priority = order
other_priority_from (suc n) order q priority =
    let rest = other_priority_from n (suc order) q priority in
    if (q.items (q.order order)).priority == priority then rest else order

unfoldable pub count_same_priority : Queue → ℕ → ℕ → ℕ
unfolding other_priority_from
count_same_priority q start_order priority =
    other_priority_from (q.length - start_order) start_order q priority - start_order

-- The loop that copies each entry up to `i + n` from the one before it, the last first.
unfoldable pub push_orders : (ℕ → ℕ) → ℕ → ℕ → ℕ → ℕ
unfolding for_down
push_orders order i n = for_down n (suc i) (λ k a. update a k (a (k - 1))) order

unfoldable pub move_order : Queue → ℕ → ℕ → Queue
move_order q from_order to_order =
    let from_position = q.order from_order in
    let moved =
      if ltb from_order to_order
      then pull_orders q.order from_order (to_order - from_order)
      else push_orders q.order to_order (from_order - to_order) in
    record q { order = update moved to_order from_position }

-- The queue with the start and the priority of the current group.
abbrev pub Groups : Type 0
Groups = Queue × ℕ × ℕ

module _ (g_rand_int_range : RandIntRange) where
  -- A draw changes the generator's state.
  unfoldable pub draw : Queue → ℕ → ℕ → ℕ × Queue
  draw q begin end =
      let (r, rand) = g_rand_int_range q.rand begin end in (r, record q { rand = rand })

  unfoldable pub shuffle_order_range : Queue → ℕ → ℕ → Queue
  unfolding draw for_up
  shuffle_order_range q start end =
      for_up (end - start) start (λ i s. let (r, s') = draw s i end in swap_order s' i r) q

  unfoldable pub shuffle_order_first : Queue → ℕ → ℕ → Queue
  unfolding draw
  shuffle_order_first q start end = let (r, q') = draw q start end in swap_order q' start r

  unfoldable pub shuffle_order_last : Queue → ℕ → ℕ → Queue
  unfolding draw
  shuffle_order_last q start end = let (r, q') = draw q start end in swap_order q' (end - 1) r

  unfoldable pub shuffle_range : Queue → ℕ → ℕ → Queue
  unfolding draw for_up
  shuffle_range q start end =
      for_up (end - start) start (λ i s. let (r, s') = draw s i end in swap s' i r) q

  -- Past the early returns: to the beginning of its priority group, and shuffled within it.
  unfoldable pub requeue : Queue → ℕ → ℕ → ℕ → Queue
  requeue q start_order order priority =
      let before_order = find_priority_order q start_order priority order in
      let new_order = if ltb order before_order then before_order - 1 else before_order in
      let q' = move_order q order new_order in
      shuffle_order_first q' new_order (new_order + count_same_priority q' new_order priority)

  -- The part of `queue_set_priority` for random mode, at the song's order number and its priority
  -- so far. `after_order` is `none` for -1.
  unfoldable pub reorder : Queue → ℕ → ℕ → ℕ → Option ℕ → Queue
  reorder q order old_priority priority none = requeue q 0 order priority
  reorder q order old_priority priority (some after_order) =
      let after_priority = (q.items (q.order after_order)).priority in
      if order == after_order
      then q
      else if ltb order after_order
          && (ltb after_priority old_priority || leb priority after_priority)
      then q
      else requeue q (after_order + 1) order priority

  unfoldable pub set_priority : Queue → ℕ → ℕ → Option ℕ → Bool × Queue
  set_priority q position priority after_order =
      let old_priority = (q.items position).priority in
      let item = record (q.items position) { version = q.version; priority = priority } in
      let q' = record q { items = update q.items position item } in
      if old_priority == priority
      then (false, q)
      else if not q.random
      then (true, q')
      else (true, reorder q' (position_to_order q' position) old_priority priority after_order)

  -- One round of the loop of `queue_set_priority_range`.
  unfoldable pub set_priority_at : ℕ → Option ℕ → ℕ → Bool × Queue → Bool × Queue
  set_priority_at priority after_position i (modified, q) =
      let after_order : Option ℕ = elim after_position [
        | none ↦ none
        | some p ↦ some (position_to_order q p)
      ] in
      let (changed, q') = set_priority q i priority after_order in (modified || changed, q')

  unfoldable pub set_priority_range : Queue → ℕ → ℕ → ℕ → Option ℕ → Bool × Queue
  unfolding for_up
  set_priority_range q start_position end_position priority after_order =
      let after_position : Option ℕ = elim after_order [
        | none ↦ none
        | some o ↦ some (order_to_position q o)
      ] in
      for_up (end_position - start_position) start_position
        (set_priority_at priority after_position) (false, q)

  -- One round of the loop over the groups.
  unfoldable pub group_step : ℕ → Groups → Groups
  group_step i (q, group_start, group_priority) =
      let priority = get_order_priority q i in
      if priority == group_priority
      then (q, group_start, group_priority)
      else (shuffle_order_range q group_start i, i, priority)

  module _ (g_qsort : QSort) where
    unfoldable pub sort_order_by_priority : Queue → ℕ → ℕ → Queue
    sort_order_by_priority q start end = record q {
      order = g_qsort (item_compare_order_priority q) q.order start (end - start);
    }

    unfoldable pub shuffle_order_range_with_priority : Queue → ℕ → ℕ → Queue
    unfolding for_up
    shuffle_order_range_with_priority q start end =
        let sorted = sort_order_by_priority q start end in
        let groups =
          for_up (end - (start + 1)) (start + 1) group_step
            (sorted, start, get_order_priority sorted start) in
        if start == end then q else shuffle_order_range groups.0 groups.1 end

    unfoldable pub shuffle_order : Queue → Queue
    shuffle_order q = shuffle_order_range_with_priority q 0 q.length
