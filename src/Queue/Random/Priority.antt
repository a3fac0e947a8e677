-- ===== src/Queue/Random/Priority.antt =====
-- `queue_set_priority`: the song moves to its priority group behind the current song.
use mpd_legacy.Common.{
  ℕ, suc, ◌+◌, ◌-◌, ◌≤◌, ◌<◌, ◌≡◌, ◌≢◌, refl, ap, ◌∙◌, ◌⊎◌, ◌&&◌, arith, if◌then◌else◌, ltb,
  ℕ_discrete,
}
use mpd_legacy.Queue.{Queue, QueueItem}
use mpd_legacy.Queue.Random.{
  RandIntRange, get_order_priority, find_priority_order, count_same_priority, move_order,
  shuffle_order_first, requeue,
}
use mpd_legacy.Queue.Random.Laws.{draw_swap-Shuffled}
use mpd_legacy.Queue.Random.Shuffled.{
  DrawsInRange, Shuffled, Shuffled-trans, Shuffled-widen, Shuffled-priority,
}
use mpd_legacy.Queue.Random.Place.{
  moved_from, move_order_lem, move_order-Shuffled, Place, find_priority-Place, other_priority_lem,
}

new_place : Queue → ℕ → ℕ → ℕ → ℕ
new_place q start r c = let b = find_priority_order q start c r in if ltb r b then b - 1 else b

-- The queue behind the move, before the draw.
pub moved : Queue → ℕ → ℕ → ℕ → Queue
moved q start r c = move_order q r (new_place q start r c)

-- The arithmetic of the move: `p` gives the priority of an entry, `b` is the place found, and `t`
-- the place once the entry at `r` is taken out.
module _ (p : ℕ → ℕ) (start end r b t : ℕ) (et : t ≡ (if ltb r b then b - 1 else b)) (hr : r < end)
    (lo : start ≤ b) (hi : b ≤ end) (i : ℕ) (li : (if ltb r start then start - 1 else start) ≤ i)
    (hi' : suc i < end) where
  before_in_sequence :
      suc i ≡ t
      → ((o : ℕ) → start ≤ o → o < b → o ≢ r → p r < p o)
      → p (moved_from r t (suc i)) ≤ p (moved_from r t i)
  before_in_sequence e higher = ground (arith, higher (moved_from r t i))

  behind_in_sequence :
      i ≡ t → (b < end → (p b ≤ p r) × (b ≢ r)) → p (moved_from r t (suc i)) ≤ p (moved_from r t i)
  behind_in_sequence e lower = ground (arith, lower)

  sources :
      suc i ≢ t
      → i ≢ t
      → (start ≤ moved_from r t i)
        × (moved_from r t i ≤ moved_from r t (suc i))
        × (moved_from r t (suc i) < end)
        × (moved_from r t i ≢ r)
        × (moved_from r t (suc i) ≢ r)
  sources n m = (ground arith, ground arith, ground arith, ground arith, ground arith)

  move_in_sequence :
      ((o : ℕ) → start ≤ o → o < b → o ≢ r → p r < p o)
      → (b < end → (p b ≤ p r) × (b ≢ r))
      → ((i j : ℕ) → start ≤ i → i ≤ j → j < end → i ≢ r → j ≢ r → p j ≤ p i)
      → p (moved_from r t (suc i)) ≤ p (moved_from r t i)
  move_in_sequence higher lower falls = elim (ℕ_discrete (suc i) t) [
    | yes e ↦ before_in_sequence e higher
    | no n ↦ elim (ℕ_discrete i t) [
      | yes e ↦ behind_in_sequence e lower
      | no m ↦ let (a, c, d, e, f) = sources n m in falls _ _ a c d e f
    ]
  ]

-- Behind the start every pair of songs but the moved one is in sequence.
abbrev pub Descends : Queue → ℕ → ℕ → Type 0
Descends q start r =
    (i j : ℕ)
    → start ≤ i
    → i ≤ j
    → j < q.length
    → i ≢ r
    → j ≢ r
    → get_order_priority q j ≤ get_order_priority q i

module _ (q : Queue) (start r c : ℕ) (hs : start ≤ q.length) (hr : r < q.length)
    (mine : get_order_priority q r ≡ c) where
  place : Place q start q.length c r (find_priority_order q start c r)
  unfolding find_priority_order
  place = find_priority-Place (q.length - start) start q.length q c r (omega arith)

  new_place_bounds :
      (new_place q start r c < q.length)
      × ((start ≤ new_place q start r c) ⊎ (suc (new_place q start r c) ≡ start) × (r < start))
  unfolding new_place
  new_place_bounds = ground (arith, place.lo, place.hi, place.lower)

  moved-Shuffled : Shuffled 0 q.length q (moved q start r c)
  unfolding moved
  moved-Shuffled =
      move_order-Shuffled q r (new_place q start r c) 0 q.length (omega arith) (omega arith) hr
        new_place_bounds.0

  moved_order :
      (o : ℕ) → (moved q start r c).order o ≡ q.order (moved_from r (new_place q start r c) o)
  unfolding moved
  moved_order o = move_order_lem q r (new_place q start r c) o

  moved_priority :
      (o : ℕ)
      → get_order_priority (moved q start r c) o
        ≡ get_order_priority q (moved_from r (new_place q start r c) o)
  unfolding moved get_order_priority
  moved_priority o =
      let items : (moved q start r c).items ≡ q.items =
        ap (λ (x : Queue). x.items) moved-Shuffled.rest in
      ap (λ (f : ℕ → QueueItem). (f ((moved q start r c).order o)).priority) items
      ∙ ap (λ k. (q.items k).priority) (move_order_lem q r (new_place q start r c) o)

  -- The moved song and those behind it are in sequence with the rest.
  pub moved_falls :
      Descends q start r
      → (i : ℕ) → (if ltb r start then start - 1 else start) ≤ i
      → suc i < q.length
      → get_order_priority (moved q start r c) (suc i) ≤ get_order_priority (moved q start r c) i
  moved_falls falls i lo hi =
      rw (moved_priority i, moved_priority (suc i))
        (move_in_sequence (get_order_priority q) start q.length r (find_priority_order q start c r)
          (new_place q start r c) (unfold new_place in refl) hr place.lo place.hi i lo hi
          (λ o l u ne. rw mine (place.higher o l u ne)) (λ u. rw mine (place.lower u)) falls)

  moved_length : (moved q start r c).length ≡ q.length
  moved_length = ap (λ (x : Queue). x.length) moved-Shuffled.rest

  at_place : get_order_priority (moved q start r c) (new_place q start r c) ≡ c
  at_place = ground (arith, moved_priority (new_place q start r c), mine)

  -- The group that the song is shuffled into.
  group_end : ℕ
  group_end =
      new_place q start r c + count_same_priority (moved q start r c) (new_place q start r c) c

  group :
      (new_place q start r c < group_end)
      × (group_end ≤ q.length)
      × ((o : ℕ)
          → new_place q start r c ≤ o
          → o < group_end
          → get_order_priority (moved q start r c) o ≡ c)
  unfolding group_end count_same_priority
  group =
      let m = moved q start r c in
      let t = new_place q start r c in
      let (l, u, all, more) = other_priority_lem (m.length - t) t m c in
      let bounds = new_place_bounds.0 in
      (
        omega (arith, more (omega (arith, moved_length)) at_place),
        omega (arith, moved_length),
        λ o lo hi. all o lo (omega (arith, moved_length)),
      )

  module _ (g_rand_int_range : RandIntRange) (random : DrawsInRange g_rand_int_range) where
    group_shuffle :
        Shuffled
          (new_place q start r c)
          group_end
          (moved q start r c)
          (requeue g_rand_int_range q start r c)
    unfolding requeue shuffle_order_first group_end moved new_place
    group_shuffle =
        let (some_room, fits, same) = group in
        draw_swap-Shuffled g_rand_int_range random (moved q start r c) (new_place q start r c)
          group_end (new_place q start r c) (new_place q start r c) group_end (omega arith)
          some_room (omega arith) (omega arith) some_room

    pub requeue-Shuffled : Shuffled 0 q.length q (requeue g_rand_int_range q start r c)
    requeue-Shuffled =
        Shuffled-trans moved-Shuffled (Shuffled-widen (omega arith) group.1 group_shuffle)

    pub requeue_priority :
        (o : ℕ)
        → get_order_priority (requeue g_rand_int_range q start r c) o
          ≡ get_order_priority (moved q start r c) o
    requeue_priority o = Shuffled-priority c o group_shuffle group.2

    -- What is before the start, and is not the song, keeps its sequence and stays before it.
    pub requeue_before :
        (o : ℕ)
        → o < start
        → o ≢ r
        → (requeue g_rand_int_range q start r c).order (if ltb r start && ltb r o then o - 1 else o)
          ≡ q.order o
    requeue_before o lt ne =
        let o' = if ltb r start && ltb r o then o - 1 else o in
        let s = group_shuffle.order in
        let b = new_place_bounds in
        ground (arith, s.same o', s.outside o', b, place.lo, moved_order o')
