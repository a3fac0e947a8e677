-- ===== src/Queue/Random/SetPriority.antt =====
-- `queue_set_priority` and `queue_set_priority_range` as their callers see them.
use mpd_legacy.Common.{
  ℕ, suc, ◌+◌, ◌-◌, ◌≤◌, ◌<◌, ◌≡◌, ◌≢◌, refl, sym, ap, ◌⊎◌, inl, inr, Option, none, some, true,
  false, ◌&&◌, not, arith, if◌then◌else◌, ltb, ◌==◌, update,
}
use mpd_legacy.Queue.{Queue, QueueItem, get, position_to_order}
use mpd_legacy.Queue.Inv.{IsValid}
use mpd_legacy.Queue.Walk.{position_to_order_lem}
use mpd_legacy.Queue.Random.{RandIntRange, get_order_priority, requeue, reorder, set_priority}
use mpd_legacy.Queue.Random.Shuffled.{
  DrawsInRange, Shuffled, Shuffled-IsValid, Shuffled-refl, falls_between,
}
use mpd_legacy.Queue.Random.Priority.{
  Descends, moved_falls, requeue-Shuffled, requeue_priority, requeue_before,
}

-- The queue with the new priority, before the order changes.
changed : Queue → ℕ → ℕ → Queue
changed q position priority = record q {
  items =
      update q.items position
        (record (q.items position) { version = q.version; priority = priority });
}

changed-IsValid :
    {q : Queue} (position priority : ℕ) → IsValid q → IsValid (changed q position priority)
unfolding changed
changed-IsValid {q} position priority v = record {
  fits = v.fits;
  small = v.small;
  version_pos = v.version_pos;
  version_small = v.version_small;
  ids = record {
    below = λ p h. ground (arith, v.ids.below p h);
    known = λ p h. ground (arith, v.ids.known p h);
    held = λ i p h e. ground (arith, v.ids.held i p h e);
  };
  ordered = v.ordered;
  dated = λ p h. ground (arith, v.dated p h);
}

-- The current song's order number, if there is one, is in range.
abbrev pub InOrder : Queue → Option ℕ → Type 0
InOrder q none = Unit
InOrder q (some o) = o < q.length

-- Behind the order number `a` no song comes before one of higher priority.
abbrev pub InSequence : Queue → ℕ → ℕ → Type 0
InSequence q length a =
    (i j : ℕ) → a < i → i ≤ j → j < length → get_order_priority q j ≤ get_order_priority q i

module _ (g : RandIntRange) where
  reorder_cases :
      (q : Queue) (r old c a : ℕ)
      → ((reorder g q r old c (some a) ≡ q) × (r ≤ a))
        ⊎ ((reorder g q r old c (some a) ≡ requeue g q (a + 1) r c) × (r ≢ a))
  unfolding reorder
  reorder_cases q r old c a = ground arith

  set_priority_cases :
      (q : Queue) (position priority : ℕ) (after : Option ℕ)
      → let now = changed q position priority in
        ((set_priority g q position priority after ≡ (false, q))
          × ((q.items position).priority ≡ priority))
        ⊎ ((set_priority g q position priority after ≡ (true, now))
            × ((q.items position).priority ≢ priority)
            × (q.random ≡ false))
        ⊎ ((set_priority g q position priority after ≡ (
          true,
          reorder g now (position_to_order now position) (q.items position).priority priority after,
        ))
            × ((q.items position).priority ≢ priority)
            × (q.random ≡ true))
  unfolding set_priority changed
  set_priority_cases q position priority after = ground arith

  module _ (random : DrawsInRange g) where
    reorder-Shuffled :
        (q : Queue) (r old c : ℕ) (after : Option ℕ)
        → InOrder q after
        → r < q.length
        → get_order_priority q r ≡ c
        → Shuffled 0 q.length q (reorder g q r old c after)
    unfolding reorder
    reorder-Shuffled q r old c none i hr mine =
        requeue-Shuffled q 0 r c (omega arith) hr mine g random
    reorder-Shuffled q r old c (some a) i hr mine = elim (reorder_cases q r old c a) [
      | inl (e, _) ↦ rw e (Shuffled-refl 0 q.length q)
      | inr (e, _) ↦ rw e (requeue-Shuffled q (a + 1) r c (omega arith) hr mine g random)
    ]

    module _ {q : Queue} (v : IsValid q) (position priority : ℕ) (h : position < q.length) where
      abbrev now : Queue
      now = changed q position priority

      -- The order number of the song.
      abbrev mine : ℕ
      mine = position_to_order now position

      mine_lem :
          (mine < q.length) × (q.order mine ≡ position) × (get_order_priority now mine ≡ priority)
      unfolding changed get_order_priority
      mine_lem =
          let (lt, e) = position_to_order_lem position (changed-IsValid position priority v) h in
          (lt, e, ground arith)

      now_priority :
          (o : ℕ) → o < q.length → o ≢ mine → get_order_priority now o ≡ get_order_priority q o
      unfolding changed get_order_priority
      now_priority o lt ne = let (lt', e, _) = mine_lem in ground (arith, v.ordered.1 o mine lt lt')

      reordered-Shuffled :
          (after : Option ℕ)
          → InOrder q after
          → Shuffled 0 q.length now (reorder g now mine (q.items position).priority priority after)
      unfolding changed
      reordered-Shuffled after i =
          let (lt, _, e) = mine_lem in
          reorder-Shuffled now mine (q.items position).priority priority after
            (unfold changed in same_range after i) lt e
        where
          same_range : (o : Option ℕ) → InOrder q o → InOrder now o
          same_range none i = i
          same_range (some a) i = i

      set_priority-Shuffled :
          (after : Option ℕ)
          → InOrder q after
          → let (b, s) = set_priority g q position priority after in
            ((b ≡ false) × (s ≡ q) × ((q.items position).priority ≡ priority))
            ⊎ ((b ≡ true) × Shuffled 0 q.length now s × ((q.items position).priority ≢ priority))
      set_priority-Shuffled after i = elim (set_priority_cases q position priority after) [
        | inl (e, same) ↦ rw e (inl (refl, refl, same))
        | inr (inl (e, ne, _)) ↦ rw e (inr (refl, Shuffled-refl 0 q.length now, ne))
        | inr (inr (e, ne, _)) ↦ rw e (inr (refl, reordered-Shuffled after i, ne))
      ]

      -- `queue_set_priority` keeps the invariant and the positions of the songs, gives the song the
      -- priority and no other song another one, and returns whether the priority was another.
      pub set_priority_lem :
          (after : Option ℕ)
          → InOrder q after
          → let (b, s) = set_priority g q position priority after in
            IsValid s
            × (s.length ≡ q.length)
            × (b ≡ not ((q.items position).priority == priority))
            × ((p : ℕ)
                → (get s p ≡ get q p)
                  × ((s.items p).id ≡ (q.items p).id)
                  × ((s.items p).priority
                      ≡ (if position == p then priority else (q.items p).priority)))
      unfolding get changed
      set_priority_lem after i = elim (set_priority-Shuffled after i) [
        | inl (b, e, same) ↦ rw (b, e) (v, refl, ground arith, λ p. (refl, refl, ground arith))
        | inr (b, s, ne) ↦
            let items = ap (λ (x : Queue). x.items) s.rest in
            (
              Shuffled-IsValid s (omega arith) (changed-IsValid position priority v),
              ap (λ (x : Queue). x.length) s.rest,
              ground (arith, b),
              λ p.
                  let e = ap (λ (f : ℕ → QueueItem). f p) items in
                  (ground (arith, e), ground (arith, e), ground (arith, e)),
            )
      ]

      now_falls : (a : ℕ) → InSequence q q.length a → Descends now (a + 1) mine
      unfolding changed
      now_falls a seq i j lo le lt ni nj =
          ground (arith, now_priority i, now_priority j, seq i j (omega arith) le lt)

      requeued :
          (a : ℕ)
          → a < q.length
          → mine ≢ a
          → InSequence q q.length a
          → (a' : ℕ) × ((requeue g now (a + 1) mine priority).order a' ≡ q.order a)
            × InSequence (requeue g now (a + 1) mine priority) q.length a'
      unfolding changed
      requeued a ha other seq =
          let (lt, _, e) = mine_lem in
          let s = requeue g now (a + 1) mine priority in
          let start : ℕ = a + 1 in
          let hs : start ≤ q.length = omega arith in
          (
            if ltb mine start && ltb mine a then a - 1 else a,
            requeue_before now start mine priority hs lt e g random a (omega arith)
                (λ x. other (sym x)),
            λ i j l le u.
                falls_between (get_order_priority s) (if ltb mine start then start - 1 else start)
                  q.length i j
                  (λ k lk uk.
                    rw
                      (
                        requeue_priority now start mine priority hs lt e g random k,
                        requeue_priority now start mine priority hs lt e g random (suc k),
                      )
                      (moved_falls now start mine priority hs lt e (now_falls a seq) k lk uk))
                  (ground arith) le u,
          )

      -- In random mode, if the songs behind the current one are in the sequence of their priorities,
      -- those behind it still are when the priority of a song has changed.
      pub set_priority_sequence :
          (a : ℕ)
          → q.random ≡ true
          → a < q.length
          → InSequence q q.length a
          → let s = (set_priority g q position priority (some a)).1 in
            (a' : ℕ) × (s.order a' ≡ q.order a) × InSequence s q.length a'
      set_priority_sequence a on ha seq = elim (set_priority_cases q position priority (some a)) [
        | inl (e, _) ↦ rw e (a, refl, seq)
        | inr (inl (e, _, off)) ↦ absurd (ground (arith, on, off))
        | inr (inr (e, _, _)) ↦
            rw e (elim (reorder_cases now mine (q.items position).priority priority a) [
              | inl (e', before) ↦ rw e' (
                a,
                unfold changed in refl,
                λ i j l le lt.
                    ground (arith, now_priority i, now_priority j, seq i j l le lt, mine_lem),
              )
              | inr (e', other) ↦ rw e' (requeued a ha other seq)
            ])
      ]
