-- ===== src/Queue/Random/Laws.antt =====
-- What the shuffles keep, and the sequence of priorities behind them.
use mpd_legacy.Common.{
  ℕ, suc, ◌+◌, ◌-◌, ◌≤◌, ◌<◌, ◌≡◌, refl, ap, ◌∙◌, inl, inr, true, false, arith, ◌==◌, for_up,
  for_up_inv, ℕ_discrete, Bool-cases,
}
use mpd_legacy.Common.Rearrange.{Rearranges-swap}
use mpd_legacy.Queue.{Queue, swap_order}
use mpd_legacy.Queue.Inv.{IsValid}
use native.Mathlib.Nat.{le_of_lt}
use mpd_legacy.Queue.Random.{
  RandIntRange, QSort, draw, shuffle_order_range, shuffle_order_range_with_priority, shuffle_order,
  sort_order_by_priority, get_order_priority, item_compare_order_priority, group_step, Groups,
}
use mpd_legacy.Queue.Random.Shuffled.{
  DrawsInRange, SortsArrays, compare-IsComparison, falls_between, Shuffled, Shuffled-IsValid,
  Shuffled-refl, Shuffled-trans, Shuffled-widen, Shuffled-priority,
}

module _ (g_rand_int_range : RandIntRange) (random : DrawsInRange g_rand_int_range) where
  -- Swapping an entry of the range with a drawn one.
  pub draw_swap-Shuffled :
      (q : Queue) (lo hi i begin end : ℕ)
      → lo ≤ begin
      → begin < end
      → end ≤ hi
      → lo ≤ i
      → i < hi
      → let (r, q') = draw g_rand_int_range q begin end in Shuffled lo hi q (swap_order q' i r)
  unfolding draw swap_order
  draw_swap-Shuffled q lo hi i begin end lb be eh li ih =
      let (l, h) = random.in_range q.rand begin end be in
      record {
        rest = refl;
        order =
            Rearranges-swap lo hi q.order i (g_rand_int_range q.rand begin end).0 li ih
              (omega arith) (omega arith);
      }

  pub shuffle_order_range-Shuffled :
      (q : Queue) (start end : ℕ)
      → start ≤ end
      → Shuffled start end q (shuffle_order_range g_rand_int_range q start end)
  unfolding shuffle_order_range
  shuffle_order_range-Shuffled q start end h =
      for_up_inv (λ k s. Shuffled start end q s) _ (end - start) start end q (omega arith)
        (λ k s lo hi p.
          Shuffled-trans p
            (draw_swap-Shuffled s start end k k end (omega arith) hi (omega arith) lo hi))
        (Shuffled-refl start end q)

  -- The groups behind the round for `k`: all rounds so far kept the priorities in sequence, and
  -- the last group has one priority.
  record Grouped (q : Queue) (start end k : ℕ) (g : Groups) : Type 0 where
    shuffled : Shuffled start end q g.0
    kept : (o : ℕ) → get_order_priority g.0 o ≡ get_order_priority q o
    lo : start ≤ g.1
    hi : g.1 < k
    constant : (o : ℕ) → g.1 ≤ o → o < k → get_order_priority q o ≡ g.2

  module _ (q : Queue) (start end : ℕ) where
    Grouped-step :
        (k : ℕ) (g : Groups)
        → k < end
        → Grouped q start end k g
        → Grouped q start end (suc k) (group_step g_rand_int_range k g)
    unfolding group_step
    Grouped-step k (s, gs, gp) lt h = elim (Bool-cases (get_order_priority s k == gp)) [
      | inl same ↦ rw same (record {
        shuffled = h.shuffled;
        kept = h.kept;
        lo = h.lo;
        hi = omega (arith, h.hi);
        constant = λ o l u. ground (arith, h.constant o l, h.kept k);
      })
      | inr other ↦
          let sub = shuffle_order_range-Shuffled s gs k (omega (arith, h.hi)) in
          rw other (record {
            shuffled = Shuffled-trans h.shuffled (Shuffled-widen h.lo (omega arith) sub);
            kept =
                λ o. Shuffled-priority gp o sub (λ i l u. h.kept i ∙ h.constant i l u) ∙ h.kept o;
            lo = omega (arith, h.lo, h.hi);
            hi = omega arith;
            constant = λ o l u. ground (arith, h.kept k);
          })
    ]

    shuffle_groups :
        start < end
        → Grouped q start end end (
            for_up
              (end - (start + 1))
              (start + 1)
              (group_step g_rand_int_range)
              (q, start, get_order_priority q start))
    shuffle_groups h =
        for_up_inv (Grouped q start end) (group_step g_rand_int_range) (end - (start + 1))
          (start + 1) end (q, start, get_order_priority q start) (omega arith)
          (λ k g lo hi p. Grouped-step k g hi p)
          (record {
            shuffled = Shuffled-refl start end q;
            kept = λ o. refl;
            lo = omega arith;
            hi = omega arith;
            constant = λ o l u. let e : o ≡ start = omega arith in ap (get_order_priority q) e;
          })

    -- With the last group shuffled too, the sequence of priorities is still the same.
    shuffle_groups_last :
        start < end
        → let g =
            for_up
              (end - (start + 1))
              (start + 1)
              (group_step g_rand_int_range)
              (q, start, get_order_priority q start) in
          let s = shuffle_order_range g_rand_int_range g.0 g.1 end in
          Shuffled start end q s × ((o : ℕ) → get_order_priority s o ≡ get_order_priority q o)
    shuffle_groups_last h =
        let g = shuffle_groups h in
        let last = shuffle_order_range-Shuffled _ _ end (le_of_lt g.hi) in
        (
          Shuffled-trans g.shuffled (Shuffled-widen g.lo (omega arith) last),
          λ o. Shuffled-priority _ o last (λ i l u. g.kept i ∙ g.constant i l u) ∙ g.kept o,
        )

  module _ (g_qsort : QSort) (sorts : SortsArrays g_qsort) where
    sort-Shuffled :
        (q : Queue) (start end : ℕ)
        → start ≤ end
        → Shuffled start end q (sort_order_by_priority g_rand_int_range g_qsort q start end)
    unfolding sort_order_by_priority
    sort-Shuffled q start end h =
        let e : start + (end - start) ≡ end = omega arith in
        record {
          rest = refl;
          order = rw e at (
              sorts.rearranges (item_compare_order_priority q) q.order start (end - start)
                (compare-IsComparison q));
        }

    sort_falls :
        (q : Queue) (start end i : ℕ)
        → start ≤ i
        → suc i < end
        → let s = sort_order_by_priority g_rand_int_range g_qsort q start end in
          get_order_priority s (suc i) ≤ get_order_priority s i
    unfolding sort_order_by_priority get_order_priority item_compare_order_priority
    sort_falls q start end i l h = ground (
      arith,
      sorts.sorted (item_compare_order_priority q) q.order start (end - start) i
          (compare-IsComparison q) l (omega arith),
    )

    -- `queue_shuffle_order_range_with_priority` shuffles within the range alone, and leaves no
    -- song behind one of lower priority in it.
    pub shuffle_with_priority :
        (q : Queue) (start end : ℕ)
        → start ≤ end
        → let s = shuffle_order_range_with_priority g_rand_int_range g_qsort q start end in
          Shuffled start end q s
          × ((i : ℕ)
              → start ≤ i
              → suc i < end
              → get_order_priority s (suc i) ≤ get_order_priority s i)
    unfolding shuffle_order_range_with_priority
    shuffle_with_priority q start end h = elim (ℕ_discrete start end) [
      | yes e ↦
          let same : (start == end) ≡ true = ground arith in
          rw (same, shuffle_order_range_with_priority)
            (Shuffled-refl start end q, λ i l u. absurd (omega arith))
      | no ne ↦
          let other : (start == end) ≡ false = ground arith in
          let sorted = sort_order_by_priority g_rand_int_range g_qsort q start end in
          let (shuffled, kept) = shuffle_groups_last sorted start end (omega arith) in
          rw (other, shuffle_order_range_with_priority)
            (
              Shuffled-trans (sort-Shuffled q start end h) shuffled,
              λ i l u. rw (kept i, kept (suc i)) (sort_falls q start end i l u),
            )
    ]

    -- `queue_shuffle_order` keeps the invariant, and after it a song of higher priority comes before
    -- every song of lower priority.
    pub shuffle_order_lem :
        {q : Queue}
        → IsValid q
        → let s = shuffle_order g_rand_int_range g_qsort q in
          IsValid s
          × ((i j : ℕ) → i ≤ j → j < q.length → get_order_priority s j ≤ get_order_priority s i)
    unfolding shuffle_order
    shuffle_order_lem {q} v =
        let (shuffled, step) = shuffle_with_priority q 0 q.length (omega arith) in
        let s = shuffle_order_range_with_priority g_rand_int_range g_qsort q 0 q.length in
        (
          Shuffled-IsValid shuffled (omega arith) v,
          λ i j le lt. falls_between (get_order_priority s) 0 q.length i j step (omega arith) le lt,
        )

    pub shuffle_order-Shuffled :
        (q : Queue) → Shuffled 0 q.length q (shuffle_order g_rand_int_range g_qsort q)
    unfolding shuffle_order
    shuffle_order-Shuffled q = (shuffle_with_priority q 0 q.length (omega arith)).0
