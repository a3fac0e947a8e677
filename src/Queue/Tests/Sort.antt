-- ===== src/Queue/Tests/Sort.antt =====
-- A generator and a sort that behave as the functions of GLib do.
use Prim.Native.Nat.{Ordering}
use mpd_legacy.Common.{
  ℕ, zero, suc, ◌+◌, ◌-◌, ◌%◌, ◌≤◌, ◌<◌, ◌≡◌, ◌≢◌, refl, sym, ap, ◌∙◌, ◌⊎◌, inl, arith, update,
  ℕ_discrete,
}
use mpd_legacy.Common.Rearrange.{
  Rearranges, Rearranges-refl, Rearranges-trans, Rearranges-swap, Rearranges-widen,
}
use mpd_legacy.Queue.Random.{RandIntRange, QSort}
use mpd_legacy.Queue.Random.Shuffled.{DrawsInRange, IsComparison, SortsArrays}

-- Draws from an arithmetic sequence.
abbrev pub int_range : RandIntRange
int_range state begin end = (begin + state % (end - begin), state + 5)

pub int_range-DrawsInRange : DrawsInRange int_range
int_range-DrawsInRange = record { in_range = λ s begin end h. (omega arith, omega arith) }

module _ (cmp : ℕ → ℕ → Ordering) where
  abbrev smaller : (ℕ → ℕ) → ℕ → ℕ → ℕ
  smaller f best i = elim (cmp (f best) (f i)) [ Ordering.gt ↦ i | _ ↦ best ]

  -- The index of a smallest entry among `best` and the `n` from `i` on.
  unfoldable pub smallest : ℕ → (ℕ → ℕ) → ℕ → ℕ → ℕ
  smallest zero f best i = best
  smallest (suc n) f best i = smallest n f (smaller f best i) (suc i)

-- Selection sort.
unfoldable pub selection_sort : QSort
unfolding smallest
selection_sort cmp f start zero = f
selection_sort cmp f start (suc n) =
    let m = smallest cmp n f start (suc start) in
    selection_sort cmp (update (update f start (f m)) m (f start)) (suc start) n

module _ (cmp : ℕ → ℕ → Ordering) (c : IsComparison cmp) where
  abbrev NotAbove : ℕ → ℕ → Type 0
  NotAbove a b = cmp a b ≢ Ordering.gt

  cmp_self : (a : ℕ) → NotAbove a a
  cmp_self a h = c.total a a h h

  smaller_lem :
      (f : ℕ → ℕ) (best i : ℕ)
      → NotAbove (f (smaller cmp f best i)) (f best)
        × NotAbove (f (smaller cmp f best i)) (f i)
        × ((smaller cmp f best i ≡ best) ⊎ (smaller cmp f best i ≡ i))
  smaller_lem f best i = ground (arith, cmp_self (f best), cmp_self (f i), c.total (f best) (f i))

  smallest_lem :
      (n : ℕ) (f : ℕ → ℕ) (best i : ℕ)
      → let m = smallest cmp n f best i in
        NotAbove (f m) (f best)
        × ((j : ℕ) → i ≤ j → j < i + n → NotAbove (f m) (f j))
        × ((m ≡ best) ⊎ ((i ≤ m) × (m < i + n)))
  unfolding smallest
  smallest_lem zero f best i = (cmp_self (f best), λ j lo hi. absurd (omega arith), inl refl)
  smallest_lem (suc n) f best i =
      let b = smaller cmp f best i in
      let m = smallest cmp n f b (suc i) in
      let (kept, new, one) = smaller_lem f best i in
      let (low, rest, at) = smallest_lem n f b (suc i) in
      (
        c.trans (f m) (f b) (f best) low kept,
        λ j lo hi. elim (ℕ_discrete i j) [
          | yes e ↦ rw (← e) (c.trans (f m) (f b) (f i) low new)
          | no ne ↦ rest j (omega arith) (omega arith)
        ],
        ground (arith, one, at),
      )

-- One round: a smallest entry comes first.
abbrev picked : (ℕ → ℕ → Ordering) → (ℕ → ℕ) → ℕ → ℕ → ℕ → ℕ
picked cmp f start n =
    let m = smallest cmp n f start (suc start) in update (update f start (f m)) m (f start)

picked_first :
    (cmp : ℕ → ℕ → Ordering) (f : ℕ → ℕ) (start n : ℕ)
    → picked cmp f start n start ≡ f (smallest cmp n f start (suc start))
picked_first cmp f start n = ground arith

picked_rest :
    (cmp : ℕ → ℕ → Ordering) (f : ℕ → ℕ) (start n j : ℕ)
    → IsComparison cmp
    → start < j
    → j < start + suc n
    → cmp (f (smallest cmp n f start (suc start))) (picked cmp f start n j) ≢ Ordering.gt
picked_rest cmp f start n j c lo hi =
    let (low, all, _) = smallest_lem cmp c n f start (suc start) in
    elim (ℕ_discrete (smallest cmp n f start (suc start)) j) [
      | yes e ↦ let here : picked cmp f start n j ≡ f start = ground arith in rw here low
      | no ne ↦
          let here : picked cmp f start n j ≡ f j = ground arith in
          rw here (all j (omega arith) (omega arith))
    ]

selection_sort-Rearranges :
    (cmp : ℕ → ℕ → Ordering) (n : ℕ) (f : ℕ → ℕ) (start : ℕ)
    → IsComparison cmp
    → Rearranges start (start + n) f (selection_sort cmp f start n)
unfolding selection_sort
selection_sort-Rearranges cmp zero f start c = Rearranges-refl start (start + zero) f
selection_sort-Rearranges cmp (suc n) f start c =
    let m = smallest cmp n f start (suc start) in
    let (_, _, at) = smallest_lem cmp c n f start (suc start) in
    Rearranges-trans start (start + suc n)
      (Rearranges-swap start (start + suc n) f start m (omega arith) (omega arith)
        (omega (arith, at)) (omega (arith, at)))
      (Rearranges-widen (omega arith) (omega arith)
        (selection_sort-Rearranges cmp n (picked cmp f start n) (suc start) c))

selection_sort-sorted :
    (cmp : ℕ → ℕ → Ordering) (n : ℕ) (f : ℕ → ℕ) (start i : ℕ)
    → IsComparison cmp
    → start ≤ i
    → suc i < start + n
    → cmp (selection_sort cmp f start n i) (selection_sort cmp f start n (suc i)) ≢ Ordering.gt
unfolding selection_sort
selection_sort-sorted cmp zero f start i c lo hi = absurd (omega arith)
selection_sort-sorted cmp (suc n) f start i c lo hi = elim (ℕ_discrete start i) [
  | no later ↦
      selection_sort-sorted cmp n (picked cmp f start n) (suc start) i c (omega arith) (omega arith)
  | yes e ↦
      let r = selection_sort-Rearranges cmp n (picked cmp f start n) (suc start) c in
      let first : selection_sort cmp f start (suc n) i ≡ f (smallest cmp n f start (suc start)) =
        r.same i
        ∙ ap (picked cmp f start n) (r.outside i (inl (omega arith)) ∙ sym e)
        ∙ picked_first cmp f start n in
      let (lo', hi') = r.inside (suc i) (omega arith) (omega arith) in
      rw (first, r.same (suc i))
        (picked_rest cmp f start n (r.from (suc i)) c (omega arith) (omega arith))
]

pub selection_sort-SortsArrays : SortsArrays selection_sort
selection_sort-SortsArrays = record {
  rearranges = λ cmp f start n c. selection_sort-Rearranges cmp n f start c;
  sorted = λ cmp f start n i c. selection_sort-sorted cmp n f start i c;
}
