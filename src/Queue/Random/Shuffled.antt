-- ===== src/Queue/Random/Shuffled.antt =====
-- What is assumed of GLib, and what a shuffle keeps.
use Prim.Native.Nat.{Ordering}
use mpd_legacy.Common.{ℕ, zero, suc, ◌+◌, ◌-◌, ◌≤◌, ◌<◌, ◌≡◌, ◌≢◌, refl, ap, ◌∙◌, arith}
use mpd_legacy.Common.Rearrange.{
  Rearranges, Rearranges-refl, Rearranges-trans, Rearranges-widen, Rearranges-Injects,
}
use mpd_legacy.Queue.{Queue, QueueItem}
use mpd_legacy.Queue.Inv.{IsValid}
use mpd_legacy.Queue.Random.{RandIntRange, QSort, get_order_priority, item_compare_order_priority}

-- `g_rand_int_range` draws from the range, the end excluded.
pub record DrawsInRange (g_rand_int_range : RandIntRange) : Type 0 where
  pub in_range :
      (s begin end : ℕ)
      → begin < end
      → (begin ≤ (g_rand_int_range s begin end).0) × ((g_rand_int_range s begin end).0 < end)

-- A comparison that a sort can use.
pub record IsComparison (cmp : ℕ → ℕ → Ordering) : Type 0 where
  pub total : (a b : ℕ) → cmp a b ≡ Ordering.gt → cmp b a ≢ Ordering.gt
  pub trans : (a b c : ℕ) → cmp a b ≢ Ordering.gt → cmp b c ≢ Ordering.gt → cmp a c ≢ Ordering.gt

-- `g_qsort_with_data` rearranges the given entries, and leaves them in ascending sequence.
pub record SortsArrays (g_qsort : QSort) : Type 0 where
  pub rearranges :
      (cmp : ℕ → ℕ → Ordering) (f : ℕ → ℕ) (start n : ℕ)
      → IsComparison cmp
      → Rearranges start (start + n) f (g_qsort cmp f start n)
  pub sorted :
      (cmp : ℕ → ℕ → Ordering) (f : ℕ → ℕ) (start n i : ℕ)
      → IsComparison cmp
      → start ≤ i
      → suc i < start + n
      → cmp (g_qsort cmp f start n i) (g_qsort cmp f start n (suc i)) ≢ Ordering.gt

pub compare-IsComparison : (q : Queue) → IsComparison (item_compare_order_priority q)
unfolding item_compare_order_priority
compare-IsComparison q = record { total = λ a b h. ground arith; trans = λ a b c h k. ground arith }

-- A sequence in which no entry is below the next one, from `lo` up to `hi`.
falls_far :
    (f : ℕ → ℕ) (lo hi i d : ℕ)
    → ((k : ℕ) → lo ≤ k → suc k < hi → f (suc k) ≤ f k)
    → lo ≤ i
    → i + d < hi
    → f (i + d) ≤ f i
falls_far f lo hi i zero step l h = let e : i + 0 ≡ i = omega arith in rw e (omega arith)
falls_far f lo hi i (suc d) step l h =
    let e : i + suc d ≡ suc (i + d) = omega arith in
    rw e (
      omega (
        arith,
        falls_far f lo hi i d step l (omega arith),
        step (i + d) (omega arith) (omega arith),
      ))

pub falls_between :
    (f : ℕ → ℕ) (lo hi i j : ℕ)
    → ((k : ℕ) → lo ≤ k → suc k < hi → f (suc k) ≤ f k)
    → lo ≤ i
    → i ≤ j
    → j < hi
    → f j ≤ f i
falls_between f lo hi i j step l le lt =
    let e : i + (j - i) ≡ j = omega arith in
    rw e at (falls_far f lo hi i (j - i) step l (omega arith))

-- `s` is `q` with another state of the generator and the order changed in the range alone.
pub record Shuffled (lo hi : ℕ) (q s : Queue) : Type 0 where
  pub rest : s ≡ record q { order = s.order; rand = s.rand }
  pub order : Rearranges lo hi q.order s.order

pub Shuffled-IsValid :
    {lo hi : ℕ} {q s : Queue} → Shuffled lo hi q s → hi ≤ q.length → IsValid q → IsValid s
Shuffled-IsValid {q = q} {s} h le v = rw h.rest (record {
  fits = v.fits;
  small = v.small;
  version_pos = v.version_pos;
  version_small = v.version_small;
  ids = v.ids;
  ordered = Rearranges-Injects le h.order v.ordered;
  dated = v.dated;
})

pub Shuffled-refl : (lo hi : ℕ) (q : Queue) → Shuffled lo hi q q
Shuffled-refl lo hi q = record { rest = refl; order = Rearranges-refl lo hi q.order }

pub Shuffled-trans :
    {lo hi : ℕ} {q s t : Queue} → Shuffled lo hi q s → Shuffled lo hi s t → Shuffled lo hi q t
Shuffled-trans {lo} {hi} {q} {s} {t} h k = record {
  rest = k.rest ∙ ap (λ (x : Queue). record x { order = t.order; rand = t.rand }) h.rest;
  order = Rearranges-trans lo hi h.order k.order;
}

pub Shuffled-widen :
    {lo hi lo' hi' : ℕ} {q s : Queue}
    → lo' ≤ lo
    → hi ≤ hi'
    → Shuffled lo hi q s
    → Shuffled lo' hi' q s
Shuffled-widen l h k = record { rest = k.rest; order = Rearranges-widen l h k.order }

-- A shuffle among songs of one priority does not change the sequence of priorities.
pub Shuffled-priority :
    {lo hi : ℕ} {q s : Queue} (c o : ℕ)
    → Shuffled lo hi q s
    → ((i : ℕ) → lo ≤ i → i < hi → get_order_priority q i ≡ c)
    → get_order_priority s o ≡ get_order_priority q o
unfolding get_order_priority
Shuffled-priority {lo} {hi} {q} {s} c o h const =
    let items : s.items ≡ q.items = ap (λ (x : Queue). x.items) h.rest in
    let r = h.order in
    ap (λ (f : ℕ → QueueItem). (f (s.order o)).priority) items
    ∙ ap (λ k. (q.items k).priority) (r.same o)
    ∙ ground (arith, const o, const (r.from o), r.inside o, r.outside o)
