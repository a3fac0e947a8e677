-- ===== src/Queue/Edit/Reset.antt =====
-- `queue_init` and `queue_clear`.
use mpd_legacy.Common.{
  ℕ, ◌+◌, ◌-◌, ◌*◌, ◌%◌, ◌^◌, ◌<◌, ◌≡◌, refl, ap, Option, none, some, true, arith, update,
  for_up_count,
}
use mpd_legacy.Queue.{Queue, QueueItem, queue_hash_mult, id_to_position, is_empty}
use mpd_legacy.Queue.Inv.{IsValid}
use mpd_legacy.Queue.Edit.{init, clear, release_all}

-- With no songs and no id in use a queue is valid.
empty-IsValid :
    (q : Queue)
    → q.length ≡ 0
    → q.max_length * queue_hash_mult < 2 ^ 32
    → 0 < q.version
    → q.version < 2 ^ 31 - 1
    → ((i : ℕ) → i < q.max_length * queue_hash_mult → q.id_to_position i ≡ none)
    → IsValid q
empty-IsValid q e s lo hi free = record {
  fits = omega arith;
  small = s;
  version_pos = lo;
  version_small = hi;
  ids = record {
    below = λ p h. absurd (omega arith);
    known = λ p h. absurd (omega arith);
    held = λ i p h e'. absurd (ground (arith, free i h));
  };
  ordered = (λ i h. absurd (omega arith), λ i j h h' e'. absurd (omega arith));
  dated = λ p h. absurd (omega arith);
}

-- Whatever the memory held, `queue_init` leaves a valid queue without songs.
pub init-IsValid :
    (memory : Queue) (max_length seed : ℕ)
    → max_length * queue_hash_mult < 2 ^ 32
    → IsValid (init memory max_length seed) × (is_empty (init memory max_length seed) ≡ true)
unfolding init is_empty
init-IsValid memory max_length seed small = (
  empty-IsValid _ refl small (omega arith) (omega arith) (λ i h. ground (
    arith,
    for_up_count (λ k (a : ℕ → Option ℕ). (i : ℕ) → i < k → a i ≡ none) (λ i a. update a i none)
        (max_length * queue_hash_mult % 2 ^ 32) 0 memory.id_to_position
        (λ k t lt p j hj. ground (arith, p j)) (λ j hj. absurd (omega arith)) i,
  )),
  refl,
)

-- The table of ids while the loop of `queue_clear` runs.
record Releasing (q : Queue) (k : ℕ) (s : Queue) : Type 0 where
  max_length : s.max_length ≡ q.max_length
  version : s.version ≡ q.version
  items : s.items ≡ q.items
  gone :
      (i p : ℕ)
      → i < q.max_length * queue_hash_mult
      → q.id_to_position i ≡ some p
      → p < k
      → s.id_to_position i ≡ none
  free :
      (i : ℕ)
      → i < q.max_length * queue_hash_mult
      → q.id_to_position i ≡ none
      → s.id_to_position i ≡ none

release_all-Releasing : {q : Queue} → IsValid q → Releasing q q.length (release_all q)
unfolding release_all
release_all-Releasing {q} v =
    for_up_count (Releasing q) _ q.length 0 q
      (λ k t lt r. record {
        max_length = r.max_length;
        version = r.version;
        items = r.items;
        gone = λ i p hi e h. ground (
          arith,
          r.gone i p hi e,
          v.ids.held i p hi e,
          ap (λ (f : ℕ → QueueItem). f (0 + k)) r.items,
        );
        free = λ i hi e. ground (arith, r.free i hi e);
      })
      (record {
        max_length = refl;
        version = refl;
        items = refl;
        gone = λ i p hi e h. absurd (omega arith);
        free = λ i hi e. e;
      })

released_id :
    {q : Queue} (i : ℕ) (o : Option ℕ)
    → IsValid q
    → i < q.max_length * queue_hash_mult
    → q.id_to_position i ≡ o
    → (release_all q).id_to_position i ≡ none
released_id i none v hi e = (release_all-Releasing v).free i hi e
released_id i (some p) v hi e = (release_all-Releasing v).gone i p hi e (v.ids.held i p hi e).0

-- `queue_clear` keeps the invariant, and leaves no song and no id in use.
pub clear-IsValid :
    {q : Queue}
    → IsValid q
    → IsValid (clear q)
      × (is_empty (clear q) ≡ true)
      × ((i : ℕ) → id_to_position (clear q) i ≡ none)
unfolding clear is_empty id_to_position
clear-IsValid {q} v =
    let r = release_all-Releasing v in
    let free : (i : ℕ)
        → i < q.max_length * queue_hash_mult
        → (release_all q).id_to_position i ≡ none =
      λ i h. released_id i _ v h refl in
    (
      empty-IsValid _ refl (omega (arith, r.max_length, v.small))
          (omega (arith, r.version, v.version_pos)) (omega (arith, r.version, v.version_small))
          (λ i h. free i (omega (arith, r.max_length))),
      refl,
      λ i. ground (arith, free i, r.max_length, v.small),
    )
