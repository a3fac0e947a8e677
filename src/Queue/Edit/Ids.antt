-- ===== src/Queue/Edit/Ids.antt =====
-- `queue_generate_id` ends with an id that is not in use, and `queue_append` keeps the invariant.
use mpd_legacy.Common.{
  ℕ, zero, suc, ◌+◌, ◌-◌, ◌*◌, ◌^◌, ◌≤◌, ◌<◌, ◌≡◌, refl, ◌⊎◌, inl, inr, Option, none, some, arith,
  Option-cases, if◌then◌else◌, leb, update, ℕ_discrete, get_or,
}
use mpd_legacy.Common.Pigeonhole.{Injects-le}
use mpd_legacy.Queue.{
  Queue, QueueItem, Song, id_space, queue_hash_mult, id_to_position, get, get_order,
}
use mpd_legacy.Queue.Inv.{IsValid, IdsAreValid, id_space_exact}
use mpd_legacy.Queue.Edit.{next_id, search_id, generate_id, append}

-- Some id is free, or all ids below `n` are taken.
free_or_taken :
    (ids : ℕ → Option ℕ) (n : ℕ)
    → ((x : ℕ) × (x < n) × (ids x ≡ none)) ⊎ ((x : ℕ) → x < n → (p : ℕ) × (ids x ≡ some p))
free_or_taken ids zero = inr (λ x h. absurd (omega arith))
free_or_taken ids (suc n) = elim (Option-cases (ids n)) [
  | inl e ↦ inl (n, omega arith, e)
  | inr (p, e) ↦ elim (free_or_taken ids n) [
    | inl (x, h, e') ↦ inl (x, omega arith, e')
    | inr taken ↦ inr (λ x h. elim (ℕ_discrete x n) [
      | yes same ↦ (p, rw same e)
      | no other ↦ taken x (omega arith)
    ])
  ]
]

-- There are four times as many ids as places, so one is free.
pub free_id :
    {q : Queue}
    → IsValid q
    → q.length < q.max_length
    → (x : ℕ) × (x < q.max_length * queue_hash_mult) × (q.id_to_position x ≡ none)
free_id {q} v room = elim (free_or_taken q.id_to_position (q.max_length * queue_hash_mult)) [
  | inl found ↦ found
  | inr taken ↦
      let space : ℕ = q.max_length * queue_hash_mult in
      let place : ℕ → ℕ = λ x. get_or (q.id_to_position x) 0 in
      absurd (
        omega (
          arith,
          Injects-le place space q.length (
            λ x h. let (p, e) = taken x h in ground (arith, e, v.ids.held x p h e),
            λ x y hx hy same.
                let (p, e) = taken x hx in
                let (p', e') = taken y hy in
                ground (arith, v.ids.held x p hx e, v.ids.held y p' hy e', e, e'),
          ),
        ))
]

-- How many rounds it takes from `cur` to reach the id `x`.
abbrev distance : ℕ → ℕ → ℕ → ℕ
distance space cur x = if leb cur x then x - cur else space - cur + x

-- With fuel for the distance to a free id, the search ends at a free id.
search_id_lem :
    (n : ℕ) (q : Queue) (cur x : ℕ)
    → id_space q < 2 ^ 32
    → cur < id_space q
    → x < id_space q
    → q.id_to_position x ≡ none
    → distance (id_space q) cur x ≤ n
    → (search_id n q cur < id_space q) × (q.id_to_position (search_id n q cur) ≡ none)
unfolding search_id next_id
search_id_lem zero q cur x s hc hx free h = let e : cur ≡ x = ground arith in (hc, rw e free)
search_id_lem (suc n) q cur x s hc hx free h = elim (Option-cases (q.id_to_position cur)) [
  | inl e ↦ rw (e, search_id) (hc, e)
  | inr (p, e) ↦ elim (ℕ_discrete cur x) [
    | yes same ↦ absurd (ground (arith, e, free, same))
    | no other ↦
        rw (e, search_id)
          (search_id_lem n q (next_id q cur) x s (ground arith) hx free (ground arith))
  ]
]

distance-lt : (space cur x : ℕ) → cur < space → x < space → distance space cur x ≤ space
distance-lt space cur x hc hx = ground arith

next_id-lt : (q : Queue) → 0 < id_space q → next_id q q.cur < id_space q
unfolding next_id
next_id-lt q h = ground arith

-- The do-while loop of `queue_generate_id` ends: while the queue is not full it yields an id in
-- range that no song has.
pub generate_id_free :
    {q : Queue}
    → IsValid q
    → q.length < q.max_length
    → (generate_id q < q.max_length * queue_hash_mult) × (q.id_to_position (generate_id q) ≡ none)
unfolding generate_id
generate_id_free {q} v room =
    let (x, hx, free) = free_id v room in
    let e = id_space_exact v in
    let found =
      search_id_lem (id_space q) q (next_id q q.cur) x (omega arith) (next_id-lt q (omega arith))
        (omega arith) free
        (omega (
          arith,
          distance-lt (id_space q) (next_id q q.cur) x (next_id-lt q (omega arith)) (omega arith),
        )) in
    (omega (arith, found.0), found.1)

-- What a song added at the end changes in the table of ids.
module _ (space n : ℕ) (items : ℕ → QueueItem) (ids : ℕ → Option ℕ) (new : QueueItem)
    (valid : IdsAreValid space n items ids) (in_space : new.id < space)
    (free : ids new.id ≡ none) where
  add_item-IdsAreValid : IdsAreValid space (n + 1) (update items n new) (update ids new.id (some n))
  add_item-IdsAreValid = record {
    below = λ p h. ground (arith, valid.below p);
    known = λ p h. ground (arith, valid.known p);
    held = λ i p h e. ground (arith, valid.held i p h);
  }

-- A song may be appended while the queue is not full; the invariant is kept, the new song has the
-- last position and the last order number, and its id leads to it.
pub append-IsValid :
    {q : Queue} (song : Song) (priority : ℕ)
    → IsValid q
    → q.length < q.max_length
    → let (id, q') = append q song priority in
      IsValid q'
      × (q'.length ≡ q.length + 1)
      × (get q' q.length ≡ song)
      × (get_order q' q.length ≡ song)
      × (id_to_position q' id ≡ some q.length)
unfolding append get get_order id_to_position
append-IsValid {q} song priority v room =
    let (lt, free) = generate_id_free v room in
    (
      record {
        fits = omega arith;
        small = v.small;
        version_pos = v.version_pos;
        version_small = v.version_small;
        ids =
            add_item-IdsAreValid _ q.length q.items q.id_to_position
              (record { song = song; id = generate_id q; version = q.version; priority = priority })
              v.ids lt free;
        ordered = (
          λ i h. ground (arith, v.ordered.0 i),
          λ i j hi hj e. ground (arith, v.ordered.0 i, v.ordered.0 j, v.ordered.1 i j),
        );
        dated = λ p h. ground (arith, v.dated p);
      },
      refl,
      ground arith,
      ground arith,
      ground arith,
    )

-- Appending leaves every other song where it was: position, order number, id and priority.
pub append_others :
    {q : Queue} (song : Song) (priority k : ℕ)
    → IsValid q
    → q.length < q.max_length
    → k < q.length
    → let q' = (append q song priority).1 in
      (q'.items k ≡ q.items k)
      × (q'.order k ≡ q.order k)
      × (id_to_position q' (q.items k).id ≡ some k)
unfolding append id_to_position
append_others {q} song priority k v room h =
    let (lt, free) = generate_id_free v room in
    (ground arith, ground arith, ground (arith, v.ids.known k h, v.ids.below k h))
