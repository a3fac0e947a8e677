-- ===== src/Queue/Inv.antt =====
-- The representation invariant of `struct queue`.
use mpd_legacy.Common.{ℕ, ◌*◌, ◌≤◌, ◌<◌, ◌^◌, ◌≡◌, Option, some, arith}
use mpd_legacy.Common.Pigeonhole.{Injects, Injects-onto}
use mpd_legacy.Queue.{Queue, QueueItem, id_space, queue_hash_mult, max_version}

-- `id_to_position` and the ids of the items are inverse to one another.
pub record IdsAreValid (space n : ℕ) (items : ℕ → QueueItem) (id_to_position : ℕ → Option ℕ)
    : Type 0 where
  pub below : (p : ℕ) → p < n → (items p).id < space
  pub known : (p : ℕ) → p < n → id_to_position (items p).id ≡ some p
  pub held : (i p : ℕ) → i < space → id_to_position i ≡ some p → (p < n) × ((items p).id ≡ i)

-- The order is a permutation of the positions.
abbrev pub IsOrder : ℕ → (ℕ → ℕ) → Type 0
IsOrder n f = Injects f n n

pub record IsValid (q : Queue) : Type 0 where
  pub fits : q.length ≤ q.max_length
  pub small : q.max_length * queue_hash_mult < 2 ^ 32
  pub version_pos : 0 < q.version
  pub version_small : q.version < max_version
  pub ids : IdsAreValid (q.max_length * queue_hash_mult) q.length q.items q.id_to_position
  pub ordered : IsOrder q.length q.order
  pub dated : (p : ℕ) → p < q.length → (q.items p).version ≤ q.version

pub id_space_exact : {q : Queue} → IsValid q → id_space q ≡ q.max_length * queue_hash_mult
id_space_exact v = omega arith

-- Every position has an order number.
pub order_onto :
    {q : Queue} (p : ℕ) → IsValid q → p < q.length → (o : ℕ) × (o < q.length) × (q.order o ≡ p)
order_onto {q} p v h = Injects-onto q.order q.length p v.ordered h
