-- ===== src/Queue/Edit/Swap.antt =====
-- `queue_swap`, alone and with `queue_swap_order`.
use mpd_legacy.Common.{ℕ, ◌*◌, ◌<◌, ◌≡◌, refl, Option, none, some, arith, if◌then◌else◌, ◌==◌}
use mpd_legacy.Queue.{Queue, queue_hash_mult, id_to_position, position_to_id, get, swap_order}
use mpd_legacy.Queue.Inv.{IsValid}
use mpd_legacy.Queue.Edit.{swap}
use mpd_legacy.Queue.Edit.Shift.{relocate}
use mpd_legacy.Queue.Edit.Relocate.{Relocated, Relocated-IsValid, Relocated-song_of_id}

abbrev pub exchange : ℕ → ℕ → ℕ → ℕ
exchange a b p = if p == a then b else if p == b then a else p

-- Swapping two entries of the order keeps it a permutation.
pub swap_order-IsValid :
    {q : Queue} (a b : ℕ) → IsValid q → a < q.length → b < q.length → IsValid (swap_order q a b)
unfolding swap_order
swap_order-IsValid {q} a b v ha hb = record {
  fits = v.fits;
  small = v.small;
  version_pos = v.version_pos;
  version_small = v.version_small;
  ids = v.ids;
  ordered = (
    λ i h. ground (arith, v.ordered.0 i, v.ordered.0 a, v.ordered.0 b),
    λ i j hi hj e. ground (
      arith,
      v.ordered.1 i j,
      v.ordered.1 i a,
      v.ordered.1 i b,
      v.ordered.1 a j,
      v.ordered.1 b j,
      v.ordered.1 a b,
    ),
  );
  dated = v.dated;
}

module _ {q : Queue} (v : IsValid q) (a b : ℕ) (ha : a < q.length) (hb : b < q.length) where
  swapped_id :
      (i : ℕ) (o : Option ℕ)
      → i < q.max_length * queue_hash_mult
      → q.id_to_position i ≡ o
      → (swap q a b).id_to_position i ≡ relocate (exchange a b) o
  unfolding swap
  swapped_id i none hi e = ground (arith, v.ids.known a ha, v.ids.known b hb)
  swapped_id i (some p) hi e =
      ground (arith, v.ids.held i p hi e, v.ids.known a ha, v.ids.known b hb)

  swap-Relocated : Relocated q (swap q a b) (exchange a b)
  unfolding swap
  swap-Relocated = record {
    max_length = refl;
    length = refl;
    version = refl;
    injects = (λ p h. ground arith, λ i j hi hj e. ground arith);
    items = λ p h. ground arith;
    ids = λ i h. unfold swap in swapped_id i (q.id_to_position i) h refl;
  }

  -- `queue_swap` keeps the invariant.
  pub swap-IsValid : IsValid (swap q a b)
  swap-IsValid = Relocated-IsValid _ swap-Relocated v (unfold swap in v.ordered)

  -- The two songs change places and keep their ids; the others stay.
  pub swap_song :
      (p : ℕ)
      → p < q.length
      → (id_to_position (swap q a b) (position_to_id q p) ≡ some (exchange a b p))
        × (get (swap q a b) (exchange a b p) ≡ get q p)
  unfolding position_to_id
  swap_song p h = Relocated-song_of_id _ swap-Relocated v p h
