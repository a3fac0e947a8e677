-- ===== src/Queue/Edit/Relocate.antt =====
-- Operations that give the songs other positions: what they keep, and that the invariant is kept.
use mpd_legacy.Common.{
  ℕ, ◌+◌, ◌*◌, ◌≤◌, ◌<◌, ◌≡◌, refl, sym, ◌∙◌, ◌⊎◌, Option, none, some, arith, if◌then◌else◌, ltb,
  update, for_up_count,
}
use mpd_legacy.Common.Pigeonhole.{Injects, Injects-onto}
use mpd_legacy.Queue.{Queue, queue_hash_mult, id_to_position, get}
use mpd_legacy.Queue.Inv.{IsValid, IdsAreValid, IsOrder}
use mpd_legacy.Queue.Edit.{map_order}
use mpd_legacy.Queue.Edit.Shift.{redated, relocate}

-- `s` holds the songs of `q`, the one at `p` now at `f p`, with its id and priority.
pub record Relocated (q s : Queue) (f : ℕ → ℕ) : Type 0 where
  pub max_length : s.max_length ≡ q.max_length
  pub length : s.length ≡ q.length
  pub version : s.version ≡ q.version
  pub injects : Injects f q.length q.length
  pub items :
      (p : ℕ)
      → p < q.length
      → (s.items (f p) ≡ q.items p) ⊎ (s.items (f p) ≡ redated (q.items p) q.version)
  pub ids :
      (i : ℕ)
      → i < q.max_length * queue_hash_mult
      → s.id_to_position i ≡ relocate f (q.id_to_position i)

-- The position that a position of `s` has been before.
pub before :
    {q s : Queue} {f : ℕ → ℕ} (k : ℕ)
    → Relocated q s f
    → k < s.length
    → (p : ℕ) × (p < q.length) × (f p ≡ k)
before {q} {s} {f} k r h = Injects-onto f q.length k r.injects (ground (arith, r.length))

module _ {q s : Queue} (f : ℕ → ℕ) (r : Relocated q s f) (v : IsValid q) where
  same_id : (p : ℕ) → p < q.length → (s.items (f p)).id ≡ (q.items p).id
  same_id p h = ground (arith, r.items p h)

  known : (k : ℕ) → k < s.length → s.id_to_position (s.items k).id ≡ some k
  known k h =
      let (p, hp, e) = before k r h in
      let same = same_id p hp in
      ground (arith, same, r.ids (q.items p).id (v.ids.below p hp), v.ids.known p hp)

  held_before :
      (i k : ℕ) (o : Option ℕ)
      → o ≡ q.id_to_position i
      → i < q.max_length * queue_hash_mult
      → relocate f o ≡ some k
      → (k < s.length) × ((s.items k).id ≡ i)
  held_before i k none e h g = absurd (ground arith)
  held_before i k (some p) e h g =
      let (hp, same) = v.ids.held i p h (sym e) in
      ground (arith, same_id p hp, r.injects.0 p hp, r.length)

  pub Relocated-IdsAreValid :
      IdsAreValid (q.max_length * queue_hash_mult) s.length s.items s.id_to_position
  Relocated-IdsAreValid = record {
    below = λ k h. let (p, hp, e) = before k r h in ground (arith, same_id p hp, v.ids.below p hp);
    known = known;
    held = λ i k h e. held_before i k (q.id_to_position i) refl h (sym (r.ids i h) ∙ e);
  }

  dated : (k : ℕ) → k < s.length → (s.items k).version ≤ q.version
  dated k h = let (p, hp, e) = before k r h in ground (arith, r.items p hp, v.dated p hp)

  pub Relocated-IsValid : IsOrder s.length s.order → IsValid s
  Relocated-IsValid o = record {
    fits = omega (arith, r.length, r.max_length, v.fits);
    small = omega (arith, r.max_length, v.small);
    version_pos = omega (arith, r.version, v.version_pos);
    version_small = omega (arith, r.version, v.version_small);
    ids = rw r.max_length Relocated-IdsAreValid;
    ordered = o;
    dated = λ k h. omega (arith, r.version, dated k h);
  }

  -- The song of an id is the song of that id before.
  pub Relocated-song_of_id :
      (p : ℕ)
      → p < q.length
      → (id_to_position s (q.items p).id ≡ some (f p)) × (get s (f p) ≡ get q p)
  unfolding id_to_position get
  Relocated-song_of_id p h = (
    ground (
      arith,
      r.ids (q.items p).id (v.ids.below p h),
      v.ids.known p h,
      v.ids.below p h,
      v.small,
      r.max_length,
    ),
    ground (arith, r.items p h),
  )

pub map_order_lem :
    (f order : ℕ → ℕ) (n o : ℕ) → map_order f order n o ≡ (if ltb o n then f (order o) else order o)
unfolding map_order
map_order_lem f order n =
    for_up_count (λ k (a : ℕ → ℕ). (o : ℕ) → a o ≡ (if ltb o k then f (order o) else order o))
      (λ i a. update a i (f (a i))) n 0 order (λ k t lt h o. ground (arith, h o, h (0 + k)))
      (λ o. ground arith)

pub map_order-IsOrder :
    (f order : ℕ → ℕ) (n : ℕ) → Injects f n n → IsOrder n order → IsOrder n (map_order f order n)
map_order-IsOrder f order n i o = (
  λ k h. ground (arith, map_order_lem f order n k, o.0 k, i.0 (order k)),
  λ j k hj hk e. ground (
    arith,
    map_order_lem f order n j,
    map_order_lem f order n k,
    o.0 j,
    o.0 k,
    o.1 j k,
    i.1 (order j) (order k),
  ),
)
