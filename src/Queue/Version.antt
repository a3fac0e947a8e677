-- ===== src/Queue/Version.antt =====
-- The version counter: `queue_increment_version`, `queue_modify`, `queue_modify_all`.
use mpd_legacy.Common.{
  ℕ, ◌≤◌, ◌<◌, ◌≡◌, inl, inr, Bool, true, arith, Bool-cases, refl, ap, add32, leb, ltb, for_up_inv,
  if◌then◌else◌,
}
use mpd_legacy.Queue.{
  Queue, set_item_version, set_all_versions, increment_version, modify, modify_all, song_newer,
  max_version,
}
use mpd_legacy.Queue.Inv.{IsValid}

-- What setting versions leaves alone.
pub record OnlyVersions (q r : Queue) : Type 0 where
  pub max_length : r.max_length ≡ q.max_length
  pub length : r.length ≡ q.length
  pub order : r.order ≡ q.order
  pub id_to_position : r.id_to_position ≡ q.id_to_position
  pub same_song : (p : ℕ) → (r.items p).song ≡ (q.items p).song
  pub same_id : (p : ℕ) → (r.items p).id ≡ (q.items p).id
  pub same_priority : (p : ℕ) → (r.items p).priority ≡ (q.items p).priority
  pub modes :
      (r.repeat ≡ q.repeat)
      × (r.single ≡ q.single)
      × (r.consume ≡ q.consume)
      × (r.random ≡ q.random)
  pub rand : r.rand ≡ q.rand
  pub cur : r.cur ≡ q.cur
  pub freed : r.freed ≡ q.freed

OnlyVersions-refl : (q : Queue) → OnlyVersions q q
OnlyVersions-refl q = record {
  max_length = refl;
  length = refl;
  order = refl;
  id_to_position = refl;
  same_song = λ p. refl;
  same_id = λ p. refl;
  same_priority = λ p. refl;
  modes = (refl, refl, refl, refl);
  rand = refl;
  cur = refl;
  freed = refl;
}

OnlyVersions-set :
    {q r : Queue} (p v : ℕ) → OnlyVersions q r → OnlyVersions q (set_item_version r p v)
unfolding set_item_version
OnlyVersions-set {q} {r} p v o = record {
  max_length = o.max_length;
  length = o.length;
  order = o.order;
  id_to_position = o.id_to_position;
  same_song = λ k. ground (arith, o.same_song k);
  same_id = λ k. ground (arith, o.same_id k);
  same_priority = λ k. ground (arith, o.same_priority k);
  modes = o.modes;
  rand = o.rand;
  cur = o.cur;
  freed = o.freed;
}

set_all_versions_lem :
    (q : Queue) (v : ℕ)
    → OnlyVersions q (set_all_versions q v)
      × ((set_all_versions q v).version ≡ q.version)
      × ((p : ℕ)
          → ((set_all_versions q v).items p).version
            ≡ (if ltb p q.length then v else (q.items p).version))
unfolding set_all_versions set_item_version
set_all_versions_lem q v =
    for_up_inv
      (λ k (s : Queue).
        OnlyVersions q s
        × (s.version ≡ q.version)
        × ((p : ℕ) → (s.items p).version ≡ (if ltb p k then v else (q.items p).version)))
      (λ i s. set_item_version s i v) q.length 0 q.length q (omega arith)
      (λ k t lo hi h. (OnlyVersions-set k v h.0, h.1, λ p. ground (arith, h.2 p)))
      (OnlyVersions-refl q, refl, λ p. ground arith)

-- An overflow is the step that takes the counter to `max`.
abbrev pub overflows : Queue → Bool
overflows q = leb max_version (add32 q.version 1)

OnlyVersions-version :
    {q r : Queue} (v w : ℕ)
    → OnlyVersions (record q { version = v }) r
    → OnlyVersions q (record r { version = w })
OnlyVersions-version v w o = record {
  max_length = o.max_length;
  length = o.length;
  order = o.order;
  id_to_position = o.id_to_position;
  same_song = o.same_song;
  same_id = o.same_id;
  same_priority = o.same_priority;
  modes = o.modes;
  rand = o.rand;
  cur = o.cur;
  freed = o.freed;
}

-- `queue_increment_version` changes nothing but versions; it counts on, or, where the counter
-- overflows, starts again at 1 with every item dated 0.
pub increment_version_lem :
    (q : Queue)
    → OnlyVersions q (increment_version q)
      × ((increment_version q).version ≡ (if overflows q then 1 else add32 q.version 1))
      × ((p : ℕ)
          → p < q.length
          → ((increment_version q).items p).version
            ≡ (if overflows q then 0 else (q.items p).version))
unfolding increment_version
increment_version_lem q =
    let l = set_all_versions_lem (record q { version = add32 q.version 1 }) 0 in
    elim (Bool-cases (overflows q)) [
      | inl big ↦
          rw (big, increment_version)
            (OnlyVersions-version (add32 q.version 1) 1 l.0, refl, λ p h. ground (arith, l.2 p))
      | inr small ↦
          rw (small, increment_version)
            (
              OnlyVersions-version q.version (add32 q.version 1) (OnlyVersions-refl q),
              refl,
              λ p h. refl,
            )
    ]

-- Versions apart, validity is what `OnlyVersions` keeps.
OnlyVersions-IsValid :
    {q r : Queue}
    → OnlyVersions q r
    → IsValid q
    → 0 < r.version
    → r.version < max_version
    → ((p : ℕ) → p < q.length → (r.items p).version ≤ r.version)
    → IsValid r
OnlyVersions-IsValid {q} {r} o v lo hi d = record {
  fits = ground (arith, v.fits);
  small = ground (arith, v.small);
  version_pos = lo;
  version_small = hi;
  ids = record {
    below = λ p h. ground (arith, v.ids.below p, o.same_id p);
    known = λ p h.
        ground (arith, v.ids.known p, o.same_id p, ap (λ f. f (r.items p).id) o.id_to_position);
    held = λ i p h e. ground (arith, v.ids.held i p, o.same_id p, ap (λ f. f i) o.id_to_position);
  };
  ordered = (
    λ i h. ground (arith, v.ordered.0 i, ap (λ f. f i) o.order),
    λ i j hi hj e. ground (arith, v.ordered.1 i j, ap (λ f. f i) o.order, ap (λ f. f j) o.order),
  );
  dated = λ p h. d p (ground arith);
}

pub increment_version-IsValid : {q : Queue} → IsValid q → IsValid (increment_version q)
increment_version-IsValid {q} v =
    let (o, ver, it) = increment_version_lem q in
    OnlyVersions-IsValid o v (ground arith) (ground arith)
      (λ p h. ground (arith, it p h, v.dated p))

set_item_version-IsValid :
    {q : Queue} (p : ℕ) → IsValid q → IsValid (set_item_version q p q.version)
unfolding set_item_version
set_item_version-IsValid {q} p v =
    OnlyVersions-IsValid (OnlyVersions-set p q.version (OnlyVersions-refl q)) v v.version_pos
      v.version_small (λ k h. ground (arith, v.dated k))

pub modify-IsValid : {q : Queue} (o : ℕ) → IsValid q → IsValid (modify q o)
unfolding modify
modify-IsValid {q} o v = increment_version-IsValid (set_item_version-IsValid (q.order o) v)

set_all_versions-IsValid : {q : Queue} → IsValid q → IsValid (set_all_versions q q.version)
set_all_versions-IsValid {q} v =
    let (o, ver, it) = set_all_versions_lem q q.version in
    OnlyVersions-IsValid o v (ground arith) (ground arith) (λ p h. ground (arith, it p))

pub modify_all-IsValid : {q : Queue} → IsValid q → IsValid (modify_all q)
unfolding modify_all
modify_all-IsValid v = increment_version-IsValid (set_all_versions-IsValid v)

-- `queue_modify_all` makes every song newer.
pub song_newer-modify_all :
    {q : Queue} (p v : ℕ)
    → IsValid q
    → p < q.length
    → v ≤ q.version
    → song_newer (modify_all q) p v ≡ true
unfolding modify_all song_newer
song_newer-modify_all {q} p v valid hp hv =
    let (o, ver, it) = set_all_versions_lem q q.version in
    let (o', ver', it') = increment_version_lem (set_all_versions q q.version) in
    ground (arith, it p, it' p (ground arith), ver', ver)
