-- ===== src/Queue/Edit/Delete.antt =====
-- `queue_delete`: one song goes, the others close up, in position and in order.
use mpd_legacy.Common.{
  ℕ, ◌+◌, ◌-◌, ◌*◌, ◌<◌, ◌≡◌, ◌≢◌, refl, sym, ap, ◌∙◌, ◌⊎◌, inl, inr, Option, none, some, arith,
  if◌then◌else◌, ltb, ◌==◌, Bool-cases, ◌∷◌,
}
use mpd_legacy.Queue.{
  Queue, song_in_database, queue_hash_mult, id_to_position, position_to_id, position_to_order, get,
  get_order, order_to_position,
}
use mpd_legacy.Queue.Inv.{IsValid, IdsAreValid}
use mpd_legacy.Queue.Walk.{position_to_order_lem}
use mpd_legacy.Queue.Edit.{delete, pull_songs, pull_orders, lower_orders, song_free}
use mpd_legacy.Queue.Edit.Shift.{redated, relocate, ShiftedDown, shift_down, down_by}
use mpd_legacy.Queue.Edit.Close.{
  close_up, deleted_order, order_at, unique, order-IsOrder, released, closed,
}

module _ {q : Queue} (v : IsValid q) (position : ℕ) (h : position < q.length) where
  abbrev space : ℕ
  space = q.max_length * queue_hash_mult

  still_known :
      (p : ℕ)
      → p < q.length
      → p ≢ position
      → (released q position).id_to_position (q.items p).id ≡ some p
  unfolding released
  still_known p lt ne = ground (arith, v.ids.known p lt, v.ids.known position h)

  closed-ShiftedDown :
      ShiftedDown
        (released q position)
        space
        1
        position
        (q.length - 1 - position)
        (closed q position)
  unfolding closed released pull_songs
  closed-ShiftedDown =
      shift_down (released q position) space 1 position (q.length - 1 - position) position
        (λ i. i + 1) (λ i. i)
        (record {
          known = λ p lo hi. still_known p (omega arith) (omega arith);
          held = λ i p hi lo up e. ground (arith, v.ids.held i p hi);
        })
        (omega arith) (λ k lt. (refl, refl))

  closed_field :
      {A : Type 0} (f : Queue → A)
      → f (closed q position)
        ≡ f (record (released q position) {
          items = (closed q position).items;
          id_to_position = (closed q position).id_to_position;
        })
  closed_field f = ap f closed-ShiftedDown.rest

  closed_length : (closed q position).length ≡ q.length - 1
  unfolding released
  closed_length = closed_field (λ s. s.length)

  closed_order : (closed q position).order ≡ q.order
  unfolding released
  closed_order = closed_field (λ s. s.order)

  delete_parts : delete q position ≡ record (closed q position) {
    order = deleted_order q.order (position_to_order q position) q.length position;
  }
  unfolding delete closed released
  delete_parts =
      ap (λ (f : ℕ → ℕ). record (closed q position) { order = f })
        (ap
            (λ (n : ℕ).
              lower_orders
                (pull_orders (closed q position).order (position_to_order q position)
                  (n - position_to_order q position))
                n position)
            closed_length
          ∙ ap (λ (f : ℕ → ℕ). deleted_order f (position_to_order q position) q.length position)
              closed_order)

  -- Where the song now at `p` has been.
  abbrev source : ℕ → ℕ
  source p = if ltb p position then p else p + 1

  closed_item :
      (p : ℕ)
      → p < q.length - 1
      → ((closed q position).items p ≡ q.items (source p))
        ⊎ ((closed q position).items p ≡ redated (q.items (source p)) q.version)
  unfolding released
  closed_item p lt = ground (arith, closed-ShiftedDown.items p)

  closed_id :
      (p : ℕ) → p < q.length - 1 → ((closed q position).items p).id ≡ (q.items (source p)).id
  closed_id p lt = ground (arith, closed_item p lt)

  closed_known :
      (p : ℕ)
      → p < q.length - 1
      → (closed q position).id_to_position (q.items (source p)).id ≡ some p
  closed_known p lt =
      let s = source p in
      ground (
        arith,
        closed-ShiftedDown.ids (q.items s).id (v.ids.below s (ground arith)),
        still_known s (ground arith) (ground arith),
      )

  held_from :
      (i p : ℕ) (o : Option ℕ)
      → i < space
      → (released q position).id_to_position i ≡ o
      → relocate (down_by 1 position (q.length - 1 - position)) o ≡ some p
      → (p < q.length - 1) × ((q.items (source p)).id ≡ i)
  unfolding released
  held_from i p none hi e g = absurd (ground arith)
  held_from i p (some k) hi e g = elim (Bool-cases ((q.items position).id == i)) [
    | inl gone ↦ absurd (ground arith)
    | inr other ↦ ground (arith, v.ids.held i k hi (ground arith))
  ]

  closed-IdsAreValid :
      IdsAreValid space (q.length - 1) (closed q position).items (closed q position).id_to_position
  closed-IdsAreValid = record {
    below = λ p lt. ground (arith, closed_id p lt, v.ids.below (source p));
    known = λ p lt. rw (closed_id p lt) (closed_known p lt);
    held = λ i p hi e.
        let f = held_from i p _ hi refl (sym (closed-ShiftedDown.ids i hi) ∙ e) in
        (f.0, closed_id p f.0 ∙ f.1);
  }

  -- `queue_delete` keeps the invariant.
  pub delete-IsValid : IsValid (delete q position)
  unfolding released
  delete-IsValid =
      let len = closed_length in
      let max : (closed q position).max_length ≡ q.max_length = closed_field (λ s. s.max_length) in
      let ver : (closed q position).version ≡ q.version = closed_field (λ s. s.version) in
      rw delete_parts (record {
        fits = omega (arith, len, max, v.fits);
        small = omega (arith, max, v.small);
        version_pos = omega (arith, ver, v.version_pos);
        version_small = omega (arith, ver, v.version_small);
        ids = rw (len, max) closed-IdsAreValid;
        ordered = rw len (order-IsOrder v position h);
        dated = λ p lt.
            ground (arith, len, ver, closed_item p (omega (arith, len)), v.dated (source p));
      })

  -- The id of the removed song is free again; every other song keeps its id, and the song behind
  -- the removed one moves up.
  pub delete_songs :
      (id_to_position (delete q position) (position_to_id q position) ≡ none)
      × ((p : ℕ)
          → p < q.length
          → p ≢ position
          → (id_to_position (delete q position) (position_to_id q p) ≡ some (close_up position p))
            × (get (delete q position) (close_up position p) ≡ get q p))
  unfolding id_to_position position_to_id get released
  delete_songs =
      let max : (closed q position).max_length ≡ q.max_length = closed_field (λ s. s.max_length) in
      rw delete_parts (
        ground (arith, max, closed-ShiftedDown.ids (q.items position).id (v.ids.below position h)),
        λ p lt ne. (
          ground (arith, max, v.small, v.ids.below p lt, closed_known (close_up position p)),
          ground (arith, closed_item (close_up position p)),
        ),
      )

  -- The songs left keep their sequence in the order.
  pub delete_order :
      (o : ℕ)
      → o < q.length
      → o ≢ position_to_order q position
      → get_order (delete q position) (close_up (position_to_order q position) o) ≡ get_order q o
  unfolding get_order get order_to_position
  delete_order o lt ne =
      let o' = close_up (position_to_order q position) o in
      let in_order = position_to_order_lem position v h in
      rw delete_parts (
        ground (
          arith,
          order_at v position h o',
          unique v position h o lt,
          v.ordered.0 o lt,
          closed_item (close_up position (q.order o)),
          in_order,
        ))

  -- A song that is not in the database is released, and no other.
  pub delete_frees :
      (delete q position).freed
      ≡ (if song_in_database (get q position) then q.freed else get q position ∷ q.freed)
  unfolding released song_free
  delete_frees = rw delete_parts (closed_field (λ s. s.freed))
