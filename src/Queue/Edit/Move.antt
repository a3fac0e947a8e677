-- ===== src/Queue/Edit/Move.antt =====
-- `queue_move_range`: the songs of a block take their new positions, and nothing else changes.
use mpd_legacy.Common.{
  ℕ, ◌+◌, ◌-◌, ◌≤◌, ◌<◌, ◌≡◌, refl, sym, ap, ◌∙◌, ◌⊎◌, inl, inr, Option, none, some, true, false,
  ◌&&◌, arith, if◌then◌else◌, ltb, leb, for_up, dec_lt, Bool-cases, add32, sub32,
}
use mpd_legacy.Common.Pigeonhole.{Injects}
use mpd_legacy.Queue.{Queue, id_to_position, get, get_order}
use mpd_legacy.Queue.Inv.{IsValid, IsOrder}
use mpd_legacy.Queue.Edit.{put_item, moved_range_position, move_range, map_order}
use mpd_legacy.Queue.Edit.Shift.{redated, relocate, ShiftedDown, ShiftedUp, shift_down, shift_up}
use mpd_legacy.Queue.Edit.Relocate.{
  Relocated, Relocated-IsValid, Relocated-song_of_id, map_order_lem,
}
use mpd_legacy.Queue.Edit.Block.{
  Put, if_order, Put-loop, block_move, block_move_back, space, knows, BlockFits, Middle,
  shift_others,
}

module _ {q : Queue} (v : IsValid q) (start end to : ℕ) (b : BlockFits q start end to) where
  shift_others_right :
      start ≤ to
      → ShiftedDown q (space q) (end - start) start (to - start) (shift_others q start end to)
  unfolding shift_others
  shift_others_right h =
      let rounds : sub32 (add32 end to) start - end ≡ to - start =
        omega (arith, v.small, v.fits, b) in
      let no_rounds : start - to ≡ 0 = omega arith in
      let place : start + (end - start) + (to - start) ≡ to + (end - start) = omega (arith, b) in
      rw (rounds, no_rounds)
        (shift_down q (space q) (end - start) start (to - start) end (λ i. i)
          (λ i. sub32 (add32 start i) end) (knows _ _ v (omega (arith, place, b.fits)))
          (omega (arith, b)) (λ k lt. (omega (arith, b), omega (arith, b, v.small, v.fits))))

  shift_others_left :
      to < start
      → ShiftedUp q
          (space q)
          (end - start)
          (to + 0)
          (to + (start - to))
          (shift_others q start end to)
  unfolding shift_others
  shift_others_left h =
      let no_rounds : sub32 (add32 end to) start - end ≡ 0 = omega (arith, v.small, v.fits, b) in
      rw no_rounds (
        shift_up q (space q) (end - start) to (start - to) to (λ i. i)
          (λ i. sub32 (add32 i end) start) (knows _ _ v (omega (arith, b))) (omega (arith, b))
          (λ k lt. (omega arith, omega (arith, b, v.small, v.fits))))

  shift_others-Middle : Middle q start end to (shift_others q start end to)
  unfolding moved_range_position
  shift_others-Middle = elim (dec_lt to start) [
    | yes h ↦
        let d = shift_others_left h in
        record {
          rest = d.rest;
          items = λ p hp out.
              ground (arith, d.items (moved_range_position start end to p), b, v.small, v.fits);
          ids = λ i p hi e out. ground (arith, d.ids i hi, v.ids.held i p hi e, b, v.small, v.fits);
          free = λ i hi e. ground (arith, d.ids i hi);
        }
    | no h ↦
        let d = shift_others_right (omega arith) in
        record {
          rest = d.rest;
          items = λ p hp out.
              ground (arith, d.items (moved_range_position start end to p), b, v.small, v.fits);
          ids = λ i p hi e out. ground (arith, d.ids i hi, v.ids.held i p hi e, b, v.small, v.fits);
          free = λ i hi e. ground (arith, d.ids i hi);
        }
  ]

  pub moved_range_position_lem :
      (p : ℕ) → p < q.length → moved_range_position start end to p ≡ block_move start end to p
  unfolding moved_range_position
  moved_range_position_lem p h = ground (arith, b, v.small, v.fits)

  moved_range_position-Injects : Injects (moved_range_position start end to) q.length q.length
  moved_range_position-Injects = (
    λ p h. ground (arith, moved_range_position_lem p h, b),
    λ p p' h h' e.
        let same : block_move start end to p ≡ block_move start end to p' =
          sym (moved_range_position_lem p h) ∙ e ∙ moved_range_position_lem p' h' in
        sym (block_move_back start end to p b.not_empty)
        ∙ ap (block_move to (to + (end - start)) start) same
        ∙ block_move_back start end to p' b.not_empty,
  )

  -- The three loops of `queue_move_range`.
  moved_items : Queue
  unfolding for_up
  moved_items =
      for_up (end - start) start (λ i s. put_item s (q.items i) (sub32 (add32 to i) start))
        (shift_others q start end to)

  moved_items-Put : Put q (shift_others q start end to) start to (end - start) moved_items
  unfolding moved_items
  moved_items-Put =
      Put-loop q (shift_others q start end to) v start to (end - start) (omega (arith, b))
        (λ i. sub32 (add32 to i) start) shift_others-Middle.rest
        (λ k lt. omega (arith, b, v.small, v.fits))

  moved_items_at :
      (p : ℕ)
      → p < q.length
      → (moved_items.items (moved_range_position start end to p) ≡ q.items p)
        ⊎ (moved_items.items (moved_range_position start end to p) ≡ redated (q.items p) q.version)
  moved_items_at p h =
      let k = moved_range_position start end to p in
      ground (
        arith,
        moved_items-Put.items k,
        shift_others-Middle.items p h,
        moved_range_position_lem p h,
        b,
      )

  moved_ids_at :
      (i : ℕ) (o : Option ℕ)
      → i < space q
      → q.id_to_position i ≡ o
      → moved_items.id_to_position i ≡ relocate (moved_range_position start end to) o
  moved_ids_at i none hi e =
      moved_items-Put.outside i hi (λ p e'. absurd (ground arith)) ∙ shift_others-Middle.free i hi e
  moved_ids_at i (some p) hi e =
      let held = v.ids.held i p hi e in
      elim (Bool-cases (leb start p && ltb p end)) [
        | inl within ↦
            moved_items-Put.inside i p hi e (ground arith) (ground (arith, b))
            ∙ ap some (ground (arith, moved_range_position_lem p held.0))
        | inr out ↦
            moved_items-Put.outside i hi (λ p' e'. ground (arith, b))
            ∙ shift_others-Middle.ids i p hi e (ground arith)
      ]

  moved_items-Relocated : Relocated q moved_items (moved_range_position start end to)
  moved_items-Relocated =
      let same = moved_items-Put.rest in
      record {
        max_length = ap (λ (x : Queue). x.max_length) same;
        length = ap (λ (x : Queue). x.length) same;
        version = ap (λ (x : Queue). x.version) same;
        injects = moved_range_position-Injects;
        items = moved_items_at;
        ids = λ i hi. moved_ids_at i (q.id_to_position i) hi refl;
      }

  -- The order after the move.
  new_order : ℕ → ℕ
  new_order =
      if moved_items.random
      then map_order (moved_range_position start end to) moved_items.order moved_items.length
      else moved_items.order

  move_range_parts : move_range q start end to ≡ record moved_items { order = new_order }
  unfolding move_range moved_items shift_others new_order
  move_range_parts = if_order moved_items.random moved_items _

  reordered :
      (order : ℕ → ℕ)
      → Relocated q (record moved_items { order = order }) (moved_range_position start end to)
  reordered order =
      let r = moved_items-Relocated in
      record {
        max_length = r.max_length;
        length = r.length;
        version = r.version;
        injects = r.injects;
        items = r.items;
        ids = r.ids;
      }

  same_random : moved_items.random ≡ q.random
  same_random = ap (λ (x : Queue). x.random) moved_items-Put.rest

  same_order : moved_items.order ≡ q.order
  same_order = ap (λ (x : Queue). x.order) moved_items-Put.rest

  move_range-Relocated : Relocated q (move_range q start end to) (moved_range_position start end to)
  move_range-Relocated = rw move_range_parts (reordered new_order)

  new_order_at :
      (o : ℕ)
      → o < q.length
      → new_order o
        ≡ (if q.random then moved_range_position start end to (q.order o) else q.order o)
  unfolding new_order
  new_order_at o h = ground (
    arith,
    same_random,
    moved_items-Relocated.length,
    ap (λ f. f o) same_order,
    map_order_lem (moved_range_position start end to) moved_items.order moved_items.length o,
  )

  new_order-IsOrder : IsOrder q.length new_order
  new_order-IsOrder =
      let i = moved_range_position-Injects in
      (
        λ o h. ground (arith, new_order_at o h, v.ordered.0 o h, i.0 (q.order o)),
        λ o o' h h' e. ground (
          arith,
          new_order_at o h,
          new_order_at o' h',
          v.ordered.0 o h,
          v.ordered.0 o' h',
          v.ordered.1 o o',
          i.1 (q.order o) (q.order o'),
        ),
      )

  -- `queue_move_range` keeps the invariant.
  pub move_range-IsValid : IsValid (move_range q start end to)
  move_range-IsValid = rw move_range_parts (
      Relocated-IsValid _ (reordered new_order) v
        (rw moved_items-Relocated.length new_order-IsOrder))

  -- A song keeps its id when a block moves: the id leads to its new position.
  pub move_range_song :
      (p : ℕ)
      → p < q.length
      → (id_to_position (move_range q start end to) (q.items p).id
          ≡ some (block_move start end to p))
        × (get (move_range q start end to) (block_move start end to p) ≡ get q p)
  move_range_song p h =
      rw (← moved_range_position_lem p h) (Relocated-song_of_id _ move_range-Relocated v p h)

  -- In random mode the songs keep their order numbers.
  pub move_range_order :
      (o : ℕ)
      → q.random ≡ true
      → o < q.length
      → get_order (move_range q start end to) o ≡ get_order q o
  unfolding get_order
  move_range_order o random h =
      let song = Relocated-song_of_id _ (reordered new_order) v (q.order o) (v.ordered.0 o h) in
      let e : new_order o ≡ moved_range_position start end to (q.order o) =
        ground (arith, new_order_at o h, random) in
      rw (move_range_parts, e) song.1

  -- What the move leaves alone: the length and random mode, and outside random mode the order.
  pub move_range_rest :
      ((move_range q start end to).length ≡ q.length)
      × ((move_range q start end to).random ≡ q.random)
      × ((o : ℕ)
          → q.random ≡ false
          → o < q.length
          → (move_range q start end to).order o ≡ q.order o)
  move_range_rest =
      rw move_range_parts (
        moved_items-Relocated.length,
        same_random,
        λ o off h. ground (arith, new_order_at o h, off),
      )
