-- ===== src/Playlist/Edit/MoveSong.antt =====
-- The current song while `playlist_move_id` moves a song of src/playlist_edit.c.
use mpd_legacy.Common.{
  ◌^◌, ltb, if◌then◌else◌, ◌-◌, ◌&&◌, ℕ, ◌+◌, ◌<◌, ◌≡◌, refl, sym, ap, ◌∙◌, Option, none, some,
  true, false, ◌||◌, not, arith, if_cases, leb, ◌==◌, sub32, add32,
}
use mpd_legacy.Common.Int.{ℤ, pos}
use mpd_legacy.Queue.{Queue, get, get_order, order_to_position, id_to_position, valid_position}
use mpd_legacy.Queue.Inv.{IsValid, id_space_exact}
use mpd_legacy.Queue.Random.{RandIntRange, QSort}
use mpd_legacy.Queue.Random.Shuffled.{DrawsInRange, SortsArrays}
use mpd_legacy.Queue.Edit.{move_range as queue_move_range}
use mpd_legacy.Queue.Edit.Shift.{relocate}
use mpd_legacy.Queue.Edit.Move.{
  move_range-IsValid, move_range_song, move_range_order, move_range_rest,
}
use mpd_legacy.Queue.Edit.Block.{BlockFits, block_move}
use mpd_legacy.Playlist.{Playlist, PlaylistResult, success, get_queued_song}
use mpd_legacy.Playlist.Ready.{IsReady}
use mpd_legacy.Playlist.Edit.{finish_edit, move_block, move_range, move_id, current_moved}
use mpd_legacy.Playlist.Edit.Kept.{
  current_song_by, relocate_id, MovesSongs, MovesSongs-Keeps, relocated_below, finish_edit-Keeps,
}

current_moved_lem :
    {q : Queue} (o : Option ℕ) (start to : ℕ)
    → IsValid q
    → ((c : ℕ) → o ≡ some c → c < q.length)
    → start < q.length
    → to < q.length
    → current_moved o start (start + 1) to ≡ relocate (block_move start (start + 1) to) o
unfolding current_moved
current_moved_lem none start to v h h1 h2 =
    let small = v.small in
    let fits = v.fits in
    let low : leb (2 ^ 31) to ≡ false = ground arith in
    ap (λ b. if b && ltb start (start + 1) then some (start + 1 - start - 1) else none) low
current_moved_lem (some c) start to v h h1 h2 =
    let small = v.small in let fits = v.fits in let hc = h c refl in ap some (ground arith)

known_below :
    {q : Queue} (id song : ℕ) → IsValid q → id_to_position q id ≡ some song → song < q.length
unfolding id_to_position
known_below {q} id song v e = ground (arith, e, v.ids.held id song, id_space_exact v)

-- A song that is moved to where it is.
stays :
    {p : Playlist} (start to : ℕ)
    → IsReady p
    → start ≡ to
    → MovesSongs (block_move start (start + 1) to) p p
stays {p} start to r e = record {
  ready = r;
  song = refl;
  length = refl;
  songs = λ k h. ap (get p.queue) (ground (arith, e));
}

module _ {p : Playlist} (start to : ℕ) (r : IsReady p) (h1 : start < p.queue.length)
    (h2 : to < p.queue.length) where
  one_song : BlockFits p.queue start (start + 1) to
  one_song = record { not_empty = omega arith; inside = omega arith; fits = omega arith }

  q1 : Queue
  q1 = queue_move_range p.queue start (start + 1) to

  song_at :
      (k : ℕ) → k < p.queue.length → get q1 (block_move start (start + 1) to k) ≡ get p.queue k
  unfolding q1
  song_at k h = (move_range_song r.valid start (start + 1) to one_song k h).1

  -- In random mode the current order number stays.
  moved_random :
      p.queue.random ≡ true
      → MovesSongs
          (block_move start (start + 1) to)
          p
          (record p { queue = queue_move_range p.queue start (start + 1) to })
  unfolding q1
  moved_random on =
      let (len, mode, _) = move_range_rest r.valid start (start + 1) to one_song in
      let p' = record p { queue = queue_move_range p.queue start (start + 1) to } in
      record {
        ready = record {
          valid = move_range-IsValid r.valid start (start + 1) to one_song;
          current_in = λ c e. omega (arith, r.current_in c e, len);
          queued_in = λ o e. omega (arith, r.queued_in o e, len);
          straight = λ off. absurd (ground (arith, on, off, mode));
          started = r.started;
        };
        song =
            current_song_by p p' (λ c. c) (sym (relocate_id p.current))
              (λ c e.
                move_range_order r.valid start (start + 1) to one_song c on (r.current_in c e));
        length = len;
        songs = song_at;
      }

  -- Outside random mode it moves with its song.
  moved_straight :
      p.queue.random ≡ false
      → MovesSongs (block_move start (start + 1) to) p (record p {
        queue = queue_move_range p.queue start (start + 1) to;
        current = current_moved p.current start (start + 1) to;
      })
  unfolding q1 get_order order_to_position
  moved_straight off =
      let (len, mode, same) = move_range_rest r.valid start (start + 1) to one_song in
      let moved = block_move start (start + 1) to in
      let is_current = current_moved_lem p.current start to r.valid r.current_in h1 h2 in
      let inside : (k : ℕ) → k < p.queue.length → moved k < p.queue.length = λ k h. ground arith in
      let p' = record p {
        queue = queue_move_range p.queue start (start + 1) to;
        current = current_moved p.current start (start + 1) to;
      } in
      record {
        ready = record {
          valid = move_range-IsValid r.valid start (start + 1) to one_song;
          current_in = λ c e. omega (
            arith,
            len,
            relocated_below {f = moved} p.current inside r.current_in c (sym is_current ∙ e),
          );
          queued_in = λ o e. omega (arith, r.queued_in o e, len);
          straight = λ _ o h.
              let h' : o < p.queue.length = omega (arith, len, h) in
              same o off h' ∙ r.straight off o h';
          started =
              λ on. let (c, e) = r.started on in (moved c, is_current ∙ ap (relocate moved) e);
        };
        song = current_song_by p p' moved is_current (λ c e.
            let h = r.current_in c e in
            let h' = inside c h in
            ap (get (queue_move_range p.queue start (start + 1) to))
              (same (moved c) off h' ∙ r.straight off (moved c) h')
            ∙ song_at c h
            ∙ sym (ap (get p.queue) (r.straight off c h)));
        length = len;
        songs = song_at;
      }

module _ (g : RandIntRange) (random : DrawsInRange g) (sort : QSort)
    (sorts : SortsArrays sort) where
  move_block_lem :
      {p : Playlist} (start to : ℕ)
      → IsReady p
      → start < p.queue.length
      → to < p.queue.length
      → MovesSongs (block_move start (start + 1) to) p (move_block g sort p start (start + 1) to)
  unfolding move_block
  move_block_lem {p} start to r h1 h2 =
      let q1 = queue_move_range p.queue start (start + 1) to in
      let same = (move_range_rest r.valid start (start + 1) to (one_song start to r h1 h2)).1 in
      if_cases
        (λ (c : Option ℕ).
          MovesSongs (block_move start (start + 1) to) p
            (finish_edit g sort (record p { queue = q1; current = c }) (get_queued_song p)))
        (q1.random)
        (λ on.
          let m = moved_random start to r h1 h2 (sym same ∙ on) in
          MovesSongs-Keeps _ m (finish_edit-Keeps g random sort sorts (get_queued_song p) m.ready))
        (λ off.
          let m = moved_straight start to r h1 h2 (sym same ∙ off) in
          MovesSongs-Keeps _ m (finish_edit-Keeps g random sort sorts (get_queued_song p) m.ready))

  move_range_lem :
      {p : Playlist} (song to : ℕ)
      → IsReady p
      → song < p.queue.length
      → to < p.queue.length
      → let (r, p') = move_range g sort p song (song + 1) (pos to) in
        (r ≡ success) × MovesSongs (block_move song (song + 1) to) p p'
  unfolding move_range valid_position
  move_range_lem {p} song to r h1 h2 =
      let moves = λ (s : PlaylistResult × Playlist).
        (s.0 ≡ success) × MovesSongs (block_move song (song + 1) to) p s.1 in
      let small = r.valid.small in
      let fits = r.valid.fits in
      if_cases moves
        (not (valid_position p.queue song) || not (valid_position p.queue (sub32 (song + 1) 1)))
        (λ bad. absurd (ground (arith, bad)))
        (λ _.
          if_cases moves (leb p.queue.length (sub32 (sub32 (add32 to (song + 1)) song) 1))
            (λ bad. absurd (ground (arith, bad)))
            (λ _.
              if_cases moves (song == to) (λ same. (refl, stays song to r (ground (arith, same))))
                (λ _. (refl, move_block_lem song to r h1 h2))))

  move_id_found :
      (p : Playlist) (id song : ℕ) (to : ℤ)
      → id_to_position p.queue id ≡ some song
      → move_id g sort p id to ≡ move_range g sort p song (song + 1) to
  unfolding move_id
  move_id_found p id song to known = rw (known, move_id) refl

  -- `playlist_move_id` with an id in use and a target in the queue succeeds, keeps the invariant,
  -- moves the song there past the songs between, and the song that was current is current still.
  pub move_id_lem :
      {p : Playlist} (id song to : ℕ)
      → IsReady p
      → id_to_position p.queue id ≡ some song
      → to < p.queue.length
      → let (r, p') = move_id g sort p id (pos to) in
        (r ≡ success) × MovesSongs (block_move song (song + 1) to) p p'
  move_id_lem {p} id song to r known h =
      rw (move_id_found p id song (pos to) known)
        (move_range_lem song to r (known_below id song r.valid known) h)
