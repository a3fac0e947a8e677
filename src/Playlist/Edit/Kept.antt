-- ===== src/Playlist/Edit/Kept.antt =====
-- The current song while src/playlist_edit.c reorders the queue.
use mpd_legacy.Common.{
  ℕ, ◌<◌, ◌≡◌, refl, sym, ap, ◌∙◌, inl, inr, Option, none, some, true, false, ◌||◌, not, arith,
  if_cases, Option-cases,
}
use mpd_legacy.Queue.{
  Song, get, get_order, order_to_position, position_to_order, swap_order, increment_version,
  valid_position,
}
use mpd_legacy.Queue.Version.{increment_version-IsValid, increment_version_lem}
use mpd_legacy.Queue.Walk.{position_to_order_lem}
use mpd_legacy.Queue.Random.{RandIntRange, QSort}
use mpd_legacy.Queue.Random.Shuffled.{DrawsInRange, SortsArrays}
use mpd_legacy.Queue.Edit.{swap as queue_swap}
use mpd_legacy.Queue.Edit.Swap.{exchange, swap-IsValid, swap_song, swap_order-IsValid}
use mpd_legacy.Queue.Edit.Shift.{relocate}
use mpd_legacy.Playlist.{Playlist, PlaylistResult, success, get_queued_song}
use mpd_legacy.Playlist.Ready.{
  IsReady, Keeps, Keeps-trans, current_song, current_song_at, update_queued_song-Keeps,
}
use mpd_legacy.Playlist.Edit.{bump_version, finish_edit, swap_songs, current_swapped}

-- Where the current order number goes by a function and every song goes with it, the current song
-- stays.
pub current_song_by :
    (p p' : Playlist) (f : ℕ → ℕ)
    → p'.current ≡ relocate f p.current
    → ((c : ℕ) → p.current ≡ some c → get_order p'.queue (f c) ≡ get_order p.queue c)
    → current_song p' ≡ current_song p
current_song_by p p' f e same = elim (Option-cases p.current) [
  | inl n ↦ ground (arith, e, n)
  | inr (c, at) ↦
      current_song_at p' (f c) (e ∙ ap (relocate f) at)
      ∙ ap some (same c at)
      ∙ sym (current_song_at p c at)
]

pub relocate_id : (o : Option ℕ) → relocate (λ c. c) o ≡ o
relocate_id none = refl
relocate_id (some c) = refl

bump_version-Keeps : {p : Playlist} → IsReady p → Keeps p (bump_version p)
unfolding bump_version get_order get order_to_position
bump_version-Keeps {p} r =
    let o = (increment_version_lem p.queue).0 in
    record {
      ready = record {
        valid = increment_version-IsValid r.valid;
        current_in = λ c e. ground (arith, r.current_in c e, o.length);
        queued_in = λ k e. ground (arith, r.queued_in k e, o.length);
        straight = λ off k h. ground (
          arith,
          r.straight,
          o.modes.3,
          off,
          h,
          o.length,
          r.straight (sym o.modes.3 ∙ off) k,
          ap (λ f. f k) o.order,
        );
        started = r.started;
      };
      song =
          current_song_by p (bump_version p) (λ c. c) (sym (relocate_id p.current))
            (λ c e.
              o.same_song ((increment_version p.queue).order c)
              ∙ ap (λ (f : ℕ → ℕ). (p.queue.items (f c)).song) o.order);
      length = o.length;
      songs = λ k. o.same_song k;
    }

-- `p'` is in order as `p` is, its current song is the same, and the songs have moved.
pub record MovesSongs (f : ℕ → ℕ) (p p' : Playlist) : Type 0 where
  pub ready : IsReady p'
  pub song : current_song p' ≡ current_song p
  pub length : p'.queue.length ≡ p.queue.length
  pub songs : (k : ℕ) → k < p.queue.length → get p'.queue (f k) ≡ get p.queue k

pub MovesSongs-Keeps :
    {p q r : Playlist} (f : ℕ → ℕ) → MovesSongs f p q → Keeps q r → MovesSongs f p r
MovesSongs-Keeps f m k = record {
  ready = k.ready;
  song = k.song ∙ m.song;
  length = k.length ∙ m.length;
  songs = λ i h. k.songs (f i) ∙ m.songs i h;
}

current_swapped_lem :
    (o : Option ℕ) (song1 song2 : ℕ)
    → current_swapped o song1 song2 ≡ relocate (exchange song1 song2) o
unfolding current_swapped
current_swapped_lem none song1 song2 = refl
current_swapped_lem (some c) song1 song2 = refl

pub relocated_below :
    {f : ℕ → ℕ} {n : ℕ} (o : Option ℕ)
    → ((c : ℕ) → c < n → f c < n)
    → ((c : ℕ) → o ≡ some c → c < n)
    → (c : ℕ) → relocate f o ≡ some c
    → c < n
relocated_below none into h c e = absurd (ground (arith, e))
relocated_below (some d) into h c e = ground (arith, e, into d (h d refl))

module _ {p : Playlist} (song1 song2 : ℕ) (r : IsReady p) (h1 : song1 < p.queue.length)
    (h2 : song2 < p.queue.length) where
  -- In a list in "position" order the current order number moves with its song.
  swapped_straight :
      p.queue.random ≡ false
      → MovesSongs (exchange song1 song2) p (record p {
        queue = queue_swap p.queue song1 song2;
        current = current_swapped p.current song1 song2;
      })
  unfolding queue_swap get_order order_to_position
  swapped_straight off =
      let p' = record p {
        queue = queue_swap p.queue song1 song2;
        current = current_swapped p.current song1 song2;
      } in
      record {
        ready = record {
          valid = swap-IsValid r.valid song1 song2 h1 h2;
          current_in = λ c e.
              relocated_below {f = exchange song1 song2} p.current (λ k h. ground arith)
                r.current_in c (sym (current_swapped_lem p.current song1 song2) ∙ e);
          queued_in = r.queued_in;
          straight = r.straight;
          started = λ on.
              let (c, e) = r.started on in
              (
                exchange song1 song2 c,
                current_swapped_lem p.current song1 song2 ∙ ap (relocate (exchange song1 song2)) e,
              );
        };
        song =
            current_song_by p p' (exchange song1 song2) (current_swapped_lem p.current song1 song2)
              (λ c e.
                let q1 = queue_swap p.queue song1 song2 in
                let h = r.current_in c e in
                let h' : exchange song1 song2 c < p.queue.length = ground arith in
                ap (get q1) (r.straight off (exchange song1 song2 c) h')
                ∙ (swap_song r.valid song1 song2 h1 h2 c h).1
                ∙ sym (ap (get p.queue) (r.straight off c h)));
        length = refl;
        songs = λ k h. (swap_song r.valid song1 song2 h1 h2 k h).1;
      }

  swapped_order :
      (a b c : ℕ)
      → a < p.queue.length
      → b < p.queue.length
      → p.queue.order a ≡ song1
      → p.queue.order b ≡ song2
      → c < p.queue.length
      → (swap_order (queue_swap p.queue song1 song2) a b).order c
        ≡ exchange song1 song2 (p.queue.order c)
  unfolding queue_swap swap_order
  swapped_order a b c la lb ea eb h =
      ground (arith, r.valid.ordered.1 a c la h, r.valid.ordered.1 b c lb h)

  -- In random mode the two songs exchange their order numbers again.
  swapped_random :
      p.queue.random ≡ true
      → let q1 = queue_swap p.queue song1 song2 in
        MovesSongs (exchange song1 song2) p (record p {
          queue = swap_order q1 (position_to_order q1 song1) (position_to_order q1 song2);
        })
  unfolding queue_swap get_order order_to_position swap_order
  swapped_random on =
      let q1 = queue_swap p.queue song1 song2 in
      let v1 = swap-IsValid r.valid song1 song2 h1 h2 in
      let a = position_to_order q1 song1 in
      let b = position_to_order q1 song2 in
      let (lt1, at1) = position_to_order_lem {q = q1} song1 v1 h1 in
      let (lt2, at2) = position_to_order_lem {q = q1} song2 v1 h2 in
      let p' = record p { queue = swap_order q1 a b } in
      record {
        ready = record {
          valid = swap_order-IsValid {q = q1} a b v1 lt1 lt2;
          current_in = r.current_in;
          queued_in = r.queued_in;
          straight = λ off. absurd (ground (arith, on, off));
          started = r.started;
        };
        song =
            current_song_by p p' (λ c. c) (sym (relocate_id p.current))
              (λ c e.
                let h = r.current_in c e in
                ap (get q1) (swapped_order a b c lt1 lt2 at1 at2 h)
                ∙ (swap_song r.valid song1 song2 h1 h2 (p.queue.order c)
                    (r.valid.ordered.0 c h)).1);
        length = refl;
        songs = λ k h. (swap_song r.valid song1 song2 h1 h2 k h).1;
      }

module _ (g : RandIntRange) (random : DrawsInRange g) (sort : QSort)
    (sorts : SortsArrays sort) where
  pub finish_edit-Keeps :
      {p : Playlist} (queued : Option Song) → IsReady p → Keeps p (finish_edit g sort p queued)
  unfolding finish_edit
  finish_edit-Keeps queued r =
      let k = bump_version-Keeps r in
      Keeps-trans k (update_queued_song-Keeps g random sort sorts queued k.ready)

  -- `playlist_swap_songs` of two songs of the queue succeeds, keeps the invariant, exchanges the two
  -- positions, and the song that was current is current still.
  pub swap_songs_lem :
      {p : Playlist} (song1 song2 : ℕ)
      → IsReady p
      → song1 < p.queue.length
      → song2 < p.queue.length
      → let (r, p') = swap_songs g sort p song1 song2 in
        (r ≡ success) × MovesSongs (exchange song1 song2) p p'
  unfolding swap_songs valid_position queue_swap
  swap_songs_lem {p} song1 song2 r h1 h2 =
      if_cases
        (λ (s : PlaylistResult × Playlist).
          (s.0 ≡ success) × MovesSongs (exchange song1 song2) p s.1)
        (not (valid_position p.queue song1) || not (valid_position p.queue song2))
        (λ bad. absurd (ground (arith, bad)))
        (λ _.
          if_cases
            (λ (x : Playlist).
              (success ≡ success)
              × MovesSongs (exchange song1 song2) p (finish_edit g sort x (get_queued_song p)))
            (p.queue.random)
            (λ on.
              let m = swapped_random song1 song2 r h1 h2 on in
              (refl, MovesSongs-Keeps _ m (finish_edit-Keeps (get_queued_song p) m.ready)))
            (λ off.
              let m = swapped_straight song1 song2 r h1 h2 off in
              (refl, MovesSongs-Keeps _ m (finish_edit-Keeps (get_queued_song p) m.ready))))
