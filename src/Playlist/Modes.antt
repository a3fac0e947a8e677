-- ===== src/Playlist/Modes.antt =====
-- `playlist_set_random` of src/playlist.c while a song is playing.
use mpd_legacy.Common.{
  ℕ, ◌<◌, ◌≡◌, refl, sym, ap, ◌∙◌, Option, none, some, Bool, true, false, arith, if◌then◌else◌,
  if_cases, for_up_inv, update, bool_eq,
}
use mpd_legacy.Queue.{
  Queue, get, get_order, order_to_position, position_to_order, swap_order, restore_order,
}
use mpd_legacy.Queue.Inv.{IsValid}
use mpd_legacy.Queue.Edit.Swap.{swap_order-IsValid}
use mpd_legacy.Queue.Random.{RandIntRange, QSort, shuffle_order}
use mpd_legacy.Queue.Random.Laws.{shuffle_order-Shuffled}
use mpd_legacy.Queue.Random.Shuffled.{DrawsInRange, SortsArrays, Shuffled-IsValid}
use mpd_legacy.Playlist.{
  Playlist, Call, call, idle_add, idle_options, order, randomize, set_random, get_queued_song,
}
use mpd_legacy.Playlist.Ready.{
  IsReady, Keeps, Keeps-trans, Keeps-refl, current_song_at, update_queued_song-Keeps, shuffled_song,
}

-- Only the order changes, and becomes the identity.
restore_order_lem :
    (q : Queue)
    → (restore_order q ≡ record q { order = (restore_order q).order })
      × ((o : ℕ) → o < q.length → (restore_order q).order o ≡ o)
unfolding restore_order
restore_order_lem q =
    for_up_inv
      (λ k (t : Queue). (t ≡ record q { order = t.order }) × ((o : ℕ) → o < k → t.order o ≡ o))
      (λ i (s : Queue). record s { order = update s.order i i }) q.length 0 q.length q (omega arith)
      (λ k t _ h (same, at). (
        ap (λ (x : Queue). record x { order = update t.order k k }) same,
        λ o lt. ground (arith, at o),
      ))
      (refl, λ o lt. absurd (omega arith))

told-Keeps : {p p' : Playlist} (c : Call) → Keeps p p' → Keeps p (call c p')
told-Keeps c k =
    let r = k.ready in
    record {
      ready = record {
        valid = r.valid;
        current_in = r.current_in;
        queued_in = r.queued_in;
        straight = r.straight;
        started = r.started;
      };
      song = k.song;
      length = k.length;
      songs = k.songs;
    }

random_mode : Playlist → Bool → Playlist
random_mode p status = record p { queue = record (p.queue) { random = status } }

mode-IsValid : {q : Queue} (status : Bool) → IsValid q → IsValid (record q { random = status })
mode-IsValid status v = record {
  fits = v.fits;
  small = v.small;
  version_pos = v.version_pos;
  version_small = v.version_small;
  ids = v.ids;
  ordered = v.ordered;
  dated = v.dated;
}

straight-IsValid :
    {q : Queue} (f : ℕ → ℕ)
    → IsValid q
    → ((o : ℕ) → o < q.length → f o ≡ o)
    → IsValid (record q { order = f })
straight-IsValid f v at = record {
  fits = v.fits;
  small = v.small;
  version_pos = v.version_pos;
  version_small = v.version_small;
  ids = v.ids;
  ordered = (λ o h. ground (arith, at o h), λ o o' h h' e. ground (arith, at o h, at o' h', e));
  dated = v.dated;
}

-- Random mode is left: the order is restored, and the current order number is the position.
ordered-Keeps :
    {p : Playlist} (c : ℕ)
    → IsReady p
    → p.current ≡ some c
    → Keeps p (record p {
      queue = restore_order (record (p.queue) { random = false });
      current = some (order_to_position p.queue c);
    })
unfolding get_order order_to_position get
ordered-Keeps {p} c r e =
    let q1 = record (p.queue) { random = false } in
    let (rest, at) = restore_order_lem q1 in
    let h = r.current_in c e in
    let inside = r.valid.ordered.0 c h in
    let same_length = ap (λ (x : Queue). x.length) rest in
    record {
      ready = record {
        valid = rw rest (straight-IsValid {q = q1} _ (mode-IsValid false r.valid) at);
        current_in = λ k ek. ground (arith, ek, inside, same_length);
        queued_in = λ o eo. omega (arith, r.queued_in o eo, same_length);
        straight = λ _ o ho. at o (omega (arith, ho, same_length));
        started = λ _. (_, refl);
      };
      song =
          ap some (
            ap (λ k. ((restore_order q1).items k).song) (at (p.queue.order c) inside)
            ∙ ap (λ (x : Queue). (x.items (p.queue.order c)).song) rest)
          ∙ sym (current_song_at p c e);
      length = same_length;
      songs = λ k. ap (λ (x : Queue). (x.items k).song) rest;
    }

first : (f : ℕ → ℕ) (a : ℕ) → update (update f 0 (f a)) a (f 0) 0 ≡ f a
first f a = ground arith

order_current :
    (p : Playlist) (c : ℕ)
    → p.current ≡ some c
    → order p
      ≡ record p { queue = restore_order p.queue; current = some (order_to_position p.queue c) }
unfolding order
order_current p c e =
    ap
      (λ (o : Option ℕ). record p {
        queue = restore_order p.queue;
        current = elim o [ none ↦ none | some k ↦ some (order_to_position p.queue k) ];
      })
      e

module _ (g : RandIntRange) (random : DrawsInRange g) (sort : QSort)
    (sorts : SortsArrays sort) where
  randomize_playing :
      (p : Playlist) (c : ℕ)
      → p.playing ≡ true
      → p.current ≡ some c
      → let s = shuffle_order g sort p.queue in
        randomize g sort p ≡ record p {
          queue = swap_order s 0 (position_to_order s (order_to_position p.queue c));
          current = some 0;
        }
  unfolding randomize
  randomize_playing p c on e =
      let s = shuffle_order g sort p.queue in
      let shuffled = record p { queue = s } in
      let branch = λ (o : ℕ) (b : Bool).
        if b
        then record shuffled {
          queue = swap_order s 0 (position_to_order s (order_to_position p.queue o));
          current = some 0;
        }
        else record shuffled { current = none } in
      ap
        (λ (o : Option ℕ). elim o [
          | none ↦ record shuffled { current = none }
          | some k ↦ branch k p.playing
        ])
        e
      ∙ ap (branch c) on

  -- Random mode is entered: the current song comes first in the new order.
  randomized-Keeps :
      {p : Playlist} (c : ℕ)
      → IsReady p
      → p.current ≡ some c
      → let s = shuffle_order g sort (record (p.queue) { random = true }) in
        Keeps p (record p {
          queue = swap_order s 0 (position_to_order s (order_to_position p.queue c));
          current = some 0;
        })
  unfolding get_order order_to_position get swap_order
  randomized-Keeps {p} c r e =
      let q1 = record (p.queue) { random = true } in
      let s = shuffle_order g sort q1 in
      let v1 = mode-IsValid true r.valid in
      let sh = shuffle_order-Shuffled g random sort sorts q1 in
      let h = r.current_in c e in
      let same_length = ap (λ (x : Queue). x.length) sh.rest in
      let on = ap (λ (x : Queue). x.random) sh.rest in
      let c' = position_to_order s (p.queue.order c) in
      let (lt, song) = shuffled_song g random sort sorts {q = q1} c v1 h in
      record {
        ready = record {
          valid =
              swap_order-IsValid {q = s} 0 c' (Shuffled-IsValid sh (omega arith) v1)
                (omega (arith, lt, same_length)) (omega (arith, lt, same_length));
          current_in = λ k ek. ground (arith, ek, lt, same_length);
          queued_in = λ o eo. omega (arith, r.queued_in o eo, same_length);
          straight = λ off. absurd (ground (arith, on, off));
          started = λ _. (_, refl);
        };
        song =
            ap some (ap (λ k. (s.items k).song) (first s.order c') ∙ song)
            ∙ sym (current_song_at p c e);
        length = same_length;
        songs = λ k. ap (λ (x : Queue). (x.items k).song) sh.rest;
      }

  modes_lem :
      {p : Playlist} (status : Bool) (c : ℕ)
      → IsReady p
      → p.playing ≡ true
      → p.current ≡ some c
      → Keeps p
          (if status then randomize g sort (random_mode p status) else order (random_mode p status))
  unfolding random_mode order_to_position
  modes_lem {p} true c r on e =
      rw (randomize_playing (random_mode p true) c on e) (randomized-Keeps c r e)
  modes_lem {p} false c r on e = rw (order_current (random_mode p false) c e) (ordered-Keeps c r e)

  -- While a song is playing, `playlist_set_random` keeps the invariant of the playlist, its songs and
  -- the current song, whether random mode begins or ends.
  pub set_random-Keeps :
      {p : Playlist} (status : Bool)
      → IsReady p
      → p.playing ≡ true
      → Keeps p (set_random g sort p status)
  unfolding set_random random_mode
  set_random-Keeps {p} status r on =
      let (c, e) = r.started on in
      let k = modes_lem status c r on e in
      if_cases (Keeps p) (bool_eq status p.queue.random) (λ _. Keeps-refl r)
        (λ _. told-Keeps (idle_add idle_options) (
          Keeps-trans k (update_queued_song-Keeps g random sort sorts (get_queued_song p) k.ready)))
