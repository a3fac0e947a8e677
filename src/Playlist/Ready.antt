-- ===== src/Playlist/Ready.antt =====
-- The invariant of `struct playlist`, and the functions of src/playlist.c that keep the current song
-- while they choose what is queued.
use mpd_legacy.Common.{
  ℕ, ◌<◌, ◌≡◌, refl, sym, ap, ◌∙◌, Option, none, some, true, false, ◌&&◌, not, arith, if◌then◌else◌,
  if_cases, List, ◌∷◌,
}
use mpd_legacy.Queue.{
  Queue, QueueItem, Song, get, get_order, order_to_position, position_to_order, next_order,
}
use mpd_legacy.Queue.Inv.{IsValid}
use mpd_legacy.Queue.Walk.{position_to_order_lem, next_order-lt}
use mpd_legacy.Queue.Random.{RandIntRange, QSort, shuffle_order}
use mpd_legacy.Queue.Random.Laws.{shuffle_order-Shuffled}
use mpd_legacy.Queue.Random.Shuffled.{DrawsInRange, SortsArrays, Shuffled-IsValid}
use mpd_legacy.Playlist.{
  Playlist, Call, pc_stop, pc_cancel, call, to_unsigned, is_some, is_order, same_song, follow,
  shuffle_around_current, stop, set_queued, update_queued_song, queue_song_order,
}

abbrev pub current_song : Playlist → Option Song
current_song p = elim p.current [ none ↦ none | some c ↦ some (get_order p.queue c) ]

pub record IsReady (p : Playlist) : Type 0 where
  pub valid : IsValid p.queue
  pub current_in : (c : ℕ) → p.current ≡ some c → c < p.queue.length
  pub queued_in : (o : ℕ) → p.queued ≡ some o → o < p.queue.length
  pub straight : p.queue.random ≡ false → (o : ℕ) → o < p.queue.length → p.queue.order o ≡ o
  pub started : p.playing ≡ true → (c : ℕ) × (p.current ≡ some c)

-- `p'` is in order as `p` is, and has the same songs and the same current song.
pub record Keeps (p p' : Playlist) : Type 0 where
  pub ready : IsReady p'
  pub song : current_song p' ≡ current_song p
  pub length : p'.queue.length ≡ p.queue.length
  pub songs : (k : ℕ) → get p'.queue k ≡ get p.queue k

pub current_song_at :
    (p : Playlist) (c : ℕ) → p.current ≡ some c → current_song p ≡ some (get_order p.queue c)
current_song_at p c e = ground (arith, e)

pub Keeps-refl : {p : Playlist} → IsReady p → Keeps p p
Keeps-refl r = record { ready = r; song = refl; length = refl; songs = λ i. refl }

pub Keeps-trans : {p q r : Playlist} → Keeps p q → Keeps q r → Keeps p r
Keeps-trans k l = record {
  ready = l.ready;
  song = l.song ∙ k.song;
  length = l.length ∙ k.length;
  songs = λ i. l.songs i ∙ k.songs i;
}

halted-Keeps :
    {p : Playlist}
    → IsReady p
    → Keeps p (record (call pc_stop p) { queued = none; playing = false })
halted-Keeps r = record {
  ready = record {
    valid = r.valid;
    current_in = r.current_in;
    queued_in = λ o e. absurd (ground (arith, e));
    straight = r.straight;
    started = λ e. absurd (ground (arith, e));
  };
  song = refl;
  length = refl;
  songs = λ i. refl;
}

-- A new queued song, and calls to the player.
requeued-Keeps :
    {p : Playlist} (next : Option ℕ) (calls : List Call)
    → IsReady p
    → ((o : ℕ) → next ≡ some o → o < p.queue.length)
    → Keeps p (record p { queued = next; calls = calls })
requeued-Keeps next calls r h = record {
  ready = record {
    valid = r.valid;
    current_in = r.current_in;
    queued_in = h;
    straight = r.straight;
    started = r.started;
  };
  song = refl;
  length = refl;
  songs = λ i. refl;
}

module _ (g : RandIntRange) (random : DrawsInRange g) (sort : QSort)
    (sorts : SortsArrays sort) where
  -- The song of an order number, found again behind a shuffle.
  pub shuffled_song :
      {q : Queue} (c : ℕ)
      → IsValid q
      → c < q.length
      → let q' = shuffle_order g sort q in
        let c' = position_to_order q' (q.order c) in
        (c' < q.length) × (get_order q' c' ≡ get_order q c)
  unfolding get_order get order_to_position
  shuffled_song {q} c v h =
      let s = shuffle_order-Shuffled g random sort sorts q in
      let same_length = ap (λ (x : Queue). x.length) s.rest in
      let (lt, e) =
        position_to_order_lem (q.order c) (Shuffled-IsValid s (omega arith) v)
          (omega (arith, same_length, v.ordered.0 c h)) in
      (
        omega (arith, same_length, lt),
        ap (λ k. ((shuffle_order g sort q).items k).song) e
            ∙ ap (λ (f : ℕ → QueueItem). (f (q.order c)).song) (ap (λ (x : Queue). x.items) s.rest),
      )

  -- In random mode a new shuffle around the current song keeps it.
  pub shuffle_around_current-Keeps :
      {p : Playlist} (c : ℕ)
      → IsReady p
      → p.current ≡ some c
      → p.queue.random ≡ true
      → Keeps p (shuffle_around_current g sort p)
  unfolding shuffle_around_current follow order_to_position
  shuffle_around_current-Keeps {p} c r e on =
      let s = shuffle_order-Shuffled g random sort sorts p.queue in
      let same_length = ap (λ (x : Queue). x.length) s.rest in
      let same_random = ap (λ (x : Queue). x.random) s.rest in
      let at : to_unsigned p.current ≡ c = ground (arith, e) in
      let (lt, song) = shuffled_song {q = p.queue} c r.valid (r.current_in c e) in
      rw at (record {
        ready = record {
          valid = Shuffled-IsValid s (omega arith) r.valid;
          current_in = λ k ek. ground (arith, ek, lt, same_length);
          queued_in = λ o eo. ground (arith, r.queued_in o eo, same_length);
          straight = λ off. absurd (ground (arith, same_random, on, off));
          started = λ _. (_, refl);
        };
        song = ap some song ∙ sym (current_song_at p c e);
        length = same_length;
        songs = λ i.
            unfold get in
            ap (λ (f : ℕ → QueueItem). (f i).song) (ap (λ (x : Queue). x.items) s.rest);
      })

  -- `playlist_stop` ends the playback and keeps the current song, so that it is played again.
  pub stop-Keeps :
      {p : Playlist} → IsReady p → Keeps p (stop g sort p) × ((stop g sort p).playing ≡ false)
  unfolding stop
  stop-Keeps {p} r =
      if_cases (λ s. Keeps p s × (s.playing ≡ false)) (not p.playing)
        (λ idle. (Keeps-refl r, ground (arith, idle)))
        (λ on.
          let (c, e) = r.started (ground (arith, on)) in
          let p' = record (call pc_stop p) { queued = none; playing = false } in
          let k = halted-Keeps r in
          if_cases (λ s. Keeps p s × (s.playing ≡ false)) (p'.queue.random)
            (λ mixed. (
              Keeps-trans k (shuffle_around_current-Keeps {p = p'} c k.ready e mixed),
              unfold shuffle_around_current follow in refl,
            ))
            (λ _. (k, refl)))

  set_queued-Keeps :
      {p : Playlist} (next : Option ℕ) (prev : Option Song)
      → IsReady p
      → ((o : ℕ) → next ≡ some o → o < p.queue.length)
      → Keeps p (set_queued g sort p next prev)
  unfolding set_queued queue_song_order
  set_queued-Keeps {p} none prev r h =
      if_cases (Keeps p) (is_some prev && not (same_song none prev))
        (λ _. requeued-Keeps none (pc_cancel ∷ p.calls) r h) (λ _. Keeps-refl r)
  set_queued-Keeps {p} (some o) prev r h =
      let changed = not (same_song (some (get_order p.queue o)) prev) in
      let cancelled = record (call pc_cancel p) { queued = none } in
      let p' = if is_some prev && changed then cancelled else p in
      if_cases (Keeps p) changed {x = queue_song_order p' o} {y = record p' { queued = some o }}
        (λ _.
          if_cases (λ x. Keeps p (queue_song_order x o)) (is_some prev && changed) {x = cancelled}
            {y = p} (λ _. requeued-Keeps (some o) _ r h) (λ _. requeued-Keeps (some o) _ r h))
        (λ _.
          if_cases (λ x. Keeps p (record x { queued = some o })) (is_some prev && changed)
            {x = cancelled} {y = p} (λ _. requeued-Keeps (some o) (pc_cancel ∷ p.calls) r h)
            (λ _. requeued-Keeps (some o) p.calls r h))

  -- `playlist_update_queued_song` keeps the invariant and the current song, and the song it queues is
  -- one of the queue.
  pub update_queued_song-Keeps :
      {p : Playlist} (prev : Option Song) → IsReady p → Keeps p (update_queued_song g sort p prev)
  unfolding update_queued_song
  update_queued_song-Keeps {p} prev r =
      let next : Option ℕ = elim p.current [ none ↦ some 0 | some o ↦ next_order p.queue o ] in
      if_cases (Keeps p) (not p.playing) (λ _. Keeps-refl r)
        (λ on.
          let (c, e) = r.started (ground (arith, on)) in
          let is_next : next ≡ next_order p.queue c = ground (arith, e) in
          let inside : (o : ℕ) → next ≡ some o → o < p.queue.length =
            λ o eo. next_order-lt c r.valid (r.current_in c e) (sym is_next ∙ eo) in
          if_cases (λ x. Keeps p (set_queued g sort x next prev))
            (is_order next 0 && p.queue.random && not p.queue.single)
            (λ again.
              let k = shuffle_around_current-Keeps {p = p} c r e (ground (arith, again)) in
              Keeps-trans k
                (set_queued-Keeps next prev k.ready (λ o eo. omega (arith, inside o eo, k.length))))
            (λ _. set_queued-Keeps next prev r inside))
