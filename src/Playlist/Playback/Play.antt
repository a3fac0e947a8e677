-- ===== src/Playlist/Playback/Play.antt =====
-- `playlist_play` of src/playlist_control.c with a position.
use mpd_legacy.Common.{
  ℕ, ◌<◌, ◌≡◌, refl, ap, ◌∙◌, some, true, false, not, arith, if◌then◌else◌, if_cases, List, ◌∷◌,
}
use mpd_legacy.Queue.{Queue, Song, get, get_order, order_to_position, swap_order, valid_position}
use mpd_legacy.Queue.Walk.{position_to_order_lem}
use mpd_legacy.Queue.Edit.Swap.{swap_order-IsValid}
use mpd_legacy.Playlist.{
  Playlist, PlaylistResult, success, Call, pc_play, pc_clear_error, call, play_order, to_unsigned,
}
use mpd_legacy.Playlist.Ready.{IsReady, current_song}
use mpd_legacy.Playlist.Playback.{play, play_at, play_target}

-- `p'` is in order and plays a song, and the player has been told so after `calls`.
pub record Plays (s : Song) (calls : List Call) (p' : Playlist) : Type 0 where
  pub ready : IsReady p'
  pub playing : p'.playing ≡ true
  pub song : current_song p' ≡ some s
  pub told : p'.calls ≡ pc_play s ∷ calls

play_order-Plays :
    {p : Playlist} (o : ℕ) (song : Song)
    → IsReady p
    → o < p.queue.length
    → get_order p.queue o ≡ song
    → Plays song p.calls (play_order p o)
unfolding play_order
play_order-Plays {p} o song r h e = record {
  ready = record {
    valid = r.valid;
    current_in = λ c at. ground (arith, at, h);
    queued_in = λ k at. absurd (ground (arith, at));
    straight = r.straight;
    started = λ _. (o, refl);
  };
  playing = refl;
  song = ap some e;
  told = ap (λ s. pc_play s ∷ p.calls) e;
}

swapped_at : (q : Queue) (a b : ℕ) → (swap_order q a b).order b ≡ q.order a
unfolding swap_order
swapped_at q a b = ground arith

-- The playlist without its errors.
fresh-IsReady :
    {p : Playlist}
    → IsReady p
    → IsReady (record (call pc_clear_error p) { stop_on_error = false; error_count = 0 })
fresh-IsReady r = record {
  valid = r.valid;
  current_in = r.current_in;
  queued_in = r.queued_in;
  straight = r.straight;
  started = r.started;
}

-- The order number that takes the song in random mode.
target_in :
    {p : Playlist}
    → IsReady p
    → 0 < p.queue.length
    → (if p.playing then to_unsigned p.current else 0) < p.queue.length
target_in {p} r h =
    if_cases (λ c. c < p.queue.length) p.playing
      (λ on. let (c, e) = r.started on in ground (arith, e, r.current_in c e)) (λ _. h)

swapped-IsReady :
    {p : Playlist} (a b : ℕ)
    → IsReady p
    → p.queue.random ≡ true
    → a < p.queue.length
    → b < p.queue.length
    → IsReady (record p { queue = swap_order p.queue a b })
swapped-IsReady a b r on ha hb = record {
  valid = swap_order-IsValid a b r.valid ha hb;
  current_in = unfold swap_order in r.current_in;
  queued_in = unfold swap_order in r.queued_in;
  straight = unfold swap_order in λ off. absurd (ground (arith, on, off));
  started = r.started;
}

play_at-Plays :
    {p : Playlist} (o : ℕ) (song : Song)
    → IsReady p
    → o < p.queue.length
    → get_order p.queue o ≡ song
    → Plays song (pc_clear_error ∷ p.calls) (play_at (call pc_clear_error p) o)
unfolding play_at get_order order_to_position swap_order
play_at-Plays {p} o song r h e =
    let fresh = record (call pc_clear_error p) { stop_on_error = false; error_count = 0 } in
    let ready = fresh-IsReady r in
    let c = if p.playing then to_unsigned p.current else 0 in
    let hc : c < p.queue.length = target_in r (omega arith) in
    if_cases (Plays song (pc_clear_error ∷ p.calls)) (p.queue.random)
      {x = play_order (record fresh { queue = swap_order p.queue o c }) c} {y = play_order fresh o}
      (λ on.
        play_order-Plays c song (swapped-IsReady o c ready on h hc) hc
          (ap (get p.queue) (swapped_at p.queue o c) ∙ e))
      (λ _. play_order-Plays o song ready h e)

play_target_lem :
    {p : Playlist} (song : ℕ)
    → IsReady p
    → song < p.queue.length
    → let o = play_target p (some song) in
      (o < p.queue.length) × (get_order p.queue o ≡ get p.queue song)
unfolding play_target get_order order_to_position
play_target_lem {p} song r h =
    if_cases (λ o. (o < p.queue.length) × (get_order p.queue o ≡ get p.queue song)) (p.queue.random)
      (λ _. let (lt, e) = position_to_order_lem song r.valid h in (lt, ap (get p.queue) e))
      (λ off. (h, ap (get p.queue) (r.straight off song h)))

-- `playlist_play` with a position of the queue succeeds, keeps the invariant, and plays the song at
-- that position, after the error of the player has been cleared.
pub play_lem :
    {p : Playlist} (song : ℕ)
    → IsReady p
    → song < p.queue.length
    → let (r, p') = play p (some song) in
      (r ≡ success) × Plays (get p.queue song) (pc_clear_error ∷ p.calls) p'
unfolding play valid_position
play_lem {p} song r h =
    let (ho, e) = play_target_lem song r h in
    if_cases
      (λ (s : PlaylistResult × Playlist).
        (s.0 ≡ success) × Plays (get p.queue song) (pc_clear_error ∷ p.calls) s.1)
      (not (valid_position p.queue song)) (λ bad. absurd (ground (arith, bad)))
      (λ _. (refl, unfold play_target in play_at-Plays _ _ r ho e))
