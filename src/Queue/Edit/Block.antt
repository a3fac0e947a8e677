-- ===== src/Queue/Edit/Block.antt =====
-- The arithmetic and the loops of `queue_move_range`.
use mpd_legacy.Common.{
  ℕ, suc, ◌+◌, ◌-◌, ◌*◌, ◌≤◌, ◌<◌, ◌≡◌, refl, ap, ◌⊎◌, none, some, Bool, true, false, ◌&&◌, arith,
  if◌then◌else◌, ltb, leb, for_up, for_up_count, for_down, add32, sub32,
}
use mpd_legacy.Queue.{Queue, queue_hash_mult}
use mpd_legacy.Queue.Inv.{IsValid}
use mpd_legacy.Queue.Edit.{move_song_to, put_item, moved_range_position}
use mpd_legacy.Queue.Edit.Shift.{SameRest, SameRest-set, redated, Knows}

-- What putting the saved items back changes, `k` of them done.
pub record Put (q s0 : Queue) (start to k : ℕ) (s : Queue) : Type 0 where
  pub rest : SameRest q s
  pub items :
      (p : ℕ)
      → s.items p ≡ (
          if leb to p && ltb p (to + k)
          then redated (q.items (start + (p - to))) q.version
          else s0.items p)
  pub inside :
      (i p : ℕ)
      → i < q.max_length * queue_hash_mult
      → q.id_to_position i ≡ some p
      → start ≤ p
      → p < start + k
      → s.id_to_position i ≡ some (to + (p - start))
  pub outside :
      (i : ℕ)
      → i < q.max_length * queue_hash_mult
      → ((p : ℕ) → q.id_to_position i ≡ some p → (p < start) ⊎ (start + k ≤ p))
      → s.id_to_position i ≡ s0.id_to_position i

pub if_order :
    (b : Bool) (q : Queue) (f : ℕ → ℕ)
    → (if b then record q { order = f } else q) ≡ record q { order = if b then f else q.order }
if_order true q f = refl
if_order false q f = refl

module _ (q s0 : Queue) (v : IsValid q) (start to n : ℕ) (hn : start + n ≤ q.length) where
  Put-step :
      (k : ℕ) (s : Queue)
      → k < n
      → Put q s0 start to k s
      → Put q s0 start to (suc k) (put_item s (q.items (start + k)) (to + k))
  unfolding put_item
  Put-step k s lt h = record {
    rest = SameRest-set q _ _ h.rest;
    items = λ p. ground (arith, h.items p, ap (λ (x : Queue). x.version) h.rest);
    inside = λ i p hi e lo up.
        ground (arith, h.inside i p hi e lo, v.ids.known (start + k), v.ids.held i p hi e);
    outside = λ i hi out. ground (
      arith,
      h.outside i hi (λ p e. ground (arith, out p e)),
      v.ids.known (start + k),
      out (start + k),
    );
  }

  pub Put-loop :
      (to_of : ℕ → ℕ)
      → SameRest q s0
      → ((k : ℕ) → k < n → to_of (start + k) ≡ to + k)
      → Put q s0 start to n (for_up n start (λ i s. put_item s (q.items i) (to_of i)) s0)
  Put-loop to_of same at =
      for_up_count (Put q s0 start to) (λ i s. put_item s (q.items i) (to_of i)) n start s0
        (λ k t lt h. rw (at k lt) (Put-step k t lt h))
        (record {
          rest = same;
          items = λ p. ground arith;
          inside = λ i p hi e lo up. absurd (omega arith);
          outside = λ i hi out. refl;
        })

-- Where the songs go when the block [start, end) moves to `to`: those between make room.
abbrev pub block_move : ℕ → ℕ → ℕ → ℕ → ℕ
block_move start end to p =
    if leb start p && ltb p end
    then to + (p - start)
    else if leb end p && ltb p (to + (end - start))
    then p - (end - start)
    else if leb to p && ltb p start
    then p + (end - start)
    else p

-- The block moved back.
pub block_move_back :
    (start end to p : ℕ)
    → start < end
    → block_move to (to + (end - start)) start (block_move start end to p) ≡ p
block_move_back start end to p h = ground arith

abbrev pub space : Queue → ℕ
space q = q.max_length * queue_hash_mult

pub knows : {q : Queue} (lo hi : ℕ) → IsValid q → hi ≤ q.length → Knows q (space q) lo hi
knows lo hi v h = record {
  known = λ p l u. v.ids.known p (omega arith);
  held = λ i p hi l u e. (v.ids.held i p hi e).1;
}

-- The block [start, end) fits at `to`.
pub record BlockFits (q : Queue) (start end to : ℕ) : Type 0 where
  pub not_empty : start < end
  pub inside : end ≤ q.length
  pub fits : to + (end - start) ≤ q.length

-- What the songs outside the block have when the two loops that shift them are done.
pub record Middle (q : Queue) (start end to : ℕ) (s : Queue) : Type 0 where
  pub rest : SameRest q s
  pub items :
      (p : ℕ)
      → p < q.length
      → (p < start) ⊎ (end ≤ p)
      → (s.items (moved_range_position start end to p) ≡ q.items p)
        ⊎ (s.items (moved_range_position start end to p) ≡ redated (q.items p) q.version)
  pub ids :
      (i p : ℕ)
      → i < space q
      → q.id_to_position i ≡ some p
      → (p < start) ⊎ (end ≤ p)
      → s.id_to_position i ≡ some (moved_range_position start end to p)
  pub free : (i : ℕ) → i < space q → q.id_to_position i ≡ none → s.id_to_position i ≡ none

unfoldable pub shift_others : Queue → ℕ → ℕ → ℕ → Queue
unfolding for_up for_down
shift_others q start end to =
    let q1 =
      for_up (sub32 (add32 end to) start - end) end
        (λ i s. move_song_to s i (sub32 (add32 start i) end)) q in
    for_down (start - to) to (λ i s. move_song_to s i (sub32 (add32 i end) start)) q1
