-- ===== src/Queue/Edit/Shift.antt =====
-- The loops of `queue_move_song_to` that shift a block of songs by `d` places.
use mpd_legacy.Common.{
  ℕ, suc, ◌+◌, ◌-◌, ◌≤◌, ◌<◌, ◌≡◌, refl, ap, Option, none, some, ◌&&◌, arith, if◌then◌else◌, ltb,
  leb, for_up, for_down, for_down_inv, for_up_count,
}
use mpd_legacy.Queue.{Queue, QueueItem}
use mpd_legacy.Queue.Edit.{move_song_to}

-- `s` differs from `q` in the items and in the table of ids alone.
abbrev pub SameRest : Queue → Queue → Type 0
SameRest q s = s ≡ record q { items = s.items; id_to_position = s.id_to_position }

pub SameRest-set :
    (q : Queue) {s : Queue} (items : ℕ → QueueItem) (ids : ℕ → Option ℕ)
    → SameRest q s
    → SameRest q (record s { items = items; id_to_position = ids })
SameRest-set q items ids e = ap (λ (x : Queue). record x { items = items; id_to_position = ids }) e

abbrev pub redated : QueueItem → ℕ → QueueItem
redated item v = record item { version = v }

-- The table of ids agrees with the items, for the positions from `lo` up to `hi`.
pub record Knows (q : Queue) (space lo hi : ℕ) : Type 0 where
  pub known : (p : ℕ) → lo ≤ p → p < hi → q.id_to_position (q.items p).id ≡ some p
  pub held :
      (i p : ℕ) → i < space → lo ≤ p → p < hi → q.id_to_position i ≡ some p → (q.items p).id ≡ i

abbrev pub relocate : (ℕ → ℕ) → Option ℕ → Option ℕ
relocate f none = none
relocate f (some p) = some (f p)

-- What the songs at `base + d` up to `base + d + n`, moved down by `d`, leave in the two arrays.
abbrev pub down_by : ℕ → ℕ → ℕ → ℕ → ℕ
down_by d base n p = if leb (base + d) p && ltb p (base + d + n) then p - d else p

pub record ShiftedDown (q : Queue) (space d base n : ℕ) (s : Queue) : Type 0 where
  pub rest : SameRest q s
  pub items :
      (p : ℕ)
      → s.items p ≡ (
          if leb base p && ltb p (base + n) then redated (q.items (p + d)) q.version else q.items p)
  pub ids :
      (i : ℕ) → i < space → s.id_to_position i ≡ relocate (down_by d base n) (q.id_to_position i)

module _ (q : Queue) (space d base : ℕ) where
  ShiftedDown-start : ShiftedDown q space d base 0 q
  ShiftedDown-start = record { rest = refl; items = λ p. ground arith; ids = λ i h. ground arith }

  ShiftedDown-step :
      (n : ℕ) (s : Queue)
      → Knows q space (base + d) (base + d + suc n)
      → 0 < d
      → ShiftedDown q space d base n s
      → ShiftedDown q space d base (suc n) (move_song_to s (base + n + d) (base + n))
  unfolding move_song_to
  ShiftedDown-step n s k pos h = record {
    rest = SameRest-set q _ _ h.rest;
    items = λ p. ground (
      arith,
      h.items p,
      h.items (base + n),
      h.items (base + n + d),
      ap (λ (x : Queue). x.version) h.rest,
    );
    ids = λ i lt. ground (
      arith,
      h.items (base + n + d),
      h.ids i lt,
      k.known (base + n + d),
      k.held i (base + n + d) lt,
    );
  }

  -- A loop whose rounds move `base + d + k` to `base + k` for k = 0, 1, … shifts the block down.
  pub shift_down :
      (n i : ℕ) (from to : ℕ → ℕ)
      → Knows q space (base + d) (base + d + n)
      → 0 < d
      → ((k : ℕ) → k < n → (from (i + k) ≡ base + k + d) × (to (i + k) ≡ base + k))
      → ShiftedDown q space d base n (for_up n i (λ k s. move_song_to s (from k) (to k)) q)
  shift_down n i from to knows pos at =
      for_up_count (ShiftedDown q space d base) (λ k s. move_song_to s (from k) (to k)) n i q
        (λ k t lt h. rw (at k lt).0 (
          rw (at k lt).1 (
            ShiftedDown-step k t
              (record {
                known = λ p l u. knows.known p l (omega arith);
                held = λ x p hx l u. knows.held x p hx l (omega arith);
              })
              pos h)))
        ShiftedDown-start

-- What the songs at `base` up to `base + n`, moved up by `d`, leave, while `k` of them are left.
abbrev pub up_by : ℕ → ℕ → ℕ → ℕ → ℕ
up_by d lo hi p = if leb lo p && ltb p hi then p + d else p

pub record ShiftedUp (q : Queue) (space d lo hi : ℕ) (s : Queue) : Type 0 where
  pub rest : SameRest q s
  pub items :
      (p : ℕ)
      → s.items p ≡ (
          if leb (lo + d) p && ltb p (hi + d)
          then redated (q.items (p - d)) q.version
          else q.items p)
  pub ids : (i : ℕ) → i < space → s.id_to_position i ≡ relocate (up_by d lo hi) (q.id_to_position i)

module _ (q : Queue) (space d base n : ℕ) where
  ShiftedUp-start : ShiftedUp q space d (base + n) (base + n) q
  ShiftedUp-start = record { rest = refl; items = λ p. ground arith; ids = λ i h. ground arith }

  ShiftedUp-step :
      (k : ℕ) (s : Queue)
      → Knows q space base (base + n)
      → 0 < d
      → k < n
      → ShiftedUp q space d (base + suc k) (base + n) s
      → ShiftedUp q space d (base + k) (base + n) (move_song_to s (base + k) (base + k + d))
  unfolding move_song_to
  ShiftedUp-step k s knows pos lt h = record {
    rest = SameRest-set q _ _ h.rest;
    items = λ p. ground (
      arith,
      h.items p,
      h.items (base + k),
      h.items (base + k + d),
      ap (λ (x : Queue). x.version) h.rest,
    );
    ids = λ i hi.
        ground (
          arith,
          h.items (base + k),
          h.ids i hi,
          knows.known (base + k),
          knows.held i (base + k) hi,
        );
  }

  -- A loop whose rounds move `base + k` to `base + k + d` for k = n - 1, …, 0 shifts the block up.
  pub shift_up :
      (i : ℕ) (from to : ℕ → ℕ)
      → Knows q space base (base + n)
      → 0 < d
      → ((k : ℕ) → k < n → (from (i + k) ≡ base + k) × (to (i + k) ≡ base + k + d))
      → ShiftedUp q space d
          (base + 0)
          (base + n)
          (for_down n i (λ k s. move_song_to s (from k) (to k)) q)
  shift_up i from to knows pos at =
      for_down_inv (λ k. ShiftedUp q space d (base + k) (base + n))
        (λ k s. move_song_to s (from k) (to k)) n i q
        (λ k t lt h. rw (at k lt).0 (rw (at k lt).1 (ShiftedUp-step k t knows pos lt h)))
        ShiftedUp-start
