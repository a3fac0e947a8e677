-- ===== src/Queue/Random/Place.antt =====
-- Where `queue_set_priority` finds the place of a song, and `queue_move_order`.
use mpd_legacy.Common.{
  ℕ, zero, suc, ◌+◌, ◌-◌, ◌≤◌, ◌<◌, ◌≡◌, ◌≢◌, refl, inl, inr, ◌&&◌, not, arith, if◌then◌else◌, ltb,
  leb, ◌==◌, update, for_down_inv, Bool-cases,
}
use mpd_legacy.Queue.{Queue}
use mpd_legacy.Queue.Edit.Close.{pull_orders_lem}
use mpd_legacy.Queue.Random.{
  get_order_priority, find_priority_from, other_priority_from, push_orders, move_order,
}
use mpd_legacy.Queue.Random.Shuffled.{Shuffled}

push_orders_lem :
    (order : ℕ → ℕ) (i n o : ℕ)
    → push_orders order i n o ≡ (if ltb i o && leb o (i + n) then order (o - 1) else order o)
unfolding push_orders
push_orders_lem order i n o = ground (
  arith,
  for_down_inv
      (λ k (a : ℕ → ℕ).
        (o : ℕ) → a o ≡ (if ltb (i + k) o && leb o (i + n) then order (o - 1) else order o))
      (λ k a. update a k (a (k - 1))) n (suc i) order
      (λ k t lt h o. ground (arith, h o, h (suc i + k - 1))) (λ o. ground arith) o,
)

-- Which entry comes to `i` when the one at `r` moves to `t`.
abbrev pub moved_from : ℕ → ℕ → ℕ → ℕ
moved_from r t i =
    if i == t
    then r
    else if leb r i && ltb i t
    then i + 1
    else if ltb t i && leb i r
    then i - 1
    else i

pub move_order_lem :
    (q : Queue) (r t i : ℕ) → (move_order q r t).order i ≡ q.order (moved_from r t i)
unfolding move_order
move_order_lem q r t i =
    ground (arith, pull_orders_lem q.order r (t - r) i, push_orders_lem q.order t (r - t) i)

pub move_order-Shuffled :
    (q : Queue) (r t lo hi : ℕ)
    → lo ≤ r
    → lo ≤ t
    → r < hi
    → t < hi
    → Shuffled lo hi q (move_order q r t)
move_order-Shuffled q r t lo hi lr lt hr ht = record {
  rest = unfold move_order in refl;
  order = record {
    from = moved_from r t;
    inside = λ i l u. ground arith;
    outside = λ i o. ground arith;
    distinct = λ i j e. ground arith;
    same = move_order_lem q r t;
  };
}

-- The search for the place: everything before it, but the song itself, has a higher priority.
pub record Place (q : Queue) (start end c r b : ℕ) : Type 0 where
  pub lo : start ≤ b
  pub hi : b ≤ end
  pub higher : (o : ℕ) → start ≤ o → o < b → o ≢ r → c < get_order_priority q o
  pub lower : b < end → (get_order_priority q b ≤ c) × (b ≢ r)

pub find_priority-Place :
    (n start end : ℕ) (q : Queue) (c r : ℕ)
    → start + n ≡ end
    → Place q start end c r (find_priority_from n start q c r)
unfolding find_priority_from get_order_priority
find_priority-Place zero start end q c r e = record {
  lo = omega arith;
  hi = omega arith;
  higher = λ o l u ne. absurd (omega arith);
  lower = λ h. absurd (omega arith);
}
find_priority-Place (suc n) start end q c r e =
    let rest = find_priority-Place n (suc start) end q c r (omega arith) in
    elim (Bool-cases (leb (q.items (q.order start)).priority c && not (start == r))) [
      | inl here ↦
          rw (here, find_priority_from)
            (record {
              lo = omega arith;
              hi = omega arith;
              higher = λ o l u ne. absurd (omega arith);
              lower = λ h. ground arith;
            })
      | inr on ↦
          rw (on, find_priority_from)
            (record {
              lo = omega (arith, rest.lo);
              hi = rest.hi;
              higher = λ o l u ne. ground (arith, rest.higher o);
              lower = rest.lower;
            })
    ]

-- The group of one priority from an order number on.
pub other_priority_lem :
    (n start : ℕ) (q : Queue) (c : ℕ)
    → let b = other_priority_from n start q c in
      (start ≤ b)
      × (b ≤ start + n)
      × ((o : ℕ) → start ≤ o → o < b → get_order_priority q o ≡ c)
      × (0 < n → get_order_priority q start ≡ c → start < b)
unfolding other_priority_from get_order_priority
other_priority_lem zero start q c =
    (omega arith, omega arith, λ o l u. absurd (omega arith), λ h e. absurd (omega arith))
other_priority_lem (suc n) start q c =
    let (l, u, all, more) = other_priority_lem n (suc start) q c in
    elim (Bool-cases ((q.items (q.order start)).priority == c)) [
      | inl same ↦
          rw (same, other_priority_from)
            (omega arith, omega arith, λ o lo hi. ground (arith, all o), λ h e. omega arith)
      | inr other ↦
          rw (other, other_priority_from)
            (
              omega arith,
              omega arith,
              λ o lo hi. absurd (omega arith),
              λ h e. absurd (ground arith),
            )
    ]

-- Where the song goes.
