-- ===== src/Queue/Edit/Close.antt =====
-- The loops of `queue_delete` over the order.
use mpd_legacy.Common.{
  ℕ, ◌+◌, ◌-◌, ◌<◌, ◌≡◌, sym, ◌∙◌, none, ◌&&◌, arith, if◌then◌else◌, ltb, leb, update, for_up_count,
}
use mpd_legacy.Queue.{Queue, position_to_order, get}
use mpd_legacy.Queue.Inv.{IsValid, IsOrder}
use mpd_legacy.Queue.Walk.{position_to_order_lem}
use mpd_legacy.Queue.Edit.{pull_songs, pull_orders, lower_orders, song_free}

pub pull_orders_lem :
    (order : ℕ → ℕ) (i n o : ℕ)
    → pull_orders order i n o ≡ (if leb i o && ltb o (i + n) then order (o + 1) else order o)
unfolding pull_orders
pull_orders_lem order i n =
    for_up_count
      (λ k (a : ℕ → ℕ).
        (o : ℕ) → a o ≡ (if leb i o && ltb o (i + k) then order (o + 1) else order o))
      (λ k a. update a k (a (k + 1))) n i order (λ k t lt h o. ground (arith, h o, h (i + k + 1)))
      (λ o. ground arith)

lower_orders_lem :
    (order : ℕ → ℕ) (n position o : ℕ)
    → lower_orders order n position o
      ≡ (if ltb o n && ltb position (order o) then order o - 1 else order o)
unfolding lower_orders
lower_orders_lem order n position =
    for_up_count
      (λ k (a : ℕ → ℕ).
        (o : ℕ) → a o ≡ (if ltb o k && ltb position (order o) then order o - 1 else order o))
      (λ i a. if ltb position (a i) then update a i (a i - 1) else a) n 0 order
      (λ k t lt h o. ground (arith, h o, h (0 + k))) (λ o. ground arith)

-- Where an entry goes when the entry at `k` is taken out.
abbrev pub close_up : ℕ → ℕ → ℕ
close_up k p = if ltb k p then p - 1 else p

-- The order behind the removal of the entry at `r`.
abbrev pub deleted_order : (ℕ → ℕ) → ℕ → ℕ → ℕ → ℕ → ℕ
deleted_order order r n position = lower_orders (pull_orders order r (n - 1 - r)) (n - 1) position

module _ {q : Queue} (v : IsValid q) (position : ℕ) (h : position < q.length) where
  abbrev pub removed : ℕ
  removed = position_to_order q position

  abbrev pub rest : ℕ
  rest = q.length - 1

  pub order_at :
      (o : ℕ)
      → o < rest
      → deleted_order q.order removed q.length position o
        ≡ close_up position (if leb removed o then q.order (o + 1) else q.order o)
  order_at o lt = ground (
    arith,
    lower_orders_lem (pull_orders q.order removed (rest - removed)) rest position o,
    pull_orders_lem q.order removed (rest - removed) o,
    position_to_order_lem position v h,
  )

  -- No other entry of the order holds the position.
  pub unique : (o : ℕ) → o < q.length → q.order o ≡ position → o ≡ removed
  unique o lt e =
      let (in_order, at) = position_to_order_lem position v h in
      v.ordered.1 o removed lt in_order (e ∙ sym at)

  pub order-IsOrder : IsOrder rest (deleted_order q.order removed q.length position)
  order-IsOrder = (
    λ o lt.
        ground (arith, order_at o lt, v.ordered.0 o, v.ordered.0 (o + 1), unique o, unique (o + 1)),
    λ o o' lt lt' e. ground (
      arith,
      order_at o lt,
      order_at o' lt',
      unique o,
      unique (o + 1),
      unique o',
      unique (o' + 1),
      v.ordered.1 o o',
      v.ordered.1 (o + 1) o',
      v.ordered.1 o (o' + 1),
      v.ordered.1 (o + 1) (o' + 1),
    ),
  )

-- The queue when the song has been released, before the others close up.
unfoldable pub released : Queue → ℕ → Queue
unfolding get
released q position = record q {
  length = q.length - 1;
  id_to_position = update q.id_to_position (q.items position).id none;
  freed = song_free q.freed (get q position);
}

unfoldable pub closed : Queue → ℕ → Queue
closed q position = pull_songs (released q position) position (q.length - 1 - position)
