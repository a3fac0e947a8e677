-- ===== src/Channels/Inv.antt =====
-- Subscriptions and messages stay within their limits: src/client_subscribe.c.
use Prim.Native.Nat.{Ordering}
use mpd_legacy.Common.{
  ℕ, ◌+◌, ◌≤◌, ◌≡◌, ◌≢◌, refl, ap, All, Bool, true, false, ◌||◌, not, List, [], ◌∷◌, arith, leb,
  if_cases, length, Bool-cases, inl, inr,
}
use mpd_legacy.Command.{strcmp, is_text}
use mpd_legacy.Channels.{
  client_max_subscriptions, client_max_messages, Message, Client, find_subscription,
  remove_subscription, client_unsubscribe, client_unsubscribe_all, client_push_message,
  client_read_messages, valid_channel_name, client_subscribe, Step, subscribes, unsubscribes,
  unsubscribes_all, is_sent, reads, Steps, no_step, then_step,
}

-- No channel twice.
abbrev pub IsDistinct : List (List ℕ) → Type 0
IsDistinct [] = Unit
IsDistinct (s ∷ ss) = All (λ t. t ≢ s) ss × IsDistinct ss

-- The counters are right and within the limits, and no channel is there twice.
pub record IsValid (c : Client) : Type 0 where
  pub counted : c.num_subscriptions ≡ length c.subscriptions
  pub limited : c.num_subscriptions ≤ client_max_subscriptions
  pub distinct : IsDistinct c.subscriptions
  pub messages_counted : c.num_messages ≡ length c.messages
  pub messages_limited : c.num_messages ≤ client_max_messages

strcmp_refl : (s : List ℕ) → strcmp s s ≡ Ordering.eq
unfolding strcmp
strcmp_refl [] = refl
strcmp_refl (x ∷ s) = ground (arith, strcmp_refl s)

is_text_refl : (s : List ℕ) → is_text s s ≡ true
unfolding is_text
is_text_refl s = rw (strcmp_refl s, is_text) refl

neither : (a b : Bool) → (a || b) ≡ false → (a ≡ false) × (b ≡ false)
neither true b e = absurd (ground (arith, e))
neither false b e = (refl, e)

-- A channel that is not found is none of those there.
find-others :
    (ss : List (List ℕ)) (s : List ℕ) → find_subscription ss s ≡ false → All (λ t. t ≢ s) ss
unfolding find_subscription
find-others [] s h = tt
find-others (t ∷ ss) s h =
    let (other, others) = neither (is_text t s) (find_subscription ss s) h in
    (
      λ e. absurd (ground (arith, other, ap (λ u. is_text u s) e, is_text_refl s)),
      find-others ss s others,
    )

remove-others :
    (ss : List (List ℕ)) (s channel : List ℕ)
    → All (λ t. t ≢ s) ss
    → All (λ t. t ≢ s) (remove_subscription ss channel)
unfolding remove_subscription
remove-others [] s channel h = tt
remove-others (t ∷ ss) s channel (other, h) =
    if_cases (All (λ t. t ≢ s)) (is_text t channel) (λ e. h)
      (λ e. (other, remove-others ss s channel h))

remove-IsDistinct :
    (ss : List (List ℕ)) (channel : List ℕ)
    → IsDistinct ss
    → IsDistinct (remove_subscription ss channel)
unfolding remove_subscription
remove-IsDistinct [] channel h = tt
remove-IsDistinct (s ∷ ss) channel (new, h) =
    if_cases IsDistinct (is_text s channel) (λ e. h)
      (λ e. (remove-others ss s channel new, remove-IsDistinct ss channel h))

length-remove :
    (ss : List (List ℕ)) (channel : List ℕ)
    → find_subscription ss channel ≡ true
    → length ss ≡ length (remove_subscription ss channel) + 1
unfolding find_subscription remove_subscription
length-remove [] channel h = absurd (ground (arith, h))
length-remove (s ∷ ss) channel h = ground (arith, h, length-remove ss channel)

leb→lt : (a b : ℕ) → leb a b ≡ false → b + 1 ≤ a
leb→lt a b e = ground arith

or→lt : (a b : ℕ) (other : Bool) → (leb a b || other) ≡ false → b + 1 ≤ a
or→lt a b other e = elim (Bool-cases (leb a b)) [
  | inl at ↦ absurd (ground (arith, at, e))
  | inr at ↦ leb→lt a b at
]

-- What an operation leaves, beside its answer, is valid.
abbrev Kept {ℓ} : {A : Type ℓ} → A × Client → Type 0
Kept r = IsValid r.1

module _ (g_ascii_isalnum : ℕ → Bool) {c : Client} (v : IsValid c) where
  subscribe-IsValid : (channel : List ℕ) → IsValid (client_subscribe g_ascii_isalnum c channel).1
  unfolding client_subscribe
  subscribe-IsValid channel =
      if_cases Kept (not (valid_channel_name g_ascii_isalnum channel)) (λ e. v)
        (λ e.
          if_cases Kept (find_subscription c.subscriptions channel) (λ e. v)
            (λ new.
              if_cases Kept (leb client_max_subscriptions c.num_subscriptions) (λ e. v)
                (λ e. record {
                  counted = omega (arith, v.counted);
                  limited = leb→lt client_max_subscriptions c.num_subscriptions e;
                  distinct = (find-others c.subscriptions channel new, v.distinct);
                  messages_counted = v.messages_counted;
                  messages_limited = v.messages_limited;
                })))

  unsubscribe-IsValid : (channel : List ℕ) → IsValid (client_unsubscribe c channel).1
  unfolding client_unsubscribe
  unsubscribe-IsValid channel =
      if_cases Kept (find_subscription c.subscriptions channel)
        (λ e. record {
          counted = omega (arith, v.counted, length-remove c.subscriptions channel e);
          limited = omega (arith, v.limited);
          distinct = remove-IsDistinct c.subscriptions channel v.distinct;
          messages_counted = v.messages_counted;
          messages_limited = v.messages_limited;
        })
        (λ e. v)

  push_message-IsValid : (msg : Message) → IsValid (client_push_message c msg).1
  unfolding client_push_message
  push_message-IsValid msg =
      if_cases Kept
        (leb client_max_messages c.num_messages
          || not (find_subscription c.subscriptions msg.channel))
        (λ e. v)
        (λ e. record {
          counted = v.counted;
          limited = v.limited;
          distinct = v.distinct;
          messages_counted = omega (arith, v.messages_counted);
          messages_limited = or→lt client_max_messages c.num_messages _ e;
        })

  read_messages-IsValid : IsValid (client_read_messages c).1
  unfolding client_read_messages
  read_messages-IsValid = record {
    counted = v.counted;
    limited = v.limited;
    distinct = v.distinct;
    messages_counted = refl;
    messages_limited = omega arith;
  }

  unsubscribe_all-IsValid : IsValid (client_unsubscribe_all c)
  unfolding client_unsubscribe_all
  unsubscribe_all-IsValid = record {
    counted = refl;
    limited = omega arith;
    distinct = tt;
    messages_counted = v.messages_counted;
    messages_limited = v.messages_limited;
  }

module _ (g_ascii_isalnum : ℕ → Bool) where
  Step-IsValid : {b c : Client} → IsValid b → Step g_ascii_isalnum b c → IsValid c
  Step-IsValid v (subscribes b channel) = subscribe-IsValid g_ascii_isalnum v channel
  Step-IsValid v (unsubscribes b channel) = unsubscribe-IsValid g_ascii_isalnum v channel
  Step-IsValid v (unsubscribes_all b) = unsubscribe_all-IsValid g_ascii_isalnum v
  Step-IsValid v (is_sent b msg) = push_message-IsValid g_ascii_isalnum v msg
  Step-IsValid v (reads b) = read_messages-IsValid g_ascii_isalnum v

  -- Whatever is subscribed to, left, sent and read in whatever sequence, the counters of a client stay
  -- right, there are at most 16 subscriptions and 64 messages, and no channel is there twice, if it
  -- was so at the start.
  pub Steps-IsValid : {a c : Client} → IsValid a → Steps g_ascii_isalnum a c → IsValid c
  Steps-IsValid v (no_step c) = v
  Steps-IsValid v (then_step steps step) = Step-IsValid (Steps-IsValid v steps) step
