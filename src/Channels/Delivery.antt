-- ===== src/Channels/Delivery.antt =====
-- Messages arrive in the sequence in which they were sent: src/client_subscribe.c.
use mpd_legacy.Common.{
  ℕ, zero, suc, ◌+◌, ◌-◌, ◌≤◌, ◌≡◌, refl, ap, sym, ◌∙◌, Bool, true, false, ◌||◌, not, List, [], ◌∷◌,
  ◌++◌, arith, leb, take, if◌then◌else◌, Bool-cases, inl, inr,
}
use mpd_legacy.Channels.{
  client_max_messages, Message, Client, find_subscription, client_push_message, reverse_onto,
  client_read_messages, no_messages, idle_message,
}
use mpd_legacy.Channels.Inv.{IsValid}

abbrev pub push_all : Client → List Message → Client
push_all c [] = c
push_all c (m ∷ ms) = push_all (client_push_message c m).1 ms

-- The messages to channels that are subscribed to.
abbrev pub delivered : List (List ℕ) → List Message → List Message
delivered ss [] = []
delivered ss (m ∷ ms) =
    if find_subscription ss m.channel then m ∷ delivered ss ms else delivered ss ms

reverse_onto-append :
    (ms done rest : List Message) → reverse_onto ms (done ++ rest) ≡ reverse_onto ms done ++ rest
unfolding reverse_onto
reverse_onto-append [] done rest = refl
reverse_onto-append (m ∷ ms) done rest = reverse_onto-append ms (m ∷ done) rest

take_none : (n : ℕ) → take {A = Message} n [] ≡ []
take_none zero = refl
take_none (suc n) = refl

-- What a message that is accepted leaves.
abbrev pub with_message : Client → Message → Client
with_message c m = record c {
  messages = m ∷ c.messages;
  num_messages = c.num_messages + 1;
  events = if no_messages c.messages then c.events ++ idle_message ∷ [] else c.events;
}

push_parts :
    (c : Client) (m : Message) (is_full here : Bool)
    → leb client_max_messages c.num_messages ≡ is_full
    → find_subscription c.subscriptions m.channel ≡ here
    → (client_push_message c m).1 ≡ (if is_full || not here then c else with_message c m)
unfolding client_push_message
push_parts c m true here e f = rw e refl
push_parts c m false true e f = rw (e, f) refl
push_parts c m false false e f = rw (e, f) refl

pushed :
    (c : Client) (ms : List Message)
    → c.num_messages ≤ client_max_messages
    → reverse_onto (push_all c ms).messages []
      ≡ reverse_onto c.messages
          (take (client_max_messages - c.num_messages) (delivered c.subscriptions ms))
unfolding reverse_onto
pushed c [] h =
    ap (reverse_onto c.messages) (sym (take_none (client_max_messages - c.num_messages)))
pushed c (m ∷ ms) h =
    let read : Client → List Message = λ c'. reverse_onto (push_all c' ms).messages [] in
    elim (Bool-cases (find_subscription c.subscriptions m.channel)) [
      | inl here ↦ elim (Bool-cases (leb client_max_messages c.num_messages)) [
        | inl at ↦
            let no_room : client_max_messages - c.num_messages ≡ 0 = ground (arith, at, h) in
            ap read (push_parts c m true true at here) ∙ pushed c ms h ∙ rw (here, no_room) refl
        | inr below ↦
            let room : client_max_messages - c.num_messages
                ≡ suc (client_max_messages - (c.num_messages + 1)) =
              ground (arith, below) in
            let less : c.num_messages + 1 ≤ client_max_messages = ground (arith, below) in
            ap read (push_parts c m false true below here)
            ∙ pushed (with_message c m) ms less
            ∙ rw (here, room) refl
      ]
      | inr gone ↦ elim (Bool-cases (leb client_max_messages c.num_messages)) [
        | inl at ↦ ap read (push_parts c m true false at gone) ∙ pushed c ms h ∙ rw gone refl
        | inr below ↦ ap read (push_parts c m false false below gone) ∙ pushed c ms h ∙ rw gone refl
      ]
    ]

-- After messages have been sent to a valid client, it reads those that waited before and then, in the
-- sequence in which they were sent, the first of those to channels that it has subscribed to, as
-- many as there was room for; then no message is left.
pub read_messages_lem :
    (c : Client) (ms : List Message)
    → IsValid c
    → ((client_read_messages (push_all c ms)).0
        ≡ (client_read_messages c).0
          ++ take (client_max_messages - c.num_messages) (delivered c.subscriptions ms))
      × ((client_read_messages (client_read_messages (push_all c ms)).1).0 ≡ [])
unfolding client_read_messages reverse_onto
read_messages_lem c ms v = (
  pushed c ms v.messages_limited
      ∙ reverse_onto-append c.messages []
          (take (client_max_messages - c.num_messages) (delivered c.subscriptions ms)),
  refl,
)
