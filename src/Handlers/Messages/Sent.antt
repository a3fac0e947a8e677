-- ===== src/Handlers/Messages/Sent.antt =====
-- Which clients get a message that is sent to a channel, by src/command.c.
use mpd_legacy.Common.{
  ℕ, ◌≡◌, refl, ap, ◌∙◌, Bool, true, false, ◌&&◌, ◌||◌, List, [], ◌∷◌, map, ltb, leb, if◌then◌else◌,
  arith, inl, inr, Bool-cases,
}
use mpd_legacy.Channels.{
  client_max_messages, Message, Client, find_subscription, client_push_message, valid_channel_name,
}
use mpd_legacy.Channels.Delivery.{with_message}
use mpd_legacy.Handlers.Messages.{
  fine, refusal, nobody_subscribed, send_message, handle_send_message,
}

-- A client that has subscribed to the channel and has room for another message.
abbrev pub accepts : Message → Client → Bool
accepts msg c =
    ltb c.num_messages client_max_messages && find_subscription c.subscriptions msg.channel

abbrev pub deliver : Message → Client → Client
deliver msg c = if accepts msg c then with_message c msg else c

abbrev pub any_accepts : Message → List Client → Bool
any_accepts msg [] = false
any_accepts msg (c ∷ cs) = accepts msg c || any_accepts msg cs

pushed : (c : Client) (msg : Message) → client_push_message c msg ≡ (accepts msg c, deliver msg c)
unfolding client_push_message
pushed c msg = elim (Bool-cases (leb client_max_messages c.num_messages)) [
  | inl e ↦
      let full : ltb c.num_messages client_max_messages ≡ false = ground (arith, e) in
      rw (e, full) refl
  | inr e ↦
      let room : ltb c.num_messages client_max_messages ≡ true = ground (arith, e) in
      elim (Bool-cases (find_subscription c.subscriptions msg.channel)) [
        | inl f ↦ rw (e, room, f) refl
        | inr f ↦ rw (e, room, f) refl
      ]
]

sent_or :
    (sent taken rest : Bool) → ((if taken then true else sent) || rest) ≡ (sent || (taken || rest))
sent_or true true rest = refl
sent_or false true rest = refl
sent_or true false rest = refl
sent_or false false rest = refl

abbrev sent_next : Message → Bool → List Client → Bool × Client → Bool × List Client
sent_next msg sent cs (taken, c') =
    let (sent', cs') = send_message msg (if taken then true else sent) cs in (sent', c' ∷ cs')

abbrev pub message_of : List ℕ → List ℕ → Message
message_of channel text = record { channel = channel; message = text }

sent_to :
    (msg : Message) (sent : Bool) (cs : List Client)
    → send_message msg sent cs ≡ (sent || any_accepts msg cs, map (deliver msg) cs)
unfolding send_message
sent_to msg true [] = refl
sent_to msg false [] = refl
sent_to msg sent (c ∷ cs) =
    ap (sent_next msg sent cs) (pushed c msg)
    ∙ ap (λ (r : Bool × List Client). (r.0, deliver msg c ∷ r.1))
        (sent_to msg (if accepts msg c then true else sent) cs)
    ∙ ap (λ b. (b, deliver msg c ∷ map (deliver msg) cs))
        (sent_or sent (accepts msg c) (any_accepts msg cs))

-- `send_message` gives every client that has subscribed to the channel and has room for another message
-- the message, and changes no other client. It is answered as sent if there is such a client,
-- and otherwise that nobody has subscribed, also where all subscribers are full. The name of the
-- channel is valid.
pub handle_send_message_lem :
    (g_ascii_isalnum : ℕ → Bool) (command channel text : List ℕ) (cs : List Client)
    → valid_channel_name g_ascii_isalnum channel ≡ true
    → let msg = message_of channel text in
      handle_send_message g_ascii_isalnum (command ∷ channel ∷ text ∷ []) cs
      ≡ (if any_accepts msg cs then fine else refusal nobody_subscribed, map (deliver msg) cs)
unfolding handle_send_message
handle_send_message_lem g_ascii_isalnum command channel text cs valid =
    rw (valid, sent_to (message_of channel text) false cs) refl
