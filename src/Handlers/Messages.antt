-- ===== src/Handlers/Messages.antt =====
-- The handlers of src/command.c for the channels and messages of clients. A client with what
-- `command_error` tells it is `Listener`; `client_list_foreach` goes through all clients.
use mpd_legacy.Common.{ℕ, zero, suc, Bool, true, false, ◌||◌, not, List, [], ◌∷◌, if◌then◌else◌}
use mpd_legacy.Command.{CommandReturn, ok, error}
use mpd_legacy.Channels.{
  Message, Client, SubscribeResult, subscribe_ok, subscribe_invalid, subscribe_already,
  subscribe_full, client_subscribe, client_unsubscribe, client_push_message, client_read_messages,
  valid_channel_name,
}
use mpd_legacy.Handlers.{arg}
pub mod Sent

-- The messages of `command_error`.
pub data ChannelError : Type 0 where
  invalid_channel already_subscribed list_full not_subscribed nobody_subscribed : ChannelError

pub data Answer : Type 0 where
  fine : Answer
  refusal : ChannelError → Answer

abbrev pub answer_of : SubscribeResult → Answer
answer_of subscribe_ok = fine
answer_of subscribe_invalid = refusal invalid_channel
answer_of subscribe_already = refusal already_subscribed
answer_of subscribe_full = refusal list_full

unfoldable pub handle_unsubscribe : List (List ℕ) → Client → Answer × Client
handle_unsubscribe argv c =
    let (gone, c') = client_unsubscribe c (arg argv 1) in
    (if gone then fine else refusal not_subscribed, c')

-- The messages in the sequence in which they are written to the client.
unfoldable pub handle_read_messages : Client → List Message × Client
handle_read_messages c = client_read_messages c

-- `send_message` for every client: whether one has taken the message, and the clients.
unfoldable pub send_message : Message → Bool → List Client → Bool × List Client
send_message msg sent [] = (sent, [])
send_message msg sent (c ∷ cs) =
    let (taken, c') = client_push_message c msg in
    let (sent', cs') = send_message msg (if taken then true else sent) cs in (sent', c' ∷ cs')

module _ (g_ascii_isalnum : ℕ → Bool) where
  unfoldable pub handle_subscribe : List (List ℕ) → Client → Answer × Client
  handle_subscribe argv c =
      let (r, c') = client_subscribe g_ascii_isalnum c (arg argv 1) in (answer_of r, c')

  unfoldable pub handle_send_message : List (List ℕ) → List Client → Answer × List Client
  unfolding send_message
  handle_send_message argv clients =
      let msg : Message = record { channel = arg argv 1; message = arg argv 2 } in
      let (sent, clients') = send_message msg false clients in
      if not (valid_channel_name g_ascii_isalnum (arg argv 1))
      then (refusal invalid_channel, clients)
      else (if sent then fine else refusal nobody_subscribed, clients')
