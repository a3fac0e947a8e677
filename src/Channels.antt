-- ===== src/Channels.antt =====
-- src/client_subscribe.c and src/client_message.c: the channels that a client has subscribed to, and the
-- messages that wait for it. Lists are GLib's, with the last entry first. GLib's `g_ascii_isalnum` is an
-- argument. What `idle_add` and `client_idle_add` are called with is collected.
use Prim.Native.Nat.{Ordering}
use mpd_legacy.Common.{
  ℕ, ◌+◌, ◌-◌, Bool, true, false, ◌&&◌, ◌||◌, not, List, [], ◌∷◌, ◌++◌, leb, ◌==◌, if◌then◌else◌,
}
use mpd_legacy.Command.{strcmp, is_text}
pub mod Inv
pub mod Delivery
pub mod Tests

abbrev pub client_max_subscriptions : ℕ
client_max_subscriptions = 16

abbrev pub client_max_messages : ℕ
client_max_messages = 64

pub record Message : Type 0 where
  pub channel : List ℕ
  pub message : List ℕ

pub data Event : Type 0 where
  idle_subscription idle_message : Event

pub record Client : Type 0 where
  pub subscriptions : List (List ℕ)
  pub num_subscriptions : ℕ
  pub messages : List Message
  pub num_messages : ℕ
  pub events : List Event

pub data SubscribeResult : Type 0 where
  subscribe_ok subscribe_invalid subscribe_already subscribe_full : SubscribeResult

unfoldable pub find_subscription : List (List ℕ) → List ℕ → Bool
find_subscription [] channel = false
find_subscription (s ∷ ss) channel = is_text s channel || find_subscription ss channel

-- Without the entry that `find_subscription` finds.
unfoldable pub remove_subscription : List (List ℕ) → List ℕ → List (List ℕ)
remove_subscription [] channel = []
remove_subscription (s ∷ ss) channel =
    if is_text s channel then ss else s ∷ remove_subscription ss channel

unfoldable pub client_unsubscribe : Client → List ℕ → Bool × Client
client_unsubscribe c channel =
    if find_subscription c.subscriptions channel
    then (
      true,
      record c {
        subscriptions = remove_subscription c.subscriptions channel;
        num_subscriptions = c.num_subscriptions - 1;
        events = c.events ++ idle_subscription ∷ [];
      },
    )
    else (false, c)

unfoldable pub client_unsubscribe_all : Client → Client
client_unsubscribe_all c = record c { subscriptions = []; num_subscriptions = 0 }

abbrev pub no_messages : List Message → Bool
no_messages [] = true
no_messages (m ∷ ms) = false

unfoldable pub client_push_message : Client → Message → Bool × Client
client_push_message c msg =
    if leb client_max_messages c.num_messages || not (find_subscription c.subscriptions msg.channel)
    then (false, c)
    else (
      true,
      record c {
        messages = msg ∷ c.messages;
        num_messages = c.num_messages + 1;
        events = if no_messages c.messages then c.events ++ idle_message ∷ [] else c.events;
      },
    )

unfoldable pub reverse_onto : List Message → List Message → List Message
reverse_onto [] ms = ms
reverse_onto (m ∷ rest) ms = reverse_onto rest (m ∷ ms)

unfoldable pub client_read_messages : Client → List Message × Client
client_read_messages c = (reverse_onto c.messages [], record c { messages = []; num_messages = 0 })

module _ (g_ascii_isalnum : ℕ → Bool) where
  -- '_', '-', '.', ':'
  unfoldable pub valid_channel_char : ℕ → Bool
  valid_channel_char ch = g_ascii_isalnum ch || (ch == 95) || (ch == 45) || (ch == 46) || (ch == 58)

  abbrev all_valid : List ℕ → Bool
  all_valid [] = true
  all_valid (x ∷ xs) = valid_channel_char x && all_valid xs

  -- The loop looks at the first byte before it looks for the end.
  unfoldable pub valid_channel_name : List ℕ → Bool
  valid_channel_name [] = valid_channel_char 0
  valid_channel_name (x ∷ xs) = valid_channel_char x && all_valid xs

  unfoldable pub client_subscribe : Client → List ℕ → SubscribeResult × Client
  client_subscribe c channel =
      if not (valid_channel_name channel)
      then (subscribe_invalid, c)
      else if find_subscription c.subscriptions channel
      then (subscribe_already, c)
      else if leb client_max_subscriptions c.num_subscriptions
      then (subscribe_full, c)
      else (
        subscribe_ok,
        record c {
          subscriptions = channel ∷ c.subscriptions;
          num_subscriptions = c.num_subscriptions + 1;
          events = c.events ++ idle_subscription ∷ [];
        },
      )

  -- What happens to a client.
  pub data Step : Client → Client → Type 0 where
    subscribes : (c : Client) (channel : List ℕ) → Step c (client_subscribe c channel).1
    unsubscribes : (c : Client) (channel : List ℕ) → Step c (client_unsubscribe c channel).1
    unsubscribes_all : (c : Client) → Step c (client_unsubscribe_all c)
    is_sent : (c : Client) (msg : Message) → Step c (client_push_message c msg).1
    reads : (c : Client) → Step c (client_read_messages c).1

  pub data Steps : Client → Client → Type 0 where
    no_step : (c : Client) → Steps c c
    then_step : {a b c : Client} → Steps a b → Step b c → Steps a c
