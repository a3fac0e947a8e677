-- ===== src/Channels/Tests.antt =====
-- Tests of the channels.
use mpd_legacy.Common.{ℕ, ◌≡◌, refl, Bool, ◌&&◌, ◌||◌, List, [], ◌∷◌, leb, arith}
use mpd_legacy.Command.{codes, strcmp, is_text}
use mpd_legacy.Channels.{
  Message, Client, find_subscription, remove_subscription, client_unsubscribe, client_push_message,
  reverse_onto, client_read_messages, subscribe_ok, subscribe_already, subscribe_invalid,
  valid_channel_char, valid_channel_name, client_subscribe, no_step, then_step, subscribes, is_sent,
}
use mpd_legacy.Channels.Inv.{IsValid, Steps-IsValid}
use mpd_legacy.Channels.Delivery.{push_all, read_messages_lem}

abbrev pub is_alnum : ℕ → Bool
is_alnum c = (leb 48 c && leb c 57) || (leb 65 c && leb c 90) || (leb 97 c && leb c 122)

abbrev pub fresh : Client
fresh = record {
  subscriptions = [];
  num_subscriptions = 0;
  messages = [];
  num_messages = 0;
  events = [];
}

abbrev pub news : Client
news = record {
  subscriptions = codes "news" ∷ [];
  num_subscriptions = 1;
  messages = [];
  num_messages = 0;
  events = [];
}

abbrev to : List ℕ → List ℕ → Message
to channel text = record { channel = channel; message = text }

empty_name : (client_subscribe is_alnum fresh []).0 ≡ subscribe_invalid
unfolding client_subscribe valid_channel_name valid_channel_char
empty_name = refl

name_accepted : (client_subscribe is_alnum news (codes "a.b:c")).0 ≡ subscribe_ok
unfolding client_subscribe valid_channel_name valid_channel_char find_subscription is_text strcmp
name_accepted = refl

twice : (client_subscribe is_alnum news (codes "news")).0 ≡ subscribe_already
unfolding client_subscribe valid_channel_name valid_channel_char find_subscription is_text strcmp
twice = refl

left_again : (client_unsubscribe news (codes "news")).1.subscriptions ≡ []
unfolding client_unsubscribe remove_subscription find_subscription is_text strcmp
left_again = refl

fresh-IsValid : IsValid fresh
fresh-IsValid = record {
  counted = refl;
  limited = omega arith;
  distinct = tt;
  messages_counted = refl;
  messages_limited = omega arith;
}

news-IsValid : IsValid news
news-IsValid = record {
  counted = refl;
  limited = omega arith;
  distinct = (tt, tt);
  messages_counted = refl;
  messages_limited = omega arith;
}

Steps-IsValid_example :
    IsValid
      (client_push_message
        (client_subscribe is_alnum fresh (codes "news")).1
        (to (codes "news") (codes "hi"))).1
Steps-IsValid_example = Steps-IsValid is_alnum fresh-IsValid (
    then_step (then_step (no_step fresh) (subscribes fresh (codes "news")))
      (is_sent (client_subscribe is_alnum fresh (codes "news")).1 (to (codes "news") (codes "hi"))))

abbrev sent : List Message
sent =
    to (codes "news") (codes "hi")
    ∷ to (codes "other") (codes "lost")
    ∷ to (codes "news") (codes "you")
    ∷ []

read_messages_example :
    ((client_read_messages (push_all news sent)).0
      ≡ to (codes "news") (codes "hi") ∷ to (codes "news") (codes "you") ∷ [])
    × ((client_read_messages (client_read_messages (push_all news sent)).1).0 ≡ [])
unfolding find_subscription is_text strcmp client_read_messages reverse_onto
read_messages_example = read_messages_lem news sent news-IsValid
