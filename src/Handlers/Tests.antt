-- ===== src/Handlers/Tests.antt =====
-- Lines of the protocol and handlers, at the playlist of three songs.
use Prim.Native.Nat.{bit_and}
use mpd_legacy.Common.{ℕ, ◌≡◌, ◌↔◌, refl, Option, none, some, true, List, [], ◌∷◌, ◌++◌, arith}
use mpd_legacy.Common.Int.{pos}
use mpd_legacy.Argparser.Numbers.{text_of}
use mpd_legacy.Tokenizer.{valid_word_char}
use mpd_legacy.Tokenizer.Quote.{parameters}
use mpd_legacy.Command.{Command, ok, codes, command_process, is_text, strcmp, command_check_request}
use mpd_legacy.Command.Table.{commands, permission_control}
use mpd_legacy.Command.Request.{IsName, Within}
use mpd_legacy.Command.Tests.{isspace, isalpha, isalnum, isspace-IsAscii}
use mpd_legacy.Queue.{id_to_position}
use mpd_legacy.Queue.Edit.{init as queue_init, append, generate_id, next_id, search_id}
use mpd_legacy.Queue.Edit.Swap.{exchange}
use mpd_legacy.Queue.Edit.Block.{block_move}
use mpd_legacy.Queue.Tests.Sort.{
  int_range, int_range-DrawsInRange, selection_sort, selection_sort-SortsArrays,
}
use mpd_legacy.Playlist.{Player, PlayerState, PlayerError}
use mpd_legacy.Playlist.Edit.{swap_songs, move_id}
use mpd_legacy.Playlist.Edit.Kept.{MovesSongs}
use mpd_legacy.Playlist.Tests.{playlist3, playlist3-IsReady}
use mpd_legacy.Permission.{
  Permissions, init_permissions, parse_permissions, parse_tokens, parse_permission,
}
use mpd_legacy.Permission.Passwords.{lines_of}
use mpd_legacy.Permission.Tests.{functions, tokens_of, entries}
use mpd_legacy.Channels.{valid_channel_name, valid_channel_char, find_subscription}
use mpd_legacy.Channels.Delivery.{with_message}
use mpd_legacy.Channels.Tests.{is_alnum, fresh, news}
use mpd_legacy.Handlers.{Session, done, fail, playlist_full}
use mpd_legacy.Handlers.Queue.{
  handle_delete, handle_deleteid, handle_move, handle_moveid, handle_swap, handle_swapid,
}
use mpd_legacy.Handlers.Access.{handle_password}
use mpd_legacy.Handlers.Dispatch.{Handler, call_handler}
use mpd_legacy.Handlers.Line.{with_playlist, swap_line, moveid_line}
use mpd_legacy.Handlers.Atomic.{Spared, handlers-Spared}
use mpd_legacy.Handlers.Granted.{handle_password_lem}
use mpd_legacy.Handlers.Messages.{fine, handle_send_message}
use mpd_legacy.Handlers.Messages.Sent.{message_of, handle_send_message_lem}

abbrev session3 : Session
session3 = record { playlist = playlist3; permission = 15; told = []; printed = [] }

-- A player that plays.
abbrev player : Player
player = record {
  state = λ calls. PlayerState.playing;
  error = λ calls. PlayerError.noerror;
  next_song = λ calls. none;
}

abbrev other : Handler
other argv = fail playlist_full

swap-IsName : IsName isspace isalpha isalnum isspace-IsAscii (codes "swap")
unfolding valid_word_char
swap-IsName = record {
  first = b's';
  others = codes "wap";
  parts = refl;
  letter = refl;
  letters = ((refl, refl), ((refl, refl), ((refl, refl), tt)));
}

moveid-IsName : IsName isspace isalpha isalnum isspace-IsAscii (codes "moveid")
unfolding valid_word_char
moveid-IsName = record {
  first = b'm';
  others = codes "oveid";
  parts = refl;
  letter = refl;
  letters = ((refl, refl), ((refl, refl), ((refl, refl), ((refl, refl), ((refl, refl), tt)))));
}

swap_line_example :
    let p' = (swap_songs int_range selection_sort playlist3 0 2).1 in
    (command_process isspace isalpha isalnum commands
        (call_handler int_range selection_sort player (λ n. true) other)
        15
        (codes "swap" ++ parameters (text_of (0 ∷ []) ∷ text_of (2 ∷ []) ∷ []))
        session3
      ≡ (ok, none, with_playlist session3 p'))
    × MovesSongs (exchange 0 2) playlist3 p'
unfolding append queue_init
swap_line_example =
    swap_line isspace isalpha isalnum isspace-IsAscii int_range int_range-DrawsInRange
      selection_sort selection_sort-SortsArrays player (λ n. true) other session3 15 refl
      playlist3-IsReady (0 ∷ []) (2 ∷ []) swap-IsName (omega arith, (omega arith, tt))
      (omega arith, (omega arith, tt)) (omega arith) (omega arith)

-- The ids of the three songs are 0, 1 and 2.
moveid_line_example :
    let p' = (move_id int_range selection_sort playlist3 0 (pos 2)).1 in
    (command_process isspace isalpha isalnum commands
        (call_handler int_range selection_sort player (λ n. true) other)
        15
        (codes "moveid" ++ parameters (text_of (0 ∷ []) ∷ text_of (2 ∷ []) ∷ []))
        session3
      ≡ (ok, none, with_playlist session3 p'))
    × MovesSongs (block_move 0 1 2) playlist3 p'
unfolding append queue_init generate_id id_to_position next_id search_id
moveid_line_example =
    moveid_line isspace isalpha isalnum isspace-IsAscii int_range int_range-DrawsInRange
      selection_sort selection_sort-SortsArrays player (λ n. true) other session3 15 refl
      playlist3-IsReady (0 ∷ []) (2 ∷ []) 0 moveid-IsName (omega arith, (omega arith, tt))
      (omega arith, (omega arith, tt)) (omega arith) refl (omega arith)

-- `move "9" "0"`, and so on.
handlers-Spared_example :
    let argv = codes "move" ∷ codes "9" ∷ codes "0" ∷ [] in
    Spared session3 (handle_delete int_range selection_sort player argv session3)
    × Spared session3 (handle_deleteid int_range selection_sort player argv session3)
    × Spared session3 (handle_move int_range selection_sort argv session3)
    × Spared session3 (handle_moveid int_range selection_sort argv session3)
    × Spared session3 (handle_swap int_range selection_sort argv session3)
    × Spared session3 (handle_swapid int_range selection_sort argv session3)
handlers-Spared_example =
    handlers-Spared int_range selection_sort player session3
      (codes "move" ∷ codes "9" ∷ codes "0" ∷ [])

-- The password "pw" gives the permission to control, and no other.
handle_password_example :
    let cmd : Command = record {
      cmd = codes "stop";
      permission = permission_control;
      min = some 0;
      max = some 0;
    } in
    (permissions : Permissions (List ℕ → Option ℕ)) × (s' : Session) × (init_permissions tokens_of
        functions
        (lines_of entries)
        none
      ≡ some permissions)
    × (handle_password tokens_of functions permissions (codes "password" ∷ codes "pw" ∷ []) session3
        ≡ (done tt, s'))
    × (s' ≡ record session3 { permission = 4 })
    × ((command_check_request cmd s'.permission 1 ≡ none)
        ↔ ((permission_control ≡ bit_and 4 permission_control) × Within (some 0) (some 0) 0))
unfolding is_text strcmp parse_permissions parse_tokens parse_permission
handle_password_example =
    handle_password_lem tokens_of functions entries (codes "password") (codes "pw") session3 4
      (record { cmd = codes "stop"; permission = permission_control; min = some 0; max = some 0 }) 0
      (
        ((refl, (refl, tt)), refl),
        (((refl, (refl, (refl, (refl, tt)))), refl), (((refl, (refl, tt)), refl), tt)),
      )
      refl

send_message_example :
    handle_send_message is_alnum
      (codes "sendmessage" ∷ codes "news" ∷ codes "hi" ∷ [])
      (fresh ∷ news ∷ [])
    ≡ (fine, fresh ∷ with_message news (message_of (codes "news") (codes "hi")) ∷ [])
unfolding valid_channel_name valid_channel_char find_subscription is_text strcmp
send_message_example =
    handle_send_message_lem is_alnum (codes "sendmessage") (codes "news") (codes "hi")
      (fresh ∷ news ∷ []) refl
