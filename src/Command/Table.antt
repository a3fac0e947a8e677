-- ===== src/Command/Table.antt =====
-- The table of commands of src/command.c; the handlers are known by their index.
use mpd_legacy.Common.{ℕ, Option, none, some, List, [], ◌∷◌}
use Prim.Native.String.{String}
use mpd_legacy.Command.{Command, codes}

abbrev pub permission_none : ℕ
permission_none = 0

abbrev pub permission_read : ℕ
permission_read = 1

abbrev pub permission_add : ℕ
permission_add = 2

abbrev pub permission_control : ℕ
permission_control = 4

abbrev pub permission_admin : ℕ
permission_admin = 8

abbrev entry : String → ℕ → Option ℕ → Option ℕ → Command
entry cmd permission min max = record {
  cmd = codes cmd;
  permission = permission;
  min = min;
  max = max;
}

unfoldable pub commands : List Command
commands =
    entry "add" permission_add (some 1) (some 1)
    ∷ entry "addid" permission_add (some 1) (some 2)
    ∷ entry "channels" permission_read (some 0) (some 0)
    ∷ entry "clear" permission_control (some 0) (some 0)
    ∷ entry "clearerror" permission_control (some 0) (some 0)
    ∷ entry "close" permission_none none none
    ∷ entry "commands" permission_none (some 0) (some 0)
    ∷ entry "config" permission_admin (some 0) (some 0)
    ∷ entry "consume" permission_control (some 1) (some 1)
    ∷ entry "count" permission_read (some 2) none
    ∷ entry "crossfade" permission_control (some 1) (some 1)
    ∷ entry "currentsong" permission_read (some 0) (some 0)
    ∷ entry "decoders" permission_read (some 0) (some 0)
    ∷ entry "delete" permission_control (some 1) (some 1)
    ∷ entry "deleteid" permission_control (some 1) (some 1)
    ∷ entry "disableoutput" permission_admin (some 1) (some 1)
    ∷ entry "enableoutput" permission_admin (some 1) (some 1)
    ∷ entry "find" permission_read (some 2) none
    ∷ entry "findadd" permission_read (some 2) none
    ∷ entry "idle" permission_read (some 0) none
    ∷ entry "kill" permission_admin none none
    ∷ entry "list" permission_read (some 1) none
    ∷ entry "listall" permission_read (some 0) (some 1)
    ∷ entry "listallinfo" permission_read (some 0) (some 1)
    ∷ entry "listplaylist" permission_read (some 1) (some 1)
    ∷ entry "listplaylistinfo" permission_read (some 1) (some 1)
    ∷ entry "listplaylists" permission_read (some 0) (some 0)
    ∷ entry "load" permission_add (some 1) (some 2)
    ∷ entry "lsinfo" permission_read (some 0) (some 1)
    ∷ entry "mixrampdb" permission_control (some 1) (some 1)
    ∷ entry "mixrampdelay" permission_control (some 1) (some 1)
    ∷ entry "move" permission_control (some 2) (some 2)
    ∷ entry "moveid" permission_control (some 2) (some 2)
    ∷ entry "next" permission_control (some 0) (some 0)
    ∷ entry "notcommands" permission_none (some 0) (some 0)
    ∷ entry "outputs" permission_read (some 0) (some 0)
    ∷ entry "password" permission_none (some 1) (some 1)
    ∷ entry "pause" permission_control (some 0) (some 1)
    ∷ entry "ping" permission_none (some 0) (some 0)
    ∷ entry "play" permission_control (some 0) (some 1)
    ∷ entry "playid" permission_control (some 0) (some 1)
    ∷ entry "playlist" permission_read (some 0) (some 0)
    ∷ entry "playlistadd" permission_control (some 2) (some 2)
    ∷ entry "playlistclear" permission_control (some 1) (some 1)
    ∷ entry "playlistdelete" permission_control (some 2) (some 2)
    ∷ entry "playlistfind" permission_read (some 2) none
    ∷ entry "playlistid" permission_read (some 0) (some 1)
    ∷ entry "playlistinfo" permission_read (some 0) (some 1)
    ∷ entry "playlistmove" permission_control (some 3) (some 3)
    ∷ entry "playlistsearch" permission_read (some 2) none
    ∷ entry "plchanges" permission_read (some 1) (some 1)
    ∷ entry "plchangesposid" permission_read (some 1) (some 1)
    ∷ entry "previous" permission_control (some 0) (some 0)
    ∷ entry "prio" permission_control (some 2) none
    ∷ entry "prioid" permission_control (some 2) none
    ∷ entry "random" permission_control (some 1) (some 1)
    ∷ entry "readmessages" permission_read (some 0) (some 0)
    ∷ entry "rename" permission_control (some 2) (some 2)
    ∷ entry "repeat" permission_control (some 1) (some 1)
    ∷ entry "replay_gain_mode" permission_control (some 1) (some 1)
    ∷ entry "replay_gain_status" permission_read (some 0) (some 0)
    ∷ entry "rescan" permission_control (some 0) (some 1)
    ∷ entry "rm" permission_control (some 1) (some 1)
    ∷ entry "save" permission_control (some 1) (some 1)
    ∷ entry "search" permission_read (some 2) none
    ∷ entry "searchadd" permission_add (some 2) none
    ∷ entry "searchaddpl" permission_control (some 3) none
    ∷ entry "seek" permission_control (some 2) (some 2)
    ∷ entry "seekcur" permission_control (some 1) (some 1)
    ∷ entry "seekid" permission_control (some 2) (some 2)
    ∷ entry "sendmessage" permission_control (some 2) (some 2)
    ∷ entry "setvol" permission_control (some 1) (some 1)
    ∷ entry "shuffle" permission_control (some 0) (some 1)
    ∷ entry "single" permission_control (some 1) (some 1)
    ∷ entry "stats" permission_read (some 0) (some 0)
    ∷ entry "status" permission_read (some 0) (some 0)
    ∷ entry "sticker" permission_admin (some 3) none
    ∷ entry "stop" permission_control (some 0) (some 0)
    ∷ entry "subscribe" permission_read (some 1) (some 1)
    ∷ entry "swap" permission_control (some 2) (some 2)
    ∷ entry "swapid" permission_control (some 2) (some 2)
    ∷ entry "tagtypes" permission_read (some 0) (some 0)
    ∷ entry "unsubscribe" permission_read (some 1) (some 1)
    ∷ entry "update" permission_control (some 0) (some 1)
    ∷ entry "urlhandlers" permission_read (some 0) (some 0)
    ∷ []
