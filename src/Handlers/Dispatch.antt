-- ===== src/Handlers/Dispatch.antt =====
-- The column of handlers in the table of commands of src/command.c. A handler that is not modelled is
-- `other`.
use mpd_legacy.Common.{ℕ, Bool, List, [], ◌∷◌, if◌then◌else◌}
use mpd_legacy.Command.{CommandReturn, codes, is_text}
use mpd_legacy.Queue.Random.{RandIntRange, QSort}
use mpd_legacy.Playlist.{Player}
use mpd_legacy.Handlers.{Session, Action, arg, run}
use mpd_legacy.Handlers.Queue.{
  handle_stop, handle_clear, handle_shuffle, handle_repeat, handle_single, handle_random,
  handle_move, handle_moveid, handle_swap, handle_swapid, handle_prio, handle_prioid, handle_delete,
  handle_deleteid, handle_next, handle_seek, handle_seekid, handle_consume, handle_previous,
  handle_play, handle_playid, handle_setvol,
}

abbrev pub Handler : Type 0
Handler = List (List ℕ) → Action (Unit {0})

-- The entry of the table with the name.
abbrev pub select : List ℕ → List (List ℕ × Handler) → Handler → Handler
select name [] other = other
select name ((cmd, h) ∷ rest) other = if is_text name cmd then h else select name rest other

module _ (g_rand_int_range : RandIntRange) (g_qsort : QSort) (player : Player)
    (volume_level_change : ℕ → Bool) (other : Handler) where
  abbrev pub handlers : List (List ℕ × Handler)
  handlers =
      (codes "clear", handle_clear g_rand_int_range g_qsort)
      ∷ (codes "consume", handle_consume)
      ∷ (codes "delete", handle_delete g_rand_int_range g_qsort player)
      ∷ (codes "deleteid", handle_deleteid g_rand_int_range g_qsort player)
      ∷ (codes "move", handle_move g_rand_int_range g_qsort)
      ∷ (codes "moveid", handle_moveid g_rand_int_range g_qsort)
      ∷ (codes "next", handle_next g_rand_int_range g_qsort player)
      ∷ (codes "play", handle_play)
      ∷ (codes "playid", handle_playid)
      ∷ (codes "previous", handle_previous)
      ∷ (codes "prio", handle_prio g_rand_int_range g_qsort)
      ∷ (codes "prioid", handle_prioid g_rand_int_range g_qsort)
      ∷ (codes "random", handle_random g_rand_int_range g_qsort)
      ∷ (codes "repeat", handle_repeat g_rand_int_range g_qsort)
      ∷ (codes "seek", handle_seek g_rand_int_range g_qsort player)
      ∷ (codes "seekid", handle_seekid g_rand_int_range g_qsort player)
      ∷ (codes "setvol", handle_setvol volume_level_change)
      ∷ (codes "shuffle", handle_shuffle g_rand_int_range g_qsort)
      ∷ (codes "single", handle_single g_rand_int_range g_qsort)
      ∷ (codes "stop", handle_stop g_rand_int_range g_qsort)
      ∷ (codes "swap", handle_swap g_rand_int_range g_qsort)
      ∷ (codes "swapid", handle_swapid g_rand_int_range g_qsort)
      ∷ []

  -- The handler at the index of the command; the name of the command is `argv[0]`.
  unfoldable pub call_handler : ℕ → List (List ℕ) → Session → CommandReturn × Session
  unfolding is_text run
  call_handler i argv = run (select (arg argv 0) handlers other argv)
