-- ===== src/Playlist/Tests.antt =====
-- A playlist over the queue of three songs, and the theorems about the playlist applied to it.
use mpd_legacy.Common.{◌∷◌}
use mpd_legacy.Common.{◌≡◌, refl, some, true, false, [], arith}
use mpd_legacy.Queue.Edit.{init as queue_init, append}
use mpd_legacy.Queue.{get}
use mpd_legacy.Queue.Tests.{queue3, queue3-IsValid}
use mpd_legacy.Queue.Tests.Sort.{
  int_range, int_range-DrawsInRange, selection_sort, selection_sort-SortsArrays,
}
use mpd_legacy.Playlist.{Playlist}
use mpd_legacy.Playlist.{success}
use mpd_legacy.Playlist.{pc_clear_error}
use mpd_legacy.Playlist.Playback.{play}
use mpd_legacy.Playlist.Playback.Play.{Plays, play_lem}
use mpd_legacy.Playlist.{set_random}
use mpd_legacy.Playlist.Modes.{set_random-Keeps}
use mpd_legacy.Playlist.Ready.{IsReady, Keeps}

-- The second song is playing, the third is queued, in random mode with repeat.
abbrev pub playlist3 : Playlist
playlist3 = record {
  queue = record queue3 { random = true; repeat = true };
  playing = true;
  stop_on_error = false;
  error_count = 0;
  current = some 2;
  queued = some 1;
  calls = [];
}

pub playlist3-IsReady : IsReady playlist3
unfolding append queue_init
playlist3-IsReady =
    let v = queue3-IsValid in
    record {
      valid = record {
        fits = v.fits;
        small = v.small;
        version_pos = v.version_pos;
        version_small = v.version_small;
        ids = v.ids;
        ordered = v.ordered;
        dated = v.dated;
      };
      current_in = λ c e. ground (arith, e);
      queued_in = λ o e. ground (arith, e);
      straight = λ e. absurd (ground (arith, e));
      started = λ _. (2, refl);
    }

play_example :
    let (r, p') = play playlist3 (some 0) in
    (r ≡ success) × Plays (get playlist3.queue 0) (pc_clear_error ∷ []) p'
unfolding append queue_init
play_example = play_lem 0 playlist3-IsReady (omega arith)

set_random_example : Keeps playlist3 (set_random int_range selection_sort playlist3 false)
set_random_example =
    set_random-Keeps int_range int_range-DrawsInRange selection_sort selection_sort-SortsArrays
      false playlist3-IsReady refl
