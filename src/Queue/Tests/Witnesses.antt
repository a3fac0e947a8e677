-- ===== src/Queue/Tests/Witnesses.antt =====
-- The theorems about `struct queue` at the queue of three songs.
use mpd_legacy.Common.{
  ℕ, ◌*◌, ◌≤◌, ◌<◌, ◌≡◌, ◌≢◌, refl, none, some, true, arith, ◌==◌, not, if◌then◌else◌,
}
use mpd_legacy.Queue.{
  Queue, id_to_position, position_to_id, position_to_order, get, get_order, song_newer, modify_all,
  queue_hash_mult,
}
use mpd_legacy.Queue.Inv.{IsValid}
use mpd_legacy.Queue.Walk.{walk, walk-round}
use mpd_legacy.Queue.Version.{song_newer-modify_all}
use mpd_legacy.Queue.Edit.{init, append, delete, move_range, swap, generate_id}
use mpd_legacy.Queue.Edit.Ids.{append_others, generate_id_free}
use mpd_legacy.Queue.Edit.Swap.{swap-IsValid}
use mpd_legacy.Queue.Edit.Delete.{delete-IsValid, delete_songs, delete_order}
use mpd_legacy.Queue.Edit.Close.{close_up}
use mpd_legacy.Queue.Edit.Move.{move_range_song, move_range_order}
use mpd_legacy.Queue.Edit.Block.{BlockFits, block_move}
use mpd_legacy.Queue.Random.{get_order_priority, shuffle_order, set_priority}
use mpd_legacy.Queue.Random.Laws.{shuffle_order_lem}
use mpd_legacy.Queue.Random.SetPriority.{set_priority_lem, set_priority_sequence, InSequence}
use mpd_legacy.Queue.Tests.{song_c, queue2, queue3, queue2-IsValid, queue3-IsValid}
use mpd_legacy.Queue.Tests.Sort.{
  int_range, int_range-DrawsInRange, selection_sort, selection_sort-SortsArrays,
}

-- The same queue in random mode, its order sorted by priority.
abbrev random3 : Queue
random3 = shuffle_order int_range selection_sort (record queue3 { random = true })

queue3_random-IsValid : IsValid (record queue3 { random = true })
queue3_random-IsValid =
    let v = queue3-IsValid in
    record {
      fits = v.fits;
      small = v.small;
      version_pos = v.version_pos;
      version_small = v.version_small;
      ids = v.ids;
      ordered = v.ordered;
      dated = v.dated;
    }

shuffle_order_example :
    IsValid random3
    × ((i j : ℕ)
        → i ≤ j
        → j < (record queue3 { random = true }).length
        → get_order_priority random3 j ≤ get_order_priority random3 i)
shuffle_order_example =
    shuffle_order_lem int_range int_range-DrawsInRange selection_sort selection_sort-SortsArrays
      queue3_random-IsValid

set_priority_example :
    let (b, s) = set_priority int_range queue3 1 9 (some 0) in
    IsValid s
    × (s.length ≡ queue3.length)
    × (b ≡ not ((queue3.items 1).priority == 9))
    × ((p : ℕ)
        → (get s p ≡ get queue3 p)
          × ((s.items p).id ≡ (queue3.items p).id)
          × ((s.items p).priority ≡ (if 1 == p then 9 else (queue3.items p).priority)))
unfolding init append
set_priority_example =
    set_priority_lem int_range int_range-DrawsInRange queue3-IsValid 1 9 (omega arith) (some 0)
      (omega arith)

set_priority_sequence_example :
    let q = record queue3 { random = true } in
    let s = (set_priority int_range q 0 4 (some 0)).1 in
    (a' : ℕ) × (s.order a' ≡ q.order 0) × InSequence s q.length a'
unfolding init append get_order_priority
set_priority_sequence_example =
    set_priority_sequence int_range int_range-DrawsInRange queue3_random-IsValid 0 4 (omega arith) 0
      refl (omega arith) (λ i j l le lt. ground arith)

delete-IsValid_example : IsValid (delete queue3 1)
unfolding init append
delete-IsValid_example = delete-IsValid queue3-IsValid 1 (omega arith)

delete_songs_example :
    (id_to_position (delete queue3 1) (position_to_id queue3 1) ≡ none)
    × ((p : ℕ)
        → p < queue3.length
        → p ≢ 1
        → (id_to_position (delete queue3 1) (position_to_id queue3 p) ≡ some (close_up 1 p))
          × (get (delete queue3 1) (close_up 1 p) ≡ get queue3 p))
unfolding init append
delete_songs_example = delete_songs queue3-IsValid 1 (omega arith)

delete_order_example :
    get_order (delete queue3 1) (close_up (position_to_order queue3 1) 2) ≡ get_order queue3 2
unfolding init append position_to_order
delete_order_example = delete_order queue3-IsValid 1 (omega arith) 2 (omega arith) (omega arith)

fits3 : BlockFits queue3 0 2 1
unfolding init append
fits3 = record { not_empty = omega arith; inside = omega arith; fits = omega arith }

move_range_song_example :
    (id_to_position (move_range queue3 0 2 1) (queue3.items 2).id ≡ some (block_move 0 2 1 2))
    × (get (move_range queue3 0 2 1) (block_move 0 2 1 2) ≡ get queue3 2)
unfolding init append
move_range_song_example = move_range_song queue3-IsValid 0 2 1 fits3 2 (omega arith)

fits_random : BlockFits (record queue3 { random = true }) 0 2 1
unfolding init append
fits_random = record { not_empty = omega arith; inside = omega arith; fits = omega arith }

move_range_order_example :
    get_order (move_range (record queue3 { random = true }) 0 2 1) 2
    ≡ get_order (record queue3 { random = true }) 2
unfolding init append
move_range_order_example =
    move_range_order queue3_random-IsValid 0 2 1 fits_random 2 refl (omega arith)

swap-IsValid_example : IsValid (swap queue3 0 2)
unfolding init append
swap-IsValid_example = swap-IsValid queue3-IsValid 0 2 (omega arith) (omega arith)

generate_id_free_example :
    (generate_id queue3 < queue3.max_length * queue_hash_mult)
    × (queue3.id_to_position (generate_id queue3) ≡ none)
unfolding init append
generate_id_free_example = generate_id_free queue3-IsValid (omega arith)

append_others_example :
    let q' = (append queue2 song_c 5).1 in
    (q'.items 1 ≡ queue2.items 1)
    × (q'.order 1 ≡ queue2.order 1)
    × (id_to_position q' (queue2.items 1).id ≡ some 1)
unfolding init append
append_others_example = append_others song_c 5 1 queue2-IsValid (omega arith) (omega arith)

song_newer-modify_all_example : song_newer (modify_all queue3) 2 1 ≡ true
unfolding init append
song_newer-modify_all_example = song_newer-modify_all 2 1 queue3-IsValid (omega arith) (omega arith)

repeat3-IsValid : IsValid (record queue3 { repeat = true })
repeat3-IsValid =
    let v = queue3-IsValid in
    record {
      fits = v.fits;
      small = v.small;
      version_pos = v.version_pos;
      version_small = v.version_small;
      ids = v.ids;
      ordered = v.ordered;
      dated = v.dated;
    }

walk-round_example : walk (record queue3 { repeat = true }) 7 0 ≡ some 1
unfolding init append
walk-round_example = walk-round 7 0 repeat3-IsValid refl refl refl (omega arith)
