-- ===== src/Curl/Tests.antt =====
-- A stream with four bytes of music between metadata, in pieces of several sizes.
use mpd_legacy.Common.{
  ℕ, ◌+◌, ◌≡◌, refl, ◌⊎◌, Option, some, none, true, false, List, [], ◌∷◌, ◌++◌, arith, ◌==◌,
  if◌then◌else◌, take, drop, length,
}
use mpd_legacy.Command.{codes, is_text, strcmp}
use mpd_legacy.Common.Int.{pos}
use mpd_legacy.IcyMetadata.{
  IcyMetadata, Tags, c_text, defined, start as start_icy, data_bytes, add_item, parse_tag_parts,
  parse_tag_item, parse_tag_items, parse_tag, end_meta, copy_meta, meta,
}
use mpd_legacy.IcyMetadata.Split.{split}
use mpd_legacy.IcyMetadata.Inv.{view, IsSplitting}
use mpd_legacy.Curl.{
  Buffer, consume_buffer, total_buffer_size, next_round, take_meta, take_bytes, read_from_buffer,
  drain_rest, drain, InputCurl, Network, writefunction, fill_buffer, read_round, input_curl_read,
}
use mpd_legacy.Curl.Drain.{Copies, drain_lem}
use mpd_legacy.Curl.Answers.{IsIdle, input_curl_read-IsIdle}
use mpd_legacy.Curl.Pieces.{joined, writes, writes-drain}

-- The parts between single bytes.
abbrev add_byte : ℕ → List (List ℕ) → List (List ℕ)
add_byte b [] = (b ∷ []) ∷ []
add_byte b (part ∷ parts) = (b ∷ part) ∷ parts

abbrev parts : List ℕ → ℕ → List (List ℕ)
parts [] separator = [] ∷ []
parts (b ∷ bytes) separator =
    let rest = parts bytes separator in if b == separator then [] ∷ rest else add_byte b rest

abbrev first_byte : List ℕ → ℕ
first_byte [] = 0
first_byte (b ∷ bytes) = b

-- A tag is the list of its titles.
abbrev titles : Tags (List (List ℕ))
titles = record {
  tag_new = [];
  add_title = λ tag title. title ∷ tag;
  has_name = λ tag. false;
  add_name = λ tag name. tag;
  g_strsplit = λ text separator. parts text (first_byte separator);
}

abbrev off : IcyMetadata (List (List ℕ))
off = record {
  data_size = 0;
  data_rest = 0;
  meta_size = 0;
  meta_position = 0;
  meta_data = λ k. 0;
  tag = none;
}

abbrev four : IcyMetadata (List (List ℕ))
four = start_icy off 4

abbrev stream : List ℕ
stream = codes "abcd" ++ (0 ∷ codes "efgh") ++ (1 ∷ codes "StreamTitle='x';") ++ codes "ij"

abbrev pieces : List (List ℕ)
pieces = take 3 stream ∷ take 7 (drop 3 stream) ∷ drop 10 stream ∷ []

-- Nothing more comes from the network.
abbrev silent : Network (List (List ℕ))
silent = record {
  wait = λ c. record c { connected = false };
  curl_easy_pause = λ c. c;
  writefunc_pause = 0x10000001;
}

abbrev fresh : InputCurl (List (List ℕ))
fresh = record {
  connected = true;
  buffers = [];
  paused = false;
  ready = false;
  offset = 0;
  icy_metadata = four;
  meta_name = none;
  tag = none;
  postponed_error = pos 0;
}

abbrev delivered : InputCurl (List (List ℕ))
delivered = writes silent fresh (λ k. 0) pieces

abbrev drained_music :
    Option (List ℕ × IcyMetadata (List (List ℕ)) × List Buffer)
    → Option (List ℕ × Option (List (List ℕ)))
drained_music none = none
drained_music (some (out, im, buffers)) = some (out, im.tag)

drained :
    drained_music (drain titles (total_buffer_size delivered.buffers) four delivered.buffers 100)
    ≡ some (codes "abcdefghij", some (codes "x" ∷ []))
unfolding writefunction total_buffer_size drain drain_rest read_from_buffer take_bytes take_meta
    next_round consume_buffer data_bytes defined start_icy meta copy_meta end_meta parse_tag
    parse_tag_items parse_tag_item parse_tag_parts add_item c_text is_text strcmp
drained = refl

four-IsSplitting : IsSplitting titles four
unfolding start_icy
four-IsSplitting = record { no_block = λ lt. refl; in_block = λ lt. absurd (omega arith) }

-- Of a buffer with the whole stream, two bytes have been read, and the rest is asked for in part.
abbrev begun : List Buffer
begun =
    record { size = 2; consumed = 0; payload = λ k. 97 + k }
    ∷ record { size = 5; consumed = 1; payload = λ k. k }
    ∷ []

drain_example :
    (c : Copies titles four begun 5 (drain titles (total_buffer_size begun) four begun 5))
    × ((c.left ≡ []) ⊎ (length c.out ≡ 5))
drain_example = drain_lem titles four begun 5 four-IsSplitting (omega arith, (omega arith, tt))

input_curl_read-IsIdle_example :
    IsIdle titles silent delivered (input_curl_read titles silent 3 delivered 100)
input_curl_read-IsIdle_example = input_curl_read-IsIdle titles silent 2 delivered 100

-- The first read of a delivered stream gives one byte, as its caller takes it, and none was copied.
reads_nothing : input_curl_read titles silent 1 delivered 100 ≡ some (pos 1, [], delivered)
unfolding input_curl_read read_round fill_buffer writefunction total_buffer_size
reads_nothing = refl

writes-drain_example :
    let (out, s) = split titles four.data_size (view titles four) (joined pieces) in
    (after : IcyMetadata (List (List ℕ))) × (drain titles
        (total_buffer_size delivered.buffers)
        delivered.icy_metadata
        delivered.buffers
        100
      ≡ some (out, after, []))
    × (view titles after ≡ s)
    × IsSplitting titles after
writes-drain_example =
    writes-drain titles silent fresh (λ k. 0) pieces 100 refl four-IsSplitting (omega arith)
      (omega arith)
