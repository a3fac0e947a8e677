-- ===== src/Curl.antt =====
-- The buffers of src/input/curl.c: what the network thread appends to the queue, and what a reader of the
-- stream takes from it, the metadata of src/input/icy_metadata.c cut out. The loops run on fuel, and a
-- null pointer that is followed, as well as fuel that runs out, is `none`. The loop around
-- `cnd_wait` is a parameter, with what the network thread has done when it ends, and so is
-- `curl_easy_pause`. The memory of a new buffer is an argument of the function that writes to it.
use mpd_legacy.Common.{
  ℕ, zero, suc, ◌+◌, ◌-◌, ◌*◌, ◌≤◌, ◌<◌, ◌≡◌, Option, none, some, Bool, true, false, ◌&&◌, ◌||◌,
  not, List, [], ◌∷◌, ◌++◌, ltb, leb, ◌==◌, if◌then◌else◌, slice, store, length,
}
use mpd_legacy.Common.Int.{ℤ, pos, negsuc}
use mpd_legacy.IcyMetadata.{IcyMetadata, Tags, data_bytes, meta, defined, take_tag}
pub mod Reads
pub mod Drain
pub mod Answers
pub mod Pieces
mod Tests

-- `struct buffer`; `payload` is `data`.
pub record Buffer : Type 0 where
  pub size : ℕ
  pub consumed : ℕ
  pub payload : ℕ → ℕ

-- The null pointer stands for a buffer that was used up.
unfoldable pub consume_buffer : Buffer → ℕ → Option Buffer
consume_buffer buffer length =
    if ltb (buffer.consumed + length) buffer.size
    then some (record buffer { consumed = buffer.consumed + length })
    else none

unfoldable pub total_buffer_size : List Buffer → ℕ
total_buffer_size [] = 0
total_buffer_size (buffer ∷ buffers) = buffer.size + total_buffer_size buffers

-- `g_queue_push_head` where there is a buffer left
abbrev pub push_head : Option Buffer → List Buffer → List Buffer
push_head none buffers = buffers
push_head (some buffer) buffers = buffer ∷ buffers

module _ {T : Type 0} (tags : Tags T) where
  abbrev pub Taken : Type 0
  Taken = Option (List ℕ × IcyMetadata T × Option Buffer)

  abbrev pub prepend : List ℕ → Taken → Taken
  prepend out none = none
  prepend out (some (more, im, buffer)) = some (out ++ more, im, buffer)

  -- The end of a round of the loop, where `length` is left, and the next one.
  unfoldable pub next_round :
      (IcyMetadata T → Buffer → ℕ → Taken) → IcyMetadata T → Option Buffer → ℕ → Taken
  next_round again im none zero = some ([], im, none)
  next_round again im (some buffer) zero = some ([], im, some buffer)
  next_round again im none (suc length) = none
  next_round again im (some buffer) (suc length) = again im buffer (suc length)

  -- The part of a round that passes metadata over.
  unfoldable pub take_meta :
      (IcyMetadata T → Buffer → ℕ → Taken) → IcyMetadata T → Option Buffer → ℕ → Taken
  take_meta again im none length = none
  take_meta again im (some buffer) length =
      let (chunk, im') = meta tags im buffer.payload buffer.consumed length in
      if ltb 0 chunk
      then next_round again im' (consume_buffer buffer chunk) (length - chunk)
      else again im' buffer length

  -- The loop of `read_from_buffer`
  unfoldable pub take_bytes : ℕ → IcyMetadata T → Buffer → ℕ → Taken
  take_bytes zero im buffer length = none
  take_bytes (suc fuel) im buffer length =
      let (chunk, im') = data_bytes im length in
      let out = slice buffer.payload buffer.consumed chunk in
      let left = if ltb 0 chunk then consume_buffer buffer chunk else some buffer in
      let rest = take_meta (take_bytes fuel) im' left (length - chunk) in
      if ltb 0 chunk && (length - chunk == 0) then some (out, im', left) else prepend out rest

  abbrev pub put_back : List Buffer → Taken → Option (List ℕ × IcyMetadata T × List Buffer)
  put_back buffers none = none
  put_back buffers (some (out, im, left)) = some (out, im, push_head left buffers)

  unfoldable pub read_from_buffer :
      IcyMetadata T → List Buffer → ℕ → Option (List ℕ × IcyMetadata T × List Buffer)
  read_from_buffer im [] length = none
  read_from_buffer im (buffer ∷ buffers) length =
      let held = buffer.size - buffer.consumed in
      let n = if ltb held length then held else length in
      put_back buffers (take_bytes n im buffer n)

  abbrev pub Drained : Type 0
  Drained = Option (List ℕ × IcyMetadata T × List Buffer)

  abbrev pub add_copied : List ℕ → Drained → Drained
  add_copied out none = none
  add_copied out (some (more, im, buffers)) = some (out ++ more, im, buffers)

  -- What follows a read in the loop, for the size that is left.
  unfoldable pub drain_rest : (IcyMetadata T → List Buffer → ℕ → Drained) → ℕ → Drained → Drained
  drain_rest again size none = none
  drain_rest again size (some (out, im, buffers)) =
      add_copied out (again im buffers (size - length out))

  -- The inner loop of `input_curl_read`
  unfoldable pub drain : ℕ → IcyMetadata T → List Buffer → ℕ → Drained
  drain fuel im [] size = some ([], im, [])
  drain fuel im (buffer ∷ buffers) zero = some ([], im, buffer ∷ buffers)
  drain zero im (buffer ∷ buffers) (suc size) = none
  drain (suc fuel) im (buffer ∷ buffers) (suc size) =
      drain_rest (drain fuel) (suc size) (read_from_buffer im (buffer ∷ buffers) (suc size))

-- `struct input_curl`, but for what goes to libcurl; `connected` says that `easy` is not null. The error is
-- a negated one of src/err.h, or 0, which is MPD_SUCCESS.
pub record InputCurl (T : Type 0) : Type 0 where
  pub connected : Bool
  pub buffers : List Buffer
  pub paused : Bool
  pub ready : Bool
  pub offset : ℕ
  pub icy_metadata : IcyMetadata T
  pub meta_name : Option (List ℕ)
  pub tag : Option T
  pub postponed_error : ℤ

-- `MPD_SUCCESS` is 0.
abbrev pub is_success : ℤ → Bool
is_success (pos n) = n == 0
is_success (negsuc n) = false

abbrev pub max_buffered : ℕ
max_buffered = 512 * 1024

abbrev pub resume_at : ℕ
resume_at = 384 * 1024

abbrev pub is_empty : List Buffer → Bool
is_empty [] = true
is_empty (buffer ∷ buffers) = false

-- Of the network thread and libcurl: what has happened when `cnd_wait` and its loop are over, and when a
-- paused transfer goes on.
pub record Network (T : Type 0) : Type 0 where
  pub wait : InputCurl T → InputCurl T
  pub curl_easy_pause : InputCurl T → InputCurl T
  pub writefunc_pause : ℕ

module _ {T : Type 0} where
  -- `memory` is what stands in the new buffer.
  unfoldable pub writefunction : Network T → InputCurl T → (ℕ → ℕ) → List ℕ → ℕ × InputCurl T
  writefunction network c memory bytes =
      let size = length bytes in
      if size == 0
      then (0, c)
      else if leb max_buffered (total_buffer_size c.buffers + size)
      then (network.writefunc_pause, record c { paused = true })
      else (
        size,
        record c {
          buffers =
              c.buffers
              ++ (record { size = size; consumed = 0; payload = store memory 0 bytes } ∷ []);
          ready = true;
        },
      )

  unfoldable pub available : InputCurl T → Bool
  available c = not (is_success c.postponed_error) || not c.connected || not (is_empty c.buffers)

  unfoldable pub eof : InputCurl T → Bool
  eof c = not c.connected && is_empty c.buffers

module _ {T : Type 0} (tags : Tags T) (network : Network T) where
  -- The result is an error, or whether the queue holds something.
  unfoldable pub fill_buffer : InputCurl T → ℤ × InputCurl T
  fill_buffer c =
      let c' = if c.connected && is_empty c.buffers then network.wait c else c in
      if not (is_success c'.postponed_error)
      then (c'.postponed_error, record c' { postponed_error = pos 0 })
      else (if is_empty c'.buffers then pos 0 else pos 1, c')

  abbrev pub named : Option (List ℕ) → T → T
  named none tag = tag
  named (some name) tag = if tags.has_name tag then tag else tags.add_name tag name

  abbrev pub with_tag : InputCurl T → Option T → InputCurl T
  with_tag c none = c
  with_tag c (some tag) = record c { tag = some (named c.meta_name tag) }

  unfoldable pub copy_icy_tag : InputCurl T → InputCurl T
  copy_icy_tag c =
      let (tag, im) = take_tag c.icy_metadata in with_tag (record c { icy_metadata = im }) tag

  unfoldable pub resume : InputCurl T → InputCurl T
  resume c = if c.paused then network.curl_easy_pause (record c { paused = false }) else c

  -- Behind the loop, with the number of bytes copied.
  unfoldable pub end_read : InputCurl T → ℕ → InputCurl T
  end_read c nbytes =
      let tagged = if defined c.icy_metadata then copy_icy_tag c else c in
      let moved = record tagged { offset = tagged.offset + nbytes } in
      if moved.paused && ltb (total_buffer_size moved.buffers) resume_at
      then resume moved
      else moved

  -- What is returned, the bytes copied, and the state.
  abbrev pub Answer : Type 0
  Answer = Option (ℤ × List ℕ × InputCurl T)

  unfoldable pub after_drain : (InputCurl T → ℕ → Answer) → InputCurl T → ℕ → Drained tags → Answer
  after_drain again c size none = none
  after_drain again c size (some (out, im, buffers)) =
      let c' = record c { icy_metadata = im; buffers = buffers } in
      let more = again c' size in
      if length out == 0 then more else some (pos (length out), out, end_read c' (length out))

  -- A round of the outer loop
  unfoldable pub read_round : (InputCurl T → ℕ → Answer) → InputCurl T → ℕ → Answer
  read_round again c size =
      let (ret, c') = fill_buffer c in
      if not (is_success ret)
      then some (ret, [], c')
      else after_drain again c' size
          (drain tags (total_buffer_size c'.buffers) c'.icy_metadata c'.buffers size)

  unfoldable pub input_curl_read : ℕ → InputCurl T → ℕ → Answer
  input_curl_read zero c size = none
  input_curl_read (suc fuel) c size = read_round (input_curl_read fuel) c size
