-- ===== src/IcyMetadata.antt =====
-- src/input/icy_metadata.c and icy_metadata.h: the metadata in the stream of a radio station. After every
-- `data_size` bytes of music stands a byte that gives the size of a block of metadata in units of 16,
-- and then the block. The prefix `icy_` of the functions is the module. Tags, of src/tag.c, are an
-- interface, and so is GLib's `g_strsplit`. What is passed to `free` and `tag_free` is left out.
use mpd_legacy.Common.{
  ℕ, zero, suc, ◌+◌, ◌-◌, ◌*◌, ◌≤◌, ◌<◌, ◌≡◌, Option, none, some, Bool, true, false, ◌&&◌, not,
  List, [], ◌∷◌, ltb, leb, ◌==◌, if◌then◌else◌, slice, store, length, take, drop,
}
use mpd_legacy.Command.{codes, is_text}
pub mod Split
pub mod Inv
pub mod Blocks

pub record IcyMetadata (T : Type 0) : Type 0 where
  pub data_size : ℕ
  pub data_rest : ℕ
  pub meta_size : ℕ
  pub meta_position : ℕ
  pub meta_data : ℕ → ℕ
  pub tag : Option T

-- `tag_new`, `tag_add_item_n` with TAG_TITLE, `tag_has_type` and `tag_add_item` with TAG_NAME, and the
-- parts of a text between separators.
pub record Tags (T : Type 0) : Type 0 where
  pub tag_new : T
  pub add_title : T → List ℕ → T
  pub has_name : T → Bool
  pub add_name : T → List ℕ → T
  pub g_strsplit : List ℕ → List ℕ → List (List ℕ)

-- The text that stands in an array of bytes, up to the first zero byte.
unfoldable pub c_text : List ℕ → List ℕ
c_text [] = []
c_text (zero ∷ bytes) = []
c_text (suc b ∷ bytes) = suc b ∷ c_text bytes

abbrev pub single_quote : ℕ
single_quote = b'\''

-- `value[length - 1]`
abbrev pub last_byte : List ℕ → ℕ
last_byte [] = 0
last_byte (b ∷ []) = b
last_byte (b ∷ c ∷ bytes) = last_byte (c ∷ bytes)

abbrev pub strip_quotes : List ℕ → List ℕ
strip_quotes [] = []
strip_quotes (q ∷ value) =
    if leb 1 (length value) && (q == single_quote) && (last_byte value == single_quote)
    then take (length value - 1) value
    else q ∷ value

module _ {T : Type 0} where
  unfoldable pub defined : IcyMetadata T → Bool
  defined im = ltb 0 im.data_size

  unfoldable pub clear : IcyMetadata T → IcyMetadata T
  clear im = record im { data_size = 0 }

  unfoldable pub start : IcyMetadata T → ℕ → IcyMetadata T
  start im data_size = record im {
    data_size = data_size;
    data_rest = data_size;
    meta_size = 0;
    tag = none;
  }

  unfoldable pub data_bytes : IcyMetadata T → ℕ → ℕ × IcyMetadata T
  data_bytes im length =
      if not (defined im)
      then (length, im)
      else if im.data_rest == 0
      then (0, im)
      else if leb im.data_rest length
      then (im.data_rest, record im { data_rest = 0 })
      else (length, record im { data_rest = im.data_rest - length })

  -- `icy_tag`
  unfoldable pub take_tag : IcyMetadata T → Option T × IcyMetadata T
  take_tag im = (im.tag, record im { tag = none })

module _ {T : Type 0} (tags : Tags T) where
  unfoldable pub add_item : T → List ℕ → T
  add_item tag value =
      let stripped = strip_quotes value in
      if ltb 0 (length stripped) then tags.add_title tag stripped else tag

  unfoldable pub parse_tag_parts : T → List (List ℕ) → T
  parse_tag_parts tag [] = tag
  parse_tag_parts tag (name ∷ []) = tag
  parse_tag_parts tag (name ∷ value ∷ parts) =
      if is_text name (codes "StreamTitle") then add_item tag value else tag

  unfoldable pub parse_tag_item : T → List ℕ → T
  parse_tag_item tag item = parse_tag_parts tag (tags.g_strsplit item (codes "="))

  unfoldable pub parse_tag_items : T → List (List ℕ) → T
  parse_tag_items tag [] = tag
  parse_tag_items tag (item ∷ items) = parse_tag_items (parse_tag_item tag item) items

  unfoldable pub parse_tag : List ℕ → T
  parse_tag p = parse_tag_items tags.tag_new (tags.g_strsplit p (codes ";"))

  -- The block is complete: the tag is read from it, and music follows.
  unfoldable pub end_meta : IcyMetadata T → IcyMetadata T
  end_meta im =
      if im.meta_position == im.meta_size
      then record im {
        tag = some (parse_tag (c_text (slice im.meta_data 0 im.meta_size)));
        meta_size = 0;
        data_rest = im.data_size;
      }
      else im

  -- Bytes of the block, the first `length` from `p` on, as far as they belong to it.
  unfoldable pub copy_meta : IcyMetadata T → (ℕ → ℕ) → ℕ → ℕ → ℕ × IcyMetadata T
  copy_meta im p i length =
      let left = im.meta_size - im.meta_position in
      let n = if ltb left length then left else length in
      (
        n,
        end_meta (record im {
          meta_data = store im.meta_data im.meta_position (slice p i n);
          meta_position = im.meta_position + n;
        }),
      )

  -- `p` and the index `i` are the pointer to the data; a new block starts with the byte of its size. What
  -- stands in the new memory is what stood in the last one.
  unfoldable pub meta : IcyMetadata T → (ℕ → ℕ) → ℕ → ℕ → ℕ × IcyMetadata T
  meta im p i length =
      let (n, im') =
        copy_meta (record im { meta_size = p i * 16; meta_position = 0 }) p (suc i) (length - 1) in
      if im.meta_size == 0
      then (if p i * 16 == 0 then (1, record im { data_rest = im.data_size }) else (suc n, im'))
      else copy_meta im p i length
