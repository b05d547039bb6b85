-- ===== src/Ingest/Jsonl.antt =====
-- The reader of JSON lines (crates/logscope-ingest/src/reader.rs). Its input is the bytes that are
-- left, so no read fails, and a count of bytes or lines fits a `u64`. JSON, the standard library's
-- decoding of UTF-8 and BLAKE3 are parameters.
pub mod End
pub mod Located
use log_scope.Prelude.{
  ℕ, zero, suc, ◌+◌, ◌*◌, String, Bool, true, false, not, ◌&&◌, ◌||◌, List, [], ◌∷◌, Option, none,
  some, all, length, last, ltb, ◌==◌, if◌then◌else◌,
}
use log_scope.Text.{Text}
use log_scope.Bytes.{Bytes, take, drop}
use log_scope.Model.Digest.{hash_bytes_hex}

-- The fields of `RecordLocator` that the reader fills; the others are their defaults.
pub record RecordLocator : Type 0 where
  pub record_number : ℕ
  pub line_start : ℕ
  pub line_end : ℕ
  pub byte_start : ℕ
  pub byte_end : ℕ

-- The message of a malformed record: the size bound it exceeds, or what the JSON parser says.
pub data Message : Type 0 where
  record_exceeds : ℕ → Message
  of_error : Text → Message

pub data ReadItem (J : Type 0) : Type 0 where
  parsed : RecordLocator → (raw_hash : Text) → J → (replacement_chars : ℕ) → ReadItem J
  malformed :
      RecordLocator
      → (reason_code : String) → (message : Message) → (raw_excerpt : Bytes) → (truncated : Bool)
      → ReadItem J

-- `Result<serde_json::Value, serde_json::Error>`
pub data JsonResult (J : Type 0) : Type 0 where
  value : J → JsonResult J
  invalid : Text → JsonResult J

-- What the reader takes from other libraries.
pub record Decoders (J : Type 0) : Type 0 where
  pub from_utf8 : Bytes → Option Text
  pub from_utf8_lossy : Bytes → Text
  pub from_str : Text → JsonResult J
  pub blake3_hex : Bytes → Text

pub record JsonlReader : Type 0 where
  pub rest : Bytes
  pub line_no : ℕ
  pub record_no : ℕ
  pub byte_pos : ℕ
  pub done : Bool

abbrev pub max_raw_excerpt : ℕ
max_raw_excerpt = 4096

abbrev pub max_record_bytes : ℕ
max_record_bytes = 64 * 1024 * 1024

-- `JsonlReader::new`
abbrev pub new_reader : Bytes → JsonlReader
new_reader bs = record { rest = bs; line_no = 0; record_no = 0; byte_pos = 0; done = false }

-- `read_until(b'\n')`: the line with its end, and what is left.
unfoldable pub read_until : Bytes → Bytes × Bytes
read_until [] = ([], [])
read_until (b ∷ bs) =
    let (line, rest) = read_until bs in if b == 10 then (b ∷ [], bs) else (b ∷ line, rest)

abbrev pub ends_with : ℕ → Bytes → Bool
ends_with b [] = false
ends_with b (x ∷ []) = x == b
ends_with b (x ∷ y ∷ ys) = ends_with b (y ∷ ys)

-- The bytes without the last one, if it is `b`.
unfoldable pub chop : ℕ → Bytes → Bytes
chop b [] = []
chop b (x ∷ []) = if x == b then [] else x ∷ []
chop b (x ∷ y ∷ ys) = x ∷ chop b (y ∷ ys)

unfoldable pub is_bom : Bytes → Bool
is_bom (a ∷ b ∷ c ∷ cs) = a == 0xef && (b == 0xbb && c == 0xbf)
is_bom _ = false

-- How many bytes of the line are skipped: those of the BOM on the first line.
unfoldable pub skipped : ℕ → Bytes → ℕ
unfolding is_bom
skipped line_no content = if line_no == 1 && is_bom content then 3 else 0

-- `u8::is_ascii_whitespace`
unfoldable pub is_ascii_whitespace : ℕ → Bool
is_ascii_whitespace b = b == 9 || (b == 10 || (b == 12 || (b == 13 || b == 32)))

-- `fill_buf` at the end of the input gives nothing.
abbrev pub is_eof : Bytes → Bool
is_eof [] = true
is_eof (b ∷ bs) = false

abbrev pub locator_of : (record_no line_no start : ℕ) → Bytes → RecordLocator
locator_of record_no line_no start content = record {
  record_number = record_no;
  line_start = line_no;
  line_end = line_no;
  byte_start = start;
  byte_end = start + length content;
}

-- How many characters of a text are U+FFFD.
abbrev pub replacements : Text → ℕ
replacements [] = 0
replacements (c ∷ cs) = let rest = replacements cs in if c == 0xfffd then suc rest else rest

module _ {J : Type 0} (d : Decoders J) where
  abbrev pub lossy : Option Text → Bytes → Text × ℕ
  lossy (some s) bytes = (s, 0)
  lossy none bytes = (d.from_utf8_lossy bytes, replacements (d.from_utf8_lossy bytes))

  unfoldable pub decode_utf8_lossy_counted : Bytes → Text × ℕ
  decode_utf8_lossy_counted bytes = lossy (d.from_utf8 bytes) bytes

  -- The item of a record's text.
  unfoldable pub decoded :
      RecordLocator → Bytes → (truncated : Bool) → ℕ → JsonResult J → ReadItem J
  unfolding hash_bytes_hex
  decoded loc content truncated replacement_chars (value j) =
      parsed loc (hash_bytes_hex d.blake3_hex content) j replacement_chars
  decoded loc content truncated replacement_chars (invalid e) =
      malformed loc (if truncated then "parse/truncated-record" else "parse/invalid-json")
        (of_error e) (take max_raw_excerpt content) truncated

  unfoldable pub item_of : RecordLocator → Bytes → (truncated : Bool) → ReadItem J
  unfolding decoded decode_utf8_lossy_counted
  item_of loc content truncated =
      if ltb max_record_bytes (length content)
      then malformed loc "parse/record-too-large" (record_exceeds max_record_bytes)
          (take max_raw_excerpt content) false
      else decoded loc content truncated (decode_utf8_lossy_counted content).1
          (d.from_str (decode_utf8_lossy_counted content).0)

  -- The part of the loop behind the BOM: a blank line is no record.
  unfoldable pub read_content :
      Bytes → (had_newline : Bool) → (start : ℕ) → JsonlReader → Option (ReadItem J) × JsonlReader
  unfolding item_of is_ascii_whitespace
  read_content content had_newline start s =
      if all is_ascii_whitespace content then (none, s) else (
        some (
            item_of (locator_of (suc s.record_no) s.line_no start content) content
              (not had_newline && is_eof s.rest)),
        record s { record_no = suc s.record_no },
      )

  -- The loop's body on a line that is not empty; `s` is the reader behind it.
  unfoldable pub read_line : Bytes → JsonlReader → Option (ReadItem J) × JsonlReader
  unfolding read_content skipped chop
  read_line buf s =
      let content = chop 13 (chop 10 buf) in
      let skip = skipped (suc s.line_no) content in
      read_content (drop skip content) (ends_with 10 buf) (s.byte_pos + skip)
        (record s { byte_pos = s.byte_pos + length buf; line_no = suc s.line_no })

  abbrev pub kept :
      Option (ReadItem J) → List (ReadItem J) × JsonlReader → List (ReadItem J) × JsonlReader
  kept none r = r
  kept (some i) (is, s) = (i ∷ is, s)

  abbrev pub room : Option (ReadItem J) → ℕ → ℕ → ℕ
  room none max less = max
  room (some i) max less = less

  -- The loop of `next_batch`, with room for `max` items, and one unit of fuel for each byte and one
  -- more.
  unfoldable pub batch_loop : ℕ → ℕ → JsonlReader → List (ReadItem J) × JsonlReader
  unfolding read_until read_line
  batch_loop zero max s = ([], s)
  batch_loop (suc fuel) zero s = ([], s)
  batch_loop (suc fuel) (suc less) s =
      let (buf, rest) = read_until s.rest in
      let (item, next) = read_line buf (record s { rest = rest }) in
      let more = kept item (batch_loop fuel (room item (suc less) less) next) in
      if s.done then ([], s) else if is_eof s.rest then ([], record s { done = true }) else more

  unfoldable pub next_batch : ℕ → JsonlReader → List (ReadItem J) × JsonlReader
  unfolding batch_loop
  next_batch max s = batch_loop (suc (length s.rest)) max s
