-- ===== src/Setup/Payload.antt =====
-- The payload appended to the setup program (tools/logscope-setup/src/payload.rs): the trailer at
-- the end of the file, and reading the payload that it describes. The file is its bytes, already
-- opened; SHA-256 is a parameter.
pub mod Trailer
pub mod Accepted
pub mod Forward
pub mod Exact
use log_scope.Prelude.{
  ℕ, ◌+◌, ◌-◌, ◌*◌, ◌%◌, ◌^◌, ◌≡◌, List, [], ◌∷◌, ◌++◌, Option, none, some, Bool, true, false, not,
  length, ltb, ◌==◌, if◌then◌else◌,
}
use log_scope.Text.{Text, codes, text_eq}
use log_scope.Bytes.{Bytes, take, drop, slice, to_le_bytes, from_le_bytes, hex}

-- `MAGIC`
abbrev pub magic : Bytes
magic = codes "LOGSCOPE-PAYLOAD-1"

-- `TRAILER_LEN`
abbrev pub trailer_len : ℕ
trailer_len = 8 + 8 + 32 + 4 + length magic

-- `FORMAT_VERSION`
abbrev pub format_version : ℕ
format_version = 1

pub data PayloadError : Type 0 where
  too_small : PayloadError
  no_payload : PayloadError
  unsupported_format : ℕ → PayloadError
  out_of_range : (offset len file : ℕ) → PayloadError
  digest_mismatch : (expected actual : Text) → PayloadError
  io : PayloadError

pub record Payload : Type 0 where
  pub bytes : Bytes
  pub sha256 : Text

pub data PayloadResult : Type 0 where
  ok : Payload → PayloadResult
  err : PayloadError → PayloadResult

-- `u64::checked_add`
unfoldable pub checked_add : ℕ → ℕ → Option ℕ
checked_add a b = if ltb (a + b) (2 ^ 64) then some (a + b) else none

-- `!=` between the sum and the number it has to be
unfoldable pub ends_at : Option ℕ → ℕ → Bool
ends_at none n = false
ends_at (some m) n = m == n

-- `f.seek(SeekFrom::Start(offset))` and `f.read_exact` into a buffer of `len` bytes
unfoldable pub read_exact : ℕ → ℕ → Bytes → Option Bytes
read_exact offset len file =
    let found = take len (drop offset file) in if length found == len then some found else none

module _ (digest : Bytes → Bytes) where
  unfoldable pub check_digest : Bytes → Option Bytes → PayloadResult
  check_digest expected none = err io
  check_digest expected (some bytes) =
      if text_eq (digest bytes) expected
      then ok (record { bytes = bytes; sha256 = hex (digest bytes) })
      else err (digest_mismatch (hex expected) (hex (digest bytes)))

  unfoldable pub read_region : (offset len : ℕ) → Bytes → Bytes → PayloadResult
  read_region offset len expected file =
      if ends_at (checked_add offset len) (length file - trailer_len)
      then check_digest expected (read_exact offset len file)
      else err (out_of_range offset len (length file))

  unfoldable pub read_trailer : Bytes → Option Bytes → PayloadResult
  read_trailer file none = err io
  read_trailer file (some trailer) =
      if text_eq (drop (length trailer - length magic) trailer) magic
      then if from_le_bytes (slice 48 52 trailer) == format_version
        then read_region (from_le_bytes (slice 0 8 trailer)) (from_le_bytes (slice 8 16 trailer))
            (slice 16 48 trailer) file
        else err (unsupported_format (from_le_bytes (slice 48 52 trailer)))
      else err no_payload

  unfoldable pub read_appended : Bytes → PayloadResult
  read_appended file =
      if ltb (length file) trailer_len
      then err too_small
      else read_trailer file (read_exact (length file - trailer_len) trailer_len file)

  -- `payload.len() as u64` is written as it is: a length fits a `u64`.
  unfoldable pub build_trailer : Bytes → ℕ → Bytes
  build_trailer payload offset =
      to_le_bytes 8 offset
      ++ (to_le_bytes 8 (length payload)
          ++ (digest payload ++ (to_le_bytes 4 format_version ++ magic)))
