-- ===== src/Model/TraceIds.antt =====
-- Trace and span ids (crates/logscope-model/src/trace_ids.rs). A `str` is its bytes here; `TraceId`
-- and `SpanId` differ only in their length of `n` bytes.
pub mod Digits
pub mod Reading
pub mod Canonical
use log_scope.Prelude.{
  ℕ, ◌*◌, ◌+◌, Bool, true, false, ◌&&◌, ◌||◌, List, [], ◌∷◌, Option, none, some, all, map, length,
  leb, ◌==◌, if◌then◌else◌,
}
use log_scope.Bytes.{Bytes, hex}
use log_scope.QueryLang.Resolve.Literals.{to_ascii_lowercase}

pub data IdError : Type 0 where
  wrong_length : (expected got : ℕ) → IdError
  not_hex all_zero : IdError

-- `Result<T, IdError>`
pub data IdResult (A : Type 0) : Type 0 where
  ok : A → IdResult A
  err : IdError → IdResult A

-- `u8::is_ascii_hexdigit`
unfoldable pub is_ascii_hexdigit : ℕ → Bool
is_ascii_hexdigit c =
    (leb b'0' c && leb c b'9') || (leb b'a' c && leb c b'f') || (leb b'A' c && leb c b'F')

abbrev pub is_zero_digit : ℕ → Bool
is_zero_digit c = c == b'0'

abbrev pub is_zero_byte : ℕ → Bool
is_zero_byte b = b == 0

unfoldable pub validate_hex : Bytes → ℕ → IdResult Bytes
unfolding is_ascii_hexdigit
validate_hex s expected_len =
    if length s == expected_len
    then if all is_ascii_hexdigit s
      then if all is_zero_digit (map to_ascii_lowercase s)
        then err all_zero
        else ok (map to_ascii_lowercase s)
      else err not_hex
    else err (wrong_length expected_len (length s))

unfoldable pub bytes_to_hex : Bytes → Bytes
unfolding hex
bytes_to_hex bs = hex bs

-- `from_hex` of an id of `n` bytes
unfoldable pub from_hex : ℕ → Bytes → IdResult Bytes
unfolding validate_hex
from_hex n s = validate_hex s (2 * n)

-- `from_bytes` of an id of `n` bytes
unfoldable pub from_bytes : ℕ → Bytes → IdResult (Option Bytes)
unfolding bytes_to_hex
from_bytes n [] = ok none
from_bytes n (b ∷ bs) =
    if length (b ∷ bs) == n
    then if all is_zero_byte (b ∷ bs) then ok none else ok (some (bytes_to_hex (b ∷ bs)))
    else err (wrong_length n (length (b ∷ bs)))
