-- ===== src/Model/Digest.antt =====
-- Content hashing (crates/logscope-model/src/hashing.rs). A `Digest` is the bytes that its hasher
-- was fed; BLAKE3 and its hexadecimal form are a parameter.
use log_scope.Prelude.{
  ℕ, ◌+◌, ◌-◌, ◌/◌, ◌%◌, ◌^◌, Bool, Option, none, some, [], ◌∷◌, ◌++◌, length, ltb, if◌then◌else◌,
}
use log_scope.Prelude.Int.{ℤ, pos, negsuc}
use log_scope.Text.{Text, codes}
use log_scope.Bytes.{Bytes, to_le_bytes, take}

-- `str::as_bytes`, of one character and of a text
unfoldable pub utf8_char : ℕ → Bytes
utf8_char c =
    if ltb c 0x80
    then c ∷ []
    else if ltb c 0x800
    then (0xc0 + c / 0x40) ∷ (0x80 + c % 0x40) ∷ []
    else if ltb c 0x10000
    then (0xe0 + c / 0x1000) ∷ (0x80 + c / 0x40 % 0x40) ∷ (0x80 + c % 0x40) ∷ []
    else (0xf0 + c / 0x40000)
      ∷ (0x80 + c / 0x1000 % 0x40)
      ∷ (0x80 + c / 0x40 % 0x40)
      ∷ (0x80 + c % 0x40)
      ∷ []

unfoldable pub utf8 : Text → Bytes
utf8 [] = []
utf8 (c ∷ cs) = utf8_char c ++ utf8 cs

-- Two's complement of `k` bytes.
abbrev pub wrapped : ℕ → ℤ → ℕ
wrapped k (pos n) = n % 256 ^ k
wrapped k (negsuc n) = 256 ^ k - 1 - n % 256 ^ k

pub record Digest : Type 0 where
  pub fed : Bytes

-- `Digest::new`
abbrev pub new : Digest
new = record { fed = [] }

-- `hasher.update`
unfoldable pub update : Digest → Bytes → Digest
update d bs = record { fed = d.fed ++ bs }

unfoldable pub tag : Digest → ℕ → Digest
unfolding update
tag d t = update d (t ∷ [])

-- `Digest::bytes`; a length fits a `u64`
unfoldable pub bytes : Digest → Bytes → Digest
unfolding update
bytes d bs = update (update d (to_le_bytes 8 (length bs))) bs

unfoldable pub str : Digest → Text → Digest
unfolding bytes
str d s = bytes d (utf8 s)

unfoldable pub bool : Digest → Bool → Digest
unfolding update
bool d b = update d ((if b then 1 else 0) ∷ [])

unfoldable pub u8 : Digest → ℕ → Digest
unfolding update
u8 d v = update d (v ∷ [])

unfoldable pub u32 : Digest → ℕ → Digest
unfolding update
u32 d v = update d (to_le_bytes 4 v)

unfoldable pub i32 : Digest → ℤ → Digest
unfolding update
i32 d v = update d (to_le_bytes 4 (wrapped 4 v))

unfoldable pub u64 : Digest → ℕ → Digest
unfolding update
u64 d v = update d (to_le_bytes 8 v)

unfoldable pub i64 : Digest → ℤ → Digest
unfolding update
i64 d v = update d (to_le_bytes 8 (wrapped 8 v))

-- `Digest::f64_bits`, of the bits
unfoldable pub f64_bits : Digest → ℕ → Digest
unfolding update
f64_bits d bits = update d (to_le_bytes 8 bits)

-- `opt_str`, `opt_i64` and the others: tag 0, or tag 1 and the value
unfoldable pub opt : {A : Type 0} → (Digest → A → Digest) → Digest → Option A → Digest
unfolding tag
opt write d none = tag d 0
opt write d (some a) = write (tag d 1) a

module _ (blake3_hex : Bytes → Text) where
  -- `finish_hex32`
  unfoldable pub finish_hex32 : Digest → Text
  finish_hex32 d = take 32 (blake3_hex d.fed)

  unfoldable pub stable_id : Text → (Digest → Digest) → Text
  unfolding finish_hex32
  stable_id prefix write = prefix ++ (codes "-" ++ finish_hex32 (write new))

  -- `finish_hex`
  unfoldable pub finish_hex : Digest → Text
  finish_hex d = blake3_hex d.fed

  unfoldable pub hash_bytes_hex : Bytes → Text
  hash_bytes_hex bs = blake3_hex bs
