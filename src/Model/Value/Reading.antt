-- ===== src/Model/Value/Reading.antt =====
-- A value can be read back from its bytes in a digest, whatever follows them.
use log_scope.Prelude.{
  ℕ, zero, suc, ◌-◌, ◌%◌, ◌^◌, ◌≤◌, ◌<◌, ◌≡◌, ◌∙◌, refl, ap, Bool, false, [], ◌∷◌, ◌++◌, length,
  ltb, lt→ltb, le→not-ltb, if◌then◌else◌, append_assoc, arith, ◌==◌, max,
}
use log_scope.Prelude.Int.{ℤ, pos, negsuc}
use log_scope.Text.{Text}
use log_scope.Bytes.{
  Bytes, take, drop, take-append, drop-append, to_le_bytes, from_le_bytes, length-to_le_bytes,
  from_le_bytes-to_le_bytes,
}
use log_scope.Model.Digest.{utf8, wrapped}
use log_scope.Model.Utf8.{text_from, text_from-utf8}
use log_scope.Model.Value.{AnyValue, AnyValues, AttrMap, items_length, map_length}
use log_scope.Model.Value.Encoding.{sized}

-- `i64`
abbrev pub IsI64 : ℤ → Type 0
IsI64 (pos n) = n < 2 ^ 63
IsI64 (negsuc n) = n < 2 ^ 63

-- What the types of the program ensure: lengths and bits fit a `u64`, and integers an `i64`.
unfoldable mutual
  pub IsValid : AnyValue → Type 0
  IsValid AnyValue.empty = Unit
  IsValid (AnyValue.str s) = length (utf8 s) < 256 ^ 8
  IsValid (AnyValue.bool b) = Unit
  IsValid (AnyValue.int i) = IsI64 i
  IsValid (AnyValue.double bits) = bits < 256 ^ 8
  IsValid (AnyValue.bytes bs) = length bs < 256 ^ 8
  IsValid (AnyValue.array vs) = (items_length vs < 256 ^ 8) × AreValid vs
  IsValid (AnyValue.map m) = (map_length m < 256 ^ 8) × EntriesValid m

  pub AreValid : AnyValues → Type 0
  AreValid AnyValues.nil = Unit
  AreValid (AnyValues.cons v vs) = IsValid v × AreValid vs

  pub EntriesValid : AttrMap → Type 0
  EntriesValid AttrMap.done = Unit
  EntriesValid (AttrMap.entry k v m) = (length (utf8 k) < 256 ^ 8) × IsValid v × EntriesValid m

-- Readers of the parts.
abbrev pub word_from : Bytes → ℕ × Bytes
word_from bs = (from_le_bytes (take 8 bs), drop 8 bs)

abbrev pub unwrapped : ℕ → ℤ
unwrapped n = if ltb n (2 ^ 63) then pos n else negsuc (2 ^ 64 - 1 - n)

abbrev pub cut : ℕ × Bytes → Bytes × Bytes
cut (n, rest) = (take n rest, drop n rest)

abbrev pub bytes_from : Bytes → Bytes × Bytes
bytes_from bs = cut (word_from bs)

abbrev pub as_text : Bytes × Bytes → Text × Bytes
as_text (s, rest) = (text_from (length s) s, rest)

abbrev pub str_from : Bytes → Text × Bytes
str_from bs = as_text (bytes_from bs)

module _ (r : Bytes → AnyValue × Bytes) where
  abbrev pub add_item : AnyValue → AnyValues × Bytes → AnyValues × Bytes
  add_item v (vs, rest) = (AnyValues.cons v vs, rest)

  abbrev pub items_from : ℕ → Bytes → AnyValues × Bytes
  items_from zero bs = (AnyValues.nil, bs)
  items_from (suc k) bs = add_item (r bs).0 (items_from k (r bs).1)

  abbrev pub array_from : Bytes → AnyValues × Bytes
  array_from bs = items_from (word_from bs).0 (word_from bs).1

  abbrev pub add_entry : Text → AnyValue → AttrMap × Bytes → AttrMap × Bytes
  add_entry s v (m, rest) = (AttrMap.entry s v m, rest)

  abbrev pub entries_from : ℕ → Bytes → AttrMap × Bytes
  entries_from zero bs = (AttrMap.done, bs)
  entries_from (suc k) bs =
      add_entry (str_from bs).0 (r (str_from bs).1).0 (entries_from k (r (str_from bs).1).1)

  abbrev pub map_from : Bytes → AttrMap × Bytes
  map_from bs = entries_from (word_from bs).0 (word_from bs).1

abbrev pub first_bit : Bytes → Bool
first_bit [] = false
first_bit (b ∷ bs) = b == 1

-- What stands behind a tag.
unfoldable pub tagged_from : (Bytes → AnyValue × Bytes) → ℕ → Bytes → AnyValue × Bytes
tagged_from r t bs =
    if t == 1
    then (AnyValue.str (str_from bs).0, (str_from bs).1)
    else if t == 2
    then (AnyValue.bool (first_bit bs), drop 1 bs)
    else if t == 3
    then (AnyValue.int (unwrapped (word_from bs).0), (word_from bs).1)
    else if t == 4
    then (AnyValue.double (word_from bs).0, (word_from bs).1)
    else if t == 5
    then (AnyValue.bytes (bytes_from bs).0, (bytes_from bs).1)
    else if t == 6
    then (AnyValue.array (array_from r bs).0, (array_from r bs).1)
    else if t == 7
    then (AnyValue.map (map_from r bs).0, (map_from r bs).1)
    else (AnyValue.empty, bs)

-- Reads a value, with one unit of fuel for each level of nesting.
unfoldable pub value_from : ℕ → Bytes → AnyValue × Bytes
unfolding tagged_from
value_from zero bs = (AnyValue.empty, bs)
value_from (suc f) [] = (AnyValue.empty, [])
value_from (suc f) (t ∷ bs) = tagged_from (value_from f) t bs

unfoldable mutual
  pub height : AnyValue → ℕ
  height (AnyValue.array vs) = suc (items_height vs)
  height (AnyValue.map m) = suc (entries_height m)
  height _ = 1

  pub items_height : AnyValues → ℕ
  items_height AnyValues.nil = 0
  items_height (AnyValues.cons v vs) = max (height v) (items_height vs)

  pub entries_height : AttrMap → ℕ
  entries_height AttrMap.done = 0
  entries_height (AttrMap.entry k v m) = max (height v) (entries_height m)

pub word_from-eq :
    (n : ℕ) (rest : Bytes) → n < 256 ^ 8 → word_from (to_le_bytes 8 n ++ rest) ≡ (n, rest)
word_from-eq n rest h =
    rw
      (
        take-append (to_le_bytes 8 n) rest 8 (length-to_le_bytes 8 n),
        drop-append (to_le_bytes 8 n) rest 8 (length-to_le_bytes 8 n),
        from_le_bytes-to_le_bytes 8 n h,
      )
      refl

pub bytes_from-sized :
    (bs rest : Bytes) → length bs < 256 ^ 8 → bytes_from (sized bs ++ rest) ≡ (bs, rest)
bytes_from-sized bs rest h =
    ap (λ l. bytes_from l) (append_assoc (to_le_bytes 8 (length bs)) bs rest)
    ∙ ap cut (word_from-eq (length bs) (bs ++ rest) h)
    ∙ ap (λ (p : Bytes × Bytes). p)
        (rw (take-append bs rest (length bs) refl, drop-append bs rest (length bs) refl) refl)

pub str_from-sized :
    (s : Text) (rest : Bytes)
    → length (utf8 s) < 256 ^ 8
    → str_from (sized (utf8 s) ++ rest) ≡ (s, rest)
str_from-sized s rest h =
    ap as_text (bytes_from-sized (utf8 s) rest h)
    ∙ ap (λ t. (t, rest)) (text_from-utf8 s (length (utf8 s)) (omega arith))

unwrapped_low : (n : ℕ) → n < 2 ^ 63 → unwrapped n ≡ pos n
unwrapped_low n h = rw (lt→ltb n (2 ^ 63) h) refl

unwrapped_high : (n : ℕ) → 2 ^ 63 ≤ n → unwrapped n ≡ negsuc (2 ^ 64 - 1 - n)
unwrapped_high n h = rw (le→not-ltb n (2 ^ 63) h) refl

pub unwrapped-wrapped : (i : ℤ) → IsI64 i → unwrapped (wrapped 8 i) ≡ i
unwrapped-wrapped (pos n) h =
    unwrapped_low (n % 256 ^ 8) (omega (arith, h)) ∙ ap pos (omega (arith, h))
unwrapped-wrapped (negsuc n) h =
    unwrapped_high (256 ^ 8 - 1 - n % 256 ^ 8) (omega (arith, h)) ∙ ap negsuc (omega (arith, h))
