-- ===== src/Ingest/Jsonl/Located.antt =====
-- The locators of the items point at their bytes.
use log_scope.Prelude.{
  ℕ, zero, suc, ◌+◌, ◌≤◌, ◌≡◌, ◌∙◌, refl, sym, ap, subst, inl, inr, Bool, true, false, Bool-cases,
  not, ◌&&◌, List, [], ◌∷◌, ◌++◌, append_assoc, All, all, length, length-append, Option, none, some,
  ltb, ◌==◌, if◌then◌else◌, arith,
}
use log_scope.Text.{Text}
use log_scope.Bytes.{Bytes, take, drop, slice, take-append, drop-append, take-drop, length-take}
use log_scope.Model.Digest.{hash_bytes_hex}
use log_scope.Ingest.Jsonl.{
  decode_utf8_lossy_counted, Message, RecordLocator, ReadItem, parsed, malformed, JsonResult, value,
  invalid, Decoders, JsonlReader, max_raw_excerpt, max_record_bytes, read_until, chop, is_bom,
  skipped, is_ascii_whitespace, decoded, item_of, is_eof, locator_of, read_content, read_line, kept,
  room, batch_loop, next_batch,
}

-- The bytes that a locator names in the input.
abbrev pub located_bytes : Bytes → RecordLocator → Bytes
located_bytes file loc = slice loc.byte_start loc.byte_end file

-- An item names bytes inside the input: its hash is theirs, or its excerpt starts them.
pub data Located {J : Type 0} (d : Decoders J) (file : Bytes) : ReadItem J → Type 0 where
  of_parsed :
      {loc : RecordLocator} {h : Text} {j : J} {n : ℕ}
      → loc.byte_end ≤ length file
      → h ≡ hash_bytes_hex d.blake3_hex (located_bytes file loc)
      → Located d file (parsed loc h j n)
  of_malformed :
      {loc : RecordLocator} {code : _} {m : Message} {excerpt : Bytes} {truncated : Bool}
      → loc.byte_end ≤ length file
      → excerpt ≡ take max_raw_excerpt (located_bytes file loc)
      → Located d file (malformed loc code m excerpt truncated)

-- The reader stands in the input where its position says.
pub record Stands (file : Bytes) (s : JsonlReader) : Type 0 where
  pub before : Bytes
  pub splits : file ≡ before ++ s.rest
  pub position : length before ≡ s.byte_pos

read_until-splits : (bs : Bytes) → (read_until bs).0 ++ (read_until bs).1 ≡ bs
unfolding read_until
read_until-splits [] = refl
read_until-splits (b ∷ bs) = elim (Bool-cases (b == 10)) [
  | inl e ↦ rw e refl
  | inr e ↦ rw e (ap (◌∷◌ b) (read_until-splits bs))
]

chop_front : (b : ℕ) (xs : Bytes) → (back : Bytes) × (chop b xs ++ back ≡ xs)
unfolding chop
chop_front b [] = ([], refl)
chop_front b (x ∷ []) = elim (Bool-cases (x == b)) [
  | inl e ↦ rw e (x ∷ [], refl)
  | inr e ↦ rw e ([], refl)
]
chop_front b (x ∷ y ∷ ys) = let (back, h) = chop_front b (y ∷ ys) in (back, ap (◌∷◌ x) h)

bom_length : (content : Bytes) → is_bom content ≡ true → 3 ≤ length content
unfolding is_bom
bom_length [] h = absurd (cc h)
bom_length (a ∷ []) h = absurd (cc h)
bom_length (a ∷ b ∷ []) h = absurd (cc h)
bom_length (a ∷ b ∷ c ∷ cs) h = omega arith

skipped_within : (n : ℕ) (content : Bytes) → skipped n content ≤ length content
unfolding skipped
skipped_within n content = elim (Bool-cases (is_bom content)) [
  | inl e ↦ elim (Bool-cases (n == 1)) [
    | inl f ↦ rw (f, e) (bom_length content e)
    | inr f ↦ rw f (omega arith)
  ]
  | inr e ↦ elim (Bool-cases (n == 1)) [
    | inl f ↦ rw (f, e) (omega arith)
    | inr f ↦ rw f (omega arith)
  ]
]

slice-middle :
    (front content back : Bytes)
    → slice (length front) (length front + length content) (front ++ (content ++ back)) ≡ content
slice-middle front content back =
    rw (drop-append front (content ++ back) (length front) refl)
      (take-append content back _ (omega arith))

module _ {J : Type 0} (d : Decoders J) (file : Bytes) where
  item_of-Located :
      (loc : RecordLocator) (content : Bytes) (truncated : Bool)
      → loc.byte_end ≤ length file
      → located_bytes file loc ≡ content
      → Located d file (item_of d loc content truncated)
  unfolding item_of decoded
  item_of-Located loc content truncated h is =
      elim (Bool-cases (ltb max_record_bytes (length content))) [
        | inl e ↦ rw e (of_malformed h (ap (take max_raw_excerpt) (sym is)))
        | inr e ↦ rw e (decoded_as _)
      ]
    where
      decoded_as :
          (r : JsonResult J)
          → Located d file
              (decoded d loc content truncated (decode_utf8_lossy_counted d content).1 r)
      decoded_as (value j) = of_parsed h (ap (hash_bytes_hex d.blake3_hex) (sym is))
      decoded_as (invalid e) = of_malformed h (ap (take max_raw_excerpt) (sym is))

  -- What one line leaves.
  record Step (r : Option (ReadItem J) × JsonlReader) : Type 0 where
    located : (i : ReadItem J) → r.0 ≡ some i → Located d file i
    stands : Stands file r.1

  read_content-Step :
      (front content back : Bytes) (had_newline : Bool) (start : ℕ) (s : JsonlReader)
      → file ≡ front ++ (content ++ back)
      → length front ≡ start
      → Stands file s
      → Step (read_content d content had_newline start s)
  unfolding read_content
  read_content-Step front content back had_newline start s is at stands =
      elim (Bool-cases (all is_ascii_whitespace content)) [
        | inl e ↦ rw e (record { located = λ i h. absurd (cc h); stands = stands })
        | inr e ↦ rw e (record {
          located = λ i h. subst (Located d file) (cc h) (
              item_of-Located (locator_of (suc s.record_no) s.line_no start content) content
                (not had_newline && is_eof s.rest)
                (subst (λ f. start + length content ≤ length f) (sym is)
                  (omega
                    (arith, at, length-append front (content ++ back), length-append content back)))
                (ap (slice start (start + length content)) is
                  ∙ subst (λ k. slice k (k + length content) (front ++ (content ++ back)) ≡ content)
                      at (slice-middle front content back)));
          stands = record {
            before = stands.before;
            splits = stands.splits;
            position = stands.position;
          };
        })
      ]

  read_line-Step :
      (before buf : Bytes) (s : JsonlReader)
      → file ≡ before ++ (buf ++ s.rest)
      → length before ≡ s.byte_pos
      → Step (read_line d buf s)
  unfolding read_line
  read_line-Step before buf s is at =
      let content = chop 13 (chop 10 buf) in
      let k = skipped (suc s.line_no) content in
      let (b1, h1) = chop_front 10 buf in
      let (b2, h2) = chop_front 13 (chop 10 buf) in
      let parts : (before ++ take k content) ++ (drop k content ++ (b2 ++ (b1 ++ s.rest)))
          ≡ before ++ (buf ++ s.rest) =
        append_assoc before (take k content) _
        ∙ ap (λ l. before ++ l)
            (sym (append_assoc (take k content) (drop k content) (b2 ++ (b1 ++ s.rest)))
              ∙ ap (λ l. l ++ (b2 ++ (b1 ++ s.rest))) (take-drop k content)
              ∙ sym (append_assoc content b2 (b1 ++ s.rest))
              ∙ ap (λ l. l ++ (b1 ++ s.rest)) h2
              ∙ sym (append_assoc (chop 10 buf) b1 s.rest)
              ∙ ap (λ l. l ++ s.rest) h1) in
      read_content-Step (before ++ take k content) (drop k content) (b2 ++ (b1 ++ s.rest)) _ _ _
        (is ∙ sym parts)
        (length-append before (take k content)
          ∙ omega (arith, at, length-take k content (skipped_within (suc s.line_no) content)))
        (record {
          before = before ++ buf;
          splits = is ∙ sym (append_assoc before buf s.rest);
          position = length-append before buf ∙ omega (arith, at);
        })

  -- The items and the reader of a batch.
  Batch : List (ReadItem J) × JsonlReader → Type 0
  Batch (items, s) = All (Located d file) items × Stands file s

  kept-Batch :
      (item : Option (ReadItem J)) (r : List (ReadItem J) × JsonlReader)
      → ((i : ReadItem J) → item ≡ some i → Located d file i)
      → Batch r
      → Batch (kept d item r)
  unfolding Batch
  kept-Batch none r h b = b
  kept-Batch (some i) (is, s) h (all, stands) = ((h i refl, all), stands)

  nothing-Batch : (s : JsonlReader) → Stands file s → Batch ([], s)
  unfolding Batch
  nothing-Batch s stands = (tt, stands)

  gate-Batch :
      (done eof : Bool) (s : JsonlReader) (more : List (ReadItem J) × JsonlReader)
      → Stands file s
      → Batch more
      → Batch (if done then ([], s) else if eof then ([], record s { done = true }) else more)
  unfolding Batch
  gate-Batch true eof s more stands b = (tt, stands)
  gate-Batch false true s more stands b =
      (tt, record { before = stands.before; splits = stands.splits; position = stands.position })
  gate-Batch false false s more stands b = b

  batch_loop-Batch :
      (fuel max : ℕ) (s : JsonlReader) → Stands file s → Batch (batch_loop d fuel max s)
  unfolding batch_loop
  batch_loop-Batch zero max s stands = nothing-Batch s stands
  batch_loop-Batch (suc fuel) zero s stands = nothing-Batch s stands
  batch_loop-Batch (suc fuel) (suc less) s stands =
      let (buf, rest) = read_until s.rest in
      let step =
        read_line-Step stands.before buf (record s { rest = rest })
          (stands.splits ∙ ap (λ l. stands.before ++ l) (sym (read_until-splits s.rest)))
          stands.position in
      let (item, next) = read_line d buf (record s { rest = rest }) in
      gate-Batch s.done (is_eof s.rest) s _ stands (
        kept-Batch item (batch_loop d fuel (room d item (suc less) less) next) step.located
          (batch_loop-Batch fuel (room d item (suc less) less) next step.stands))

-- On a reader whose position is the number of bytes taken off the input, a batch leaves that so, and
-- each of its items names bytes inside the input: a record's hash is the hash of the bytes at its
-- locator, and a malformed record's excerpt starts them.
pub next_batch-Located :
    {J : Type 0} (d : Decoders J) (file : Bytes) (max : ℕ) (s : JsonlReader)
    → Stands file s
    → All (Located d file) (next_batch d max s).0 × Stands file (next_batch d max s).1
unfolding next_batch Batch
next_batch-Located d file max s stands = batch_loop-Batch d file (suc (length s.rest)) max s stands
