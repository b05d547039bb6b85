-- ===== src/Ingest/Jsonl/End.antt =====
-- What an empty batch says.
use log_scope.Prelude.{
  ℕ, zero, suc, ◌≤◌, ◌<◌, ◌≡◌, ◌∙◌, refl, sym, ap, inl, inr, Bool, true, false, Bool-cases, List,
  [], ◌∷◌, all, length, Option, none, some, ◌==◌, if◌then◌else◌, arith,
}
use log_scope.Bytes.{Bytes, drop}
use log_scope.Ingest.Jsonl.{
  ReadItem, Decoders, JsonlReader, read_until, chop, skipped, is_ascii_whitespace, is_eof,
  read_content, read_line, kept, room, batch_loop, next_batch,
}

-- The reader knows of the end only when it is there.
pub EndsRight : JsonlReader → Type 0
EndsRight s = s.done ≡ true → s.rest ≡ []

read_until-shorter : (b : ℕ) (bs : Bytes) → length (read_until (b ∷ bs)).1 ≤ length bs
unfolding read_until
read_until-shorter b [] = elim (Bool-cases (b == 10)) [
  | inl e ↦ rw e (omega arith)
  | inr e ↦ rw e (omega arith)
]
read_until-shorter b (c ∷ bs) = elim (Bool-cases (b == 10)) [
  | inl e ↦ rw e (omega arith)
  | inr e ↦ rw e (let h = read_until-shorter c bs in omega arith)
]

rest_shorter : (bs : Bytes) → is_eof bs ≡ false → length (read_until bs).1 < length bs
rest_shorter [] h = absurd (cc h)
rest_shorter (b ∷ bs) h = let k = read_until-shorter b bs in omega arith

still_open : (next : JsonlReader) → next.done ≡ false → EndsRight next
unfolding EndsRight
still_open next e f = absurd (cc (e, f))

module _ {J : Type 0} (d : Decoders J) where
  -- A line changes neither what is left behind it nor whether the end was seen.
  read_line-keeps :
      (buf : Bytes) (s : JsonlReader)
      → ((read_line d buf s).1.rest ≡ s.rest) × ((read_line d buf s).1.done ≡ s.done)
  unfolding read_line read_content
  read_line-keeps buf s =
      elim (Bool-cases (
        all is_ascii_whitespace
          (drop (skipped (suc s.line_no) (chop 13 (chop 10 buf))) (chop 13 (chop 10 buf))))) [
            | inl e ↦ rw e (refl, refl)
            | inr e ↦ rw e (refl, refl)
          ]

  -- What an empty batch promises.
  AtEnd : List (ReadItem J) × JsonlReader → Type 0
  AtEnd (items, s) = items ≡ [] → (s.done ≡ true) × (s.rest ≡ [])

  at_rest :
      (s : JsonlReader) (more : List (ReadItem J) × JsonlReader) (bs : Bytes)
      → bs ≡ s.rest
      → (is_eof s.rest ≡ false → AtEnd more)
      → AtEnd (if is_eof bs then ([], record s { done = true }) else more)
  unfolding AtEnd
  at_rest s more [] e h = λ _. (refl, sym e)
  at_rest s more (b ∷ bs) e h = h (ap is_eof (sym e))

  gate-AtEnd :
      (done : Bool) (s : JsonlReader) (more : List (ReadItem J) × JsonlReader)
      → (done ≡ s.done)
      → EndsRight s
      → (done ≡ false → is_eof s.rest ≡ false → AtEnd more)
      → AtEnd
          (if done then ([], s) else if is_eof s.rest then ([], record s { done = true }) else more)
  unfolding AtEnd EndsRight
  gate-AtEnd true s more is ends h = λ _. (sym is, ends (sym is))
  gate-AtEnd false s more is ends h = at_rest s more s.rest refl (h refl)

  kept-AtEnd :
      (item : Option (ReadItem J)) (more : List (ReadItem J) × JsonlReader)
      → (item ≡ none → AtEnd more)
      → AtEnd (kept d item more)
  unfolding AtEnd
  kept-AtEnd none more h = h refl
  kept-AtEnd (some i) (is, s) h = λ e. absurd (cc e)

  batch_loop-AtEnd :
      (fuel less : ℕ) (s : JsonlReader)
      → length s.rest < fuel
      → EndsRight s
      → AtEnd (batch_loop d fuel (suc less) s)
  unfolding batch_loop
  batch_loop-AtEnd zero less s enough ends = absurd (omega arith)
  batch_loop-AtEnd (suc fuel) less s enough ends =
      let (buf, rest) = read_until s.rest in
      let (item, next) = read_line d buf (record s { rest = rest }) in
      let (same_rest, same_done) = read_line-keeps buf (record s { rest = rest }) in
      gate-AtEnd s.done s _ refl ends (λ not_done not_eof.
        kept-AtEnd item (batch_loop d fuel (room d item (suc less) less) next) (λ is_none.
          rw is_none (
            batch_loop-AtEnd fuel less next
              (let shorter = rest_shorter s.rest not_eof in
                let same = ap length same_rest in omega arith)
              (still_open next (same_done ∙ not_done)))))

-- An empty batch that had room for an item means the end of the input: nothing is left and the
-- reader knows it, if it had not claimed an end before there was one.
pub next_batch-end :
    {J : Type 0} (d : Decoders J) (less : ℕ) (s : JsonlReader)
    → (s.done ≡ true → s.rest ≡ [])
    → (next_batch d (suc less) s).0 ≡ []
    → ((next_batch d (suc less) s).1.done ≡ true) × ((next_batch d (suc less) s).1.rest ≡ [])
unfolding next_batch AtEnd EndsRight
next_batch-end d less s ends = batch_loop-AtEnd d (suc (length s.rest)) less s (omega arith) ends
