-- ===== src/Ingest/Tests.antt =====
-- The reader of JSON lines on a small file.
use log_scope.Prelude.{ℕ, ◌==◌, ◌≡◌, refl, true, some, [], ◌∷◌, All, length, if◌then◌else◌}
use log_scope.Bytes.{Bytes}
use log_scope.Ingest.Jsonl.{Decoders, value, invalid, new_reader, next_batch}
use log_scope.Ingest.Jsonl.End.{next_batch-end}
use log_scope.Ingest.Jsonl.Located.{Located, Stands, next_batch-Located}

-- A text is JSON here if it has two characters.
abbrev two_long : Decoders ℕ
two_long = record {
  from_utf8 = λ bs. some bs;
  from_utf8_lossy = λ bs. bs;
  from_str = λ t. if length t == 2 then value 2 else invalid [];
  blake3_hex = λ bs. bs;
}

-- A BOM and `{}`, a blank line, and an `x` that nothing ends.
abbrev sample_file : Bytes
sample_file = 0xef ∷ 0xbb ∷ 0xbf ∷ 123 ∷ 125 ∷ 13 ∷ 10 ∷ 10 ∷ 120 ∷ []

next_batch-Located_example :
    All (Located two_long sample_file) (next_batch two_long 10 (new_reader sample_file)).0
    × Stands sample_file (next_batch two_long 10 (new_reader sample_file)).1
next_batch-Located_example =
    next_batch-Located two_long sample_file 10 (new_reader sample_file)
      (record { before = []; splits = refl; position = refl })

-- The sample holds a record and a truncated one, and a further batch is empty.
ran_out : (next_batch two_long 10 (next_batch two_long 10 (new_reader sample_file)).1).0 ≡ []
unfolding next_batch
ran_out = refl

next_batch-end_example :
    ((next_batch two_long 10 (next_batch two_long 10 (new_reader sample_file)).1).1.done ≡ true)
    × ((next_batch two_long 10 (next_batch two_long 10 (new_reader sample_file)).1).1.rest ≡ [])
unfolding next_batch
next_batch-end_example =
    next_batch-end two_long 9 (next_batch two_long 10 (new_reader sample_file)).1 (λ e. refl)
      ran_out
