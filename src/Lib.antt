-- ===== src/Lib.antt =====
-- LogScope reads log files into a local store and answers queries on them. This library models
-- parts of the program in `crates` and `tools` and states what makes them correct.
--
-- The query language (crates/logscope-query-lang/src) is a pipeline: `lex` turns the query text
-- into tokens, `parse` turns tokens into a syntax tree, and the resolver types the tree against a
-- catalog of fields. The user interface highlights the tokens with `highlight`, and builds query
-- text with `format_predicate` only.
--   Text.antt: `char` and `str`, as code points with their UTF-8 and UTF-16 lengths.
--   QueryLang/Diag.antt: diag.rs and limits.rs (`Span`, `Diagnostic`, `LangLimits`).
--   QueryLang/Token.antt: the tokens and `highlight` of lex.rs; Highlight.antt has its theorems.
--   QueryLang/Lexer.antt, Lexer/: `lex` and `unescape_word`. The record `LexState` is the cursor with
--     its two `u32` counters, the tokens, the diagnostics and `regex_position`. Scan.antt has the
--     loops inside one token, and Branches.antt the branches of the token match. Reach, Steps,
--     Spans and Words hold the proofs.
--   QueryLang/Ast.antt: ast.rs.
--   QueryLang/Parser.antt, Parser/: parse.rs. Loops.antt has the `OR` and `AND` loops, Values.antt
--     the values and value groups, Exprs.antt predicates and expressions, Env.antt the nesting
--     depth. Grammar.antt is the specification: relations between tokens and trees. The files
--     named Sound and Complete prove that the parser follows it, and Exact.antt the result.
--   QueryLang/Format.antt, Format/: the query building of lib.rs.
--   QueryLang/Resolve/: resolve.rs. Fields.antt, Levels.antt, Wildcard.antt and Literals.antt have the
--     tables and translations, Typed.antt the typed query, Notes.antt the state of `Resolver` (a
--     function of the resolver changes it and may return `None`), Checks.antt, Canonical.antt and
--     Attributes.antt the predicates, and Exprs.antt the walk over the tree and `resolve`.
--     Meaning.antt is the specification of a typed tree; Ensures.antt and the files named Sound
--     prove it, and Outcome.antt states the result. The record `Engine` holds what comes from other
--     libraries: floating-point numbers, dates, regexes, the JSON form and BLAKE3.
--   QueryLang/Analysis.antt, Analysis/: `analyze` of lib.rs, the whole pipeline.
-- A parser's `tokens` and `pos` are the tokens that are left, and the cursor is the characters that
-- are left. The lexer's outer loop takes one unit of fuel for each character. A loop of the parser
-- and the recursion of its unary parsers take one unit for each token that is left and one more:
-- every round takes a token. A text that the program builds by `format!` is the list of its
-- literal and computed pieces. The counters keep the wrap-around of `u32`.
--
-- The setup program (tools/logscope-setup/src/payload.rs) finds the archive that is appended to it.
--   Setup/Payload.antt, Payload/: `read_appended` and `build_trailer`. The opened file is its bytes,
--     shorter than 2^64, and SHA-256 is a parameter whose digests have 32 bytes.
--
-- Background jobs (crates/logscope-jobs/src/control.rs) are paused and cancelled by other threads.
--   Jobs/Control.antt, Control/: `JobControl` as a step relation. A step is one operation of one
--     thread on the atomic flag, the mutex or the condition variable, so that a run is any
--     interleaving of any number of threads.
-- Jobs/Runner.antt, Runner/: the thread of `spawn_job` (runner.rs) and `JobError` (error.rs). The
-- channel, the clock, the body of the job and JSON values are parameters. Times are counted from
-- 1970 on.
--
-- The data model (crates/logscope-model/src).
--   Model/Digest.antt: hashing.rs. A `Digest` is the bytes that its hasher was fed.
--   Model/Value.antt, Value/: `AnyValue` of value.rs and its digest. Utf8.antt and Value/Reading.antt
--     read the bytes back, which the program never does: that shows that they settle the value.
--   Model/TraceIds.antt, TraceIds/: `TraceId` and `SpanId` of trace_ids.rs.
--
-- Normalization (crates/logscope-normalize/src/timestamp.rs and severity.rs).
--   Normalize/Epoch.antt, Epoch/: `parse_epoch` and `text_precision`. The product of two `i128` wraps
--     as in a release build.
--   Normalize/Severity.antt, Severity/: `map_severity_text`, whose numbers the query language reads by
--     the bands of its levels.
--
-- The query compiler (crates/logscope-query/src/compile.rs) turns the typed query into SQL.
--   Query/Tokens.antt: the tokens of free text, regexes and JSON paths. Query/Sql.antt: the fields of
--     `Compiler`. SQL is a list of pieces, each a text of the program or a number.
--   Query/Leaves.antt and Query/Compile.antt: the emitters and `compile_filter`. An `unreachable!` is
--     the result `panicked`, and the full-text index is a parameter.
--   Query/Placeholders.antt and Bound.antt, Reached.antt and Compiled.antt, SeverityExists.antt: their
--     theorems.
--
-- Ingestion (crates/logscope-ingest/src/reader.rs).
--   Ingest/Jsonl.antt: `JsonlReader`, whose input is the bytes that are left. The loop of `next_batch`
--     takes one unit of fuel for each byte and one more, since every round takes a byte. Located.antt
--     and End.antt have its theorems.
--
-- Bytes.antt has slices and little-endian integers. Prelude.antt holds the names that all parts
-- share, and each Tests.antt runs its part on small inputs.
--
-- Not modelled: the suggestions for unknown fields, which catalogs make; the running of SQL (the
-- rest of crates/logscope-query) and the stores (logscope-store, logscope-workspace), whose
-- behaviour is mostly the database's; the rest of ingestion (CSV, decompression, the mapping of
-- rows); the other formats of timestamps; cases and the application services; extraction and
-- windows of the setup program; the desktop program. The JSON forms (serde) of the types are left
-- out everywhere.
pub mod Prelude
pub mod Text
pub mod Bytes
pub mod Model
pub mod QueryLang
pub mod Query
pub mod Normalize
pub mod Ingest
pub mod Setup
pub mod Jobs
