-- ===== src/Setup/Payload/Exact.antt =====
-- `read_appended` accepts exactly the files that end in a payload with its own trailer.
use log_scope.Prelude.{
  ℕ, ◌+◌, ◌-◌, ◌^◌, ◌≤◌, ◌<◌, ◌≡◌, ◌≢◌, ◌↔◌, refl, sym, ap, ◌∙◌, ◌++◌, some, length, arith,
  length-append, ltb, not-ltb→le, ◌==◌, if_both,
}
use log_scope.Text.{text_eq}
use log_scope.Bytes.{
  Bytes, AreBytes, take, drop, slice, to_le_bytes, from_le_bytes, hex, drop-drop, take-drop,
  length-take, length-drop, to_le_bytes-from_le_bytes, All-take, All-drop,
}
use log_scope.Setup.Payload.{
  magic, trailer_len, format_version, Payload, PayloadError, PayloadResult, check_digest,
  read_region, read_trailer, read_appended, build_trailer, read_exact, checked_add, ends_at,
}
use log_scope.Setup.Payload.Trailer.{slices, read_exact-some, read_exact_inside}
use PayloadResult.{ok, err}
use PayloadError.{io, digest_mismatch}
use log_scope.Setup.Payload.Accepted.{
  ends_at-checked_add, check_digest-ok, read_region-ok, read_trailer-ok, read_appended-ok,
}
use log_scope.Setup.Payload.Forward.{check_digest-same, check_digest-differ, read_appended-region}

same_fields :
    {a a' b b' d d' f f' m m' : Bytes}
    → a ≡ a'
    → b ≡ b'
    → d ≡ d'
    → f ≡ f'
    → m ≡ m'
    → a ++ (b ++ (d ++ (f ++ m))) ≡ a' ++ (b' ++ (d' ++ (f' ++ m')))
same_fields ha hb hd hf hm = cc (ha, hb, hd, hf, hm)

-- A trailer whose fields are those of a payload is the payload's.
trailer-build_trailer :
    (digest : Bytes → Bytes) (t bytes : Bytes) (offset : ℕ)
    → length t ≡ trailer_len
    → AreBytes t
    → offset ≡ from_le_bytes (slice 0 8 t)
    → length bytes ≡ from_le_bytes (slice 8 16 t)
    → digest bytes ≡ slice 16 48 t
    → from_le_bytes (slice 48 52 t) ≡ format_version
    → drop 52 t ≡ magic
    → t ≡ build_trailer digest bytes offset
unfolding build_trailer
trailer-build_trailer digest t bytes offset ht hb ho hl hd hf hm =
    let number = λ (from k : ℕ) (h : from + k ≤ length t).
      to_le_bytes-from_le_bytes k (take k (drop from t))
        (length-take k (drop from t) (omega (arith, length-drop from t, h)))
        (All-take _ k (drop from t) (All-drop _ from t hb)) in
    slices t
    ∙ same_fields (sym (number 0 8 (omega (arith, ht))) ∙ ap (to_le_bytes 8) (sym ho))
        (sym (number 8 8 (omega (arith, ht))) ∙ ap (to_le_bytes 8) (sym hl)) (sym hd)
        (sym (number 48 4 (omega (arith, ht))) ∙ ap (to_le_bytes 4) hf) hm

accepted :
    (digest : Bytes → Bytes) (file : Bytes) (p : Payload)
    → ((bs : Bytes) → length (digest bs) ≡ 32)
    → AreBytes file
    → read_appended digest file ≡ ok p
    → (stub : Bytes) × (file ≡ stub ++ (p.bytes ++ build_trailer digest p.bytes (length stub)))
      × (p.sha256 ≡ hex (digest p.bytes))
accepted digest file p hd hb h =
    let t = drop (length file - trailer_len) file in
    let (long, ht) = read_appended-ok digest file p h in
    let (is_magic, is_format, hr) = read_trailer-ok digest file t p ht in
    let offset = from_le_bytes (slice 0 8 t) in
    let len = from_le_bytes (slice 8 16 t) in
    let (ends, hc) = read_region-ok digest offset len (slice 16 48 t) file p hr in
    let (found, same_digest, hex_digest) =
      check_digest-ok digest (slice 16 48 t) (read_exact offset len file) p hc in
    let (is_region, is_len) = read_exact-some offset len file p.bytes found in
    let length_t : length t ≡ trailer_len =
      length-drop (length file - trailer_len) file ∙ omega (arith, long) in
    let stub_len : length (take offset file) ≡ offset =
      length-take offset file (omega (arith, ends, long)) in
    let last : drop 52 t ≡ magic =
      ap (λ (n : ℕ). drop (n - length magic) t) (sym length_t) ∙ is_magic in
    let same_t =
      trailer-build_trailer digest t p.bytes (length (take offset file)) length_t
        (All-drop _ (length file - trailer_len) file hb) stub_len is_len same_digest is_format
        last in
    let rest : drop len (drop offset file) ≡ t =
      drop-drop offset len file ∙ ap (λ (n : ℕ). drop n file) ends in
    let whole : file ≡ take offset file ++ (p.bytes ++ t) =
      sym (take-drop offset file)
      ∙ ap (λ r. take offset file ++ r)
          (sym (take-drop len (drop offset file)) ∙ cc (is_region, rest)) in
    (take offset file, whole ∙ ap (λ r. take offset file ++ (p.bytes ++ r)) same_t, hex_digest)

-- `read_appended` returns a payload exactly when the file is some bytes, the payload, and the
-- trailer that `build_trailer` writes for them, and it returns with it the digest in hexadecimal.
-- The file is made of bytes, fewer than 2^64, and a digest has 32.
pub read_appended_iff :
    (digest : Bytes → Bytes) (file : Bytes) (p : Payload)
    → ((bs : Bytes) → length (digest bs) ≡ 32)
    → AreBytes file
    → length file < 2 ^ 64
    → (read_appended digest file ≡ ok p) ↔ (
        (stub : Bytes) × (file ≡ stub ++ (p.bytes ++ build_trailer digest p.bytes (length stub)))
        × (p.sha256 ≡ hex (digest p.bytes)))
read_appended_iff digest file p hd hb short = (
  accepted digest file p hd hb,
  λ (stub, whole, hex_digest).
      let n = length-append stub (p.bytes ++ build_trailer digest p.bytes (length stub)) in
      let m = length-append p.bytes (build_trailer digest p.bytes (length stub)) in
      ap (read_appended digest) whole
      ∙ read_appended-region digest hd stub p.bytes p.bytes refl
          (omega (arith, n, m, short, ap length whole))
      ∙ check_digest-same digest p hex_digest,
)

-- A payload that was changed without its length is refused, when its digest differs, with both
-- digests in the error. The stub and the payload have fewer than 2^64 bytes, and a digest 32.
pub read_appended-tampered :
    (digest : Bytes → Bytes) (stub payload other : Bytes)
    → ((bs : Bytes) → length (digest bs) ≡ 32)
    → length other ≡ length payload
    → length stub + length payload < 2 ^ 64
    → digest other ≢ digest payload
    → read_appended digest (stub ++ (other ++ build_trailer digest payload (length stub)))
      ≡ err (digest_mismatch (hex (digest payload)) (hex (digest other)))
read_appended-tampered digest stub payload other hd same short differ =
    read_appended-region digest hd stub payload other same short
    ∙ check_digest-differ digest _ other differ

abbrev NotIo : PayloadResult → Type 0
NotIo r = r ≢ err io

check_digest-NotIo :
    (digest : Bytes → Bytes) (expected bytes : Bytes)
    → NotIo (check_digest digest expected (some bytes))
unfolding check_digest
check_digest-NotIo digest expected bytes =
    if_both NotIo (text_eq (digest bytes) expected) (λ _ k. cc k) (λ _ k. cc k)

read_region-NotIo :
    (digest : Bytes → Bytes) (offset len : ℕ) (expected file : Bytes)
    → trailer_len ≤ length file
    → NotIo (read_region digest offset len expected file)
unfolding read_region
read_region-NotIo digest offset len expected file long =
    if_both NotIo (ends_at (checked_add offset len) (length file - trailer_len))
      (λ e.
        let ends = ((ends_at-checked_add offset len _).0 e).0 in
        rw (read_exact_inside offset len file (omega (arith, ends, long)))
          (check_digest-NotIo digest expected _))
      (λ _ k. cc k)

read_trailer-NotIo :
    (digest : Bytes → Bytes) (file t : Bytes)
    → trailer_len ≤ length file
    → NotIo (read_trailer digest file (some t))
unfolding read_trailer
read_trailer-NotIo digest file t long =
    if_both NotIo (text_eq (drop (length t - length magic) t) magic)
      (λ _.
        if_both NotIo (from_le_bytes (slice 48 52 t) == format_version)
          (λ _. read_region-NotIo digest _ _ _ file long) (λ _ k. cc k))
      (λ _ k. cc k)

-- Reading never fails inside an opened file: every region that is read was checked before.
pub read_appended-io : (digest : Bytes → Bytes) (file : Bytes) → read_appended digest file ≢ err io
unfolding read_appended
read_appended-io digest file =
    if_both NotIo (ltb (length file) trailer_len) (λ _ k. cc k)
      λ e k.
        let long = not-ltb→le _ _ e in
        let found =
          read_exact_inside (length file - trailer_len) trailer_len file (omega (arith, long)) in
        read_trailer-NotIo digest file _ long (sym (ap (read_trailer digest file) found) ∙ k)
