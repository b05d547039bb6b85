-- ===== src/Setup/Payload/Forward.antt =====
-- How a file that ends in a payload with its trailer is read.
use log_scope.Prelude.{
  ℕ, ◌+◌, ◌-◌, ◌^◌, ◌<◌, ◌≡◌, ◌≢◌, refl, sym, ap, ◌∙◌, [], ◌++◌, some, true, length, arith,
  length-append, append-nil, append_assoc, le→not-ltb, Bool-cases, inl, inr,
}
use log_scope.Text.{Text, text_eq, text_eq_refl, text_eq→eq}
use log_scope.Bytes.{
  Bytes, to_le_bytes, from_le_bytes, hex, length-to_le_bytes, from_le_bytes-to_le_bytes,
}
use log_scope.Setup.Payload.{
  magic, trailer_len, format_version, Payload, PayloadError, PayloadResult, check_digest,
  read_region, read_trailer, read_appended, build_trailer, read_exact, checked_add, ends_at,
}
use log_scope.Setup.Payload.Trailer.{fields, read_exact-append}
use PayloadResult.{ok, err}
use PayloadError.{digest_mismatch}
use log_scope.Setup.Payload.Accepted.{ends_at-checked_add, read_trailer-Fields}

module _ (digest : Bytes → Bytes) where
  pub check_digest-same :
      (p : Payload)
      → p.sha256 ≡ hex (digest p.bytes)
      → check_digest digest (digest p.bytes) (some p.bytes) ≡ ok p
  unfolding check_digest
  check_digest-same p h =
      rw (text_eq_refl (digest p.bytes))
        (ap (λ (s : Text). ok (record { bytes = p.bytes; sha256 = s })) (sym h))

  pub check_digest-differ :
      (expected bytes : Bytes)
      → digest bytes ≢ expected
      → check_digest digest expected (some bytes)
        ≡ err (digest_mismatch (hex expected) (hex (digest bytes)))
  unfolding check_digest
  check_digest-differ expected bytes h = elim (Bool-cases (text_eq (digest bytes) expected)) [
    | inl e ↦ absurd (h (text_eq→eq _ _ e))
    | inr e ↦ rw e refl
  ]

  pub read_region-inside :
      (offset len : ℕ) (expected file bytes : Bytes)
      → ends_at (checked_add offset len) (length file - trailer_len) ≡ true
      → read_exact offset len file ≡ some bytes
      → read_region digest offset len expected file ≡ check_digest digest expected (some bytes)
  unfolding read_region
  read_region-inside offset len expected file bytes ends found = rw (ends, found) refl

module _ (digest : Bytes → Bytes) (length-digest : (bs : Bytes) → length (digest bs) ≡ 32) where
  pub length-build_trailer :
      (payload : Bytes) (offset : ℕ) → length (build_trailer digest payload offset) ≡ trailer_len
  unfolding build_trailer
  length-build_trailer payload offset =
      let tail = length-append (to_le_bytes 4 format_version) magic in
      let with_digest = length-append (digest payload) (to_le_bytes 4 format_version ++ magic) in
      let with_len =
        length-append (to_le_bytes 8 (length payload))
          (digest payload ++ (to_le_bytes 4 format_version ++ magic)) in
      length-append (to_le_bytes 8 offset) (
        to_le_bytes 8 (length payload)
        ++ (digest payload ++ (to_le_bytes 4 format_version ++ magic)))
      ∙ omega (
        arith,
        tail,
        with_digest,
        with_len,
        length-digest payload,
        length-to_le_bytes 8 offset,
        length-to_le_bytes 8 (length payload),
        length-to_le_bytes 4 format_version,
      )

  read_payload :
      (stub payload other : Bytes)
      → length other ≡ length payload
      → length stub + length payload < 2 ^ 64
      → read_trailer digest
          (stub ++ (other ++ build_trailer digest payload (length stub)))
          (some (build_trailer digest payload (length stub)))
        ≡ check_digest digest (digest payload) (some other)
  unfolding build_trailer
  read_payload stub payload other same short =
      let file = stub ++ (other ++ build_trailer digest payload (length stub)) in
      let s =
        fields (to_le_bytes 8 (length stub)) (to_le_bytes 8 (length payload)) (digest payload)
          (to_le_bytes 4 format_version) magic (length-to_le_bytes 8 (length stub))
          (length-to_le_bytes 8 (length payload)) (length-digest payload)
          (length-to_le_bytes 4 format_version) in
      let offset = from_le_bytes-to_le_bytes 8 (length stub) (omega (arith, short)) in
      let len = from_le_bytes-to_le_bytes 8 (length payload) (omega (arith, short)) in
      let n : length file ≡ length stub + length payload + trailer_len =
        length-append stub (other ++ build_trailer digest payload (length stub))
        ∙ omega (
          arith,
          length-append other (build_trailer digest payload (length stub)),
          length-build_trailer payload (length stub),
          same,
        ) in
      let ends =
        (ends_at-checked_add (length stub) (length payload) (length file - trailer_len)).1
          (omega (arith, n), short) in
      read_trailer-Fields digest file _ _ _ _ _ s (length-build_trailer payload (length stub))
        (from_le_bytes-to_le_bytes 4 format_version (omega arith))
      ∙ ap
          (λ (o : ℕ).
            read_region digest o (from_le_bytes (to_le_bytes 8 (length payload))) (digest payload)
              file)
          offset
      ∙ ap (λ (l : ℕ). read_region digest (length stub) l (digest payload) file) len
      ∙ read_region-inside digest (length stub) (length payload) (digest payload) file other ends
          (read_exact-append stub other _ (length stub) (length payload) refl same)

  -- The trailer of one payload behind bytes of the same length.
  pub read_appended-region :
      (stub payload other : Bytes)
      → length other ≡ length payload
      → length stub + length payload < 2 ^ 64
      → read_appended digest (stub ++ (other ++ build_trailer digest payload (length stub)))
        ≡ check_digest digest (digest payload) (some other)
  unfolding read_appended
  read_appended-region stub payload other same short =
      let t = build_trailer digest payload (length stub) in
      let file = stub ++ (other ++ t) in
      let ht = length-build_trailer payload (length stub) in
      let n : length file ≡ length stub + length payload + trailer_len =
        length-append stub (other ++ t) ∙ omega (arith, length-append other t, ht, same) in
      let at_end : length (stub ++ other) ≡ length file - trailer_len =
        length-append stub other ∙ omega (arith, n, same) in
      let found : read_exact (length file - trailer_len) trailer_len file ≡ some t =
        ap (read_exact (length file - trailer_len) trailer_len)
          (sym (append_assoc stub other t) ∙ ap (λ r. (stub ++ other) ++ r) (sym (append-nil t)))
        ∙ read_exact-append (stub ++ other) t [] _ _ at_end ht in
      let enough = le→not-ltb (length file) trailer_len (omega (arith, n)) in
      rw (enough, found) (read_payload stub payload other same short)
