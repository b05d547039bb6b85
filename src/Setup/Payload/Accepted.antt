-- ===== src/Setup/Payload/Accepted.antt =====
-- What a file that `read_appended` accepts has passed, and how it reads a well-formed trailer.
use log_scope.Prelude.{
  ℕ, ◌+◌, ◌-◌, ◌^◌, ◌≤◌, ◌<◌, ◌≡◌, ◌↔◌, refl, sym, ap, ◌∙◌, [], Option, none, some, true, length,
  arith, append-nil, ltb, not-ltb→le, ◌==◌, ==_iff, Bool-cases, inl, inr,
}
use log_scope.Text.{text_eq, text_eq_refl, text_eq→eq}
use log_scope.Bytes.{Bytes, take, drop, slice, from_le_bytes, hex, take-append, length-drop}
use log_scope.Setup.Payload.{
  magic, trailer_len, format_version, Payload, PayloadResult, check_digest, read_region,
  read_trailer, read_appended, read_exact, checked_add, ends_at,
}
use log_scope.Setup.Payload.Trailer.{Fields, read_exact_inside}
use PayloadResult.{ok}

pub ends_at-checked_add :
    (a b n : ℕ) → (ends_at (checked_add a b) n ≡ true) ↔ ((a + b ≡ n) × (a + b < 2 ^ 64))
unfolding ends_at checked_add
ends_at-checked_add a b n = ground arith

pub take_all : (n : ℕ) (xs : Bytes) → length xs ≡ n → take n xs ≡ xs
take_all n xs h = ap (take n) (sym (append-nil xs)) ∙ take-append xs [] n h

module _ (digest : Bytes → Bytes) where
  -- What an accepted file has passed.
  pub check_digest-ok :
      (expected : Bytes) (r : Option Bytes) (p : Payload)
      → check_digest digest expected r ≡ ok p
      → (r ≡ some p.bytes) × (digest p.bytes ≡ expected) × (p.sha256 ≡ hex (digest p.bytes))
  unfolding check_digest
  check_digest-ok expected none p h = absurd (ground arith)
  check_digest-ok expected (some bytes) p h = elim (Bool-cases (text_eq (digest bytes) expected)) [
    | inl e ↦
        let same : record { bytes = bytes; sha256 = hex (digest bytes) } ≡ p = cc (rw e at h) in
        (
          ap (λ (q : Payload). some q.bytes) same,
          ap (λ (q : Payload). digest q.bytes) (sym same) ∙ text_eq→eq _ _ e,
          ap (λ (q : Payload). q.sha256) (sym same)
              ∙ ap (λ (q : Payload). hex (digest q.bytes)) same,
        )
    | inr e ↦ absurd (cc (rw e at h))
  ]

  pub read_region-ok :
      (offset len : ℕ) (expected file : Bytes) (p : Payload)
      → read_region digest offset len expected file ≡ ok p
      → (offset + len ≡ length file - trailer_len)
        × (check_digest digest expected (read_exact offset len file) ≡ ok p)
  unfolding read_region
  read_region-ok offset len expected file p h =
      elim (Bool-cases (ends_at (checked_add offset len) (length file - trailer_len))) [
        | inl e ↦ (((ends_at-checked_add offset len _).0 e).0, rw e at h)
        | inr e ↦ absurd (cc (rw e at h))
      ]

  pub read_trailer-ok :
      (file t : Bytes) (p : Payload)
      → read_trailer digest file (some t) ≡ ok p
      → (drop (length t - length magic) t ≡ magic)
        × (from_le_bytes (slice 48 52 t) ≡ format_version)
        × (read_region digest
              (from_le_bytes (slice 0 8 t))
              (from_le_bytes (slice 8 16 t))
              (slice 16 48 t)
              file
            ≡ ok p)
  unfolding read_trailer
  read_trailer-ok file t p h =
      elim (Bool-cases (text_eq (drop (length t - length magic) t) magic)) [
        | inr e ↦ absurd (cc (rw e at h))
        | inl e ↦ elim (Bool-cases (from_le_bytes (slice 48 52 t) == format_version)) [
          | inr f ↦ absurd (cc (rw (e, f) at h))
          | inl f ↦ (text_eq→eq _ _ e, (==_iff _ _).0 f, rw (e, f) at h)
        ]
      ]

  pub read_appended-ok :
      (file : Bytes) (p : Payload)
      → read_appended digest file ≡ ok p
      → (trailer_len ≤ length file)
        × (read_trailer digest file (some (drop (length file - trailer_len) file)) ≡ ok p)
  unfolding read_appended
  read_appended-ok file p h = elim (Bool-cases (ltb (length file) trailer_len)) [
    | inl e ↦ absurd (cc (rw e at h))
    | inr e ↦
        let long = not-ltb→le _ _ e in
        let found =
          read_exact_inside (length file - trailer_len) trailer_len file (omega (arith, long)) in
        let all =
          take_all trailer_len (drop (length file - trailer_len) file)
            (length-drop (length file - trailer_len) file ∙ omega (arith, long)) in
        (long, sym (ap (read_trailer digest file) (found ∙ ap some all)) ∙ (rw e at h))
  ]

  pub read_trailer-Fields :
      (file t a b d f : Bytes)
      → Fields t a b d f magic
      → length t ≡ trailer_len
      → from_le_bytes f ≡ format_version
      → read_trailer digest file (some t)
        ≡ read_region digest (from_le_bytes a) (from_le_bytes b) d file
  unfolding read_trailer
  read_trailer-Fields file t a b d f s ht hf =
      let is_magic : text_eq (drop (length t - length magic) t) magic ≡ true =
        ap (λ (n : ℕ). text_eq (drop (n - length magic) t) magic) ht
        ∙ ap (λ m. text_eq m magic) s.end
        ∙ text_eq_refl magic in
      let is_format =
        (==_iff (from_le_bytes (slice 48 52 t)) format_version).1
          (ap from_le_bytes s.format ∙ hf) in
      rw (is_magic, is_format, s.offset, s.len, s.digest) refl
