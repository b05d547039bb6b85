-- ===== src/Setup/Payload/Trailer.antt =====
-- How the fields of a trailer are read back, and what a region that was read is of the file.
use log_scope.Prelude.{
  ℕ, ◌+◌, ◌≤◌, ◌≡◌, refl, sym, ap, ◌∙◌, ◌++◌, some, length, arith, ◌==◌, ==_iff, Bool-cases, inl,
  inr,
}
use log_scope.Bytes.{
  Bytes, take, drop, slice, take-append, drop-append, drop-drop, take-drop, length-take,
  length-drop,
}
use log_scope.Setup.Payload.{read_exact}

drop-past : (xs ys : Bytes) (n m : ℕ) → length xs ≡ n → drop (n + m) (xs ++ ys) ≡ drop m ys
drop-past xs ys n m h = sym (drop-drop n m (xs ++ ys)) ∙ ap (drop m) (drop-append xs ys n h)

-- The four fields of a trailer and its magic, each of its own length.
pub record Fields (t a b d f m : Bytes) : Type 0 where
  pub whole : t ≡ a ++ (b ++ (d ++ (f ++ m)))
  pub offset : slice 0 8 t ≡ a
  pub len : slice 8 16 t ≡ b
  pub digest : slice 16 48 t ≡ d
  pub format : slice 48 52 t ≡ f
  pub end : drop 52 t ≡ m

pub fields :
    (a b d f m : Bytes)
    → length a ≡ 8
    → length b ≡ 8
    → length d ≡ 32
    → length f ≡ 4
    → Fields (a ++ (b ++ (d ++ (f ++ m)))) a b d f m
fields a b d f m ha hb hd hf =
    let past_a = λ (n : ℕ). drop-past a (b ++ (d ++ (f ++ m))) 8 n ha in
    let past_b = λ (n : ℕ). drop-past b (d ++ (f ++ m)) 8 n hb in
    let past_d = λ (n : ℕ). drop-past d (f ++ m) 32 n hd in
    record {
      whole = refl;
      offset = take-append a (b ++ (d ++ (f ++ m))) 8 ha;
      len = ap (take 8) (past_a 0) ∙ take-append b (d ++ (f ++ m)) 8 hb;
      digest = ap (take 32) (past_a 8 ∙ past_b 0) ∙ take-append d (f ++ m) 32 hd;
      format = ap (take 4) (past_a 40 ∙ past_b 32 ∙ past_d 0) ∙ take-append f m 4 hf;
      end = past_a 44 ∙ past_b 36 ∙ past_d 4 ∙ drop-append f m 4 hf;
    }

-- A trailer is its slices.
pub slices :
    (t : Bytes)
    → t ≡ slice 0 8 t ++ (slice 8 16 t ++ (slice 16 48 t ++ (slice 48 52 t ++ drop 52 t)))
slices t = sym (
    ap (λ r. slice 0 8 t ++ (slice 8 16 t ++ (slice 16 48 t ++ r)))
      (ap (λ r. slice 48 52 t ++ r) (sym (drop-drop 48 4 t)) ∙ take-drop 4 (drop 48 t))
    ∙ ap (λ r. slice 0 8 t ++ (slice 8 16 t ++ r))
        (ap (λ r. slice 16 48 t ++ r) (sym (drop-drop 16 32 t)) ∙ take-drop 32 (drop 16 t))
    ∙ ap (λ r. slice 0 8 t ++ r)
        (ap (λ r. slice 8 16 t ++ r) (sym (drop-drop 8 8 t)) ∙ take-drop 8 (drop 8 t))
    ∙ take-drop 8 t)

pub read_exact-append :
    (xs ys zs : Bytes) (offset len : ℕ)
    → length xs ≡ offset
    → length ys ≡ len
    → read_exact offset len (xs ++ (ys ++ zs)) ≡ some ys
unfolding read_exact
read_exact-append xs ys zs offset len hx hy =
    let found = ap (take len) (drop-append xs (ys ++ zs) offset hx) ∙ take-append ys zs len hy in
    rw (found, (==_iff (length ys) len).1 hy) refl

pub read_exact-some :
    (offset len : ℕ) (file bs : Bytes)
    → read_exact offset len file ≡ some bs
    → (bs ≡ take len (drop offset file)) × (length bs ≡ len)
unfolding read_exact
read_exact-some offset len file bs h =
    elim (Bool-cases (length (take len (drop offset file)) == len)) [
      | inl e ↦
          let same : take len (drop offset file) ≡ bs = cc (rw e at h) in
          (sym same, ap length (sym same) ∙ (==_iff _ len).0 e)
      | inr e ↦ absurd (cc (rw e at h))
    ]

-- A region inside the file is read.
pub read_exact_inside :
    (offset len : ℕ) (file : Bytes)
    → offset + len ≤ length file
    → read_exact offset len file ≡ some (take len (drop offset file))
unfolding read_exact
read_exact_inside offset len file h =
    let left = length-drop offset file in
    let full = length-take len (drop offset file) (omega (arith, left, h)) in
    rw ((==_iff (length (take len (drop offset file))) len).1 full) refl
