-- ===== src/Model/Value/Injective.antt =====
-- Distinct values never feed the same bytes to a digest.
use log_scope.Prelude.{
  ℕ, zero, suc, ◌+◌, ◌^◌, ◌≤◌, ◌<◌, ◌≡◌, ◌∙◌, refl, sym, ap, true, false, [], ◌∷◌, ◌++◌,
  append_assoc, arith,
}
use log_scope.Prelude.Int.{ℤ, pos, negsuc}
use log_scope.Text.{Text}
use log_scope.Bytes.{Bytes, to_le_bytes, drop}
use log_scope.Model.Digest.{Digest, utf8, wrapped, update, u64}
use log_scope.Model.Value.{
  AnyValue, AnyValues, AttrMap, items_length, map_length, digest_into, digest_attrs,
}
use log_scope.Model.Value.Encoding.{
  sized, encoding, items_encoding, entries_encoding, digest_into-encoding, digest_entries-encoding,
}
use log_scope.Model.Value.Reading.{
  IsI64, IsValid, AreValid, EntriesValid, unwrapped, add_item, items_from, add_entry, entries_from,
  tagged_from, value_from, height, items_height, entries_height, word_from-eq, bytes_from-sized,
  str_from-sized, unwrapped-wrapped,
}

wrapped_bound : (i : ℤ) → IsI64 i → wrapped 8 i < 256 ^ 8
wrapped_bound (pos n) h = omega arith
wrapped_bound (negsuc n) h = omega arith

abbrev as_array : AnyValues × Bytes → AnyValue × Bytes
as_array (vs, rest) = (AnyValue.array vs, rest)

abbrev as_map : AttrMap × Bytes → AnyValue × Bytes
as_map (m, rest) = (AnyValue.map m, rest)

abbrev entry_from : ℕ → ℕ → Text → AnyValue × Bytes → AttrMap × Bytes
entry_from f k s (v, rest) = add_entry (value_from f) s v (entries_from (value_from f) k rest)

mutual
  unfolding encoding value_from tagged_from IsValid height

  value_from-encoding :
      (v : AnyValue) (f : ℕ) (rest : Bytes)
      → IsValid v
      → height v ≤ f
      → value_from f (encoding v ++ rest) ≡ (v, rest)
  value_from-encoding AnyValue.empty zero rest ok h = absurd (omega (arith, h))
  value_from-encoding AnyValue.empty (suc f) rest ok h = refl
  value_from-encoding (AnyValue.str s) zero rest ok h = absurd (omega (arith, h))
  value_from-encoding (AnyValue.str s) (suc f) rest ok h =
      ap (λ (p : Text × Bytes). (AnyValue.str p.0, p.1)) (str_from-sized s rest ok)
  value_from-encoding (AnyValue.bool b) zero rest ok h = absurd (omega (arith, h))
  value_from-encoding (AnyValue.bool true) (suc f) rest ok h = refl
  value_from-encoding (AnyValue.bool false) (suc f) rest ok h = refl
  value_from-encoding (AnyValue.int i) zero rest ok h = absurd (omega (arith, h))
  value_from-encoding (AnyValue.int i) (suc f) rest ok h =
      ap (λ (p : ℕ × Bytes). (AnyValue.int (unwrapped p.0), p.1))
        (word_from-eq (wrapped 8 i) rest (wrapped_bound i ok))
      ∙ ap (λ (j : ℤ). (AnyValue.int j, rest)) (unwrapped-wrapped i ok)
  value_from-encoding (AnyValue.double bits) zero rest ok h = absurd (omega (arith, h))
  value_from-encoding (AnyValue.double bits) (suc f) rest ok h =
      ap (λ (p : ℕ × Bytes). (AnyValue.double p.0, p.1)) (word_from-eq bits rest ok)
  value_from-encoding (AnyValue.bytes bs) zero rest ok h = absurd (omega (arith, h))
  value_from-encoding (AnyValue.bytes bs) (suc f) rest ok h =
      ap (λ (p : Bytes × Bytes). (AnyValue.bytes p.0, p.1)) (bytes_from-sized bs rest ok)
  value_from-encoding (AnyValue.array vs) zero rest ok h = absurd (omega (arith, h))
  value_from-encoding (AnyValue.array vs) (suc f) rest (short, ok) h =
      ap (λ l. tagged_from (value_from f) 6 l)
        (append_assoc (to_le_bytes 8 (items_length vs)) (items_encoding vs) rest)
      ∙ ap (λ (p : ℕ × Bytes). as_array (items_from (value_from f) p.0 p.1))
          (word_from-eq (items_length vs) (items_encoding vs ++ rest) short)
      ∙ ap as_array (items_from-encoding vs f rest ok (omega (arith, h)))
  value_from-encoding (AnyValue.map m) zero rest ok h = absurd (omega (arith, h))
  value_from-encoding (AnyValue.map m) (suc f) rest (short, ok) h =
      ap (λ l. tagged_from (value_from f) 7 l)
        (append_assoc (to_le_bytes 8 (map_length m)) (entries_encoding m) rest)
      ∙ ap (λ (p : ℕ × Bytes). as_map (entries_from (value_from f) p.0 p.1))
          (word_from-eq (map_length m) (entries_encoding m ++ rest) short)
      ∙ ap as_map (entries_from-encoding m f rest ok (omega (arith, h)))

  items_from-encoding :
      (vs : AnyValues) (f : ℕ) (rest : Bytes)
      → AreValid vs
      → items_height vs ≤ f
      → items_from (value_from f) (items_length vs) (items_encoding vs ++ rest) ≡ (vs, rest)
  items_from-encoding AnyValues.nil f rest ok h = refl
  items_from-encoding (AnyValues.cons v vs) f rest (ok, oks) h =
      ap (λ l. items_from (value_from f) (suc (items_length vs)) l)
        (append_assoc (encoding v) (items_encoding vs) rest)
      ∙ ap
          (λ (p : AnyValue × Bytes).
            add_item (value_from f) p.0 (items_from (value_from f) (items_length vs) p.1))
          (value_from-encoding v f (items_encoding vs ++ rest) ok (omega (arith, h)))
      ∙ ap (add_item (value_from f) v) (items_from-encoding vs f rest oks (omega (arith, h)))

  entries_from-encoding :
      (m : AttrMap) (f : ℕ) (rest : Bytes)
      → EntriesValid m
      → entries_height m ≤ f
      → entries_from (value_from f) (map_length m) (entries_encoding m ++ rest) ≡ (m, rest)
  entries_from-encoding AttrMap.done f rest ok h = refl
  entries_from-encoding (AttrMap.entry k v m) f rest (short, ok, oks) h =
      ap (λ l. entries_from (value_from f) (suc (map_length m)) l)
        (append_assoc (sized (utf8 k)) (encoding v ++ entries_encoding m) rest
          ∙ ap (λ l. sized (utf8 k) ++ l) (append_assoc (encoding v) (entries_encoding m) rest))
      ∙ ap (λ (p : Text × Bytes). entry_from f (map_length m) p.0 (value_from f p.1))
          (str_from-sized k (encoding v ++ (entries_encoding m ++ rest)) short)
      ∙ ap (entry_from f (map_length m) k)
          (value_from-encoding v f (entries_encoding m ++ rest) ok (omega (arith, h)))
      ∙ ap (add_entry (value_from f) k v) (entries_from-encoding m f rest oks (omega (arith, h)))

cancel : (front xs ys : Bytes) → front ++ xs ≡ front ++ ys → xs ≡ ys
cancel [] xs ys h = h
cancel (b ∷ bs) xs ys h = cancel bs xs ys (ap (drop 1) h)

encoding-injective :
    (v w : AnyValue) (xs ys : Bytes)
    → IsValid v
    → IsValid w
    → encoding v ++ xs ≡ encoding w ++ ys
    → (v ≡ w) × (xs ≡ ys)
encoding-injective v w xs ys hv hw h =
    let fuel = height v + height w in
    let read : ◌≡◌ {A = AnyValue × Bytes} (v, xs) (w, ys) =
      sym (value_from-encoding v fuel xs hv (omega arith))
      ∙ ap (value_from fuel) h
      ∙ value_from-encoding w fuel ys hw (omega arith) in
    (ap (λ p. p.0) read, ap (λ p. p.1) read)

digest_into_then :
    (v : AnyValue) (d : Digest) (xs : Bytes)
    → (digest_into v d).fed ++ xs ≡ d.fed ++ (encoding v ++ xs)
digest_into_then v d xs = rw (digest_into-encoding v d) (append_assoc d.fed (encoding v) xs)

-- A value that was added to a digest is settled by the bytes, and so is where it ends: two values
-- that are followed by any bytes feed the same only if they are equal.
pub digest_into-injective :
    (v w : AnyValue) (d : Digest) (xs ys : Bytes)
    → IsValid v
    → IsValid w
    → (digest_into v d).fed ++ xs ≡ (digest_into w d).fed ++ ys
    → (v ≡ w) × (xs ≡ ys)
digest_into-injective v w d xs ys hv hw h =
    encoding-injective v w xs ys hv hw
      (cancel d.fed _ _ (sym (digest_into_then v d xs) ∙ h ∙ digest_into_then w d ys))

abbrev map_bytes : AttrMap → Bytes
map_bytes m = to_le_bytes 8 (map_length m) ++ entries_encoding m

digest_attrs-bytes : (m : AttrMap) (d : Digest) → (digest_attrs m d).fed ≡ d.fed ++ map_bytes m
unfolding digest_attrs u64 update
digest_attrs-bytes m d =
    digest_entries-encoding m _
    ∙ append_assoc d.fed (to_le_bytes 8 (map_length m)) (entries_encoding m)

abbrev entries_of : AnyValue → AttrMap
entries_of (AnyValue.map m) = m
entries_of _ = AttrMap.done

-- Maps of attributes with the same bytes are equal.
pub digest_attrs-injective :
    (m k : AttrMap) (d : Digest)
    → IsValid (AnyValue.map m)
    → IsValid (AnyValue.map k)
    → (digest_attrs m d).fed ≡ (digest_attrs k d).fed
    → m ≡ k
unfolding encoding
digest_attrs-injective m k d hm hk h =
    let same : map_bytes m ≡ map_bytes k =
      cancel d.fed _ _ (sym (digest_attrs-bytes m d) ∙ h ∙ digest_attrs-bytes k d) in
    ap entries_of
      (encoding-injective (AnyValue.map m) (AnyValue.map k) [] [] hm hk
        (ap (λ (l : Bytes). 7 ∷ (l ++ [])) same)).0
