-- ===== src/Model/Value/Encoding.antt =====
-- The bytes that a value adds to a digest.
use log_scope.Prelude.{
  ◌≡◌, refl, sym, [], ◌∷◌, ◌++◌, length, append_assoc, append-nil, if◌then◌else◌,
}
use log_scope.Bytes.{Bytes, to_le_bytes}
use log_scope.Model.Digest.{
  Digest, utf8, wrapped, update, tag, bytes, str, bool, u64, i64, f64_bits,
}
use log_scope.Model.Value.{
  AnyValue, AnyValues, AttrMap, items_length, map_length, digest_into, digest_items, digest_entries,
}

abbrev pub sized : Bytes → Bytes
sized bs = to_le_bytes 8 (length bs) ++ bs

unfoldable mutual
  pub encoding : AnyValue → Bytes
  encoding AnyValue.empty = 0 ∷ []
  encoding (AnyValue.str s) = 1 ∷ sized (utf8 s)
  encoding (AnyValue.bool b) = 2 ∷ (if b then 1 else 0) ∷ []
  encoding (AnyValue.int i) = 3 ∷ to_le_bytes 8 (wrapped 8 i)
  encoding (AnyValue.double bits) = 4 ∷ to_le_bytes 8 bits
  encoding (AnyValue.bytes bs) = 5 ∷ sized bs
  encoding (AnyValue.array vs) = 6 ∷ (to_le_bytes 8 (items_length vs) ++ items_encoding vs)
  encoding (AnyValue.map m) = 7 ∷ (to_le_bytes 8 (map_length m) ++ entries_encoding m)

  pub items_encoding : AnyValues → Bytes
  items_encoding AnyValues.nil = []
  items_encoding (AnyValues.cons v vs) = encoding v ++ items_encoding vs

  pub entries_encoding : AttrMap → Bytes
  entries_encoding AttrMap.done = []
  entries_encoding (AttrMap.entry k v m) = sized (utf8 k) ++ (encoding v ++ entries_encoding m)

mutual
  unfolding digest_into encoding update tag bytes str bool u64 i64 f64_bits

  pub digest_into-encoding :
      (v : AnyValue) (d : Digest) → (digest_into v d).fed ≡ d.fed ++ encoding v
  digest_into-encoding AnyValue.empty d = refl
  digest_into-encoding (AnyValue.str s) d = simp append_assoc
  digest_into-encoding (AnyValue.bool b) d = simp append_assoc
  digest_into-encoding (AnyValue.int i) d = simp append_assoc
  digest_into-encoding (AnyValue.double bits) d = simp append_assoc
  digest_into-encoding (AnyValue.bytes bs) d = simp append_assoc
  digest_into-encoding (AnyValue.array vs) d = simp (digest_items-encoding vs _, append_assoc)
  digest_into-encoding (AnyValue.map m) d = simp (digest_entries-encoding m _, append_assoc)

  digest_items-encoding :
      (vs : AnyValues) (d : Digest) → (digest_items vs d).fed ≡ d.fed ++ items_encoding vs
  digest_items-encoding AnyValues.nil d = sym (append-nil d.fed)
  digest_items-encoding (AnyValues.cons v vs) d =
      simp (digest_items-encoding vs _, digest_into-encoding v d, append_assoc)

  pub digest_entries-encoding :
      (m : AttrMap) (d : Digest) → (digest_entries m d).fed ≡ d.fed ++ entries_encoding m
  digest_entries-encoding AttrMap.done d = sym (append-nil d.fed)
  digest_entries-encoding (AttrMap.entry k v m) d =
      simp (digest_entries-encoding m _, digest_into-encoding v _, append_assoc)
