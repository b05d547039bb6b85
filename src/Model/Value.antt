-- ===== src/Model/Value.antt =====
-- Typed attribute values (crates/logscope-model/src/value.rs) and their digests. `Vec<AnyValue>` and
-- the map inside a value are types of its block. A double is its bits, by which `F64` compares, and
-- a map is its entries in the order of their keys.
pub mod Encoding
pub mod Reading
pub mod Injective
use log_scope.Prelude.{ℕ, suc, Bool}
use log_scope.Prelude.Int.{ℤ}
use log_scope.Text.{Text}
use log_scope.Bytes.{Bytes}
use log_scope.Model.Digest

mutual
  pub data AnyValue : Type 0 where
    empty : AnyValue
    str : Text → AnyValue
    bool : Bool → AnyValue
    int : ℤ → AnyValue
    double : (bits : ℕ) → AnyValue
    bytes : Bytes → AnyValue
    array : AnyValues → AnyValue
    map : AttrMap → AnyValue

  pub data AnyValues : Type 0 where
    nil : AnyValues
    cons : AnyValue → AnyValues → AnyValues

  pub data AttrMap : Type 0 where
    done : AttrMap
    entry : (key : Text) → AnyValue → AttrMap → AttrMap

-- `Vec::len` and `BTreeMap::len`
abbrev pub items_length : AnyValues → ℕ
items_length AnyValues.nil = 0
items_length (AnyValues.cons v vs) = suc (items_length vs)

abbrev pub map_length : AttrMap → ℕ
map_length AttrMap.done = 0
map_length (AttrMap.entry k v m) = suc (map_length m)

unfoldable mutual
  unfolding Digest.tag Digest.bytes Digest.str Digest.bool Digest.u64 Digest.i64 Digest.f64_bits

  pub digest_into : AnyValue → Digest.Digest → Digest.Digest
  digest_into AnyValue.empty d = Digest.tag d 0x00
  digest_into (AnyValue.str s) d = Digest.str (Digest.tag d 0x01) s
  digest_into (AnyValue.bool b) d = Digest.bool (Digest.tag d 0x02) b
  digest_into (AnyValue.int i) d = Digest.i64 (Digest.tag d 0x03) i
  digest_into (AnyValue.double bits) d = Digest.f64_bits (Digest.tag d 0x04) bits
  digest_into (AnyValue.bytes bs) d = Digest.bytes (Digest.tag d 0x05) bs
  digest_into (AnyValue.array vs) d =
      digest_items vs (Digest.u64 (Digest.tag d 0x06) (items_length vs))
  digest_into (AnyValue.map m) d = digest_entries m (Digest.u64 (Digest.tag d 0x07) (map_length m))

  -- The loop over the items of an array.
  pub digest_items : AnyValues → Digest.Digest → Digest.Digest
  digest_items AnyValues.nil d = d
  digest_items (AnyValues.cons v vs) d = digest_items vs (digest_into v d)

  -- The loop over the entries of a map.
  pub digest_entries : AttrMap → Digest.Digest → Digest.Digest
  digest_entries AttrMap.done d = d
  digest_entries (AttrMap.entry k v m) d = digest_entries m (digest_into v (Digest.str d k))

unfoldable pub digest_attrs : AttrMap → Digest.Digest → Digest.Digest
unfolding digest_entries
digest_attrs m d = digest_entries m (Digest.u64 d (map_length m))
