-- ===== src/Model/Tests.antt =====
-- Runs of the data model, and its theorems at concrete inputs.
use log_scope.Prelude.{◌≡◌, refl, true, [], ◌∷◌, arith}
use log_scope.Prelude.Int.{negsuc}
use log_scope.Text.{codes}
use log_scope.Bytes.{hex_digit, Bytes}
use log_scope.Model.Digest.{new, utf8, utf8_char}
use log_scope.Model.Value.{AnyValue, AnyValues, AttrMap}
use log_scope.QueryLang.Resolve.Literals.{to_ascii_lowercase}
use log_scope.Model.TraceIds.{IdResult, is_ascii_hexdigit, from_hex, from_bytes}
use log_scope.Model.TraceIds.Reading.{Read, from_hex-Read}
use log_scope.Model.TraceIds.Canonical.{from_hex-from_bytes}
use log_scope.Model.Value.Reading.{IsValid}
use log_scope.Model.Value.Injective.{digest_into-injective, digest_attrs-injective}

-- The euro sign takes three bytes.
euro_bytes : utf8 (0x20ac ∷ []) ≡ 0xe2 ∷ 0x82 ∷ 0xac ∷ []
unfolding utf8 utf8_char
euro_bytes = refl

-- [-1, "a"]
abbrev pair : AnyValue
pair = AnyValue.array (
    AnyValues.cons (AnyValue.int (negsuc 0))
      (AnyValues.cons (AnyValue.str (codes "a")) AnyValues.nil))

abbrev attrs : AttrMap
attrs = AttrMap.entry (codes "k") pair (AttrMap.entry (codes "l") (AnyValue.bool true) AttrMap.done)

pair-IsValid : IsValid pair
unfolding IsValid utf8 utf8_char
pair-IsValid = (omega arith, (omega arith, (omega arith, tt)))

attrs-IsValid : IsValid (AnyValue.map attrs)
unfolding IsValid utf8 utf8_char
attrs-IsValid = (
  omega arith,
  (omega arith, (omega arith, (omega arith, (omega arith, tt))), (omega arith, tt, tt)),
)

abbrev after : Bytes
after = 7 ∷ []

digest_into-injective_example : (pair ≡ pair) × (after ≡ after)
digest_into-injective_example =
    digest_into-injective pair pair new after after pair-IsValid pair-IsValid refl

digest_attrs-injective_example : attrs ≡ attrs
digest_attrs-injective_example =
    digest_attrs-injective attrs attrs new attrs-IsValid attrs-IsValid refl

-- Letters are made small, and the id of no bytes is absent.
abbrev span_bytes : Bytes
span_bytes = 0xab ∷ 0x01 ∷ []

from_hex-Read_example : Read 2 (codes "AB01") (from_hex 2 (codes "AB01"))
from_hex-Read_example = from_hex-Read 2 (codes "AB01")

lowered : from_hex 2 (codes "AB01") ≡ IdResult.ok (codes "ab01")
unfolding from_hex is_ascii_hexdigit to_ascii_lowercase
lowered = refl

from_hex-from_bytes_example : from_hex 2 (codes "ab01") ≡ IdResult.ok (codes "ab01")
unfolding from_bytes hex_digit
from_hex-from_bytes_example =
    from_hex-from_bytes 2 span_bytes (codes "ab01") (omega arith, (omega arith, tt)) refl
