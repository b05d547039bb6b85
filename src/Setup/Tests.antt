-- ===== src/Setup/Tests.antt =====
-- Runs of the setup program's payload reader, and its theorems at concrete inputs. The digest is a
-- checksum of one byte, written 32 times.
use log_scope.Prelude.{
  ℕ, zero, suc, all, true, ◌+◌, ◌%◌, ◌≡◌, ◌≢◌, refl, ap, [], ◌∷◌, ◌++◌, length, arith, ltb,
}
use log_scope.Text.{codes}
use log_scope.Bytes.{Bytes, AreBytes, to_le_bytes, hex, hex_digit}
use log_scope.Setup.Payload.{Payload, PayloadResult, PayloadError, read_appended, build_trailer}
use log_scope.Setup.Payload.Exact.{read_appended_iff, read_appended-tampered, read_appended-io}
use PayloadResult.{ok, err}
use PayloadError.{too_small, digest_mismatch}

abbrev repeat : ℕ → ℕ → Bytes
repeat zero b = []
repeat (suc n) b = b ∷ repeat n b

abbrev sum : Bytes → ℕ
sum [] = 0
sum (b ∷ bs) = b + sum bs

abbrev checksum : Bytes → Bytes
checksum bs = repeat 32 (sum bs % 256)

length-checksum : (bs : Bytes) → length (checksum bs) ≡ 32
length-checksum bs = refl

all-AreBytes : (bs : Bytes) → all (λ b. ltb b 256) bs ≡ true → AreBytes bs
all-AreBytes [] h = tt
all-AreBytes (b ∷ bs) h = (ground arith, all-AreBytes bs (ground arith))

abbrev archive : Payload
archive = record { bytes = codes "PK"; sha256 = hex (checksum (codes "PK")) }

abbrev setup : Bytes
setup = codes "MZ" ++ (codes "PK" ++ build_trailer checksum (codes "PK") 2)

hex_bytes : hex (0 ∷ 171 ∷ []) ≡ codes "00ab"
unfolding hex hex_digit
hex_bytes = refl

two_bytes : to_le_bytes 2 258 ≡ 2 ∷ 1 ∷ []
unfolding to_le_bytes
two_bytes = refl

tiny_file : read_appended checksum (codes "MZ") ≡ err too_small
unfolding read_appended
tiny_file = refl

read_appended_iff_example : read_appended checksum setup ≡ ok archive
unfolding build_trailer to_le_bytes
read_appended_iff_example =
    (read_appended_iff checksum setup archive length-checksum (all-AreBytes setup refl)
        (omega arith)).1
      (codes "MZ", refl, refl)

read_appended-tampered_example :
    read_appended checksum (codes "MZ" ++ (codes "PX" ++ build_trailer checksum (codes "PK") 2))
    ≡ err (digest_mismatch (hex (checksum (codes "PK"))) (hex (checksum (codes "PX"))))
read_appended-tampered_example =
    read_appended-tampered checksum (codes "MZ") (codes "PK") (codes "PX") length-checksum refl
      (omega arith) (λ h. omega (arith, ap sum h))

read_appended-io_example : read_appended checksum setup ≢ err PayloadError.io
read_appended-io_example = read_appended-io checksum setup
