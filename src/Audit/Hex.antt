-- ===== src/Audit/Hex.antt =====
-- Hex decoding undoes hex encoding.
use purser.Prelude.{ℕ, ◌+◌, ◌*◌, ◌/◌, ◌%◌, ◌<◌, ◌≡◌, refl, some, [], ◌∷◌, All, arith}
use purser.Audit.Encode.{Bytes, hex_digit, from_hex_digit, hex_encode, hex_decode}

-- Every element is a byte.
abbrev pub AreBytes : Bytes → Type 0
AreBytes = All (λ b. b < 256)

from_hex_digit-hex_digit : (n : ℕ) → n < 16 → from_hex_digit (hex_digit n) ≡ some n
unfolding from_hex_digit hex_digit
from_hex_digit-hex_digit n h = ground arith

digits_join : (b : ℕ) → b / 16 * 16 + b % 16 ≡ b
digits_join b = omega arith

-- A byte string survives hex.EncodeToString and hex.DecodeString.
pub hex_decode-hex_encode : (bs : Bytes) → AreBytes bs → hex_decode (hex_encode bs) ≡ some bs
unfolding hex_encode hex_decode
hex_decode-hex_encode [] h = refl
hex_decode-hex_encode (b ∷ bs) h = rw (
  from_hex_digit-hex_digit (b / 16) (omega arith),
  from_hex_digit-hex_digit (b % 16) (omega arith),
  hex_decode-hex_encode bs h.1,
  digits_join b,
)
