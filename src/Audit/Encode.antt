-- ===== src/Audit/Encode.antt =====
-- Byte encodings that go/controlplane/audit/audit.go uses: varints, length-prefixed fields, hex.
-- A Go string or byte slice is the list of its bytes.
use purser.Prelude.{
  ℕ, zero, suc, ◌+◌, ◌*◌, ◌/◌, ◌%◌, Bool, true, false, ◌&&◌, Option, none, some, List, [], ◌∷◌,
  ◌++◌, if◌then◌else◌, ltb, leb, ◌==◌, length, ◌-◌,
}

abbrev pub Bytes : Type 0
Bytes = List ℕ

-- An int64.
pub data Int64 : Type 0 where
  pos : ℕ → Int64
  -- -(n + 1)
  negsuc : ℕ → Int64

-- binary.PutUvarint, with the rounds that may still follow: seven bits a byte, lowest first, the top
-- bit set on every byte but the last.
unfoldable pub uvarint : ℕ → ℕ → Bytes
uvarint zero v = v ∷ []
uvarint (suc rounds) v =
    let rest = uvarint rounds (v / 128) in if ltb v 128 then v ∷ [] else (v % 128 + 128) ∷ rest

-- A uint64 takes at most ten bytes (binary.MaxVarintLen64).
unfoldable pub write_uvarint : ℕ → Bytes
unfolding uvarint
write_uvarint v = uvarint 9 v

-- binary.PutVarint: the sign goes to the lowest bit.
unfoldable pub zigzag : Int64 → ℕ
zigzag (pos n) = 2 * n
zigzag (negsuc n) = 2 * n + 1

unfoldable pub write_varint : Int64 → Bytes
unfolding write_uvarint zigzag
write_varint v = write_uvarint (zigzag v)

unfoldable pub write_bytes_field : Bytes → Bytes
unfolding write_uvarint
write_bytes_field b = write_uvarint (length b) ++ b

-- hex.EncodeToString
unfoldable pub hex_digit : ℕ → ℕ
hex_digit n = if ltb n 10 then b'0' + n else b'a' + (n - 10)

unfoldable pub hex_encode : Bytes → Bytes
hex_encode [] = []
hex_encode (b ∷ bs) = hex_digit (b / 16) ∷ hex_digit (b % 16) ∷ hex_encode bs

-- hex.DecodeString: `none` is its error
unfoldable pub from_hex_digit : ℕ → Option ℕ
from_hex_digit c =
    if leb b'0' c && leb c b'9'
    then some (c - b'0')
    else if leb b'a' c && leb c b'f'
    then some (c - b'a' + 10)
    else if leb b'A' c && leb c b'F'
    then some (c - b'A' + 10)
    else none

abbrev pub join_digits : Option ℕ → Option ℕ → Option Bytes → Option Bytes
join_digits (some hi) (some lo) (some bs) = some ((hi * 16 + lo) ∷ bs)
join_digits (some hi) (some lo) none = none
join_digits (some hi) none rest = none
join_digits none lo rest = none

unfoldable pub hex_decode : Bytes → Option Bytes
hex_decode [] = some []
hex_decode (a ∷ []) = none
hex_decode (a ∷ b ∷ cs) = join_digits (from_hex_digit a) (from_hex_digit b) (hex_decode cs)

unfoldable pub bytes_eq : Bytes → Bytes → Bool
bytes_eq [] [] = true
bytes_eq [] (y ∷ ys) = false
bytes_eq (x ∷ xs) [] = false
bytes_eq (x ∷ xs) (y ∷ ys) = x == y && bytes_eq xs ys

-- The order of Go strings.
unfoldable pub bytes_le : Bytes → Bytes → Bool
bytes_le [] ys = true
bytes_le (x ∷ xs) [] = false
bytes_le (x ∷ xs) (y ∷ ys) = let rest = bytes_le xs ys in if x == y then rest else ltb x y
