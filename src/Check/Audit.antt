-- ===== src/Check/Audit.antt =====
-- The audit chain under a toy hash function.
use purser.Prelude.{
  ℕ, zero, suc, ◌+◌, ◌%◌, ◌≡◌, ◌↔◌, ◌⊎◌, refl, none, some, [], ◌∷◌, arith, length, false, Option,
}
use purser.Audit.Encode.{
  Bytes, pos, hex_encode, hex_decode, hex_digit, from_hex_digit, write_varint, zigzag,
  write_bytes_field, bytes_eq, bytes_le,
}
use purser.Audit.Entry.{
  Entry, Details, canonical_bytes, compute_hash, get_detail, sort_keys, detail_keys, write_details,
}
use purser.Audit.Log.{
  genesis_prev_hash, verify, Error, ok, err, kind_link, log_append, mem_append, mem_store,
}
use purser.Audit.Chain.{IsChain, verify_iff, IsFirstFailure, verify-IsFirstFailure}
use purser.Audit.Hex.{AreBytes, hex_decode-hex_encode}
use purser.Audit.Append.{null_bytes, IsAppended, log_append-IsAppended}
use purser.Audit.Mem.{IsNext, mem_append-append, mem_store-laws}
use purser.Audit.Canonical.{IsSized, SameContent, canonical_bytes_inj}
use purser.Audit.Tamper.{AllSame, Collision, newest_first, verify-pins}

abbrev total : Bytes → ℕ
total [] = 0
total (b ∷ bs) = b + total bs

-- the sum of the bytes, and 31 zeros
abbrev toy : Bytes → Bytes
toy x = (total x % 256) ∷ null_bytes 31

toy-AreBytes : (x : Bytes) → AreBytes (toy x)
toy-AreBytes x = (omega arith, null-AreBytes 31)
  where
    null-AreBytes : (n : ℕ) → AreBytes (null_bytes n)
    null-AreBytes zero = tt
    null-AreBytes (suc n) = (omega arith, null-AreBytes n)

toy-length : (x : Bytes) → length (toy x) ≡ 32
toy-length x = refl

abbrev alice : Bytes
alice = b'a' ∷ b'l' ∷ []

abbrev details : Details
details = (b'k' ∷ [], b'v' ∷ []) ∷ (b'a' ∷ [], []) ∷ []

-- what the first append of the log stores
abbrev unsealed : Entry
unsealed = record {
  seq = 1;
  time_unix_nano = pos 300;
  actor = alice;
  action = b'p' ∷ [];
  target = [];
  details = details;
  prev_hash = genesis_prev_hash;
  hash = [];
}

abbrev first : Entry
first = record unsealed { hash = hex_encode (toy []) }

abbrev hash_of : Option Bytes → Bytes
hash_of none = []
hash_of (some h) = h

abbrev sealed : Entry
sealed = record unsealed { hash = hash_of (compute_hash toy unsealed) }

sealed-verifies : verify toy (sealed ∷ []) ≡ none
unfolding verify bytes_eq compute_hash hex_decode from_hex_digit hex_encode hex_digit
    canonical_bytes write_bytes_field write_varint sort_keys detail_keys bytes_le write_details
    get_detail
sealed-verifies = refl

verify_iff_example : (verify toy (sealed ∷ []) ≡ none) ↔ IsChain toy (sealed ∷ [])
verify_iff_example = verify_iff toy (sealed ∷ [])

-- The second entry repeats the genesis link.
abbrev unlinked : Entry
unlinked = record sealed { seq = 2 }

verify-unlinked :
    verify toy (sealed ∷ unlinked ∷ []) ≡ some (record { index = 1; seq = 2; kind = kind_link })
unfolding verify bytes_eq compute_hash hex_decode from_hex_digit hex_encode hex_digit
    canonical_bytes write_bytes_field write_varint sort_keys detail_keys bytes_le write_details
    get_detail
verify-unlinked = refl

verify-IsFirstFailure_example :
    IsFirstFailure toy genesis_prev_hash 0
      (sealed ∷ unlinked ∷ [])
      (record { index = 1; seq = 2; kind = kind_link })
verify-IsFirstFailure_example =
    verify-IsFirstFailure toy (sealed ∷ unlinked ∷ [])
      (record { index = 1; seq = 2; kind = kind_link }) verify-unlinked

log_append-IsAppended_example :
    IsAppended toy toy-AreBytes mem_store mem_store-laws
      (pos 400)
      alice
      (b'q' ∷ [])
      []
      details
      (sealed ∷ [])
      (log_append toy mem_store false (pos 400) alice (b'q' ∷ []) [] details (sealed ∷ []))
unfolding mem_store-laws
log_append-IsAppended_example =
    log_append-IsAppended toy toy-AreBytes mem_store mem_store-laws (pos 400) alice (b'q' ∷ []) []
      details (sealed ∷ []) ((verify_iff toy (sealed ∷ [])).0 sealed-verifies)

mem_append-append_example :
    (IsNext false unlinked (sealed ∷ [])
      × (mem_append false unlinked (sealed ∷ []) ≡ (ok unlinked, sealed ∷ unlinked ∷ [])))
    ⊎ (¬ IsNext false unlinked (sealed ∷ [])
        × ((x : Error) × (mem_append false unlinked (sealed ∷ []) ≡ (err x, sealed ∷ []))))
mem_append-append_example = mem_append-append false unlinked (sealed ∷ [])

sealed-IsSized : IsSized sealed
unfolding zigzag sort_keys detail_keys bytes_le get_detail bytes_eq
sealed-IsSized = record {
  seq_range = omega arith;
  time_range = omega arith;
  actor_range = omega arith;
  action_range = omega arith;
  target_range = omega arith;
  count_range = omega arith;
  details_range = record {
    keys = (omega arith, (omega arith, tt));
    values = (omega arith, (omega arith, tt));
  };
}

canonical_bytes_inj_example : SameContent sealed sealed
canonical_bytes_inj_example = canonical_bytes_inj sealed sealed sealed-IsSized sealed-IsSized refl

verify-pins_example :
    AllSame toy (newest_first (sealed ∷ [])) (newest_first (sealed ∷ []))
    ⊎ Collision toy (newest_first (sealed ∷ [])) (newest_first (sealed ∷ []))
verify-pins_example =
    verify-pins toy toy-AreBytes toy-length (sealed ∷ []) (sealed ∷ []) sealed sealed
      sealed-verifies sealed-verifies (sealed-IsSized, tt) (sealed-IsSized, tt) (omega arith)
      (omega arith) refl refl refl

hex_decode-hex_encode_example : hex_decode (hex_encode (255 ∷ 16 ∷ [])) ≡ some (255 ∷ 16 ∷ [])
hex_decode-hex_encode_example =
    hex_decode-hex_encode (255 ∷ 16 ∷ []) (omega arith, (omega arith, tt))
