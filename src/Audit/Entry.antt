-- ===== src/Audit/Entry.antt =====
-- Entries of the audit chain and their hash, go/controlplane/audit/audit.go. SHA-256 is a parameter.
use purser.Prelude.{ℕ, Option, List, [], ◌∷◌, ◌++◌, if◌then◌else◌, length}
use mathlib.Core.Option
use purser.Audit.Encode.{
  Bytes, Int64, write_uvarint, write_varint, write_bytes_field, hex_encode, hex_decode, bytes_eq,
  bytes_le,
}

-- map[string]string: the entries in some order of iteration. A nil map has none.
abbrev pub Details : Type 0
Details = List (Bytes × Bytes)

pub record Entry : Type 0 where
  pub seq : ℕ
  pub time_unix_nano : Int64
  pub actor : Bytes
  pub action : Bytes
  pub target : Bytes
  pub details : Details
  pub prev_hash : Bytes
  pub hash : Bytes

-- e.Details[k], with the zero value for a missing key
unfoldable pub get_detail : Bytes → Details → Bytes
get_detail k [] = []
get_detail k ((j, v) ∷ d) = if bytes_eq j k then v else get_detail k d

-- sort.Strings
unfoldable pub insert_key : Bytes → List Bytes → List Bytes
insert_key k [] = k ∷ []
insert_key k (j ∷ ks) = if bytes_le k j then k ∷ j ∷ ks else j ∷ insert_key k ks

unfoldable pub sort_keys : List Bytes → List Bytes
unfolding insert_key
sort_keys [] = []
sort_keys (k ∷ ks) = insert_key k (sort_keys ks)

unfoldable pub detail_keys : Details → List Bytes
detail_keys [] = []
detail_keys ((k, v) ∷ d) = k ∷ detail_keys d

-- The loop that writes the details, over the sorted keys.
unfoldable pub write_details : List Bytes → Details → Bytes
write_details [] d = []
write_details (k ∷ ks) d =
    write_bytes_field k ++ (write_bytes_field (get_detail k d) ++ write_details ks d)

abbrev pub canonical_version : Bytes
canonical_version =
    b'p' ∷ b'u' ∷ b'r' ∷ b's' ∷ b'e' ∷ b'r' ∷ b'.' ∷ b'a' ∷ b'u' ∷ b'd' ∷ b'i' ∷ b't' ∷ b'.' ∷ b'v'
    ∷ b'1' ∷ []

abbrev pub first_seq : ℕ
first_seq = 1

unfoldable pub canonical_bytes : Entry → Bytes
canonical_bytes e =
    let keys = sort_keys (detail_keys e.details) in
    write_bytes_field canonical_version
    ++ (write_uvarint e.seq
        ++ (write_varint e.time_unix_nano
            ++ (write_bytes_field e.actor
                ++ (write_bytes_field e.action
                    ++ (write_bytes_field e.target
                        ++ (write_uvarint (length keys) ++ write_details keys e.details))))))

module _ (sha256 : Bytes → Bytes) where
  -- `none` is the error about PrevHash.
  unfoldable pub compute_hash : Entry → Option Bytes
  compute_hash e =
      Option.map (λ prev. hex_encode (sha256 (prev ++ canonical_bytes e))) (hex_decode e.prev_hash)
