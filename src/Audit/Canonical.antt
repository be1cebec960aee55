-- ===== src/Audit/Canonical.antt =====
-- The canonical encoding of an entry determines its content: every part is prefix-free.
use purser.Prelude.{
  ℕ, zero, suc, ◌+◌, ◌/◌, ◌%◌, ◌^◌, ◌<◌, ◌≡◌, refl, Bool-cases, List, [], ◌∷◌, ◌++◌, length, arith,
  All, ltb, inl, inr, ap, sym, ◌∙◌,
}
use mathlib.Core.List.{append_assoc}
use purser.Audit.Encode.{
  Bytes, Int64, pos, negsuc, uvarint, write_uvarint, zigzag, write_varint, write_bytes_field,
}
use purser.Audit.Entry.{
  Details, Entry, get_detail, sort_keys, detail_keys, write_details, canonical_version,
  canonical_bytes,
}

-- `v` fits `rounds + 1` groups of seven bits.
abbrev FitsRounds : ℕ → ℕ → Type 0
FitsRounds zero v = v < 128
FitsRounds (suc rounds) v = FitsRounds rounds (v / 128)

cons_inj {ℓ} : {A : Type ℓ} (x y : A) (xs ys : List A) → x ∷ xs ≡ y ∷ ys → (x ≡ y) × (xs ≡ ys)
cons_inj x y xs ys h = (cc, cc)

uvarint_inj :
    (rounds v w : ℕ) (xs ys : Bytes)
    → FitsRounds rounds v
    → FitsRounds rounds w
    → uvarint rounds v ++ xs ≡ uvarint rounds w ++ ys
    → (v ≡ w) × (xs ≡ ys)
unfolding uvarint
uvarint_inj zero v w xs ys a b h = cons_inj v w xs ys h
uvarint_inj (suc rounds) v w xs ys a b h = elim (Bool-cases (ltb v 128)) [
  | inl v_last ↦ elim (Bool-cases (ltb w 128)) [
    | inl w_last ↦ cons_inj v w xs ys (rw (v_last, w_last) at h)
    | inr w_more ↦
        let e = cons_inj v (w % 128 + 128) xs _ (rw (v_last, w_more) at h) in
        absurd (ground (arith, e.0))
  ]
  | inr v_more ↦ elim (Bool-cases (ltb w 128)) [
    | inl w_last ↦
        let e = cons_inj (v % 128 + 128) w _ ys (rw (v_more, w_last) at h) in
        absurd (ground (arith, e.0))
    | inr w_more ↦
        let e =
          cons_inj (v % 128 + 128) (w % 128 + 128) (uvarint rounds (v / 128) ++ xs)
            (uvarint rounds (w / 128) ++ ys) (rw (v_more, w_more) at h) in
        let rest = uvarint_inj rounds (v / 128) (w / 128) xs ys a b e.1 in
        (omega (arith, e.0, rest.0), rest.1)
  ]
]

write_uvarint_inj :
    (v w : ℕ) (xs ys : Bytes)
    → v < 2 ^ 64
    → w < 2 ^ 64
    → write_uvarint v ++ xs ≡ write_uvarint w ++ ys
    → (v ≡ w) × (xs ≡ ys)
unfolding write_uvarint
write_uvarint_inj v w xs ys a b h = uvarint_inj 9 v w xs ys (omega arith) (omega arith) h

zigzag_inj : (x y : Int64) → zigzag x ≡ zigzag y → x ≡ y
unfolding zigzag
zigzag_inj (pos m) (pos n) h = ap pos (omega arith)
zigzag_inj (pos m) (negsuc n) h = absurd (omega arith)
zigzag_inj (negsuc m) (pos n) h = absurd (omega arith)
zigzag_inj (negsuc m) (negsuc n) h = ap negsuc (omega arith)

pub append_inj {ℓ} :
    {A : Type ℓ} (a b xs ys : List A)
    → length a ≡ length b
    → a ++ xs ≡ b ++ ys
    → (a ≡ b) × (xs ≡ ys)
append_inj [] [] xs ys l h = (refl, h)
append_inj [] (y ∷ b) xs ys l h = absurd (omega arith)
append_inj (x ∷ a) [] xs ys l h = absurd (omega arith)
append_inj (x ∷ a) (y ∷ b) xs ys l h =
    let e = cons_inj x y (a ++ xs) (b ++ ys) h in
    let rest = append_inj a b xs ys (omega arith) e.1 in (ground (arith, e.0, rest.0), rest.1)

write_bytes_field_inj :
    (a b xs ys : Bytes)
    → length a < 2 ^ 64
    → length b < 2 ^ 64
    → write_bytes_field a ++ xs ≡ write_bytes_field b ++ ys
    → (a ≡ b) × (xs ≡ ys)
unfolding write_bytes_field
write_bytes_field_inj a b xs ys la lb h =
    let e = write_uvarint_inj (length a) (length b) (a ++ xs) (b ++ ys) la lb (
      sym (append_assoc (write_uvarint (length a)) a xs)
      ∙ h
      ∙ append_assoc (write_uvarint (length b)) b ys) in
    append_inj a b xs ys e.0 e.1

-- Lengths of keys and values are below 2^64, as those of any Go string.
pub record IsSmall (ks : List Bytes) (d : Details) : Type 0 where
  pub keys : All (λ k. length k < 2 ^ 64) ks
  pub values : All (λ k. length (get_detail k d) < 2 ^ 64) ks

abbrev pub SameValues : List Bytes → Details → Details → Type 0
SameValues ks d d' = All (λ k. get_detail k d ≡ get_detail k d') ks

write_details_inj :
    (ks js : List Bytes) (d d' : Details)
    → length ks ≡ length js
    → IsSmall ks d
    → IsSmall js d'
    → write_details ks d ≡ write_details js d'
    → (ks ≡ js) × SameValues ks d d'
unfolding write_details
write_details_inj [] [] d d' l a b h = (refl, tt)
write_details_inj [] (j ∷ js) d d' l a b h = absurd (omega arith)
write_details_inj (k ∷ ks) [] d d' l a b h = absurd (omega arith)
write_details_inj (k ∷ ks) (j ∷ js) d d' l a b h =
    let key = write_bytes_field_inj k j _ _ a.keys.0 b.keys.0 h in
    let value =
      write_bytes_field_inj (get_detail k d) (get_detail j d') _ _ a.values.0 b.values.0 key.1 in
    let rest =
      write_details_inj ks js d d' (omega arith) (record { keys = a.keys.1; values = a.values.1 })
        (record { keys = b.keys.1; values = b.values.1 }) value.1 in
    (ground (arith, key.0, rest.0), (value.0 ∙ ap (λ x. get_detail x d') (sym key.0), rest.1))

-- The parts of an entry are in the range of their Go types.
pub record IsSized (e : Entry) : Type 0 where
  pub seq_range : e.seq < 2 ^ 64
  pub time_range : zigzag e.time_unix_nano < 2 ^ 64
  pub actor_range : length e.actor < 2 ^ 64
  pub action_range : length e.action < 2 ^ 64
  pub target_range : length e.target < 2 ^ 64
  pub count_range : length (sort_keys (detail_keys e.details)) < 2 ^ 64
  pub details_range : IsSmall (sort_keys (detail_keys e.details)) e.details

-- Two entries record the same: the same keys of the details, and the same value at each of them.
pub record SameContent (a b : Entry) : Type 0 where
  pub seq_eq : a.seq ≡ b.seq
  pub time_eq : a.time_unix_nano ≡ b.time_unix_nano
  pub actor_eq : a.actor ≡ b.actor
  pub action_eq : a.action ≡ b.action
  pub target_eq : a.target ≡ b.target
  pub keys_eq : sort_keys (detail_keys a.details) ≡ sort_keys (detail_keys b.details)
  pub values_eq : SameValues (sort_keys (detail_keys a.details)) a.details b.details

-- For entries in range: equal canonical bytes are the bytes of equal content.
pub canonical_bytes_inj :
    (a b : Entry) → IsSized a → IsSized b → canonical_bytes a ≡ canonical_bytes b → SameContent a b
unfolding canonical_bytes write_varint
canonical_bytes_inj a b sa sb h =
    let version =
      write_bytes_field_inj canonical_version canonical_version _ _ (omega arith) (omega arith) h in
    let seq = write_uvarint_inj a.seq b.seq _ _ sa.seq_range sb.seq_range version.1 in
    let time =
      write_uvarint_inj (zigzag a.time_unix_nano) (zigzag b.time_unix_nano) _ _ sa.time_range
        sb.time_range seq.1 in
    let actor = write_bytes_field_inj a.actor b.actor _ _ sa.actor_range sb.actor_range time.1 in
    let action =
      write_bytes_field_inj a.action b.action _ _ sa.action_range sb.action_range actor.1 in
    let target =
      write_bytes_field_inj a.target b.target _ _ sa.target_range sb.target_range action.1 in
    let count = write_uvarint_inj _ _ _ _ sa.count_range sb.count_range target.1 in
    let details =
      write_details_inj _ _ a.details b.details count.0 sa.details_range sb.details_range count.1 in
    record {
      seq_eq = seq.0;
      time_eq = zigzag_inj _ _ time.0;
      actor_eq = actor.0;
      action_eq = action.0;
      target_eq = target.0;
      keys_eq = details.0;
      values_eq = details.1;
    }
