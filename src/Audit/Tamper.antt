-- ===== src/Audit/Tamper.antt =====
-- The head hash of a chain pins the whole chain, unless SHA-256 collides on
-- two of its entries.
use purser.Prelude.{
  ℕ, suc, ◌+◌, ◌^◌, ◌<◌, ◌≡◌, ◌≢◌, ◌⊎◌, inl, inr, refl, Bool-cases, none, some, get_last?,
  none-ne-some, List, [], ◌∷◌, ◌++◌, length, arith, All, ap, sym, ◌∙◌, subst,
}
use mathlib.Core.Option.{some-injective}
use purser.Audit.Encode.{Bytes, hex_digit, hex_encode, hex_decode, bytes_eq}
use purser.Audit.Hex.{AreBytes, hex_decode-hex_encode}
use purser.Audit.Entry.{Entry, canonical_bytes}
use purser.Audit.Log.{genesis_prev_hash, verify}
use purser.Audit.Chain.{bytes_eq_iff, IsLinked, IsChainFrom, verify_iff}
use purser.Audit.Append.{compute_hash_of_prev, null_bytes}
use purser.Audit.Canonical.{IsSized, SameContent, canonical_bytes_inj, append_inj}

-- The entries of a chain, the newest first, in front of those seen before.
abbrev pub onto : List Entry → List Entry → List Entry
onto [] acc = acc
onto (e ∷ entries) acc = onto entries (e ∷ acc)

abbrev pub newest_first : List Entry → List Entry
newest_first entries = onto entries []

-- The hash that the next entry links to.
abbrev pub head_hash : List Entry → Bytes
head_hash [] = genesis_prev_hash
head_hash (e ∷ older) = e.hash

-- The entry is one of the list.
abbrev pub IsAmong : Entry → List Entry → Type 0
IsAmong e [] = ⊥
IsAmong e (a ∷ as') = (e ≡ a) ⊎ IsAmong e as'

module _ (sha256 : Bytes → Bytes) where
  -- Two inputs with one digest, each of them what Verify hashes for an entry of one of the lists.
  pub record Collision (as' bs : List Entry) : Type 0 where
    pub left_entry : Entry
    pub right_entry : Entry
    pub left_among : IsAmong left_entry as'
    pub right_among : IsAmong right_entry bs
    pub left_prev : Bytes
    pub right_prev : Bytes
    pub left_link : hex_decode left_entry.prev_hash ≡ some left_prev
    pub right_link : hex_decode right_entry.prev_hash ≡ some right_prev
    pub differ : left_prev ++ canonical_bytes left_entry ≢ right_prev ++ canonical_bytes right_entry
    pub same_hash :
        sha256 (left_prev ++ canonical_bytes left_entry)
        ≡ sha256 (right_prev ++ canonical_bytes right_entry)

  older-Collision :
      (a b : Entry) (as' bs : List Entry) → Collision as' bs → Collision (a ∷ as') (b ∷ bs)
  older-Collision a b as' bs c = record {
    left_entry = c.left_entry;
    right_entry = c.right_entry;
    left_among = inr c.left_among;
    right_among = inr c.right_among;
    left_prev = c.left_prev;
    right_prev = c.right_prev;
    left_link = c.left_link;
    right_link = c.right_link;
    differ = c.differ;
    same_hash = c.same_hash;
  }

  -- Two entries that a verifier cannot tell apart.
  pub record IsSame (a b : Entry) : Type 0 where
    pub content : SameContent a b
    pub prev_eq : a.prev_hash ≡ b.prev_hash
    pub hash_eq : a.hash ≡ b.hash

  abbrev pub AllSame : List Entry → List Entry → Type 0
  AllSame [] [] = Unit {0}
  AllSame [] (b ∷ bs) = ⊥
  AllSame (a ∷ as') [] = ⊥
  AllSame (a ∷ as') (b ∷ bs) = IsSame a b × AllSame as' bs

  -- a chain with the newest entry first
  abbrev IsPast : List Entry → Type 0
  IsPast [] = Unit {0}
  IsPast (e ∷ older) = IsLinked sha256 (head_hash older) (length older) e × IsPast older

  onto-IsPast :
      (entries acc : List Entry)
      → IsPast acc
      → IsChainFrom sha256 (head_hash acc) (length acc) entries
      → IsPast (onto entries acc)
  onto-IsPast [] acc p h = p
  onto-IsPast (e ∷ entries) acc p h = onto-IsPast entries (e ∷ acc) (h.0, p) h.1

  module _ (hash_bytes : (x : Bytes) → AreBytes (sha256 x))
      (hash_length : (x : Bytes) → length (sha256 x) ≡ 32) where
    -- what a head hash stands for
    record IsDigest (h : Bytes) : Type 0 where
      raw : Bytes
      bytes : AreBytes raw
      size : length raw ≡ 32
      hex : h ≡ hex_encode raw

    decoded : (prev h : Bytes) (d : IsDigest prev) → h ≡ prev → hex_decode h ≡ some d.raw
    decoded prev h d e = ap hex_decode (e ∙ d.hex) ∙ hex_decode-hex_encode d.raw d.bytes

    -- what the hash of a linked entry is the hash of
    record IsHashed (prev : Bytes) (e : Entry) : Type 0 where
      digest : IsDigest prev
      hash_eq : e.hash ≡ hex_encode (sha256 (digest.raw ++ canonical_bytes e))

    genesis-IsDigest : IsDigest genesis_prev_hash
    genesis-IsDigest = record {
      raw = null_bytes 32;
      bytes = omega arith;
      size = refl;
      hex = unfold hex_encode hex_digit in refl;
    }

    linked-IsHashed :
        (prev : Bytes) (i : ℕ) (e : Entry)
        → IsDigest prev
        → IsLinked sha256 prev i e
        → IsHashed prev e
    linked-IsHashed prev i e d l = record {
      digest = d;
      hash_eq = some-injective _ _ (
          sym l.hash_ok
          ∙ compute_hash_of_prev sha256 e d.raw (decoded prev e.prev_hash d l.link_ok));
    }

    head-IsDigest : (past : List Entry) → IsPast past → IsDigest (head_hash past)
    head-IsDigest [] p = genesis-IsDigest
    head-IsDigest (e ∷ older) p =
        let h = linked-IsHashed (head_hash older) (length older) e (head-IsDigest older p.1) p.0 in
        record {
          raw = sha256 (h.digest.raw ++ canonical_bytes e);
          bytes = hash_bytes _;
          size = hash_length _;
          hex = h.hash_eq;
        }

    hex_encode_inj : (x y : Bytes) → AreBytes x → AreBytes y → hex_encode x ≡ hex_encode y → x ≡ y
    hex_encode_inj x y a b h =
        some-injective _ _
          (sym (hex_decode-hex_encode x a) ∙ ap hex_decode h ∙ hex_decode-hex_encode y b)

    -- equal hashes of linked entries
    entries-IsSame :
        (p q : Bytes) (i j : ℕ) (a b : Entry) (as' bs : List Entry)
        → IsDigest p
        → IsDigest q
        → IsLinked sha256 p i a
        → IsLinked sha256 q j b
        → IsSized a
        → IsSized b
        → a.hash ≡ b.hash
        → IsSame a b ⊎ Collision (a ∷ as') (b ∷ bs)
    unfolding linked-IsHashed
    entries-IsSame p q i j a b as' bs dp dq la lb sa sb h =
        let ha = linked-IsHashed p i a dp la in
        let hb = linked-IsHashed q j b dq lb in
        let x : Bytes = dp.raw ++ canonical_bytes a in
        let y : Bytes = dq.raw ++ canonical_bytes b in
        let same : sha256 x ≡ sha256 y =
          hex_encode_inj _ _ (hash_bytes _) (hash_bytes _) (sym ha.hash_eq ∙ h ∙ hb.hash_eq) in
        elim (Bool-cases (bytes_eq x y)) [
          | inr other ↦ inr (record {
            left_entry = a;
            right_entry = b;
            left_among = inl refl;
            right_among = inl refl;
            left_prev = dp.raw;
            right_prev = dq.raw;
            left_link = decoded p a.prev_hash dp la.link_ok;
            right_link = decoded q b.prev_hash dq lb.link_ok;
            differ = λ e. ground (arith, bytes_eq_iff x y);
            same_hash = same;
          })
          | inl equal ↦
              let parts =
                append_inj dp.raw dq.raw (canonical_bytes a) (canonical_bytes b)
                  (dp.size ∙ sym dq.size) ((bytes_eq_iff x y).0 equal) in
              inl (record {
                content = canonical_bytes_inj a b sa sb parts.1;
                prev_eq = la.link_ok ∙ dp.hex ∙ ap hex_encode parts.0 ∙ sym dq.hex ∙ sym lb.link_ok;
                hash_eq = h;
              })
        ]

    pasts-AllSame :
        (as' bs : List Entry)
        → IsPast as'
        → IsPast bs
        → All IsSized as'
        → All IsSized bs
        → length as' ≡ length bs
        → head_hash as' ≡ head_hash bs
        → AllSame as' bs ⊎ Collision as' bs
    pasts-AllSame [] [] p q sa sb l h = inl tt
    pasts-AllSame [] (b ∷ bs) p q sa sb l h = absurd (omega arith)
    pasts-AllSame (a ∷ as') [] p q sa sb l h = absurd (omega arith)
    pasts-AllSame (a ∷ as') (b ∷ bs) p q sa sb l h =
        elim (entries-IsSame _ _ _ _ a b as' bs (head-IsDigest as' p.1) (head-IsDigest bs q.1) p.0
          q.0 sa.0 sb.0 h) [
            | inr c ↦ inr c
            | inl same ↦
                elim (pasts-AllSame as' bs p.1 q.1 sa.1 sb.1 (omega arith)
                  (sym p.0.link_ok ∙ same.prev_eq ∙ q.0.link_ok)) [
                    | inl rest ↦ inl (same, rest)
                    | inr c ↦ inr (older-Collision a b as' bs c)
                  ]
          ]

    heads-AllSame :
        (a b : Entry) (as' bs : List Entry)
        → IsPast (a ∷ as')
        → IsPast (b ∷ bs)
        → All IsSized (a ∷ as')
        → All IsSized (b ∷ bs)
        → suc (length as') < 2 ^ 64
        → suc (length bs) < 2 ^ 64
        → a.hash ≡ b.hash
        → AllSame (a ∷ as') (b ∷ bs) ⊎ Collision (a ∷ as') (b ∷ bs)
    heads-AllSame a b as' bs p q sa sb la lb h =
        elim (entries-IsSame _ _ _ _ a b as' bs (head-IsDigest as' p.1) (head-IsDigest bs q.1) p.0
          q.0 sa.0 sb.0 h) [
            | inr c ↦ inr c
            | inl same ↦
                pasts-AllSame (a ∷ as') (b ∷ bs) p q sa sb
                  (omega (arith, p.0.seq_ok, q.0.seq_ok, same.content.seq_eq)) h
          ]

    onto-last :
        (e a : Entry) (entries acc : List Entry)
        → get_last? (e ∷ entries) ≡ some a
        → (older : List Entry) × (onto (e ∷ entries) acc ≡ a ∷ older)
    onto-last e a [] acc h = (acc, ap (λ x. x ∷ acc) (some-injective _ _ h))
    onto-last e a (d ∷ entries) acc h = onto-last d a entries (e ∷ acc) h

    newest_first-last :
        (a : Entry) (entries : List Entry)
        → get_last? entries ≡ some a
        → (older : List Entry) × (newest_first entries ≡ a ∷ older)
    newest_first-last a [] h = absurd (none-ne-some a refl h)
    newest_first-last a (e ∷ entries) h = onto-last e a entries [] h

    All-onto :
        (entries acc : List Entry)
        → All IsSized entries
        → All IsSized acc
        → All IsSized (onto entries acc)
    All-onto [] acc h k = k
    All-onto (e ∷ entries) acc h k = All-onto entries (e ∷ acc) h.1 (h.0, k)

    length-onto :
        (entries acc : List Entry) → length (onto entries acc) ≡ length entries + length acc
    length-onto [] acc = omega arith
    length-onto (e ∷ entries) acc = omega (arith, length-onto entries (e ∷ acc))

    -- what is known of a verified list, newest first
    record IsVerified (past : List Entry) (n : ℕ) : Type 0 where
      is_past : IsPast past
      all_sized : All IsSized past
      count : length past ≡ n

    verified :
        (entries : List Entry)
        → verify sha256 entries ≡ none
        → All IsSized entries
        → IsVerified (newest_first entries) (length entries)
    verified entries v s = record {
      is_past = onto-IsPast entries [] tt ((verify_iff sha256 entries).0 v);
      all_sized = All-onto entries [] s tt;
      count = omega (arith, length-onto entries []);
    }

    -- For a hash function with digests of 32 bytes, and two lists of fewer than 2^64 entries in range
    -- that Verify accepts: if their last entries have the same hash, then the lists are as long as one
    -- another and agree entry by entry, newest first, in content and in both hashes; or else some
    -- entry of one list and some entry of the other are hashed from different bytes, the decoded hash
    -- before and the canonical bytes, to one digest.
    pub verify-pins :
        (as' bs : List Entry) (a b : Entry)
        → verify sha256 as' ≡ none
        → verify sha256 bs ≡ none
        → All IsSized as'
        → All IsSized bs
        → length as' < 2 ^ 64
        → length bs < 2 ^ 64
        → get_last? as' ≡ some a
        → get_last? bs ≡ some b
        → a.hash ≡ b.hash
        → AllSame (newest_first as') (newest_first bs)
          ⊎ Collision (newest_first as') (newest_first bs)
    verify-pins as' bs a b va vb sa sb la lb ha hb h =
        let (old_a, ea) = newest_first-last a as' ha in
        let (old_b, eb) = newest_first-last b bs hb in
        let ka : IsVerified (a ∷ old_a) (length as') =
          subst (λ p. IsVerified p (length as')) ea (verified as' va sa) in
        let kb : IsVerified (b ∷ old_b) (length bs) =
          subst (λ p. IsVerified p (length bs)) eb (verified bs vb sb) in
        subst (λ p. AllSame p (newest_first bs) ⊎ Collision p (newest_first bs)) (sym ea)
          (subst (λ p. AllSame (a ∷ old_a) p ⊎ Collision (a ∷ old_a) p) (sym eb)
            (heads-AllSame a b old_a old_b ka.is_past kb.is_past ka.all_sized kb.all_sized
              (omega (arith, ka.count)) (omega (arith, kb.count)) h))
