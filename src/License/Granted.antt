-- ===== src/License/Granted.antt =====
-- What a key grants, enterprise/license/license.go.
use purser.Prelude.{
  ℕ, ◌≡◌, inl, inr, refl, true, false, not, ◌||◌, Option, none, some, List, [], ◌∷◌, ◌++◌, length,
  ◌==◌, arith, Bool-cases, Option-cases, ap, ◌∙◌, subst, All-append,
}
use purser.Config.Result.{Result, ok}
use purser.Permissions.Text.{Text}
use purser.License.Text.{
  is_space, is_empty, trim_space, split, HasNo, HasNoSpace, trim_space-HasNoSpace, split-HasNo,
  split-append,
}
use purser.License.Key.{
  Payload, License, KeyError, Codec, community, dot, license_of, is_listed, has_feature, sign,
  verify, verify_parts, from_env, decoded,
}

-- What the standard library documents of the coders, of a key pair and of the JSON of a payload.
pub record CodecLaws (C : Codec) (priv key : List ℕ) (p : Payload) : Type 0 where
  pub decode-encode : (bytes : List ℕ) → C.decode_url (C.encode_url bytes) ≡ some bytes
  -- the URL alphabet has neither a dot nor a space
  pub no_dot : (bytes : List ℕ) → HasNo dot (C.encode_url bytes)
  pub no_space : (bytes : List ℕ) → HasNoSpace (C.encode_url bytes)
  pub no_bytes : (bytes : List ℕ) → is_empty (C.encode_url bytes) ≡ is_empty bytes
  pub some_json : (raw : List ℕ) → C.marshal p ≡ some raw → is_empty raw ≡ false
  pub unmarshal-marshal : (raw : List ℕ) → C.marshal p ≡ some raw → C.unmarshal raw ≡ some p
  pub sign_size : (raw : List ℕ) → length (C.ed25519_sign priv raw) ≡ 64
  pub sign_verifies : (raw : List ℕ) → C.ed25519_verify key raw (C.ed25519_sign priv raw) ≡ true

module _ (C : Codec) (priv key : List ℕ) (p : Payload) (laws : CodecLaws C priv key p) where
  signed_text : List ℕ → Text
  signed_text raw = C.encode_url raw ++ dot ∷ C.encode_url (C.ed25519_sign priv raw)

  split_signed :
      (raw : List ℕ)
      → split dot (trim_space (signed_text raw))
        ≡ C.encode_url raw ∷ C.encode_url (C.ed25519_sign priv raw) ∷ []
  unfolding signed_text is_space
  split_signed raw =
      let sig = C.ed25519_sign priv raw in
      ap (split dot) (
        trim_space-HasNoSpace (signed_text raw) (
          All-append _ (C.encode_url raw) (dot ∷ C.encode_url sig) (laws.no_space raw)
            (refl, laws.no_space sig)))
      ∙ (split-append dot (C.encode_url raw) (C.encode_url sig) (laws.no_dot raw)
          ∙ ap (λ parts. C.encode_url raw ∷ parts)
              (split-HasNo dot (C.encode_url sig) (laws.no_dot sig)))

  sized : (bytes : List ℕ) → length bytes ≡ 64 → is_empty bytes ≡ false
  sized [] e = absurd (omega arith)
  sized (b ∷ bytes) e = refl

  -- Verify with the public half of a key pair accepts what Sign makes with the private half, and
  -- returns the content of the payload. Sign succeeds on a private key of 64 bytes when the payload
  -- has a JSON.
  pub verify-sign :
      (raw : List ℕ)
      → length priv ≡ 64
      → C.marshal p ≡ some raw
      → (text : Text) × (sign C priv p ≡ ok text) × (verify C key text ≡ ok (license_of p))
  unfolding sign verify signed_text
  verify-sign raw size json =
      let sig = C.ed25519_sign priv raw in
      (
        signed_text raw,
        rw (size, json) refl,
        ap (verify_parts C key) (split_signed raw)
            ∙ rw
                (
                  laws.no_bytes raw,
                  laws.some_json raw json,
                  laws.no_bytes sig,
                  sized sig (laws.sign_size raw),
                  laws.decode-encode raw,
                  laws.decode-encode sig,
                  laws.sign_size raw,
                  laws.sign_verifies raw,
                  laws.unmarshal-marshal raw json,
                )
                refl,
      )

module _ (C : Codec) (key : List ℕ) where
  -- The text holds a payload and a signature of it that the key verifies; the licence is its content.
  pub record IsSigned (text : Text) (lic : License) : Type 0 where
    pub payload : Text
    pub signature : Text
    pub parts : split dot (trim_space text) ≡ payload ∷ signature ∷ []
    pub raw : List ℕ
    pub sig : List ℕ
    pub payload_decoded : C.decode_url payload ≡ some raw
    pub signature_decoded : C.decode_url signature ≡ some sig
    pub size : length sig ≡ 64
    pub verified : C.ed25519_verify key raw sig ≡ true
    pub content : Payload
    pub content_decoded : C.unmarshal raw ≡ some content
    pub same : lic ≡ license_of content

  from_content :
      (o : Option Payload) (lic : License)
      → Path (Result KeyError License) (decoded C o) (ok lic)
      → (p : Payload) × (o ≡ some p) × (lic ≡ license_of p)
  from_content none lic e = absurd (ground (arith, e))
  from_content (some p) lic e = (p, refl, ground (arith, e))

  from_parts :
      (text : Text) (lic : License) (parts : List Text)
      → split dot (trim_space text) ≡ parts
      → verify_parts C key parts ≡ ok lic
      → IsSigned text lic
  from_parts text lic [] e h = absurd (ground (arith, h))
  from_parts text lic (a ∷ []) e h = absurd (ground (arith, h))
  from_parts text lic (a ∷ b ∷ c ∷ parts) e h = absurd (ground (arith, h))
  from_parts text lic (a ∷ b ∷ []) e h = elim (Bool-cases (is_empty a || is_empty b)) [
    | inl empty ↦ absurd (ground (arith, rw empty at h))
    | inr full ↦ elim (Option-cases (C.decode_url a)) [
      | inl bad ↦ absurd (ground (arith, rw (full, bad) at h))
      | inr (raw, raw_ok) ↦ elim (Option-cases (C.decode_url b)) [
        | inl bad ↦ absurd (ground (arith, rw (full, raw_ok, bad) at h))
        | inr (sig, sig_ok) ↦
            elim (Bool-cases (not (length sig == 64) || not (C.ed25519_verify key raw sig))) [
              | inl forged ↦ absurd (ground (arith, rw (full, raw_ok, sig_ok, forged) at h))
              | inr good ↦
                  let (p, found, same) =
                    from_content (C.unmarshal raw) lic (rw (full, raw_ok, sig_ok, good) at h) in
                  record {
                    payload = a;
                    signature = b;
                    parts = e;
                    raw = raw;
                    sig = sig;
                    payload_decoded = raw_ok;
                    signature_decoded = sig_ok;
                    size = ground (arith, good);
                    verified = ground (arith, good);
                    content = p;
                    content_decoded = found;
                    same = same;
                  }
            ]
      ]
    ]
  ]

  -- A feature that FromEnv's licence has was granted: the variable's value holds a payload with a
  -- signature of 64 bytes that the key verifies, and the licence is the payload's content.
  pub from_env-IsSigned :
      (value name : Text) (lic : License)
      → from_env C key value ≡ ok lic
      → has_feature (some lic) name ≡ true
      → IsSigned (trim_space value) lic
  unfolding from_env verify has_feature is_listed
  from_env-IsSigned value name lic h has = elim (Bool-cases (is_empty (trim_space value))) [
    | inl empty ↦
        let same : lic ≡ community = ground (arith, rw (from_env, empty) at h) in
        absurd (ground (arith, subst (λ l. is_listed l.features name ≡ true) same has))
    | inr full ↦
        from_parts (trim_space value) lic (split dot (trim_space (trim_space value))) refl
          (rw (from_env, full) at h)
  ]
