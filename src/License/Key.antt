-- ===== src/License/Key.antt =====
-- Sign, Verify and the methods of a License, enterprise/license/license.go. A text is the list of its
-- runes and a time a number, 0 for the zero time.
use purser.Prelude.{
  ℕ, Bool, true, false, not, ◌&&◌, ◌||◌, Option, none, some, List, [], ◌∷◌, ◌++◌, if◌then◌else◌,
  length, ltb, ◌==◌,
}
use purser.Config.Result.{Result, ok, err}
use purser.Permissions.Text.{Text, text_eq}
use purser.License.Text.{is_empty, trim_space, split}

pub record Payload : Type 0 where
  pub licensee : Text
  pub features : List Text
  pub issued : ℕ
  pub expires : ℕ

pub record License : Type 0 where
  pub licensee : Text
  pub features : List Text
  pub issued : ℕ
  pub expires : ℕ

pub data KeyError : Type 0 where
  private_key_size : ℕ → KeyError
  marshal_payload malformed payload_encoding signature_encoding bad_signature payload_json :
      KeyError

abbrev pub community : License
community = record { licensee = []; features = []; issued = 0; expires = 0 }

-- A nil license is `none`.
unfoldable pub is_community : Option License → Bool
is_community none = true
is_community (some l) = is_empty l.licensee && length l.features == 0

unfoldable pub valid_at : Option License → ℕ → Bool
valid_at none t = false
valid_at (some l) t =
    if not (l.issued == 0) && ltb t l.issued
    then false
    else if not (l.expires == 0) && not (ltb t l.expires)
    then false
    else true

unfoldable pub is_listed : List Text → Text → Bool
is_listed [] name = false
is_listed (f ∷ features) name = text_eq f name || is_listed features name

unfoldable pub has_feature : Option License → Text → Bool
unfolding is_listed
has_feature none name = false
has_feature (some l) name = is_listed l.features name

-- base64.RawURLEncoding, encoding/json and crypto/ed25519, over bytes. `none` is an error.
pub record Codec : Type 0 where
  pub encode_url : List ℕ → Text
  pub decode_url : Text → Option (List ℕ)
  pub marshal : Payload → Option (List ℕ)
  pub unmarshal : List ℕ → Option Payload
  pub ed25519_sign : List ℕ → List ℕ → List ℕ
  pub ed25519_verify : List ℕ → List ℕ → List ℕ → Bool

abbrev pub dot : ℕ
dot = 46

abbrev pub license_of : Payload → License
license_of p = record {
  licensee = p.licensee;
  features = p.features;
  issued = p.issued;
  expires = p.expires;
}

module _ (C : Codec) where
  abbrev signed : List ℕ → Option (List ℕ) → Result KeyError Text
  signed priv none = err marshal_payload
  signed priv (some raw) = ok (C.encode_url raw ++ dot ∷ C.encode_url (C.ed25519_sign priv raw))

  unfoldable pub sign : List ℕ → Payload → Result KeyError Text
  sign priv p =
      if not (length priv == 64)
      then err (private_key_size (length priv))
      else signed priv (C.marshal p)

  abbrev pub decoded : Option Payload → Result KeyError License
  decoded none = err payload_json
  decoded (some p) = ok (license_of p)

  abbrev check_signature : List ℕ → List ℕ → Option (List ℕ) → Result KeyError License
  check_signature key raw none = err signature_encoding
  check_signature key raw (some sig) =
      if not (length sig == 64) || not (C.ed25519_verify key raw sig)
      then err bad_signature
      else decoded (C.unmarshal raw)

  abbrev check_payload : List ℕ → Text → Option (List ℕ) → Result KeyError License
  check_payload key sig none = err payload_encoding
  check_payload key sig (some raw) = check_signature key raw (C.decode_url sig)

  abbrev pub verify_parts : List ℕ → List Text → Result KeyError License
  verify_parts key [] = err malformed
  verify_parts key (payload ∷ []) = err malformed
  verify_parts key (payload ∷ sig ∷ []) =
      if is_empty payload || is_empty sig
      then err malformed
      else check_payload key sig (C.decode_url payload)
  verify_parts key (payload ∷ sig ∷ more ∷ parts) = err malformed

  -- The key is the package's VerificationKey.
  unfoldable pub verify : List ℕ → Text → Result KeyError License
  unfolding trim_space split
  verify key text = verify_parts key (split dot (trim_space text))

  -- the value of the environment variable, "" when it is not set
  unfoldable pub from_env : List ℕ → Text → Result KeyError License
  unfolding verify
  from_env key value =
      let text = trim_space value in if is_empty text then ok community else verify key text
