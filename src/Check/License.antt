-- ===== src/Check/License.antt =====
-- Keys under a coder that shifts the bytes out of the way of the dot and the spaces, and a signature of
-- 64 zeros.
use purser.Prelude.{
  ℕ, zero, suc, ◌+◌, ◌-◌, ◌≤◌, ◌≡◌, refl, true, false, some, List, [], ◌∷◌, ◌++◌, map, arith, ap,
  ◌∙◌, subst,
}
use mathlib.Core.Option.{some-injective}
use purser.Config.Result.{ok}
use purser.Permissions.Text.{Text, text, text_eq}
use purser.License.Text.{
  is_space, is_empty, HasNo, HasNoSpace, trim_space, trim_start, trim_end, split,
}
use purser.License.Key.{
  Payload, Codec, dot, license_of, has_feature, is_listed, sign, verify, from_env,
}
use purser.License.Granted.{CodecLaws, IsSigned, verify-sign, from_env-IsSigned}
use purser.License.Distance.{levenshtein, last_row, row_from, first_row, entry}
use purser.License.Edits.{Edits, levenshtein-least}
use purser.License.Features.{is_known_feature, suggest_feature, normalise_feature, nearest, find}
use purser.License.Suggest.{suggest_feature-known}

abbrev zeros : ℕ → List ℕ
zeros zero = []
zeros (suc n) = 0 ∷ zeros n

abbrev content : Payload
content = record {
  licensee = text "Acme";
  features = text "billing" ∷ [];
  issued = 10;
  expires = 20;
}

abbrev shift : ℕ → ℕ
shift c = c + 20000

abbrev unshift : Text → List ℕ
unshift [] = []
unshift (c ∷ s) = (c - 20000) ∷ unshift s

abbrev codec : Codec
codec = record {
  encode_url = map shift;
  decode_url = λ s. some (unshift s);
  marshal = λ p. some (7 ∷ []);
  unmarshal = λ raw. some content;
  ed25519_sign = λ priv raw. zeros 64;
  ed25519_verify = λ key raw sig. true;
}

levenshtein-least_example :
    Edits (text "biling") (text "billing") (levenshtein (text "biling") (text "billing"))
    × ((n : ℕ)
        → Edits (text "biling") (text "billing") n
        → levenshtein (text "biling") (text "billing") ≤ n)
levenshtein-least_example = levenshtein-least (text "biling") (text "billing")

suggest_feature-known_example : is_known_feature (text "billing") ≡ true
unfolding suggest_feature normalise_feature nearest find is_known_feature is_listed text_eq
    trim_space trim_start trim_end is_space levenshtein last_row row_from first_row entry
suggest_feature-known_example = suggest_feature-known (λ c. c) (text "biling") (text "billing") refl

unshift-shift : (bytes : List ℕ) → unshift (map shift bytes) ≡ bytes
unshift-shift [] = refl
unshift-shift (b ∷ bytes) =
    ap (λ c. c ∷ unshift (map shift bytes)) (omega arith) ∙ ap (λ r. b ∷ r) (unshift-shift bytes)

shift-HasNo : (bytes : List ℕ) → HasNo dot (map shift bytes)
shift-HasNo [] = tt
shift-HasNo (b ∷ bytes) = (ground arith, shift-HasNo bytes)

shift-HasNoSpace : (bytes : List ℕ) → HasNoSpace (map shift bytes)
unfolding is_space
shift-HasNoSpace [] = tt
shift-HasNoSpace (b ∷ bytes) = (ground arith, shift-HasNoSpace bytes)

shift-is_empty : (bytes : List ℕ) → is_empty (map shift bytes) ≡ is_empty bytes
shift-is_empty [] = refl
shift-is_empty (b ∷ bytes) = refl

laws : CodecLaws codec (zeros 64) [] content
laws = record {
  decode-encode = λ bytes. ap some (unshift-shift bytes);
  no_dot = shift-HasNo;
  no_space = shift-HasNoSpace;
  no_bytes = shift-is_empty;
  some_json = λ raw e. subst (λ r. is_empty r ≡ false) (some-injective _ _ e) refl;
  unmarshal-marshal = λ raw e. refl;
  sign_size = λ raw. refl;
  sign_verifies = λ raw. refl;
}

verify-sign_example :
    (key : Text) × (sign codec (zeros 64) content ≡ ok key)
    × (verify codec [] key ≡ ok (license_of content))
verify-sign_example = verify-sign codec (zeros 64) [] content laws (7 ∷ []) refl refl

abbrev key_text : Text
key_text = map shift (7 ∷ []) ++ dot ∷ map shift (zeros 64)

from_env-IsSigned_example : IsSigned codec [] (trim_space key_text) (license_of content)
unfolding from_env verify trim_space trim_start trim_end split is_space has_feature is_listed
    text_eq
from_env-IsSigned_example =
    from_env-IsSigned codec [] key_text (text "billing") (license_of content) refl refl
