-- ===== src/Fleet/Token.antt =====
-- The join tokens of go/controlplane/fleet/fleet.go. A text is the list of its runes, a time a number of
-- nanoseconds since 1970. The signature and the coding of the payload are parameters.
use purser.Prelude.{
  ℕ, String, ◌+◌, ◌*◌, ◌/◌, Bool, true, false, not, Option, none, some, List, [], ◌∷◌, ◌++◌,
  if◌then◌else◌, ltb, ◌==◌,
}
use purser.Config.Result.{Result, ok, err}
use purser.Permissions.Text.{Text, text_eq}

pub record JoinToken : Type 0 where
  pub token : Text
  pub expires_at : ℕ
  pub uses : ℕ

pub record TokenPayload : Type 0 where
  -- unix seconds
  pub exp : ℕ
  pub nonce : Text

-- the audit entry of a new token
pub record TokenAudit : Type 0 where
  pub action : String
  pub target : String
  pub expires_at : ℕ

pub data TokenError : Type 0 where
  no_nonce no_json invalid_token token_used : TokenError

-- sign, and base64 and JSON of a payload; `none` is an error of either
pub record TokenCodec : Type 0 where
  pub sign : Text → Text
  pub encode : TokenPayload → Option Text
  pub decode : Text → Option TokenPayload

-- the map `used`
abbrev pub Used : Type 0
Used = Text → Bool

abbrev pub none_used : Used
none_used nonce = false

unfoldable pub use_nonce : Text → Used → Used
use_nonce nonce used n = if text_eq nonce n then true else used n

abbrev pub second : ℕ
second = 1000000000

abbrev pub hour : ℕ
hour = 3600 * second

abbrev pub dot : ℕ
dot = 46

abbrev before : ℕ → Option (Text × Text) → Option (Text × Text)
before c none = none
before c (some (head, tail)) = some (c ∷ head, tail)

-- strings.Cut(s, sep) for a separator of one rune
unfoldable pub cut : ℕ → Text → Option (Text × Text)
cut sep [] = none
cut sep (c ∷ s) = let rest = cut sep s in if c == sep then some ([], s) else before c rest

module _ (C : TokenCodec) where
  abbrev token_of : ℕ → Option Text → Result TokenError JoinToken × List TokenAudit
  token_of exp none = (err no_json, [])
  token_of exp (some body) = (
    ok (record { token = body ++ dot ∷ C.sign body; expires_at = exp; uses = 1 }),
    record { action = "fleet.join_token.generated"; target = ""; expires_at = exp } ∷ [],
  )

  abbrev minted : ℕ → Option Text → Result TokenError JoinToken × List TokenAudit
  minted exp none = (err no_nonce, [])
  minted exp (some nonce) = token_of exp (C.encode (record { exp = exp / second; nonce = nonce }))

  -- The nonce is what the random source gives; a ttl that is not positive is 0.
  unfoldable pub generate_join_token :
      ℕ → ℕ → Option Text → Result TokenError JoinToken × List TokenAudit
  generate_join_token now ttl nonce = minted (now + (if ttl == 0 then hour else ttl)) nonce

  abbrev spend : ℕ → Used → Option TokenPayload → Result TokenError (Unit {0}) × Used
  spend now used none = (err invalid_token, used)
  spend now used (some p) =
      if ltb p.exp (now / second)
      then (err invalid_token, used)
      else if used p.nonce
      then (err token_used, used)
      else (ok tt, use_nonce p.nonce used)

  abbrev check_cut : ℕ → Used → Option (Text × Text) → Result TokenError (Unit {0}) × Used
  check_cut now used none = (err invalid_token, used)
  check_cut now used (some (body, sig)) =
      if not (text_eq sig (C.sign body))
      then (err invalid_token, used)
      else spend now used (C.decode body)

  unfoldable pub validate_token : ℕ → Used → Text → Result TokenError (Unit {0}) × Used
  unfolding cut use_nonce
  validate_token now used token = check_cut now used (cut dot token)

  -- what the map is after the validations, in their order
  unfoldable pub used_after : Used → List (ℕ × Text) → Used
  unfolding validate_token
  used_after used [] = used
  used_after used ((now, token) ∷ later) = used_after (validate_token now used token).1 later
