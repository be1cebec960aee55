-- ===== src/Check/Joins.antt =====
-- A manager whose coder writes the nonce and the expiry behind each other.
use purser.Prelude.{
  ℕ, ◌+◌, ◌≤◌, ◌≡◌, ◌≢◌, ◌-◌, ◌*◌, ◌∙◌, ◌⊎◌, ◌↔◌, refl, true, Option, none, some, [], ◌∷◌, String,
  map, str_eq, arith, ap, sym, ltb, if◌then◌else◌, subst,
}
use mathlib.Core.Option.{some-injective}
use purser.Config.Result.{ok, err}
use purser.Permissions.Text.{Text, text, text_eq}
use purser.License.Text.{HasNo}
use purser.Fleet.Token.{
  TokenPayload, TokenError, TokenCodec, none_used, use_nonce, invalid_token, second, dot, cut,
  generate_join_token, validate_token, used_after,
}
use purser.Fleet.Once.{CodecLaws, validate_token-once, validate-generate}
use purser.Fleet.Manager.{
  NodeRow, Calls, Outside, found, not_found, Cert, bad_token, node_of, id_of, join,
  node_state_decommissioned, update_node, decommission,
}
use purser.Fleet.Enrolled.{IsIdOf, Joins}
use purser.Fleet.Joined.{join-IsEnrolled, IsRevoked, HasOwned, decommission-IsRevoked}
use purser.Check.Fixed.{fixed}

abbrev shift : ℕ → ℕ
shift c = c + 100

abbrev unshift : Text → Text
unshift [] = []
unshift (c ∷ s) = (c - 100) ∷ unshift s

abbrev encode : TokenPayload → Option Text
encode p = some (shift p.exp ∷ map shift p.nonce)

abbrev decode : Text → Option TokenPayload
decode [] = none
decode (e ∷ s) = some (record { exp = e - 100; nonce = unshift s })

abbrev codec : TokenCodec
codec = record { sign = λ body. 7 ∷ []; encode = encode; decode = decode }

-- the token of a payload that expires 5 seconds after 1970
abbrev token : Text
token = 105 ∷ 101 ∷ dot ∷ 7 ∷ []

validate_token-once_example :
    (validate_token codec 3
      (used_after codec (validate_token codec 0 none_used token).1 ((1, text "x") ∷ []))
      token).0
    ≢ ok tt
unfolding validate_token cut text_eq
validate_token-once_example =
    validate_token-once codec 0 none_used token ((1, text "x") ∷ []) 3 refl

unshift-shift : (s : Text) → unshift (map shift s) ≡ s
unshift-shift [] = refl
unshift-shift (c ∷ s) =
    ap (λ d. d ∷ unshift (map shift s)) (omega arith) ∙ ap (λ r. c ∷ r) (unshift-shift s)

shift-HasNo : (s : Text) → HasNo dot (map shift s)
shift-HasNo [] = tt
shift-HasNo (c ∷ s) = (ground arith, shift-HasNo s)

decoded : (p : TokenPayload) → decode (shift p.exp ∷ map shift p.nonce) ≡ some p
decoded p =
    ap (λ e. some (record { exp = e; nonce = unshift (map shift p.nonce) })) (omega arith)
    ∙ ap (λ n. some (record { exp = p.exp; nonce = n })) (unshift-shift p.nonce)

laws : CodecLaws codec
laws = record {
  decode-encode = λ p body e. ap decode (sym (some-injective _ _ e)) ∙ decoded p;
  no_dot = λ p body e. subst (HasNo dot) (some-injective _ _ e) (shift-HasNo (p.exp ∷ p.nonce));
}

validate-generate_example :
    (validate_token codec (4 * second) none_used token
      ≡ (if ltb 5 4 then (err invalid_token, none_used) else (ok tt, use_nonce (1 ∷ []) none_used)))
    × (0 ≤ 5 * second)
unfolding generate_join_token text_eq
validate-generate_example =
    validate-generate codec laws 0 (5 * second) (4 * second) (1 ∷ [])
      (record { token = token; expires_at = 5 * second; uses = 1 }) none_used refl refl

abbrev row : NodeRow ℕ fixed
row = record {
  id = "n";
  hostname = "";
  os = "";
  arch = "";
  ram_gb = fixed.of_nat 0;
  vram_gb = fixed.of_nat 0;
  state = "NODE_STATE_READY";
  advertised_agent_addr = "";
  advertised_inference_addr = "";
  last_seen = 0;
  hardware_profile = 0;
  created_at = 0;
  updated_at = 0;
}

abbrev cert : String → String → Cert
cert serial subject = record {
  serial = serial;
  subject = subject;
  role = "agent";
  pem = "";
  not_before = 0;
  not_after = 9;
  state = "issued";
  created_at = 0;
}

abbrev outside : Outside ℕ fixed
outside = record {
  no_json = 0;
  get_node = λ past id. if str_eq id "n" then found row else not_found;
  creates = λ past n. true;
  updates = λ past n. true;
  issues = λ past req. some (record { serial = "1"; cert_pem = "pem"; not_after = 9 });
  ca_certificate = λ past. some "ca";
  list_certs = λ past. some (cert "1" "n" ∷ cert "2" "other" ∷ []);
}

join-IsEnrolled_example :
    let run = join ℕ fixed outside codec 0 none_used [] token none "fresh" "a:1" "a:2" in
    let node = node_of ℕ fixed outside none (id_of ℕ fixed outside none "fresh") "a:1" "a:2" in
    let v = validate_token codec 0 none_used token in
    IsIdOf ℕ fixed outside codec none "fresh" node.id
    × (((e : TokenError) × (v.0 ≡ err e) × (run ≡ (err (bad_token e), [], none_used)))
        ⊎ ((v.0 ≡ ok tt) × Joins ℕ fixed outside codec [] node (run.0, run.1)))
join-IsEnrolled_example =
    join-IsEnrolled ℕ fixed outside codec 0 none_used [] token none "fresh" "a:1" "a:2"

decommission-IsRevoked_example :
    let gone : NodeRow ℕ fixed = record row { state = node_state_decommissioned } in
    let run = decommission ℕ fixed outside [] "n" in
    (run.0 ≡ ok tt)
    × ((later : Calls ℕ fixed) × (run.1 ≡ update_node gone ∷ later)
        × (IsRevoked ℕ fixed outside codec "1" later
            ↔ HasOwned ℕ fixed outside codec "n" "1" (cert "1" "n" ∷ cert "2" "other" ∷ [])))
decommission-IsRevoked_example =
    decommission-IsRevoked ℕ fixed outside codec [] "n" "1" row
      (cert "1" "n" ∷ cert "2" "other" ∷ []) refl refl refl
