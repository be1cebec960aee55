-- ===== src/Check/Raft.antt =====
-- A registry of at most one API key.
use purser.Prelude.{
  ℕ, ◌≡◌, refl, true, false, Option, none, some, [], ◌∷◌, ◌++◌, String, str_eq, eq_iff, arith,
  if◌then◌else◌,
}
use purser.Audit.Encode.{pos}
use purser.Config.Result.{Result, ok, err}
use purser.Raft.Rows.{Types, ApiKey, Decoder, Registry}
use purser.Raft.Fsm.{Command, apply, replay}
use purser.Raft.Apply.{KeepsKeys, apply-revoked, replay-append}

abbrev rows : Types
rows = record {
  E = String;
  Json = String;
  Time = ℕ;
  Node = String;
  Link = String;
  Model = String;
  Plan = String;
  Cert = String;
  AuditEntry = String;
}

abbrev key : String → ApiKey rows
key id = record {
  id = id;
  name = "";
  key_hash = "";
  tenant = "";
  role = "admin";
  quota = pos 0;
  enabled = true;
  created_at = 0;
  updated_at = 0;
  expires_at = none;
  last_used_at = none;
  predecessor_id = "";
  rotated_at = none;
  scopes = [];
  created_by = "";
}

abbrev decode : Decoder rows
decode = record {
  node = ok;
  link = ok;
  model = ok;
  plan = ok;
  cert = ok;
  audit_entry = ok;
  deployment = λ j. err "deployment";
  api_key = λ j. ok (key j);
  text = ok;
  update_deployment_state_args = λ j. err "state";
  record_usage_args = λ j. err "usage";
  revoke_api_key_args = λ j. ok (record { id = j });
}

abbrev State : Type 0
State = Option (ApiKey rows)

abbrev refuse : State → Option String × State
refuse s = (some "no table", s)

abbrev get_key : String → State → Result String (ApiKey rows)
get_key id none = err "no key"
get_key id (some k) = if str_eq k.id id then ok k else err "no key"

abbrev reg : Registry rows
reg = record {
  State = State;
  create_node = λ n. refuse;
  update_node = λ n. refuse;
  delete_node = λ n. refuse;
  upsert_link = λ l. refuse;
  create_model = λ m. refuse;
  update_model = λ m. refuse;
  delete_model = λ m. refuse;
  create_plan = λ p. refuse;
  delete_plan = λ p. refuse;
  create_deployment = λ d. refuse;
  get_deployment = λ id s. err "no deployment";
  update_deployment = λ d. refuse;
  delete_deployment = λ d. refuse;
  create_api_key = λ k s. (none, some k);
  get_api_key = get_key;
  update_api_key = λ k s. (none, some k);
  delete_api_key = λ id s. (none, none);
  create_cert = λ c. refuse;
  update_cert = λ c. refuse;
  delete_cert = λ c. refuse;
  append_audit = λ e. refuse;
  record_usage = λ a b c d. refuse;
}

get_key-id : (id : String) (s : State) (k : ApiKey rows) → get_key id s ≡ ok k → k.id ≡ id
get_key-id id none k h = absurd (ground arith)
get_key-id id (some j) k h = ground (arith, eq_iff j.id id)

get_key-update : (k : ApiKey rows) → get_key k.id (some k) ≡ ok k
get_key-update k = rw ((eq_iff k.id k.id).1 refl) refl

reg-KeepsKeys : KeepsKeys rows reg
reg-KeepsKeys = record { get_id = get_key-id; get_update = λ k s h. (k, get_key-update k, refl) }

abbrev command : ℕ → Command rows
command n = record { code = n; data_json = "k1" }

apply-revoked_example :
    (k : ApiKey rows) × (reg.get_api_key "k1"
        (apply rows decode reg (ok (command 5)) (some (key "k1"))).1
      ≡ ok k)
    × (k.enabled ≡ false)
unfolding apply
apply-revoked_example =
    apply-revoked rows decode reg reg-KeepsKeys (command 5) (record { id = "k1" }) (some (key "k1"))
      refl refl refl

replay-append_example :
    replay rows decode reg (ok (command 4) ∷ [] ++ ok (command 5) ∷ []) none
    ≡ replay rows decode reg
        (ok (command 5) ∷ [])
        (replay rows decode reg (ok (command 4) ∷ []) none)
replay-append_example =
    replay-append rows decode reg (ok (command 4) ∷ []) (ok (command 5) ∷ []) none
