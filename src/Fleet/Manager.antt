-- ===== src/Fleet/Manager.antt =====
-- Join, Approve, Drain, Decommission and RenewCert of go/controlplane/fleet/fleet.go. A function
-- takes the calls made so far and returns those that it makes, in their order; reading is not a call.
use purser.Prelude.{
  ℕ, ◌+◌, ◌*◌, Bool, false, ◌&&◌, Option, none, some, List, [], ◌∷◌, ◌++◌, String, str_eq,
  if◌then◌else◌, ltb, ◌==◌,
}
use purser.Config.Result.{Result, ok, err}
use purser.Permissions.Text.{Text}
use purser.Planner.Float.{Float64}
use purser.Registry.Rows.{Node}
use purser.Fleet.Token.{TokenCodec, TokenError, Used, validate_token, hour}

abbrev pub node_state_enrolled : String
node_state_enrolled = "NODE_STATE_ENROLLED"

abbrev pub node_state_ready : String
node_state_ready = "NODE_STATE_READY"

abbrev pub node_state_draining : String
node_state_draining = "NODE_STATE_DRAINING"

abbrev pub node_state_decommissioned : String
node_state_decommissioned = "NODE_STATE_DECOMMISSIONED"

abbrev pub state_issued : String
state_issued = "issued"

abbrev pub role_agent : String
role_agent = "agent"

abbrev pub renew_threshold : ℕ
renew_threshold = 60 * 24 * hour

-- pki.CertRequest, less its IP addresses and its TTL, which the manager leaves unset
pub record CertRequest : Type 0 where
  pub common_name : String
  pub role : String
  pub dns_names : List String

-- pki.IssuedCert, less the key and NotBefore, which the manager does not read. A PEM block is a value
-- that is only passed on.
pub record IssuedCert : Type 0 where
  pub serial : String
  pub cert_pem : String
  pub not_after : ℕ

pub record Cert : Type 0 where
  pub serial : String
  pub subject : String
  pub role : String
  pub pem : String
  pub not_before : ℕ
  pub not_after : ℕ
  pub state : String
  pub created_at : ℕ

pub data Details : Type 0 where
  no_details : Details
  serial : String → Details

pub record JoinResult : Type 0 where
  pub node_id : String
  pub client_cert : String
  pub ca_cert : String

pub data FleetError : Type 0 where
  bad_token : TokenError → FleetError
  register_node lookup_node update_node_failed issue_cert_failed no_ca_cert : FleetError
  node_not_found list_certs_failed cert_not_yet_expiring : FleetError

-- What a look-up of a node answers.
pub data Lookup (A : Type 0) : Type 0 where
  found : A → Lookup A
  not_found lookup_failed : Lookup A

module _ (Json : Type 0) (F : Float64) where
  abbrev pub NodeRow : Type 0
  NodeRow = Node Json ℕ F.T

  pub record Gpu : Type 0 where
    pub count : ℕ
    pub vram_gb : F.T

  -- the parts of the message HardwareProfile that are read; `profile` is its JSON
  pub record Hardware : Type 0 where
    pub node_id : String
    pub hostname : String
    pub os : String
    pub arch : String
    pub ram_total_gb : F.T
    pub gpus : List Gpu
    pub profile : Option Json

  pub data Call : Type 0 where
    create_node update_node : NodeRow → Call
    issue_cert : CertRequest → Call
    revoke_cert : String → Call
    append_audit : String → String → Details → Call

  abbrev pub Calls : Type 0
  Calls = List Call

  -- What the registry and the CA answer after the calls made so far.
  pub record Outside : Type 0 where
    pub no_json : Json
    pub get_node : Calls → String → Lookup NodeRow
    pub creates : Calls → NodeRow → Bool
    pub updates : Calls → NodeRow → Bool
    pub issues : Calls → CertRequest → Option IssuedCert
    pub ca_certificate : Calls → Option String
    pub list_certs : Calls → Option (List Cert)

  -- the sum over the GPUs, from `vram`
  unfoldable pub add_vram : F.T → List Gpu → F.T
  add_vram vram [] = vram
  add_vram vram (g ∷ gpus) =
      add_vram (F.add vram (F.mul g.vram_gb (F.of_nat (if g.count == 0 then 1 else g.count)))) gpus

  module _ (out : Outside) where
    abbrev blank_node : String → String → String → NodeRow
    blank_node id agent inference = record {
      id = id;
      hostname = "";
      os = "";
      arch = "";
      ram_gb = F.of_nat 0;
      vram_gb = F.of_nat 0;
      state = node_state_enrolled;
      advertised_agent_addr = agent;
      advertised_inference_addr = inference;
      last_seen = 0;
      hardware_profile = out.no_json;
      created_at = 0;
      updated_at = 0;
    }

    abbrev json_or : Option Json → Json
    json_or none = out.no_json
    json_or (some j) = j

    unfoldable pub node_of : Option Hardware → String → String → String → NodeRow
    unfolding add_vram
    node_of none id agent inference = blank_node id agent inference
    node_of (some hw) id agent inference = record (blank_node id agent inference) {
      hostname = hw.hostname;
      os = hw.os;
      arch = hw.arch;
      ram_gb = hw.ram_total_gb;
      vram_gb = add_vram (F.of_nat 0) hw.gpus;
      hardware_profile = json_or hw.profile;
    }

    -- `generated` is what genNodeID returns.
    unfoldable pub id_of : Option Hardware → String → String
    id_of none generated = generated
    id_of (some hw) generated = if str_eq hw.node_id "" then generated else hw.node_id

    abbrev pub upsert : Calls → NodeRow → Lookup NodeRow → Result FleetError Call
    upsert past node not_found =
        if out.creates past node then ok (create_node node) else err register_node
    upsert past node lookup_failed = err lookup_node
    upsert past node (found old) =
        if out.updates past node then ok (update_node node) else err update_node_failed

    abbrev pub agent_request : NodeRow → CertRequest
    agent_request node = record {
      common_name = node.id;
      role = role_agent;
      dns_names = if str_eq node.hostname "" then [] else node.hostname ∷ [];
    }

    abbrev pub with_ca : NodeRow → IssuedCert → Option String → Result FleetError JoinResult × Calls
    with_ca node issued none = (err no_ca_cert, [])
    with_ca node issued (some ca) = (
      ok (record { node_id = node.id; client_cert = issued.cert_pem; ca_cert = ca }),
      append_audit "fleet.node.enrolled" node.id (serial issued.serial) ∷ [],
    )

    abbrev pub with_cert :
        Calls → NodeRow → Option IssuedCert → Result FleetError JoinResult × Calls
    with_cert past node none = (err issue_cert_failed, issue_cert (agent_request node) ∷ [])
    with_cert past node (some issued) =
        let issue = issue_cert (agent_request node) in
        let end = with_ca node issued (out.ca_certificate (past ++ issue ∷ [])) in
        (end.0, issue ∷ end.1)

    -- the write that is refused is a call too
    abbrev attempt : NodeRow → Lookup NodeRow → Calls
    attempt node not_found = create_node node ∷ []
    attempt node lookup_failed = []
    attempt node (found old) = update_node node ∷ []

    abbrev pub with_row :
        Calls
        → NodeRow
        → Lookup NodeRow
        → Result FleetError Call
        → Result FleetError JoinResult × Calls
    with_row past node look (err e) = (err e, attempt node look)
    with_row past node look (ok write) =
        let before = past ++ write ∷ [] in
        let end = with_cert before node (out.issues before (agent_request node)) in
        (end.0, write ∷ end.1)

    abbrev pub enrol : Calls → NodeRow → Result FleetError JoinResult × Calls
    enrol past node =
        let look = out.get_node past node.id in with_row past node look (upsert past node look)

    module _ (C : TokenCodec) where
      abbrev pub after_token :
          Calls
          → NodeRow
          → Result TokenError (Unit {0}) × Used
          → Result FleetError JoinResult × Calls × Used
      after_token past node (err e, used) = (err (bad_token e), [], used)
      after_token past node (ok u, used) = let end = enrol past node in (end.0, end.1, used)

      unfoldable pub join :
          ℕ
          → Used
          → Calls
          → Text
          → Option Hardware
          → String
          → String
          → String
          → Result FleetError JoinResult × Calls × Used
      unfolding node_of id_of validate_token
      join now used past token hw generated agent inference =
          after_token past (node_of hw (id_of hw generated) agent inference)
            (validate_token C now used token)

    -- Approve, Drain and the start of Decommission: the state of the node is written.
    abbrev set_state_on :
        Calls
        → String
        → String
        → Lookup NodeRow
        → (NodeRow → Result FleetError (Unit {0}) × Calls)
        → Result FleetError (Unit {0}) × Calls
    set_state_on past id state not_found next = (err node_not_found, [])
    set_state_on past id state lookup_failed next = (err lookup_node, [])
    set_state_on past id state (found n) next =
        let row : NodeRow = record n { state = state } in
        if out.updates past row
        then ((next row).0, update_node row ∷ (next row).1)
        else (err update_node_failed, update_node row ∷ [])

    unfoldable pub approve : Calls → String → Result FleetError (Unit {0}) × Calls
    approve past id =
        set_state_on past id node_state_ready (out.get_node past id)
          λ row. (ok tt, append_audit "fleet.node.approved" id no_details ∷ [])

    unfoldable pub drain : Calls → String → Result FleetError (Unit {0}) × Calls
    drain past id =
        set_state_on past id node_state_draining (out.get_node past id)
          λ row. (ok tt, append_audit "fleet.node.draining" id no_details ∷ [])

    -- the loop over the certificates
    unfoldable pub revoke_all : String → List Cert → Calls
    revoke_all id [] = []
    revoke_all id (c ∷ certs) =
        let rest = revoke_all id certs in
        if str_eq c.subject id && str_eq c.state state_issued
        then revoke_cert c.serial ∷ rest
        else rest

    abbrev pub revoke_listed : String → Option (List Cert) → Calls
    revoke_listed id none = []
    revoke_listed id (some certs) = revoke_all id certs

    unfoldable pub decommission : Calls → String → Result FleetError (Unit {0}) × Calls
    unfolding revoke_all
    decommission past id =
        set_state_on past id node_state_decommissioned (out.get_node past id) λ row. (
          ok tt,
          revoke_listed id (out.list_certs (past ++ update_node row ∷ []))
              ++ append_audit "fleet.node.decommissioned" id no_details ∷ [],
        )

    -- the loop that guards a renewal: the first issued certificate of the node decides; `now` is the
    -- wall clock
    unfoldable pub is_early : ℕ → String → List Cert → Bool
    is_early now id [] = false
    is_early now id (c ∷ certs) =
        let rest = is_early now id certs in
        if str_eq c.subject id && str_eq c.state state_issued
        then ltb (now + renew_threshold) c.not_after
        else rest

    abbrev renewed : String → Option IssuedCert → Result FleetError IssuedCert × Calls
    renewed id none = (
      err issue_cert_failed,
      issue_cert (record { common_name = id; role = role_agent; dns_names = [] }) ∷ [],
    )
    renewed id (some issued) = (
      ok issued,
      issue_cert (record { common_name = id; role = role_agent; dns_names = [] })
          ∷ append_audit "fleet.cert.renewed" id (serial issued.serial)
          ∷ [],
    )

    abbrev renew_on : ℕ → Calls → String → Option (List Cert) → Result FleetError IssuedCert × Calls
    renew_on now past id none = (err list_certs_failed, [])
    renew_on now past id (some certs) =
        if is_early now id certs
        then (err cert_not_yet_expiring, [])
        else renewed id
            (out.issues past (record { common_name = id; role = role_agent; dns_names = [] }))

    abbrev renew_found : ℕ → Calls → String → Lookup NodeRow → Result FleetError IssuedCert × Calls
    renew_found now past id not_found = (err node_not_found, [])
    renew_found now past id lookup_failed = (err lookup_node, [])
    renew_found now past id (found n) = renew_on now past id (out.list_certs past)

    unfoldable pub renew_cert : ℕ → Calls → String → Result FleetError IssuedCert × Calls
    unfolding is_early
    renew_cert now past id = renew_found now past id (out.get_node past id)
