-- ===== src/Fleet/Enrolled.antt =====
-- What enrolment in Join, go/controlplane/fleet/fleet.go, leaves behind.
use purser.Prelude.{
  Bool, if◌then◌else◌, subst, ◌≡◌, ◌≢◌, ◌⊎◌, inl, inr, refl, true, false, Option, none, some, [],
  ◌∷◌, ◌++◌, String, str_eq, eq_iff, arith, Bool-cases, Option-cases, sym,
}
use purser.Config.Result.{Result, ok, err}
use purser.Planner.Float.{Float64}
use purser.Fleet.Token.{TokenCodec}
use purser.Fleet.Manager.{
  NodeRow, Hardware, CertRequest, Call, Calls, create_node, update_node, issue_cert, append_audit,
  serial, Outside, Lookup, found, not_found, lookup_failed, IssuedCert, JoinResult, FleetError,
  node_of, id_of, upsert, with_cert, with_ca, with_row, agent_request, enrol, node_state_enrolled,
}

module _ (Json : Type 0) (F : Float64) (out : Outside Json F) (C : TokenCodec) where
  -- The call that writes the node: it creates a node that the registry does not know, and updates one
  -- that it knows.
  abbrev pub IsWrite : Calls Json F → NodeRow Json F → Call Json F → Type 0
  IsWrite past node write =
      ((out.get_node past node.id ≡ not_found)
        × (write ≡ create_node node)
        × (out.creates past node ≡ true))
      ⊎ ((old : NodeRow Json F) × (out.get_node past node.id ≡ found old)
          × (write ≡ update_node node)
          × (out.updates past node ≡ true))

  -- A request for the certificate of an agent, for the node's ID and its hostname, if there is one.
  pub record IsRequest (node : NodeRow Json F) (request : CertRequest) : Type 0 where
    pub for_node : request.common_name ≡ node.id
    pub for_agent : request.role ≡ "agent"
    pub host_names :
        ((node.hostname ≡ "") × (request.dns_names ≡ []))
        ⊎ ((node.hostname ≢ "") × (request.dns_names ≡ node.hostname ∷ []))

  -- After the node was written, its certificate is refused, or that of the CA is.
  abbrev pub NoCert : Calls Json F → NodeRow Json F → Type 0
  NoCert past node =
      (request : CertRequest) × IsRequest node request
      × ((out.issues past request ≡ none)
          ⊎ ((issued : IssuedCert) × (out.issues past request ≡ some issued)
              × (out.ca_certificate (past ++ issue_cert request ∷ []) ≡ none)))

  -- Why a node with a good token is not enrolled: GetNode fails, the row is not written, or there is
  -- no certificate.
  abbrev pub IsBlocked : Calls Json F → NodeRow Json F → Type 0
  IsBlocked past node =
      (out.get_node past node.id ≡ lookup_failed)
      ⊎ (((out.get_node past node.id ≡ not_found) × (out.creates past node ≡ false))
          ⊎ (((old : NodeRow Json F) × (out.get_node past node.id ≡ found old)
                × (out.updates past node ≡ false))
              ⊎ ((write : Call Json F) × IsWrite past node write
                  × NoCert (past ++ write ∷ []) node)))

  -- The node was written as ENROLLED, a certificate for its ID and the role of an agent
  -- was issued, and both were recorded, in this order.
  pub record IsEnrolled (past : Calls Json F) (node : NodeRow Json F) (r : JoinResult)
      (calls : Calls Json F) : Type 0 where
    pub enrolled : node.state ≡ "NODE_STATE_ENROLLED"
    pub write : Call Json F
    pub written : IsWrite past node write
    pub request : CertRequest
    pub is_request : IsRequest node request
    pub issued : IssuedCert
    pub issued_ok : out.issues (past ++ write ∷ []) request ≡ some issued
    pub ca : String
    pub result : r ≡ record { node_id = node.id; client_cert = issued.cert_pem; ca_cert = ca }
    pub all_calls :
        calls
        ≡ write
          ∷ issue_cert request
          ∷ append_audit "fleet.node.enrolled" node.id (serial issued.serial)
          ∷ []

  -- The node keeps the ID that its hardware report names, and otherwise has the generated one.
  abbrev pub IsIdOf : Option (Hardware Json F) → String → String → Type 0
  IsIdOf none generated id = id ≡ generated
  IsIdOf (some hw) generated id =
      ((hw.node_id ≡ "") × (id ≡ generated)) ⊎ ((hw.node_id ≢ "") × (id ≡ hw.node_id))

  not_empty : (s : String) → str_eq s "" ≡ false → s ≢ ""
  not_empty s h e = ground (arith, (eq_iff s "").1 e, h)

  pub node_of-IsIdOf :
      (hw : Option (Hardware Json F)) (generated agent inference : String)
      → IsIdOf hw generated
          (node_of Json F out hw (id_of Json F out hw generated) agent inference).id
  unfolding node_of id_of
  node_of-IsIdOf none generated agent inference = refl
  node_of-IsIdOf (some hw) generated agent inference = elim (Bool-cases (str_eq hw.node_id "")) [
    | inl unnamed ↦ rw unnamed (inl ((eq_iff hw.node_id "").0 unnamed, refl))
    | inr named ↦ rw named (inr (not_empty hw.node_id named, refl))
  ]

  agent_request-IsRequest : (node : NodeRow Json F) → IsRequest node (agent_request Json F out node)
  agent_request-IsRequest node = record { for_node = refl; for_agent = refl; host_names = names }
    where
      names :
          ((node.hostname ≡ "") × ((agent_request Json F out node).dns_names ≡ []))
          ⊎ ((node.hostname ≢ "")
              × ((agent_request Json F out node).dns_names ≡ node.hostname ∷ []))
      names = elim (Bool-cases (str_eq node.hostname "")) [
        | inl unnamed ↦ rw unnamed (inl ((eq_iff node.hostname "").0 unnamed, refl))
        | inr named ↦ rw named (inr (not_empty node.hostname named, refl))
      ]

  pub node_of-enrolled :
      (hw : Option (Hardware Json F)) (id agent inference : String)
      → (node_of Json F out hw id agent inference).state ≡ node_state_enrolled
  unfolding node_of
  node_of-enrolled none id agent inference = refl
  node_of-enrolled (some hw) id agent inference = refl

  -- How Join with a good token ends.
  abbrev pub Joins :
      Calls Json F → NodeRow Json F → Result FleetError JoinResult × Calls Json F → Type 0
  Joins past node run =
      ((f : FleetError) × (run.0 ≡ err f) × IsBlocked past node)
      ⊎ ((r : JoinResult) × (run.0 ≡ ok r) × IsEnrolled past node r run.1)

  with_row-Joins :
      (past : Calls Json F) (node : NodeRow Json F) (look : Lookup (NodeRow Json F))
      (write : Call Json F)
      → node.state ≡ node_state_enrolled
      → IsWrite past node write
      → Joins past node (with_row Json F out past node look (ok write))
  with_row-Joins past node look write state written =
      let before = past ++ write ∷ [] in
      let req = agent_request Json F out node in
      let is_req = agent_request-IsRequest node in
      elim (Option-cases (out.issues before req)) [
        | inl refused ↦
            subst
              (λ o. Joins past node (
                (with_cert Json F out before node o).0,
                write ∷ (with_cert Json F out before node o).1,
              ))
              (sym refused)
              (inl (_, refl, inr (inr (inr (write, written, (req, is_req, inl refused))))))
        | inr (issued, issued_ok) ↦
            subst
              (λ o. Joins past node (
                (with_cert Json F out before node o).0,
                write ∷ (with_cert Json F out before node o).1,
              ))
              (sym issued_ok)
              (elim (Option-cases (out.ca_certificate (before ++ issue_cert req ∷ []))) [
                | inl no_ca ↦
                    subst
                      (λ o. Joins past node (
                        (with_ca Json F out node issued o).0,
                        write ∷ issue_cert req ∷ (with_ca Json F out node issued o).1,
                      ))
                      (sym no_ca)
                      (inl (
                        _,
                        refl,
                        inr (
                            inr (
                              inr (write, written, (req, is_req, inr (issued, issued_ok, no_ca))))),
                      ))
                | inr (ca, with_ca_ok) ↦
                    subst
                      (λ o. Joins past node (
                        (with_ca Json F out node issued o).0,
                        write ∷ issue_cert req ∷ (with_ca Json F out node issued o).1,
                      ))
                      (sym with_ca_ok)
                      (inr (
                        record { node_id = node.id; client_cert = issued.cert_pem; ca_cert = ca },
                        refl,
                        record {
                          write = write;
                          written = written;
                          enrolled = state;
                          request = req;
                          is_request = is_req;
                          issued = issued;
                          issued_ok = issued_ok;
                          ca = ca;
                          result = refl;
                          all_calls = refl;
                        },
                      ))
              ])
      ]

  written_eq :
      (b : Bool) (write : Call Json F) (e : FleetError)
      → b ≡ true
      → (if b then ok write else err e) ≡ ok write
  written_eq b write e h = rw h refl

  refused_eq :
      (b : Bool) (write : Call Json F) (e : FleetError)
      → b ≡ false
      → (if b then ok write else err e) ≡ err e
  refused_eq b write e h = rw h refl

  pub enrol-Joins :
      (past : Calls Json F) (node : NodeRow Json F)
      → node.state ≡ node_state_enrolled
      → Joins past node (enrol Json F out past node)
  enrol-Joins past node state = by_look (out.get_node past node.id) refl
    where
      by_look :
          (look : Lookup (NodeRow Json F))
          → out.get_node past node.id ≡ look
          → Joins past node (with_row Json F out past node look (upsert Json F out past node look))
      by_look lookup_failed e = inl (_, refl, inl e)
      by_look not_found e =
          let run_of =
            λ (w : Result FleetError (Call Json F)). with_row Json F out past node not_found w in
          elim (Bool-cases (out.creates past node)) [
            | inr refused ↦
                subst (λ w. Joins past node (run_of w))
                  (sym (refused_eq (out.creates past node) (create_node node) _ refused))
                  (inl (_, refl, inr (inl (e, refused))))
            | inl written ↦
                subst (λ w. Joins past node (run_of w))
                  (sym (written_eq (out.creates past node) (create_node node) _ written))
                  (with_row-Joins past node not_found (create_node node) state
                    (inl (e, refl, written)))
          ]
      by_look (found old) e =
          let run_of =
            λ (w : Result FleetError (Call Json F)). with_row Json F out past node (found old) w in
          elim (Bool-cases (out.updates past node)) [
            | inr refused ↦
                subst (λ w. Joins past node (run_of w))
                  (sym (refused_eq (out.updates past node) (update_node node) _ refused))
                  (inl (_, refl, inr (inr (inl (old, e, refused)))))
            | inl written ↦
                subst (λ w. Joins past node (run_of w))
                  (sym (written_eq (out.updates past node) (update_node node) _ written))
                  (with_row-Joins past node (found old) (update_node node) state
                    (inr (old, e, refl, written)))
          ]
