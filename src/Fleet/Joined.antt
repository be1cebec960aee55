-- ===== src/Fleet/Joined.antt =====
-- What Join, Decommission and RenewCert of go/controlplane/fleet/fleet.go leave behind.
use purser.Prelude.{
  ℕ, ◌≡◌, ◌⊎◌, ◌↔◌, inl, inr, refl, true, false, ◌&&◌, Option, some, List, [], ◌∷◌, ◌++◌, String,
  str_eq, eq_iff, arith, Bool-cases, ap, sym, ◌∙◌,
}
use purser.Config.Result.{Result, ok, err}
use purser.Permissions.Text.{Text}
use purser.Planner.Float.{Float64}
use purser.Fleet.Token.{TokenCodec, TokenError, Used, validate_token}
use purser.Fleet.Once.{validate_token-cases}
use purser.Fleet.Manager.{
  NodeRow, Hardware, Calls, update_node, revoke_cert, append_audit, Details, no_details, Outside,
  found, Cert, bad_token, node_of, id_of, after_token, join, node_state_enrolled,
  node_state_decommissioned, state_issued, decommission, revoke_all,
}
use purser.Fleet.Enrolled.{IsIdOf, Joins, node_of-IsIdOf, node_of-enrolled, enrol-Joins}

module _ (Json : Type 0) (F : Float64) (out : Outside Json F) (C : TokenCodec) where
  -- the two ways a token is answered
  by_token :
      (now : ℕ) (used : Used) (past : Calls Json F) (token : Text) (node : NodeRow Json F)
      (v : Result TokenError (Unit {0}) × Used)
      → node.state ≡ node_state_enrolled
      → validate_token C now used token ≡ v
      → let run = after_token Json F out C past node v in
        ((e : TokenError) × (v.0 ≡ err e) × (run ≡ (err (bad_token e), [], used)))
        ⊎ ((v.0 ≡ ok tt) × Joins Json F out C past node (run.0, run.1))
  by_token now used past token node (err e, u) state h =
      elim (validate_token-cases C now used token) [
        | inl refused ↦
            inl (e, refl, ap (λ w. (err (bad_token e), [], w)) (ap (λ v. v.1) (sym h) ∙ refused.0))
        | inr (g, good) ↦ absurd (ground (arith, ap (λ v. v.0) (sym h ∙ good)))
      ]
  by_token now used past token node (ok u, used') state h =
      inr (refl, enrol-Joins Json F out C past node state)

  -- The node has the ID of the hardware report, or else the generated one. With a token that
  -- validateToken refuses, Join returns its error, calls nothing and leaves the used nonces as they
  -- are. With a good token it returns an error when GetNode fails, the row is not written or a
  -- certificate is refused; or it has written the node as ENROLLED, created if GetNode did not know it
  -- and updated if it did, has issued a certificate for its ID with the role "agent" and the hostname,
  -- if there is one, and has recorded this, and these are its only calls.
  pub join-IsEnrolled :
      (now : ℕ) (used : Used) (past : Calls Json F) (token : Text) (hw : Option (Hardware Json F))
      (generated agent inference : String)
      → let run = join Json F out C now used past token hw generated agent inference in
        let node = node_of Json F out hw (id_of Json F out hw generated) agent inference in
        let v = validate_token C now used token in
        IsIdOf Json F out C hw generated node.id
        × (((e : TokenError) × (v.0 ≡ err e) × (run ≡ (err (bad_token e), [], used)))
            ⊎ ((v.0 ≡ ok tt) × Joins Json F out C past node (run.0, run.1)))
  unfolding join
  join-IsEnrolled now used past token hw generated agent inference =
      let id = id_of Json F out hw generated in
      (
        node_of-IsIdOf Json F out C hw generated agent inference,
        by_token now used past token (node_of Json F out hw id agent inference)
            (validate_token C now used token) (node_of-enrolled Json F out C hw id agent inference)
            refl,
      )

  -- the certificate of the list is an issued one of the node
  abbrev pub IsOwned : String → Cert → Type 0
  IsOwned id c = (c.subject ≡ id) × (c.state ≡ state_issued)

  -- Some certificate of the list that is an issued one of the node has the serial.
  abbrev pub HasOwned : String → String → List Cert → Type 0
  HasOwned id s [] = ⊥
  HasOwned id s (c ∷ certs) = (IsOwned id c × (c.serial ≡ s)) ⊎ HasOwned id s certs

  abbrev pub IsRevoked : String → Calls Json F → Type 0
  IsRevoked s [] = ⊥
  IsRevoked s (c ∷ calls) = (c ≡ revoke_cert s) ⊎ IsRevoked s calls

  revoke_all_iff :
      (id s : String) (certs : List Cert)
      → IsRevoked s (revoke_all Json F out id certs) ↔ HasOwned id s certs
  unfolding revoke_all
  revoke_all_iff id s [] = ((λ h. h), (λ h. h))
  revoke_all_iff id s (c ∷ certs) =
      let rest = revoke_all_iff id s certs in
      elim (Bool-cases (str_eq c.subject id && str_eq c.state state_issued)) [
        | inl owned ↦
            let is_owned : IsOwned id c = (
              (eq_iff c.subject id).0 (ground (arith, owned)),
              (eq_iff c.state state_issued).0 (ground (arith, owned)),
            ) in
            rw (revoke_all, owned) (forward_owned is_owned rest.0, backward_owned rest.1)
        | inr other ↦ rw (revoke_all, other) ((λ h. inr (rest.0 h)), backward_other other rest.1)
      ]
    where
      forward_owned :
          IsOwned id c
          → (IsRevoked s (revoke_all Json F out id certs) → HasOwned id s certs)
          → IsRevoked s (revoke_cert c.serial ∷ revoke_all Json F out id certs)
          → (IsOwned id c × (c.serial ≡ s)) ⊎ HasOwned id s certs
      forward_owned owned rest (inl e) = inl (owned, ground (arith, e))
      forward_owned owned rest (inr h) = inr (rest h)

      backward_owned :
          (HasOwned id s certs → IsRevoked s (revoke_all Json F out id certs))
          → (IsOwned id c × (c.serial ≡ s)) ⊎ HasOwned id s certs
          → IsRevoked s (revoke_cert c.serial ∷ revoke_all Json F out id certs)
      backward_owned rest (inl (owned, e)) = inl (ap revoke_cert e)
      backward_owned rest (inr h) = inr (rest h)

      backward_other :
          (str_eq c.subject id && str_eq c.state state_issued) ≡ false
          → (HasOwned id s certs → IsRevoked s (revoke_all Json F out id certs))
          → (IsOwned id c × (c.serial ≡ s)) ⊎ HasOwned id s certs
          → IsRevoked s (revoke_all Json F out id certs)
      backward_other other rest (inl (owned, e)) =
          let subject = (eq_iff c.subject id).1 owned.0 in
          let state = (eq_iff c.state state_issued).1 owned.1 in
          absurd (ground (arith, other, subject, state))
      backward_other other rest (inr h) = rest h

  without_audit :
      (s a t : String) (d : Details) (calls : Calls Json F)
      → IsRevoked s (calls ++ append_audit a t d ∷ []) ↔ IsRevoked s calls
  without_audit s a t d [] = (only_audit, (λ h. absurd h))
    where
      only_audit : IsRevoked s (append_audit a t d ∷ []) → ⊥
      only_audit (inl e) = absurd (ground (arith, e))
      only_audit (inr h) = h
  without_audit s a t d (c ∷ calls) =
      (forward (without_audit s a t d calls).0, backward (without_audit s a t d calls).1)
    where
      forward :
          (IsRevoked s (calls ++ append_audit a t d ∷ []) → IsRevoked s calls)
          → IsRevoked s (c ∷ calls ++ append_audit a t d ∷ [])
          → IsRevoked s (c ∷ calls)
      forward rest (inl e) = inl e
      forward rest (inr h) = inr (rest h)

      backward :
          (IsRevoked s calls → IsRevoked s (calls ++ append_audit a t d ∷ []))
          → IsRevoked s (c ∷ calls)
          → IsRevoked s (c ∷ calls ++ append_audit a t d ∷ [])
      backward rest (inl e) = inl e
      backward rest (inr h) = inr (rest h)

  -- Decommission of a known node whose update succeeds, while the certificates can be listed, first
  -- writes the node as DECOMMISSIONED, and revokes the serials of the node's issued certificates and no
  -- others.
  pub decommission-IsRevoked :
      (past : Calls Json F) (id s : String) (n : NodeRow Json F) (certs : List Cert)
      → let row : NodeRow Json F = record n { state = node_state_decommissioned } in
        out.get_node past id ≡ found n
        → out.updates past row ≡ true
        → out.list_certs (past ++ update_node row ∷ []) ≡ some certs
        → let run = decommission Json F out past id in
          (run.0 ≡ ok tt)
          × ((later : Calls Json F) × (run.1 ≡ update_node row ∷ later)
              × (IsRevoked s later ↔ HasOwned id s certs))
  unfolding decommission
  decommission-IsRevoked past id s n certs known updated listed =
      let audited =
        without_audit s "fleet.node.decommissioned" id no_details
          (revoke_all Json F out id certs) in
      let owned = revoke_all_iff id s certs in
      rw (decommission, known, updated, listed)
        (
          refl,
          (
            revoke_all Json F out id certs
                ++ append_audit "fleet.node.decommissioned" id no_details ∷ [],
            refl,
            ((λ h. owned.0 (audited.0 h)), (λ h. audited.1 (owned.1 h))),
          ),
        )
