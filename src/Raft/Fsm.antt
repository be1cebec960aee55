-- ===== src/Raft/Fsm.antt =====
-- PurserFSM.Apply, go/controlplane/raft/fsm.go. What json.Unmarshal makes of the log entry itself is
-- an argument; log lines are left out.
use purser.Prelude.{ℕ, false, Option, none, some, List, [], ◌∷◌, get_elem?}
use purser.Config.Result.{Result, ok, err}
use purser.Raft.Rows.{
  Types, UpdateDeploymentStateArgs, RecordUsageArgs, RevokeApiKeyArgs, Decoder, Registry,
}

pub data CommandType : Type 0 where
  create_model delete_model create_deployment update_deployment_state create_api_key revoke_api_key
        record_inference_event upsert_policy delete_policy request_approval update_approval_status
        create_node update_node delete_node upsert_link update_model create_plan delete_plan
        update_deployment delete_deployment update_api_key delete_api_key create_cert update_cert
        delete_cert append_audit record_usage :
      CommandType
  unknown : CommandType

-- the constants by their iota
abbrev pub command_types : List CommandType
command_types =
    create_model ∷ delete_model ∷ create_deployment ∷ update_deployment_state ∷ create_api_key
    ∷ revoke_api_key ∷ record_inference_event ∷ upsert_policy ∷ delete_policy ∷ request_approval
    ∷ update_approval_status ∷ create_node ∷ update_node ∷ delete_node ∷ upsert_link ∷ update_model
    ∷ create_plan ∷ delete_plan ∷ update_deployment ∷ delete_deployment ∷ update_api_key
    ∷ delete_api_key ∷ create_cert ∷ update_cert ∷ delete_cert ∷ append_audit ∷ record_usage ∷ []

abbrev pub or_unknown : Option CommandType → CommandType
or_unknown none = unknown
or_unknown (some t) = t

unfoldable pub command_type : ℕ → CommandType
command_type code = or_unknown (get_elem? command_types code)

module _ (R : Types) where
  open R use {E, Json}

  -- The code is a uint8 there, so a decoded one is below 256; nothing here depends on it.
  pub record Command : Type 0 where
    pub code : ℕ
    pub data_json : Json

  module _ (decode : Decoder R) (reg : Registry R) where
    open reg use {State}

    -- the error of the decoding, or the call on the value
    abbrev pub with_value :
        {A : Type 0} → Result E A → (A → State → Option E × State) → State → Option E × State
    with_value (err e) f s = (some e, s)
    with_value (ok a) f s = f a s

    unfoldable pub set_deployment_state : UpdateDeploymentStateArgs R → State → Option E × State
    set_deployment_state args s =
        with_value (reg.get_deployment args.id s)
          (λ d. reg.update_deployment (record d { state = args.state })) s

    unfoldable pub revoke : RevokeApiKeyArgs R → State → Option E × State
    revoke args s =
        with_value (reg.get_api_key args.id s)
          (λ k. reg.update_api_key (record k { enabled = false })) s

    abbrev pub use_tokens : RecordUsageArgs R → State → Option E × State
    use_tokens args =
        reg.record_usage args.api_key_id args.model_id args.input_tokens args.output_tokens

    unfoldable pub dispatch : CommandType → Json → State → Option E × State
    unfolding set_deployment_state revoke
    dispatch create_node j = with_value (decode.node j) reg.create_node
    dispatch update_node j = with_value (decode.node j) reg.update_node
    dispatch delete_node j = with_value (decode.text j) reg.delete_node
    dispatch upsert_link j = with_value (decode.link j) reg.upsert_link
    dispatch create_model j = with_value (decode.model j) reg.create_model
    dispatch update_model j = with_value (decode.model j) reg.update_model
    dispatch delete_model j = with_value (decode.text j) reg.delete_model
    dispatch create_plan j = with_value (decode.plan j) reg.create_plan
    dispatch delete_plan j = with_value (decode.text j) reg.delete_plan
    dispatch create_deployment j = with_value (decode.deployment j) reg.create_deployment
    dispatch update_deployment j = with_value (decode.deployment j) reg.update_deployment
    dispatch update_deployment_state j =
        with_value (decode.update_deployment_state_args j) set_deployment_state
    dispatch delete_deployment j = with_value (decode.text j) reg.delete_deployment
    dispatch create_api_key j = with_value (decode.api_key j) reg.create_api_key
    dispatch update_api_key j = with_value (decode.api_key j) reg.update_api_key
    dispatch revoke_api_key j = with_value (decode.revoke_api_key_args j) revoke
    dispatch delete_api_key j = with_value (decode.text j) reg.delete_api_key
    dispatch create_cert j = with_value (decode.cert j) reg.create_cert
    dispatch update_cert j = with_value (decode.cert j) reg.update_cert
    dispatch delete_cert j = with_value (decode.text j) reg.delete_cert
    dispatch append_audit j = with_value (decode.audit_entry j) reg.append_audit
    dispatch record_inference_event j = λ s. (none, s)
    dispatch upsert_policy j = λ s. (none, s)
    dispatch delete_policy j = λ s. (none, s)
    dispatch request_approval j = λ s. (none, s)
    dispatch update_approval_status j = λ s. (none, s)
    dispatch record_usage j = with_value (decode.record_usage_args j) use_tokens
    dispatch unknown j = λ s. (none, s)

    unfoldable pub apply : Result E Command → State → Option E × State
    unfolding command_type dispatch
    apply (err e) s = (some e, s)
    apply (ok cmd) s = dispatch (command_type cmd.code) cmd.data_json s

    -- the log, applied entry by entry
    unfoldable pub replay : List (Result E Command) → State → State
    replay [] s = s
    replay (l ∷ log) s = replay log (apply l s).1
