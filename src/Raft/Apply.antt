-- ===== src/Raft/Apply.antt =====
-- What Apply, go/controlplane/raft/fsm.go, does to a registry that keeps its API keys.
use purser.Prelude.{◌≡◌, refl, false, none, List, [], ◌∷◌, ◌++◌, String, arith, inl, inr, subst}
use purser.Config.Result.{Result, ok, Result-cases}
use purser.Raft.Rows.{Types, ApiKey, RevokeApiKeyArgs, Decoder, Registry}
use purser.Raft.Fsm.{command_type, Command, revoke, dispatch, apply, replay}

-- What the table of API keys keeps: a row that was read has the ID it was asked for, and after an
-- update without error the row is there with the state of the update.
pub record KeepsKeys (R : Types) (reg : Registry R) : Type 0 where
  pub get_id :
      (id : String) (s : reg.State) (k : ApiKey R) → reg.get_api_key id s ≡ ok k → k.id ≡ id
  pub get_update :
      (k : ApiKey R) (s : reg.State)
      → (reg.update_api_key k s).0 ≡ none
      → (k' : ApiKey R) × (reg.get_api_key k.id (reg.update_api_key k s).1 ≡ ok k')
        × (k'.enabled ≡ k.enabled)

module _ (R : Types) (decode : Decoder R) (reg : Registry R) where
  -- Applying a log and then another is applying the one log followed by the other.
  pub replay-append :
      (first second : List (Result R.E (Command R))) (s : reg.State)
      → replay R decode reg (first ++ second) s
        ≡ replay R decode reg second (replay R decode reg first s)
  unfolding replay
  replay-append [] second s = refl
  replay-append (l ∷ first) second s = replay-append first second (apply R decode reg l s).1

  revoke-disabled :
      (keeps : KeepsKeys R reg) (args : RevokeApiKeyArgs R) (s : reg.State)
      → (revoke R decode reg args s).0 ≡ none
      → (k : ApiKey R) × (reg.get_api_key args.id (revoke R decode reg args s).1 ≡ ok k)
        × (k.enabled ≡ false)
  unfolding revoke
  revoke-disabled keeps args s h = elim (Result-cases (reg.get_api_key args.id s)) [
    | inl (k, found) ↦ rw found (go k found (rw found at h))
    | inr (e, missing) ↦ absurd (ground (arith, rw missing at h))
  ]
    where
      go :
          (k : ApiKey R)
          → reg.get_api_key args.id s ≡ ok k
          → (reg.update_api_key (record k { enabled = false }) s).0 ≡ none
          → (k' : ApiKey R) × (reg.get_api_key args.id
                (reg.update_api_key (record k { enabled = false }) s).1
              ≡ ok k')
            × (k'.enabled ≡ false)
      go k found done =
          let (k', there, off) = keeps.get_update (record k { enabled = false }) s done in
          (
            k',
            subst
                (λ id.
                  reg.get_api_key id (reg.update_api_key (record k { enabled = false }) s).1
                  ≡ ok k')
                (keeps.get_id args.id s k found) there,
            off,
          )

  -- Over a registry that keeps its API keys: when a command to revoke a key, with a readable payload,
  -- is applied without an error, the key it names is in the registry and is disabled.
  pub apply-revoked :
      (keeps : KeepsKeys R reg) (cmd : Command R) (args : RevokeApiKeyArgs R) (s : reg.State)
      → cmd.code ≡ 5
      → decode.revoke_api_key_args cmd.data_json ≡ ok args
      → (apply R decode reg (ok cmd) s).0 ≡ none
      → (k : ApiKey R) × (reg.get_api_key args.id (apply R decode reg (ok cmd) s).1 ≡ ok k)
        × (k.enabled ≡ false)
  unfolding apply command_type dispatch
  apply-revoked keeps cmd args s code readable h =
      rw (code, readable) (revoke-disabled keeps args s (rw (code, readable) at h))
