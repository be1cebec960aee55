-- ===== src/Lib.antt =====
-- Purser: the planner, deployments and their reconciliation, the fleet, the audit chain, permissions,
-- configuration and replicated commands of the control plane, and the licence keys.
--
-- Purser places the layers of a model on the nodes of a fleet and runs them. The control plane plans
-- deployments (go/planner/plan), records what administrators do in a hash chain
-- (go/controlplane/audit), decides who may do what (go/controlplane/permissions), applies a
-- declarative configuration (go/controlplane/config) and replicates changes of its registry
-- (go/controlplane/raft). The orchestrator (go/controlplane/orchestrator) starts and stops the engines
-- of a plan on the agents; the reconciler (go/controlplane/reconciler) compares the deployments with
-- the nodes and calls the orchestrator and the planner; the fleet manager (go/controlplane/fleet)
-- admits nodes. Signed keys unlock features (enterprise/license). These parts are modelled one by one,
-- and share the rows of the registry (Registry/Rows).
--
-- - Planner/Types, Memory, Stage: the records of types.go, the memory estimates of plan.go, and the
--   stage times of partition.go. Planner/Links compares the two link lookups.
-- - Planner/Partition: dpPartition and reconstructCuts, loop by loop (Table, Cuts). Rounds, Columns,
--   Optimal, Walk, Split, Best, Fits and Growth hold the lemmas, Promise the theorems.
-- - Planner/Choose, Ranked: applyNodeFilter and selectQuantization of plan.go. Planner/Subsets:
--   candidateSubsets of partition.go. Planner/Draft: placeDraft of draft.go.
-- - Planner/Ordering: the hop costs, chooseHostIndex, nearestNeighborOrder, twoOptImprove and
--   sameOrder of ordering.go, and nodesExcluding of failover.go. Swaps, Improve, Settled and Nearest
--   hold the proofs. Planner/Failover, Replica: computeFailoverPlans of failover.go and PlanReplicaSet
--   of replica.go, over any function in the place of planInternal and Plan. Covered and Disjoint hold
--   the proofs.
-- - Orchestrator/Types, Calls, Manage: Apply, Teardown and RestartEngine of orchestrator.go, as the calls
--   that they make. Split and Deployed write out what Apply is to call; Apply, Outcome and Undone hold the
--   proofs. Orchestrator/Routes: the passes of
--   route_reconciler.go on a Gateway that is a parameter. View says what is relied on there;
--   Converged holds the proof.
-- - Reconciler/Types, Observe, Act, Pass: observe, dispatch, handleNodeDown and Reconcile of
--   reconciler.go. Steps, Streak, Acted, Justify, Guard and History hold the proofs.
-- - Fleet/Token, Manager: the join tokens, Join, Approve, Drain, Decommission and RenewCert of
--   fleet.go. Once, Enrolled and Joined hold the proofs.
-- - License/Text, Key, Features, Distance: license.go and features.go. Granted, Suggest and Edits hold
--   the proofs.
-- - Audit/Encode, Entry, Log: Entry, CanonicalBytes, ComputeHash, Verify, MemStore and Log. Mem,
--   Append, Chain, Canonical, Hex and Tamper hold the proofs.
-- - Permissions/Engine: Has, HasAll, HasAny, the roles and Merge of engine.go, over byte strings
--   (Text). Grants, Merge and Merged hold the proofs.
-- - Config/Types, Validate, Diff: the schema, Validate and Diff. Keys, Valid, Accepts and Converge
--   hold the proofs.
-- - Raft/Rows, Fsm: the registry as an interface, and PurserFSM.Apply, which replays the Raft log on it
--   (go/controlplane/raft/fsm.go). Apply holds the proofs.
-- - Check: runs on concrete inputs, with a fixed-point number type in the place of float64 and a sum
--   in the place of SHA-256.
--
-- Parameters. A float64 is a type with the operations that the code calls (Planner/Float); the laws
-- that a theorem uses are hypotheses that IEEE arithmetic has, and the fixed-point numbers of
-- Check/Fixed meet them. SHA-256 is a function on byte strings; where it matters its digests have 32
-- bytes. The clock, the context and the answers of a Lister are arguments, and so are the decoding of
-- JSON and the registry of the state machine.
-- The orchestrator and the fleet manager are given what the registry, the agents and the CA answer as
-- functions of the calls made before (Outside), and return the calls that they make; the reconciler is
-- given the registry, the actuator and the planner as functions on a state (World). Signatures, base64
-- and unicode.ToLower are parameters too. Times are numbers, 0 for the zero time.
--
-- Loops are recursion on the list, or on the number of rounds that the loop bound leaves: the loops
-- of dpPartition run L + 1, L - i and M rounds, as the code's do. A varint has at most ten bytes. A
-- uint64 wraps at 2 ^ 64.
--
-- Not modelled: Held-Karp and the sorting of orderNodes, the loop of multiNodePlan, Status, the
-- webhook's retries and the metrics of the reconciler, the timer of the route reconciler and the clients of the
-- gateway and the agents, Enroll, the HTTP server, the SQL registry, PKI, LDAP and the importers, which
-- mostly need a network, a database or a cryptographic library; texts of errors, which are values with
-- what the text prints; log lines. A map whose order of iteration the code leaves open is walked in the
-- order of its keys' insertion; in Orchestrator/Routes the order is a parameter.
pub mod Prelude
pub mod Planner
pub mod Audit
pub mod Permissions
pub mod Config
pub mod Raft
pub mod Check
pub mod Fleet
pub mod License
pub mod Orchestrator
pub mod Reconciler
pub mod Registry
