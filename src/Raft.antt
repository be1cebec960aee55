-- ===== src/Raft.antt =====
-- The replicated state machine of the control plane, go/controlplane/raft/fsm.go.
pub mod Rows
pub mod Fsm
pub mod Apply
