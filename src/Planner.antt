-- ===== src/Planner.antt =====
-- The planner, go/planner/plan.
pub mod Float
pub mod Types
pub mod Memory
pub mod Stage
pub mod Links
pub mod Partition
pub mod Choose
pub mod Ranked
pub mod Draft
pub mod Subsets
pub mod Ordering
pub mod Failover
pub mod Replica
