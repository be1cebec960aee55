-- ===== src/Planner/Partition.antt =====
-- Phase C, go/planner/plan/partition.go.
pub mod Table
pub mod Rounds
pub mod Columns
pub mod Optimal
pub mod Cuts
pub mod Split
pub mod Walk
pub mod Best
pub mod Fits
pub mod Growth
pub mod Promise
