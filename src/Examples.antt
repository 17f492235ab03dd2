-- ===== src/Examples.antt =====
-- Runs of the modelled code at concrete inputs, over a database and a codec that exist.
pub mod Environment
pub mod Nodes
pub mod Votes
pub mod Logs
pub mod Money
pub mod Stores
pub mod Mains
pub mod Clusters
pub mod Workloads
pub mod Sessions
pub mod Benchmarks
pub mod Calls
pub mod Lives
pub mod Snapshots
