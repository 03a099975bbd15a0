-- ===== src/Examples.antt =====
-- A machine small enough to compute with, and runs of the models on it: four cores in two NUMAs, of
-- which three run streams of two partitions.
pub mod Machine
pub mod Rings
pub mod Streams
pub mod Statistics
pub mod Rebalancing
pub mod Levels
pub mod Schedulers
pub mod Following
pub mod Mappings
pub mod Nodes
pub mod Starting
pub mod Ending
pub mod Submitting
