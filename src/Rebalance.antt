-- ===== src/Rebalance.antt =====
-- src/rebalance/rebalance.c: the rebalancer. Each child models one part of the file: the sorted
-- lists of streams, partitions and NUMAs, the three levels, power saving, and a round of the thread.
pub mod Sorting
pub mod Ready
pub mod InPartition
pub mod Inside
pub mod Across
pub mod Placement
pub mod Followed
pub mod InNuma
pub mod BetweenNumas
pub mod PowerSaving
pub mod Requests
pub mod Round
