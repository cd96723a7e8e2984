-- ===== src/Openmp/Returns.antt =====
-- How the callbacks of src/ompt-critical.cpp are followed: the state that they need, rules for the
-- actions that they are made of, and each callback.
pub mod Valid
pub mod Ran
pub mod Primitives
pub mod Clocks
pub mod Good
pub mod Pools
pub mod Objects
pub mod Regions
pub mod Threads
pub mod Locks
pub mod Begin
pub mod Initialize
pub mod Dependences
pub mod Chain
pub mod Schedule
pub mod Measure
pub mod Complete
pub mod Sync
pub mod Control
