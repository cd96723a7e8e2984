-- ===== src/Openmp.antt =====
-- The callbacks of the OpenMP runtime, src/ompt-critical.cpp.
pub mod Pool
pub mod Objects
pub mod Threads
pub mod Regions
pub mod Dependences
pub mod Create
pub mod Schedule
pub mod Locks
pub mod Returns
mod Calls
mod Order
