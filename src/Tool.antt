-- ===== src/Tool.antt =====
-- The state of the tool in one process, and the actions of which its callbacks consist.
pub mod World
pub mod Action
pub mod Measure
pub mod Pop
