-- ===== src/Containers.antt =====
-- The containers of include/containers.
pub mod Vector
pub mod HashMap
