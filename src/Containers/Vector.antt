-- ===== src/Containers/Vector.antt =====
-- include/containers/Vector.h: a growing array over raw memory, with the loops that move its
-- elements. Buffer has the memory, Methods the class, and the other children what they guarantee.
pub mod Buffer
pub mod Methods
pub mod Loops
pub mod Contents
pub mod Splice
pub mod Room
pub mod Refine
pub mod Single
pub mod Whole
pub mod Resize
pub mod Contract
pub mod Tests
