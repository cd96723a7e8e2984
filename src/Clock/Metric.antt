-- ===== src/Clock/Metric.antt =====
-- include/criticalPath.h: what the clocks ask of the class that a clock is made of (`maxUpdate`,
-- `add`, `Reset`, `getTime`); its two implementations are the children. A `double` of seconds is
-- an integer number of nanoseconds, the unit of `clock_gettime`: rounding is not modelled.
pub mod Time
pub mod Dependent
pub use Interface.*
mod Interface
