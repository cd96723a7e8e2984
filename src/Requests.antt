-- ===== src/Requests.antt =====
-- include/tracking.h and include/handle-data.h: the tool gives the application handles of its own for
-- MPI requests, and keeps the data of each request behind them (integer-typed handles).
pub mod State
pub mod Factory
pub mod Distinct
pub mod Valid
pub mod Taken
pub mod View
pub mod Create
pub mod Complete
mod Post
mod Session
pub mod Held
pub mod Tests
