-- ===== src/Mpi.antt =====
-- include/mpi-critical.h: what the wrappers of MPI functions do to send clocks along with messages.
pub mod Rank
pub mod Blocking
pub mod Pending
pub mod Persistent
pub mod Probe
mod Carries
mod Completes
mod Exchanged
mod Probed
mod Restarts
mod Traffic
mod Tests
