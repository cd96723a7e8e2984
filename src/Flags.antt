-- ===== src/Flags.antt =====
-- src/parse_flags.cpp, include/parse_flags.h and parse_flags.inc: the flags that a user sets in an
-- environment variable.
pub mod Values
pub mod Parser
pub mod Setup
mod Grammar
mod Reads
mod Typed
mod Ends
mod Every
mod Fields
mod Startup
mod Print
mod Whole
mod Tests
