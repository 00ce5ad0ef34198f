-- ===== src/Tools.antt =====
-- The command line tools (execs/tools).
pub mod Deduplicate
pub mod Ids
pub mod Main
mod Examples
