-- ===== src/NodeStore.antt =====
-- The persistent node store (libs/node-store): four bidirectional maps between RDF nodes and ids.
pub mod Backends
pub mod Storage
pub mod Impl
pub mod Refines
pub mod Kept
pub mod Valid
pub mod Promises
pub mod Calls
pub mod Start
pub mod Runs
pub mod Threads
pub mod Examples
