-- ===== src/TripleStore.antt =====
-- The triple store (libs/triple-store): RDF lists and the evaluation of parsed queries.
pub mod Hypertrie
pub mod Lists
pub mod Store
pub mod Instance
mod Examples
