-- ===== src/Sparql.antt =====
-- libs/sparql2tensor: from the parse tree of a SPARQL query to the operands of a tensor expression.
pub mod Syntax
pub mod Terms
pub mod Graph
pub mod State
pub mod Triples
pub mod Pattern
pub mod Select
pub mod Prologue
pub mod Ids
pub mod Invariant
pub mod Parsed
pub mod Reference
pub mod Operands
pub mod Edges
pub mod Projection
pub mod Examples
