-- ===== src/Sparql/Edges.antt =====
-- The dependencies that `add_tp` draws between a new operand and the operands of its group.
-- The child Loops has the two inner loops, Group the edges of a group, and Drawn `add_tp`.
pub mod Post
pub mod Loops
pub mod Group
pub mod Drawn
