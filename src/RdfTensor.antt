-- ===== src/RdfTensor.antt =====
-- libs/rdf-tensor: NodeWrapper, the key part of the hypertrie, and the hashes of RDFNodeHashes.
-- A node of the package rdf4cpp is a parameter, with `backend_handle().raw()`.
pub mod Identity
pub mod Examples
use tentris.Base.{ℕ, Bool, not, ◌==◌, compare, Ordering, Option, some}

pub record NodeWrapper (N : Type 0) : Type 0 where
  pub node : N

-- `operator std::optional<Node>`.
unfoldable pub to_optional : {N : Type 0} → NodeWrapper N → Option N
to_optional x = some x.node

module _ {N : Type 0} (raw : N → ℕ) where
  -- `operator==`, `operator!=` and `operator<=>`, on the raw handles alone.
  unfoldable pub equals : NodeWrapper N → NodeWrapper N → Bool
  equals x other = raw x.node == raw other.node

  unfoldable pub differs : NodeWrapper N → NodeWrapper N → Bool
  differs x other = not (raw x.node == raw other.node)

  unfoldable pub three_way : NodeWrapper N → NodeWrapper N → Ordering
  three_way x other = compare (raw x.node) (raw other.node)

  -- `std::hash`, and the overload of dice-hash with the hash function of its policy.
  unfoldable pub std_hash : NodeWrapper N → ℕ
  std_hash x = raw x.node

  unfoldable pub dice_hash : (ℕ → ℕ) → NodeWrapper N → ℕ
  dice_hash hash_fundamental x = hash_fundamental (raw x.node)

-- The overloads for the node types of rdf4cpp: variables, literals, IRIs and blank nodes.
unfoldable pub node_hash : {N : Type 0} → (N → ℕ) → (ℕ → ℕ) → N → ℕ
node_hash raw hash_fundamental x = hash_fundamental (raw x)
