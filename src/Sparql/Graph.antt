-- ===== src/Sparql/Graph.antt =====
-- The operand dependency graph, a class of the package tensor query (`dice::query`): what the
-- visitor calls of it, and the documented behaviour that the proofs rely on.
use tentris.Base.{ℕ, ◌≡◌, ◌↔◌, ◌⊎◌, Option, List}

-- A label is the id of a shared variable; `none` is the unlabelled edge of a cartesian join.
pub record GraphOps (G : Type 0) : Type 0 where
  pub empty : G
  pub add_operand : G → List ℕ → ℕ × G
  pub operand_var_ids : G → ℕ → List ℕ
  pub add_dependency : G → ℕ → ℕ → Option ℕ → G
  pub add_connection : G → ℕ → ℕ → G

-- `HasEdge g a b l` holds if the graph has the dependency `l` from `a` to `b`.
pub record GraphLaws {G : Type 0} (ops : GraphOps G) : Type 1 where
  pub HasEdge : G → ℕ → ℕ → Option ℕ → Type 0
  pub add_dependency-edges :
      (g : G) (a b : ℕ) (l : Option ℕ) (c d : ℕ) (m : Option ℕ)
      → HasEdge (ops.add_dependency g a b l) c d m
        ↔ (HasEdge g c d m ⊎ ((c ≡ a) × (d ≡ b) × (m ≡ l)))
  pub add_dependency-vars :
      (g : G) (a b : ℕ) (l : Option ℕ) (c : ℕ)
      → ops.operand_var_ids (ops.add_dependency g a b l) c ≡ ops.operand_var_ids g c
  pub add_operand-edges :
      (g : G) (vs : List ℕ) (c d : ℕ) (m : Option ℕ)
      → HasEdge (ops.add_operand g vs).1 c d m ↔ HasEdge g c d m
