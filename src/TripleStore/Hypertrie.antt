-- ===== src/TripleStore/Hypertrie.antt =====
-- The package hypertrie as a parameter: a set of entries of one depth, each a list of nodes.
use tentris.Base.{
  NoDuplicates, ℕ, zero, suc, Bool, true, Option, none, some, List, [], ◌∷◌, length, In, ◌≡◌, ◌↔◌,
}
use tentris.Sparql.Syntax.{Node, Literal}
use native.Mathlib.Decide.{ℕ_discrete}

unfoldable pub Literal-discrete : Discrete Literal
unfolding ℕ_discrete
Literal-discrete = hlevel ℕ_discrete

unfoldable pub Node-discrete : Discrete Node
unfolding ℕ_discrete
Node-discrete = hlevel ℕ_discrete

-- `SliceKey`: a position is fixed or free.
abbrev pub SliceKey : Type 0
SliceKey = List (Option Node)

-- `depth_0` is a `BoolHypertrie` of depth 0, and `set_true` its `set({}, true)`. `get` is the access
-- by a key with no free position.
pub record HypertrieOps (H : Type 0) : Type 0 where
  pub slice : SliceKey → H → H
  pub get : List Node → H → Bool
  pub size : H → ℕ
  pub empty : H → Bool
  pub entries : H → List (List Node)
  pub depth_0 : H
  pub set_true : H → H

abbrev pub free : SliceKey → ℕ
free [] = zero
free (none ∷ key) = suc (free key)
free (some n ∷ key) = free key

-- The free positions of the key, filled.
abbrev pub fill : SliceKey → List Node → List Node
fill [] k = k
fill (some n ∷ key) k = n ∷ fill key k
fill (none ∷ key) [] = []
fill (none ∷ key) (x ∷ k) = x ∷ fill key k

-- What hypertrie documents.
pub record HypertrieLaws {H : Type 0} (ops : HypertrieOps H) : Type 0 where
  pub size-entries : (h : H) → ops.size h ≡ length (ops.entries h)
  pub empty-size : (h : H) → (ops.empty h ≡ true) ↔ (ops.size h ≡ 0)
  pub entries-NoDuplicates : (h : H) → NoDuplicates (ops.entries h)
  pub entries-slice :
      (key : SliceKey) (h : H) (k : List Node)
      → In k (ops.entries (ops.slice key h))
        ↔ ((length k ≡ free key) × In (fill key k) (ops.entries h))
