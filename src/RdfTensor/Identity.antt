-- ===== src/RdfTensor/Identity.antt =====
-- The key parts of the hypertrie against the nodes of the node store.
use tentris.Base.{
  ℕ, ◌<◌, ◌^◌, ◌==◌, ==_iff, true, false, not, some, ◌≡◌, sym, ap, ◌∙◌, ◌↔◌, compare, Ordering,
  arith,
}
use tentris.NodeStore.Impl.{Ids, Impl, NodeView, bnode, iri, literal, variable, find_id}
use tentris.NodeStore.Valid.{IdLaws}
use tentris.NodeStore.Promises.{Storable}
use tentris.NodeStore.Runs.{
  SameKind, bnodes, iris, literals, variables, Reachable, find_id-injective,
}
use tentris.RdfTensor.{equals, differs, three_way, std_hash}

pub data Kind : Type 0 where
  bnode_kind : Kind
  iri_kind : Kind
  literal_kind : Kind
  variable_kind : Kind

abbrev pub kind_of : NodeView → Kind
kind_of (bnode v) = bnode_kind
kind_of (iri v) = iri_kind
kind_of (literal v) = literal_kind
kind_of (variable v) = variable_kind

SameKind-kind_of : (v w : NodeView) → kind_of v ≡ kind_of w → SameKind v w
SameKind-kind_of (bnode v) (bnode w) e = bnodes v w
SameKind-kind_of (iri v) (iri w) e = iris v w
SameKind-kind_of (literal v) (literal w) e = literals v w
SameKind-kind_of (variable v) (variable w) e = variables v w
SameKind-kind_of (bnode v) (iri w) e = cc
SameKind-kind_of (bnode v) (literal w) e = cc
SameKind-kind_of (bnode v) (variable w) e = cc
SameKind-kind_of (iri v) (bnode w) e = cc
SameKind-kind_of (iri v) (literal w) e = cc
SameKind-kind_of (iri v) (variable w) e = cc
SameKind-kind_of (literal v) (bnode w) e = cc
SameKind-kind_of (literal v) (iri w) e = cc
SameKind-kind_of (literal v) (variable w) e = cc
SameKind-kind_of (variable v) (bnode w) e = cc
SameKind-kind_of (variable v) (iri w) e = cc
SameKind-kind_of (variable v) (literal w) e = cc

-- What the package rdf4cpp promises of a handle: it holds the kind of a node and its id of 48 bits in
-- the one storage of the program.
pub record HandleLaws {N : Type 0} (raw : N → ℕ) (make : Kind → ℕ → N) : Type 0 where
  pub raw-make :
      (k l : Kind) (i j : ℕ)
      → i < 2 ^ 48
      → j < 2 ^ 48
      → raw (make k i) ≡ raw (make l j)
      → (k ≡ l) × (i ≡ j)

-- The operators of NodeWrapper all tell apart what the proposition does.
abbrev pub ToldApart : {N : Type 0} → (N → ℕ) → N → N → Type 0 → Type 0
ToldApart raw a b Same =
    ((equals raw (record { node = a }) (record { node = b }) ≡ true) ↔ Same)
    × ((differs raw (record { node = a }) (record { node = b }) ≡ false) ↔ Same)
    × ((three_way raw (record { node = a }) (record { node = b }) ≡ Ordering.eq) ↔ Same)
    × ((std_hash raw (record { node = a }) ≡ std_hash raw (record { node = b })) ↔ Same)

iff_then : {P Q R : Type 0} → (P ↔ Q) → (Q ↔ R) → (P ↔ R)
iff_then (f, g) (f', g') = (λ p. f' (f p), λ r. g (g' r))

not-==_iff : (a b : ℕ) → (not (a == b) ≡ false) ↔ (a ≡ b)
not-==_iff a b = ground arith

compare_eq_iff : (a b : ℕ) → (compare a b ≡ Ordering.eq) ↔ (a ≡ b)
compare_eq_iff a b = ground arith

ToldApart-raw :
    {N : Type 0} (raw : N → ℕ) (a b : N) (Same : Type 0)
    → ((raw a ≡ raw b) ↔ Same)
    → ToldApart raw a b Same
unfolding equals differs three_way std_hash
ToldApart-raw raw a b Same same = (
  iff_then (==_iff (raw a) (raw b)) same,
  iff_then (not-==_iff (raw a) (raw b)) same,
  iff_then (compare_eq_iff (raw a) (raw b)) same,
  same,
)

module _ {N : Type 0} (raw : N → ℕ) (make : Kind → ℕ → N) (handles : HandleLaws raw make)
    (ids : Ids) (laws : IdLaws ids) where
  raw_iff :
      (s : Impl) (v w : NodeView) (i j : ℕ)
      → Reachable ids laws s
      → Storable v
      → Storable w
      → i < 2 ^ 48
      → j < 2 ^ 48
      → find_id ids v s ≡ some i
      → find_id ids w s ≡ some j
      → (raw (make (kind_of v) i) ≡ raw (make (kind_of w) j)) ↔ (v ≡ w)
  raw_iff s v w i j r hv hw hi hj fi fj = (
    λ e.
        let (k, ij) = handles.raw-make (kind_of v) (kind_of w) i j hi hj e in
        find_id-injective ids laws s v w i r (SameKind-kind_of v w k) hv hw fi
          (fj ∙ ap some (sym ij)),
    λ e. cc,
  )

  -- After any calls of the node store that had ids left, the wrappers of two nodes, each with its id
  -- of 48 bits, are equal by `==`, by `!=`, by `<=>` and by their hashes exactly if the nodes are the
  -- same.
  pub find_id-ToldApart :
      (s : Impl) (v w : NodeView) (i j : ℕ)
      → Reachable ids laws s
      → Storable v
      → Storable w
      → i < 2 ^ 48
      → j < 2 ^ 48
      → find_id ids v s ≡ some i
      → find_id ids w s ≡ some j
      → ToldApart raw (make (kind_of v) i) (make (kind_of w) j) (v ≡ w)
  find_id-ToldApart s v w i j r hv hw hi hj fi fj =
      ToldApart-raw raw (make (kind_of v) i) (make (kind_of w) j) (v ≡ w)
        (raw_iff s v w i j r hv hw hi hj fi fj)
