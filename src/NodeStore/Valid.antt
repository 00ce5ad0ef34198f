-- ===== src/NodeStore/Valid.antt =====
-- The node store as a whole: what every call keeps, from the constructor on.
use tentris.Base.{
  ◌==◌, ◌&&◌, ℕ, ◌<◌, Bool, true, false, none, List, [], ◌∷◌, ==_iff, ℕ_discrete, ◌≡◌, refl, sym,
  ap, subst, ◌∙◌, ◌↔◌,
}
use tentris.Sparql.Syntax.{Text}
use tentris.NodeStore.Backends.{
  IriView, BNodeView, LiteralView, VariableView, ViewOps, iri_view, bnode_view, literal_view,
  variable_view, MetallIriBackend, MetallBNodeBackend, MetallLiteralBackend, MetallVariableBackend,
  iri_backend, bnode_backend, literal_backend, variable_backend,
}
use tentris.NodeStore.Storage.{Storage, matches}
use tentris.NodeStore.Refines.{BackendLaws, IsTable}
use tentris.NodeStore.Kept.{IsMinting, IsKept}
use tentris.NodeStore.Impl.{Ids, Impl, next_id, next_literal}

unfoldable pub IriView-discrete : Discrete IriView
unfolding ℕ_discrete
IriView-discrete = hlevel ℕ_discrete

unfoldable pub BNodeView-discrete : Discrete BNodeView
unfolding ℕ_discrete
BNodeView-discrete = hlevel ℕ_discrete

unfoldable pub LiteralView-discrete : Discrete LiteralView
unfolding ℕ_discrete
LiteralView-discrete = hlevel ℕ_discrete

unfoldable pub VariableView-discrete : Discrete VariableView
unfolding ℕ_discrete
VariableView-discrete = hlevel ℕ_discrete

abbrev pub Everywhere : {V : Type 0} → V → Type 0
Everywhere v = Unit

-- The store keeps no scope.
abbrev pub Unscoped : BNodeView → Type 0
Unscoped v = v.scope ≡ none

-- Views are equal when their fields are.
abbrev pub Compares : {V : Type 0} → ViewOps V → (V → Type 0) → Type 0
Compares {V} views Storable =
    (v w : V) → Storable v → Storable w → (views.same v w ≡ true) ↔ (v ≡ w)

-- The reserved datatypes have different names and ids, below those of other IRIs.
abbrev pub IsReserved : ℕ → List (Text × ℕ) → List (IriView × ℕ) → Type 0
IsReserved min [] es = Unit
IsReserved min ((text, id) ∷ rest) es =
    id < min
    × IsTable IriView-discrete Everywhere ((record { identifier = text }, id) ∷ es)
    × IsReserved min rest ((record { identifier = text }, id) ∷ es)

-- What rdf4cpp documents. Ids do not run out below `limit`.
pub record IdLaws (ids : Ids) : Type 0 where
  pub iris_compare : Compares ids.iri_views Everywhere
  pub bnodes_compare : Compares ids.bnode_views Unscoped
  pub literals_compare : Compares ids.literal_views Everywhere
  pub variables_compare : Compares ids.variable_views Everywhere
  pub limit : ℕ
  pub increment-grows : (c : ℕ) → c < limit → c < ids.increment c
  pub literal_rank : ℕ → ℕ
  pub literal_rank-literal_node_id :
      (c t : ℕ) → c < limit → literal_rank (ids.literal_node_id c t) ≡ c
  pub reserved : IsReserved ids.min_iri_id ids.reserved_datatype_ids []

==_refl : (n : ℕ) → (n == n) ≡ true
==_refl n = (==_iff n n).1 refl

both_true : (a b : Bool) → (a && b) ≡ true → (a ≡ true) × (b ≡ true)
both_true true b e = (refl, e)
both_true false b e = cc

all_true : (a b : Bool) → a ≡ true → b ≡ true → (a && b) ≡ true
all_true true b e h = h
all_true false b e h = cc

matches_iff :
    {V : Type 0} (views : ViewOps V) (v w : V)
    → (views.same v w ≡ true) ↔ (v ≡ w)
    → (((views.hash v == views.hash w) && views.same v w) ≡ true) ↔ (v ≡ w)
matches_iff views v w (sound, complete) = (
  (λ e. sound (both_true _ _ e).1),
  (λ e.
      all_true _ _ (ap (λ x. views.hash v == views.hash x) (sym e) ∙ ==_refl (views.hash v))
        (complete e)),
)

pub iri_laws :
    (views : ViewOps IriView)
    → Compares views Everywhere
    → BackendLaws (iri_backend views) Everywhere
unfolding iri_backend matches iri_view
iri_laws views compares = record {
  view-construct = λ v h. refl;
  matches-construct = λ v w hv hw. matches_iff views v w (compares v w hv hw);
}

pub variable_laws :
    (views : ViewOps VariableView)
    → Compares views Everywhere
    → BackendLaws (variable_backend views) Everywhere
unfolding variable_backend matches variable_view
variable_laws views compares = record {
  view-construct = λ v h. refl;
  matches-construct = λ v w hv hw. matches_iff views v w (compares v w hv hw);
}

pub literal_laws :
    (views : ViewOps LiteralView)
    → Compares views Everywhere
    → BackendLaws (literal_backend views) Everywhere
unfolding literal_backend matches literal_view
literal_laws views compares = record {
  view-construct = λ v h. refl;
  matches-construct = λ v w hv hw. matches_iff views v w (compares v w hv hw);
}

unscoped : (v : BNodeView) → Unscoped v → record { identifier = v.identifier; scope = none } ≡ v
unscoped v h = ap (λ s. record { identifier = v.identifier; scope = s }) (sym h)

pub bnode_laws :
    (views : ViewOps BNodeView)
    → Compares views Unscoped
    → BackendLaws (bnode_backend views) Unscoped
unfolding bnode_backend matches bnode_view
bnode_laws views compares = record {
  view-construct = unscoped;
  matches-construct = λ v w hv hw.
      subst (λ x. (((views.hash v == views.hash x) && views.same v x) ≡ true) ↔ (v ≡ w))
        (sym (unscoped w hw)) (matches_iff views v w (compares v w hv hw));
}

module _ (ids : Ids) (laws : IdLaws ids) where
  pub next_id-IsMinting : {V : Type 0} → IsMinting (next_id ids {V = V}) (λ id. id) laws.limit
  next_id-IsMinting = record { rank_of = λ v c h. refl; grows = λ v c h. laws.increment-grows c h }

  pub next_literal-IsMinting : IsMinting (next_literal ids) laws.literal_rank laws.limit
  next_literal-IsMinting = record {
    rank_of = λ v c h. laws.literal_rank-literal_node_id c _ h;
    grows = λ v c h. laws.increment-grows c h;
  }

  -- Each storage is that of a table, with ids below its counter.
  pub record IsValid (bnodes : Storage MetallBNodeBackend) (iris : Storage MetallIriBackend)
      (literals : Storage MetallLiteralBackend) (variables : Storage MetallVariableBackend)
      (next_literal_id next_bnode_id next_iri_id next_variable_id : ℕ) : Type 0 where
    pub bnodes_kept :
        IsKept
          (bnode_backend ids.bnode_views)
          BNodeView-discrete
          Unscoped
          (λ id. id)
          next_bnode_id
          bnodes
    pub iris_kept :
        IsKept (iri_backend ids.iri_views) IriView-discrete Everywhere (λ id. id) next_iri_id iris
    pub literals_kept :
        IsKept
          (literal_backend ids.literal_views)
          LiteralView-discrete
          Everywhere
          laws.literal_rank
          next_literal_id
          literals
    pub variables_kept :
        IsKept
          (variable_backend ids.variable_views)
          VariableView-discrete
          Everywhere
          (λ id. id)
          next_variable_id
          variables

  abbrev pub Valid : Impl → Type 0
  Valid s =
      IsValid s.bnode_storage_ s.iri_storage_ s.literal_storage_ s.variable_storage_
        s.next_literal_id s.next_bnode_id s.next_iri_id s.next_variable_id
