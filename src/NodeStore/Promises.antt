-- ===== src/NodeStore/Promises.antt =====
-- The promise of `lookup_or_insert_impl` at each kind of node.
use tentris.Base.{ℕ, ◌<◌}
use tentris.NodeStore.Backends.{
  IriView, BNodeView, LiteralView, VariableView, iri_backend, bnode_backend, literal_backend,
  variable_backend,
}
use tentris.NodeStore.Storage.{lookup_or_insert}
use tentris.NodeStore.Kept.{Promise, lookup_or_insert-Promise}
use tentris.NodeStore.Impl.{
  Ids, Impl, NodeView, bnode, iri, literal, variable, next_id, next_literal,
}
use tentris.NodeStore.Valid.{
  IdLaws, Valid, Unscoped, Everywhere, iri_laws, bnode_laws, literal_laws, variable_laws,
  next_id-IsMinting, next_literal-IsMinting, IriView-discrete, BNodeView-discrete,
  LiteralView-discrete, VariableView-discrete,
}

-- A node that the store can keep, and its counter.
abbrev pub Storable : NodeView → Type 0
Storable (bnode v) = Unscoped v
Storable _ = Unit

abbrev pub counter_of : NodeView → Impl → ℕ
counter_of (bnode v) s = s.next_bnode_id
counter_of (iri v) s = s.next_iri_id
counter_of (literal v) s = s.next_literal_id
counter_of (variable v) s = s.next_variable_id

module _ (ids : Ids) (laws : IdLaws ids) where
  pub bnode-Promise :
      (v : BNodeView) (s : Impl)
      → Storable (bnode v)
      → s.next_bnode_id < laws.limit
      → Valid ids laws s
      → let r =
          lookup_or_insert
            (bnode_backend ids.bnode_views)
            (next_id ids)
            v
            (s.bnode_storage_, s.next_bnode_id) in
        Promise
          (bnode_backend ids.bnode_views)
          BNodeView-discrete
          Unscoped
          (λ id. id)
          v
          s.next_bnode_id
          s.bnode_storage_
          r.0
          r.1
          r.2
  bnode-Promise v s hv below h =
      lookup_or_insert-Promise (bnode_backend ids.bnode_views) BNodeView-discrete Unscoped
        (λ id. id) (bnode_laws ids.bnode_views laws.bnodes_compare) (next_id ids) laws.limit
        (next_id-IsMinting ids laws) v s.next_bnode_id s.bnode_storage_ hv below h.bnodes_kept

  pub iri-Promise :
      (v : IriView) (s : Impl)
      → Storable (iri v)
      → s.next_iri_id < laws.limit
      → Valid ids laws s
      → let r =
          lookup_or_insert
            (iri_backend ids.iri_views)
            (next_id ids)
            v
            (s.iri_storage_, s.next_iri_id) in
        Promise
          (iri_backend ids.iri_views)
          IriView-discrete
          Everywhere
          (λ id. id)
          v
          s.next_iri_id
          s.iri_storage_
          r.0
          r.1
          r.2
  iri-Promise v s hv below h =
      lookup_or_insert-Promise (iri_backend ids.iri_views) IriView-discrete Everywhere (λ id. id)
        (iri_laws ids.iri_views laws.iris_compare) (next_id ids) laws.limit
        (next_id-IsMinting ids laws) v s.next_iri_id s.iri_storage_ hv below h.iris_kept

  pub literal-Promise :
      (v : LiteralView) (s : Impl)
      → Storable (literal v)
      → s.next_literal_id < laws.limit
      → Valid ids laws s
      → let r =
          lookup_or_insert
            (literal_backend ids.literal_views)
            (next_literal ids)
            v
            (s.literal_storage_, s.next_literal_id) in
        Promise
          (literal_backend ids.literal_views)
          LiteralView-discrete
          Everywhere
          laws.literal_rank
          v
          s.next_literal_id
          s.literal_storage_
          r.0
          r.1
          r.2
  literal-Promise v s hv below h =
      lookup_or_insert-Promise (literal_backend ids.literal_views) LiteralView-discrete Everywhere
        laws.literal_rank (literal_laws ids.literal_views laws.literals_compare) (next_literal ids)
        laws.limit (next_literal-IsMinting ids laws) v s.next_literal_id s.literal_storage_ hv below
        h.literals_kept

  pub variable-Promise :
      (v : VariableView) (s : Impl)
      → Storable (variable v)
      → s.next_variable_id < laws.limit
      → Valid ids laws s
      → let r =
          lookup_or_insert
            (variable_backend ids.variable_views)
            (next_id ids)
            v
            (s.variable_storage_, s.next_variable_id) in
        Promise
          (variable_backend ids.variable_views)
          VariableView-discrete
          Everywhere
          (λ id. id)
          v
          s.next_variable_id
          s.variable_storage_
          r.0
          r.1
          r.2
  variable-Promise v s hv below h =
      lookup_or_insert-Promise (variable_backend ids.variable_views) VariableView-discrete
        Everywhere (λ id. id) (variable_laws ids.variable_views laws.variables_compare)
        (next_id ids) laws.limit (next_id-IsMinting ids laws) v s.next_variable_id
        s.variable_storage_ hv below h.variables_kept
