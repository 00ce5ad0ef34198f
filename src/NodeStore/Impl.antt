-- ===== src/NodeStore/Impl.antt =====
-- `PersistentNodeStorageBackendImpl`, and the facade `PersistentNodeStorageBackend` that rdf4cpp
-- calls. A method that C++ overloads on the view is one function on `NodeView`.
use tentris.Base.{ℕ, ◌+◌, Bool, false, Option, List, [], ◌∷◌, Result, ok, fail, runtime_error}
use tentris.Sparql.Syntax.{Text}
use tentris.NodeStore.Backends.{
  IriView, BNodeView, LiteralView, VariableView, MetallIriBackend, MetallBNodeBackend,
  MetallLiteralBackend, MetallVariableBackend, ViewOps, iri_backend, bnode_backend, literal_backend,
  variable_backend,
}
use tentris.NodeStore.Storage.{
  Storage, empty_storage, lookup, insert, lookup_or_insert, find_backend_view, lookup_size,
}

-- What rdf4cpp gives: the views, `NodeID` and `LiteralID` with their increment, the ids of
-- literals, and the datatypes that every storage knows.
pub record Ids : Type 0 where
  pub iri_views : ViewOps IriView
  pub bnode_views : ViewOps BNodeView
  pub literal_views : ViewOps LiteralView
  pub variable_views : ViewOps VariableView
  pub min_iri_id : ℕ
  pub min_bnode_id : ℕ
  pub min_literal_id : ℕ
  pub min_variable_id : ℕ
  pub increment : ℕ → ℕ
  pub literal_node_id : ℕ → ℕ → ℕ
  pub iri_node_id_to_literal_type : ℕ → ℕ
  pub reserved_datatype_ids : List (Text × ℕ)

pub record Impl : Type 0 where
  pub bnode_storage_ : Storage MetallBNodeBackend
  pub iri_storage_ : Storage MetallIriBackend
  pub literal_storage_ : Storage MetallLiteralBackend
  pub variable_storage_ : Storage MetallVariableBackend
  pub next_literal_id : ℕ
  pub next_bnode_id : ℕ
  pub next_iri_id : ℕ
  pub next_variable_id : ℕ

-- A literal is given by its lexical form, `view.get_lexical()`.
pub data NodeView : Type 0 where
  bnode : BNodeView → NodeView
  iri : IriView → NodeView
  literal : LiteralView → NodeView
  variable : VariableView → NodeView

unfoldable pub size : Impl → ℕ
size s =
    lookup_size s.bnode_storage_
    + lookup_size s.iri_storage_
    + lookup_size s.literal_storage_
    + lookup_size s.variable_storage_

-- The calls of the facade that could change the state. There is an `erase` for each kind of node.
pub data Request : Type 0 where
  make : NodeView → Request
  erase : ℕ → Request

module _ (ids : Ids) where
  -- The functions that `find_or_make_id` passes for a new id, with the counter they increment.
  abbrev pub next_id : {V : Type 0} → V → ℕ → ℕ × ℕ
  next_id v counter = (counter, ids.increment counter)

  abbrev pub next_literal : LiteralView → ℕ → ℕ × ℕ
  next_literal v counter = (
    ids.literal_node_id counter (ids.iri_node_id_to_literal_type v.datatype_id),
    ids.increment counter,
  )

  -- The loop of the constructor.
  unfoldable pub add_reserved :
      List (Text × ℕ) → Storage MetallIriBackend → Storage MetallIriBackend
  add_reserved [] s = s
  add_reserved ((text, id) ∷ rest) s =
      add_reserved rest (insert (iri_backend ids.iri_views) (record { identifier = text }) id s)

  unfoldable pub new_impl : Impl
  new_impl = record {
    bnode_storage_ = empty_storage;
    iri_storage_ = add_reserved ids.reserved_datatype_ids empty_storage;
    literal_storage_ = empty_storage;
    variable_storage_ = empty_storage;
    next_literal_id = ids.min_literal_id;
    next_bnode_id = ids.min_bnode_id;
    next_iri_id = ids.min_iri_id;
    next_variable_id = ids.min_variable_id;
  }

  unfoldable pub find_or_make_id : NodeView → Impl → ℕ × Impl
  find_or_make_id (literal v) s =
      let r =
        lookup_or_insert (literal_backend ids.literal_views) next_literal v
          (s.literal_storage_, s.next_literal_id) in
      (r.0, record s { literal_storage_ = r.1; next_literal_id = r.2 })
  find_or_make_id (iri v) s =
      let r =
        lookup_or_insert (iri_backend ids.iri_views) next_id v (s.iri_storage_, s.next_iri_id) in
      (r.0, record s { iri_storage_ = r.1; next_iri_id = r.2 })
  find_or_make_id (bnode v) s =
      let r =
        lookup_or_insert (bnode_backend ids.bnode_views) next_id v
          (s.bnode_storage_, s.next_bnode_id) in
      (r.0, record s { bnode_storage_ = r.1; next_bnode_id = r.2 })
  find_or_make_id (variable v) s =
      let r =
        lookup_or_insert (variable_backend ids.variable_views) next_id v
          (s.variable_storage_, s.next_variable_id) in
      (r.0, record s { variable_storage_ = r.1; next_variable_id = r.2 })

  -- The result is `none` for the null id.
  unfoldable pub find_id : NodeView → Impl → Option ℕ
  find_id (bnode v) s = lookup (bnode_backend ids.bnode_views) s.bnode_storage_ v
  find_id (iri v) s = lookup (iri_backend ids.iri_views) s.iri_storage_ v
  find_id (literal v) s = lookup (literal_backend ids.literal_views) s.literal_storage_ v
  find_id (variable v) s = lookup (variable_backend ids.variable_views) s.variable_storage_ v

  unfoldable pub find_iri_backend_view : ℕ → Impl → Result IriView
  find_iri_backend_view id s = find_backend_view (iri_backend ids.iri_views) s.iri_storage_ id

  unfoldable pub find_literal_backend_view : ℕ → Impl → Result LiteralView
  find_literal_backend_view id s =
      find_backend_view (literal_backend ids.literal_views) s.literal_storage_ id

  unfoldable pub find_bnode_backend_view : ℕ → Impl → Result BNodeView
  find_bnode_backend_view id s =
      find_backend_view (bnode_backend ids.bnode_views) s.bnode_storage_ id

  unfoldable pub find_variable_backend_view : ℕ → Impl → Result VariableView
  find_variable_backend_view id s =
      find_backend_view (variable_backend ids.variable_views) s.variable_storage_ id

  -- The facade passes a call on to the one `Impl`, and never erases a node.
  unfoldable pub handle : Request → Impl → Result (ℕ × Impl)
  handle (make v) s = ok (find_or_make_id v s)
  handle (erase id) s = fail (runtime_error "Not implemented.")

abbrev pub has_specialized_storage_for : ℕ → Bool
has_specialized_storage_for literal_type = false
