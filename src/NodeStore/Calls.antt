-- ===== src/NodeStore/Calls.antt =====
-- What a call of the node store promises.
use tentris.Base.{
  Option-cases, suc, ℕ, ◌<◌, Option, none, some, ok, ◌≡◌, sym, subst, inl, inr, arith,
}
use tentris.NodeStore.Backends.{iri_backend, bnode_backend, literal_backend, variable_backend}
use tentris.NodeStore.Kept.{read_back-IsKept}
use tentris.NodeStore.Impl.{
  Ids, size, Impl, NodeView, bnode, iri, literal, variable, find_or_make_id, find_id,
  find_iri_backend_view, find_bnode_backend_view, find_literal_backend_view,
  find_variable_backend_view,
}
use tentris.NodeStore.Valid.{
  IdLaws, Valid, Unscoped, Everywhere, iri_laws, bnode_laws, literal_laws, variable_laws,
  IriView-discrete, BNodeView-discrete, LiteralView-discrete, VariableView-discrete,
}
use tentris.NodeStore.Promises.{
  Storable, counter_of, bnode-Promise, iri-Promise, literal-Promise, variable-Promise,
}

module _ (ids : Ids) where
  -- The call for the kind of the node gives its view for the id.
  abbrev pub ReadsBack : NodeView → ℕ → Impl → Type 0
  ReadsBack (bnode v) id s = find_bnode_backend_view ids id s ≡ ok v
  ReadsBack (iri v) id s = find_iri_backend_view ids id s ≡ ok v
  ReadsBack (literal v) id s = find_literal_backend_view ids id s ≡ ok v
  ReadsBack (variable v) id s = find_variable_backend_view ids id s ≡ ok v

  -- Every node that has an id keeps it.
  abbrev pub KeepsIds : Impl → Impl → Type 0
  KeepsIds s s' =
      (w : NodeView) (j : ℕ) → Storable w → find_id ids w s ≡ some j → find_id ids w s' ≡ some j

  module _ (laws : IdLaws ids) where
    -- What a call promises.
    abbrev pub Made : NodeView → Impl → ℕ × Impl → Type 0
    Made v s (id, s') =
        Valid ids laws s' × (find_id ids v s' ≡ some id) × ReadsBack v id s' × KeepsIds s s'

    pub find_or_make_id-Made :
        (v : NodeView) (s : Impl)
        → Storable v
        → counter_of v s < laws.limit
        → Valid ids laws s
        → Made v s (find_or_make_id ids v s)
    unfolding find_or_make_id find_id find_bnode_backend_view find_iri_backend_view
        find_literal_backend_view find_variable_backend_view
    find_or_make_id-Made (bnode v) s hv below h =
        let p = bnode-Promise ids laws v s hv below h in
        (
          record {
            bnodes_kept = p.kept;
            iris_kept = h.iris_kept;
            literals_kept = h.literals_kept;
            variables_kept = h.variables_kept;
          },
          p.found,
          p.read_back,
          elim [
            | bnode w ↦ λ j hw e. p.others_kept w j hw e
            | iri w ↦ λ j hw e. e
            | literal w ↦ λ j hw e. e
            | variable w ↦ λ j hw e. e
          ],
        )
    find_or_make_id-Made (iri v) s hv below h =
        let p = iri-Promise ids laws v s hv below h in
        (
          record {
            bnodes_kept = h.bnodes_kept;
            iris_kept = p.kept;
            literals_kept = h.literals_kept;
            variables_kept = h.variables_kept;
          },
          p.found,
          p.read_back,
          elim [
            | bnode w ↦ λ j hw e. e
            | iri w ↦ λ j hw e. p.others_kept w j hw e
            | literal w ↦ λ j hw e. e
            | variable w ↦ λ j hw e. e
          ],
        )
    find_or_make_id-Made (literal v) s hv below h =
        let p = literal-Promise ids laws v s hv below h in
        (
          record {
            bnodes_kept = h.bnodes_kept;
            iris_kept = h.iris_kept;
            literals_kept = p.kept;
            variables_kept = h.variables_kept;
          },
          p.found,
          p.read_back,
          elim [
            | bnode w ↦ λ j hw e. e
            | iri w ↦ λ j hw e. e
            | literal w ↦ λ j hw e. p.others_kept w j hw e
            | variable w ↦ λ j hw e. e
          ],
        )
    find_or_make_id-Made (variable v) s hv below h =
        let p = variable-Promise ids laws v s hv below h in
        (
          record {
            bnodes_kept = h.bnodes_kept;
            iris_kept = h.iris_kept;
            literals_kept = h.literals_kept;
            variables_kept = p.kept;
          },
          p.found,
          p.read_back,
          elim [
            | bnode w ↦ λ j hw e. e
            | iri w ↦ λ j hw e. e
            | literal w ↦ λ j hw e. e
            | variable w ↦ λ j hw e. p.others_kept w j hw e
          ],
        )

    -- A new node counts once, and a known one changes nothing.
    abbrev pub Counts : Option ℕ → Impl → ℕ × Impl → Type 0
    Counts none s r = size r.1 ≡ suc (size s)
    Counts (some id) s r = r ≡ (id, s)

    pub find_or_make_id-Counts :
        (v : NodeView) (s : Impl)
        → Storable v
        → counter_of v s < laws.limit
        → Valid ids laws s
        → Counts (find_id ids v s) s (find_or_make_id ids v s)
    unfolding find_or_make_id find_id size
    find_or_make_id-Counts (bnode v) s hv below h =
        let p = bnode-Promise ids laws v s hv below h in
        elim (Option-cases (find_id ids (bnode v) s)) [
          | inl e ↦
              subst (λ o. Counts o s (find_or_make_id ids (bnode v) s)) (sym e)
                (omega (arith, p.counted e))
          | inr (j, e) ↦
              let (a, b, c) = p.unchanged j e in
              subst (λ o. Counts o s (find_or_make_id ids (bnode v) s)) (sym e)
                (λ i. (a i, record s { bnode_storage_ = b i; next_bnode_id = c i }))
        ]
    find_or_make_id-Counts (iri v) s hv below h =
        let p = iri-Promise ids laws v s hv below h in
        elim (Option-cases (find_id ids (iri v) s)) [
          | inl e ↦
              subst (λ o. Counts o s (find_or_make_id ids (iri v) s)) (sym e)
                (omega (arith, p.counted e))
          | inr (j, e) ↦
              let (a, b, c) = p.unchanged j e in
              subst (λ o. Counts o s (find_or_make_id ids (iri v) s)) (sym e)
                (λ i. (a i, record s { iri_storage_ = b i; next_iri_id = c i }))
        ]
    find_or_make_id-Counts (literal v) s hv below h =
        let p = literal-Promise ids laws v s hv below h in
        elim (Option-cases (find_id ids (literal v) s)) [
          | inl e ↦
              subst (λ o. Counts o s (find_or_make_id ids (literal v) s)) (sym e)
                (omega (arith, p.counted e))
          | inr (j, e) ↦
              let (a, b, c) = p.unchanged j e in
              subst (λ o. Counts o s (find_or_make_id ids (literal v) s)) (sym e)
                (λ i. (a i, record s { literal_storage_ = b i; next_literal_id = c i }))
        ]
    find_or_make_id-Counts (variable v) s hv below h =
        let p = variable-Promise ids laws v s hv below h in
        elim (Option-cases (find_id ids (variable v) s)) [
          | inl e ↦
              subst (λ o. Counts o s (find_or_make_id ids (variable v) s)) (sym e)
                (omega (arith, p.counted e))
          | inr (j, e) ↦
              let (a, b, c) = p.unchanged j e in
              subst (λ o. Counts o s (find_or_make_id ids (variable v) s)) (sym e)
                (λ i. (a i, record s { variable_storage_ = b i; next_variable_id = c i }))
        ]

    -- A node with an id is read back by it.
    pub find_id-ReadsBack :
        (v : NodeView) (id : ℕ) (s : Impl)
        → Storable v
        → Valid ids laws s
        → find_id ids v s ≡ some id
        → ReadsBack v id s
    unfolding find_id find_bnode_backend_view find_iri_backend_view find_literal_backend_view
        find_variable_backend_view
    find_id-ReadsBack (bnode v) id s hv h e =
        read_back-IsKept (bnode_backend ids.bnode_views) BNodeView-discrete Unscoped (λ id. id)
          (bnode_laws ids.bnode_views laws.bnodes_compare) s.next_bnode_id s.bnode_storage_ v id
          h.bnodes_kept hv e
    find_id-ReadsBack (iri v) id s hv h e =
        read_back-IsKept (iri_backend ids.iri_views) IriView-discrete Everywhere (λ id. id)
          (iri_laws ids.iri_views laws.iris_compare) s.next_iri_id s.iri_storage_ v id h.iris_kept
          hv e
    find_id-ReadsBack (literal v) id s hv h e =
        read_back-IsKept (literal_backend ids.literal_views) LiteralView-discrete Everywhere
          laws.literal_rank (literal_laws ids.literal_views laws.literals_compare) s.next_literal_id
          s.literal_storage_ v id h.literals_kept hv e
    find_id-ReadsBack (variable v) id s hv h e =
        read_back-IsKept (variable_backend ids.variable_views) VariableView-discrete Everywhere
          (λ id. id) (variable_laws ids.variable_views laws.variables_compare) s.next_variable_id
          s.variable_storage_ v id h.variables_kept hv e
