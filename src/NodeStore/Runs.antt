-- ===== src/NodeStore/Runs.antt =====
-- The node store over any sequence of calls: ids are permanent, tell nodes apart, and lead back to
-- the nodes.
use tentris.Base.{ℕ, ◌<◌, some, Result, ok, fail, ◌≡◌, sym, ap, subst, ◌∙◌}
use tentris.NodeStore.Backends.{IriView, BNodeView, LiteralView, VariableView}
use tentris.NodeStore.Impl.{
  Ids, Impl, NodeView, bnode, iri, literal, variable, new_impl, find_or_make_id, find_id, Request,
  make, erase, handle,
}
use tentris.NodeStore.Valid.{IdLaws, Valid}
use tentris.NodeStore.Promises.{Storable, counter_of}
use tentris.NodeStore.Start.{new_impl-Valid}
use tentris.NodeStore.Calls.{
  Counts, find_or_make_id-Counts, ReadsBack, KeepsIds, find_or_make_id-Made, find_id-ReadsBack,
}

-- Both are nodes of one kind.
pub data SameKind : NodeView → NodeView → Type 0 where
  bnodes : (v w : BNodeView) → SameKind (bnode v) (bnode w)
  iris : (v w : IriView) → SameKind (iri v) (iri w)
  literals : (v w : LiteralView) → SameKind (literal v) (literal w)
  variables : (v w : VariableView) → SameKind (variable v) (variable w)

module _ (ids : Ids) (laws : IdLaws ids) where
  -- The store can keep the node, and ids are left.
  abbrev pub Allowed : Request → Impl → Type 0
  Allowed (make v) s = Storable v × (counter_of v s < laws.limit)
  Allowed (erase id) s = Unit

  pub data Step : Impl → Impl → Type 0 where
    call :
        (r : Request) (s : Impl) (id : ℕ) (s' : Impl)
        → Allowed r s
        → handle ids r s ≡ ok (id, s')
        → Step s s'

  pub data Steps (s : Impl) : Impl → Type 0 where
    stop : Steps s s
    next : {s' s'' : Impl} → Steps s s' → Step s' s'' → Steps s s''

  abbrev pub Keeps : Impl → Impl → Type 0
  Keeps s s' = Valid ids laws s → Valid ids laws s' × KeepsIds ids s s'

  Step-Keeps : {s s' : Impl} → Step s s' → Keeps s s'
  unfolding handle
  Step-Keeps (call (make v) s id s' (hv, below) e) h =
      let m = find_or_make_id-Made ids laws v s hv below h in
      subst (λ r. Valid ids laws r × KeepsIds ids s r)
        (ap (λ (x : Result (ℕ × Impl)). elim x [ ok y ↦ y.1 | fail f ↦ s ]) e) (m.0, m.3)
  Step-Keeps (call (erase i) s id s' a e) h = absurd (cc e)

  Steps-Keeps : {s s' : Impl} → Steps s s' → Keeps s s'
  Steps-Keeps stop h = (h, λ w j hw e. e)
  Steps-Keeps (next steps step) h =
      let (h1, k1) = Steps-Keeps steps h in
      let (h2, k2) = Step-Keeps step h1 in (h2, λ w j hw e. k2 w j hw (k1 w j hw e))

  abbrev pub Reachable : Impl → Type 0
  Reachable s = Steps (new_impl ids) s

  Reachable-Valid : (s : Impl) → Reachable s → Valid ids laws s
  Reachable-Valid s r = (Steps-Keeps r (new_impl-Valid ids laws)).0

  -- After any calls that had ids left, a node that has an id keeps it through any further calls.
  pub find_id-Steps :
      (s s' : Impl) (w : NodeView) (j : ℕ)
      → Reachable s
      → Steps s s'
      → Storable w
      → find_id ids w s ≡ some j
      → find_id ids w s' ≡ some j
  find_id-Steps s s' w j r steps hw e = (Steps-Keeps steps (Reachable-Valid s r)).1 w j hw e

  -- After any calls that had ids left, `find_or_make_id` with an id left gives an id under which the
  -- node is found, and from which the node is read back.
  pub find_or_make_id-ReadsBack :
      (s : Impl) (v : NodeView)
      → Reachable s
      → Storable v
      → counter_of v s < laws.limit
      → let r = find_or_make_id ids v s in (find_id ids v r.1 ≡ some r.0) × ReadsBack ids v r.0 r.1
  find_or_make_id-ReadsBack s v r hv below =
      let m = find_or_make_id-Made ids laws v s hv below (Reachable-Valid s r) in (m.1, m.2)

  -- After any calls that had ids left, two nodes of one kind with one id are the same.
  pub find_id-injective :
      (s : Impl) (v w : NodeView) (id : ℕ)
      → Reachable s
      → SameKind v w
      → Storable v
      → Storable w
      → find_id ids v s ≡ some id
      → find_id ids w s ≡ some id
      → v ≡ w
  find_id-injective s v w id r k hv hw e e' =
      same v w k (find_id-ReadsBack ids laws v id s hv (Reachable-Valid s r) e)
        (find_id-ReadsBack ids laws w id s hw (Reachable-Valid s r) e')
    where
      value : {V : Type 0} → V → Result V → V
      value d (ok x) = x
      value d (fail f) = d

      same : (v w : NodeView) → SameKind v w → ReadsBack ids v id s → ReadsBack ids w id s → v ≡ w
      same _ _ (bnodes v w) a b = ap (λ x. bnode (value v x)) (sym a ∙ b)
      same _ _ (iris v w) a b = ap (λ x. iri (value v x)) (sym a ∙ b)
      same _ _ (literals v w) a b = ap (λ x. literal (value v x)) (sym a ∙ b)
      same _ _ (variables v w) a b = ap (λ x. variable (value v x)) (sym a ∙ b)

  -- After any calls that had ids left, `find_or_make_id` with an id left adds one to `size` for a
  -- node that `find_id` does not find, and otherwise returns the id it finds and changes nothing.
  pub size-find_or_make_id :
      (s : Impl) (v : NodeView)
      → Reachable s
      → Storable v
      → counter_of v s < laws.limit
      → Counts ids laws (find_id ids v s) s (find_or_make_id ids v s)
  size-find_or_make_id s v r hv below =
      find_or_make_id-Counts ids laws v s hv below (Reachable-Valid s r)
