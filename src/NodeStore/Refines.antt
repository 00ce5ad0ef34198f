-- ===== src/NodeStore/Refines.antt =====
-- The specification of one storage, a table of nodes with their ids, and that the two hash maps of
-- `MetallNodeTypeStorage` with their shared backends implement it.
use tentris.Base.{
  subst, ℕ, suc, ◌<◌, ◌≤◌, true, none, some, List, [], ◌∷◌, ok, length, find, ℕ_discrete, ◌≡◌, refl,
  sym, ap, ◌∙◌, ◌↔◌, if_pos, if_neg, Bool-cases, inl, inr, arith,
}
use tentris.NodeStore.Backends.{BackendOps}
use tentris.NodeStore.Storage.{
  Storage, deref, emplace, matches, find_entry, found_at, lookup, insert, find_backend_view,
}

-- A node of a storable view is found by its view alone, and is read back as its view.
pub record BackendLaws {V B : Type 0} (ops : BackendOps V B) (Storable : V → Type 0) : Type 0 where
  pub view-construct : (v : V) → Storable v → ops.view (ops.construct v) ≡ v
  pub matches-construct :
      (v w : V) → Storable v → Storable w → (matches ops v (ops.construct w) ≡ true) ↔ (v ≡ w)

module _ {V : Type 0} where
  -- The nodes and ids of a table, with the number of the nodes before each, the newest first.
  abbrev pub node_ids : List (V × ℕ) → List (ℕ × ℕ)
  node_ids [] = []
  node_ids ((v, id) ∷ es) = (length es, id) ∷ node_ids es

  abbrev pub id_nodes : List (V × ℕ) → List (ℕ × ℕ)
  id_nodes [] = []
  id_nodes ((v, id) ∷ es) = (id, length es) ∷ id_nodes es

  -- No node and no id stands twice.
  abbrev pub IsTable : Discrete V → (V → Type 0) → List (V × ℕ) → Type 0
  IsTable dec Storable [] = Unit
  IsTable dec Storable ((v, id) ∷ es) =
      Storable v
      × (find dec v es ≡ none)
      × (find ℕ_discrete id (id_nodes es) ≡ none)
      × IsTable dec Storable es

module _ {V B : Type 0} (ops : BackendOps V B) where
  abbrev pub backends_of : List (V × ℕ) → List B
  backends_of [] = []
  backends_of ((v, id) ∷ es) = ops.construct v ∷ backends_of es

  -- The storage that a table stands for.
  abbrev pub storage_of : List (V × ℕ) → Storage B
  storage_of es = record { backends = backends_of es; data2id = node_ids es; id2data = id_nodes es }

  length-backends_of : (es : List (V × ℕ)) → length (backends_of es) ≡ length es
  length-backends_of [] = refl
  length-backends_of (e ∷ es) = ap suc (length-backends_of es)

  deref-newest : (b : B) (bs : List B) → deref (b ∷ bs) (length bs) ≡ some b
  unfolding deref
  deref-newest b bs = ground arith

  deref-older : (b : B) (bs : List B) (p : ℕ) → p < length bs → deref (b ∷ bs) p ≡ deref bs p
  unfolding deref
  deref-older b bs p h = ground arith

  deref-length :
      (w : V) (es : List (V × ℕ))
      → deref (ops.construct w ∷ backends_of es) (length es) ≡ some (ops.construct w)
  deref-length w es =
      subst (λ n. deref (ops.construct w ∷ backends_of es) n ≡ some (ops.construct w))
        (length-backends_of es) (deref-newest (ops.construct w) (backends_of es))

  find_entry-older :
      (b : B) (bs : List B) (es : List (V × ℕ)) (v : V)
      → length es ≤ length bs
      → find_entry ops (b ∷ bs) (node_ids es) v ≡ find_entry ops bs (node_ids es) v
  unfolding find_entry
  find_entry-older b bs [] v h = refl
  find_entry-older b bs ((w, id) ∷ es) v h =
      ap (found_at ops v id (find_entry ops (b ∷ bs) (node_ids es) v))
        (deref-older b bs (length es) (omega arith))
      ∙ ap (λ r. found_at ops v id r (deref bs (length es)))
          (find_entry-older b bs es v (omega arith))

  find-id_nodes-bound :
      (es : List (V × ℕ)) (id p : ℕ) → find ℕ_discrete id (id_nodes es) ≡ some p → p < length es
  unfolding find
  find-id_nodes-bound [] id p e = cc
  find-id_nodes-bound ((w, j) ∷ es) id p e = ground (arith, find-id_nodes-bound es id p)

  -- An address not yet handed out is no key.
  find-node_ids :
      (es : List (V × ℕ)) (p : ℕ) → length es ≤ p → find ℕ_discrete p (node_ids es) ≡ none
  unfolding find
  find-node_ids [] p h = refl
  find-node_ids ((w, j) ∷ es) p h = ground (arith, find-node_ids es p)

  emplace-new :
      (k x : ℕ) (m : List (ℕ × ℕ)) → find ℕ_discrete k m ≡ none → emplace k x m ≡ (k, x) ∷ m
  emplace-new k x m e = rw (e, emplace) refl

  pub insert-storage_of :
      (v : V) (id : ℕ) (es : List (V × ℕ))
      → find ℕ_discrete id (id_nodes es) ≡ none
      → insert ops v id (storage_of es) ≡ storage_of ((v, id) ∷ es)
  unfolding insert
  insert-storage_of v id es new =
      rw
        (
          length-backends_of es,
          emplace-new id (length es) (id_nodes es) new,
          emplace-new (length es) id (node_ids es) (find-node_ids es (length es) (omega arith)),
        )
        refl

  module _ (dec : Discrete V) (Storable : V → Type 0) (laws : BackendLaws ops Storable) where
    pub lookup-storage_of :
        (es : List (V × ℕ)) (v : V)
        → IsTable dec Storable es
        → Storable v
        → lookup ops (storage_of es) v ≡ find dec v es
    unfolding lookup find_entry find
    lookup-storage_of [] v t h = refl
    lookup-storage_of ((w, id) ∷ es) v (hw, fresh, new, t) h =
        ap (found_at ops v id (find_entry ops (backends_of ((w, id) ∷ es)) (node_ids es) v))
          (deref-length w es)
        ∙ ap (λ r. found_at ops v id r (some (ops.construct w)))
            (find_entry-older (ops.construct w) (backends_of es) es v
                (omega (arith, length-backends_of es))
              ∙ lookup-storage_of es v t h)
        ∙ elim (Bool-cases (matches ops v (ops.construct w))) [
          | inl e ↦ rw e (sym (if_pos (dec w v) (sym ((laws.matches-construct v w h hw).0 e)) _ _))
          | inr e ↦ rw e (
              sym (if_neg (dec w v) (λ q. cc ((laws.matches-construct v w h hw).1 (sym q), e)) _ _))
        ]

    -- Where the backend of a node in the table lies.
    Placed : List (V × ℕ) → V → ℕ → Type 0
    Placed es v id =
        (p : ℕ) × (find ℕ_discrete id (id_nodes es) ≡ some p)
        × (deref (backends_of es) p ≡ some (ops.construct v))

    find-Placed :
        (es : List (V × ℕ)) (v : V) (id : ℕ)
        → IsTable dec Storable es
        → find dec v es ≡ some id
        → Placed es v id
    unfolding Placed find
    find-Placed [] v id t e = cc
    find-Placed ((w, j) ∷ es) v id (hw, fresh, new, t) e = elim (dec w v) [
      | yes q ↦
          let same : j ≡ id = cc (if_pos (dec w v) q (some j) (find dec v es), e) in
          (
            length es,
            if_pos (ℕ_discrete j id) same _ _,
            subst (λ x. deref (backends_of ((w, j) ∷ es)) (length es) ≡ some (ops.construct x)) q
                (deref-length w es),
          )
      | no q ↦
          let (p, at_id, at_p) =
            find-Placed es v id t (sym (if_neg (dec w v) q (some j) (find dec v es)) ∙ e) in
          (
            p,
            if_neg (ℕ_discrete j id)
                  (λ same. cc (ap (λ x. find ℕ_discrete x (id_nodes es)) same, new, at_id)) _ _
                ∙ at_id,
            deref-older (ops.construct w) (backends_of es) p
                  (omega (arith, length-backends_of es, find-id_nodes-bound es id p at_id))
                ∙ at_p,
          )
    ]

    pub find_backend_view-storage_of :
        (es : List (V × ℕ)) (v : V) (id : ℕ)
        → IsTable dec Storable es
        → Storable v
        → find dec v es ≡ some id
        → find_backend_view ops (storage_of es) id ≡ ok v
    unfolding find_backend_view Placed
    find_backend_view-storage_of es v id t h e =
        let (p, at_id, at_p) = find-Placed es v id t e in
        rw (at_id, at_p, find_backend_view) (ap ok (laws.view-construct v h))
