-- ===== src/NodeStore/Kept.antt =====
-- One storage with the counter of its ids: what `lookup_or_insert_impl` keeps and what it promises.
use tentris.Base.{
  suc, length, ℕ, ◌<◌, ◌≤◌, none, some, List, [], ◌∷◌, ok, find, ℕ_discrete, ◌≡◌, refl, sym, ap,
  ◌∙◌, if_pos, if_neg, Option-cases, inl, inr, arith, All,
}
use tentris.NodeStore.Backends.{BackendOps}
use tentris.NodeStore.Storage.{
  Storage, lookup_size, lookup, insert, lookup_or_insert, find_backend_view,
}
use tentris.NodeStore.Refines.{
  BackendLaws, id_nodes, IsTable, storage_of, insert-storage_of, lookup-storage_of,
  find_backend_view-storage_of,
}

-- How the ids of one storage are made: the new id shows the counter it was made from, and the
-- counter grows while it is below the limit.
pub record IsMinting {V : Type 0} (next_id : V → ℕ → ℕ × ℕ) (rank : ℕ → ℕ) (limit : ℕ)
    : Type 0 where
  pub rank_of : (v : V) (c : ℕ) → c < limit → rank (next_id v c).0 ≡ c
  pub grows : (v : V) (c : ℕ) → c < limit → c < (next_id v c).1

module _ {V B : Type 0} (ops : BackendOps V B) (dec : Discrete V) (Storable : V → Type 0)
    (rank : ℕ → ℕ) where
  -- Every id has been made from a smaller counter.
  abbrev pub Ranked : ℕ → List (V × ℕ) → Type 0
  Ranked c es = All (λ e. rank e.1 < c) es

  -- The storage is that of a table, whose ids are below the counter.
  pub record IsKept (c : ℕ) (s : Storage B) : Type 0 where
    pub entries : List (V × ℕ)
    pub is_storage : s ≡ storage_of ops entries
    pub is_table : IsTable dec Storable entries
    pub is_ranked : Ranked c entries

  Ranked-grows : (c d : ℕ) (es : List (V × ℕ)) → c ≤ d → Ranked c es → Ranked d es
  Ranked-grows c d [] h r = tt
  Ranked-grows c d (e ∷ es) h (r, rs) = (omega (arith, r), Ranked-grows c d es h rs)

  -- An id made from the counter or later is new.
  Ranked-new :
      (c id : ℕ) (es : List (V × ℕ))
      → Ranked c es
      → c ≤ rank id
      → find ℕ_discrete id (id_nodes es) ≡ none
  unfolding find
  Ranked-new c id [] r h = refl
  Ranked-new c id ((v, j) ∷ es) (r, rs) h = elim (ℕ_discrete j id) [
    | yes e ↦ absurd (omega (arith, ap rank e, r))
    | no ne ↦ if_neg (ℕ_discrete j id) ne _ _ ∙ Ranked-new c id es rs h
  ]

  length-id_nodes : (es : List (V × ℕ)) → length (id_nodes es) ≡ length es
  length-id_nodes [] = refl
  length-id_nodes (e ∷ es) = ap suc (length-id_nodes es)

  length-IsKept : (c : ℕ) (s : Storage B) (k : IsKept c s) → lookup_size s ≡ length k.entries
  unfolding lookup_size
  length-IsKept c s k = ap (λ t. length t.id2data) k.is_storage ∙ length-id_nodes k.entries

  -- What a call promises: the id is found and read back, and every other node keeps its id.
  pub record Promise (v : V) (c : ℕ) (s : Storage B) (id : ℕ) (s' : Storage B) (c' : ℕ)
      : Type 0 where
    pub kept : IsKept c' s'
    pub found : lookup ops s' v ≡ some id
    pub read_back : find_backend_view ops s' id ≡ ok v
    pub others_kept :
        (w : V) (j : ℕ) → Storable w → lookup ops s w ≡ some j → lookup ops s' w ≡ some j
    pub not_lower : c ≤ c'
    pub unchanged : (j : ℕ) → lookup ops s v ≡ some j → (id ≡ j) × (s' ≡ s) × (c' ≡ c)
    pub counted : lookup ops s v ≡ none → lookup_size s' ≡ suc (lookup_size s)

  module _ (laws : BackendLaws ops Storable) where
    -- A lookup in the hash maps is one in the table.
    pub lookup-IsKept :
        (c : ℕ) (s : Storage B) (k : IsKept c s) (w : V)
        → Storable w
        → lookup ops s w ≡ find dec w k.entries
    lookup-IsKept c s k w h =
        ap (λ t. lookup ops t w) k.is_storage
        ∙ lookup-storage_of ops dec Storable laws k.entries w k.is_table h

    pub read_back-IsKept :
        (c : ℕ) (s : Storage B) (v : V) (id : ℕ)
        → IsKept c s
        → Storable v
        → lookup ops s v ≡ some id
        → find_backend_view ops s id ≡ ok v
    read_back-IsKept c s v id k hv e =
        ap (λ t. find_backend_view ops t id) k.is_storage
        ∙ find_backend_view-storage_of ops dec Storable laws k.entries v id k.is_table hv
            (sym (lookup-IsKept c s k v hv) ∙ e)

    insert-IsKept :
        (v : V) (c c' : ℕ) (s : Storage B) (id : ℕ)
        → Storable v
        → (k : IsKept c s) → lookup ops s v ≡ none
        → c ≤ rank id
        → rank id < c'
        → (k' : IsKept c' (insert ops v id s)) × (k'.entries ≡ (v, id) ∷ k.entries)
    insert-IsKept v c c' s id hv k e low high =
        let new = Ranked-new c id k.entries k.is_ranked low in
        (
          record {
            entries = (v, id) ∷ k.entries;
            is_storage =
                ap (insert ops v id) k.is_storage ∙ insert-storage_of ops v id k.entries new;
            is_table = (hv, sym (lookup-IsKept c s k v hv) ∙ e, new, k.is_table);
            is_ranked = (high, Ranked-grows c c' k.entries (omega arith) k.is_ranked);
          },
          refl,
        )

    -- A new entry does not hide another node's.
    insert-others :
        (v : V) (c c' : ℕ) (s : Storage B) (id : ℕ) (k : IsKept c s)
        (k' : IsKept c' (insert ops v id s))
        → k'.entries ≡ (v, id) ∷ k.entries
        → lookup ops s v ≡ none
        → (w : V) (j : ℕ) → Storable w
        → lookup ops s w ≡ some j
        → lookup ops (insert ops v id s) w ≡ some j
    unfolding find
    insert-others v c c' s id k k' same e w j hw e' =
        lookup-IsKept c' _ k' w hw
        ∙ ap (find dec w) same
        ∙ if_neg (dec v w) (λ q. cc (ap (lookup ops s) q, e, e')) _ _
        ∙ sym (lookup-IsKept c s k w hw)
        ∙ e'

    module _ (next_id : V → ℕ → ℕ × ℕ) (limit : ℕ) (minting : IsMinting next_id rank limit) where
      pub lookup_or_insert-Promise :
          (v : V) (c : ℕ) (s : Storage B)
          → Storable v
          → c < limit
          → IsKept c s
          → let r = lookup_or_insert ops next_id v (s, c) in Promise v c s r.0 r.1 r.2
      unfolding lookup_or_insert find
      lookup_or_insert-Promise v c s hv below k = elim (Option-cases (lookup ops s v)) [
        | inr (id, e) ↦
            rw (e, lookup_or_insert)
              (record {
                kept = k;
                found = e;
                read_back = read_back-IsKept c s v id k hv e;
                others_kept = λ w j hw e'. e';
                not_lower = omega arith;
                unchanged = λ j e'. (cc (e, e'), refl, refl);
                counted = λ e'. cc (e, e');
              })
        | inl e ↦
            let (id, c') = next_id v c in
            let (k', same) =
              insert-IsKept v c c' s id hv k e (omega (arith, minting.rank_of v c below))
                (omega (arith, minting.rank_of v c below, minting.grows v c below)) in
            let found : lookup ops (insert ops v id s) v ≡ some id =
              lookup-IsKept c' _ k' v hv ∙ ap (find dec v) same ∙ if_pos (dec v v) refl _ _ in
            rw (e, lookup_or_insert)
              (record {
                kept = k';
                found = found;
                read_back = read_back-IsKept c' _ v id k' hv found;
                others_kept = insert-others v c c' s id k k' same e;
                not_lower = omega (arith, minting.grows v c below);
                unchanged = λ j e'. cc (e, e');
                counted = λ e'.
                    length-IsKept c' _ k' ∙ ap length same ∙ ap suc (sym (length-IsKept c s k));
              })
      ]
