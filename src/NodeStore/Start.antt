-- ===== src/NodeStore/Start.antt =====
-- The constructor of the node store.
use tentris.Base.{ℕ, ◌<◌, List, [], ◌∷◌, refl, sym, subst, All}
use tentris.Sparql.Syntax.{Text}
use tentris.NodeStore.Backends.{IriView, iri_backend}
use tentris.NodeStore.Refines.{IsTable, storage_of, insert-storage_of}
use tentris.NodeStore.Kept.{IsKept}
use tentris.NodeStore.Impl.{Ids, add_reserved, new_impl}
use tentris.NodeStore.Valid.{IdLaws, IsReserved, Valid, Everywhere, IriView-discrete}

module _ (ids : Ids) (laws : IdLaws ids) where
  add_reserved-IsKept :
      (reserved : List (Text × ℕ)) (es : List (IriView × ℕ))
      → IsReserved ids.min_iri_id reserved es
      → IsTable IriView-discrete Everywhere es
      → All (λ e. e.1 < ids.min_iri_id) es
      → IsKept
          (iri_backend ids.iri_views)
          IriView-discrete
          Everywhere
          (λ id. id)
          ids.min_iri_id
          (add_reserved ids reserved (storage_of (iri_backend ids.iri_views) es))
  unfolding add_reserved
  add_reserved-IsKept [] es r t b = record {
    entries = es;
    is_storage = refl;
    is_table = t;
    is_ranked = b;
  }
  add_reserved-IsKept ((text, id) ∷ rest) es (low, t', r) t b =
      subst
        (λ s.
          IsKept (iri_backend ids.iri_views) IriView-discrete Everywhere (λ id. id) ids.min_iri_id
            (add_reserved ids rest s))
        (sym
          (insert-storage_of (iri_backend ids.iri_views) (record { identifier = text }) id es t'.2))
        (add_reserved-IsKept rest ((record { identifier = text }, id) ∷ es) r t' (low, b))

  pub new_impl-Valid : Valid ids laws (new_impl ids)
  unfolding new_impl
  new_impl-Valid = record {
    bnodes_kept = record { entries = []; is_storage = refl; is_table = tt; is_ranked = tt };
    iris_kept = add_reserved-IsKept ids.reserved_datatype_ids [] laws.reserved tt tt;
    literals_kept = record { entries = []; is_storage = refl; is_table = tt; is_ranked = tt };
    variables_kept = record { entries = []; is_storage = refl; is_table = tt; is_ranked = tt };
  }
