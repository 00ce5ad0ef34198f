-- ===== src/Programs/Stores.antt =====
-- Facts on data stores: what their operations do to the hypertrie that they hold.
use tentris.Base.{
  true, false, Option, none, some, Option-cases, ◌⊎◌, inl, inr, if◌then◌else◌, ◌≡◌, refl, sym, ap,
  ◌∙◌, subst, if_pos, if_neg,
}
use tentris.Sparql.Syntax.{Text, Text-discrete}
use tentris.NodeStore.Impl.{Impl}
use tentris.Programs.Options.{snapshot_path}
use tentris.Programs.Options.Paths.{snapshot_path-other}
use tentris.Programs.Metall.{MetallOps, MetallLaws, node_store_in, context_in, tensor_in}

module _ {D M H : Type 0} (metall : MetallOps D M H) (laws : MetallLaws metall) where
  pub find_tensor-node_store_in :
      (s : Impl) (m : M) → metall.find_tensor (node_store_in metall s m) ≡ metall.find_tensor m
  unfolding node_store_in
  find_tensor-node_store_in s m =
      elim (metall.find_node_store m)
        as (λ (o : Option Impl).
          metall.find_tensor (elim o [ none ↦ metall.construct_node_store s m | some _ ↦ m ])
          ≡ metall.find_tensor m) [
            | none ↦ laws.find_tensor-construct_node_store s m
            | some _ ↦ refl
          ]

  pub find_tensor-context_in :
      (m : M) → metall.find_tensor (context_in metall m) ≡ metall.find_tensor m
  unfolding context_in
  find_tensor-context_in m =
      elim (metall.find_context m)
        as (λ b.
          metall.find_tensor (if b then m else metall.construct_context m) ≡ metall.find_tensor m) [
            | true ↦ refl
            | false ↦ laws.find_tensor-construct_context m
          ]

  pub tensor_in-new :
      (m : M)
      → metall.find_tensor m ≡ none
      → tensor_in metall m ≡ (metall.new_tensor, metall.write_tensor metall.new_tensor m)
  unfolding tensor_in
  tensor_in-new m e =
      ap
        (λ (o : Option H). elim o [
          | none ↦ (metall.new_tensor, metall.write_tensor metall.new_tensor m)
          | some h ↦ (h, m)
        ])
        e

  -- The disk has the hypertrie at a path and in its snapshot.
  abbrev pub Stored : Text → H → D → Type 0
  Stored path h d =
      (laws.tensor_at path d ≡ some (some h))
      × (laws.tensor_at (snapshot_path path) d ≡ some (some h))

  -- The disk after the block that creates the snapshot.
  pub snapshot-Stored :
      (path to : Text) (d : D) (m : M) (h : H)
      → to ≡ snapshot_path path
      → metall.exists path d ≡ true
      → metall.exists (snapshot_path path) d ≡ false
      → metall.find_tensor m ≡ some h
      → let closed = metall.destroy path m d in
        Stored path h (metall.snapshot to (metall.open_read_only path closed) closed)
  snapshot-Stored path to d m h same made fresh found =
      let closed = metall.destroy path m d in
      let reader = metall.open_read_only path closed in
      let at_path : laws.tensor_at path closed ≡ some (some h) =
        laws.tensor_at-destroy path path m d
        ∙ if_pos (Text-discrete path path) refl _ _
        ∙ ap some found in
      subst (λ (p : Text). Stored path h (metall.snapshot p reader closed)) (sym same)
        (
          laws.tensor_at-snapshot_other (snapshot_path path) path reader closed
                (snapshot_path-other path)
              ∙ at_path,
          laws.tensor_at-snapshot (snapshot_path path) reader closed
                (laws.exists-destroy path (snapshot_path path) m d made ∙ fresh)
              ∙ ap some (laws.find_tensor-open_read_only path closed (some h) at_path),
        )

  -- The state in which the loader starts to load.
  abbrev pub opened : Text → D → M × D
  opened path d = metall.open_only path (metall.create_only path d)

  pub opened-fresh :
      (path : Text) (d : D)
      → metall.exists path d ≡ false
      → metall.exists (snapshot_path path) d ≡ false
      → (metall.find_tensor (opened path d).0 ≡ none)
        × (metall.exists path (opened path d).1 ≡ true)
        × (metall.exists (snapshot_path path) (opened path d).1 ≡ false)
  opened-fresh path d fresh no_snapshot =
      let created = metall.create_only path d in
      let made : metall.exists path created ≡ true =
        laws.exists-create_only path path d ∙ if_pos (Text-discrete path path) refl _ _ in
      (
        laws.find_tensor-open_only path created none (
            laws.tensor_at-create_only path path d fresh
            ∙ if_pos (Text-discrete path path) refl _ _),
        laws.exists-open_only path path created made ∙ made,
        laws.exists-open_only path (snapshot_path path) created made
            ∙ laws.exists-create_only path (snapshot_path path) d
            ∙ if_neg (Text-discrete path (snapshot_path path))
                (λ e. snapshot_path-other path (sym e)) _ _
            ∙ no_snapshot,
      )

  -- What the loader leaves if it ends there is no data store, and nor is its snapshot.
  pub opened-unavailable :
      (path : Text) (d : D)
      → metall.exists path d ≡ false
      → metall.exists (snapshot_path path) d ≡ false
      → (metall.exists path (opened path d).1 ≡ true)
        × (laws.tensor_at path (opened path d).1 ≡ none)
        × (laws.tensor_at (snapshot_path path) (opened path d).1 ≡ none)
  opened-unavailable path d fresh no_snapshot =
      let (no_tensor, made, still) = opened-fresh path d fresh no_snapshot in
      let left = (opened path d).1 in
      (
        made,
        laws.tensor_at-open_only path path (metall.create_only path d)
            ∙ if_pos (Text-discrete path path) refl _ _,
        elim (Option-cases (laws.tensor_at (snapshot_path path) left)) [
          | inl e ↦ e
          | inr (o, e) ↦ cc (laws.exists-some (snapshot_path path) left o e, still)
        ],
      )

  -- What may happen to the disk in between: the data store is as it was, or it is lost and its snapshot
  -- is as it was.
  abbrev pub Survives : Text → D → D → Type 0
  Survives path d d' =
      (laws.tensor_at path d' ≡ laws.tensor_at path d)
      ⊎ ((laws.tensor_at path d' ≡ none)
          × (metall.exists path d' ≡ false)
          × (laws.tensor_at (snapshot_path path) d' ≡ laws.tensor_at (snapshot_path path) d))
