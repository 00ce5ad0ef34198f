-- ===== src/Programs/Metall.antt =====
-- The package metall as a parameter: data stores on a disk `D`, and managers `M` of open ones. A data
-- store holds the node store, the context of the hypertries and the hypertrie `rdf-tensor`, each found
-- by its name.
use tentris.Base.{Bool, true, false, Option, none, some, ◌≡◌, ◌≢◌, ite, if◌then◌else◌}
use tentris.Sparql.Syntax.{Text, Text-discrete}
use tentris.NodeStore.Impl.{Impl}

pub record MetallOps (D M H : Type 0) : Type 0 where
  -- `fs::exists` and `consistent`
  pub exists : Text → D → Bool
  pub consistent : Text → D → Bool
  -- a manager by `create_only`, destroyed at once
  pub create_only : Text → D → D
  pub open_only : Text → D → M × D
  pub open_read_only : Text → D → M
  -- the destructor of the manager of a path
  pub destroy : Text → M → D → D
  -- `snapshot` of a manager to a path
  pub snapshot : Text → M → D → D
  -- `find` and `construct` by the names of the three objects
  pub find_node_store : M → Option Impl
  pub construct_node_store : Impl → M → M
  pub find_context : M → Bool
  pub construct_context : M → M
  pub find_tensor : M → Option H
  -- constructs the hypertrie, or changes it in place
  pub write_tensor : H → M → M
  -- a new `BoolHypertrie` of depth 3
  pub new_tensor : H

-- What metall documents. `tensor_at` is the hypertrie that a consistent data store at a path has.
pub record MetallLaws {D M H : Type 0} (metall : MetallOps D M H) : Type 0 where
  pub tensor_at : Text → D → Option (Option H)
  pub consistent-none : (p : Text) (d : D) → tensor_at p d ≡ none → metall.consistent p d ≡ false
  pub consistent-some :
      (p : Text) (d : D) (o : Option H) → tensor_at p d ≡ some o → metall.consistent p d ≡ true
  pub exists-some :
      (p : Text) (d : D) (o : Option H) → tensor_at p d ≡ some o → metall.exists p d ≡ true
  pub tensor_at-create_only :
      (p q : Text) (d : D)
      → metall.exists p d ≡ false
      → tensor_at q (metall.create_only p d) ≡ ite (Text-discrete p q) (some none) (tensor_at q d)
  pub exists-create_only :
      (p q : Text) (d : D)
      → metall.exists q (metall.create_only p d) ≡ ite (Text-discrete p q) true (metall.exists q d)
  -- An open data store counts as consistent only when its manager is destroyed.
  pub tensor_at-open_only :
      (p q : Text) (d : D)
      → tensor_at q (metall.open_only p d).1 ≡ ite (Text-discrete p q) none (tensor_at q d)
  pub exists-open_only :
      (p q : Text) (d : D)
      → metall.exists p d ≡ true
      → metall.exists q (metall.open_only p d).1 ≡ metall.exists q d
  pub find_tensor-open_only :
      (p : Text) (d : D) (o : Option H)
      → tensor_at p d ≡ some o
      → metall.find_tensor (metall.open_only p d).0 ≡ o
  pub find_tensor-open_read_only :
      (p : Text) (d : D) (o : Option H)
      → tensor_at p d ≡ some o
      → metall.find_tensor (metall.open_read_only p d) ≡ o
  pub tensor_at-destroy :
      (p q : Text) (m : M) (d : D)
      → tensor_at q (metall.destroy p m d)
        ≡ ite (Text-discrete p q) (some (metall.find_tensor m)) (tensor_at q d)
  pub exists-destroy :
      (p q : Text) (m : M) (d : D)
      → metall.exists p d ≡ true
      → metall.exists q (metall.destroy p m d) ≡ metall.exists q d
  -- A snapshot to a path where nothing is.
  pub tensor_at-snapshot :
      (p : Text) (m : M) (d : D)
      → metall.exists p d ≡ false
      → tensor_at p (metall.snapshot p m d) ≡ some (metall.find_tensor m)
  pub tensor_at-snapshot_other :
      (p q : Text) (m : M) (d : D) → p ≢ q → tensor_at q (metall.snapshot p m d) ≡ tensor_at q d
  pub find_tensor-construct_node_store :
      (s : Impl) (m : M)
      → metall.find_tensor (metall.construct_node_store s m) ≡ metall.find_tensor m
  pub find_tensor-construct_context :
      (m : M) → metall.find_tensor (metall.construct_context m) ≡ metall.find_tensor m
  pub find_tensor-write_tensor :
      (h : H) (m : M) → metall.find_tensor (metall.write_tensor h m) ≡ some h

module _ {D M H : Type 0} (metall : MetallOps D M H) where
  -- `find_or_construct` of each object.
  unfoldable pub node_store_in : Impl → M → M
  node_store_in new m = elim (metall.find_node_store m) [
    | none ↦ metall.construct_node_store new m
    | some s ↦ m
  ]

  unfoldable pub context_in : M → M
  context_in m = if metall.find_context m then m else metall.construct_context m

  unfoldable pub tensor_in : M → H × M
  tensor_in m = elim (metall.find_tensor m) [
    | none ↦ (metall.new_tensor, metall.write_tensor metall.new_tensor m)
    | some h ↦ (h, m)
  ]
