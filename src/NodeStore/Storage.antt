-- ===== src/NodeStore/Storage.antt =====
-- `MetallNodeTypeStorage` and the templates of PersistentNodeStorageBackendImpl.cpp over it:
-- `lookup_or_insert_impl`, `find_backend_view`, `lookup_size`. One caller at a time: NodeStore/Threads has
-- the locks. An id is its `value()`.
use tentris.Base.{
  ℕ, Bool, ◌&&◌, Option, none, some, List, [], ◌∷◌, Result, ok, fail, out_of_range, null_pointer,
  if◌then◌else◌, ◌==◌, length, find, ℕ_discrete,
}
use tentris.NodeStore.Backends.{BackendOps}

-- `backends` is what the allocator holds, the newest first: the address of a backend is the number
-- of those allocated before it.
pub record Storage (B : Type 0) : Type 0 where
  pub backends : List B
  pub data2id : List (ℕ × ℕ)
  pub id2data : List (ℕ × ℕ)

abbrev pub empty_storage : {B : Type 0} → Storage B
empty_storage = record { backends = []; data2id = []; id2data = [] }

-- `*pointer`
unfoldable pub deref : {B : Type 0} → List B → ℕ → Option B
deref [] p = none
deref (b ∷ bs) p = let older = deref bs p in if length bs == p then some b else older

-- `emplace` adds nothing where the key has an entry.
abbrev pub emplace : ℕ → ℕ → List (ℕ × ℕ) → List (ℕ × ℕ)
emplace k v m = elim (find ℕ_discrete k m) [ some _ ↦ m | none ↦ (k, v) ∷ m ]

module _ {V B : Type 0} (ops : BackendOps V B) where
  -- What a lookup by a view tests: the hash of `BackendTypeHash`, then `BackendTypeEqual`.
  unfoldable pub matches : V → B → Bool
  matches v b = (ops.views.hash v == ops.hash_of b) && ops.views.same v (ops.view b)

  -- A null pointer matches nothing.
  abbrev pub found_at : V → ℕ → Option ℕ → Option B → Option ℕ
  found_at v id rest none = rest
  found_at v id rest (some b) = if matches v b then some id else rest

  -- `data2id.find(view)`
  unfoldable pub find_entry : List B → List (ℕ × ℕ) → V → Option ℕ
  find_entry bs [] v = none
  find_entry bs ((p, id) ∷ entries) v = found_at v id (find_entry bs entries v) (deref bs p)

  -- `lookup_or_insert_impl` with `create_if_not_present` false.
  unfoldable pub lookup : Storage B → V → Option ℕ
  lookup s v = find_entry s.backends s.data2id v

  -- The new backend, and its two entries.
  unfoldable pub insert : V → ℕ → Storage B → Storage B
  insert v id s =
      let mem = length s.backends in
      record {
        backends = ops.construct v ∷ s.backends;
        data2id = emplace mem id s.data2id;
        id2data = emplace id mem s.id2data;
      }

  -- `lookup_or_insert_impl` with `create_if_not_present` true. `next_id` is the function of the
  -- caller with the counter it increments.
  unfoldable pub lookup_or_insert : (V → ℕ → ℕ × ℕ) → V → Storage B × ℕ → ℕ × Storage B × ℕ
  lookup_or_insert next_id v (s, counter) = elim (lookup s v) [
    | some id ↦ (id, s, counter)
    | none ↦ let (id, counter') = next_id v counter in (id, insert v id s, counter')
  ]

  abbrev pub view_at : Option B → Result V
  view_at none = fail null_pointer
  view_at (some b) = ok (ops.view b)

  -- `BackendView(*storage.id2data.at(id))`
  unfoldable pub find_backend_view : Storage B → ℕ → Result V
  find_backend_view s id = elim (find ℕ_discrete id s.id2data) [
    | none ↦ fail out_of_range
    | some p ↦ view_at (deref s.backends p)
  ]

unfoldable pub lookup_size : {B : Type 0} → Storage B → ℕ
lookup_size s = length s.id2data
