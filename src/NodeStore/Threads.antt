-- ===== src/NodeStore/Threads.antt =====
-- `lookup_or_insert_impl` by several threads: each of its two locked sections is one step, and so is the
-- read of `found->second` after the unlock; other threads may step in between.
use tentris.Base.{
  ℕ, ◌<◌, none, some, List, [], ◌∷◌, ◌++◌, In, All, All-In, All-append, All-map, ◌≡◌, sym, ap, ◌∙◌,
  ◌↔◌, ◌≢◌, length, Result, ok, fail, subst,
}
use tentris.NodeStore.Backends.{BackendOps}
use tentris.NodeStore.Storage.{Storage, lookup, lookup_or_insert, find_backend_view}
use tentris.NodeStore.Refines.{BackendLaws}
use tentris.NodeStore.Kept.{IsMinting, IsKept, read_back-IsKept, lookup_or_insert-Promise}

-- A thread before its shared lock, between its two locks, after its last unlock with an iterator, and
-- with its result. `found` has the id that the iterator pointed to, and the size that the map had. A
-- thread that has read an iterator after an insertion is `undefined`: the insertion may have moved the
-- entries of the map.
pub data Thread (V : Type 0) : Type 0 where
  calling : V → Thread V
  missed : V → Thread V
  found : V → ℕ → ℕ → Thread V
  finished : V → ℕ → Thread V
  undefined : V → Thread V

pub record Machine (V B : Type 0) : Type 0 where
  pub threads : List (Thread V)
  pub storage : Storage B
  pub counter : ℕ

module _ {V B : Type 0} (ops : BackendOps V B) (next_id : V → ℕ → ℕ × ℕ) (limit : ℕ) where
  -- The section under the shared lock finds the node or not. The one under the unique lock looks again,
  -- and inserts what it does not find, as `lookup_or_insert` does. A thread that has found its node
  -- reads the id after the unlock.
  pub data Section : Thread V → Storage B → ℕ → Thread V → Storage B → ℕ → Type 0 where
    shared_hit :
        (v : V) (id : ℕ) (s : Storage B) (c : ℕ)
        → lookup ops s v ≡ some id
        → Section (calling v) s c (found v id (length s.data2id)) s c
    shared_miss :
        (v : V) (s : Storage B) (c : ℕ)
        → lookup ops s v ≡ none
        → Section (calling v) s c (missed v) s c
    unique_hit :
        (v : V) (id : ℕ) (s : Storage B) (c : ℕ)
        → lookup ops s v ≡ some id
        → Section (missed v) s c (found v id (length s.data2id)) s c
    unique_miss :
        (v : V) (s : Storage B) (c : ℕ) (id : ℕ) (s' : Storage B) (c' : ℕ)
        → lookup ops s v ≡ none
        → c < limit
        → lookup_or_insert ops next_id v (s, c) ≡ (id, s', c')
        → Section (missed v) s c (finished v id) s' c'
    read :
        (v : V) (id size : ℕ) (s : Storage B) (c : ℕ)
        → length s.data2id ≡ size
        → Section (found v id size) s c (finished v id) s c
    read_moved :
        (v : V) (id size : ℕ) (s : Storage B) (c : ℕ)
        → length s.data2id ≢ size
        → Section (found v id size) s c (undefined v) s c

  -- One thread makes a step.
  pub data ThreadStep : Machine V B → Machine V B → Type 0 where
    thread_step :
        (front back : List (Thread V)) (t t' : Thread V) (s s' : Storage B) (c c' : ℕ)
        → Section t s c t' s' c'
        → ThreadStep
            (record { threads = front ++ t ∷ back; storage = s; counter = c })
            (record { threads = front ++ t' ∷ back; storage = s'; counter = c' })

  pub data ThreadSteps (m : Machine V B) : Machine V B → Type 0 where
    rest : ThreadSteps m m
    later : {m' m'' : Machine V B} → ThreadSteps m m' → ThreadStep m' m'' → ThreadSteps m m''

-- No thread has read an iterator that may have been moved.
abbrev pub IsDefined : {V : Type 0} → Thread V → Type 0
IsDefined (undefined v) = ⊥
IsDefined _ = Unit

-- No thread has begun.
abbrev pub AllCalling : {V : Type 0} → (V → Type 0) → List (Thread V) → Type 0
AllCalling Storable [] = Unit
AllCalling Storable (calling v ∷ ts) = Storable v × AllCalling Storable ts
AllCalling Storable (_ ∷ ts) = ⊥

module _ {V B : Type 0} (ops : BackendOps V B) (dec : Discrete V) (Storable : V → Type 0)
    (rank : ℕ → ℕ) (laws : BackendLaws ops Storable) (next_id : V → ℕ → ℕ × ℕ) (limit : ℕ)
    (minting : IsMinting next_id rank limit) where
  -- A thread's node can be kept, and its result is the id that the storage has.
  abbrev pub Sound : Storage B → Thread V → Type 0
  Sound s (calling v) = Storable v
  Sound s (missed v) = Storable v
  Sound s (found v id size) = Storable v × (lookup ops s v ≡ some id)
  Sound s (undefined v) = Unit
  Sound s (finished v id) = Storable v × (lookup ops s v ≡ some id)

  pub record IsSound (m : Machine V B) : Type 0 where
    pub kept : IsKept ops dec Storable rank m.counter m.storage
    pub sound : All (Sound m.storage) m.threads

  abbrev KeepsLookups : Storage B → Storage B → Type 0
  KeepsLookups s s' =
      (w : V) (j : ℕ) → Storable w → lookup ops s w ≡ some j → lookup ops s' w ≡ some j

  Sound-KeepsLookups :
      (s s' : Storage B) → KeepsLookups s s' → (t : Thread V) → Sound s t → Sound s' t
  Sound-KeepsLookups s s' k (calling v) h = h
  Sound-KeepsLookups s s' k (missed v) h = h
  Sound-KeepsLookups s s' k (found v id size) (h, e) = (h, k v id h e)
  Sound-KeepsLookups s s' k (undefined v) h = h
  Sound-KeepsLookups s s' k (finished v id) (h, e) = (h, k v id h e)

  Section-Sound :
      {t t' : Thread V} {s s' : Storage B} {c c' : ℕ}
      → Section ops next_id limit t s c t' s' c'
      → IsKept ops dec Storable rank c s
      → Sound s t
      → IsKept ops dec Storable rank c' s' × Sound s' t' × KeepsLookups s s'
  Section-Sound (shared_hit v id s c e) k h = (k, (h, e), λ w j hw e'. e')
  Section-Sound (shared_miss v s c e) k h = (k, h, λ w j hw e'. e')
  Section-Sound (unique_hit v id s c e) k h = (k, (h, e), λ w j hw e'. e')
  Section-Sound (read v id size s c same) k h = (k, h, λ w j hw e'. e')
  Section-Sound (read_moved v id size s c moved) k h = (k, tt, λ w j hw e'. e')
  Section-Sound (unique_miss v s c id s' c' absent below e) k h =
      subst
        (λ r.
          IsKept ops dec Storable rank r.2 r.1 × Sound r.1 (finished v r.0) × KeepsLookups s r.1)
        e
        (let p =
            lookup_or_insert-Promise ops dec Storable rank laws next_id limit minting v c s h below
              k in
          (p.kept, (h, p.found), p.others_kept))

  All-split :
      {A : Type 0} (P : A → Type 0) (front back : List A) (t : A)
      → All P (front ++ t ∷ back)
      → All P front × P t × All P back
  All-split P [] back t (h, hs) = (tt, h, hs)
  All-split P (x ∷ front) back t (h, hs) =
      let (f, p, b) = All-split P front back t hs in ((h, f), p, b)

  ThreadStep-IsSound :
      {m m' : Machine V B} → ThreadStep ops next_id limit m m' → IsSound m → IsSound m'
  ThreadStep-IsSound (thread_step front back t t' s s' c c' section) h =
      let (f, p, b) = All-split (Sound s) front back t h.sound in
      let (k, p', keeps) = Section-Sound section h.kept p in
      record {
        kept = k;
        sound =
            All-append (Sound s') front (t' ∷ back)
              (All-map front (Sound-KeepsLookups s s' keeps) f)
              (p', All-map back (Sound-KeepsLookups s s' keeps) b);
      }

  ThreadSteps-IsSound :
      {m m' : Machine V B} → ThreadSteps ops next_id limit m m' → IsSound m → IsSound m'
  ThreadSteps-IsSound rest h = h
  ThreadSteps-IsSound (later steps step) h = ThreadStep-IsSound step (ThreadSteps-IsSound steps h)

  AllCalling-Sound :
      (s : Storage B) (ts : List (Thread V)) → AllCalling Storable ts → All (Sound s) ts
  AllCalling-Sound s [] h = tt
  AllCalling-Sound s (calling v ∷ ts) (h, hs) = (h, AllCalling-Sound s ts hs)
  AllCalling-Sound s (missed v ∷ ts) h = absurd h
  AllCalling-Sound s (finished v id ∷ ts) h = absurd h
  AllCalling-Sound s (found v id size ∷ ts) h = absurd h
  AllCalling-Sound s (undefined v ∷ ts) h = absurd h

  value : V → Result V → V
  value d (ok x) = x
  value d (fail f) = d

  -- From a storage that calls one at a time have left, and however the locked sections of the threads
  -- and their reads after the unlock interleave while ids are left: unless a thread has read an iterator
  -- after another thread's insertion, which C++ leaves undefined, two threads that have finished have
  -- the same id if and only if they called for the same node.
  pub finished_iff :
      (m m' : Machine V B) (v w : V) (i j : ℕ)
      → IsKept ops dec Storable rank m.counter m.storage
      → AllCalling Storable m.threads
      → ThreadSteps ops next_id limit m m'
      → All IsDefined m'.threads
      → In (finished v i) m'.threads
      → In (finished w j) m'.threads
      → (v ≡ w) ↔ (i ≡ j)
  unfolding value
  finished_iff m m' v w i j k calls steps defined a b =
      let h =
        ThreadSteps-IsSound steps
          (record { kept = k; sound = AllCalling-Sound m.storage m.threads calls }) in
      let (hv, p) = All-In (Sound m'.storage) m'.threads h.sound a in
      let (hw, q) = All-In (Sound m'.storage) m'.threads h.sound b in
      (
        (λ e. cc (e, p, q)),
        (λ e. ap (value v) (
            sym (read_back-IsKept ops dec Storable rank laws m'.counter m'.storage v i h.kept hv p)
            ∙ ap (find_backend_view ops m'.storage) e
            ∙ read_back-IsKept ops dec Storable rank laws m'.counter m'.storage w j h.kept hw q)),
      )
