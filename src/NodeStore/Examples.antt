-- ===== src/NodeStore/Examples.antt =====
-- The node store on a small instance of rdf4cpp, and each theorem at a concrete input.
use tentris.Base.{
  ℕ, inl, inr, suc, ◌+◌, ◌*◌, ◌/◌, ◌%◌, Bool, true, false, some, [], ◌∷◌, find, ℕ_discrete, ◌≡◌,
  refl, ◌↔◌, ite, arith,
}
use tentris.NodeStore.Threads.{
  Machine, calling, missed, found, finished, undefined, shared_hit, shared_miss, unique_hit,
  unique_miss, read, read_moved, thread_step, ThreadSteps, rest, later, finished_iff,
}
use tentris.NodeStore.Backends.{
  VariableView, MetallVariableBackend, BackendOps, variable_backend, variable_view, iri_backend,
  literal_backend, iri_view, literal_view,
}
use tentris.NodeStore.Storage.{
  Storage, empty_storage, deref, matches, find_entry, lookup, insert, lookup_or_insert, lookup_size,
}
use tentris.NodeStore.Impl.{
  next_id, Ids, Impl, size, NodeView, iri, literal, add_reserved, new_impl, find_or_make_id,
  find_id, make, handle,
}
use tentris.NodeStore.Valid.{
  Everywhere, variable_laws, next_id-IsMinting, IdLaws, IriView-discrete, BNodeView-discrete,
  LiteralView-discrete, VariableView-discrete,
}
use tentris.NodeStore.Calls.{ReadsBack}
use tentris.NodeStore.Runs.{
  call, Steps, stop, next, literals, Reachable, find_id-Steps, find_or_make_id-ReadsBack,
  find_id-injective, size-find_or_make_id,
}

abbrev same_by : {V : Type 0} → Discrete V → V → V → Bool
same_by dec v w = ite (dec v w) true false

same_by_iff : {V : Type 0} (dec : Discrete V) (v w : V) → (same_by dec v w ≡ true) ↔ (v ≡ w)
same_by_iff dec v w = ground arith

abbrev pub ids : Ids
ids = record {
  iri_views = record { hash = λ v. 7; same = same_by IriView-discrete };
  bnode_views = record { hash = λ v. 7; same = same_by BNodeView-discrete };
  literal_views = record { hash = λ v. v.datatype_id; same = same_by LiteralView-discrete };
  variable_views = record { hash = λ v. 7; same = same_by VariableView-discrete };
  min_iri_id = 10;
  min_bnode_id = 1;
  min_literal_id = 1;
  min_variable_id = 1;
  increment = suc;
  literal_node_id = λ c t. c * 64 + t % 64;
  iri_node_id_to_literal_type = λ id. id;
  reserved_datatype_ids = (b's' ∷ [], 1) ∷ (b'i' ∷ [], 2) ∷ [];
}

pub laws : IdLaws ids
unfolding find IriView-discrete ℕ_discrete
laws = record {
  iris_compare = λ v w hv hw. same_by_iff IriView-discrete v w;
  bnodes_compare = λ v w hv hw. same_by_iff BNodeView-discrete v w;
  literals_compare = λ v w hv hw. same_by_iff LiteralView-discrete v w;
  variables_compare = λ v w hv hw. same_by_iff VariableView-discrete v w;
  limit = 1000;
  increment-grows = λ c h. omega arith;
  literal_rank = λ id. id / 64;
  literal_rank-literal_node_id = λ c t h. omega arith;
  reserved = (
    omega arith,
    (tt, refl, refl, tt),
    (omega arith, (tt, refl, refl, (tt, refl, refl, tt)), tt),
  );
}

program : Unit {0}
unfolding handle find_or_make_id find_id size lookup_size lookup_or_insert lookup find_entry
    new_impl add_reserved insert find deref matches iri_backend literal_backend iri_view
    literal_view IriView-discrete LiteralView-discrete ℕ_discrete
program = tt

abbrev pub hi : NodeView
hi = literal (record {
  datatype_id = 1;
  lexical_form = b'h' ∷ b'i' ∷ [];
  language_tag = [];
  needs_escape = false;
})

abbrev pub p : NodeView
p = iri (record { identifier = b'p' ∷ [] })

-- After a call for `hi`, and after one for `p` as well.
abbrev pub first : Impl
first = (find_or_make_id ids hi (new_impl ids)).1

abbrev pub second : Impl
second = (find_or_make_id ids p first).1

first-Reachable : Reachable ids laws first
unfolding program laws
first-Reachable = next stop (call (make hi) (new_impl ids) 65 first (tt, omega arith) refl)

first-second : Steps ids laws first second
unfolding program laws
first-second = next stop (call (make p) first 10 second (tt, omega arith) refl)

pub second-Reachable : Reachable ids laws second
unfolding program laws
second-Reachable = next first-Reachable (call (make p) first 10 second (tt, omega arith) refl)

pub find-second : (find_id ids hi second ≡ some 65) × (find_id ids p second ≡ some 10)
unfolding program laws
find-second = (refl, refl)

find-hi : find_id ids hi first ≡ some 65
unfolding program laws
find-hi = refl

find_id-Steps_example : find_id ids hi second ≡ some 65
find_id-Steps_example =
    find_id-Steps ids laws first second hi 65 first-Reachable first-second tt find-hi

find_or_make_id-ReadsBack_example :
    (find_id ids p second ≡ some (find_or_make_id ids p first).0)
    × ReadsBack ids p (find_or_make_id ids p first).0 second
unfolding program laws
find_or_make_id-ReadsBack_example =
    find_or_make_id-ReadsBack ids laws first p first-Reachable tt (omega arith)

find_id-injective_example : hi ≡ hi
find_id-injective_example =
    find_id-injective ids laws first hi hi 65 first-Reachable (literals _ _) tt tt find-hi find-hi

size-find_or_make_id_example : size second ≡ suc (size first)
unfolding program laws
size-find_or_make_id_example =
    size-find_or_make_id ids laws first p first-Reachable tt (omega arith)

-- Two threads that call for one variable: both miss, and the second finds what the first inserts.
abbrev x : VariableView
x = record { name = b'x' ∷ []; is_anonymous = false }

abbrev variables : BackendOps VariableView MetallVariableBackend
variables = variable_backend ids.variable_views

abbrev calling_both : Machine VariableView MetallVariableBackend
calling_both = record { threads = calling x ∷ calling x ∷ []; storage = empty_storage; counter = 1 }

abbrev finished_both : Machine VariableView MetallVariableBackend
finished_both = record {
  threads = finished x 1 ∷ finished x 1 ∷ [];
  storage = insert variables x 1 empty_storage;
  counter = 2;
}

race : ThreadSteps variables (next_id ids) laws.limit calling_both finished_both
unfolding program laws variable_backend variable_view VariableView-discrete
race =
    let s = insert variables x 1 empty_storage in
    later
      (later
        (later
          (later
            (later rest
              (thread_step [] (calling x ∷ []) _ _ _ _ _ _ (shared_miss x empty_storage 1 refl)))
            (thread_step (missed x ∷ []) [] _ _ _ _ _ _ (shared_miss x empty_storage 1 refl)))
          (thread_step [] (missed x ∷ []) _ _ _ _ _ _
            (unique_miss x empty_storage 1 1 s 2 refl (omega arith) refl)))
        (thread_step (finished x 1 ∷ []) [] _ _ _ _ _ _ (unique_hit x 1 s 2 refl)))
      (thread_step (finished x 1 ∷ []) [] _ _ _ _ _ _ (read x 1 1 s 2 refl))

finished_iff_example : (x ≡ x) ↔ (◌≡◌ {A = ℕ} 1 1)
finished_iff_example =
    finished_iff variables VariableView-discrete Everywhere (λ id. id)
      (variable_laws ids.variable_views laws.variables_compare) (next_id ids) laws.limit
      (next_id-IsMinting ids laws) calling_both finished_both x x 1 1
      (record { entries = []; is_storage = refl; is_table = tt; is_ranked = tt }) (tt, (tt, tt))
      race (tt, (tt, tt)) (inl refl) (inr (inl refl))

-- A thread that finds its variable and reads its id after another has inserted a second one.
abbrev y : VariableView
y = record { name = b'y' ∷ []; is_anonymous = false }

abbrev with_x : Storage MetallVariableBackend
with_x = insert variables x 1 empty_storage

moved :
    ThreadSteps variables
      (next_id ids)
      laws.limit
      (record { threads = calling x ∷ calling y ∷ []; storage = with_x; counter = 2 })
      (record {
        threads = undefined x ∷ finished y 2 ∷ [];
        storage = insert variables y 2 with_x;
        counter = 3;
      })
unfolding program laws variable_backend variable_view VariableView-discrete
moved =
    later
      (later
        (later
          (later rest (thread_step [] (calling y ∷ []) _ _ _ _ _ _ (shared_hit x 1 with_x 2 refl)))
          (thread_step (found x 1 1 ∷ []) [] _ _ _ _ _ _ (shared_miss y with_x 2 refl)))
        (thread_step (found x 1 1 ∷ []) [] _ _ _ _ _ _
          (unique_miss y with_x 2 2 (insert variables y 2 with_x) 3 refl (omega arith) refl)))
      (thread_step [] (finished y 2 ∷ []) _ _ _ _ _ _
        (read_moved x 1 1 (insert variables y 2 with_x) 3 (λ e. omega (arith, e))))
