-- ===== src/TripleStore/Store.antt =====
-- `TripleStore`: loading, evaluation and counting. The evaluation of a query by the packages
-- hypertrie and query is a parameter.
pub mod Projection
pub mod Loading
pub mod Operands
pub mod Counting
use tentris.Base.{
  ◌⊎◌, inl, inr, ◌++◌, ℕ, zero, suc, ◌+◌, ◌%◌, ◌^◌, Bool, true, false, Option, none, some, List, [],
  ◌∷◌, Result, ok, fail, Fault, out_of_range, out_of_bounds, runtime_error, ◌>>=◌, if◌then◌else◌,
  ◌==◌, length, find, map,
}
use tentris.Sparql.Syntax.{Variable, Variable-discrete, Node, null_node, TriplePattern}
use tentris.Sparql.State.{Query}
use tentris.Sparql.Select.{get_slice_keys}
use tentris.TripleStore.Hypertrie.{SliceKey, HypertrieOps}

-- `rdf_tensor::Entry`: the nodes of a solution, and how often it occurs.
pub record Entry : Type 0 where
  pub key : List Node
  pub value : ℕ

-- A `std::generator`: what it yields, and whether it throws in the end.
pub data Generator (A : Type 0) : Type 0 where
  done : Generator A
  throw : Fault → Generator A
  co_yield : A → Generator A → Generator A

-- `Evaluation::evaluate` with its flag for DISTINCT, and `evaluate_ask`, on the members of a
-- `rdf_tensor::Query`. `default_value` is that of a default-constructed entry.
pub record Evaluation (G H : Type 0) : Type 0 where
  pub evaluate : G → List H → List ℕ → ℕ → Generator Entry
  pub evaluate_distinct : G → List H → List ℕ → ℕ → Generator (List Node)
  pub evaluate_ask : G → List H → List ℕ → ℕ → Result Bool
  pub default_value : ℕ

-- `get_fixed_depth`, and the fixed parts of a key.
abbrev pub fixed_parts : SliceKey → List Node
fixed_parts [] = []
fixed_parts (none ∷ key) = fixed_parts key
fixed_parts (some n ∷ key) = n ∷ fixed_parts key

abbrev pub fixed_depth : SliceKey → ℕ
fixed_depth key = length (fixed_parts key)

-- `var_to_id_.at` for each projected variable.
unfoldable pub projected_ids : List (Variable × ℕ) → List Variable → Result (List ℕ)
projected_ids ids [] = ok []
projected_ids ids (v ∷ vs) = elim (find Variable-discrete v ids) [
  | none ↦ fail out_of_range
  | some id ↦ projected_ids ids vs >>= λ rest. ok (id ∷ rest)
]

-- `std::copy` of a key into one of `size` null nodes.
unfoldable pub copy_key : ℕ → List Node → Result (List Node)
copy_key zero [] = ok []
copy_key (suc size) [] = copy_key size [] >>= λ key. ok (null_node ∷ key)
copy_key zero (n ∷ ns) = fail out_of_bounds
copy_key (suc size) (n ∷ ns) = copy_key size ns >>= λ key. ok (n ∷ key)

-- The loop over the distinct entries.
unfoldable pub yield_distinct : ℕ → ℕ → Generator (List Node) → Generator Entry
yield_distinct value size done = done
yield_distinct value size (throw f) = throw f
yield_distinct value size (co_yield k g) =
    let rest = yield_distinct value size g in
    elim (copy_key size k) [
      | fail f ↦ throw f
      | ok key ↦ co_yield (record { key = key; value = value }) rest
    ]

-- The loop of `count`, on a `size_t`.
unfoldable pub sum_values : ℕ → Generator Entry → Result ℕ
sum_values count done = ok count
sum_values count (throw f) = fail f
sum_values count (co_yield e g) = sum_values ((count + e.value) % 2 ^ 64) g

module _ {H : Type 0} (ops : HypertrieOps H) where
  unfoldable pub generate_operand : H → SliceKey → H
  generate_operand h key =
      if fixed_depth key == 3
      then (if ops.get (fixed_parts key) h then ops.set_true ops.depth_0 else ops.depth_0)
      else ops.slice key h

  unfoldable pub generate_operands : H → List SliceKey → List H
  generate_operands h keys = map (generate_operand h) keys

  unfoldable pub contains : TriplePattern → H → Bool
  contains t h = ops.get (t.subject ∷ t.predicate ∷ t.object ∷ []) h

  unfoldable pub size : H → ℕ
  size h = ops.size h

  module _ {G : Type 0} (evaluation : Evaluation G H) where
    unfoldable pub eval_select : H → Query G → ℕ → Generator Entry
    eval_select h query endtime =
        let operands = generate_operands h (get_slice_keys query.triple_patterns) in
        elim (projected_ids query.var_to_id query.projected_variables) [
          | fail f ↦ throw f
          | ok ids ↦
              if query.distinct
              then yield_distinct evaluation.default_value (length query.projected_variables)
                  (evaluation.evaluate_distinct query.odg operands ids endtime)
              else evaluation.evaluate query.odg operands ids endtime
        ]

    unfoldable pub eval_ask : H → Query G → ℕ → Result Bool
    eval_ask h query endtime =
        evaluation.evaluate_ask query.odg
          (generate_operands h (get_slice_keys query.triple_patterns)) [] endtime

    -- One pattern is counted by the size of its slice.
    unfoldable pub count_slice : H → SliceKey → ℕ
    count_slice h key =
        if fixed_depth key == 3
        then (if ops.get (fixed_parts key) h then 1 else 0)
        else ops.size (ops.slice key h)

    -- The branches on the number of keys.
    abbrev pub count_keys : H → Query G → ℕ → List SliceKey → Result ℕ
    count_keys h query endtime (key ∷ []) = ok (count_slice h key)
    count_keys h query endtime keys = sum_values 0 (eval_select h query endtime)

    unfoldable pub count : H → Query G → ℕ → Result ℕ
    count h query endtime = count_keys h query endtime (get_slice_keys query.triple_patterns)

-- `HypertrieBulkInserter`: it buffers entries for a hypertrie, and its destructor inserts the rest.
pub record InserterOps (H I : Type 0) : Type 0 where
  pub start : H → ℕ → I
  pub add : List Node → I → I
  pub finish : I → H

-- `load_ttl`. The quads of the parser come with their subject, predicate and object; the file is
-- `none` where it does not open. The result has the calls of `error_callback`.
module _ {H I E : Type 0} (inserter : InserterOps H I) where
  unfoldable pub load_loop : List (E ⊎ TriplePattern) → I → List E → I × List E
  load_loop [] i errors = (i, errors)
  load_loop (inl e ∷ rest) i errors = load_loop rest i (errors ++ e ∷ [])
  load_loop (inr t ∷ rest) i errors =
      load_loop rest (inserter.add (t.subject ∷ t.predicate ∷ t.object ∷ []) i) errors

  unfoldable pub load_ttl : Option (List (E ⊎ TriplePattern)) → ℕ → H → Result (H × List E)
  load_ttl none bulk_size h = fail (runtime_error "unable to open provided file ")
  load_ttl (some parsed) bulk_size h =
      let (i, errors) = load_loop parsed (inserter.start h bulk_size) [] in
      ok (inserter.finish i, errors)
