-- ===== src/TripleStore/Store/Counting.antt =====
-- What `count` counts.
use tentris.Base.{
  ℕ, ◌+◌, ◌%◌, ◌^◌, Bool, true, false, List, [], ◌∷◌, length, In, NoDuplicates, Result, ok, ◌==◌,
  if◌then◌else◌, ◌↔◌, ◌≡◌, refl, sym, ap, ◌∙◌, subst, arith, map,
}
use tentris.Sparql.Syntax.{Node, TriplePattern}
use tentris.Sparql.State.{Query}
use tentris.Sparql.Triples.{nodes_of}
use tentris.Sparql.Select.{slice_part, get_slice_keys}
use tentris.TripleStore.Hypertrie.{SliceKey, HypertrieOps, HypertrieLaws, free}
use tentris.TripleStore.Store.{
  Entry, Generator, done, throw, co_yield, Evaluation, sum_values, fixed_parts, fixed_depth,
  generate_operand, count_slice, count_keys, count,
}
use tentris.TripleStore.Store.Operands.{
  AccessLaws, generate_operand-Fits, instantiate, fill-instantiate,
}

-- The values that a generator yields, together, and that it does not throw.
abbrev pub total : Generator Entry → ℕ
total done = 0
total (throw f) = 0
total (co_yield e g) = e.value + total g

abbrev pub IsComplete : Generator Entry → Type 0
IsComplete done = Unit
IsComplete (throw f) = ⊥
IsComplete (co_yield e g) = IsComplete g

abbrev wraps : ℕ → Result ℕ
wraps n = ok (n % 2 ^ 64)

pub sum_values-total :
    (g : Generator Entry) (count : ℕ)
    → IsComplete g
    → count % 2 ^ 64 ≡ count
    → sum_values count g ≡ ok ((count + total g) % 2 ^ 64)
unfolding sum_values
sum_values-total done count whole small =
    let same : count ≡ (count + 0) % 2 ^ 64 = omega arith in ap ok same
sum_values-total (throw f) count whole small = absurd whole
sum_values-total (co_yield e g) count whole small =
    let next = (count + e.value) % 2 ^ 64 in
    let same : (next + total g) % 2 ^ 64 ≡ (count + (e.value + total g)) % 2 ^ 64 = omega arith in
    sum_values-total g next whole (omega arith) ∙ ap ok same

module _ {G H : Type 0} (ops : HypertrieOps H) (laws : HypertrieLaws ops) (access : AccessLaws ops)
    (evaluation : Evaluation G H) (h : H) where
  -- The count of a key is the number of entries of its operand.
  count_slice-entries :
      (key : SliceKey)
      → (count_slice ops evaluation h key ≡ length (ops.entries (generate_operand ops h key)))
        × NoDuplicates (ops.entries (generate_operand ops h key))
  unfolding count_slice generate_operand
  count_slice-entries key =
      (by_depth (fixed_depth key == 3) (ops.get (fixed_parts key) h), laws.entries-NoDuplicates _)
    where
      by_depth :
          (full found : Bool)
          → (if full then (if found then 1 else 0) else ops.size (ops.slice key h))
            ≡ length (
                ops.entries (
                  if full
                  then (if found then ops.set_true ops.depth_0 else ops.depth_0)
                  else ops.slice key h))
      by_depth true true = sym (ap length access.entries-set_true)
      by_depth true false = sym (ap length access.entries-depth_0)
      by_depth false found = laws.size-entries (ops.slice key h)

  -- The count of a query with one triple pattern is the number of different ways to complete it to a triple
  -- of the store, by a node for each place of a variable.
  pub count-single :
      (q : Query G) (tp : TriplePattern) (endtime : ℕ)
      → q.triple_patterns ≡ tp ∷ []
      → (ks : List (List Node)) × NoDuplicates ks
        × (count ops evaluation h q endtime ≡ ok (length ks))
        × ((k : List Node)
            → In k ks ↔ (
                (length k ≡ free (map slice_part (nodes_of tp)))
                × In (instantiate (nodes_of tp) k) (ops.entries h)))
  unfolding count get_slice_keys
  count-single q tp endtime one =
      let key = map slice_part (nodes_of tp) in
      let (size, distinct) = count_slice-entries key in
      (
        ops.entries (generate_operand ops h key),
        distinct,
        ap (λ tps. count_keys ops evaluation h q endtime (get_slice_keys tps)) one ∙ ap ok size,
        (λ k.
            let (forth, back) = generate_operand-Fits ops laws access h key k refl in
            (
              (λ i.
                  let (l, f) = forth i in
                  (l, subst (λ x. In x (ops.entries h)) (fill-instantiate (nodes_of tp) k) f)),
              (λ (l, f). back (
                l,
                subst (λ x. In x (ops.entries h)) (sym (fill-instantiate (nodes_of tp) k)) f,
              )),
            )),
      )
