-- ===== src/TripleStore/Examples.antt =====
-- The triple store on small inputs, and each theorem at a concrete input.
use tentris.Base.{
  NoDuplicates, ap, sym, arith, length, ℕ, String, true, false, some, List, [], ◌∷◌, ok, fail,
  out_of_fuel, inl, inr, ◌⊎◌, ◌↔◌, In, ◌≡◌, ◌≢◌, refl, map, ℕ_discrete,
}
use tentris.Sparql.Syntax.{Node, variable, iri, TriplePattern}
use tentris.Sparql.Terms.{bytes}
use tentris.TripleStore.Hypertrie.{free, Node-discrete, Literal-discrete}
use tentris.TripleStore.Instance.{Entries, strip, strip_all, ops, laws, inserter, inserter_laws}
use tentris.TripleStore.Lists.{rdf_nil, rdf_first, rdf_rest, is_rdf_list, get_rdf_list}
use tentris.TripleStore.Lists.Checked.{ExactlyOne, is_rdf_list_iff}
use tentris.TripleStore.Lists.Unfinished.{get_rdf_list-out_of_fuel}
use tentris.Sparql.Examples.{ListGraph, ops as graph, rdf, query, parsed, parse-query, operand_laws}
use tentris.Sparql.Ids.{id?}
use tentris.TripleStore.Store.Projection.{evaluated, eval_select-parse}
use tentris.TripleStore.Store.{
  Evaluation, co_yield, done, eval_select, generate_operands, count, load_ttl,
}
use tentris.Sparql.Select.{get_slice_keys, slice_part}
use tentris.Sparql.Triples.{nodes_of}
use tentris.Sparql.State.{Query}
use tentris.TripleStore.Store.Counting.{count-single}
use tentris.TripleStore.Instance.Access.{access_laws}
use tentris.TripleStore.Store.Operands.{Matches, instantiate, generate_operands-parse}
use tentris.TripleStore.Store.Loading.{load_ttl-In}

abbrev node : String → Node
node s = iri (bytes s)

abbrev iri_size : Node → ℕ
iri_size (iri t) = length t
iri_size _ = 0

first_rest : rdf_first ≢ rdf_rest
first_rest e = omega (arith, ap iri_size e)

part : {s s' p p' o o' : Node} → (s ∷ p ∷ o ∷ []) ≡ (s' ∷ p' ∷ o' ∷ []) → o ≡ o'
part e = cc e

predicate_part : {s s' p p' o o' : Node} → (s ∷ p ∷ o ∷ []) ≡ (s' ∷ p' ∷ o' ∷ []) → p ≡ p'
predicate_part e = cc e

-- The list of `a` alone, at `l`.
abbrev triples : List (List Node)
triples = (node "l" ∷ rdf_first ∷ node "a" ∷ []) ∷ (node "l" ∷ rdf_rest ∷ rdf_nil ∷ []) ∷ []

triples-NoDuplicates : NoDuplicates triples
triples-NoDuplicates =
    ((λ m. elim m [ inl e ↦ first_rest (predicate_part e) | inr m' ↦ m' tt ]), ((λ m. m tt), tt))

abbrev one_item : Entries
one_item = (triples, triples-NoDuplicates)

is_rdf_list-one_item : is_rdf_list ops (node "l") one_item ≡ true
unfolding is_rdf_list strip_all strip Node-discrete Literal-discrete ℕ_discrete
is_rdf_list-one_item = refl

first-ExactlyOne : ExactlyOne ops one_item (node "l") rdf_first
first-ExactlyOne = (
  node "a",
  inl refl,
  (λ o m. elim m [
    | inl e ↦ part e
    | inr m' ↦ elim m' [ inl e ↦ absurd (first_rest (predicate_part e)) | inr n ↦ absurd (n tt) ]
  ]),
)

rest-ExactlyOne : ExactlyOne ops one_item (node "l") rdf_rest
rest-ExactlyOne = (
  rdf_nil,
  inr (inl refl),
  (λ o m. elim m [
    | inl e ↦ absurd (first_rest (sym (predicate_part e)))
    | inr m' ↦ elim m' [ inl e ↦ part e | inr n ↦ absurd (n tt) ]
  ]),
)

is_rdf_list_iff_example : (is_rdf_list ops (node "l") one_item ≡ true) ↔ (
    (node "l" ≡ rdf_nil)
    ⊎ (ExactlyOne ops one_item (node "l") rdf_first × ExactlyOne ops one_item (node "l") rdf_rest))
is_rdf_list_iff_example = is_rdf_list_iff ops laws (node "l") one_item

get_rdf_list-out_of_fuel_example : get_rdf_list ops 100 (node "l") one_item ≡ fail out_of_fuel
unfolding first-ExactlyOne
get_rdf_list-out_of_fuel_example =
    get_rdf_list-out_of_fuel ops laws 100 (node "l") one_item first-ExactlyOne rest-ExactlyOne
      (λ e. omega (arith, ap iri_size e)) (λ e. omega (arith, ap iri_size e))

-- A file with one triple and one error.
abbrev file : List (ℕ ⊎ TriplePattern)
file = inr (record { subject = node "s"; predicate = node "p"; object = node "o" }) ∷ inl 3 ∷ []

load_ttl-In_example :
    (h' : Entries) × (load_ttl inserter (some file) 1000 one_item ≡ ok (h', 3 ∷ []))
    × ((k : List Node)
        → In k h'.0 ↔ (In k triples ⊎ In k ((node "s" ∷ node "p" ∷ node "o" ∷ []) ∷ [])))
load_ttl-In_example = load_ttl-In ops inserter inserter_laws file 1000 one_item

-- An evaluation with one solution, which occurs once for each projected variable.
abbrev evaluation : Evaluation ListGraph Entries
evaluation = record {
  evaluate = λ g hs ids endtime. co_yield (record { key = node "s" ∷ []; value = length ids }) done;
  evaluate_distinct = λ g hs ids endtime. done;
  evaluate_ask = λ g hs ids endtime. ok true;
  default_value = 0;
}

eval_select-parse_example :
    (ids : List ℕ) × (map (λ v. id? v parsed.var_to_id) parsed.projected_variables ≡ map some ids)
    × (eval_select ops evaluation one_item parsed 0
        ≡ evaluated graph rdf ops evaluation one_item parsed ids 0)
eval_select-parse_example =
    eval_select-parse graph rdf ops evaluation 10 query parsed one_item 0 parse-query

generate_operands-parse_example :
    Matches ops laws access_laws one_item
      (generate_operands ops one_item (get_slice_keys parsed.triple_patterns))
      (operand_laws.operands parsed.odg)
      parsed.triple_patterns
generate_operands-parse_example =
    generate_operands-parse ops laws access_laws one_item graph operand_laws rdf 10 query parsed
      parse-query

abbrev pattern : TriplePattern
pattern = record {
  subject = node "l";
  predicate = rdf_first;
  object = variable (record { name = bytes "x"; is_anonymous = false });
}

abbrev single : Query ListGraph
single = record parsed { triple_patterns = pattern ∷ [] }

count-single_example :
    (ks : List (List Node)) × NoDuplicates ks
    × (count ops evaluation one_item single 0 ≡ ok (length ks))
    × ((k : List Node)
        → In k ks ↔ (
            (length k ≡ free (map slice_part (nodes_of pattern)))
            × In (instantiate (nodes_of pattern) k) triples))
count-single_example = count-single ops laws access_laws evaluation one_item single pattern 0 refl
