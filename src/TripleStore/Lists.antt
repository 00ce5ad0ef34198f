-- ===== src/TripleStore/Lists.antt =====
-- RDF lists: `is_rdf_list` and `get_rdf_list`.
pub mod Checked
pub mod Unfinished
use tentris.Base.{
  ℕ, zero, suc, Bool, true, false, not, none, some, List, [], ◌∷◌, Result, ok, fail, runtime_error,
  out_of_fuel, ◌>>=◌, if◌then◌else◌, ite, ◌==◌, ltb,
}
use tentris.Sparql.Syntax.{Node, iri}
use tentris.Sparql.Terms.{bytes}
use tentris.TripleStore.Hypertrie.{Node-discrete, HypertrieOps}

abbrev pub rdf_nil : Node
rdf_nil = iri (bytes "http://www.w3.org/1999/02/22-rdf-syntax-ns#nil")

abbrev pub rdf_first : Node
rdf_first = iri (bytes "http://www.w3.org/1999/02/22-rdf-syntax-ns#first")

abbrev pub rdf_rest : Node
rdf_rest = iri (bytes "http://www.w3.org/1999/02/22-rdf-syntax-ns#rest")

-- `(*element.begin())[0]`
abbrev pub first_part : List (List Node) → Node
first_part ((n ∷ k) ∷ es) = n
first_part _ = rdf_nil

module _ {H : Type 0} (ops : HypertrieOps H) where
  unfoldable pub is_rdf_list : Node → H → Bool
  is_rdf_list list h =
      let prop_obj = ops.slice (some list ∷ none ∷ none ∷ []) h in
      let has_first = ops.slice (some rdf_first ∷ none ∷ []) prop_obj in
      let has_rest = ops.slice (some rdf_rest ∷ none ∷ []) prop_obj in
      ite (Node-discrete list rdf_nil) true (
        if ops.empty prop_obj
        then false
        else (if not (ops.size has_first == 1)
            then false
            else (if not (ops.size has_rest == 1) then false else true)))

  -- One round of the loop: the new node of `node_vector` and the new head. The messages end in the
  -- text of the head, which is left out.
  unfoldable pub next_item : Node → H → Result (Node × Node)
  next_item list h =
      let element = ops.slice (some list ∷ some rdf_first ∷ none ∷ []) h in
      let rest = ops.slice (some list ∷ some rdf_rest ∷ none ∷ []) h in
      let item = first_part (ops.entries element) in
      if ltb 1 (ops.size element)
      then fail (runtime_error "Invalid RDF seq. Multiple first elements for list node {}")
      else (if ops.empty element
          then fail (runtime_error "Invalid RDF seq. No first elements for list node {}")
          else (if ltb 1 (ops.size rest)
              then fail (runtime_error "Invalid RDF seq. Multiple rest elements for list node {}")
              else (if ops.size rest == 1 then ok (item, item) else ok (item, rdf_nil))))

  -- The loop, from the head on. It looks up `list` in every round.
  unfoldable pub list_loop : ℕ → Node → Node → H → Result (List Node)
  list_loop zero list head h = ite (Node-discrete head rdf_nil) (ok []) (fail out_of_fuel)
  list_loop (suc fuel) list head h =
      let round = next_item list h >>= λ (item, head').
      list_loop fuel list head' h >>= λ items. ok (item ∷ items) in
      ite (Node-discrete head rdf_nil) (ok []) round

  unfoldable pub get_rdf_list : ℕ → Node → H → Result (List Node)
  get_rdf_list fuel list h = list_loop fuel list list h
