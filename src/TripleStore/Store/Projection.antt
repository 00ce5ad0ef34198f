-- ===== src/TripleStore/Store/Projection.antt =====
-- The evaluation of a parsed query finds the id of every projected variable.
use tentris.Base.{ℕ, some, List, [], ◌∷◌, ok, if◌then◌else◌, length, map, All, ◌≡◌, refl}
use tentris.Sparql.Syntax.{Variable}
use tentris.Sparql.Terms.{Rdf}
use tentris.Sparql.Graph.{GraphOps}
use tentris.Sparql.State.{Query}
use tentris.Sparql.Select.{QueryContext, parse, get_slice_keys}
use tentris.Sparql.Ids.{Ids, id?, HasId}
use tentris.Sparql.Parsed.{parse-HasId}
use tentris.TripleStore.Hypertrie.{HypertrieOps}
use tentris.TripleStore.Store.{
  Generator, Entry, Evaluation, projected_ids, yield_distinct, generate_operands, eval_select,
}

projected_ids-HasId :
    (m : Ids) (vs : List Variable)
    → All (HasId m) vs
    → (ids : List ℕ) × (projected_ids m vs ≡ ok ids) × (map (λ v. id? v m) vs ≡ map some ids)
unfolding projected_ids
projected_ids-HasId m [] h = ([], refl, refl)
projected_ids-HasId m (v ∷ vs) ((id, e), h) =
    let (ids, p, q) = projected_ids-HasId m vs h in
    (id ∷ ids, rw (e, p, projected_ids) refl, rw (e, q) refl)

module _ {G H : Type 0} (graph : GraphOps G) (rdf : Rdf) (ops : HypertrieOps H)
    (evaluation : Evaluation G H) where
  -- The solutions of a query with its operands and the ids of its projected variables.
  abbrev pub evaluated : H → Query G → List ℕ → ℕ → Generator Entry
  evaluated h q ids endtime =
      let operands = generate_operands ops h (get_slice_keys q.triple_patterns) in
      if q.distinct
      then yield_distinct evaluation.default_value (length q.projected_variables)
          (evaluation.evaluate_distinct q.odg operands ids endtime)
      else evaluation.evaluate q.odg operands ids endtime

  -- `eval_select` of a parsed query has an id for each projected variable, in their order, and
  -- evaluates the query with them.
  pub eval_select-parse :
      (fuel : ℕ) (ctx : QueryContext) (q : Query G) (h : H) (endtime : ℕ)
      → parse graph rdf fuel ctx ≡ ok q
      → (ids : List ℕ) × (map (λ v. id? v q.var_to_id) q.projected_variables ≡ map some ids)
        × (eval_select ops evaluation h q endtime ≡ evaluated h q ids endtime)
  unfolding eval_select
  eval_select-parse fuel ctx q h endtime e =
      let (ids, p, r) =
        projected_ids-HasId q.var_to_id q.projected_variables
          (parse-HasId graph rdf fuel ctx q e).0 in
      (ids, r, rw (p, eval_select) refl)
