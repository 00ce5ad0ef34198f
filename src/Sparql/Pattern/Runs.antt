-- ===== src/Sparql/Pattern/Runs.antt =====
-- A run of the visitor as the visits of triples blocks in it.
use tentris.Base.{
  ℕ, Bool, List, [], ◌∷◌, ◌++◌, Result, ok, Ensures, returns, throws, Fault, ◌≡◌, refl, ◌∙◌,
}
use tentris.Sparql.Syntax.{Variable, Node, TriplePattern, TriplesBlockContext}
use tentris.Sparql.Terms.{Rdf}
use tentris.Sparql.Graph.{GraphOps}
use tentris.Sparql.State.{Visitor}
use tentris.Sparql.Triples.{visit_triples_block}
use tentris.Sparql.Ids.{Ids}

-- All of the visitor but its stacks and its graph: in a run, only the visits of triples blocks change it.
pub record Outcome : Type 0 where
  pub triple_patterns : List TriplePattern
  pub var_to_id : Ids
  pub var_id : ℕ
  pub projected_variables : List Variable
  pub active_subject : Node
  pub active_predicate : Node
  pub distinct : Bool
  pub ask : Bool
  pub project_all_variables : Bool

abbrev pub outcome : {G : Type 0} → Visitor G → Outcome
outcome s = record {
  triple_patterns = s.triple_patterns;
  var_to_id = s.var_to_id;
  var_id = s.var_id;
  projected_variables = s.projected_variables;
  active_subject = s.active_subject;
  active_predicate = s.active_predicate;
  distinct = s.distinct;
  ask = s.ask;
  project_all_variables = s.project_all_variables;
}

module _ {G : Type 0} (ops : GraphOps G) (rdf : Rdf) where
  -- From the first state to the second by visits of the blocks, in their order. In between only the
  -- stacks and the graph change.
  pub data Runs : List TriplesBlockContext → Visitor G → Visitor G → Type 0 where
    ends : (s t : Visitor G) → outcome t ≡ outcome s → Runs [] s t
    visits :
        (tb : TriplesBlockContext) (tbs : List TriplesBlockContext) (s r t u : Visitor G)
        → outcome r ≡ outcome s
        → visit_triples_block ops rdf tb r ≡ ok t
        → Runs tbs t u
        → Runs (tb ∷ tbs) s u

  -- A change of the stacks and the graph first.
  pub after_same :
      (tbs : List TriplesBlockContext) (s s1 t : Visitor G)
      → outcome s1 ≡ outcome s
      → Runs tbs s1 t
      → Runs tbs s t
  after_same _ s s1 t e (ends _ _ e') = ends s t (e' ∙ e)
  after_same _ s s1 t e (visits tb tbs _ r t' _ e' v rest) = visits tb tbs s r t' t (e' ∙ e) v rest

  pub Runs-append :
      (xs ys : List TriplesBlockContext) (s t u : Visitor G)
      → Runs xs s t
      → Runs ys t u
      → Runs (xs ++ ys) s u
  Runs-append _ ys s t u (ends _ _ e) later = after_same ys s t u e later
  Runs-append _ ys s t u (visits tb tbs _ r t' _ e v rest) later =
      visits tb (tbs ++ ys) s r t' u e v (Runs-append tbs ys t' t u rest later)

  -- A change of the stacks and the graph last.
  pub then_same :
      (xs : List TriplesBlockContext) (s t u : Visitor G)
      → Runs xs s t
      → outcome u ≡ outcome t
      → Runs xs s u
  then_same _ s t u (ends _ _ e) e' = ends s u (e' ∙ e)
  then_same _ s t u (visits tb tbs _ r t' _ e v rest) e' =
      visits tb tbs s r t' u e v (then_same tbs t' t u rest e')

-- A postcondition may use the equation of the result.
pub Ensures-equation {ℓ κ} :
    {A : Type ℓ} {P : A → Type κ} {F : Fault → Type 0} {r : Result A}
    → Ensures P F r
    → Ensures (λ a. P a × (r ≡ ok a)) F r
Ensures-equation (returns h) = returns (h, refl)
Ensures-equation (throws h) = throws h
