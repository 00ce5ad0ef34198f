-- ===== src/Sparql/Examples/Unions.antt =====
-- A WHERE clause with two unions and an OPTIONAL: the blocks that the visitor visits for it.
use tentris.Base.{◌≡◌, refl, none, some, [], ◌∷◌, Ensures, Safe, List, arith}
use tentris.Sparql.Syntax.{
  TriplesSameSubjectContext, GroupGraphPatternContext, pattern_sub, group_sub, end_list, sub_list,
  optional_pattern, group_or_union, GroupOrUnionContext, end_union, alternative,
}
use tentris.Sparql.Pattern.{visit_where_clause}
use tentris.Sparql.Pattern.Weight.{weight_of}
use tentris.Sparql.Pattern.Order.{visited}
use tentris.Sparql.Pattern.Runs.{Runs}
use tentris.Sparql.Pattern.Unions.{visit_where_clause-Runs}
use tentris.Sparql.Select.{QueryContext, ask_query, parse}
use tentris.Sparql.Reference.{query_blocks, VisitedPatterns, parse-VisitedPatterns}
use tentris.Sparql.Examples.{ops, rdf, triple, block, fresh}

abbrev only : List TriplesSameSubjectContext → GroupGraphPatternContext
only ts = pattern_sub (group_sub (block ts) end_list)

abbrev p : List TriplesSameSubjectContext
p = triple "?x" "<p>" "?y" ∷ []

abbrev q : List TriplesSameSubjectContext
q = triple "?y" "<q>" "?z" ∷ []

abbrev a1 : List TriplesSameSubjectContext
a1 = triple "?x" "<a1>" "?v" ∷ []

abbrev a2 : List TriplesSameSubjectContext
a2 = triple "?x" "<a2>" "?v" ∷ []

abbrev b1 : List TriplesSameSubjectContext
b1 = triple "?x" "<b1>" "?w" ∷ []

abbrev b2 : List TriplesSameSubjectContext
b2 = triple "?x" "<b2>" "?w" ∷ []

abbrev union_of :
    List TriplesSameSubjectContext → List TriplesSameSubjectContext → GroupOrUnionContext
union_of x y = alternative (only x) (alternative (only y) end_union)

-- { p  { a1 } UNION { a2 }  OPTIONAL { q }  { b1 } UNION { b2 } }
abbrev two_unions : GroupGraphPatternContext
two_unions = pattern_sub (
    group_sub (block p) (
      sub_list (group_or_union (union_of a1 a2)) none (
        sub_list (optional_pattern (only q)) none
          (sub_list (group_or_union (union_of b1 b2)) none end_list))))

-- The last union varies slowest.
two_unions-visited :
    visited two_unions ≡ p ∷ b1 ∷ a1 ∷ q ∷ p ∷ b1 ∷ a2 ∷ q ∷ p ∷ b2 ∷ a1 ∷ q ∷ p ∷ b2 ∷ a2 ∷ q ∷ []
unfolding visited
two_unions-visited = refl

visit_where_clause-Runs_example :
    Ensures
      (Runs ops rdf (visited two_unions) fresh)
      Safe
      (visit_where_clause ops rdf 6 two_unions fresh)
unfolding weight_of
visit_where_clause-Runs_example =
    visit_where_clause-Runs ops rdf 6 two_unions fresh (omega arith) refl refl

abbrev asked : QueryContext
asked = ask_query (some two_unions)

parse-VisitedPatterns_example :
    Ensures (VisitedPatterns ops rdf (query_blocks asked)) Safe (parse ops rdf 6 asked)
unfolding weight_of
parse-VisitedPatterns_example = parse-VisitedPatterns ops rdf 6 asked (omega arith)
