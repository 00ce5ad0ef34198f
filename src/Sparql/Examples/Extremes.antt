-- ===== src/Sparql/Examples/Extremes.antt =====
-- An ASK query, and a visitor whose ids are all taken.
use tentris.Base.{
  ℕ, zero, suc, ◌%◌, ◌≡◌, ◌≢◌, refl, false, some, List, [], ◌∷◌, ok, find, ℕ_discrete,
}
use tentris.Sparql.Syntax.{
  Variable, Variable-discrete, variable, iri, pattern_sub, group_sub, end_list,
}
use tentris.Sparql.Terms.{bytes}
use tentris.Sparql.State.{Visitor, Query, visitor, empty_query, register_var}
use tentris.Sparql.Select.{QueryContext, ask_query, parse}
use tentris.Sparql.Ids.{Numbered, id?}
use tentris.Sparql.Invariant.{Valid, register_var-wraps}
use tentris.Sparql.Parsed.{parse-ask}
use tentris.Sparql.Examples.{ListGraph, ops, rdf, triple, block, v, parsed, program}

-- ASK WHERE { ?x <p> ?y . }
abbrev asking : QueryContext
asking = ask_query (some (pattern_sub (group_sub (block (triple "?x" "<p>" "?y" ∷ [])) end_list)))

abbrev asked : Query ListGraph
asked = record parsed {
  odg = record { operands = (97 ∷ 98 ∷ []) ∷ []; edges = []; connections = [] };
  projected_variables = [];
  var_to_id = (v "x", 97) ∷ (v "y", 98) ∷ [];
  triple_patterns =
      record { subject = variable (v "x"); predicate = iri (bytes "p"); object = variable (v "y") }
      ∷ [];
}

parse-asking : parse ops rdf 2 asking ≡ ok asked
unfolding program
parse-asking = refl

parse-ask_example : asked.ask ≡ false
parse-ask_example = parse-ask ops rdf 2 asking asked parse-asking

-- 256 registered variables, the names of one byte.
numbered : ℕ → ℕ → List (Variable × ℕ)
numbered zero k = []
numbered (suc n) k = (record { name = k ∷ []; is_anonymous = false }, k % 256) ∷ numbered n (suc k)

numbered-Numbered : (n k : ℕ) → Numbered k (numbered n k)
unfolding numbered
numbered-Numbered zero k = tt
numbered-Numbered (suc n) k = (refl, numbered-Numbered n (suc k))

abbrev full : Visitor ListGraph
full = record (visitor (empty_query ops)) {
  query = record (empty_query ops) { var_to_id = numbered 256 b'a' };
}

full-Valid : Valid full
unfolding numbered
full-Valid = record {
  numbered = numbered-Numbered 256 b'a';
  counted = refl;
  patterns = tt;
  known_subject = tt;
  known_predicate = tt;
  projections = tt;
  not_ask = refl;
}

abbrev a_name : Variable
a_name = record { name = b'a' ∷ []; is_anonymous = false }

register_var-wraps_example :
    (a_name ≢ v "new")
    × (id? a_name (register_var full (v "new")).var_to_id ≡ some b'a')
    × (id? (v "new") (register_var full (v "new")).var_to_id ≡ some b'a')
unfolding numbered find Variable-discrete ℕ_discrete
register_var-wraps_example =
    register_var-wraps full a_name (v "new") b'a' (numbered 255 (suc b'a')) full-Valid refl refl
      refl
