-- ===== src/Endpoint/Counted.antt =====
-- /count against /sparql.
use tentris.Base.{
  ℕ, zero, suc, ◌+◌, ◌%◌, ◌^◌, List, [], ◌∷◌, length, Result, ok, ◌>>=◌, some, none, ◌≡◌, ◌≢◌, refl,
  ap, ◌∙◌, arith,
}
use tentris.Sparql.Syntax.{Text, Node, TriplePattern}
use tentris.Sparql.State.{Query}
use tentris.Sparql.Select.{get_slice_keys}
use tentris.TripleStore.Store.{
  Entry, Generator, done, throw, co_yield, sum_values, eval_select, count, count_keys,
}
use tentris.TripleStore.Store.Counting.{total, IsComplete, sum_values-total}
use tentris.Endpoint.Json.{Json, Items, no_items, item}
use tentris.Endpoint.Writer.{Term}
use tentris.Endpoint.Document.{repeated, solutions}
use tentris.Endpoint.Body.{yielded, names}
use tentris.Endpoint.Handlers.{
  Response, response, Surroundings, caught, with_query, parse_sparql_query_param, handle_count,
}

abbrev pub number_of : Items → ℕ
number_of no_items = 0
number_of (item j items) = suc (number_of items)

number_of-repeated :
    (term_of : Node → Term) (n : ℕ) (j : Json) (rest : Items)
    → number_of (repeated term_of n j rest) ≡ n + number_of rest
number_of-repeated term_of zero j rest = omega arith
number_of-repeated term_of (suc n) j rest = omega (arith, number_of-repeated term_of n j rest)

number_of-solutions :
    (term_of : Node → Term) (vars : List Text) (g : Generator Entry)
    → number_of (solutions term_of (yielded g) vars) ≡ total g
number_of-solutions term_of vars done = refl
number_of-solutions term_of vars (throw f) = refl
number_of-solutions term_of vars (co_yield e g) =
    number_of-repeated term_of e.value _ (solutions term_of (yielded g) vars)
    ∙ ap (◌+◌ e.value) (number_of-solutions term_of vars g)

module _ {G H W : Type 0} (env : Surroundings G H W) where
  count-sum_values :
      (query : Query G) (timeout : ℕ)
      → length query.triple_patterns ≢ 1
      → count env.ops env.evaluation env.hypertrie query timeout
        ≡ sum_values 0 (eval_select env.ops env.evaluation env.hypertrie query timeout)
  unfolding count get_slice_keys
  count-sum_values query timeout several = by_patterns query.triple_patterns several
    where
      by_patterns :
          (tps : List TriplePattern)
          → length tps ≢ 1
          → count_keys env.ops env.evaluation env.hypertrie query timeout (get_slice_keys tps)
            ≡ sum_values 0 (eval_select env.ops env.evaluation env.hypertrie query timeout)
      by_patterns [] several = refl
      by_patterns (tp ∷ []) several = absurd (several refl)
      by_patterns (tp ∷ tp' ∷ tps) several = refl

  -- For a query whose number of triple patterns is not one, and whose evaluation ends with no fault,
  -- /count answers with the text of the number of solutions in the document of /sparql, modulo 2^64.
  pub handle_count-solutions :
      (text : Text) (query : Query G) (timeout : ℕ)
      → env.cache text ≡ ok query
      → length query.triple_patterns ≢ 1
      → let g = eval_select env.ops env.evaluation env.hypertrie query timeout in
        IsComplete g
        → let vars = names query.projected_variables in
          handle_count env (ok (some text)) timeout
          ≡ ok (
              response 200 none
                (env.format (number_of (solutions env.term_of (yielded g) vars) % 2 ^ 64)))
  unfolding handle_count parse_sparql_query_param
  handle_count-solutions text query timeout cached several whole =
      let g = eval_select env.ops env.evaluation env.hypertrie query timeout in
      let vars = names query.projected_variables in
      let reply : Result ℕ → Result Response =
        λ r. r >>= λ n. ok (response 200 none (env.format n)) in
      let respond : Query G → Result Response =
        λ q. reply (count env.ops env.evaluation env.hypertrie q timeout) in
      let same : (0 + total g) % 2 ^ 64
          ≡ number_of (solutions env.term_of (yielded g) vars) % 2 ^ 64 =
        omega (arith, number_of-solutions env.term_of vars g) in
      ap (λ c. caught env c >>= with_query env respond) cached
      ∙ ap reply
          (count-sum_values query timeout several ∙ sum_values-total g 0 whole refl ∙ ap ok same)
