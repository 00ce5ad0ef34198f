-- ===== src/Endpoint/Handlers.antt =====
-- The requests: `Endpoint::operator()`, the `handle_query` of each endpoint, and the routes. The query
-- cache, the executor, the clock and the connection are parameters.
use tentris.Base.{
  ℕ, suc, Bool, true, false, Option, none, some, List, [], ◌∷◌, ◌++◌, Result, ok, fail, Fault,
  runtime_error, out_of_range, bad_optional_access, ◌⊎◌, inl, inr, ◌>>=◌, if◌then◌else◌, ltb,
  String,
}
use tentris.Sparql.Syntax.{Text, Node}
use tentris.Sparql.Terms.{bytes}
use tentris.Sparql.State.{Query}
use tentris.TripleStore.Hypertrie.{HypertrieOps}
use tentris.TripleStore.Store.{
  Generator, done, throw, co_yield, Entry, Evaluation, eval_select, eval_ask, count,
}
use tentris.Endpoint.Writer.{
  Term, RapidJson, SaxWriter, sax_writer, add, close, full, string_view, clear,
}

-- A response: complete, in chunks with `done()`, or in chunks and broken off.
pub data Response : Type 0 where
  response : (status : ℕ) (content_type : Option Text) (body : Text) → Response
  chunked : (content_type : Text) (chunks : List Text) → Response
  broken_off : (content_type : Text) (chunks : List Text) → Response

-- Whether a fault is a `std::exception`. The others are undefined behaviour.
abbrev pub is_exception : Fault → Bool
is_exception (runtime_error message) = true
is_exception out_of_range = true
is_exception bad_optional_access = true
is_exception _ = false

-- `create_response(status).set_body(message)`
abbrev pub reply : ℕ → String → Response
reply status message = response status none (bytes message)

abbrev pub results_json : Text
results_json = bytes "application/sparql-results+json"

-- What the handlers find around them: the parameter `query` of the request, the cache of parsed
-- queries, the time at which the timeout is checked, the text of a number, and whether the flush of
-- the n-th chunk is seen to fail.
pub record Surroundings (G H W : Type 0) : Type 0 where
  pub ops : HypertrieOps H
  pub evaluation : Evaluation G H
  pub hypertrie : H
  pub json : RapidJson W
  pub term_of : Node → Term
  pub cache : Text → Result (Query G)
  pub now : ℕ
  pub format : ℕ → Text
  pub flush_fails : ℕ → Bool

module _ {G H W : Type 0} (env : Surroundings G H W) where
  -- The `catch` of `std::exception`.
  abbrev pub caught : Result (Query G) → Result (Response ⊎ Query G)
  caught (ok query) = ok (inr query)
  caught (fail f) =
      if is_exception f
      then ok (inl (reply 400 "Value of query parameter 'query' is not parsable."))
      else fail f

  -- A query, or the response that has been sent instead. `parse_query` of restinio has the parameters or
  -- throws, outside the `try`.
  unfoldable pub parse_sparql_query_param : Result (Option Text) → Result (Response ⊎ Query G)
  parse_sparql_query_param (fail f) = fail f
  parse_sparql_query_param (ok none) = ok (inl (reply 400 "Query parameter 'query' is missing."))
  parse_sparql_query_param (ok (some text)) = caught (env.cache text)

  -- What follows in the handlers.
  abbrev pub with_query : (Query G → Result Response) → Response ⊎ Query G → Result Response
  with_query answer (inl sent) = ok sent
  with_query answer (inr query) = answer query

  abbrev pub check_timeout : ℕ → Result (Unit {0})
  check_timeout timeout =
      if ltb env.now timeout then ok tt else fail (runtime_error "timeout reached")

  -- The loop of `SPARQLEndpoint`.
  unfoldable pub write_all : Generator Entry → SaxWriter W → Result (SaxWriter W)
  write_all done s = ok s
  write_all (throw f) s = fail f
  write_all (co_yield e g) s = add env.json env.term_of e s >>= write_all g

  -- What follows the loop.
  abbrev pub finish_body : ℕ → SaxWriter W → Result Response
  finish_body timeout s = check_timeout timeout >>= λ checked.
      ok (response 200 (some results_json) (string_view (close env.json env.term_of s)))

  unfoldable pub select_response : Query G → ℕ → Result Response
  select_response query timeout =
      write_all (eval_select env.ops env.evaluation env.hypertrie query timeout)
        (sax_writer env.json env.term_of query.projected_variables 100000)
      >>= finish_body timeout

  abbrev pub boolean_text : Bool → Text
  boolean_text true = bytes "true"
  boolean_text false = bytes "false"

  unfoldable pub ask_response : Query G → ℕ → Result Response
  ask_response query timeout = do
    answer ← eval_ask env.ops env.evaluation env.hypertrie query timeout
    ok (
        response 200 (some results_json)
          (bytes "{ \"head\" : {}, \"boolean\" : " ++ (boolean_text answer ++ bytes " }")))

  -- `SPARQLEndpoint::handle_query`
  unfoldable pub handle_sparql : Result (Option Text) → ℕ → Result Response
  handle_sparql param timeout =
      parse_sparql_query_param param
      >>= with_query
          (λ query. if query.ask then ask_response query timeout else select_response query timeout)

  abbrev pub keep_chunk :
      Text → Result (List Text × Option (SaxWriter W)) → Result (List Text × Option (SaxWriter W))
  keep_chunk chunk later = later >>= λ (chunks, end). ok (chunk ∷ chunks, end)

  -- The test after each entry, with what follows a flush and what follows no flush.
  abbrev pub flush_full :
      ℕ
      → SaxWriter W
      → Result (List Text × Option (SaxWriter W))
      → Result (List Text × Option (SaxWriter W))
      → Result (List Text × Option (SaxWriter W))
  flush_full n s later rest =
      if full s
      then (if env.flush_fails n
          then ok (string_view s ∷ [], none)
          else keep_chunk (string_view s) later)
      else rest

  -- The loop of `SPARQLStreamingEndpoint`, from its n-th chunk on. The result has the chunks, and the
  -- writer unless a flush has failed; a fault leaves out the chunks before it.
  unfoldable pub write_chunks :
      Generator Entry → ℕ → SaxWriter W → Result (List Text × Option (SaxWriter W))
  write_chunks done n s = ok ([], some s)
  write_chunks (throw f) n s = fail f
  write_chunks (co_yield e g) n s = add env.json env.term_of e s >>= λ s1.
      flush_full n s1 (write_chunks g (suc n) (clear s1)) (write_chunks g n s1)

  -- What follows the loop, or a flush that failed.
  abbrev pub finish_chunks : List Text × Option (SaxWriter W) → Result Response
  finish_chunks (chunks, none) = ok (broken_off results_json chunks)
  finish_chunks (chunks, some s) =
      ok (chunked results_json (chunks ++ string_view (close env.json env.term_of s) ∷ []))

  unfoldable pub stream_response : Query G → ℕ → Result Response
  stream_response query timeout =
      write_chunks (eval_select env.ops env.evaluation env.hypertrie query timeout) 0
        (sax_writer env.json env.term_of query.projected_variables 100000)
      >>= finish_chunks

  -- `SPARQLStreamingEndpoint::handle_query`
  unfoldable pub handle_stream : Result (Option Text) → ℕ → Result Response
  handle_stream param timeout =
      parse_sparql_query_param param >>= with_query (λ query. stream_response query timeout)

  -- `CountEndpoint::handle_query`
  unfoldable pub handle_count : Result (Option Text) → ℕ → Result Response
  handle_count param timeout =
      parse_sparql_query_param param
      >>= with_query (λ query. count env.ops env.evaluation env.hypertrie query timeout >>= λ n.
          ok (response 200 none (env.format n)))
