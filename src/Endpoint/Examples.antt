-- ===== src/Endpoint/Examples.antt =====
-- The endpoints on a query with one solution that occurs twice, and each theorem at a concrete input.
use tentris.Base.{
  ◌+◌, ◌-◌, ◌<◌, ◌^◌, ◌%◌, find, Option.none, some, fail, runtime_error, inr, arith, false, true,
  [], ◌∷◌, ok, ◌>>=◌, ◌≡◌, refl, Ensures, Anything,
}
use tentris.Sparql.Syntax.{Text, Variable-discrete, Node, iri}
use tentris.Sparql.Terms.{bytes}
use tentris.Sparql.State.{Query}
use tentris.TripleStore.Instance.{Entries, ops}
use tentris.TripleStore.Store.{projected_ids, done, co_yield, eval_select}
use tentris.Endpoint.Json.{Event, start_object, end_object, start_array, end_array, key, string}
use tentris.Endpoint.Writer.{Term, iri_term, other_term}
use tentris.Endpoint.Handlers.{
  response, handle_count, Surroundings, select_response, stream_response,
}
use tentris.Endpoint.Requests.{EndpointCfg, Arrival, timeout_of, route}
use tentris.Endpoint.Answers.{Unanswered, late-Unanswered, Gets, route-Gets}
use tentris.Endpoint.HttpServer.{pool_size, server_settings}
use tentris.Endpoint.Executor.{
  idle, LoadSteps, LoadSteps.none, next, admit, silent_async, LoadSteps-topologies, overload,
}
use tentris.Endpoint.Streaming.{joined, stream_response-joined}
use tentris.Endpoint.Chunks.{LargeChunks, stream_response-LargeChunks}
use tentris.Endpoint.Counted.{number_of, handle_count-solutions}
use tentris.Endpoint.Document.{solutions}
use tentris.Endpoint.Body.{names, yielded, answer, select_response-answer}

-- A writer that leaves out commas and colons.
abbrev write_event : Event → Unit {0} → Unit {0} × Text
write_event start_object w = (w, bytes "{")
write_event end_object w = (w, bytes "}")
write_event start_array w = (w, bytes "[")
write_event end_array w = (w, bytes "]")
write_event (key t) w = (w, t)
write_event (string t) w = (w, t)

abbrev term_of : Node → Term
term_of (iri t) = iri_term t
term_of _ = other_term

abbrev query : Query (Unit {0})
query = record {
  odg = tt;
  projected_variables = record { name = bytes "x"; is_anonymous = false } ∷ [];
  var_to_id = (record { name = bytes "x"; is_anonymous = false }, 97) ∷ [];
  triple_patterns = [];
  distinct = false;
  ask = false;
  project_all_variables = false;
}

abbrev env : Surroundings (Unit {0}) Entries (Unit {0})
env = record {
  ops = ops;
  evaluation = record {
    evaluate = λ g hs ids endtime. co_yield (record { key = iri (bytes "a") ∷ []; value = 2 }) done;
    evaluate_distinct = λ g hs ids endtime. done;
    evaluate_ask = λ g hs ids endtime. ok true;
    default_value = 0;
  };
  hypertrie = ([], tt);
  json = record { start = tt; write = write_event };
  term_of = term_of;
  cache = λ text. ok query;
  now = 0;
  format = λ n. n ∷ [];
  flush_fails = λ n. false;
}

stream_response-joined_example :
    select_response env query 5 ≡ (stream_response env query 5 >>= joined env)
stream_response-joined_example = stream_response-joined env query 5 (λ n. refl) refl

stream_response-LargeChunks_example : Ensures LargeChunks Anything (stream_response env query 5)
stream_response-LargeChunks_example = stream_response-LargeChunks env query 5

select_response-answer_example :
    Ensures
      (λ r.
        r
        ≡ answer env
            (names query.projected_variables)
            (yielded (eval_select ops env.evaluation ([], tt) query 5)))
      Anything
      (select_response env query 5)
select_response-answer_example = select_response-answer env query 5

abbrev cfg : EndpointCfg
cfg = record { port = 9080; threads = 2; opt_timeout_duration = some 1000 }

abbrev at : Arrival
at = record { num_topologies = 0; num_workers = 2; time = 0; max_time = 2 ^ 63 - 1 }

abbrev late : Surroundings (Unit {0}) Entries (Unit {0})
late = record env { now = 2000 }

late-Unanswered_example : Unanswered (route late cfg at (bytes "/sparql") (ok (some (bytes "q"))))
unfolding timeout_of
late-Unanswered_example =
    late-Unanswered late cfg at (bytes "q") query refl refl (omega arith) (omega arith)

abbrev failing : Surroundings (Unit {0}) Entries (Unit {0})
failing = record env { cache = λ text. fail (runtime_error "q") }

route-Gets_example :
    Gets failing 400 (route failing cfg at (bytes "/count") (ok (some (bytes "q"))))
route-Gets_example =
    route-Gets failing cfg at (bytes "/count") (ok (some (bytes "q"))) (inr (inr refl))
      (runtime_error "q", refl, refl) (omega arith)

abbrev wide : EndpointCfg
wide = record { port = 9080; threads = 4; opt_timeout_duration = some 1000 }

-- Two threads of the pool pass the test, and one of them has started its request.
two_requests : LoadSteps wide idle (record { topologies = 1; admitted = 1; connections = 2 })
unfolding pool_size server_settings
two_requests =
    next _ _ _
      (next _ _ _ (next _ _ _ (none idle) (admit 0 0 0 (omega arith) (omega arith) (omega arith)))
        (admit 0 1 1 (omega arith) (omega arith) (omega arith)))
      (silent_async 0 1 2)

LoadSteps-topologies_example : 1 < 4 + pool_size wide
LoadSteps-topologies_example =
    LoadSteps-topologies wide (record { topologies = 1; admitted = 1; connections = 2 })
      two_requests

overload_example :
    LoadSteps wide idle
      (record { topologies = 4 - 1 + pool_size wide; admitted = 0; connections = pool_size wide })
unfolding pool_size
overload_example = overload wide (omega arith)

handle_count-solutions_example :
    handle_count env (ok (some (bytes "q"))) 5
    ≡ ok (
        response 200 none (
          env.format (
            number_of (
              solutions term_of
                (yielded (eval_select ops env.evaluation ([], tt) query 5))
                (names query.projected_variables))
            % 2 ^ 64)))
unfolding eval_select projected_ids find Variable-discrete
handle_count-solutions_example =
    handle_count-solutions env (bytes "q") query 5 refl (λ e. omega (arith, e)) tt
