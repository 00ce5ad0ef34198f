-- ===== src/Endpoint/Requests.antt =====
-- `Endpoint::operator()`, and the routes of `HTTPServer`.
use tentris.Base.{
  ℕ, ◌+◌, Option, none, some, Result, ok, fail, runtime_error, bad_optional_access, null_pointer,
  if◌then◌else◌, ltb, ite,
}
use tentris.Sparql.Syntax.{Text, Text-discrete}
use tentris.Sparql.Terms.{bytes}
use tentris.Endpoint.Handlers.{
  Response, response, Surroundings, handle_sparql, handle_stream, handle_count,
}

pub record EndpointCfg : Type 0 where
  pub port : ℕ
  pub threads : ℕ
  pub opt_timeout_duration : Option ℕ

-- What an executor and a clock say when the request comes.
pub record Arrival : Type 0 where
  pub num_topologies : ℕ
  pub num_workers : ℕ
  pub time : ℕ
  pub max_time : ℕ

-- An accepted request is answered later, or a fault ends its task.
pub data Handling : Type 0 where
  rejected : Handling
  accepted : Result Response → Handling

unfoldable pub timeout_of : EndpointCfg → Arrival → ℕ
timeout_of cfg at = elim cfg.opt_timeout_duration [
  | none ↦ at.max_time
  | some duration ↦ at.time + duration
]

-- The `catch` of the task. It reads the timeout, and then `req`, which has been moved into
-- `handle_query`: the pointer is null.
unfoldable pub answer_fault : EndpointCfg → Result Response → Result Response
answer_fault cfg (ok r) = ok r
answer_fault cfg (fail (runtime_error message)) = elim cfg.opt_timeout_duration [
  | none ↦ fail bad_optional_access
  | some duration ↦ fail null_pointer
]
answer_fault cfg (fail f) = fail f

-- `handle_query` is the argument.
unfoldable pub handle_request : EndpointCfg → Arrival → (ℕ → Result Response) → Handling
handle_request cfg at handle_query =
    if ltb at.num_topologies at.num_workers
    then accepted (answer_fault cfg (handle_query (timeout_of cfg at)))
    else rejected

module _ {G H W : Type 0} (env : Surroundings G H W) where
  -- The GET routes, and the handler of other requests.
  unfoldable pub route : EndpointCfg → Arrival → Text → Result (Option Text) → Handling
  route cfg at path param =
      ite (Text-discrete path (bytes "/sparql")) (handle_request cfg at (handle_sparql env param)) (
        ite (Text-discrete path (bytes "/stream")) (handle_request cfg at (handle_stream env param))
          (ite (Text-discrete path (bytes "/count"))
            (handle_request cfg at (handle_count env param))
            (accepted (ok (response 404 none (bytes ""))))))
