-- ===== src/Endpoint/Answers.antt =====
-- Which requests get a response, and which do not.
use tentris.Base.{
  ℕ, true, false, Option, none, some, Result, ok, fail, Fault, runtime_error, out_of_range,
  null_pointer, empty_vector, out_of_bounds, bad_optional_access, out_of_fuel, ◌>>=◌, ltb, ◌<◌, ◌≤◌,
  ◌⊎◌, inl, inr, ◌≡◌, refl, ap, ◌∙◌, sym, arith, if◌then◌else◌, ite, if_pos, subst,
}
use tentris.Sparql.Syntax.{Text, Text-discrete}
use tentris.Sparql.Terms.{bytes}
use tentris.Sparql.State.{Query}
use tentris.Endpoint.Writer.{SaxWriter, string_view, close}
use tentris.Endpoint.Handlers.{
  Response, response, Surroundings, is_exception, caught, with_query, parse_sparql_query_param,
  results_json, check_timeout, ask_response, write_all, finish_body, select_response, handle_sparql,
  handle_stream, handle_count,
}
use tentris.Endpoint.Requests.{
  EndpointCfg, Arrival, Handling, rejected, accepted, timeout_of, answer_fault, handle_request,
  route,
}

-- The request is accepted, and a fault ends its task, with no response.
abbrev pub Unanswered : Handling → Type 0
Unanswered h = (f : Fault) × (h ≡ accepted (fail f))

abbrev pub Fails : Result Response → Type 0
Fails r = (f : Fault) × (r ≡ fail f)

answer_fault-Fails : (cfg : EndpointCfg) (f : Fault) → Fails (answer_fault cfg (fail f))
unfolding answer_fault
answer_fault-Fails cfg (runtime_error m) =
    elim (cfg.opt_timeout_duration)
      as (λ (o : Option ℕ).
        Fails (elim o [ none ↦ fail bad_optional_access | some d ↦ fail null_pointer ])) [
          | none ↦ (bad_optional_access, refl)
          | some d ↦ (null_pointer, refl)
        ]
answer_fault-Fails cfg out_of_range = (out_of_range, refl)
answer_fault-Fails cfg null_pointer = (null_pointer, refl)
answer_fault-Fails cfg empty_vector = (empty_vector, refl)
answer_fault-Fails cfg out_of_bounds = (out_of_bounds, refl)
answer_fault-Fails cfg bad_optional_access = (bad_optional_access, refl)
answer_fault-Fails cfg out_of_fuel = (out_of_fuel, refl)

ltb_of_lt : (a b : ℕ) → a < b → ltb a b ≡ true
ltb_of_lt a b h = ground arith

handle_request-Unanswered :
    (cfg : EndpointCfg) (at : Arrival) (handle_query : ℕ → Result Response)
    → at.num_topologies < at.num_workers
    → Fails (handle_query (timeout_of cfg at))
    → Unanswered (handle_request cfg at handle_query)
unfolding handle_request
handle_request-Unanswered cfg at handle_query idle (f, e) =
    let (g, e') = answer_fault-Fails cfg f in
    let r = answer_fault cfg (handle_query (timeout_of cfg at)) in
    (
      g,
      ap (λ b. if b then accepted r else rejected) (ltb_of_lt _ _ idle)
          ∙ ap accepted (ap (answer_fault cfg) e ∙ e'),
    )

-- One of three tests holds, and what is chosen then has the property.
choice :
    {A P Q R : Type 0} (S : A → Type 0) (p : Dec P) (q : Dec Q) (r : Dec R) (a b c e : A)
    → P ⊎ (Q ⊎ R)
    → S a
    → S b
    → S c
    → S (ite p a (ite q b (ite r c e)))
choice S (yes _) q r a b c e h ha hb hc = ha
choice S (no _) (yes _) r a b c e h ha hb hc = hb
choice S (no _) (no _) (yes _) a b c e h ha hb hc = hc
choice S (no n) (no m) (no k) a b c e h ha hb hc =
    absurd (elim h [ inl x ↦ n x | inr y ↦ elim y [ inl z ↦ m z | inr w ↦ k w ] ])

module _ {G H W : Type 0} (env : Surroundings G H W) where
  check_timeout-late :
      (timeout : ℕ)
      → timeout ≤ env.now
      → check_timeout env timeout ≡ fail (runtime_error "timeout reached")
  check_timeout-late timeout late = ground arith

  finish_body-late :
      (timeout : ℕ) (r : Result (SaxWriter W))
      → timeout ≤ env.now
      → Fails (r >>= finish_body env timeout)
  finish_body-late timeout (fail f) late = (f, refl)
  finish_body-late timeout (ok s) late = (
    runtime_error "timeout reached",
    (ap
        (λ (c : Result (Unit {0})). c >>= λ checked.
          ok (response 200 (some results_json) (string_view (close env.json env.term_of s))))
        (check_timeout-late timeout late)),
  )

  handle_sparql-late :
      (text : Text) (query : Query G) (timeout : ℕ)
      → env.cache text ≡ ok query
      → query.ask ≡ false
      → timeout ≤ env.now
      → Fails (handle_sparql env (ok (some text)) timeout)
  unfolding handle_sparql parse_sparql_query_param select_response
  handle_sparql-late text query timeout cached select late =
      let respond : Query G → Result Response =
        λ q. if q.ask then ask_response env q timeout else select_response env q timeout in
      let (f, e) = finish_body-late timeout (write_all env _ _) late in
      (
        f,
        ap (λ c. caught env c >>= with_query env respond) cached
            ∙ ap
                (λ b.
                  if b then ask_response env query timeout else select_response env query timeout)
                select
            ∙ e,
      )

  -- On an idle executor, a SELECT query whose timeout has passed when /sparql checks it gets no response
  -- from its task, not even that of a timeout: a fault ends the task.
  pub late-Unanswered :
      (cfg : EndpointCfg) (at : Arrival) (text : Text) (query : Query G)
      → env.cache text ≡ ok query
      → query.ask ≡ false
      → timeout_of cfg at ≤ env.now
      → at.num_topologies < at.num_workers
      → Unanswered (route env cfg at (bytes "/sparql") (ok (some text)))
  unfolding route
  late-Unanswered cfg at text query cached select late idle =
      subst Unanswered (sym (if_pos (Text-discrete (bytes "/sparql") (bytes "/sparql")) refl _ _)) (
        handle_request-Unanswered cfg at (handle_sparql env (ok (some text))) idle
          (handle_sparql-late text query (timeout_of cfg at) cached select late))

  -- A parameter that names no query which the cache can give.
  abbrev pub IsBad : Result (Option Text) → Type 0
  IsBad (fail f) = ⊥
  IsBad (ok none) = Unit
  IsBad (ok (some text)) = (f : Fault) × (env.cache text ≡ fail f) × (is_exception f ≡ true)

  abbrev pub IsBadRequest : Result (Response ⊎ Query G) → Type 0
  IsBadRequest r = (message : Text) × (r ≡ ok (inl (response 400 none message)))

  parse_sparql_query_param-IsBadRequest :
      (param : Result (Option Text))
      → IsBad param
      → IsBadRequest (parse_sparql_query_param env param)
  unfolding parse_sparql_query_param
  parse_sparql_query_param-IsBadRequest (fail f) bad = absurd bad
  parse_sparql_query_param-IsBadRequest (ok none) bad = (_, refl)
  parse_sparql_query_param-IsBadRequest (ok (some text)) (f, e, x) =
      let unparsable = bytes "Value of query parameter 'query' is not parsable." in
      (
        unparsable,
        ap (caught env) e
            ∙ ap (λ b. if b then ok (inl (response 400 none unparsable)) else fail f) x,
      )

  abbrev pub Gets : ℕ → Handling → Type 0
  Gets status h = (message : Text) × (h ≡ accepted (ok (response status none message)))

  handle_request-Gets :
      (cfg : EndpointCfg) (at : Arrival) (param : Result (Option Text))
      (answer : ℕ → Query G → Result Response)
      → at.num_topologies < at.num_workers
      → IsBad param
      → Gets 400 (
          handle_request cfg at
            (λ timeout. parse_sparql_query_param env param >>= with_query env (answer timeout)))
  unfolding handle_request answer_fault
  handle_request-Gets cfg at param answer idle bad =
      let (message, e) = parse_sparql_query_param-IsBadRequest param bad in
      let r : Result (Response ⊎ Query G) → Handling =
        λ q. accepted (answer_fault cfg (q >>= with_query env (answer (timeout_of cfg at)))) in
      let q = parse_sparql_query_param env param in
      (message, ap (λ b. if b then r q else rejected) (ltb_of_lt _ _ idle) ∙ ap r e)

  abbrev pub IsEndpoint : Text → Type 0
  IsEndpoint path = (path ≡ bytes "/sparql") ⊎ ((path ≡ bytes "/stream") ⊎ (path ≡ bytes "/count"))

  -- On an idle executor a request for any of the three endpoints gets status 400 if its query is missing
  -- or the parser ends in an exception.
  pub route-Gets :
      (cfg : EndpointCfg) (at : Arrival) (path : Text) (param : Result (Option Text))
      → IsEndpoint path
      → IsBad param
      → at.num_topologies < at.num_workers
      → Gets 400 (route env cfg at path param)
  unfolding route handle_sparql handle_stream handle_count
  route-Gets cfg at path param known bad idle =
      choice (Gets 400) (Text-discrete path (bytes "/sparql"))
        (Text-discrete path (bytes "/stream")) (Text-discrete path (bytes "/count")) _ _ _ _ known
        (handle_request-Gets cfg at param _ idle bad) (handle_request-Gets cfg at param _ idle bad)
        (handle_request-Gets cfg at param _ idle bad)
