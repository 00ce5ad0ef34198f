-- ===== src/Endpoint/Body.antt =====
-- The body of `/sparql` for a SELECT query.
use tentris.Base.{
  ℕ, some, List, [], ◌∷◌, ◌++◌, map, ◌≡◌, refl, ap, ◌∙◌, subst, Ensures, returns, throws, Anything,
  Ensures-bind, Ensures-map, Ensures-Anything,
}
use mathlib.Core.List.{append-nil, append_assoc}
use tentris.Sparql.Syntax.{Text, Variable}
use tentris.Sparql.Terms.{bytes}
use tentris.Sparql.State.{Query}
use tentris.TripleStore.Store.{Entry, Generator, done, throw, co_yield, eval_select}
use tentris.Endpoint.Json.{
  Event, start_object, end_object, start_array, end_array, key, string, object, Items, events_of,
  item_events,
}
use tentris.Endpoint.Writer.{SaxWriter, render, sax_writer, close}
use tentris.Endpoint.Handlers.{
  Response, response, results_json, Surroundings, check_timeout, write_all, select_response,
}
use tentris.Endpoint.Document.{
  solution, solutions, strings, document, Wrote, emit-Wrote, Wrote-append, Wrote-[],
  repeated-events, add-Wrote,
}

-- The entries of a generator.
abbrev pub yielded : Generator Entry → List Entry
yielded done = []
yielded (throw f) = []
yielded (co_yield e g) = e ∷ yielded g

abbrev pub names : List Variable → List Text
names vs = map (λ (v : Variable). v.name) vs

-- The events of the constructor.
abbrev header : List Text → List Event
header vars =
    start_object
    ∷ key (bytes "head")
    ∷ start_object
    ∷ key (bytes "vars")
    ∷ start_array
    ∷ (map string vars
        ++ end_array
          ∷ end_object
          ∷ key (bytes "results")
          ∷ start_object
          ∷ key (bytes "bindings")
          ∷ start_array
          ∷ [])

strings-events : (vars : List Text) → item_events (strings vars) ≡ map string vars
unfolding events_of
strings-events [] = refl
strings-events (v ∷ vars) = ap (◌∷◌ (string v)) (strings-events vars)

document-events :
    (vars : List Text) (items : Items)
    → (header vars ++ item_events items) ++ end_array ∷ end_object ∷ end_object ∷ []
      ≡ events_of (document vars items)
unfolding events_of
document-events vars items = simp (strings-events, append_assoc, append-nil)

module _ {G H W : Type 0} (env : Surroundings G H W) where
  write_all-Wrote :
      (g : Generator Entry) (vars : List Text) (s : SaxWriter W)
      → s.variables_ ≡ vars
      → Ensures
          (Wrote env.json env.term_of (item_events (solutions env.term_of (yielded g) vars)) s)
          Anything
          (write_all env g s)
  unfolding write_all events_of
  write_all-Wrote done vars s e = returns (Wrote-[] env.json env.term_of s)
  write_all-Wrote (throw f) vars s e = throws tt
  write_all-Wrote (co_yield e g) vars s q =
      Ensures-bind (add-Wrote env.json env.term_of e vars s q) (λ s1 a.
        Ensures-map
          (λ s2 b.
            subst (λ es. Wrote env.json env.term_of es s s2)
              (repeated-events env.json env.term_of e.value
                (object (solution env.term_of e.key vars)) (solutions env.term_of (yielded g) vars))
              (Wrote-append env.json env.term_of _ _ s s1 s2 a b))
          (write_all-Wrote g vars s1 (a.same_variables ∙ q)))

  -- The answer to a query with these solutions.
  abbrev pub answer : List Text → List Entry → Response
  answer vars entries =
      response 200 (some results_json)
        (render env.json env.term_of
          (events_of (document vars (solutions env.term_of entries vars))) env.json.start).1

  -- Where `/sparql` answers a SELECT query, its body is the text of one JSON document: the names of the
  -- projected variables, and for each entry that the evaluation yields, as often as it occurs, an
  -- object with the variables that it binds.
  pub select_response-answer :
      (query : Query G) (timeout : ℕ)
      → Ensures
          (λ r.
            r
            ≡ answer
                (names query.projected_variables)
                (yielded (eval_select env.ops env.evaluation env.hypertrie query timeout)))
          Anything
          (select_response env query timeout)
  unfolding select_response sax_writer close
  select_response-answer query timeout =
      let vars = names query.projected_variables in
      let g = eval_select env.ops env.evaluation env.hypertrie query timeout in
      let empty : SaxWriter W = record {
        number_of_solutions_ = 0;
        number_of_bindings_ = 0;
        buffer_size = 100000;
        buffer = [];
        writer = env.json.start;
        variables_ = vars;
      } in
      let sw = sax_writer env.json env.term_of query.projected_variables 100000 in
      let start = emit-Wrote env.json env.term_of (header vars) empty in
      Ensures-bind (write_all-Wrote g vars sw start.same_variables) (λ s1 a.
        Ensures-bind (Ensures-Anything (check_timeout env timeout)) (λ _ _.
          let b = Wrote-append env.json env.term_of _ _ empty sw s1 start a in
          let c =
            Wrote-append env.json env.term_of _ _ empty s1 _ b
              (emit-Wrote env.json env.term_of (end_array ∷ end_object ∷ end_object ∷ []) s1) in
          returns (
            ap (response 200 (some results_json)) (
              c.to_buffer
              ∙ ap (λ es. (render env.json env.term_of es env.json.start).1)
                  (document-events vars (solutions env.term_of (yielded g) vars))))))
