-- ===== src/Endpoint/Document.antt =====
-- What `SparqlJsonResultSAXWriter` writes is one JSON document, that of the solutions.
use tentris.Base.{
  subst, String, ite, Ensures, returns, throws, Anything, Ensures-bind, Ensures-map, ℕ, zero, suc,
  List, [], ◌∷◌, ◌++◌, ◌≡◌, refl, sym, ap, ◌∙◌,
}
use mathlib.Core.List.{append-nil, append_assoc}
use tentris.Sparql.Syntax.{Text, Text-discrete, Node}
use tentris.Sparql.Terms.{bytes}
use tentris.TripleStore.Store.{Entry}
use tentris.Endpoint.Json.{
  Event, start_object, end_object, key, string, Json, text, array, object, Items, no_items, item,
  Members, no_members, member, events_of, item_events, member_events,
}
use tentris.Endpoint.Writer.{
  xsd_str, lang_events, Term, null, iri_term, literal_term, blank_node_term, other_term, RapidJson,
  SaxWriter, render, emit, add_binding, add_bindings, binding_events, add_solutions, add,
}

-- The document as a value: what the SPARQL results format asks of a binding.
abbrev pub typed : String → Members → Json
typed type rest = object (member (bytes "type") (text (bytes type)) rest)

abbrev pub valued : Text → Members
valued t = member (bytes "value") (text t) no_members

abbrev pub tagged : (datatype lang : Text) → Members → Members
tagged datatype [] rest = member (bytes "datatype") (text datatype) rest
tagged datatype (c ∷ lang) rest = member (bytes "xml:lang") (text (c ∷ lang)) rest

abbrev pub bound : Text → Term → Members → Members
bound var null rest = rest
bound var (iri_term i) rest = member var (typed "uri" (valued i)) rest
bound var (literal_term l d g) rest =
    member var (typed "literal" (ite (Text-discrete d xsd_str) (valued l) (tagged d g (valued l))))
      rest
bound var (blank_node_term i) rest = member var (typed "bnode" (valued i)) rest
bound var other_term rest = rest

module _ (term_of : Node → Term) where
  -- A solution has a member for each variable that is bound.
  abbrev pub solution : List Node → List Text → Members
  solution [] vars = no_members
  solution (n ∷ ns) [] = no_members
  solution (n ∷ ns) (var ∷ vars) = bound var (term_of n) (solution ns vars)

  abbrev pub repeated : ℕ → Json → Items → Items
  repeated zero j rest = rest
  repeated (suc n) j rest = item j (repeated n j rest)

  -- Each entry as often as it occurs.
  abbrev pub solutions : List Entry → List Text → Items
  solutions [] vars = no_items
  solutions (e ∷ es) vars = repeated e.value (object (solution e.key vars)) (solutions es vars)

abbrev pub strings : List Text → Items
strings [] = no_items
strings (t ∷ ts) = item (text t) (strings ts)

abbrev pub document : List Text → Items → Json
document vars bindings = object (
    member (bytes "head") (object (member (bytes "vars") (array (strings vars)) no_members)) (
      member (bytes "results") (object (member (bytes "bindings") (array bindings) no_members))
        no_members))

module _ {W : Type 0} (json : RapidJson W) (term_of : Node → Term) where
  render-append :
      (xs ys : List Event) (w : W)
      → render json term_of (xs ++ ys) w ≡ (
        (render json term_of ys (render json term_of xs w).0).0,
        (render json term_of xs w).1 ++ (render json term_of ys (render json term_of xs w).0).1,
      )
  unfolding render
  render-append [] ys w = refl
  render-append (x ∷ xs) ys w =
      let (w1, out) = json.write x w in
      ap (λ (r : W × Text). (r.0, out ++ r.1)) (render-append xs ys w1)
      ∙ ap (λ b. ((render json term_of ys (render json term_of xs w1).0).0, b))
          (sym (append_assoc out (render json term_of xs w1).1 _))

  -- The events that lead from one state of the writer to another.
  pub record Wrote (es : List Event) (s s' : SaxWriter W) : Type 0 where
    pub to_writer : s'.writer ≡ (render json term_of es s.writer).0
    pub to_buffer : s'.buffer ≡ s.buffer ++ (render json term_of es s.writer).1
    pub same_variables : s'.variables_ ≡ s.variables_

  pub emit-Wrote : (es : List Event) (s : SaxWriter W) → Wrote es s (emit json term_of es s)
  unfolding emit
  emit-Wrote es s = record { to_writer = refl; to_buffer = refl; same_variables = refl }

  pub Wrote-append :
      (xs ys : List Event) (s s1 s2 : SaxWriter W)
      → Wrote xs s s1
      → Wrote ys s1 s2
      → Wrote (xs ++ ys) s s2
  Wrote-append xs ys s s1 s2 a b = record {
    to_writer =
        b.to_writer
        ∙ ap (λ w. (render json term_of ys w).0) a.to_writer
        ∙ ap (λ (r : W × Text). r.0) (sym (render-append xs ys s.writer));
    to_buffer =
        b.to_buffer
        ∙ ap (λ w. s1.buffer ++ (render json term_of ys w).1) a.to_writer
        ∙ ap (λ t. t ++ (render json term_of ys (render json term_of xs s.writer).0).1) a.to_buffer
        ∙ append_assoc s.buffer _ _
        ∙ ap (λ (r : W × Text). s.buffer ++ r.1) (sym (render-append xs ys s.writer));
    same_variables = b.same_variables ∙ a.same_variables;
  }

  pub Wrote-[] : (s : SaxWriter W) → Wrote [] s s
  unfolding render
  Wrote-[] s = record {
    to_writer = refl;
    to_buffer = sym (append-nil s.buffer);
    same_variables = refl;
  }

  -- The counters are apart.
  Wrote-counted :
      (es es' : List Event) (s : SaxWriter W) (n : ℕ)
      → es' ≡ es
      → Wrote es s (record (emit json term_of es' s) { number_of_bindings_ = n })
  unfolding emit
  Wrote-counted es es' s n e =
      rw e (record { to_writer = refl; to_buffer = refl; same_variables = refl })

  literal-events :
      {P : Type 0} (simple : Dec P) (var l d g : Text)
      → (key var
          ∷ start_object
          ∷ key (bytes "type")
          ∷ string (bytes "literal")
          ∷ ((ite simple [] (lang_events d g) ++ key (bytes "value") ∷ string l ∷ [])
              ++ end_object ∷ []))
        ≡ member_events (
            member var (typed "literal" (ite simple (valued l) (tagged d g (valued l)))) no_members)
  unfolding events_of
  literal-events (yes e) var l d g = refl
  literal-events (no n) var l d [] = refl
  literal-events (no n) var l d (c ∷ g) = refl

  add_binding-Wrote :
      (var : Text) (term : Term) (s : SaxWriter W)
      → Ensures
          (λ s1. Wrote (member_events (bound var term no_members)) s s1)
          Anything
          (add_binding json term_of var term s)
  unfolding binding_events events_of
  add_binding-Wrote var null s = returns (Wrote-[] s)
  add_binding-Wrote var (iri_term i) s = returns (Wrote-counted _ _ s _ refl)
  add_binding-Wrote var (literal_term l d g) s =
      returns (Wrote-counted _ _ s _ (literal-events (Text-discrete d xsd_str) var l d g))
  add_binding-Wrote var (blank_node_term i) s = returns (Wrote-counted _ _ s _ refl)
  add_binding-Wrote var other_term s = throws tt

  bound-events :
      (var : Text) (term : Term) (rest : Members)
      → member_events (bound var term no_members) ++ member_events rest
        ≡ member_events (bound var term rest)
  unfolding events_of
  bound-events var null rest = refl
  bound-events var (iri_term i) rest = refl
  bound-events var (literal_term l d g) rest =
      ap (λ x. key var ∷ (x ++ member_events rest))
        (append-nil (
          events_of
            (typed "literal" (ite (Text-discrete d xsd_str) (valued l) (tagged d g (valued l))))))
  bound-events var (blank_node_term i) rest = refl
  bound-events var other_term rest = refl

  add_bindings-Wrote :
      (ns : List Node) (vars : List Text) (s : SaxWriter W)
      → Ensures
          (Wrote (member_events (solution term_of ns vars)) s)
          Anything
          (add_bindings json term_of ns vars s)
  unfolding add_bindings events_of
  add_bindings-Wrote [] vars s = returns (Wrote-[] s)
  add_bindings-Wrote (n ∷ ns) [] s = returns (Wrote-[] s)
  add_bindings-Wrote (n ∷ ns) (var ∷ vars) s =
      Ensures-bind (add_binding-Wrote var (term_of n) s) (λ s1 a.
        Ensures-map
          (λ s2 b.
            subst (λ es. Wrote es s s2) (bound-events var (term_of n) (solution term_of ns vars))
              (Wrote-append _ _ s s1 s2 a b))
          (add_bindings-Wrote ns vars s1))

  add_solutions-Wrote :
      (n : ℕ) (ns : List Node) (vars : List Text) (s : SaxWriter W)
      → s.variables_ ≡ vars
      → Ensures
          (Wrote (item_events (repeated term_of n (object (solution term_of ns vars)) no_items)) s)
          Anything
          (add_solutions json term_of n ns s)
  unfolding add_solutions events_of emit
  add_solutions-Wrote zero ns vars s e = returns (Wrote-[] s)
  add_solutions-Wrote (suc n) ns vars s e =
      let sol = member_events (solution term_of ns vars) in
      let opened = emit-Wrote (start_object ∷ []) s in
      Ensures-bind
        (subst
          (λ vs.
            Ensures (Wrote sol (emit json term_of (start_object ∷ []) s)) Anything
              (add_bindings json term_of ns vs (emit json term_of (start_object ∷ []) s)))
          (sym (opened.same_variables ∙ e))
          (add_bindings-Wrote ns vars (emit json term_of (start_object ∷ []) s)))
        (λ s1 a.
          let b = Wrote-append (start_object ∷ []) sol s _ s1 opened a in
          let c =
            Wrote-append (start_object ∷ sol) (end_object ∷ []) s s1 _ b
              (emit-Wrote (end_object ∷ []) s1) in
          Ensures-map (λ s3 d. Wrote-append _ _ s _ s3 c d)
            (add_solutions-Wrote n ns vars (emit json term_of (end_object ∷ []) s1)
              (c.same_variables ∙ e)))

  pub repeated-events :
      (n : ℕ) (j : Json) (rest : Items)
      → item_events (repeated term_of n j no_items) ++ item_events rest
        ≡ item_events (repeated term_of n j rest)
  unfolding events_of
  repeated-events zero j rest = refl
  repeated-events (suc n) j rest =
      append_assoc (events_of j) _ _ ∙ ap (λ es. events_of j ++ es) (repeated-events n j rest)

  pub add-Wrote :
      (e : Entry) (vars : List Text) (s : SaxWriter W)
      → s.variables_ ≡ vars
      → Ensures
          (Wrote
            (item_events (repeated term_of e.value (object (solution term_of e.key vars)) no_items))
            s)
          Anything
          (add json term_of e s)
  unfolding add
  add-Wrote e vars s q = Ensures-bind (add_solutions-Wrote e.value e.key vars s q) (λ s1 a.
      returns (record {
        to_writer = a.to_writer;
        to_buffer = a.to_buffer;
        same_variables = a.same_variables;
      }))
