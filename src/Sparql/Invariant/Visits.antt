-- ===== src/Sparql/Invariant/Visits.antt =====
-- Every visit of triples and of patterns keeps the invariant.
use tentris.Base.{
  ◌≡◌, refl, inl, inr, true, false, none, some, List, [], ◌∷◌, Result, Ensures, returns, throws,
  Ensures-bind, Ensures-Anything, Ensures-both, Anything, ◌++◌, subst, sym, arith, All, All-append,
  Option-cases, List-cases,
}
use tentris.Sparql.Syntax.{
  Variable, Node, null_node, variable, iri, literal, TriplePattern, ObjectContext, VerbContext,
  verb_path, verb_simple, PropertyContext, TriplesSameSubjectContext, TriplesBlockContext,
  PathContext, alternatives, no_alternative, PathAlternatives, no_sequences, path_sequence,
  PathElements, no_elements, path_elt, PathPrimaryContext, path_iri, path_a, path_negation,
  path_nested,
}
use tentris.Sparql.Graph.{GraphOps}
use tentris.Sparql.Terms.{
  Rdf, visit_var, visit_var_or_term, visit_path, visit_path_alternative, visit_path_sequence,
  visit_path_primary, visit_iri,
}
use tentris.Sparql.State.{Query, Visitor, register_var, register_node}
use tentris.Sparql.Triples.{
  id_of, node_ids, nodes_of, add_tp, visit_object, visit_object_list, visit_verb, visit_property,
  visit_properties, visit_property_list, visit_same_subject, visit_triples_block,
}
use tentris.Sparql.Ids.{Ids}
use tentris.Sparql.Invariant.{
  Known, Valid, register_var-Valid, register_node-Valid, set_subject-Valid,
}

pub node_ids-Known : (ns : List Node) (m : Ids) → All (Known m) ns → (node_ids ns m).1 ≡ m
unfolding node_ids id_of
node_ids-Known [] m h = refl
node_ids-Known (variable v ∷ ns) m ((id, e), h) = rw (e, node_ids, id_of) (node_ids-Known ns m h)
node_ids-Known (null_node ∷ ns) m h = node_ids-Known ns m h.1
node_ids-Known (iri t ∷ ns) m h = node_ids-Known ns m h.1
node_ids-Known (literal l ∷ ns) m h = node_ids-Known ns m h.1

-- A predicate that is a path is an IRI.
mutual
  unfolding visit_path

  visit_path-Known :
      (m : Ids) (rdf : Rdf) (p : PathContext) → Ensures (Known m) Anything (visit_path rdf p)
  visit_path-Known m rdf no_alternative = throws tt
  visit_path-Known m rdf (alternatives ps) = visit_path_alternative-Known m rdf ps

  visit_path_alternative-Known :
      (m : Ids) (rdf : Rdf) (ps : PathAlternatives)
      → Ensures (Known m) Anything (visit_path_alternative rdf ps)
  visit_path_alternative-Known m rdf no_sequences = throws tt
  visit_path_alternative-Known m rdf (path_sequence es no_sequences) =
      visit_path_sequence-Known m rdf es
  visit_path_alternative-Known m rdf (path_sequence es (path_sequence fs ps)) = throws tt

  visit_path_sequence-Known :
      (m : Ids) (rdf : Rdf) (es : PathElements)
      → Ensures (Known m) Anything (visit_path_sequence rdf es)
  visit_path_sequence-Known m rdf no_elements = throws tt
  visit_path_sequence-Known m rdf (path_elt true q p no_elements) = throws tt
  visit_path_sequence-Known m rdf (path_elt false q p no_elements) =
      visit_path_primary-Known m rdf p
  visit_path_sequence-Known m rdf (path_elt i q p (path_elt i' q' p' es)) = throws tt

  visit_path_primary-Known :
      (m : Ids) (rdf : Rdf) (p : PathPrimaryContext)
      → Ensures (Known m) Anything (visit_path_primary rdf p)
  visit_path_primary-Known m rdf (path_iri ctx) =
      Ensures-bind (Ensures-Anything (visit_iri rdf ctx)) (λ i _. returns tt)
  visit_path_primary-Known m rdf path_a = returns tt
  visit_path_primary-Known m rdf path_negation = throws tt
  visit_path_primary-Known m rdf (path_nested p) = visit_path-Known m rdf p

module _ {G : Type 0} (ops : GraphOps G) where
  add_tp-Valid :
      (tp : TriplePattern) (s : Visitor G)
      → Valid s
      → All (Known s.var_to_id) (nodes_of tp)
      → Ensures Valid Anything (add_tp ops tp s)
  unfolding add_tp
  add_tp-Valid tp s h known =
      rw (node_ids-Known (nodes_of tp) s.var_to_id known) (elim (List-cases s.group_patterns) [
        | inl e ↦ rw e (throws tt)
        | inr (g, gs, e) ↦ rw e (returns h)
      ])

  -- A property of the query that registering a variable keeps, and adding a triple pattern whose
  -- variables have ids.
  pub record IsStable (R : Query G → Type 0) : Type 0 where
    pub registered :
        (s : Visitor G) (v : Variable) → Valid s → R s.query → R (register_var s v).query
    pub added :
        (s : Visitor G) (tp : TriplePattern)
        → Valid s
        → All (Known s.var_to_id) (nodes_of tp)
        → R s.query
        → Ensures
            (λ (t : Visitor G). R t.query)
            Anything
            (add_tp ops tp (record s {
              query = record s.query { triple_patterns = s.triple_patterns ++ tp ∷ [] };
            }))

  module _ (R : Query G → Type 0) (stable : IsStable R) (rdf : Rdf) where
    -- The invariant, and the property.
    abbrev pub Sound : Visitor G → Type 0
    Sound s = Valid s × R s.query

    abbrev Keeps : (Visitor G → Result (Visitor G)) → Type 0
    Keeps f = (s : Visitor G) → Sound s → Ensures Sound Anything (f s)

    registered_node : (s : Visitor G) (n : Node) → Sound s → R (register_node s n).query
    registered_node s (variable v) (h, r) = stable.registered s v h r
    registered_node s null_node (h, r) = r
    registered_node s (iri t) (h, r) = r
    registered_node s (literal l) (h, r) = r

    -- A new subject does not touch the query until it is registered.
    subject_registered :
        (s : Visitor G) (n : Node)
        → (register_node (record s { active_subject = n }) n).query ≡ (register_node s n).query
    unfolding register_var
    subject_registered s (variable v) = ground arith
    subject_registered s null_node = refl
    subject_registered s (iri t) = refl
    subject_registered s (literal l) = refl

    visit_object-Sound : (o : ObjectContext) → Keeps (visit_object ops rdf o)
    unfolding visit_object
    visit_object-Sound none s h = throws tt
    visit_object-Sound (some ctx) s (h, r) =
        Ensures-bind (Ensures-Anything (visit_var_or_term rdf ctx)) (λ obj _.
          let (v, known) = register_node-Valid s obj h in
          let s1 = register_node s obj in
          let tp : TriplePattern = record {
            subject = s1.active_subject;
            predicate = s1.active_predicate;
            object = obj;
          } in
          let nodes : All (Known s1.var_to_id) (nodes_of tp) =
            (v.known_subject, (v.known_predicate, (known, tt))) in
          Ensures-both
            (add_tp-Valid tp _
              (record {
                numbered = v.numbered;
                counted = v.counted;
                patterns = All-append _ s1.triple_patterns (tp ∷ []) v.patterns (nodes, tt);
                known_subject = v.known_subject;
                known_predicate = v.known_predicate;
                projections = v.projections;
                not_ask = v.not_ask;
              })
              nodes)
            (stable.added s1 tp v nodes (registered_node s obj (h, r))))

    visit_object_list-Sound : (os : List ObjectContext) → Keeps (visit_object_list ops rdf os)
    unfolding visit_object_list
    visit_object_list-Sound [] s h = returns h
    visit_object_list-Sound (o ∷ os) s h =
        Ensures-bind (visit_object-Sound o s h) (visit_object_list-Sound os)

    visit_verb-Sound : (v : VerbContext) → Keeps (visit_verb ops rdf v)
    unfolding visit_verb
    visit_verb-Sound (verb_path path) s (h, r) =
        Ensures-bind (visit_path-Known s.var_to_id rdf path) (λ n known. returns (
          record {
            numbered = h.numbered;
            counted = h.counted;
            patterns = h.patterns;
            known_subject = h.known_subject;
            known_predicate = known;
            projections = h.projections;
            not_ask = h.not_ask;
          },
          r,
        ))
    visit_verb-Sound (verb_simple text) s (h, q) =
        Ensures-bind (Ensures-Anything (visit_var text)) (λ v _.
          let (r, known) = register_var-Valid s v h in
          returns (
            record {
              numbered = r.numbered;
              counted = r.counted;
              patterns = r.patterns;
              known_subject = r.known_subject;
              known_predicate = known;
              projections = r.projections;
              not_ask = r.not_ask;
            },
            stable.registered s v h q,
          ))

    visit_property-Sound : (p : PropertyContext) → Keeps (visit_property ops rdf p)
    unfolding visit_property
    visit_property-Sound p s h = Ensures-bind (visit_verb-Sound p.verb s h) (λ s1 h1.
        elim (Option-cases p.object_list) [
          | inl e ↦ rw e (throws tt)
          | inr (os, e) ↦ rw e (visit_object_list-Sound os s1 h1)
        ])

    visit_properties-Sound : (ps : List PropertyContext) → Keeps (visit_properties ops rdf ps)
    unfolding visit_properties
    visit_properties-Sound [] s h = returns h
    visit_properties-Sound (p ∷ ps) s h =
        Ensures-bind (visit_property-Sound p s h) (visit_properties-Sound ps)

    visit_same_subject-Sound :
        (t : TriplesSameSubjectContext) → Keeps (visit_same_subject ops rdf t)
    unfolding visit_same_subject visit_property_list
    visit_same_subject-Sound t s h = elim (Option-cases t.var_or_term) [
      | inl e ↦ rw e (returns h)
      | inr (ctx, e) ↦ rw e (elim (Option-cases t.property_list) [
        | inl e' ↦ rw e' (returns h)
        | inr (ps, e') ↦ rw e' (
            Ensures-bind (Ensures-Anything (visit_var_or_term rdf ctx)) (λ n _.
              Ensures-bind
                (visit_property-Sound ps.first _ (
                  set_subject-Valid s n h.0,
                  subst R (sym (subject_registered s n)) (registered_node s n h),
                ))
                (visit_properties-Sound ps.further)))
      ])
    ]

    pub visit_triples_block-Sound :
        (tb : TriplesBlockContext) → Keeps (visit_triples_block ops rdf tb)
    unfolding visit_triples_block
    visit_triples_block-Sound [] s h = returns h
    visit_triples_block-Sound (t ∷ ts) s h =
        Ensures-bind (visit_same_subject-Sound t s h) (visit_triples_block-Sound ts)
