-- ===== src/Sparql/Terms/Faults.antt =====
-- The faults of the visits that build terms: exceptions and null dereferences alone.
use tentris.Base.{
  ℕ, ◌^◌, ◌-◌, true, false, Result, Ensures, returns, throws, Ensures-bind, Safe, length,
  Option-cases, Bool-cases, inl, inr, ltb,
}
use tentris.Sparql.Syntax.{
  Text, IriContext, iriref, pname_ln, pname_ns, BlankNodeContext, blank_node_label, anon,
  StringContext, short_string, long_string, RdfLiteralContext, iri_term, blank_term, rdf_literal,
  boolean_literal, numeric_literal, nil_term, VarOrTermContext, var, term, PathContext,
  alternatives, no_alternative, PathAlternatives, no_sequences, path_sequence, PathElements,
  no_elements, path_elt, PathPrimaryContext, path_iri, path_a, path_negation, path_nested,
}
use tentris.Sparql.Terms.{
  Rdf, substr, visit_var, visit_iri, split_prefix, visit_blank_node, visit_string, make_typed,
  visit_rdf_literal, visit_numeric_literal, visit_graph_term, visit_var_or_term, visit_path,
  visit_path_alternative, visit_path_sequence, visit_path_primary, size_minus,
}

abbrev pub Returns : {A : Type 0} → Result A → Type 0
Returns r = Ensures (λ _. Unit {0}) Safe r

substr-Safe : (pos n : ℕ) (s : Text) → Returns (substr pos n s)
substr-Safe pos n s = elim (Bool-cases (ltb (length s) pos)) [
  | inl e ↦ rw e (throws tt)
  | inr e ↦ rw e (returns tt)
]

pub visit_var-Safe : (t : Text) → Returns (visit_var t)
unfolding visit_var
visit_var-Safe t = Ensures-bind (substr-Safe 1 (2 ^ 64 - 1) t) (λ n _. returns tt)

visit_iri-Safe : (rdf : Rdf) (ctx : IriContext) → Returns (visit_iri rdf ctx)
unfolding visit_iri
visit_iri-Safe rdf (iriref t) = substr-Safe 1 (size_minus t 2) t
visit_iri-Safe rdf (pname_ns t) = throws tt
visit_iri-Safe rdf (pname_ln t) =
    elim (Option-cases (rdf.from_prefix (split_prefix t).0 (split_prefix t).1)) [
      | inl e ↦ rw (e, visit_iri) (throws tt)
      | inr (i, e) ↦ rw (e, visit_iri) (returns tt)
    ]

visit_blank_node-Safe : (ctx : BlankNodeContext) → Returns (visit_blank_node ctx)
unfolding visit_blank_node
visit_blank_node-Safe anon = throws tt
visit_blank_node-Safe (blank_node_label t) =
    Ensures-bind (substr-Safe 2 (2 ^ 64 - 1) t) (λ n _. returns tt)

visit_string-Safe : (ctx : StringContext) → Returns (visit_string ctx)
unfolding visit_string
visit_string-Safe (short_string t) = substr-Safe 1 (size_minus t 2) t
visit_string-Safe (long_string t) = substr-Safe 3 (size_minus t 6) t

make_typed-Safe : (rdf : Rdf) (value datatype : Text) → Returns (make_typed rdf value datatype)
unfolding make_typed
make_typed-Safe rdf value datatype = elim (Bool-cases (rdf.accepts value datatype)) [
  | inl e ↦ rw e (returns tt)
  | inr e ↦ rw e (throws tt)
]

visit_rdf_literal-Safe : (rdf : Rdf) (ctx : RdfLiteralContext) → Returns (visit_rdf_literal rdf ctx)
unfolding visit_rdf_literal
visit_rdf_literal-Safe rdf ctx = Ensures-bind (visit_string-Safe ctx.string) (λ value _.
    elim (Option-cases ctx.datatype) [
      | inr (i, e) ↦ rw e (Ensures-bind (visit_iri-Safe rdf i) (λ d _. make_typed-Safe rdf value d))
      | inl e ↦ rw e (elim (Option-cases ctx.langtag) [
        | inl e' ↦ rw e' (returns tt)
        | inr (tag, e') ↦
            rw e' (Ensures-bind (substr-Safe 1 (2 ^ 64 - 1) tag) (λ lang _. returns tt))
      ])
    ])

pub visit_var_or_term-Safe :
    (rdf : Rdf) (ctx : VarOrTermContext) → Returns (visit_var_or_term rdf ctx)
unfolding visit_var_or_term visit_graph_term visit_numeric_literal
visit_var_or_term-Safe rdf (var t) = Ensures-bind (visit_var-Safe t) (λ v _. returns tt)
visit_var_or_term-Safe rdf (term (iri_term ctx)) =
    Ensures-bind (visit_iri-Safe rdf ctx) (λ i _. returns tt)
visit_var_or_term-Safe rdf (term (blank_term ctx)) =
    Ensures-bind (visit_blank_node-Safe ctx) (λ v _. returns tt)
visit_var_or_term-Safe rdf (term (rdf_literal ctx)) =
    Ensures-bind (visit_rdf_literal-Safe rdf ctx) (λ l _. returns tt)
visit_var_or_term-Safe rdf (term (boolean_literal b)) = returns tt
visit_var_or_term-Safe rdf (term (numeric_literal ctx)) =
    Ensures-bind (make_typed-Safe rdf ctx.text _) (λ l _. returns tt)
visit_var_or_term-Safe rdf (term nil_term) = throws tt

mutual
  unfolding visit_path

  pub visit_path-Safe : (rdf : Rdf) (p : PathContext) → Returns (visit_path rdf p)
  visit_path-Safe rdf no_alternative = throws tt
  visit_path-Safe rdf (alternatives ps) = visit_path_alternative-Safe rdf ps

  visit_path_alternative-Safe :
      (rdf : Rdf) (ps : PathAlternatives) → Returns (visit_path_alternative rdf ps)
  visit_path_alternative-Safe rdf no_sequences = throws tt
  visit_path_alternative-Safe rdf (path_sequence es no_sequences) = visit_path_sequence-Safe rdf es
  visit_path_alternative-Safe rdf (path_sequence es (path_sequence fs ps)) = throws tt

  visit_path_sequence-Safe : (rdf : Rdf) (es : PathElements) → Returns (visit_path_sequence rdf es)
  visit_path_sequence-Safe rdf no_elements = throws tt
  visit_path_sequence-Safe rdf (path_elt true q p no_elements) = throws tt
  visit_path_sequence-Safe rdf (path_elt false q p no_elements) = visit_path_primary-Safe rdf p
  visit_path_sequence-Safe rdf (path_elt i q p (path_elt i' q' p' es)) = throws tt

  visit_path_primary-Safe :
      (rdf : Rdf) (p : PathPrimaryContext) → Returns (visit_path_primary rdf p)
  visit_path_primary-Safe rdf (path_iri ctx) =
      Ensures-bind (visit_iri-Safe rdf ctx) (λ i _. returns tt)
  visit_path_primary-Safe rdf path_a = returns tt
  visit_path_primary-Safe rdf path_negation = throws tt
  visit_path_primary-Safe rdf (path_nested p) = visit_path-Safe rdf p
