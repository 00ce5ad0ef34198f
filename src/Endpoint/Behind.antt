-- ===== src/Endpoint/Behind.antt =====
-- The writer with more text before its buffer.
use tentris.Base.{
  ◌+◌, ◌%◌, ◌^◌, ℕ, zero, suc, List, [], ◌∷◌, ◌++◌, Result, ok, fail, ◌>>=◌, ◌≡◌, refl, ap, ◌∙◌,
}
use mathlib.Core.List.{append_assoc}
use tentris.Sparql.Syntax.{Text, Node}
use tentris.Sparql.Terms.{bytes}
use tentris.TripleStore.Store.{Entry}
use tentris.Endpoint.Json.{Event, key, start_object, end_object}
use tentris.Endpoint.Writer.{
  Term, null, iri_term, literal_term, blank_node_term, other_term, add_term, add_binding, RapidJson,
  SaxWriter, render, emit, add_bindings, binding_events, add_solutions, add,
}

module _ {W : Type 0} where
  -- The writer with `pre` before its buffer.
  abbrev pub behind : Text → SaxWriter W → SaxWriter W
  behind pre s = record s { buffer = pre ++ s.buffer }

  abbrev pub behind_all : Text → Result (SaxWriter W) → Result (SaxWriter W)
  behind_all pre (fail f) = fail f
  behind_all pre (ok s) = ok (behind pre s)

  behind_all-bind :
      (pre : Text) (r : Result (SaxWriter W)) (f : SaxWriter W → Result (SaxWriter W))
      → ((s : SaxWriter W) → f (behind pre s) ≡ behind_all pre (f s))
      → (behind_all pre r >>= f) ≡ behind_all pre (r >>= f)
  behind_all-bind pre (fail e) f h = refl
  behind_all-bind pre (ok s) f h = h s

  module _ (json : RapidJson W) (term_of : Node → Term) where
    pub emit-behind :
        (pre : Text) (es : List Event) (s : SaxWriter W)
        → emit json term_of es (behind pre s) ≡ behind pre (emit json term_of es s)
    unfolding emit
    emit-behind pre es s =
        ap (λ b. record s { writer = (render json term_of es s.writer).0; buffer = b })
          (append_assoc pre s.buffer (render json term_of es s.writer).1)

    add_term-behind :
        (pre var : Text) (term : Term) (s : SaxWriter W)
        → add_term json term_of var term (behind pre s)
          ≡ behind_all pre (add_term json term_of var term s)
    add_term-behind pre var term s = events (binding_events term)
      where
        events :
            (r : Result (List Event))
            → (r >>= λ es.
                let s1 =
                  emit json term_of
                    (key var ∷ start_object ∷ key (bytes "type") ∷ (es ++ end_object ∷ []))
                    (behind pre s) in
                ok (record s1 { number_of_bindings_ = (s1.number_of_bindings_ + 1) % 2 ^ 64 }))
              ≡ behind_all pre (
                  r >>= λ es.
                  let s1 =
                    emit json term_of
                      (key var ∷ start_object ∷ key (bytes "type") ∷ (es ++ end_object ∷ []))
                      s in
                  ok (record s1 { number_of_bindings_ = (s1.number_of_bindings_ + 1) % 2 ^ 64 }))
        events (fail f) = refl
        events (ok es) =
            ap
              (λ (t : SaxWriter W).
                ok (record t { number_of_bindings_ = (t.number_of_bindings_ + 1) % 2 ^ 64 }))
              (emit-behind pre _ s)

    add_binding-behind :
        (pre var : Text) (term : Term) (s : SaxWriter W)
        → add_binding json term_of var term (behind pre s)
          ≡ behind_all pre (add_binding json term_of var term s)
    add_binding-behind pre var null s = refl
    add_binding-behind pre var (iri_term i) s = add_term-behind pre var _ s
    add_binding-behind pre var (literal_term l d g) s = add_term-behind pre var _ s
    add_binding-behind pre var (blank_node_term i) s = add_term-behind pre var _ s
    add_binding-behind pre var other_term s = add_term-behind pre var _ s

    add_bindings-behind :
        (pre : Text) (ns : List Node) (vars : List Text) (s : SaxWriter W)
        → add_bindings json term_of ns vars (behind pre s)
          ≡ behind_all pre (add_bindings json term_of ns vars s)
    unfolding add_bindings
    add_bindings-behind pre [] vars s = refl
    add_bindings-behind pre (n ∷ ns) [] s = refl
    add_bindings-behind pre (n ∷ ns) (var ∷ vars) s =
        ap (λ r. r >>= add_bindings json term_of ns vars) (add_binding-behind pre var (term_of n) s)
        ∙ behind_all-bind pre (add_binding json term_of var (term_of n) s) _
            (add_bindings-behind pre ns vars)

    add_solutions-behind :
        (pre : Text) (n : ℕ) (ns : List Node) (s : SaxWriter W)
        → add_solutions json term_of n ns (behind pre s)
          ≡ behind_all pre (add_solutions json term_of n ns s)
    unfolding add_solutions
    add_solutions-behind pre zero ns s = refl
    add_solutions-behind pre (suc n) ns s =
        let f : SaxWriter W → Result (SaxWriter W) =
          λ t. add_solutions json term_of n ns (emit json term_of (end_object ∷ []) t) in
        let opened = emit json term_of (start_object ∷ []) s in
        ap (λ t. add_bindings json term_of ns s.variables_ t >>= f)
          (emit-behind pre (start_object ∷ []) s)
        ∙ ap (λ r. r >>= f) (add_bindings-behind pre ns s.variables_ opened)
        ∙ behind_all-bind pre (add_bindings json term_of ns s.variables_ opened) f (λ t.
          ap (add_solutions json term_of n ns) (emit-behind pre (end_object ∷ []) t)
          ∙ add_solutions-behind pre n ns (emit json term_of (end_object ∷ []) t))

    pub add-behind :
        (pre : Text) (e : Entry) (s : SaxWriter W)
        → add json term_of e (behind pre s) ≡ behind_all pre (add json term_of e s)
    unfolding add
    add-behind pre e s =
        ap (λ r. r >>= counted) (add_solutions-behind pre e.value e.key s)
        ∙ behind_all-bind pre (add_solutions json term_of e.value e.key s) counted (λ t. refl)
      where
        counted : SaxWriter W → Result (SaxWriter W)
        counted t =
            ok (record t { number_of_solutions_ = (t.number_of_solutions_ + e.value) % 2 ^ 64 })
