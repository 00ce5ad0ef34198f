-- ===== src/Endpoint/Chunks.antt =====
-- How long the chunks of `/stream` are.
use tentris.Base.{
  ℕ, zero, suc, ◌<◌, Option, none, some, List, [], ◌∷◌, ◌++◌, Result, ltb→lt, ◌≡◌, refl, ◌∙◌, inl,
  inr, Bool-cases, length, Ensures, returns, throws, Ensures-bind, Ensures-map, Ensures-Anything,
  subst, All, Anything,
}
use tentris.Sparql.Syntax.{Text, Node, Variable}
use tentris.Sparql.State.{Query}
use tentris.TripleStore.Store.{Generator, done, throw, co_yield, Entry, eval_select}
use tentris.Endpoint.Json.{Event}
use tentris.Endpoint.Writer.{
  Term, null, iri_term, literal_term, blank_node_term, other_term, RapidJson, SaxWriter, emit,
  binding_events, add_term, add_binding, add_bindings, add_solutions, add, sax_writer, full, clear,
  close, string_view,
}
use tentris.Endpoint.Handlers.{
  Response, response, chunked, broken_off, Surroundings, write_chunks, flush_full, finish_chunks,
  stream_response,
}

module _ {W : Type 0} (json : RapidJson W) (term_of : Node → Term) where
  abbrev SameSize : SaxWriter W → SaxWriter W → Type 0
  SameSize s t = t.buffer_size ≡ s.buffer_size

  emit-SameSize : (es : List Event) (s : SaxWriter W) → SameSize s (emit json term_of es s)
  unfolding emit
  emit-SameSize es s = refl

  add_term-SameSize :
      (var : Text) (term : Term) (s : SaxWriter W)
      → Ensures (SameSize s) Anything (add_term json term_of var term s)
  add_term-SameSize var term s =
      Ensures-bind (Ensures-Anything (binding_events term)) (λ es _. returns (emit-SameSize _ s))

  add_binding-SameSize :
      (var : Text) (term : Term) (s : SaxWriter W)
      → Ensures (SameSize s) Anything (add_binding json term_of var term s)
  add_binding-SameSize var null s = returns refl
  add_binding-SameSize var (iri_term i) s = add_term-SameSize var _ s
  add_binding-SameSize var (literal_term l d g) s = add_term-SameSize var _ s
  add_binding-SameSize var (blank_node_term i) s = add_term-SameSize var _ s
  add_binding-SameSize var other_term s = add_term-SameSize var _ s

  add_bindings-SameSize :
      (ns : List Node) (vars : List Text) (s : SaxWriter W)
      → Ensures (SameSize s) Anything (add_bindings json term_of ns vars s)
  unfolding add_bindings
  add_bindings-SameSize [] vars s = returns refl
  add_bindings-SameSize (n ∷ ns) [] s = returns refl
  add_bindings-SameSize (n ∷ ns) (var ∷ vars) s =
      Ensures-bind (add_binding-SameSize var (term_of n) s)
        (λ s1 e. Ensures-map (λ t e'. e' ∙ e) (add_bindings-SameSize ns vars s1))

  add_solutions-SameSize :
      (n : ℕ) (ns : List Node) (s : SaxWriter W)
      → Ensures (SameSize s) Anything (add_solutions json term_of n ns s)
  unfolding add_solutions
  add_solutions-SameSize zero ns s = returns refl
  add_solutions-SameSize (suc n) ns s =
      Ensures-bind (add_bindings-SameSize ns s.variables_ (emit json term_of _ s)) (λ s1 e.
        Ensures-map (λ t e'. e' ∙ emit-SameSize _ s1 ∙ e ∙ emit-SameSize _ s)
          (add_solutions-SameSize n ns (emit json term_of _ s1)))

  add-SameSize :
      (e : Entry) (s : SaxWriter W) → Ensures (SameSize s) Anything (add json term_of e s)
  unfolding add
  add-SameSize e s = Ensures-bind (add_solutions-SameSize e.value e.key s) (λ s1 same. returns same)

  sax_writer-buffer_size :
      (variables : List Variable) (size : ℕ)
      → (sax_writer json term_of variables size).buffer_size ≡ size
  unfolding sax_writer emit
  sax_writer-buffer_size variables size = refl

-- Each of the chunks has more than 100,000 bytes.
abbrev AllLarge : List Text → Type 0
AllLarge chunks = All (λ chunk. 100000 < length chunk) chunks

-- The chunks of a response are large, but for the last of one that is not broken off.
abbrev pub LargeChunks : Response → Type 0
LargeChunks (response status content_type body) = ⊥
LargeChunks (chunked content_type chunks) =
    (flushed : List Text) × (last : Text) × (chunks ≡ flushed ++ last ∷ []) × AllLarge flushed
LargeChunks (broken_off content_type chunks) = AllLarge chunks

module _ {G H W : Type 0} (env : Surroundings G H W) where
  flush_full-AllLarge :
      (n : ℕ) (s : SaxWriter W) (later rest : Result (List Text × Option (SaxWriter W)))
      → s.buffer_size ≡ 100000
      → Ensures (λ r. AllLarge r.0) Anything later
      → Ensures (λ r. AllLarge r.0) Anything rest
      → Ensures (λ r. AllLarge r.0) Anything (flush_full env n s later rest)
  flush_full-AllLarge n s later rest size h h' = elim (Bool-cases (full s)) [
    | inr e ↦ rw e h'
    | inl e ↦
        let long : 100000 < length s.buffer =
          subst (λ z. z < length s.buffer) size (ltb→lt _ _ e) in
        elim (Bool-cases (env.flush_fails n)) [
          | inl f ↦ rw (e, f) (returns (long, tt))
          | inr f ↦
              rw (e, f) (Ensures-bind h (λ (chunks, end) full_ones. returns (long, full_ones)))
        ]
  ]

  write_chunks-AllLarge :
      (g : Generator Entry) (n : ℕ) (s : SaxWriter W)
      → s.buffer_size ≡ 100000
      → Ensures (λ r. AllLarge r.0) Anything (write_chunks env g n s)
  unfolding write_chunks
  write_chunks-AllLarge done n s size = returns tt
  write_chunks-AllLarge (throw f) n s size = throws tt
  write_chunks-AllLarge (co_yield e g) n s size =
      Ensures-bind (add-SameSize env.json env.term_of e s) (λ s1 same.
        flush_full-AllLarge n s1 _ _ (same ∙ size)
          (write_chunks-AllLarge g (suc n) (clear s1) (same ∙ size))
          (write_chunks-AllLarge g n s1 (same ∙ size)))

  -- A response of `/stream` is in chunks, and each of them has more than 100,000 bytes, but for the
  -- last of a response that is not broken off.
  pub stream_response-LargeChunks :
      (query : Query G) (timeout : ℕ)
      → Ensures LargeChunks Anything (stream_response env query timeout)
  unfolding stream_response
  stream_response-LargeChunks query timeout =
      Ensures-bind
        (write_chunks-AllLarge (eval_select env.ops env.evaluation env.hypertrie query timeout) 0
          (sax_writer env.json env.term_of query.projected_variables 100000)
          (sax_writer-buffer_size env.json env.term_of query.projected_variables 100000))
        finished
    where
      finished :
          (r : List Text × Option (SaxWriter W))
          → AllLarge r.0
          → Ensures LargeChunks Anything (finish_chunks env r)
      finished (chunks, none) h = returns h
      finished (chunks, some s) h =
          returns (chunks, string_view (close env.json env.term_of s), refl, h)
