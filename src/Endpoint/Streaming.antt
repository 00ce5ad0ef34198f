-- ===== src/Endpoint/Streaming.antt =====
-- The chunks of `/stream` are the body of `/sparql`.
use tentris.Base.{
  ℕ, suc, true, false, Option, none, some, List, [], ◌∷◌, ◌++◌, Result, ok, fail, ◌>>=◌,
  if◌then◌else◌, ltb, ◌≡◌, refl, sym, ap, ◌∙◌, inl, inr, Bool-cases, null_pointer,
}
use mathlib.Core.List.{append-nil, append_assoc}
use tentris.Sparql.Syntax.{Text}
use tentris.Sparql.State.{Query}
use tentris.TripleStore.Store.{Generator, done, throw, co_yield, Entry, eval_select}
use tentris.Endpoint.Writer.{SaxWriter, sax_writer, add, close, full, string_view, clear}
use tentris.Endpoint.Handlers.{
  Response, response, chunked, broken_off, results_json, Surroundings, write_all, write_chunks,
  keep_chunk, flush_full, finish_body, finish_chunks, select_response, stream_response,
}
use tentris.Endpoint.Behind.{behind, behind_all, emit-behind, add-behind}

abbrev pub concat : List Text → Text
concat [] = []
concat (t ∷ ts) = t ++ concat ts

module _ {G H W : Type 0} (env : Surroundings G H W) where
  -- The chunks and the buffer that is left, as one buffer after `pre`.
  abbrev gather : Text → List Text × Option (SaxWriter W) → Result (SaxWriter W)
  gather pre (chunks, none) = fail null_pointer
  gather pre (chunks, some s) = ok (behind (pre ++ concat chunks) s)

  bind-behind :
      {X : Type 0} (pre : Text) (r : Result (SaxWriter W)) (f : SaxWriter W → Result (SaxWriter W))
      (g : SaxWriter W → Result X) (k : X → Result (SaxWriter W))
      → ((s : SaxWriter W) → f (behind pre s) ≡ (g s >>= k))
      → (behind_all pre r >>= f) ≡ ((r >>= g) >>= k)
  bind-behind pre (fail e) f g k h = refl
  bind-behind pre (ok s) f g k h = h s

  gather-chunk :
      (pre chunk : Text) (r : Result (List Text × Option (SaxWriter W)))
      → (r >>= gather (pre ++ chunk))
        ≡ ((r >>= λ (chunks, end). ok (chunk ∷ chunks, end)) >>= gather pre)
  gather-chunk pre chunk (fail f) = refl
  gather-chunk pre chunk (ok (chunks, none)) = refl
  gather-chunk pre chunk (ok (chunks, some s)) =
      ap (λ b. ok (behind b s)) (append_assoc pre chunk (concat chunks))

  module _ (flushes : (n : ℕ) → env.flush_fails n ≡ false) where
    flush_full-gather :
        (n : ℕ) (pre : Text) (s : SaxWriter W) (g : Generator Entry)
        (later rest : Result (List Text × Option (SaxWriter W)))
        → write_all env g (behind pre s) ≡ (rest >>= gather pre)
        → write_all env g (behind (pre ++ s.buffer) (clear s))
          ≡ (later >>= gather (pre ++ s.buffer))
        → write_all env g (behind pre s) ≡ (flush_full env n s later rest >>= gather pre)
    flush_full-gather n pre s g later rest a b = elim (Bool-cases (full s)) [
      | inr e ↦
          a
          ∙ ap
              (λ x.
                (if x
                  then (if env.flush_fails n
                      then ok (string_view s ∷ [], none)
                      else keep_chunk env (string_view s) later)
                  else rest)
                >>= gather pre)
              (sym e)
      | inl e ↦
          ap (λ t. write_all env g (record s { buffer = t })) (sym (append-nil (pre ++ s.buffer)))
          ∙ b
          ∙ gather-chunk pre s.buffer later
          ∙ ap
              (λ x.
                (if x then ok (string_view s ∷ [], none) else keep_chunk env (string_view s) later)
                >>= gather pre)
              (sym (flushes n))
          ∙ ap
              (λ x.
                (if x
                  then (if env.flush_fails n
                      then ok (string_view s ∷ [], none)
                      else keep_chunk env (string_view s) later)
                  else rest)
                >>= gather pre)
              (sym e)
    ]

    write_chunks-write_all :
        (g : Generator Entry) (n : ℕ) (pre : Text) (s : SaxWriter W)
        → write_all env g (behind pre s) ≡ (write_chunks env g n s >>= gather pre)
    unfolding write_all write_chunks
    write_chunks-write_all done n pre s = ap (λ b. ok (behind b s)) (sym (append-nil pre))
    write_chunks-write_all (throw f) n pre s = refl
    write_chunks-write_all (co_yield e g) n pre s =
        ap (λ r. r >>= write_all env g) (add-behind env.json env.term_of pre e s)
        ∙ bind-behind pre (add env.json env.term_of e s) (write_all env g) _ (gather pre) (λ s1.
          flush_full-gather n pre s1 g _ _ (write_chunks-write_all g n pre s1)
            (write_chunks-write_all g (suc n) (pre ++ s1.buffer) (clear s1)))

  -- The chunks of a response in one; a response that is broken off has no body to compare.
  abbrev pub joined : Response → Result Response
  joined (response status content_type body) = ok (response status content_type body)
  joined (chunked content_type chunks) = ok (response 200 (some content_type) (concat chunks))
  joined (broken_off content_type chunks) = fail null_pointer

  concat-snoc : (chunks : List Text) (t : Text) → concat (chunks ++ t ∷ []) ≡ concat chunks ++ t
  concat-snoc [] t = append-nil t
  concat-snoc (c ∷ chunks) t =
      ap (λ z. c ++ z) (concat-snoc chunks t) ∙ sym (append_assoc c (concat chunks) t)

  finish-joined :
      (timeout : ℕ) (r : Result (List Text × Option (SaxWriter W)))
      → ltb env.now timeout ≡ true
      → ((r >>= gather []) >>= finish_body env timeout) ≡ ((r >>= finish_chunks env) >>= joined)
  unfolding close
  finish-joined timeout (fail f) early = refl
  finish-joined timeout (ok (chunks, none)) early = refl
  finish-joined timeout (ok (chunks, some s)) early = rw early (
      ap (λ b. ok (response 200 (some results_json) b))
        (ap (λ (t : SaxWriter W). t.buffer) (emit-behind env.json env.term_of (concat chunks) _ s)
          ∙ sym (concat-snoc chunks (string_view (close env.json env.term_of s)))))

  -- Where no flush fails and the timeout is not reached when it is checked, `/sparql` answers a SELECT
  -- query as `/stream` does with its chunks put together, or ends in the same fault.
  pub stream_response-joined :
      (query : Query G) (timeout : ℕ)
      → ((n : ℕ) → env.flush_fails n ≡ false)
      → ltb env.now timeout ≡ true
      → select_response env query timeout ≡ (stream_response env query timeout >>= joined)
  unfolding select_response stream_response
  stream_response-joined query timeout flushes early =
      let g = eval_select env.ops env.evaluation env.hypertrie query timeout in
      let s = sax_writer env.json env.term_of query.projected_variables 100000 in
      ap (λ r. r >>= finish_body env timeout) (write_chunks-write_all flushes g 0 [] s)
      ∙ finish-joined timeout (write_chunks env g 0 s) early
