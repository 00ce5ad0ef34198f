-- ===== src/TripleStore/Lists/Unfinished.antt =====
-- `get_rdf_list` looks up its argument in every round and goes on at the first item.
use tentris.Base.{
  ℕ, zero, suc, false, none, some, [], ◌∷◌, ok, fail, out_of_fuel, inl, inr, length, In, ◌≡◌, ◌≢◌,
  refl, ap, ◌∙◌, subst, arith, if_neg, Bool-cases,
}
use tentris.Sparql.Syntax.{Node}
use tentris.TripleStore.Hypertrie.{Node-discrete, HypertrieOps, HypertrieLaws}
use tentris.TripleStore.Lists.{rdf_nil, rdf_first, rdf_rest, next_item, list_loop, get_rdf_list}
use tentris.TripleStore.Lists.Checked.{one-list, singleton, ExactlyOne}

module _ {H : Type 0} (ops : HypertrieOps H) (laws : HypertrieLaws ops) where
  abbrev found : Node → Node → H → H
  found s p h = ops.slice (some s ∷ some p ∷ none ∷ []) h

  entries-found :
      (h : H) (s p : Node) (one : ExactlyOne ops h s p)
      → ops.entries (found s p h) ≡ (one.0 ∷ []) ∷ []
  entries-found h s p (o, m, only) =
      let law = laws.entries-slice (some s ∷ some p ∷ none ∷ []) h in
      one-list _ (o ∷ []) (laws.entries-NoDuplicates (found s p h)) ((law (o ∷ [])).1 (refl, m))
        (λ k m'.
          let (o', q) = singleton k ((law k).0 m').0 in
          q
          ∙ ap (λ x. x ∷ [])
              (only o' ((law (o' ∷ [])).0 (subst (λ x. In x (ops.entries (found s p h))) q m')).1))

  size-found : (h : H) (s p : Node) → ExactlyOne ops h s p → ops.size (found s p h) ≡ 1
  size-found h s p one = laws.size-entries _ ∙ ap length (entries-found h s p one)

  empty-found : (h : H) (s p : Node) → ExactlyOne ops h s p → ops.empty (found s p h) ≡ false
  empty-found h s p one = elim (Bool-cases (ops.empty (found s p h))) [
    | inr e ↦ e
    | inl e ↦ absurd (omega (arith, size-found h s p one, (laws.empty-size _).0 e))
  ]

  next_item-first :
      (list : Node) (h : H) (one : ExactlyOne ops h list rdf_first)
      → ExactlyOne ops h list rdf_rest
      → next_item ops list h ≡ ok (one.0, one.0)
  unfolding next_item
  next_item-first list h one rest =
      rw
        (
          size-found h list rdf_first one,
          empty-found h list rdf_first one,
          size-found h list rdf_rest rest,
          entries-found h list rdf_first one,
        )
        refl

  list_loop-out_of_fuel :
      (fuel : ℕ) (list head : Node) (h : H) (one : ExactlyOne ops h list rdf_first)
      → ExactlyOne ops h list rdf_rest
      → head ≢ rdf_nil
      → one.0 ≢ rdf_nil
      → list_loop ops fuel list head h ≡ fail out_of_fuel
  unfolding list_loop
  list_loop-out_of_fuel zero list head h one rest nh nx = if_neg (Node-discrete head rdf_nil) nh _ _
  list_loop-out_of_fuel (suc fuel) list head h one rest nh nx =
      if_neg (Node-discrete head rdf_nil) nh _ _
      ∙ rw (next_item-first list h one rest, list_loop-out_of_fuel fuel list one.0 h one rest nx nx)
          refl

  -- On a node other than `rdf:nil` with exactly one `rdf:first`, which is not `rdf:nil`, and exactly
  -- one `rdf:rest`, the loop of `get_rdf_list` does not end, whatever the number of rounds.
  pub get_rdf_list-out_of_fuel :
      (fuel : ℕ) (list : Node) (h : H) (one : ExactlyOne ops h list rdf_first)
      → ExactlyOne ops h list rdf_rest
      → list ≢ rdf_nil
      → one.0 ≢ rdf_nil
      → get_rdf_list ops fuel list h ≡ fail out_of_fuel
  unfolding get_rdf_list
  get_rdf_list-out_of_fuel fuel list h one rest nl nx =
      list_loop-out_of_fuel fuel list list h one rest nl nx
