-- ===== src/Sparql/Pattern/Distributed.antt =====
-- The laws of the reference order that the steps of the traversal follow.
use tentris.Base.{List, [], ◌∷◌, ◌++◌, Option, ◌≡◌, refl, sym, ap, ◌∙◌}
use mathlib.Core.List.{append-nil, append_assoc}
use tentris.Sparql.Syntax.{
  TriplesBlockContext, GroupGraphPatternContext, GroupGraphPatternSubContext, group_sub,
  SubListContext, GroupOrUnionContext,
}
use tentris.Sparql.Pattern.Order.{
  Conjunct, conjunct, empty, join, join_all, join_all-append, join_all-join_all, join_all-empty,
  product, product-append, product-join_all, choices, choices-append, flatten, flatten-append,
  block_of, own_blocks, own_optional, conjunctions, unions, unions-append,
}
use tentris.Sparql.Pattern.Storing.{
  own_contexts, pushed, all_alternatives, all_visited, all_visited-append, all_visited-own_contexts,
  all_alternatives-pushed,
}

-- The conjunction of the blocks and the OPTIONALs stored on the tops.
abbrev pub top_conjunct : List TriplesBlockContext → List GroupGraphPatternContext → Conjunct
top_conjunct tbs os = conjunct tbs (all_visited os)

-- The blocks of the alternatives, each joined with the tops and with the unions left.
abbrev pub spread :
    List TriplesBlockContext
    → List GroupGraphPatternContext
    → List Conjunct
    → List GroupOrUnionContext
    → List TriplesBlockContext
spread tbs os xs gous =
    flatten (join_all (top_conjunct tbs os) (product xs (choices (all_alternatives gous))))

-- The same with no alternative but the tops.
abbrev pub spread_unions :
    List TriplesBlockContext
    → List GroupGraphPatternContext
    → List GroupOrUnionContext
    → List TriplesBlockContext
spread_unions tbs os gous =
    flatten (join_all (top_conjunct tbs os) (choices (all_alternatives gous)))

pub spread-append :
    (tbs : List TriplesBlockContext) (os : List GroupGraphPatternContext) (xs ys : List Conjunct)
    (gous : List GroupOrUnionContext)
    → spread tbs os (xs ++ ys) gous ≡ spread tbs os xs gous ++ spread tbs os ys gous
spread-append tbs os xs ys gous =
    let bs = choices (all_alternatives gous) in
    let c = top_conjunct tbs os in
    ap (λ zs. flatten (join_all c zs)) (product-append xs ys bs)
    ∙ ap flatten (join_all-append c (product xs bs) (product ys bs))
    ∙ flatten-append (join_all c (product xs bs)) (join_all c (product ys bs))

pub spread_unions-none :
    (tbs : List TriplesBlockContext) (os : List GroupGraphPatternContext)
    → tbs ++ all_visited os ≡ spread_unions tbs os []
spread_unions-none tbs os = sym (
    append-nil ((tbs ++ []) ++ (all_visited os ++ []))
    ∙ ap (λ zs. zs ++ (all_visited os ++ [])) (append-nil tbs)
    ∙ ap (λ zs. tbs ++ zs) (append-nil (all_visited os)))

join-empty : (c : Conjunct) → join c empty ≡ c
join-empty c =
    ap (λ x. conjunct x (c.optional ++ [])) (append-nil c.blocks)
    ∙ ap (conjunct c.blocks) (append-nil c.optional)

product-unit : (xs : List Conjunct) → product xs (empty ∷ []) ≡ xs
product-unit [] = refl
product-unit (x ∷ xs) =
    ap (λ y. y ∷ product xs (empty ∷ [])) (join-empty x) ∙ ap (◌∷◌ x) (product-unit xs)

-- An OPTIONAL is visited with empty tops and no union left.
pub spread-alone :
    (ctx : GroupGraphPatternSubContext)
    → spread [] [] (conjunctions ctx) [] ≡ flatten (conjunctions ctx)
spread-alone ctx =
    ap flatten (join_all-empty (product (conjunctions ctx) (empty ∷ [])))
    ∙ ap flatten (product-unit (conjunctions ctx))

top_conjunct-stored :
    (tb : Option TriplesBlockContext) (subs : SubListContext) (tbs : List TriplesBlockContext)
    (os : List GroupGraphPatternContext)
    → top_conjunct ((tbs ++ block_of tb) ++ own_blocks subs) (os ++ own_contexts subs)
      ≡ join (top_conjunct tbs os) (conjunct (block_of tb ++ own_blocks subs) (own_optional subs))
top_conjunct-stored tb subs tbs os =
    ap (λ x. conjunct x (all_visited (os ++ own_contexts subs)))
      (append_assoc tbs (block_of tb) (own_blocks subs))
    ∙ ap (conjunct (tbs ++ (block_of tb ++ own_blocks subs))) (
        all_visited-append os (own_contexts subs)
        ∙ ap (λ zs. all_visited os ++ zs) (all_visited-own_contexts subs))

-- Storing a group pattern keeps the blocks that are to be visited.
pub spread-stored :
    (tb : Option TriplesBlockContext) (subs : SubListContext) (tbs : List TriplesBlockContext)
    (os : List GroupGraphPatternContext) (gous : List GroupOrUnionContext)
    → spread_unions
        ((tbs ++ block_of tb) ++ own_blocks subs)
        (os ++ own_contexts subs)
        (pushed subs gous)
      ≡ spread tbs os (conjunctions (group_sub tb subs)) gous
unfolding conjunctions
spread-stored tb subs tbs os gous =
    let own = conjunct (block_of tb ++ own_blocks subs) (own_optional subs) in
    let c = top_conjunct tbs os in
    let left = all_alternatives gous in
    let mine = choices (unions subs []) in
    ap (λ a. flatten (join_all a (choices (all_alternatives (pushed subs gous)))))
      (top_conjunct-stored tb subs tbs os)
    ∙ ap (λ us. flatten (join_all (join c own) (choices us)))
        (all_alternatives-pushed subs gous ∙ unions-append subs [] left)
    ∙ ap (λ xs. flatten (join_all (join c own) xs)) (choices-append (unions subs []) left)
    ∙ ap flatten (sym (join_all-join_all c own (product mine (choices left))))
    ∙ ap (λ xs. flatten (join_all c xs)) (sym (product-join_all own mine (choices left)))
