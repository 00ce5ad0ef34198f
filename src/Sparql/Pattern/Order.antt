-- ===== src/Sparql/Pattern/Order.antt =====
-- A reference for the traversal: which triples blocks it visits, and in which order.
use tentris.Base.{List, [], ◌∷◌, ◌++◌, map, Option, none, some, ◌≡◌, refl, sym, ap, ◌∙◌}
use mathlib.Core.List.{append-nil, append_assoc}
use tentris.Sparql.Syntax.{
  TriplesBlockContext, GroupGraphPatternContext, sub_select, pattern_sub, neither,
  GroupGraphPatternSubContext, group_sub, SubListContext, end_list, sub_list, NotTriplesContext,
  no_pattern, group_or_union, optional_pattern, other, GroupOrUnionContext, end_union, alternative,
}

-- A conjunction: its triples blocks, and the blocks visited for the OPTIONALs in it.
pub record Conjunct : Type 0 where
  pub blocks : List TriplesBlockContext
  pub optional : List TriplesBlockContext

abbrev pub empty : Conjunct
empty = record { blocks = []; optional = [] }

abbrev pub join : Conjunct → Conjunct → Conjunct
join a b = record { blocks = a.blocks ++ b.blocks; optional = a.optional ++ b.optional }

abbrev pub join_all : Conjunct → List Conjunct → List Conjunct
join_all a bs = map (join a) bs

-- Every conjunction of the first list with every one of the second.
abbrev pub product : List Conjunct → List Conjunct → List Conjunct
product [] bs = []
product (c ∷ cs) bs = join_all c bs ++ product cs bs

-- One conjunction from each of the lists, the first varying slowest.
abbrev pub choices : List (List Conjunct) → List Conjunct
choices [] = empty ∷ []
choices (u ∷ us) = product u (choices us)

-- The blocks of some conjunctions, with those of a conjunction before those of its OPTIONALs.
abbrev pub flatten : List Conjunct → List TriplesBlockContext
flatten [] = []
flatten (c ∷ cs) = (c.blocks ++ c.optional) ++ flatten cs

abbrev pub block_of : Option TriplesBlockContext → List TriplesBlockContext
block_of none = []
block_of (some tb) = tb ∷ []

unfoldable mutual
  -- A group pattern as a list of conjunctions: its own blocks and OPTIONALs, joined with an
  -- alternative of each of its unions, the last union first.
  pub conjunctions : GroupGraphPatternSubContext → List Conjunct
  conjunctions (group_sub tb subs) =
      join_all (record { blocks = block_of tb ++ own_blocks subs; optional = own_optional subs })
        (choices (unions subs []))

  pub own_blocks : SubListContext → List TriplesBlockContext
  own_blocks end_list = []
  own_blocks (sub_list p tb rest) = block_of tb ++ own_blocks rest

  pub own_optional : SubListContext → List TriplesBlockContext
  own_optional end_list = []
  own_optional (sub_list p tb rest) = pattern_optional p ++ own_optional rest

  pub pattern_optional : NotTriplesContext → List TriplesBlockContext
  pattern_optional no_pattern = []
  pattern_optional other = []
  pattern_optional (group_or_union u) = []
  pattern_optional (optional_pattern o) = visited o

  pub unions : SubListContext → List (List Conjunct) → List (List Conjunct)
  unions end_list us = us
  unions (sub_list p tb rest) us = unions rest (pattern_unions p us)

  pub pattern_unions : NotTriplesContext → List (List Conjunct) → List (List Conjunct)
  pattern_unions no_pattern us = us
  pattern_unions other us = us
  pattern_unions (group_or_union u) us = union_alternatives u ∷ us
  pattern_unions (optional_pattern o) us = us

  pub union_alternatives : GroupOrUnionContext → List Conjunct
  union_alternatives end_union = []
  union_alternatives (alternative grp rest) = alternatives_of grp ++ union_alternatives rest

  pub alternatives_of : GroupGraphPatternContext → List Conjunct
  alternatives_of sub_select = []
  alternatives_of neither = []
  alternatives_of (pattern_sub ctx) = conjunctions ctx

  -- The blocks that the visit of a group pattern visits.
  pub visited : GroupGraphPatternContext → List TriplesBlockContext
  visited sub_select = []
  visited neither = []
  visited (pattern_sub ctx) = flatten (conjunctions ctx)

abbrev pub conjunct : List TriplesBlockContext → List TriplesBlockContext → Conjunct
conjunct blocks optional = record { blocks = blocks; optional = optional }

pub join_assoc : (a b c : Conjunct) → join (join a b) c ≡ join a (join b c)
join_assoc a b c =
    ap (λ x. conjunct x ((a.optional ++ b.optional) ++ c.optional))
      (append_assoc a.blocks b.blocks c.blocks)
    ∙ ap (conjunct (a.blocks ++ (b.blocks ++ c.blocks)))
        (append_assoc a.optional b.optional c.optional)

pub join_all-append :
    (a : Conjunct) (xs ys : List Conjunct) → join_all a (xs ++ ys) ≡ join_all a xs ++ join_all a ys
join_all-append a [] ys = refl
join_all-append a (x ∷ xs) ys = ap (◌∷◌ (join a x)) (join_all-append a xs ys)

pub join_all-join_all :
    (a b : Conjunct) (xs : List Conjunct) → join_all a (join_all b xs) ≡ join_all (join a b) xs
join_all-join_all a b [] = refl
join_all-join_all a b (x ∷ xs) =
    ap (λ y. y ∷ join_all a (join_all b xs)) (sym (join_assoc a b x))
    ∙ ap (◌∷◌ (join (join a b) x)) (join_all-join_all a b xs)

pub join_all-empty : (xs : List Conjunct) → join_all empty xs ≡ xs
join_all-empty [] = refl
join_all-empty (x ∷ xs) = ap (◌∷◌ x) (join_all-empty xs)

pub product-append :
    (xs ys bs : List Conjunct) → product (xs ++ ys) bs ≡ product xs bs ++ product ys bs
product-append [] ys bs = refl
product-append (x ∷ xs) ys bs =
    ap (λ zs. join_all x bs ++ zs) (product-append xs ys bs)
    ∙ sym (append_assoc (join_all x bs) (product xs bs) (product ys bs))

pub product-join_all :
    (a : Conjunct) (xs bs : List Conjunct) → product (join_all a xs) bs ≡ join_all a (product xs bs)
product-join_all a [] bs = refl
product-join_all a (x ∷ xs) bs =
    ap (λ zs. zs ++ product (join_all a xs) bs) (sym (join_all-join_all a x bs))
    ∙ ap (λ zs. join_all a (join_all x bs) ++ zs) (product-join_all a xs bs)
    ∙ sym (join_all-append a (join_all x bs) (product xs bs))

product_assoc : (xs ys zs : List Conjunct) → product (product xs ys) zs ≡ product xs (product ys zs)
product_assoc [] ys zs = refl
product_assoc (x ∷ xs) ys zs =
    product-append (join_all x ys) (product xs ys) zs
    ∙ ap (λ ws. ws ++ product (product xs ys) zs) (product-join_all x ys zs)
    ∙ ap (λ ws. join_all x (product ys zs) ++ ws) (product_assoc xs ys zs)

product-empty : (bs : List Conjunct) → product (empty ∷ []) bs ≡ bs
product-empty bs = append-nil (join_all empty bs) ∙ join_all-empty bs

pub choices-append :
    (us vs : List (List Conjunct)) → choices (us ++ vs) ≡ product (choices us) (choices vs)
choices-append [] vs = sym (product-empty (choices vs))
choices-append (u ∷ us) vs =
    ap (product u) (choices-append us vs) ∙ sym (product_assoc u (choices us) (choices vs))

pub flatten-append : (xs ys : List Conjunct) → flatten (xs ++ ys) ≡ flatten xs ++ flatten ys
flatten-append [] ys = refl
flatten-append (x ∷ xs) ys =
    ap (λ zs. (x.blocks ++ x.optional) ++ zs) (flatten-append xs ys)
    ∙ sym (append_assoc (x.blocks ++ x.optional) (flatten xs) (flatten ys))

-- The unions of a group pattern come before those that are left.
pub unions-append :
    (l : SubListContext) (us vs : List (List Conjunct)) → unions l (us ++ vs) ≡ unions l us ++ vs
unfolding conjunctions
unions-append end_list us vs = refl
unions-append (sub_list no_pattern tb rest) us vs = unions-append rest us vs
unions-append (sub_list other tb rest) us vs = unions-append rest us vs
unions-append (sub_list (optional_pattern o) tb rest) us vs = unions-append rest us vs
unions-append (sub_list (group_or_union u) tb rest) us vs =
    unions-append rest (union_alternatives u ∷ us) vs
