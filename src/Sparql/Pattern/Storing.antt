-- ===== src/Sparql/Pattern/Storing.antt =====
-- What the start of `visitWellDesignedPattern` stores, and what it weighs.
use tentris.Base.{
  ℕ, ◌+◌, ◌≡◌, refl, sym, ap, ◌∙◌, List, [], ◌∷◌, ◌++◌, map, Option, none, some, Ensures, returns,
  Ensures-bind, Ensures-map, Safe, arith, Extends,
}
use mathlib.Core.List.{append-nil, append_assoc}
use tentris.Sparql.Syntax.{
  TriplesBlockContext, GroupGraphPatternContext, SubListContext, end_list, sub_list,
  NotTriplesContext, no_pattern, group_or_union, optional_pattern, other, GroupOrUnionContext,
}
use tentris.Sparql.State.{Visitor}
use tentris.Sparql.Pattern.{push_optional_block, store_pattern, store_list}
use tentris.Sparql.Pattern.Stacks.{Stacked}
use tentris.Sparql.Pattern.Weight.{weight_of, weight_list, sum_unions, sum_optionals}
use tentris.Sparql.Pattern.Order.{
  Conjunct, block_of, own_blocks, own_optional, unions, union_alternatives, visited,
}
use tentris.Sparql.Pattern.Runs.{outcome}

-- The OPTIONALs that an entry or a list stores, and the unions on top of those before.
abbrev pub pattern_contexts : NotTriplesContext → List GroupGraphPatternContext
pattern_contexts (optional_pattern o) = o ∷ []
pattern_contexts _ = []

abbrev pub own_contexts : SubListContext → List GroupGraphPatternContext
own_contexts end_list = []
own_contexts (sub_list p tb rest) = pattern_contexts p ++ own_contexts rest

abbrev pub pushed_pattern : NotTriplesContext → List GroupOrUnionContext → List GroupOrUnionContext
pushed_pattern (group_or_union u) gous = u ∷ gous
pushed_pattern _ gous = gous

abbrev pub pushed : SubListContext → List GroupOrUnionContext → List GroupOrUnionContext
pushed end_list gous = gous
pushed (sub_list p tb rest) gous = pushed rest (pushed_pattern p gous)

-- Their alternatives, and the blocks that are visited for them.
abbrev pub all_alternatives : List GroupOrUnionContext → List (List Conjunct)
all_alternatives gous = map union_alternatives gous

abbrev pub all_visited : List GroupGraphPatternContext → List TriplesBlockContext
all_visited [] = []
all_visited (o ∷ os) = visited o ++ all_visited os

pub all_visited-append :
    (os ps : List GroupGraphPatternContext)
    → all_visited (os ++ ps) ≡ all_visited os ++ all_visited ps
all_visited-append [] ps = refl
all_visited-append (o ∷ os) ps =
    ap (λ tbs. visited o ++ tbs) (all_visited-append os ps)
    ∙ sym (append_assoc (visited o) (all_visited os) (all_visited ps))

pub all_visited-own_contexts : (l : SubListContext) → all_visited (own_contexts l) ≡ own_optional l
unfolding own_optional
all_visited-own_contexts end_list = refl
all_visited-own_contexts (sub_list no_pattern tb rest) = all_visited-own_contexts rest
all_visited-own_contexts (sub_list other tb rest) = all_visited-own_contexts rest
all_visited-own_contexts (sub_list (group_or_union u) tb rest) = all_visited-own_contexts rest
all_visited-own_contexts (sub_list (optional_pattern o) tb rest) =
    ap (λ tbs. visited o ++ tbs) (all_visited-own_contexts rest)

pub all_alternatives-pushed :
    (l : SubListContext) (gous : List GroupOrUnionContext)
    → all_alternatives (pushed l gous) ≡ unions l (all_alternatives gous)
unfolding unions
all_alternatives-pushed end_list gous = refl
all_alternatives-pushed (sub_list no_pattern tb rest) gous = all_alternatives-pushed rest gous
all_alternatives-pushed (sub_list other tb rest) gous = all_alternatives-pushed rest gous
all_alternatives-pushed (sub_list (optional_pattern o) tb rest) gous =
    all_alternatives-pushed rest gous
all_alternatives-pushed (sub_list (group_or_union u) tb rest) gous =
    all_alternatives-pushed rest (u ∷ gous)

sum_optionals-append :
    (os ps : List GroupGraphPatternContext)
    → sum_optionals (os ++ ps) ≡ sum_optionals os + sum_optionals ps
sum_optionals-append [] ps = omega arith
sum_optionals-append (o ∷ os) ps = omega (arith, sum_optionals-append os ps)

-- Storing a list keeps what the unions and the OPTIONALs weigh together.
weight-pushed :
    (l : SubListContext) (gous : List GroupOrUnionContext)
    → sum_unions (pushed l gous) + sum_optionals (own_contexts l) ≡ weight_list l + sum_unions gous
unfolding weight_of
weight-pushed end_list gous = omega arith
weight-pushed (sub_list no_pattern tb rest) gous = omega (arith, weight-pushed rest gous)
weight-pushed (sub_list other tb rest) gous = omega (arith, weight-pushed rest gous)
weight-pushed (sub_list (group_or_union u) tb rest) gous =
    omega (arith, weight-pushed rest (u ∷ gous))
weight-pushed (sub_list (optional_pattern o) tb rest) gous = omega (arith, weight-pushed rest gous)

pub weight-stored :
    (l : SubListContext) (gous : List GroupOrUnionContext) (os : List GroupGraphPatternContext)
    → sum_unions (pushed l gous) + sum_optionals (os ++ own_contexts l)
      ≡ weight_list l + sum_unions gous + sum_optionals os
weight-stored l gous os =
    omega (arith, weight-pushed l gous, sum_optionals-append os (own_contexts l))

module _ {G : Type 0} (tbss : List (List TriplesBlockContext))
    (oss : List (List GroupGraphPatternContext)) (gpss : List (List ℕ)) (n : ℕ) where
  -- The tops have grown, and nothing else.
  abbrev pub Grown : List TriplesBlockContext → List GroupGraphPatternContext → Visitor G → Type 0
  Grown tbs os s =
      (tbs' : List TriplesBlockContext) × (os' : List GroupGraphPatternContext) × Extends tbs tbs'
      × Extends os os'
      × Stacked tbs' tbss os' oss gpss n s

  -- The tops are as given, and nothing but the stacks has changed.
  abbrev pub Stored :
      Visitor G → List TriplesBlockContext → List GroupGraphPatternContext → Visitor G → Type 0
  Stored s tbs os t = Stacked tbs tbss os oss gpss n t × (outcome t ≡ outcome s)

  pub push_optional_block-Stored :
      (tb : Option TriplesBlockContext) (tbs : List TriplesBlockContext)
      (os : List GroupGraphPatternContext) (s : Visitor G)
      → Stacked tbs tbss os oss gpss n s
      → Ensures (Stored s (tbs ++ block_of tb) os) Safe (push_optional_block tb s)
  push_optional_block-Stored none tbs os s h = returns (
    record {
      at_triples = h.at_triples ∙ ap (λ x. x ∷ tbss) (sym (append-nil tbs));
      at_optionals = h.at_optionals;
      at_groups = h.at_groups;
      at_opts = h.at_opts;
      at_unions = h.at_unions;
    },
    refl,
  )
  push_optional_block-Stored (some tb) tbs os s h = rw h.at_triples (
      returns (
        record {
          at_triples = refl;
          at_optionals = h.at_optionals;
          at_groups = h.at_groups;
          at_opts = h.at_opts;
          at_unions = h.at_unions;
        },
        refl,
      ))

  no_optional :
      (tbs : List TriplesBlockContext) (os : List GroupGraphPatternContext) (s : Visitor G)
      → Stacked tbs tbss os oss gpss n s
      → Stacked tbs tbss (os ++ []) oss gpss n s
  no_optional tbs os s h = record {
    at_triples = h.at_triples;
    at_optionals = h.at_optionals ∙ ap (λ x. x ∷ oss) (sym (append-nil os));
    at_groups = h.at_groups;
    at_opts = h.at_opts;
    at_unions = h.at_unions;
  }

  store_pattern-Stored :
      (p : NotTriplesContext) (gous : List GroupOrUnionContext) (tbs : List TriplesBlockContext)
      (os : List GroupGraphPatternContext) (s : Visitor G)
      → Stacked tbs tbss os oss gpss n s
      → Ensures
          (λ r. (r.0 ≡ pushed_pattern p gous) × Stored s tbs (os ++ pattern_contexts p) r.1)
          Safe
          (store_pattern p gous s)
  unfolding store_pattern
  store_pattern-Stored no_pattern gous tbs os s h = returns (refl, (no_optional tbs os s h, refl))
  store_pattern-Stored other gous tbs os s h = returns (refl, (no_optional tbs os s h, refl))
  store_pattern-Stored (group_or_union u) gous tbs os s h =
      returns (refl, (no_optional tbs os s h, refl))
  store_pattern-Stored (optional_pattern o) gous tbs os s h = rw h.at_optionals (
      returns (
        refl,
        (
          record {
            at_triples = h.at_triples;
            at_optionals = refl;
            at_groups = h.at_groups;
            at_opts = h.at_opts;
            at_unions = h.at_unions;
          },
          refl,
        ),
      ))

  pub store_list-Stored :
      (l : SubListContext) (gous : List GroupOrUnionContext) (tbs : List TriplesBlockContext)
      (os : List GroupGraphPatternContext) (s : Visitor G)
      → Stacked tbs tbss os oss gpss n s
      → Ensures
          (λ r. (r.0 ≡ pushed l gous) × Stored s (tbs ++ own_blocks l) (os ++ own_contexts l) r.1)
          Safe
          (store_list l gous s)
  unfolding store_list own_blocks
  store_list-Stored end_list gous tbs os s h = returns (
    refl,
    (
      record {
        at_triples = h.at_triples ∙ ap (λ x. x ∷ tbss) (sym (append-nil tbs));
        at_optionals = h.at_optionals ∙ ap (λ x. x ∷ oss) (sym (append-nil os));
        at_groups = h.at_groups;
        at_opts = h.at_opts;
        at_unions = h.at_unions;
      },
      refl,
    ),
  )
  store_list-Stored (sub_list p tb rest) gous tbs os s h =
      Ensures-bind (store_pattern-Stored p gous tbs os s h) (λ (gous', s1) (same, (h1, e1)).
        Ensures-bind (push_optional_block-Stored tb tbs (os ++ pattern_contexts p) s1 h1)
          (λ s2 (h2, e2).
            Ensures-map
              (λ r (same', (h3, e3)). (
                same' ∙ ap (pushed rest) same,
                (
                  record {
                    at_triples =
                        h3.at_triples
                        ∙ ap (λ x. x ∷ tbss) (append_assoc tbs (block_of tb) (own_blocks rest));
                    at_optionals =
                        h3.at_optionals
                        ∙ ap (λ x. x ∷ oss)
                            (append_assoc os (pattern_contexts p) (own_contexts rest));
                    at_groups = h3.at_groups;
                    at_opts = h3.at_opts;
                    at_unions = h3.at_unions;
                  },
                  e3 ∙ e2 ∙ e1,
                ),
              ))
              (store_list-Stored rest gous' (tbs ++ block_of tb) (os ++ pattern_contexts p) s2 h2)))
