-- ===== src/Sparql/Pattern/Weight.antt =====
-- How much fuel the traversal needs: the number of group patterns.
use tentris.Base.{ℕ, suc, ◌+◌, List, [], ◌∷◌}
use tentris.Sparql.Syntax.{
  GroupGraphPatternContext, sub_select, pattern_sub, neither, GroupGraphPatternSubContext,
  group_sub, SubListContext, end_list, sub_list, NotTriplesContext, no_pattern, group_or_union,
  optional_pattern, other, GroupOrUnionContext, end_union, alternative,
}

-- The number of group patterns in a context.
unfoldable mutual
  pub weight_of : GroupGraphPatternContext → ℕ
  weight_of sub_select = 0
  weight_of neither = 0
  weight_of (pattern_sub ctx) = weight ctx

  pub weight : GroupGraphPatternSubContext → ℕ
  weight (group_sub tb subs) = suc (weight_list subs)

  pub weight_list : SubListContext → ℕ
  weight_list end_list = 0
  weight_list (sub_list p tb rest) = weight_pattern p + weight_list rest

  pub weight_pattern : NotTriplesContext → ℕ
  weight_pattern no_pattern = 0
  weight_pattern other = 0
  weight_pattern (group_or_union u) = weight_union u
  weight_pattern (optional_pattern o) = weight_of o

  pub weight_union : GroupOrUnionContext → ℕ
  weight_union end_union = 0
  weight_union (alternative grp rest) = weight_of grp + weight_union rest

abbrev pub sum_unions : List GroupOrUnionContext → ℕ
sum_unions [] = 0
sum_unions (u ∷ us) = weight_union u + sum_unions us

abbrev pub sum_optionals : List GroupGraphPatternContext → ℕ
sum_optionals [] = 0
sum_optionals (o ∷ os) = weight_of o + sum_optionals os
