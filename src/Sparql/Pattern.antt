-- ===== src/Sparql/Pattern.antt =====
-- `visitWellDesignedPattern`: joins are distributed over the unions of a pattern, and each of the
-- resulting conjunctions becomes a group of operands, connected to the groups around it.
-- The recursion takes fuel: the child Safety says how much is enough.
pub mod Stacks
pub mod Weight
pub mod Order
pub mod Runs
pub mod Storing
pub mod Distributed
pub mod Groups
pub mod Conjunction
pub mod Safety
pub mod Unions
use tentris.Base.{
  ℕ, zero, suc, Bool, true, false, Option, none, some, List, [], ◌∷◌, ◌++◌, Result, ok, fail,
  runtime_error, null_pointer, out_of_fuel, ◌>>=◌, if◌then◌else◌, length, take,
}
use tentris.Sparql.Syntax.{
  TriplesBlockContext, GroupGraphPatternContext, sub_select, pattern_sub, neither,
  GroupGraphPatternSubContext, group_sub, SubListContext, end_list, sub_list, NotTriplesContext,
  no_pattern, group_or_union, optional_pattern, other, GroupOrUnionContext, end_union, alternative,
}
use tentris.Sparql.Terms.{Rdf}
use tentris.Sparql.Graph.{GraphOps}
use tentris.Sparql.State.{Visitor, top, pop, change_top}
use tentris.Sparql.Triples.{contains, visit_triples_block}

-- `ctx->groupGraphPattern()->groupGraphPatternSub()`, read with no test for null.
abbrev pub sub_of : GroupGraphPatternContext → Result GroupGraphPatternSubContext
sub_of (pattern_sub ctx) = ok ctx
sub_of sub_select = fail null_pointer
sub_of neither = fail null_pointer

module _ {G : Type 0} where
  abbrev pub push_block : TriplesBlockContext → Visitor G → Result (Visitor G)
  push_block tb s = do
    blocks ← change_top (λ tbs. tbs ++ tb ∷ []) s.triples_blocks
    ok (record s { triples_blocks = blocks })

  abbrev pub push_optional_block : Option TriplesBlockContext → Visitor G → Result (Visitor G)
  push_optional_block none s = ok s
  push_optional_block (some tb) s = push_block tb s

  -- The branches on `graphPatternNotTriples()`. The vector `gou_ctxs` has its back first.
  unfoldable pub store_pattern :
      NotTriplesContext
      → List GroupOrUnionContext
      → Visitor G
      → Result (List GroupOrUnionContext × Visitor G)
  store_pattern no_pattern gous s = ok (gous, s)
  store_pattern other gous s = ok (gous, s)
  store_pattern (group_or_union u) gous s = ok (u ∷ gous, s)
  store_pattern (optional_pattern o) gous s = do
    optionals ← change_top (λ os. os ++ o ∷ []) s.optional_blocks
    ok (gous, record s { optional_blocks = optionals })

  -- The loop over `groupGraphPatternSubList()`.
  unfoldable pub store_list :
      SubListContext
      → List GroupOrUnionContext
      → Visitor G
      → Result (List GroupOrUnionContext × Visitor G)
  store_list end_list gous s = ok (gous, s)
  store_list (sub_list p tb rest) gous s = store_pattern p gous s >>= λ (gous', s1).
      push_optional_block tb s1 >>= λ s2. store_list rest gous' s2

  -- The three stacks of a graph pattern, pushed before it is visited and popped after.
  abbrev pub enter : Visitor G → Visitor G
  enter s = record s {
    group_patterns = [] ∷ s.group_patterns;
    triples_blocks = [] ∷ s.triples_blocks;
    optional_blocks = [] ∷ s.optional_blocks;
  }

  abbrev pub leave : Visitor G → Result (Visitor G)
  leave s = do
    optionals ← pop s.optional_blocks
    blocks ← pop s.triples_blocks
    groups ← pop s.group_patterns
    ok (record s { group_patterns = groups; triples_blocks = blocks; optional_blocks = optionals })

  -- The two stacks of operands, pushed before the optional patterns are visited and popped after.
  abbrev pub open_operands : Visitor G → Visitor G
  open_operands s = record s {
    opt_operands = [] ∷ s.opt_operands;
    union_operands = [] ∷ s.union_operands;
  }

  abbrev pub close_operands : Visitor G → Result (Visitor G)
  close_operands s = do
    unions ← pop s.union_operands
    opts ← pop s.opt_operands
    groups ← change_top (λ _. []) s.group_patterns
    ok (record s { union_operands = unions; opt_operands = opts; group_patterns = groups })

  module _ (ops : GraphOps G) where
    -- The edges from the operands of a group to those of the group of an OPTIONAL in it, for the
    -- labels of one pair (the visitor passes `bidirectional` as `false` at its only call).
    unfoldable pub label_edges : ℕ → ℕ → List ℕ → List ℕ → G × Bool → G × Bool
    label_edges prev cur [] labels st = st
    label_edges prev cur (l ∷ ls) labels (g, done) =
        label_edges prev cur ls labels
          (if contains l labels then (ops.add_dependency g prev cur (some l), true) else (g, done))

    unfoldable pub pair_dependencies : ℕ → ℕ → G → G
    pair_dependencies prev cur g =
        let (g', done) =
          label_edges prev cur (ops.operand_var_ids g prev) (ops.operand_var_ids g cur)
            (g, false) in
        if done then g' else ops.add_dependency g' prev cur none

    abbrev pub fold_group : (ℕ → G → G) → List ℕ → G → G
    fold_group f [] g = g
    fold_group f (x ∷ xs) g = fold_group f xs (f x g)

    unfoldable pub group_dependencies : List ℕ → List ℕ → G → G
    group_dependencies prevs curs =
        fold_group (λ prev. fold_group (λ cur. pair_dependencies prev cur) curs) prevs

    -- The visitor has no call of it.
    abbrev pub group_connections : List ℕ → List ℕ → G → G
    group_connections prevs curs =
        fold_group
          (λ prev.
            fold_group (λ cur g. ops.add_connection (ops.add_connection g prev cur) cur prev) curs)
          prevs

    -- Connections in both directions between the operands of different optional patterns.
    unfoldable pub optional_connections : List ℕ → List ℕ → List ℕ → G → G
    optional_connections curs opts unions =
        fold_group
          (λ cur.
            fold_group
              (λ opt g.
                if contains opt unions
                then g
                else ops.add_connection (ops.add_connection g cur opt) opt cur)
              opts)
          curs

    -- What a pattern inside an OPTIONAL adds once its triples are visited. The parent group is
    -- `group_patterns[size - 2]`. The model reads the tops also where the group has no operand and
    -- the source does not.
    unfoldable pub capture_group : Visitor G → Result (Visitor G)
    capture_group s = elim s.opt_operands [
      | [] ↦ ok s
      | opts ∷ opts_below ↦ do
        cur ← top s.group_patterns
        prevs ← pop s.group_patterns
        prev ← top prevs
        unions ← top s.union_operands
        unions' ← change_top (λ us. us ++ cur) s.union_operands
        ok (record s {
          query = record s.query {
            odg = optional_connections cur opts unions (group_dependencies prev cur s.odg);
          };
          opt_operands = (opts ++ cur) ∷ opts_below;
          union_operands = unions';
        })
    ]

    module _ (rdf : Rdf) where
      unfoldable pub visit_blocks : List TriplesBlockContext → Visitor G → Result (Visitor G)
      visit_blocks [] s = ok s
      visit_blocks (tb ∷ tbs) s = visit_triples_block ops rdf tb s >>= visit_blocks tbs

      abbrev pub Visit : Type 0
      Visit =
          GroupGraphPatternSubContext → List GroupOrUnionContext → Visitor G → Result (Visitor G)

      -- The loop over the optional blocks, with the recursive call as an argument.
      unfoldable pub visit_optionals :
          Visit → List GroupGraphPatternContext → Visitor G → Result (Visitor G)
      visit_optionals visit [] s = ok s
      visit_optionals visit (o ∷ os) s = do
        ctx ← sub_of o
        s1 ← visit ctx [] (enter s)
        unions ← change_top (λ _. []) s1.union_operands
        s2 ← leave (record s1 { union_operands = unions })
        visit_optionals visit os s2

      -- The branch with no GroupOrUnionGraphPattern left.
      unfoldable pub visit_conjunction : Visit → Visitor G → Result (Visitor G)
      visit_conjunction visit s = do
        tbs ← top s.triples_blocks
        s1 ← visit_blocks tbs s
        s2 ← capture_group s1
        optionals ← top s2.optional_blocks
        s3 ← visit_optionals visit optionals (open_operands s2)
        close_operands s3

      -- The loop over the patterns of a union. `resize` keeps the first blocks: the vectors have
      -- only grown.
      unfoldable pub visit_union :
          Visit
          → ℕ
          → ℕ
          → List GroupOrUnionContext
          → GroupOrUnionContext
          → Visitor G
          → Result (Visitor G)
      visit_union visit tbs opts gous end_union s = ok s
      visit_union visit tbs opts gous (alternative grp rest) s = do
        ctx ← sub_of grp
        s1 ← visit ctx gous s
        blocks ← change_top (take tbs) s1.triples_blocks
        optionals ← change_top (take opts) s1.optional_blocks
        visit_union visit tbs opts gous rest
            (record s1 { triples_blocks = blocks; optional_blocks = optionals })

      unfoldable pub visit_rewritten :
          Visit → List GroupOrUnionContext × Visitor G → Result (Visitor G)
      visit_rewritten visit ([], s) = visit_conjunction visit s
      visit_rewritten visit (gou ∷ gous, s) = do
        tbs ← top s.triples_blocks
        opts ← top s.optional_blocks
        visit_union visit (length tbs) (length opts) gous gou s

      unfoldable pub visit_well_designed : ℕ → Visit
      visit_well_designed zero ctx gous s = fail out_of_fuel
      visit_well_designed (suc fuel) (group_sub tb subs) gous s = do
        s1 ← push_optional_block tb s
        stored ← store_list subs gous s1
        visit_rewritten (visit_well_designed fuel) stored

      unfoldable pub visit_group_graph_pattern :
          ℕ → GroupGraphPatternContext → Visitor G → Result (Visitor G)
      visit_group_graph_pattern fuel sub_select s =
          fail (runtime_error "Subqueries are not supported yet")
      visit_group_graph_pattern fuel neither s = fail (runtime_error "Malformed query")
      visit_group_graph_pattern fuel (pattern_sub ctx) s = visit_well_designed fuel ctx [] s

      unfoldable pub visit_where_clause :
          ℕ → GroupGraphPatternContext → Visitor G → Result (Visitor G)
      visit_where_clause fuel ctx s = do s1 ← visit_group_graph_pattern fuel ctx (enter s); leave s1
