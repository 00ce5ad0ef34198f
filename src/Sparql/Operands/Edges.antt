-- ===== src/Sparql/Operands/Edges.antt =====
-- The edges that the visitor adds leave the operands as they are.
use tentris.Base.{
  ℕ, Bool, true, false, Option, none, some, List, [], ◌∷◌, ◌≡◌, refl, ◌∙◌, arith, if◌then◌else◌,
}
use tentris.Sparql.Graph.{GraphOps}
use tentris.Sparql.Triples.{contains, link, match_var, match_vars, connect, connect_all}
use tentris.Sparql.Pattern.{
  label_edges, pair_dependencies, fold_group, group_dependencies, optional_connections,
}
use tentris.Sparql.Operands.{OperandLaws}

module _ {G : Type 0} (ops : GraphOps G) (laws : OperandLaws ops) where
  open laws use {
    operands, operands-empty, operands-add_operand, operands-add_dependency,
    operands-add_connection,
  }

  operands-link : (a b : ℕ) (l : Option ℕ) (g : G) → operands (link ops a b l g) ≡ operands g
  operands-link a b l g =
      operands-add_dependency (ops.add_dependency g a b l) b a l ∙ operands-add_dependency g a b l

  operands-match_var :
      (u v x : ℕ) (ts : List ℕ) (g : G) (done : List ℕ) (cart : Bool)
      → operands (match_var ops u v x ts (g, done, cart)).0 ≡ operands g
  unfolding match_var
  operands-match_var u v x [] g done cart = refl
  operands-match_var u v x (t ∷ ts) g done cart = ground (
    arith,
    operands-match_var u v x ts g done cart,
    operands-match_var u v x ts g done false,
    operands-match_var u v x ts (link ops u v (some x) g) (x ∷ done) false,
    operands-link u v (some x) g,
  )

  operands-match_vars :
      (u v : ℕ) (xs ts : List ℕ) (st : G × List ℕ × Bool)
      → operands (match_vars ops u v xs ts st).0 ≡ operands st.0
  unfolding match_vars
  operands-match_vars u v [] ts st = refl
  operands-match_vars u v (x ∷ xs) ts st =
      operands-match_vars u v xs ts (match_var ops u v x ts st)
      ∙ operands-match_var u v x ts st.0 st.1 st.2

  operands-connect :
      (u v : ℕ) (vars : List ℕ) (g : G) → operands (connect ops u v vars g) ≡ operands g
  unfolding connect
  operands-connect u v vars g =
      let st = match_vars ops u v vars (ops.operand_var_ids g u) (g, [], true) in
      ground (
        arith,
        operands-match_vars u v vars (ops.operand_var_ids g u) (g, [], true),
        operands-link u v none st.0,
      )

  pub operands-connect_all :
      (us : List ℕ) (v : ℕ) (vars : List ℕ) (g : G)
      → operands (connect_all ops us v vars g) ≡ operands g
  unfolding connect_all
  operands-connect_all [] v vars g = refl
  operands-connect_all (u ∷ us) v vars g =
      operands-connect_all us v vars (connect ops u v vars g) ∙ operands-connect u v vars g

  operands-fold_group :
      (f : ℕ → G → G) (xs : List ℕ) (g : G)
      → ((x : ℕ) (h : G) → operands (f x h) ≡ operands h)
      → operands (fold_group ops f xs g) ≡ operands g
  operands-fold_group f [] g h = refl
  operands-fold_group f (x ∷ xs) g h = operands-fold_group f xs (f x g) h ∙ h x g

  operands-label_edges :
      (prev cur : ℕ) (ls labels : List ℕ) (st : G × Bool)
      → operands (label_edges ops prev cur ls labels st).0 ≡ operands st.0
  unfolding label_edges
  operands-label_edges prev cur [] labels st = refl
  operands-label_edges prev cur (l ∷ ls) labels (g, done) = ground (
    arith,
    operands-label_edges prev cur ls labels (g, done),
    operands-label_edges prev cur ls labels (ops.add_dependency g prev cur (some l), true),
    operands-add_dependency g prev cur (some l),
  )

  operands-pair_dependencies :
      (prev cur : ℕ) (g : G) → operands (pair_dependencies ops prev cur g) ≡ operands g
  unfolding pair_dependencies
  operands-pair_dependencies prev cur g =
      let ls = ops.operand_var_ids g prev in
      let labels = ops.operand_var_ids g cur in
      ground (
        arith,
        operands-label_edges prev cur ls labels (g, false),
        operands-add_dependency (label_edges ops prev cur ls labels (g, false)).0 prev cur none,
      )

  pub operands-group_dependencies :
      (prevs curs : List ℕ) (g : G) → operands (group_dependencies ops prevs curs g) ≡ operands g
  unfolding group_dependencies
  operands-group_dependencies prevs curs g =
      operands-fold_group _ prevs g
        (λ prev h. operands-fold_group _ curs h (λ cur k. operands-pair_dependencies prev cur k))

  connected_once :
      (cur opt : ℕ) (unions : List ℕ) (g : G)
      → operands (
          if contains opt unions
          then g
          else ops.add_connection (ops.add_connection g cur opt) opt cur)
        ≡ operands g
  connected_once cur opt unions g = ground (
    arith,
    operands-add_connection g cur opt,
    operands-add_connection (ops.add_connection g cur opt) opt cur,
  )

  pub operands-optional_connections :
      (curs opts unions : List ℕ) (g : G)
      → operands (optional_connections ops curs opts unions g) ≡ operands g
  unfolding optional_connections
  operands-optional_connections curs opts unions g =
      operands-fold_group _ curs g
        (λ cur h. operands-fold_group _ opts h (λ opt k. connected_once cur opt unions k))
