-- ===== src/Sparql/Invariant.antt =====
-- What every visit keeps (the visits themselves are in the child modules): the table of variables is numbered in order, and holds each variable of a
-- triple pattern, of the active subject and predicate, and of the projection.
pub mod Visits
pub mod Traversal
pub mod Patterns
use tentris.Base.{
  ℕ, ◌+◌, ◌%◌, ◌≡◌, ◌≢◌, refl, inl, inr, Bool, false, none, some, List, ◌∷◌, arith, find, assign,
  find-assign, length, All, All-map, if_pos, subst, Option-cases,
}
use tentris.Sparql.Syntax.{Variable, Variable-discrete, Node, null_node, variable, TriplePattern}
use tentris.Sparql.State.{Visitor, register_var, register_node}
use tentris.Sparql.Triples.{nodes_of}
use tentris.Sparql.Ids.{Ids, Numbered, id?, HasId, HasId-assign, Numbered-assign}

abbrev pub Known : Ids → Node → Type 0
Known m (variable v) = HasId m v
Known m _ = Unit {0}

pub record IsValid (m : Ids) (next : ℕ) (tps : List TriplePattern) (subject predicate : Node)
    (projected : List Variable) (ask : Bool) : Type 0 where
  pub numbered : Numbered b'a' m
  pub counted : next ≡ (b'a' + length m) % 256
  pub patterns : All (λ tp. All (Known m) (nodes_of tp)) tps
  pub known_subject : Known m subject
  pub known_predicate : Known m predicate
  pub projections : All (HasId m) projected
  pub not_ask : ask ≡ false

abbrev pub Valid : {G : Type 0} → Visitor G → Type 0
Valid s =
    IsValid s.var_to_id s.var_id s.triple_patterns s.active_subject s.active_predicate
      s.projected_variables s.ask

Known-assign :
    (m : Ids) (w : Variable) (i : ℕ) (n : Node)
    → Known m n
    → Known (assign Variable-discrete w i m) n
Known-assign m w i (variable v) h = HasId-assign m v w i h
Known-assign m w i _ h = tt

HasId-new : (m : Ids) (v : Variable) (i : ℕ) → HasId (assign Variable-discrete v i m) v
HasId-new m v i =
    (i, rw (find-assign Variable-discrete v v i m) (if_pos (Variable-discrete v v) refl _ _))

module _ {G : Type 0} where
  -- The invariant, with another node for the active subject.
  abbrev pub ValidWith : Node → Visitor G → Type 0
  ValidWith subject s =
      IsValid s.var_to_id s.var_id s.triple_patterns subject s.active_predicate
        s.projected_variables s.ask

  register_var-ValidWith :
      (subject : Node) (s : Visitor G) (v : Variable)
      → ValidWith subject s
      → ValidWith subject (register_var s v) × HasId (register_var s v).var_to_id v
  unfolding register_var
  register_var-ValidWith subject s v h = elim (Option-cases (id? v s.var_to_id)) [
    | inr (id, e) ↦ rw (e, register_var) (h, (id, e))
    | inl e ↦
        rw (e, register_var)
          (let m = s.var_to_id in
            let (a, b) = Numbered-assign b'a' s.var_id v m e h.counted h.numbered in
            (
              record {
                numbered = a;
                counted = rw b (omega (arith, h.counted));
                patterns =
                    All-map s.triple_patterns
                      (λ tp. All-map (nodes_of tp) (Known-assign m v s.var_id)) h.patterns;
                known_subject = Known-assign m v s.var_id subject h.known_subject;
                known_predicate = Known-assign m v s.var_id s.active_predicate h.known_predicate;
                projections =
                    All-map s.projected_variables (λ w. HasId-assign m w v s.var_id) h.projections;
                not_ask = h.not_ask;
              },
              HasId-new m v s.var_id,
            ))
  ]

  active_subject-register_var :
      (s : Visitor G) (v : Variable) → (register_var s v).active_subject ≡ s.active_subject
  unfolding register_var
  active_subject-register_var s v = ground arith

  -- Registering keeps the invariant, and the variable then has an id.
  pub register_var-Valid :
      (s : Visitor G) (v : Variable)
      → Valid s
      → Valid (register_var s v) × HasId (register_var s v).var_to_id v
  register_var-Valid s v h =
      rw active_subject-register_var (register_var-ValidWith s.active_subject s v h)

  pub register_node-Valid :
      (s : Visitor G) (n : Node)
      → Valid s
      → Valid (register_node s n) × Known (register_node s n).var_to_id n
  register_node-Valid s (variable v) h = register_var-Valid s v h
  register_node-Valid s _ h = (h, tt)

  -- A new subject is set first and registered then.
  pub set_subject-Valid :
      (s : Visitor G) (n : Node)
      → Valid s
      → Valid (register_node (record s { active_subject = n }) n)
  set_subject-Valid s (variable v) h =
      let s0 : Visitor G = record s { active_subject = variable v } in
      let without : ValidWith null_node s0 = record {
        numbered = h.numbered;
        counted = h.counted;
        patterns = h.patterns;
        known_subject = tt;
        known_predicate = h.known_predicate;
        projections = h.projections;
        not_ask = h.not_ask;
      } in
      let (r, known) = register_var-ValidWith null_node s0 v without in
      rw active_subject-register_var (record {
        numbered = r.numbered;
        counted = r.counted;
        patterns = r.patterns;
        known_subject = known;
        known_predicate = r.known_predicate;
        projections = r.projections;
        not_ask = r.not_ask;
      })
  set_subject-Valid s _ h = record {
    numbered = h.numbered;
    counted = h.counted;
    patterns = h.patterns;
    known_subject = tt;
    known_predicate = h.known_predicate;
    projections = h.projections;
    not_ask = h.not_ask;
  }

  register_new :
      (s : Visitor G) (v : Variable)
      → id? v s.var_to_id ≡ none
      → (register_var s v).var_to_id ≡ assign Variable-discrete v s.var_id s.var_to_id
  unfolding register_var
  register_new s v e = rw (e, register_var)

  -- The 257th variable to be registered gets the id of the first one.
  pub register_var-wraps :
      (s : Visitor G) (v w : Variable) (id : ℕ) (m : Ids)
      → Valid s
      → s.var_to_id ≡ (v, id) ∷ m
      → length s.var_to_id ≡ 256
      → id? w s.var_to_id ≡ none
      → (v ≢ w)
        × (id? v (register_var s w).var_to_id ≡ some b'a')
        × (id? w (register_var s w).var_to_id ≡ some b'a')
  unfolding find
  register_var-wraps s v w id m h first size new =
      let numbered : Numbered b'a' ((v, id) ∷ m) = subst (Numbered b'a') first h.numbered in
      let next : s.var_id ≡ b'a' = omega arith in
      let first_id : id ≡ b'a' = omega arith in
      let old : id? v s.var_to_id ≡ some id = ground arith in
      let distinct : v ≢ w = λ e. cc in
      (
        distinct,
        rw (register_new s w new, find-assign Variable-discrete w v s.var_id s.var_to_id)
            (ground arith),
        rw (register_new s w new, find-assign Variable-discrete w w s.var_id s.var_to_id)
            (ground arith),
      )
