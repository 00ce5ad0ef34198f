-- ===== src/Sparql/Projection.antt =====
-- `SELECT *` projects the named variables of the triple patterns, each once.
use tentris.Base.{
  NoDuplicates, NoDuplicates-snoc, In-snoc, ok, if◌then◌else◌, Bool, true, false, List, [], ◌∷◌,
  ◌++◌, In, In-append_left, In-append_right, ◌≡◌, ◌≢◌, refl, sym, ap, ◌∙◌, ◌⊎◌, inl, inr, ◌↔◌,
  Bool-cases, if_pos, if_neg, subst,
}
use tentris.Sparql.Syntax.{
  asterisk, Variable, Variable-discrete, Node, null_node, variable, iri, literal,
}
use tentris.Sparql.State.{Visitor}
use tentris.Sparql.Select.{project, all_nodes, is_seen, project_nodes}

-- A variable that the loop still projects from the nodes.
abbrev ToProject : List Variable → List Node → Variable → Type 0
ToProject seen ns v = (v.is_anonymous ≡ false) × In (variable v) ns × (is_seen v seen ≡ false)

-- The three branches for a variable.
abbrev choose : Bool → Bool → List Variable → List Variable → List Variable
choose anonymous seen old new = if anonymous then old else (if seen then old else new)

project_nodes-variable :
    (w : Variable) (ns : List Node) (seen projected : List Variable)
    → project_nodes (variable w ∷ ns) seen projected
      ≡ choose w.is_anonymous
          (is_seen w seen)
          (project_nodes ns seen projected)
          (project_nodes ns (w ∷ seen) (projected ++ w ∷ []))
unfolding project_nodes
project_nodes-variable w ns seen projected = refl

choose-cases :
    (anonymous seen : Bool) (old new : List Variable)
    → (((anonymous ≡ true) ⊎ (seen ≡ true)) × (choose anonymous seen old new ≡ old))
      ⊎ ((anonymous ≡ false) × (seen ≡ false) × (choose anonymous seen old new ≡ new))
choose-cases true seen old new = inl (inl refl, refl)
choose-cases false true old new = inl (inr refl, refl)
choose-cases false false old new = inr (refl, refl, refl)

is_seen-cons :
    (v w : Variable) (seen : List Variable)
    → is_seen v (w ∷ seen) ≡ false
    → (v ≢ w) × (is_seen v seen ≡ false)
is_seen-cons v w seen e = elim (Variable-discrete w v) [
  | yes q ↦ cc (if_pos (Variable-discrete w v) q true (is_seen v seen), e)
  | no q ↦ ((λ p. q (sym p)), sym (if_neg (Variable-discrete w v) q true (is_seen v seen)) ∙ e)
]

cons-is_seen :
    (v w : Variable) (seen : List Variable)
    → v ≢ w
    → is_seen v seen ≡ false
    → is_seen v (w ∷ seen) ≡ false
cons-is_seen v w seen n e =
    if_neg (Variable-discrete w v) (λ q. n (sym q)) true (is_seen v seen) ∙ e

project_nodes_sound :
    (ns : List Node) (seen projected : List Variable) (v : Variable)
    → In v (project_nodes ns seen projected)
    → In v projected ⊎ ToProject seen ns v
unfolding project_nodes
project_nodes_sound [] seen projected v m = inl m
project_nodes_sound (null_node ∷ ns) seen projected v m =
    elim (project_nodes_sound ns seen projected v m) [
      | inl x ↦ inl x
      | inr (a, i, s) ↦ inr (a, inr i, s)
    ]
project_nodes_sound (iri t ∷ ns) seen projected v m =
    elim (project_nodes_sound ns seen projected v m) [
      | inl x ↦ inl x
      | inr (a, i, s) ↦ inr (a, inr i, s)
    ]
project_nodes_sound (literal l ∷ ns) seen projected v m =
    elim (project_nodes_sound ns seen projected v m) [
      | inl x ↦ inl x
      | inr (a, i, s) ↦ inr (a, inr i, s)
    ]
project_nodes_sound (variable w ∷ ns) seen projected v m =
    elim (choose-cases w.is_anonymous (is_seen w seen) (project_nodes ns seen projected)
      (project_nodes ns (w ∷ seen) (projected ++ w ∷ []))) [
        | inl (why, e) ↦ elim (project_nodes_sound ns seen projected v (subst (In v) e m)) [
          | inl x ↦ inl x
          | inr (a, i, s) ↦ inr (a, inr i, s)
        ]
        | inr (named, unseen, e) ↦
            elim (project_nodes_sound ns (w ∷ seen) (projected ++ w ∷ []) v (subst (In v) e m)) [
              | inl x ↦ elim (In-snoc v w projected x) [
                | inl y ↦ inl y
                | inr q ↦ inr (
                  ap (λ (u : Variable). u.is_anonymous) q ∙ named,
                  inl (ap variable q),
                  ap (λ u. is_seen u seen) q ∙ unseen,
                )
              ]
              | inr (a, i, s) ↦ inr (a, inr i, (is_seen-cons v w seen s).1)
            ]
      ]

project_nodes_complete :
    (ns : List Node) (seen projected : List Variable) (v : Variable)
    → In v projected ⊎ ToProject seen ns v
    → In v (project_nodes ns seen projected)
unfolding project_nodes
project_nodes_complete [] seen projected v (inl m) = m
project_nodes_complete [] seen projected v (inr (a, i, s)) = absurd (i tt)
project_nodes_complete (null_node ∷ ns) seen projected v h =
    project_nodes_complete ns seen projected v
      (elim h [ inl x ↦ inl x | inr (a, i, s) ↦ elim i [ inl q ↦ cc q | inr j ↦ inr (a, j, s) ] ])
project_nodes_complete (iri t ∷ ns) seen projected v h =
    project_nodes_complete ns seen projected v (elim h [
      | inl x ↦ inl x
      | inr (a, i, s) ↦ elim i [ inl q ↦ absurd (cc q) | inr j ↦ inr (a, j, s) ]
    ])
project_nodes_complete (literal l ∷ ns) seen projected v h =
    project_nodes_complete ns seen projected v (elim h [
      | inl x ↦ inl x
      | inr (a, i, s) ↦ elim i [ inl q ↦ absurd (cc q) | inr j ↦ inr (a, j, s) ]
    ])
project_nodes_complete (variable w ∷ ns) seen projected v h =
    elim (choose-cases w.is_anonymous (is_seen w seen) (project_nodes ns seen projected)
      (project_nodes ns (w ∷ seen) (projected ++ w ∷ []))) [
        | inl (why, e) ↦ subst (In v) (sym e) (
            project_nodes_complete ns seen projected v (elim h [
              | inl x ↦ inl x
              | inr (a, i, s) ↦ elim i [
                | inl q ↦ absurd (elim why [ inl y ↦ cc (q, y, a) | inr y ↦ cc (q, y, s) ])
                | inr j ↦ inr (a, j, s)
              ]
            ]))
        | inr (named, unseen, e) ↦ subst (In v) (sym e) (
            project_nodes_complete ns (w ∷ seen) (projected ++ w ∷ []) v (elim h [
              | inl x ↦ inl (In-append_left v projected (w ∷ []) x)
              | inr (a, i, s) ↦ elim (Variable-discrete v w) [
                | yes q ↦ inl (In-append_right v projected (w ∷ []) (inl q))
                | no q ↦ elim i [
                  | inl r ↦ absurd (q (cc r))
                  | inr j ↦ inr (a, j, cons-is_seen v w seen q s)
                ]
              ]
            ]))
      ]

is_seen-same : (v w : Variable) (seen : List Variable) → v ≡ w → is_seen v (w ∷ seen) ≡ true
is_seen-same v w seen e = if_pos (Variable-discrete w v) (sym e) true (is_seen v seen)

is_seen-weaken :
    (v w : Variable) (seen : List Variable) → is_seen v seen ≡ true → is_seen v (w ∷ seen) ≡ true
is_seen-weaken v w seen e = elim (Bool-cases (is_seen v (w ∷ seen))) [
  | inl y ↦ y
  | inr y ↦ absurd (cc (e, (is_seen-cons v w seen y).1))
]

project_nodes-NoDuplicates :
    (ns : List Node) (seen projected : List Variable)
    → NoDuplicates projected
    → ((v : Variable) → In v projected → is_seen v seen ≡ true)
    → NoDuplicates (project_nodes ns seen projected)
unfolding project_nodes
project_nodes-NoDuplicates [] seen projected d h = d
project_nodes-NoDuplicates (null_node ∷ ns) seen projected d h =
    project_nodes-NoDuplicates ns seen projected d h
project_nodes-NoDuplicates (iri t ∷ ns) seen projected d h =
    project_nodes-NoDuplicates ns seen projected d h
project_nodes-NoDuplicates (literal l ∷ ns) seen projected d h =
    project_nodes-NoDuplicates ns seen projected d h
project_nodes-NoDuplicates (variable w ∷ ns) seen projected d h =
    elim (choose-cases w.is_anonymous (is_seen w seen) (project_nodes ns seen projected)
      (project_nodes ns (w ∷ seen) (projected ++ w ∷ []))) [
        | inl (why, e) ↦
            subst NoDuplicates (sym e) (project_nodes-NoDuplicates ns seen projected d h)
        | inr (named, unseen, e) ↦ subst NoDuplicates (sym e) (
            project_nodes-NoDuplicates ns (w ∷ seen) (projected ++ w ∷ [])
              (NoDuplicates-snoc projected w d (λ i. cc (h w i, unseen)))
              (λ v m. elim (In-snoc v w projected m) [
                | inl i ↦ is_seen-weaken v w seen (h v i)
                | inr q ↦ is_seen-same v w seen q
              ]))
      ]

-- `SELECT *`, with nothing projected before, projects each variable of the triple patterns that is not
-- anonymous, once, and nothing else.
pub project-asterisk :
    {G : Type 0} (s : Visitor G)
    → s.projected_variables ≡ []
    → (s' : Visitor G) × (project asterisk s ≡ ok s')
      × NoDuplicates s'.projected_variables
      × ((v : Variable)
          → In v s'.projected_variables
            ↔ ((v.is_anonymous ≡ false) × In (variable v) (all_nodes s.triple_patterns)))
unfolding project
project-asterisk s e =
    let ns = all_nodes s.triple_patterns in
    let none_before : (v : Variable) → In v s.projected_variables → ⊥ =
      λ v m. subst (In v) e m tt in
    (
      _,
      refl,
      project_nodes-NoDuplicates ns [] s.projected_variables (subst NoDuplicates (sym e) tt)
          (λ v m. absurd (none_before v m)),
      (λ v. (
        (λ m. elim (project_nodes_sound ns [] s.projected_variables v m) [
          | inl x ↦ absurd (none_before v x)
          | inr (a, i, seen) ↦ (a, i)
        ]),
        (λ (a, i). project_nodes_complete ns [] s.projected_variables v (inr (a, i, refl))),
      )),
    )
