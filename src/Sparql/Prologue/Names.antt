-- ===== src/Sparql/Prologue/Names.antt =====
-- Prefixed names mean what the prologue declares.
use tentris.Base.{
  ℕ, suc, ◌+◌, ◌^◌, ◌<◌, Bool, false, Option, none, some, List, [], ◌∷◌, ◌++◌, length,
  length-append, take, drop, take-length-append, map, ◌≤◌, out_of_range, runtime_error, Result, ok,
  fail, ◌>>=◌, ltb, ◌==◌, if◌then◌else◌, ite, ◌≡◌, refl, ap, ◌∙◌, arith, All,
}
use tentris.Sparql.Syntax.{Text, Text-discrete, pname_ln}
use tentris.Sparql.Terms.{substr, size_minus, find_colon, split_prefix, visit_iri}
use tentris.Sparql.Prologue.{
  PrefixDeclContext, IriFactoryOps, visit_prefix_decl, visit_prefix_decls, refuse_base,
  visit_prologue, with_prefixes,
}

-- The declaration `PREFIX name: <namespace>`.
pub record Declaration : Type 0 where
  pub name : Text
  pub namespace : Text

abbrev pub declare : Declaration → PrefixDeclContext
declare d = record {
  pname_ns = some (d.name ++ (b':' ∷ []));
  iriref = b'<' ∷ (d.namespace ++ (b'>' ∷ []));
}

-- The tokens are shorter than a `size_t` counts.
abbrev pub IsShort : Declaration → Type 0
IsShort d = (length d.name + 1 < 2 ^ 64) × (length d.namespace + 2 < 2 ^ 64)

-- The namespace of the last declaration of a name, if not one from before.
abbrev pub latest : Text → Option Text → List Declaration → Option Text
latest name before [] = before
latest name before (d ∷ ds) =
    latest name (ite (Text-discrete d.name name) (some d.namespace) before) ds

-- What rdf4cpp documents of `IRIFactory`: `Valid` are the IRIs that it makes.
pub record IriFactoryLaws {F : Type 0} (factory : IriFactoryOps F) : Type 1 where
  pub Valid : Text → Type 0
  pub namespace_of : F → Text → Option Text
  pub namespace_of-assign_prefix :
      (name other namespace : Text) (f : F)
      → namespace_of (factory.assign_prefix name namespace f) other
        ≡ ite (Text-discrete name other) (some namespace) (namespace_of f other)
  pub from_prefix-namespace_of :
      (name local namespace : Text) (f : F)
      → namespace_of f name ≡ some namespace
      → Valid (namespace ++ local)
      → factory.from_prefix f name local ≡ some (namespace ++ local)

not_ltb : (a b : ℕ) → b ≤ a → ltb a b ≡ false
not_ltb a b h = ground arith

substr_front :
    (s : Text) (c : ℕ)
    → length s + 1 < 2 ^ 64
    → let text = s ++ (c ∷ []) in substr 0 (size_minus text 1) text ≡ ok s
substr_front s c short =
    let long = length-append s (c ∷ []) in
    let size : size_minus (s ++ (c ∷ [])) 1 ≡ length s = omega (arith, long) in
    ap (λ n. substr 0 n (s ++ (c ∷ []))) size
    ∙ ap (λ b. if b then fail out_of_range else ok (take (length s) (s ++ (c ∷ []))))
        (not_ltb (length (s ++ (c ∷ []))) 0 (omega arith))
    ∙ ap ok (take-length-append s (c ∷ []))

substr_inner :
    (s : Text) (b e : ℕ)
    → length s + 2 < 2 ^ 64
    → let text = b ∷ (s ++ (e ∷ [])) in substr 1 (size_minus text 2) text ≡ ok s
substr_inner s b e short =
    let long = length-append s (e ∷ []) in
    let size : size_minus (b ∷ (s ++ (e ∷ []))) 2 ≡ length s = omega (arith, long) in
    ap (λ n. substr 1 n (b ∷ (s ++ (e ∷ [])))) size
    ∙ ap (λ t. if t then fail out_of_range else ok (take (length s) (s ++ (e ∷ []))))
        (not_ltb (suc (length (s ++ (e ∷ [])))) 1 (omega arith))
    ∙ ap ok (take-length-append s (e ∷ []))

abbrev pub HasNoColon : Text → Type 0
HasNoColon = All (λ c. (c == b':') ≡ false)

find_colon-concat :
    (name local : Text) → HasNoColon name → find_colon (name ++ (b':' ∷ local)) ≡ some (length name)
find_colon-concat [] local h = refl
find_colon-concat (c ∷ name) local h =
    ap
      (λ b.
        if b
        then some 0
        else elim (find_colon (name ++ (b':' ∷ local))) [ none ↦ none | some i ↦ some (suc i) ])
      h.0
    ∙ ap (λ (o : Option ℕ). elim o [ none ↦ none | some i ↦ some (suc i) ])
        (find_colon-concat name local h.1)

drop-length-append :
    (s : Text) (c : ℕ) (rest : Text) → drop (suc (length s)) (s ++ (c ∷ rest)) ≡ rest
drop-length-append [] c rest = refl
drop-length-append (x ∷ s) c rest = drop-length-append s c rest

split_prefix-concat :
    (name local : Text) → HasNoColon name → split_prefix (name ++ (b':' ∷ local)) ≡ (name, local)
unfolding split_prefix
split_prefix-concat name local h =
    let text = name ++ (b':' ∷ local) in
    ap
      (λ (o : Option ℕ). elim o [ none ↦ (text, text) | some i ↦ (take i text, drop (suc i) text) ])
      (find_colon-concat name local h)
    ∙ ap (λ t. (t, drop (suc (length name)) text)) (take-length-append name (b':' ∷ local))
    ∙ ap (λ t. (name, t)) (drop-length-append name b':' local)

module _ {F : Type 0} (factory : IriFactoryOps F) (laws : IriFactoryLaws factory) where
  abbrev assign_all : List Declaration → F → F
  assign_all [] f = f
  assign_all (d ∷ ds) f = assign_all ds (factory.assign_prefix d.name d.namespace f)

  visit_prefix_decls-assign_all :
      (ds : List Declaration) (f : F)
      → All IsShort ds
      → visit_prefix_decls factory (map declare ds) f ≡ ok (assign_all ds f)
  unfolding visit_prefix_decls visit_prefix_decl
  visit_prefix_decls-assign_all [] f short = refl
  visit_prefix_decls-assign_all (d ∷ ds) f ((short_name, short_namespace), short) =
      let ctx = declare d in
      ap
        (λ (r : Result Text).
          (r >>= λ name. substr 1 (size_minus ctx.iriref 2) ctx.iriref >>= λ namespace.
          ok (factory.assign_prefix name namespace f))
          >>= visit_prefix_decls factory (map declare ds))
        (substr_front d.name b':' short_name)
      ∙ ap
          (λ (r : Result Text).
            (r >>= λ namespace. ok (factory.assign_prefix d.name namespace f))
            >>= visit_prefix_decls factory (map declare ds))
          (substr_inner d.namespace b'<' b'>' short_namespace)
      ∙ visit_prefix_decls-assign_all ds (factory.assign_prefix d.name d.namespace f) short

  namespace_of-assign_all :
      (name : Text) (ds : List Declaration) (f : F)
      → laws.namespace_of (assign_all ds f) name ≡ latest name (laws.namespace_of f name) ds
  namespace_of-assign_all name [] f = refl
  namespace_of-assign_all name (d ∷ ds) f =
      namespace_of-assign_all name ds (factory.assign_prefix d.name d.namespace f)
      ∙ ap (λ (o : Option Text). latest name o ds)
          (laws.namespace_of-assign_prefix d.name name d.namespace f)

  -- A prologue of PREFIX declarations is read, and after it a prefixed name with a name that they declare
  -- means the namespace of the last declaration of that name followed by the local part, where that is
  -- an IRI. The tokens are shorter than a `size_t` counts.
  pub visit_iri-latest :
      (accepts : Text → Text → Bool) (ds : List Declaration) (name namespace local : Text)
      → All IsShort ds
      → HasNoColon name
      → latest name (laws.namespace_of factory.new name) ds ≡ some namespace
      → laws.Valid (namespace ++ local)
      → (f : F) × (visit_prologue factory
            (record { prefix_decls = map declare ds; base_decls = [] })
            factory.new
          ≡ ok f)
        × (visit_iri (with_prefixes factory accepts f) (pname_ln (name ++ (b':' ∷ local)))
            ≡ ok (namespace ++ local))
  unfolding visit_prologue visit_iri
  visit_iri-latest accepts ds name namespace local short plain declared valid =
      let f = assign_all ds factory.new in
      (
        f,
        ap (λ (r : Result F). r >>= refuse_base factory [])
            (visit_prefix_decls-assign_all ds factory.new short),
        ap (λ ((prefix, rest) : Text × Text). found (factory.from_prefix f prefix rest))
              (split_prefix-concat name local plain)
            ∙ ap found (
                laws.from_prefix-namespace_of name local namespace f
                  (namespace_of-assign_all name ds factory.new ∙ declared) valid),
      )
    where
      found : Option Text → Result Text
      found o = elim o [ none ↦ fail (runtime_error "Invalid prefixed IRI") | some iri ↦ ok iri ]
