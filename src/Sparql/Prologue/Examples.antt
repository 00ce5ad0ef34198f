-- ===== src/Sparql/Prologue/Examples.antt =====
-- A prologue that declares one name twice, and each theorem at a concrete input.
use tentris.Base.{
  true, Option, none, some, List, [], ◌∷◌, ◌++◌, map, ok, ite, ◌≡◌, refl, ap, arith, ℕ_discrete,
}
use tentris.Sparql.Syntax.{Text, Text-discrete, pname_ln}
use tentris.Sparql.Terms.{bytes, visit_iri}
use tentris.Sparql.Prologue.{IriFactoryOps, visit_prologue, with_prefixes}
use tentris.Sparql.Prologue.Names.{Declaration, declare, IriFactoryLaws, visit_iri-latest}

-- The namespace of each name.
abbrev Factory : Type 0
Factory = Text → Option Text

abbrev joined : Text → Option Text → Option Text
joined local none = none
joined local (some namespace) = some (namespace ++ local)

abbrev factory : IriFactoryOps Factory
factory = record {
  new = λ name. none;
  assign_prefix =
      λ name namespace f other. ite (Text-discrete name other) (some namespace) (f other);
  from_prefix = λ f name local. joined local (f name);
}

abbrev laws : IriFactoryLaws factory
laws = record {
  Valid = λ iri. Unit;
  namespace_of = λ f name. f name;
  namespace_of-assign_prefix = λ name other namespace f. refl;
  from_prefix-namespace_of = λ name local namespace f e valid. ap (joined local) e;
}

abbrev declarations : List Declaration
declarations =
    record { name = bytes "a"; namespace = bytes "x:" }
    ∷ record { name = bytes "a"; namespace = bytes "y:" }
    ∷ []

visit_iri-latest_example :
    (f : Factory) × (visit_prologue factory
        (record { prefix_decls = map declare declarations; base_decls = [] })
        factory.new
      ≡ ok f)
    × (visit_iri (with_prefixes factory (λ value datatype. true) f) (pname_ln (bytes "a:b"))
        ≡ ok (bytes "y:b"))
unfolding Text-discrete ℕ_discrete
visit_iri-latest_example =
    visit_iri-latest factory laws (λ value datatype. true) declarations (bytes "a") (bytes "y:")
      (bytes "b") (omega arith) (refl, tt) refl tt
