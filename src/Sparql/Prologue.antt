-- ===== src/Sparql/Prologue.antt =====
-- `PrologueVisitor`, and `SPARQLQuery::parse` with its prologue. The `IRIFactory` of rdf4cpp is a
-- parameter.
pub mod Names
mod Examples
use tentris.Base.{
  ℕ, Bool, Option, none, some, List, [], ◌∷◌, Result, ok, fail, Fault, runtime_error, ◌>>=◌, ◌≡◌,
  refl,
}
use tentris.Sparql.Syntax.{Text}
use tentris.Sparql.Terms.{Rdf, substr, size_minus}
use tentris.Sparql.Graph.{GraphOps}
use tentris.Sparql.State.{Query}
use tentris.Sparql.Select.{QueryContext, select_query, ask_query, other_query, parse}

pub record PrefixDeclContext : Type 0 where
  pub pname_ns : Option Text
  pub iriref : Text

-- A base declaration is not read.
pub record PrologueContext : Type 0 where
  pub prefix_decls : List PrefixDeclContext
  pub base_decls : List Text

pub record IriFactoryOps (F : Type 0) : Type 0 where
  pub new : F
  pub assign_prefix : Text → Text → F → F
  pub from_prefix : F → Text → Text → Option Text

module _ {F : Type 0} (factory : IriFactoryOps F) where
  abbrev pub prefix_text : Option Text → Text
  prefix_text none = []
  prefix_text (some text) = text

  unfoldable pub visit_prefix_decl : PrefixDeclContext → F → Result F
  visit_prefix_decl ctx f =
      let prefix = prefix_text ctx.pname_ns in
      substr 0 (size_minus prefix 1) prefix >>= λ name.
      substr 1 (size_minus ctx.iriref 2) ctx.iriref >>= λ namespace.
      ok (factory.assign_prefix name namespace f)

  unfoldable pub visit_prefix_decls : List PrefixDeclContext → F → Result F
  visit_prefix_decls [] f = ok f
  visit_prefix_decls (ctx ∷ ctxs) f = visit_prefix_decl ctx f >>= visit_prefix_decls ctxs

  abbrev pub refuse_base : List Text → F → Result F
  refuse_base [] f = ok f
  refuse_base (base ∷ bases) f = fail (runtime_error "Base Declarations not supported yet.")

  unfoldable pub visit_prologue : PrologueContext → F → Result F
  visit_prologue ctx f = visit_prefix_decls ctx.prefix_decls f >>= refuse_base ctx.base_decls

  -- What the visitor of the query asks of rdf4cpp, with the prefixes.
  abbrev pub with_prefixes : (Text → Text → Bool) → F → Rdf
  with_prefixes accepts f = record { from_prefix = factory.from_prefix f; accepts = accepts }

  abbrev pub visit_optional_prologue : Option PrologueContext → Result F
  visit_optional_prologue none = ok factory.new
  visit_optional_prologue (some ctx) = visit_prologue ctx factory.new

  -- `SPARQLQuery::parse` on the parse tree: the kind of the query is tested before the prologue.
  module _ {G : Type 0} (ops : GraphOps G) (accepts : Text → Text → Bool) (fuel : ℕ) where
    unfoldable pub parse_query : Option PrologueContext → QueryContext → Result (Query G)
    parse_query prologue other_query =
        fail (runtime_error "Only SELECT & ASK queries are supported currently.")
    parse_query prologue (select_query clause where_clause) =
        visit_optional_prologue prologue >>= λ f.
        parse ops (with_prefixes accepts f) fuel (select_query clause where_clause)
    parse_query prologue (ask_query where_clause) = visit_optional_prologue prologue >>= λ f.
        parse ops (with_prefixes accepts f) fuel (ask_query where_clause)
