-- ===== src/NodeStore/Backends.antt =====
-- The stored form of a node (`MetallIRIBackend`, `MetallBNodeBackend`, `MetallLiteralBackend`,
-- `MetallVariableBackend`) and the views it is made from and read as. The views are records of
-- rdf4cpp, with the fields that the source reads. The hashes and the equality of views are rdf4cpp's.
use tentris.Base.{ℕ, Bool, Option, none}
use tentris.Sparql.Syntax.{Text}

pub record IriView : Type 0 where
  pub identifier : Text

-- `scope` is a pointer to a scope of blank nodes.
pub record BNodeView : Type 0 where
  pub identifier : Text
  pub scope : Option ℕ

pub record LiteralView : Type 0 where
  pub datatype_id : ℕ
  pub lexical_form : Text
  pub language_tag : Text
  pub needs_escape : Bool

pub record VariableView : Type 0 where
  pub name : Text
  pub is_anonymous : Bool

pub record MetallIriBackend : Type 0 where
  pub iri : Text
  pub hash_ : ℕ

pub record MetallBNodeBackend : Type 0 where
  pub identifier_ : Text
  pub hash_ : ℕ

pub record MetallLiteralBackend : Type 0 where
  pub hash_ : ℕ
  pub datatype_id_ : ℕ
  pub lexical : Text
  pub lang_tag : Text
  pub needs_escape_ : Bool

pub record MetallVariableBackend : Type 0 where
  pub name_ : Text
  pub anonymous_ : Bool
  pub hash_ : ℕ

-- What rdf4cpp gives for a type of view.
pub record ViewOps (V : Type 0) : Type 0 where
  pub hash : V → ℕ
  pub same : V → V → Bool

-- A type of backend, as the template parameter of `MetallNodeTypeStorage`.
pub record BackendOps (V B : Type 0) : Type 0 where
  pub views : ViewOps V
  pub construct : V → B
  pub view : B → V
  pub hash_of : B → ℕ

unfoldable pub iri_view : MetallIriBackend → IriView
iri_view b = record { identifier = b.iri }

-- The hash is that of the view of the new backend.
unfoldable pub iri_backend : ViewOps IriView → BackendOps IriView MetallIriBackend
iri_backend views = record {
  views = views;
  construct =
      λ v. record { iri = v.identifier; hash_ = views.hash (record { identifier = v.identifier }) };
  view = iri_view;
  hash_of = λ b. b.hash_;
}

unfoldable pub bnode_view : MetallBNodeBackend → BNodeView
bnode_view b = record { identifier = b.identifier_; scope = none }

unfoldable pub bnode_backend : ViewOps BNodeView → BackendOps BNodeView MetallBNodeBackend
bnode_backend views = record {
  views = views;
  construct = λ v. record {
    identifier_ = v.identifier;
    hash_ = views.hash (record { identifier = v.identifier; scope = none });
  };
  view = bnode_view;
  hash_of = λ b. b.hash_;
}

unfoldable pub literal_view : MetallLiteralBackend → LiteralView
literal_view b = record {
  datatype_id = b.datatype_id_;
  lexical_form = b.lexical;
  language_tag = b.lang_tag;
  needs_escape = b.needs_escape_;
}

-- The hash is that of the view it is made from.
unfoldable pub literal_backend : ViewOps LiteralView → BackendOps LiteralView MetallLiteralBackend
literal_backend views = record {
  views = views;
  construct = λ v. record {
    hash_ = views.hash v;
    datatype_id_ = v.datatype_id;
    lexical = v.lexical_form;
    lang_tag = v.language_tag;
    needs_escape_ = v.needs_escape;
  };
  view = literal_view;
  hash_of = λ b. b.hash_;
}

unfoldable pub variable_view : MetallVariableBackend → VariableView
variable_view b = record { name = b.name_; is_anonymous = b.anonymous_ }

unfoldable pub variable_backend :
    ViewOps VariableView → BackendOps VariableView MetallVariableBackend
variable_backend views = record {
  views = views;
  construct = λ v. record {
    name_ = v.name;
    anonymous_ = v.is_anonymous;
    hash_ = views.hash (record { name = v.name; is_anonymous = v.is_anonymous });
  };
  view = variable_view;
  hash_of = λ b. b.hash_;
}
