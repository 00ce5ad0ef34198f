-- ===== src/TripleStore/Instance/Access.antt =====
-- The access by a full key to the hypertrie of the examples.
use tentris.Base.{
  true, some, List, [], ◌∷◌, map, length, not, In, inl, ◌↔◌, ◌≡◌, refl, sym, ap, ◌∙◌, subst, arith,
}
use tentris.Sparql.Syntax.{Node}
use tentris.TripleStore.Hypertrie.{free, fill}
use tentris.TripleStore.Store.Operands.{AccessLaws}
use tentris.TripleStore.Instance.{ops, laws, Entries, is_empty, strip_all}

free-full : (k : List Node) → free (map some k) ≡ 0
free-full [] = refl
free-full (n ∷ k) = free-full k

fill-full : (k : List Node) → fill (map some k) [] ≡ k
fill-full [] = refl
fill-full (n ∷ k) = ap (◌∷◌ n) (fill-full k)

first_In : (ks : List (List Node)) → not (is_empty ks) ≡ true → (j : List Node) × In j ks
first_In [] e = cc
first_In (k ∷ ks) e = (k, inl refl)

not_empty : (ks : List (List Node)) (j : List Node) → In j ks → not (is_empty ks) ≡ true
not_empty [] j m = absurd (m tt)
not_empty (k ∷ ks) j m = refl

no_nodes : (j : List Node) → length j ≡ 0 → j ≡ []
no_nodes [] e = refl
no_nodes (n ∷ j) e = absurd (omega (arith, e))

get-In : (k : List Node) (h : Entries) → (ops.get k h ≡ true) ↔ In k h.0
get-In k h =
    let found = strip_all (map some k) h.0 in
    (
      (λ e.
          let (j, m) = first_In found e in
          let (l, f) = (laws.entries-slice (map some k) h j).0 m in
          let nothing = no_nodes j (l ∙ free-full k) in
          subst (λ x. In x h.0) (ap (fill (map some k)) nothing ∙ fill-full k) f),
      (λ m. not_empty found [] (
          (laws.entries-slice (map some k) h []).1
            (sym (free-full k), subst (λ x. In x h.0) (sym (fill-full k)) m))),
    )

pub access_laws : AccessLaws ops
access_laws = record { get-entries = get-In; entries-depth_0 = refl; entries-set_true = refl }
