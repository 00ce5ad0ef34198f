-- ===== src/TripleStore/Instance.antt =====
-- A hypertrie for the examples: a list of entries with no duplicates.
pub mod Access
use tentris.Base.{
  NoDuplicates, ◌⊎◌, not, map, suc, Bool, true, false, Option, none, some, List, [], ◌∷◌, inl, inr,
  ◌↔◌, length, In, ◌≡◌, refl, sym, ap, ◌∙◌, subst, arith, ite, if_pos, if_neg, Option-cases,
}
use tentris.TripleStore.Store.{InserterOps}
use tentris.TripleStore.Store.Loading.{InserterLaws}
use tentris.Sparql.Syntax.{Node}
use tentris.TripleStore.Hypertrie.{Node-discrete, SliceKey, HypertrieOps, HypertrieLaws, free, fill}

abbrev pub Entries : Type 0
Entries = (xs : List (List Node)) × NoDuplicates xs

abbrev cons_part : Node → Option (List Node) → Option (List Node)
cons_part x none = none
cons_part x (some k) = some (x ∷ k)

-- What a slice leaves of an entry.
unfoldable pub strip : SliceKey → List Node → Option (List Node)
strip [] [] = some []
strip [] (x ∷ t) = none
strip (some n ∷ key) [] = none
strip (none ∷ key) [] = none
strip (some n ∷ key) (x ∷ t) = let rest = strip key t in ite (Node-discrete n x) rest none
strip (none ∷ key) (x ∷ t) = cons_part x (strip key t)

strip-fill :
    (key : SliceKey) (t k : List Node)
    → strip key t ≡ some k
    → (length k ≡ free key) × (fill key k ≡ t)
unfolding strip
strip-fill [] [] k e = (cc, cc)
strip-fill [] (x ∷ t) k e = cc
strip-fill (some n ∷ key) [] k e = cc
strip-fill (none ∷ key) [] k e = cc
strip-fill (some n ∷ key) (x ∷ t) k e = elim (Node-discrete n x) [
  | yes q ↦
      let (l, f) = strip-fill key t k (sym (if_pos (Node-discrete n x) q _ _) ∙ e) in (l, cc (q, f))
  | no q ↦ cc (if_neg (Node-discrete n x) q (strip key t) none, e)
]
strip-fill (none ∷ key) (x ∷ t) k e = elim (Option-cases (strip key t)) [
  | inl q ↦ cc (q, e)
  | inr (j, q) ↦
      let (l, f) = strip-fill key t j q in
      let same : k ≡ x ∷ j = cc (q, e) in
      (ap length same ∙ ap suc l, ap (fill (none ∷ key)) same ∙ ap (◌∷◌ x) f)
]

fill-strip :
    (key : SliceKey) (k : List Node) → length k ≡ free key → strip key (fill key k) ≡ some k
unfolding strip
fill-strip [] [] e = refl
fill-strip [] (x ∷ k) e = absurd (omega (arith, e))
fill-strip (some n ∷ key) k e = if_pos (Node-discrete n n) refl _ _ ∙ fill-strip key k e
fill-strip (none ∷ key) [] e = absurd (omega (arith, e))
fill-strip (none ∷ key) (x ∷ k) e = ap (cons_part x) (fill-strip key k (omega (arith, e)))

abbrev cons_some : Option (List Node) → List (List Node) → List (List Node)
cons_some none ks = ks
cons_some (some k) ks = k ∷ ks

unfoldable pub strip_all : SliceKey → List (List Node) → List (List Node)
strip_all key [] = []
strip_all key (t ∷ ts) = cons_some (strip key t) (strip_all key ts)

In-strip_all :
    (key : SliceKey) (ts : List (List Node)) (k : List Node)
    → In k (strip_all key ts)
    → (length k ≡ free key) × In (fill key k) ts
unfolding strip_all
In-strip_all key [] k m = absurd (m tt)
In-strip_all key (t ∷ ts) k m = elim (Option-cases (strip key t)) [
  | inl q ↦
      let (l, i) = In-strip_all key ts k (subst (λ o. In k (cons_some o (strip_all key ts))) q m) in
      (l, inr i)
  | inr (j, q) ↦ elim (subst (λ o. In k (cons_some o (strip_all key ts))) q m) [
    | inl e ↦ let (l, f) = strip-fill key t k (q ∙ ap some (sym e)) in (l, inl f)
    | inr m' ↦ let (l, i) = In-strip_all key ts k m' in (l, inr i)
  ]
]

strip_all-In :
    (key : SliceKey) (ts : List (List Node)) (k : List Node)
    → length k ≡ free key
    → In (fill key k) ts
    → In k (strip_all key ts)
unfolding strip_all
strip_all-In key [] k l m = absurd (m tt)
strip_all-In key (t ∷ ts) k l (inl e) =
    subst (λ o. In k (cons_some o (strip_all key ts)))
      (sym (ap (strip key) (sym e) ∙ fill-strip key k l)) (inl refl)
strip_all-In key (t ∷ ts) k l (inr m) = elim (Option-cases (strip key t)) [
  | inl q ↦ subst (λ o. In k (cons_some o (strip_all key ts))) (sym q) (strip_all-In key ts k l m)
  | inr (j, q) ↦
      subst (λ o. In k (cons_some o (strip_all key ts))) (sym q) (inr (strip_all-In key ts k l m))
]

pub strip_all-NoDuplicates :
    (key : SliceKey) (ts : List (List Node)) → NoDuplicates ts → NoDuplicates (strip_all key ts)
unfolding strip_all
strip_all-NoDuplicates key [] d = tt
strip_all-NoDuplicates key (t ∷ ts) (new, d) = elim (Option-cases (strip key t)) [
  | inl q ↦
      subst (λ o. NoDuplicates (cons_some o (strip_all key ts))) (sym q)
        (strip_all-NoDuplicates key ts d)
  | inr (j, q) ↦
      subst (λ o. NoDuplicates (cons_some o (strip_all key ts))) (sym q)
        (
          (λ m. new (subst (λ x. In x ts) (strip-fill key t j q).1 (In-strip_all key ts j m).1)),
          strip_all-NoDuplicates key ts d,
        )
]

abbrev pub is_empty : List (List Node) → Bool
is_empty [] = true
is_empty (k ∷ ks) = false

is_empty_iff : (ks : List (List Node)) → (is_empty ks ≡ true) ↔ (length ks ≡ 0)
is_empty_iff [] = ((λ e. refl), (λ e. refl))
is_empty_iff (k ∷ ks) = ((λ e. cc), (λ e. absurd (omega (arith, e))))

abbrev pub ops : HypertrieOps Entries
ops = record {
  slice = λ key h. (strip_all key h.0, strip_all-NoDuplicates key h.0 h.1);
  get = λ k h. not (is_empty (strip_all (map some k) h.0));
  size = λ h. length h.0;
  empty = λ h. is_empty h.0;
  entries = λ h. h.0;
  depth_0 = ([], tt);
  set_true = λ h. ([] ∷ [], ((λ m. m tt), tt));
}

pub laws : HypertrieLaws ops
laws = record {
  size-entries = λ h. refl;
  empty-size = λ h. is_empty_iff h.0;
  entries-NoDuplicates = λ h. h.1;
  entries-slice =
      λ key h k. ((λ m. In-strip_all key h.0 k m), (λ p. strip_all-In key h.0 k p.0 p.1));
}

Key-discrete : Discrete (List Node)
Key-discrete = hlevel Node-discrete

pub In? : (k : List Node) (ks : List (List Node)) → Dec (In k ks)
In? k [] = no (λ m. m tt)
In? k (j ∷ ks) = elim (Key-discrete k j) [
  | yes e ↦ yes (inl e)
  | no n ↦ elim (In? k ks) [
    | yes m ↦ yes (inr m)
    | no n' ↦ no (λ m. elim m [ inl e ↦ n e | inr m' ↦ n' m' ])
  ]
]

abbrev pub add_unless : (k : List Node) (h : Entries) → Dec (In k h.0) → Entries
add_unless k h (yes m) = h
add_unless k h (no n) = (k ∷ h.0, (n, h.1))

abbrev pub add_entry : List Node → Entries → Entries
add_entry k h = add_unless k h (In? k h.0)

add_unless-In :
    (h : Entries) (k j : List Node) (d : Dec (In k h.0))
    → In j (add_unless k h d).0 ↔ (In j h.0 ⊎ (j ≡ k))
add_unless-In h k j (yes m) =
    ((λ x. inl x), elim [ inl x ↦ x | inr e ↦ subst (λ y. In y h.0) (sym e) m ])
add_unless-In h k j (no n) =
    (elim [ inl e ↦ inr e | inr x ↦ inl x ], elim [ inl x ↦ inr x | inr e ↦ inl e ])

-- A bulk inserter that inserts at once.
abbrev pub inserter : InserterOps Entries Entries
inserter = record { start = λ h n. h; add = add_entry; finish = λ h. h }

pub inserter_laws : InserterLaws ops inserter
inserter_laws = record {
  Pending = λ h k. In k h.0;
  start-Pending = λ h n k. ((λ m. m), (λ m. m));
  add-Pending = λ h k j. add_unless-In h k j (In? k h.0);
  finish-Pending = λ h k. ((λ m. m), (λ m. m));
}
