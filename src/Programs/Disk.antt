-- ===== src/Programs/Disk.antt =====
-- A disk for the examples: at each path nothing, a data store that is open, or a consistent one.
use tentris.Base.{
  Bool, true, false, Option, none, some, ite, ◌≡◌, refl, ap, if_neg, if_pos, sym, subst,
}
use tentris.Sparql.Syntax.{Text, Text-discrete}
use tentris.NodeStore.Impl.{Impl}
use tentris.Programs.Metall.{MetallOps, MetallLaws}

-- The objects of a data store.
pub record Objects (H : Type 0) : Type 0 where
  pub node_store : Option Impl
  pub context : Bool
  pub tensor : Option H

abbrev pub Disk : Type 0 → Type 0
Disk H = Text → Option (Option (Objects H))

module _ {H : Type 0} where
  abbrev pub write : Text → Option (Option (Objects H)) → Disk H → Disk H
  write p entry d q = ite (Text-discrete p q) entry (d q)

  abbrev no_objects : Objects H
  no_objects = record { node_store = none; context = false; tensor = none }

  abbrev objects_of : Option (Option (Objects H)) → Objects H
  objects_of (some (some m)) = m
  objects_of _ = no_objects

  abbrev is_there : Option (Option (Objects H)) → Bool
  is_there none = false
  is_there (some entry) = true

  abbrev is_closed : Option (Option (Objects H)) → Bool
  is_closed (some (some m)) = true
  is_closed _ = false

  abbrev closed_tensor : Option (Option (Objects H)) → Option (Option H)
  closed_tensor (some (some m)) = some m.tensor
  closed_tensor _ = none

  abbrev pub metall : H → MetallOps (Disk H) (Objects H) H
  metall new = record {
    exists = λ p d. is_there (d p);
    consistent = λ p d. is_closed (d p);
    create_only = λ p d. write p (some (some no_objects)) d;
    open_only = λ p d. (objects_of (d p), write p (some none) d);
    open_read_only = λ p d. objects_of (d p);
    destroy = λ p m d. write p (some (some m)) d;
    snapshot = λ p m d. write p (some (some m)) d;
    find_node_store = λ m. m.node_store;
    construct_node_store = λ s m. record m { node_store = some s };
    find_context = λ m. m.context;
    construct_context = λ m. record m { context = true };
    find_tensor = λ m. m.tensor;
    write_tensor = λ h m. record m { tensor = some h };
    new_tensor = new;
  }

  closed-none : (e : Option (Option (Objects H))) → closed_tensor e ≡ none → is_closed e ≡ false
  closed-none none h = refl
  closed-none (some none) h = refl
  closed-none (some (some m)) h = cc

  closed-some :
      (e : Option (Option (Objects H))) (o : Option H)
      → closed_tensor e ≡ some o
      → (is_closed e ≡ true) × (is_there e ≡ true) × ((objects_of e).tensor ≡ o)
  closed-some none o h = cc
  closed-some (some none) o h = cc
  closed-some (some (some m)) o h = (refl, refl, cc)

  at_write :
      {A : Type 0} (f : Option (Option (Objects H)) → A) (p q : Text)
      (e : Option (Option (Objects H))) (d : Disk H)
      → f (write p e d q) ≡ ite (Text-discrete p q) (f e) (f (d q))
  at_write f p q e d = by_test (Text-discrete p q)
    where
      by_test : {P : Type 0} (t : Dec P) → f (ite t e (d q)) ≡ ite t (f e) (f (d q))
      by_test (yes _) = refl
      by_test (no _) = refl

  -- A test of an entry that a write at an existing path keeps.
  kept_there :
      (p q : Text) (e : Option (Objects H)) (d : Disk H)
      → is_there (d p) ≡ true
      → is_there (write p (some e) d q) ≡ is_there (d q)
  kept_there p q e d h =
      elim (Text-discrete p q) as (λ t. is_there (ite t (some e) (d q)) ≡ is_there (d q)) [
        | yes same ↦ sym (subst (λ r. is_there (d r) ≡ true) same h)
        | no _ ↦ refl
      ]

  pub metall-laws : (new : H) → MetallLaws (metall new)
  metall-laws new = record {
    tensor_at = λ p d. closed_tensor (d p);
    consistent-none = λ p d e. closed-none (d p) e;
    consistent-some = λ p d o e. (closed-some (d p) o e).0;
    exists-some = λ p d o e. (closed-some (d p) o e).1;
    tensor_at-create_only = λ p q d e. at_write closed_tensor p q (some (some no_objects)) d;
    exists-create_only = λ p q d. at_write is_there p q (some (some no_objects)) d;
    tensor_at-open_only = λ p q d. at_write closed_tensor p q (some none) d;
    exists-open_only = λ p q d h. kept_there p q none d h;
    find_tensor-open_only = λ p d o e. (closed-some (d p) o e).2;
    find_tensor-open_read_only = λ p d o e. (closed-some (d p) o e).2;
    tensor_at-destroy = λ p q m d. at_write closed_tensor p q (some (some m)) d;
    exists-destroy = λ p q m d h. kept_there p q (some m) d h;
    tensor_at-snapshot = λ p m d e. ap closed_tensor (if_pos (Text-discrete p p) refl _ _);
    tensor_at-snapshot_other =
        λ p q m d n. ap closed_tensor (if_neg (Text-discrete p q) n (some (some m)) (d q));
    find_tensor-construct_node_store = λ s m. refl;
    find_tensor-construct_context = λ m. refl;
    find_tensor-write_tensor = λ h m. refl;
  }

  pub tensor_at-closed :
      (new : H) (p : Text) (d : Disk H) (m : Objects H)
      → d p ≡ some (some m)
      → (metall-laws new).tensor_at p d ≡ some m.tensor
  unfolding metall-laws
  tensor_at-closed new p d m e = ap closed_tensor e
