-- ===== src/Base/Outcome.antt =====
-- The outcome of code that may throw. `runtime_error` carries the text of the exception and
-- `out_of_range` and `bad_optional_access` are those of the standard library; `null_pointer` and `empty_vector` stand for a null
-- dereference and for `back` or `pop_back` of an empty vector, and `out_of_bounds` for a write past the
-- end of a vector, which C++ leaves undefined;
-- `out_of_fuel` has no counterpart in the program.
use Prim.Native.String.{String}
use mathlib.Core.Path.{◌≡◌, refl, subst}

pub data Fault : Type 0 where
  runtime_error : String → Fault
  out_of_range : Fault
  null_pointer : Fault
  empty_vector : Fault
  out_of_bounds : Fault
  bad_optional_access : Fault
  out_of_fuel : Fault

-- What a function of the program comes to: a value, or the fault that ends it.
pub data Result {ℓ} (A : Type ℓ) : Type ℓ where
  fail : Fault → Result A
  ok : A → Result A

-- A fault skips what follows.
module _ {ℓ κ} {A : Type ℓ} {B : Type κ} where
  infixl 5 ◌>>=◌
  abbrev pub ◌>>=◌ : Result A → (A → Result B) → Result B
  fail fault >>= next = fail fault
  ok value >>= next = next value

-- A postcondition on the value and one on the fault.
pub data Ensures {ℓ κ} {A : Type ℓ} (P : A → Type κ) (F : Fault → Type 0)
    : Result A → Type (ℓ ⊔ κ) where
  returns : {a : A} → P a → Ensures P F (ok a)
  throws : {e : Fault} → F e → Ensures P F (fail e)

module _ {ℓ κ} {A : Type ℓ} {P : A → Type κ} {F : Fault → Type 0} where
  pub Ensures-ok : {r : Result A} {a : A} → Ensures P F r → r ≡ ok a → P a
  Ensures-ok (returns h) e = subst P (cc) h
  Ensures-ok (throws h) e = cc

  pub Ensures-fail : {r : Result A} {e : Fault} → Ensures P F r → r ≡ fail e → F e
  Ensures-fail (returns h) e = cc
  Ensures-fail (throws h) e = subst F (cc) h

  pub Ensures-bind {ℓ' κ'} :
      {B : Type ℓ'} {Q : B → Type κ'} {r : Result A} {f : A → Result B}
      → Ensures P F r
      → ((a : A) → P a → Ensures Q F (f a))
      → Ensures Q F (r >>= f)
  Ensures-bind (returns {a} h) k = k a h
  Ensures-bind (throws h) k = throws h

pub Ensures-map {ℓ κ κ'} :
    {A : Type ℓ} {P : A → Type κ} {Q : A → Type κ'} {F : Fault → Type 0} {r : Result A}
    → ((a : A) → P a → Q a)
    → Ensures P F r
    → Ensures Q F r
Ensures-map f (returns {a} h) = returns (f a h)
Ensures-map f (throws h) = throws h

pub Ensures-both {ℓ κ κ'} :
    {A : Type ℓ} {P : A → Type κ} {Q : A → Type κ'} {F : Fault → Type 0} {r : Result A}
    → Ensures P F r
    → Ensures Q F r
    → Ensures (λ a. P a × Q a) F r
Ensures-both (returns p) h = returns (p, Ensures-ok h refl)
Ensures-both (throws f) h = throws f

abbrev pub Anything : Fault → Type 0
Anything e = Unit

pub Ensures-Anything {ℓ} : {A : Type ℓ} (r : Result A) → Ensures (λ _. Unit {0}) Anything r
Ensures-Anything (ok a) = returns tt
Ensures-Anything (fail e) = throws tt

-- Neither undefined behaviour on a vector nor the end of the fuel.
abbrev pub Safe : Fault → Type 0
Safe empty_vector = ⊥
Safe out_of_fuel = ⊥
Safe _ = Unit
