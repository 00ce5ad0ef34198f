-- ===== src/Sparql/Ids.antt =====
-- The ids of variables (`register_var`): the bytes from 'a' on, in the order of registration.
use tentris.Base.{
  ℕ, zero, suc, ◌+◌, ◌%◌, ◌≤◌, ◌≡◌, refl, sym, ap, ◌∙◌, Option, none, some, List, [], ◌∷◌, arith,
  find, assign, find-assign, length, ◌<◌, if_pos, if_neg,
}
use tentris.Sparql.Syntax.{Variable, Variable-discrete}

abbrev pub Ids : Type 0
Ids = List (Variable × ℕ)

-- The entries hold the bytes from `k` on.
abbrev pub Numbered : ℕ → Ids → Type 0
Numbered k [] = Unit {0}
Numbered k ((v, id) ∷ m) = (id ≡ k % 256) × Numbered (suc k) m

-- `var_to_id_.find(v)`.
abbrev pub id? : Variable → Ids → Option ℕ
id? = find Variable-discrete

abbrev pub HasId : Ids → Variable → Type 0
HasId m v = (id : ℕ) × (id? v m ≡ some id)

pub HasId-assign :
    (m : Ids) (v w : Variable) (i : ℕ) → HasId m v → HasId (assign Variable-discrete w i m) v
HasId-assign m v w i (id, e) = elim (Variable-discrete w v) [
  | yes p ↦ (i, rw (find-assign Variable-discrete w v i m, if_pos _ p))
  | no p ↦ (id, rw (find-assign Variable-discrete w v i m, if_neg _ p) e)
]

pub Numbered-assign :
    (k x : ℕ) (v : Variable) (m : Ids)
    → id? v m ≡ none
    → x ≡ (k + length m) % 256
    → Numbered k m
    → Numbered k (assign Variable-discrete v x m)
      × (length (assign Variable-discrete v x m) ≡ suc (length m))
unfolding find assign
Numbered-assign k x v [] miss e h = ((omega arith, tt), refl)
Numbered-assign k x v ((w, id) ∷ m) miss e h = elim (Variable-discrete w v) [
  | yes p ↦ absurd (ground arith)
  | no p ↦ rw (if_neg _ p) (
      let (a, b) = Numbered-assign (suc k) x v m (ground arith) (omega arith) h.1 in
      ((h.0, a), ap suc b))
]

-- The variable at a place of the table.
abbrev pub key_at : Ids → ℕ → Option Variable
key_at [] j = none
key_at ((v, id) ∷ m) zero = some v
key_at ((v, id) ∷ m) (suc j) = key_at m j

find-Numbered :
    (k : ℕ) (m : Ids) (v : Variable) (i : ℕ)
    → Numbered k m
    → id? v m ≡ some i
    → (j : ℕ) × (j < length m) × (i ≡ (k + j) % 256) × (key_at m j ≡ some v)
unfolding find
find-Numbered k [] v i h e = cc
find-Numbered k ((w, id) ∷ m) v i h e = elim (Variable-discrete w v) [
  | yes p ↦ let same : id ≡ i = ground arith in (0, omega arith, omega arith, ap some p)
  | no p ↦
      let (j, below, value, key) = find-Numbered (suc k) m v i h.1 (ground arith) in
      (suc j, omega arith, omega arith, key)
]

-- Among at most 256 variables, two with one id are one.
pub id?-injective :
    (m : Ids) (v w : Variable) (i : ℕ)
    → Numbered b'a' m
    → length m ≤ 256
    → id? v m ≡ some i
    → id? w m ≡ some i
    → v ≡ w
id?-injective m v w i h size p q =
    let (j, below, value, key) = find-Numbered b'a' m v i h p in
    let (j', below', value', key') = find-Numbered b'a' m w i h q in
    let same : j ≡ j' = omega arith in
    let keys : some v ≡ some w = sym key ∙ ap (key_at m) same ∙ key' in cc
