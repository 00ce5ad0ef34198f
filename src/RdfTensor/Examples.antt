-- ===== src/RdfTensor/Examples.antt =====
-- Handles that hold a kind above an id of 48 bits, and two nodes of one store.
use tentris.Base.{ℕ, ◌+◌, ◌*◌, ◌^◌, ◌≡◌, refl, arith}
use tentris.RdfTensor.Identity.{
  Kind, bnode_kind, iri_kind, literal_kind, variable_kind, HandleLaws, ToldApart, find_id-ToldApart,
}
use tentris.NodeStore.Examples.{ids, laws, hi, p, second, second-Reachable, find-second}

abbrev number : Kind → ℕ
number bnode_kind = 0
number iri_kind = 1
number literal_kind = 2
number variable_kind = 3

number-injective : (k l : Kind) → number k ≡ number l → k ≡ l
number-injective bnode_kind bnode_kind e = refl
number-injective iri_kind iri_kind e = refl
number-injective literal_kind literal_kind e = refl
number-injective variable_kind variable_kind e = refl
number-injective bnode_kind iri_kind e = absurd (omega arith)
number-injective bnode_kind literal_kind e = absurd (omega arith)
number-injective bnode_kind variable_kind e = absurd (omega arith)
number-injective iri_kind bnode_kind e = absurd (omega arith)
number-injective iri_kind literal_kind e = absurd (omega arith)
number-injective iri_kind variable_kind e = absurd (omega arith)
number-injective literal_kind bnode_kind e = absurd (omega arith)
number-injective literal_kind iri_kind e = absurd (omega arith)
number-injective literal_kind variable_kind e = absurd (omega arith)
number-injective variable_kind bnode_kind e = absurd (omega arith)
number-injective variable_kind iri_kind e = absurd (omega arith)
number-injective variable_kind literal_kind e = absurd (omega arith)

abbrev handle : Kind → ℕ → Kind × ℕ
handle k i = (k, i)

abbrev raw : Kind × ℕ → ℕ
raw (k, i) = number k * 2 ^ 48 + i

handle_laws : HandleLaws raw handle
handle_laws = record {
  raw-make = λ k l i j hi hj e. (number-injective k l (omega arith), omega arith);
}

find_id-ToldApart_example : ToldApart raw (handle literal_kind 65) (handle iri_kind 10) (hi ≡ p)
find_id-ToldApart_example =
    find_id-ToldApart raw handle handle_laws ids laws second hi p 65 10 second-Reachable tt tt
      (omega arith) (omega arith) find-second.0 find-second.1
