-- ===== src/Tests/Toy.antt =====
-- A committer and an opening scheme to run the trie and the proofs with.
use salt_optimizations.Prelude.{ℕ, ◌%◌, ◌≡◌, refl, Bool, true, false, [], ◌∷◌, ◌==◌}
use salt_optimizations.Prelude.Bytes.{Bytes}
use salt_optimizations.Trie.Committer.{Committer, IsLawful}
use salt_optimizations.Proof.Opening.{Opening}

abbrev pub either : Bool → Bool → Bool
either false b = b
either true false = true
either true true = false

abbrev pub bit_of : Bytes → Bool
bit_of [] = false
bit_of (b ∷ bs) = b % 2 == 1

abbrev pub byte_of : Bool → Bytes
byte_of true = 1 ∷ []
byte_of false = 0 ∷ []

-- Elements and scalars are bits, and every generator is 1.
abbrev pub toy : Committer
toy = record {
  Element = Bool;
  Scalar = Bool;
  from_bytes = bit_of;
  to_commitment = byte_of;
  add = either;
  sub = either;
  mul_index = λ b i. b;
  hash_commitment = bit_of;
  map_to_scalar_field = λ b. b;
  scalar_bytes = byte_of;
  from_le_bytes_mod_order = bit_of;
  blake3 = λ bytes. bytes;
}

assoc : (x y z : Bool) → either (either x y) z ≡ either x (either y z)
assoc false y z = refl
assoc true false z = refl
assoc true true false = refl
assoc true true true = refl

comm : (x y : Bool) → either x y ≡ either y x
comm false false = refl
comm false true = refl
comm true false = refl
comm true true = refl

both : (x : Bool) → bit_of (byte_of x) ≡ x
both true = refl
both false = refl

made_up : (a b : Bool) (i : ℕ) → either b (either a b) ≡ a
made_up false false i = refl
made_up false true i = refl
made_up true false i = refl
made_up true true i = refl

pub toy-IsLawful : IsLawful toy
toy-IsLawful = record {
  add_assoc = assoc;
  add_comm = comm;
  from_bytes-to_commitment = both;
  mul_index-sub = made_up;
}

-- A proof says nothing, and is accepted.
abbrev pub trusting : Opening toy
trusting = record {
  MultiPointProof = Unit {0};
  open_all = λ queries. tt;
  check_all = λ proof queries. true;
}
