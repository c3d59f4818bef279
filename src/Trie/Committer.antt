-- ===== src/Trie/Committer.antt =====
-- What the trie takes from the curve library and from blake3: elements, scalars, and the operations
-- on them. A commitment is the 64 bytes of an element.
use salt_optimizations.Prelude.{ℕ, ◌≡◌, Option, none, some, ◌++◌, replicate}
use salt_optimizations.Prelude.Partial.{◌>>=◌}
use salt_optimizations.Prelude.Bytes.{Bytes}
use salt_optimizations.Types.SaltValue
use salt_optimizations.Types.SaltValue.{SaltValue}

pub record Committer : Type 1 where
  pub Element : Type 0
  pub Scalar : Type 0
  -- `Element::from_bytes_unchecked_uncompressed` and `Element::batch_to_commitments`, one at a time
  pub from_bytes : Bytes → Element
  pub to_commitment : Element → Bytes
  -- `+` on elements and `-` on scalars
  pub add : Element → Element → Element
  pub sub : Scalar → Scalar → Scalar
  -- `Committer::mul_index`: the generator of a position, times a scalar
  pub mul_index : Scalar → ℕ → Element
  -- `Element::hash_commitments`, one at a time
  pub hash_commitment : Bytes → Scalar
  -- `map_to_scalar_field` and `serialize_compressed`
  pub map_to_scalar_field : Element → Scalar
  pub scalar_bytes : Scalar → Bytes
  -- `Fr::from_le_bytes_mod_order`, and a blake3 hash
  pub from_le_bytes_mod_order : Bytes → Scalar
  pub blake3 : Bytes → Bytes

-- The group laws, and that a commitment stands for its element.
pub record IsLawful (c : Committer) : Type 0 where
  pub add_assoc : (x y z : c.Element) → c.add (c.add x y) z ≡ c.add x (c.add y z)
  pub add_comm : (x y : c.Element) → c.add x y ≡ c.add y x
  pub from_bytes-to_commitment : (x : c.Element) → c.from_bytes (c.to_commitment x) ≡ x
  pub mul_index-sub :
      (a b : c.Scalar) (i : ℕ)
      → c.add (c.mul_index b i) (c.mul_index (c.sub a b) i) ≡ c.mul_index a i

-- `EMPTY_SLOT_HASH`
abbrev pub empty_slot_hash : Bytes
empty_slot_hash = replicate 32 1

-- The hasher is fed the key and then the value; `none` is a panic on a malformed value.
unfoldable pub kv_hash : (c : Committer) → Option SaltValue → Option c.Scalar
kv_hash c none = some (c.from_le_bytes_mod_order empty_slot_hash)
kv_hash c (some salt_value) = do
  key ← SaltValue.key salt_value
  value ← SaltValue.value salt_value
  some (c.from_le_bytes_mod_order (c.blake3 (key ++ value)))

-- `hash_commitment` of salt/src/types.rs: the state root is the hash of the root's commitment.
unfoldable pub root_hash : Committer → Bytes → Bytes
root_hash c commitment = c.scalar_bytes (c.map_to_scalar_field (c.from_bytes commitment))
