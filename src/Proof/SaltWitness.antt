-- ===== src/Proof/SaltWitness.antt =====
-- salt/src/proof/salt_witness.rs: the values at some salt keys, with a proof. A key that is not in the
-- witness is unknown, which is an error, and not absent.
pub mod Reads
use salt_optimizations.Prelude.{
  ℕ, zero, suc, ◌+◌, Bool, true, false, Option, none, some, List, [], ◌∷◌, if◌then◌else◌,
}
use salt_optimizations.Prelude.Bytes.{Bytes}
use salt_optimizations.Prelude.Maps
use salt_optimizations.Prelude.Maps.{Map}
use salt_optimizations.Prelude.Result.{Res, ok, err, panic, and_then, or_panic}
use salt_optimizations.Types.Errors.{
  SaltError, invalid_format, not_in_witness, unsupported_operation,
}
use salt_optimizations.Types.SaltKey.{
  SaltKey, BucketId, salt_key, bucket_id_from_metadata_key, bucket_metadata_key, is_in_meta_bucket,
  is_valid_data_bucket,
}
use salt_optimizations.Types.SaltValue.{SaltValue}
use salt_optimizations.Types.BucketMeta
use salt_optimizations.Types.BucketMeta.{BucketMeta}
use salt_optimizations.Types.NodeId.{NodeId}
use salt_optimizations.Store.Traits.{StateReader}
use salt_optimizations.Store.TrieReader.{TrieReader}
use salt_optimizations.Trie.Committer.{Committer, root_hash}
use salt_optimizations.Trie.StateRoot.{collect_results}
use salt_optimizations.Proof.Sets
use salt_optimizations.Proof.Errors.{ProofError, state_read_error, missing_root_commitment, map_err}
use salt_optimizations.Proof.Opening.{Opening, SaltProof}
use salt_optimizations.Proof.Subtrie.{collect_map}
use salt_optimizations.Proof.Prover
use salt_optimizations.Proof.Prover.{Kvs, check}

pub record SaltWitness (c : Committer) (o : Opening c) : Type 0 where
  pub kvs : Kvs
  pub proof : SaltProof c o

-- The three states of a key, as a value, as no value and as an error.
unfoldable pub witnessed : Option (Option SaltValue) → Res SaltError (Option SaltValue)
witnessed (some (some value)) = ok (some value)
witnessed (some none) = ok none
witnessed none = err (not_in_witness "Key")

-- `none` inside is `unreachable!`: metadata is never witnessed as absent.
unfoldable pub witnessed_meta : Option (Option SaltValue) → Res SaltError BucketMeta
witnessed_meta (some (some value)) =
    map_err (invalid_format "Failed to decode metadata from SaltValue")
      (BucketMeta.from_value value)
witnessed_meta (some none) = panic
witnessed_meta none = err (not_in_witness "Metadata")

-- `if … .is_some() { used_count += 1 }`
unfoldable pub count_if_some : Option SaltValue → ℕ → ℕ
count_if_some none used_count = used_count
count_if_some (some value) used_count = suc used_count

-- The loop over the slots, with `left` of them to go; the count stays below the capacity.
unfoldable pub count_slots : Kvs → BucketId → ℕ → ℕ → ℕ → Res SaltError ℕ
unfolding witnessed salt_key count_if_some
count_slots kvs bucket zero slot used_count = ok used_count
count_slots kvs bucket (suc left) slot used_count =
    and_then (witnessed (Maps.get (salt_key bucket slot) kvs))
      λ found. count_slots kvs bucket left (suc slot) (count_if_some found used_count)

unfoldable pub levels_of : Option ℕ → Res SaltError ℕ
levels_of none = err (not_in_witness "Bucket root")
levels_of (some num_levels) = ok num_levels

unfoldable pub commitment_of : (c : Committer) → Option c.Element → Res SaltError Bytes
commitment_of c none = err (not_in_witness "Trie node")
commitment_of c (some element) = ok (c.to_commitment element)

unfoldable pub read_metadata :
    {E : Type 0} → StateReader E → SaltKey → Res ProofError (SaltKey × Option SaltValue)
unfolding bucket_id_from_metadata_key
read_metadata store key = and_then (or_panic (bucket_id_from_metadata_key key)) λ bucket.
    and_then (map_err (state_read_error "Failed to read key") (store.metadata bucket))
      λ meta. and_then (or_panic (BucketMeta.to_value meta)) λ value. ok (key, some value)

unfoldable pub read_value :
    {E : Type 0} → StateReader E → SaltKey → Res ProofError (SaltKey × Option SaltValue)
read_value store key =
    and_then (map_err (state_read_error "Failed to read key") (store.value key))
      λ value. ok (key, value)

-- The value of a key as `create` reads it.
unfoldable pub read_key :
    {E : Type 0} → StateReader E → SaltKey → Res ProofError (SaltKey × Option SaltValue)
unfolding is_in_meta_bucket read_metadata read_value
read_key store key = if is_in_meta_bucket key then read_metadata store key else read_value store key

module _ (c : Committer) (o : Opening c) where
  unfoldable pub create :
      {E : Type 0} → List SaltKey → StateReader E → TrieReader E → Res ProofError (SaltWitness c o)
  unfolding collect_results read_key collect_map Sets.keys Prover.create
  create keys store trie = and_then (collect_results (read_key store) keys) λ read.
      let kvs = collect_map read [] in
      and_then (Prover.create c o (Sets.keys kvs) store trie)
        λ proof. ok (record { kvs = kvs; proof = proof })

  unfoldable pub value : SaltWitness c o → SaltKey → Res SaltError (Option SaltValue)
  unfolding witnessed
  value w key = witnessed (Maps.get key w.kvs)

  unfoldable pub metadata : SaltWitness c o → BucketId → Res SaltError BucketMeta
  unfolding witnessed_meta
  metadata w bucket =
      and_then (or_panic (bucket_metadata_key bucket)) λ key. witnessed_meta (Maps.get key w.kvs)

  unfoldable pub bucket_used_slots : SaltWitness c o → BucketId → Res SaltError ℕ
  unfolding metadata count_slots is_valid_data_bucket
  bucket_used_slots w bucket =
      if is_valid_data_bucket bucket
      then and_then (metadata w bucket) (λ meta. count_slots w.kvs bucket meta.capacity 0 0)
      else ok 0

  unfoldable pub get_subtree_levels : SaltWitness c o → BucketId → Res SaltError ℕ
  unfolding levels_of
  get_subtree_levels w bucket = levels_of (Maps.get bucket w.proof.levels)

  unfoldable pub commitment : SaltWitness c o → NodeId → Res SaltError Bytes
  unfolding commitment_of
  commitment w node = commitment_of c (Maps.get node w.proof.parents_commitments)

  -- `impl StateReader for SaltWitness`
  abbrev pub reader : SaltWitness c o → StateReader SaltError
  reader w = record {
    value = value w;
    entries = λ start end. err (unsupported_operation "SaltWitness::Range queries");
    metadata = metadata w;
    bucket_used_slots = bucket_used_slots w;
    plain_value_fast = λ plain_key. err (unsupported_operation "SaltWitness::plain_value_fast");
  }

  -- `impl TrieReader for SaltWitness`
  abbrev pub trie_reader : SaltWitness c o → TrieReader SaltError
  trie_reader w = record {
    commitment = commitment w;
    node_entries = λ start end. err (unsupported_operation "SaltWitness::Range queries");
  }

  unfoldable pub state_root : SaltWitness c o → Res ProofError Bytes
  unfolding commitment root_hash
  state_root w =
      and_then (map_err missing_root_commitment (commitment w 0)) λ root. ok (root_hash c root)

  unfoldable pub verify_proof : SaltWitness c o → Res ProofError (Unit {0})
  unfolding state_root check
  verify_proof w = and_then (state_root w) λ root. check c o w.proof w.kvs root
