-- ===== src/Tests/Proofs.antt =====
-- Proofs and witnesses of single slots.
use mathlib.Core.List.{Mem}
use salt_optimizations.Prelude.{
  ℕ, ◌+◌, ◌-◌, ◌*◌, ◌^◌, ◌≡◌, refl, Bool, true, false, none, some, List, [], ◌∷◌, arith, inl,
  if◌then◌else◌,
}
use salt_optimizations.Prelude.Bytes.{Bytes, bytes_eq, from_le_bytes}
use salt_optimizations.Prelude.Maps
use salt_optimizations.Prelude.Result.{Res, ok, err, panic, ◌>>=◌}
use salt_optimizations.Types.Errors.{not_in_witness}
use salt_optimizations.Types.SaltKey.{
  SaltKey, bucket_id, bucket_metadata_key, is_in_meta_bucket, is_valid_data_bucket, salt_key,
  slot_id,
}
use salt_optimizations.Types.SaltValue
use salt_optimizations.Types.SaltValue.{SaltValue}
use salt_optimizations.Types.BucketMeta
use salt_optimizations.Types.BucketMeta.{BucketMeta}
use salt_optimizations.Types.NodeId.{get_bfs_level, is_subtree_node, leftmost_node}
use salt_optimizations.Store.EmptySalt.{empty_salt}
use salt_optimizations.Store.TrieReader.{empty_trie}
use salt_optimizations.State.Probe.{hash_with_nonce, probe}
use salt_optimizations.State.Ephemeral
use salt_optimizations.State.Ephemeral.{shi_find}
use salt_optimizations.Trie.NodeUtils.{
  bucket_root_node_id, get_child_node, get_parent_node, subtree_leaf_for_key, subtree_root_level,
  vc_position_in_parent,
}
use salt_optimizations.Trie.Defaults.{default_commitment}
use salt_optimizations.Trie.Committer.{root_hash}
use salt_optimizations.Proof.Sets
use salt_optimizations.Proof.Shape.{
  connect_parent_id, encode_parent, is_encoded_node, logic_parent_id,
}
use salt_optimizations.Proof.Shape.Bridges.{encode_parent-ends, encode_parent-none}
use salt_optimizations.Proof.Shape.Slots.{has}
use salt_optimizations.Proof.Errors.{ProofError}
use salt_optimizations.Proof.Opening.{SaltProof, VerifierQuery}
use salt_optimizations.Proof.Prover.{Kvs, check, create_verifier_queries}
use salt_optimizations.Proof.Prover.Checks.{check-Binds}
use salt_optimizations.Proof.Prover.Queries.{Binds}
use salt_optimizations.Proof.Prover.Chains.{OpensPath, check-OpensPath}
use salt_optimizations.Proof.SaltWitness
use salt_optimizations.Proof.SaltWitness.{SaltWitness, bucket_used_slots, metadata, value}
use salt_optimizations.Proof.SaltWitness.Reads.{
  all_witnessed, answer, bucket_used_slots-occupied, listed, occupied, value-create,
}
use salt_optimizations.Proof.Witness.Lookups.{shi_find-create}
use salt_optimizations.Tests.Toy.{toy, trusting}

-- The fourth slot of the first data bucket.
abbrev slot_three : SaltKey
slot_three = 72057594037927939

abbrev absent_three : Kvs
absent_three = (slot_three, none) ∷ []

-- The commitments from the bucket's root up to the root.
abbrev path : SaltProof toy trusting
path = record {
  parents_commitments = (0, true) ∷ (2, false) ∷ (513, true) ∷ (131329, false) ∷ [];
  proof = tt;
  levels = (65536, 1) ∷ [];
}

path_accepted : check toy trusting path absent_three (1 ∷ []) ≡ ok tt
unfolding check bytes_eq Maps.get bucket_root_node_id get_parent_node get_bfs_level
    vc_position_in_parent Maps.insert get_child_node slot_id subtree_leaf_for_key
path_accepted = refl

key_listed : has slot_three (Sets.keys absent_three) ≡ true
unfolding has Sets.keys
key_listed = refl

level_given : Maps.get (bucket_id slot_three) path.levels ≡ some 1
unfolding Maps.get bucket_id
level_given = refl

slot_low : slot_id slot_three ≡ 3
unfolding slot_id
slot_low = refl

bucket_low : bucket_id slot_three ≡ 65536
unfolding bucket_id
bucket_low = refl

check-Binds_example :
    (queries : List (VerifierQuery toy)) × (create_verifier_queries toy trusting path absent_three
      ≡ ok queries)
    × (true ≡ true)
    × (q : VerifierQuery toy) × Mem q queries
    × Binds toy path.parents_commitments absent_three slot_three 1 q
check-Binds_example =
    check-Binds toy trusting path absent_three (1 ∷ []) slot_three 1 path_accepted key_listed
      level_given (omega arith, inl (refl, omega (arith, slot_low), omega (arith, bucket_low)))

check-OpensPath_example :
    (queries : List (VerifierQuery toy)) × (create_verifier_queries toy trusting path absent_three
      ≡ ok queries)
    × (true ≡ true)
    × (root : Bool) × (Maps.get 0 path.parents_commitments ≡ some root)
    × (root_hash toy (toy.to_commitment root) ≡ 1 ∷ [])
    × OpensPath toy trusting path queries (bucket_id slot_three)
check-OpensPath_example =
    check-OpensPath toy trusting path absent_three (1 ∷ []) slot_three path_accepted key_listed
      (omega arith)

abbrev first_bridge : ℕ
first_bridge = encode_parent (bucket_root_node_id 65536) 2

encode_parent-ends_example :
    (is_encoded_node first_bridge ≡ true)
    × (connect_parent_id first_bridge ≡ bucket_root_node_id 65536)
    × ((first : ℕ) × (leftmost_node (5 - 2) ≡ some first)
        × (logic_parent_id first_bridge ≡ some (65536 * 2 ^ 40 + first)))
encode_parent-ends_example = encode_parent-ends 65536 2 (omega arith) (omega arith) (omega arith)

-- A witness with the metadata of a bucket of two slots, one of them in use.
abbrev half_full : SaltWitness toy trusting
half_full = record {
  kvs =
      (
        281474976710656,
        some (record { bytes = 12 ∷ 0 ∷ 0 ∷ 0 ∷ 0 ∷ 0 ∷ 2 ∷ 0 ∷ 0 ∷ 0 ∷ 0 ∷ 0 ∷ 0 ∷ 0 ∷ [] }),
      )
      ∷ (72057594037927936, none)
      ∷ (72057594037927937, some (record { bytes = 1 ∷ 0 ∷ 3 ∷ [] }))
      ∷ [];
  proof = path;
}

abbrev two_slots : BucketMeta
two_slots = record { nonce = 0; capacity = 2; used = none }

two_slots_given : metadata toy trusting half_full 65536 ≡ ok two_slots
unfolding metadata bucket_metadata_key Maps.get BucketMeta.from_value SaltValue.key
    BucketMeta.from_bytes from_le_bytes
two_slots_given = refl

valid_bucket : is_valid_data_bucket 65536 ≡ true
unfolding is_valid_data_bucket
valid_bucket = refl

bucket_used_slots-occupied_example : bucket_used_slots toy trusting half_full 65536 ≡ (
    if all_witnessed half_full.kvs 65536 2 0
    then ok (occupied half_full.kvs 65536 2 0)
    else err (not_in_witness "Key"))
bucket_used_slots-occupied_example =
    bucket_used_slots-occupied toy trusting half_full 65536 two_slots valid_bucket two_slots_given

half_full_counts : bucket_used_slots toy trusting half_full 65536 ≡ ok 1
unfolding bucket_used_slots bucket_metadata_key Maps.get BucketMeta.from_value SaltValue.key
    BucketMeta.from_bytes from_le_bytes
half_full_counts = refl

-- Every probe starts at slot 3.
abbrev to_three : Bytes → ℕ
to_three bytes = 3

abbrev made : Res ProofError (SaltWitness toy trusting)
made = SaltWitness.create toy trusting (slot_three ∷ []) empty_salt empty_trie

abbrev empty_three : SaltWitness toy trusting
empty_three = record {
  kvs = absent_three;
  proof = record {
    parents_commitments = (0, false) ∷ (2, false) ∷ (513, true) ∷ (131329, false) ∷ [];
    proof = tt;
    levels = (65536, 1) ∷ [];
  };
}

made_ok : made ≡ ok empty_three
unfolding SaltWitness.create Maps.insert subtree_root_level Maps.get bucket_root_node_id
    get_parent_node get_bfs_level vc_position_in_parent default_commitment is_subtree_node
    get_child_node slot_id subtree_leaf_for_key
made_ok = refl

plain_three : is_in_meta_bucket slot_three ≡ false
unfolding is_in_meta_bucket
plain_three = refl

value-create_example : value toy trusting empty_three slot_three ≡ (
    if listed slot_three (slot_three ∷ [])
    then answer empty_salt (empty_salt.value slot_three)
    else err (not_in_witness "Key"))
value-create_example =
    value-create empty_salt toy trusting (slot_three ∷ []) empty_trie empty_three slot_three made_ok
      plain_three

search_runs :
    shi_find to_three
      (SaltWitness.reader toy trusting empty_three)
      65536
      0
      256
      (9 ∷ [])
      Ephemeral.new
    ≡ (ok none, Ephemeral.new)
unfolding shi_find ◌>>=◌ value Maps.get salt_key probe hash_with_nonce
search_runs = refl

shi_find-create_example :
    shi_find to_three empty_salt 65536 0 256 (9 ∷ []) Ephemeral.new ≡ (ok none, Ephemeral.new)
shi_find-create_example =
    shi_find-create to_three toy trusting (slot_three ∷ []) empty_salt empty_trie empty_three 65536
      0 256 (9 ∷ []) Ephemeral.new Ephemeral.new none made_ok (omega arith) (omega arith)
      (omega arith) search_runs

encode_parent-none_example :
    (is_encoded_node (encode_parent (bucket_root_node_id 65536) 6) ≡ true)
    × (logic_parent_id (encode_parent (bucket_root_node_id 65536) 6) ≡ none)
encode_parent-none_example = encode_parent-none 65536 6 (omega arith) (omega arith) (omega arith)

-- A proof that gives a bucket six levels.
abbrev six_levels : SaltProof toy trusting
six_levels = record {
  parents_commitments =
      (0, true)
      ∷ (2, false)
      ∷ (513, true)
      ∷ (131329, false)
      ∷ (72057594037927936, true)
      ∷ (72057594037927937, true)
      ∷ (72057594037928193, true)
      ∷ (72057594037993729, true)
      ∷ (72057594054770945, true)
      ∷ [];
  proof = tt;
  levels = (65536, 6) ∷ [];
}

-- The check does not return.
six_levels_panics : check toy trusting six_levels absent_three (1 ∷ []) ≡ panic
unfolding check bytes_eq Maps.get bucket_root_node_id get_parent_node get_bfs_level
    vc_position_in_parent Maps.insert get_child_node slot_id subtree_leaf_for_key
six_levels_panics = refl
