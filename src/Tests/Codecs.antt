-- ===== src/Tests/Codecs.antt =====
-- Keys, values, node ids and capacities.
use salt_optimizations.Prelude.{
  ℕ, ◌+◌, ◌*◌, ◌/◌, ◌^◌, ◌≤◌, ◌<◌, ◌≡◌, ◌↔◌, refl, some, none, [], ◌∷◌, arith, length,
}
use salt_optimizations.Prelude.Bytes.{Bytes, from_le_bytes}
use salt_optimizations.Prelude.Result.{ok}
use salt_optimizations.Types.SaltKey.{bucket_id, bucket_range}
use salt_optimizations.Types.SaltValue
use salt_optimizations.Types.SaltValue.{SaltValue, encode, data_len}
use salt_optimizations.Types.BucketMeta.{BucketMeta, from_bytes, from_value, to_bytes, to_value}
use salt_optimizations.Types.NodeId.{NodeId, get_local_number, get_bfs_level}
use salt_optimizations.Types.Packing.{bucket_range_exact}
use salt_optimizations.Types.RoundTrip.{encode_round_trip, meta_round_trip, to_bytes-from_bytes}
use salt_optimizations.Types.Errors.{SaltError}
use salt_optimizations.Trie.NodeUtils.{
  get_child_node, get_parent_node, vc_position_in_parent, subtree_leaf_for_key,
  subtree_leaf_start_key,
}
use salt_optimizations.Trie.Levels.{get_parent_node-get_child_node}
use salt_optimizations.Trie.Leaves.{leaf_segment, subtree_root_level-IsDeepest, IsDeepest}
use salt_optimizations.State.Probe.{probe, rank, compute_resize_capacity}
use salt_optimizations.State.Probe.Ring.{rank-probe, probe-rank}
use salt_optimizations.State.Probe.Growth.{compute_resize_capacity-IsGrown, IsGrown}

bucket_range_exact_example :
    ((bucket_range 65536 65537).0 ≤ 2 ^ 56 + 9) × (2 ^ 56 + 9 ≤ (bucket_range 65536 65537).1)
    ↔ (65536 ≤ bucket_id (2 ^ 56 + 9)) × (bucket_id (2 ^ 56 + 9) ≤ 65537)
bucket_range_exact_example =
    bucket_range_exact 65536 65537 (2 ^ 56 + 9) (omega arith) (omega arith) (omega arith)

abbrev plain_key : Bytes
plain_key = 1 ∷ 2 ∷ 3 ∷ []

abbrev plain_val : Bytes
plain_val = 9 ∷ []

encode_round_trip_example :
    (s : SaltValue) × (encode plain_key plain_val ≡ some s)
    × (SaltValue.key s ≡ some plain_key)
    × (SaltValue.value s ≡ some plain_val)
    × (data_len s ≡ some (2 + length plain_key + length plain_val))
    × (length s.bytes ≡ 94)
encode_round_trip_example = encode_round_trip plain_key plain_val (omega arith)

abbrev meta : BucketMeta
meta = record { nonce = 5; capacity = 512; used = some 3 }

meta_round_trip_example :
    (s : SaltValue) × (to_value meta ≡ some s)
    × (from_value s ≡ ok (record meta { used = none }))
    × (from_bytes (to_bytes meta) ≡ ok (record meta { used = none }))
meta_round_trip_example = meta_round_trip meta (omega arith) (omega arith)

abbrev meta_bytes : Bytes
meta_bytes = 5 ∷ 0 ∷ 0 ∷ 0 ∷ 0 ∷ 2 ∷ 0 ∷ 0 ∷ 0 ∷ 0 ∷ 0 ∷ 0 ∷ []

to_bytes-from_bytes_example :
    (length meta_bytes ≡ 12) × (to_bytes (record meta { used = none }) ≡ meta_bytes)
unfolding from_bytes from_le_bytes
to_bytes-from_bytes_example =
    to_bytes-from_bytes meta_bytes (record meta { used = none }) (omega arith) refl

get_parent_node-get_child_node_example :
    (c : NodeId) × (get_child_node (65536 * 2 ^ 40 + 300) 17 ≡ some c)
    × (get_parent_node c ≡ some (65536 * 2 ^ 40 + 300))
    × (vc_position_in_parent c ≡ some 17)
unfolding get_local_number
get_parent_node-get_child_node_example =
    get_parent_node-get_child_node (65536 * 2 ^ 40 + 300) 17 (omega arith) (omega arith)
      (omega arith)

leaf_segment_example :
    (get_bfs_level (get_local_number (subtree_leaf_for_key (2 ^ 57 + 1500))) ≡ some 4)
    × (bucket_id (subtree_leaf_for_key (2 ^ 57 + 1500)) ≡ bucket_id (2 ^ 57 + 1500))
    × (subtree_leaf_start_key (subtree_leaf_for_key (2 ^ 57 + 1500)) ≡ (2 ^ 57 + 1500) / 256 * 256)
leaf_segment_example = leaf_segment (2 ^ 57 + 1500) (omega arith)

subtree_root_level-IsDeepest_example : (l : ℕ) × IsDeepest 768 l
subtree_root_level-IsDeepest_example = subtree_root_level-IsDeepest 768 (omega arith)

rank-probe_example : (probe 1000 200 256 < 256) × (rank 1000 (probe 1000 200 256) 256 ≡ 200)
rank-probe_example = rank-probe 1000 256 (omega arith) (omega arith) 200 (omega arith)

probe-rank_example : (rank 1000 3 256 < 256) × (probe 1000 (rank 1000 3 256) 256 ≡ 3)
probe-rank_example = probe-rank 1000 256 (omega arith) (omega arith) 3 (omega arith)

compute_resize_capacity-IsGrown_example :
    (r : ℕ) × (compute_resize_capacity {E = SaltError} 256 206 ≡ ok r) × IsGrown 256 206 r
compute_resize_capacity-IsGrown_example =
    compute_resize_capacity-IsGrown {E = SaltError} 256 206 (omega arith) (omega arith)
      (omega arith)

resize_doubles : compute_resize_capacity {E = SaltError} 256 206 ≡ ok 512
unfolding compute_resize_capacity
resize_doubles = refl
