-- ===== src/Trie/Contraction.antt =====
-- `SubtrieChangeInfo` and `compute_contraction_ops` of salt/src/trie/trie.rs: what a change of a
-- bucket's capacity does to its subtree.
use salt_optimizations.Prelude.{
  ℕ, zero, suc, ◌+◌, ◌-◌, ◌*◌, ◌%◌, ◌^◌, Option, some, List, [], ◌∷◌, ltb, leb, if◌then◌else◌,
}
use salt_optimizations.Prelude.Partial.{◌>>=◌}
use salt_optimizations.Constant.{u64_mod, min_bucket_size, max_subtree_levels, bucket_slot_bits}
use salt_optimizations.Types.SaltKey.{BucketId}
use salt_optimizations.Types.NodeId.{NodeId}
use salt_optimizations.Trie.NodeUtils.{starting_node_id, subtree_root_level, bucket_root_node_id}
use salt_optimizations.Trie.StateRoot.{div_ceil}

pub record SubtrieChangeInfo : Type 0 where
  pub old_capacity : ℕ
  pub old_top_level : ℕ
  pub old_top_id : NodeId
  pub new_capacity : ℕ
  pub new_top_level : ℕ
  pub new_top_id : NodeId
  pub root_id : NodeId

-- The first node of a level in the subtree of a bucket; `none` is an index out of range.
abbrev pub top_id : BucketId → ℕ → Option NodeId
top_id bucket level = do
  start ← starting_node_id level
  some ((bucket * 2 ^ bucket_slot_bits % u64_mod + start) % u64_mod)

-- `SubtrieChangeInfo::new`
unfoldable pub change_info : BucketId → ℕ → ℕ → Option SubtrieChangeInfo
unfolding subtree_root_level bucket_root_node_id
change_info bucket old_capacity new_capacity = do
  old_top_level ← subtree_root_level old_capacity
  new_top_level ← subtree_root_level new_capacity
  old_top_id ← top_id bucket old_top_level
  new_top_id ← top_id bucket new_top_level
  some (record {
    old_capacity = old_capacity;
    old_top_level = old_top_level;
    old_top_id = old_top_id;
    new_capacity = new_capacity;
    new_top_level = new_top_level;
    new_top_id = new_top_id;
    root_id = bucket_root_node_id bucket;
  })

pub record LevelContractionOp : Type 0 where
  pub level : ℕ
  pub update_start : ℕ
  pub update_end : ℕ
  pub immediate_boundary : ℕ

abbrev pub at_most : ℕ → ℕ → ℕ
at_most a b = if leb a b then a else b

-- The loop over the levels, `left` of them from `level` down, with its `start` and `end`.
unfoldable pub contraction_loop : ℕ → ℕ → ℕ → ℕ → ℕ → List LevelContractionOp
contraction_loop zero level new_top_level start end = []
contraction_loop (suc left) level new_top_level start end =
    let end' = div_ceil end min_bucket_size in
    let kept = ltb new_top_level level in
    let start' = if kept then div_ceil start min_bucket_size else 0 in
    let extract_end =
      if kept then at_most (div_ceil (start' - 1) min_bucket_size * min_bucket_size) end' else 0 in
    record {
      level = level;
      update_start = start';
      update_end = end';
      immediate_boundary = extract_end;
    }
    ∷ contraction_loop left (level - 1) new_top_level start' end'

-- `none` is a capacity with no level.
unfoldable pub compute_contraction_ops : ℕ → ℕ → Option (List LevelContractionOp)
unfolding subtree_root_level contraction_loop
compute_contraction_ops old_capacity new_capacity = do
  old_top_level ← subtree_root_level old_capacity
  new_top_level ← subtree_root_level new_capacity
  some (
      contraction_loop (max_subtree_levels - 1 - old_top_level) (max_subtree_levels - 1)
        new_top_level new_capacity old_capacity)
