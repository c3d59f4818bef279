-- ===== src/Trie/NodeUtils.antt =====
-- Walking the main trie and the bucket subtrees by node ids: salt/src/trie/node_utils.rs, with
-- `STARTING_NODE_ID` of salt/src/constant.rs. `none` is a panic on an index out of range.
use salt_optimizations.Prelude.{
  ℕ, zero, suc, ◌+◌, ◌-◌, ◌*◌, ◌/◌, ◌%◌, ◌^◌, Option, none, some, List, [], ◌∷◌, ltb, get_elem?,
  if◌then◌else◌,
}
use salt_optimizations.Prelude.Partial.{◌>>=◌}
use salt_optimizations.Constant.{
  u64_mod, min_bucket_size, min_bucket_size_bits, trie_width, trie_width_bits, max_subtree_levels,
  bucket_slot_bits,
}
use salt_optimizations.Types.SaltKey.{SaltKey, BucketId, bucket_id, slot_id}
use salt_optimizations.Types.NodeId.{NodeId, get_local_number, get_bfs_level}

-- The first node of each level; `starting_nodes-leftmost_node` ties it to its definition.
abbrev pub starting_nodes : List ℕ
starting_nodes = 0 ∷ 1 ∷ 257 ∷ 65793 ∷ 16843009 ∷ []

-- `STARTING_NODE_ID[level]`
abbrev pub starting_node_id : ℕ → Option ℕ
starting_node_id level = get_elem? starting_nodes level

unfoldable pub vc_position_in_parent : NodeId → Option ℕ
unfolding get_local_number
vc_position_in_parent node = do
  let local_number = get_local_number node
  trie_level ← get_bfs_level local_number
  start ← starting_node_id trie_level
  some ((local_number - start) % trie_width)

unfoldable pub get_child_node : NodeId → ℕ → Option NodeId
unfolding get_local_number
get_child_node parent child_idx = do
  let local_node_id = get_local_number parent
  let bucket = parent - local_node_id
  level ← get_bfs_level local_node_id
  start ← starting_node_id level
  child_level_start ← starting_node_id (level + 1)
  some (
      (bucket + child_level_start + (local_node_id - start) * 2 ^ trie_width_bits + child_idx)
      % u64_mod)

-- `STARTING_NODE_ID[level - 1]`: at the root the index wraps and is out of range.
abbrev pub starting_node_above : ℕ → Option ℕ
starting_node_above zero = none
starting_node_above (suc level) = starting_node_id level

unfoldable pub get_parent_node : NodeId → Option NodeId
unfolding get_local_number
get_parent_node node = do
  let local_node_id = get_local_number node
  let bucket = node - local_node_id
  level ← get_bfs_level local_node_id
  start ← starting_node_id level
  above ← starting_node_above level
  some ((bucket + ((local_node_id - start) / 2 ^ trie_width_bits + above)) % u64_mod)

-- `STARTING_NODE_ID[MAIN_TRIE_LEVELS - 1]` and `STARTING_NODE_ID[MAX_SUBTREE_LEVELS - 1]`
abbrev pub bucket_roots_start : ℕ
bucket_roots_start = 65793

abbrev pub subtree_leaves_start : ℕ
subtree_leaves_start = 16843009

unfoldable pub bucket_root_node_id : BucketId → NodeId
bucket_root_node_id bucket = bucket + bucket_roots_start

unfoldable pub subtree_leaf_for_key : SaltKey → NodeId
unfolding bucket_id slot_id
subtree_leaf_for_key key =
    (bucket_id key * 2 ^ bucket_slot_bits % u64_mod
      + slot_id key / 2 ^ min_bucket_size_bits
      + subtree_leaves_start)
    % u64_mod

-- The subtraction wraps below the first leaf.
unfoldable pub subtree_leaf_start_key : NodeId → SaltKey
unfolding get_local_number
subtree_leaf_start_key node =
    let local_node_number = get_local_number node in
    let relative_position = (local_node_number + u64_mod - subtree_leaves_start) % u64_mod in
    (node - local_node_number + relative_position * 2 ^ min_bucket_size_bits % u64_mod) % u64_mod

-- The `while` loop. `level -= 1` wraps below 0; a capacity of at most `2 ^ 40` never gets there.
unfoldable pub root_level_loop : ℕ → ℕ → ℕ → Option ℕ
root_level_loop zero level capacity = none
root_level_loop (suc fuel) level capacity =
    let rest =
      root_level_loop fuel ((level + u64_mod - 1) % u64_mod)
        ((capacity + min_bucket_size - 1) % u64_mod / 2 ^ min_bucket_size_bits) in
    if ltb min_bucket_size capacity then rest else some level

-- Each round divides the capacity by 256, so 9 rounds are enough for a `u64`.
unfoldable pub subtree_root_level : ℕ → Option ℕ
unfolding root_level_loop
subtree_root_level capacity = root_level_loop 9 (max_subtree_levels - 1) capacity
