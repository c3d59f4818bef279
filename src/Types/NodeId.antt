-- ===== src/Types/NodeId.antt =====
-- Node ids and the breadth-first numbering of a complete 256-ary tree (salt/src/types.rs).
use salt_optimizations.Prelude.{
  ℕ, zero, suc, ◌-◌, ◌/◌, ◌%◌, ◌^◌, Bool, true, false, Option, none, some, ltb, leb, ◌==◌,
  if◌then◌else◌,
}
use salt_optimizations.Constant.{bucket_slot_bits, num_meta_buckets, trie_width, u64_mod}

abbrev pub NodeId : Type 0
NodeId = ℕ

unfoldable pub get_local_number : NodeId → ℕ
get_local_number node = node % 2 ^ bucket_slot_bits

-- `none` is the panic on the id of a metadata bucket.
unfoldable pub is_subtree_node : NodeId → Option Bool
is_subtree_node node =
    let bucket = node / 2 ^ bucket_slot_bits in
    if bucket == 0 then some false else if ltb bucket num_meta_buckets then none else some true

-- `none` where the power passes a `u128` or the result a `u64`.
unfoldable pub leftmost_node : ℕ → Option ℕ
leftmost_node zero = some 0
leftmost_node level =
    if ltb (trie_width ^ level) (2 ^ 128)
    then (let result = (trie_width ^ level - 1) / (trie_width - 1) in
        if ltb result u64_mod then some result else none)
    else none

-- `if let Some(leftmost) = leftmost_node(level) { if bfs_number >= leftmost {` …
unfoldable pub reaches : Option ℕ → ℕ → Bool
reaches none n = false
reaches (some leftmost) n = leb leftmost n

-- The loop of `get_bfs_level`, from `level` down; `none` is `unreachable!`.
unfoldable pub bfs_level_from : ℕ → ℕ → Option ℕ
unfolding reaches leftmost_node
bfs_level_from zero n = if reaches (leftmost_node 0) n then some 0 else none
bfs_level_from (suc level) n =
    let rest = bfs_level_from level n in
    if reaches (leftmost_node (suc level)) n then some (suc level) else rest

unfoldable pub get_bfs_level : ℕ → Option ℕ
unfolding bfs_level_from
get_bfs_level n = bfs_level_from 8 n
