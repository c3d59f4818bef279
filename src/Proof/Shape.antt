-- ===== src/Proof/Shape.antt =====
-- salt/src/proof/shape.rs: which parents and which of their children a proof is about. The bridge
-- from a bucket's subtree to the main trie has the depth of the subtree in its id.
pub mod Bridges
pub mod Slots
pub mod Paths
use Prim.Native.Nat.{bit_or}
use salt_optimizations.Prelude.{
  ℕ, zero, suc, ◌+◌, ◌-◌, ◌*◌, ◌/◌, ◌%◌, ◌^◌, Bool, not, Option, none, some, List, [], ◌∷◌, ltb,
  leb, ◌==◌, if◌then◌else◌,
}
use salt_optimizations.Prelude.Partial.{◌>>=◌}
use salt_optimizations.Prelude.Maps
use salt_optimizations.Prelude.Maps.{Map}
use salt_optimizations.Prelude.Result.{Res, ok, out_of_fuel, and_then, or_panic}
use salt_optimizations.Constant.{bucket_slot_bits, max_subtree_levels, trie_width, u64_mod}
use salt_optimizations.Types.SaltKey.{SaltKey, bucket_id, slot_id}
use salt_optimizations.Types.NodeId.{NodeId}
use salt_optimizations.Trie.NodeUtils.{
  bucket_root_node_id, bucket_roots_start, get_parent_node, starting_node_id, subtree_leaf_for_key,
  vc_position_in_parent,
}
use salt_optimizations.Proof.Sets
use salt_optimizations.Proof.Sets.{Set}

-- `parent | (level << 33)`: the low 33 bits stay.
unfoldable pub encode_parent : NodeId → ℕ → NodeId
encode_parent parent level = parent % 2 ^ 33 + bit_or (parent / 2 ^ 33) level * 2 ^ 33

-- `n & (0x07 << 33) != 0`
unfoldable pub is_encoded_node : NodeId → Bool
is_encoded_node maybe_encoded_node = not (maybe_encoded_node / 2 ^ 33 % 8 == 0)

-- `n & ((1 << 33) - 1)` keeps the low 33 bits.
unfoldable pub connect_parent_id : NodeId → NodeId
unfolding is_encoded_node
connect_parent_id maybe_encoded_node =
    if is_encoded_node maybe_encoded_node then maybe_encoded_node % 2 ^ 33 else maybe_encoded_node

-- `STARTING_NODE_ID[MAX_SUBTREE_LEVELS - levels]`: with more levels the index wraps and is out of range.
unfoldable pub root_start : ℕ → Option ℕ
root_start levels =
    if leb levels max_subtree_levels then starting_node_id (max_subtree_levels - levels) else none

-- `… | (bucket_id << 40)`: a start is below `2 ^ 40`, so the bits are disjoint.
unfoldable pub subtree_root : ℕ → ℕ → Option NodeId
unfolding root_start
subtree_root bucket levels = do
  start ← root_start levels
  some (bucket * 2 ^ bucket_slot_bits % u64_mod + start)

unfoldable pub logic_parent_id : NodeId → Option NodeId
unfolding is_encoded_node subtree_root
logic_parent_id maybe_encoded_node =
    let connect_parent = maybe_encoded_node % 2 ^ 33 in
    let levels = maybe_encoded_node / 2 ^ 33 % 256 in
    let bucket = (connect_parent + u64_mod - bucket_roots_start) % u64_mod in
    if is_encoded_node maybe_encoded_node
    then subtree_root bucket levels
    else some maybe_encoded_node

-- Internal nodes and slot position nodes, each with the positions of children.
abbrev pub Points : Type 0
Points = Map Set × Map Set

-- Phase 4: the node of a key's segment.
unfoldable pub segment_node : SaltKey → ℕ → NodeId
segment_node key level =
    if level == 1 then bucket_root_node_id (bucket_id key) else subtree_leaf_for_key key

-- `for (node_id, positions) in map { acc.entry(node_id).or_default().extend(positions) }`
unfoldable pub merge : Map Set → Map Set → Map Set
unfolding Sets.extend_at
merge acc [] = acc
merge acc ((node, positions) ∷ map) = merge (Sets.extend_at node positions acc) map

module _ {E : Type 0} where
  -- The parent of a node, with the node's position recorded.
  unfoldable pub record_child : NodeId → Map Set → Res E (NodeId × Map Set)
  unfolding Sets.extend_at
  record_child node internal_nodes = and_then (or_panic (get_parent_node node)) λ parent.
      and_then (or_panic (vc_position_in_parent node))
        λ position. ok (parent, Sets.extend_at parent (position ∷ []) internal_nodes)

  -- Phase 1, `while node != 0`: a bucket's root is three levels below.
  unfoldable pub main_path : ℕ → NodeId → Map Set → Res E (Map Set)
  unfolding record_child
  main_path zero node internal_nodes = out_of_fuel
  main_path (suc fuel) node internal_nodes =
      let up =
        and_then (record_child node internal_nodes)
          (λ (next : NodeId × Map Set). main_path fuel next.0 next.1) in
      if node == 0 then ok internal_nodes else up

  -- Phase 2, `while count > 2`.
  unfoldable pub subtree_path : ℕ → NodeId → Map Set → Res E (NodeId × Map Set)
  unfolding record_child
  subtree_path zero node internal_nodes = ok (node, internal_nodes)
  subtree_path (suc zero) node internal_nodes = ok (node, internal_nodes)
  subtree_path (suc (suc zero)) node internal_nodes = ok (node, internal_nodes)
  subtree_path (suc (suc (suc count))) node internal_nodes =
      and_then (record_child node internal_nodes)
        (λ (next : NodeId × Map Set). subtree_path (suc (suc count)) next.0 next.1)

  -- Phase 3, `if count == 2`, which holds for two levels or more.
  unfoldable pub bridge : SaltKey → ℕ → NodeId → Map Set → Res E (Map Set)
  unfolding encode_parent Sets.extend_at
  bridge key level node internal_nodes =
      if leb 2 level
      then and_then (or_panic (vc_position_in_parent node)) (λ position. ok (
          Sets.extend_at (encode_parent (bucket_root_node_id (bucket_id key)) level) (position ∷ [])
            internal_nodes))
      else ok internal_nodes

  -- `levels[&bucket_id]` panics on a missing bucket.
  unfoldable pub points_of_key : Map ℕ → SaltKey → Res E Points
  unfolding main_path subtree_path bridge segment_node Sets.extend_at
  points_of_key levels key = and_then (or_panic (Maps.get (bucket_id key) levels)) λ level.
      and_then (main_path 5 (bucket_root_node_id (bucket_id key)) []) λ upper.
        and_then (subtree_path level (subtree_leaf_for_key key) upper) λ top.
          and_then (bridge key level top.0 top.1) λ internal_nodes. ok (
            internal_nodes,
            Sets.extend_at (segment_node key level) (slot_id key % trie_width ∷ []) [],
          )

  -- The fold; threads that reduce in another order get the same sets.
  unfoldable pub points_from : Map ℕ → List SaltKey → Points → Res E Points
  unfolding points_of_key merge
  points_from levels [] acc = ok acc
  points_from levels (key ∷ keys) acc =
      and_then (points_of_key levels key)
        λ points. points_from levels keys (merge acc.0 points.0, merge acc.1 points.1)

  unfoldable pub parents_and_points : List SaltKey → Map ℕ → Res E Points
  unfolding points_from
  parents_and_points salt_keys levels = points_from levels salt_keys ([], [])
