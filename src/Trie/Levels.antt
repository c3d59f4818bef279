-- ===== src/Trie/Levels.antt =====
-- The levels of the numbering (salt/src/types.rs), and the moves between parents and children
-- (salt/src/trie/node_utils.rs).
use salt_optimizations.Prelude.{
  ℕ, suc, ◌+◌, ◌-◌, ◌*◌, ◌%◌, ◌^◌, ◌≤◌, ◌<◌, ◌≡◌, refl, some, [], ◌∷◌, arith, map, get_elem?, ap,
}
use native.Mathlib.Decide.{dec_lt}
use salt_optimizations.Types.NodeId.{NodeId, get_local_number, get_bfs_level, leftmost_node}
use salt_optimizations.Trie.NodeUtils.{
  starting_nodes, vc_position_in_parent, get_child_node, get_parent_node,
}

-- The table holds the first node of each level.
pub starting_nodes-leftmost_node :
    map some starting_nodes ≡ map leftmost_node (0 ∷ 1 ∷ 2 ∷ 3 ∷ 4 ∷ [])
unfolding leftmost_node
starting_nodes-leftmost_node = refl

pub level_zero : (n : ℕ) → n < 1 → get_bfs_level n ≡ some 0
unfolding get_bfs_level
level_zero n h = ground arith

pub level_one : (n : ℕ) → 1 ≤ n → n < 257 → get_bfs_level n ≡ some 1
unfolding get_bfs_level
level_one n lo hi = ground arith

pub level_two : (n : ℕ) → 257 ≤ n → n < 65793 → get_bfs_level n ≡ some 2
unfolding get_bfs_level
level_two n lo hi = ground arith

pub level_three : (n : ℕ) → 65793 ≤ n → n < 16843009 → get_bfs_level n ≡ some 3
unfolding get_bfs_level
level_three n lo hi = ground arith

level_four : (n : ℕ) → 16843009 ≤ n → n < 4311810305 → get_bfs_level n ≡ some 4
unfolding get_bfs_level
level_four n lo hi = ground arith

-- One level down and up again, with the first nodes `s` and `c` of the two levels.
module _ (p i l s c : ℕ) (word : p < 2 ^ 64) (index : i < 256)
    (level : get_bfs_level (p % 2 ^ 40) ≡ some l) (start : get_elem? starting_nodes l ≡ some s)
    (child_start : get_elem? starting_nodes (suc l) ≡ some c)
    (child_level : get_bfs_level (c + (p % 2 ^ 40 - s) * 256 + i) ≡ some (suc l))
    (after : s ≤ p % 2 ^ 40) (fits : c + (p % 2 ^ 40 - s) * 256 + i < 2 ^ 40) where
  down_and_up :
      (x : NodeId) × (get_child_node p i ≡ some x)
      × (get_parent_node x ≡ some p)
      × (vc_position_in_parent x ≡ some i)
  unfolding get_child_node get_parent_node vc_position_in_parent
  down_and_up =
      let x : ℕ = p - p % 2 ^ 40 + c + (p % 2 ^ 40 - s) * 256 + i in
      let local : x % 2 ^ 40 ≡ c + (p % 2 ^ 40 - s) * 256 + i = omega arith in
      let next : l + 1 ≡ suc l = omega arith in
      (
        x,
        rw (level, start, next, child_start) (ap some (omega arith)),
        rw (local, child_level, child_start, start) (ap some (omega arith)),
        rw (local, child_level, child_start) (ap some (omega arith)),
      )

-- For a 64-bit node id above the last level, from the node to its child and back: the child's parent is the node, and its
-- place among the 256 children is the index.
pub get_parent_node-get_child_node :
    (p i : ℕ)
    → p < 2 ^ 64
    → get_local_number p < 16843009
    → i < 256
    → (c : NodeId) × (get_child_node p i ≡ some c)
      × (get_parent_node c ≡ some p)
      × (vc_position_in_parent c ≡ some i)
unfolding get_local_number
get_parent_node-get_child_node p i hp hl hi =
    let n : ℕ = p % 2 ^ 40 in
    elim (dec_lt n 1) [
      | yes a ↦
          down_and_up p i 0 0 1 hp hi (level_zero n a) refl refl
            (level_one _ (omega arith) (omega arith)) (omega arith) (omega arith)
      | no a ↦ elim (dec_lt n 257) [
        | yes b ↦
            down_and_up p i 1 1 257 hp hi (level_one n (omega arith) b) refl refl
              (level_two _ (omega arith) (omega arith)) (omega arith) (omega arith)
        | no b ↦ elim (dec_lt n 65793) [
          | yes c ↦
              down_and_up p i 2 257 65793 hp hi (level_two n (omega arith) c) refl refl
                (level_three _ (omega arith) (omega arith)) (omega arith) (omega arith)
          | no c ↦
              down_and_up p i 3 65793 16843009 hp hi (level_three n (omega arith) hl) refl refl
                (level_four _ (omega arith) (omega arith)) (omega arith) (omega arith)
        ]
      ]
    ]
