-- ===== src/Trie/Leaves.antt =====
-- The segments of a bucket (salt/src/trie/node_utils.rs): the leaf of a slot, and the root level of a
-- capacity.
use native.Mathlib.Decide.{dec_le}
use native.Mathlib.Nat.{pow-suc}
use salt_optimizations.Prelude.{
  ℕ, zero, suc, ◌+◌, ◌-◌, ◌*◌, ◌/◌, ◌%◌, ◌^◌, ◌≤◌, ◌<◌, ◌≡◌, refl, ◌⊎◌, inl, inr, some, arith,
  Bool-cases, ltb,
}
use salt_optimizations.Types.SaltKey.{SaltKey, bucket_id}
use salt_optimizations.Types.NodeId.{get_local_number, get_bfs_level}
use salt_optimizations.Trie.NodeUtils.{
  subtree_leaf_for_key, subtree_leaf_start_key, subtree_root_level, root_level_loop,
}

-- The leaf of a 64-bit key is a node of the last level under the key's bucket, and its first key is the
-- key's slot rounded down to a multiple of 256.
pub leaf_segment :
    (k : SaltKey)
    → k < 2 ^ 64
    → (get_bfs_level (get_local_number (subtree_leaf_for_key k)) ≡ some 4)
      × (bucket_id (subtree_leaf_for_key k) ≡ bucket_id k)
      × (subtree_leaf_start_key (subtree_leaf_for_key k) ≡ k / 256 * 256)
unfolding get_local_number get_bfs_level subtree_leaf_for_key subtree_leaf_start_key
leaf_segment k h = (ground arith, omega arith, omega arith)

root_level_loop_total :
    (fuel level c : ℕ)
    → c ≤ 256 ^ suc fuel
    → (l : ℕ) × (root_level_loop (suc fuel) level c ≡ some l)
unfolding root_level_loop
root_level_loop_total zero level c h = (level, ground arith)
root_level_loop_total (suc fuel) level c h = elim (Bool-cases (ltb 256 c)) [
  | inr small ↦ (level, rw small)
  | inl big ↦ rw big (
      root_level_loop_total fuel ((level + 2 ^ 64 - 1) % 2 ^ 64) ((c + 256 - 1) % 2 ^ 64 / 256)
        (omega (arith, pow-suc 256 (suc fuel))))
]

-- The loop of `subtree_root_level` ends for every 64-bit capacity.
subtree_root_level_total : (c : ℕ) → c < 2 ^ 64 → (l : ℕ) × (subtree_root_level c ≡ some l)
unfolding subtree_root_level
subtree_root_level_total c h = root_level_loop_total 8 4 c (omega arith)

-- `l` is the deepest level whose one first node covers `c` slots.
pub record IsDeepest (c l : ℕ) : Type 0 where
  pub computed : subtree_root_level c ≡ some l
  pub exists : l ≤ 4
  pub covers : c ≤ 256 ^ (5 - l)
  pub minimal : (l ≡ 4) ⊎ (256 ^ (4 - l) < c)

-- For a capacity of at most 2 ^ 40 slots the root level is the deepest of the five levels at which
-- one node covers all the slots: a node of level l covers 256 ^ (5 - l) of them.
pub subtree_root_level-IsDeepest : (c : ℕ) → c ≤ 2 ^ 40 → (l : ℕ) × IsDeepest c l
unfolding subtree_root_level
subtree_root_level-IsDeepest c h = elim (dec_le c 256) [
  | yes a ↦ (
    4,
    record {
      computed = ground arith;
      exists = omega arith;
      covers = omega arith;
      minimal = inl refl;
    },
  )
  | no a ↦ elim (dec_le c 65536) [
    | yes b ↦ (
      3,
      record {
        computed = ground arith;
        exists = omega arith;
        covers = omega arith;
        minimal = inr (omega arith);
      },
    )
    | no b ↦ elim (dec_le c 16777216) [
      | yes d ↦ (
        2,
        record {
          computed = ground arith;
          exists = omega arith;
          covers = omega arith;
          minimal = inr (omega arith);
        },
      )
      | no d ↦ elim (dec_le c 4294967296) [
        | yes e ↦ (
          1,
          record {
            computed = ground arith;
            exists = omega arith;
            covers = omega arith;
            minimal = inr (omega arith);
          },
        )
        | no e ↦ (
          0,
          record {
            computed = ground arith;
            exists = omega arith;
            covers = omega arith;
            minimal = inr (omega arith);
          },
        )
      ]
    ]
  ]
]
