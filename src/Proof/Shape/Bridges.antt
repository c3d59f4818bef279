-- ===== src/Proof/Shape/Bridges.antt =====
-- The ids that bridge a bucket's subtree and the main trie (salt/src/proof/shape.rs).
use Prim.Native.Nat.{bit_or-bitwise}
use salt_optimizations.Prelude.{
  ℕ, zero, suc, ◌+◌, ◌-◌, ◌*◌, ◌/◌, ◌%◌, ◌^◌, ◌≤◌, ◌<◌, ◌≡◌, refl, sym, ap, ◌∙◌, true, false, none,
  some, arith, leb, ◌==◌,
}
use salt_optimizations.Constant.{num_buckets, u64_mod}
use salt_optimizations.Types.SaltKey.{BucketId}
use salt_optimizations.Types.NodeId.{NodeId, leftmost_node}
use salt_optimizations.Trie.NodeUtils.{bucket_root_node_id, bucket_roots_start}
use salt_optimizations.Proof.Shape.{
  connect_parent_id, encode_parent, is_encoded_node, logic_parent_id, root_start, subtree_root,
}

encode_sum :
    (parent level : ℕ) → parent < 2 ^ 33 → encode_parent parent level ≡ parent + level * 2 ^ 33
unfolding encode_parent
encode_sum parent level h =
    let high : parent / 2 ^ 33 ≡ 0 = omega arith in
    let low : parent % 2 ^ 33 ≡ parent = omega arith in
    rw (high, low) (ap (λ n. parent + n * 2 ^ 33) (bit_or-bitwise 0 level))

-- The root of a subtree with `level` levels, of a bucket's full one with five.
starting_node : (level : ℕ) → 1 ≤ level → level ≤ 5 → root_start level ≡ leftmost_node (5 - level)
unfolding root_start leftmost_node
starting_node zero lo hi = absurd (omega arith)
starting_node (suc zero) lo hi = refl
starting_node (suc (suc zero)) lo hi = refl
starting_node (suc (suc (suc zero))) lo hi = refl
starting_node (suc (suc (suc (suc zero)))) lo hi = refl
starting_node (suc (suc (suc (suc (suc zero))))) lo hi = refl
starting_node (suc (suc (suc (suc (suc (suc n)))))) lo hi = absurd (omega arith)

starting_node-some :
    (level : ℕ) → 1 ≤ level → level ≤ 5 → (start : ℕ) × (root_start level ≡ some start)
unfolding root_start
starting_node-some zero lo hi = absurd (omega arith)
starting_node-some (suc zero) lo hi = (16843009, refl)
starting_node-some (suc (suc zero)) lo hi = (65793, refl)
starting_node-some (suc (suc (suc zero))) lo hi = (257, refl)
starting_node-some (suc (suc (suc (suc zero)))) lo hi = (1, refl)
starting_node-some (suc (suc (suc (suc (suc zero))))) lo hi = (0, refl)
starting_node-some (suc (suc (suc (suc (suc (suc n)))))) lo hi = absurd (omega arith)

-- A bridge with 1 to 5 levels is seen as one, and both its ends are found again: the bucket's root in
-- the main trie, and the first node of level `5 - level` in the bucket's full subtree, where a
-- subtree with that many levels has its root.
pub encode_parent-ends :
    (bucket : BucketId) (level : ℕ)
    → bucket < num_buckets
    → 1 ≤ level
    → level ≤ 5
    → (is_encoded_node (encode_parent (bucket_root_node_id bucket) level) ≡ true)
      × (connect_parent_id (encode_parent (bucket_root_node_id bucket) level)
          ≡ bucket_root_node_id bucket)
      × ((first : NodeId) × (leftmost_node (5 - level) ≡ some first)
          × (logic_parent_id (encode_parent (bucket_root_node_id bucket) level)
              ≡ some (bucket * 2 ^ 40 + first)))
unfolding bucket_root_node_id is_encoded_node connect_parent_id logic_parent_id subtree_root
encode_parent-ends bucket level hb lo hi =
    let root : ℕ = bucket + bucket_roots_start in
    let e : encode_parent root level ≡ root + level * 2 ^ 33 =
      encode_sum root level (omega arith) in
    let high : (root + level * 2 ^ 33) / 2 ^ 33 ≡ level = omega arith in
    let low : (root + level * 2 ^ 33) % 2 ^ 33 ≡ root = omega arith in
    let kept : level % 256 ≡ level = omega arith in
    let bits : (level % 8 == 0) ≡ false = ground arith in
    let back : (root + u64_mod - bucket_roots_start) % u64_mod ≡ bucket = omega arith in
    let fits : bucket * 2 ^ 40 % u64_mod ≡ bucket * 2 ^ 40 = omega arith in
    let (first, found) = starting_node-some level lo hi in
    (
      rw (e, high, bits) refl,
      rw (e, high, low, bits) refl,
      (
        first,
        sym (starting_node level lo hi) ∙ found,
        rw (e, high, low, bits, kept, back, found, fits) refl,
      ),
    )

-- A bridge with 6 or 7 levels is seen as one too, and its subtree's root is out of range.
pub encode_parent-none :
    (bucket : BucketId) (level : ℕ)
    → bucket < num_buckets
    → 5 < level
    → level < 8
    → (is_encoded_node (encode_parent (bucket_root_node_id bucket) level) ≡ true)
      × (logic_parent_id (encode_parent (bucket_root_node_id bucket) level) ≡ none)
unfolding bucket_root_node_id is_encoded_node logic_parent_id subtree_root root_start
encode_parent-none bucket level hb lo hi =
    let root : ℕ = bucket + bucket_roots_start in
    let e : encode_parent root level ≡ root + level * 2 ^ 33 =
      encode_sum root level (omega arith) in
    let high : (root + level * 2 ^ 33) / 2 ^ 33 ≡ level = omega arith in
    let kept : level % 256 ≡ level = omega arith in
    let bits : (level % 8 == 0) ≡ false = ground arith in
    let deep : leb level 5 ≡ false = ground arith in
    (rw (e, high, bits) refl, rw (e, high, bits, kept, deep) refl)
