-- ===== src/Trie/Defaults.antt =====
-- `default_commitment` of salt/src/constant.rs: the commitments of an empty trie. `none` is the panic
-- on an index out of range.
use salt_optimizations.Prelude.{
  ℕ, zero, suc, ◌+◌, ◌/◌, ◌%◌, ◌^◌, Bool, true, false, Option, some, List, [], ◌∷◌, ◌++◌, ltb,
  get_elem?, if◌then◌else◌,
}
use salt_optimizations.Prelude.Partial.{◌>>=◌}
use salt_optimizations.Prelude.Bytes.{Bytes}
use salt_optimizations.Constant.{min_bucket_size, num_meta_buckets, bucket_slot_bits}
use salt_optimizations.Types.NodeId.{NodeId, get_bfs_level, is_subtree_node}

-- The bytes of a number, the highest first.
unfoldable pub to_be_bytes : ℕ → ℕ → Bytes
to_be_bytes zero n = []
to_be_bytes (suc k) n = to_be_bytes k (n / 256) ++ (n % 256) ∷ []

-- `b512!`: 128 hex digits as 64 bytes.
unfoldable pub b512 : ℕ → Bytes
unfolding to_be_bytes
b512 digits = to_be_bytes 64 digits

-- `DEFAULT_COMMITMENT_AT_LEVEL`: where the data part of a level starts, and the commitments to the
-- left and to the right of it.
unfoldable pub default_commitment_at_level : List (ℕ × Bytes × Bytes)
unfolding b512
default_commitment_at_level =
    (
      0 + 1,
      b512
          0xa2f11cbb573b3beba869c4417fd616e550f66feea3edcf6b8979bee66dd18767d744099c52a92477cb2e005ca3665892ce7860ccaf476aa224528837e5732270,
      b512
          0xa2f11cbb573b3beba869c4417fd616e550f66feea3edcf6b8979bee66dd18767d744099c52a92477cb2e005ca3665892ce7860ccaf476aa224528837e5732270,
    )
    ∷ (
      1 + 1,
      b512
          0xb744bfb480faaaaecfb534e10ce111489c89cc43ab90a380ef5eb0f8668b731049cd9f4222b06ca3e41d624b573b83e67a9f251ae7f4e26cd496fd4005fc8c72,
      b512
          0x866b0fd149ea8e233d295dff7b91af9ac54e82e3083a979e068fe9f5a8747832f59ed53dfd1e939bdcbf9e1bbc87752c8fe8537c662f537ebfde227ce7845659,
    )
    ∷ (
      257 + min_bucket_size,
      b512
          0x9ed527e0e507e93c05d5a77184211e6bbf6e1820fdc7cd36387c4d52f8b931182f47ece1ebb6dad09b8b96062bc5241b143e03f36e69ffb83b0ef8d99f818772,
      b512
          0x1d8d81bcb60ff180ff99c497a8298af38d71d2fbf3c0ffda09b659839e3732612771a485191ab8fe740dc20d1a33c53f8cfbb1c07676d74050de914c0efc7f54,
    )
    ∷ (
      65793 + num_meta_buckets,
      b512
          0xe07db25c34ee2ddb23992be6e8c3a9fc0c3b3c23effd4089cb262524ce64671abc3da78e1f67a926db11faa1385ca8d35aee7905cff1251536c75b73f60ed16b,
      b512
          0xda260863cc36b265d34f9912c3b98ae7e046ced37bf5eebe1be164695093714efc9e5b23b9ab87c9f7b51e4fec4ea377e4fe44672d70752f7c3522e0f0269555,
    )
    ∷ []

-- `SUBTREE_DEFAULT_COMMITMENT`
unfoldable pub subtree_default_commitment : List Bytes
unfolding b512
subtree_default_commitment =
    b512
      0xa7bba7dcf3ad2fbb9fd792f875adad094bb67119f2e83fd751299d9195d7301cfece2bfd0cbc9ce1150cd3a653377c9a038af061a0d8ebe4de54143ffe3cb172
    ∷ b512
        0xdb1c8437754289cd759fa15c051b03950c135a8b67176946020087cdd86f0c2f660ba555b18020f3941854a87060bcf92b39312a63dcd21fc9b629ee6b0ca570
    ∷ b512
        0x866b0fd149ea8e233d295dff7b91af9ac54e82e3083a979e068fe9f5a8747832f59ed53dfd1e939bdcbf9e1bbc87752c8fe8537c662f537ebfde227ce7845659
    ∷ b512
        0x1d8d81bcb60ff180ff99c497a8298af38d71d2fbf3c0ffda09b659839e3732612771a485191ab8fe740dc20d1a33c53f8cfbb1c07676d74050de914c0efc7f54
    ∷ b512
        0xda260863cc36b265d34f9912c3b98ae7e046ced37bf5eebe1be164695093714efc9e5b23b9ab87c9f7b51e4fec4ea377e4fe44672d70752f7c3522e0f0269555
    ∷ []

-- The commitment of a main trie node, by the boundary of its level.
unfoldable pub beside : NodeId → ℕ × Bytes × Bytes → Bytes
beside node (boundary, left, right) = if ltb node boundary then left else right

unfoldable pub default_of : NodeId → ℕ → Bool → Option Bytes
unfolding beside default_commitment_at_level subtree_default_commitment
default_of node level true = get_elem? subtree_default_commitment level
default_of node level false = do
  entry ← get_elem? default_commitment_at_level level
  some (beside node entry)

unfoldable pub default_commitment : NodeId → Option Bytes
unfolding default_of
default_commitment node = do
  level ← get_bfs_level (node % 2 ^ bucket_slot_bits)
  in_subtree ← is_subtree_node node
  default_of node level in_subtree
