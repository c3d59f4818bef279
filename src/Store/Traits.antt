-- ===== src/Store/Traits.antt =====
-- `StateReader` of salt/src/traits.rs: the methods that every store brings, and the two that have
-- a default. A store is a value of the record, and its error type a parameter.
use salt_optimizations.Prelude.{ℕ, ◌-◌, ◌%◌, Option, List, length, ltb, if◌then◌else◌}
use salt_optimizations.Prelude.Bytes.{Bytes}
use salt_optimizations.Prelude.Result.{Res, ok, and_then, or_panic}
use salt_optimizations.Constant.{bucket_slot_id_mask, max_subtree_levels, num_meta_buckets, u64_mod}
use salt_optimizations.Types.SaltKey.{SaltKey, BucketId, salt_key, is_valid_data_bucket}
use salt_optimizations.Types.SaltValue.{SaltValue}
use salt_optimizations.Types.BucketMeta.{BucketMeta}
use salt_optimizations.Trie.NodeUtils.{subtree_root_level}

pub record StateReader (E : Type 0) : Type 0 where
  pub value : SaltKey → Res E (Option SaltValue)
  pub entries : SaltKey → SaltKey → Res E (List (SaltKey × SaltValue))
  pub metadata : BucketId → Res E BucketMeta
  pub bucket_used_slots : BucketId → Res E ℕ
  pub plain_value_fast : Bytes → Res E SaltKey

-- The default `bucket_used_slots`, over a store's `entries`.
unfoldable pub default_bucket_used_slots :
    {E : Type 0} → (SaltKey → SaltKey → Res E (List (SaltKey × SaltValue))) → BucketId → Res E ℕ
default_bucket_used_slots entries bucket =
    if is_valid_data_bucket bucket
    then and_then (entries (salt_key bucket 0) (salt_key bucket bucket_slot_id_mask))
        (λ found. ok (length found % u64_mod))
    else ok 0

-- `MAX_SUBTREE_LEVELS - root_level`
abbrev subtree_levels_of : {E : Type 0} → BucketMeta → Res E ℕ
subtree_levels_of meta =
    and_then (or_panic (subtree_root_level meta.capacity))
      (λ root_level. ok (max_subtree_levels - root_level))

unfoldable pub get_subtree_levels : {E : Type 0} → StateReader E → BucketId → Res E ℕ
get_subtree_levels store bucket =
    if ltb bucket num_meta_buckets then ok 1 else and_then (store.metadata bucket) subtree_levels_of
