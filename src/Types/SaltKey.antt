-- ===== src/Types/SaltKey.antt =====
-- `SaltKey` of salt/src/types.rs, a `u64` whose high 24 bits name a bucket and whose low 40 bits
-- name a slot, and the place of a bucket's metadata. Shifts and sums wrap at the width of the word.
use salt_optimizations.Prelude.{
  ℕ, ◌+◌, ◌-◌, ◌*◌, ◌/◌, ◌%◌, ◌^◌, Bool, ◌&&◌, Option, none, some, ltb, leb, if◌then◌else◌,
}
use salt_optimizations.Constant.{
  u32_mod, u64_mod, bucket_slot_bits, bucket_slot_id_mask, num_meta_buckets, num_buckets,
  min_bucket_size, min_bucket_size_bits,
}

abbrev pub BucketId : Type 0
BucketId = ℕ

abbrev pub SlotId : Type 0
SlotId = ℕ

abbrev pub SaltKey : Type 0
SaltKey = ℕ

-- `x & BUCKET_SLOT_ID_MASK` keeps the low 40 bits.
unfoldable pub slot_id : SaltKey → SlotId
slot_id key = key % 2 ^ bucket_slot_bits

unfoldable pub bucket_id : SaltKey → BucketId
bucket_id key = key / 2 ^ bucket_slot_bits % u32_mod

unfoldable pub is_in_meta_bucket : SaltKey → Bool
unfolding bucket_id
is_in_meta_bucket key = ltb (bucket_id key) num_meta_buckets

-- `SaltKey::from((bucket_id, slot_id))`
unfoldable pub salt_key : BucketId → SlotId → SaltKey
salt_key bucket slot = (bucket * 2 ^ bucket_slot_bits % u64_mod + slot) % u64_mod

-- The ends of the inclusive range.
unfoldable pub bucket_range : BucketId → BucketId → SaltKey × SaltKey
unfolding salt_key
bucket_range start_bucket end_bucket =
    (salt_key start_bucket 0, salt_key end_bucket bucket_slot_id_mask)

-- The last key of `METADATA_KEYS_RANGE`, which starts at 0.
abbrev pub metadata_keys_end : SaltKey
metadata_keys_end = (num_meta_buckets - 1) * 2 ^ bucket_slot_bits + bucket_slot_id_mask

unfoldable pub is_valid_data_bucket : BucketId → Bool
is_valid_data_bucket bucket = leb num_meta_buckets bucket && ltb bucket num_buckets

-- `none` is the failed assertion.
unfoldable pub bucket_metadata_key : BucketId → Option SaltKey
unfolding is_valid_data_bucket salt_key
bucket_metadata_key bucket =
    if is_valid_data_bucket bucket
    then some (salt_key (bucket / 2 ^ min_bucket_size_bits) (bucket % min_bucket_size))
    else none

-- `none` is the failed assertion.
unfoldable pub bucket_id_from_metadata_key : SaltKey → Option BucketId
unfolding bucket_id slot_id
bucket_id_from_metadata_key key =
    if leb key metadata_keys_end
    then some
        ((bucket_id key * 2 ^ min_bucket_size_bits % u32_mod + slot_id key % u32_mod) % u32_mod)
    else none
