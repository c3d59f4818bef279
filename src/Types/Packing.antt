-- ===== src/Types/Packing.antt =====
-- Packing keys (salt/src/types.rs): buckets, slots, ranges, and the keys of metadata.
use salt_optimizations.Prelude.{ℕ, ◌/◌, ◌%◌, ◌^◌, ◌≤◌, ◌<◌, ◌≡◌, ◌↔◌, true, some, arith}
use salt_optimizations.Constant.{bucket_slot_id_mask, num_meta_buckets, num_buckets}
use salt_optimizations.Types.SaltKey.{
  salt_key, bucket_id, slot_id, is_in_meta_bucket, bucket_metadata_key, bucket_id_from_metadata_key,
  bucket_range,
}

-- A key made from a 24-bit bucket and a 40-bit slot gives both back.
pub salt_key_fields :
    (b s : ℕ)
    → b < 2 ^ 24
    → s < 2 ^ 40
    → (bucket_id (salt_key b s) ≡ b) × (slot_id (salt_key b s) ≡ s)
unfolding salt_key bucket_id slot_id
salt_key_fields b s hb hs = omega arith

-- A 64-bit key is rebuilt from its bucket and its slot.
pub salt_key-fields : (k : ℕ) → k < 2 ^ 64 → salt_key (bucket_id k) (slot_id k) ≡ k
unfolding salt_key bucket_id slot_id
salt_key-fields k h = omega arith

-- The metadata key of a data bucket lies in a metadata bucket, and gives the bucket back.
metadata_key_round_trip :
    (b : ℕ)
    → num_meta_buckets ≤ b
    → b < num_buckets
    → (k : ℕ) × (bucket_metadata_key b ≡ some k)
      × (is_in_meta_bucket k ≡ true)
      × (bucket_id_from_metadata_key k ≡ some b)
unfolding bucket_metadata_key bucket_id_from_metadata_key is_in_meta_bucket
metadata_key_round_trip b lo hi =
    (salt_key (b / 2 ^ 8) (b % 256), ground arith, ground arith, ground arith)

-- A key lies in the inclusive range of the buckets `a` to `b` exactly when its bucket does.
pub bucket_range_exact :
    (a b k : ℕ)
    → a < 2 ^ 24
    → b < 2 ^ 24
    → k < 2 ^ 64
    → ((bucket_range a b).0 ≤ k) × (k ≤ (bucket_range a b).1)
      ↔ (a ≤ bucket_id k) × (bucket_id k ≤ b)
unfolding bucket_range bucket_id
bucket_range_exact a b k ha hb hk = (λ h. omega arith, λ h. omega arith)

-- The keys from the first to the last slot of a bucket are those of the bucket.
pub one_bucket_range :
    (b k : ℕ)
    → b < 2 ^ 24
    → k < 2 ^ 64
    → (salt_key b 0 ≤ k) × (k ≤ salt_key b bucket_slot_id_mask) ↔ (bucket_id k ≡ b)
unfolding salt_key bucket_id
one_bucket_range b k hb hk = (λ h. omega arith, λ h. omega arith)
