-- ===== src/State/Probe/Buckets.antt =====
-- The bucket and the slot of a plain key (`bucket_id` of salt/src/state/hasher.rs, `probe` of
-- salt/src/state/state.rs) as a `SaltKey`.
use native.Mathlib.Nat.{mod-lt}
use salt_optimizations.Prelude.{ℕ, ◌^◌, ◌≤◌, ◌<◌, ◌≡◌, true, false, arith}
use salt_optimizations.Prelude.Bytes.{Bytes}
use salt_optimizations.Constant.{num_kv_buckets, num_meta_buckets, num_buckets}
use salt_optimizations.Types.SaltKey.{
  salt_key, bucket_id, slot_id, is_in_meta_bucket, is_valid_data_bucket,
}
use salt_optimizations.Types.Packing.{salt_key_fields}
use salt_optimizations.State.Probe.{bucket_of, hash_with_nonce, probe}
use salt_optimizations.State.Probe.Ring.{rank-probe}

bucket_of-bounds :
    (hash : Bytes → ℕ) (key : Bytes)
    → (num_meta_buckets ≤ bucket_of hash key) × (bucket_of hash key < num_buckets)
unfolding bucket_of
bucket_of-bounds hash key = omega (arith, mod-lt (hash key) {m = num_kv_buckets} (omega arith))

data_bucket :
    (k b : ℕ)
    → bucket_id k ≡ b
    → num_meta_buckets ≤ b
    → b < num_buckets
    → (is_valid_data_bucket (bucket_id k) ≡ true) × (is_in_meta_bucket k ≡ false)
unfolding is_valid_data_bucket is_in_meta_bucket
data_bucket k b e lo hi = rw e (ground arith, ground arith)

-- Whatever the hash function, with a capacity of 1 to 2 ^ 40 slots, each probe of a plain key at a
-- distance below the capacity makes a `SaltKey` in the key's bucket, which is a valid data bucket and
-- none of the metadata buckets, at a slot below the capacity.
pub probe-bounds :
    (hash : Bytes → ℕ) (key : Bytes) (nonce i capacity : ℕ)
    → capacity ≤ 2 ^ 40
    → i < capacity
    → let k = salt_key (bucket_of hash key) (probe (hash_with_nonce hash key nonce) i capacity) in
      (bucket_id k ≡ bucket_of hash key)
      × (is_valid_data_bucket (bucket_id k) ≡ true)
      × (is_in_meta_bucket k ≡ false)
      × (slot_id k < capacity)
probe-bounds hash key nonce i capacity large below =
    let b = bucket_of hash key in
    let s = probe (hash_with_nonce hash key nonce) i capacity in
    let (lo, hi) = bucket_of-bounds hash key in
    let (in_bucket, _) =
      rank-probe (hash_with_nonce hash key nonce) capacity (omega arith) (omega arith) i below in
    let (bucket, slot) = salt_key_fields b s (omega arith) (omega arith) in
    let (valid, data_key) = data_bucket (salt_key b s) b bucket lo hi in
    (bucket, valid, data_key, rw slot in_bucket)
