-- ===== src/State/Probe.antt =====
-- Where a key may stand in a bucket (salt/src/state/state.rs, hasher.rs): the hash of a plain key,
-- the probe sequence, the distance from its start, and the growth of a bucket. The hash function
-- itself, a copy of another library, is a parameter.
pub mod Ring
pub mod Growth
pub mod Buckets
use salt_optimizations.Prelude.{
  ℕ, zero, suc, ◌+◌, ◌-◌, ◌*◌, ◌/◌, ◌%◌, List, ◌++◌, ltb, leb, if◌then◌else◌,
}
use salt_optimizations.Prelude.Bytes.{Bytes, to_le_bytes}
use salt_optimizations.Prelude.Result.{Res, ok, out_of_fuel}
use salt_optimizations.Constant.{
  u32_mod, u64_mod, num_kv_buckets, num_meta_buckets, bucket_resize_load_factor_pct,
  bucket_resize_multiplier,
}
use salt_optimizations.Types.SaltKey.{BucketId, SlotId}

unfoldable pub bucket_of : (Bytes → ℕ) → Bytes → BucketId
bucket_of hash key = (hash key % num_kv_buckets + num_meta_buckets) % u32_mod

-- Both branches of the source hash the key followed by the four bytes of the nonce.
unfoldable pub hash_with_nonce : (Bytes → ℕ) → Bytes → ℕ → ℕ
hash_with_nonce hash plain_key nonce = hash (plain_key ++ to_le_bytes 4 nonce)

-- The callers pass a capacity above 0.
unfoldable pub probe : ℕ → ℕ → ℕ → SlotId
probe hashed_key i capacity = (hashed_key % capacity + i) % u64_mod % capacity

unfoldable pub rank : ℕ → SlotId → ℕ → ℕ
unfolding probe
rank hashed_key slot capacity =
    let first = probe hashed_key 0 capacity in
    if leb first slot then slot - first else (slot + capacity + u64_mod - first) % u64_mod

-- `while used * 100 > new_capacity * threshold`; products wrap at 64 bits.
unfoldable pub resize_loop : {E : Type 0} → ℕ → ℕ → ℕ → Res E ℕ
resize_loop zero used new_capacity = out_of_fuel
resize_loop (suc fuel) used new_capacity =
    let rest = resize_loop fuel used (new_capacity * bucket_resize_multiplier % u64_mod) in
    if ltb (new_capacity * bucket_resize_load_factor_pct % u64_mod) (used * 100 % u64_mod)
    then rest
    else ok new_capacity

-- 64 rounds pass the range of a `u64`.
unfoldable pub compute_resize_capacity : {E : Type 0} → ℕ → ℕ → Res E ℕ
unfolding resize_loop
compute_resize_capacity capacity used = resize_loop 64 used capacity
