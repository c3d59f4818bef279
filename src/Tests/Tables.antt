-- ===== src/Tests/Tables.antt =====
-- A search in a small bucket, and the slot of a key.
use salt_optimizations.Prelude.{
  ℕ, ◌+◌, ◌≡◌, ◌↔◌, refl, Option, some, none, [], ◌∷◌, ◌==◌, if◌then◌else◌, true, false, ◌<◌, arith,
}
use salt_optimizations.Prelude.Bytes.{Bytes, cmp, to_le_bytes}
use salt_optimizations.Prelude.Result.{Res, ok, ◌>>=◌}
use salt_optimizations.Types.SaltKey.{
  SaltKey, salt_key, bucket_id, slot_id, is_in_meta_bucket, is_valid_data_bucket,
}
use salt_optimizations.Types.SaltValue
use salt_optimizations.Types.SaltValue.{SaltValue}
use salt_optimizations.Types.Errors.{SaltError}
use salt_optimizations.State.Probe.{probe, hash_with_nonce, bucket_of}
use salt_optimizations.State.Probe.Buckets.{probe-bounds}
use salt_optimizations.State.Search.{shi_search}
use salt_optimizations.State.Search.Found.{reads, IsHit, shi_search_exact}

-- The hash of a key is the sum of its bytes and the nonce's.
abbrev sum_hash : Bytes → ℕ
sum_hash [] = 0
sum_hash (b ∷ bs) = b + sum_hash bs

abbrev large : SaltValue
large = record { bytes = 1 ∷ 0 ∷ 9 ∷ [] }

abbrev small : SaltValue
small = record { bytes = 1 ∷ 0 ∷ 3 ∷ [] }

-- Slots 3 and 4 are full.
abbrev stored : SaltKey → Res SaltError (Option SaltValue)
stored key =
    if key == salt_key 65536 3
    then ok (some large)
    else if key == salt_key 65536 4
    then ok (some small)
    else ok none

-- The larger key is passed over.
search_runs : (shi_search sum_hash 65536 0 256 (3 ∷ []) (reads stored) tt).0 ≡ ok (some (4, small))
unfolding shi_search salt_key ◌>>=◌ probe hash_with_nonce to_le_bytes SaltValue.key cmp
search_runs = refl

shi_search_exact_example :
    ((shi_search sum_hash 65536 0 256 (3 ∷ []) (reads stored) tt).0 ≡ ok (some (4, small)))
    ↔ IsHit stored 65536 (hash_with_nonce sum_hash (3 ∷ []) 0) 256 (3 ∷ []) 4 small
shi_search_exact_example = shi_search_exact stored sum_hash 65536 0 256 (3 ∷ []) 4 small

probe-bounds_example :
    let k =
      salt_key (bucket_of sum_hash (3 ∷ [])) (probe (hash_with_nonce sum_hash (3 ∷ []) 2) 9 256) in
    (bucket_id k ≡ bucket_of sum_hash (3 ∷ []))
    × (is_valid_data_bucket (bucket_id k) ≡ true)
    × (is_in_meta_bucket k ≡ false)
    × (slot_id k < 256)
probe-bounds_example = probe-bounds sum_hash (3 ∷ []) 2 9 256 (omega arith) (omega arith)
