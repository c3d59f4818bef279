-- ===== src/Types/BucketMeta.antt =====
-- `BucketMeta` of salt/src/types.rs: nonce and capacity, written as 12 little-endian bytes; the
-- count of used slots is not written.
use salt_optimizations.Prelude.{
  ℕ, Bool, ◌&&◌, Option, none, [], ◌++◌, length, take, drop, ◌==◌, if◌then◌else◌,
}
use salt_optimizations.Prelude.Bytes.{Bytes, to_le_bytes, from_le_bytes}
use salt_optimizations.Prelude.Result.{Res, ok, err, or_panic, and_then}
use salt_optimizations.Constant.{min_bucket_size}
use salt_optimizations.Types.SaltValue
use salt_optimizations.Types.SaltValue.{SaltValue}
use salt_optimizations.Types.Errors.{SaltError, invalid_format}

pub record BucketMeta : Type 0 where
  pub nonce : ℕ
  pub capacity : ℕ
  pub used : Option ℕ

abbrev pub default : BucketMeta
default = record { nonce = 0; capacity = min_bucket_size; used = none }

-- The two `map_err` of the source cannot occur: the slices have 4 and 8 bytes.
unfoldable pub from_bytes : Bytes → Res SaltError BucketMeta
from_bytes bytes =
    if length bytes == 12
    then ok (record {
      nonce = from_le_bytes (take 4 bytes);
      capacity = from_le_bytes (take 8 (drop 4 bytes));
      used = none;
    })
    else err (invalid_format "BucketMeta requires exactly 12 bytes")

-- `BucketMeta::try_from(&SaltValue)`
unfoldable pub from_value : SaltValue → Res SaltError BucketMeta
from_value v = and_then (or_panic (SaltValue.key v)) from_bytes

unfoldable pub to_bytes : BucketMeta → Bytes
to_bytes meta = to_le_bytes 4 meta.nonce ++ to_le_bytes 8 meta.capacity

-- `SaltValue::from(BucketMeta)`
unfoldable pub to_value : BucketMeta → Option SaltValue
unfolding to_bytes
to_value meta = SaltValue.encode (to_bytes meta) []

unfoldable pub is_default : BucketMeta → Bool
is_default meta = (meta.nonce == 0) && (meta.capacity == min_bucket_size)
