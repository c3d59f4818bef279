-- ===== src/Store/EmptySalt.antt =====
-- `EmptySalt` of salt/src/empty_salt.rs: the store with no entry.
use salt_optimizations.Prelude.{none, some, []}
use salt_optimizations.Prelude.Result.{ok, err}
use salt_optimizations.Types.BucketMeta
use salt_optimizations.Types.Errors.{SaltError, unsupported_operation}
use salt_optimizations.Store.Traits.{StateReader, default_bucket_used_slots}

abbrev pub empty_salt : StateReader SaltError
empty_salt = record {
  value = λ key. ok none;
  entries = λ start end. ok [];
  metadata = λ bucket. ok (record BucketMeta.default { used = some 0 });
  bucket_used_slots = default_bucket_used_slots (λ start end. ok []);
  plain_value_fast = λ plain_key. err (unsupported_operation "EmptySalt::plain_value_fast");
}
