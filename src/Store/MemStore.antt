-- ===== src/Store/MemStore.antt =====
-- `MemStore` of salt/src/mem_store.rs. The read-write locks make each call one step.
use salt_optimizations.Prelude.{
  ℕ, ◌+◌, ◌-◌, ◌%◌, ◌&&◌, Option, none, some, List, [], ◌∷◌, ltb, leb, if◌then◌else◌,
}
use salt_optimizations.Prelude.Bytes.{Bytes}
use salt_optimizations.Prelude.Maps
use salt_optimizations.Prelude.Maps.{Map}
use salt_optimizations.Prelude.Result.{Res, ok, err, panic, and_then, or_panic}
use salt_optimizations.Constant.{u64_mod}
use salt_optimizations.Types.SaltKey.{
  SaltKey, BucketId, bucket_id, is_in_meta_bucket, is_valid_data_bucket, bucket_metadata_key,
}
use salt_optimizations.Types.SaltValue.{SaltValue}
use salt_optimizations.Types.BucketMeta
use salt_optimizations.Types.BucketMeta.{BucketMeta}
use salt_optimizations.Types.Errors.{SaltError, unsupported_operation}
use salt_optimizations.State.Updates.{Change, StateUpdates}
use salt_optimizations.Store.Traits.{StateReader}

pub record StateStore : Type 0 where
  pub kvs : Map SaltValue
  pub used_slots : Map ℕ

abbrev pub new : StateStore
new = record { kvs = []; used_slots = [] }

-- `unwrap_or(&0)`, and the value that `entry(…).or_insert(0)` finds.
unfoldable pub or_zero : Option ℕ → ℕ
or_zero none = 0
or_zero (some n) = n

-- `if let Some(count) = used_slots.get_mut(&bucket)`
unfoldable pub decrement : BucketId → Option ℕ → Map ℕ → Map ℕ
decrement bucket none used = used
decrement bucket (some count) used = Maps.insert bucket (count - 1) used

-- `(old_value.is_some(), new_value.is_some())` decides the count; an absent count stays absent on
-- a removal, and a count saturates at 0.
unfoldable pub recount : BucketId → Change → Map ℕ → Map ℕ
unfolding or_zero decrement
recount bucket (none, some _) used =
    Maps.insert bucket ((or_zero (Maps.get bucket used) + 1) % u64_mod) used
recount bucket (some _, none) used = decrement bucket (Maps.get bucket used) used
recount bucket _ used = used

unfoldable pub write : SaltKey → Option SaltValue → Map SaltValue → Map SaltValue
write key (some new_val) kvs = Maps.insert key new_val kvs
write key none kvs = Maps.remove key kvs

unfoldable pub update_entry : StateStore → SaltKey → Change → StateStore
unfolding recount write
update_entry state key change = record {
  kvs = write key change.1 state.kvs;
  used_slots =
      if is_in_meta_bucket key
      then state.used_slots
      else recount (bucket_id key) change state.used_slots;
}

unfoldable pub update_state : StateStore → StateUpdates → StateStore
update_state state [] = state
update_state state ((key, change) ∷ updates) = update_state (update_entry state key change) updates

-- `kvs.range(start..=end)`, where `start` is not after `end`.
unfoldable pub range {ℓ} : {V : Type ℓ} → ℕ → ℕ → Map V → Map V
range start end [] = []
range start end ((k, v) ∷ m) =
    let rest = range start end m in if leb start k && leb k end then (k, v) ∷ rest else rest

unfoldable pub value : StateStore → SaltKey → Res SaltError (Option SaltValue)
value state key = ok (Maps.get key state.kvs)

unfoldable pub entries : StateStore → SaltKey → SaltKey → Res SaltError (List (SaltKey × SaltValue))
unfolding range
entries state start end = if ltb end start then panic else ok (range start end state.kvs)

-- `Some(v) => v.try_into()?`, and the default for a bucket with no entry.
unfoldable pub meta_of : Option SaltValue → Res SaltError BucketMeta
meta_of (some v) = BucketMeta.from_value v
meta_of none = ok BucketMeta.default

unfoldable pub metadata : StateStore → BucketId → Res SaltError BucketMeta
unfolding meta_of or_zero
metadata state bucket = and_then (or_panic (bucket_metadata_key bucket)) λ key.
    and_then (meta_of (Maps.get key state.kvs))
      λ meta. ok (record meta { used = some (or_zero (Maps.get bucket state.used_slots)) })

unfoldable pub bucket_used_slots : StateStore → BucketId → Res SaltError ℕ
unfolding or_zero
bucket_used_slots state bucket =
    if is_valid_data_bucket bucket then ok (or_zero (Maps.get bucket state.used_slots)) else ok 0

unfoldable pub plain_value_fast : Bytes → Res SaltError SaltKey
plain_value_fast plain_key = err (unsupported_operation "MemStore::plain_value_fast")

-- `impl StateReader for MemStore`
abbrev pub reader : StateStore → StateReader SaltError
reader state = record {
  value = value state;
  entries = entries state;
  metadata = metadata state;
  bucket_used_slots = bucket_used_slots state;
  plain_value_fast = plain_value_fast;
}
