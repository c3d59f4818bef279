-- ===== src/State/Batch.antt =====
-- Batches of plain updates (salt/src/state/state.rs): `update`, `canonicalize`, `update_fin` and
-- `set_nonce`, each with the `StateUpdates` that it returns; and `PlainStateProvider`.
use salt_optimizations.Prelude.{
  ℕ, zero, suc, ◌-◌, ◌%◌, false, Option, some, none, List, [], ◌∷◌, ◌++◌, length,
}
use salt_optimizations.Prelude.Bytes.{Bytes}
use salt_optimizations.Prelude.Result.{
  Res, ok, or_panic, and_then, Exec, pure, lift, gets, modify, ◌>>=◌, ◌>>◌,
}
use salt_optimizations.Constant.{u64_mod}
use salt_optimizations.Types.SaltKey.{SaltKey, BucketId, SlotId, salt_key, bucket_metadata_key}
use salt_optimizations.Types.SaltValue
use salt_optimizations.Types.SaltValue.{SaltValue}
use salt_optimizations.Types.BucketMeta
use salt_optimizations.Types.BucketMeta.{BucketMeta}
use salt_optimizations.Store.Traits.{StateReader}
use salt_optimizations.State.Updates.{StateUpdates, add, try_merge, unwrap_or_panic}
use salt_optimizations.State.Probe.{bucket_of}
use salt_optimizations.State.Search.{shi_search}
use salt_optimizations.State.Ephemeral.{
  Ephemeral, Session, on_state, set_cache, clear_cache, add_delta, value, metadata,
}
use salt_optimizations.State.Rehash.{shi_rehash}
use salt_optimizations.State.Shi.{shi_upsert, shi_delete}

-- An insertion has two rounds: the second follows a forced expansion of the bucket.
abbrev pub upsert_fuel : ℕ
upsert_fuel = 2

-- A method that starts from empty updates and returns them.
unfoldable pub collecting : {E : Type 0} → Exec Session E (Unit {0}) → Exec Ephemeral E StateUpdates
collecting m state =
    let (r, s) = m (record { state = state; out_updates = [] }) in
    (and_then r (λ _. ok s.out_updates), s.state)

-- `updates.add(key, old, new)`
unfoldable pub add_update :
    {E : Type 0} → SaltKey → Option SaltValue → Option SaltValue → Exec Session E (Unit {0})
add_update key old_value new_value = do
  updates ← gets (λ s. s.out_updates)
  updates' ← lift (add updates key old_value new_value)
  modify (λ s. record s { out_updates = updates' })

abbrev pub on_cache : {E : Type 0} → (Ephemeral → Ephemeral) → Exec Session E (Unit {0})
on_cache f = modify (λ s. record s { state = f s.state })

module _ {E : Type 0} (hash : Bytes → ℕ) (store : StateReader E) where
  unfoldable pub update_kv : Bytes → Option Bytes → Exec Session E (Unit {0})
  update_kv plain_key (some plain_val) =
      shi_upsert hash store upsert_fuel (bucket_of hash plain_key) plain_key plain_val
  update_kv plain_key none = shi_delete hash store (bucket_of hash plain_key) plain_key

  unfoldable pub update_kvs : List (Bytes × Option Bytes) → Exec Session E (Unit {0})
  unfolding update_kv
  update_kvs [] = pure tt
  update_kvs ((plain_key, plain_val) ∷ kvs) = update_kv plain_key plain_val >> update_kvs kvs

  unfoldable pub update : List (Bytes × Option Bytes) → Exec Ephemeral E StateUpdates
  unfolding collecting update_kvs
  update kvs = collecting (update_kvs kvs)

  -- One slot is read, cleared, and kept for the replay.
  unfoldable pub clear_slot :
      BucketId → SlotId → List SaltValue → Option SaltValue → Exec Session E (List SaltValue)
  unfolding add_update
  clear_slot bucket slot kept none = pure kept
  clear_slot bucket slot kept (some v) = do
    on_cache (set_cache (salt_key bucket slot) none)
    add_update (salt_key bucket slot) (some v) none
    pure (kept ++ (v ∷ []))

  unfoldable pub clear_slots :
      BucketId → ℕ → SlotId → List SaltValue → Exec Session E (List SaltValue)
  unfolding clear_slot
  clear_slots bucket zero slot kept = pure kept
  clear_slots bucket (suc left) slot kept = do
    found ← on_state (value hash store (salt_key bucket slot))
    kept' ← clear_slot bucket slot kept found
    clear_slots bucket left (suc slot) kept'

  unfoldable pub replay : BucketId → List SaltValue → Exec Session E (Unit {0})
  replay bucket [] = pure tt
  replay bucket (v ∷ kept) = do
    key ← lift (or_panic (SaltValue.key v))
    val ← lift (or_panic (SaltValue.value v))
    shi_upsert hash store upsert_fuel bucket key val
    replay bucket kept

  unfoldable pub canonicalize_bucket : BucketId → Exec Session E (Unit {0})
  unfolding clear_slots add_update replay
  canonicalize_bucket bucket = do
    old_metadata ← on_state (metadata hash store bucket false)
    kept ← clear_slots bucket old_metadata.capacity 0 []
    key ← lift (or_panic (bucket_metadata_key bucket))
    on_cache (clear_cache key)
    new_metadata ← on_state (metadata hash store bucket false)
    old_value ← lift (or_panic (BucketMeta.to_value old_metadata))
    new_value ← lift (or_panic (BucketMeta.to_value new_metadata))
    add_update key (some old_value) (some new_value)
    on_cache (add_delta bucket ((u64_mod - length kept) % u64_mod))
    replay bucket kept

  unfoldable pub canonicalize_all : List BucketId → Exec Session E (Unit {0})
  unfolding canonicalize_bucket
  canonicalize_all [] = pure tt
  canonicalize_all (bucket ∷ buckets) = canonicalize_bucket bucket >> canonicalize_all buckets

  -- `mem::take` empties the set before the first bucket.
  unfoldable pub canonicalize : Exec Ephemeral E StateUpdates
  unfolding canonicalize_all collecting
  canonicalize = do
    buckets ← gets (λ s. s.rehashed_buckets)
    modify (λ s. record s { rehashed_buckets = [] })
    updates ← collecting (canonicalize_all buckets)
    modify (λ s. record s { rehashed_buckets = [] })
    pure updates

  unfoldable pub update_fin : List (Bytes × Option Bytes) → Exec Ephemeral E StateUpdates
  unfolding update canonicalize unwrap_or_panic
  update_fin kvs = do
    updates ← update kvs
    canonical ← canonicalize
    let (merged, r) = try_merge updates canonical
    lift (unwrap_or_panic r)
    pure merged

  unfoldable pub set_nonce : BucketId → ℕ → Exec Ephemeral E StateUpdates
  unfolding collecting
  set_nonce bucket new_nonce = do
    meta ← metadata hash store bucket false
    collecting (shi_rehash hash store bucket new_nonce meta.capacity)

  -- `PlainStateProvider::plain_value_and_slot`
  unfoldable pub plain_value_and_slot :
      Bytes → Option BucketId → Res E (Option (SlotId × SaltValue))
  plain_value_and_slot plain_key hint =
      let bucket : BucketId = elim hint [ none ↦ bucket_of hash plain_key | some b ↦ b ] in
      and_then (store.metadata bucket) λ meta.
        (shi_search {S = Unit {0}} hash bucket meta.nonce meta.capacity plain_key
          (λ key. lift (store.value key)) tt).0

  -- `PlainStateProvider::plain_value`
  unfoldable pub provider_plain_value : Bytes → Option BucketId → Res E (Option Bytes)
  unfolding plain_value_and_slot
  provider_plain_value plain_key hint = and_then (plain_value_and_slot plain_key hint) λ found.
      elim found [
        | none ↦ ok none
        | some (slot, salt_val) ↦ and_then (or_panic (SaltValue.value salt_val)) (λ v. ok (some v))
      ]
