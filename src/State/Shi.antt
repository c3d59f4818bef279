-- ===== src/State/Shi.antt =====
-- The SHI hash table of a bucket (salt/src/state/state.rs): insertion with displacement and deletion
-- with compaction. A `for` loop recurs on the rounds that are left.
use Prim.Native.Nat.{Ordering}
use salt_optimizations.Prelude.{
  ℕ, zero, suc, ◌+◌, ◌-◌, ◌*◌, ◌/◌, ◌%◌, false, Option, some, none, ltb, if◌then◌else◌,
}
use salt_optimizations.Prelude.Bytes.{Bytes, cmp}
use salt_optimizations.Prelude.Result.{out_of_fuel, or_panic, Exec, pure, lift, ◌>>=◌, ◌>>◌}
use salt_optimizations.Constant.{u64_mod, bucket_resize_load_factor_pct}
use salt_optimizations.Types.SaltKey.{SaltKey, BucketId, SlotId, salt_key}
use salt_optimizations.Types.SaltValue
use salt_optimizations.Types.SaltValue.{SaltValue, value_eq}
use salt_optimizations.Types.BucketMeta.{BucketMeta}
use salt_optimizations.Store.Traits.{StateReader}
use salt_optimizations.State.Probe.{probe, rank, hash_with_nonce, compute_resize_capacity}
use salt_optimizations.State.Ephemeral.{
  Ephemeral, Session, on_state, attempt, value, metadata, usage_count, update_value, shi_find,
  direct_or_none,
}
use salt_optimizations.State.Rehash.{shi_rehash}

module _ {E : Type 0} (hash : Bytes → ℕ) (store : StateReader E) where
  -- `if let Ok(used) = self.usage_count(bucket_id)`, and the resize above the load factor.
  unfoldable pub resize_if_loaded : BucketId → BucketMeta → Option ℕ → Exec Session E (Unit {0})
  unfolding shi_rehash
  resize_if_loaded bucket meta none = pure tt
  resize_if_loaded bucket meta (some used) =
      if ltb (meta.capacity * bucket_resize_load_factor_pct % u64_mod / 100) used
      then (do
        new_capacity ← lift (compute_resize_capacity meta.capacity used)
        shi_rehash hash store bucket meta.nonce new_capacity)
      else pure tt

  unfoldable pub fill_empty :
      BucketId → BucketMeta → SaltKey → SaltValue → Exec Session E (Unit {0})
  unfolding resize_if_loaded
  fill_empty bucket meta key new_salt_val = do
    update_value key none (some new_salt_val)
    used ← on_state (attempt (usage_count hash store bucket))
    resize_if_loaded bucket meta used

  -- `match old_salt_val.key().cmp(new_salt_val.key())`; `rest` goes on with the value to insert.
  unfoldable pub displace :
      Ordering
      → SaltKey
      → SaltValue
      → SaltValue
      → (SaltValue → Exec Session E (Unit {0}))
      → Exec Session E (Unit {0})
  displace Ordering.eq key old_salt_val new_salt_val rest =
      update_value key (some old_salt_val) (some new_salt_val)
  displace Ordering.lt key old_salt_val new_salt_val rest = do
    update_value key (some old_salt_val) (some new_salt_val)
    rest old_salt_val
  displace Ordering.gt key old_salt_val new_salt_val rest = rest new_salt_val

  unfoldable pub upsert_slot :
      BucketId
      → BucketMeta
      → SaltKey
      → SaltValue
      → (SaltValue → Exec Session E (Unit {0}))
      → Option SaltValue
      → Exec Session E (Unit {0})
  unfolding fill_empty displace
  upsert_slot bucket meta key new_salt_val rest none = fill_empty bucket meta key new_salt_val
  upsert_slot bucket meta key new_salt_val rest (some old_salt_val) = do
    old_key ← lift (or_panic (SaltValue.key old_salt_val))
    new_key ← lift (or_panic (SaltValue.key new_salt_val))
    displace (cmp old_key new_key) key old_salt_val new_salt_val rest

  -- The probing loop; `full` is what follows a bucket with no empty slot.
  unfoldable pub upsert_loop :
      BucketId
      → BucketMeta
      → ℕ
      → (SaltValue → Exec Session E (Unit {0}))
      → ℕ
      → ℕ
      → SaltValue
      → Exec Session E (Unit {0})
  unfolding upsert_slot
  upsert_loop bucket meta hashed_key full zero step new_salt_val = full new_salt_val
  upsert_loop bucket meta hashed_key full (suc left) step new_salt_val =
      let key = salt_key bucket (probe hashed_key step meta.capacity) in
      let rest = upsert_loop bucket meta hashed_key full left (suc step) in
      on_state (value hash store key) >>= upsert_slot bucket meta key new_salt_val rest

  -- Forced expansion, and the insertion of what is still in hand by `again`.
  unfoldable pub expand :
      BucketId
      → BucketMeta
      → (Bytes → Bytes → Exec Session E (Unit {0}))
      → SaltValue
      → Exec Session E (Unit {0})
  expand bucket meta again new_salt_val = do
    new_capacity ← lift (compute_resize_capacity meta.capacity meta.capacity)
    shi_rehash hash store bucket meta.nonce new_capacity
    k ← lift (or_panic (SaltValue.key new_salt_val))
    v ← lift (or_panic (SaltValue.value new_salt_val))
    again k v

  unfoldable pub upsert_from :
      BucketId
      → Bytes
      → (Bytes → Bytes → Exec Session E (Unit {0}))
      → SaltValue
      → Option (SaltKey × SaltValue)
      → Exec Session E (Unit {0})
  unfolding upsert_loop expand
  upsert_from bucket plain_key again new_salt_val (some (key, old_salt_val)) =
      update_value key (some old_salt_val) (some new_salt_val)
  upsert_from bucket plain_key again new_salt_val none = do
    meta ← on_state (metadata hash store bucket false)
    upsert_loop bucket meta (hash_with_nonce hash plain_key meta.nonce) (expand bucket meta again)
        meta.capacity 0 new_salt_val

  -- The fuel counts the forced expansions.
  unfoldable pub shi_upsert : ℕ → BucketId → Bytes → Bytes → Exec Session E (Unit {0})
  unfolding upsert_from
  shi_upsert zero bucket plain_key plain_val = lift out_of_fuel
  shi_upsert (suc fuel) bucket plain_key plain_val = do
    new_salt_val ← lift (or_panic (SaltValue.encode plain_key plain_val))
    direct ← on_state (direct_or_none hash store plain_key)
    upsert_from bucket plain_key (shi_upsert fuel bucket) new_salt_val direct

  -- `rank(ideal, next) > rank(ideal, del)`, or on to the next slot.
  unfoldable pub next_slot :
      ℕ
      → ℕ
      → SlotId
      → SlotId
      → Exec Ephemeral E (Option (SlotId × SaltValue))
      → Option SaltValue
      → Exec Ephemeral E (Option (SlotId × SaltValue))
  next_slot nonce capacity del_slot slot rest none = pure none
  next_slot nonce capacity del_slot slot rest (some salt_val) = do
    k ← lift (or_panic (SaltValue.key salt_val))
    let ideal_slot = hash_with_nonce hash k nonce
    if ltb (rank ideal_slot del_slot capacity) (rank ideal_slot slot capacity)
        then pure (some (slot, salt_val))
        else rest

  unfoldable pub next_loop :
      BucketId → SlotId → ℕ → ℕ → ℕ → ℕ → Exec Ephemeral E (Option (SlotId × SaltValue))
  unfolding next_slot
  next_loop bucket del_slot nonce capacity zero i = pure none
  next_loop bucket del_slot nonce capacity (suc left) i =
      let slot = probe del_slot i capacity in
      let rest = next_loop bucket del_slot nonce capacity left (suc i) in
      value hash store (salt_key bucket slot) >>= next_slot nonce capacity del_slot slot rest

  unfoldable pub shi_next :
      BucketId → SlotId → ℕ → ℕ → Exec Ephemeral E (Option (SlotId × SaltValue))
  unfolding next_loop
  shi_next bucket del_slot nonce capacity =
      next_loop bucket del_slot nonce capacity (capacity - 1) 1

  -- `match suitable_slot`; `rest` goes on with the gap that the moved entry left.
  unfoldable pub fill_gap :
      BucketId
      → SlotId
      → SaltValue
      → (SlotId → SaltValue → Exec Session E (Unit {0}))
      → Option (SlotId × SaltValue)
      → Exec Session E (Unit {0})
  fill_gap bucket del_slot del_value rest none =
      update_value (salt_key bucket del_slot) (some del_value) none
  fill_gap bucket del_slot del_value rest (some (slot, salt_value)) = do
    update_value (salt_key bucket del_slot) (some del_value) (some salt_value)
    rest slot salt_value

  -- The `loop` of `shi_delete`, with fuel.
  unfoldable pub delete_loop :
      BucketId → BucketMeta → ℕ → SlotId → SaltValue → Exec Session E (Unit {0})
  unfolding shi_next fill_gap
  delete_loop bucket meta zero del_slot del_value = lift out_of_fuel
  delete_loop bucket meta (suc fuel) del_slot del_value =
      let rest = delete_loop bucket meta fuel in
      on_state (shi_next bucket del_slot meta.nonce meta.capacity)
      >>= fill_gap bucket del_slot del_value rest

  unfoldable pub delete_found :
      BucketId → BucketMeta → Option (SlotId × SaltValue) → Exec Session E (Unit {0})
  unfolding delete_loop
  delete_found bucket meta none = pure tt
  delete_found bucket meta (some (slot, salt_val)) =
      delete_loop bucket meta (meta.capacity * meta.capacity + 1) slot salt_val

  unfoldable pub shi_delete : BucketId → Bytes → Exec Session E (Unit {0})
  unfolding delete_found
  shi_delete bucket key = do
    meta ← on_state (metadata hash store bucket false)
    found ← on_state (shi_find hash store bucket meta.nonce meta.capacity key)
    delete_found bucket meta found
