-- ===== src/State/Rehash.antt =====
-- Rehashing a bucket (`shi_rehash` of salt/src/state/state.rs): its entries are read, placed anew in
-- falling order of their keys, and the differences recorded slot by slot. A `for` loop recurs on the
-- rounds that are left.
use Prim.Native.Nat.{Ordering, max}
use mathlib.Core.List.{reverse}
use salt_optimizations.Prelude.{
  ℕ, zero, suc, true, not, ◌||◌, Option, some, none, List, [], ◌∷◌, length, ltb, leb, ◌==◌,
  if◌then◌else◌,
}
use salt_optimizations.Prelude.Bytes.{Bytes, cmp}
use salt_optimizations.Prelude.Maps
use salt_optimizations.Prelude.Maps.{Map}
use salt_optimizations.Prelude.Result.{
  ok, err, panic, out_of_fuel, or_panic, Exec, pure, lift, modify, ◌>>=◌, ◌>>◌,
}
use salt_optimizations.Constant.{bucket_slot_id_mask}
use salt_optimizations.Types.SaltKey.{SaltKey, BucketId, SlotId, salt_key, bucket_metadata_key}
use salt_optimizations.Types.SaltValue
use salt_optimizations.Types.SaltValue.{SaltValue, value_eq}
use salt_optimizations.Types.BucketMeta
use salt_optimizations.Types.BucketMeta.{BucketMeta}
use salt_optimizations.Store.Traits.{StateReader}
use salt_optimizations.State.Updates.{add}
use salt_optimizations.State.Probe.{probe, hash_with_nonce}
use salt_optimizations.State.Ephemeral.{
  Ephemeral, Session, on_state, set_cache, value, metadata, update_value,
}

-- `BTreeMap` from plain keys to plain values, in the order of its keys.
unfoldable pub insert_plain : Bytes → Bytes → List (Bytes × Bytes) → List (Bytes × Bytes)
insert_plain k v [] = (k, v) ∷ []
insert_plain k v ((j, w) ∷ m) =
    let later = (j, w) ∷ insert_plain k v m in
    elim (cmp k j) [
      | Ordering.lt ↦ (k, v) ∷ (j, w) ∷ m
      | Ordering.eq ↦ (k, v) ∷ m
      | Ordering.gt ↦ later
    ]

-- `old_bucket.values().map(…).collect()`
unfoldable pub plain_kv_pairs : Map SaltValue → List (Bytes × Bytes) → Option (List (Bytes × Bytes))
plain_kv_pairs [] acc = some acc
plain_kv_pairs ((_, salt_val) ∷ rest) acc = elim (SaltValue.key salt_val) [
  | none ↦ none
  | some k ↦ elim (SaltValue.value salt_val) [
    | none ↦ none
    | some v ↦ plain_kv_pairs rest (insert_plain k v acc)
  ]
]

-- The first vacant slot takes the value; with none, the value is left out.
unfoldable pub place : ℕ → ℕ → BucketId → ℕ → ℕ → SaltValue → Map SaltValue → Map SaltValue
place zero step bucket capacity hashed_key salt_val new_bucket = new_bucket
place (suc left) step bucket capacity hashed_key salt_val new_bucket =
    let key = salt_key bucket (probe hashed_key step capacity) in
    let rest = place left (suc step) bucket capacity hashed_key salt_val new_bucket in
    elim (Maps.get key new_bucket) [ none ↦ Maps.insert key salt_val new_bucket | some _ ↦ rest ]

-- `(slot < capacity).then(|| bucket.get(&salt_key)).flatten()`
unfoldable pub slot_value : SlotId → ℕ → SaltKey → Map SaltValue → Option SaltValue
slot_value slot capacity key bucket = if ltb slot capacity then Maps.get key bucket else none

-- `HashSet::insert`
unfoldable pub insert_bucket : BucketId → List BucketId → List BucketId
insert_bucket bucket [] = bucket ∷ []
insert_bucket bucket (b ∷ buckets) =
    let later = b ∷ insert_bucket bucket buckets in if b == bucket then b ∷ buckets else later

module _ {E : Type 0} (hash : Bytes → ℕ) (store : StateReader E) where
  -- Steps 3 and 4 of `shi_rehash`: the pairs in falling order of their keys.
  unfoldable pub place_all :
      BucketId → ℕ → ℕ → List (Bytes × Bytes) → Map SaltValue → Option (Map SaltValue)
  unfolding place
  place_all bucket nonce capacity [] new_bucket = some new_bucket
  place_all bucket nonce capacity ((k, v) ∷ pairs) new_bucket = elim (SaltValue.encode k v) [
    | none ↦ none
    | some salt_val ↦
        place_all bucket nonce capacity pairs
          (place capacity 0 bucket capacity (hash_with_nonce hash k nonce) salt_val new_bucket)
  ]

  -- Step 1: the entries of the slots from `slot` on.
  unfoldable pub collect : BucketId → ℕ → SlotId → Map SaltValue → Exec Ephemeral E (Map SaltValue)
  collect bucket zero slot old_bucket = pure old_bucket
  collect bucket (suc left) slot old_bucket = do
    found ← value hash store (salt_key bucket slot)
    collect bucket left (suc slot) (elim found [
      | none ↦ old_bucket
      | some v ↦ Maps.insert (salt_key bucket slot) v old_bucket
    ])

  -- Step 5, one slot.
  unfoldable pub record_slot :
      BucketId → SlotId → ℕ → Option SaltValue → Option SaltValue → Exec Session E (Unit {0})
  record_slot bucket slot old_capacity old_value new_value s =
      let key = salt_key bucket slot in
      let changed = not (value_eq old_value new_value) in
      let state =
        if changed || leb old_capacity slot then set_cache key new_value s.state else s.state in
      if changed
      then elim (add s.out_updates key old_value new_value) [
        | ok updates ↦ (ok tt, record { state = state; out_updates = updates })
        | err e ↦ (err e, record s { state = state })
        | panic ↦ (panic, record s { state = state })
        | out_of_fuel ↦ (out_of_fuel, record s { state = state })
      ]
      else (ok tt, record s { state = state })

  unfoldable pub record_slots :
      BucketId → ℕ → ℕ → Map SaltValue → Map SaltValue → ℕ → SlotId → Exec Session E (Unit {0})
  unfolding record_slot slot_value
  record_slots bucket old_capacity new_capacity old_bucket new_bucket zero slot = pure tt
  record_slots bucket old_capacity new_capacity old_bucket new_bucket (suc left) slot = do
    let key = salt_key bucket slot
    record_slot bucket slot old_capacity (slot_value slot old_capacity key old_bucket)
        (slot_value slot new_capacity key new_bucket)
    record_slots bucket old_capacity new_capacity old_bucket new_bucket left (suc slot)

  -- The end of `shi_rehash`, where the entries fit.
  unfoldable pub rebuild : BucketId → ℕ → ℕ → BucketMeta → Map SaltValue → Exec Session E (Unit {0})
  unfolding place_all plain_kv_pairs record_slots insert_bucket
  rebuild bucket new_nonce new_capacity old_metadata old_bucket = do
    pairs ← lift (or_panic (plain_kv_pairs old_bucket []))
    new_bucket ← lift (or_panic (place_all bucket new_nonce new_capacity (reverse pairs) []))
    let old_capacity = old_metadata.capacity
    record_slots bucket old_capacity new_capacity old_bucket new_bucket
        (max old_capacity new_capacity) 0
    let new_metadata : BucketMeta = record old_metadata {
      nonce = new_nonce;
      capacity = new_capacity;
    }
    key ← lift (or_panic (bucket_metadata_key bucket))
    old_value ← lift (or_panic (BucketMeta.to_value old_metadata))
    new_value ← lift (or_panic (BucketMeta.to_value new_metadata))
    update_value key (some old_value) (some new_value)
    modify (λ s. record s {
      state = record s.state { rehashed_buckets = insert_bucket bucket s.state.rehashed_buckets };
    })

  unfoldable pub shi_rehash : BucketId → ℕ → ℕ → Exec Session E (Unit {0})
  unfolding collect rebuild
  shi_rehash bucket new_nonce new_capacity =
      if leb new_capacity bucket_slot_id_mask
      then (do
        old_metadata ← on_state (metadata hash store bucket true)
        old_bucket ← on_state (collect bucket old_metadata.capacity 0 [])
        if ltb new_capacity (length old_bucket)
            then pure tt
            else rebuild bucket new_nonce new_capacity old_metadata old_bucket)
      else lift panic
