-- ===== src/State/Ephemeral.antt =====
-- `EphemeralSaltState` of salt/src/state/state.rs: a cache of reads and writes over a store, the
-- change of each bucket's occupancy, and the methods that read or write one entry. A method is an
-- action on the state; one that also records its changes is an action on a `Session`.
use salt_optimizations.Prelude.{
  ℕ, ◌+◌, ◌-◌, ◌%◌, ◌^◌, Bool, true, false, Option, some, none, List, [], ltb, ◌==◌, if◌then◌else◌,
}
use salt_optimizations.Prelude.Bytes.{Bytes, bytes_eq}
use salt_optimizations.Prelude.Result.{
  Res, ok, err, panic, out_of_fuel, or_panic, Exec, pure, lift, gets, modify, ◌>>=◌, ◌>>◌,
}
use salt_optimizations.Constant.{u64_mod}
use salt_optimizations.Types.SaltKey.{
  SaltKey, BucketId, SlotId, salt_key, bucket_id, bucket_metadata_key,
}
use salt_optimizations.Types.SaltValue
use salt_optimizations.Types.SaltValue.{SaltValue, value_eq}
use salt_optimizations.Types.BucketMeta
use salt_optimizations.Types.BucketMeta.{BucketMeta}
use salt_optimizations.Store.Traits.{StateReader}
use salt_optimizations.State.Updates.{StateUpdates, add, unwrap_or_panic}
use salt_optimizations.State.Probe.{bucket_of}
use salt_optimizations.State.Search.{shi_search}

-- The hash maps are functions. A count's delta, an `i64`, is its two's complement pattern. The set
-- of rehashed buckets is a list, whose order stands for the order in which the set is walked.
pub record Ephemeral : Type 0 where
  pub cache : SaltKey → Option (Option SaltValue)
  pub usage_count_delta : BucketId → Option ℕ
  pub rehashed_buckets : List BucketId
  pub cache_read : Bool

-- `EphemeralSaltState::new`, and the builder `cache_read`.
abbrev pub new : Ephemeral
new = record {
  cache = λ key. none;
  usage_count_delta = λ bucket. none;
  rehashed_buckets = [];
  cache_read = false;
}

unfoldable pub with_cache_read : Ephemeral → Ephemeral
with_cache_read s = record s { cache_read = true }

-- The state with the `out_updates` that the writing methods take beside it.
pub record Session : Type 0 where
  pub state : Ephemeral
  pub out_updates : StateUpdates

module _ {E A : Type 0} where
  -- A method that leaves `out_updates` alone.
  abbrev pub on_state : Exec Ephemeral E A → Exec Session E A
  on_state m s = let (r, state) = m s.state in (r, record s { state = state })

  -- `if let Ok(a) = …`: an error is dropped, and what was written stays.
  abbrev dropped : Res E A → Res E (Option A)
  dropped (ok a) = ok (some a)
  dropped (err e) = ok none
  dropped panic = panic
  dropped out_of_fuel = out_of_fuel

module _ {S E A : Type 0} where
  abbrev pub attempt : Exec S E A → Exec S E (Option A)
  attempt m s = let (r, s') = m s in (dropped r, s')

abbrev pub set_cache : SaltKey → Option SaltValue → Ephemeral → Ephemeral
set_cache key v s = record s { cache = λ q. if key == q then some v else s.cache q }

abbrev pub clear_cache : SaltKey → Ephemeral → Ephemeral
clear_cache key s = record s { cache = λ q. if key == q then none else s.cache q }

-- A pattern of 64 bits as the delta of a bucket, 0 where there is none.
unfoldable pub delta_of : Ephemeral → BucketId → ℕ
delta_of s bucket = elim (s.usage_count_delta bucket) [ none ↦ 0 | some d ↦ d ]

-- `*entry(bucket).or_insert(0) += delta`
unfoldable pub add_delta : BucketId → ℕ → Ephemeral → Ephemeral
unfolding delta_of
add_delta bucket delta s =
    let sum = (delta_of s bucket + delta) % u64_mod in
    record s { usage_count_delta = λ b. if bucket == b then some sum else s.usage_count_delta b }

-- `value.is_some() as i64`
abbrev pub present : Option SaltValue → ℕ
present none = 0
present (some v) = 1

-- `update_value` where the two values differ.
unfoldable pub write_change :
    {E : Type 0} → SaltKey → Option SaltValue → Option SaltValue → Exec Session E (Unit {0})
unfolding add_delta unwrap_or_panic
write_change key old_value new_value s =
    let delta = (present new_value + u64_mod - present old_value) % u64_mod in
    let counted = if delta == 0 then s.state else add_delta (bucket_id key) delta s.state in
    elim (add s.out_updates key old_value new_value) [
      | ok updates ↦
          (ok tt, record { state = set_cache key new_value counted; out_updates = updates })
      | err e ↦ (err e, record s { state = counted })
      | panic ↦ (panic, record s { state = counted })
      | out_of_fuel ↦ (out_of_fuel, record s { state = counted })
    ]

unfoldable pub update_value :
    {E : Type 0} → SaltKey → Option SaltValue → Option SaltValue → Exec Session E (Unit {0})
unfolding write_change
update_value key old_value new_value =
    if value_eq old_value new_value then pure tt else write_change key old_value new_value

-- `try_into().expect(…)` of an error.
unfoldable pub expect : {E F A : Type 0} → Res E A → Res F A
expect (ok a) = ok a
expect _ = panic

module _ {E : Type 0} (hash : Bytes → ℕ) (store : StateReader E) where
  -- `Entry::Vacant` of `value`.
  unfoldable pub fetch : SaltKey → Exec Ephemeral E (Option SaltValue)
  fetch key = do
    v ← lift (store.value key)
    modify (λ s. if s.cache_read then set_cache key v s else s)
    pure v

  unfoldable pub value_entry :
      SaltKey → Option (Option SaltValue) → Exec Ephemeral E (Option SaltValue)
  unfolding fetch
  value_entry key (some v) = pure v
  value_entry key none = fetch key

  unfoldable pub value : SaltKey → Exec Ephemeral E (Option SaltValue)
  unfolding value_entry
  value key = do cached ← gets (λ s. s.cache key); value_entry key cached

  -- A sum that is negative as an `i64` does not convert to a `u64`.
  unfoldable pub usage_count : BucketId → Exec Ephemeral E ℕ
  unfolding delta_of
  usage_count bucket = do
    base_count ← lift (store.bucket_used_slots bucket)
    delta ← gets (λ s. delta_of s bucket)
    let result = (base_count + delta) % u64_mod
    lift (if ltb result (2 ^ 63) then ok result else panic)

  -- What is cached for metadata read from the store.
  unfoldable pub cached_meta : BucketMeta → Res E (Option SaltValue)
  cached_meta meta =
      if BucketMeta.is_default meta
      then ok none
      else elim (BucketMeta.to_value meta) [ none ↦ panic | some v ↦ ok (some v) ]

  unfoldable pub metadata_entry :
      BucketId → SaltKey → Option (Option SaltValue) → Exec Ephemeral E BucketMeta
  unfolding cached_meta expect
  metadata_entry bucket key (some (some v)) = lift (expect (BucketMeta.from_value v))
  metadata_entry bucket key (some none) = pure BucketMeta.default
  metadata_entry bucket key none = do
    meta ← lift (store.metadata bucket)
    reading ← gets (λ s. s.cache_read)
    if reading
        then (do v ← lift (cached_meta meta); modify (set_cache key v); pure meta)
        else pure meta

  unfoldable pub metadata : BucketId → Bool → Exec Ephemeral E BucketMeta
  unfolding metadata_entry usage_count
  metadata bucket need_used = do
    key ← lift (or_panic (bucket_metadata_key bucket))
    cached ← gets (λ s. s.cache key)
    meta ← metadata_entry bucket key cached
    if need_used
        then (do count ← usage_count bucket; pure (record meta { used = some count }))
        else pure (record meta { used = none })

  unfoldable pub shi_find :
      BucketId → ℕ → ℕ → Bytes → Exec Ephemeral E (Option (SlotId × SaltValue))
  unfolding shi_search value
  shi_find bucket nonce capacity plain_key = shi_search hash bucket nonce capacity plain_key value

  -- The entry at the place that the store names, if it holds the key.
  unfoldable pub direct_match :
      Bytes → SaltKey → Option SaltValue → Exec Ephemeral E (Option (SaltKey × SaltValue))
  direct_match plain_key key none = pure none
  direct_match plain_key key (some salt_val) = do
    k ← lift (or_panic (SaltValue.key salt_val))
    pure (if bytes_eq k plain_key then some (key, salt_val) else none)

  unfoldable pub direct_at :
      Bytes → Option SaltKey → Exec Ephemeral E (Option (SaltKey × SaltValue))
  unfolding value direct_match
  direct_at plain_key none = pure none
  direct_at plain_key (some key) = do found ← value key; direct_match plain_key key found

  unfoldable pub direct_find : Bytes → Exec Ephemeral E (Option (SaltKey × SaltValue))
  unfolding direct_at
  direct_find plain_key = do
    place ← attempt (lift (store.plain_value_fast plain_key))
    direct_at plain_key place

  -- `if let Ok(Some(found)) = self.direct_find(plain_key)`
  unfoldable pub direct_or_none : Bytes → Exec Ephemeral E (Option (SaltKey × SaltValue))
  unfolding direct_find
  direct_or_none plain_key = do
    tried ← attempt (direct_find plain_key)
    pure (elim tried [ none ↦ none | some found ↦ found ])

  unfoldable pub find_or_search :
      Bytes → Option (SaltKey × SaltValue) → Exec Ephemeral E (Option (SaltKey × SaltValue))
  unfolding metadata shi_find bucket_of
  find_or_search plain_key (some found) = pure (some found)
  find_or_search plain_key none = do
    let bucket = bucket_of hash plain_key
    meta ← metadata bucket false
    found ← shi_find bucket meta.nonce meta.capacity plain_key
    pure
        (elim found [ none ↦ none | some (slot, salt_val) ↦ some (salt_key bucket slot, salt_val) ])

  unfoldable pub find : Bytes → Exec Ephemeral E (Option (SaltKey × SaltValue))
  unfolding direct_or_none find_or_search
  find plain_key = do direct ← direct_or_none plain_key; find_or_search plain_key direct

  unfoldable pub value_of_found : Option (SaltKey × SaltValue) → Exec Ephemeral E (Option Bytes)
  value_of_found none = pure none
  value_of_found (some (key, salt_val)) = do
    bytes ← lift (or_panic (SaltValue.value salt_val))
    pure (some bytes)

  unfoldable pub plain_value : Bytes → Exec Ephemeral E (Option Bytes)
  unfolding find value_of_found
  plain_value plain_key = do found ← find plain_key; value_of_found found
