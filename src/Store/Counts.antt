-- ===== src/Store/Counts.antt =====
-- The cached counts of occupied slots of `MemStore` (salt/src/mem_store.rs).
use salt_optimizations.Prelude.{
  ℕ, ◌+◌, ◌-◌, ◌%◌, ◌^◌, ◌≤◌, ◌<◌, ◌≡◌, refl, ap, false, Option, none, some, [], ◌∷◌, arith,
  Bool-cases, ltb→lt, ltb, inl, inr, ◌==◌, length, if◌then◌else◌,
}
use salt_optimizations.Prelude.Maps
use salt_optimizations.Prelude.Maps.{Map, IsSorted, Above}
use salt_optimizations.Prelude.Result.{ok, ok-injective}
use salt_optimizations.Constant.{bucket_slot_id_mask, num_meta_buckets}
use salt_optimizations.Types.SaltKey.{
  SaltKey, BucketId, bucket_id, is_in_meta_bucket, is_valid_data_bucket, salt_key,
}
use salt_optimizations.Types.SaltValue.{SaltValue}
use salt_optimizations.Types.Errors.{SaltError}
use salt_optimizations.State.Updates.{Change, StateUpdates}
use salt_optimizations.State.Updates.Chain.{View, put, Tracked, Tracks, Tracks-congr}
use salt_optimizations.State.Updates.Merge.{tail-Tracks}
use salt_optimizations.Types.Packing.{one_bucket_range}
use salt_optimizations.Store.MemStore.{
  StateStore, value, write, update_entry, update_state, recount, decrement, or_zero,
  bucket_used_slots, entries, range,
}
use salt_optimizations.Store.Apply.{write-IsSorted, value-update_entry}
use salt_optimizations.Store.Traits.{default_bucket_used_slots}

-- The entries of a bucket.
unfoldable pub count : BucketId → Map SaltValue → ℕ
count b [] = 0
count b ((k, v) ∷ m) = let rest = count b m in if bucket_id k == b then rest + 1 else rest

abbrev one_at : BucketId → SaltKey → Option SaltValue → ℕ
one_at b k none = 0
one_at b k (some v) = if bucket_id k == b then 1 else 0

count-insert :
    (b : BucketId) (k : SaltKey) (v : SaltValue) (m : Map SaltValue)
    → IsSorted m
    → count b (Maps.insert k v m) + one_at b k (Maps.get k m) ≡ count b m + one_at b k (some v)
unfolding count Maps.insert Maps.get
count-insert b k v [] s = ground arith
count-insert b k v ((j, w) ∷ m) s =
    ground (arith, Maps.get-Above j k m s, count-insert b k v m (Maps.Above-IsSorted j m s))

count-remove :
    (b : BucketId) (k : SaltKey) (m : Map SaltValue)
    → IsSorted m
    → count b (Maps.remove k m) + one_at b k (Maps.get k m) ≡ count b m
unfolding count Maps.remove Maps.get
count-remove b k [] s = ground arith
count-remove b k ((j, w) ∷ m) s =
    ground (arith, Maps.get-Above j k m s, count-remove b k m (Maps.Above-IsSorted j m s))

count-write :
    (b : BucketId) (k : SaltKey) (v : Option SaltValue) (m : Map SaltValue)
    → IsSorted m
    → count b (write k v m) + one_at b k (Maps.get k m) ≡ count b m + one_at b k v
unfolding write
count-write b k none m s = omega (arith, count-remove b k m s)
count-write b k (some v) m s = count-insert b k v m s

-- The cached count of each data bucket is the number of its entries, and the keys rise.
pub record IsCounted (state : StateStore) : Type 0 where
  pub sorted : IsSorted state.kvs
  pub exact :
      (b : BucketId)
      → num_meta_buckets ≤ b
      → or_zero (Maps.get b state.used_slots) ≡ count b state.kvs

recount_down :
    (b : BucketId) (k : SaltKey) (v : SaltValue) (used : Map ℕ) (o : Option ℕ)
    → Maps.get (bucket_id k) used ≡ o
    → one_at (bucket_id k) k (some v) ≤ or_zero o
    → or_zero (Maps.get b (decrement (bucket_id k) o used)) + one_at b k (some v)
      ≡ or_zero (Maps.get b used) + 0
unfolding decrement or_zero
recount_down b k v used none e l = ground arith
recount_down b k v used (some n) e l = ground (arith, Maps.get-insert (bucket_id k) b (n - 1) used)

meta_bound : (k : SaltKey) → is_in_meta_bucket k ≡ false → num_meta_buckets ≤ bucket_id k
unfolding is_in_meta_bucket
meta_bound k h = ground arith

-- The counts after one entry.
recount-exact :
    (b : BucketId) (k : SaltKey) (c : Change) (used : Map ℕ)
    → or_zero (Maps.get (bucket_id k) used) + 1 < 2 ^ 64
    → one_at (bucket_id k) k c.0 ≤ or_zero (Maps.get (bucket_id k) used)
    → or_zero (Maps.get b (recount (bucket_id k) c used)) + one_at b k c.0
      ≡ or_zero (Maps.get b used) + one_at b k c.1
unfolding recount
recount-exact b k (none, none) used h l = refl
recount-exact b k (none, some v) used h l = ground (
  arith,
  Maps.get-insert (bucket_id k) b ((or_zero (Maps.get (bucket_id k) used) + 1) % 2 ^ 64) used,
)
recount-exact b k (some v, none) used h l =
    recount_down b k v used (Maps.get (bucket_id k) used) refl l
recount-exact b k (some v, some w) used h l = ground arith

one_at-le-count :
    (b : BucketId) (k : SaltKey) (m : Map SaltValue) → one_at b k (Maps.get k m) ≤ count b m
unfolding count Maps.get
one_at-le-count b k [] = omega arith
one_at-le-count b k ((j, w) ∷ m) = ground (arith, one_at-le-count b k m)

module _ (state : StateStore) (k : SaltKey) (c : Change) (v : IsCounted state)
    (current : Maps.get k state.kvs ≡ c.0) where
  written :
      (b : BucketId)
      → count b (write k c.1 state.kvs) + one_at b k c.0 ≡ count b state.kvs + one_at b k c.1
  written b = rw current at (count-write b k c.1 state.kvs v.sorted)

  present_counted : (b : BucketId) → one_at b k c.0 ≤ count b state.kvs
  present_counted b = rw current at (one_at-le-count b k state.kvs)

  other_bucket : (b : BucketId) (o : Option SaltValue) → bucket_id k < b → one_at b k o ≡ 0
  other_bucket b none h = refl
  other_bucket b (some w) h = ground arith

  -- One entry that starts from what the store holds keeps the counts, if the bucket's entries and
  -- one more are within a 64-bit count.
  update_entry-IsCounted :
      count (bucket_id k) state.kvs + 1 < 2 ^ 64 → IsCounted (update_entry state k c)
  unfolding update_entry
  update_entry-IsCounted room = elim (Bool-cases (is_in_meta_bucket k)) [
    | inl meta ↦
        let low : bucket_id k < num_meta_buckets = unfold is_in_meta_bucket in ltb→lt _ _ meta in
        record {
          sorted = write-IsSorted k c.1 state.kvs v.sorted;
          exact = λ b h. rw meta (
              omega (
                arith,
                v.exact b h,
                written b,
                other_bucket b c.0 (omega arith),
                other_bucket b c.1 (omega arith),
              ));
        }
    | inr plain ↦
        let high : num_meta_buckets ≤ bucket_id k = meta_bound k plain in
        let home = v.exact (bucket_id k) high in
        record {
          sorted = write-IsSorted k c.1 state.kvs v.sorted;
          exact = λ b h. rw plain (
              omega (
                arith,
                v.exact b h,
                written b,
                recount-exact b k c state.used_slots (omega arith)
                    (omega (arith, present_counted (bucket_id k))),
              ));
        }
  ]

one_at-le-one : (b : BucketId) (k : SaltKey) (o : Option SaltValue) → one_at b k o ≤ 1
one_at-le-one b k none = omega arith
one_at-le-one b k (some v) = ground arith

-- Applying updates with rising keys that start from what the store holds keeps the cached
-- count of each data bucket equal to the number of its entries, and the store in the order of its keys, if the counts and the number of updates are within 64 bits.
pub update_state-IsCounted :
    (state : StateStore) (after : View SaltError) (u : StateUpdates)
    → IsCounted state
    → Tracks (value state) after u
    → IsSorted u
    → ((b : BucketId) → count b state.kvs + length u < 2 ^ 64)
    → IsCounted (update_state state u)
unfolding update_state
update_state-IsCounted state after [] v t s room = v
update_state-IsCounted state after ((k, c) ∷ u) v t s room =
    let head : Tracked (value state k) (after k) (some c) = rw (Maps.get-head k c u) at (t.at k) in
    let current : Maps.get k state.kvs ≡ c.0 =
      ok-injective {E = SaltError} (unfold value in head.0) in
    update_state-IsCounted (update_entry state k c) after u
      (update_entry-IsCounted state k c v current (omega (arith, room (bucket_id k))))
      (Tracks-congr (value (update_entry state k c)) (put (value state) k c.1) after u
        (value-update_entry state k c) (tail-Tracks (value state) after k c u s t))
      (Maps.Above-IsSorted k u s)
      (λ b.
        unfold update_entry in
        omega (arith, written state k c v current b, one_at-le-one b k c.1, room b))

-- Every key is a 64-bit word.
abbrev pub AllWords : Map SaltValue → Type 0
AllWords [] = Unit {0}
AllWords ((k, v) ∷ m) = (k < 2 ^ 64) × AllWords m

length-range :
    (b : BucketId) (m : Map SaltValue)
    → b < 2 ^ 24
    → AllWords m
    → length (range (salt_key b 0) (salt_key b bucket_slot_id_mask) m) ≡ count b m
unfolding range count
length-range b [] h a = refl
length-range b ((k, v) ∷ m) h a = ground (arith, one_bucket_range b k h a.0, length-range b m h a.1)

-- In a store whose keys and counts are within 64 bits and whose counts are exact, the cached `bucket_used_slots` returns what
-- the trait's default computes by reading the bucket's entries, for every bucket id.
pub bucket_used_slots-default :
    (state : StateStore) (b : BucketId)
    → IsCounted state
    → AllWords state.kvs
    → count b state.kvs < 2 ^ 64
    → bucket_used_slots state b ≡ default_bucket_used_slots (entries state) b
unfolding bucket_used_slots default_bucket_used_slots entries
bucket_used_slots-default state b v a h = elim (Bool-cases (is_valid_data_bucket b)) [
  | inr other ↦ rw other
  | inl valid ↦
      let bounds : (num_meta_buckets ≤ b) × (b < 2 ^ 24) =
        unfold is_valid_data_bucket in ground arith in
      let found = length-range b state.kvs bounds.1 a in
      let forward : ltb (salt_key b bucket_slot_id_mask) (salt_key b 0) ≡ false =
        unfold salt_key in ground arith in
      rw (valid, forward) (ap ok (omega (arith, v.exact b bounds.0)))
]
