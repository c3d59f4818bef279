-- ===== src/Tests/Batches.antt =====
-- Updates that are recorded, merged, and applied to a store.
use salt_optimizations.Prelude.{
  ℕ, ◌+◌, ◌*◌, ◌^◌, ◌<◌, ◌≡◌, refl, Option, some, none, [], ◌∷◌, arith, length, Bool-cases, inl,
  inr, ◌==◌,
}
use salt_optimizations.Prelude.Maps
use salt_optimizations.Prelude.Result.{ok}
use salt_optimizations.Types.SaltKey.{SaltKey, bucket_id}
use salt_optimizations.Types.SaltValue.{SaltValue}
use salt_optimizations.Types.Errors.{SaltError}
use salt_optimizations.State.Updates.{StateUpdates, try_add, try_merge, inverse}
use salt_optimizations.State.Updates.Chain.{View, put, Tracks, try_add-Tracks}
use salt_optimizations.State.Updates.Merge.{try_merge-Tracks, try_merge-inverse}
use salt_optimizations.Store.Traits.{default_bucket_used_slots}
use salt_optimizations.Store.MemStore
use salt_optimizations.Store.MemStore.{
  StateStore, value, update_state, bucket_used_slots, entries, or_zero,
}
use salt_optimizations.Store.Apply.{value-update_state, update_state-inverse}
use salt_optimizations.Store.Counts.{
  IsCounted, count, update_state-IsCounted, bucket_used_slots-default,
}

abbrev key : SaltKey
key = 65536 * 2 ^ 40 + 3

abbrev first : SaltValue
first = record { bytes = 1 ∷ 1 ∷ 7 ∷ 1 ∷ [] }

abbrev second : SaltValue
second = record { bytes = 1 ∷ 1 ∷ 7 ∷ 2 ∷ [] }

abbrev blank : View SaltError
blank = value MemStore.new

abbrev filled : View SaltError
filled = put blank key (some first)

abbrev changed : View SaltError
changed = put filled key (some second)

abbrev fill : StateUpdates
fill = (key, (none, some first)) ∷ []

abbrev change : StateUpdates
change = (key, (some first, some second)) ∷ []

fill-Tracks : Tracks blank filled fill
unfolding value Maps.get
fill-Tracks = record {
  at = λ k. elim (Bool-cases (key == k)) [
    | inl same ↦ rw same (refl, refl, λ e. cc)
    | inr other ↦ rw other refl
  ];
}

first-ne-second : ◌≡◌ {A = Option SaltValue} (some first) (some second) → ⊥
first-ne-second e = ground arith

change-Tracks : Tracks filled changed change
unfolding value Maps.get
change-Tracks = record {
  at = λ k. elim (Bool-cases (key == k)) [
    | inl same ↦ rw same (refl, refl, first-ne-second)
    | inr other ↦ rw other refl
  ];
}

try_add-Tracks_example :
    (u : StateUpdates) × (try_add fill key (some first) (some second) ≡ ok u)
    × Tracks blank (put filled key (some second)) u
    × (Maps.IsSorted fill → Maps.IsSorted u)
try_add-Tracks_example =
    try_add-Tracks blank filled fill key (some first) (some second) fill-Tracks refl

try_merge-Tracks_example :
    (w : StateUpdates) × (try_merge fill change ≡ (w, ok tt))
    × Tracks blank changed w
    × (Maps.IsSorted fill → Maps.IsSorted w)
try_merge-Tracks_example =
    try_merge-Tracks blank filled changed fill change fill-Tracks change-Tracks tt

try_merge-inverse_example : try_merge fill (inverse fill) ≡ ([], ok tt)
try_merge-inverse_example = try_merge-inverse blank filled fill fill-Tracks tt

value-update_state_example : value (update_state MemStore.new fill) key ≡ filled key
value-update_state_example = value-update_state MemStore.new filled fill fill-Tracks tt key

update_state-inverse_example :
    value (update_state (update_state MemStore.new fill) (inverse fill)) key
    ≡ value MemStore.new key
update_state-inverse_example = update_state-inverse MemStore.new filled fill fill-Tracks tt key

new-IsCounted : IsCounted MemStore.new
unfolding Maps.get or_zero count bucket_id
new-IsCounted = record { sorted = tt; exact = λ b h. refl }

count_new : (b : ℕ) → count b MemStore.new.kvs + length fill < 2 ^ 64
unfolding count bucket_id
count_new b = omega arith

update_state-IsCounted_example : IsCounted (update_state MemStore.new fill)
update_state-IsCounted_example =
    update_state-IsCounted MemStore.new filled fill new-IsCounted fill-Tracks tt count_new

abbrev one_entry : StateStore
one_entry = record { kvs = (key, first) ∷ []; used_slots = (65536, 1) ∷ [] }

one_entry-IsCounted : IsCounted one_entry
unfolding Maps.get or_zero count bucket_id
one_entry-IsCounted = record { sorted = tt; exact = λ b h. ground arith }

count_one : count 65536 one_entry.kvs < 2 ^ 64
unfolding count bucket_id
count_one = ground arith

bucket_used_slots-default_example :
    bucket_used_slots one_entry 65536 ≡ default_bucket_used_slots (entries one_entry) 65536
bucket_used_slots-default_example =
    bucket_used_slots-default one_entry 65536 one_entry-IsCounted (omega arith) count_one
