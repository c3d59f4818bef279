-- ===== src/Tests/Sessions.antt =====
-- A deletion in a bucket of two entries, and the store after it.
use salt_optimizations.Prelude.{if◌then◌else◌, ◌==◌, ℕ, ◌+◌, ◌≡◌, refl, some, none, [], ◌∷◌, arith}
use salt_optimizations.Prelude.Bytes.{Bytes, cmp, to_le_bytes, bytes_eq}
use salt_optimizations.Prelude.Maps
use salt_optimizations.Prelude.Result.{ok, ◌>>=◌}
use salt_optimizations.Types.Errors.{SaltError}
use salt_optimizations.Types.SaltKey.{SaltKey, bucket_metadata_key}
use salt_optimizations.Types.SaltValue
use salt_optimizations.Types.SaltValue.{SaltValue, value_eq}
use salt_optimizations.State.Updates.{add, try_add, chain_entry}
use salt_optimizations.State.Probe.{probe, rank, hash_with_nonce}
use salt_optimizations.State.Ephemeral
use salt_optimizations.State.Ephemeral.{Ephemeral, Session, update_value, plain_value}
use salt_optimizations.State.Shi.{shi_delete}
use salt_optimizations.State.Tracking.{over, IsTracked, new-IsTracked}
use salt_optimizations.State.Tracking.Deletion.{shi_delete-IsTracked}
use salt_optimizations.State.Tracking.Lookups.{over-plain_value}
use salt_optimizations.State.Tracking.Writes.{update_value-IsTracked}
use salt_optimizations.Store.MemStore
use salt_optimizations.Store.MemStore.{StateStore, value, update_state, reader}
use salt_optimizations.Store.Sessions.{IsCanonical, reader-IsCoherent}

-- The hash of a key is the sum of its bytes and the nonce's.
abbrev sum_hash : Bytes → ℕ
sum_hash [] = 0
sum_hash (b ∷ bs) = b + sum_hash bs

abbrev large : SaltValue
large = record { bytes = 1 ∷ 0 ∷ 3 ∷ [] }

abbrev small : SaltValue
small = record { bytes = 2 ∷ 0 ∷ 1 ∷ 2 ∷ [] }

-- Both entries start their probes at slot 3, and the larger key holds it.
abbrev pair : StateStore
pair = record {
  kvs = (72057594037927939, large) ∷ (72057594037927940, small) ∷ [];
  used_slots = (65536, 2) ∷ [];
}

abbrev start : Session
start = record { state = Ephemeral.new; out_updates = [] }

abbrev after : Session
after = (shi_delete sum_hash (reader pair) 65536 (3 ∷ []) start).1

pair-IsCanonical : IsCanonical pair
unfolding Maps.get bucket_metadata_key
pair-IsCanonical = record { at = λ b k v key found. ground arith }

start-IsTracked : IsTracked (reader pair) start
start-IsTracked = new-IsTracked (reader pair) Ephemeral.new (λ k. refl)

after-IsTracked : IsTracked (reader pair) after
after-IsTracked =
    shi_delete-IsTracked sum_hash (reader pair) (reader-IsCoherent sum_hash pair pair-IsCanonical)
      65536 (3 ∷ []) start start-IsTracked

-- The second entry moves into the gap.
delete_runs :
    after.out_updates
    ≡ (72057594037927939, (some large, some small)) ∷ (72057594037927940, (some small, none)) ∷ []
unfolding shi_delete ◌>>=◌ Ephemeral.metadata bucket_metadata_key MemStore.metadata Maps.get
    Ephemeral.shi_find value probe hash_with_nonce to_le_bytes SaltValue.key cmp rank
    Ephemeral.update_value value_eq bytes_eq add try_add chain_entry Maps.insert
delete_runs = refl

shi_delete-IsTracked_example :
    IsTracked (reader pair) (shi_delete sum_hash (reader pair) 65536 (3 ∷ []) start).1
shi_delete-IsTracked_example =
    shi_delete-IsTracked sum_hash (reader pair) (reader-IsCoherent sum_hash pair pair-IsCanonical)
      65536 (3 ∷ []) start start-IsTracked

start-reads :
    over (start.state.cache 72057594037927939) ((reader pair).value 72057594037927939)
    ≡ ok (some large)
unfolding value Maps.get
start-reads = refl

update_value-IsTracked_example :
    ((update_value {E = SaltError} 72057594037927939 (some large) none start).0 ≡ ok tt)
    × ((q : SaltKey)
        → over
            ((update_value {E = SaltError} 72057594037927939 (some large) none start).1.state.cache
              q)
            ((reader pair).value q)
          ≡ (if 72057594037927939 == q
              then ok none
              else over (start.state.cache q) ((reader pair).value q)))
    × IsTracked
        (reader pair)
        (update_value {E = SaltError} 72057594037927939 (some large) none start).1
update_value-IsTracked_example =
    update_value-IsTracked (reader pair) start 72057594037927939 (some large) none start-IsTracked
      start-reads

abbrev caching : Ephemeral
caching = Ephemeral.with_cache_read Ephemeral.new

over-plain_value_example :
    over
      ((plain_value sum_hash (reader pair) (1 ∷ 2 ∷ []) caching).1.cache 72057594037927940)
      ((reader pair).value 72057594037927940)
    ≡ over (caching.cache 72057594037927940) ((reader pair).value 72057594037927940)
over-plain_value_example =
    over-plain_value sum_hash (reader pair) (reader-IsCoherent sum_hash pair pair-IsCanonical)
      (1 ∷ 2 ∷ []) caching 72057594037927940
