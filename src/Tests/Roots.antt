-- ===== src/Tests/Roots.antt =====
-- The state root at a concrete input.
use salt_optimizations.Prelude.{
  ℕ, ◌<◌, ◌≡◌, refl, Bool, false, Option, none, some, ◌++◌, [], ◌∷◌, arith, inl, inr, Bool-cases,
  ◌==◌,
}
use salt_optimizations.Prelude.Bytes.{Bytes}
use salt_optimizations.Prelude.Sort.{Each}
use salt_optimizations.Prelude.Result.{Res, ok}
use salt_optimizations.Types.SaltKey.{SaltKey, BucketId, salt_key}
use salt_optimizations.Types.SaltValue
use salt_optimizations.Types.SaltValue.{SaltValue}
use salt_optimizations.Types.Errors.{SaltError}
use salt_optimizations.Types.NodeId.{NodeId}
use salt_optimizations.State.Updates.{StateUpdates}
use salt_optimizations.Store.TrieReader.{TrieReader, TrieUpdates}
use salt_optimizations.Trie.Committer.{root_hash, kv_hash}
use salt_optimizations.Trie.StateRoot
use salt_optimizations.Trie.StateRoot.{StateRoot, commitment}
use salt_optimizations.Trie.StateRoot.Positions.{after}
use salt_optimizations.Trie.StateRoot.Vector.{commit_to}
use salt_optimizations.Trie.Scan.{known_capacity}
use salt_optimizations.Trie.Update.{finalize, update, update_fin}
use salt_optimizations.Trie.Update.Climb.{CommitsAbove, CanRead}
use salt_optimizations.Trie.Update.Finalize.{
  IsPending, IsFinalized, finalize-IsPending, finalize_twice,
}
use salt_optimizations.Trie.Update.Small.{IsSmall}
use salt_optimizations.Trie.Update.Caches.{IsKept}
use salt_optimizations.Trie.Update.Committed.{IsHashed, IsCommitted, update-IsCommitted}
use salt_optimizations.Trie.Update.Whole.{IsWhole, fresh-IsCommitted, update_fin-IsWhole}
use salt_optimizations.Trie.Update.Unique.{IsReady, update_fin-agree}
use salt_optimizations.Tests.Toy.{toy, toy-IsLawful}

-- Every node has the commitment 0.
abbrev zeros : NodeId → Bytes
zeros node = 0 ∷ []

abbrev flat : TrieReader SaltError
flat = record { commitment = λ node. ok (zeros node); node_entries = λ start end. ok [] }

abbrev one_level : BucketId → Res SaltError ℕ
one_level bucket = ok 1

-- Two children of the root, and a leaf below, have changed.
abbrev session : StateRoot
session = record StateRoot.new {
  updates = (3, (0 ∷ [], 1 ∷ [])) ∷ (5, (0 ∷ [], 2 ∷ [])) ∷ (65800, (0 ∷ [], 1 ∷ [])) ∷ [];
}

zeros_commit : CommitsAbove toy 1 zeros
unfolding commit_to
zeros_commit n p lt on = refl

session-IsPending : IsPending toy flat 4 one_level session zeros
unfolding commitment
session-IsPending = record {
  positive = omega arith;
  some_level = omega arith;
  levels_left = omega arith;
  deep = (omega arith, (omega arith, (omega arith, tt)));
  chained = (refl, (refl, (refl, tt)));
  readable = λ p lt. refl;
  stored = refl;
  commits = zeros_commit;
}

finalize-IsPending_example :
    (ups : TrieUpdates) × (s' : StateRoot) × (finalize toy flat 4 one_level session
      ≡ ok ((root_hash toy (after zeros (session.updates ++ ups) 0), session.updates ++ ups), s'))
    × CommitsAbove toy 1 (after zeros (session.updates ++ ups))
    × CanRead toy flat 4 one_level s' 1 (after zeros (session.updates ++ ups))
    × IsFinalized session s'
    × Each (λ (u : NodeId × (Bytes × Bytes)). u.0 < 1) ups
finalize-IsPending_example =
    finalize-IsPending toy flat 4 one_level session zeros toy-IsLawful session-IsPending

finalize_twice_example :
    (ups : TrieUpdates) × (s' : StateRoot) × (s'' : StateRoot) × (finalize toy flat 4 one_level
        session
      ≡ ok ((root_hash toy (after zeros (session.updates ++ ups) 0), session.updates ++ ups), s'))
    × (finalize toy flat 4 one_level s' ≡ ok ((root_hash toy (zeros 0), []), s''))
finalize_twice_example =
    finalize_twice toy flat 4 one_level session zeros toy-IsLawful session-IsPending

-- The hash of a value, which all the values here have.
abbrev value_hash : Option SaltValue → Bool
value_hash value = elim (kv_hash toy value) [ none ↦ false | some hash ↦ hash ]

abbrev no_values : SaltKey → Option SaltValue
no_values key = none

abbrev one_byte : SaltValue
one_byte = record { bytes = 1 ∷ 0 ∷ 2 ∷ [] }

-- Insertions in the first two data buckets, and a removal of one of them.
abbrev batch : StateUpdates
batch =
    (72057594037927939, (none, some one_byte))
    ∷ (72057594037927939, (some one_byte, none))
    ∷ (72058693549555712, (none, some one_byte))
    ∷ []

batch-IsSmall : Each (IsSmall toy flat 4 one_level StateRoot.new) batch
unfolding known_capacity
batch-IsSmall = ((omega arith, refl), ((omega arith, refl), ((omega arith, refl), tt)))

batch-IsHashed : Each (IsHashed toy flat 4 one_level value_hash) batch
unfolding salt_key kv_hash SaltValue.key SaltValue.value
batch-IsHashed = (
  record {
    slot_place = (131329, 3, (omega arith, omega arith), omega arith, refl);
    old_hash = refl;
    new_hash = refl;
  },
  (
    record {
      slot_place = (131329, 3, (omega arith, omega arith), omega arith, refl);
      old_hash = refl;
      new_hash = refl;
    },
    (
      record {
        slot_place = (131330, 0, (omega arith, omega arith), omega arith, refl);
        old_hash = refl;
        new_hash = refl;
      },
      tt,
    ),
  ),
)

zeros-IsWhole : IsWhole toy flat 4 one_level value_hash no_values zeros
unfolding commit_to kv_hash
zeros-IsWhole = record { inner = λ n p lt on. refl; leaves = λ leaf main. refl }

new-IsCommitted : IsCommitted toy flat 4 one_level value_hash zeros StateRoot.new no_values zeros
unfolding commitment
new-IsCommitted =
    fresh-IsCommitted toy flat 4 one_level value_hash StateRoot.new no_values zeros refl
      (omega arith) (omega arith) (λ p lt. refl) zeros-IsWhole

update-IsCommitted_example :
    (s' : StateRoot) × (now' : NodeId → Bytes) × (update toy flat 4 one_level batch StateRoot.new
      ≡ ok s')
    × IsCommitted toy flat 4 one_level value_hash zeros s' (after no_values batch) now'
    × IsKept StateRoot.new s'
update-IsCommitted_example =
    update-IsCommitted toy flat 4 one_level value_hash StateRoot.new no_values zeros zeros batch
      toy-IsLawful new-IsCommitted batch-IsSmall batch-IsHashed (refl, (refl, (refl, tt)))

update_fin-IsWhole_example :
    (all : TrieUpdates) × (s' : StateRoot) × (update_fin toy flat 4 one_level batch StateRoot.new
      ≡ ok ((root_hash toy (after zeros all 0), all), s'))
    × IsWhole toy flat 4 one_level value_hash (after no_values batch) (after zeros all)
update_fin-IsWhole_example =
    update_fin-IsWhole toy flat 4 one_level value_hash StateRoot.new no_values zeros zeros batch
      toy-IsLawful new-IsCommitted
      (record { some_level = omega arith; stored = refl; commits = zeros_commit }) batch-IsSmall
      batch-IsHashed (refl, (refl, (refl, tt)))

-- The insertion that is left of the batch, in a session that defers two levels.
abbrev short_batch : StateUpdates
short_batch = (72058693549555712, (none, some one_byte)) ∷ []

abbrev deferring : StateRoot
deferring = record StateRoot.new { deferred_levels = 2; min_par_batch_size = 1 }

deferring-IsCommitted : IsCommitted toy flat 4 one_level value_hash zeros deferring no_values zeros
unfolding commitment
deferring-IsCommitted =
    fresh-IsCommitted toy flat 4 one_level value_hash deferring no_values zeros refl (omega arith)
      (omega arith) (λ p lt. refl) zeros-IsWhole

short_lem : (key : SaltKey) → after no_values short_batch key ≡ after no_values batch key
unfolding after
short_lem key = elim (Bool-cases (72057594037927939 == key)) [
  | inl here ↦ rw here refl
  | inr other ↦ rw other refl
]

batch-IsReady : IsReady toy flat 4 one_level value_hash StateRoot.new batch (after no_values batch)
batch-IsReady = record {
  values = no_values;
  old = zeros;
  now = zeros;
  committed = new-IsCommitted;
  start = record { some_level = omega arith; stored = refl; commits = zeros_commit };
  small = batch-IsSmall;
  hashed = batch-IsHashed;
  chained = (refl, (refl, (refl, tt)));
  final_lem = λ key. refl;
}

short_batch-IsReady :
    IsReady toy flat 4 one_level value_hash deferring short_batch (after no_values batch)
unfolding commit_to known_capacity
short_batch-IsReady = record {
  values = no_values;
  old = zeros;
  now = zeros;
  committed = deferring-IsCommitted;
  start = record { some_level = omega arith; stored = refl; commits = λ n p lt on. refl };
  small = ((omega arith, refl), tt);
  hashed = batch-IsHashed.1.1;
  chained = (refl, tt);
  final_lem = short_lem;
}

update_fin-agree_example :
    (root : Bytes) × (all : TrieUpdates) × (all' : TrieUpdates) × (t : StateRoot) × (t' : StateRoot)
    × (update_fin toy flat 4 one_level batch StateRoot.new ≡ ok ((root, all), t))
    × (update_fin toy flat 4 one_level short_batch deferring ≡ ok ((root, all'), t'))
update_fin-agree_example =
    update_fin-agree toy value_hash flat 4 one_level flat 4 one_level StateRoot.new deferring batch
      short_batch (after no_values batch) toy-IsLawful (λ b. refl) batch-IsReady short_batch-IsReady
