-- ===== src/Trie/Update.antt =====
-- The two phases of `StateRoot` (salt/src/trie/trie.rs): `update` and `finalize`, and `rebuild`.
pub mod MainLevels
pub mod Views
pub mod Root
pub mod Climb
pub mod Rooted
pub mod Finalize
pub mod Small
pub mod Caches
pub mod Propagate
pub mod Committed
pub mod Whole
pub mod Unique
use salt_optimizations.Prelude.{
  ℕ, zero, suc, ◌+◌, ◌-◌, ◌/◌, Option, none, some, List, [], ◌∷◌, ◌++◌, ltb, ◌==◌, if◌then◌else◌,
}
use salt_optimizations.Prelude.Bytes.{Bytes}
use salt_optimizations.Prelude.Maps
use salt_optimizations.Prelude.Maps.{Map}
use salt_optimizations.Prelude.Result.{Res, ok, err, panic, out_of_fuel, and_then, or_panic}
use salt_optimizations.Constant.{main_trie_levels, num_meta_buckets, num_buckets, meta_bucket_size}
use salt_optimizations.Types.SaltKey.{SaltKey, BucketId, bucket_range}
use salt_optimizations.Types.SaltValue.{SaltValue}
use salt_optimizations.Types.BucketMeta
use salt_optimizations.Types.NodeId.{NodeId}
use salt_optimizations.State.Updates.{StateUpdates}
use salt_optimizations.Store.Traits.{StateReader, get_subtree_levels}
use salt_optimizations.Store.EmptySalt.{empty_salt}
use salt_optimizations.Store.TrieReader.{TrieReader, TrieUpdates, empty_trie}
use salt_optimizations.Trie.Committer.{Committer, root_hash}
use salt_optimizations.Trie.NodeUtils.{starting_node_id}
use salt_optimizations.Trie.StateRoot
use salt_optimizations.Trie.StateRoot.{StateRoot, update_internal_nodes, div_ceil}
use salt_optimizations.Trie.Contraction.{at_most}
use salt_optimizations.Trie.Scan.{insert_cache}
use salt_optimizations.Trie.Subtrees.{update_bucket_subtrees}

-- `and_modify(|change| change.1 = new).or_insert((old, new))`
unfoldable pub merged : Option (Bytes × Bytes) → Bytes → Bytes → Bytes × Bytes
merged none old new = (old, new)
merged (some change) old new = (change.0, new)

unfoldable pub apply_updates_to_caches : TrieUpdates → StateRoot → StateRoot
unfolding merged insert_cache
apply_updates_to_caches [] s = s
apply_updates_to_caches ((node, (old, new)) ∷ updates) s =
    apply_updates_to_caches updates (record (insert_cache node new s) {
      updates = Maps.insert node (merged (Maps.get node s.updates) old new) s.updates;
    })

-- The updates of the nodes before a node.
unfoldable pub nodes_before : NodeId → TrieUpdates → TrieUpdates
nodes_before end [] = []
nodes_before end ((node, u) ∷ updates) =
    let rest = nodes_before end updates in if ltb node end then (node, u) ∷ rest else rest

-- `none` is an index out of range.
unfoldable pub drop_updates_below_level : TrieUpdates → ℕ → Option TrieUpdates
unfolding nodes_before
drop_updates_below_level updates level = elim (starting_node_id level) [
  | none ↦ none
  | some start ↦ some (nodes_before start updates)
]

-- `acc_updates.last()`, where it is an update of the root.
unfoldable pub last_root : TrieUpdates → Option Bytes
last_root [] = none
last_root ((node, (old, new)) ∷ []) = if node == 0 then some new else none
last_root (u ∷ v ∷ updates) = last_root (v ∷ updates)

unfoldable pub cache_new : TrieUpdates → StateRoot → StateRoot
unfolding insert_cache
cache_new [] s = s
cache_new ((node, (old, new)) ∷ updates) s = cache_new updates (insert_cache node new s)

module _ {E : Type 0} (c : Committer) (trie : TrieReader E) (num_threads : ℕ)
    (get_subtree_levels : BucketId → Res E ℕ) where
  -- The loop of `update`.
  unfoldable pub propagate : ℕ → TrieUpdates → StateRoot → Res E StateRoot
  unfolding apply_updates_to_caches
  propagate zero level_updates s = ok s
  propagate (suc left) level_updates s =
      and_then (update_internal_nodes c trie num_threads s level_updates)
        λ parents. propagate left parents (apply_updates_to_caches parents s)

  -- On an error, the caches that were changed before it are not returned.
  unfoldable pub update : StateUpdates → StateRoot → Res E StateRoot
  unfolding propagate drop_updates_below_level update_bucket_subtrees
  update state_updates s =
      and_then (update_bucket_subtrees c trie num_threads get_subtree_levels state_updates s)
        λ done.
          and_then (or_panic (drop_updates_below_level done.1 main_trie_levels)) λ level_updates.
            propagate (main_trie_levels - (s.deferred_levels + 1)) level_updates
              (apply_updates_to_caches done.1 done.0)

  -- The loop of `update_main_trie`, with the updates of all levels so far.
  unfoldable pub main_trie_loop : StateRoot → ℕ → TrieUpdates → TrieUpdates → Res E TrieUpdates
  main_trie_loop s zero level_updates acc_updates = ok acc_updates
  main_trie_loop s (suc left) level_updates acc_updates =
      and_then (update_internal_nodes c trie num_threads s level_updates)
        λ parents. main_trie_loop s left parents (acc_updates ++ parents)

  unfoldable pub root_or_stored : Option Bytes → Res E Bytes
  root_or_stored (some bytes) = ok bytes
  root_or_stored none = trie.commitment 0

  -- The state root, and the updates of all levels.
  unfoldable pub update_main_trie : StateRoot → TrieUpdates → ℕ → Res E (Bytes × TrieUpdates)
  unfolding main_trie_loop drop_updates_below_level last_root root_or_stored root_hash
  update_main_trie s acc_updates start_level =
      and_then (or_panic (drop_updates_below_level acc_updates start_level)) λ level_updates.
        and_then (main_trie_loop s (start_level - 1) level_updates acc_updates)
          λ all. and_then (root_or_stored (last_root all)) λ root. ok (root_hash c root, all)

  unfoldable pub finalize : StateRoot → Res E ((Bytes × TrieUpdates) × StateRoot)
  unfolding update_main_trie cache_new
  finalize s =
      and_then (update_main_trie (record s { updates = [] }) s.updates (s.deferred_levels + 1))
        λ done.
          and_then (or_panic (drop_updates_below_level done.1 s.deferred_levels))
            λ deferred. ok (done, cache_new deferred (record s { updates = [] }))

  unfoldable pub update_fin : StateUpdates → StateRoot → Res E ((Bytes × TrieUpdates) × StateRoot)
  unfolding update finalize
  update_fin state_updates s = and_then (update state_updates s) finalize

-- The entries of a chunk: metadata as a change from the default, and pairs as insertions.
unfoldable pub metadata_entries :
    SaltValue → List (SaltKey × SaltValue) → StateUpdates → StateUpdates
metadata_entries default_value [] chunk = chunk
metadata_entries default_value ((key, actual) ∷ rest) chunk =
    metadata_entries default_value rest (Maps.insert key (some default_value, some actual) chunk)

unfoldable pub inserted_entries : List (SaltKey × SaltValue) → StateUpdates → StateUpdates
inserted_entries [] chunk = chunk
inserted_entries ((key, value) ∷ rest) chunk =
    inserted_entries rest (Maps.insert key (none, some value) chunk)

-- `map_err(|_| unreachable!(…))`: the empty trie has no errors.
unfoldable pub no_error {ℓ} : {E F : Type 0} {A : Type ℓ} → Res E A → Res F A
no_error (ok a) = ok a
no_error (err e) = panic
no_error panic = panic
no_error out_of_fuel = out_of_fuel

module _ {E : Type 0} (c : Committer) (num_threads : ℕ) (reader : StateReader E) where
  unfoldable pub read_chunk : ℕ → ℕ → Res E StateUpdates
  unfolding metadata_entries inserted_entries bucket_range
  read_chunk chunk_start chunk_end =
      let meta = bucket_range (chunk_start / meta_bucket_size) (chunk_end / meta_bucket_size) in
      let data_range = bucket_range chunk_start chunk_end in
      and_then (reader.entries meta.0 meta.1) λ actual.
        and_then (or_panic (BucketMeta.to_value BucketMeta.default)) λ default_value.
          and_then (reader.entries data_range.0 data_range.1)
            λ pairs. ok (inserted_entries pairs (metadata_entries default_value actual []))

  -- The chunks from `chunk_start` on, `left` of them, each on a fresh empty trie.
  unfoldable pub rebuild_chunks : ℕ → ℕ → Res E TrieUpdates
  unfolding read_chunk update_bucket_subtrees no_error
  rebuild_chunks zero chunk_start = ok []
  rebuild_chunks (suc left) chunk_start =
      let chunk_end = at_most num_buckets (chunk_start + meta_bucket_size) - 1 in
      and_then (read_chunk chunk_start chunk_end) λ chunk_updates.
        and_then
          (no_error (
            update_bucket_subtrees c empty_trie num_threads (get_subtree_levels empty_salt)
              chunk_updates StateRoot.new))
          λ done.
            and_then (rebuild_chunks left (chunk_start + meta_bucket_size))
              λ later. ok (done.1 ++ later)

  -- `step_by` visits 65,280 chunks of 256 data buckets.
  unfoldable pub rebuild : Res E (Bytes × TrieUpdates)
  unfolding rebuild_chunks no_error update_main_trie
  rebuild =
      and_then
        (rebuild_chunks (div_ceil (num_buckets - num_meta_buckets) meta_bucket_size)
          num_meta_buckets)
        λ all. no_error (
          update_main_trie c empty_trie num_threads (get_subtree_levels empty_salt) StateRoot.new
            all main_trie_levels)
