-- ===== src/Trie/StateRoot.antt =====
-- `StateRoot` of salt/src/trie/trie.rs: the caches of an incremental update, and the steps that apply
-- changes to the commitments of one level.
pub mod Chunks
pub mod Totals
pub mod Deltas
pub mod Vector
pub mod Positions
pub mod Level
pub mod Internal
pub mod Slots
use mathlib.Core.List.{reverse}
use salt_optimizations.Prelude.{
  ℕ, zero, suc, ◌+◌, ◌-◌, ◌*◌, ◌/◌, ◌%◌, ◌^◌, Bool, true, false, Option, none, some, List, [], ◌∷◌,
  ◌++◌, length, take, drop, get_elem?, ltb, leb, ◌==◌, ◌&&◌, map, if◌then◌else◌,
}
use salt_optimizations.Prelude.Bytes.{Bytes}
use salt_optimizations.Prelude.Maps
use salt_optimizations.Prelude.Maps.{Map}
use salt_optimizations.Prelude.Sort.{sort_by_key}
use salt_optimizations.Prelude.Result.{Res, ok, err, panic, out_of_fuel, and_then, or_panic}
use salt_optimizations.Constant.{main_trie_levels, u64_mod, trie_width}
use salt_optimizations.Types.SaltKey.{SaltKey, BucketId, slot_id}
use salt_optimizations.Types.SaltValue.{SaltValue}
use salt_optimizations.Types.NodeId.{NodeId}
use salt_optimizations.State.Updates.{Change}
use salt_optimizations.Store.TrieReader.{TrieReader, TrieUpdates}
use salt_optimizations.Trie.Committer.{Committer, kv_hash}
use salt_optimizations.Trie.NodeUtils.{get_parent_node, vc_position_in_parent}

-- The store, the committer and the number of threads stand beside the state. The map of updates is
-- kept in the order of its keys, where the source iterates over a hash map.
pub record StateRoot : Type 0 where
  pub updates : Map (Bytes × Bytes)
  pub cache : NodeId → Option Bytes
  pub bucket_capacity_cache : BucketId → Option ℕ
  pub min_par_batch_size : ℕ
  pub deferred_levels : ℕ

abbrev pub new : StateRoot
new = record {
  updates = [];
  cache = λ node. none;
  bucket_capacity_cache = λ bucket. none;
  min_par_batch_size = 64;
  deferred_levels = 1;
}

unfoldable pub with_min_par_batch_size : ℕ → StateRoot → StateRoot
with_min_par_batch_size min_task_size s = record s { min_par_batch_size = min_task_size }

-- `none` is the failed assertion.
unfoldable pub with_deferred_levels : ℕ → StateRoot → Option StateRoot
with_deferred_levels levels s =
    if ltb 0 levels && ltb levels main_trie_levels
    then some (record s { deferred_levels = levels })
    else none

-- `Iterator::collect_results` into a `Result`: the first failure, or all the results.
unfoldable pub collect_results {ℓ κ} :
    {E : Type 0} {A : Type ℓ} {B : Type κ} → (A → Res E B) → List A → Res E (List B)
collect_results f [] = ok []
collect_results f (a ∷ l) = and_then (f a) λ b. and_then (collect_results f l) λ bs. ok (b ∷ bs)

unfoldable pub flatten {ℓ} : {A : Type ℓ} → List (List A) → List A
flatten [] = []
flatten (l ∷ ls) = l ++ flatten ls

-- `a.div_ceil(b)`
abbrev pub div_ceil : ℕ → ℕ → ℕ
div_ceil a b = (a + b - 1) / b

-- A sort by a key that may panic: the keys are computed first.
unfoldable pub keyed {ℓ} :
    {E : Type 0} {A : Type ℓ} → (A → Option ℕ) → List A → Res E (List (ℕ × A))
unfolding collect_results
keyed key l = collect_results (λ a. and_then (or_panic (key a)) λ k. ok (k, a)) l

module _ {E : Type 0} (c : Committer) (trie : TrieReader E) (num_threads : ℕ) where
  open c use {Element, Scalar, from_bytes, to_commitment, add, sub, mul_index, hash_commitment}

  abbrev pub DeltaList : Type 0
  DeltaList = List (NodeId × Element)

  -- `if let Some(c) = self.cache.get(&node_id)`
  unfoldable pub cached_or_stored : NodeId → Option Bytes → Res E Bytes
  cached_or_stored node (some bytes) = ok bytes
  cached_or_stored node none = trie.commitment node

  unfoldable pub commitment : StateRoot → NodeId → Res E Bytes
  unfolding cached_or_stored
  commitment s node = cached_or_stored node (s.cache node)

  unfoldable pub par_batch_size : StateRoot → ℕ → ℕ
  par_batch_size s num_tasks =
      let per_batch = div_ceil num_tasks (10 * num_threads) in
      if leb per_batch s.min_par_batch_size then s.min_par_batch_size else per_batch

  -- Both deltas exist and are of one node.
  unfoldable pub same_node : Option (NodeId × Element) → Option (NodeId × Element) → Bool
  same_node (some d) (some e) = d.0 == e.0
  same_node _ _ = false

  -- The inner loop: the boundary goes up while it would split a node's deltas.
  unfoldable pub extend_boundary : ℕ → DeltaList → ℕ → ℕ
  unfolding same_node
  extend_boundary zero deltas next = next
  extend_boundary (suc left) deltas next =
      let more = extend_boundary left deltas (suc next) in
      if same_node (get_elem? deltas next) (get_elem? deltas (next - 1)) then more else next

  -- The outer loop, from a boundary on; each round adds a task at least.
  unfoldable pub boundaries_from : ℕ → DeltaList → ℕ → ℕ → Res E (List ℕ)
  unfolding extend_boundary
  boundaries_from zero deltas task_size next = out_of_fuel
  boundaries_from (suc fuel) deltas task_size next =
      let boundary = extend_boundary (length deltas) deltas next in
      let rest =
        and_then (boundaries_from fuel deltas task_size (boundary + task_size))
          (λ later. ok (boundary ∷ later)) in
      if ltb next (length deltas) && ltb boundary (length deltas)
      then rest
      else ok (length deltas ∷ [])

  -- `windows(2)`
  unfoldable pub ranges : ℕ → List ℕ → List (ℕ × ℕ)
  ranges start [] = []
  ranges start (end ∷ later) = (start, end) ∷ ranges end later

  -- The capacity hint divides by the task size.
  unfoldable pub create_node_aligned_chunks : DeltaList → ℕ → Res E (List (ℕ × ℕ))
  unfolding boundaries_from ranges
  create_node_aligned_chunks deltas task_size =
      if task_size == 0
      then panic
      else and_then (boundaries_from (suc (length deltas)) deltas task_size task_size)
          (λ ends. ok (ranges 0 ends))

  -- `accumulated_elements` and `nodes_with_old_commitments` together, the last one first.
  abbrev pub Accumulated : Type 0
  Accumulated = List (NodeId × Bytes × Element)

  -- `if let Some(last_element) = accumulated_elements.last_mut()`
  unfoldable pub add_to_last : Element → Accumulated → Accumulated
  add_to_last delta [] = []
  add_to_last delta ((node, old, element) ∷ done) = (node, old, add element delta) ∷ done

  unfoldable pub accumulate : StateRoot → NodeId → DeltaList → Accumulated → Res E Accumulated
  unfolding add_to_last commitment
  accumulate s current_node_id [] done = ok done
  accumulate s current_node_id ((node, delta) ∷ deltas) done =
      let same = accumulate s current_node_id deltas (add_to_last delta done) in
      let fresh =
        and_then (commitment s node)
          λ old. accumulate s node deltas ((node, old, add (from_bytes old) delta) ∷ done) in
      if node == current_node_id then same else fresh

  abbrev pub updated : NodeId × Bytes × Element → NodeId × (Bytes × Bytes)
  updated (node, old, element) = (node, (old, to_commitment element))

  -- The chunk of the deltas in a range. `current_node_id` starts as `NodeId::MAX`.
  unfoldable pub accumulate_chunk_deltas : StateRoot → DeltaList → ℕ × ℕ → Res E TrieUpdates
  unfolding accumulate
  accumulate_chunk_deltas s deltas (start, end) =
      and_then (accumulate s (u64_mod - 1) (take (end - start) (drop start deltas)) [])
        λ done. ok (map updated (reverse done))

  unfoldable pub add_commitment_deltas : StateRoot → DeltaList → ℕ → Res E TrieUpdates
  unfolding sort_by_key create_node_aligned_chunks accumulate_chunk_deltas collect_results flatten
  add_commitment_deltas s commitment_deltas task_size =
      let deltas = sort_by_key (λ (d : NodeId × Element). d.0) commitment_deltas in
      and_then (create_node_aligned_chunks deltas task_size) λ chunks.
        and_then (collect_results (accumulate_chunk_deltas s deltas) chunks)
          λ results. ok (flatten results)

  unfoldable pub leaf_delta : (SaltKey → NodeId) → SaltKey × Change → Res E (NodeId × Element)
  unfolding slot_id kv_hash
  leaf_delta to_node_id (salt_key, (old_value, new_value)) =
      and_then (or_panic (kv_hash c new_value)) λ new_hash.
        and_then (or_panic (kv_hash c old_value)) λ old_hash.
          ok
            (to_node_id salt_key, mul_index (sub new_hash old_hash) (slot_id salt_key % trie_width))

  unfoldable pub update_leaf_nodes :
      StateRoot → List (SaltKey × Change) → (SaltKey → NodeId) → Res E TrieUpdates
  unfolding leaf_delta par_batch_size add_commitment_deltas
  update_leaf_nodes s state_updates to_node_id =
      let sorted = sort_by_key (λ (u : SaltKey × Change). slot_id u.0 % trie_width) state_updates in
      and_then (collect_results (leaf_delta to_node_id) sorted)
        λ deltas. add_commitment_deltas s deltas (par_batch_size s (length state_updates))

  -- The parent, with the change of the child times the child's generator.
  unfoldable pub internal_delta : NodeId × (Bytes × Bytes) → Res E (NodeId × Element)
  internal_delta (id, (old, new)) = and_then (or_panic (get_parent_node id)) λ parent.
      and_then (or_panic (vc_position_in_parent id)) λ position.
        ok (parent, mul_index (sub (hash_commitment new) (hash_commitment old)) position)

  -- The chunks of the batch hashing are joined again; a batch size of 0 panics.
  unfoldable pub update_internal_nodes : StateRoot → TrieUpdates → Res E TrieUpdates
  unfolding internal_delta par_batch_size add_commitment_deltas keyed
  update_internal_nodes s child_updates =
      and_then (keyed (λ (u : NodeId × (Bytes × Bytes)). vc_position_in_parent u.0) child_updates)
        λ keyed_updates.
          let sorted =
            map (λ (u : ℕ × (NodeId × (Bytes × Bytes))). u.1)
              (sort_by_key (λ (u : ℕ × (NodeId × (Bytes × Bytes))). u.0) keyed_updates) in
          let batch_size = par_batch_size s (length child_updates) in
          if batch_size == 0
          then panic
          else and_then (collect_results internal_delta sorted)
              λ deltas. add_commitment_deltas s deltas batch_size
