-- ===== src/Trie/Subtrees.antt =====
-- `update_bucket_subtrees` of salt/src/trie/trie.rs, from its second step on: leaves, contraction,
-- triggers, and the levels from the bottom up.
use salt_optimizations.Prelude.{
  ℕ, zero, suc, ◌+◌, ◌-◌, ◌*◌, ◌/◌, ◌%◌, ◌^◌, Option, none, some, List, [], ◌∷◌, ◌++◌, length, ltb,
  leb, ◌==◌, if◌then◌else◌,
}
use salt_optimizations.Prelude.Bytes.{Bytes, bytes_eq}
use salt_optimizations.Prelude.Maps
use salt_optimizations.Prelude.Maps.{Map}
use salt_optimizations.Prelude.Result.{Res, ok, panic, and_then, or_panic}
use salt_optimizations.Constant.{u32_mod, u64_mod, max_subtree_levels, bucket_slot_bits}
use salt_optimizations.Types.SaltKey.{SaltKey, BucketId, bucket_id, slot_id}
use salt_optimizations.Types.NodeId.{NodeId}
use salt_optimizations.State.Updates.{StateUpdates}
use salt_optimizations.State.Ephemeral.{expect}
use salt_optimizations.Store.TrieReader.{TrieReader, TrieUpdates}
use salt_optimizations.Trie.Committer.{Committer}
use salt_optimizations.Trie.Defaults.{default_commitment}
use salt_optimizations.Trie.NodeUtils.{starting_node_id, bucket_roots_start, subtree_leaves_start}
use salt_optimizations.Trie.StateRoot.{
  StateRoot, commitment, update_leaf_nodes, update_internal_nodes,
}
use salt_optimizations.Trie.Contraction.{
  SubtrieChangeInfo, LevelContractionOp, compute_contraction_ops,
}
use salt_optimizations.Trie.Scan.{scan, contains}

-- A vector for each level.
abbrev pub Levels : Type 0 → Type 0
Levels A = ℕ → A

abbrev pub at_level {ℓ} : {A : Type ℓ} → ℕ → A → (ℕ → A) → ℕ → A
at_level level a levels q = if level == q then a else levels q

-- What the steps collect.
pub record Work : Type 0 where
  pub uncomputed_updates : TrieUpdates
  pub extra_updates : Levels TrieUpdates
  pub trigger_levels : Levels (Map SubtrieChangeInfo)
  pub need_handle_buckets : List BucketId

unfoldable pub push_extra : ℕ → TrieUpdates → Work → Work
push_extra level updates w = record w {
  extra_updates = at_level level (w.extra_updates level ++ updates) w.extra_updates;
}

unfoldable pub add_trigger : ℕ → BucketId → SubtrieChangeInfo → Work → Work
add_trigger level bucket change w = record w {
  trigger_levels =
      at_level level (Maps.insert bucket change (w.trigger_levels level)) w.trigger_levels;
}

-- `partition_point`: the updates below a node, and the others.
unfoldable pub split_below : NodeId → TrieUpdates → TrieUpdates × TrieUpdates
split_below end [] = ([], [])
split_below end ((node, u) ∷ updates) =
    let (below, above) = split_below end updates in
    if ltb node end then ((node, u) ∷ below, above) else ([], (node, u) ∷ updates)

abbrev pub leaf_in_main_trie : SaltKey → NodeId
leaf_in_main_trie key = bucket_id key + bucket_roots_start

abbrev pub leaf_in_subtree : SaltKey → NodeId
leaf_in_subtree key =
    (bucket_id key * 2 ^ bucket_slot_bits % u64_mod + slot_id key / 2 ^ 8 + subtree_leaves_start)
    % u64_mod

module _ {E : Type 0} (c : Committer) (trie : TrieReader E) (num_threads : ℕ)
    (get_subtree_levels : BucketId → Res E ℕ) where
  abbrev read : StateRoot → NodeId → Res E Bytes
  read s node = commitment c trie num_threads s node

  -- A node above the new capacity: back to its default, if it is not there yet.
  unfoldable pub reset_node : StateRoot → NodeId → Res E TrieUpdates
  unfolding expect
  reset_node s node = and_then (expect (read s node)) λ old.
      and_then (or_panic (default_commitment node))
        λ new. ok (if bytes_eq new old then [] else (node, (old, new)) ∷ [])

  unfoldable pub reset_nodes : StateRoot → ℕ → NodeId → Res E TrieUpdates
  unfolding reset_node
  reset_nodes s zero node = ok []
  reset_nodes s (suc left) node =
      and_then (reset_node s (node % u64_mod))
        λ updates. and_then (reset_nodes s left (suc node)) λ later. ok (updates ++ later)

  -- One level of a contraction.
  unfoldable pub contract_level : StateRoot → BucketId → LevelContractionOp → Work → Res E Work
  unfolding reset_nodes split_below push_extra
  contract_level s bucket op w = and_then (or_panic (starting_node_id op.level)) λ start.
      let first = bucket * 2 ^ bucket_slot_bits % u64_mod + start in
      and_then (reset_nodes s (op.update_end - op.update_start) (first + op.update_start))
        λ updates.
          let (immediate, deferred) = split_below (op.immediate_boundary + first) updates in
          ok (
            push_extra op.level immediate
              (record w { uncomputed_updates = w.uncomputed_updates ++ deferred }))

  unfoldable pub contract_levels :
      StateRoot → BucketId → List LevelContractionOp → Work → Res E Work
  unfolding contract_level
  contract_levels s bucket [] w = ok w
  contract_levels s bucket (op ∷ ops) w =
      and_then (contract_level s bucket op w) (contract_levels s bucket ops)

  -- Step 3.
  unfoldable pub contract_all : StateRoot → Map SubtrieChangeInfo → Work → Res E Work
  unfolding contract_levels compute_contraction_ops
  contract_all s [] w = ok w
  contract_all s ((bucket, change) ∷ changes) w =
      let contracted =
        and_then (or_panic (compute_contraction_ops change.old_capacity change.new_capacity))
          λ ops. contract_levels s bucket ops w in
      and_then (if leb change.old_capacity change.new_capacity then ok w else contracted)
        (contract_all s changes)

  -- `add_expansion_update`
  unfoldable pub add_expansion_update : StateRoot → SubtrieChangeInfo → Work → Res E Work
  unfolding push_extra
  add_expansion_update s change w =
      and_then (or_panic (default_commitment change.old_top_id)) λ default_c.
        and_then (read s change.root_id) λ bucket_root.
          ok
            (push_extra change.old_top_level ((change.old_top_id, (default_c, bucket_root)) ∷ []) w)

  -- `add_contraction_update`
  unfoldable pub add_contraction_update : StateRoot → SubtrieChangeInfo → Work → Res E Work
  add_contraction_update s change w = and_then (read s change.root_id) λ old.
      and_then (read s change.new_top_id) λ new. ok (record w {
        uncomputed_updates = w.uncomputed_updates ++ (change.root_id, (old, new)) ∷ [];
      })

  -- A change of capacity alone.
  unfoldable pub capacity_only : StateRoot → BucketId → SubtrieChangeInfo → Work → Res E Work
  unfolding add_expansion_update add_contraction_update add_trigger
  capacity_only s bucket change w =
      let expansion = and_then (add_expansion_update s change w) λ w'. ok (
        add_trigger change.new_top_level bucket change (
          add_trigger change.old_top_level bucket change
            (record w' { need_handle_buckets = bucket ∷ w'.need_handle_buckets }))) in
      let contraction = add_contraction_update s change w in
      if ltb change.new_top_level change.old_top_level
      then expansion
      else if ltb change.old_top_level change.new_top_level
      then contraction
      else ok w

  unfoldable pub with_keys : BucketId → SubtrieChangeInfo → Work → Work
  unfolding add_trigger
  with_keys bucket change w =
      let w' = add_trigger change.new_top_level bucket change w in
      if ltb change.new_top_level change.old_top_level
      then add_trigger change.old_top_level bucket change w'
      else w'

  -- Step 4.
  unfoldable pub set_triggers : StateRoot → Map SubtrieChangeInfo → Work → Res E Work
  unfolding with_keys capacity_only
  set_triggers s [] w = ok w
  set_triggers s ((bucket, change) ∷ changes) w =
      let alone = capacity_only s bucket change w in
      and_then
        (if contains bucket w.need_handle_buckets then ok (with_keys bucket change w) else alone)
        (set_triggers s changes)

  -- What one update of a level becomes: an update of the subtree, and one of the bucket's root.
  unfoldable pub route :
      StateRoot
      → ℕ
      → NodeId × (Bytes × Bytes)
      → Option SubtrieChangeInfo
      → Res E (TrieUpdates × TrieUpdates)
  unfolding expect
  route s level u none = ok (u ∷ [], [])
  route s level (node, (old, new)) (some change) =
      let root_update =
        and_then (expect (read s change.root_id))
          λ root_commitment. ok ([], (change.root_id, (root_commitment, new)) ∷ []) in
      let raised =
        and_then (or_panic (default_commitment change.old_top_id))
          λ default_c. ok ((node, (default_c, new)) ∷ [], []) in
      if change.new_top_level == level
      then (if change.new_top_id == node then root_update else panic)
      else raised

  unfoldable pub route_all :
      StateRoot → ℕ → Map SubtrieChangeInfo → TrieUpdates → Res E (TrieUpdates × TrieUpdates)
  unfolding route
  route_all s level triggers [] = ok ([], [])
  route_all s level triggers ((node, u) ∷ updates) =
      let bucket = node / 2 ^ bucket_slot_bits % u32_mod in
      and_then (route s level (node, u) (Maps.get bucket triggers)) λ here.
        and_then (route_all s level triggers updates)
          λ later. ok (here.0 ++ later.0, here.1 ++ later.1)

  -- The triggers of the levels below `level`.
  unfoldable pub remaining_triggers : Levels (Map SubtrieChangeInfo) → ℕ → ℕ
  remaining_triggers triggers zero = 0
  remaining_triggers triggers (suc level) =
      remaining_triggers triggers level + length (triggers level)

  -- Step 6, one level: the updates of the subtrees, and those of the trie with the level's.
  unfoldable pub level_updates :
      StateRoot → Work → ℕ → TrieUpdates → TrieUpdates → Res E (TrieUpdates × TrieUpdates)
  unfolding route_all
  level_updates s w level subtree_commitments trie_updates =
      and_then (route_all s level (w.trigger_levels level) subtree_commitments) λ routed.
        let subtree = routed.0 ++ w.extra_updates level in
        ok (subtree, (trie_updates ++ routed.1) ++ subtree)

  -- Step 6, from `level` down to 0 or to the last trigger.
  unfoldable pub level_loop : StateRoot → Work → ℕ → TrieUpdates → TrieUpdates → Res E TrieUpdates
  unfolding level_updates remaining_triggers expect
  level_loop s w zero subtree_commitments trie_updates =
      and_then (level_updates s w zero subtree_commitments trie_updates) λ u. ok u.1
  level_loop s w (suc above) subtree_commitments trie_updates =
      and_then (level_updates s w (suc above) subtree_commitments trie_updates) λ u.
        let next =
          and_then (expect (update_internal_nodes c trie num_threads s u.0))
            λ parents. level_loop s w above parents u.1 in
        if remaining_triggers w.trigger_levels (suc above) == 0 then ok u.1 else next

  -- The state after it has new caches; `subtree_commitments` are the leaves of step 5.
  unfoldable pub update_bucket_subtrees : StateUpdates → StateRoot → Res E (StateRoot × TrieUpdates)
  unfolding scan contract_all set_triggers level_loop update_leaf_nodes
  update_bucket_subtrees updates s =
      and_then (scan c trie num_threads get_subtree_levels updates s) λ found.
        let leaves = update_leaf_nodes c trie num_threads found.root in
        and_then (leaves found.non_expansion_kvs leaf_in_main_trie) λ trie_updates.
          and_then
            (contract_all found.root found.subtree_change_info (record {
              uncomputed_updates = [];
              extra_updates = λ level. [];
              trigger_levels = λ level. [];
              need_handle_buckets = found.need_handle_buckets;
            }))
            λ contracted.
              and_then (set_triggers found.root found.subtree_change_info contracted) λ w.
                let expanded = leaves found.expansion_kvs leaf_in_subtree in
                and_then (elim w.need_handle_buckets [ [] ↦ ok [] | bucket ∷ buckets ↦ expanded ])
                  λ subtree_commitments.
                    and_then
                      (level_loop found.root w (max_subtree_levels - 1) subtree_commitments
                        trie_updates)
                      λ all. ok (found.root, all ++ w.uncomputed_updates)
