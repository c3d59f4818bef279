-- ===== src/Trie/Update/Committed.antt =====
-- `update` of salt/src/trie/trie.rs on the main trie: from the slots up to the root.
use mathlib.Core.Path.{subst}
use salt_optimizations.Prelude.{
  ℕ, ◌+◌, ◌-◌, ◌≤◌, ◌<◌, ◌≡◌, refl, sym, ap, ◌∙◌, true, Option, some, [], ◌∷◌, arith, ltb,
}
use salt_optimizations.Prelude.Bytes.{Bytes}
use salt_optimizations.Prelude.Sort.{Each}
use salt_optimizations.Prelude.Result.{Res, ok}
use salt_optimizations.Constant.{main_trie_levels}
use salt_optimizations.Types.SaltKey.{SaltKey, BucketId}
use salt_optimizations.Types.SaltValue.{SaltValue}
use salt_optimizations.Types.NodeId.{NodeId}
use salt_optimizations.State.Updates.{Change, StateUpdates}
use salt_optimizations.Store.TrieReader.{TrieReader, TrieUpdates}
use salt_optimizations.Trie.Committer.{Committer, IsLawful, kv_hash}
use salt_optimizations.Trie.StateRoot.{StateRoot}
use salt_optimizations.Trie.StateRoot.Positions.{Chained, IsPlace, after, node_commitment}
use salt_optimizations.Trie.StateRoot.Internal.{Each-map}
use salt_optimizations.Trie.StateRoot.Slots.{
  IsMainLeaf, KnownSlot, slots, leaf_in_main_trie-IsMainLeaf, update_leaf_nodes-merged,
}
use salt_optimizations.Trie.Subtrees.{update_bucket_subtrees, leaf_in_main_trie}
use salt_optimizations.Trie.Update.{nodes_before, apply_updates_to_caches, propagate, update}
use salt_optimizations.Trie.Update.MainLevels.{first, OnLevel}
use salt_optimizations.Trie.Update.Views.{after-get, Chained_of_sorted}
use salt_optimizations.Trie.Update.Climb.{first_mono}
use salt_optimizations.Trie.Update.Small.{IsSmall, update_bucket_subtrees-IsSmall}
use salt_optimizations.Trie.Update.Caches.{
  apply_updates_to_caches-IsFollowed, IsKept, IsKept-refl, IsKept-trans,
  apply_updates_to_caches-IsKept,
}
use salt_optimizations.Trie.Update.Propagate.{Follows, CommitsFrom, propagate-Propagated}

abbrev Update : Type 0
Update = NodeId × (Bytes × Bytes)

nodes_before_all :
    (end : ℕ) (us : TrieUpdates) → Each (λ (u : Update). u.0 < end) us → nodes_before end us ≡ us
unfolding nodes_before
nodes_before_all end [] h = refl
nodes_before_all end ((id, u) ∷ us) h =
    let before : ltb id end ≡ true = ground arith in
    rw before (ap (λ l. (id, u) ∷ l) (nodes_before_all end us h.1))

pub leaf_level : (leaf : NodeId) → IsMainLeaf leaf → OnLevel 3 leaf
leaf_level leaf main = omega (arith, main)

module _ {E : Type 0} (c : Committer) (trie : TrieReader E) (threads : ℕ)
    (levels : BucketId → Res E ℕ) (hash : Option SaltValue → c.Scalar) where
  -- A change of a slot of the smallest buckets, from and to a value with a hash.
  pub record IsHashed (u : SaltKey × Change) : Type 0 where
    pub slot_place : IsPlace slots u.0
    pub old_hash : kv_hash c u.1.0 ≡ some (hash u.1.0)
    pub new_hash : kv_hash c u.1.1 ≡ some (hash u.1.1)

  -- The roots of the buckets commit to the hashes of their first 256 slots.
  abbrev pub LeavesCommit : (SaltKey → Option SaltValue) → (NodeId → Bytes) → Type 0
  LeavesCommit values view =
      (leaf : NodeId)
      → IsMainLeaf leaf
      → c.from_bytes (view leaf) ≡ node_commitment slots c hash values leaf

  -- A session in which everything up to the lowest deferred level commits to what the level below has,
  -- and the leaves to the values.
  pub record IsCommitted (old : NodeId → Bytes) (s : StateRoot)
      (values : SaltKey → Option SaltValue) (now : NodeId → Bytes) : Type 0 where
    pub followed : Follows c trie threads levels s.deferred_levels old s now
    pub positive : 0 < s.min_par_batch_size
    pub levels_left : s.deferred_levels ≤ 3
    pub leaves : LeavesCommit values now
    pub inner : CommitsFrom c s.deferred_levels 3 now

  known_slots :
      (s : StateRoot) (values : SaltKey → Option SaltValue) (old now : NodeId → Bytes)
      (us : StateUpdates)
      → IsCommitted old s values now
      → Each IsHashed us
      → Each (KnownSlot c trie threads s now hash) us
  known_slots s values old now us committed hashed =
      Each-map IsHashed (KnownSlot c trie threads s now hash) us
        (λ u h. record {
          slot_place = h.slot_place;
          leaf =
              committed.followed.reads (leaf_in_main_trie u.0)
                (leaf_level (leaf_in_main_trie u.0)
                  (leaf_in_main_trie-IsMainLeaf c trie threads s now hash u.0 h.slot_place)).1;
          old_hash = h.old_hash;
          new_hash = h.new_hash;
        })
        hashed

  -- The two parts of `update`, where the first has changed no capacity.
  update_lem :
      (us : StateUpdates) (res : TrieUpdates) (s s' : StateRoot)
      → update_bucket_subtrees c trie threads levels us s ≡ ok (s, res)
      → nodes_before (first 4) res ≡ res
      → propagate c trie threads levels (3 - s.deferred_levels) res (apply_updates_to_caches res s)
        ≡ ok s'
      → update c trie threads levels us s ≡ ok s'
  unfolding update
  update_lem us res s s' below whole run =
      let left : main_trie_levels - (s.deferred_levels + 1) ≡ 3 - s.deferred_levels = omega arith in
      rw (below, whole, left) run

  -- If a session follows the values - its pending updates, from the lowest deferred level's children
  -- down, lead to the commitments that it reads, with which the leaves commit to the first 256 slots'
  -- hashes and the nodes of the levels not deferred to their children - with at most 3 deferred levels
  -- and a smallest task that is not 0, values have hashes and elements are lawful, then after `update`
  -- with chained changes of slots of data buckets of the smallest capacity it follows the changed
  -- values. `update` succeeds and keeps the settings and the known capacities.
  pub update-IsCommitted :
      (s : StateRoot) (values : SaltKey → Option SaltValue) (old now : NodeId → Bytes)
      (us : StateUpdates)
      → IsLawful c
      → IsCommitted old s values now
      → Each (IsSmall c trie threads levels s) us
      → Each IsHashed us
      → Chained values us
      → (s' : StateRoot) × (now' : NodeId → Bytes) × (update c trie threads levels us s ≡ ok s')
        × IsCommitted old s' (after values us) now'
        × IsKept s s'
  update-IsCommitted s values old now us lawful committed small hashed chained =
      let k = s.deferred_levels in
      let (res, found, at, merged) =
        update_leaf_nodes-merged c trie threads s now hash values us lawful
          (known_slots s values old now us committed hashed) chained committed.positive in
      let on =
        Each-map (λ (u : Update). IsMainLeaf u.0 × (u.1.0 ≡ now u.0)) (λ u. OnLevel 3 u.0) res
          (λ u o. leaf_level u.0 o.0) merged.olds in
      let res_chained = Chained_of_sorted now res merged.sorted (
        Each-map (λ (u : Update). IsMainLeaf u.0 × (u.1.0 ≡ now u.0)) _ res (λ u o. o.1)
          merged.olds) in
      let t = apply_updates_to_caches res s in
      let t_kept = apply_updates_to_caches-IsKept res s s (IsKept-refl s) in
      let below = update_bucket_subtrees-IsSmall c trie threads levels s us res small found in
      let whole =
        nodes_before_all (first 4) res
          (Each-map (λ (u : Update). OnLevel 3 u.0) _ res (λ u level. level.1) on) in
      let (s', now', run, done) =
        propagate-Propagated c trie threads levels k old (3 - k) 3 t now res lawful
          (omega (arith, t_kept.batch_lem, committed.positive))
          (omega (arith, committed.levels_left)) (omega arith) on res_chained
          (apply_updates_to_caches-IsFollowed c trie threads levels k (first 4) old res s now
            (Each-map (λ (u : Update). OnLevel 3 u.0) _ res
              (λ u level. omega (arith, first_mono k 3 committed.levels_left)) on)
            res_chained committed.followed)
          committed.inner (λ l p lo hi level. absurd (omega arith)) in
      let kept = IsKept-trans s t s' t_kept done.kept in
      let back : k ≡ s'.deferred_levels = sym kept.deferred_lem in
      (
        s',
        now',
        update_lem us res s s' below whole run,
        record {
          followed = subst (λ n. Follows c trie threads levels n old s' now') back done.followed;
          positive = omega (arith, kept.batch_lem, committed.positive);
          levels_left = omega (arith, kept.deferred_lem, committed.levels_left);
          leaves = λ leaf main.
              ap c.from_bytes
                (done.same leaf (leaf_level leaf main).0 ∙ after-get now res leaf merged.sorted)
              ∙ at leaf main (committed.leaves leaf main);
          inner = subst (λ n. CommitsFrom c n 3 now') back done.commits;
        },
        kept,
      )
