-- ===== src/Trie/Update/Finalize.antt =====
-- `finalize` of salt/src/trie/trie.rs: the state root.
use mathlib.Core.List.{append-nil}
use salt_optimizations.Prelude.{
  ℕ, zero, suc, ◌+◌, ◌-◌, ◌≤◌, ◌<◌, ◌≡◌, refl, sym, ap, ◌∙◌, [], ◌∷◌, ◌++◌, arith, inl, inr,
  Bool-cases, ◌==◌,
}
use salt_optimizations.Prelude.Bytes.{Bytes}
use salt_optimizations.Prelude.Sort.{Each}
use salt_optimizations.Prelude.Result.{Res, ok}
use salt_optimizations.Types.SaltKey.{BucketId}
use salt_optimizations.Types.NodeId.{NodeId}
use salt_optimizations.Store.TrieReader.{TrieReader, TrieUpdates}
use salt_optimizations.Trie.Committer.{Committer, IsLawful, root_hash}
use salt_optimizations.Trie.StateRoot.{StateRoot, commitment}
use salt_optimizations.Trie.StateRoot.Positions.{Chained, after, changed}
use salt_optimizations.Trie.StateRoot.Internal.{update_internal_nodes-merged}
use salt_optimizations.Trie.Scan.{insert_cache}
use salt_optimizations.Trie.Update.{
  nodes_before, last_root, cache_new, main_trie_loop, root_or_stored, update_main_trie, finalize,
}
use salt_optimizations.Trie.Update.MainLevels.{first}
use salt_optimizations.Trie.Update.Views.{after-nodes_before}
use salt_optimizations.Trie.Update.Climb.{CommitsAbove, CanRead}
use salt_optimizations.Trie.Update.Rooted.{drop_updates_lem, update_main_trie-Rooted}

-- The settings of a state are kept, and no update is pending.
pub record IsFinalized (s s' : StateRoot) : Type 0 where
  pub updates_lem : s'.updates ≡ []
  pub deferred_lem : s'.deferred_levels ≡ s.deferred_levels
  pub batch_lem : s'.min_par_batch_size ≡ s.min_par_batch_size

cache_new-IsFinalized :
    (us : TrieUpdates) (s s' : StateRoot) → IsFinalized s s' → IsFinalized s (cache_new us s')
unfolding cache_new insert_cache
cache_new-IsFinalized [] s s' h = h
cache_new-IsFinalized ((id, (old, new)) ∷ us) s s' h =
    cache_new-IsFinalized us s (insert_cache id new s') (record {
      updates_lem = h.updates_lem;
      deferred_lem = h.deferred_lem;
      batch_lem = h.batch_lem;
    })

module _ {E : Type 0} (c : Committer) (trie : TrieReader E) (threads : ℕ)
    (levels : BucketId → Res E ℕ) where
  pub insert_cache-commitment :
      (id : NodeId) (new : Bytes) (s : StateRoot) (view : NodeId → Bytes) (p : NodeId)
      → commitment c trie threads s p ≡ ok (view p)
      → commitment c trie threads (insert_cache id new s) p ≡ ok (changed view id new p)
  unfolding insert_cache commitment
  insert_cache-commitment id new s view p e = elim (Bool-cases (id == p)) [
    | inl here ↦ rw here refl
    | inr other ↦ rw other e
  ]

  -- The pending updates are taken out before anything is read.
  readable_start :
      (s : StateRoot) (view : NodeId → Bytes)
      → CanRead c trie threads levels s s.deferred_levels view
      → CanRead c trie threads levels (record s { updates = [] }) s.deferred_levels view
  unfolding commitment
  readable_start s view h = h

  cache_new-commitment :
      (us : TrieUpdates) (s : StateRoot) (view : NodeId → Bytes) (p : NodeId)
      → commitment c trie threads s p ≡ ok (view p)
      → commitment c trie threads (cache_new us s) p ≡ ok (after view us p)
  unfolding cache_new after
  cache_new-commitment [] s view p e = e
  cache_new-commitment ((id, (old, new)) ∷ us) s view p e =
      cache_new-commitment us (insert_cache id new s) (changed view id new) p
        (insert_cache-commitment id new s view p e)

  -- Before `finalize`: the updates are of nodes at the deferred levels' border or below and chain from
  -- the commitments of `view`, and the nodes of the deferred levels commit to their children.
  pub record IsPending (s : StateRoot) (view : NodeId → Bytes) : Type 0 where
    pub positive : 0 < s.min_par_batch_size
    pub some_level : 1 ≤ s.deferred_levels
    pub levels_left : s.deferred_levels ≤ 3
    pub deep : Each (λ (u : NodeId × (Bytes × Bytes)). first s.deferred_levels ≤ u.0) s.updates
    pub chained : Chained view s.updates
    pub readable : CanRead c trie threads levels s s.deferred_levels view
    pub stored : trie.commitment 0 ≡ ok (view 0)
    pub commits : CommitsAbove c s.deferred_levels view

  -- Where the updates of a session are pending and elements are lawful, `finalize` succeeds. It returns
  -- all updates, those that were pending and those of the levels above them; the hash of the root's
  -- commitment after them; after them every node of the deferred levels commits to its children;
  -- these nodes' new commitments are the ones read from then on; no update is left pending; and the
  -- updates that are added are of these nodes.
  pub finalize-IsPending :
      (s : StateRoot) (view : NodeId → Bytes)
      → IsLawful c
      → IsPending s view
      → (ups : TrieUpdates) × (s' : StateRoot) × (finalize c trie threads levels s
          ≡ ok ((root_hash c (after view (s.updates ++ ups) 0), s.updates ++ ups), s'))
        × CommitsAbove c s.deferred_levels (after view (s.updates ++ ups))
        × CanRead c trie threads levels s' s.deferred_levels (after view (s.updates ++ ups))
        × IsFinalized s s'
        × Each (λ (u : NodeId × (Bytes × Bytes)). u.0 < first s.deferred_levels) ups
  unfolding finalize
  finalize-IsPending s view lawful pending =
      let k = s.deferred_levels in
      let start : StateRoot = record s { updates = [] } in
      let (ups, rooted) =
        update_main_trie-Rooted c trie threads levels k start view s.updates pending.some_level
          pending.levels_left lawful pending.positive pending.deep pending.chained
          (readable_start s view pending.readable) pending.stored pending.commits in
      let all = s.updates ++ ups in
      let deferred = nodes_before (first k) all in
      let one_more : k + 1 ≡ suc k = omega arith in
      (
        ups,
        cache_new deferred start,
        rw (one_more, rooted.run, drop_updates_lem all k (omega (arith, pending.levels_left))) refl,
        rooted.commits,
        λ p lt.
            cache_new-commitment deferred start view p (readable_start s view pending.readable p lt)
            ∙ ap (λ b. ok b)
                (sym (after-nodes_before (first k) view view all (λ i small. refl) p lt)),
        cache_new-IsFinalized deferred s start
            (record { updates_lem = refl; deferred_lem = refl; batch_lem = refl }),
        rooted.above,
      )

  nothing :
      (us : TrieUpdates) (P : NodeId × (Bytes × Bytes) → Type 0) → Each (λ u. ⊥ × P u) us → us ≡ []
  nothing [] P h = refl
  nothing (u ∷ us) P h = absurd h.0.0

  main_trie_loop-nil :
      (k : ℕ) (s : StateRoot) (view : NodeId → Bytes) (acc : TrieUpdates)
      → IsLawful c
      → 0 < s.min_par_batch_size
      → main_trie_loop c trie threads levels s k [] acc ≡ ok acc
  unfolding main_trie_loop
  main_trie_loop-nil zero s view acc lawful positive = refl
  main_trie_loop-nil (suc k) s view acc lawful positive =
      let (res, found, newest_commits, merged, reaches) =
        update_internal_nodes-merged c trie threads s view (λ n. ⊥) [] lawful tt tt positive tt in
      let none_new = nothing res (λ u. u.1.0 ≡ view u.0) merged.olds in
      rw (found, none_new, append-nil acc) (main_trie_loop-nil k s view acc lawful positive)

  idle_root :
      (k : ℕ) (s : StateRoot) (view : NodeId → Bytes)
      → k ≤ 3
      → IsLawful c
      → 0 < s.min_par_batch_size
      → trie.commitment 0 ≡ ok (view 0)
      → update_main_trie c trie threads levels s [] (suc k) ≡ ok (root_hash c (view 0), [])
  unfolding update_main_trie last_root root_or_stored nodes_before
  idle_root k s view h lawful positive stored =
      let one_less : suc k - 1 ≡ k = omega arith in
      rw
        (
          drop_updates_lem [] (suc k) (omega arith),
          one_less,
          main_trie_loop-nil k s view [] lawful positive,
          stored,
        )
        refl

  -- After a `finalize` of pending updates, a second one with no update in between gives no updates, and
  -- the hash of the root that the store has, without the first one's updates.
  pub finalize_twice :
      (s : StateRoot) (view : NodeId → Bytes)
      → IsLawful c
      → IsPending s view
      → (ups : TrieUpdates) × (s' : StateRoot) × (s'' : StateRoot) × (finalize c trie threads levels
            s
          ≡ ok ((root_hash c (after view (s.updates ++ ups) 0), s.updates ++ ups), s'))
        × (finalize c trie threads levels s' ≡ ok ((root_hash c (view 0), []), s''))
  unfolding finalize nodes_before
  finalize_twice s view lawful pending =
      let (ups, s', run, commits, readable, done, above) =
        finalize-IsPending s view lawful pending in
      let k = s.deferred_levels in
      let start : StateRoot = record s' { updates = []; deferred_levels = k } in
      let one_more : k + 1 ≡ suc k = omega arith in
      let positive : 0 < s'.min_par_batch_size = omega (arith, done.batch_lem, pending.positive) in
      (
        ups,
        s',
        cache_new [] start,
        run,
        rw
            (
              done.updates_lem,
              done.deferred_lem,
              one_more,
              idle_root k start view pending.levels_left lawful positive pending.stored,
              drop_updates_lem [] k (omega (arith, pending.levels_left)),
            )
            refl,
      )
