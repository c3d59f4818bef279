-- ===== src/Trie/Update/Whole.antt =====
-- `update_fin` of salt/src/trie/trie.rs on the main trie: the root commits to the values.
use native.Mathlib.Decide.{dec_lt}
use salt_optimizations.Prelude.{ℕ, suc, ◌≤◌, ◌<◌, ◌≡◌, refl, sym, ap, ◌∙◌, Option, [], ◌++◌, arith}
use salt_optimizations.Prelude.Bytes.{Bytes}
use salt_optimizations.Prelude.Maps
use salt_optimizations.Prelude.Sort.{Each}
use salt_optimizations.Prelude.Result.{Res, ok}
use salt_optimizations.Types.SaltKey.{SaltKey, BucketId}
use salt_optimizations.Types.SaltValue.{SaltValue}
use salt_optimizations.Types.NodeId.{NodeId}
use salt_optimizations.State.Updates.{StateUpdates}
use salt_optimizations.Store.TrieReader.{TrieReader, TrieUpdates}
use salt_optimizations.Trie.Committer.{Committer, IsLawful, root_hash}
use salt_optimizations.Trie.StateRoot.{StateRoot, commitment}
use salt_optimizations.Trie.StateRoot.Positions.{Chained, after}
use salt_optimizations.Trie.StateRoot.Internal.{Each-map}
use salt_optimizations.Trie.Update.{finalize, update_fin}
use salt_optimizations.Trie.Update.MainLevels.{first}
use salt_optimizations.Trie.Update.Views.{
  after-append, after_above, after_below, after-get, Chained_of_sorted,
}
use salt_optimizations.Trie.Update.Climb.{CommitsAbove, first_mono}
use salt_optimizations.Trie.Update.Finalize.{IsPending, finalize-IsPending}
use salt_optimizations.Trie.Update.Small.{IsSmall}
use salt_optimizations.Trie.Update.Propagate.{commits_local}
use salt_optimizations.Trie.Update.Committed.{
  IsHashed, LeavesCommit, IsCommitted, update-IsCommitted, leaf_level,
}

abbrev Update : Type 0
Update = NodeId × (Bytes × Bytes)

module _ {E : Type 0} (c : Committer) (trie : TrieReader E) (threads : ℕ)
    (levels : BucketId → Res E ℕ) (hash : Option SaltValue → c.Scalar) where
  -- The store's commitments, before a session that defers the first `k` levels.
  pub record IsStart (k : ℕ) (old : NodeId → Bytes) : Type 0 where
    pub some_level : 1 ≤ k
    pub stored : trie.commitment 0 ≡ ok (old 0)
    pub commits : CommitsAbove c k old

  -- Every inner node of the main trie commits to its children, and the leaves to the values.
  pub record IsWhole (values : SaltKey → Option SaltValue) (view : NodeId → Bytes) : Type 0 where
    pub inner : CommitsAbove c 3 view
    pub leaves : LeavesCommit c trie threads levels hash values view

  -- The pending updates lead to the commitments of `now`.
  now_lem :
      (s : StateRoot) (values : SaltKey → Option SaltValue) (old now : NodeId → Bytes) (p : NodeId)
      → IsCommitted c trie threads levels hash old s values now
      → after old s.updates p ≡ now p
  now_lem s values old now p committed =
      after-get old s.updates p committed.followed.sorted ∙ sym (committed.followed.news p)

  pending :
      (s : StateRoot) (values : SaltKey → Option SaltValue) (old now : NodeId → Bytes)
      → IsCommitted c trie threads levels hash old s values now
      → IsStart s.deferred_levels old
      → IsPending c trie threads levels s old
  pending s values old now committed start =
      let k = s.deferred_levels in
      let olds = committed.followed.olds in
      let deep =
        Each-map (λ (u : Update). (first k ≤ u.0) × (u.1.0 ≡ old u.0)) _ s.updates (λ u o. o.0)
          olds in
      record {
        positive = committed.positive;
        some_level = start.some_level;
        levels_left = committed.levels_left;
        deep = deep;
        chained = Chained_of_sorted old s.updates committed.followed.sorted (
            Each-map (λ (u : Update). (first k ≤ u.0) × (u.1.0 ≡ old u.0)) _ s.updates (λ u o. o.1)
              olds);
        readable = λ p lt.
            committed.followed.reads p
              (omega (arith, first_mono k 4 (omega (arith, committed.levels_left))))
            ∙ ap (λ b. ok b)
                (sym (now_lem s values old now p committed)
                  ∙ after_below (first k) old s.updates p deep lt);
        stored = start.stored;
        commits = start.commits;
      }

  -- A session without pending updates, over a store whose commitments are whole.
  pub fresh-IsCommitted :
      (s : StateRoot) (values : SaltKey → Option SaltValue) (old : NodeId → Bytes)
      → s.updates ≡ []
      → 0 < s.min_par_batch_size
      → s.deferred_levels ≤ 3
      → ((p : NodeId) → p < first 4 → commitment c trie threads s p ≡ ok (old p))
      → IsWhole values old
      → IsCommitted c trie threads levels hash old s values old
  unfolding Maps.get
  fresh-IsCommitted s values old empty positive left readable whole = record {
    followed = record {
      sorted = rw empty tt;
      olds = rw empty tt;
      news = λ p. rw empty refl;
      reads = readable;
    };
    positive = positive;
    levels_left = left;
    leaves = whole.leaves;
    inner = λ l p lo hi level. whole.inner l p hi level;
  }

  finalize-IsWhole :
      (s : StateRoot) (values : SaltKey → Option SaltValue) (old now : NodeId → Bytes)
      → IsLawful c
      → IsCommitted c trie threads levels hash old s values now
      → IsStart s.deferred_levels old
      → (all : TrieUpdates) × (s' : StateRoot) × (finalize c trie threads levels s
          ≡ ok ((root_hash c (after old all 0), all), s'))
        × IsWhole values (after old all)
  finalize-IsWhole s values old now lawful committed start =
      let k = s.deferred_levels in
      let (ups, s', run, commits, readable, done, above) =
        finalize-IsPending c trie threads levels s old lawful
          (pending s values old now committed start) in
      let final = after old (s.updates ++ ups) in
      let kept_below : (p : NodeId) → first k ≤ p → final p ≡ now p = λ p le.
        ap (λ v. v p) (after-append old s.updates ups)
        ∙ after_above (first k) (after old s.updates) ups p above le
        ∙ now_lem s values old now p committed in
      (
        s.updates ++ ups,
        s',
        run,
        record {
          inner = λ n p lt level. elim (dec_lt n k) [
            | yes deferred ↦ commits n p deferred level
            | no lower ↦
                commits_local c n p final now (omega arith) level
                  (kept_below p (omega (arith, first_mono k n (omega arith))))
                  (λ j lev. kept_below j (omega (arith, first_mono k (suc n) (omega arith))))
                  (committed.inner n p (omega arith) lt level)
          ];
          leaves = λ leaf main.
              ap c.from_bytes (
                kept_below leaf
                  (omega (arith, first_mono k 3 committed.levels_left, (leaf_level leaf main).0)))
              ∙ committed.leaves leaf main;
        },
      )

  -- If a session follows the values, defers 1 to 3 levels and has a smallest task that is not 0, the
  -- store's root and deferred levels are from before the session, and elements are lawful, then
  -- `update_fin` with chained changes of slots of data buckets of the smallest capacity succeeds. After
  -- the updates it returns, every inner node of the main trie commits to its children and every leaf
  -- to the changed values, and the hash it returns is that of the root's commitment.
  pub update_fin-IsWhole :
      (s : StateRoot) (values : SaltKey → Option SaltValue) (old now : NodeId → Bytes)
      (us : StateUpdates)
      → IsLawful c
      → IsCommitted c trie threads levels hash old s values now
      → IsStart s.deferred_levels old
      → Each (IsSmall c trie threads levels s) us
      → Each (IsHashed c trie threads levels hash) us
      → Chained values us
      → (all : TrieUpdates) × (s' : StateRoot) × (update_fin c trie threads levels us s
          ≡ ok ((root_hash c (after old all 0), all), s'))
        × IsWhole (after values us) (after old all)
  unfolding update_fin
  update_fin-IsWhole s values old now us lawful committed start small hashed chained =
      let (t, now', run, committed', kept) =
        update-IsCommitted c trie threads levels hash s values old now us lawful committed small
          hashed chained in
      let (all, s', fin, whole) =
        finalize-IsWhole t (after values us) old now' lawful committed' (record {
          some_level = omega (arith, start.some_level, kept.deferred_lem);
          stored = start.stored;
          commits = rw kept.deferred_lem start.commits;
        }) in
      (all, s', rw run fin, whole)
