-- ===== src/Trie/Update/Propagate.antt =====
-- The loop of `update` (salt/src/trie/trie.rs), level by level up to the deferred ones.
use mathlib.Core.Path.{subst}
use native.Mathlib.Decide.{dec_lt}
use salt_optimizations.Prelude.{ℕ, zero, suc, ◌+◌, ◌≤◌, ◌<◌, ◌≡◌, refl, sym, ap, ◌∙◌, arith}
use salt_optimizations.Prelude.Bytes.{Bytes}
use salt_optimizations.Prelude.Sort.{Each}
use salt_optimizations.Prelude.Maps
use salt_optimizations.Prelude.Result.{Res, ok}
use salt_optimizations.Types.SaltKey.{BucketId}
use salt_optimizations.Types.NodeId.{NodeId}
use salt_optimizations.Store.TrieReader.{TrieReader, TrieUpdates}
use salt_optimizations.Trie.Committer.{Committer, IsLawful}
use salt_optimizations.Trie.StateRoot.{StateRoot, update_internal_nodes}
use salt_optimizations.Trie.StateRoot.Positions.{Chained, after}
use salt_optimizations.Trie.StateRoot.Level.{children_commitment}
use salt_optimizations.Trie.StateRoot.Internal.{update_internal_nodes-merged, newest_of, Each-map}
use salt_optimizations.Trie.Update.{propagate, apply_updates_to_caches}
use salt_optimizations.Trie.Update.MainLevels.{first, OnLevel, OnLevel-IsInner, parent_on}
use salt_optimizations.Trie.Update.Views.{after_above, after_below, after-get, Chained_of_sorted}
use salt_optimizations.Trie.Update.Climb.{
  first_mono, known_parents, children_commitment-local, CanRead,
}
use salt_optimizations.Trie.Update.Caches.{
  IsFollowed, apply_updates_to_caches-IsFollowed, IsKept, IsKept-refl, IsKept-trans,
  apply_updates_to_caches-IsKept,
}

abbrev Update : Type 0
Update = NodeId × (Bytes × Bytes)

module _ (c : Committer) where
  -- The nodes of the levels from `m` to `n`, without `n`, commit to their children.
  abbrev pub CommitsFrom : ℕ → ℕ → (NodeId → Bytes) → Type 0
  CommitsFrom m n view =
      (l : ℕ) (p : NodeId)
      → m ≤ l
      → l < n
      → OnLevel l p
      → c.from_bytes (view p) ≡ children_commitment c view p

  -- That nodes commit to their children depends on their own and their children's commitments.
  pub commits_local :
      (l : ℕ) (p : NodeId) (view view' : NodeId → Bytes)
      → l ≤ 2
      → OnLevel l p
      → view p ≡ view' p
      → ((j : NodeId) → OnLevel (suc l) j → view j ≡ view' j)
      → c.from_bytes (view' p) ≡ children_commitment c view' p
      → c.from_bytes (view p) ≡ children_commitment c view p
  commits_local l p view view' h on own below e =
      ap c.from_bytes own ∙ e ∙ sym (children_commitment-local c l p view view' h on below)

module _ {E : Type 0} (c : Committer) (trie : TrieReader E) (threads : ℕ)
    (levels : BucketId → Res E ℕ) (k : ℕ) (old : NodeId → Bytes) where
  -- A session whose main trie can be read.
  abbrev pub Follows : StateRoot → (NodeId → Bytes) → Type 0
  Follows s now = IsFollowed c trie threads levels k (first 4) old s now

  -- What the updates `res` of level `m` are after updates of the level below.
  record Stepped (m : ℕ) (s : StateRoot) (us : TrieUpdates) (now : NodeId → Bytes)
      (res : TrieUpdates) : Type 0 where
    found : update_internal_nodes c trie threads s us ≡ ok res
    on : Each (λ (u : Update). OnLevel m u.0) res
    chained : Chained now res
    kept_above : (p : NodeId) → first (suc m) ≤ p → after now res p ≡ now p
    above : CommitsFrom c k m now
    below : CommitsFrom c m 3 (after now res)

  -- The commitments above are those from before the updates.
  before_lem :
      (j : ℕ) (before : NodeId → Bytes) (us : TrieUpdates) (p : NodeId)
      → Each (λ (u : Update). OnLevel j u.0) us
      → p < first j
      → after before us p ≡ before p
  before_lem j before us p on lt =
      after_below (first j) before us p
        (Each-map (λ (u : Update). OnLevel j u.0) _ us (λ u level. level.0) on) lt

  step-Stepped :
      (m : ℕ) (s : StateRoot) (before : NodeId → Bytes) (us : TrieUpdates)
      → IsLawful c
      → 0 < s.min_par_batch_size
      → k ≤ m
      → m ≤ 2
      → Each (λ (u : Update). OnLevel (suc m) u.0) us
      → Chained before us
      → Follows s (after before us)
      → CommitsFrom c k (suc m) before
      → CommitsFrom c (suc m) 3 (after before us)
      → (res : TrieUpdates) × Stepped m s us (after before us) res
  step-Stepped m s before us lawful positive lo h on chained followed above below =
      let now = after before us in
      let start : (p : NodeId) → p < first (suc m) → now p ≡ before p =
        λ p lt. before_lem (suc m) before us p on lt in
      let readable : CanRead c trie threads levels s (suc m) before = λ p lt.
        followed.reads p (omega (arith, first_mono (suc m) 4 (omega arith)))
        ∙ ap (λ b. ok b) (start p lt) in
      let (res, found, newest_commits, merged, reaches) =
        update_internal_nodes-merged c trie threads s before (OnLevel m) us lawful
          (known_parents c trie threads levels s m before us h readable on) chained positive
          (Each-map (λ (u : Update). OnLevel (suc m) u.0) _ us
            (λ u level. (parent_on m u.0 h level).1) on) in
      let kept_above : (p : NodeId) → first (suc m) ≤ p → after now res p ≡ now p = λ p le.
        after_above (first (suc m)) now res p
          (Each-map (λ (u : Update). OnLevel m u.0 × (u.1.0 ≡ before u.0))
            (λ u. u.0 < first (suc m)) res (λ u o. o.0.1) merged.olds)
          le in
      (
        res,
        record {
          found = found;
          on =
              Each-map (λ (u : Update). OnLevel m u.0 × (u.1.0 ≡ before u.0)) _ res (λ u o. o.0)
                merged.olds;
          chained = Chained_of_sorted now res merged.sorted (
              Each-map (λ (u : Update). OnLevel m u.0 × (u.1.0 ≡ before u.0)) _ res
                (λ u o. o.1 ∙ sym (start u.0 o.0.1)) merged.olds);
          kept_above = kept_above;
          above = λ l p lo' hi level.
              commits_local c l p now before (omega arith) level
                (start p (omega (arith, first_mono (suc l) (suc m) (omega arith))))
                (λ i lev. start i (omega (arith, first_mono (suc (suc l)) (suc m) (omega arith))))
                (above l p lo' (omega arith) level);
          below = λ l p lo' hi level. elim (dec_lt m l) [
            | yes lower ↦
                commits_local c l p (after now res) now (omega arith) level
                  (kept_above p (omega (arith, first_mono (suc m) l lower)))
                  (λ i lev. kept_above i (omega (arith, first_mono (suc m) (suc l) (omega arith))))
                  (below l p lower hi level)
            | no here ↦
                let same_level : l ≡ m = omega arith in
                let level' : OnLevel m p = subst (λ i. OnLevel i p) same_level level in
                ap c.from_bytes (
                  after-get now res p merged.sorted
                  ∙ ap (λ b. newest_of b (Maps.get p res)) (start p level'.1))
                ∙ newest_commits p (OnLevel-IsInner m p h level')
                    (above m p lo (omega arith) level')
                ∙ children_commitment-local c m p now (after now res) h level'
                    (λ i lev. sym (kept_above i lev.0))
          ];
        },
      )

  pub record Propagated (j : ℕ) (s s' : StateRoot) (now now' : NodeId → Bytes) : Type 0 where
    pub followed : Follows s' now'
    pub kept : IsKept s s'
    pub same : (p : NodeId) → first j ≤ p → now' p ≡ now p
    pub commits : CommitsFrom c k 3 now'

  pub propagate-Propagated :
      (left j : ℕ) (s : StateRoot) (before : NodeId → Bytes) (us : TrieUpdates)
      → IsLawful c
      → 0 < s.min_par_batch_size
      → j ≡ left + k
      → j ≤ 3
      → Each (λ (u : Update). OnLevel j u.0) us
      → Chained before us
      → Follows s (after before us)
      → CommitsFrom c k j before
      → CommitsFrom c j 3 (after before us)
      → (s' : StateRoot) × (now' : NodeId → Bytes) × (propagate c trie threads levels left us s
          ≡ ok s')
        × Propagated j s s' (after before us) now'
  unfolding propagate
  propagate-Propagated zero j s before us lawful positive e h on chained followed above below =
      let here : j ≡ k = omega arith in
      (
        s,
        after before us,
        refl,
        record {
          followed = followed;
          kept = IsKept-refl s;
          same = λ p le. refl;
          commits = subst (λ i. CommitsFrom c i 3 (after before us)) here below;
        },
      )
  propagate-Propagated (suc left) zero s before us lawful positive e h on chained followed above
        below =
      absurd (omega arith)
  propagate-Propagated (suc left) (suc m) s before us lawful positive e h on chained followed above
        below =
      let now = after before us in
      let (res, step) =
        step-Stepped m s before us lawful positive (omega arith) (omega arith) on chained followed
          above below in
      let t = apply_updates_to_caches res s in
      let t_kept = apply_updates_to_caches-IsKept res s s (IsKept-refl s) in
      let (s', now', run, done) =
        propagate-Propagated left m t now res lawful (omega (arith, t_kept.batch_lem, positive))
          (omega arith) (omega arith) step.on step.chained
          (apply_updates_to_caches-IsFollowed c trie threads levels k (first 4) old res s now
            (Each-map (λ (u : Update). OnLevel m u.0) _ res
              (λ u o. omega (arith, first_mono k m (omega arith))) step.on)
            step.chained followed)
          step.above step.below in
      (
        s',
        now',
        rw step.found run,
        record {
          followed = done.followed;
          kept = IsKept-trans s t s' t_kept done.kept;
          same = λ p le.
              done.same p (omega (arith, first_mono m (suc m) (omega arith)))
              ∙ step.kept_above p le;
          commits = done.commits;
        },
      )
