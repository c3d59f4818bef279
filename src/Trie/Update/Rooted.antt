-- ===== src/Trie/Update/Rooted.antt =====
-- `update_main_trie` of salt/src/trie/trie.rs: the hash of the root after the updates.

use salt_optimizations.Prelude.{
  ℕ, suc, ◌-◌, ◌≤◌, ◌<◌, ◌≡◌, refl, sym, ap, ◌∙◌, some, [], ◌∷◌, ◌++◌, arith, inl, inr, ◌==◌,
  if◌then◌else◌,
}
use salt_optimizations.Prelude.Bytes.{Bytes}
use salt_optimizations.Prelude.Sort.{Each}
use salt_optimizations.Prelude.Result.{Res, ok}
use salt_optimizations.Types.SaltKey.{BucketId}
use salt_optimizations.Types.NodeId.{NodeId}
use salt_optimizations.Store.TrieReader.{TrieReader, TrieUpdates}
use salt_optimizations.Trie.Committer.{Committer, IsLawful, root_hash}
use salt_optimizations.Trie.StateRoot.{StateRoot}
use salt_optimizations.Trie.StateRoot.Positions.{Chained, after, changed}
use salt_optimizations.Trie.Update.{
  nodes_before, drop_updates_below_level, last_root, root_or_stored, update_main_trie,
}
use salt_optimizations.Trie.Update.MainLevels.{first, first_lem}
use salt_optimizations.Trie.Update.Views.{
  after-append, after-nodes_before, Chained-nodes_before, nodes_before-Each,
}
use salt_optimizations.Trie.Update.Root.{RootLast, RootLast-append, last_root_lem}
use salt_optimizations.Trie.Update.Climb.{
  CommitsAbove, CanRead, main_trie_loop-Climbs, children_commitment-local, first_mono,
}

pub drop_updates_lem :
    (us : TrieUpdates) (k : ℕ)
    → k ≤ 4
    → drop_updates_below_level us k ≡ some (nodes_before (first k) us)
unfolding drop_updates_below_level
drop_updates_lem us k h = rw (first_lem k h) refl

-- An update does not look at the other nodes.
after-at :
    (view view' : NodeId → Bytes) (us : TrieUpdates) (j : NodeId)
    → view j ≡ view' j
    → after view us j ≡ after view' us j
unfolding after
after-at view view' [] j e = e
after-at view view' ((id, (old, new)) ∷ us) j e =
    after-at (changed view id new) (changed view' id new) us j
      (ap (λ b. if id == j then new else b) e)

below_root :
    (k : ℕ) (us : TrieUpdates)
    → 1 ≤ k
    → Each (λ (u : NodeId × (Bytes × Bytes)). first k ≤ u.0) us
    → Each (λ (u : NodeId × (Bytes × Bytes)). 1 ≤ u.0) us
below_root k [] lo h = tt
below_root k (u ∷ us) lo h = (omega (arith, first_mono 1 k lo), below_root k us lo h.1)

module _ {E : Type 0} (c : Committer) (trie : TrieReader E) (threads : ℕ)
    (levels : BucketId → Res E ℕ) where
  -- What `update_main_trie` returns: the hash of the root's commitment after all updates.
  pub record Rooted (k : ℕ) (s : StateRoot) (view : NodeId → Bytes) (acc ups : TrieUpdates)
      : Type 0 where
    pub run :
        update_main_trie c trie threads levels s acc (suc k)
        ≡ ok (root_hash c (after view (acc ++ ups) 0), acc ++ ups)
    pub commits : CommitsAbove c k (after view (acc ++ ups))
    pub above : Each (λ (u : NodeId × (Bytes × Bytes)). u.0 < first k) ups

  root_lem :
      (view : NodeId → Bytes) (all : TrieUpdates)
      → RootLast all
      → trie.commitment 0 ≡ ok (view 0)
      → root_or_stored c trie threads levels (last_root all) ≡ ok (after view all 0)
  unfolding root_or_stored
  root_lem view all root stored = elim (last_root_lem view all root) [
    | inl absent ↦ rw absent.0 (stored ∙ ap (λ b. ok b) (sym absent.1))
    | inr present ↦ rw present refl
  ]

  pub update_main_trie-Rooted :
      (k : ℕ) (s : StateRoot) (view : NodeId → Bytes) (acc : TrieUpdates)
      → 1 ≤ k
      → k ≤ 3
      → IsLawful c
      → 0 < s.min_par_batch_size
      → Each (λ (u : NodeId × (Bytes × Bytes)). first k ≤ u.0) acc
      → Chained view acc
      → CanRead c trie threads levels s k view
      → trie.commitment 0 ≡ ok (view 0)
      → CommitsAbove c k view
      → (ups : TrieUpdates) × Rooted k s view acc ups
  unfolding update_main_trie
  update_main_trie-Rooted k s view acc lo hi lawful positive deep chained readable stored commits =
      let end = first (suc k) in
      let level = nodes_before end acc in
      let (ups, loop, climbs) =
        main_trie_loop-Climbs c trie threads levels s k view level acc hi lawful positive
          (nodes_before-Each (first k) end acc deep)
          (Chained-nodes_before end view view acc (λ j lt. refl) chained) readable commits in
      let all = acc ++ ups in
      let one_less : suc k - 1 ≡ k = omega arith in
      let root =
        root_lem view all (RootLast-append acc ups (below_root k acc lo deep) climbs.root_last)
          stored in
      let whole : (j : NodeId) → j < end → after (after view level) ups j ≡ after view all j =
        λ j lt.
          after-at (after view level) (after view acc) ups j
            (sym (after-nodes_before end view view acc (λ i small. refl) j lt))
          ∙ ap (λ v. v j) (sym (after-append view acc ups)) in
      (
        ups,
        record {
          run = rw (drop_updates_lem acc (suc k) (omega arith), one_less, loop, root) refl;
          commits = λ n p lt on.
              ap c.from_bytes
                (sym (whole p (omega (arith, first_mono (suc n) (suc k) (omega arith)))))
              ∙ climbs.commits n p lt on
              ∙ children_commitment-local c n p (after (after view level) ups) (after view all)
                  (omega arith) on
                  (λ j lev.
                    whole j (omega (arith, first_mono (suc (suc n)) (suc k) (omega arith))));
          above = climbs.above;
        },
      )
