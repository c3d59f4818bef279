-- ===== src/Trie/Update/Climb.antt =====
-- The loop of `update_main_trie` (salt/src/trie/trie.rs), level by level up to the root.
use mathlib.Core.List.{append-nil, append_assoc}
use mathlib.Core.Path.{subst}
use salt_optimizations.Prelude.{ℕ, zero, suc, ◌≤◌, ◌<◌, ◌≡◌, sym, ap, ◌∙◌, [], ◌∷◌, ◌++◌, arith}
use native.Mathlib.Decide.{dec_lt}
use salt_optimizations.Prelude.Bytes.{Bytes}
use salt_optimizations.Prelude.Maps
use salt_optimizations.Prelude.Sort.{Each}
use salt_optimizations.Prelude.Result.{Res, ok}
use salt_optimizations.Types.SaltKey.{BucketId}
use salt_optimizations.Types.NodeId.{NodeId}
use salt_optimizations.Store.TrieReader.{TrieReader, TrieUpdates}
use salt_optimizations.Trie.Committer.{Committer, IsLawful}
use salt_optimizations.Trie.NodeUtils.{get_parent_node}
use salt_optimizations.Trie.StateRoot.{StateRoot, commitment}
use salt_optimizations.Trie.StateRoot.Positions.{Chained, after}
use salt_optimizations.Trie.StateRoot.Vector.{commit_to_congr}
use salt_optimizations.Trie.StateRoot.Level.{child, children_commitment, or_root}
use salt_optimizations.Trie.StateRoot.Internal.{
  KnownParent, update_internal_nodes-merged, newest, newest_of, Each-map,
}
use salt_optimizations.Trie.Update.{main_trie_loop}
use salt_optimizations.Trie.Update.MainLevels.{
  first, OnLevel, OnLevel-IsInner, child-OnLevel, parent_on,
}
use salt_optimizations.Trie.Update.Views.{
  after-append, Chained-append, after_above, after_below, after-get, Chained_of_sorted,
}
use salt_optimizations.Trie.Update.Root.{RootLast, RootLast-level}

abbrev Update : Type 0
Update = NodeId × (Bytes × Bytes)

pub Each-append {κ} :
    (P : Update → Type κ) (xs ys : TrieUpdates) → Each P xs → Each P ys → Each P (xs ++ ys)
Each-append P [] ys h k = k
Each-append P (u ∷ xs) ys h k = (h.0, Each-append P xs ys h.1 k)

first_rises : (k : ℕ) → first k < first (suc k)
first_rises k = omega arith

pub first_mono : (n k : ℕ) → n ≤ k → first n ≤ first k
first_mono n zero h = let e : n ≡ 0 = omega arith in rw e (omega arith)
first_mono n (suc k) h = elim (dec_lt k n) [
  | yes over ↦ let e : n ≡ suc k = omega arith in rw e (omega arith)
  | no within ↦ omega (arith, first_mono n k (omega arith))
]

module _ (c : Committer) where
  -- Every node of the first `k` levels commits to its children.
  abbrev pub CommitsAbove : ℕ → (NodeId → Bytes) → Type 0
  CommitsAbove k view =
      (n : ℕ) (p : NodeId)
      → n < k
      → OnLevel n p
      → c.from_bytes (view p) ≡ children_commitment c view p

  -- A commitment to children depends on them only.
  pub children_commitment-local :
      (n : ℕ) (p : NodeId) (view view' : NodeId → Bytes)
      → n ≤ 2
      → OnLevel n p
      → ((j : NodeId) → OnLevel (suc n) j → view j ≡ view' j)
      → children_commitment c view p ≡ children_commitment c view' p
  children_commitment-local n p view view' h on same =
      commit_to_congr c (λ i. c.hash_commitment (view (child p i)))
        (λ i. c.hash_commitment (view' (child p i))) 255
        (λ i le. ap c.hash_commitment (same (child p i) (child-OnLevel n p i h on (omega arith))))

module _ {E : Type 0} (c : Committer) (trie : TrieReader E) (threads : ℕ)
    (levels : BucketId → Res E ℕ) (s : StateRoot) where
  -- The commitments of the nodes above level `k` can be read.
  abbrev pub CanRead : ℕ → (NodeId → Bytes) → Type 0
  CanRead k view = (p : NodeId) → p < first k → commitment c trie threads s p ≡ ok (view p)

  -- What the loop adds to the updates of level `k`.
  pub record Climbs (k : ℕ) (view : NodeId → Bytes) (us ups : TrieUpdates) : Type 0 where
    pub above : Each (λ (u : Update). u.0 < first k) ups
    pub chained : Chained (after view us) ups
    pub root_last : RootLast ups
    pub commits : CommitsAbove c k (after (after view us) ups)

  pub known_parents :
      (k : ℕ) (view : NodeId → Bytes) (us : TrieUpdates)
      → k ≤ 2
      → CanRead (suc k) view
      → Each (λ (u : Update). OnLevel (suc k) u.0) us
      → Each (KnownParent c trie threads s view) us
  known_parents k view us h readable on =
      Each-map (λ (u : Update). OnLevel (suc k) u.0) (KnownParent c trie threads s view) us
        (λ u level.
          let (is_child, up) = parent_on k u.0 h level in
          (is_child, readable (or_root (get_parent_node u.0)) up.1))
        on

  -- A node of the level that is updated, once the levels above it are updated too.
  new_level :
      (k : ℕ) (view view1 : NodeId → Bytes) (res ups : TrieUpdates) (p : NodeId)
      → k ≤ 2
      → OnLevel k p
      → Maps.IsSorted res
      → view1 p ≡ view p
      → c.from_bytes (newest c trie threads s view res p) ≡ children_commitment c view1 p
      → Each (λ (u : Update). u.0 < first k) ups
      → Each (λ (u : Update). u.0 < first (suc k)) (res ++ ups)
      → c.from_bytes (after (after view1 res) ups p)
        ≡ children_commitment c (after (after view1 res) ups) p
  new_level k view view1 res ups p h level sorted before commits above all_above =
      ap c.from_bytes (
        after_above (first k) (after view1 res) ups p above level.0
        ∙ after-get view1 res p sorted
        ∙ ap (λ b. newest_of b (Maps.get p res)) before)
      ∙ commits
      ∙ children_commitment-local c k p view1 (after (after view1 res) ups) h level (λ j lev. sym (
          ap (λ v. v j) (sym (after-append view1 res ups))
          ∙ after_above (first (suc k)) view1 (res ++ ups) j all_above lev.0))

  pub main_trie_loop-Climbs :
      (k : ℕ) (view : NodeId → Bytes) (us acc : TrieUpdates)
      → k ≤ 3
      → IsLawful c
      → 0 < s.min_par_batch_size
      → Each (λ (u : Update). OnLevel k u.0) us
      → Chained view us
      → CanRead k view
      → CommitsAbove c k view
      → (ups : TrieUpdates) × (main_trie_loop c trie threads levels s k us acc ≡ ok (acc ++ ups))
        × Climbs k view us ups
  unfolding main_trie_loop after
  main_trie_loop-Climbs zero view us acc h lawful positive on chained readable commits = (
    [],
    ap (λ l. ok l) (sym (append-nil acc)),
    record { above = tt; chained = tt; root_last = tt; commits = λ n p lt. absurd (omega arith) },
  )
  main_trie_loop-Climbs (suc k) view us acc h lawful positive on chained readable commits =
      let (res, found, newest_commits, merged, reaches) =
        update_internal_nodes-merged c trie threads s view (OnLevel k) us lawful
          (known_parents k view us (omega arith) readable on) chained positive
          (Each-map (λ (u : Update). OnLevel (suc k) u.0) _ us
            (λ u level. (parent_on k u.0 (omega arith) level).1) on) in
      let view1 = after view us in
      let before : (j : NodeId) → j < first (suc k) → view1 j ≡ view j = λ j lt.
        after_below (first (suc k)) view us j
          (Each-map (λ (u : Update). OnLevel (suc k) u.0) _ us (λ u level. level.0) on) lt in
      let res_on =
        Each-map (λ (u : Update). OnLevel k u.0 × (u.1.0 ≡ view u.0)) _ res (λ u o. o.0)
          merged.olds in
      let res_chained = Chained_of_sorted view1 res merged.sorted (
        Each-map (λ (u : Update). OnLevel k u.0 × (u.1.0 ≡ view u.0)) _ res
          (λ u o. o.1 ∙ sym (before u.0 o.0.1)) merged.olds) in
      let (ups, run, climbs) =
        main_trie_loop-Climbs k view1 res (acc ++ res) (omega arith) lawful positive res_on
          res_chained
          (λ p lt.
            readable p (omega (arith, first_rises k))
            ∙ ap (λ b. ok b) (sym (before p (omega (arith, first_rises k)))))
          (λ n p lt level.
            let low = first_mono (suc n) k lt in
            ap c.from_bytes (before p (omega (arith, first_rises k)))
            ∙ commits n p (omega arith) level
            ∙ children_commitment-local c n p view view1 (omega arith) level (λ j lev.
              sym (before j (omega (arith, first_mono (suc (suc n)) (suc k) (omega arith)))))) in
      let all_above : Each (λ (u : Update). u.0 < first (suc k)) (res ++ ups) =
        Each-append (λ (u : Update). u.0 < first (suc k)) res ups
          (Each-map (λ (u : Update). OnLevel k u.0) _ res (λ u o. o.1) res_on)
          (Each-map (λ (u : Update). u.0 < first k) _ ups (λ u lt. omega (arith, first_rises k))
            climbs.above) in
      (
        res ++ ups,
        rw found (run ∙ ap (λ l. ok l) (append_assoc acc res ups)),
        record {
          above = all_above;
          chained = Chained-append view1 res ups res_chained climbs.chained;
          root_last = RootLast-level k res ups res_on merged.sorted climbs.above climbs.root_last;
          commits = λ n p lt level. rw (after-append view1 res ups) (elim (dec_lt n k) [
            | yes lower ↦ climbs.commits n p lower level
            | no here ↦
                let e : n ≡ k = omega arith in
                let level' : OnLevel k p = subst (λ m. OnLevel m p) e level in
                new_level k view view1 res ups p (omega arith) level' merged.sorted
                  (before p level'.1)
                  (newest_commits p (OnLevel-IsInner k p (omega arith) level')
                    (commits k p (omega arith) level'))
                  climbs.above all_above
          ]);
        },
      )
