-- ===== src/Proof/Shape/Slots.antt =====
-- The slot positions that `parents_and_points` of salt/src/proof/shape.rs collects.
use salt_optimizations.Prelude.{
  ℕ, ◌%◌, ◌≡◌, refl, sym, ap, ◌∙◌, Bool, true, false, some, List, [], ◌∷◌, arith, inl, inr,
  Bool-cases, ==_iff, ◌==◌, ◌||◌, if◌then◌else◌,
}
use salt_optimizations.Prelude.Maps
use salt_optimizations.Prelude.Maps.{Map}
use salt_optimizations.Prelude.Result.{ok, ok-injective, and_then-result, or_panic, or_panic-some}
use salt_optimizations.Constant.{trie_width}
use salt_optimizations.Types.SaltKey.{SaltKey, bucket_id, slot_id}
use salt_optimizations.Types.NodeId.{NodeId}
use salt_optimizations.Trie.NodeUtils.{bucket_root_node_id, subtree_leaf_for_key}
use salt_optimizations.Proof.Sets
use salt_optimizations.Proof.Sets.{Set, extend, extend_at, or_default}
use salt_optimizations.Proof.Shape.{
  Points, bridge, main_path, merge, parents_and_points, points_from, points_of_key, segment_node,
  subtree_path,
}

-- The number is in the set.
unfoldable pub has : ℕ → Set → Bool
has k [] = false
has k (j ∷ s) = (j == k) || has k s

has-insert : (q k : ℕ) (s : Set) → has q (Sets.insert k s) ≡ ((k == q) || has q s)
unfolding has Sets.insert
has-insert q k [] = refl
has-insert q k (j ∷ s) = ground (arith, has-insert q k s)

pub has-extend : (q : ℕ) (ks : List ℕ) (s : Set) → has q (extend s ks) ≡ (has q ks || has q s)
unfolding has extend
has-extend q [] s = refl
has-extend q (k ∷ ks) s = ground (arith, has-extend q ks (Sets.insert k s), has-insert q k s)

-- The positions recorded at a node.
abbrev pub at : NodeId → Map Set → Set
at node map = or_default (Maps.get node map)

pub at-extend_at :
    (q key : NodeId) (items : List ℕ) (map : Map Set)
    → at q (extend_at key items map) ≡ (if key == q then extend (at key map) items else at q map)
unfolding extend_at or_default
at-extend_at q key items map =
    ap or_default (Maps.get-insert key q (extend (or_default (Maps.get key map)) items) map)
    ∙ (elim (Bool-cases (key == q)) [ inl same ↦ rw (same) refl | inr other ↦ rw (other) refl ])

-- Recording more loses nothing.
pub extend_at-keeps :
    (q key i : ℕ) (items : List ℕ) (map : Map Set)
    → has i (at q map) ≡ true
    → has i (at q (extend_at key items map)) ≡ true
extend_at-keeps q key i items map h = elim (Bool-cases (key == q)) [
  | inl same ↦
      let e : key ≡ q = (==_iff key q).0 same in
      let kept : has i (at key map) ≡ true = ap (λ n. has i (at n map)) e ∙ h in
      rw (at-extend_at q key items map, same)
        (has-extend i items (at key map) ∙ (ground (arith, kept)))
  | inr other ↦ rw (at-extend_at q key items map, other) h
]

pub merge-keeps :
    (q i : ℕ) (acc map : Map Set) → has i (at q acc) ≡ true → has i (at q (merge acc map)) ≡ true
unfolding merge
merge-keeps q i acc [] h = h
merge-keeps q i acc ((node, positions) ∷ map) h =
    merge-keeps q i (extend_at node positions acc) map (extend_at-keeps q node i positions acc h)

-- What is merged first in is there.
merge-adds :
    (node i : ℕ) (acc : Map Set) → has i (at node (merge acc (extend_at node (i ∷ []) []))) ≡ true
unfolding merge extend_at Maps.get Maps.insert or_default extend Sets.insert has
merge-adds node i acc =
    let same : (node == node) ≡ true = (==_iff node node).1 refl in
    let found : ((i == i) || false) ≡ true = ground arith in added node i acc same found
  where
    added :
        (node i : ℕ) (acc : Map Set)
        → (node == node) ≡ true
        → has i (i ∷ []) ≡ true
        → has i (at node (extend_at node (i ∷ []) acc)) ≡ true
    added node i acc same found =
        ap (has i) (at-extend_at node node (i ∷ []) acc ∙ rw (same) refl)
        ∙ has-extend i (i ∷ []) (at node acc)
        ∙ ap (λ b. b || has i (at node acc)) found

module _ {E : Type 0} (levels : Map ℕ) where
  -- A key's points have one slot position node, its segment.
  points_of_key-slots :
      (key : SaltKey) (points : Points)
      → points_of_key {E = E} levels key ≡ ok points
      → (level : ℕ) × (Maps.get (bucket_id key) levels ≡ some level)
        × (points.1 ≡ extend_at (segment_node key level) (slot_id key % trie_width ∷ []) [])
  unfolding points_of_key
  points_of_key-slots key points h =
      let (level, h0, h1) =
        and_then-result (or_panic (Maps.get (bucket_id key) levels)) _ points h in
      let (upper, h2, h3) =
        and_then-result (main_path 5 (bucket_root_node_id (bucket_id key)) []) _ points h1 in
      let (top, h4, h5) =
        and_then-result (subtree_path level (subtree_leaf_for_key key) upper) _ points h3 in
      let (internal, h6, h7) = and_then-result (bridge key level top.0 top.1) _ points h5 in
      (
        level,
        or_panic-some (Maps.get (bucket_id key) levels) level h0,
        ap (λ (p : Points). p.1) (sym (ok-injective h7)),
      )

  points_from-keeps :
      (keys : List SaltKey) (acc points : Points) (q i : ℕ)
      → points_from {E = E} levels keys acc ≡ ok points
      → has i (at q acc.1) ≡ true
      → has i (at q points.1) ≡ true
  unfolding points_from
  points_from-keeps [] acc points q i h kept =
      ap (λ (p : Points). has i (at q p.1)) (sym (ok-injective h)) ∙ kept
  points_from-keeps (key ∷ keys) acc points q i h kept =
      let (one, h0, h1) = and_then-result (points_of_key levels key) _ points h in
      points_from-keeps keys (merge acc.0 one.0, merge acc.1 one.1) points q i h1
        (merge-keeps q i acc.1 one.1 kept)

  points_from-slot :
      (keys : List SaltKey) (acc points : Points) (key : SaltKey) (level : ℕ)
      → points_from {E = E} levels keys acc ≡ ok points
      → has key keys ≡ true
      → Maps.get (bucket_id key) levels ≡ some level
      → has (slot_id key % trie_width) (at (segment_node key level) points.1) ≡ true
  unfolding points_from has
  points_from-slot [] acc points key level h listed found = cc
  points_from-slot (j ∷ keys) acc points key level h listed found =
      let (one, h0, h1) = and_then-result (points_of_key levels j) _ points h in
      elim (Bool-cases (j == key)) [
        | inr other ↦
            let later : has key keys ≡ true = ground arith in
            points_from-slot keys (merge acc.0 one.0, merge acc.1 one.1) points key level h1 later
              found
        | inl same ↦
            let e : j ≡ key = (==_iff j key).0 same in
            let (level', at_j, slots) = points_of_key-slots j one h0 in
            let levels_agree : some level' ≡ some level =
              sym at_j ∙ ap (λ n. Maps.get (bucket_id n) levels) e ∙ found in
            let e' : level' ≡ level = cc in
            let here : has (slot_id key % trie_width)
                  (at (segment_node key level) (merge acc.1 one.1))
                ≡ true =
              ap (λ m. has (slot_id key % trie_width) (at (segment_node key level) (merge acc.1 m)))
                (slots
                  ∙ ap (λ n. extend_at (segment_node n level') (slot_id n % trie_width ∷ []) []) e
                  ∙ ap (λ n. extend_at (segment_node key n) (slot_id key % trie_width ∷ []) []) e')
              ∙ merge-adds (segment_node key level) (slot_id key % trie_width) acc.1 in
            points_from-keeps keys (merge acc.0 one.0, merge acc.1 one.1) points
              (segment_node key level) (slot_id key % trie_width) h1 here
      ]

  -- The position of each key's slot is recorded at the node of its segment.
  pub parents_and_points-slot :
      (keys : List SaltKey) (points : Points) (key : SaltKey) (level : ℕ)
      → parents_and_points {E = E} keys levels ≡ ok points
      → has key keys ≡ true
      → Maps.get (bucket_id key) levels ≡ some level
      → has (slot_id key % trie_width) (at (segment_node key level) points.1) ≡ true
  unfolding parents_and_points
  parents_and_points-slot keys points key level h listed found =
      points_from-slot keys ([], []) points key level h listed found
