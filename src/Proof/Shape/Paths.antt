-- ===== src/Proof/Shape/Paths.antt =====
-- The paths from buckets to the root that `parents_and_points` of salt/src/proof/shape.rs collects.
use mathlib.Core.Path.{subst}
use salt_optimizations.Prelude.{
  ℕ, zero, suc, ◌+◌, ◌-◌, ◌*◌, ◌/◌, ◌%◌, ◌^◌, ◌≤◌, ◌<◌, ◌≡◌, refl, sym, ap, ◌∙◌, true, false, some,
  List, [], ◌∷◌, arith, inl, inr, Bool-cases, ==_iff, leb, ◌==◌, ◌||◌,
}
use salt_optimizations.Prelude.Maps
use salt_optimizations.Prelude.Maps.{Map}
use salt_optimizations.Prelude.Result.{ok, ok-injective, and_then-result, or_panic}
use salt_optimizations.Types.SaltKey.{SaltKey, bucket_id}
use salt_optimizations.Trie.NodeUtils.{
  bucket_root_node_id, get_child_node, get_parent_node, subtree_leaf_for_key, vc_position_in_parent,
}
use salt_optimizations.Trie.Levels.{get_parent_node-get_child_node}
use salt_optimizations.Trie.StateRoot.Level.{child}
use salt_optimizations.Trie.Update.MainLevels.{first, OnLevel, OnLevel-IsInner, child_at}
use salt_optimizations.Proof.Sets.{Set, extend_at, or_default}
use salt_optimizations.Proof.Shape.{
  Points, bridge, main_path, merge, parents_and_points, points_from, points_of_key, record_child,
  subtree_path, encode_parent,
}
use salt_optimizations.Proof.Shape.Slots.{
  at, has, at-extend_at, extend_at-keeps, has-extend, merge-keeps,
}

-- A node of the main trie, at position `i` of the node `p` of level `n`.
pub record IsChildOf (n : ℕ) (p i node : ℕ) : Type 0 where
  pub shallow : n ≤ 2
  pub level : OnLevel n p
  pub position : i < 256
  pub located : node ≡ first (suc n) + (p - first n) * 256 + i

pub IsChildOf-child : (n p i node : ℕ) → IsChildOf n p i node → get_child_node p i ≡ some node
unfolding child
IsChildOf-child n p i node h =
    let inner = OnLevel-IsInner n p h.shallow h.level in
    let (id, found, up, position) = get_parent_node-get_child_node p i inner.0 inner.1 h.position in
    let same : id ≡ node =
      sym (rw (found) refl) ∙ child_at n p i h.shallow h.level h.position ∙ sym h.located in
    found ∙ ap some same

-- What is recorded is there.
extend_at-adds : (q i : ℕ) (map : Map Set) → has i (at q (extend_at q (i ∷ []) map)) ≡ true
unfolding has
extend_at-adds q i map =
    let same : (q == q) ≡ true = (==_iff q q).1 refl in
    let found : ((i == i) || false) ≡ true = ground arith in
    ap (has i) (at-extend_at q q (i ∷ []) map ∙ rw (same) refl)
    ∙ has-extend i (i ∷ []) (at q map)
    ∙ ap (λ b. b || has i (at q map)) found

-- Merging brings in what is recorded.
merge-has :
    (q i : ℕ) (acc map : Map Set) → has i (at q map) ≡ true → has i (at q (merge acc map)) ≡ true
unfolding merge Maps.get or_default has
merge-has q i acc [] h = cc
merge-has q i acc ((node, positions) ∷ map) h = elim (Bool-cases (node == q)) [
  | inl same ↦
      let e : node ≡ q = (==_iff node q).0 same in
      let there : has i positions ≡ true = rw same at h in
      merge-keeps q i (extend_at node positions acc) map (
        ap (has i) (at-extend_at q node positions acc ∙ rw (same) refl)
        ∙ has-extend i positions (at node acc)
        ∙ ap (λ b. b || has i (at node acc)) there)
  | inr other ↦ merge-has q i (extend_at node positions acc) map (rw other at h)
]

module _ {E : Type 0} where
  record_child_lem :
      (n p i node : ℕ) (map : Map Set)
      → IsChildOf n p i node
      → record_child {E = E} node map ≡ ok (p, extend_at p (i ∷ []) map)
  unfolding record_child
  record_child_lem n p i node map h =
      let inner = OnLevel-IsInner n p h.shallow h.level in
      let (id, found, up, position) =
        get_parent_node-get_child_node p i inner.0 inner.1 h.position in
      let same : some id ≡ some node = sym found ∙ IsChildOf-child n p i node h in
      let e : id ≡ node = cc in
      let up' : get_parent_node node ≡ some p = ap get_parent_node (sym e) ∙ up in
      let position' : vc_position_in_parent node ≡ some i =
        ap vc_position_in_parent (sym e) ∙ position in
      rw (up', position') refl

  main_path-up :
      (fuel n p i node : ℕ) (map : Map Set)
      → IsChildOf n p i node
      → main_path {E = E} (suc fuel) node map ≡ main_path fuel p (extend_at p (i ∷ []) map)
  unfolding main_path
  main_path-up fuel n p i node map h =
      let below : (node == 0) ≡ false = let e = h.located in ground arith in
      rw (below, record_child_lem n p i node map h) refl

-- The nodes from a bucket's root up, with their positions.
pub root_place : (b : ℕ) → b < 2 ^ 24 → IsChildOf 2 (257 + b / 256) (b % 256) (65793 + b)
root_place b h = record {
  shallow = omega arith;
  level = omega arith;
  position = omega arith;
  located = omega arith;
}

pub middle_place :
    (b : ℕ) → b < 2 ^ 24 → IsChildOf 1 (1 + b / 65536) (b / 256 % 256) (257 + b / 256)
middle_place b h = record {
  shallow = omega arith;
  level = omega arith;
  position = omega arith;
  located = omega arith;
}

pub top_place : (b : ℕ) → b < 2 ^ 24 → IsChildOf 0 0 (b / 65536) (1 + b / 65536)
top_place b h = record {
  shallow = omega arith;
  level = omega arith;
  position = omega arith;
  located = omega arith;
}

-- The three positions on the path of the bucket `b` are recorded.
pub record OnPath (b : ℕ) (map : Map Set) : Type 0 where
  pub top : has (b / 65536) (at 0 map) ≡ true
  pub middle : has (b / 256 % 256) (at (1 + b / 65536) map) ≡ true
  pub bottom : has (b % 256) (at (257 + b / 256) map) ≡ true

OnPath-map :
    (b : ℕ) (m m' : Map Set)
    → ((q i : ℕ) → has i (at q m) ≡ true → has i (at q m') ≡ true)
    → OnPath b m
    → OnPath b m'
OnPath-map b m m' keeps h = record {
  top = keeps 0 (b / 65536) h.top;
  middle = keeps (1 + b / 65536) (b / 256 % 256) h.middle;
  bottom = keeps (257 + b / 256) (b % 256) h.bottom;
}

module _ {E : Type 0} where
  main_path_lem :
      (b : ℕ)
      → b < 2 ^ 24
      → (m : Map Set) × (main_path {E = E} 5 (bucket_root_node_id b) [] ≡ ok m) × OnPath b m
  unfolding main_path bucket_root_node_id
  main_path_lem b h =
      let m1 = extend_at (257 + b / 256) (b % 256 ∷ []) [] in
      let m2 = extend_at (1 + b / 65536) (b / 256 % 256 ∷ []) m1 in
      let m3 = extend_at 0 (b / 65536 ∷ []) m2 in
      let start : b + 65793 ≡ 65793 + b = omega arith in
      (
        m3,
        ap (λ n. main_path 5 n []) start
            ∙ main_path-up 4 2 (257 + b / 256) (b % 256) (65793 + b) [] (root_place b h)
            ∙ main_path-up 3 1 (1 + b / 65536) (b / 256 % 256) (257 + b / 256) m1 (middle_place b h)
            ∙ main_path-up 2 0 0 (b / 65536) (1 + b / 65536) m2 (top_place b h),
        record {
          top = extend_at-adds 0 (b / 65536) m2;
          middle =
              extend_at-keeps (1 + b / 65536) 0 (b / 256 % 256) (b / 65536 ∷ []) m2
                (extend_at-adds (1 + b / 65536) (b / 256 % 256) m1);
          bottom = extend_at-keeps (257 + b / 256) 0 (b % 256) (b / 65536 ∷ []) m2 (
              extend_at-keeps (257 + b / 256) (1 + b / 65536) (b % 256) (b / 256 % 256 ∷ []) m1
                (extend_at-adds (257 + b / 256) (b % 256) []));
        },
      )

  subtree_path-keeps :
      (q i count node top : ℕ) (m m' : Map Set)
      → subtree_path {E = E} count node m ≡ ok (top, m')
      → has i (at q m) ≡ true
      → has i (at q m') ≡ true
  unfolding subtree_path record_child
  subtree_path-keeps q i zero node top m m' h kept =
      subst (λ r. has i (at q r.1) ≡ true) (ok-injective h) kept
  subtree_path-keeps q i (suc zero) node top m m' h kept =
      subst (λ r. has i (at q r.1) ≡ true) (ok-injective h) kept
  subtree_path-keeps q i (suc (suc zero)) node top m m' h kept =
      subst (λ r. has i (at q r.1) ≡ true) (ok-injective h) kept
  subtree_path-keeps q i (suc (suc (suc count))) node top m m' h kept =
      let (next, h0, h1) = and_then-result (record_child node m) _ (top, m') h in
      let (parent, h2, h3) = and_then-result (or_panic (get_parent_node node)) _ next h0 in
      let (position, h4, h5) = and_then-result (or_panic (vc_position_in_parent node)) _ next h3 in
      subtree_path-keeps q i (suc (suc count)) next.0 top next.1 m' h1 (
        subst (λ r. has i (at q r.1) ≡ true) (ok-injective h5)
          (extend_at-keeps q parent i (position ∷ []) m kept))

  bridge-keeps :
      (q i : ℕ) (key : SaltKey) (level node : ℕ) (m m' : Map Set)
      → bridge {E = E} key level node m ≡ ok m'
      → has i (at q m) ≡ true
      → has i (at q m') ≡ true
  unfolding bridge
  bridge-keeps q i key level node m m' h kept = elim (Bool-cases (leb 2 level)) [
    | inr flat ↦ subst (λ r. has i (at q r) ≡ true) (ok-injective (rw flat at h)) kept
    | inl deep ↦
        let (position, h0, h1) =
          and_then-result (or_panic (vc_position_in_parent node)) _ m' (rw deep at h) in
        subst (λ r. has i (at q r) ≡ true) (ok-injective h1)
          (extend_at-keeps q (encode_parent (bucket_root_node_id (bucket_id key)) level) i
            (position ∷ []) m kept)
  ]

  module _ (levels : Map ℕ) where
    points_of_key-OnPath :
        (key : SaltKey) (points : Points)
        → bucket_id key < 2 ^ 24
        → points_of_key {E = E} levels key ≡ ok points
        → OnPath (bucket_id key) points.0
    unfolding points_of_key
    points_of_key-OnPath key points small h =
        let b = bucket_id key in
        let (level, h0, h1) = and_then-result (or_panic (Maps.get b levels)) _ points h in
        let (upper, h2, h3) =
          and_then-result (main_path 5 (bucket_root_node_id b) []) _ points h1 in
        let (top, h4, h5) =
          and_then-result (subtree_path level (subtree_leaf_for_key key) upper) _ points h3 in
        let (internal, h6, h7) = and_then-result (bridge key level top.0 top.1) _ points h5 in
        let (m, made, on) = main_path_lem b small in
        let same : m ≡ upper = ok-injective (sym made ∙ h2) in
        subst (λ (r : Points). OnPath b r.0) (ok-injective h7)
          (OnPath-map b upper internal
            (λ q i kept.
              bridge-keeps q i key level top.0 top.1 internal h6
                (subtree_path-keeps q i level (subtree_leaf_for_key key) top.0 upper top.1 h4 kept))
            (subst (OnPath b) same on))

    points_from-keeps :
        (keys : List SaltKey) (acc points : Points) (q i : ℕ)
        → points_from {E = E} levels keys acc ≡ ok points
        → has i (at q acc.0) ≡ true
        → has i (at q points.0) ≡ true
    unfolding points_from
    points_from-keeps [] acc points q i h kept =
        ap (λ (p : Points). has i (at q p.0)) (sym (ok-injective h)) ∙ kept
    points_from-keeps (key ∷ keys) acc points q i h kept =
        let (one, h0, h1) = and_then-result (points_of_key levels key) _ points h in
        points_from-keeps keys (merge acc.0 one.0, merge acc.1 one.1) points q i h1
          (merge-keeps q i acc.0 one.0 kept)

    points_from-OnPath :
        (keys : List SaltKey) (acc points : Points) (key : SaltKey)
        → points_from {E = E} levels keys acc ≡ ok points
        → has key keys ≡ true
        → bucket_id key < 2 ^ 24
        → OnPath (bucket_id key) points.0
    unfolding points_from has
    points_from-OnPath [] acc points key h listed small = cc
    points_from-OnPath (j ∷ keys) acc points key h listed small =
        let (one, h0, h1) = and_then-result (points_of_key levels j) _ points h in
        elim (Bool-cases (j == key)) [
          | inr other ↦
              points_from-OnPath keys (merge acc.0 one.0, merge acc.1 one.1) points key h1
                (ground arith) small
          | inl same ↦
              let e : j ≡ key = (==_iff j key).0 same in
              let at_key : points_of_key {E = E} levels key ≡ ok one =
                ap (points_of_key levels) (sym e) ∙ h0 in
              OnPath-map (bucket_id key) one.0 points.0
                (λ q i kept.
                  points_from-keeps keys (merge acc.0 one.0, merge acc.1 one.1) points q i h1
                    (merge-has q i acc.0 one.0 kept))
                (points_of_key-OnPath key one small at_key)
        ]

    -- The path of each key's bucket is recorded, from the bucket's root to the root.
    pub parents_and_points-OnPath :
        (keys : List SaltKey) (points : Points) (key : SaltKey)
        → parents_and_points {E = E} keys levels ≡ ok points
        → has key keys ≡ true
        → bucket_id key < 2 ^ 24
        → OnPath (bucket_id key) points.0
    unfolding parents_and_points
    parents_and_points-OnPath keys points key h listed small =
        points_from-OnPath keys ([], []) points key h listed small
