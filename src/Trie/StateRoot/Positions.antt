-- ===== src/Trie/StateRoot/Positions.antt =====
-- Vector commitments to 256 values at the positions of a node, and what changes of the values add to
-- them (salt/src/trie/trie.rs). The values are commitments of children or entries of slots.
use salt_optimizations.Prelude.{
  ℕ, ◌<◌, ◌≡◌, refl, sym, ap, ◌∙◌, true, false, List, [], ◌∷◌, arith, inl, inr, Bool-cases, ==_iff,
  ◌==◌, if◌then◌else◌,
}
use salt_optimizations.Prelude.Sort.{Each}
use salt_optimizations.Trie.Committer.{Committer, IsLawful}
use salt_optimizations.Trie.StateRoot.Totals.{total}
use salt_optimizations.Trie.StateRoot.Vector.{
  commit_to_congr, commit_to-set_at, set_at, vector_commitment,
}

module _ {V : Type 0} where
  -- Values by number, with one changed.
  abbrev pub changed : (ℕ → V) → ℕ → V → ℕ → V
  changed view id new j = if id == j then new else view j

  -- The values after the updates.
  unfoldable pub after : (ℕ → V) → List (ℕ × (V × V)) → ℕ → V
  after view [] = view
  after view ((id, (old, new)) ∷ us) = after (changed view id new) us

  -- Each update starts at the value that the ones before it have left.
  abbrev pub Chained : (ℕ → V) → List (ℕ × (V × V)) → Type 0
  Chained view [] = Unit {0}
  Chained view ((id, (old, new)) ∷ us) = (old ≡ view id) × Chained (changed view id new) us

-- The number of the value at position `i` of a node, and the way back.
pub record Layout : Type 1 where
  pub IsNode : ℕ → Type 0
  pub child : ℕ → ℕ → ℕ
  pub parent : ℕ → ℕ
  pub position : ℕ → ℕ
  pub parent-child : (p i : ℕ) → IsNode p → i < 256 → parent (child p i) ≡ p
  pub position-child : (p i : ℕ) → IsNode p → i < 256 → position (child p i) ≡ i

-- The number of a value of some node.
abbrev pub IsPlace : Layout → ℕ → Type 0
IsPlace layout id = (p : ℕ) × (i : ℕ) × layout.IsNode p × (i < 256) × (id ≡ layout.child p i)

differ_from : (a b : ℕ) → (a ≡ b → ⊥) → (a == b) ≡ false
differ_from a b h = elim (Bool-cases (a == b)) [
  | inl same ↦ absurd (h ((==_iff a b).0 same))
  | inr differ ↦ differ
]

module _ (layout : Layout) where
  open layout use {IsNode, child, parent, position}

  -- The values of a node differ.
  other_position :
      (id p i j : ℕ)
      → IsNode p
      → i < 256
      → j < 256
      → id ≡ child p i
      → (i == j) ≡ false
      → (id == child p j) ≡ false
  other_position id p i j node hi hj e away = differ_from id (child p j) (λ same.
      let there : i ≡ j =
        sym (layout.position-child p i node hi)
        ∙ ap position (sym e ∙ same)
        ∙ layout.position-child p j node hj in
      ground arith)

  -- Nodes share no value.
  other_parent :
      (id p q i j : ℕ)
      → IsNode p
      → IsNode q
      → i < 256
      → j < 256
      → id ≡ child p i
      → (p == q) ≡ false
      → (id == child q j) ≡ false
  other_parent id p q i j node node' hi hj e away = differ_from id (child q j) (λ same.
      let there : p ≡ q =
        sym (layout.parent-child p i node hi)
        ∙ ap parent (sym e ∙ same)
        ∙ layout.parent-child q j node' hj in
      ground arith)

  module _ (c : Committer) {V : Type 0} (scalar : V → c.Scalar) where
    -- The scalars at the positions of a node.
    abbrev pub scalars : (ℕ → V) → ℕ → ℕ → c.Scalar
    scalars view p i = scalar (view (child p i))

    -- The vector commitment to the values of a node.
    abbrev pub node_commitment : (ℕ → V) → ℕ → c.Element
    node_commitment view p = vector_commitment c (scalars view p)

    -- The node, and what the update adds to it.
    unfoldable pub delta_at : ℕ × (V × V) → ℕ × c.Element
    delta_at (id, (old, new)) =
        (parent id, c.mul_index (c.sub (scalar new) (scalar old)) (position id))

    abbrev added : (ℕ → V) → ℕ → V → ℕ → ℕ → c.Element
    added view id new i p =
        c.add (node_commitment view p) (c.mul_index (c.sub (scalar new) (scalar (view id))) i)

    -- A changed value adds its delta to its node's commitment.
    node-changed :
        IsLawful c
        → (view : ℕ → V) (p i id : ℕ) (new : V) → IsNode p
        → i < 256
        → id ≡ child p i
        → node_commitment (changed view id new) p ≡ added view id new i p
    node-changed lawful view p i id new node h e =
        commit_to_congr c (scalars (changed view id new) p)
          (set_at c i (scalar new) (scalars view p)) 255
          (λ j le. elim (Bool-cases (i == j)) [
            | inl here ↦
                let same : (id == child p j) ≡ true =
                  (==_iff id (child p j)).1 (e ∙ ap (child p) ((==_iff i j).0 here)) in
                rw (here, same, scalars) refl
            | inr away ↦
                rw (away, other_position id p i j node h (omega arith) e away, scalars) refl
          ])
        ∙ commit_to-set_at c lawful (scalars view p) i (scalar new) 255 (omega arith)
        ∙ ap
            (λ k.
              c.add (node_commitment view p) (c.mul_index (c.sub (scalar new) (scalar (view k))) i))
            (sym e)

    -- A changed value leaves the other nodes' commitments.
    node-elsewhere :
        (view : ℕ → V) (par i p id : ℕ) (new : V)
        → IsNode par
        → i < 256
        → id ≡ child par i
        → IsNode p
        → (par == p) ≡ false
        → node_commitment (changed view id new) p ≡ node_commitment view p
    node-elsewhere view par i p id new node h e node' away =
        commit_to_congr c (scalars (changed view id new) p) (scalars view p) 255
          (λ j le. rw (other_parent id par p i j node node' h (omega arith) e away, scalars) refl)

    -- A node's deltas lead from the commitment to its old values to the one to its new values.
    pub total-delta_at :
        IsLawful c
        → (view : ℕ → V) (us : List (ℕ × (V × V))) (p : ℕ) → Each (λ u. IsPlace layout u.0) us
        → Chained view us
        → IsNode p
        → total c delta_at p (node_commitment view p) us ≡ node_commitment (after view us) p
    unfolding total delta_at after
    total-delta_at lawful view [] p cs ch node = refl
    total-delta_at lawful view ((id, (old, new)) ∷ us) p ((par, i, par_node, h, e), cs) (o, ch)
          node =
        let ih = total-delta_at lawful (changed view id new) us p cs ch node in
        let up : parent id ≡ par = ap parent e ∙ layout.parent-child par i par_node h in
        let at : position id ≡ i = ap position e ∙ layout.position-child par i par_node h in
        elim (Bool-cases (par == p)) [
          | inl same ↦
              let q : par ≡ p = (==_iff par p).0 same in
              let step = node-changed lawful view p i id new node h (e ∙ ap (λ n. child n i) q) in
              rw (up, same, at, o) (ap (λ x. total c delta_at p x us) (sym step) ∙ ih)
          | inr other ↦
              rw (up, other)
                (ap (λ x. total c delta_at p x us)
                    (sym (node-elsewhere view par i p id new par_node h e node other))
                  ∙ ih)
        ]
