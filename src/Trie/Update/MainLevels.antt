-- ===== src/Trie/Update/MainLevels.antt =====
-- The levels of the main trie: the ids of a level, and their parents and children.
use salt_optimizations.Prelude.{
  ℕ, zero, suc, ◌+◌, ◌-◌, ◌*◌, ◌/◌, ◌%◌, ◌^◌, ◌≤◌, ◌<◌, ◌≡◌, refl, ap, ◌∙◌, some, arith,
}
use salt_optimizations.Types.NodeId.{NodeId, get_local_number}
use salt_optimizations.Trie.NodeUtils.{starting_node_id, get_child_node, get_parent_node}
use salt_optimizations.Trie.Levels.{level_zero, level_one, level_two}
use salt_optimizations.Trie.StateRoot.Level.{IsInner, IsChild, child, child_lem, or_root}

-- The first node of a level: 0, 1, 257, 65793, 16843009.
abbrev pub first : ℕ → ℕ
first zero = 0
first (suc n) = first n * 256 + 1

abbrev pub OnLevel : ℕ → NodeId → Type 0
OnLevel n id = (first n ≤ id) × (id < first (suc n))

pub first_lem : (n : ℕ) → n ≤ 4 → starting_node_id n ≡ some (first n)
first_lem zero h = refl
first_lem (suc zero) h = refl
first_lem (suc (suc zero)) h = refl
first_lem (suc (suc (suc zero))) h = refl
first_lem (suc (suc (suc (suc zero)))) h = refl
first_lem (suc (suc (suc (suc (suc n))))) h = absurd (omega arith)

pub OnLevel-IsInner : (n : ℕ) (p : NodeId) → n ≤ 2 → OnLevel n p → IsInner p
unfolding get_local_number
OnLevel-IsInner zero p h l = omega arith
OnLevel-IsInner (suc zero) p h l = omega arith
OnLevel-IsInner (suc (suc zero)) p h l = omega arith
OnLevel-IsInner (suc (suc (suc n))) p h l = absurd (omega arith)

pub child_at :
    (n : ℕ) (p : NodeId) (i : ℕ)
    → n ≤ 2
    → OnLevel n p
    → i < 256
    → child p i ≡ first (suc n) + (p - first n) * 256 + i
unfolding child get_child_node
child_at zero p i h l hi =
    let small : p % 2 ^ 40 ≡ p = omega arith in rw (small, level_zero p (omega arith)) (omega arith)
child_at (suc zero) p i h l hi =
    let small : p % 2 ^ 40 ≡ p = omega arith in
    rw (small, level_one p (omega arith) (omega arith)) (omega arith)
child_at (suc (suc zero)) p i h l hi =
    let small : p % 2 ^ 40 ≡ p = omega arith in
    rw (small, level_two p (omega arith) (omega arith)) (omega arith)
child_at (suc (suc (suc n))) p i h l hi = absurd (omega arith)

-- A child is on the next level.
pub child-OnLevel :
    (n : ℕ) (p : NodeId) (i : ℕ) → n ≤ 2 → OnLevel n p → i < 256 → OnLevel (suc n) (child p i)
child-OnLevel n p i h l hi = let e = child_at n p i h l hi in omega arith

-- The parent of a node, and that the node is a child of it.
pub parent_on :
    (n : ℕ) (id : NodeId)
    → n ≤ 2
    → OnLevel (suc n) id
    → IsChild id × OnLevel n (or_root (get_parent_node id))
parent_on n id h l =
    let p = first n + (id - first (suc n)) / 256 in
    let i = (id - first (suc n)) % 256 in
    let on : OnLevel n p = omega arith in
    let below : i < 256 = omega arith in
    let inner = OnLevel-IsInner n p h on in
    let same : id ≡ child p i = omega (arith, child_at n p i h on below) in
    let up : or_root (get_parent_node id) ≡ p =
      ap (λ k. or_root (get_parent_node k)) same ∙ ap or_root (child_lem p i inner below).0 in
    ((p, i, inner, below, same), rw up on)
