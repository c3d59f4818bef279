-- ===== src/Trie/StateRoot/Level.antt =====
-- One level of the trie: what the commitment of an inner node stands for (salt/src/trie/trie.rs).
use salt_optimizations.Prelude.{ℕ, ◌<◌, ◌^◌, ◌≡◌, ap, Option, none, some}
use salt_optimizations.Prelude.Bytes.{Bytes}
use salt_optimizations.Types.NodeId.{NodeId, get_local_number}
use salt_optimizations.Trie.NodeUtils.{get_child_node, get_parent_node, vc_position_in_parent}
use salt_optimizations.Trie.Levels.{get_parent_node-get_child_node}
use salt_optimizations.Trie.Committer.{Committer}
use salt_optimizations.Trie.StateRoot.Positions.{IsPlace, Layout, delta_at, node_commitment}

-- A node with children: an id above the leaves of its tree.
abbrev pub IsInner : NodeId → Type 0
IsInner p = (p < 2 ^ 64) × (get_local_number p < 16843009)

-- The id, or the root's.
abbrev pub or_root : Option ℕ → ℕ
or_root none = 0
or_root (some id) = id

unfoldable pub child : NodeId → ℕ → NodeId
child p i = or_root (get_child_node p i)

pub child_lem :
    (p i : ℕ)
    → IsInner p
    → i < 256
    → (get_parent_node (child p i) ≡ some p) × (vc_position_in_parent (child p i) ≡ some i)
unfolding child
child_lem p i inner h =
    let (id, found, up, position) = get_parent_node-get_child_node p i inner.0 inner.1 h in
    rw (found) (up, position)

-- The children of inner nodes.
abbrev pub children : Layout
children = record {
  IsNode = IsInner;
  child = child;
  parent = λ id. or_root (get_parent_node id);
  position = λ id. or_root (vc_position_in_parent id);
  parent-child = λ p i inner h. ap or_root (child_lem p i inner h).0;
  position-child = λ p i inner h. ap or_root (child_lem p i inner h).1;
}

-- The id of a child of an inner node.
abbrev pub IsChild : NodeId → Type 0
IsChild = IsPlace children

module _ (c : Committer) where
  -- The vector commitment to the commitments of the children of a node.
  abbrev pub children_commitment : (NodeId → Bytes) → NodeId → c.Element
  children_commitment = node_commitment children c c.hash_commitment

  -- The parent, and what the update of a child adds to it.
  abbrev pub child_delta : NodeId × (Bytes × Bytes) → NodeId × c.Element
  child_delta = delta_at children c c.hash_commitment
