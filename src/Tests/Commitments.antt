-- ===== src/Tests/Commitments.antt =====
-- Updates of commitments at concrete inputs.
use salt_optimizations.Prelude.{
  Option, none, ◌≡◌, refl, Bool, true, false, List, [], ◌∷◌, arith, some,
}
use salt_optimizations.Prelude.Bytes.{Bytes}
use salt_optimizations.Prelude.Maps
use salt_optimizations.Prelude.Result.{ok}
use salt_optimizations.Prelude.Sort.{Each}
use salt_optimizations.Types.Errors.{SaltError}
use salt_optimizations.Types.NodeId.{NodeId, get_bfs_level, get_local_number}
use salt_optimizations.Store.TrieReader.{TrieReader, TrieUpdates}
use salt_optimizations.Trie.NodeUtils.{get_child_node, get_parent_node}
use salt_optimizations.Trie.StateRoot
use salt_optimizations.Trie.StateRoot.{
  StateRoot, add_commitment_deltas, commitment, update_internal_nodes, update_leaf_nodes,
}
use salt_optimizations.Trie.StateRoot.Deltas.{Known, add_commitment_deltas-summed, summed}
use salt_optimizations.Trie.StateRoot.Internal.{
  KnownParent, newest, update_internal_nodes-children_commitment,
}
use salt_optimizations.Trie.StateRoot.Positions.{after, node_commitment}
use salt_optimizations.Trie.StateRoot.Slots.{KnownSlot, slots, update_leaf_nodes-node_commitment}
use salt_optimizations.Trie.Subtrees.{leaf_in_main_trie}
use salt_optimizations.Trie.Committer.{kv_hash}
use salt_optimizations.State.Updates.{Change}
use salt_optimizations.Types.SaltKey.{SaltKey, salt_key}
use salt_optimizations.Types.SaltValue
use salt_optimizations.Types.SaltValue.{SaltValue}
use salt_optimizations.Trie.StateRoot.Level.{child, children_commitment}
use salt_optimizations.Trie.StateRoot.Vector.{commit_to}
use salt_optimizations.Tests.Toy.{bit_of, toy, toy-IsLawful}

-- Every node has the commitment 0.
abbrev zeros : NodeId → Bytes
zeros node = 0 ∷ []

abbrev flat : TrieReader SaltError
flat = record { commitment = λ node. ok (zeros node); node_entries = λ start end. ok [] }

abbrev deltas : List (NodeId × Bool)
deltas = (5, true) ∷ (3, true) ∷ (5, true) ∷ (9, true) ∷ []

add_commitment_deltas-summed_example :
    (us : TrieUpdates) × (add_commitment_deltas toy flat 4 StateRoot.new deltas 1 ≡ ok us)
    × ((q : NodeId) → Maps.get q us ≡ summed toy flat 4 StateRoot.new zeros q deltas)
    × Maps.IsSorted us
add_commitment_deltas-summed_example =
    add_commitment_deltas-summed toy flat 4 StateRoot.new zeros deltas 1 toy-IsLawful (omega arith)
      known (omega arith)
  where
    known : Known toy flat 4 StateRoot.new zeros deltas
    known = unfold commitment in (refl, (refl, (refl, (refl, tt))))

-- The first and the third child of the root change.
abbrev changes : TrieUpdates
changes = (1, (0 ∷ [], 1 ∷ [])) ∷ (3, (0 ∷ [], 3 ∷ [])) ∷ []

changes-KnownParent : Each (KnownParent toy flat 4 StateRoot.new zeros) changes
unfolding child get_child_node get_local_number commitment get_parent_node get_bfs_level
changes-KnownParent = (
  ((0, 0, (omega arith, omega arith), omega arith, refl), refl),
  (((0, 2, (omega arith, omega arith), omega arith, refl), refl), tt),
)

root_commits : false ≡ children_commitment toy zeros 0
unfolding commit_to
root_commits = refl

update_internal_nodes-children_commitment_example :
    (res : TrieUpdates) × (update_internal_nodes toy flat 4 StateRoot.new changes ≡ ok res)
    × (bit_of (newest toy flat 4 StateRoot.new zeros res 0)
        ≡ children_commitment toy (after zeros changes) 0)
unfolding get_local_number
update_internal_nodes-children_commitment_example =
    update_internal_nodes-children_commitment toy flat 4 StateRoot.new zeros changes 0 toy-IsLawful
      changes-KnownParent (refl, (refl, tt)) (omega arith) (omega arith, omega arith) root_commits

-- The hash of a value, which all the values here have.
abbrev value_hash : Option SaltValue → Bool
value_hash value = elim (kv_hash toy value) [ none ↦ false | some hash ↦ hash ]

abbrev no_values : SaltKey → Option SaltValue
no_values key = none

-- An insertion in the fourth slot of the first data bucket.
abbrev insertion : List (SaltKey × Change)
insertion = (72057594037927939, (none, some (record { bytes = 1 ∷ 0 ∷ 2 ∷ [] }))) ∷ []

insertion-KnownSlot : Each (KnownSlot toy flat 4 StateRoot.new zeros value_hash) insertion
unfolding commitment salt_key kv_hash SaltValue.key SaltValue.value
insertion-KnownSlot = (
  record {
    slot_place = (131329, 3, (omega arith, omega arith), omega arith, refl);
    leaf = refl;
    old_hash = refl;
    new_hash = refl;
  },
  tt,
)

leaf_commits : false ≡ node_commitment slots toy value_hash no_values 131329
unfolding commit_to kv_hash
leaf_commits = refl

update_leaf_nodes-node_commitment_example :
    (res : TrieUpdates) × (update_leaf_nodes toy flat 4 StateRoot.new insertion leaf_in_main_trie
      ≡ ok res)
    × (bit_of (newest toy flat 4 StateRoot.new zeros res 131329)
        ≡ node_commitment slots toy value_hash (after no_values insertion) 131329)
update_leaf_nodes-node_commitment_example =
    update_leaf_nodes-node_commitment toy flat 4 StateRoot.new zeros value_hash no_values insertion
      131329 toy-IsLawful insertion-KnownSlot (refl, tt) (omega arith) (omega arith, omega arith)
      leaf_commits
