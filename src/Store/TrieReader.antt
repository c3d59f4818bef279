-- ===== src/Store/TrieReader.antt =====
-- `TrieReader` of salt/src/traits.rs, and the trie halves of `MemStore` (salt/src/mem_store.rs) and
-- `EmptySalt` (salt/src/empty_salt.rs).
use salt_optimizations.Prelude.{ℕ, Option, none, some, List, [], ◌∷◌, ltb, leb, ◌&&◌, if◌then◌else◌}
use salt_optimizations.Prelude.Bytes.{Bytes}
use salt_optimizations.Prelude.Maps
use salt_optimizations.Prelude.Maps.{Map}
use salt_optimizations.Prelude.Result.{Res, ok, panic, or_panic}
use salt_optimizations.Types.Errors.{SaltError}
use salt_optimizations.Types.NodeId.{NodeId}
use salt_optimizations.Trie.Defaults.{default_commitment}

pub record TrieReader (E : Type 0) : Type 0 where
  pub commitment : NodeId → Res E Bytes
  -- The half-open range from the first id to the second.
  pub node_entries : NodeId → NodeId → Res E (List (NodeId × Bytes))

-- Records updates to the commitments: a node, with the old and the new one.
abbrev pub TrieUpdates : Type 0
TrieUpdates = List (NodeId × (Bytes × Bytes))

-- `MemStore::update_trie`
unfoldable pub update_trie : Map Bytes → TrieUpdates → Map Bytes
update_trie trie [] = trie
update_trie trie ((node, (old, new)) ∷ updates) = update_trie (Maps.insert node new trie) updates

unfoldable pub stored_or_default : NodeId → Option Bytes → Res SaltError Bytes
stored_or_default node (some c) = ok c
stored_or_default node none = or_panic (default_commitment node)

-- `trie.range(start..end)`, where `start` is not after `end`.
unfoldable pub nodes_from : ℕ → ℕ → Map Bytes → List (NodeId × Bytes)
nodes_from start end [] = []
nodes_from start end ((node, c) ∷ trie) =
    let rest = nodes_from start end trie in
    if leb start node && ltb node end then (node, c) ∷ rest else rest

abbrev pub mem_trie : Map Bytes → TrieReader SaltError
mem_trie trie = record {
  commitment = λ node. stored_or_default node (Maps.get node trie);
  node_entries = λ start end. if ltb end start then panic else ok (nodes_from start end trie);
}

abbrev pub empty_trie : TrieReader SaltError
empty_trie = record {
  commitment = λ node. or_panic (default_commitment node);
  node_entries = λ start end. ok [];
}
