-- ===== src/Trie.antt =====
-- salt/src/trie: navigation.
pub mod NodeUtils
pub mod Levels
pub mod Leaves
pub mod Defaults
pub mod Committer
pub mod StateRoot
pub mod Contraction
pub mod Scan
pub mod Subtrees
pub mod Update
