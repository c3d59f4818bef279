-- ===== src/Trie/StateRoot/Slots.antt =====
-- `update_leaf_nodes` of salt/src/trie/trie.rs: the commitments to the slots of changed entries, in the
-- leaves of the main trie.
use salt_optimizations.Prelude.{
  ℕ, ◌+◌, ◌-◌, ◌%◌, ◌≤◌, ◌<◌, ◌≡◌, refl, ap, ◌∙◌, Option, some, List, [], ◌∷◌, length, map, arith,
}
use salt_optimizations.Prelude.Bytes.{Bytes}
use salt_optimizations.Prelude.Sort.{Each, sort_by_key, sort_by_key-Each}
use salt_optimizations.Prelude.Result.{ok, and_then}
use salt_optimizations.Constant.{num_buckets, trie_width, u64_mod}
use salt_optimizations.Types.SaltKey.{SaltKey, salt_key, slot_id}
use salt_optimizations.Types.SaltValue.{SaltValue}
use salt_optimizations.Types.Packing.{salt_key_fields}
use salt_optimizations.Types.NodeId.{NodeId}
use salt_optimizations.State.Updates.{Change}
use salt_optimizations.Store.TrieReader.{TrieReader, TrieUpdates}
use salt_optimizations.Trie.NodeUtils.{bucket_roots_start}
use salt_optimizations.Trie.Committer.{Committer, IsLawful, kv_hash}
use salt_optimizations.Trie.StateRoot.{
  StateRoot, add_commitment_deltas, commitment, leaf_delta, par_batch_size, update_leaf_nodes,
}
use salt_optimizations.Trie.StateRoot.Chunks.{AreNodes}
use salt_optimizations.Trie.StateRoot.Totals.{total, total-sort_by_key}
use salt_optimizations.Trie.StateRoot.Deltas.{Known, AreMerged, add_commitment_deltas-merged}
use salt_optimizations.Trie.StateRoot.Positions.{
  Chained, IsPlace, Layout, after, delta_at, node_commitment, total-delta_at,
}
use salt_optimizations.Trie.StateRoot.Internal.{
  Each-map, collect_results-ok, newest, newest_lem, par_batch_size-positive,
}
use salt_optimizations.Trie.Subtrees.{leaf_in_main_trie}

-- A leaf of the main trie: the root of a bucket.
abbrev pub IsMainLeaf : NodeId → Type 0
IsMainLeaf l = (bucket_roots_start ≤ l) × (l < bucket_roots_start + num_buckets)

abbrev pub slot_at : NodeId → ℕ → SaltKey
slot_at l i = salt_key (l - bucket_roots_start) i

pub leaf_of_slot : (l i : ℕ) → IsMainLeaf l → i < 256 → leaf_in_main_trie (slot_at l i) ≡ l
leaf_of_slot l i h hi =
    omega
      (arith, h.0, h.1, (salt_key_fields (l - bucket_roots_start) i (omega arith) (omega arith)).0)

pub position_of_slot : (l i : ℕ) → IsMainLeaf l → i < 256 → slot_id (slot_at l i) % trie_width ≡ i
position_of_slot l i h hi =
    omega (arith, (salt_key_fields (l - bucket_roots_start) i (omega arith) (omega arith)).1)

-- The first 256 slots of the buckets.
abbrev pub slots : Layout
slots = record {
  IsNode = IsMainLeaf;
  child = slot_at;
  parent = leaf_in_main_trie;
  position = λ key. slot_id key % trie_width;
  parent-child = leaf_of_slot;
  position-child = position_of_slot;
}

leaf_bound : (key : SaltKey) → IsPlace slots key → leaf_in_main_trie key < u64_mod - 1
leaf_bound key (l, i, leaf, h, e) =
    let at : leaf_in_main_trie key ≡ l = ap leaf_in_main_trie e ∙ leaf_of_slot l i leaf h in
    omega (arith, at, leaf.1)

module _ {E : Type 0} (c : Committer) (trie : TrieReader E) (threads : ℕ) (s : StateRoot)
    (view : NodeId → Bytes) (hash : Option SaltValue → c.Scalar) where
  abbrev slot_delta : SaltKey × Change → NodeId × c.Element
  slot_delta = delta_at slots c hash

  -- The change is of a slot below a bucket's root whose commitment can be read, from and to a value
  -- with a hash.
  pub record KnownSlot (u : SaltKey × Change) : Type 0 where
    pub slot_place : IsPlace slots u.0
    pub leaf :
        commitment c trie threads s (leaf_in_main_trie u.0) ≡ ok (view (leaf_in_main_trie u.0))
    pub old_hash : kv_hash c u.1.0 ≡ some (hash u.1.0)
    pub new_hash : kv_hash c u.1.1 ≡ some (hash u.1.1)

  leaf_delta_lem :
      (u : SaltKey × Change)
      → KnownSlot u
      → leaf_delta c trie threads leaf_in_main_trie u ≡ ok (slot_delta u)
  unfolding leaf_delta delta_at
  leaf_delta_lem (key, (old, new)) k = rw (k.new_hash, k.old_hash) refl

  leaves_lem :
      (us : List (SaltKey × Change))
      → Each KnownSlot us
      → AreNodes c trie threads s (map slot_delta us)
  unfolding delta_at
  leaves_lem [] h = tt
  leaves_lem ((key, (old, new)) ∷ us) h = (leaf_bound key h.0.slot_place, leaves_lem us h.1)

  known_lem :
      (us : List (SaltKey × Change))
      → Each KnownSlot us
      → Known c trie threads s view (map slot_delta us)
  unfolding delta_at
  known_lem [] h = tt
  known_lem ((key, (old, new)) ∷ us) h = (h.0.leaf, known_lem us h.1)

  abbrev low_byte : SaltKey × Change → ℕ
  low_byte u = slot_id u.0 % trie_width

  slots_lem :
      (Q : NodeId → Type 0) (us : List (SaltKey × Change))
      → Each (λ (u : SaltKey × Change). Q (leaf_in_main_trie u.0)) us
      → Each (λ (d : NodeId × c.Element). Q d.0) (map slot_delta us)
  unfolding delta_at
  slots_lem Q [] h = tt
  slots_lem Q ((key, (old, new)) ∷ us) h = (h.0, slots_lem Q us h.1)

  pub leaf_in_main_trie-IsMainLeaf :
      (key : SaltKey) → IsPlace slots key → IsMainLeaf (leaf_in_main_trie key)
  leaf_in_main_trie-IsMainLeaf key (l, i, leaf, h, e) =
      let at : leaf_in_main_trie key ≡ l = ap leaf_in_main_trie e ∙ leaf_of_slot l i leaf h in
      rw at leaf

  -- All leaves at once: in order, each from its old commitment.
  pub update_leaf_nodes-merged :
      (values : SaltKey → Option SaltValue) (us : List (SaltKey × Change))
      → IsLawful c
      → Each KnownSlot us
      → Chained values us
      → 0 < s.min_par_batch_size
      → (res : TrieUpdates) × (update_leaf_nodes c trie threads s us leaf_in_main_trie ≡ ok res)
        × ((leaf : NodeId)
            → IsMainLeaf leaf
            → c.from_bytes (view leaf) ≡ node_commitment slots c hash values leaf
            → c.from_bytes (newest c trie threads s view res leaf)
              ≡ node_commitment slots c hash (after values us) leaf)
        × AreMerged c trie threads s view IsMainLeaf res
  unfolding update_leaf_nodes
  update_leaf_nodes-merged values us lawful known chained positive =
      let sorted = sort_by_key low_byte us in
      let known' = sort_by_key-Each low_byte KnownSlot us known in
      let batch = par_batch_size c trie threads s (length us) in
      let (res, found, at, merged) =
        add_commitment_deltas-merged c trie threads s view IsMainLeaf (map slot_delta sorted) batch
          lawful (leaves_lem sorted known') (known_lem sorted known')
          (par_batch_size-positive c trie threads s view (length us) positive)
          (slots_lem IsMainLeaf sorted (
            Each-map KnownSlot _ sorted (λ u k. leaf_in_main_trie-IsMainLeaf u.0 k.slot_place)
              known')) in
      let deltas =
        collect_results-ok (leaf_delta c trie threads leaf_in_main_trie) slot_delta sorted
          (Each-map KnownSlot _ sorted leaf_delta_lem known') in
      (
        res,
        ap (λ r. and_then r (λ ds. add_commitment_deltas c trie threads s ds batch)) deltas ∙ found,
        λ leaf main commits.
            newest_lem c trie threads s view slot_delta sorted res leaf
              (node_commitment slots c hash (after values us) leaf) lawful (at leaf)
              (total-sort_by_key c slot_delta lawful low_byte leaf us (c.from_bytes (view leaf))
                ∙ ap (λ x. total c slot_delta leaf x us) commits
                ∙ total-delta_at slots c hash lawful values us leaf
                    (Each-map KnownSlot _ us (λ u k. k.slot_place) known) chained main),
        merged,
      )

  -- A bucket's root that commits to the hashes of its first 256 slots before changes of such slots
  -- commits to the hashes of the changed slots after `update_leaf_nodes`. The changes are chained, the
  -- roots' commitments can be read, the values have hashes, the smallest task is not 0, and
  -- elements form a commutative semigroup in which a difference of scalars times a generator makes
  -- up for the change.
  pub update_leaf_nodes-node_commitment :
      (values : SaltKey → Option SaltValue) (us : List (SaltKey × Change)) (leaf : NodeId)
      → IsLawful c
      → Each KnownSlot us
      → Chained values us
      → 0 < s.min_par_batch_size
      → IsMainLeaf leaf
      → c.from_bytes (view leaf) ≡ node_commitment slots c hash values leaf
      → (res : TrieUpdates) × (update_leaf_nodes c trie threads s us leaf_in_main_trie ≡ ok res)
        × (c.from_bytes (newest c trie threads s view res leaf)
            ≡ node_commitment slots c hash (after values us) leaf)
  update_leaf_nodes-node_commitment values us leaf lawful known chained positive main commits =
      let (res, found, all, merged) =
        update_leaf_nodes-merged values us lawful known chained positive in
      (res, found, all leaf main commits)
