-- ===== src/Lib.antt =====
-- Formal model of SALT, an authenticated key-value store.
--
-- SALT stores plain key-value pairs in a table of 16,777,216 buckets. The first
-- 65,536 buckets hold metadata, the others are hash tables that keep their
-- entries in a history-independent order. A session over a store caches what it
-- reads, records what it writes as a batch of updates, and the batch is then
-- applied to the store. A 256-ary trie of vector commitments stands over the
-- table: four levels down to the roots of the buckets, and a subtree of up to five
-- levels for a bucket that has grown. The trie turns a batch into updates of the
-- commitments. A proof opens the commitments on the paths of some slots, and a
-- witness has the values at those slots with a proof, to run a session without
-- the store.
--
-- Parts and files
--
--   Constant         salt/src/constant.rs: sizes, bit widths, load factor.
--   Types            salt/src/types.rs: SaltKey (the packing of bucket and slot),
--                    SaltValue (the 94-byte encoding), BucketMeta, Errors,
--                    NodeId (the breadth-first numbering of nodes).
--   Trie/NodeUtils   salt/src/trie/node_utils.rs: get_parent_node,
--                    get_child_node, vc_position_in_parent, subtree_leaf_for_key,
--                    subtree_root_level and the functions they call.
--   Trie/Defaults    salt/src/constant.rs: default_commitment and its tables.
--   Trie/Committer   what the trie takes from banderwagon and from blake3, as a
--                    record; kv_hash of salt/src/trie/trie.rs; root_hash is
--                    hash_commitment of salt/src/types.rs.
--   Trie/StateRoot   salt/src/trie/trie.rs: StateRoot, create_node_aligned_chunks,
--                    accumulate_chunk_deltas, add_commitment_deltas,
--                    update_leaf_nodes, update_internal_nodes.
--   Trie/Contraction its SubtrieChangeInfo and compute_contraction_ops.
--   Trie/Scan        steps 1.1 to 1.3 of its update_bucket_subtrees, and
--   Trie/Subtrees    the other steps.
--   Trie/Update      its update, finalize, update_fin, update_main_trie and rebuild.
--   Banderwagon/Committer  banderwagon/src/salt_committer.rs: Committer with new
--                    and mul_index, mul_index_x86_64 for the build with
--                    prefetching, add_affine_point, calculate_prefetch_index.
--   Banderwagon/Curve  what that file takes from ark_ff and ark_ec, as a record;
--                    a group of points of the curve, with their coordinates.
--   State/Updates    salt/src/state/updates.rs: StateUpdates with try_add, add,
--                    try_merge and inverse.
--   State/Probe      salt/src/state/state.rs: probe, rank and
--                    compute_resize_capacity; salt/src/state/hasher.rs:
--                    bucket_of is bucket_id, and hash_with_nonce.
--   State/Search     salt/src/state/state.rs: shi_search.
--   State/Ephemeral  salt/src/state/state.rs: EphemeralSaltState with value,
--                    metadata, usage_count, update_value and its lookups.
--   State/Rehash     its shi_rehash; State/Shi: shi_upsert, shi_next, shi_delete.
--   State/Batch      its update, canonicalize, update_fin and set_nonce.
--   Store/TrieReader salt/src/traits.rs: TrieReader; the trie halves of
--                    salt/src/mem_store.rs and salt/src/empty_salt.rs.
--   Store/Traits     salt/src/traits.rs: StateReader as a record of the methods
--                    that a store brings, and its defaults.
--   Store/MemStore   salt/src/mem_store.rs: StateStore, update_state, and the
--                    methods of StateReader.
--   Store/EmptySalt  salt/src/empty_salt.rs: the methods of StateReader.
--   Proof/Errors     salt/src/proof/mod.rs: ProofError.
--   Proof/Opening    what proofs take from ipa-multipoint, as a record; SaltProof.
--   Proof/Shape      salt/src/proof/shape.rs: parents_and_points, encode_parent and
--                    its inverses.
--   Proof/Subtrie    salt/src/proof/subtrie.rs: create_sub_trie.
--   Proof/Prover     salt/src/proof/prover.rs: SaltProof with create and check.
--   Proof/SaltWitness  salt/src/proof/salt_witness.rs: SaltWitness.
--   Proof/Witness    salt/src/proof/witness.rs: Witness with from, verify and its
--                    readers; its create stands in Proof/Witness/Creation.
--
-- Trie/StateRoot/Positions, Level and Slots define what a commitment stands for,
-- Trie/Update/Caches, Committed, Whole and Unique what a session of the trie reads and
-- keeps pending, and when its commitments stand for the values;
-- State/Tracking defines what a session reads through its cache and what its
-- updates should be, and Store/Sessions when a MemStore can be the store of a session.
-- The other files under these names hold lemmas and theorems; Prelude holds the
-- helpers they share, and Tests runs the code on concrete inputs.
--
-- State and operations
--
-- A BTreeMap is an association list whose keys rise (Prelude.Maps), and the
-- HashMaps of a session are functions; the set of rehashed buckets is a list,
-- whose order stands for the order in which the set is walked. An
-- EphemeralSaltState is the record Ephemeral; its methods are actions of the
-- monad Exec of Prelude.Result on an Ephemeral or, where they record changes, on
-- a Session, which adds the updates recorded so far. An action ends in a result,
-- an error of the store, a panic, or out of fuel. The store is a record
-- StateReader that the actions take; an error of a read is passed on where the
-- code writes `?`, and is a panic where the code writes expect or unwrap.
--
-- A step of the trie takes a StateRoot and gives a result of Prelude.Result; where
-- it changes the caches it gives the new StateRoot too, and on an error the
-- caches changed before it are not part of the result. The map of changed nodes
-- and the map of levels, hash maps in the code, are kept in the order of their
-- keys. Work that threads share is cut into the same chunks and joined in order.
-- An error with a formatted reason keeps the fixed part of the text.
--
-- Numbers
--
-- A machine integer is a natural number; wrap-around is written `% 2 ^ w` where
-- the release build, which has no overflow checks, wraps. The signed difference
-- of the usage counts is kept as its 64-bit pattern. Shifts and masks of packed
-- words are written as products, quotients and remainders.
--
-- Bounds and fuel
--
-- Loops over the slots of a bucket are recursions on the capacity. The growth
-- loop of compute_resize_capacity runs on fuel 64: each round doubles a u64. The
-- loop of subtree_root_level runs on fuel 9: each round drops eight of 64 bits.
-- shi_upsert takes fuel 2, for one restart after an expansion, and shi_delete one
-- more than the square of the capacity, a bound on the moves that bring an entry
-- nearer to its first slot; that these two are enough is not among the results.
-- The windows of a scalar have 254 rounds, one for each bit. The cut into chunks has one round more than there are deltas, and a walk through
-- the levels of a trie nine or five rounds, for five and four levels.
--
-- Parameters
--
-- The hash function of salt/src/state/ahash is a copy of another library and is a
-- parameter. So is the store of a session or of a trie. To the trie the curve is the record
-- Committer of Trie/Committer, and IsLawful states the group laws that the results need: addition is
-- associative and commutative, the bytes of an element give it back, and a
-- difference of scalars times a generator makes up for the change of the scalar.
-- To salt_committer.rs field and curve are the
-- record Curve, with the laws of a field, of a group of points and its addition,
-- and of the library's operations on coordinates; its mul also stands for the
-- assembly of field products in banderwagon/src/scalar_multi_asm.rs, which the
-- x86_64 build calls. The multi-point argument is the record Opening, of which
-- nothing is assumed. The list of the keys of a session's cache, a hash map, is a parameter of
-- Witness::create.
--
-- Not modelled
--
-- The serialisation of proofs (salt/src/proof), the other files of banderwagon,
-- the opening argument (ipa-multipoint), huge pages, prefetching and the assembly
-- of field products in salt_committer.rs, the lazy set-up of the
-- shared committer, macros, serialisation by derives, the texts of Debug and
-- Display, the build with the feature test-bucket-resize, and locks: each method
-- of MemStore holds its lock for the whole call and is one step.
pub mod Prelude
pub mod Banderwagon
pub mod Constant
pub mod Types
pub mod Trie
pub mod Proof
pub mod State
pub mod Store
pub mod Tests
