-- ===== src/Proof/Prover.antt =====
-- `SaltProof` of salt/src/proof/prover.rs: creating a proof, and checking one against a map of
-- values and a state root.
pub mod Queries
pub mod Checks
pub mod Chains
use salt_optimizations.Prelude.{
  ℕ, zero, suc, ◌+◌, ◌-◌, ◌%◌, Bool, true, false, not, ◌||◌, Option, none, some, List, [], ◌∷◌,
  ◌++◌, map, ltb, if◌then◌else◌,
}
use salt_optimizations.Prelude.Bytes.{Bytes, bytes_eq}
use salt_optimizations.Prelude.Sort.{sort_by_key}
use salt_optimizations.Prelude.Maps
use salt_optimizations.Prelude.Maps.{Map}
use salt_optimizations.Prelude.Result.{Res, ok, err, and_then, or_panic}
use salt_optimizations.Constant.{bucket_slot_id_mask, u64_mod}
use salt_optimizations.Types.SaltKey.{SaltKey, bucket_id, salt_key}
use salt_optimizations.Types.SaltValue.{SaltValue}
use salt_optimizations.Types.NodeId.{NodeId}
use salt_optimizations.Store.Traits.{StateReader}
use salt_optimizations.Store.TrieReader.{TrieReader}
use salt_optimizations.Trie.Committer.{Committer, kv_hash, root_hash}
use salt_optimizations.Trie.NodeUtils.{get_child_node, subtree_leaf_start_key}
use salt_optimizations.Trie.StateRoot.{collect_results, flatten}
use salt_optimizations.Proof.Sets
use salt_optimizations.Proof.Sets.{Set}
use salt_optimizations.Proof.Shape.{Points, connect_parent_id, logic_parent_id, parents_and_points}
use salt_optimizations.Proof.Errors.{
  ProofError, state_read_error, missing_root_commitment, root_mismatch, multi_point_proof_failed,
}
use salt_optimizations.Proof.Opening.{Opening, SaltProof, VerifierQuery}
use salt_optimizations.Proof.Subtrie.{create_sub_trie, dedup, is_empty, main_bucket}

-- `kvs`: the values at salt keys, `none` for an empty slot.
abbrev pub Kvs : Type 0
Kvs = Map (Option SaltValue)

-- `keys.windows(2).any(|w| w[0] > w[1])`, after a first key
unfoldable pub falls_after : ℕ → List ℕ → Bool
falls_after k [] = false
falls_after k (j ∷ l) = ltb j k || falls_after j l

unfoldable pub needs_sorting : List ℕ → Bool
unfolding falls_after
needs_sorting [] = false
needs_sorting (k ∷ l) = falls_after k l

unfoldable pub canonical_keys : List SaltKey → List SaltKey
unfolding needs_sorting sort_by_key dedup
canonical_keys keys = dedup (if needs_sorting keys then sort_by_key (λ (k : ℕ). k) keys else keys)

-- Sets of numbers, in rising order, are equal as lists are.
abbrev set_eq : Set → Set → Bool
set_eq = bytes_eq

-- The value at a key, or the error of the source.
unfoldable pub or_missing {ℓ} : {A : Type ℓ} → Option A → Res ProofError A
or_missing none = err (state_read_error "Missing")
or_missing (some a) = ok a

-- The first key of a leaf node.
unfoldable pub leaf_start_key : NodeId → SaltKey
unfolding salt_key main_bucket
leaf_start_key parent =
    if ltb parent bucket_slot_id_mask
    then salt_key (main_bucket parent) 0
    else subtree_leaf_start_key parent

module _ (c : Committer) where
  abbrev pub VerifierQueries : Type 0
  VerifierQueries = List (VerifierQuery c)

  unfoldable pub get_commitment_safe : Map c.Element → NodeId → Res ProofError c.Element
  unfolding or_missing
  get_commitment_safe path_commitments node = or_missing (Maps.get node path_commitments)

  -- `children_commitments_to_scalars` and the loop over the points of a node.
  unfoldable pub internal_node_query :
      Map c.Element → NodeId → c.Element → ℕ → Res ProofError (VerifierQuery c)
  unfolding or_missing logic_parent_id
  internal_node_query path_commitments node commitment point =
      and_then (or_panic (logic_parent_id node)) λ logical.
        and_then (or_panic (get_child_node logical point)) λ child_id.
          and_then (or_missing (Maps.get child_id path_commitments)) λ child. ok (record {
            commitment = commitment;
            point = point;
            result = c.map_to_scalar_field child;
          })

  unfoldable pub internal_node_queries :
      Map c.Element → NodeId × Set → Res ProofError VerifierQueries
  unfolding get_commitment_safe connect_parent_id internal_node_query collect_results
  internal_node_queries path_commitments (node, points) =
      and_then (get_commitment_safe path_commitments (connect_parent_id node))
        λ commitment. collect_results (internal_node_query path_commitments node commitment) points

  unfoldable pub create_internal_node_queries :
      Map Set → Map c.Element → Res ProofError VerifierQueries
  unfolding internal_node_queries collect_results flatten
  create_internal_node_queries internal_nodes path_commitments =
      and_then (collect_results (internal_node_queries path_commitments) internal_nodes)
        λ queries. ok (flatten queries)

  unfoldable pub leaf_node_query : Kvs → SaltKey → c.Element → ℕ → Res ProofError (VerifierQuery c)
  unfolding or_missing kv_hash
  leaf_node_query kvs salt_key_start commitment point =
      and_then (or_missing (Maps.get ((salt_key_start + point) % u64_mod) kvs)) λ salt_val.
        and_then (or_panic (kv_hash c salt_val))
          λ result. ok (record { commitment = commitment; point = point; result = result })

  unfoldable pub leaf_node_queries :
      Map c.Element → Kvs → NodeId × Set → Res ProofError VerifierQueries
  unfolding get_commitment_safe connect_parent_id leaf_start_key leaf_node_query collect_results
  leaf_node_queries path_commitments kvs (parent, points) =
      and_then (get_commitment_safe path_commitments (connect_parent_id parent)) λ commitment.
        collect_results (leaf_node_query kvs (leaf_start_key parent) commitment) points

  unfoldable pub create_leaf_node_queries :
      Map Set → Map c.Element → Kvs → Res ProofError VerifierQueries
  unfolding leaf_node_queries collect_results flatten
  create_leaf_node_queries leaf_nodes path_commitments kvs =
      and_then (collect_results (leaf_node_queries path_commitments kvs) leaf_nodes)
        λ queries. ok (flatten queries)

  module _ (o : Opening c) where
    unfoldable pub create :
        {E : Type 0} → List SaltKey → StateReader E → TrieReader E → Res ProofError (SaltProof c o)
    unfolding canonical_keys create_sub_trie
    create keys store trie = and_then (create_sub_trie c store trie (canonical_keys keys)) λ made.
        ok (record { parents_commitments = made.1; proof = o.open_all made.0; levels = made.2 })

    -- The nodes whose commitments a proof must have.
    unfoldable pub required_node_ids : Points → Set
    unfolding Sets.keys Sets.extend connect_parent_id
    required_node_ids points =
        Sets.extend [] (map connect_parent_id (Sets.keys points.0 ++ Sets.keys points.1))

    unfoldable pub queries_at : SaltProof c o → Kvs → Points → Res ProofError VerifierQueries
    unfolding required_node_ids create_internal_node_queries create_leaf_node_queries Sets.keys
    queries_at p kvs points =
        let queries =
          and_then (create_internal_node_queries points.0 p.parents_commitments) (λ internal.
            and_then (create_leaf_node_queries points.1 p.parents_commitments kvs)
              (λ leaf. ok (internal ++ leaf))) in
        if set_eq (Sets.keys p.parents_commitments) (required_node_ids points)
        then queries
        else err (state_read_error "path_commitments in proof contains unknown node commitment")

    unfoldable pub create_verifier_queries : SaltProof c o → Kvs → Res ProofError VerifierQueries
    unfolding is_empty bucket_id Sets.keys Sets.extend parents_and_points queries_at
    create_verifier_queries p kvs =
        let bucket_ids_from_keys = Sets.extend [] (map bucket_id (Sets.keys kvs)) in
        if is_empty kvs
        then err (state_read_error "kvs is empty")
        else if set_eq (Sets.keys p.levels) bucket_ids_from_keys
        then and_then (parents_and_points (Sets.keys kvs) p.levels) (queries_at p kvs)
        else err (state_read_error "buckets_top_level in proof contains unknown bucket level info")

    unfoldable pub check_openings :
        SaltProof c o → Bytes → Bytes → VerifierQueries → Res ProofError (Unit {0})
    check_openings p state_root trie_root queries =
        if bytes_eq state_root trie_root
        then (if o.check_all p.proof queries then ok tt else err multi_point_proof_failed)
        else err (root_mismatch trie_root state_root)

    -- `as_bytes` of the root's commitment.
    unfoldable pub check_root :
        SaltProof c o → Bytes → VerifierQueries → Option c.Element → Res ProofError (Unit {0})
    unfolding check_openings root_hash
    check_root p state_root queries none = err missing_root_commitment
    check_root p state_root queries (some root) =
        check_openings p state_root (root_hash c (c.to_commitment root)) queries

    unfoldable pub check : SaltProof c o → Kvs → Bytes → Res ProofError (Unit {0})
    unfolding create_verifier_queries check_root
    check p data_kvs state_root =
        and_then (create_verifier_queries p data_kvs)
          λ queries. check_root p state_root queries (Maps.get 0 p.parents_commitments)
