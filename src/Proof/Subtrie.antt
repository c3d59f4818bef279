-- ===== src/Proof/Subtrie.antt =====
-- salt/src/proof/subtrie.rs: the queries of a prover, from the shape of the proof and the store.
-- Chunks of nodes that threads work on are joined again in order, so the list is walked once.
use salt_optimizations.Prelude.{
  ℕ, zero, suc, ◌+◌, ◌-◌, ◌/◌, ◌%◌, ◌^◌, Bool, true, false, Option, none, some, List, [], ◌∷◌, ◌++◌,
  get_elem?, map, replicate, ltb, ◌==◌, if◌then◌else◌,
}
use salt_optimizations.Prelude.Bytes.{Bytes}
use salt_optimizations.Prelude.Maps
use salt_optimizations.Prelude.Maps.{Map}
use salt_optimizations.Prelude.Result.{Res, ok, err, and_then, or_panic}
use salt_optimizations.Constant.{
  bucket_slot_bits, bucket_slot_id_mask, max_subtree_levels, meta_bucket_size, num_meta_buckets,
  trie_width, u32_mod, u64_mod,
}
use salt_optimizations.Types.SaltKey.{
  SaltKey, BucketId, bucket_id, slot_id, salt_key, is_in_meta_bucket,
}
use salt_optimizations.Types.SaltValue.{SaltValue}
use salt_optimizations.Types.BucketMeta
use salt_optimizations.Types.BucketMeta.{BucketMeta}
use salt_optimizations.Types.NodeId.{NodeId}
use salt_optimizations.Store.Traits.{StateReader}
use salt_optimizations.Store.TrieReader.{TrieReader}
use salt_optimizations.Trie.Committer.{Committer, kv_hash}
use salt_optimizations.Trie.Defaults.{default_commitment}
use salt_optimizations.Trie.NodeUtils.{
  bucket_roots_start, get_child_node, subtree_leaf_start_key, subtree_root_level,
}
use salt_optimizations.Trie.StateRoot.{collect_results, flatten}
use salt_optimizations.Proof.Sets
use salt_optimizations.Proof.Sets.{Set}
use salt_optimizations.Proof.Shape.{connect_parent_id, logic_parent_id, parents_and_points}
use salt_optimizations.Proof.Errors.{ProofError, state_read_error, invalid_salt_key, map_err}
use salt_optimizations.Proof.Opening.{ProverQuery}

-- `dedup`: of equal neighbours the first stays.
unfoldable pub dedup_after : ℕ → List ℕ → List ℕ
dedup_after k [] = []
dedup_after k (j ∷ l) = let rest = dedup_after j l in if j == k then rest else j ∷ rest

unfoldable pub dedup : List ℕ → List ℕ
unfolding dedup_after
dedup [] = []
dedup (k ∷ l) = k ∷ dedup_after k l

-- Writing at an index; `none` is the panic past the end.
unfoldable pub set_elem {ℓ} : {A : Type ℓ} → ℕ → A → List A → Option (List A)
set_elem i a [] = none
set_elem zero a (b ∷ l) = some (a ∷ l)
set_elem (suc i) a (b ∷ l) = elim (set_elem i a l) [ none ↦ none | some l' ↦ some (b ∷ l') ]

-- `collect` into a map, and into a map of commitments.
unfoldable pub collect_map {ℓ} : {V : Type ℓ} → List (ℕ × V) → Map V → Map V
collect_map [] acc = acc
collect_map ((k, v) ∷ l) acc = collect_map l (Maps.insert k v acc)

unfoldable pub is_empty {ℓ} : {A : Type ℓ} → List A → Bool
is_empty [] = true
is_empty (a ∷ l) = false

-- `bucket_id = (parent - STARTING_NODE_ID[3]) as BucketId`
unfoldable pub main_bucket : NodeId → BucketId
main_bucket parent = (parent + u64_mod - bucket_roots_start) % u64_mod % u32_mod

-- The bucket and the first slot of a leaf node.
unfoldable pub leaf_place : NodeId → ℕ × BucketId
unfolding main_bucket slot_id
leaf_place parent =
    if ltb parent bucket_slot_id_mask
    then (0, main_bucket parent)
    else (slot_id (subtree_leaf_start_key parent), parent / 2 ^ bucket_slot_bits % u32_mod)

module _ (c : Committer) where
  abbrev pub Queries : Type 0
  Queries = List (ProverQuery c)

  -- `default_element`
  unfoldable pub default_element : NodeId → Res ProofError c.Element
  default_element node =
      and_then (or_panic (default_commitment node)) λ bytes. ok (c.from_bytes bytes)

  -- The children that the store has; an index past the end panics.
  unfoldable pub place_children :
      NodeId → List (NodeId × Bytes) → List c.Element → Res ProofError (List c.Element)
  unfolding set_elem
  place_children child_idx [] child_commitments = ok child_commitments
  place_children child_idx ((node, bytes) ∷ children) child_commitments =
      and_then (or_panic (set_elem (node - child_idx) (c.from_bytes bytes) child_commitments))
        λ placed. place_children child_idx children placed

  -- `vec![default; 256]`, where the root's first child has a commitment of its own.
  unfoldable pub default_children : NodeId → Res ProofError (List c.Element)
  unfolding default_element
  default_children child_idx =
      if child_idx == 1
      then and_then (default_element 2)
          (λ other. and_then (default_element 1) λ first. ok (first ∷ replicate 255 other))
      else and_then (default_element child_idx) (λ each. ok (replicate trie_width each))

  unfoldable pub prover_queries_at : c.Element → List c.Scalar → List ℕ → Res ProofError Queries
  prover_queries_at commitment poly [] = ok []
  prover_queries_at commitment poly (i ∷ points) = and_then (or_panic (get_elem? poly i)) λ result.
      and_then (prover_queries_at commitment poly points) λ queries.
        ok (record { commitment = commitment; poly = poly; point = i; result = result } ∷ queries)

  abbrev pub create_prover_queries : c.Element → List c.Scalar → Set → Res ProofError Queries
  create_prover_queries = prover_queries_at

  -- `slot_to_field` over a list of entries, at the low byte of the slot.
  unfoldable pub place_entries :
      List (SaltKey × SaltValue) → List c.Scalar → Res ProofError (List c.Scalar)
  unfolding set_elem slot_id kv_hash
  place_entries [] coefficients = ok coefficients
  place_entries ((key, value) ∷ entries) coefficients =
      and_then (or_panic (kv_hash c (some value))) λ hash.
        and_then (or_panic (set_elem (slot_id key % trie_width) hash coefficients))
          λ placed. place_entries entries placed

  -- `SaltValue::from(BucketMeta::default())` in a metadata bucket, else no value.
  unfoldable pub default_slot : BucketId → Res ProofError (Option SaltValue)
  default_slot bucket =
      if ltb bucket num_meta_buckets
      then and_then (or_panic (BucketMeta.to_value BucketMeta.default)) (λ value. ok (some value))
      else ok none

  module _ {E : Type 0} (store : StateReader E) (trie : TrieReader E) where
    unfoldable pub children_elements : NodeId → Res ProofError (List c.Element)
    unfolding logic_parent_id default_children place_children
    children_elements node = and_then (or_panic (logic_parent_id node)) λ logical.
        and_then (or_panic (get_child_node logical 0)) λ child_idx.
          and_then
            (map_err (state_read_error "Failed to load child nodes for parent")
              (trie.node_entries child_idx (child_idx + trie_width)))
            λ children.
              and_then (default_children child_idx)
                λ defaults. place_children child_idx children defaults

    -- `multi_commitments_to_scalars` for one node: 256 scalars. Its callers load a parent's commitment
    -- after the children; all parents' commitments have been read before, and the store answers alike.
    unfoldable pub commitments_to_scalars : NodeId → Res ProofError (List c.Scalar)
    unfolding children_elements
    commitments_to_scalars node =
        and_then (children_elements node) λ elements. ok (map c.map_to_scalar_field elements)

    unfoldable pub load_commitment : NodeId → Res ProofError c.Element
    unfolding connect_parent_id
    load_commitment node =
        and_then
          (map_err (state_read_error "Failed to load commitment for node")
            (trie.commitment (connect_parent_id node)))
          λ bytes. ok (c.from_bytes bytes)

    unfoldable pub process_leaf_node : NodeId → c.Element → Set → Res ProofError Queries
    unfolding leaf_place salt_key default_slot place_entries kv_hash prover_queries_at
    process_leaf_node parent parent_commitment points =
        let (slot_start, bucket) = leaf_place parent in
        let start_key = salt_key bucket slot_start in
        let end_key = salt_key bucket (slot_start + trie_width - 1) in
        and_then
          (map_err (state_read_error "Failed to load bucket entries")
            (store.entries start_key end_key))
          λ entries. and_then (default_slot bucket) λ slot.
            and_then (or_panic (kv_hash c slot)) λ hash.
              and_then (place_entries entries (replicate trie_width hash))
                λ coefficients. create_prover_queries parent_commitment coefficients points

    unfoldable pub capacity_of_key : SaltKey → Res ProofError ℕ
    unfolding is_in_meta_bucket bucket_id
    capacity_of_key key =
        if is_in_meta_bucket key
        then ok meta_bucket_size
        else and_then
            (map_err (state_read_error "Failed to read metadata for bucket")
              (store.metadata (bucket_id key)))
            (λ meta. ok meta.capacity)

    -- `try_for_each`: the first key whose slot is past its bucket's capacity is an error.
    unfoldable pub validate_salt_keys : List SaltKey → Res ProofError (Unit {0})
    unfolding capacity_of_key slot_id
    validate_salt_keys [] = ok tt
    validate_salt_keys (key ∷ keys) =
        let rest = validate_salt_keys keys in
        and_then (capacity_of_key key) (λ capacity.
          if ltb (slot_id key) capacity then rest else err (invalid_salt_key key capacity))

    unfoldable pub bucket_level : BucketId → Res ProofError (BucketId × ℕ)
    bucket_level bucket =
        if ltb bucket num_meta_buckets
        then ok (bucket, 1)
        else and_then
            (map_err (state_read_error "Failed to read metadata for bucket")
              (store.metadata bucket))
            (λ meta.
              and_then (or_panic (subtree_root_level meta.capacity))
                λ root_level. ok (bucket, (max_subtree_levels - root_level) % 256))

    unfoldable pub parent_commitment : NodeId → Res ProofError (NodeId × c.Element)
    unfolding load_commitment connect_parent_id
    parent_commitment parent =
        and_then (load_commitment parent) λ commitment. ok (connect_parent_id parent, commitment)

    unfoldable pub internal_queries : NodeId × Set → Res ProofError Queries
    unfolding commitments_to_scalars load_commitment prover_queries_at
    internal_queries (parent, points) = and_then (commitments_to_scalars parent) λ scalars.
        and_then (load_commitment parent)
          λ commitment. create_prover_queries commitment scalars points

    unfoldable pub leaf_queries : NodeId × Set → Res ProofError Queries
    unfolding load_commitment process_leaf_node
    leaf_queries (parent, points) =
        and_then (load_commitment parent) λ commitment. process_leaf_node parent commitment points

    unfoldable pub sub_trie_of : List SaltKey → Res ProofError (Queries × Map c.Element × Map ℕ)
    unfolding validate_salt_keys bucket_id dedup bucket_level collect_map parents_and_points
        Sets.keys parent_commitment internal_queries leaf_queries collect_results flatten
    sub_trie_of salt_keys = and_then (validate_salt_keys salt_keys) λ valid.
        and_then (collect_results bucket_level (dedup (map bucket_id salt_keys))) λ found_levels.
          let buckets_level = collect_map found_levels [] in
          and_then (parents_and_points salt_keys buckets_level) λ points.
            and_then (collect_results parent_commitment (Sets.keys points.0 ++ Sets.keys points.1))
              λ commitments. and_then (collect_results internal_queries points.0) λ internal.
                and_then (collect_results leaf_queries points.1) λ leaf.
                  ok (flatten internal ++ flatten leaf, collect_map commitments [], buckets_level)

    unfoldable pub create_sub_trie : List SaltKey → Res ProofError (Queries × Map c.Element × Map ℕ)
    unfolding is_empty sub_trie_of
    create_sub_trie salt_keys =
        if is_empty salt_keys then err (state_read_error "empty key set") else sub_trie_of salt_keys
