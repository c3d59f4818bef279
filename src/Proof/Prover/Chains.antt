-- ===== src/Proof/Prover/Chains.antt =====
-- The queries of the inner nodes in salt/src/proof/prover.rs: how an accepted proof leads from the state
-- root down to the buckets of its keys.
use mathlib.Core.Path.{subst}
use mathlib.Core.List.{Mem, mem-append_left}
use salt_optimizations.Prelude.{
  ℕ, ◌+◌, ◌/◌, ◌%◌, ◌^◌, ◌<◌, ◌≡◌, refl, sym, ap, ◌∙◌, true, false, some, List, ◌++◌, arith,
}
use salt_optimizations.Prelude.Bytes.{Bytes}
use salt_optimizations.Prelude.Maps
use salt_optimizations.Prelude.Maps.{Map}
use salt_optimizations.Prelude.Result.{ok, ok-injective, and_then-result, or_panic, or_panic-some}
use salt_optimizations.Types.SaltKey.{SaltKey, bucket_id}
use salt_optimizations.Trie.Committer.{Committer, root_hash}
use salt_optimizations.Trie.NodeUtils.{get_child_node}
use salt_optimizations.Trie.StateRoot.{collect_results}
use salt_optimizations.Proof.Sets
use salt_optimizations.Proof.Sets.{Set}
use salt_optimizations.Proof.Shape.{connect_parent_id, is_encoded_node, logic_parent_id}
use salt_optimizations.Proof.Shape.Slots.{at, has}
use salt_optimizations.Proof.Shape.Paths.{
  IsChildOf, IsChildOf-child, root_place, middle_place, top_place, parents_and_points-OnPath,
}
use salt_optimizations.Proof.Opening.{Opening, SaltProof, VerifierQuery}
use salt_optimizations.Proof.Prover.{
  Kvs, check, create_internal_node_queries, create_verifier_queries, get_commitment_safe,
  internal_node_queries, internal_node_query, or_missing,
}
use salt_optimizations.Proof.Prover.Queries.{collected, collected_at, or_missing-some, recorded}
use salt_optimizations.Proof.Prover.Checks.{check-Accepts, create_verifier_queries-Created}

-- The ids of the main trie have no levels of a bridge in them.
plain_node : (n : ℕ) → n < 2 ^ 33 → is_encoded_node n ≡ false
unfolding is_encoded_node
plain_node n h = ground arith

module _ (c : Committer) (commitments : Map c.Element) where
  -- One of the queries opens the commitment of a node, at the position of a child, to the scalar of the
  -- child's commitment.
  pub record Opens (queries : List (VerifierQuery c)) (parent position child : ℕ) : Type 0 where
    pub query : VerifierQuery c
    pub listed : Mem query queries
    pub of_parent : Maps.get parent commitments ≡ some query.commitment
    pub at_position : query.point ≡ position
    pub element : c.Element
    pub of_child : Maps.get child commitments ≡ some element
    pub to_child : query.result ≡ c.map_to_scalar_field element

  internal_queries-Opens :
      (internal_nodes : Map Set) (queries : List (VerifierQuery c)) (n parent position child : ℕ)
      → create_internal_node_queries c internal_nodes commitments ≡ ok queries
      → IsChildOf n parent position child
      → parent < 2 ^ 33
      → has position (at parent internal_nodes) ≡ true
      → Opens queries parent position child
  unfolding create_internal_node_queries internal_node_queries internal_node_query
      get_commitment_safe connect_parent_id logic_parent_id
  internal_queries-Opens internal_nodes queries n parent position child h place small member =
      let plain = plain_node parent small in
      let (lists, h0, h1) =
        and_then-result (collect_results (internal_node_queries c commitments) internal_nodes) _
          queries h in
      let (s, at_node, inside) = recorded position (Maps.get parent internal_nodes) member in
      let (qs, made, flat) =
        collected_at (internal_node_queries c commitments) internal_nodes lists parent s h0
          at_node in
      let same_node : connect_parent_id parent ≡ parent = rw (plain) refl in
      let (commitment, h2, h3) =
        and_then-result (or_missing (Maps.get (connect_parent_id parent) commitments)) _ qs made in
      let (q, h4, within) =
        collected (internal_node_query c commitments parent commitment) s qs position h3 inside in
      let (logical, h5, h6) = and_then-result (or_panic (logic_parent_id parent)) _ q h4 in
      let (child_id, h7, h8) =
        and_then-result (or_panic (get_child_node logical position)) _ q h6 in
      let (element, h9, h10) =
        and_then-result (or_missing (Maps.get child_id commitments)) _ q h8 in
      let query = ok-injective h10 in
      let logic : logic_parent_id parent ≡ some parent = rw (plain) refl in
      let parent_is : some parent ≡ some logical =
        sym logic ∙ or_panic-some (logic_parent_id parent) logical h5 in
      let logical_is : logical ≡ parent = cc in
      let child_is : some child ≡ some child_id =
        sym (IsChildOf-child n parent position child place)
        ∙ ap (λ m. get_child_node m position) (sym logical_is)
        ∙ or_panic-some (get_child_node logical position) child_id h7 in
      let same_child : child ≡ child_id = cc in
      record {
        query = q;
        listed = subst (Mem q) (ok-injective h1) (flat q within);
        of_parent =
            ap (λ m. Maps.get m commitments) (sym same_node)
            ∙ or_missing-some (Maps.get (connect_parent_id parent) commitments) commitment h2
            ∙ ap (λ (x : VerifierQuery c). some x.commitment) query;
        at_position = ap (λ (x : VerifierQuery c). x.point) (sym query);
        element = element;
        of_child =
            ap (λ m. Maps.get m commitments) same_child
            ∙ or_missing-some (Maps.get child_id commitments) element h9;
        to_child = ap (λ (x : VerifierQuery c). x.result) (sym query);
      }

  Opens-append :
      (qs rs : List (VerifierQuery c)) (parent position child : ℕ)
      → Opens qs parent position child
      → Opens (qs ++ rs) parent position child
  Opens-append qs rs parent position child h = record {
    query = h.query;
    listed = mem-append_left rs h.listed;
    of_parent = h.of_parent;
    at_position = h.at_position;
    element = h.element;
    of_child = h.of_child;
    to_child = h.to_child;
  }

module _ (c : Committer) (o : Opening c) where
  -- The chain of openings from the root to the root of a bucket, two levels between them.
  pub record OpensPath (p : SaltProof c o) (queries : List (VerifierQuery c)) (b : ℕ) : Type 0 where
    pub top : Opens c p.parents_commitments queries 0 (b / 65536) (1 + b / 65536)
    pub middle :
        Opens c p.parents_commitments queries (1 + b / 65536) (b / 256 % 256) (257 + b / 256)
    pub bottom : Opens c p.parents_commitments queries (257 + b / 256) (b % 256) (65793 + b)

  -- If a proof is accepted, then the root's commitment that it gives has the state root as its hash, and
  -- for each 64-bit key that it was checked for the queries that were opened lead down from the root
  -- to the root of the key's bucket: each of them opens the commitment given for a node of the main
  -- trie, at the position of the next node, to the scalar of the commitment given for the next node.
  pub check-OpensPath :
      (p : SaltProof c o) (kvs : Kvs) (state_root : Bytes) (key : SaltKey)
      → check c o p kvs state_root ≡ ok tt
      → has key (Sets.keys kvs) ≡ true
      → key < 2 ^ 64
      → (queries : List (VerifierQuery c)) × (create_verifier_queries c o p kvs ≡ ok queries)
        × (o.check_all p.proof queries ≡ true)
        × (root : c.Element) × (Maps.get 0 p.parents_commitments ≡ some root)
        × (root_hash c (c.to_commitment root) ≡ state_root)
        × OpensPath p queries (bucket_id key)
  check-OpensPath p kvs state_root key h listed word =
      let b = bucket_id key in
      let small : b < 2 ^ 24 = unfold bucket_id in omega arith in
      let accepted = check-Accepts c o p kvs state_root h in
      let made = create_verifier_queries-Created c o p kvs accepted.queries accepted.created in
      let on =
        parents_and_points-OnPath p.levels (Sets.keys kvs) made.points key made.shape listed
          small in
      let opens : (n parent position child : ℕ)
          → IsChildOf n parent position child
          → parent < 2 ^ 33
          → has position (at parent made.points.0) ≡ true
          → Opens c p.parents_commitments accepted.queries parent position child =
        λ n parent position child place low member.
          subst (λ qs. Opens c p.parents_commitments qs parent position child) made.joined
            (Opens-append c p.parents_commitments made.internal made.leaf parent position child (
              internal_queries-Opens c p.parents_commitments made.points.0 made.internal n parent
                position child made.internals place low member)) in
      (
        accepted.queries,
        accepted.created,
        accepted.opened,
        accepted.root,
        accepted.root_given,
        accepted.root_matches,
        record {
          top = opens 0 0 (b / 65536) (1 + b / 65536) (top_place b small) (omega arith) on.top;
          middle =
              opens 1 (1 + b / 65536) (b / 256 % 256) (257 + b / 256) (middle_place b small)
                (omega arith) on.middle;
          bottom =
              opens 2 (257 + b / 256) (b % 256) (65793 + b) (root_place b small) (omega arith)
                on.bottom;
        },
      )
