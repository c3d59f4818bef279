-- ===== src/Proof/Prover/Checks.antt =====
-- What `SaltProof::check` of salt/src/proof/prover.rs has made sure of when it accepts a proof.
use mathlib.Core.Path.{subst}
use mathlib.Core.List.{Mem, mem-append_right}
use salt_optimizations.Prelude.{
  ℕ, ◌≡◌, refl, sym, Bool, true, false, Option, none, some, List, [], ◌++◌, map, if◌then◌else◌,
}
use salt_optimizations.Prelude.Bytes.{Bytes, bytes_eq, bytes_eq_iff}
use salt_optimizations.Prelude.Maps
use salt_optimizations.Prelude.Maps.{Map}
use salt_optimizations.Prelude.Result.{Res, ok, err, ok-injective, and_then-result}
use salt_optimizations.Types.SaltKey.{SaltKey, bucket_id}
use salt_optimizations.Trie.Committer.{Committer, root_hash}
use salt_optimizations.Proof.Sets
use salt_optimizations.Proof.Sets.{Set, or_default}
use salt_optimizations.Proof.Shape.{Points, parents_and_points}
use salt_optimizations.Proof.Shape.Slots.{has, parents_and_points-slot}
use salt_optimizations.Proof.Errors.{ProofError}
use salt_optimizations.Proof.Opening.{Opening, SaltProof, VerifierQuery}
use salt_optimizations.Proof.Subtrie.{is_empty}
use salt_optimizations.Proof.Prover.{
  Kvs, check, check_openings, check_root, create_internal_node_queries, create_leaf_node_queries,
  create_verifier_queries, queries_at, required_node_ids,
}
use salt_optimizations.Proof.Prover.Queries.{Binds, Fits, leaf_queries-Binds}

-- A guarded step that went on.
passed {ℓ} :
    {E : Type 0} {A : Type ℓ} (b : Bool) (r : Res E A) (e : E) (a : A)
    → (if b then r else err e) ≡ ok a
    → (b ≡ true) × (r ≡ ok a)
passed true r e a h = (refl, h)
passed false r e a h = cc

refused {ℓ} :
    {E : Type 0} {A : Type ℓ} (b : Bool) (r : Res E A) (e : E) (a : A)
    → (if b then err e else r) ≡ ok a
    → (b ≡ false) × (r ≡ ok a)
refused true r e a h = cc
refused false r e a h = (refl, h)

module _ (c : Committer) (o : Opening c) where
  -- What a proof that has been accepted was checked for: the openings of the queries, the state root,
  -- and that it has the levels and the commitments that the values need, and no others.
  pub record Accepts (p : SaltProof c o) (kvs : Kvs) (state_root : Bytes) : Type 0 where
    pub queries : List (VerifierQuery c)
    pub created : create_verifier_queries c o p kvs ≡ ok queries
    pub opened : o.check_all p.proof queries ≡ true
    pub root : c.Element
    pub root_given : Maps.get 0 p.parents_commitments ≡ some root
    pub root_matches : root_hash c (c.to_commitment root) ≡ state_root
    pub points : Points
    pub shape : parents_and_points {E = ProofError} (Sets.keys kvs) p.levels ≡ ok points
    pub levels_exact : Sets.keys p.levels ≡ Sets.extend [] (map bucket_id (Sets.keys kvs))
    pub nodes_exact : Sets.keys p.parents_commitments ≡ required_node_ids c o points
    pub some_key : is_empty kvs ≡ false

  pub record Created (p : SaltProof c o) (kvs : Kvs) (queries : List (VerifierQuery c))
      : Type 0 where
    pub points : Points
    pub shape : parents_and_points {E = ProofError} (Sets.keys kvs) p.levels ≡ ok points
    pub levels_exact : Sets.keys p.levels ≡ Sets.extend [] (map bucket_id (Sets.keys kvs))
    pub nodes_exact : Sets.keys p.parents_commitments ≡ required_node_ids c o points
    pub some_key : is_empty kvs ≡ false
    pub internal : List (VerifierQuery c)
    pub leaf : List (VerifierQuery c)
    pub internals : create_internal_node_queries c points.0 p.parents_commitments ≡ ok internal
    pub leaves : create_leaf_node_queries c points.1 p.parents_commitments kvs ≡ ok leaf
    pub joined : internal ++ leaf ≡ queries

  pub create_verifier_queries-Created :
      (p : SaltProof c o) (kvs : Kvs) (queries : List (VerifierQuery c))
      → create_verifier_queries c o p kvs ≡ ok queries
      → Created p kvs queries
  unfolding create_verifier_queries queries_at
  create_verifier_queries-Created p kvs queries h =
      let (some_key, h0) = refused (is_empty kvs) _ _ queries h in
      let (levels, h1) = passed _ _ _ queries h0 in
      let (points, shape, h2) =
        and_then-result (parents_and_points (Sets.keys kvs) p.levels) _ queries h1 in
      let (nodes, h3) = passed _ _ _ queries h2 in
      let (internal, h4, h5) =
        and_then-result (create_internal_node_queries c points.0 p.parents_commitments) _ queries
          h3 in
      let (leaf, h6, h7) =
        and_then-result (create_leaf_node_queries c points.1 p.parents_commitments kvs) _ queries
          h5 in
      record {
        points = points;
        shape = shape;
        levels_exact = (bytes_eq_iff _ _).0 levels;
        nodes_exact = (bytes_eq_iff _ _).0 nodes;
        some_key = some_key;
        internal = internal;
        leaf = leaf;
        internals = h4;
        leaves = h6;
        joined = ok-injective h7;
      }

  check_root-parts :
      (p : SaltProof c o) (state_root : Bytes) (queries : List (VerifierQuery c))
      (given : Option c.Element)
      → check_root c o p state_root queries given ≡ ok tt
      → (root : c.Element) × (given ≡ some root)
        × (root_hash c (c.to_commitment root) ≡ state_root)
        × (o.check_all p.proof queries ≡ true)
  unfolding check_root check_openings
  check_root-parts p state_root queries none h = cc
  check_root-parts p state_root queries (some root) h =
      let (same, h1) = passed (bytes_eq state_root (root_hash c (c.to_commitment root))) _ _ tt h in
      let (opened, h2) = passed (o.check_all p.proof queries) _ _ tt h1 in
      (
        root,
        refl,
        sym ((bytes_eq_iff state_root (root_hash c (c.to_commitment root))).0 same),
        opened,
      )

  -- A proof is accepted only if its openings check, the hash of its root commitment is the state root,
  -- and it has levels for the buckets of the values and commitments for the nodes that they need, for
  -- no other bucket and no other node; there is at least one value.
  pub check-Accepts :
      (p : SaltProof c o) (kvs : Kvs) (state_root : Bytes)
      → check c o p kvs state_root ≡ ok tt
      → Accepts p kvs state_root
  unfolding check
  check-Accepts p kvs state_root h =
      let (queries, created, h1) = and_then-result (create_verifier_queries c o p kvs) _ tt h in
      let made = create_verifier_queries-Created p kvs queries created in
      let (root, given, same, opened) =
        check_root-parts p state_root queries (Maps.get 0 p.parents_commitments) h1 in
      record {
        queries = queries;
        created = created;
        opened = opened;
        root = root;
        root_given = given;
        root_matches = same;
        points = made.points;
        shape = made.shape;
        levels_exact = made.levels_exact;
        nodes_exact = made.nodes_exact;
        some_key = made.some_key;
      }

  -- If a proof is accepted, then each key that it was checked for has a query among those that were
  -- opened, at the position of the key's slot in the commitment of its segment, and with the hash of
  -- the value claimed for it. The key's slot fits in the levels that the proof gives its bucket.
  pub check-Binds :
      (p : SaltProof c o) (kvs : Kvs) (state_root : Bytes) (key : SaltKey) (level : ℕ)
      → check c o p kvs state_root ≡ ok tt
      → has key (Sets.keys kvs) ≡ true
      → Maps.get (bucket_id key) p.levels ≡ some level
      → Fits key level
      → (queries : List (VerifierQuery c)) × (create_verifier_queries c o p kvs ≡ ok queries)
        × (o.check_all p.proof queries ≡ true)
        × (q : VerifierQuery c) × Mem q queries
        × Binds c p.parents_commitments kvs key level q
  check-Binds p kvs state_root key level h listed found fits =
      let accepted = check-Accepts p kvs state_root h in
      let made = create_verifier_queries-Created p kvs accepted.queries accepted.created in
      let member =
        parents_and_points-slot p.levels (Sets.keys kvs) made.points key level made.shape listed
          found in
      let (q, inside, binds) =
        leaf_queries-Binds c p.parents_commitments kvs made.points.1 made.leaf key level made.leaves
          fits member in
      (
        accepted.queries,
        accepted.created,
        accepted.opened,
        q,
        subst (Mem q) made.joined (mem-append_right made.internal inside),
        binds,
      )
