-- ===== src/Proof/Prover/Queries.antt =====
-- The queries of the leaf nodes in salt/src/proof/prover.rs: which slot each of them is about.
use mathlib.Core.Path.{subst}
use mathlib.Core.List.{Mem, mem-append_left, mem-append_right, mem-cons_of_mem, mem-cons_self}
use salt_optimizations.Prelude.{
  ℕ, ◌+◌, ◌%◌, ◌^◌, ◌≤◌, ◌<◌, ◌≡◌, ◌≢◌, ◌⊎◌, refl, sym, ap, ◌∙◌, true, false, Option, none, some,
  List, [], ◌∷◌, arith, inl, inr, Bool-cases, ==_iff, ltb, ◌==◌,
}
use salt_optimizations.Prelude.Maps
use salt_optimizations.Prelude.Maps.{Map}
use salt_optimizations.Prelude.Result.{
  Res, ok, ok-injective, and_then-result, or_panic, or_panic-some,
}
use salt_optimizations.Constant.{bucket_slot_id_mask, trie_width, u64_mod}
use salt_optimizations.Types.SaltKey.{SaltKey, bucket_id, salt_key, slot_id}
use salt_optimizations.Types.SaltValue.{SaltValue}
use salt_optimizations.Trie.Committer.{Committer, kv_hash}
use salt_optimizations.Trie.NodeUtils.{bucket_root_node_id, subtree_leaf_for_key}
use salt_optimizations.Trie.Leaves.{leaf_segment}
use salt_optimizations.Trie.StateRoot.{collect_results, flatten}
use salt_optimizations.Proof.Sets.{Set, or_default}
use salt_optimizations.Proof.Shape.{connect_parent_id, segment_node}
use salt_optimizations.Proof.Shape.Slots.{at, has}
use salt_optimizations.Proof.Opening.{VerifierQuery}
use salt_optimizations.Proof.Subtrie.{main_bucket}
use salt_optimizations.Proof.Prover.{
  Kvs, create_leaf_node_queries, get_commitment_safe, leaf_node_queries, leaf_node_query,
  leaf_start_key, or_missing,
}

module _ {E : Type 0} where
  -- Of each item collected there is a result.
  pub collected {ℓ} :
      {B : Type ℓ} (f : ℕ → Res E B) (s : Set) (bs : List B) (i : ℕ)
      → collect_results f s ≡ ok bs
      → has i s ≡ true
      → (b : B) × (f i ≡ ok b) × Mem b bs
  unfolding collect_results has
  collected f [] bs i h member = cc
  collected f (j ∷ s) bs i h member =
      let (b, h0, h1) = and_then-result (f j) _ bs h in
      let (rest, h2, h3) = and_then-result (collect_results f s) _ bs h1 in
      elim (Bool-cases (j == i)) [
        | inl same ↦ (
          b,
          ap f (sym ((==_iff j i).0 same)) ∙ h0,
          subst (Mem b) (ok-injective h3) mem-cons_self,
        )
        | inr other ↦
            let (b', found, there) = collected f s rest i h2 (ground arith) in
            (b', found, subst (Mem b') (ok-injective h3) (mem-cons_of_mem b there))
      ]

  -- Of each entry of a map, with all its items in the flat list.
  pub collected_at {ℓ} :
      {C : Type ℓ} (f : ℕ × Set → Res E (List C)) (m : Map Set) (bs : List (List C)) (node : ℕ)
      (s : Set)
      → collect_results f m ≡ ok bs
      → Maps.get node m ≡ some s
      → (b : List C) × (f (node, s) ≡ ok b) × ((q : C) → Mem q b → Mem q (flatten bs))
  unfolding collect_results Maps.get flatten
  collected_at f [] bs node s h found = cc
  collected_at f ((j, t) ∷ m) bs node s h found =
      let (b, h0, h1) = and_then-result (f (j, t)) _ bs h in
      let (rest, h2, h3) = and_then-result (collect_results f m) _ bs h1 in
      elim (Bool-cases (j == node)) [
        | inl same ↦
            let e : j ≡ node = (==_iff j node).0 same in
            let t_is : some t ≡ some s = sym (rw (same) refl) ∙ found in
            let e' : t ≡ s = cc in
            (
              b,
              ap f (sym (ap (λ n. (n, t)) e ∙ ap (λ x. (node, x)) e')) ∙ h0,
              λ q there.
                  subst (λ l. Mem q (flatten l)) (ok-injective h3)
                    (mem-append_left (flatten rest) there),
            )
        | inr other ↦
            let (b', got, there) =
              collected_at f m rest node s h2 (sym (rw (other) refl) ∙ found) in
            (
              b',
              got,
              λ q within.
                  subst (λ l. Mem q (flatten l)) (ok-injective h3)
                    (mem-append_right b (there q within)),
            )
      ]

pub or_missing-some {ℓ} : {A : Type ℓ} (o : Option A) (a : A) → or_missing o ≡ ok a → o ≡ some a
unfolding or_missing
or_missing-some none a h = cc
or_missing-some (some b) a h = ap some (ok-injective h)

-- A position that is recorded has an entry.
pub recorded :
    (i : ℕ) (o : Option Set)
    → has i (or_default o) ≡ true
    → (s : Set) × (o ≡ some s) × (has i s ≡ true)
unfolding has or_default
recorded i none h = cc
recorded i (some s) h = (s, refl, h)

-- The node and the position of a slot lead back to its key: a bucket without a subtree has 256 slots,
-- and no subtree belongs to bucket 0.
abbrev pub Fits : SaltKey → ℕ → Type 0
Fits key level =
    (key < 2 ^ 64)
    × ((level ≡ 1) × (slot_id key < 256) × (bucket_id key < 2 ^ 24)
        ⊎ (level ≢ 1) × (1 ≤ bucket_id key))

leaf_start_key-segment_node :
    (key : SaltKey) (level : ℕ)
    → Fits key level
    → (leaf_start_key (segment_node key level) + slot_id key % trie_width) % u64_mod ≡ key
unfolding leaf_start_key segment_node bucket_root_node_id main_bucket salt_key bucket_id slot_id
    subtree_leaf_for_key
leaf_start_key-segment_node key level (h, inl (one, slot, bucket)) =
    let at_root : (level == 1) ≡ true = ground arith in
    let main : ltb (bucket_root_node_id (bucket_id key)) bucket_slot_id_mask ≡ true =
      ground arith in
    rw (at_root, main) (omega arith)
leaf_start_key-segment_node key level (h, inr (more, bucket)) =
    let below : (level == 1) ≡ false = ground arith in
    let deep : bucket_slot_id_mask ≤ subtree_leaf_for_key key = omega arith in
    let subtree : ltb (subtree_leaf_for_key key) bucket_slot_id_mask ≡ false = ground arith in
    rw (below, subtree, (leaf_segment key h).2) (omega arith)

module _ (c : Committer) where
  -- A leaf query that could be made, at a recorded position.
  leaf_node_query-parts :
      (kvs : Kvs) (start key : SaltKey) (commitment : c.Element) (point : ℕ) (q : VerifierQuery c)
      → leaf_node_query c kvs start commitment point ≡ ok q
      → (start + point) % u64_mod ≡ key
      → (v : Option SaltValue) × (Maps.get key kvs ≡ some v)
        × (kv_hash c v ≡ some q.result)
        × (q.point ≡ point)
        × (q.commitment ≡ commitment)
  unfolding leaf_node_query
  leaf_node_query-parts kvs start key commitment point q h place =
      let (v, h0, h1) =
        and_then-result (or_missing (Maps.get ((start + point) % u64_mod) kvs)) _ q h in
      let (hash, h2, h3) = and_then-result (or_panic (kv_hash c v)) _ q h1 in
      let made = ok-injective h3 in
      (
        v,
        ap (λ k. Maps.get k kvs) (sym place)
            ∙ or_missing-some (Maps.get ((start + point) % u64_mod) kvs) v h0,
        or_panic-some (kv_hash c v) hash h2 ∙ ap (λ (x : VerifierQuery c). some x.result) made,
        ap (λ (x : VerifierQuery c). x.point) (sym made),
        ap (λ (x : VerifierQuery c). x.commitment) (sym made),
      )

  -- The query binds the value at the key to the commitment of the key's segment.
  pub record Binds (commitments : Map c.Element) (kvs : Kvs) (key : SaltKey) (level : ℕ)
      (q : VerifierQuery c) : Type 0 where
    pub entry : Option SaltValue
    pub claimed : Maps.get key kvs ≡ some entry
    pub result : kv_hash c entry ≡ some q.result
    pub point : q.point ≡ slot_id key % trie_width
    pub commitment :
        Maps.get (connect_parent_id (segment_node key level)) commitments ≡ some q.commitment

  pub leaf_queries-Binds :
      (commitments : Map c.Element) (kvs : Kvs) (leaf_nodes : Map Set)
      (queries : List (VerifierQuery c)) (key : SaltKey) (level : ℕ)
      → create_leaf_node_queries c leaf_nodes commitments kvs ≡ ok queries
      → Fits key level
      → has (slot_id key % trie_width) (at (segment_node key level) leaf_nodes) ≡ true
      → (q : VerifierQuery c) × Mem q queries × Binds commitments kvs key level q
  unfolding create_leaf_node_queries leaf_node_queries get_commitment_safe
  leaf_queries-Binds commitments kvs leaf_nodes queries key level h fits member =
      let node = segment_node key level in
      let (lists, h0, h1) =
        and_then-result (collect_results (leaf_node_queries c commitments kvs) leaf_nodes) _ queries
          h in
      let (s, at_node, inside) =
        recorded (slot_id key % trie_width) (Maps.get node leaf_nodes) member in
      let (qs, made, flat) =
        collected_at (leaf_node_queries c commitments kvs) leaf_nodes lists node s h0 at_node in
      let (commitment, h2, h3) =
        and_then-result (or_missing (Maps.get (connect_parent_id node) commitments)) _ qs made in
      let (q, h4, within) =
        collected (leaf_node_query c kvs (leaf_start_key node) commitment) s qs
          (slot_id key % trie_width) h3 inside in
      let (v, claimed, result, point, same) =
        leaf_node_query-parts kvs (leaf_start_key node) key commitment (slot_id key % trie_width) q
          h4 (leaf_start_key-segment_node key level fits) in
      (
        q,
        subst (Mem q) (ok-injective h1) (flat q within),
        record {
          entry = v;
          claimed = claimed;
          result = result;
          point = point;
          commitment =
              or_missing-some (Maps.get (connect_parent_id node) commitments) commitment h2
              ∙ ap some (sym same);
        },
      )
