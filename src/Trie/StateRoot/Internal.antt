-- ===== src/Trie/StateRoot/Internal.antt =====
-- `update_internal_nodes` of salt/src/trie/trie.rs: the commitments to the parents of changed nodes.
use salt_optimizations.Prelude.{
  ℕ, ◌-◌, ◌<◌, ◌≡◌, ◌≢◌, refl, sym, ap, ◌∙◌, true, false, Option, none, some, List, [], ◌∷◌, map,
  arith, inl, inr, Bool-cases, length, ◌==◌, if◌then◌else◌,
}
use salt_optimizations.Prelude.Bytes.{Bytes}
use salt_optimizations.Prelude.Maps
use salt_optimizations.Prelude.Sort.{Each, sort_by_key, sort_by_key-Each, sort_by_key-with_key}
use salt_optimizations.Prelude.Result.{Res, ok, panic, and_then}
use salt_optimizations.Constant.{u64_mod}
use salt_optimizations.Types.NodeId.{NodeId, get_local_number}
use salt_optimizations.Store.TrieReader.{TrieReader, TrieUpdates}
use salt_optimizations.Trie.NodeUtils.{get_parent_node, vc_position_in_parent}
use salt_optimizations.Trie.Committer.{Committer, IsLawful}
use salt_optimizations.Trie.StateRoot.{
  StateRoot, commitment, par_batch_size, collect_results, keyed, add_commitment_deltas,
  internal_delta, update_internal_nodes,
}
use salt_optimizations.Trie.StateRoot.Chunks.{AreNodes}
use salt_optimizations.Trie.StateRoot.Totals.{
  occurs, occurs-map, occurs-sort_by_key, total, total-absent, total-map, total-sort_by_key,
}
use salt_optimizations.Trie.StateRoot.Deltas.{
  Known, summed, add_commitment_deltas-merged, AreMerged,
}
use salt_optimizations.Trie.StateRoot.Positions.{Chained, after, delta_at, total-delta_at}
use salt_optimizations.Trie.StateRoot.Level.{
  IsChild, IsInner, child_lem, children, children_commitment, child_delta, or_root,
}

pub collect_results-ok {ℓ κ} :
    {E : Type 0} {A : Type ℓ} {B : Type κ} (f : A → Res E B) (g : A → B) (l : List A)
    → Each (λ a. f a ≡ ok (g a)) l
    → collect_results f l ≡ ok (map g l)
unfolding collect_results
collect_results-ok f g [] h = refl
collect_results-ok f g (a ∷ l) h = rw (h.0, collect_results-ok f g l h.1) refl

pub Each-map {ℓ κ μ} :
    {A : Type ℓ} (P : A → Type κ) (Q : A → Type μ) (l : List A)
    → ((a : A) → P a → Q a)
    → Each P l
    → Each Q l
Each-map P Q [] f h = tt
Each-map P Q (a ∷ l) f h = (f a h.0, Each-map P Q l f h.1)

abbrev Update : Type 0
Update = NodeId × (Bytes × Bytes)

abbrev position_of : Update → ℕ
position_of u = or_root (vc_position_in_parent u.0)

parent_of : (id : NodeId) → IsChild id → get_parent_node id ≡ some (or_root (get_parent_node id))
parent_of id (p, i, inner, h, e) =
    let up : get_parent_node id ≡ some p = ap get_parent_node e ∙ (child_lem p i inner h).0 in
    rw (up) refl

position_lem :
    (id : NodeId)
    → IsChild id
    → vc_position_in_parent id ≡ some (or_root (vc_position_in_parent id))
position_lem id (p, i, inner, h, e) =
    let up : vc_position_in_parent id ≡ some i =
      ap vc_position_in_parent e ∙ (child_lem p i inner h).1 in
    rw (up) refl

parent_bound : (id : NodeId) → IsChild id → or_root (get_parent_node id) < u64_mod - 1
unfolding get_local_number
parent_bound id (p, i, inner, h, e) =
    let up : get_parent_node id ≡ some p = ap get_parent_node e ∙ (child_lem p i inner h).0 in
    rw (up) (omega (arith, inner.0, inner.1))

abbrev pub newest_of : Bytes → Option (Bytes × Bytes) → Bytes
newest_of before none = before
newest_of before (some (old, new)) = new

nonzero_batch :
    {E A : Type 0} (batch : ℕ) (r : Res E A) → 0 < batch → (if batch == 0 then panic else r) ≡ r
nonzero_batch batch r h = let nonzero : (batch == 0) ≡ false = ground arith in rw (nonzero) refl

module _ {E : Type 0} (c : Committer) (trie : TrieReader E) (threads : ℕ) (s : StateRoot)
    (view : NodeId → Bytes) where
  -- The updates are of children of nodes whose commitments can be read.
  abbrev pub KnownParent : Update → Type 0
  KnownParent u =
      IsChild u.0
      × (commitment c trie threads s (or_root (get_parent_node u.0))
          ≡ ok (view (or_root (get_parent_node u.0))))

  internal_delta_lem :
      (u : Update) → IsChild u.0 → internal_delta c trie threads u ≡ ok (child_delta c u)
  unfolding internal_delta delta_at
  internal_delta_lem (id, (old, new)) h = rw (parent_of id h, position_lem id h) refl

  keyed_lem :
      (us : TrieUpdates)
      → Each KnownParent us
      → keyed {E = E} (λ (u : Update). vc_position_in_parent u.0) us
        ≡ ok (map (λ u. (position_of u, u)) us)
  unfolding keyed
  keyed_lem us h =
      collect_results-ok _ (λ (u : Update). (position_of u, u)) us
        (Each-map KnownParent _ us (λ u k. rw (position_lem u.0 k.0) refl) h)

  deltas_lem :
      (us : TrieUpdates)
      → Each KnownParent us
      → collect_results (internal_delta c trie threads) us ≡ ok (map (child_delta c) us)
  deltas_lem us h =
      collect_results-ok (internal_delta c trie threads) (child_delta c) us
        (Each-map KnownParent _ us (λ u k. internal_delta_lem u k.0) h)

  nodes_lem :
      (us : TrieUpdates) → Each KnownParent us → AreNodes c trie threads s (map (child_delta c) us)
  unfolding delta_at
  nodes_lem [] h = tt
  nodes_lem ((id, (old, new)) ∷ us) h = (parent_bound id h.0.0, nodes_lem us h.1)

  known_lem :
      (us : TrieUpdates)
      → Each KnownParent us
      → Known c trie threads s view (map (child_delta c) us)
  unfolding delta_at
  known_lem [] h = tt
  known_lem ((id, (old, new)) ∷ us) h = (h.0.1, known_lem us h.1)

  pub par_batch_size-positive :
      (n : ℕ) → 0 < s.min_par_batch_size → 0 < par_batch_size c trie threads s n
  unfolding par_batch_size
  par_batch_size-positive n h = ground arith

  -- The commitment of a node once the updates are applied.
  abbrev pub newest : TrieUpdates → NodeId → Bytes
  newest us p = newest_of (view p) (Maps.get p us)

  -- The new element of a node, whether it has deltas or not.
  pub newest_lem :
      {A : Type 0} (g : A → NodeId × c.Element) (us : List A) (res : TrieUpdates) (p : NodeId)
      (x : c.Element)
      → IsLawful c
      → Maps.get p res ≡ summed c trie threads s view p (map g us)
      → total c g p (c.from_bytes (view p)) us ≡ x
      → c.from_bytes (newest res p) ≡ x
  newest_lem g us res p x lawful at sum =
      let through = occurs-map c g p us in
      elim (Bool-cases (occurs c g p us)) [
        | inl present ↦
            rw (at, through, present)
              (lawful.from_bytes-to_commitment _ ∙ total-map c g p us (c.from_bytes (view p)) ∙ sum)
        | inr absent ↦
            rw (at, through, absent)
              (sym (total-absent c g p us (c.from_bytes (view p)) absent) ∙ sum)
      ]

  parents_lem :
      (Q : NodeId → Type 0) (us : TrieUpdates)
      → Each (λ (u : Update). Q (or_root (get_parent_node u.0))) us
      → Each (λ (d : NodeId × c.Element). Q d.0) (map (child_delta c) us)
  unfolding delta_at
  parents_lem Q [] h = tt
  parents_lem Q ((id, (old, new)) ∷ us) h = (h.0, parents_lem Q us h.1)

  -- The first update's parent is updated.
  abbrev pub Reaches : TrieUpdates → TrieUpdates → Type 0
  Reaches [] res = Unit {0}
  Reaches (u ∷ us) res = Maps.get (or_root (get_parent_node u.0)) res ≢ none

  reaches_lem :
      (us res : TrieUpdates)
      → ((q : NodeId)
          → Maps.get q res
            ≡ summed c trie threads s view q (map (child_delta c) (sort_by_key position_of us)))
      → Reaches us res
  unfolding occurs delta_at
  reaches_lem [] res at = tt
  reaches_lem ((id, (old, new)) ∷ us) res at =
      let u : Update = (id, (old, new)) in
      let p = or_root (get_parent_node id) in
      let present : occurs c (λ d. d) p (map (child_delta c) (sort_by_key position_of (u ∷ us)))
          ≡ true =
        occurs-map c (child_delta c) p (sort_by_key position_of (u ∷ us))
        ∙ occurs-sort_by_key c (child_delta c) position_of p (u ∷ us)
        ∙ (let here : (p == p) ≡ true = ground arith in rw here refl) in
      rw (at p, present) cc

  -- All nodes at once: the parents in order, each from its old commitment.
  pub update_internal_nodes-merged :
      (Q : NodeId → Type 0) (us : TrieUpdates)
      → IsLawful c
      → Each KnownParent us
      → Chained view us
      → 0 < s.min_par_batch_size
      → Each (λ (u : Update). Q (or_root (get_parent_node u.0))) us
      → (res : TrieUpdates) × (update_internal_nodes c trie threads s us ≡ ok res)
        × ((p : NodeId)
            → IsInner p
            → c.from_bytes (view p) ≡ children_commitment c view p
            → c.from_bytes (newest res p) ≡ children_commitment c (after view us) p)
        × AreMerged c trie threads s view Q res
        × Reaches us res
  unfolding update_internal_nodes
  update_internal_nodes-merged Q us lawful known chained positive parents =
      let sorted = sort_by_key position_of us in
      let known' = sort_by_key-Each position_of KnownParent us known in
      let batch = par_batch_size c trie threads s (length us) in
      let some_batch : 0 < batch = par_batch_size-positive (length us) positive in
      let (res, found, at, merged) =
        add_commitment_deltas-merged c trie threads s view Q (map (child_delta c) sorted) batch
          lawful (nodes_lem sorted known') (known_lem sorted known') some_batch
          (parents_lem Q sorted
            (sort_by_key-Each position_of (λ u. Q (or_root (get_parent_node u.0))) us parents)) in
      let all : and_then (collect_results (internal_delta c trie threads) sorted)
            (λ deltas. add_commitment_deltas c trie threads s deltas batch)
          ≡ ok res =
        ap (λ r. and_then r (λ deltas. add_commitment_deltas c trie threads s deltas batch))
          (deltas_lem sorted known')
        ∙ found in
      (
        res,
        rw (keyed_lem us known, sort_by_key-with_key position_of us)
            (nonzero_batch batch _ some_batch ∙ all),
        λ p inner commits.
            newest_lem (child_delta c) sorted res p (children_commitment c (after view us) p) lawful
              (at p)
              (total-sort_by_key c (child_delta c) lawful position_of p us (c.from_bytes (view p))
                ∙ ap (λ x. total c (child_delta c) p x us) commits
                ∙ total-delta_at children c c.hash_commitment lawful view us p
                    (Each-map KnownParent _ us (λ u k. k.0) known) chained inner),
        merged,
        reaches_lem us res at,
      )

  no_property : (us : TrieUpdates) → Each (λ (u : Update). Unit {0}) us
  no_property [] = tt
  no_property (u ∷ us) = (tt, no_property us)

  -- An inner node that commits to its children before the updates of children commits to the updated
  -- children after `update_internal_nodes`. The updates are chained, the parents' commitments can
  -- be read, the smallest task is not 0, and elements form a commutative semigroup in which a
  -- difference of scalars times a generator makes up for the change.
  pub update_internal_nodes-children_commitment :
      (us : TrieUpdates) (p : NodeId)
      → IsLawful c
      → Each KnownParent us
      → Chained view us
      → 0 < s.min_par_batch_size
      → IsInner p
      → c.from_bytes (view p) ≡ children_commitment c view p
      → (res : TrieUpdates) × (update_internal_nodes c trie threads s us ≡ ok res)
        × (c.from_bytes (newest res p) ≡ children_commitment c (after view us) p)
  update_internal_nodes-children_commitment us p lawful known chained positive inner commits =
      let (res, found, all, merged, reaches) =
        update_internal_nodes-merged (λ n. Unit {0}) us lawful known chained positive
          (no_property us) in
      (res, found, all p inner commits)
