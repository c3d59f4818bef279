-- ===== src/Trie/StateRoot/Deltas.antt =====
-- `add_commitment_deltas` of salt/src/trie/trie.rs against the sum of each node's deltas.
use mathlib.Core.List.{append_assoc, append-nil, reverse, reverse-cons, reverse-reverse}
use salt_optimizations.Prelude.{
  ℕ, ◌-◌, ◌<◌, ◌≡◌, refl, sym, ap, ◌∙◌, Bool, true, false, Option, none, some, [], ◌∷◌, ◌++◌, map,
  arith, inl, inr, Bool-cases, ==_iff, ◌==◌, if◌then◌else◌,
}
use salt_optimizations.Prelude.Bytes.{Bytes}
use salt_optimizations.Prelude.Maps
use salt_optimizations.Prelude.Result.{ok}
use salt_optimizations.Prelude.Sort.{
  Each, From, IsAscending, sort_by_key, sort_by_key-Each, sort_by_key-IsAscending,
}
use salt_optimizations.Constant.{u64_mod}
use salt_optimizations.Types.NodeId.{NodeId}
use salt_optimizations.Store.TrieReader.{TrieReader, TrieUpdates}
use salt_optimizations.Trie.Committer.{Committer, IsLawful}
use salt_optimizations.Trie.StateRoot.{
  StateRoot, DeltaList, Accumulated, accumulate, add_to_last, updated, commitment,
  add_commitment_deltas,
}
use salt_optimizations.Trie.StateRoot.Chunks.{AreNodes, chunks_exact, whole}
use salt_optimizations.Trie.StateRoot.Totals.{
  occurs, occurs-sort_by_key, total, total-absent, total-sort_by_key,
}

module _ {E : Type 0} (c : Committer) (trie : TrieReader E) (threads : ℕ) (s : StateRoot)
    (old : NodeId → Bytes) where
  abbrev Deltas : Type 0
  Deltas = DeltaList c trie threads

  abbrev Groups : Type 0
  Groups = Accumulated c trie threads

  abbrev pair : NodeId × c.Element → NodeId × c.Element
  pair d = d

  abbrev node_of : NodeId × c.Element → ℕ
  node_of d = d.0

  -- The stored or cached commitment of each node with a delta is the one that `old` gives.
  abbrev pub Known : Deltas → Type 0
  Known = Each (λ (d : NodeId × c.Element). commitment c trie threads s d.0 ≡ ok (old d.0))

  -- The groups of the deltas, the first one begun with `el`.
  grouped : NodeId → Bytes → c.Element → Deltas → Groups
  grouped cur o el [] = (cur, o, el) ∷ []
  grouped cur o el ((n, d) ∷ ds) =
      let same = grouped cur o (c.add el d) ds in
      let other = (cur, o, el) ∷ grouped n (old n) (c.add (c.from_bytes (old n)) d) ds in
      if n == cur then same else other

  shift :
      (x : NodeId × Bytes × c.Element) (xs done : Groups)
      → reverse (x ∷ xs) ++ done ≡ reverse xs ++ (x ∷ done)
  shift x xs done =
      ap (λ l. l ++ done) (reverse-cons x xs) ∙ append_assoc (reverse xs) (x ∷ []) done

  accumulate-grouped :
      (cur : NodeId) (o : Bytes) (el : c.Element) (ds : Deltas) (done : Groups)
      → Known ds
      → accumulate c trie threads s cur ds ((cur, o, el) ∷ done)
        ≡ ok (reverse (grouped cur o el ds) ++ done)
  unfolding accumulate add_to_last grouped
  accumulate-grouped cur o el [] done k = refl
  accumulate-grouped cur o el ((n, d) ∷ ds) done k = elim (Bool-cases (n == cur)) [
    | inl same ↦ rw (same) (accumulate-grouped cur o (c.add el d) ds done k.1)
    | inr other ↦
        let fresh : c.Element = c.add (c.from_bytes (old n)) d in
        rw (other, k.0)
          (accumulate-grouped n (old n) fresh ds ((cur, o, el) ∷ done) k.1
            ∙ ap (λ (l : Groups). ok l)
                (sym (shift (cur, o, el) (grouped n (old n) fresh ds) done)))
  ]

  abbrev listed : Groups → TrieUpdates
  listed groups = map (updated c trie threads) groups

  -- What the grouped list has at a node: the sum of its deltas.
  abbrev entry : NodeId → Bool → Bytes → c.Element → Deltas → Option (Bytes × Bytes)
  entry q present o el ds =
      if present then some (o, c.to_commitment (total c pair q el ds)) else none

  From-absent : (q m : ℕ) (ds : Deltas) → q < m → From node_of m ds → occurs c pair q ds ≡ false
  unfolding occurs
  From-absent q m [] lt f = refl
  From-absent q m ((n, d) ∷ ds) lt f = ground (arith, From-absent q m ds)

  grouped-get :
      (cur q : NodeId) (o : Bytes) (el : c.Element) (ds : Deltas)
      → From node_of cur ds
      → IsAscending node_of ds
      → Maps.get q (listed (grouped cur o el ds)) ≡ (
          if cur == q
          then some (o, c.to_commitment (total c pair q el ds))
          else entry q (occurs c pair q ds) (old q) (c.from_bytes (old q)) ds)
  unfolding grouped Maps.get occurs total
  grouped-get cur q o el [] f a = refl
  grouped-get cur q o el ((n, d) ∷ ds) f a = elim (Bool-cases (n == cur)) [
    | inl same ↦
        let ih = grouped-get cur q o (c.add el d) ds f.1 a.1 in
        elim (Bool-cases (cur == q)) [
          | inl p ↦ let pn : (n == q) ≡ true = ground arith in rw (same, p, pn) (ih ∙ rw (p) refl)
          | inr p ↦ let pn : (n == q) ≡ false = ground arith in rw (same, p, pn) (ih ∙ rw (p) refl)
        ]
    | inr other ↦
        let fresh : NodeId → c.Element = λ m. c.add (c.from_bytes (old m)) d in
        let ih = grouped-get n q (old n) (fresh n) ds a.0 a.1 in
        let later : cur < n = ground arith in
        elim (Bool-cases (cur == q)) [
          | inl p ↦
              let pn : (n == q) ≡ false = ground arith in
              let absent : occurs c pair q ds ≡ false = From-absent q n ds (ground arith) a.0 in
              rw (other, p, pn)
                (ap (λ x. some (o, c.to_commitment x)) (sym (total-absent c pair q ds el absent)))
          | inr p ↦ elim (Bool-cases (n == q)) [
            | inl pn ↦
                let e : n ≡ q = (==_iff n q).0 pn in
                rw (other, p, pn)
                  (ih
                    ∙ rw (pn) refl
                    ∙ ap (λ m. some (old m, c.to_commitment (total c pair q (fresh m) ds))) e)
            | inr pn ↦ rw (other, p, pn) (ih ∙ rw (pn) refl)
          ]
        ]
  ]

  -- What the deltas make of a node: nothing without a delta, else the old commitment and the one of
  -- the sum of the old element and the deltas.
  abbrev pub summed : NodeId → Deltas → Option (Bytes × Bytes)
  summed q ds =
      if occurs c pair q ds
      then some (old q, c.to_commitment (total c pair q (c.from_bytes (old q)) ds))
      else none

  grouped-summed :
      (n : NodeId) (d : c.Element) (ds : Deltas) (q : NodeId)
      → IsAscending node_of ((n, d) ∷ ds)
      → Maps.get q (listed (grouped n (old n) (c.add (c.from_bytes (old n)) d) ds))
        ≡ summed q ((n, d) ∷ ds)
  unfolding occurs total
  grouped-summed n d ds q a =
      let fresh : NodeId → c.Element = λ m. c.add (c.from_bytes (old m)) d in
      let all = grouped-get n q (old n) (fresh n) ds a.0 a.1 in
      elim (Bool-cases (n == q)) [
        | inl pn ↦
            let e : n ≡ q = (==_iff n q).0 pn in
            rw (pn) (
              all
              ∙ rw (pn) refl
              ∙ ap (λ m. some (old m, c.to_commitment (total c pair q (fresh m) ds))) e)
        | inr pn ↦ rw (pn) (all ∙ rw (pn) refl)
      ]

  -- One update of each node, from its old commitment, in the order of the nodes.
  pub record AreMerged (Q : NodeId → Type 0) (us : TrieUpdates) : Type 0 where
    pub sorted : Maps.IsSorted us
    pub olds : Each (λ (u : NodeId × (Bytes × Bytes)). Q u.0 × (u.1.0 ≡ old u.0)) us

  grouped-Above :
      (b cur : NodeId) (o : Bytes) (el : c.Element) (ds : Deltas)
      → b < cur
      → From node_of cur ds
      → IsAscending node_of ds
      → Maps.Above b (listed (grouped cur o el ds))
  unfolding grouped
  grouped-Above b cur o el [] h f a = (h, tt)
  grouped-Above b cur o el ((n, d) ∷ ds) h f a = elim (Bool-cases (n == cur)) [
    | inl same ↦ rw same (grouped-Above b cur o (c.add el d) ds h f.1 a.1)
    | inr other ↦
        rw other (
          h,
          grouped-Above cur n (old n) (c.add (c.from_bytes (old n)) d) ds (ground arith) a.0 a.1,
        )
  ]

  grouped-IsSorted :
      (cur : NodeId) (o : Bytes) (el : c.Element) (ds : Deltas)
      → From node_of cur ds
      → IsAscending node_of ds
      → Maps.IsSorted (listed (grouped cur o el ds))
  unfolding grouped
  grouped-IsSorted cur o el [] f a = tt
  grouped-IsSorted cur o el ((n, d) ∷ ds) f a = elim (Bool-cases (n == cur)) [
    | inl same ↦ rw same (grouped-IsSorted cur o (c.add el d) ds f.1 a.1)
    | inr other ↦
        rw other
          (grouped-Above cur n (old n) (c.add (c.from_bytes (old n)) d) ds (ground arith) a.0 a.1)
  ]

  grouped-Each :
      (Q : NodeId → Type 0) (cur : NodeId) (el : c.Element) (ds : Deltas)
      → Q cur
      → Each (λ (d : NodeId × c.Element). Q d.0) ds
      → Each
          (λ (u : NodeId × (Bytes × Bytes)). Q u.0 × (u.1.0 ≡ old u.0))
          (listed (grouped cur (old cur) el ds))
  unfolding grouped
  grouped-Each Q cur el [] q h = ((q, refl), tt)
  grouped-Each Q cur el ((n, d) ∷ ds) q h = elim (Bool-cases (n == cur)) [
    | inl same ↦ rw same (grouped-Each Q cur (c.add el d) ds q h.1)
    | inr other ↦ rw other ((q, refl), grouped-Each Q n (c.add (c.from_bytes (old n)) d) ds h.0 h.1)
  ]

  whole-summed :
      (Q : NodeId → Type 0) (ds : Deltas)
      → AreNodes c trie threads s ds
      → Known ds
      → IsAscending node_of ds
      → Each (λ (d : NodeId × c.Element). Q d.0) ds
      → (us : TrieUpdates) × (whole c trie threads s ds ≡ ok us)
        × ((q : NodeId) → Maps.get q us ≡ summed q ds)
        × AreMerged Q us
  unfolding accumulate occurs total Maps.get
  whole-summed Q [] nodes k a h = ([], refl, λ q. refl, record { sorted = tt; olds = tt })
  whole-summed Q ((n, d) ∷ ds) nodes k a h =
      let first : (n == u64_mod - 1) ≡ false = ground arith in
      let fresh : c.Element = c.add (c.from_bytes (old n)) d in
      let groups : Groups = grouped n (old n) fresh ds in
      let back : reverse (reverse groups ++ []) ≡ groups =
        ap reverse (append-nil (reverse groups)) ∙ reverse-reverse groups in
      (
        listed groups,
        rw (first, k.0, accumulate-grouped n (old n) fresh ds [] k.1, back) refl,
        λ q. grouped-summed n d ds q a,
        record {
          sorted = grouped-IsSorted n (old n) fresh ds a.0 a.1;
          olds = grouped-Each Q n fresh ds h.0 h.1;
        },
      )

  -- The same with the order of the updates, and with what the ids of the deltas have in common.
  pub add_commitment_deltas-merged :
      (Q : NodeId → Type 0) (ds : Deltas) (task_size : ℕ)
      → IsLawful c
      → AreNodes c trie threads s ds
      → Known ds
      → 0 < task_size
      → Each (λ (d : NodeId × c.Element). Q d.0) ds
      → (us : TrieUpdates) × (add_commitment_deltas c trie threads s ds task_size ≡ ok us)
        × ((q : NodeId) → Maps.get q us ≡ summed q ds)
        × AreMerged Q us
  unfolding add_commitment_deltas
  add_commitment_deltas-merged Q ds task_size lawful nodes known positive h =
      let sorted = sort_by_key node_of ds in
      let nodes' = sort_by_key-Each node_of (λ d. d.0 < u64_mod - 1) ds nodes in
      let (us, found, at, merged) =
        whole-summed Q sorted nodes'
          (sort_by_key-Each node_of (λ d. commitment c trie threads s d.0 ≡ ok (old d.0)) ds known)
          (sort_by_key-IsAscending node_of ds) (sort_by_key-Each node_of (λ d. Q d.0) ds h) in
      (
        us,
        chunks_exact c trie threads s sorted nodes' task_size positive ∙ found,
        λ q.
            at q
            ∙ rw
                (
                  occurs-sort_by_key c pair node_of q ds,
                  total-sort_by_key c pair lawful node_of q ds (c.from_bytes (old q)),
                )
                refl,
        merged,
      )

  no_property : (ds : Deltas) → Each (λ (d : NodeId × c.Element). Unit {0}) ds
  no_property [] = tt
  no_property (d ∷ ds) = (tt, no_property ds)

  -- Whatever the size of a task, applying deltas gives each of their nodes, and no other node, exactly
  -- one update, in the order of the nodes: from its old commitment to the commitment of its old
  -- element plus all its deltas. The nodes' commitments can be read, their ids are below the largest `u64`, the size is not 0, and
  -- elements add up as in a commutative semigroup.
  pub add_commitment_deltas-summed :
      (ds : Deltas) (task_size : ℕ)
      → IsLawful c
      → AreNodes c trie threads s ds
      → Known ds
      → 0 < task_size
      → (us : TrieUpdates) × (add_commitment_deltas c trie threads s ds task_size ≡ ok us)
        × ((q : NodeId) → Maps.get q us ≡ summed q ds)
        × Maps.IsSorted us
  add_commitment_deltas-summed ds task_size lawful nodes known positive =
      let (us, found, at, merged) =
        add_commitment_deltas-merged (λ n. Unit {0}) ds task_size lawful nodes known positive
          (no_property ds) in
      (us, found, at, merged.sorted)
