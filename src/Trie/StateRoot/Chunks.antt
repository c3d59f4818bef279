-- ===== src/Trie/StateRoot/Chunks.antt =====
-- `create_node_aligned_chunks` and `accumulate_chunk_deltas` of salt/src/trie/trie.rs: the chunks
-- that threads work on, and the list that they make up.
use mathlib.Core.List.{reverse, reverse-append, map-append, append-nil}
use salt_optimizations.Prelude.{
  ℕ, zero, suc, ◌+◌, ◌-◌, ◌≤◌, ◌<◌, ◌≡◌, refl, sym, ap, ◌∙◌, false, Option, none, some, List, [],
  ◌∷◌, ◌++◌, length, length-drop, take, take_all, take-append-drop, drop, get_elem?, map, ◌&&◌,
  arith, inl, inr, Bool-cases, ==_iff, ltb, ◌==◌,
}
use salt_optimizations.Prelude.Bytes.{Bytes}
use salt_optimizations.Prelude.Sort.{Each}
use salt_optimizations.Prelude.Result.{Res, ok, err, panic, out_of_fuel, and_then}
use salt_optimizations.Constant.{u64_mod}
use salt_optimizations.Types.NodeId.{NodeId}
use salt_optimizations.Store.TrieReader.{TrieReader, TrieUpdates}
use salt_optimizations.Trie.Committer.{Committer}
use salt_optimizations.Trie.StateRoot.{
  StateRoot, DeltaList, Accumulated, accumulate, add_to_last, updated, commitment,
  accumulate_chunk_deltas, same_node, extend_boundary, boundaries_from, ranges,
  create_node_aligned_chunks, collect_results, flatten,
}

and_then_assoc {ℓ κ μ} :
    {E : Type 0} {A : Type ℓ} {B : Type κ} {C : Type μ} (r : Res E A) (f : A → Res E B)
    (g : B → Res E C)
    → and_then (and_then r f) g ≡ and_then r (λ a. and_then (f a) g)
and_then_assoc (ok a) f g = refl
and_then_assoc (err e) f g = refl
and_then_assoc panic f g = refl
and_then_assoc out_of_fuel f g = refl

and_then_congr {ℓ κ} :
    {E : Type 0} {A : Type ℓ} {B : Type κ} (r : Res E A) (f g : A → Res E B)
    → ((a : A) → f a ≡ g a)
    → and_then r f ≡ and_then r g
and_then_congr (ok a) f g e = e a
and_then_congr (err e') f g e = refl
and_then_congr panic f g e = refl
and_then_congr out_of_fuel f g e = refl

module _ {E : Type 0} (c : Committer) (trie : TrieReader E) (threads : ℕ) (s : StateRoot) where
  abbrev Deltas : Type 0
  Deltas = DeltaList c trie threads

  abbrev run_from :
      NodeId → Deltas → Accumulated c trie threads → Res E (Accumulated c trie threads)
  run_from = accumulate c trie threads s

  -- The node of the last delta, or `cur`.
  last_id : NodeId → Deltas → NodeId
  last_id cur [] = cur
  last_id cur ((n, d) ∷ ds) = last_id n ds

  accumulate-append :
      (cur : NodeId) (xs ys : Deltas) (acc : Accumulated c trie threads)
      → run_from cur (xs ++ ys) acc
        ≡ and_then (run_from cur xs acc) (λ a. run_from (last_id cur xs) ys a)
  unfolding accumulate last_id
  accumulate-append cur [] ys acc = refl
  accumulate-append cur ((n, d) ∷ xs) ys acc = elim (Bool-cases (n == cur)) [
    | inl same ↦
        let e : n ≡ cur = (==_iff n cur).0 same in
        rw (same, e) (accumulate-append cur xs ys (add_to_last c trie threads d acc))
    | inr other ↦ rw (other) (
        and_then_congr (commitment c trie threads s n) _ _
          (λ old. accumulate-append n xs ys ((n, old, c.add (c.from_bytes old) d) ∷ acc))
        ∙ sym (and_then_assoc (commitment c trie threads s n) _ _))
  ]

  -- What lies below the last node is left alone.
  accumulate-below :
      (cur : NodeId) (ys : Deltas) (x : NodeId × Bytes × c.Element)
      (bs acc : Accumulated c trie threads)
      → run_from cur ys (x ∷ (bs ++ acc)) ≡ and_then (run_from cur ys (x ∷ bs)) (λ b. ok (b ++ acc))
  unfolding accumulate add_to_last
  accumulate-below cur [] x bs acc = refl
  accumulate-below cur ((n, d) ∷ ys) (m, old', el) bs acc = elim (Bool-cases (n == cur)) [
    | inl same ↦ rw (same) (accumulate-below cur ys (m, old', c.add el d) bs acc)
    | inr other ↦ rw (other) (
        and_then_congr (commitment c trie threads s n) _ _ (λ old.
          accumulate-below n ys (n, old, c.add (c.from_bytes old) d) ((m, old', el) ∷ bs) acc)
        ∙ sym (and_then_assoc (commitment c trie threads s n) _ _))
  ]

  -- The first node is not `n`.
  abbrev Fresh : NodeId → Deltas → Type 0
  Fresh n [] = Unit {0}
  Fresh n ((m, d) ∷ ds) = (m == n) ≡ false

  accumulate-Fresh :
      (cur start : NodeId) (ys : Deltas) (acc : Accumulated c trie threads)
      → Fresh cur ys
      → Fresh start ys
      → run_from cur ys acc ≡ and_then (run_from start ys []) (λ b. ok (b ++ acc))
  unfolding accumulate
  accumulate-Fresh cur start [] acc h h' = refl
  accumulate-Fresh cur start ((n, d) ∷ ys) acc h h' =
      rw (h, h')
        (and_then_congr (commitment c trie threads s n) _ _
            (λ old. accumulate-below n ys (n, old, c.add (c.from_bytes old) d) [] acc)
          ∙ sym (and_then_assoc (commitment c trie threads s n) _ _))

  abbrev finish : Accumulated c trie threads → Res E TrieUpdates
  finish done = ok (map (updated c trie threads) (reverse done))

  -- A list of deltas as one chunk.
  abbrev pub whole : Deltas → Res E TrieUpdates
  whole ds = and_then (run_from (u64_mod - 1) ds []) finish

  finish-append :
      (b a : Accumulated c trie threads)
      → finish (b ++ a) ≡ and_then (finish a) (λ u. and_then (finish b) (λ v. ok (u ++ v)))
  finish-append b a =
      ap (λ (l : TrieUpdates). ok l)
        (ap (map (updated c trie threads)) (reverse-append b a)
          ∙ map-append (updated c trie threads) (reverse a) (reverse b))

  -- Cutting a list where the node changes.
  whole-append :
      (xs ys : Deltas)
      → Fresh (last_id (u64_mod - 1) xs) ys
      → Fresh (u64_mod - 1) ys
      → whole (xs ++ ys) ≡ and_then (whole xs) (λ u. and_then (whole ys) (λ v. ok (u ++ v)))
  whole-append xs ys h h' =
      let joined : TrieUpdates → Res E TrieUpdates = λ u. and_then (whole ys) (λ v. ok (u ++ v)) in
      ap (λ r. and_then r finish) (accumulate-append (u64_mod - 1) xs ys [])
      ∙ and_then_assoc (run_from (u64_mod - 1) xs []) _ finish
      ∙ and_then_congr (run_from (u64_mod - 1) xs []) _ _ (λ a.
        ap (λ r. and_then r finish)
          (accumulate-Fresh (last_id (u64_mod - 1) xs) (u64_mod - 1) ys a h h')
        ∙ and_then_assoc (run_from (u64_mod - 1) ys []) _ finish
        ∙ and_then_congr (run_from (u64_mod - 1) ys []) _ _ (λ b. finish-append b a)
        ∙ sym (and_then_assoc (run_from (u64_mod - 1) ys []) finish _))
      ∙ sym (and_then_assoc (run_from (u64_mod - 1) xs []) finish joined)

  -- Each node id is one of a node, below `NodeId::MAX`.
  abbrev pub AreNodes : Deltas → Type 0
  AreNodes = Each (λ (d : NodeId × c.Element). d.0 < u64_mod - 1)

  AreNodes-drop : (k : ℕ) (ds : Deltas) → AreNodes ds → AreNodes (drop k ds)
  AreNodes-drop zero ds a = a
  AreNodes-drop (suc k) [] a = tt
  AreNodes-drop (suc k) (d ∷ ds) a = AreNodes-drop k ds a.1

  AreNodes-Fresh : (ds : Deltas) → AreNodes ds → Fresh (u64_mod - 1) ds
  AreNodes-Fresh [] a = tt
  AreNodes-Fresh ((n, d) ∷ ds) a = ground arith

  -- A cut between two nodes that differ.
  cut-Fresh :
      (k cur : ℕ) (ds : Deltas)
      → k < length ds
      → same_node c trie threads (get_elem? ds (suc k)) (get_elem? ds k) ≡ false
      → Fresh (last_id cur (take (suc k) ds)) (drop (suc k) ds)
  unfolding last_id same_node
  cut-Fresh zero cur ((n, d) ∷ []) lt h = tt
  cut-Fresh zero cur ((n, d) ∷ (m, e) ∷ ds) lt h = h
  cut-Fresh (suc k) cur ((n, d) ∷ ds) lt h = cut-Fresh k n ds (omega arith) h
  cut-Fresh _ _ [] lt h = absurd (omega arith)

  extend_boundary-le :
      (left : ℕ) (ds : Deltas) (next : ℕ) → next ≤ extend_boundary c trie threads left ds next
  unfolding extend_boundary
  extend_boundary-le zero ds next = omega arith
  extend_boundary-le (suc left) ds next = ground (arith, extend_boundary-le left ds (suc next))

  same_node-none : (o : Option (NodeId × c.Element)) → same_node c trie threads none o ≡ false
  unfolding same_node
  same_node-none none = refl
  same_node-none (some d) = refl

  get_elem?-past : (ds : Deltas) (i : ℕ) → length ds ≤ i → get_elem? ds i ≡ none
  get_elem?-past [] i h = refl
  get_elem?-past (d ∷ ds) zero h = absurd (omega arith)
  get_elem?-past (d ∷ ds) (suc i) h = get_elem?-past ds i (omega arith)

  -- A boundary does not split a node.
  extend_boundary-cuts :
      (left : ℕ) (ds : Deltas) (next : ℕ)
      → length ds ≤ left + next
      → let b = extend_boundary c trie threads left ds next in
        same_node c trie threads (get_elem? ds b) (get_elem? ds (b - 1)) ≡ false
  unfolding extend_boundary
  extend_boundary-cuts zero ds next h =
      rw (get_elem?-past ds next (omega arith)) (same_node-none (get_elem? ds (next - 1)))
  extend_boundary-cuts (suc left) ds next h =
      elim (Bool-cases (same_node c trie threads (get_elem? ds next) (get_elem? ds (next - 1)))) [
        | inl same ↦ rw (same) (extend_boundary-cuts left ds (suc next) (omega arith))
        | inr differ ↦ rw (differ) differ
      ]

  drop-nil : (j : ℕ) → ◌≡◌ {A = Deltas} (drop j []) []
  drop-nil zero = refl
  drop-nil (suc j) = refl

  drop-drop : (i j : ℕ) (ds : Deltas) → drop j (drop i ds) ≡ drop (i + j) ds
  drop-drop zero j ds = ap (λ n. drop n ds) (let e : j ≡ 0 + j = omega arith in e)
  drop-drop (suc i) j [] = drop-nil j ∙ sym (drop-nil (suc i + j))
  drop-drop (suc i) j (d ∷ ds) =
      let e : suc (i + j) ≡ suc i + j = omega arith in
      drop-drop i j ds ∙ ap (λ n. drop n (d ∷ ds)) e

  get_elem?-drop : (i k : ℕ) (ds : Deltas) → get_elem? (drop i ds) k ≡ get_elem? ds (i + k)
  get_elem?-drop zero k ds = ap (get_elem? ds) (let e : k ≡ 0 + k = omega arith in e)
  get_elem?-drop (suc i) k [] = refl
  get_elem?-drop (suc i) k (d ∷ ds) =
      let e : suc (i + k) ≡ suc i + k = omega arith in
      get_elem?-drop i k ds ∙ ap (λ n. get_elem? (d ∷ ds) n) e

  and_then-ok {ℓ} : {A : Type ℓ} (r : Res E A) → and_then r (λ a. ok a) ≡ r
  and_then-ok (ok a) = refl
  and_then-ok (err e) = refl
  and_then-ok panic = refl
  and_then-ok out_of_fuel = refl

  abbrev joined : List TrieUpdates → Res E TrieUpdates
  joined us = ok (flatten us)

  abbrev chunk : Deltas → ℕ × ℕ → Res E TrieUpdates
  chunk ds r = accumulate_chunk_deltas c trie threads s ds r

  collect-cons :
      (ds : Deltas) (r : ℕ × ℕ) (rs : List (ℕ × ℕ))
      → and_then (collect_results (chunk ds) (r ∷ rs)) joined
        ≡ and_then
            (chunk ds r)
            (λ u. and_then (and_then (collect_results (chunk ds) rs) joined) (λ v. ok (u ++ v)))
  unfolding collect_results flatten
  collect-cons ds r rs =
      and_then_assoc (chunk ds r) _ joined
      ∙ and_then_congr (chunk ds r) _ _ (λ u.
        and_then_assoc (collect_results (chunk ds) rs) _ joined
        ∙ sym (and_then_assoc (collect_results (chunk ds) rs) joined _))

  last_chunk :
      (ds : Deltas) (start : ℕ)
      → and_then (collect_results (chunk ds) ((start, length ds) ∷ [])) joined
        ≡ whole (drop start ds)
  unfolding accumulate_chunk_deltas collect_results flatten
  last_chunk ds start =
      let all : take (length ds - start) (drop start ds) ≡ drop start ds =
        take_all (length ds - start) (drop start ds) (length-drop start ds) in
      collect-cons ds (start, length ds) []
      ∙ and_then_congr (chunk ds (start, length ds)) _ _
          (λ u. ap (λ (l : TrieUpdates). ok l) (append-nil u))
      ∙ and_then-ok (chunk ds (start, length ds))
      ∙ ap whole all

  module _ (ds : Deltas) (nodes : AreNodes ds) where
    -- A chunk, and what the later chunks make up.
    cut_chunk :
        (start b : ℕ)
        → start < b
        → b < length ds
        → same_node c trie threads (get_elem? ds b) (get_elem? ds (b - 1)) ≡ false
        → and_then (chunk ds (start, b)) (λ u. and_then (whole (drop b ds)) (λ v. ok (u ++ v)))
          ≡ whole (drop start ds)
    unfolding accumulate_chunk_deltas
    cut_chunk start b lo hi cut =
        let k = b - start - 1 in
        let e : b - start ≡ suc k = omega arith in
        let rest : drop b ds ≡ drop (suc k) (drop start ds) = sym (
          drop-drop start (suc k) ds
          ∙ ap (λ n. drop n ds) (let e' : start + suc k ≡ b = omega arith in e')) in
        let here : get_elem? (drop start ds) (suc k) ≡ get_elem? ds b =
          get_elem?-drop start (suc k) ds
          ∙ ap (get_elem? ds) (let e' : start + suc k ≡ b = omega arith in e') in
        let before : get_elem? (drop start ds) k ≡ get_elem? ds (b - 1) =
          get_elem?-drop start k ds
          ∙ ap (get_elem? ds) (let e' : start + k ≡ b - 1 = omega arith in e') in
        let fresh : Fresh (last_id (u64_mod - 1) (take (suc k) (drop start ds)))
            (drop (suc k) (drop start ds)) =
          cut-Fresh k (u64_mod - 1) (drop start ds) (omega (arith, length-drop start ds))
            (rw (here, before) cut) in
        rw (e, rest)
          (sym (
              whole-append (take (suc k) (drop start ds)) (drop (suc k) (drop start ds)) fresh (
                AreNodes-Fresh _
                  (AreNodes-drop (suc k) (drop start ds) (AreNodes-drop start ds nodes))))
            ∙ ap whole (take-append-drop (suc k) (drop start ds)))

    chunks-whole :
        (task fuel start next : ℕ)
        → 0 < task
        → start < next
        → length ds < fuel + next
        → 0 < fuel
        → (ends : List ℕ) × (boundaries_from c trie threads fuel ds task next ≡ ok ends)
          × (and_then (collect_results (chunk ds) (ranges c trie threads start ends)) joined
              ≡ whole (drop start ds))
    unfolding boundaries_from ranges
    chunks-whole task zero start next t lo m f = absurd (omega arith)
    chunks-whole task (suc fuel) start next t lo m f =
        let b = extend_boundary c trie threads (length ds) ds next in
        let grows : next ≤ b = extend_boundary-le (length ds) ds next in
        elim (Bool-cases (ltb next (length ds) && ltb b (length ds))) [
          | inr stop ↦ (length ds ∷ [], rw (stop) refl, last_chunk ds start)
          | inl more ↦
              let inside : (next < length ds) × (b < length ds) = ground arith in
              let (ends, found, sum) =
                chunks-whole task fuel b (b + task) t (omega arith) (omega arith) (omega arith) in
              (
                b ∷ ends,
                rw (more, found) refl,
                collect-cons ds (start, b) (ranges c trie threads b ends)
                    ∙ ap (λ r. and_then (chunk ds (start, b)) (λ u. and_then r (λ v. ok (u ++ v))))
                        sum
                    ∙ cut_chunk start b (omega arith) inside.1
                        (extend_boundary-cuts (length ds) ds next (omega arith)),
              )
        ]

    -- Whatever the size of a task, the chunks give what one chunk of all deltas gives.
    pub chunks_exact :
        (task : ℕ)
        → 0 < task
        → and_then
            (create_node_aligned_chunks c trie threads ds task)
            (λ chunks. and_then (collect_results (chunk ds) chunks) joined)
          ≡ whole ds
    unfolding create_node_aligned_chunks
    chunks_exact task t =
        let (ends, found, sum) =
          chunks-whole task (suc (length ds)) 0 task t t (omega arith) (omega arith) in
        let nz : (task == 0) ≡ false = ground arith in rw (nz, found) sum
