-- ===== src/Trie/Update/Views.antt =====
-- The commitments of all nodes while updates are applied one after the other.
use salt_optimizations.Prelude.{
  ℕ, ◌≤◌, ◌<◌, ◌≡◌, refl, sym, ap, ◌∙◌, false, [], ◌∷◌, ◌++◌, arith, inl, inr, Bool-cases, ltb,
  ◌==◌, if◌then◌else◌,
}
use salt_optimizations.Prelude.Bytes.{Bytes}
use salt_optimizations.Prelude.Maps
use salt_optimizations.Prelude.Sort.{Each}
use salt_optimizations.Types.NodeId.{NodeId}
use salt_optimizations.Store.TrieReader.{TrieUpdates}
use salt_optimizations.Trie.StateRoot.Positions.{Chained, after, changed}
use salt_optimizations.Trie.StateRoot.Internal.{newest_of}
use salt_optimizations.Trie.Update.{nodes_before}

abbrev View : Type 0
View = NodeId → Bytes

pub after-append :
    (view : View) (xs ys : TrieUpdates) → after view (xs ++ ys) ≡ after (after view xs) ys
unfolding after
after-append view [] ys = refl
after-append view ((id, (old, new)) ∷ xs) ys = after-append (changed view id new) xs ys

pub Chained-append :
    (view : View) (xs ys : TrieUpdates)
    → Chained view xs
    → Chained (after view xs) ys
    → Chained view (xs ++ ys)
unfolding after
Chained-append view [] ys h k = k
Chained-append view ((id, (old, new)) ∷ xs) ys h k =
    (h.0, Chained-append (changed view id new) xs ys h.1 k)

pub after_above :
    (b : ℕ) (view : View) (us : TrieUpdates) (j : NodeId)
    → Each (λ (u : NodeId × (Bytes × Bytes)). u.0 < b) us
    → b ≤ j
    → after view us j ≡ view j
unfolding after
after_above b view [] j h le = refl
after_above b view ((id, (old, new)) ∷ us) j h le =
    let other : (id == j) ≡ false = ground arith in
    after_above b (changed view id new) us j h.1 le ∙ rw other refl

pub after_below :
    (b : ℕ) (view : View) (us : TrieUpdates) (j : NodeId)
    → Each (λ (u : NodeId × (Bytes × Bytes)). b ≤ u.0) us
    → j < b
    → after view us j ≡ view j
unfolding after
after_below b view [] j h lt = refl
after_below b view ((id, (old, new)) ∷ us) j h lt =
    let other : (id == j) ≡ false = ground arith in
    after_below b (changed view id new) us j h.1 lt ∙ rw other refl

after-Above :
    (b : ℕ) (view : View) (us : TrieUpdates) (j : NodeId)
    → Maps.Above b us
    → j ≤ b
    → after view us j ≡ view j
unfolding after
after-Above b view [] j h le = refl
after-Above b view ((id, (old, new)) ∷ us) j h le =
    let other : (id == j) ≡ false = ground arith in
    after-Above id (changed view id new) us j h.1 (omega arith) ∙ rw other refl

-- With one update of each node, a node's commitment is its update's.
after-get-Above :
    (b : ℕ) (view : View) (us : TrieUpdates) (j : NodeId)
    → Maps.Above b us
    → after view us j ≡ newest_of (view j) (Maps.get j us)
unfolding after Maps.get
after-get-Above b view [] j h = refl
after-get-Above b view ((id, (old, new)) ∷ us) j h = elim (Bool-cases (id == j)) [
  | inl here ↦ rw here (after-Above id (changed view id new) us j h.1 (ground arith) ∙ rw here refl)
  | inr other ↦ rw other (after-get-Above id (changed view id new) us j h.1 ∙ rw other refl)
]

pub after-get :
    (view : View) (us : TrieUpdates) (j : NodeId)
    → Maps.IsSorted us
    → after view us j ≡ newest_of (view j) (Maps.get j us)
unfolding after Maps.get
after-get view [] j h = refl
after-get view ((id, (old, new)) ∷ us) j h = elim (Bool-cases (id == j)) [
  | inl here ↦ rw here (after-Above id (changed view id new) us j h (ground arith) ∙ rw here refl)
  | inr other ↦ rw other (after-get-Above id (changed view id new) us j h ∙ rw other refl)
]

Chained_above :
    (b : ℕ) (view view' : View) (us : TrieUpdates)
    → ((j : NodeId) → b < j → view' j ≡ view j)
    → Maps.Above b us
    → Each (λ (u : NodeId × (Bytes × Bytes)). u.1.0 ≡ view u.0) us
    → Chained view' us
Chained_above b view view' [] same h olds = tt
Chained_above b view view' ((id, (old, new)) ∷ us) same h olds = (
  olds.0 ∙ sym (same id h.0),
  Chained_above id view (changed view' id new) us
      (λ j lt. let other : (id == j) ≡ false = ground arith in rw other (same j (omega arith))) h.1
      olds.1,
)

-- Updates of different nodes, each from the node's commitment.
pub Chained_of_sorted :
    (view : View) (us : TrieUpdates)
    → Maps.IsSorted us
    → Each (λ (u : NodeId × (Bytes × Bytes)). u.1.0 ≡ view u.0) us
    → Chained view us
Chained_of_sorted view [] h olds = tt
Chained_of_sorted view ((id, (old, new)) ∷ us) h olds = (
  olds.0,
  Chained_above id view (changed view id new) us
      (λ j lt. let other : (id == j) ≡ false = ground arith in rw other refl) h olds.1,
)

-- The commitments before `end` depend on the updates of nodes before `end` only.
pub after-nodes_before :
    (end : ℕ) (view view' : View) (us : TrieUpdates)
    → ((j : NodeId) → j < end → view j ≡ view' j)
    → (j : NodeId) → j < end
    → after view us j ≡ after view' (nodes_before end us) j
unfolding after nodes_before
after-nodes_before end view view' [] same j lt = same j lt
after-nodes_before end view view' ((id, (old, new)) ∷ us) same j lt =
    elim (Bool-cases (ltb id end)) [
      | inl before ↦ rw before (
          after-nodes_before end (changed view id new) (changed view' id new) us
            (λ k small. ap (λ x. if id == k then new else x) (same k small)) j lt)
      | inr later ↦ rw later (
          after-nodes_before end (changed view id new) view' us
            (λ k small. let other : (id == k) ≡ false = ground arith in rw other (same k small)) j
            lt)
    ]

pub Chained-nodes_before :
    (end : ℕ) (view view' : View) (us : TrieUpdates)
    → ((j : NodeId) → j < end → view j ≡ view' j)
    → Chained view us
    → Chained view' (nodes_before end us)
unfolding nodes_before
Chained-nodes_before end view view' [] same h = tt
Chained-nodes_before end view view' ((id, (old, new)) ∷ us) same h =
    elim (Bool-cases (ltb id end)) [
      | inl before ↦ rw before (
        h.0 ∙ same id (ground arith),
        Chained-nodes_before end (changed view id new) (changed view' id new) us
            (λ k small. ap (λ x. if id == k then new else x) (same k small)) h.1,
      )
      | inr later ↦ rw later (
          Chained-nodes_before end (changed view id new) view' us
            (λ k small. let other : (id == k) ≡ false = ground arith in rw other (same k small))
            h.1)
    ]

pub nodes_before-Each :
    (a end : ℕ) (us : TrieUpdates)
    → Each (λ (u : NodeId × (Bytes × Bytes)). a ≤ u.0) us
    → Each (λ (u : NodeId × (Bytes × Bytes)). (a ≤ u.0) × (u.0 < end)) (nodes_before end us)
unfolding nodes_before
nodes_before-Each a end [] h = tt
nodes_before-Each a end ((id, u) ∷ us) h = elim (Bool-cases (ltb id end)) [
  | inl before ↦ rw before ((h.0, ground arith), nodes_before-Each a end us h.1)
  | inr later ↦ rw later (nodes_before-Each a end us h.1)
]
