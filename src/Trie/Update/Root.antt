-- ===== src/Trie/Update/Root.antt =====
-- The root's update is the last one of the updates of all levels.
use salt_optimizations.Prelude.{
  ℕ, zero, suc, ◌≤◌, ◌<◌, ◌≡◌, refl, ◌∙◌, ◌⊎◌, inl, inr, true, false, none, some, [], ◌∷◌, ◌++◌,
  arith, ◌==◌,
}
use salt_optimizations.Prelude.Bytes.{Bytes}
use salt_optimizations.Prelude.Maps
use salt_optimizations.Prelude.Sort.{Each}
use salt_optimizations.Types.NodeId.{NodeId}
use salt_optimizations.Store.TrieReader.{TrieUpdates}
use salt_optimizations.Trie.StateRoot.Positions.{after, changed}
use salt_optimizations.Trie.Update.{last_root}
use salt_optimizations.Trie.Update.MainLevels.{first, OnLevel}

-- An update of the root stands at the end.
abbrev pub RootLast : TrieUpdates → Type 0
RootLast [] = Unit {0}
RootLast ((id, u) ∷ us) = ((1 ≤ id) × RootLast us) ⊎ ((id ≡ 0) × (us ≡ []))

pub RootLast-append :
    (xs ys : TrieUpdates)
    → Each (λ (u : NodeId × (Bytes × Bytes)). 1 ≤ u.0) xs
    → RootLast ys
    → RootLast (xs ++ ys)
RootLast-append [] ys h r = r
RootLast-append ((id, u) ∷ xs) ys h r = inl (h.0, RootLast-append xs ys h.1 r)

none_left : (us : TrieUpdates) → Each (λ (u : NodeId × (Bytes × Bytes)). u.0 < 0) us → us ≡ []
none_left [] h = refl
none_left (u ∷ us) h = absurd (omega arith)

above_root :
    (k : ℕ) (us : TrieUpdates)
    → Each (λ (u : NodeId × (Bytes × Bytes)). OnLevel (suc k) u.0) us
    → Each (λ (u : NodeId × (Bytes × Bytes)). 1 ≤ u.0) us
above_root k [] h = tt
above_root k (u ∷ us) h = (omega arith, above_root k us h.1)

-- The updates of a level, and then those of the levels above it.
pub RootLast-level :
    (k : ℕ) (us later : TrieUpdates)
    → Each (λ (u : NodeId × (Bytes × Bytes)). OnLevel k u.0) us
    → Maps.IsSorted us
    → Each (λ (u : NodeId × (Bytes × Bytes)). u.0 < first k) later
    → RootLast later
    → RootLast (us ++ later)
RootLast-level (suc k) us later h s below r = RootLast-append us later (above_root k us h) r
RootLast-level zero [] later h s below r = r
RootLast-level zero ((id, u) ∷ []) later h s below r = inr (omega arith, none_left later below)
RootLast-level zero ((id, u) ∷ (id', u') ∷ us) later h s below r = absurd (omega arith)

-- Either the root has no update, or the last update gives its commitment.
pub last_root_lem :
    (view : NodeId → Bytes) (us : TrieUpdates)
    → RootLast us
    → ((last_root us ≡ none) × (after view us 0 ≡ view 0)) ⊎ (last_root us ≡ some (after view us 0))
unfolding last_root after
last_root_lem view [] r = inl (refl, refl)
last_root_lem view ((id, (old, new)) ∷ []) (inl r) =
    let other : (id == 0) ≡ false = ground arith in rw other (inl (refl, refl))
last_root_lem view ((id, (old, new)) ∷ []) (inr r) =
    let here : (id == 0) ≡ true = ground arith in rw here (inr refl)
last_root_lem view ((id, (old, new)) ∷ v ∷ us) (inl r) =
    let other : (id == 0) ≡ false = ground arith in
    elim (last_root_lem (changed view id new) (v ∷ us) r.1) [
      | inl absent ↦ inl (absent.0, absent.1 ∙ rw other refl)
      | inr present ↦ inr present
    ]
last_root_lem view ((id, (old, new)) ∷ v ∷ us) (inr r) = absurd (cc r.1)
