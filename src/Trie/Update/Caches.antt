-- ===== src/Trie/Update/Caches.antt =====
-- `apply_updates_to_caches` of salt/src/trie/trie.rs: what a session reads, and what it keeps pending.
use mathlib.Core.Path.{subst}
use mathlib.Core.Option.{some-injective}
use salt_optimizations.Prelude.{
  ℕ, ◌≤◌, ◌<◌, ◌≡◌, refl, sym, ap, ◌∙◌, Option, none, some, [], ◌∷◌, inl, inr, Bool-cases,
  Option-cases, ==_iff, ltb, ◌==◌,
}
use salt_optimizations.Prelude.Bytes.{Bytes}
use salt_optimizations.Prelude.Maps
use salt_optimizations.Prelude.Maps.{Map}
use salt_optimizations.Prelude.Sort.{Each}
use salt_optimizations.Prelude.Result.{Res, ok}
use salt_optimizations.Types.SaltKey.{BucketId}
use salt_optimizations.Types.NodeId.{NodeId}
use salt_optimizations.Store.TrieReader.{TrieReader, TrieUpdates}
use salt_optimizations.Trie.Committer.{Committer}
use salt_optimizations.Trie.StateRoot.{StateRoot, commitment}
use salt_optimizations.Trie.StateRoot.Positions.{Chained, after, changed}
use salt_optimizations.Trie.StateRoot.Internal.{newest_of}
use salt_optimizations.Trie.Scan.{insert_cache}
use salt_optimizations.Trie.Update.{apply_updates_to_caches, merged}
use salt_optimizations.Trie.Update.MainLevels.{first}
use salt_optimizations.Trie.Update.Finalize.{insert_cache-commitment}

abbrev Update : Type 0
Update = NodeId × (Bytes × Bytes)

insert-Each :
    (P : Update → Type 0) (k : ℕ) (v : Bytes × Bytes) (m : Map (Bytes × Bytes))
    → P (k, v)
    → Each P m
    → Each P (Maps.insert k v m)
unfolding Maps.insert
insert-Each P k v [] p h = (p, tt)
insert-Each P k v ((j, w) ∷ m) p h = elim (Bool-cases (ltb k j)) [
  | inl before ↦ rw before (p, h)
  | inr later ↦ elim (Bool-cases (j == k)) [
    | inl here ↦ rw (later, here) (p, h.1)
    | inr other ↦ rw (later, other) (h.0, insert-Each P k v m p h.1)
  ]
]

get-Each :
    (P : Update → Type 0) (k : ℕ) (v : Bytes × Bytes) (m : Map (Bytes × Bytes))
    → Each P m
    → Maps.get k m ≡ some v
    → P (k, v)
unfolding Maps.get
get-Each P k v [] h e = absurd (cc e)
get-Each P k v ((j, w) ∷ m) h e = elim (Bool-cases (j == k)) [
  | inl here ↦
      let same : w ≡ v = some-injective w v (rw here at e) in
      subst (λ i. P (i, v)) ((==_iff j k).0 here) (subst (λ x. P (j, x)) same h.0)
  | inr other ↦ get-Each P k v m h.1 (rw other at e)
]

module _ {E : Type 0} (c : Committer) (trie : TrieReader E) (threads : ℕ)
    (levels : BucketId → Res E ℕ) (k end : ℕ) (old : NodeId → Bytes) where
  -- The pending updates are of nodes from level `k` on, in order and from the old commitments; they
  -- lead to the commitments of `now`, which are the ones that are read for nodes before `end`.
  pub record IsFollowed (s : StateRoot) (now : NodeId → Bytes) : Type 0 where
    pub sorted : Maps.IsSorted s.updates
    pub olds : Each (λ (u : Update). (first k ≤ u.0) × (u.1.0 ≡ old u.0)) s.updates
    pub news : (p : NodeId) → now p ≡ newest_of (old p) (Maps.get p s.updates)
    pub reads : (p : NodeId) → p < end → commitment c trie threads s p ≡ ok (now p)

  first_old :
      (s : StateRoot) (now : NodeId → Bytes) (id : NodeId) (new : Bytes)
      → IsFollowed s now
      → (merged (Maps.get id s.updates) (now id) new).0 ≡ old id
  unfolding merged
  first_old s now id new f = elim (Option-cases (Maps.get id s.updates)) [
    | inl absent ↦ rw absent (f.news id ∙ ap (newest_of (old id)) absent)
    | inr (change, there) ↦
        rw there
          (get-Each (λ (u : Update). (first k ≤ u.0) × (u.1.0 ≡ old u.0)) id change s.updates f.olds
            there).1
  ]

  last_new :
      (before : Bytes) (found : Option (Bytes × Bytes)) (now new : Bytes)
      → newest_of before (some (merged found now new)) ≡ new
  unfolding merged
  last_new before none now new = refl
  last_new before (some change) now new = refl

  apply_one :
      (s : StateRoot) (now : NodeId → Bytes) (id : NodeId) (new : Bytes)
      → first k ≤ id
      → IsFollowed s now
      → IsFollowed
          (record (insert_cache id new s) {
            updates = Maps.insert id (merged (Maps.get id s.updates) (now id) new) s.updates;
          })
          (changed now id new)
  unfolding insert_cache commitment
  apply_one s now id new deep f =
      let change = merged (Maps.get id s.updates) (now id) new in
      record {
        sorted = Maps.insert-IsSorted id change s.updates f.sorted;
        olds =
            insert-Each (λ (u : Update). (first k ≤ u.0) × (u.1.0 ≡ old u.0)) id change s.updates
              (deep, first_old s now id new f) f.olds;
        news = λ p. elim (Bool-cases (id == p)) [
          | inl here ↦
              rw (Maps.get-insert id p change s.updates, here)
                (sym (last_new (old p) (Maps.get id s.updates) (now id) new))
          | inr other ↦ rw (Maps.get-insert id p change s.updates, other) (f.news p)
        ];
        reads = λ p lt. insert_cache-commitment c trie threads levels id new s now p (f.reads p lt);
      }

  pub apply_updates_to_caches-IsFollowed :
      (us : TrieUpdates) (s : StateRoot) (now : NodeId → Bytes)
      → Each (λ (u : Update). first k ≤ u.0) us
      → Chained now us
      → IsFollowed s now
      → IsFollowed (apply_updates_to_caches us s) (after now us)
  unfolding apply_updates_to_caches after
  apply_updates_to_caches-IsFollowed [] s now deep chained f = f
  apply_updates_to_caches-IsFollowed ((id, (start, new)) ∷ us) s now deep chained f =
      let same : start ≡ now id = chained.0 in
      rw same (
        apply_updates_to_caches-IsFollowed us
          (record (insert_cache id new s) {
            updates = Maps.insert id (merged (Maps.get id s.updates) (now id) new) s.updates;
          })
          (changed now id new) deep.1 chained.1 (apply_one s now id new deep.0 f))

-- What a batch keeps of a state: its settings and its known capacities.
pub record IsKept (s s' : StateRoot) : Type 0 where
  pub deferred_lem : s'.deferred_levels ≡ s.deferred_levels
  pub batch_lem : s'.min_par_batch_size ≡ s.min_par_batch_size
  pub capacity_lem : (b : BucketId) → s'.bucket_capacity_cache b ≡ s.bucket_capacity_cache b

pub IsKept-refl : (s : StateRoot) → IsKept s s
IsKept-refl s = record { deferred_lem = refl; batch_lem = refl; capacity_lem = λ b. refl }

pub IsKept-trans : (s t u : StateRoot) → IsKept s t → IsKept t u → IsKept s u
IsKept-trans s t u h h' = record {
  deferred_lem = h'.deferred_lem ∙ h.deferred_lem;
  batch_lem = h'.batch_lem ∙ h.batch_lem;
  capacity_lem = λ b. h'.capacity_lem b ∙ h.capacity_lem b;
}

pub apply_updates_to_caches-IsKept :
    (us : TrieUpdates) (s s' : StateRoot) → IsKept s s' → IsKept s (apply_updates_to_caches us s')
unfolding apply_updates_to_caches insert_cache
apply_updates_to_caches-IsKept [] s s' h = h
apply_updates_to_caches-IsKept ((id, (old, new)) ∷ us) s s' h =
    apply_updates_to_caches-IsKept us s
      (record (insert_cache id new s') {
        updates = Maps.insert id (merged (Maps.get id s'.updates) old new) s'.updates;
      })
      (record {
        deferred_lem = h.deferred_lem;
        batch_lem = h.batch_lem;
        capacity_lem = h.capacity_lem;
      })
