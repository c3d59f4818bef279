-- ===== src/State/Updates/Chain.antt =====
-- What the updates of salt/src/state/updates.rs mean: a difference between two views.
use salt_optimizations.Prelude.{
  ◌≡◌, refl, ◌≢◌, inl, inr, false, Option, none, some, arith, Bool-cases, ==_iff, ◌==◌,
  if◌then◌else◌,
}
use salt_optimizations.Prelude.Maps
use salt_optimizations.Prelude.Result.{Res, ok}
use salt_optimizations.Types.SaltKey.{SaltKey}
use salt_optimizations.Types.SaltValue.{SaltValue, value_eq, value_eq_iff}
use salt_optimizations.State.Updates.{Change, StateUpdates, chain_entry, try_add}

-- A view of the state: what a read of each key returns.
abbrev pub View : Type 0 → Type 0
View E = SaltKey → Res E (Option SaltValue)

abbrev pub put : {E : Type 0} → View E → SaltKey → Option SaltValue → View E
put g k v q = if k == q then ok v else g q

-- One key: the entry is the change from `before` to `now`, and there is none if nothing changed.
abbrev pub Tracked :
    {E : Type 0} → Res E (Option SaltValue) → Res E (Option SaltValue) → Option Change → Type 0
Tracked before now none = before ≡ now
Tracked before now (some c) = (before ≡ ok c.0) × (now ≡ ok c.1) × (c.0 ≢ c.1)

-- The updates are the difference between two views, key by key.
pub record Tracks {E : Type 0} (before now : View E) (updates : StateUpdates) : Type 0 where
  pub at : (k : SaltKey) → Tracked (before k) (now k) (Maps.get k updates)

-- Views that agree at every key have the same differences.
pub Tracks-congr :
    {E : Type 0} (f g after : View E) (u : StateUpdates)
    → ((k : SaltKey) → f k ≡ g k)
    → Tracks g after u
    → Tracks f after u
Tracks-congr f g after u e t = record { at = λ k. rw (e k) (t.at k) }

-- The updates after a transition that chains, by the entry of its key.
pub chained :
    Option Change → StateUpdates → SaltKey → Option SaltValue → Option SaltValue → StateUpdates
chained (some c) u k old new =
    if value_eq c.0 new then Maps.remove k u else Maps.insert k (c.0, new) u
chained none u k old new = if value_eq old new then u else Maps.insert k (old, new) u

module _ (u : StateUpdates) (k : SaltKey) (old new : Option SaltValue) where
  chained-get :
      (o : Option Change) (q : SaltKey)
      → (k == q) ≡ false
      → Maps.get q (chained o u k old new) ≡ Maps.get q u
  unfolding chained
  chained-get none q h = ground (arith, Maps.get-insert k q (old, new) u)
  chained-get (some c) q h = ground (arith, Maps.get-insert k q (c.0, new) u, Maps.get-remove k q u)

  chained-IsSorted : (o : Option Change) → Maps.IsSorted u → Maps.IsSorted (chained o u k old new)
  unfolding chained
  chained-IsSorted none s = ground (arith, Maps.insert-IsSorted k (old, new) u s)
  chained-IsSorted (some c) s =
      ground (arith, Maps.insert-IsSorted k (c.0, new) u s, Maps.remove-IsSorted k u s)

  module _ {E : Type 0} (before now : Res E (Option SaltValue)) (current : now ≡ ok old) where
    chained-Tracked :
        (o : Option Change)
        → Maps.get k u ≡ o
        → Tracked before now o
        → Tracked before (ok new) (Maps.get k (chained o u k old new))
    unfolding chained
    chained-Tracked none e t = elim (Bool-cases (value_eq old new)) [
      | inl same ↦ rw (same, e) (ground (arith, value_eq_iff old new))
      | inr differ ↦
          rw (differ, Maps.get-insert k k (old, new) u, (==_iff k k).1 refl)
            (ground (arith, value_eq_iff old new))
    ]
    chained-Tracked (some c) e t = elim (Bool-cases (value_eq c.0 new)) [
      | inl same ↦
          rw (same, Maps.get-remove k k u, (==_iff k k).1 refl)
            (ground (arith, value_eq_iff c.0 new))
      | inr differ ↦
          rw (differ, Maps.get-insert k k (c.0, new) u, (==_iff k k).1 refl)
            (ground (arith, value_eq_iff c.0 new))
    ]

    chained-chain_entry :
        (o : Option Change)
        → Tracked before now o
        → chain_entry o u k old new ≡ ok (chained o u k old new)
    unfolding chained chain_entry
    chained-chain_entry none t = refl
    chained-chain_entry (some c) t = ground (arith, value_eq_iff old c.1)

-- A transition that starts from what a read returns now is recorded, and the updates are then the
-- difference to the view that holds the new value. The order of the keys is kept.
pub try_add-Tracks :
    {E : Type 0} (before now : View E) (u : StateUpdates) (k : SaltKey) (old new : Option SaltValue)
    → Tracks before now u
    → now k ≡ ok old
    → (u' : StateUpdates) × (try_add u k old new ≡ ok u')
      × Tracks before (put now k new) u'
      × (Maps.IsSorted u → Maps.IsSorted u')
unfolding try_add
try_add-Tracks before now u k old new t current =
    let o : Option Change = Maps.get k u in
    (
      chained o u k old new,
      chained-chain_entry u k old new (before k) (now k) current o (t.at k),
      record {
        at = λ q. elim (Bool-cases (k == q)) [
          | inl same ↦
              let e : k ≡ q = (==_iff k q).0 same in
              rw (same, ← e)
                (chained-Tracked u k old new (before k) (now k) current o refl (t.at k))
          | inr other ↦ rw (other, chained-get u k old new o q other) (t.at q)
        ];
      },
      chained-IsSorted u k old new o,
    )
