-- ===== src/State/Updates/Merge.antt =====
-- Merging and inverting the updates of salt/src/state/updates.rs.
use salt_optimizations.Prelude.{
  ℕ, ◌≡◌, refl, sym, ◌∙◌, inl, inr, Option, none, some, [], ◌∷◌, arith, Bool-cases, ==_iff, ◌==◌,
}
use native.Mathlib.Nat.{le_refl}
use salt_optimizations.Prelude.Maps
use salt_optimizations.Prelude.Result.{Res, ok, ok-injective}
use salt_optimizations.Types.SaltKey.{SaltKey}
use salt_optimizations.Types.SaltValue.{SaltValue}
use salt_optimizations.State.Updates.{Change, StateUpdates, try_merge, inverse}
use salt_optimizations.State.Updates.Chain.{View, put, Tracked, Tracks, try_add-Tracks}

module _ {E : Type 0} where
  -- The head of sorted updates is gone from the view that it has been applied to.
  pub tail-Tracks :
      (now after : View E) (k : SaltKey) (c : Change) (rest : StateUpdates)
      → Maps.Above k rest
      → Tracks now after ((k, c) ∷ rest)
      → Tracks (put now k c.1) after rest
  unfolding Maps.get
  tail-Tracks now after k c rest above t = record {
    at = λ q. elim (Bool-cases (k == q)) [
      | inl same ↦
          let e : k ≡ q = (==_iff k q).0 same in
          let head : Tracked (now k) (after k) (some c) = rw (Maps.get-head k c rest) at (t.at k) in
          rw (same, ← e, Maps.get-Above k k rest above (le_refl k)) (sym head.1)
      | inr other ↦ rw (other, ← Maps.get-tail k q c rest other) (t.at q)
    ];
  }

  -- Two batches that chain, the second with rising keys, merge without an error, and the merged
  -- updates are the difference from before the first to after the second. If the keys of the first
  -- rise, those of the merged updates do.
  pub try_merge-Tracks :
      (before now after : View E) (u v : StateUpdates)
      → Tracks before now u
      → Tracks now after v
      → Maps.IsSorted v
      → (w : StateUpdates) × (try_merge u v ≡ (w, ok tt))
        × Tracks before after w
        × (Maps.IsSorted u → Maps.IsSorted w)
  unfolding try_merge
  try_merge-Tracks before now after u [] t t' s = (
    u,
    refl,
    record { at = λ k. let e : now k ≡ after k = unfold Maps.get in t'.at k in rw (← e) (t.at k) },
    λ h. h,
  )
  try_merge-Tracks before now after u ((k, c) ∷ v) t t' s =
      let head : Tracked (now k) (after k) (some c) = rw (Maps.get-head k c v) at (t'.at k) in
      let (u', added, tracks, sorted) = try_add-Tracks before now u k c.0 c.1 t head.0 in
      let (w, merged, all, kept) =
        try_merge-Tracks before (put now k c.1) after u' v tracks (tail-Tracks now after k c v s t')
          (Maps.Above-IsSorted k v s) in
      (w, rw (added, try_merge) merged, all, λ h. kept (sorted h))

swapped : Option Change → Option Change
swapped none = none
swapped (some c) = some (c.1, c.0)

get-inverse : (u : StateUpdates) (q : SaltKey) → Maps.get q (inverse u) ≡ swapped (Maps.get q u)
unfolding inverse Maps.get swapped
get-inverse [] q = refl
get-inverse ((k, c) ∷ u) q = ground (arith, get-inverse u q)

inverse-Above : (b : ℕ) (u : StateUpdates) → Maps.Above b u → Maps.Above b (inverse u)
unfolding inverse
inverse-Above b [] s = tt
inverse-Above b ((k, c) ∷ u) s = (s.0, inverse-Above k u s.1)

pub inverse-IsSorted : (u : StateUpdates) → Maps.IsSorted u → Maps.IsSorted (inverse u)
unfolding inverse
inverse-IsSorted [] s = tt
inverse-IsSorted ((k, c) ∷ u) s = inverse-Above k u s

swapped-Tracked :
    {E : Type 0} (before now : Res E (Option SaltValue)) (o : Option Change)
    → Tracked before now o
    → Tracked now before (swapped o)
unfolding swapped
swapped-Tracked before now none t = sym t
swapped-Tracked before now (some c) t = (t.1, t.0, λ e. t.2 (sym e))

-- The inverse of the difference between two views is the difference the other way.
pub inverse-Tracks :
    {E : Type 0} (before now : View E) (u : StateUpdates)
    → Tracks before now u
    → Tracks now before (inverse u)
inverse-Tracks before now u t = record {
  at = λ q. rw (get-inverse u q) (swapped-Tracked (before q) (now q) (Maps.get q u) (t.at q));
}

unchanged :
    {E : Type 0} (r : Res E (Option SaltValue)) (o : Option Change) → Tracked r r o → o ≡ none
unchanged r none t = refl
unchanged r (some c) t = absurd (t.2 (ok-injective (sym t.0 ∙ t.1)))

-- Merging a batch with rising keys, the difference between two views, with its inverse succeeds, and
-- leaves no update at all.
pub try_merge-inverse :
    {E : Type 0} (before now : View E) (u : StateUpdates)
    → Tracks before now u
    → Maps.IsSorted u
    → try_merge u (inverse u) ≡ ([], ok tt)
try_merge-inverse before now u t s =
    let (w, merged, tracks, _) =
      try_merge-Tracks before now before u (inverse u) t (inverse-Tracks before now u t)
        (inverse-IsSorted u s) in
    let none_left : w ≡ [] =
      Maps.empty_of_get w (λ q. unchanged (before q) (Maps.get q w) (tracks.at q)) in
    rw (← none_left) merged
