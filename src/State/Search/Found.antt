-- ===== src/State/Search/Found.antt =====
-- What `shi_search` of salt/src/state/state.rs returns in a store.
use Prim.Native.Nat.{Ordering}
use native.Mathlib.Decide.{dec_lt}
use mathlib.Core.Path.{subst}
use salt_optimizations.Prelude.{
  ℕ, zero, suc, ◌+◌, ◌≤◌, ◌<◌, ◌≡◌, refl, sym, ◌∙◌, ◌↔◌, ◌⊎◌, inl, inr, Option, none, some, arith,
  Option-cases,
}
use salt_optimizations.Prelude.Bytes.{Bytes, cmp, cmp-eq, cmp_refl}
use salt_optimizations.Prelude.Result.{Res, ok, err, panic, out_of_fuel, Exec, lift, ◌>>=◌}
use salt_optimizations.Types.SaltKey.{SaltKey, SlotId, salt_key}
use salt_optimizations.Types.SaltValue
use salt_optimizations.Types.SaltValue.{SaltValue}
use salt_optimizations.State.Probe.{probe, hash_with_nonce}
use salt_optimizations.State.Search.{shi_search, search_loop, search_slot, search_order}

-- The reads of a store, which has no state of its own.
abbrev pub reads :
    {E : Type 0}
    → (SaltKey → Res E (Option SaltValue))
    → SaltKey
    → Exec (Unit {0}) E (Option SaltValue)
reads value key = lift (value key)

-- What a search for `k` from step `step` has found: an entry with that key, at a slot of the probe
-- sequence.
pub record IsHit {E : Type 0} (value : SaltKey → Res E (Option SaltValue)) (b h c : ℕ) (k : Bytes)
    (slot : SlotId) (v : SaltValue) : Type 0 where
  pub step : ℕ
  pub within : step < c
  pub probed : slot ≡ probe h step c
  pub stored : value (salt_key b slot) ≡ ok (some v)
  pub matches : SaltValue.key v ≡ some k
  pub skipped :
      (i : ℕ)
      → i < step
      → (w : SaltValue) × (j : Bytes) × (value (salt_key b (probe h i c)) ≡ ok (some w))
        × (SaltValue.key w ≡ some j)
        × (cmp j k ≡ Ordering.gt)

module _ {E : Type 0} (value : SaltKey → Res E (Option SaltValue)) (b h c : ℕ) (k : Bytes) where
  abbrev run : ℕ → ℕ → Res E (Option (SlotId × SaltValue))
  run left step = (search_loop b c k (reads value) h left step tt).0

  run_zero : (s : ℕ) → run 0 s ≡ ok none
  unfolding search_loop
  run_zero s = refl

  run_gt :
      (left s : ℕ) (w : SaltValue) (j : Bytes)
      → value (salt_key b (probe h s c)) ≡ ok (some w)
      → SaltValue.key w ≡ some j
      → cmp j k ≡ Ordering.gt
      → run (suc left) s ≡ run left (suc s)
  unfolding search_loop ◌>>=◌
  run_gt left s w j e f g = rw (e, search_slot, f, search_order, g)

  run_eq :
      (left s : ℕ) (w : SaltValue) (j : Bytes)
      → value (salt_key b (probe h s c)) ≡ ok (some w)
      → SaltValue.key w ≡ some j
      → cmp j k ≡ Ordering.eq
      → run (suc left) s ≡ ok (some (probe h s c, w))
  unfolding search_loop ◌>>=◌
  run_eq left s w j e f g = rw (e, search_slot, f, search_order, g)

  -- An entry with the key, after larger keys only, is what the search returns.
  search_loop-IsHit :
      (left s : ℕ) (slot : SlotId) (v : SaltValue) (hit : IsHit value b h c k slot v)
      → left + s ≡ c
      → s ≤ hit.step
      → run left s ≡ ok (some (slot, v))
  search_loop-IsHit zero s slot v hit e le = absurd (omega (arith, hit.within))
  search_loop-IsHit (suc left) s slot v hit e le = elim (dec_lt s hit.step) [
    | yes before ↦
        let (w, j, stored, named, larger) = hit.skipped s before in
        rw (run_gt left s w j stored named larger)
          (search_loop-IsHit left (suc s) slot v hit (omega arith) before)
    | no reached ↦
        let here : hit.step ≡ s = omega arith in
        let at : slot ≡ probe h s c = rw here at hit.probed in
        let stored : value (salt_key b (probe h s c)) ≡ ok (some v) = rw at at hit.stored in
        rw at (run_eq left s v k stored hit.matches (cmp_refl k))
  ]

  abbrev Larger : ℕ → Type 0
  Larger i =
      (w : SaltValue) × (j : Bytes) × (value (salt_key b (probe h i c)) ≡ ok (some w))
      × (SaltValue.key w ≡ some j)
      × (cmp j k ≡ Ordering.gt)

  -- One read: what follows from a run that finds an entry.
  record Outcome (left s : ℕ) (slot : SlotId) (v : SaltValue) : Type 0 where
    entry : SaltValue
    name : Bytes
    stored : value (salt_key b (probe h s c)) ≡ ok (some entry)
    named : SaltValue.key entry ≡ some name
    next :
        ((cmp name k ≡ Ordering.eq) × (slot ≡ probe h s c) × (v ≡ entry))
        ⊎ ((cmp name k ≡ Ordering.gt) × (run left (suc s) ≡ ok (some (slot, v))))

  run_lt :
      (left s : ℕ) (w : SaltValue) (j : Bytes)
      → value (salt_key b (probe h s c)) ≡ ok (some w)
      → SaltValue.key w ≡ some j
      → cmp j k ≡ Ordering.lt
      → run (suc left) s ≡ ok none
  unfolding search_loop ◌>>=◌
  run_lt left s w j e f g = rw (e, search_slot, f, search_order, g)

  module _ (left s : ℕ) (slot : SlotId) (v : SaltValue)
      (found : run (suc left) s ≡ ok (some (slot, v))) where
    Outcome-at :
        (w : SaltValue) (j : Bytes)
        → value (salt_key b (probe h s c)) ≡ ok (some w)
        → SaltValue.key w ≡ some j
        → (o : Ordering) → cmp j k ≡ o
        → Outcome left s slot v
    Outcome-at w j e f Ordering.lt g = cc (run_lt left s w j e f g)
    Outcome-at w j e f Ordering.eq g =
        let same : ◌≡◌ {A = Res E (Option (SlotId × SaltValue))} (ok (some (probe h s c, w)))
            (ok (some (slot, v))) =
          sym (run_eq left s w j e f g) ∙ found in
        record { entry = w; name = j; stored = e; named = f; next = inl (g, cc, cc) }
    Outcome-at w j e f Ordering.gt g = record {
      entry = w;
      name = j;
      stored = e;
      named = f;
      next = inr (g, sym (run_gt left s w j e f g) ∙ found);
    }

    outcome :
        (r : Res E (Option SaltValue))
        → value (salt_key b (probe h s c)) ≡ r
        → Outcome left s slot v
    unfolding search_loop ◌>>=◌
    outcome (err x) e = cc (rw e at found)
    outcome panic e = cc (rw e at found)
    outcome out_of_fuel e = cc (rw e at found)
    outcome (ok none) e = cc (rw (e, search_slot) at found)
    outcome (ok (some w)) e = elim (Option-cases (SaltValue.key w)) [
      | inl bad ↦ cc (rw (e, search_slot, bad) at found)
      | inr (j, named) ↦ Outcome-at w j e named (cmp j k) refl
    ]

  -- An entry that a run finds, after larger keys only, is a hit.
  IsHit-search_loop :
      (left s : ℕ) (slot : SlotId) (v : SaltValue)
      → left + s ≡ c
      → ((i : ℕ) → i < s → Larger i)
      → run left s ≡ ok (some (slot, v))
      → IsHit value b h c k slot v
  IsHit-search_loop zero s slot v e before found = cc (sym (run_zero s) ∙ found)
  IsHit-search_loop (suc left) s slot v e before found =
      let o = outcome left s slot v found (value (salt_key b (probe h s c))) refl in
      elim o.next [
        | inl (same, at, is) ↦ record {
          step = s;
          within = omega arith;
          probed = at;
          stored = rw (at, is) o.stored;
          matches = rw (is, ← cmp-eq o.name k same) o.named;
          skipped = before;
        }
        | inr (larger, rest) ↦
            IsHit-search_loop left (suc s) slot v (omega arith)
              (λ i lt. elim (dec_lt i s) [
                | yes p ↦ before i p
                | no p ↦
                    let here : s ≡ i = omega arith in
                    subst (λ (x : ℕ). Larger x) here (o.entry, o.name, o.stored, o.named, larger)
              ])
              rest
      ]

-- A search in a store returns an entry exactly if the entry has the key, stands at a step of the
-- probe sequence below the capacity, and every slot before that step holds a larger key.
pub shi_search_exact :
    {E : Type 0} (value : SaltKey → Res E (Option SaltValue)) (hash : Bytes → ℕ) (b nonce c : ℕ)
    (k : Bytes) (slot : SlotId) (v : SaltValue)
    → ((shi_search hash b nonce c k (reads value) tt).0 ≡ ok (some (slot, v)))
      ↔ IsHit value b (hash_with_nonce hash k nonce) c k slot v
unfolding shi_search
shi_search_exact value hash b nonce c k slot v =
    let h = hash_with_nonce hash k nonce in
    (
      IsHit-search_loop value b h c k c 0 slot v (omega arith) (λ i lt. absurd (omega arith)),
      λ hit. search_loop-IsHit value b h c k c 0 slot v hit (omega arith) (omega arith),
    )
