-- ===== src/State/Tracking/Searches.antt =====
-- `shi_find` and `shi_next` of salt/src/state/state.rs and what the session reads.
use Prim.Native.Nat.{Ordering}
use salt_optimizations.Prelude.{
  ℕ, zero, suc, ◌≡◌, Bool, true, false, Option, none, some, if◌then◌else◌,
}
use salt_optimizations.Prelude.Bytes.{Bytes, cmp}
use salt_optimizations.Prelude.Result.{
  ok, Exec, lift, pure, or_panic, Triple, Triple-bind, Triple-lift,
}
use salt_optimizations.Types.SaltKey.{BucketId, SlotId, salt_key}
use salt_optimizations.Types.SaltValue
use salt_optimizations.Types.SaltValue.{SaltValue}
use salt_optimizations.State.Updates.Chain.{View}
use salt_optimizations.State.Probe.{probe}
use salt_optimizations.State.Search.{search_loop, search_slot, search_order}
use salt_optimizations.State.Ephemeral.{Ephemeral, value}
use salt_optimizations.State.Shi.{next_slot, next_loop}
use salt_optimizations.State.Tracking.{Sees, value-Sees}
use salt_optimizations.Store.Traits.{StateReader}

module _ {E : Type 0} (hash : Bytes → ℕ) (store : StateReader E) (g : View E) where
  -- An entry that a search gives is what `g` has at its slot.
  abbrev pub Entry : BucketId → Option (SlotId × SaltValue) → Type 0
  Entry b none = Unit {0}
  Entry b (some (slot, v)) = g (salt_key b slot) ≡ ok (some v)

  -- The session still sees `g`, and the entry is there.
  abbrev pub Found : BucketId → Option (SlotId × SaltValue) → Ephemeral → Type 0
  Found b o s = Sees store g s × Entry b o

  module _ (b : BucketId) (rest : Exec Ephemeral E (Option (SlotId × SaltValue)))
      (rest-Found : Triple (Sees store g) rest (Found b) (Sees store g)) (slot : SlotId) where
    search_order-Found :
        (o : Ordering) (v : SaltValue)
        → g (salt_key b slot) ≡ ok (some v)
        → Triple (Sees store g) (search_order o slot v rest) (Found b) (Sees store g)
    unfolding search_order
    search_order-Found Ordering.lt v e = record { run = λ h. (h, tt) }
    search_order-Found Ordering.eq v e = record { run = λ h. (h, e) }
    search_order-Found Ordering.gt v e = rest-Found

    search_slot-Found :
        (k : Bytes) (o : Option SaltValue)
        → g (salt_key b slot) ≡ ok o
        → Triple (Sees store g) (search_slot k slot rest o) (Found b) (Sees store g)
    unfolding search_slot
    search_slot-Found k none e = record { run = λ h. (h, tt) }
    search_slot-Found k (some v) e =
        Triple-bind (lift (or_panic (SaltValue.key v))) _
          (Triple-lift (λ (j : Bytes). Sees store g) (Sees store g) _ (λ s j r h. h) (λ s h. h))
          λ j. search_order-Found (cmp j k) v e

    taken-Found :
        (v : SaltValue)
        → g (salt_key b slot) ≡ ok (some v)
        → (c : Bool)
        → Triple (Sees store g) (if c then pure (some (slot, v)) else rest) (Found b) (Sees store g)
    taken-Found v e true = record { run = λ h. (h, e) }
    taken-Found v e false = rest-Found

    next_slot-Found :
        (nonce capacity : ℕ) (del : SlotId) (o : Option SaltValue)
        → g (salt_key b slot) ≡ ok o
        → Triple
            (Sees store g)
            (next_slot hash store nonce capacity del slot rest o)
            (Found b)
            (Sees store g)
    unfolding next_slot
    next_slot-Found nonce capacity del none e = record { run = λ h. (h, tt) }
    next_slot-Found nonce capacity del (some v) e =
        Triple-bind (lift (or_panic (SaltValue.key v))) _
          (Triple-lift (λ (j : Bytes). Sees store g) (Sees store g) _ (λ s j r h. h) (λ s h. h))
          λ j. taken-Found v e _

  pub search_loop-Found :
      (b : BucketId) (capacity : ℕ) (k : Bytes) (h left step : ℕ)
      → Triple
          (Sees store g)
          (search_loop b capacity k (value hash store) h left step)
          (Found b)
          (Sees store g)
  unfolding search_loop
  search_loop-Found b capacity k h zero step = record { run = λ h. (h, tt) }
  search_loop-Found b capacity k h (suc left) step =
      let slot = probe h step capacity in
      let key = salt_key b slot in
      Triple-bind (value hash store key) _ (value-Sees store hash g key) λ o. record {
        run = λ r.
            (search_slot-Found b _ (search_loop-Found b capacity k h left (suc step)) slot k o
                r.1).run
              r.0;
      }

  pub next_loop-Found :
      (b : BucketId) (del : SlotId) (nonce capacity left i : ℕ)
      → Triple
          (Sees store g)
          (next_loop hash store b del nonce capacity left i)
          (Found b)
          (Sees store g)
  unfolding next_loop
  next_loop-Found b del nonce capacity zero i = record { run = λ h. (h, tt) }
  next_loop-Found b del nonce capacity (suc left) i =
      let slot = probe del i capacity in
      let key = salt_key b slot in
      Triple-bind (value hash store key) _ (value-Sees store hash g key) λ o. record {
        run = λ r.
            (next_slot-Found b _ (next_loop-Found b del nonce capacity left (suc i)) slot nonce
                capacity del o r.1).run
              r.0;
      }
