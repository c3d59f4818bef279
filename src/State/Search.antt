-- ===== src/State/Search.antt =====
-- `shi_search` of salt/src/state/state.rs: linear probing that stops at the key, at an empty slot,
-- or at a smaller key. The reads go through a closure, which may change a state of its own.
pub mod Found
use Prim.Native.Nat.{Ordering}
use salt_optimizations.Prelude.{
  ℕ, zero, suc, Bool, true, false, Option, some, none, List, if◌then◌else◌,
}
use salt_optimizations.Prelude.Bytes.{Bytes, cmp}
use salt_optimizations.Prelude.Result.{Res, ok, or_panic, Exec, pure, lift, ◌>>=◌}
use salt_optimizations.Types.SaltKey.{SaltKey, BucketId, SlotId, salt_key}
use salt_optimizations.Types.SaltValue
use salt_optimizations.Types.SaltValue.{SaltValue}
use salt_optimizations.State.Probe.{probe, hash_with_nonce}

module _ {S E : Type 0} where
  -- `match salt_val.key().cmp(plain_key)`; `rest` goes on with the next slot.
  unfoldable pub search_order :
      Ordering
      → SlotId
      → SaltValue
      → Exec S E (Option (SlotId × SaltValue))
      → Exec S E (Option (SlotId × SaltValue))
  search_order Ordering.lt slot salt_val rest = pure none
  search_order Ordering.eq slot salt_val rest = pure (some (slot, salt_val))
  search_order Ordering.gt slot salt_val rest = rest

  unfoldable pub search_slot :
      Bytes
      → SlotId
      → Exec S E (Option (SlotId × SaltValue))
      → Option SaltValue
      → Exec S E (Option (SlotId × SaltValue))
  unfolding search_order
  search_slot plain_key slot rest none = pure none
  search_slot plain_key slot rest (some salt_val) = do
    key ← lift (or_panic (SaltValue.key salt_val))
    search_order (cmp key plain_key) slot salt_val rest

  -- `left` rounds of `for step in 0..capacity`.
  unfoldable pub search_loop :
      BucketId
      → ℕ
      → Bytes
      → (SaltKey → Exec S E (Option SaltValue))
      → ℕ
      → ℕ
      → ℕ
      → Exec S E (Option (SlotId × SaltValue))
  unfolding search_slot
  search_loop bucket capacity plain_key get_value hashed_key zero step = pure none
  search_loop bucket capacity plain_key get_value hashed_key (suc left) step =
      let slot = probe hashed_key step capacity in
      let rest = search_loop bucket capacity plain_key get_value hashed_key left (suc step) in
      get_value (salt_key bucket slot) >>= search_slot plain_key slot rest

unfoldable pub shi_search :
    {S E : Type 0}
    → (Bytes → ℕ)
    → BucketId
    → ℕ
    → ℕ
    → Bytes
    → (SaltKey → Exec S E (Option SaltValue))
    → Exec S E (Option (SlotId × SaltValue))
unfolding search_loop
shi_search hash bucket nonce capacity plain_key get_value =
    search_loop bucket capacity plain_key get_value (hash_with_nonce hash plain_key nonce) capacity
      0
