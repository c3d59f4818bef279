-- ===== src/Proof/Witness/Lookups.antt =====
-- Lookups over a store that knows only a part of the state (salt/src/state/state.rs over the readers of
-- salt/src/proof).
use Prim.Native.Nat.{Ordering}
use native.Mathlib.Nat.{mod-lt}
use salt_optimizations.Prelude.{
  ℕ, zero, suc, ◌+◌, ◌%◌, ◌≤◌, ◌<◌, arith, ◌≡◌, refl, ap, false, Option, none, some, List, ◌^◌,
  if◌then◌else◌,
}
use salt_optimizations.Prelude.Bytes.{Bytes, cmp}
use salt_optimizations.Prelude.Result.{
  Res, ok, err, panic, out_of_fuel, ok-injective, or_panic, Exec, lift, continue, ◌>>=◌,
}
use salt_optimizations.Constant.{num_buckets, num_meta_buckets, u64_mod}
use salt_optimizations.Types.SaltKey.{SaltKey, BucketId, SlotId, is_in_meta_bucket, salt_key}
use salt_optimizations.Types.Packing.{salt_key_fields}
use salt_optimizations.Types.SaltValue
use salt_optimizations.Types.SaltValue.{SaltValue}
use salt_optimizations.Store.Traits.{StateReader}
use salt_optimizations.State.Probe.{probe, hash_with_nonce}
use salt_optimizations.State.Search.{search_loop, search_order, search_slot, shi_search}
use salt_optimizations.Store.TrieReader.{TrieReader}
use salt_optimizations.Trie.Committer.{Committer}
use salt_optimizations.Proof.Opening.{Opening}
use salt_optimizations.Proof.SaltWitness
use salt_optimizations.Proof.SaltWitness.{SaltWitness}
use salt_optimizations.Proof.SaltWitness.Reads.{value-known}
use salt_optimizations.State.Ephemeral.{Ephemeral, fetch, set_cache, shi_find, value, value_entry}

-- Where the first action gives a result, the second one gives it too, with the same state after.
abbrev pub Extends : {S E F A : Type 0} → Exec S E A → Exec S F A → Type 0
Extends {S = S} {A = A} m m' = (s s' : S) (a : A) → m s ≡ (ok a, s') → m' s ≡ (ok a, s')

module _ {S E A B : Type 0} where
  bind-inv :
      (m : Exec S E A) (f : A → Exec S E B) (s s' : S) (b : B)
      → (m >>= f) s ≡ (ok b, s')
      → (a : A) × (t : S) × (m s ≡ (ok a, t)) × (f a t ≡ (ok b, s'))
  unfolding ◌>>=◌
  bind-inv m f s s' b h = split (m s) h
    where
      split :
          (r : Res E A × S)
          → continue r.0 f r.1 ≡ (ok b, s')
          → (a : A) × (t : S) × (r ≡ (ok a, t)) × (f a t ≡ (ok b, s'))
      split (ok a, t) e = (a, t, refl, e)
      split (err x, t) e = cc
      split (panic, t) e = cc
      split (out_of_fuel, t) e = cc

module _ {S E F A B : Type 0} where
  Extends-bind :
      (m : Exec S E A) (m' : Exec S F A) (f : A → Exec S E B) (f' : A → Exec S F B)
      → Extends m m'
      → ((a : A) → Extends (f a) (f' a))
      → Extends (m >>= f) (m' >>= f')
  unfolding ◌>>=◌
  Extends-bind m m' f f' first next s s' b h =
      let (a, t, h0, h1) = bind-inv m f s s' b h in rw (first s t a h0) (next a t s' b h1)

module _ {S E F A : Type 0} where
  -- A result from a reader.
  Extends-lift :
      (r : Res E A) (r' : Res F A)
      → ((a : A) → r ≡ ok a → r' ≡ ok a)
      → Extends {S = S} (lift r) (lift r')
  Extends-lift r r' agree s s' a h =
      rw (agree a (ap (λ (p : Res E A × S). p.0) h))
        (ap (λ (t : S). (ok a, t)) (ap (λ (p : Res E A × S). p.1) h))

  -- A step that cannot fail.
  Extends-step :
      (a : A) (f : S → S)
      → Extends {E = E} {F = F} (λ (s : S). (ok a, f s)) (λ (s : S). (ok a, f s))
  Extends-step a f s s' b h =
      let same : a ≡ b = ok-injective (ap (λ (p : Res E A × S). p.0) h) in
      let state : f s ≡ s' = ap (λ (p : Res E A × S). p.1) h in rw (same, state) refl

  Extends-or_panic :
      (o : Option A) → Extends {S = S} {E = E} {F = F} (lift (or_panic o)) (lift (or_panic o))
  Extends-or_panic none s s' a h = cc
  Extends-or_panic (some b) s s' a h = Extends-step b (λ t. t) s s' a h

probe-lt : (h step capacity : ℕ) → 0 < capacity → probe h step capacity < capacity
unfolding probe
probe-lt h step capacity pos = mod-lt ((h % capacity + step) % u64_mod) pos

module _ {E F : Type 0} (hash : Bytes → ℕ) (part : StateReader E) (store : StateReader F) where
  -- A value that the part has is the value in the whole state.
  abbrev pub Known : SaltKey → Type 0
  Known k = (v : Option SaltValue) → part.value k ≡ ok v → store.value k ≡ ok v

  fetch-Extends : (k : SaltKey) → Known k → Extends (fetch hash part k) (fetch hash store k)
  unfolding fetch ◌>>=◌
  fetch-Extends k known =
      Extends-bind (lift (part.value k)) (lift (store.value k)) _ _
        (Extends-lift (part.value k) (store.value k) known)
        (λ v. Extends-step v (λ (s : Ephemeral). if s.cache_read then set_cache k v s else s))

  value_entry-Extends :
      (k : SaltKey) (cached : Option (Option SaltValue))
      → Known k
      → Extends (value_entry hash part k cached) (value_entry hash store k cached)
  unfolding value_entry
  value_entry-Extends k none known = fetch-Extends k known
  value_entry-Extends k (some v) known = Extends-step v (λ s. s)

  value-Extends : (k : SaltKey) → Known k → Extends (value hash part k) (value hash store k)
  unfolding value ◌>>=◌
  value-Extends k known s s' v h = value_entry-Extends k (s.cache k) known s s' v h

  order-Extends :
      (o : Ordering) (slot : SlotId) (v : SaltValue)
      (rest : Exec Ephemeral E (Option (SlotId × SaltValue)))
      (rest' : Exec Ephemeral F (Option (SlotId × SaltValue)))
      → Extends rest rest'
      → Extends (search_order o slot v rest) (search_order o slot v rest')
  unfolding search_order
  order-Extends Ordering.lt slot v rest rest' later = Extends-step none (λ s. s)
  order-Extends Ordering.eq slot v rest rest' later = Extends-step (some (slot, v)) (λ s. s)
  order-Extends Ordering.gt slot v rest rest' later = later

  slot-Extends :
      (plain_key : Bytes) (slot : SlotId) (rest : Exec Ephemeral E (Option (SlotId × SaltValue)))
      (rest' : Exec Ephemeral F (Option (SlotId × SaltValue))) (found : Option SaltValue)
      → Extends rest rest'
      → Extends (search_slot plain_key slot rest found) (search_slot plain_key slot rest' found)
  unfolding search_slot
  slot-Extends plain_key slot rest rest' none later = Extends-step none (λ s. s)
  slot-Extends plain_key slot rest rest' (some v) later =
      Extends-bind (lift (or_panic (SaltValue.key v))) (lift (or_panic (SaltValue.key v))) _ _
        (Extends-or_panic (SaltValue.key v))
        (λ key. order-Extends (cmp key plain_key) slot v rest rest' later)

  module _ (bucket : BucketId) (capacity : ℕ)
      (known : (slot : SlotId) → slot < capacity → Known (salt_key bucket slot)) where
    loop-Extends :
        (plain_key : Bytes) (hashed_key left step : ℕ)
        → left ≤ capacity
        → Extends
            (search_loop bucket capacity plain_key (value hash part) hashed_key left step)
            (search_loop bucket capacity plain_key (value hash store) hashed_key left step)
    unfolding search_loop
    loop-Extends plain_key hashed_key zero step h = Extends-step none (λ s. s)
    loop-Extends plain_key hashed_key (suc left) step h =
        let slot = probe hashed_key step capacity in
        Extends-bind (value hash part (salt_key bucket slot))
          (value hash store (salt_key bucket slot)) _ _
          (value-Extends (salt_key bucket slot)
            (known slot (probe-lt hashed_key step capacity (omega arith))))
          (λ found.
            slot-Extends plain_key slot _ _ found
              (loop-Extends plain_key hashed_key left (suc step) (omega arith)))

    -- A search of a bucket over a reader that knows a part of the state, where it gives a result,
    -- gives the result and the cache of the same search over the whole state, absence included. Each
    -- value of a slot of the bucket that the part has is the value in the whole state.
    pub shi_find-Extends :
        (nonce : ℕ) (plain_key : Bytes) (s s' : Ephemeral) (found : Option (SlotId × SaltValue))
        → shi_find hash part bucket nonce capacity plain_key s ≡ (ok found, s')
        → shi_find hash store bucket nonce capacity plain_key s ≡ (ok found, s')
    unfolding shi_find shi_search
    shi_find-Extends nonce plain_key =
        loop-Extends plain_key (hash_with_nonce hash plain_key nonce) capacity 0 (omega arith)

plain_key_of_bucket :
    (bucket : BucketId) (slot : SlotId)
    → num_meta_buckets ≤ bucket
    → bucket < num_buckets
    → slot < 2 ^ 40
    → is_in_meta_bucket (salt_key bucket slot) ≡ false
unfolding is_in_meta_bucket
plain_key_of_bucket bucket slot lo hi h =
    rw ((salt_key_fields bucket slot (omega arith) h).0) (ground arith)

-- A search of a data bucket over a witness that was created from a store, where it gives a result,
-- gives the result of the search over the store: a witness can make a search fail, and can not make
-- it miss a key or find another value. The capacity is at most the number of slots that a key names.
pub shi_find-create :
    {E : Type 0} (hash : Bytes → ℕ) (c : Committer) (o : Opening c) (keys : List SaltKey)
    (store : StateReader E) (trie : TrieReader E) (w : SaltWitness c o) (bucket : BucketId)
    (nonce capacity : ℕ) (plain_key : Bytes) (s s' : Ephemeral)
    (found : Option (SlotId × SaltValue))
    → SaltWitness.create c o keys store trie ≡ ok w
    → num_meta_buckets ≤ bucket
    → bucket < num_buckets
    → capacity ≤ 2 ^ 40
    → shi_find hash (SaltWitness.reader c o w) bucket nonce capacity plain_key s ≡ (ok found, s')
    → shi_find hash store bucket nonce capacity plain_key s ≡ (ok found, s')
shi_find-create hash c o keys store trie w bucket nonce capacity plain_key s s' found made lo hi
      cap =
    shi_find-Extends hash (SaltWitness.reader c o w) store bucket capacity
      (λ slot h v e.
        value-known store c o keys trie w (salt_key bucket slot) v made
          (plain_key_of_bucket bucket slot lo hi (omega arith)) e)
      nonce plain_key s s' found
