-- ===== src/State/Tracking/Lookups.antt =====
-- `find` and `plain_value` of salt/src/state/state.rs and what the session reads.
use salt_optimizations.Prelude.{ℕ, ◌≡◌, refl, false, Option, none, some}
use salt_optimizations.Prelude.Bytes.{Bytes}
use salt_optimizations.Prelude.Result.{
  Res, ok, err, panic, out_of_fuel, Exec, lift, pure, or_panic, Ends, Ends-map, Ends-always, Triple,
  Triple-bind, Triple-lift,
}
use salt_optimizations.Types.SaltKey.{SaltKey}
use salt_optimizations.Types.SaltValue
use salt_optimizations.Types.SaltValue.{SaltValue}
use salt_optimizations.State.Updates.Chain.{View}
use salt_optimizations.State.Probe.{bucket_of}
use salt_optimizations.State.Search.{shi_search}
use salt_optimizations.State.Ephemeral.{
  Ephemeral, attempt, value, metadata, shi_find, direct_match, direct_at, direct_find,
  direct_or_none, find_or_search, find, value_of_found, plain_value,
}
use salt_optimizations.State.Tracking.{over, Sees, value-Sees}
use salt_optimizations.State.Tracking.Reads.{IsCoherent, metadata-Sees}
use salt_optimizations.State.Tracking.Searches.{Entry, search_loop-Found}
use salt_optimizations.Store.Traits.{StateReader}

module _ {E : Type 0} (hash : Bytes → ℕ) (store : StateReader E) (g : View E) where
  -- The action leaves what the session reads.
  abbrev Keeps : {A : Type 0} → Exec Ephemeral E A → Type 0
  Keeps {A} m = Triple (Sees store g) m (λ (a : A). Sees store g) (Sees store g)

  lift-Keeps : {A : Type 0} (r : Res E A) → Keeps (lift r)
  lift-Keeps {A} r =
      Triple-lift (λ (a : A). Sees store g) (Sees store g) r (λ s a e h. h) (λ s h. h)

  pure-Keeps : {A : Type 0} (a : A) → Keeps (pure a)
  pure-Keeps a = record { run = λ h. h }

  Ends-attempt :
      {A : Type 0} (r : Res E A) (s : Ephemeral)
      → Ends (λ (a : A). Sees store g) (Sees store g) r s
      → Ends
          (λ (o : Option A). Sees store g)
          (Sees store g)
          (attempt (λ t. (r, s)) s).0
          (attempt (λ (t : Ephemeral). (r, s)) s).1
  Ends-attempt (ok a) s h = h
  Ends-attempt (err e) s h = h
  Ends-attempt panic s h = h
  Ends-attempt out_of_fuel s h = h

  attempt-Keeps : {A : Type 0} (m : Exec Ephemeral E A) → Keeps m → Keeps (attempt m)
  attempt-Keeps m t = record { run = λ {s} h. Ends-attempt (m s).0 (m s).1 (t.run h) }

  forget :
      {A : Type 0} (m : Exec Ephemeral E A) (Q : A → Ephemeral → Type 0)
      → Triple (Sees store g) m (λ a s. Sees store g s × Q a s) (Sees store g)
      → Keeps m
  forget {A} m Q t = record {
    run = λ {s} h.
        Ends-map (λ a s. Sees store g s × Q a s) (Sees store g) (λ (a : A). Sees store g)
          (Sees store g) (m s).0 (m s).1 (m s).1 (λ a f. f.0) (λ f. f) (t.run h);
  }

  value-Keeps : (key : SaltKey) → Keeps (value hash store key)
  value-Keeps key =
      forget (value hash store key) (λ v s. g key ≡ ok v) (value-Sees store hash g key)

  direct_match-Keeps :
      (k : Bytes) (key : SaltKey) (o : Option SaltValue) → Keeps (direct_match hash store k key o)
  unfolding direct_match
  direct_match-Keeps k key none = pure-Keeps none
  direct_match-Keeps k key (some v) =
      Triple-bind (lift (or_panic (SaltValue.key v))) _ (lift-Keeps _) λ j. pure-Keeps _

  direct_at-Keeps : (k : Bytes) (o : Option SaltKey) → Keeps (direct_at hash store k o)
  unfolding direct_at
  direct_at-Keeps k none = pure-Keeps none
  direct_at-Keeps k (some key) =
      Triple-bind (value hash store key) _ (value-Keeps key) λ o. direct_match-Keeps k key o

  direct_or_none-Keeps : (k : Bytes) → Keeps (direct_or_none hash store k)
  unfolding direct_or_none direct_find
  direct_or_none-Keeps k =
      Triple-bind (attempt (direct_find hash store k)) _
        (attempt-Keeps (direct_find hash store k) (
          Triple-bind (attempt (lift (store.plain_value_fast k))) _ (attempt-Keeps _ (lift-Keeps _))
            λ o. direct_at-Keeps k o))
        λ o. pure-Keeps _

  find_or_search-Keeps :
      IsCoherent hash store
      → (k : Bytes) (o : Option (SaltKey × SaltValue)) → Keeps (find_or_search hash store k o)
  unfolding find_or_search shi_find shi_search
  find_or_search-Keeps coherent k (some found) = pure-Keeps (some found)
  find_or_search-Keeps coherent k none =
      let b = bucket_of hash k in
      Triple-bind (metadata hash store b false) _ (metadata-Sees hash store g coherent b false)
        λ meta.
          Triple-bind (shi_find hash store b meta.nonce meta.capacity k) _
            (forget _ (λ o s. Entry hash store g b o)
              (search_loop-Found hash store g b meta.capacity k _ meta.capacity 0))
            λ o. pure-Keeps _

  value_of_found-Keeps : (o : Option (SaltKey × SaltValue)) → Keeps (value_of_found hash store o)
  unfolding value_of_found
  value_of_found-Keeps none = pure-Keeps none
  value_of_found-Keeps (some (key, v)) =
      Triple-bind (lift (or_panic (SaltValue.value v))) _ (lift-Keeps _) λ bytes. pure-Keeps _

  plain_value-Keeps : IsCoherent hash store → (k : Bytes) → Keeps (plain_value hash store k)
  unfolding plain_value find
  plain_value-Keeps coherent k =
      Triple-bind (find hash store k) _
        (Triple-bind (direct_or_none hash store k) _ (direct_or_none-Keeps k)
          λ o. find_or_search-Keeps coherent k o)
        λ o. value_of_found-Keeps o

-- Over a store whose metadata agrees with its values (no value at the metadata key of a bucket with
-- nonce 0 and the smallest capacity, and else the metadata as it is written), a look-up of a plain key leaves what the
-- session reads at every key, however it ends.
pub over-plain_value :
    {E : Type 0} (hash : Bytes → ℕ) (store : StateReader E)
    → IsCoherent hash store
    → (k : Bytes) (s : Ephemeral) (q : SaltKey)
    → over ((plain_value hash store k s).1.cache q) (store.value q)
      ≡ over (s.cache q) (store.value q)
over-plain_value hash store coherent k s q =
    let g : View _ = λ j. over (s.cache j) (store.value j) in
    (Ends-always (Sees store g) (plain_value hash store k s).0 (plain_value hash store k s).1
        ((plain_value-Keeps hash store g coherent k).run (record { at = λ j. refl }))).at
      q
