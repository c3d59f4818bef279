-- ===== src/State/Tracking/Deletion.antt =====
-- `shi_delete` of salt/src/state/state.rs and the updates of the session.
use salt_optimizations.Prelude.{ℕ, zero, suc, ◌≡◌, false, Option, none, some, ◌-◌, arith}
use salt_optimizations.Prelude.Bytes.{Bytes}
use salt_optimizations.Prelude.Result.{Ends-map, Ends-always, ok, Exec, Triple, Triple-bind}
use salt_optimizations.Types.BucketMeta.{BucketMeta}
use salt_optimizations.Types.SaltKey.{SaltKey, BucketId, SlotId, salt_key}
use salt_optimizations.Types.SaltValue.{SaltValue}
use salt_optimizations.State.Updates.Chain.{View, put}
use salt_optimizations.State.Search.{shi_search}
use salt_optimizations.State.Ephemeral.{
  Ephemeral, metadata, Session, on_state, shi_find, update_value,
}
use salt_optimizations.State.Shi.{shi_next, fill_gap, delete_loop, delete_found, shi_delete}
use salt_optimizations.State.Tracking.{Sees, Follows, IsTracked, update_value-Follows}
use salt_optimizations.State.Tracking.Reads.{IsCoherent, metadata-Sees}
use salt_optimizations.State.Tracking.Searches.{Entry, search_loop-Found, next_loop-Found}
use salt_optimizations.Store.Traits.{StateReader}

module _ {E : Type 0} (hash : Bytes → ℕ) (store : StateReader E) where
  put-same :
      (g : View E) (k q : SaltKey) (w : SaltValue)
      → g q ≡ ok (some w)
      → put g k (some w) q ≡ ok (some w)
  put-same g k q w e = ground arith

  abbrev Deletes : View E → Exec Session E (Unit {0}) → Type 0
  Deletes g m = Triple (Follows store g) m (λ u. IsTracked store) (IsTracked store)

  -- A read of the state, within a session.
  on_state-Follows :
      {A : Type 0} (g : View E) (m : Exec Ephemeral E A) (Q : A → Type 0)
      → Triple (Sees store g) m (λ a s. Sees store g s × Q a) (Sees store g)
      → Triple (Follows store g) (on_state m) (λ a s. Follows store g s × Q a) (IsTracked store)
  on_state-Follows g m Q t = record {
    run = λ {s} h.
        let follows : (s' : Ephemeral)
            → Sees store g s'
            → Follows store g (record s { state = s' }) =
          λ s' sees. record { sees = sees; tracks = h.tracks; sorted = h.sorted } in
        Ends-map (λ a s. Sees store g s × Q a) (Sees store g) (λ a s. Follows store g s × Q a)
          (IsTracked store) (m s.state).0 (m s.state).1 _ (λ a f. (follows _ f.0, f.1))
          (λ f. record { seen = g; follows = follows _ f }) (t.run h.sees);
  }

  module _ (b : BucketId) (meta : BucketMeta) where
    fill_gap-Deletes :
        (g : View E) (del : SlotId) (v : SaltValue)
        → g (salt_key b del) ≡ ok (some v)
        → (rest : SlotId → SaltValue → Exec Session E (Unit {0}))
        → ((g' : View E) (slot : SlotId) (w : SaltValue)
            → g' (salt_key b slot) ≡ ok (some w)
            → Deletes g' (rest slot w))
        → (o : Option (SlotId × SaltValue)) → Entry hash store g b o
        → Deletes g (fill_gap hash store b del v rest o)
    unfolding fill_gap
    fill_gap-Deletes g del v e rest again none f = record {
      run = λ {s} h.
          Ends-map (λ u. Follows store (put g (salt_key b del) none)) (IsTracked store)
            (λ u. IsTracked store) (IsTracked store) _ _ _
            (λ u f. record { seen = put g (salt_key b del) none; follows = f }) (λ f. f)
            ((update_value-Follows store g (salt_key b del) (some v) none e (IsTracked store)).run
              h);
    }
    fill_gap-Deletes g del v e rest again (some (slot, w)) f =
        let key = salt_key b del in
        let moved : put g key (some w) (salt_key b slot) ≡ ok (some w) =
          put-same g key (salt_key b slot) w f in
        Triple-bind (update_value key (some v) (some w)) _
          (update_value-Follows store g key (some v) (some w) e (IsTracked store))
          λ u. again (put g key (some w)) slot w moved

    delete_loop-Deletes :
        (fuel : ℕ) (g : View E) (del : SlotId) (v : SaltValue)
        → g (salt_key b del) ≡ ok (some v)
        → Deletes g (delete_loop hash store b meta fuel del v)
    unfolding delete_loop shi_next
    delete_loop-Deletes zero g del v e = record { run = λ h. record { seen = g; follows = h } }
    delete_loop-Deletes (suc fuel) g del v e =
        Triple-bind (on_state (shi_next hash store b del meta.nonce meta.capacity)) _
          (on_state-Follows g _ (Entry hash store g b)
            (next_loop-Found hash store g b del meta.nonce meta.capacity (meta.capacity - 1) 1))
          λ o. record {
            run = λ h. (fill_gap-Deletes g del v e _ (delete_loop-Deletes fuel) o h.1).run h.0;
          }

    delete_found-Deletes :
        (g : View E) (o : Option (SlotId × SaltValue))
        → Entry hash store g b o
        → Deletes g (delete_found hash store b meta o)
    unfolding delete_found
    delete_found-Deletes g none e = record { run = λ h. record { seen = g; follows = h } }
    delete_found-Deletes g (some (slot, v)) e = delete_loop-Deletes _ g slot v e

  read :
      IsCoherent hash store
      → (g : View E) (b : BucketId)
      → Triple
          (Sees store g)
          (metadata hash store b false)
          (λ m s. Sees store g s × Unit {0})
          (Sees store g)
  read coherent g b = record {
    run = λ {s} h.
        Ends-map (λ (m : BucketMeta). Sees store g) (Sees store g)
          (λ (m : BucketMeta) s. Sees store g s × Unit {0}) (Sees store g) _ _ _ (λ m f. (f, tt))
          (λ f. f) ((metadata-Sees hash store g coherent b false).run h);
  }

  shi_delete-Deletes :
      IsCoherent hash store
      → (g : View E) (b : BucketId) (k : Bytes) → Deletes g (shi_delete hash store b k)
  unfolding shi_delete shi_find shi_search
  shi_delete-Deletes coherent g b k =
      Triple-bind (on_state (metadata hash store b false)) _
        (on_state-Follows g _ (λ m. Unit {0}) (read coherent g b))
        λ meta. record {
          run = λ h.
              (Triple-bind (on_state (shi_find hash store b meta.nonce meta.capacity k)) _
                  (on_state-Follows g _ (Entry hash store g b)
                    (search_loop-Found hash store g b meta.capacity k _ meta.capacity 0))
                  λ o. record { run = λ h. (delete_found-Deletes b meta g o h.1).run h.0 }).run
                h.0;
        }

  -- Over a store whose metadata agrees with its values, if the updates of a session are the change
  -- from the store to what the session reads, they are so after `shi_delete` too, also where it ends
  -- in an error, in a panic or for want of fuel.
  pub shi_delete-IsTracked :
      IsCoherent hash store
      → (b : BucketId) (k : Bytes) (s : Session) → IsTracked store s
      → IsTracked store (shi_delete hash store b k s).1
  shi_delete-IsTracked coherent b k s h =
      Ends-always (IsTracked store) (shi_delete hash store b k s).0 _
        ((shi_delete-Deletes coherent h.seen b k).run h.follows)
