-- ===== src/Store/Apply.antt =====
-- `MemStore::update_state` of salt/src/mem_store.rs on the values of a store.
use salt_optimizations.Prelude.{◌≡◌, Option, none, some, [], ◌∷◌, arith, ◌==◌, if◌then◌else◌}
use salt_optimizations.Prelude.Maps
use salt_optimizations.Types.SaltKey.{SaltKey}
use salt_optimizations.Types.SaltValue.{SaltValue}
use salt_optimizations.Types.Errors.{SaltError}
use salt_optimizations.State.Updates.{Change, StateUpdates, inverse}
use salt_optimizations.State.Updates.Chain.{View, put, Tracks, Tracks-congr}
use salt_optimizations.State.Updates.Merge.{tail-Tracks, inverse-Tracks, inverse-IsSorted}
use salt_optimizations.Store.MemStore.{StateStore, value, write, update_entry, update_state}

get-write :
    (k q : SaltKey) (v : Option SaltValue) (m : Maps.Map SaltValue)
    → Maps.get q (write k v m) ≡ (if k == q then v else Maps.get q m)
unfolding write
get-write k q none m = Maps.get-remove k q m
get-write k q (some v) m = Maps.get-insert k q v m

pub write-IsSorted :
    (k : SaltKey) (v : Option SaltValue) (m : Maps.Map SaltValue)
    → Maps.IsSorted m
    → Maps.IsSorted (write k v m)
unfolding write
write-IsSorted k none m s = Maps.remove-IsSorted k m s
write-IsSorted k (some v) m s = Maps.insert-IsSorted k v m s

-- One entry writes its new value at its key.
pub value-update_entry :
    (state : StateStore) (k : SaltKey) (c : Change) (q : SaltKey)
    → value (update_entry state k c) q ≡ put (value state) k c.1 q
unfolding value update_entry
value-update_entry state k c q = ground (arith, get-write k q c.1 state.kvs)

-- Applying updates, with rising keys, that are the difference between the store and a view gives a
-- store that reads as the view at every key.
pub value-update_state :
    (state : StateStore) (after : View SaltError) (u : StateUpdates)
    → Tracks (value state) after u
    → Maps.IsSorted u
    → (q : SaltKey) → value (update_state state u) q ≡ after q
unfolding value update_state
value-update_state state after [] t s q = unfold Maps.get in t.at q
value-update_state state after ((k, c) ∷ u) t s q =
    value-update_state (update_entry state k c) after u
      (Tracks-congr (value (update_entry state k c)) (put (value state) k c.1) after u
        (λ j. value-update_entry state k c j) (tail-Tracks (value state) after k c u s t))
      (Maps.Above-IsSorted k u s) q

-- Applying updates, with rising keys, that are the difference between the store and a view, and then
-- their inverse, restores every value.
pub update_state-inverse :
    (state : StateStore) (after : View SaltError) (u : StateUpdates)
    → Tracks (value state) after u
    → Maps.IsSorted u
    → (q : SaltKey) → value (update_state (update_state state u) (inverse u)) q ≡ value state q
update_state-inverse state after u t s q =
    value-update_state (update_state state u) (value state) (inverse u)
      (Tracks-congr (value (update_state state u)) after (value state) (inverse u)
        (λ j. value-update_state state after u t s j) (inverse-Tracks (value state) after u t))
      (inverse-IsSorted u s) q
