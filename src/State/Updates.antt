-- ===== src/State/Updates.antt =====
-- `StateUpdates` of salt/src/state/updates.rs: for each changed key the value before and after.
pub mod Chain
pub mod Merge
use salt_optimizations.Prelude.{Bool, Option, none, some, List, [], ◌∷◌, map, if◌then◌else◌}
use salt_optimizations.Prelude.Maps
use salt_optimizations.Prelude.Maps.{Map}
use salt_optimizations.Prelude.Result.{Res, ok, err, panic}
use salt_optimizations.Types.SaltKey.{SaltKey}
use salt_optimizations.Types.SaltValue.{SaltValue, value_eq}
use salt_optimizations.Types.Errors.{SaltError, unchained_transition}

abbrev pub Change : Type 0
Change = Option SaltValue × Option SaltValue

abbrev pub StateUpdates : Type 0
StateUpdates = Map Change

-- `match self.data.entry(salt_key)`: occupied, with the values recorded before, or vacant.
unfoldable pub chain_entry :
    Option Change
    → StateUpdates
    → SaltKey
    → Option SaltValue
    → Option SaltValue
    → Res SaltError StateUpdates
chain_entry (some change) updates key old_value new_value =
    if value_eq old_value change.1
    then ok (
        if value_eq change.0 new_value
        then Maps.remove key updates
        else Maps.insert key (change.0, new_value) updates)
    else err (unchained_transition (record { key = key; expected = change.1; actual = old_value }))
chain_entry none updates key old_value new_value = ok (
    if value_eq old_value new_value
    then updates
    else Maps.insert key (old_value, new_value) updates)

unfoldable pub try_add :
    StateUpdates → SaltKey → Option SaltValue → Option SaltValue → Res SaltError StateUpdates
try_add updates key old_value new_value =
    chain_entry (Maps.get key updates) updates key old_value new_value

-- `unwrap_or_else(|err| panic!("{err}"))`
unfoldable pub unwrap_or_panic {ℓ} : {E F : Type 0} {A : Type ℓ} → Res E A → Res F A
unwrap_or_panic (ok a) = ok a
unwrap_or_panic _ = panic

unfoldable pub add :
    {E : Type 0} → StateUpdates → SaltKey → Option SaltValue → Option SaltValue → Res E StateUpdates
unfolding unwrap_or_panic
add updates key old_value new_value = unwrap_or_panic (try_add updates key old_value new_value)

-- The updates merged so far, and the error that stopped the merge. On an error the first part of
-- `other` stays merged.
unfoldable pub try_merge : StateUpdates → StateUpdates → StateUpdates × Res SaltError (Unit {0})
try_merge updates [] = (updates, ok tt)
try_merge updates ((key, change) ∷ other) = elim (try_add updates key change.0 change.1) [
  | ok updates' ↦ try_merge updates' other
  | err e ↦ (updates, err e)
  | stopped ↦ (updates, panic)
]

unfoldable pub swap_entry : SaltKey × Change → SaltKey × Change
swap_entry (key, change) = (key, (change.1, change.0))

unfoldable pub inverse : StateUpdates → StateUpdates
unfolding swap_entry
inverse updates = map swap_entry updates
