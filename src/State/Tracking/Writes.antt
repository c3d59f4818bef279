-- ===== src/State/Tracking/Writes.antt =====
-- `update_value` of salt/src/state/state.rs, by what the session reads before and after.
use salt_optimizations.Prelude.{
  ◌≡◌, refl, sym, ◌∙◌, Option, inl, inr, Bool-cases, ◌==◌, if◌then◌else◌,
}
use salt_optimizations.Prelude.Result.{ok, Ends-ok}
use salt_optimizations.Types.SaltKey.{SaltKey}
use salt_optimizations.Types.SaltValue.{SaltValue}
use salt_optimizations.State.Updates.Chain.{put}
use salt_optimizations.State.Ephemeral.{Session, update_value}
use salt_optimizations.State.Tracking.{over, Follows, IsTracked, update_value-Follows}
use salt_optimizations.Store.Traits.{StateReader}

-- In a session whose updates are the change from the store to what the session reads, a change of
-- one key from what is read there succeeds, the session reads the new value at that key and what it
-- read before at the others, and its updates are again the change from the store.
pub update_value-IsTracked :
    {E : Type 0} (store : StateReader E) (s : Session) (k : SaltKey) (old new : Option SaltValue)
    → IsTracked store s
    → over (s.state.cache k) (store.value k) ≡ ok old
    → ((update_value {E = E} k old new s).0 ≡ ok tt)
      × ((q : SaltKey)
          → over ((update_value {E = E} k old new s).1.state.cache q) (store.value q)
            ≡ (if k == q then ok new else over (s.state.cache q) (store.value q)))
      × IsTracked store (update_value {E = E} k old new s).1
update_value-IsTracked {E} store s k old new h current =
    let g = h.seen in
    let sees = h.follows.sees in
    let (_, done, after) =
      Ends-ok (λ _. Follows store (put g k new)) (update_value {E = E} k old new s).0
        (update_value {E = E} k old new s).1
        ((update_value-Follows store g k old new (sym (sees.at k) ∙ current) (λ t. ⊥)).run
          h.follows) in
    (
      done,
      λ q. after.sees.at q ∙ (elim (Bool-cases (k == q)) [
        | inl same ↦ rw (same) refl
        | inr other ↦ rw (other) (sym (sees.at q))
      ]),
      record { seen = put g k new; follows = after },
    )
