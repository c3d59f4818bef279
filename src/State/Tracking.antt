-- ===== src/State/Tracking.antt =====
-- What a session reads through its cache, and when its updates are the change from the store to
-- what it reads: `update_value` and `value` of salt/src/state/state.rs.
pub mod Reads
pub mod Searches
pub mod Deletion
pub mod Writes
pub mod Lookups
use salt_optimizations.Prelude.{
  ℕ, ◌+◌, ◌-◌, ◌%◌, ◌≡◌, refl, sym, ◌∙◌, Bool, true, false, Option, none, some, [], inl, inr,
  Bool-cases, ==_iff, arith, ◌==◌, if◌then◌else◌,
}
use salt_optimizations.Prelude.Bytes.{Bytes}
use salt_optimizations.Prelude.Maps
use salt_optimizations.Prelude.Result.{
  Res, ok, err, panic, out_of_fuel, lift, Ends, Triple, Triple-bind, Triple-lift, ◌>>=◌,
}
use salt_optimizations.Constant.{u64_mod}
use salt_optimizations.Types.SaltKey.{SaltKey, BucketId, bucket_id, bucket_metadata_key}
use salt_optimizations.Types.SaltValue.{SaltValue, value_eq, value_eq_iff}
use salt_optimizations.Types.BucketMeta.{BucketMeta}
use salt_optimizations.Store.Traits.{StateReader}
use salt_optimizations.State.Updates.{StateUpdates, add, unwrap_or_panic}
use salt_optimizations.State.Updates.Chain.{View, put, Tracks, try_add-Tracks}
use salt_optimizations.State.Ephemeral.{
  Ephemeral, Session, set_cache, add_delta, update_value, write_change, fetch, value, value_entry,
  present,
}

-- The cached value, or the stored one.
abbrev pub over :
    {E : Type 0} → Option (Option SaltValue) → Res E (Option SaltValue) → Res E (Option SaltValue)
over none stored = stored
over (some v) stored = ok v

module _ {E : Type 0} (store : StateReader E) where
  -- The session reads `g` through its cache.
  pub record Sees (g : View E) (s : Ephemeral) : Type 0 where
    pub at : (k : SaltKey) → over (s.cache k) (store.value k) ≡ g k

  -- It reads `g`, and its updates are the change from the store to `g`.
  pub record Follows (g : View E) (s : Session) : Type 0 where
    pub sees : Sees g s.state
    pub tracks : Tracks store.value g s.out_updates
    pub sorted : Maps.IsSorted s.out_updates

  -- The updates are the change from the store to what the session reads.
  pub record IsTracked (s : Session) : Type 0 where
    pub seen : View E
    pub follows : Follows seen s

  pub set_cache-Sees :
      (g : View E) (s : Ephemeral) (k : SaltKey) (v : Option SaltValue)
      → Sees g s
      → Sees (put g k v) (set_cache k v s)
  set_cache-Sees g s k v h = record {
    at = λ q. elim (Bool-cases (k == q)) [
      | inl same ↦ rw (same) refl
      | inr other ↦ rw (other) (h.at q)
    ];
  }

  add_delta-Sees :
      (g : View E) (s : Ephemeral) (b d : ℕ) (c : Bool)
      → Sees g s
      → Sees g (if c then s else add_delta b d s)
  unfolding add_delta
  add_delta-Sees g s b d true h = h
  add_delta-Sees g s b d false h = record { at = h.at }

  -- A session that has just started has changed nothing.
  pub new-IsTracked :
      (s : Ephemeral)
      → ((k : SaltKey) → s.cache k ≡ none)
      → IsTracked (record { state = s; out_updates = [] })
  unfolding Maps.get
  new-IsTracked s fresh = record {
    seen = store.value;
    follows = record {
      sees = record { at = λ k. rw (fresh k) refl };
      tracks = record { at = λ k. refl };
      sorted = tt;
    };
  }

  module _ (g : View E) (k : SaltKey) (old new : Option SaltValue) (current : g k ≡ ok old)
      (R : Session → Type 0) where
    unchanged : (s : Session) → old ≡ new → Follows g s → Follows (put g k new) s
    unchanged s e h =
        let same : (q : SaltKey) → put g k new q ≡ g q = λ q. elim (Bool-cases (k == q)) [
          | inl at_k ↦ let e' : k ≡ q = (==_iff k q).0 at_k in rw (at_k, ← e', current, e) refl
          | inr other ↦ rw (other) refl
        ] in
        record {
          sees = record { at = λ q. h.sees.at q ∙ sym (same q) };
          tracks = record { at = λ q. rw (same q) (h.tracks.at q) };
          sorted = h.sorted;
        }

    write_change-Follows :
        Triple (Follows g) (write_change {E = E} k old new) (λ _. Follows (put g k new)) R
    unfolding write_change add unwrap_or_panic
    write_change-Follows = record {
      run = λ {s} h.
          let (u, added, tracks, sorts) =
            try_add-Tracks store.value g s.out_updates k old new h.tracks current in
          let delta = (present new + u64_mod - present old) % u64_mod in
          rw (write_change, add, added, unwrap_or_panic)
            (record {
              sees =
                  set_cache-Sees g _ k new
                    (add_delta-Sees g s.state (bucket_id k) delta (delta == 0) h.sees);
              tracks = tracks;
              sorted = sorts h.sorted;
            });
    }

    -- A change that starts from what the session reads is made; it never stops, whatever `R` is.
    pub update_value-Follows :
        Triple (Follows g) (update_value {E = E} k old new) (λ _. Follows (put g k new)) R
    unfolding update_value
    update_value-Follows = elim (Bool-cases (value_eq old new)) [
      | inl same ↦
          rw (same) (record { run = λ {s} h. unchanged s ((value_eq_iff old new).0 same) h })
      | inr differ ↦ rw (differ) write_change-Follows
    ]

  -- A read of `key` by a session that sees `g` gives what `g` has there, and leaves `g` seen.
  module _ (hash : Bytes → ℕ) (g : View E) (key : SaltKey) where
    pub keep-Sees :
        (s : Ephemeral) (v : Option SaltValue) (c : Bool)
        → Sees g s
        → g key ≡ ok v
        → Sees g (if c then set_cache key v s else s)
    keep-Sees s v false h e = h
    keep-Sees s v true h e = record {
      at = λ q. elim (Bool-cases (key == q)) [
        | inl same ↦ let e' : key ≡ q = (==_iff key q).0 same in rw (same, ← e', e) refl
        | inr other ↦ rw (other) (h.at q)
      ];
    }

    fetch-Sees :
        store.value key ≡ g key
        → Triple (Sees g) (fetch hash store key) (λ v s. Sees g s × (g key ≡ ok v)) (Sees g)
    unfolding fetch ◌>>=◌
    fetch-Sees e =
        let got : Option SaltValue → Ephemeral → Type 0 = λ v s. Sees g s × (g key ≡ ok v) in
        Triple-bind (lift (store.value key)) _
          (Triple-lift got (Sees g) (store.value key) (λ s v r h. (h, sym e ∙ r)) (λ s h. h))
          λ v. record { run = λ {s} h. (keep-Sees s v s.cache_read h.0 h.1, h.1) }

    value_entry-Sees :
        (o : Option (Option SaltValue)) (s : Ephemeral)
        → Sees g s
        → over o (store.value key) ≡ g key
        → Ends
            (λ v s'. Sees g s' × (g key ≡ ok v))
            (Sees g)
            (value_entry hash store key o s).0
            (value_entry hash store key o s).1
    unfolding value_entry
    value_entry-Sees none s h e = (fetch-Sees e).run h
    value_entry-Sees (some v) s h e = (h, sym e)

    pub value-Sees :
        Triple (Sees g) (value hash store key) (λ v s. Sees g s × (g key ≡ ok v)) (Sees g)
    unfolding value ◌>>=◌
    value-Sees = record { run = λ {s} h. value_entry-Sees (s.cache key) s h (h.at key) }
