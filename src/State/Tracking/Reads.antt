-- ===== src/State/Tracking/Reads.antt =====
-- `metadata` and `usage_count` of salt/src/state/state.rs and what the session reads.
use salt_optimizations.Prelude.{
  ℕ, ◌≡◌, refl, sym, ◌∙◌, Bool, true, false, Option, none, some, arith, inl, inr, Bool-cases,
  Option-cases, if◌then◌else◌,
}
use salt_optimizations.Prelude.Bytes.{Bytes}
use salt_optimizations.Prelude.Result.{
  ok, lift, gets, modify, ◌>>◌, pure, or_panic, or_panic-some, Ends, Triple, Triple-bind,
  Triple-lift, Triple-gets, ◌>>=◌,
}
use salt_optimizations.Constant.{min_bucket_size}
use salt_optimizations.Types.BucketMeta
use salt_optimizations.Types.BucketMeta.{BucketMeta}
use salt_optimizations.Types.SaltKey.{SaltKey, BucketId, bucket_metadata_key}
use salt_optimizations.Types.SaltValue.{SaltValue}
use salt_optimizations.State.Updates.Chain.{View}
use salt_optimizations.State.Ephemeral.{
  Ephemeral, metadata, metadata_entry, usage_count, cached_meta, set_cache,
}
use salt_optimizations.State.Tracking.{over, Sees, keep-Sees}
use salt_optimizations.Store.Traits.{StateReader}

module _ {E : Type 0} (hash : Bytes → ℕ) (store : StateReader E) where
  -- The metadata that the store reads for a bucket is the one in the value at its metadata key: with
  -- nonce 0 and the smallest capacity there is no value, and else it is the metadata's.
  pub record IsCoherent : Type 0 where
    pub at_default :
        (b : BucketId) (k : SaltKey) (meta : BucketMeta)
        → bucket_metadata_key b ≡ some k
        → store.metadata b ≡ ok meta
        → meta.nonce ≡ 0
        → meta.capacity ≡ min_bucket_size
        → store.value k ≡ ok none
    pub at_other :
        (b : BucketId) (k : SaltKey) (meta : BucketMeta) (v : SaltValue)
        → bucket_metadata_key b ≡ some k
        → store.metadata b ≡ ok meta
        → ((meta.nonce ≡ 0) × (meta.capacity ≡ min_bucket_size) → ⊥)
        → BucketMeta.to_value meta ≡ some v
        → store.value k ≡ ok (some v)

  -- What is cached for metadata is what the store has at the metadata key.
  cached_meta-value :
      IsCoherent
      → (b : BucketId) (k : SaltKey) (meta : BucketMeta) (v : Option SaltValue)
      → bucket_metadata_key b ≡ some k
      → store.metadata b ≡ ok meta
      → cached_meta hash store meta ≡ ok v
      → store.value k ≡ ok v
  unfolding cached_meta BucketMeta.is_default
  cached_meta-value coherent b k meta v key read cached =
      elim (Bool-cases (BucketMeta.is_default meta)) [
        | inl plain ↦
            coherent.at_default b k meta key read (ground arith) (ground arith) ∙ rw plain at cached
        | inr other ↦ elim (Option-cases (BucketMeta.to_value meta)) [
          | inl none_written ↦ absurd (cc (rw (other, none_written) at cached))
          | inr (w, written) ↦
              coherent.at_other b k meta w key read (λ same. ground arith) written
              ∙ rw (other, written) at cached
        ]
      ]

  module _ (g : View E) where
    usage_count-Sees :
        (b : BucketId)
        → Triple (Sees store g) (usage_count hash store b) (λ n. Sees store g) (Sees store g)
    unfolding usage_count
    usage_count-Sees b =
        let kept : ℕ → Ephemeral → Type 0 = λ n. Sees store g in
        Triple-bind (lift (store.bucket_used_slots b)) _
          (Triple-lift kept (Sees store g) (store.bucket_used_slots b) (λ s n r h. h) (λ s h. h))
          λ n.
            Triple-bind (gets _) _ (Triple-gets kept (Sees store g) _ (λ s h. h))
              λ d. Triple-lift kept (Sees store g) _ (λ s n r h. h) (λ s h. h)

    counted-Sees :
        (b : BucketId) (m : BucketMeta) (need_used : Bool)
        → Triple
            (Sees store g)
            (if need_used
              then (do count ← usage_count hash store b; pure (record m { used = some count }))
              else pure (record m { used = none }))
            (λ r. Sees store g)
            (Sees store g)
    counted-Sees b m true =
        Triple-bind (usage_count hash store b) _ (usage_count-Sees b) λ n. record { run = λ h. h }
    counted-Sees b m false = record { run = λ h. h }

    module _ (coherent : IsCoherent) (b : BucketId) (key : SaltKey)
        (at_b : bucket_metadata_key b ≡ some key) where
      cached-Sees :
          (meta : BucketMeta)
          → store.metadata b ≡ ok meta
          → store.value key ≡ g key
          → (c : Bool)
          → Triple
              (Sees store g)
              (if c
                then (do
                  v ← lift (cached_meta hash store meta)
                  modify (set_cache key v)
                  pure meta)
                else pure meta)
              (λ m. Sees store g)
              (Sees store g)
      unfolding ◌>>=◌
      cached-Sees meta m e false = record { run = λ h. h }
      cached-Sees meta m e true =
          let got : Option SaltValue → Ephemeral → Type 0 =
            λ v s. Sees store g s × (g key ≡ ok v) in
          Triple-bind (lift (cached_meta hash store meta)) _
            (Triple-lift got (Sees store g) (cached_meta hash store meta)
              (λ s v r h. (h, sym e ∙ cached_meta-value coherent b key meta v at_b m r)) (λ s h. h))
            λ v. record { run = λ {s} h. keep-Sees store hash g key s v true h.0 h.1 }

      metadata_entry-Sees :
          (o : Option (Option SaltValue)) (s : Ephemeral)
          → Sees store g s
          → over o (store.value key) ≡ g key
          → Ends
              (λ meta. Sees store g)
              (Sees store g)
              (metadata_entry hash store b key o s).0
              (metadata_entry hash store b key o s).1
      unfolding metadata_entry
      metadata_entry-Sees (some (some v)) s h e =
          (Triple-lift (λ (meta : BucketMeta). Sees store g) (Sees store g) _ (λ s m r h. h)
              (λ s h. h)).run
            h
      metadata_entry-Sees (some none) s h e = h
      metadata_entry-Sees none s h e =
          let got : BucketMeta → Ephemeral → Type 0 =
            λ m s. Sees store g s × (store.metadata b ≡ ok m) in
          (Triple-bind (lift (store.metadata b)) _
              (Triple-lift got (Sees store g) (store.metadata b) (λ s m r h. (h, r)) (λ s h. h))
              λ m.
                Triple-bind (gets _) _
                  (Triple-gets (λ (c : Bool). got m) (Sees store g) _ (λ s h. h))
                  λ c. record { run = λ h. (cached-Sees m h.1 e c).run h.0 }).run
            h

    -- A read of metadata leaves what the session sees.
    pub metadata-Sees :
        IsCoherent
        → (b : BucketId) (need_used : Bool)
        → Triple (Sees store g) (metadata hash store b need_used) (λ m. Sees store g) (Sees store g)
    unfolding metadata
    metadata-Sees coherent b need_used =
        let found : SaltKey → Option (Option SaltValue) → Ephemeral → Type 0 =
          λ k o s. Sees store g s × (bucket_metadata_key b ≡ some k) × (s.cache k ≡ o) in
        let keyed : SaltKey → Ephemeral → Type 0 =
          λ k s. Sees store g s × (bucket_metadata_key b ≡ some k) in
        Triple-bind (lift (or_panic (bucket_metadata_key b))) _
          (Triple-lift keyed (Sees store g) _ (λ s k r h. (h, or_panic-some _ k r)) (λ s h. h))
          λ k.
            Triple-bind (gets _) _
              (Triple-gets (found k) (Sees store g) _ (λ s h. (h.0, h.1, refl)))
              λ o.
                Triple-bind (metadata_entry hash store b k o) _
                  (record {
                    run = λ {s} h.
                        metadata_entry-Sees coherent b k h.1 o s h.0 (rw (← h.2) (h.0.at k));
                  })
                  λ m. counted-Sees b m need_used
