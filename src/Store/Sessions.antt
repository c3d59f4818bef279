-- ===== src/Store/Sessions.antt =====
-- `MemStore` (salt/src/mem_store.rs) as the store of a session: its metadata and its values.
use salt_optimizations.Prelude.{
  ℕ, ◌≡◌, refl, sym, ◌∙◌, ap, arith, false, Option, some, inl, inr, Option-cases,
}
use salt_optimizations.Prelude.Bytes.{Bytes}
use salt_optimizations.Prelude.Maps
use salt_optimizations.Prelude.Result.{ok, ok-injective}
use salt_optimizations.Constant.{min_bucket_size}
use salt_optimizations.Types.BucketMeta
use salt_optimizations.Types.BucketMeta.{BucketMeta}
use salt_optimizations.Types.SaltKey.{SaltKey, BucketId, bucket_metadata_key}
use salt_optimizations.Types.SaltValue.{SaltValue}
use salt_optimizations.State.Tracking.Reads.{IsCoherent}
use salt_optimizations.Store.MemStore.{StateStore, value, metadata, meta_of, or_zero, reader}

-- Each stored metadata is what its metadata is written as, and no default is stored.
pub record IsCanonical (state : StateStore) : Type 0 where
  pub at :
      (b : BucketId) (k : SaltKey) (v : SaltValue)
      → bucket_metadata_key b ≡ some k
      → Maps.get k state.kvs ≡ some v
      → (meta : BucketMeta) × (BucketMeta.from_value v ≡ ok meta)
        × (BucketMeta.is_default meta ≡ false)
        × (BucketMeta.to_value meta ≡ some v)

module _ (hash : Bytes → ℕ) (state : StateStore) where
  abbrev used_of : BucketId → Option ℕ
  used_of b = some (or_zero (Maps.get b state.used_slots))

  -- The metadata that is read is the decoded one and the count.
  metadata-meta_of :
      (b : BucketId) (k : SaltKey) (m meta : BucketMeta)
      → bucket_metadata_key b ≡ some k
      → meta_of (Maps.get k state.kvs) ≡ ok m
      → metadata state b ≡ ok meta
      → record m { used = used_of b } ≡ meta
  unfolding metadata
  metadata-meta_of b k m meta key decoded read =
      let found : metadata state b ≡ ok (record m { used = used_of b }) = rw (key, decoded) refl in
      ok-injective (sym found ∙ read)

  -- The count is not written.
  to_value-used :
      (m : BucketMeta) (n : Option ℕ)
      → BucketMeta.to_value (record m { used = n }) ≡ BucketMeta.to_value m
  unfolding BucketMeta.to_value
  to_value-used m n = refl

  stored_differs :
      (m meta : BucketMeta) (n : Option ℕ)
      → BucketMeta.is_default m ≡ false
      → record m { used = n } ≡ meta
      → (meta.nonce ≡ 0) × (meta.capacity ≡ min_bucket_size)
      → ⊥
  unfolding BucketMeta.is_default
  stored_differs m meta n differs same plain =
      let nonce : m.nonce ≡ meta.nonce = ap (λ (x : BucketMeta). x.nonce) same in
      let capacity : m.capacity ≡ meta.capacity = ap (λ (x : BucketMeta). x.capacity) same in
      ground arith

  -- A store whose metadata is canonical is coherent.
  pub reader-IsCoherent : IsCanonical state → IsCoherent hash (reader state)
  unfolding value meta_of
  reader-IsCoherent canonical = record {
    at_default = λ b k meta key read nonce capacity. elim (Option-cases (Maps.get k state.kvs)) [
      | inl absent ↦ ap (λ (x : Option SaltValue). ok x) absent
      | inr (w, found) ↦
          let (m, decoded, differs, written) = canonical.at b k w key found in
          let same = metadata-meta_of b k m meta key (rw (found) decoded) read in
          absurd (stored_differs m meta (used_of b) differs same (nonce, capacity))
    ];
    at_other = λ b k meta v key read other written. elim (Option-cases (Maps.get k state.kvs)) [
      | inl absent ↦
          let same = metadata-meta_of b k BucketMeta.default meta key (rw (absent) refl) read in
          absurd (
            other (
              sym (ap (λ (x : BucketMeta). x.nonce) same),
              sym (ap (λ (x : BucketMeta). x.capacity) same),
            ))
      | inr (w, found) ↦
          let (m, decoded, differs, stored) = canonical.at b k w key found in
          let same = metadata-meta_of b k m meta key (rw (found) decoded) read in
          ap (λ (x : Option SaltValue). ok x)
            (found
              ∙ sym stored
              ∙ sym (to_value-used m (used_of b))
              ∙ ap (λ (x : BucketMeta). BucketMeta.to_value x) same
              ∙ written)
    ];
  }
