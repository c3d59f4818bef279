-- ===== src/Proof/SaltWitness/Reads.antt =====
-- What a witness tells of the store that it was created from (salt/src/proof/salt_witness.rs).
use salt_optimizations.Prelude.{
  ℕ, zero, suc, ◌+◌, ◌≡◌, refl, sym, ap, ◌∙◌, Bool, true, false, Option, none, some, List, [], ◌∷◌,
  arith, inl, inr, Bool-cases, ==_iff, ◌==◌, ◌||◌, ◌&&◌, if◌then◌else◌,
}
use salt_optimizations.Prelude.Maps
use salt_optimizations.Prelude.Maps.{Map}
use salt_optimizations.Prelude.Result.{
  Res, ok, err, panic, out_of_fuel, ok-injective, and_then, and_then-result, or_panic,
}
use salt_optimizations.Types.Errors.{SaltError, not_in_witness}
use salt_optimizations.Types.SaltKey.{
  SaltKey, BucketId, salt_key, is_in_meta_bucket, is_valid_data_bucket, bucket_id_from_metadata_key,
}
use salt_optimizations.Types.SaltValue.{SaltValue}
use salt_optimizations.Types.BucketMeta
use salt_optimizations.Types.BucketMeta.{BucketMeta}
use salt_optimizations.Store.Traits.{StateReader}
use salt_optimizations.Store.TrieReader.{TrieReader}
use salt_optimizations.Trie.Committer.{Committer}
use salt_optimizations.Trie.StateRoot.{collect_results}
use salt_optimizations.Proof.Sets
use salt_optimizations.Proof.Errors.{map_err, state_read_error}
use salt_optimizations.Proof.Opening.{Opening}
use salt_optimizations.Proof.Subtrie.{collect_map}
use salt_optimizations.Proof.Prover
use salt_optimizations.Proof.Prover.{Kvs}
use salt_optimizations.Proof.SaltWitness.{
  SaltWitness, bucket_used_slots, metadata, count_if_some, count_slots, create, read_key,
  read_metadata, read_value, value, witnessed,
}

-- The key is in the list.
unfoldable pub listed : ℕ → List ℕ → Bool
listed k [] = false
listed k (j ∷ l) = (j == k) || listed k l

map_err-ok {ℓ} :
    {E F : Type 0} {A : Type ℓ} (error : F) (r : Res E A) (a : A)
    → map_err error r ≡ ok a
    → r ≡ ok a
map_err-ok error (ok b) a e = ap ok (ok-injective e)
map_err-ok error (err x) a e = cc
map_err-ok error panic a e = cc
map_err-ok error out_of_fuel a e = cc

abbrev Entry : Type 0
Entry = SaltKey × Option SaltValue

module _ {E : Type 0} (store : StateReader E) where
  branch :
      (k : SaltKey) (b : Bool)
      → is_in_meta_bucket k ≡ b
      → read_key store k ≡ (if b then read_metadata store k else read_value store k)
  unfolding read_key
  branch k b h = rw (h) refl

  read_metadata-key : (k : SaltKey) (e : Entry) → read_metadata store k ≡ ok e → e.0 ≡ k
  unfolding read_metadata
  read_metadata-key k e h =
      let (bucket, h0, h1) = and_then-result (or_panic (bucket_id_from_metadata_key k)) _ e h in
      let (meta, h2, h3) =
        and_then-result (map_err (state_read_error "Failed to read key") (store.metadata bucket)) _
          e h1 in
      let (v, h4, h5) = and_then-result (or_panic (BucketMeta.to_value meta)) _ e h3 in
      sym (ap (λ (x : Entry). x.0) (ok-injective h5))

  read_value-entry :
      (k : SaltKey) (e : Entry) → read_value store k ≡ ok e → (e.0 ≡ k) × (store.value k ≡ ok e.1)
  unfolding read_value
  read_value-entry k e h =
      let (v, h0, h1) =
        and_then-result (map_err (state_read_error "Failed to read key") (store.value k)) _ e h in
      let pair : (k, v) ≡ e = ok-injective h1 in
      (
        sym (ap (λ (x : Entry). x.0) pair),
        map_err-ok (state_read_error "Failed to read key") (store.value k) v h0
            ∙ ap (λ (x : Entry). ok x.1) pair,
      )

  -- A key is read under its own name.
  read_key-key : (k : SaltKey) (e : Entry) → read_key store k ≡ ok e → e.0 ≡ k
  read_key-key k e h = elim (Bool-cases (is_in_meta_bucket k)) [
    | inl meta ↦ read_metadata-key k e (sym (branch k true meta) ∙ h)
    | inr plain ↦ (read_value-entry k e (sym (branch k false plain) ∙ h)).0
  ]

  collect_map-unlisted :
      (k : SaltKey) (keys : List SaltKey) (read : List Entry)
      → collect_results (read_key store) keys ≡ ok read
      → listed k keys ≡ false
      → (acc : Map (Option SaltValue)) → Maps.get k (collect_map read acc) ≡ Maps.get k acc
  unfolding collect_results listed collect_map
  collect_map-unlisted k [] read h at acc =
      ap (λ l. Maps.get k (collect_map l acc)) (sym (ok-injective h))
  collect_map-unlisted k (j ∷ keys) read h at acc =
      let (e, first, h1) = and_then-result (read_key store j) _ read h in
      let (es, later, h2) = and_then-result (collect_results (read_key store) keys) _ read h1 in
      let key : e.0 ≡ j = read_key-key j e first in
      let other : (e.0 == k) ≡ false = ground (arith, key) in
      let away : listed k keys ≡ false = ground arith in
      ap (λ l. Maps.get k (collect_map l acc)) (sym (ok-injective h2))
      ∙ collect_map-unlisted k keys es later away (Maps.insert e.0 e.1 acc)
      ∙ Maps.get-insert e.0 k e.1 acc
      ∙ rw (other) refl

  -- Where keys could be read, each listed key is collected with what was read.
  collect_map-listed :
      (k : SaltKey) (keys : List SaltKey) (read : List Entry)
      → collect_results (read_key store) keys ≡ ok read
      → listed k keys ≡ true
      → (v : Option SaltValue) × (read_key store k ≡ ok (k, v))
        × ((acc : Map (Option SaltValue)) → Maps.get k (collect_map read acc) ≡ some v)
  unfolding collect_results listed collect_map
  collect_map-listed k [] read h at = cc
  collect_map-listed k (j ∷ keys) read h at =
      let (e, first, h1) = and_then-result (read_key store j) _ read h in
      let (es, later, h2) = and_then-result (collect_results (read_key store) keys) _ read h1 in
      let key : e.0 ≡ j = read_key-key j e first in
      let made : (acc : Map (Option SaltValue))
          → Maps.get k (collect_map read acc) ≡ Maps.get k (collect_map (e ∷ es) acc) =
        λ acc. ap (λ l. Maps.get k (collect_map l acc)) (sym (ok-injective h2)) in
      elim (Bool-cases (listed k keys)) [
        | inl again ↦
            let (v, found, all) = collect_map-listed k keys es later again in
            (v, found, λ acc. made acc ∙ all (Maps.insert e.0 e.1 acc))
        | inr away ↦
            let here : (j == k) ≡ true = ground arith in
            let same : j ≡ k = (==_iff j k).0 here in
            let at_k : (e.0 == k) ≡ true = (==_iff e.0 k).1 (key ∙ same) in
            (
              e.1,
              ap (read_key store) (sym same) ∙ first ∙ ap (λ n. ok (n, e.1)) (key ∙ same),
              λ acc.
                  made acc
                  ∙ collect_map-unlisted k keys es later away (Maps.insert e.0 e.1 acc)
                  ∙ Maps.get-insert e.0 k e.1 acc
                  ∙ rw (at_k) refl,
            )
      ]

  -- The answer of the store, where it gives one.
  abbrev pub answer : Res E (Option SaltValue) → Res SaltError (Option SaltValue)
  answer (ok v) = ok v
  answer _ = panic

  answer-witnessed :
      (r : Res E (Option SaltValue)) (v : Option SaltValue)
      → r ≡ ok v
      → answer r ≡ witnessed (some v)
  unfolding witnessed
  answer-witnessed r none e = rw (e) refl
  answer-witnessed r (some v) e = rw (e) refl

  module _ (c : Committer) (o : Opening c) where
    -- A witness created from a store answers for a key outside the metadata buckets as the store
    -- does if the key is one of those it was created for, and with the error of a key that is not in
    -- the witness if not, so that no key of the store appears as absent.
    pub value-create :
        (keys : List SaltKey) (trie : TrieReader E) (w : SaltWitness c o) (k : SaltKey)
        → create c o keys store trie ≡ ok w
        → is_in_meta_bucket k ≡ false
        → value c o w k
          ≡ (if listed k keys then answer (store.value k) else err (not_in_witness "Key"))
    unfolding create value
    value-create keys trie w k made plain =
        let (read, found, h1) = and_then-result (collect_results (read_key store) keys) _ w made in
        let kvs = collect_map read [] in
        let (proof, h2, h3) =
          and_then-result (Prover.create c o (Sets.keys kvs) store trie) _ w h1 in
        let same : kvs ≡ w.kvs = ap (λ (x : SaltWitness c o). x.kvs) (ok-injective h3) in
        elim (Bool-cases (listed k keys)) [
          | inl at ↦
              let (v, got, all) = collect_map-listed k keys read found at in
              let stored : store.value k ≡ ok v =
                (read_value-entry k (k, v) (sym (branch k false plain) ∙ got)).1 in
              rw (at) (
                ap (λ m. witnessed (Maps.get k m)) (sym same)
                ∙ ap witnessed (all [])
                ∙ sym (answer-witnessed (store.value k) v stored))
          | inr away ↦ rw (away) (
              ap (λ m. witnessed (Maps.get k m)) (sym same)
              ∙ ap witnessed (collect_map-unlisted k keys read found away [])
              ∙ absent k)
        ]
      where
        absent : (k : SaltKey) → witnessed (Maps.get k []) ≡ err (not_in_witness "Key")
        absent k = unfold witnessed in unfold Maps.get in refl

    answer-ok : (r : Res E (Option SaltValue)) (v : Option SaltValue) → answer r ≡ ok v → r ≡ ok v
    answer-ok (ok a) v e = ap ok (ok-injective e)
    answer-ok (err x) v e = cc
    answer-ok panic v e = cc
    answer-ok out_of_fuel v e = cc

    -- What the witness gives, the store has.
    pub value-known :
        (keys : List SaltKey) (trie : TrieReader E) (w : SaltWitness c o) (k : SaltKey)
        (v : Option SaltValue)
        → create c o keys store trie ≡ ok w
        → is_in_meta_bucket k ≡ false
        → value c o w k ≡ ok v
        → store.value k ≡ ok v
    value-known keys trie w k v made plain h =
        let all = value-create keys trie w k made plain in
        elim (Bool-cases (listed k keys)) [
          | inl at ↦ answer-ok (store.value k) v (
              sym (
                all ∙ ap (λ b. if b then answer (store.value k) else err (not_in_witness "Key")) at)
              ∙ h)
          | inr away ↦
              let e : err (not_in_witness "Key") ≡ ok v =
                sym (
                  all
                  ∙ ap (λ b. if b then answer (store.value k) else err (not_in_witness "Key")) away)
                ∙ h in
              cc
        ]

-- The slot is in the witness.
abbrev is_witnessed : Option (Option SaltValue) → Bool
is_witnessed none = false
is_witnessed (some v) = true

-- 1 for a slot with a value.
abbrev holds : Option (Option SaltValue) → ℕ
holds (some (some v)) = 1
holds _ = 0

-- Each slot below the end is in the witness.
unfoldable pub all_witnessed : Kvs → BucketId → ℕ → ℕ → Bool
all_witnessed kvs bucket zero slot = true
all_witnessed kvs bucket (suc left) slot =
    is_witnessed (Maps.get (salt_key bucket slot) kvs) && all_witnessed kvs bucket left (suc slot)

-- The number of slots with a value.
unfoldable pub occupied : Kvs → BucketId → ℕ → ℕ → ℕ
occupied kvs bucket zero slot = 0
occupied kvs bucket (suc left) slot =
    holds (Maps.get (salt_key bucket slot) kvs) + occupied kvs bucket left (suc slot)

-- What the loop ends with, by the final count.
abbrev counted : Bool → ℕ → Res SaltError ℕ
counted all n = if all then ok n else err (not_in_witness "Key")

recounted : (all : Bool) (m n : ℕ) → m ≡ n → counted all m ≡ counted all n
recounted all m n e = ap (counted all) e

count_slots_lem :
    (kvs : Kvs) (bucket : BucketId) (left slot used_count : ℕ)
    → count_slots kvs bucket left slot used_count ≡ (
        if all_witnessed kvs bucket left slot
        then ok (used_count + occupied kvs bucket left slot)
        else err (not_in_witness "Key"))
unfolding count_slots all_witnessed occupied
count_slots_lem kvs bucket zero slot used_count = ap ok (omega arith)
count_slots_lem kvs bucket (suc left) slot used_count =
    step (Maps.get (salt_key bucket slot) kvs) (λ n. count_slots_lem kvs bucket left (suc slot) n)
  where
    step :
        (o : Option (Option SaltValue))
        → ((n : ℕ)
            → count_slots kvs bucket left (suc slot) n ≡ (
                if all_witnessed kvs bucket left (suc slot)
                then ok (n + occupied kvs bucket left (suc slot))
                else err (not_in_witness "Key")))
        → and_then
            (witnessed o)
            (λ found. count_slots kvs bucket left (suc slot) (count_if_some found used_count))
          ≡ (if is_witnessed o && all_witnessed kvs bucket left (suc slot)
              then ok (used_count + (holds o + occupied kvs bucket left (suc slot)))
              else err (not_in_witness "Key"))
    step none ih = unfold witnessed in refl
    step (some none) ih =
        unfold witnessed in
        unfold count_if_some in
        (ih used_count ∙ recounted (all_witnessed kvs bucket left (suc slot)) _ _ (omega arith))
    step (some (some v)) ih =
        unfold witnessed in
        unfold count_if_some in
        (ih (suc used_count)
          ∙ recounted (all_witnessed kvs bucket left (suc slot)) _ _ (omega arith))

module _ (c : Committer) (o : Opening c) where
  -- For a data bucket with witnessed metadata, the count of used slots is the number of the slots
  -- below the capacity that hold a value if all those slots are witnessed, and an error if one is not.
  pub bucket_used_slots-occupied :
      (w : SaltWitness c o) (bucket : BucketId) (meta : BucketMeta)
      → is_valid_data_bucket bucket ≡ true
      → metadata c o w bucket ≡ ok meta
      → bucket_used_slots c o w bucket ≡ (
          if all_witnessed w.kvs bucket meta.capacity 0
          then ok (occupied w.kvs bucket meta.capacity 0)
          else err (not_in_witness "Key"))
  unfolding bucket_used_slots
  bucket_used_slots-occupied w bucket meta valid found =
      rw (valid, found)
        (count_slots_lem w.kvs bucket meta.capacity 0 0
          ∙ recounted (all_witnessed w.kvs bucket meta.capacity 0) _ _ (omega arith))
