-- ===== src/Proof/Witness/Creation.antt =====
-- `Witness::create` of salt/src/proof/witness.rs: the slots that the look-ups and the updates of a block
-- need, and a witness for them. `into_keys`, the keys of a hash map, is a parameter.
use salt_optimizations.Prelude.{
  ℕ, Bool, true, Option, none, some, List, [], ◌∷◌, ◌++◌, leb, ltb, if◌then◌else◌,
}
use salt_optimizations.Prelude.Bytes.{Bytes}
use salt_optimizations.Prelude.Maps
use salt_optimizations.Prelude.Maps.{Map}
use salt_optimizations.Prelude.Result.{Res, ok, err, panic, out_of_fuel, and_then, or_panic}
use salt_optimizations.Types.SaltKey.{
  SaltKey, BucketId, SlotId, bucket_id, bucket_id_from_metadata_key, bucket_metadata_key,
  metadata_keys_end, salt_key, slot_id,
}
use salt_optimizations.Types.SaltValue.{SaltValue}
use salt_optimizations.Types.BucketMeta
use salt_optimizations.Store.Traits.{StateReader}
use salt_optimizations.Store.TrieReader.{TrieReader}
use salt_optimizations.State.Updates.{StateUpdates}
use salt_optimizations.State.Probe.{bucket_of}
use salt_optimizations.State.Ephemeral
use salt_optimizations.State.Ephemeral.{Ephemeral, plain_value, shi_find, with_cache_read}
use salt_optimizations.State.Batch
use salt_optimizations.Trie.Committer.{Committer}
use salt_optimizations.Trie.StateRoot.{collect_results}
use salt_optimizations.Proof.Errors.{ProofError, map_err, state_read_error}
use salt_optimizations.Proof.Opening.{Opening}
use salt_optimizations.Proof.SaltWitness
use salt_optimizations.Proof.Witness.{Table, Witness, insert}

-- What the closure of `create` has gathered: the two states, the keys and the table.
pub record Gathered : Type 0 where
  pub state : Ephemeral
  pub recorder : Ephemeral
  pub witnessed_keys : List SaltKey
  pub direct_lookup_tbl : Table

-- An existing key: its place goes into the table and among the keys.
unfoldable pub found_at : Bytes → BucketId → SlotId → Gathered → Gathered
unfolding insert salt_key
found_at plain_key bucket slot g = record g {
  witnessed_keys = g.witnessed_keys ++ (salt_key bucket slot ∷ []);
  direct_lookup_tbl = insert plain_key (salt_key bucket slot) g.direct_lookup_tbl;
}

-- The capacity in the old value of a change of metadata, if it decodes.
unfoldable pub decoded_capacity : Option SaltValue → Res ProofError (Option ℕ)
decoded_capacity none = ok none
decoded_capacity (some v) = elim (BucketMeta.from_value v) [
  | ok meta ↦ ok (some meta.capacity)
  | err e ↦ ok none
  | panic ↦ panic
  | out_of_fuel ↦ out_of_fuel
]

unfoldable pub record_capacity : SaltKey → Option ℕ → Map ℕ → Res ProofError (Map ℕ)
unfolding bucket_id_from_metadata_key
record_capacity key none later = ok later
record_capacity key (some capacity) later =
    and_then (or_panic (bucket_id_from_metadata_key key))
      λ bucket. ok (Maps.insert bucket capacity later)

-- `old_capacities`, by bucket.
unfoldable pub old_capacities : StateUpdates → Res ProofError (Map ℕ)
unfolding decoded_capacity record_capacity
old_capacities [] = ok []
old_capacities ((key, change) ∷ updates) =
    let rest = old_capacities updates in
    if leb key metadata_keys_end
    then and_then rest (λ later.
      and_then (decoded_capacity change.0) (λ capacity. record_capacity key capacity later))
    else rest

-- `old_capacities.get(&key.bucket_id()).is_none_or(|&old_cap| key.slot_id() < old_cap)`
unfoldable pub below_capacity : Option ℕ → SaltKey → Bool
unfolding slot_id
below_capacity none key = true
below_capacity (some old_cap) key = ltb (slot_id key) old_cap

unfoldable pub keep_below : Map ℕ → List SaltKey → List SaltKey
unfolding below_capacity bucket_id
keep_below capacities [] = []
keep_below capacities (key ∷ keys) =
    let rest = keep_below capacities keys in
    if below_capacity (Maps.get (bucket_id key) capacities) key then key ∷ rest else rest

module _ {E : Type 0} (hash : Bytes → ℕ) (store : StateReader E) where
  -- The search of both loops, over the first state.
  unfoldable pub search : Bytes → Gathered → Res E (Option (SlotId × SaltValue)) × Ephemeral
  unfolding shi_find bucket_of
  search plain_key g = elim (store.metadata (bucket_of hash plain_key)) [
    | ok meta ↦
        shi_find hash store (bucket_of hash plain_key) meta.nonce meta.capacity plain_key g.state
    | err e ↦ (err e, g.state)
    | panic ↦ (panic, g.state)
    | out_of_fuel ↦ (out_of_fuel, g.state)
  ]

  -- A key that does not exist is looked up once more by the recorder.
  unfoldable pub look_up_found : Bytes → Option (SlotId × SaltValue) → Gathered → Res E Gathered
  unfolding found_at plain_value bucket_of
  look_up_found plain_key (some (slot, salt_val)) g =
      ok (found_at plain_key (bucket_of hash plain_key) slot g)
  look_up_found plain_key none g =
      let (r, recorder) = plain_value hash store plain_key g.recorder in
      and_then r λ v. ok (record g { recorder = recorder })

  unfoldable pub look_up_all : List Bytes → Gathered → Res E Gathered
  unfolding search look_up_found
  look_up_all [] g = ok g
  look_up_all (plain_key ∷ lookups) g =
      let (r, state) = search plain_key g in
      and_then r λ found.
        and_then (look_up_found plain_key found (record g { state = state })) (look_up_all lookups)

  -- An update of an existing key is witnessed as a look-up is, the others are kept; an error drops
  -- the entry.
  unfoldable pub sort_out :
      Bytes × Option Bytes
      → Res E (Option (SlotId × SaltValue))
      → Gathered
      → Res E (List (Bytes × Option Bytes) × Gathered)
  unfolding found_at bucket_of
  sort_out (plain_key, some new) (ok (some (slot, salt_val))) g =
      ok ([], found_at plain_key (bucket_of hash plain_key) slot g)
  sort_out entry (ok found) g = ok (entry ∷ [], g)
  sort_out entry (err e) g = ok ([], g)
  sort_out entry panic g = panic
  sort_out entry out_of_fuel g = out_of_fuel

  unfoldable pub inserts_or_deletes :
      List (Bytes × Option Bytes) → Gathered → Res E (List (Bytes × Option Bytes) × Gathered)
  unfolding search sort_out
  inserts_or_deletes [] g = ok ([], g)
  inserts_or_deletes ((plain_key, new_value) ∷ updates) g =
      let (r, state) = search plain_key g in
      and_then (sort_out (plain_key, new_value) r (record g { state = state })) λ here.
        and_then (inserts_or_deletes updates here.1) λ later. ok (here.0 ++ later.0, later.1)

  -- The closure: the gathered keys and table, and the updates that the recorder returns.
  unfoldable pub gather :
      List Bytes → List (Bytes × Option Bytes) → Gathered → Res E (Gathered × StateUpdates)
  unfolding look_up_all inserts_or_deletes Batch.update
  gather lookups updates g = and_then (look_up_all lookups g) λ looked.
      and_then (inserts_or_deletes updates looked) λ sorted.
        let (r, recorder) = Batch.update hash store sorted.0 sorted.1.recorder in
        and_then r λ state_updates. ok (record sorted.1 { recorder = recorder }, state_updates)

module _ {E : Type 0} (hash : Bytes → ℕ) (c : Committer) (o : Opening c)
    (into_keys : (SaltKey → Option (Option SaltValue)) → List SaltKey) where
  unfoldable pub create :
      List BucketId
      → List Bytes
      → List (Bytes × Option Bytes)
      → StateReader E
      → TrieReader E
      → Res ProofError (Witness hash c o)
  unfolding collect_results bucket_metadata_key with_cache_read gather old_capacities keep_below
      SaltWitness.create
  create bucket_ids lookups updates store trie =
      and_then (collect_results (λ bucket. or_panic (bucket_metadata_key bucket)) bucket_ids)
        λ metadata_keys.
          and_then
            (map_err (state_read_error "Failed to gather") (
              gather hash store lookups updates (record {
                state = Ephemeral.new;
                recorder = with_cache_read Ephemeral.new;
                witnessed_keys = metadata_keys;
                direct_lookup_tbl = [];
              })))
            λ gathered. and_then (old_capacities gathered.1) λ capacities.
              let keys =
                gathered.0.witnessed_keys
                ++ keep_below capacities (into_keys gathered.0.recorder.cache) in
              and_then (SaltWitness.create c o keys store trie) λ salt_witness. ok (record {
                direct_lookup_tbl = gathered.0.direct_lookup_tbl;
                salt_witness = salt_witness;
              })
