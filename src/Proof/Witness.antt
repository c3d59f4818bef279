-- ===== src/Proof/Witness.antt =====
-- salt/src/proof/witness.rs: a witness for plain keys, which has a table from the plain keys that
-- exist to their salt keys beside a `SaltWitness`.
pub mod Lookups
pub mod Creation
use salt_optimizations.Prelude.{
  ℕ, ◌+◌, Bool, true, false, Option, none, some, List, [], ◌∷◌, ◌++◌, map, ltb, ◌==◌, if◌then◌else◌,
}
use salt_optimizations.Prelude.Bytes.{Bytes, bytes_eq}
use salt_optimizations.Prelude.Maps
use salt_optimizations.Prelude.Maps.{Map}
use salt_optimizations.Prelude.Result.{
  Res, ok, err, panic, out_of_fuel, and_then, or_panic, Exec, pure, lift, ◌>>=◌,
}
use salt_optimizations.Types.Errors.{SaltError, not_in_witness}
use salt_optimizations.Types.SaltKey.{SaltKey, is_in_meta_bucket}
use salt_optimizations.Types.SaltValue
use salt_optimizations.Types.SaltValue.{SaltValue}
use salt_optimizations.Store.Traits.{StateReader}
use salt_optimizations.Store.TrieReader.{TrieReader}
use salt_optimizations.State.Ephemeral
use salt_optimizations.State.Ephemeral.{Ephemeral, attempt, direct_find}
use salt_optimizations.Trie.Committer.{Committer}
use salt_optimizations.Proof.Errors.{ProofError, invalid_lookup_table}
use salt_optimizations.Proof.Opening.{Opening}
use salt_optimizations.Proof.Prover.{Kvs}
use salt_optimizations.Proof.SaltWitness
use salt_optimizations.Proof.SaltWitness.{SaltWitness}

-- The hash map from plain keys to salt keys, the last insertion first.
abbrev pub Table : Type 0
Table = List (Bytes × SaltKey)

unfoldable pub lookup : Bytes → Table → Option SaltKey
lookup plain_key [] = none
lookup plain_key ((k, key) ∷ table) =
    if bytes_eq k plain_key then some key else lookup plain_key table

unfoldable pub remove : Bytes → Table → Table
remove plain_key [] = []
remove plain_key ((k, key) ∷ table) =
    let rest = remove plain_key table in if bytes_eq k plain_key then rest else (k, key) ∷ rest

-- `HashMap::insert`
unfoldable pub insert : Bytes → SaltKey → Table → Table
unfolding remove
insert plain_key key table = (plain_key, key) ∷ remove plain_key table

-- The entry of a slot, if it holds a key; metadata is passed over.
unfoldable pub table_entry : SaltKey → Option SaltValue → Table → Option Table
unfolding insert
table_entry key none table = some table
table_entry key (some salt_value) table = elim (SaltValue.key salt_value) [
  | none ↦ none
  | some plain_key ↦ some (insert plain_key key table)
]

-- The loop of `from` over the witnessed values; `none` is a panic on a malformed value.
unfoldable pub extract_table : Kvs → Table → Option Table
unfolding table_entry is_in_meta_bucket
extract_table [] table = some table
extract_table ((key, value) ∷ kvs) table =
    elim (if is_in_meta_bucket key then some table else table_entry key value table) [
      | none ↦ none
      | some next ↦ extract_table kvs next
    ]

unfoldable pub looked_up : Option SaltKey → Res SaltError SaltKey
looked_up none = err (not_in_witness "Plain key")
looked_up (some key) = ok key

-- `direct_find(…).ok().flatten().map(|(k, _)| k)`
unfoldable pub found_key : Option (Option (SaltKey × SaltValue)) → Option SaltKey
found_key (some (some (key, salt_val))) = some key
found_key _ = none

unfoldable pub compare_keys : SaltKey → Option SaltKey → Res ProofError (Unit {0})
compare_keys expected none = err (invalid_lookup_table "Key claimed to exist but not found")
compare_keys expected (some k) =
    if k == expected then ok tt else err (invalid_lookup_table "Key found in wrong location")

-- An outcome after the errors of the lookup have been dropped.
unfoldable pub in_proof :
    Res SaltError (Option (Option (SaltKey × SaltValue))) → Res ProofError (Option SaltKey)
unfolding found_key
in_proof (ok found) = ok (found_key found)
in_proof (err e) = ok none
in_proof panic = panic
in_proof out_of_fuel = out_of_fuel

module _ (hash : Bytes → ℕ) (c : Committer) (o : Opening c) where
  pub record Witness : Type 0 where
    pub direct_lookup_tbl : Table
    pub salt_witness : SaltWitness c o

  -- `Witness::from`
  unfoldable pub from : SaltWitness c o → Option Witness
  unfolding extract_table
  from salt_witness = elim (extract_table salt_witness.kvs []) [
    | none ↦ none
    | some table ↦ some (record { direct_lookup_tbl = table; salt_witness = salt_witness })
  ]

  unfoldable pub plain_value_fast : Witness → Bytes → Res SaltError SaltKey
  unfolding lookup looked_up
  plain_value_fast w plain_key = looked_up (lookup plain_key w.direct_lookup_tbl)

  -- `impl StateReader for Witness`
  abbrev pub reader : Witness → StateReader SaltError
  reader w = record {
    value = SaltWitness.value c o w.salt_witness;
    entries = (SaltWitness.reader c o w.salt_witness).entries;
    metadata = SaltWitness.metadata c o w.salt_witness;
    bucket_used_slots = SaltWitness.bucket_used_slots c o w.salt_witness;
    plain_value_fast = plain_value_fast w;
  }

  -- `impl TrieReader for Witness`
  abbrev pub trie_reader : Witness → TrieReader SaltError
  trie_reader w = SaltWitness.trie_reader c o w.salt_witness

  unfoldable pub state_root : Witness → Res ProofError Bytes
  unfolding SaltWitness.state_root
  state_root w = SaltWitness.state_root c o w.salt_witness

  -- The loop over the table, with one state for all lookups.
  unfoldable pub verify_table :
      StateReader SaltError → Table → Ephemeral → Res ProofError (Unit {0})
  unfolding direct_find in_proof compare_keys ◌>>=◌
  verify_table store [] s = ok tt
  verify_table store ((plain_key, expected) ∷ table) s =
      let (found, s') = attempt (direct_find hash store plain_key) s in
      and_then (in_proof found)
        λ key. and_then (compare_keys expected key) λ same. verify_table store table s'

  unfoldable pub verify : Witness → Res ProofError (Unit {0})
  unfolding SaltWitness.verify_proof verify_table
  verify w =
      and_then (SaltWitness.verify_proof c o w.salt_witness)
        λ proved. verify_table (reader w) w.direct_lookup_tbl Ephemeral.new
