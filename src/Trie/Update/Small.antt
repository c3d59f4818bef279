-- ===== src/Trie/Update/Small.antt =====
-- `update_bucket_subtrees` of salt/src/trie/trie.rs where no bucket has a subtree and no capacity
-- changes: it updates the leaves of the main trie.
use mathlib.Core.List.{append-nil, append_assoc}
use salt_optimizations.Prelude.{
  ℕ, ◌-◌, ◌<◌, ◌≡◌, refl, sym, ap, ◌∙◌, false, [], ◌∷◌, ◌++◌, arith, inl, inr, Bool-cases, leb,
  ◌==◌, ◌&&◌, not,
}
use salt_optimizations.Prelude.Maps
use salt_optimizations.Prelude.Sort.{Each}
use salt_optimizations.Prelude.Result.{Res, ok}
use salt_optimizations.Constant.{min_bucket_size, num_meta_buckets, u32_mod}
use salt_optimizations.Types.SaltKey.{SaltKey, BucketId, bucket_id, metadata_keys_end}
use salt_optimizations.State.Updates.{Change, StateUpdates}
use salt_optimizations.Store.TrieReader.{TrieReader, TrieUpdates}
use salt_optimizations.Trie.Committer.{Committer}
use salt_optimizations.Trie.StateRoot.{StateRoot, update_leaf_nodes}
use salt_optimizations.Trie.Scan.{
  Scan, scan, scan_keys, metadata_changes, remember_capacities, enter_bucket, known_capacity,
  push_kv,
}
use salt_optimizations.Trie.Subtrees.{
  update_bucket_subtrees, leaf_in_main_trie, contract_all, set_triggers,
}

module _ {E : Type 0} (c : Committer) (trie : TrieReader E) (threads : ℕ)
    (levels : BucketId → Res E ℕ) (s : StateRoot) where
  -- A change of an entry, in a bucket of the smallest capacity.
  abbrev pub IsSmall : SaltKey × Change → Type 0
  IsSmall u =
      (metadata_keys_end < u.0)
      × (known_capacity c trie threads levels (bucket_id u.0)
            (s.bucket_capacity_cache (bucket_id u.0))
          ≡ ok min_bucket_size)

  metadata_changes-IsSmall :
      (us : StateUpdates) → Each IsSmall us → metadata_changes {E = E} us ≡ ok []
  unfolding metadata_changes
  metadata_changes-IsSmall [] h = refl
  metadata_changes-IsSmall ((key, change) ∷ us) h =
      let data_key : leb key metadata_keys_end ≡ false = ground arith in
      rw data_key (metadata_changes-IsSmall us h.1)

  abbrev scanned : BucketId → ℕ → StateUpdates → Scan
  scanned last cap kvs = record {
    root = s;
    subtree_change_info = [];
    need_handle_buckets = [];
    last_bucket_id = last;
    is_expanded_bucket = false;
    cur_bucket_cap = cap;
    expansion_kvs = [];
    non_expansion_kvs = kvs;
  }

  scan_keys-IsSmall :
      (us kvs : StateUpdates) (last : BucketId) (cap : ℕ)
      → Each IsSmall us
      → (last' : BucketId) × (cap' : ℕ) × (scan_keys c trie threads levels us (scanned last cap kvs)
          ≡ ok (scanned last' cap' (kvs ++ us)))
  unfolding scan_keys enter_bucket push_kv Maps.get
  scan_keys-IsSmall [] kvs last cap h =
      (last, cap, ap (λ l. ok (scanned last cap l)) (sym (append-nil kvs)))
  scan_keys-IsSmall ((key, change) ∷ us) kvs last cap h =
      let bucket = bucket_id key in
      let joined : (kvs ++ (key, change) ∷ []) ++ us ≡ kvs ++ ((key, change) ∷ us) =
        append_assoc kvs ((key, change) ∷ []) us in
      elim (Bool-cases (not (last == bucket) && leb num_meta_buckets bucket)) [
        | inl entered ↦
            let (last', cap', run) =
              scan_keys-IsSmall us (kvs ++ (key, change) ∷ []) bucket min_bucket_size h.1 in
            (last', cap', rw (entered, h.0.1) (run ∙ ap (λ l. ok (scanned last' cap' l)) joined))
        | inr same ↦
            let (last', cap', run) =
              scan_keys-IsSmall us (kvs ++ (key, change) ∷ []) last cap h.1 in
            (last', cap', rw same (run ∙ ap (λ l. ok (scanned last' cap' l)) joined))
      ]

  pub update_bucket_subtrees-IsSmall :
      (us : StateUpdates) (res : TrieUpdates)
      → Each IsSmall us
      → update_leaf_nodes c trie threads s us leaf_in_main_trie ≡ ok res
      → update_bucket_subtrees c trie threads levels us s ≡ ok (s, res)
  unfolding update_bucket_subtrees scan contract_all set_triggers remember_capacities
  update_bucket_subtrees-IsSmall us res h found =
      let (last, cap, run) = scan_keys-IsSmall us [] (u32_mod - 1) min_bucket_size h in
      rw (metadata_changes-IsSmall us h, run, found)
        (ap (λ l. ok (s, l))
          (append-nil ((res ++ []) ++ []) ∙ append-nil (res ++ []) ∙ append-nil res))
