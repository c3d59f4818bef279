-- ===== src/Trie/Scan.antt =====
-- The first steps of `update_bucket_subtrees` (salt/src/trie/trie.rs): which buckets change their
-- capacity, which have a subtree, and which leaf each changed key belongs to.
use salt_optimizations.Prelude.{
  ℕ, zero, suc, ◌+◌, ◌-◌, ◌*◌, ◌%◌, ◌^◌, Bool, true, false, Option, none, some, List, [], ◌∷◌, ◌++◌,
  ltb, leb, ◌==◌, ◌&&◌, ◌||◌, not, if◌then◌else◌,
}
use Prim.Native.Nat.{compare, Ordering}
use salt_optimizations.Prelude.Bytes.{Bytes}
use salt_optimizations.Prelude.Maps
use salt_optimizations.Prelude.Maps.{Map}
use salt_optimizations.Prelude.Result.{Res, ok, err, panic, out_of_fuel, and_then, or_panic}
use salt_optimizations.Constant.{
  u32_mod, u64_mod, min_bucket_size, max_subtree_levels, num_meta_buckets, trie_width,
  bucket_slot_bits,
}
use salt_optimizations.Types.SaltKey.{
  SaltKey, BucketId, bucket_id, slot_id, bucket_id_from_metadata_key, metadata_keys_end,
}
use salt_optimizations.Types.SaltValue.{SaltValue}
use salt_optimizations.Types.BucketMeta
use salt_optimizations.Types.BucketMeta.{BucketMeta}
use salt_optimizations.Types.NodeId.{NodeId}
use salt_optimizations.State.Updates.{Change, StateUpdates}
use salt_optimizations.State.Ephemeral.{expect}
use salt_optimizations.Store.TrieReader.{TrieReader}
use salt_optimizations.Trie.Committer.{Committer}
use salt_optimizations.Trie.Defaults.{default_commitment}
use salt_optimizations.Trie.NodeUtils.{get_parent_node, subtree_leaves_start}
use salt_optimizations.Trie.StateRoot.{StateRoot, commitment, div_ceil}
use salt_optimizations.Trie.Contraction.{SubtrieChangeInfo, change_info}

unfoldable pub insert_cache : NodeId → Bytes → StateRoot → StateRoot
insert_cache node bytes s = record s { cache = λ q. if node == q then some bytes else s.cache q }

-- `HashSet::contains` and `insert` on node or bucket ids.
unfoldable pub contains : ℕ → List ℕ → Bool
contains n [] = false
contains n (m ∷ l) = m == n || contains n l

-- The variables of the loop over the changed keys. The vectors are in order of insertion.
pub record Scan : Type 0 where
  pub root : StateRoot
  pub subtree_change_info : Map SubtrieChangeInfo
  pub need_handle_buckets : List BucketId
  pub last_bucket_id : BucketId
  pub is_expanded_bucket : Bool
  pub cur_bucket_cap : ℕ
  pub expansion_kvs : List (SaltKey × Change)
  pub non_expansion_kvs : List (SaltKey × Change)

-- The capacity of a metadata value: `expect` of the value, and of its decoding.
unfoldable pub capacity_of : {E : Type 0} → Option SaltValue → Res E ℕ
unfolding expect
capacity_of none = panic
capacity_of (some v) = and_then (expect (BucketMeta.from_value v)) (λ meta. ok meta.capacity)

-- Step 1.1: the changes of metadata, by the bucket they are about.
unfoldable pub metadata_changes : {E : Type 0} → StateUpdates → Res E (Map SubtrieChangeInfo)
unfolding capacity_of change_info
metadata_changes [] = ok []
metadata_changes ((key, change) ∷ updates) =
    let rest = metadata_changes updates in
    let recorded = and_then (or_panic (bucket_id_from_metadata_key key)) λ bucket.
      and_then (capacity_of change.0) λ old_capacity.
        and_then (capacity_of change.1) λ new_capacity.
          and_then (or_panic (change_info bucket old_capacity new_capacity))
            λ info. and_then rest λ later. ok (Maps.insert bucket info later) in
    if leb key metadata_keys_end then recorded else rest

-- Step 1.2.
unfoldable pub remember_capacities : Map SubtrieChangeInfo → StateRoot → StateRoot
remember_capacities [] s = s
remember_capacities ((bucket, change) ∷ changes) s = remember_capacities changes (record s {
  bucket_capacity_cache =
      λ q. if bucket == q then some change.new_capacity else s.bucket_capacity_cache q;
})

-- `is_err()`; a panic stays one.
unfoldable pub is_err : {E F A : Type 0} → Res E A → Res F Bool
is_err (ok a) = ok false
is_err (err e) = ok true
is_err panic = panic
is_err out_of_fuel = out_of_fuel

module _ {E : Type 0} (c : Committer) (trie : TrieReader E) (num_threads : ℕ)
    (get_subtree_levels : BucketId → Res E ℕ) where
  -- `self.commitment(node)`
  abbrev read : StateRoot → NodeId → Res E Bytes
  read s node = commitment c trie num_threads s node

  -- The walk up from a new leaf, while nothing is stored; a subtree has five levels.
  unfoldable pub walk_up :
      ℕ → NodeId → NodeId → StateRoot × List NodeId → Res E (StateRoot × List NodeId)
  unfolding is_err contains insert_cache
  walk_up zero top node (s, visited) = out_of_fuel
  walk_up (suc fuel) top node (s, visited) = elim (contains node visited) [
    | true ↦ ok (s, visited)
    | false ↦ and_then (is_err (read s node)) λ missing. elim missing [
      | false ↦ ok (s, visited)
      | true ↦ and_then (or_panic (default_commitment node)) λ bytes. elim (node == top) [
        | true ↦ ok (insert_cache node bytes s, node ∷ visited)
        | false ↦
            and_then (or_panic (get_parent_node node))
              λ parent. walk_up fuel top parent (insert_cache node bytes s, node ∷ visited)
      ]
    ]
  ]

  -- The segments from `segment` on, `left` of them.
  unfoldable pub new_segments :
      BucketId → NodeId → ℕ → ℕ → StateRoot × List NodeId → Res E StateRoot
  unfolding walk_up
  new_segments bucket top zero segment (s, visited) = ok s
  new_segments bucket top (suc left) segment (s, visited) =
      let leaf =
        (bucket * 2 ^ bucket_slot_bits % u64_mod + subtree_leaves_start + segment) % u64_mod in
      and_then (walk_up 9 top leaf (s, visited)) (new_segments bucket top left (suc segment))

  -- A bucket is handled if the key lies below what the levels of the smaller subtree hold.
  abbrev handle_below : ℕ → SaltKey → BucketId → List BucketId → List BucketId
  handle_below top_level key bucket need =
      if ltb (slot_id key) (min_bucket_size ^ (max_subtree_levels - top_level))
      then bucket ∷ need
      else need

  unfoldable pub by_capacity : Ordering → BucketId → SaltKey → SubtrieChangeInfo → Scan → Res E Scan
  unfolding new_segments
  by_capacity Ordering.gt bucket key change s =
      let old_segments = div_ceil change.old_capacity min_bucket_size in
      let new_count = div_ceil change.new_capacity min_bucket_size - old_segments in
      and_then (new_segments bucket change.new_top_id new_count old_segments (s.root, [])) λ root.
        ok (record s {
          root = root;
          need_handle_buckets = handle_below change.old_top_level key bucket s.need_handle_buckets;
        })
  by_capacity Ordering.lt bucket key change s = ok (record s {
    need_handle_buckets = handle_below change.new_top_level key bucket s.need_handle_buckets;
  })
  by_capacity Ordering.eq bucket key change s =
      let expanded = ltb min_bucket_size change.new_capacity in
      ok (record s {
        is_expanded_bucket = expanded;
        need_handle_buckets =
            if expanded then bucket ∷ s.need_handle_buckets else s.need_handle_buckets;
      })

  -- The old top of the subtree has the commitment of the bucket's root.
  unfoldable pub cache_old_top : SubtrieChangeInfo → Scan → Res E Scan
  unfolding insert_cache
  cache_old_top change s =
      and_then (read s.root change.root_id)
        λ bucket_root. ok (record s { root = insert_cache change.old_top_id bucket_root s.root })

  unfoldable pub known_capacity : BucketId → Option ℕ → Res E ℕ
  known_capacity bucket (some capacity) = ok capacity
  known_capacity bucket none =
      and_then (get_subtree_levels bucket) (λ level. ok (trie_width ^ level % u64_mod))

  -- The first key of a bucket.
  unfoldable pub enter_bucket : BucketId → SaltKey → Option SubtrieChangeInfo → Scan → Res E Scan
  unfolding cache_old_top by_capacity known_capacity
  enter_bucket bucket key (some change) s = and_then (cache_old_top change s) λ t.
      by_capacity (compare change.new_capacity change.old_capacity) bucket key change
        (record t { is_expanded_bucket = true; cur_bucket_cap = change.new_capacity })
  enter_bucket bucket key none s =
      and_then (known_capacity bucket (s.root.bucket_capacity_cache bucket)) λ capacity.
        let expanded = ltb min_bucket_size capacity in
        let t : Scan = record s { is_expanded_bucket = expanded; cur_bucket_cap = capacity } in
        let handled = and_then (or_panic (change_info bucket capacity capacity)) λ change.
          and_then (cache_old_top change t) λ u. ok (record u {
            need_handle_buckets = bucket ∷ u.need_handle_buckets;
            subtree_change_info = Maps.insert bucket change u.subtree_change_info;
          }) in
        if expanded then handled else ok t

  unfoldable pub push_kv : SaltKey × Change → Scan → Scan
  push_kv u s =
      if not s.is_expanded_bucket
      then record s { non_expansion_kvs = s.non_expansion_kvs ++ u ∷ [] }
      else if ltb (slot_id u.0) s.cur_bucket_cap
      then record s { expansion_kvs = s.expansion_kvs ++ u ∷ [] }
      else s

  -- Step 1.3.
  unfoldable pub scan_keys : StateUpdates → Scan → Res E Scan
  unfolding enter_bucket push_kv bucket_id
  scan_keys [] s = ok s
  scan_keys ((key, change) ∷ updates) s =
      let bucket = bucket_id key in
      let entered =
        enter_bucket bucket key (Maps.get bucket s.subtree_change_info)
          (record s { last_bucket_id = bucket }) in
      let is_new = not (s.last_bucket_id == bucket) && leb num_meta_buckets bucket in
      and_then (if is_new then entered else ok s) λ t. scan_keys updates (push_kv (key, change) t)

  -- Steps 1.1 to 1.3.
  unfoldable pub scan : StateUpdates → StateRoot → Res E Scan
  unfolding metadata_changes remember_capacities scan_keys
  scan updates s = and_then (metadata_changes updates) λ changes. scan_keys updates (record {
    root = remember_capacities changes s;
    subtree_change_info = changes;
    need_handle_buckets = [];
    last_bucket_id = u32_mod - 1;
    is_expanded_bucket = false;
    cur_bucket_cap = min_bucket_size;
    expansion_kvs = [];
    non_expansion_kvs = [];
  })
