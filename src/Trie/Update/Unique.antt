-- ===== src/Trie/Update/Unique.antt =====
-- The state root of `update_fin` (salt/src/trie/trie.rs) as a function of the values.
use salt_optimizations.Prelude.{ℕ, suc, ◌≤◌, ◌≡◌, sym, ap, ◌∙◌, Option, arith}
use salt_optimizations.Prelude.Bytes.{Bytes}
use salt_optimizations.Prelude.Sort.{Each}
use salt_optimizations.Prelude.Result.{Res, ok}
use salt_optimizations.Types.SaltKey.{SaltKey, BucketId}
use salt_optimizations.Types.SaltValue.{SaltValue}
use salt_optimizations.Types.NodeId.{NodeId}
use salt_optimizations.State.Updates.{StateUpdates}
use salt_optimizations.Store.TrieReader.{TrieReader, TrieUpdates}
use salt_optimizations.Trie.Committer.{Committer, IsLawful, root_hash}
use salt_optimizations.Trie.StateRoot.{StateRoot}
use salt_optimizations.Trie.StateRoot.Positions.{Chained, after}
use salt_optimizations.Trie.StateRoot.Vector.{commit_to_congr}
use salt_optimizations.Trie.StateRoot.Slots.{IsMainLeaf, slot_at}
use salt_optimizations.Trie.StateRoot.Level.{child}
use salt_optimizations.Trie.Update.{update_fin}
use salt_optimizations.Trie.Update.MainLevels.{OnLevel, child-OnLevel}
use salt_optimizations.Trie.Update.Small.{IsSmall}
use salt_optimizations.Trie.Update.Committed.{IsHashed, LeavesCommit, IsCommitted}
use salt_optimizations.Trie.Update.Climb.{CommitsAbove}
use salt_optimizations.Trie.Update.Whole.{IsStart, update_fin-IsWhole}

-- `Element::hash_commitments` of banderwagon/src/element.rs hashes the elements of the commitments.
abbrev pub HashesElements : Committer → Type 0
HashesElements c = (b : Bytes) → c.hash_commitment b ≡ c.map_to_scalar_field (c.from_bytes b)

module _ (c : Committer) (hashes : HashesElements c) where
  abbrev SameLevel : ℕ → (NodeId → Bytes) → (NodeId → Bytes) → Type 0
  SameLevel n view view' =
      (p : NodeId) → OnLevel n p → c.from_bytes (view p) ≡ c.from_bytes (view' p)

  -- The elements of a level are those of the level below.
  level_up :
      (n : ℕ) (view view' : NodeId → Bytes)
      → n ≤ 2
      → CommitsAbove c 3 view
      → CommitsAbove c 3 view'
      → SameLevel (suc n) view view'
      → SameLevel n view view'
  level_up n view view' h commits commits' same p level =
      commits n p (omega arith) level
      ∙ commit_to_congr c (λ i. c.hash_commitment (view (child p i)))
          (λ i. c.hash_commitment (view' (child p i))) 255
          (λ i le.
            hashes (view (child p i))
            ∙ ap c.map_to_scalar_field
                (same (child p i) (child-OnLevel n p i h level (omega arith)))
            ∙ sym (hashes (view' (child p i))))
      ∙ sym (commits' n p (omega arith) level)

  root_agrees :
      (view view' : NodeId → Bytes)
      → CommitsAbove c 3 view
      → CommitsAbove c 3 view'
      → SameLevel 3 view view'
      → root_hash c (view 0) ≡ root_hash c (view' 0)
  unfolding root_hash
  root_agrees view view' commits commits' leaves =
      let up : (n : ℕ) → n ≤ 2 → SameLevel (suc n) view view' → SameLevel n view view' =
        λ n h same. level_up n view view' h commits commits' same in
      let top =
        up 0 (omega arith) (up 1 (omega arith) (up 2 (omega arith) leaves)) 0
          (omega arith, omega arith) in
      ap (λ x. c.scalar_bytes (c.map_to_scalar_field x)) top

module _ {E : Type 0} (c : Committer) (trie : TrieReader E) (threads : ℕ)
    (levels : BucketId → Res E ℕ) (hash : Option SaltValue → c.Scalar) where
  -- A session that follows the values, and a batch that changes them to others, in buckets of the
  -- smallest capacity.
  pub record IsReady (s : StateRoot) (us : StateUpdates) (final : SaltKey → Option SaltValue)
      : Type 0 where
    pub values : SaltKey → Option SaltValue
    pub old : NodeId → Bytes
    pub now : NodeId → Bytes
    pub committed : IsCommitted c trie threads levels hash old s values now
    pub start : IsStart c trie threads levels hash s.deferred_levels old
    pub small : Each (IsSmall c trie threads levels s) us
    pub hashed : Each (IsHashed c trie threads levels hash) us
    pub chained : Chained values us
    pub final_lem : (key : SaltKey) → after values us key ≡ final key

  -- The trie of a session after the batch.
  final_lem :
      (s : StateRoot) (us : StateUpdates) (final : SaltKey → Option SaltValue)
      → IsLawful c
      → IsReady s us final
      → (view : NodeId → Bytes) × (all : TrieUpdates) × (s' : StateRoot) × (update_fin c trie
            threads levels us s
          ≡ ok ((root_hash c (view 0), all), s'))
        × CommitsAbove c 3 view
        × LeavesCommit c trie threads levels hash final view
  final_lem s us final lawful ready =
      let (all, s', run, whole) =
        update_fin-IsWhole c trie threads levels hash s ready.values ready.old ready.now us lawful
          ready.committed ready.start ready.small ready.hashed ready.chained in
      (
        after ready.old all,
        all,
        s',
        run,
        whole.inner,
        λ leaf main.
            whole.leaves leaf main
            ∙ commit_to_congr c (λ i. hash (after ready.values us (slot_at leaf i)))
                (λ i. hash (final (slot_at leaf i))) 255
                (λ i le. ap hash (ready.final_lem (slot_at leaf i))),
      )

-- The state root depends on the values only: two sessions, each over its own store, with its own number
-- of deferred levels, batch size and threads, and with whatever batches before, whose last batches lead
-- to the same values, end `update_fin` with the same root. Both follow their values, from a store
-- that is as before the session, defer 1 to 3 levels, have a smallest task that is not 0, and change slots of data buckets of the smallest capacity by chained
-- changes of values that have hashes. Elements form a commutative semigroup in which a difference of
-- scalars times a generator makes up for the change, and a commitment's hash is that of its
-- element.
pub update_fin-agree :
    {E F : Type 0} (c : Committer) (hash : Option SaltValue → c.Scalar) (trie : TrieReader E)
    (threads : ℕ) (levels : BucketId → Res E ℕ) (trie' : TrieReader F) (threads' : ℕ)
    (levels' : BucketId → Res F ℕ) (s s' : StateRoot) (us us' : StateUpdates)
    (final : SaltKey → Option SaltValue)
    → IsLawful c
    → HashesElements c
    → IsReady c trie threads levels hash s us final
    → IsReady c trie' threads' levels' hash s' us' final
    → (root : Bytes) × (all : TrieUpdates) × (all' : TrieUpdates) × (t : StateRoot)
      × (t' : StateRoot) × (update_fin c trie threads levels us s ≡ ok ((root, all), t))
      × (update_fin c trie' threads' levels' us' s' ≡ ok ((root, all'), t'))
update_fin-agree c hash trie threads levels trie' threads' levels' s s' us us' final lawful hashes
      ready ready' =
    let (view, all, t, run, inner, leaves) =
      final_lem c trie threads levels hash s us final lawful ready in
    let (view', all', t', run', inner', leaves') =
      final_lem c trie' threads' levels' hash s' us' final lawful ready' in
    let same = root_agrees c hashes view view' inner inner' (λ p level.
      let main : IsMainLeaf p = omega (arith, level) in leaves p main ∙ sym (leaves' p main)) in
    (root_hash c (view 0), all, all', t, t', run, run' ∙ ap (λ r. ok ((r, all'), t')) (sym same))
