-- ===== src/Trie/StateRoot/Vector.antt =====
-- Vector commitments: what the commitment of a node stands for (salt/src/trie/trie.rs).
use mathlib.Core.Path.{subst}
use salt_optimizations.Prelude.{
  ℕ, zero, suc, ◌≤◌, ◌≡◌, refl, sym, ap, ◌∙◌, false, arith, inl, inr, Bool-cases, ==_iff, ◌==◌,
  if◌then◌else◌,
}
use salt_optimizations.Trie.Committer.{Committer, IsLawful}

module _ (c : Committer) where
  -- The generators of the positions up to the last one, times the scalars.
  unfoldable pub commit_to : (ℕ → c.Scalar) → ℕ → c.Element
  commit_to f zero = c.mul_index (f 0) 0
  commit_to f (suc k) = c.add (commit_to f k) (c.mul_index (f (suc k)) (suc k))

  -- The commitment to 256 scalars.
  abbrev pub vector_commitment : (ℕ → c.Scalar) → c.Element
  vector_commitment f = commit_to f 255

  pub commit_to_congr :
      (f g : ℕ → c.Scalar) (k : ℕ) → ((i : ℕ) → i ≤ k → f i ≡ g i) → commit_to f k ≡ commit_to g k
  unfolding commit_to
  commit_to_congr f g zero h = ap (λ x. c.mul_index x 0) (h 0 (omega arith))
  commit_to_congr f g (suc k) h =
      ap (λ x. c.add x (c.mul_index (f (suc k)) (suc k)))
        (commit_to_congr f g k (λ i le. h i (omega arith)))
      ∙ ap (λ x. c.add (commit_to g k) (c.mul_index x (suc k))) (h (suc k) (omega arith))

  abbrev pub set_at : ℕ → c.Scalar → (ℕ → c.Scalar) → ℕ → c.Scalar
  set_at i y f j = if i == j then y else f j

  -- A change of one scalar adds its difference times the generator.
  pub commit_to-set_at :
      IsLawful c
      → (f : ℕ → c.Scalar) (i : ℕ) (y : c.Scalar) (k : ℕ) → i ≤ k
      → commit_to (set_at i y f) k ≡ c.add (commit_to f k) (c.mul_index (c.sub y (f i)) i)
  unfolding commit_to
  commit_to-set_at lawful f i y zero h =
      let e : i ≡ 0 = omega arith in rw (e) (sym (lawful.mul_index-sub y (f 0) 0))
  commit_to-set_at lawful f i y (suc k) h =
      let m : c.Element = c.mul_index (f (suc k)) (suc k) in
      let d : c.Element = c.mul_index (c.sub y (f i)) i in
      elim (Bool-cases (i == suc k)) [
        | inl last ↦
            let e : i ≡ suc k = (==_iff i (suc k)).0 last in
            let same : commit_to (set_at i y f) k ≡ commit_to f k =
              commit_to_congr (set_at i y f) f k
                (λ j le. let ne : (i == j) ≡ false = ground arith in rw (ne) refl) in
            let here : (if i == suc k then y else f (suc k)) ≡ y = rw (last) refl in
            let moved : c.add (c.mul_index (f i) i) d ≡ c.mul_index y i =
              lawful.mul_index-sub y (f i) i in
            let new : c.add m d ≡ c.mul_index y (suc k) =
              subst (λ j. c.add (c.mul_index (f j) j) d ≡ c.mul_index y j) e moved in
            ap (λ x. c.add (commit_to (set_at i y f) k) (c.mul_index x (suc k))) here
            ∙ ap (λ x. c.add x (c.mul_index y (suc k))) same
            ∙ ap (c.add (commit_to f k)) (sym new)
            ∙ sym (lawful.add_assoc (commit_to f k) m d)
        | inr before ↦
            let here : (if i == suc k then y else f (suc k)) ≡ f (suc k) = rw (before) refl in
            ap (λ x. c.add (commit_to (set_at i y f) k) (c.mul_index x (suc k))) here
            ∙ ap (λ x. c.add x m) (commit_to-set_at lawful f i y k (ground arith))
            ∙ lawful.add_assoc (commit_to f k) d m
            ∙ ap (c.add (commit_to f k)) (lawful.add_comm d m)
            ∙ sym (lawful.add_assoc (commit_to f k) m d)
      ]
