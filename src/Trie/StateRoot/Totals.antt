-- ===== src/Trie/StateRoot/Totals.antt =====
-- Sums of the deltas of one node, which no order changes.
use salt_optimizations.Prelude.{
  ℕ, ◌≡◌, refl, sym, ap, ◌∙◌, Bool, false, List, [], ◌∷◌, map, inl, inr, Bool-cases, leb, ◌==◌,
  ◌||◌, if◌then◌else◌, arith,
}
use salt_optimizations.Prelude.Sort.{insert_by, sort_by_key}
use salt_optimizations.Types.NodeId.{NodeId}
use salt_optimizations.Trie.Committer.{Committer, IsLawful}

module _ {ℓ} {A : Type ℓ} (c : Committer) (g : A → NodeId × c.Element) where
  -- `e` and the deltas of the node `n`.
  unfoldable pub total : NodeId → c.Element → List A → c.Element
  total n e [] = e
  total n e (a ∷ l) = total n (if (g a).0 == n then c.add e (g a).1 else e) l

  unfoldable pub occurs : NodeId → List A → Bool
  occurs n [] = false
  occurs n (a ∷ l) = ((g a).0 == n) || occurs n l

  occurs_swap : (n : NodeId) (a b : A) (l : List A) → occurs n (a ∷ b ∷ l) ≡ occurs n (b ∷ a ∷ l)
  unfolding occurs
  occurs_swap n a b l = ground arith

  occurs-insert_by :
      (key : A → ℕ) (n : NodeId) (a : A) (l : List A)
      → occurs n (insert_by key a l) ≡ occurs n (a ∷ l)
  unfolding insert_by occurs
  occurs-insert_by key n a [] = refl
  occurs-insert_by key n a (b ∷ l) = elim (Bool-cases (leb (key a) (key b))) [
    | inl le ↦ rw (le) refl
    | inr gt ↦
        rw (gt) (ap (λ o. ((g b).0 == n) || o) (occurs-insert_by key n a l) ∙ occurs_swap n b a l)
  ]

  pub occurs-sort_by_key :
      (key : A → ℕ) (n : NodeId) (l : List A) → occurs n (sort_by_key key l) ≡ occurs n l
  unfolding sort_by_key occurs
  occurs-sort_by_key key n [] = refl
  occurs-sort_by_key key n (a ∷ l) =
      occurs-insert_by key n a (sort_by_key key l)
      ∙ ap (λ o. ((g a).0 == n) || o) (occurs-sort_by_key key n l)

  -- Without a delta of `n`, nothing is added.
  pub total-absent :
      (n : NodeId) (l : List A) (e : c.Element) → occurs n l ≡ false → total n e l ≡ e
  unfolding total occurs
  total-absent n [] e h = refl
  total-absent n (a ∷ l) e h =
      let other : ((g a).0 == n) ≡ false = ground arith in
      let later : occurs n l ≡ false = ground arith in rw (other) (total-absent n l e later)

  module _ (lawful : IsLawful c) where
    add_swap : (e x y : c.Element) → c.add (c.add e x) y ≡ c.add (c.add e y) x
    add_swap e x y =
        lawful.add_assoc e x y ∙ ap (c.add e) (lawful.add_comm x y) ∙ sym (lawful.add_assoc e y x)

    total_swap :
        (n : NodeId) (e : c.Element) (a b : A) (l : List A)
        → total n e (a ∷ b ∷ l) ≡ total n e (b ∷ a ∷ l)
    unfolding total
    total_swap n e a b l = elim (Bool-cases ((g a).0 == n)) [
      | inl p ↦ elim (Bool-cases ((g b).0 == n)) [
        | inl q ↦ rw (p, q) (ap (λ x. total n x l) (add_swap e (g a).1 (g b).1))
        | inr q ↦ rw (p, q) refl
      ]
      | inr p ↦ elim (Bool-cases ((g b).0 == n)) [ inl q ↦ rw (p, q) refl | inr q ↦ rw (p, q) refl ]
    ]

    -- `e`, with the delta of `a` when it is one of `n`.
    abbrev step : NodeId → A → c.Element → c.Element
    step n a e = if (g a).0 == n then c.add e (g a).1 else e

    total-insert_by :
        (key : A → ℕ) (n : NodeId) (a : A) (l : List A) (e : c.Element)
        → total n e (insert_by key a l) ≡ total n e (a ∷ l)
    unfolding insert_by total
    total-insert_by key n a [] e = refl
    total-insert_by key n a (b ∷ l) e = elim (Bool-cases (leb (key a) (key b))) [
      | inl le ↦ rw (le) refl
      | inr gt ↦ rw (gt) (total-insert_by key n a l (step n b e) ∙ total_swap n e b a l)
    ]

    -- Sorting changes no total.
    pub total-sort_by_key :
        (key : A → ℕ) (n : NodeId) (l : List A) (e : c.Element)
        → total n e (sort_by_key key l) ≡ total n e l
    unfolding sort_by_key total
    total-sort_by_key key n [] e = refl
    total-sort_by_key key n (a ∷ l) e =
        total-insert_by key n a (sort_by_key key l) e ∙ total-sort_by_key key n l (step n a e)

pub total-map {ℓ} :
    {A : Type ℓ} (c : Committer) (g : A → NodeId × c.Element) (n : NodeId) (l : List A)
    (e : c.Element)
    → total c (λ (d : NodeId × c.Element). d) n e (map g l) ≡ total c g n e l
unfolding total
total-map c g n [] e = refl
total-map c g n (a ∷ l) e = total-map c g n l (if (g a).0 == n then c.add e (g a).1 else e)

pub occurs-map {ℓ} :
    {A : Type ℓ} (c : Committer) (g : A → NodeId × c.Element) (n : NodeId) (l : List A)
    → occurs c (λ (d : NodeId × c.Element). d) n (map g l) ≡ occurs c g n l
unfolding occurs
occurs-map c g n [] = refl
occurs-map c g n (a ∷ l) = ap (λ o. ((g a).0 == n) || o) (occurs-map c g n l)
