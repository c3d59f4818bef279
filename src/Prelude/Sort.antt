-- ===== src/Prelude/Sort.antt =====
-- `sort_unstable_by_key`: a sort by a numeric key. It leaves the order of equal keys open; here they
-- stay in order.
use Prim.Native.Nat.{ℕ, ◌≤◌}
use mathlib.Core.Path.{◌≡◌, refl, ap, ◌∙◌}
use mathlib.Core.List.{List, [], ◌∷◌, Perm, map}
use mathlib.Core.List.Perm
use native.Mathlib.Omega.{arith}
use salt_optimizations.Prelude.Tests.{leb, if◌then◌else◌, Bool-cases}
use mathlib.Core.Logic.{inl, inr}

-- Every item has the property.
abbrev pub Each {ℓ κ} : {A : Type ℓ} → (A → Type κ) → List A → Type κ
Each P [] = Unit
Each P (a ∷ l) = P a × Each P l

module _ {ℓ} {A : Type ℓ} (key : A → ℕ) where
  unfoldable pub insert_by : A → List A → List A
  insert_by a [] = a ∷ []
  insert_by a (b ∷ bs) =
      let later = b ∷ insert_by a bs in if leb (key a) (key b) then a ∷ b ∷ bs else later

  unfoldable pub sort_by_key : List A → List A
  unfolding insert_by
  sort_by_key [] = []
  sort_by_key (a ∷ as') = insert_by a (sort_by_key as')

  -- Every key is at least `n`.
  abbrev pub From : ℕ → List A → Type 0
  From n [] = Unit {0}
  From n (a ∷ rest) = (n ≤ key a) × From n rest

  -- The keys do not fall.
  abbrev pub IsAscending : List A → Type 0
  IsAscending [] = Unit {0}
  IsAscending (a ∷ rest) = From (key a) rest × IsAscending rest

  From-below : (m n : ℕ) (l : List A) → m ≤ n → From n l → From m l
  From-below m n [] h f = tt
  From-below m n (a ∷ l) h f = (omega arith, From-below m n l h f.1)

  insert_by-From : (n : ℕ) (a : A) (l : List A) → n ≤ key a → From n l → From n (insert_by a l)
  unfolding insert_by
  insert_by-From n a [] h f = (h, tt)
  insert_by-From n a (b ∷ l) h f = elim (Bool-cases (leb (key a) (key b))) [
    | inl le ↦ rw (le) (h, f)
    | inr gt ↦ rw (gt) (f.0, insert_by-From n a l h f.1)
  ]

  insert_by-IsAscending : (a : A) (l : List A) → IsAscending l → IsAscending (insert_by a l)
  unfolding insert_by
  insert_by-IsAscending a [] s = (tt, tt)
  insert_by-IsAscending a (b ∷ l) s = elim (Bool-cases (leb (key a) (key b))) [
    | inl le ↦
        let ab : key a ≤ key b = ground arith in
        rw (le) ((ab, From-below (key a) (key b) l ab s.0), s)
    | inr gt ↦
        rw (gt) (insert_by-From (key b) a l (ground arith) s.0, insert_by-IsAscending a l s.1)
  ]

  pub sort_by_key-IsAscending : (l : List A) → IsAscending (sort_by_key l)
  unfolding sort_by_key
  sort_by_key-IsAscending [] = tt
  sort_by_key-IsAscending (a ∷ l) =
      insert_by-IsAscending a (sort_by_key l) (sort_by_key-IsAscending l)

  insert_by-perm : (a : A) (l : List A) → Perm (insert_by a l) (a ∷ l)
  unfolding insert_by
  insert_by-perm a [] = Perm.refl (a ∷ [])
  insert_by-perm a (b ∷ l) = elim (Bool-cases (leb (key a) (key b))) [
    | inl le ↦ rw (le) (Perm.refl (a ∷ b ∷ l))
    | inr gt ↦ rw (gt) (Perm.trans (Perm.cons b (insert_by-perm a l)) (Perm.swap a b l))
  ]

  pub sort_by_key-perm : (l : List A) → Perm (sort_by_key l) l
  unfolding sort_by_key
  sort_by_key-perm [] = Perm.refl []
  sort_by_key-perm (a ∷ l) =
      Perm.trans (insert_by-perm a (sort_by_key l)) (Perm.cons a (sort_by_key-perm l))

  insert_by-Each {κ} :
      (P : A → Type κ) (a : A) (l : List A) → P a → Each P l → Each P (insert_by a l)
  unfolding insert_by
  insert_by-Each P a [] p h = (p, tt)
  insert_by-Each P a (b ∷ l) p h = elim (Bool-cases (leb (key a) (key b))) [
    | inl le ↦ rw (le) (p, h)
    | inr gt ↦ rw (gt) (h.0, insert_by-Each P a l p h.1)
  ]

  pub sort_by_key-Each {κ} : (P : A → Type κ) (l : List A) → Each P l → Each P (sort_by_key l)
  unfolding sort_by_key
  sort_by_key-Each P [] h = tt
  sort_by_key-Each P (a ∷ l) h = insert_by-Each P a (sort_by_key l) h.0 (sort_by_key-Each P l h.1)

module _ {ℓ} {A : Type ℓ} (key : A → ℕ) where
  abbrev with_key : A → ℕ × A
  with_key a = (key a, a)

  insert_by-with_key :
      (a : A) (l : List (ℕ × A))
      → Each (λ k. k.0 ≡ key k.1) l
      → map (λ k. k.1) (insert_by (λ k. k.0) (with_key a) l) ≡ insert_by key a (map (λ k. k.1) l)
  unfolding insert_by
  insert_by-with_key a [] h = refl
  insert_by-with_key a ((k, b) ∷ l) h = elim (Bool-cases (leb (key a) (key b))) [
    | inl le ↦ rw (h.0, le) refl
    | inr gt ↦ rw (h.0, gt) (ap (λ r. b ∷ r) (insert_by-with_key a l h.1))
  ]

  with_key-Each : (l : List A) → Each (λ k. k.0 ≡ key k.1) (map with_key l)
  with_key-Each [] = tt
  with_key-Each (a ∷ l) = (refl, with_key-Each l)

  -- Sorting with the keys beside the items.
  pub sort_by_key-with_key :
      (l : List A) → map (λ k. k.1) (sort_by_key (λ k. k.0) (map with_key l)) ≡ sort_by_key key l
  unfolding sort_by_key
  sort_by_key-with_key [] = refl
  sort_by_key-with_key (a ∷ l) =
      insert_by-with_key a (sort_by_key (λ k. k.0) (map with_key l))
        (sort_by_key-Each (λ k. k.0) (λ k. k.0 ≡ key k.1) (map with_key l) (with_key-Each l))
      ∙ ap (insert_by key a) (sort_by_key-with_key l)
