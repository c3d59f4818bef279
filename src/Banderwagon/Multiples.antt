-- ===== src/Banderwagon/Multiples.antt =====
-- Multiples of a point of a group.
use native.Mathlib.Nat.{suc-add, suc-mul, zero-mul, zero-add}
use salt_optimizations.Prelude.{
  ℕ, zero, suc, ◌+◌, ◌*◌, ◌≤◌, ◌<◌, ◌≡◌, refl, sym, ap, ◌∙◌, List, [], ◌∷◌, ◌++◌, get_elem?, some,
  arith,
}
use salt_optimizations.Banderwagon.Curve.{Group}

module _ (g : Group) where
  open g use {Point, add, neg, add_assoc, add_comm, add-zero, add-neg}

  pub zero-add_point : (p : Point) → add g.zero p ≡ p
  zero-add_point p = add_comm g.zero p ∙ add-zero p

  unfoldable pub times : ℕ → Point → Point
  times zero p = g.zero
  times (suc n) p = add (times n p) p

  pub times_zero : (p : Point) → times 0 p ≡ g.zero
  unfolding times
  times_zero p = refl

  pub times_one : (p : Point) → times 1 p ≡ p
  unfolding times
  times_one p = zero-add_point p

  pub times-add : (m n : ℕ) (p : Point) → times (m + n) p ≡ add (times m p) (times n p)
  unfolding times
  times-add zero n p = rw (zero-add n) (sym (zero-add_point (times n p)))
  times-add (suc m) n p =
      ap (λ k. times k p) (suc-add m n)
      ∙ ap (λ t. add t p) (times-add m n p)
      ∙ add_assoc (times m p) (times n p) p
      ∙ ap (add (times m p)) (add_comm (times n p) p)
      ∙ sym (add_assoc (times m p) p (times n p))

  pub times-times : (m n : ℕ) (p : Point) → times m (times n p) ≡ times (m * n) p
  unfolding times
  times-times zero n p = rw (zero-mul n) refl
  times-times (suc m) n p =
      ap (λ t. add t (times n p)) (times-times m n p)
      ∙ sym (times-add (m * n) n p)
      ∙ ap (λ k. times k p) (sym (suc-mul m n))

  neg_unique : (p q : Point) → add p q ≡ g.zero → q ≡ neg p
  neg_unique p q e =
      sym (zero-add_point q)
      ∙ ap (λ t. add t q) (sym (add_comm (neg p) p ∙ add-neg p))
      ∙ add_assoc (neg p) p q
      ∙ ap (add (neg p)) e
      ∙ add-zero (neg p)

  pub neg_zero : neg g.zero ≡ g.zero
  neg_zero = sym (neg_unique g.zero g.zero (add-zero g.zero))

  -- `n` successive multiples, from the `s`th.
  unfoldable pub run : ℕ → ℕ → Point → List Point
  run zero s p = []
  run (suc n) s p = times s p ∷ run n (suc s) p

  -- The table of a point: for each window, the multiples from 0 to `half` of the window's unit.
  unfoldable pub table : ℕ → ℕ → Point → List Point
  table zero half p = []
  table (suc n) half p = run (suc half) 0 p ++ table n half (times (2 * half) p)

  -- The unit of a window.
  unfoldable pub unit : ℕ → ℕ → Point → Point
  unit zero half p = p
  unit (suc i) half p = unit i half (times (2 * half) p)

  get_elem?-run :
      (n s j : ℕ) (p : Point) (rest : List Point)
      → j < n
      → get_elem? (run n s p ++ rest) j ≡ some (times (s + j) p)
  unfolding run
  get_elem?-run zero s j p rest h = absurd (omega arith)
  get_elem?-run (suc n) s zero p rest h =
      ap (λ k. some (times k p)) {x = s} {y = s + 0} (omega arith)
  get_elem?-run (suc n) s (suc j) p rest h =
      get_elem?-run n (suc s) j p rest (omega arith)
      ∙ ap (λ k. some (times k p)) {x = suc s + j} {y = s + suc j} (omega arith)

  get_elem?-after :
      (n s j : ℕ) (p : Point) (rest : List Point)
      → get_elem? (run n s p ++ rest) (n + j) ≡ get_elem? rest j
  unfolding run
  get_elem?-after zero s j p rest = ap (get_elem? rest) {x = 0 + j} {y = j} (omega arith)
  get_elem?-after (suc n) s j p rest =
      ap (get_elem? (run (suc n) s p ++ rest)) {x = suc n + j} {y = suc (n + j)} (omega arith)
      ∙ get_elem?-after n (suc s) j p rest

  -- The entry `j` of window `i`.
  pub get_elem?-table :
      (n half i j : ℕ) (p : Point)
      → i < n
      → j ≤ half
      → get_elem? (table n half p) (j + i * (half + 1)) ≡ some (times j (unit i half p))
  unfolding table unit
  get_elem?-table zero half i j p h hj = absurd (omega arith)
  get_elem?-table (suc n) half zero j p h hj =
      ap (get_elem? (table (suc n) half p)) {x = j + 0 * (half + 1)} {y = j} (omega arith)
      ∙ get_elem?-run (suc half) 0 j p (table n half (times (2 * half) p)) (omega arith)
      ∙ ap (λ k. some (times k p)) {x = 0 + j} {y = j} (omega arith)
  get_elem?-table (suc n) half (suc i) j p h hj =
      ap (get_elem? (table (suc n) half p)) {x = j + suc i * (half + 1)}
        {y = suc half + (j + i * (half + 1))} (omega arith)
      ∙ get_elem?-after (suc half) 0 (j + i * (half + 1)) p (table n half (times (2 * half) p))
      ∙ get_elem?-table n half i j (times (2 * half) p) (omega arith) hj

  -- The unit of the next window.
  pub unit_next : (i half : ℕ) (p : Point) → unit (suc i) half p ≡ times (2 * half) (unit i half p)
  unfolding unit
  unit_next zero half p = refl
  unit_next (suc i) half p = unit_next i half (times (2 * half) p)
