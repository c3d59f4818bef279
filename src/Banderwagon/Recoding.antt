-- ===== src/Banderwagon/Recoding.antt =====
-- One window of `Committer::mul_index`: what the table gives for a digit and a carry, the point that
-- is added, and the carry that is passed on.

use native.Mathlib.Nat.{pow-succ', le_of_mul-le-mul_left, lt_of_mul-lt-mul_left}
use salt_optimizations.Prelude.{
  ℕ, zero, suc, ◌+◌, ◌-◌, ◌*◌, ◌/◌, ◌^◌, ◌≤◌, ◌<◌, ◌≡◌, refl, sym, ap, ◌∙◌, ◌⊎◌, inl, inr, List, [],
  ◌∷◌, map, some, get_elem?, arith,
}
use salt_optimizations.Banderwagon.Curve.{Curve, IsField, CurvePoints, Group}
use salt_optimizations.Banderwagon.Tables.{point_table}
use salt_optimizations.Banderwagon.Multiples.{
  times, times-add, times-times, unit, unit_next, get_elem?-table,
}

pub double_half : (w : ℕ) → 0 < w → 2 ^ w ≡ 2 * 2 ^ (w - 1)
double_half zero h = absurd (omega arith)
double_half (suc w) h = pow-succ' 2 w ∙ ap (λ n. 2 * 2 ^ n) {x = w} {y = suc w - 1} (omega arith)

get_elem?-map :
    {A B : Type 0} (g : A → B) (xs : List A) (i : ℕ) (a : A)
    → get_elem? xs i ≡ some a
    → get_elem? (map g xs) i ≡ some (g a)
get_elem?-map g [] i a e = cc
get_elem?-map g (x ∷ xs) zero a e = cc
get_elem?-map g (x ∷ xs) (suc i) a e = get_elem?-map g xs i a e

-- The carry of a digit above half of the window.
abbrev pub IsCarried : ℕ → ℕ → ℕ → Type 0
IsCarried half index carry = (carry ≡ 0) × (index ≤ half) ⊎ (carry ≡ 1) × (half < index)

-- What is left fits in the windows that are left.
pub room_next :
    (half index carry v p : ℕ)
    → 0 < half
    → IsCarried half index carry
    → 2 * (index + 2 * half * v) ≤ 2 * half * p
    → 2 * (carry + v) ≤ p
room_next half index carry v p pos (inl (e, low)) h =
    let le : 2 * half * (2 * v) ≤ 2 * half * p = omega arith in
    omega (arith, le_of_mul-le-mul_left {m = 2 * v} {n = p} {k = 2 * half} le (omega arith))
room_next half index carry v p pos (inr (e, high)) h =
    let lt : 2 * half * (1 + 2 * v) < 2 * half * p = omega arith in
    omega (arith, lt_of_mul-lt-mul_left (2 * half) {m = 1 + 2 * v} {n = p} lt)

module _ (g : Group) where
  -- The point that is added for a digit, and the carry of 2 * `half` units.
  pub record Balances (half index carry : ℕ) (u added : g.Point) : Type 0 where
    pub balance : g.add added (times g (carry * (2 * half)) u) ≡ times g index u
    pub carried : IsCarried half index carry

  pub Balances-low :
      (half index : ℕ) (u : g.Point) → index ≤ half → Balances half index 0 u (times g index u)
  Balances-low half index u h = record {
    balance =
        sym (times-add g index (0 * (2 * half)) u)
        ∙ ap (λ n. times g n u) {x = index + 0 * (2 * half)} {y = index} (omega arith);
    carried = inl (refl, h);
  }

  pub Balances-high :
      (half index : ℕ) (u : g.Point)
      → half < index
      → index ≤ 2 * half
      → Balances half index 1 u (g.neg (times g (2 * half - index) u))
  Balances-high half index u h k = record {
    balance =
        let q = times g (2 * half - index) u in
        let split : times g (1 * (2 * half)) u ≡ g.add q (times g index u) =
          ap (λ n. times g n u) {x = 1 * (2 * half)} {y = 2 * half - index + index} (omega arith)
          ∙ times-add g (2 * half - index) index u in
        ap (g.add (g.neg q)) split
        ∙ sym (g.add_assoc (g.neg q) q (times g index u))
        ∙ ap (λ t. g.add t (times g index u)) (g.add_comm (g.neg q) q ∙ g.add-neg q)
        ∙ g.add_comm g.zero (times g index u)
        ∙ g.add-zero (times g index u);
    carried = inr (refl, h);
  }

  -- A digit's point, and the rest in the next window's unit.
  pub Balances-next :
      (half index carry v i : ℕ) (p added : g.Point)
      → Balances half index carry (unit g i half p) added
      → g.add added (times g (carry + v) (unit g (suc i) half p))
        ≡ times g (index + 2 * half * v) (unit g i half p)
  Balances-next half index carry v i p added b =
      let u = unit g i half p in
      let size = 2 * half in
      ap (λ t. g.add added (times g (carry + v) t)) (unit_next g i half p)
      ∙ ap (g.add added) (
          times-times g (carry + v) size u
          ∙ ap (λ n. times g n u) {x = (carry + v) * size} {y = carry * size + size * v}
              (omega arith)
          ∙ times-add g (carry * size) (size * v) u)
      ∙ sym (g.add_assoc added (times g (carry * size) u) (times g (size * v) u))
      ∙ ap (λ t. g.add t (times g (size * v) u)) b.balance
      ∙ sym (times-add g index (size * v) u)

module _ (c : Curve) (f : IsField c) (ps : CurvePoints c f) where
  -- The entry `j` of window `i`.
  pub point_table-entry :
      (w i j : ℕ) (p : ps.group.Point)
      → i < 253 / w + 1
      → j ≤ 2 ^ (w - 1)
      → get_elem? (map ps.coords (point_table c f ps w p)) (j + i * (2 ^ (w - 1) + 1))
        ≡ some (ps.coords (times ps.group j (unit ps.group i (2 ^ (w - 1)) p)))
  unfolding point_table
  point_table-entry w i j p hi hj =
      get_elem?-map ps.coords (point_table c f ps w p) (j + i * (2 ^ (w - 1) + 1)) _
        (get_elem?-table ps.group (253 / w + 1) (2 ^ (w - 1)) i j p hi hj)
