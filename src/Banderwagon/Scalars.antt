-- ===== src/Banderwagon/Scalars.antt =====
-- Both builds of `Committer::mul_index`, with the tables of `Committer::new`, multiply the base point
-- by the scalar.
use mathlib.Core.Path.{subst}
use native.Mathlib.Nat.{le_trans, pow-zero}
use salt_optimizations.Prelude.{
  ℕ, suc, ◌+◌, ◌-◌, ◌*◌, ◌^◌, ◌≤◌, ◌<◌, ◌≡◌, refl, ap, ◌∙◌, List, [], ◌∷◌, length, some, get_elem?,
  arith,
}
use salt_optimizations.Banderwagon.Curve.{
  Curve, IsField, CurvePoints, Stands, AllStand, IsLawful, Extended,
}
use salt_optimizations.Banderwagon.Committer.{
  calculate_prefetch_index, new, mul_index, mul_index_x86_64, next_index, run_chunks, add_all,
}
use salt_optimizations.Banderwagon.Limbs.{number, AreLimbs}
use salt_optimizations.Banderwagon.Multiples.{times, unit, zero-add_point}
use salt_optimizations.Banderwagon.Digits.{value, IsRecoded, calculate_prefetch_index-IsRecoded}
use salt_optimizations.Banderwagon.Tables.{new-tables}
use salt_optimizations.Banderwagon.Products.{stored}
use salt_optimizations.Banderwagon.Loops.{
  Fits, push_points_lem, next_index-Pending, rounds_lem, next_unit, carry_step, carry_small,
}

new-window_size :
    (c : Curve) (bases : List (Extended c.Fq)) (w : ℕ) → (new c bases w).window_size ≡ w
unfolding new
new-window_size c bases w = refl

-- The digits of a number below 2 ^ 253 leave room for no carry at the end.
recoded-Fits : (w n : ℕ) (ds : List ℕ) → n < 2 ^ 253 → IsRecoded w n ds → Fits w 0 ds
recoded-Fits w n ds small r = le_trans {m = 2 ^ 254} (omega (arith, small, r.exact)) r.enough

module _ (c : Curve) (f : IsField c) (ps : CurvePoints c f) (lawful : IsLawful c f ps) where
  -- With the library's operations and the curve lawful, base points given by coordinates that stand
  -- for them, a window of 1 to 31 bits and a scalar below 2 ^ 253, the generic build neither panics
  -- nor misses a carry: its result stands for the base point times the scalar.
  pub mul_index-Stands :
      (bases : List (Extended c.Fq)) (qs : List ps.group.Point) (w g_i : ℕ) (p : ps.group.Point)
      (scalar : List ℕ)
      → AllStand c f ps bases qs
      → get_elem? qs g_i ≡ some p
      → AreLimbs scalar
      → number scalar < 2 ^ 253
      → 0 < w
      → w ≤ 31
      → (e : Extended c.Fq) × (mul_index c (new c bases w) scalar g_i ≡ some e)
        × Stands c f ps e (times ps.group (number scalar) p)
  unfolding mul_index unit
  mul_index-Stands bases qs w g_i p scalar hb hp hs small pos hw =
      let g = ps.group in
      let ds = calculate_prefetch_index scalar w in
      let r = calculate_prefetch_index-IsRecoded scalar w hs (omega arith) pos (omega arith) in
      let (added, run, adds) =
        push_points_lem c f ps w p pos ds 0 0 r.digits (omega arith) (omega (arith, r.places))
          (recoded-Fits w (number scalar) ds small r) in
      let e = add_all c c.zero_point added in
      rw (new-window_size c bases w, new-tables c f ps lawful bases qs w g_i p pos hw hb hp, run)
        (
          e,
          refl,
          subst (Stands c f ps e)
              (zero-add_point g (times g (0 + value (2 ^ w) ds) (unit g 0 (2 ^ (w - 1)) p))
                ∙ ap (λ n. times g n p) {x = 0 + value (2 ^ w) ds} {y = number scalar}
                    (omega (arith, r.exact)))
              (adds c.zero_point g.zero lawful.zero_point-Stands),
        )

  run_chunks-Stands :
      (w n : ℕ) (p : ps.group.Point) (ds : List ℕ) (pos : 0 < w)
      → n < 2 ^ 253
      → IsRecoded w n ds
      → (e : Extended c.Fq) × (run_chunks c w (stored c f ps w p pos) ds ≡ some e)
        × Stands c f ps e (times ps.group n p)
  unfolding run_chunks unit
  run_chunks-Stands w n p [] pos small r = absurd (omega (arith, r.enough, pow-zero (2 ^ w)))
  run_chunks-Stands w n p (d ∷ ds) pos small r =
      let g = ps.group in
      let v = value (2 ^ w) ds in
      let fits = recoded-Fits w n (d ∷ ds) small r in
      let regroup : 0 + (d + 2 ^ w * v) ≡ d + 2 ^ w * v = omega arith in
      let (added, pending, balances) =
        next_index-Pending c f ps w p pos 0 d (omega arith) (omega (arith, r.digits.0)) in
      let carry = (next_index w 0 d).1 in
      let (e, run, he) =
        rounds_lem c f ps w p pos ds 1 (next_index w 0 d).0 carry added c.zero_point g.zero
          r.digits.1 (carry_small (2 ^ (w - 1)) d carry balances.carried) (omega (arith, r.places))
          (carry_step w d carry ds pos balances.carried
            (subst (λ k. 2 * k ≤ (2 ^ w) ^ suc (length ds)) regroup fits))
          pending lawful.zero_point-Stands in
      (
        e,
        run,
        subst (Stands c f ps e)
            (ap (λ q. g.add q (times g (carry + v) (unit g 1 (2 ^ (w - 1)) p)))
                (zero-add_point g added)
              ∙ next_unit c f ps w p pos 0 d carry v added balances
              ∙ ap (λ k. times g k p) r.exact)
            he,
      )

  -- Under the same conditions, and with the products of its assembly those of the field, the x86_64
  -- build reads the tables in range only, and its result too stands for the base point times the
  -- scalar.
  pub mul_index_x86_64-Stands :
      (bases : List (Extended c.Fq)) (qs : List ps.group.Point) (w g_i : ℕ) (p : ps.group.Point)
      (scalar : List ℕ)
      → AllStand c f ps bases qs
      → get_elem? qs g_i ≡ some p
      → AreLimbs scalar
      → number scalar < 2 ^ 253
      → 0 < w
      → w ≤ 31
      → (e : Extended c.Fq) × (mul_index_x86_64 c (new c bases w) scalar g_i ≡ some e)
        × Stands c f ps e (times ps.group (number scalar) p)
  unfolding mul_index_x86_64
  mul_index_x86_64-Stands bases qs w g_i p scalar hb hp hs small pos hw =
      rw (new-window_size c bases w, new-tables c f ps lawful bases qs w g_i p pos hw hb hp)
        (run_chunks-Stands w (number scalar) p (calculate_prefetch_index scalar w) pos small
          (calculate_prefetch_index-IsRecoded scalar w hs (omega arith) pos (omega arith)))
