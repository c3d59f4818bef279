-- ===== src/State/Probe/Growth.antt =====
-- The growth of a bucket (`compute_resize_capacity` of salt/src/state/state.rs).
use native.Mathlib.Nat.{pow-suc}
use salt_optimizations.Prelude.{
  ℕ, zero, suc, ◌*◌, ◌%◌, ◌^◌, ◌≤◌, ◌<◌, ◌≡◌, refl, ap, ◌∙◌, ◌⊎◌, inl, inr, true, arith, Bool-cases,
  ltb,
}
use salt_optimizations.Prelude.Result.{ok}
use salt_optimizations.State.Probe.{compute_resize_capacity, resize_loop}

-- `r` is the first of `capacity`, 2 * `capacity`, 4 * `capacity`, … that `used` fills to at most 80
-- percent.
pub record IsGrown (capacity used r : ℕ) : Type 0 where
  pub roomy : used * 100 ≤ r * 80
  pub doublings : ℕ
  pub doubled : r ≡ capacity * 2 ^ doublings
  pub tight : (r ≡ capacity) ⊎ (r * 40 < used * 100)

tight_of :
    (c used r : ℕ) → c * 80 < used * 100 → (r ≡ c * 2) ⊎ (r * 40 < used * 100) → r * 40 < used * 100
tight_of c used r less (inl e) = omega arith
tight_of c used r less (inr h) = h

resize_more :
    {E : Type 0} (fuel used c c' : ℕ)
    → ltb (c * 80 % 2 ^ 64) (used * 100 % 2 ^ 64) ≡ true
    → c * 2 % 2 ^ 64 ≡ c'
    → resize_loop {E = E} (suc fuel) used c ≡ resize_loop fuel used c'
unfolding resize_loop
resize_more fuel used c c' more double = rw more (ap (resize_loop fuel used) double)

-- `fuel` doublings from `c`, while nothing wraps.
resize_loop-IsGrown :
    {E : Type 0} (fuel used c : ℕ)
    → used ≤ 2 ^ 40
    → 0 < c
    → c ≤ 2 ^ 42
    → used * 100 ≤ c * 80 * 2 ^ fuel
    → (r : ℕ) × (resize_loop {E = E} (suc fuel) used c ≡ ok r) × IsGrown c used r
unfolding resize_loop
resize_loop-IsGrown zero used c hu pos hc hf = (
  c,
  ground arith,
  record { roomy = omega arith; doublings = 0; doubled = omega arith; tight = inl refl },
)
resize_loop-IsGrown {E} (suc fuel) used c hu pos hc hf =
    elim (Bool-cases (ltb (c * 80 % 2 ^ 64) (used * 100 % 2 ^ 64))) [
      | inr done ↦
          let enough : used * 100 ≤ c * 80 = ground arith in
          (
            c,
            rw done,
            record { roomy = enough; doublings = 0; doubled = omega arith; tight = inl refl },
          )
      | inl more ↦
          let less : c * 80 < used * 100 = ground arith in
          let double : c * 2 % 2 ^ 64 ≡ c * 2 = omega arith in
          let (r, run, grown) =
            resize_loop-IsGrown {E = E} fuel used (c * 2) hu (omega arith) (omega arith)
              (omega (arith, ap (λ (t : ℕ). c * 80 * t) (pow-suc 2 fuel))) in
          (
            r,
            resize_more {E = E} (suc fuel) used c (c * 2) more double ∙ run,
            record {
              roomy = grown.roomy;
              doublings = suc grown.doublings;
              doubled =
                  grown.doubled ∙ omega (arith, ap (λ (t : ℕ). c * t) (pow-suc 2 grown.doublings));
              tight = inr (tight_of c used r less grown.tight);
            },
          )
    ]

-- For a capacity above 0, and capacity and used slots of at most 2 ^ 40, the loop ends, nothing wraps,
-- and the result is the first of `capacity`, 2 * `capacity`, 4 * `capacity` and so on at which the used
-- slots are at most 80 percent.
pub compute_resize_capacity-IsGrown :
    {E : Type 0} (capacity used : ℕ)
    → 0 < capacity
    → capacity ≤ 2 ^ 40
    → used ≤ 2 ^ 40
    → (r : ℕ) × (compute_resize_capacity {E = E} capacity used ≡ ok r) × IsGrown capacity used r
unfolding compute_resize_capacity
compute_resize_capacity-IsGrown capacity used pos hc hu =
    resize_loop-IsGrown 63 used capacity hu pos (omega arith) (omega arith)
