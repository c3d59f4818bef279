-- ===== src/Banderwagon/Digits.antt =====
-- `calculate_prefetch_index` gives the digits of the scalar in base 2 ^ `window_size`.
use native.Mathlib.Nat.{
  mod-lt, mod-add-div, div-eq_of_lt, div-div-eq-div-mul, mul_assoc, le-div_iff_mul-le,
  add-div_right, pow-succ', pow-zero, pow-le-pow_right, lt_of_lt_of_le, div-one, mul-suc, le_trans,
  mul_comm,
}
use salt_optimizations.Prelude.{
  ℕ, zero, suc, ◌+◌, ◌*◌, ◌/◌, ◌%◌, ◌^◌, ◌≤◌, ◌<◌, ◌≡◌, sym, ap, ◌∙◌, inl, inr, List, [], ◌∷◌,
  length, ltb, Bool-cases, arith,
}
use salt_optimizations.Banderwagon.Committer.{window, index_loop, calculate_prefetch_index}
use salt_optimizations.Banderwagon.Limbs.{pow-add, pow_pos, number, AreLimbs}
use salt_optimizations.Banderwagon.Windows.{window_lem}

-- The number with the given digits in a base, lowest first.
abbrev pub value : ℕ → List ℕ → ℕ
value base [] = 0
value base (d ∷ ds) = d + base * value base ds

abbrev pub AreDigits : ℕ → List ℕ → Type 0
AreDigits base [] = Unit
AreDigits base (d ∷ ds) = (d < base) × AreDigits base ds

-- The digits of a number, at least 254 bits of them, in at most 253 / `w` + 1 places.
pub record IsRecoded (w n : ℕ) (ds : List ℕ) : Type 0 where
  pub digits : AreDigits (2 ^ w) ds
  pub exact : value (2 ^ w) ds ≡ n
  pub enough : 2 ^ 254 ≤ (2 ^ w) ^ length ds
  pub places : length ds ≤ 253 / w + 1

-- The loop from `start` on.
record Recodes (w n start : ℕ) (ds : List ℕ) : Type 0 where
  digits : AreDigits (2 ^ w) ds
  exact : value (2 ^ w) ds ≡ n / 2 ^ start
  enough : 2 ^ 254 ≤ 2 ^ start * (2 ^ w) ^ length ds
  places : start < 254 + w → start + w * length ds < 254 + w

at_end : (w n start : ℕ) → n < 2 ^ 254 → 254 ≤ start → Recodes w n start []
at_end w n start small done =
    let wide : 2 ^ 254 ≤ 2 ^ start =
      pow-le-pow_right {n = 2} (omega arith) {i = 254} {j = start} done in
    record {
      digits = tt;
      exact = sym (div-eq_of_lt (lt_of_lt_of_le small wide));
      enough = omega (arith, wide, ap (λ (t : ℕ). 2 ^ start * t) (pow-zero (2 ^ w)));
      places = λ h. omega arith;
    }

at_window :
    (w n start d : ℕ) (ds : List ℕ)
    → start < 254
    → d ≡ n / 2 ^ start % 2 ^ w
    → Recodes w n (start + w) ds
    → Recodes w n start (d ∷ ds)
at_window w n start d ds h e r =
    let next : n / 2 ^ (start + w) ≡ n / 2 ^ start / 2 ^ w =
      ap (λ t. n / t) (pow-add start w) ∙ sym (div-div-eq-div-mul n (2 ^ start) (2 ^ w)) in
    let room : 2 ^ (start + w) * (2 ^ w) ^ length ds ≡ 2 ^ start * (2 ^ w) ^ suc (length ds) =
      ap (λ (t : ℕ). t * (2 ^ w) ^ length ds) (pow-add start w)
      ∙ mul_assoc (2 ^ start) (2 ^ w) ((2 ^ w) ^ length ds)
      ∙ ap (λ (t : ℕ). 2 ^ start * t) (sym (pow-succ' (2 ^ w) (length ds))) in
    record {
      digits = (rw e (mod-lt (n / 2 ^ start) (pow_pos w)), r.digits);
      exact = rw (e, r.exact, next) (mod-add-div (n / 2 ^ start) (2 ^ w));
      enough = rw (← room) r.enough;
      places = λ _. omega (arith, r.places (omega arith), mul-suc w (length ds));
    }

index_loop-Recodes :
    (fuel : ℕ) (xs : List ℕ) (w start : ℕ)
    → AreLimbs xs
    → number xs < 2 ^ 254
    → 0 < w
    → w ≤ 64
    → 254 ≤ fuel + start
    → Recodes w (number xs) start (index_loop fuel xs w start)
unfolding index_loop
index_loop-Recodes zero xs w start h small pos hw enough =
    at_end w (number xs) start small (omega arith)
index_loop-Recodes (suc fuel) xs w start h small pos hw enough = elim (Bool-cases (ltb start 254)) [
  | inl more ↦ rw more (
      at_window w (number xs) start (window xs w start) (index_loop fuel xs w (start + w))
        (ground arith) (window_lem xs w start h hw)
        (index_loop-Recodes fuel xs w (start + w) h small pos hw (omega arith)))
  | inr done ↦ rw done (at_end w (number xs) start small (ground arith))
]

-- For the limbs of a number below 2 ^ 254 and a window of 1 to 64 bits, the windows are the digits of
-- the number in base 2 ^ `w`: at least 254 bits of them, in at most 253 / `w` + 1 places.
pub calculate_prefetch_index-IsRecoded :
    (xs : List ℕ) (w : ℕ)
    → AreLimbs xs
    → number xs < 2 ^ 254
    → 0 < w
    → w ≤ 64
    → IsRecoded w (number xs) (calculate_prefetch_index xs w)
unfolding calculate_prefetch_index
calculate_prefetch_index-IsRecoded xs w h small pos hw =
    let r = index_loop-Recodes 254 xs w 0 h small pos hw (omega arith) in
    let ds = index_loop 254 xs w 0 in
    let places = r.places (omega arith) in
    record {
      digits = r.digits;
      exact = r.exact ∙ div-one (number xs);
      enough = omega (arith, r.enough);
      places =
          le_trans
            ((le-div_iff_mul-le {k = w} {x = length ds} {y = 253 + w} pos).1
              (omega (arith, places, mul_comm w (length ds))))
            (omega (arith, add-div_right 253 {k = w} pos));
    }
