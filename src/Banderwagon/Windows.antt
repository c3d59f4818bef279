-- ===== src/Banderwagon/Windows.antt =====
-- The windows of a scalar (`calculate_prefetch_index`) are its digits in base 2 ^ `w`.
use Prim.Native.Nat.{bit_or}
use native.Mathlib.Nat.{
  add-mul-div_left, add-mul-mod_self_left, mod-eq_of_lt, mod-lt, div-lt_iff_lt-mul, mul_assoc,
  lt_of_lt_of_le, pow-le-pow_right, mul_comm,
}
use mathlib.Core.Path.{subst}
use salt_optimizations.Prelude.{
  ℕ, suc, ◌+◌, ◌-◌, ◌*◌, ◌/◌, ◌%◌, ◌^◌, ◌≤◌, ◌<◌, ◌≡◌, sym, ap, ◌∙◌, inl, inr, List, length, drop,
  ltb, Bool-cases, arith,
}
use salt_optimizations.Constant.{u64_mod}
use salt_optimizations.Banderwagon.Committer.{limb, window}
use salt_optimizations.Banderwagon.Limbs.{
  pow_pos, pow_split, bit_or-disjoint, number, AreLimbs, limb-lt, number-drop, number-drop_all,
  number-div, mod-product,
}

product_below : (a b c : ℕ) → a < b → 0 < c → a * c < b * c
product_below a b c h pos = grind arith

-- The bits from `o` on of a limb and what follows it.
shift_limb : (l o m : ℕ) → o < 64 → (l + 2 ^ 64 * m) / 2 ^ o ≡ l / 2 ^ o + 2 ^ (64 - o) * m
shift_limb l o m h =
    let split : 2 ^ 64 * m ≡ 2 ^ o * (2 ^ (64 - o) * m) =
      ap (λ (t : ℕ). t * m) (pow_split o 64 (omega arith)) ∙ mul_assoc (2 ^ o) (2 ^ (64 - o)) m in
    rw split (add-mul-div_left l (2 ^ (64 - o) * m) (pow_pos o))

limb_below : (l o : ℕ) → l < 2 ^ 64 → o < 64 → l / 2 ^ o < 2 ^ (64 - o)
limb_below l o h below =
    (div-lt_iff_lt-mul (pow_pos o)).1
      (omega (arith, h, pow_split o 64 (omega arith), mul_comm (2 ^ o) (2 ^ (64 - o))))

-- The window lies in the limb.
window_within : (q o w m : ℕ) → o + w ≤ 64 → (q + 2 ^ (64 - o) * m) % 2 ^ w ≡ q % 2 ^ w
window_within q o w m h =
    let split : 2 ^ (64 - o) * m ≡ 2 ^ w * (2 ^ (64 - o - w) * m) =
      ap (λ (t : ℕ). t * m) (pow_split w (64 - o) (omega arith))
      ∙ mul_assoc (2 ^ w) (2 ^ (64 - o - w)) m in
    rw split (add-mul-mod_self_left q (2 ^ w) (2 ^ (64 - o - w) * m))

-- A limb's lowest bits are those of the number from that limb on.
low_bits : (l m b : ℕ) → b ≤ 64 → (l + 2 ^ 64 * m) % 2 ^ b ≡ l % 2 ^ b
low_bits l m b h =
    let split : 2 ^ 64 * m ≡ 2 ^ b * (2 ^ (64 - b) * m) =
      ap (λ (t : ℕ). t * m) (pow_split b 64 h) ∙ mul_assoc (2 ^ b) (2 ^ (64 - b)) m in
    rw split (add-mul-mod_self_left l (2 ^ b) (2 ^ (64 - b) * m))

-- The window reaches into the next limb.
window_across :
    (q l o w m : ℕ)
    → o < 64
    → w ≤ 64
    → 64 < o + w
    → q < 2 ^ (64 - o)
    → bit_or (q % 2 ^ w) (l % 2 ^ (w - (64 - o)) * 2 ^ (64 - o) % u64_mod)
      ≡ (q + 2 ^ (64 - o) * (l + 2 ^ 64 * m)) % 2 ^ w
window_across q l o w m ho hw across below =
    let left = w - (64 - o) in
    let whole : 2 ^ w ≡ 2 ^ (64 - o) * 2 ^ left = pow_split (64 - o) w (omega arith) in
    let narrow : q < 2 ^ w =
      lt_of_lt_of_le below
        (pow-le-pow_right {n = 2} (omega arith) {i = 64 - o} {j = w} (omega arith)) in
    let rest : l % 2 ^ left < 2 ^ left = mod-lt l (pow_pos left) in
    let fits : l % 2 ^ left * 2 ^ (64 - o) < u64_mod =
      lt_of_lt_of_le
        (product_below (l % 2 ^ left) (2 ^ left) (2 ^ (64 - o)) rest (pow_pos (64 - o)))
        (subst (λ n. n ≤ u64_mod) (whole ∙ mul_comm (2 ^ (64 - o)) (2 ^ left))
          (pow-le-pow_right {n = 2} (omega arith) {i = w} {j = 64} hw)) in
    let lowest : (l + 2 ^ 64 * m) % 2 ^ left ≡ l % 2 ^ left = low_bits l m left (omega arith) in
    rw (mod-eq_of_lt narrow, mod-eq_of_lt fits, whole)
      (bit_or-disjoint (64 - o) q (l % 2 ^ left) below
        ∙ ap (λ (t : ℕ). q + t) (mul_comm (l % 2 ^ left) (2 ^ (64 - o)))
        ∙ sym (
            mod-product q (2 ^ (64 - o)) (2 ^ left) (l + 2 ^ 64 * m) below (pow_pos left)
            ∙ ap (λ (t : ℕ). q + 2 ^ (64 - o) * t) lowest))

-- The bits of the number from `start` on, by the limbs.
number-shift :
    (xs : List ℕ) (start : ℕ)
    → AreLimbs xs
    → number xs / 2 ^ start
      ≡ limb xs (start / 64) / 2 ^ (start % 64)
        + 2 ^ (64 - start % 64) * number (drop (suc (start / 64)) xs)
number-shift xs start h =
    ap (λ n. number xs / 2 ^ n) {x = start} {y = start / 64 * 64 + start % 64} (omega arith)
    ∙ number-div xs (start / 64) (start % 64) h
    ∙ ap (λ n. n / 2 ^ (start % 64)) (number-drop xs (start / 64))
    ∙ shift_limb (limb xs (start / 64)) (start % 64) (number (drop (suc (start / 64)) xs))
        (omega arith)

pub window_lem :
    (xs : List ℕ) (w start : ℕ)
    → AreLimbs xs
    → w ≤ 64
    → window xs w start ≡ number xs / 2 ^ start % 2 ^ w
unfolding window
window_lem xs w start h hw =
    let o = start % 64 in
    let s = start / 64 in
    let q = limb xs s / 2 ^ o in
    let small : o < 64 = omega arith in
    let below : q < 2 ^ (64 - o) = limb_below (limb xs s) o (limb-lt xs s h) small in
    let goal = number-shift xs start h in
    rw goal (elim (Bool-cases (ltb 64 (o + w))) [
      | inr within ↦ rw within (sym (window_within q o w (number (drop (suc s) xs)) (ground arith)))
      | inl across ↦ elim (Bool-cases (ltb s (length xs - 1))) [
        | inl more ↦
            rw (across, more, number-drop xs (suc s))
              (window_across q (limb xs (suc s)) o w (number (drop (suc (suc s)) xs)) small hw
                (ground arith) below)
        | inr last ↦
            rw (across, last, number-drop_all xs (suc s) (ground arith))
              (ap (λ (t : ℕ). t % 2 ^ w) (omega arith))
      ]
    ])
