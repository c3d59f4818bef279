-- ===== src/Banderwagon/Limbs.antt =====
-- Numbers in limbs of 64 bits, and the bits of such a number from a position on.
use Prim.Native.Nat.{bit_or, bit_or-bitwise, digits, max}
use native.Mathlib.Nat.{
  pow-suc, add-mul-mod_self_left, mod-eq_of_lt, mod-lt, div-div-eq-div-mul, mod-add-div, add-zero,
  add-suc, mul_assoc, zero-div, one-le-pow,
}
use salt_optimizations.Prelude.{
  ℕ, zero, suc, ◌+◌, ◌-◌, ◌*◌, ◌/◌, ◌%◌, ◌^◌, ◌≤◌, ◌<◌, ◌≡◌, refl, sym, ap, ◌∙◌, List, [], ◌∷◌,
  length, drop, arith,
}
use salt_optimizations.Banderwagon.Committer.{limb}

pub pow-add : (a b : ℕ) → 2 ^ (a + b) ≡ 2 ^ a * 2 ^ b
pow-add a zero = rw (add-zero a) (omega arith)
pow-add a (suc b) =
    rw (add-suc a b, pow-suc 2 (a + b), pow-suc 2 b, pow-add a b) (mul_assoc (2 ^ a) (2 ^ b) 2)

pub pow_pos : (a : ℕ) → 0 < 2 ^ a
pow_pos a = one-le-pow a 2 (omega arith)

pub pow_split : (a b : ℕ) → a ≤ b → 2 ^ b ≡ 2 ^ a * 2 ^ (b - a)
pow_split a b h = ap (λ n. 2 ^ n) {x = b} {y = a + (b - a)} (omega arith) ∙ pow-add a (b - a)

-- Bits that do not overlap add up.
or_digits : (n k d m : ℕ) → d ≤ n → d < 2 ^ k → digits (λ b. b) max n d (m * 2 ^ k) ≡ d + m * 2 ^ k
or_digits zero k zero m h below = omega arith
or_digits zero k (suc d) m h below = absurd (omega arith)
or_digits (suc n) k zero m h below = omega arith
or_digits (suc n) zero (suc d) m h below = absurd (omega arith)
or_digits (suc n) (suc k) (suc d) m h below =
    let e : m * 2 ^ suc k ≡ m * 2 ^ k * 2 =
      ap (λ t. m * t) (pow-suc 2 k) ∙ sym (mul_assoc m (2 ^ k) 2) in
    let half : m * 2 ^ k * 2 / 2 ≡ m * 2 ^ k = omega arith in
    rw (e, half)
      (omega (
        arith,
        pow-suc 2 k,
        or_digits n k (suc d / 2) m (omega arith) (omega (arith, pow-suc 2 k)),
      ))

pub bit_or-disjoint : (k d m : ℕ) → d < 2 ^ k → bit_or d (m * 2 ^ k) ≡ d + m * 2 ^ k
bit_or-disjoint k d m below = bit_or-bitwise d (m * 2 ^ k) ∙ or_digits d k d m (omega arith) below

abbrev pub number : List ℕ → ℕ
number [] = 0
number (x ∷ xs) = x + 2 ^ 64 * number xs

abbrev pub AreLimbs : List ℕ → Type 0
AreLimbs [] = Unit
AreLimbs (x ∷ xs) = (x < 2 ^ 64) × AreLimbs xs

pub limb-lt : (xs : List ℕ) (s : ℕ) → AreLimbs xs → limb xs s < 2 ^ 64
limb-lt [] s h = omega arith
limb-lt (x ∷ xs) zero h = h.0
limb-lt (x ∷ xs) (suc s) h = limb-lt xs s h.1

-- The limbs from `s` on.
pub number-drop :
    (xs : List ℕ) (s : ℕ) → number (drop s xs) ≡ limb xs s + 2 ^ 64 * number (drop (suc s) xs)
number-drop [] zero = omega arith
number-drop [] (suc s) = omega arith
number-drop (x ∷ xs) zero = refl
number-drop (x ∷ xs) (suc s) = number-drop xs s

pub number-drop_all : (xs : List ℕ) (s : ℕ) → length xs ≤ s → number (drop s xs) ≡ 0
number-drop_all [] zero h = refl
number-drop_all [] (suc s) h = refl
number-drop_all (x ∷ xs) zero h = absurd (omega arith)
number-drop_all (x ∷ xs) (suc s) h = number-drop_all xs s (omega arith)

pub number-div :
    (xs : List ℕ) (s o : ℕ)
    → AreLimbs xs
    → number xs / 2 ^ (s * 64 + o) ≡ number (drop s xs) / 2 ^ o
number-div xs zero o h = ap (λ n. number xs / 2 ^ n) {x = 0 * 64 + o} {y = o} (omega arith)
number-div [] (suc s) o h = zero-div (2 ^ (suc s * 64 + o)) ∙ sym (zero-div (2 ^ o))
number-div (x ∷ xs) (suc s) o h =
    let split : 2 ^ (suc s * 64 + o) ≡ 2 ^ 64 * 2 ^ (s * 64 + o) =
      ap (λ n. 2 ^ n) {x = suc s * 64 + o} {y = 64 + (s * 64 + o)} (omega arith)
      ∙ pow-add 64 (s * 64 + o) in
    let whole : (x + 2 ^ 64 * number xs) / 2 ^ 64 ≡ number xs = omega arith in
    rw (split, ← div-div-eq-div-mul (x + 2 ^ 64 * number xs) (2 ^ 64) (2 ^ (s * 64 + o)), whole)
      (number-div xs s o h.1)

-- A number below `a`, then others: the bits below `a * b`.
pub mod-product : (q a b m : ℕ) → q < a → 0 < b → (q + a * m) % (a * b) ≡ q + a * (m % b)
mod-product q a b m below pos =
    let room : m % b < b = mod-lt m pos in
    let split : q + a * m ≡ q + a * (m % b) + a * b * (m / b) =
      omega (arith, ap (λ (t : ℕ). a * t) (mod-add-div m b)) in
    rw split (add-mul-mod_self_left (q + a * (m % b)) (a * b) (m / b) ∙ mod-eq_of_lt (grind arith))
