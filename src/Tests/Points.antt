-- ===== src/Tests/Points.antt =====
-- A curve to run the committer of salt_committer.rs with: two points over the field of two elements.
use salt_optimizations.Prelude.{
  ℕ, ◌+◌, ◌^◌, ◌≡◌, ◌≢◌, refl, ap, ◌∙◌, Bool, true, false, not, inl, inr, Bool-cases, List, [], ◌∷◌,
  map, some, arith,
}
use salt_optimizations.Banderwagon.Curve.{
  Curve, IsField, Group, CurvePoints, Stands, AllStand, IsLawful, Extended, Affine, cross,
}
use salt_optimizations.Banderwagon.Committer.{
  calculate_prefetch_index, new, mul_index, mul_index_x86_64, push_points, add_all, run_chunks,
}
use salt_optimizations.Banderwagon.Limbs.{number}
use salt_optimizations.Banderwagon.Multiples.{times}
use salt_optimizations.Banderwagon.Scalars.{mul_index-Stands, mul_index_x86_64-Stands}
use salt_optimizations.Tests.Toy.{either}

abbrev both : Bool → Bool → Bool
both false b = false
both true b = b

-- -5 x² + y² = 1 is x + y = 1 here.
abbrev two_points : Curve
two_points = record {
  Fq = Bool;
  add = either;
  mul = both;
  neg = λ a. a;
  five = true;
  curve_d = false;
  zero_point = record { x = false; y = true; t = false; z = true };
  add_points = λ d e. record {
    x = either (both d.x e.y) (both d.y e.x);
    y = either (both d.y e.y) (both d.x e.x);
    t = both (either (both d.x e.y) (both d.y e.x)) (either (both d.y e.y) (both d.x e.x));
    z = true;
  };
  normalize_batch = map (λ e. record { x = e.x; y = e.y });
}

either_assoc : (a b d : Bool) → either (either a b) d ≡ either a (either b d)
either_assoc false b d = refl
either_assoc true false d = refl
either_assoc true true false = refl
either_assoc true true true = refl

either_comm : (a b : Bool) → either a b ≡ either b a
either_comm false false = refl
either_comm false true = refl
either_comm true false = refl
either_comm true true = refl

either-false : (a : Bool) → either a false ≡ a
either-false false = refl
either-false true = refl

either_self : (a : Bool) → either a a ≡ false
either_self false = refl
either_self true = refl

both_assoc : (a b d : Bool) → both (both a b) d ≡ both a (both b d)
both_assoc false b d = refl
both_assoc true b d = refl

both_comm : (a b : Bool) → both a b ≡ both b a
both_comm false false = refl
both_comm false true = refl
both_comm true false = refl
both_comm true true = refl

both-true : (a : Bool) → both a true ≡ a
both-true false = refl
both-true true = refl

both-either : (a b d : Bool) → both a (either b d) ≡ either (both a b) (both a d)
both-either false b d = refl
both-either true b d = refl

both-ne-false : (a b : Bool) → a ≢ false → b ≢ false → both a b ≢ false
both-ne-false false b h k = absurd (h refl)
both-ne-false true b h k = k

abbrev two_points-IsField : IsField two_points
two_points-IsField = record {
  zero_fq = false;
  one = true;
  add_assoc = either_assoc;
  add_comm = either_comm;
  add-zero = either-false;
  add-neg = either_self;
  mul_assoc = both_assoc;
  mul_comm = both_comm;
  mul-one = both-true;
  mul-add = both-either;
  mul-ne-zero = both-ne-false;
}

abbrev parity : Group
parity = record {
  Point = Bool;
  zero = false;
  add = either;
  neg = λ p. p;
  add_assoc = either_assoc;
  add_comm = either_comm;
  add-zero = either-false;
  add-neg = either_self;
}

abbrev at : Bool → Affine Bool
at p = record { x = p; y = not p }

-- The curve's d is 0.
no_cross : (p q : Bool) → either true (cross two_points (at p) (at q)) ≡ true
no_cross false q = refl
no_cross true false = refl
no_cross true true = refl

x_sum :
    (p q : Bool)
    → both (either p q) (either true (cross two_points (at p) (at q)))
      ≡ either (both p (not q)) (both (not p) q)
x_sum false false = refl
x_sum false true = refl
x_sum true false = refl
x_sum true true = refl

y_sum :
    (p q : Bool)
    → both (not (either p q)) (either true (cross two_points (at p) (at q)))
      ≡ either (both (not p) (not q)) (both (both p q) true)
y_sum false false = refl
y_sum false true = refl
y_sum true false = refl
y_sum true true = refl

abbrev parity_points : CurvePoints two_points two_points-IsField
parity_points = record {
  group = parity;
  coords = at;
  plus-ne-zero = λ p q. rw (no_cross p q) cc;
  minus-ne-zero = λ p q. rw (no_cross p q) cc;
  x-add = x_sum;
  y-add = y_sum;
  coords-neg = λ p. refl;
}

abbrev Represents : Extended Bool → Bool → Type 0
Represents = Stands two_points two_points-IsField parity_points

unit_z : (e : Extended Bool) (p : Bool) → Represents e p → e.z ≡ true
unit_z e p h = elim (Bool-cases e.z) [ inl one ↦ one | inr zero ↦ absurd (h.z-ne-zero zero) ]

x_of_point : (e : Extended Bool) (p : Bool) → Represents e p → e.x ≡ p
x_of_point e p h = h.x_lem ∙ ap (both p) (unit_z e p h) ∙ both-true p

y_of_point : (e : Extended Bool) (p : Bool) → Represents e p → e.y ≡ not p
y_of_point e p h = h.y_lem ∙ ap (both (not p)) (unit_z e p h) ∙ both-true (not p)

sum_x : (p q : Bool) → either (both p (not q)) (both (not p) q) ≡ both (either p q) true
sum_x false false = refl
sum_x false true = refl
sum_x true false = refl
sum_x true true = refl

sum_y : (p q : Bool) → either (both (not p) (not q)) (both p q) ≡ both (not (either p q)) true
sum_y false false = refl
sum_y false true = refl
sum_y true false = refl
sum_y true true = refl

sum_t :
    (p q : Bool)
    → both (either (both p (not q)) (both (not p) q)) (either (both (not p) (not q)) (both p q))
      ≡ both (both (either p q) (not (either p q))) true
sum_t false false = refl
sum_t false true = refl
sum_t true false = refl
sum_t true true = refl

sum_lem :
    (d e : Extended Bool) (p q : Bool)
    → Represents d p
    → Represents e q
    → Represents (two_points.add_points d e) (either p q)
sum_lem d e p q hd he =
    let dx = x_of_point d p hd in
    let dy = y_of_point d p hd in
    let ex = x_of_point e q he in
    let ey = y_of_point e q he in
    record {
      x_lem = rw (dx, dy, ex, ey) (sum_x p q);
      y_lem = rw (dx, dy, ex, ey) (sum_y p q);
      t_lem = rw (dx, dy, ex, ey) (sum_t p q);
      z-ne-zero = cc;
    }

normalized :
    (es : List (Extended Bool)) (qs : List Bool)
    → AllStand two_points two_points-IsField parity_points es qs
    → two_points.normalize_batch es ≡ map at qs
normalized [] [] h = refl
normalized [] (q ∷ qs) h = absurd h
normalized (e ∷ es) [] h = absurd h
normalized (e ∷ es) (q ∷ qs) h =
    rw (x_of_point e q h.0, y_of_point e q h.0) (ap (λ l. at q ∷ l) (normalized es qs h.1))

abbrev two_points-IsLawful : IsLawful two_points two_points-IsField parity_points
two_points-IsLawful = record {
  zero_point-Stands = record { x_lem = refl; y_lem = refl; t_lem = refl; z-ne-zero = λ e. cc };
  add_points-Stands = sum_lem;
  normalize_batch_lem = normalized;
}

abbrev base : Extended Bool
base = record { x = true; y = false; t = false; z = true }

base-Represents : Represents base true
base-Represents = record { x_lem = refl; y_lem = refl; t_lem = refl; z-ne-zero = λ e. cc }

-- 3 * 2 ^ 192 + 2 ^ 64 + 2 ^ 63 + 11: windows of 4 bits with carries, and across two limbs.
abbrev scalar : List ℕ
scalar = (2 ^ 63 + 11) ∷ 1 ∷ 0 ∷ 3 ∷ []

mul_index-Stands_example :
    (e : Extended Bool) × (mul_index two_points (new two_points (base ∷ []) 5) scalar 0 ≡ some e)
    × Represents e (times parity (number scalar) true)
mul_index-Stands_example =
    mul_index-Stands two_points two_points-IsField parity_points two_points-IsLawful (base ∷ [])
      (true ∷ []) 5 0 true scalar (base-Represents, tt) refl (omega arith) (omega arith)
      (omega arith) (omega arith)

mul_index_x86_64-Stands_example :
    (e : Extended Bool) × (mul_index_x86_64 two_points (new two_points (base ∷ []) 5) scalar 0
      ≡ some e)
    × Represents e (times parity (number scalar) true)
mul_index_x86_64-Stands_example =
    mul_index_x86_64-Stands two_points two_points-IsField parity_points two_points-IsLawful
      (base ∷ []) (true ∷ []) 5 0 true scalar (base-Represents, tt) refl (omega arith) (omega arith)
      (omega arith) (omega arith)

-- Bits 60 to 64 come from two limbs.
windows_across :
    calculate_prefetch_index ((2 ^ 63 + 11) ∷ 1 ∷ 0 ∷ 3 ∷ []) 32
    ≡ 11 ∷ 2 ^ 31 ∷ 1 ∷ 0 ∷ 0 ∷ 0 ∷ 3 ∷ 0 ∷ []
unfolding calculate_prefetch_index
windows_across = refl

-- An odd scalar gives the base point back, in both builds.
odd : mul_index two_points (new two_points (base ∷ []) 5) scalar 0 ≡ some base
unfolding mul_index new calculate_prefetch_index push_points add_all
odd = refl

odd_x86_64 : mul_index_x86_64 two_points (new two_points (base ∷ []) 5) scalar 0 ≡ some base
unfolding mul_index_x86_64 new calculate_prefetch_index run_chunks
odd_x86_64 = refl
