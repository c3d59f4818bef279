-- ===== src/Banderwagon/Curve.antt =====
-- What salt_committer.rs takes from ark_ff and ark_ec, and in the x86_64 build, for products, from the
-- assembly of scalar_multi_asm.rs: the base field `Fq`, points in extended
-- projective coordinates, their sum, and the change to affine coordinates; and a group of points of
-- the curve -5 x² + y² = 1 + d x² y².
use salt_optimizations.Prelude.{◌≡◌, ◌≢◌, List, [], ◌∷◌, map}

pub record Affine (F : Type 0) : Type 0 where
  pub x : F
  pub y : F

-- `EdwardsProjective`: x = X / Z, y = Y / Z and x * y = T / Z.
pub record Extended (F : Type 0) : Type 0 where
  pub x : F
  pub y : F
  pub t : F
  pub z : F

pub record Curve : Type 1 where
  pub Fq : Type 0
  pub add : Fq → Fq → Fq
  pub mul : Fq → Fq → Fq
  pub neg : Fq → Fq
  -- `Fq::from(5u64)`
  pub five : Fq
  -- the field element whose Montgomery form the source writes out
  pub curve_d : Fq
  -- `EdwardsProjective::zero()`, which is also its default
  pub zero_point : Extended Fq
  -- `+=` on `EdwardsProjective`
  pub add_points : Extended Fq → Extended Fq → Extended Fq
  pub normalize_batch : List (Extended Fq) → List (Affine Fq)

-- The field laws in use.
pub record IsField (c : Curve) : Type 0 where
  pub zero_fq : c.Fq
  pub one : c.Fq
  pub add_assoc : (a b d : c.Fq) → c.add (c.add a b) d ≡ c.add a (c.add b d)
  pub add_comm : (a b : c.Fq) → c.add a b ≡ c.add b a
  pub add-zero : (a : c.Fq) → c.add a zero_fq ≡ a
  pub add-neg : (a : c.Fq) → c.add a (c.neg a) ≡ zero_fq
  pub mul_assoc : (a b d : c.Fq) → c.mul (c.mul a b) d ≡ c.mul a (c.mul b d)
  pub mul_comm : (a b : c.Fq) → c.mul a b ≡ c.mul b a
  pub mul-one : (a : c.Fq) → c.mul a one ≡ a
  pub mul-add : (a b d : c.Fq) → c.mul a (c.add b d) ≡ c.add (c.mul a b) (c.mul a d)
  pub mul-ne-zero : (a b : c.Fq) → a ≢ zero_fq → b ≢ zero_fq → c.mul a b ≢ zero_fq

-- An abelian group.
pub record Group : Type 1 where
  pub Point : Type 0
  pub zero : Point
  pub add : Point → Point → Point
  pub neg : Point → Point
  pub add_assoc : (p q r : Point) → add (add p q) r ≡ add p (add q r)
  pub add_comm : (p q : Point) → add p q ≡ add q p
  pub add-zero : (p : Point) → add p zero ≡ p
  pub add-neg : (p : Point) → add p (neg p) ≡ zero

-- d * x₁ * y₁ * x₂ * y₂
abbrev pub cross : (c : Curve) → Affine c.Fq → Affine c.Fq → c.Fq
cross c p q = c.mul (c.mul (c.mul p.x p.y) (c.mul q.x q.y)) c.curve_d

-- A group of points of the curve, such as the subgroup of prime order: the coordinates of a point, and
-- the twisted Edwards addition law, which has no exception among the points of the group. On the
-- whole curve it has some.
pub record CurvePoints (c : Curve) (f : IsField c) : Type 1 where
  pub group : Group
  pub coords : group.Point → Affine c.Fq
  pub plus-ne-zero : (p q : group.Point) → c.add f.one (cross c (coords p) (coords q)) ≢ f.zero_fq
  pub minus-ne-zero :
      (p q : group.Point) → c.add f.one (c.neg (cross c (coords p) (coords q))) ≢ f.zero_fq
  pub x-add :
      (p q : group.Point)
      → c.mul (coords (group.add p q)).x (c.add f.one (cross c (coords p) (coords q)))
        ≡ c.add (c.mul (coords p).x (coords q).y) (c.mul (coords p).y (coords q).x)
  pub y-add :
      (p q : group.Point)
      → c.mul (coords (group.add p q)).y (c.add f.one (c.neg (cross c (coords p) (coords q))))
        ≡ c.add (c.mul (coords p).y (coords q).y) (c.mul (c.mul (coords p).x (coords q).x) c.five)
  pub coords-neg :
      (p : group.Point) → coords (group.neg p) ≡ record { x = c.neg (coords p).x; y = (coords p).y }

module _ (c : Curve) (f : IsField c) (ps : CurvePoints c f) where
  -- Extended coordinates that stand for a point.
  pub record Stands (e : Extended c.Fq) (p : ps.group.Point) : Type 0 where
    pub x_lem : e.x ≡ c.mul (ps.coords p).x e.z
    pub y_lem : e.y ≡ c.mul (ps.coords p).y e.z
    pub t_lem : e.t ≡ c.mul (c.mul (ps.coords p).x (ps.coords p).y) e.z
    pub z-ne-zero : e.z ≢ f.zero_fq

  abbrev pub AllStand : List (Extended c.Fq) → List ps.group.Point → Type 0
  AllStand [] [] = Unit
  AllStand [] (p ∷ qs) = ⊥
  AllStand (e ∷ es) [] = ⊥
  AllStand (e ∷ es) (p ∷ qs) = Stands e p × AllStand es qs

  -- What the library's operations do with coordinates that stand for points.
  pub record IsLawful : Type 0 where
    pub zero_point-Stands : Stands c.zero_point ps.group.zero
    pub add_points-Stands :
        (d e : Extended c.Fq) (p q : ps.group.Point)
        → Stands d p
        → Stands e q
        → Stands (c.add_points d e) (ps.group.add p q)
    pub normalize_batch_lem :
        (es : List (Extended c.Fq)) (qs : List ps.group.Point)
        → AllStand es qs
        → c.normalize_batch es ≡ map ps.coords qs
