-- ===== src/Banderwagon/Addition.antt =====
-- `add_affine_point` of salt_committer.rs adds a point of the curve.
use mathlib.Core.Path.{subst, ap₂}
use salt_optimizations.Prelude.{◌≡◌, ◌≢◌, sym, ap, ◌∙◌}
use salt_optimizations.Banderwagon.Curve.{Curve, IsField, CurvePoints, Stands, Extended, cross}
use salt_optimizations.Banderwagon.Committer.{sub, add_affine_point}

module _ (c : Curve) (f : IsField c) where
  open c use {Fq, add, mul, neg}
  open f use {add_assoc, add_comm, add-zero, add-neg, mul_assoc, mul_comm, mul-one, mul-add}

  mul_right_comm : (a b d : Fq) → mul (mul a b) d ≡ mul (mul a d) b
  mul_right_comm a b d = mul_assoc a b d ∙ ap (mul a) (mul_comm b d) ∙ sym (mul_assoc a d b)

  add-mul : (a b d : Fq) → mul (add a b) d ≡ add (mul a d) (mul b d)
  add-mul a b d =
      mul_comm (add a b) d
      ∙ mul-add d a b
      ∙ ap (λ t. add t (mul d b)) (mul_comm d a)
      ∙ ap (add (mul a d)) (mul_comm d b)

  one-mul : (a : Fq) → mul f.one a ≡ a
  one-mul a = mul_comm f.one a ∙ mul-one a

  add-sub : (a b : Fq) → sub c (add a b) a ≡ b
  add-sub a b =
      ap (λ t. sub c t a) (add_comm a b)
      ∙ add_assoc b a (neg a)
      ∙ ap (add b) (add-neg a)
      ∙ add-zero b

  add-sub_right : (a b : Fq) → sub c (add a b) b ≡ a
  add-sub_right a b = ap (λ t. sub c t b) (add_comm a b) ∙ add-sub b a

  neg_unique : (a b : Fq) → add a b ≡ f.zero_fq → b ≡ neg a
  neg_unique a b e =
      sym (add-zero b)
      ∙ ap (add b) (sym (add-neg a))
      ∙ sym (add_assoc b a (neg a))
      ∙ ap (λ t. add t (neg a)) (add_comm b a ∙ e)
      ∙ add_comm f.zero_fq (neg a)
      ∙ add-zero (neg a)

  zero-mul : (a : Fq) → mul f.zero_fq a ≡ f.zero_fq
  zero-mul a =
      let z = mul f.zero_fq a in
      sym (add-sub z z)
      ∙ ap (λ t. sub c t z)
          (sym (add-mul f.zero_fq f.zero_fq a) ∙ ap (λ t. mul t a) (add-zero f.zero_fq))
      ∙ add-neg z

  neg-mul : (a b : Fq) → mul (neg a) b ≡ neg (mul a b)
  neg-mul a b =
      neg_unique (mul a b) (mul (neg a) b)
        (sym (add-mul a (neg a) b) ∙ ap (λ t. mul t b) (add-neg a) ∙ zero-mul b)

  -- (x + y) * (u + v) - x * u - y * v
  cross_terms :
      (x y u v : Fq)
      → sub c (sub c (mul (add x y) (add u v)) (mul x u)) (mul y v) ≡ add (mul x v) (mul y u)
  cross_terms x y u v =
      let spread : mul (add x y) (add u v)
          ≡ add (mul x u) (add (add (mul x v) (mul y u)) (mul y v)) =
        mul-add (add x y) u v
        ∙ ap (λ t. add t (mul (add x y) v)) (add-mul x y u)
        ∙ ap (add (add (mul x u) (mul y u))) (add-mul x y v)
        ∙ add_assoc (mul x u) (mul y u) (add (mul x v) (mul y v))
        ∙ ap (add (mul x u)) (
            sym (add_assoc (mul y u) (mul x v) (mul y v))
            ∙ ap (λ t. add t (mul y v)) (add_comm (mul y u) (mul x v))) in
      ap (λ t. sub c (sub c t (mul x u)) (mul y v)) spread
      ∙ ap (λ t. sub c t (mul y v)) (add-sub (mul x u) (add (add (mul x v) (mul y u)) (mul y v)))
      ∙ add-sub_right (add (mul x v) (mul y u)) (mul y v)

  -- What is left over once `z` is taken out of each intermediate value.
  over_z : (a z k : Fq) → k ≡ mul a z → add z k ≡ mul (add f.one a) z
  over_z a z k e =
      ap (add z) e ∙ ap (λ t. add t (mul a z)) (sym (one-mul z)) ∙ sym (add-mul f.one a z)

  -- The three products of the sum's coordinates.
  product_x : (x g k : Fq) → mul (mul x g) k ≡ mul x (mul k g)
  product_x x g k = mul_assoc x g k ∙ ap (mul x) (mul_comm g k)

  product_y : (y g k : Fq) → mul g (mul y k) ≡ mul y (mul k g)
  product_y y g k = mul_comm g (mul y k) ∙ mul_assoc y k g

  product_t : (x y g k : Fq) → mul (mul x g) (mul y k) ≡ mul (mul x y) (mul k g)
  product_t x y g k =
      sym (mul_assoc (mul x g) y k)
      ∙ ap (λ t. mul t k) (mul_right_comm x g y)
      ∙ product_x (mul x y) g k

  module _ (ps : CurvePoints c f) where
    -- Coordinates that stand for `p`, and the affine coordinates of `q`: the result stands for their
    -- sum.
    pub add_affine_point-Stands :
        (r : Extended Fq) (p q : ps.group.Point)
        → Stands c f ps r p
        → Stands c f ps (add_affine_point c r (ps.coords q).x (ps.coords q).y) (ps.group.add p q)
    unfolding add_affine_point
    add_affine_point-Stands r p q h =
        let x1 = (ps.coords p).x in
        let y1 = (ps.coords p).y in
        let x2 = (ps.coords q).x in
        let y2 = (ps.coords q).y in
        let z = r.z in
        let k0 = cross c (ps.coords p) (ps.coords q) in
        let sum = ps.coords (ps.group.add p q) in
        let k : mul (mul r.t (mul x2 y2)) c.curve_d ≡ mul k0 z =
          ap (λ t. mul (mul t (mul x2 y2)) c.curve_d) h.t_lem
          ∙ ap (λ t. mul t c.curve_d) (mul_right_comm (mul x1 y1) z (mul x2 y2))
          ∙ mul_right_comm (mul (mul x1 y1) (mul x2 y2)) z c.curve_d in
        let k_value = mul (mul r.t (mul x2 y2)) c.curve_d in
        let g_lem : add z k_value ≡ mul (add f.one k0) z = over_z k0 z k_value k in
        let f_lem : sub c z k_value ≡ mul (add f.one (neg k0)) z =
          over_z (neg k0) z (neg k_value) (ap neg k ∙ sym (neg-mul k0 z)) in
        let cross_x : mul r.x y2 ≡ mul (mul x1 y2) z =
          ap (λ t. mul t y2) h.x_lem ∙ mul_right_comm x1 z y2 in
        let cross_y : mul r.y x2 ≡ mul (mul y1 x2) z =
          ap (λ t. mul t x2) h.y_lem ∙ mul_right_comm y1 z x2 in
        let e_lem : sub c (sub c (mul (add r.x r.y) (add x2 y2)) (mul r.x x2)) (mul r.y y2)
            ≡ mul sum.x (add z k_value) =
          cross_terms r.x r.y x2 y2
          ∙ ap (λ t. add t (mul r.y x2)) cross_x
          ∙ ap (add (mul (mul x1 y2) z)) cross_y
          ∙ sym (add-mul (mul x1 y2) (mul y1 x2) z)
          ∙ ap (λ t. mul t z) (sym (ps.x-add p q))
          ∙ mul_assoc sum.x (add f.one k0) z
          ∙ ap (mul sum.x) (sym g_lem) in
        let straight_y : mul r.y y2 ≡ mul (mul y1 y2) z =
          ap (λ t. mul t y2) h.y_lem ∙ mul_right_comm y1 z y2 in
        let straight_x : mul (mul r.x x2) c.five ≡ mul (mul (mul x1 x2) c.five) z =
          ap (λ t. mul (mul t x2) c.five) h.x_lem
          ∙ ap (λ t. mul t c.five) (mul_right_comm x1 z x2)
          ∙ mul_right_comm (mul x1 x2) z c.five in
        let h_lem : add (mul r.y y2) (mul (mul r.x x2) c.five) ≡ mul sum.y (sub c z k_value) =
          ap (λ t. add t (mul (mul r.x x2) c.five)) straight_y
          ∙ ap (add (mul (mul y1 y2) z)) straight_x
          ∙ sym (add-mul (mul y1 y2) (mul (mul x1 x2) c.five) z)
          ∙ ap (λ t. mul t z) (sym (ps.y-add p q))
          ∙ mul_assoc sum.y (add f.one (neg k0)) z
          ∙ ap (mul sum.y) (sym f_lem) in
        record {
          x_lem =
              ap (λ t. mul t (sub c z k_value)) e_lem
              ∙ product_x sum.x (add z k_value) (sub c z k_value);
          y_lem =
              ap (mul (add z k_value)) h_lem ∙ product_y sum.y (add z k_value) (sub c z k_value);
          t_lem = ap₂ mul e_lem h_lem ∙ product_t sum.x sum.y (add z k_value) (sub c z k_value);
          z-ne-zero =
              f.mul-ne-zero (sub c z k_value) (add z k_value)
                (subst (λ t. t ≢ f.zero_fq) (sym f_lem)
                  (f.mul-ne-zero (add f.one (neg k0)) z (ps.minus-ne-zero p q) h.z-ne-zero))
                (subst (λ t. t ≢ f.zero_fq) (sym g_lem)
                  (f.mul-ne-zero (add f.one k0) z (ps.plus-ne-zero p q) h.z-ne-zero));
        }

    -- So does the negated point's.
    pub add_affine_point-negated :
        (r : Extended Fq) (p q : ps.group.Point)
        → Stands c f ps r p
        → Stands c f ps
            (add_affine_point c r (neg (ps.coords q).x) (ps.coords q).y)
            (ps.group.add p (ps.group.neg q))
    add_affine_point-negated r p q h =
        subst (λ a. Stands c f ps (add_affine_point c r a.x a.y) (ps.group.add p (ps.group.neg q)))
          (ps.coords-neg q) (add_affine_point-Stands r p (ps.group.neg q) h)
