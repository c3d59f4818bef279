-- ===== src/Banderwagon/Products.antt =====
-- One round of the generic `Committer::mul_index`.
use mathlib.Core.Path.{subst}
use salt_optimizations.Prelude.{
  ℕ, ◌+◌, ◌-◌, ◌*◌, ◌/◌, ◌^◌, ◌≤◌, ◌<◌, ◌≡◌, refl, sym, ap, ◌∙◌, inl, inr, List, [], ◌∷◌, ◌++◌, map,
  Option, some, ltb, ◌==◌, Bool-cases, arith,
}
use salt_optimizations.Banderwagon.Curve.{Curve, IsField, CurvePoints, Stands, Extended, Affine}
use salt_optimizations.Banderwagon.Committer.{negated, pick, add_all, add_affine_point}
use salt_optimizations.Banderwagon.Tables.{point_table}
use salt_optimizations.Banderwagon.Multiples.{times, times_zero, neg_zero, unit}
use salt_optimizations.Banderwagon.Addition.{add_affine_point-Stands, add_affine_point-negated}
use salt_optimizations.Banderwagon.Recoding.{
  double_half, Balances, Balances-low, Balances-high, point_table-entry,
}

module _ (c : Curve) (f : IsField c) (ps : CurvePoints c f) where
  -- Affine points whose sum is `added`.
  abbrev pub Adds : List (Affine c.Fq) → ps.group.Point → Type 0
  Adds qs added =
      (r : Extended c.Fq) (p : ps.group.Point)
      → Stands c f ps r p
      → Stands c f ps (add_all c r qs) (ps.group.add p added)

  pub Adds-nil : Adds [] ps.group.zero
  unfolding add_all
  Adds-nil r p h = subst (Stands c f ps r) (sym (ps.group.add-zero p)) h

  Adds-point : (q : ps.group.Point) → Adds (ps.coords q ∷ []) q
  unfolding add_all
  Adds-point q r p h = add_affine_point-Stands c f ps r p q h

  Adds-negated : (q : ps.group.Point) → Adds (negated c (ps.coords q) ∷ []) (ps.group.neg q)
  unfolding add_all
  Adds-negated q r p h = add_affine_point-negated c f ps r p q h

  add_all-append :
      (r : Extended c.Fq) (qs rs : List (Affine c.Fq))
      → add_all c r (qs ++ rs) ≡ add_all c (add_all c r qs) rs
  unfolding add_all
  add_all-append r [] rs = refl
  add_all-append r (q ∷ qs) rs = add_all-append (add_affine_point c r q.x q.y) qs rs

  pub Adds-append :
      (qs rs : List (Affine c.Fq)) (a b : ps.group.Point)
      → Adds qs a
      → Adds rs b
      → Adds (qs ++ rs) (ps.group.add a b)
  Adds-append qs rs a b ha hb r p h =
      rw (add_all-append r qs rs, ← ps.group.add_assoc p a b)
        (hb (add_all c r qs) (ps.group.add p a) (ha r p h))

  module _ (w : ℕ) (base : ps.group.Point) (pos : 0 < w) where
    abbrev pub half : ℕ
    half = 2 ^ (w - 1)

    abbrev pub stored : List (Affine c.Fq)
    stored = map ps.coords (point_table c f ps w base)

    -- A round of the generic loop.
    abbrev pub Picked : ℕ → ℕ → Option (List (Affine c.Fq) × ℕ) → Type 0
    Picked i index result =
        (qs : List (Affine c.Fq)) × (carry : ℕ) × (added : ps.group.Point) × (result
          ≡ some (qs, carry))
        × Adds qs added
        × Balances ps.group half index carry (unit ps.group i half base) added

    pub pick-Picked :
        (i carry chunk : ℕ)
        → i < 253 / w + 1
        → carry ≤ 1
        → chunk < 2 ^ w
        → Picked i (chunk + carry) (pick c w stored i carry chunk)
    unfolding pick
    pick-Picked i carry chunk hi hc hd =
        let g = ps.group in
        let u = unit g i half base in
        let index = chunk + carry in
        let rest = 2 ^ w - index in
        let size = double_half w pos in
        elim (Bool-cases (index == 0)) [
          | inl none_left ↦
              let nothing : index ≡ 0 = ground arith in
              let no_carry : carry ≡ 0 = omega arith in
              rw none_left (
                [],
                carry,
                g.zero,
                refl,
                Adds-nil,
                subst (λ n. Balances g half index n u g.zero) (sym no_carry)
                    (subst (Balances g half index 0 u)
                      (ap (λ n. times g n u) nothing ∙ times_zero g u)
                      (Balances-low g half index u (omega arith))),
              )
          | inr more ↦ elim (Bool-cases (ltb half index)) [
            | inr low ↦
                let within : index ≤ half = ground arith in
                rw (more, low, point_table-entry c f ps w i index base hi within)
                  (
                    ps.coords (times g index u) ∷ [],
                    0,
                    times g index u,
                    refl,
                    Adds-point (times g index u),
                    Balances-low g half index u within,
                  )
            | inl high ↦
                let above : half < index = ground arith in
                let balance = Balances-high g half index u above (omega arith) in
                let same : rest ≡ 2 * half - index = omega arith in
                elim (Bool-cases (rest == 0)) [
                  | inl full ↦
                      let nothing : 2 * half - index ≡ 0 = ground arith in
                      rw (more, high, full)
                        (
                          [],
                          1,
                          g.zero,
                          refl,
                          Adds-nil,
                          subst (Balances g half index 1 u)
                              (ap g.neg (ap (λ n. times g n u) nothing ∙ times_zero g u)
                                ∙ neg_zero g)
                              balance,
                        )
                  | inr part ↦
                      rw
                        (
                          more,
                          high,
                          part,
                          same,
                          point_table-entry c f ps w i (2 * half - index) base hi (omega arith),
                        )
                        (
                          negated c (ps.coords (times g (2 * half - index) u)) ∷ [],
                          1,
                          g.neg (times g (2 * half - index) u),
                          refl,
                          Adds-negated (times g (2 * half - index) u),
                          balance,
                        )
                ]
          ]
        ]
