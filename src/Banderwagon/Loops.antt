-- ===== src/Banderwagon/Loops.antt =====
-- The loops of the two builds of `Committer::mul_index`.
use mathlib.Core.Path.{subst}
use native.Mathlib.Nat.{pow-succ', pow-zero}
use salt_optimizations.Prelude.{
  ℕ, suc, ◌+◌, ◌-◌, ◌*◌, ◌/◌, ◌^◌, ◌≤◌, ◌<◌, ◌≡◌, refl, sym, ap, ◌∙◌, ◌⊎◌, inl, inr, List, [], ◌∷◌,
  ◌++◌, length, some, leb, Bool-cases, arith,
}
use salt_optimizations.Banderwagon.Curve.{Curve, IsField, CurvePoints, Stands, Extended, Affine}
use salt_optimizations.Banderwagon.Committer.{
  push_points, add_signed, next_index, rounds, add_affine_point,
}
use salt_optimizations.Banderwagon.Limbs.{pow_pos}
use salt_optimizations.Banderwagon.Multiples.{times, times_zero, unit}
use salt_optimizations.Banderwagon.Addition.{add_affine_point-Stands, add_affine_point-negated}
use salt_optimizations.Banderwagon.Digits.{value, AreDigits}
use salt_optimizations.Banderwagon.Recoding.{
  double_half, room_next, Balances, Balances-low, Balances-high, Balances-next, point_table-entry,
}
use salt_optimizations.Banderwagon.Products.{Adds, Adds-nil, Adds-append, stored, pick-Picked}

-- A carry of at most half of what the windows that are left can hold.
abbrev pub Fits : ℕ → ℕ → List ℕ → Type 0
Fits w carry ds = 2 * (carry + value (2 ^ w) ds) ≤ (2 ^ w) ^ length ds

carry_end : (w carry : ℕ) → Fits w carry [] → carry ≡ 0
carry_end w carry h = omega (arith, pow-zero (2 ^ w))

pub carry_step :
    (w index carry : ℕ) (ds : List ℕ)
    → 0 < w
    → (carry ≡ 0) × (index ≤ 2 ^ (w - 1)) ⊎ (carry ≡ 1) × (2 ^ (w - 1) < index)
    → 2 * (index + 2 ^ w * value (2 ^ w) ds) ≤ (2 ^ w) ^ suc (length ds)
    → Fits w carry ds
carry_step w index carry ds pos carried h =
    let v = value (2 ^ w) ds in
    let p = (2 ^ w) ^ length ds in
    let size = double_half w pos in
    room_next (2 ^ (w - 1)) index carry v p (pow_pos (w - 1)) carried (
      subst (λ n. 2 * (index + n * v) ≤ n * p) size
        (subst (λ n. 2 * (index + 2 ^ w * v) ≤ n) (pow-succ' (2 ^ w) (length ds)) h))

pub carry_small :
    (h index carry : ℕ) → (carry ≡ 0) × (index ≤ h) ⊎ (carry ≡ 1) × (h < index) → carry ≤ 1
carry_small h index carry e = omega arith

module _ (c : Curve) (f : IsField c) (ps : CurvePoints c f) (w : ℕ) (base : ps.group.Point)
    (pos : 0 < w) where
  -- A digit's point and the rest make up the number in this window's unit.
  pub next_unit :
      (i index carry v : ℕ) (added : ps.group.Point)
      → Balances ps.group (2 ^ (w - 1)) index carry (unit ps.group i (2 ^ (w - 1)) base) added
      → ps.group.add added (times ps.group (carry + v) (unit ps.group (suc i) (2 ^ (w - 1)) base))
        ≡ times ps.group (index + 2 ^ w * v) (unit ps.group i (2 ^ (w - 1)) base)
  next_unit i index carry v added b =
      Balances-next ps.group (2 ^ (w - 1)) index carry v i base added b
      ∙ ap (λ n. times ps.group (index + n * v) (unit ps.group i (2 ^ (w - 1)) base))
          (sym (double_half w pos))

  -- The loop pushes points that add up to the number that is left, in the window's unit.
  pub push_points_lem :
      (ds : List ℕ) (i carry : ℕ)
      → AreDigits (2 ^ w) ds
      → carry ≤ 1
      → i + length ds ≤ 253 / w + 1
      → Fits w carry ds
      → (qs : List (Affine c.Fq)) × (push_points c w (stored c f ps w base pos) ds i carry
          ≡ some qs)
        × Adds c f ps qs
            (times ps.group (carry + value (2 ^ w) ds) (unit ps.group i (2 ^ (w - 1)) base))
  unfolding push_points
  push_points_lem [] i carry h hc hi fits = (
    [],
    refl,
    subst (Adds c f ps [])
        (sym (times_zero ps.group (unit ps.group i (2 ^ (w - 1)) base))
          ∙ ap (λ n. times ps.group n (unit ps.group i (2 ^ (w - 1)) base)) {x = 0} {y = carry + 0}
              (omega (arith, carry_end w carry fits)))
        (Adds-nil c f ps),
  )
  push_points_lem (d ∷ ds) i carry h hc hi fits =
      let v = value (2 ^ w) ds in
      let (qs, carry', added, run, adds, balances) =
        pick-Picked c f ps w base pos i carry d (omega arith) hc h.0 in
      let regroup : carry + (d + 2 ^ w * v) ≡ d + carry + 2 ^ w * v = omega arith in
      let fits' =
        carry_step w (d + carry) carry' ds pos balances.carried
          (subst (λ n. 2 * n ≤ (2 ^ w) ^ suc (length ds)) regroup fits) in
      let (rest, run', adds') =
        push_points_lem ds (suc i) carry' h.1
          (carry_small (2 ^ (w - 1)) (d + carry) carry' balances.carried) (omega arith) fits' in
      (
        qs ++ rest,
        rw (run, run') refl,
        subst (Adds c f ps (qs ++ rest))
            (next_unit i (d + carry) carry' v added balances
              ∙ ap (λ n. times ps.group n (unit ps.group i (2 ^ (w - 1)) base)) (sym regroup))
            (Adds-append c f ps qs rest added
              (times ps.group (carry' + v) (unit ps.group (suc i) (2 ^ (w - 1)) base)) adds adds'),
      )

  -- The point that the x86_64 build is about to add.
  abbrev pub Pending : ℕ → ℕ → ps.group.Point → Type 0
  Pending idx carry added =
      (r : Extended c.Fq) (p : ps.group.Point)
      → Stands c f ps r p
      → (e : Extended c.Fq) × (add_signed c (stored c f ps w base pos) idx carry r ≡ some e)
        × Stands c f ps e (ps.group.add p added)

  pub next_index-Pending :
      (i index : ℕ)
      → i < 253 / w + 1
      → index ≤ 2 ^ w
      → (added : ps.group.Point) × Pending (next_index w i index).0 (next_index w i index).1 added
        × Balances ps.group
            (2 ^ (w - 1))
            index
            (next_index w i index).1
            (unit ps.group i (2 ^ (w - 1)) base)
            added
  unfolding next_index add_signed
  next_index-Pending i index hi hw =
      let g = ps.group in
      let u = unit g i (2 ^ (w - 1)) base in
      let size = double_half w pos in
      elim (Bool-cases (leb (2 ^ (w - 1) + 1) index)) [
        | inl high ↦
            let same : 2 ^ w - index ≡ 2 * 2 ^ (w - 1) - index = omega arith in
            let q = times g (2 * 2 ^ (w - 1) - index) u in
            let above : 2 ^ (w - 1) < index = ground arith in
            rw high (
              g.neg q,
              λ r p h.
                  rw
                    (
                      same,
                      point_table-entry c f ps w i (2 * 2 ^ (w - 1) - index) base hi (omega arith),
                    )
                    (
                      add_affine_point c r (c.neg (ps.coords q).x) (ps.coords q).y,
                      refl,
                      add_affine_point-negated c f ps r p q h,
                    ),
              Balances-high g (2 ^ (w - 1)) index u above (omega arith),
            )
        | inr low ↦
            let within : index ≤ 2 ^ (w - 1) = ground arith in
            let q = times g index u in
            rw low (
              q,
              λ r p h. rw (point_table-entry c f ps w i index base hi within) (
                add_affine_point c r (ps.coords q).x (ps.coords q).y,
                refl,
                add_affine_point-Stands c f ps r p q h,
              ),
              Balances-low g (2 ^ (w - 1)) index u within,
            )
      ]

  -- The loop adds the pending point and the number that is left, in the window's unit.
  pub rounds_lem :
      (ds : List ℕ) (i idx carry : ℕ) (added : ps.group.Point) (r : Extended c.Fq)
      (p : ps.group.Point)
      → AreDigits (2 ^ w) ds
      → carry ≤ 1
      → i + length ds ≤ 253 / w + 1
      → Fits w carry ds
      → Pending idx carry added
      → Stands c f ps r p
      → (e : Extended c.Fq) × (rounds c w (stored c f ps w base pos) ds i idx carry r ≡ some e)
        × Stands c f ps e (
            ps.group.add
              (ps.group.add p added)
              (times ps.group (carry + value (2 ^ w) ds) (unit ps.group i (2 ^ (w - 1)) base)))
  unfolding rounds
  rounds_lem [] i idx carry added r p h hc hi fits pending hr =
      let u = unit ps.group i (2 ^ (w - 1)) base in
      let sum = ps.group.add p added in
      let (e, run, he) = pending r p hr in
      (
        e,
        run,
        subst (Stands c f ps e)
            (sym (ps.group.add-zero sum)
              ∙ ap (ps.group.add sum) (
                  sym (times_zero ps.group u)
                  ∙ ap (λ n. times ps.group n u) {x = 0} {y = carry + 0}
                      (omega (arith, carry_end w carry fits))))
            he,
      )
  rounds_lem (d ∷ ds) i idx carry added r p h hc hi fits pending hr =
      let g = ps.group in
      let v = value (2 ^ w) ds in
      let (e, run, he) = pending r p hr in
      let carry' = (next_index w i (d + carry)).1 in
      let (added', pending', balances) =
        next_index-Pending i (d + carry) (omega arith) (omega arith) in
      let regroup : carry + (d + 2 ^ w * v) ≡ d + carry + 2 ^ w * v = omega arith in
      let fits' =
        carry_step w (d + carry) carry' ds pos balances.carried
          (subst (λ n. 2 * n ≤ (2 ^ w) ^ suc (length ds)) regroup fits) in
      let (e', run', he') =
        rounds_lem ds (suc i) (next_index w i (d + carry)).0 carry' added' e (g.add p added) h.1
          (carry_small (2 ^ (w - 1)) (d + carry) carry' balances.carried) (omega arith) fits'
          pending' he in
      (
        e',
        rw run run',
        subst (Stands c f ps e')
            (g.add_assoc (g.add p added) added'
                (times g (carry' + v) (unit g (suc i) (2 ^ (w - 1)) base))
              ∙ ap (g.add (g.add p added)) (
                  next_unit i (d + carry) carry' v added' balances
                  ∙ ap (λ n. times g n (unit g i (2 ^ (w - 1)) base)) (sym regroup)))
            he',
      )
