-- ===== src/Banderwagon/Tables.antt =====
-- The tables that `Committer::new` makes hold the multiples of the base points.
use mathlib.Core.Path.{subst}
use mathlib.Core.Option.{some-injective}
use salt_optimizations.Prelude.{
  ℕ, zero, suc, ◌+◌, ◌-◌, ◌*◌, ◌/◌, ◌^◌, ◌≤◌, ◌<◌, ◌≡◌, refl, sym, false, ◌%◌, ◌==◌, ap, ◌∙◌, List,
  [], ◌∷◌, ◌++◌, map, some, get_elem?, arith,
}
use salt_optimizations.Banderwagon.Curve.{
  Curve, IsField, CurvePoints, Stands, AllStand, IsLawful, Extended,
}
use salt_optimizations.Banderwagon.Committer.{multiples, windows, range_end, new}
use salt_optimizations.Banderwagon.Limbs.{pow_pos}
use salt_optimizations.Banderwagon.Multiples.{times, times_one, times-add, run, table}

-- What `Committer::new` stores for a base point.
unfoldable pub point_table :
    (c : Curve) (f : IsField c) (ps : CurvePoints c f) → ℕ → ps.group.Point → List ps.group.Point
point_table c f ps w p = table ps.group (253 / w + 1) (2 ^ (w - 1)) p

-- Up to 31 bits the range of the loop is what it says.
range_end_lem : (w : ℕ) → 0 < w → w ≤ 31 → range_end w ≡ 2 ^ (w - 1)
unfolding range_end
range_end_lem w pos h =
    let small : (w - 1) % 32 ≡ w - 1 = omega arith in
    let fits : ((w - 1) == 31) ≡ false = ground arith in rw (small, fits) refl

module _ (c : Curve) (f : IsField c) (ps : CurvePoints c f) (lawful : IsLawful c f ps) where
  AllStand-append :
      (ds es : List (Extended c.Fq)) (qs rs : List ps.group.Point)
      → AllStand c f ps ds qs
      → AllStand c f ps es rs
      → AllStand c f ps (ds ++ es) (qs ++ rs)
  AllStand-append [] es [] rs h k = k
  AllStand-append [] es (q ∷ qs) rs h k = absurd h
  AllStand-append (d ∷ ds) es [] rs h k = absurd h
  AllStand-append (d ∷ ds) es (q ∷ qs) rs h k = (h.0, AllStand-append ds es qs rs h.1 k)

  multiples-Stands :
      (n s : ℕ) (base e : Extended c.Fq) (p : ps.group.Point)
      → Stands c f ps base p
      → Stands c f ps e (times ps.group s p)
      → AllStand c f ps (multiples c n base e).0 (run ps.group n (suc s) p)
        × Stands c f ps (multiples c n base e).1 (times ps.group (s + n) p)
  unfolding multiples run times
  multiples-Stands zero s base e p hb he =
      (tt, subst (λ k. Stands c f ps e (times ps.group k p)) {x = s} {y = s + 0} (omega arith) he)
  multiples-Stands (suc n) s base e p hb he =
      let next = lawful.add_points-Stands e base (times ps.group s p) p he hb in
      let (rest, last) = multiples-Stands n (suc s) base (c.add_points e base) p hb next in
      (
        (next, rest),
        subst (λ k. Stands c f ps (multiples c n base (c.add_points e base)).1 (times ps.group k p))
            {x = suc s + n} {y = s + suc n} (omega arith) last,
      )

  windows-Stands :
      (n half : ℕ) (e : Extended c.Fq) (p : ps.group.Point)
      → 0 < half
      → Stands c f ps e p
      → AllStand c f ps (windows c n half e) (table ps.group n half p)
  unfolding windows table run times
  windows-Stands zero half e p pos h = tt
  windows-Stands (suc n) zero e p pos h = absurd (omega arith)
  windows-Stands (suc n) (suc k) e p pos h =
      let g = ps.group in
      let first = subst (Stands c f ps e) (sym (times_one g p)) h in
      let counted : suc k - 1 ≡ k = omega arith in
      let (rest, last) = multiples-Stands k 1 e e p h first in
      let final = (multiples c k e e).1 in
      let doubled : g.add (times g (1 + k) p) (times g (1 + k) p) ≡ times g (2 * suc k) p =
        sym (times-add g (1 + k) (1 + k) p)
        ∙ ap (λ m. times g m p) {x = 1 + k + (1 + k)} {y = 2 * suc k} (omega arith) in
      let unit =
        subst (Stands c f ps (c.add_points final final)) doubled
          (lawful.add_points-Stands final final _ _ last last) in
      rw counted (
        lawful.zero_point-Stands,
        (
          first,
          AllStand-append (multiples c k e e).0 (windows c n (suc k) (c.add_points final final))
              (run g k 2 p) (table g n (suc k) (times g (2 * suc k) p)) rest
              (windows-Stands n (suc k) (c.add_points final final) (times g (2 * suc k) p) pos
                unit),
        ),
      )

  -- The table of the base point `i`.
  pub new-tables :
      (bases : List (Extended c.Fq)) (qs : List ps.group.Point) (w i : ℕ) (p : ps.group.Point)
      → 0 < w
      → w ≤ 31
      → AllStand c f ps bases qs
      → get_elem? qs i ≡ some p
      → get_elem? (new c bases w).tables i ≡ some (map ps.coords (point_table c f ps w p))
  unfolding new point_table
  new-tables [] [] w i p pos hw h e = cc
  new-tables [] (q ∷ qs) w i p pos hw h e = absurd h
  new-tables (b ∷ bs) [] w i p pos hw h e = absurd h
  new-tables (b ∷ bs) (q ∷ qs) w zero p pos hw h e = rw (range_end_lem w pos hw) (
      ap some (
        lawful.normalize_batch_lem (windows c (253 / w + 1) (2 ^ (w - 1)) b)
          (table ps.group (253 / w + 1) (2 ^ (w - 1)) q)
          (windows-Stands (253 / w + 1) (2 ^ (w - 1)) b q (pow_pos (w - 1)) h.0)
        ∙ ap (λ r. map ps.coords (table ps.group (253 / w + 1) (2 ^ (w - 1)) r))
            (some-injective q p e)))
  new-tables (b ∷ bs) (q ∷ qs) w (suc i) p pos hw h e = new-tables bs qs w i p pos hw h.1 e
