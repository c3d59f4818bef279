-- ===== src/State/Probe/Ring.antt =====
-- `probe` and `rank` of salt/src/state/state.rs on the ring of slots of a bucket.
use native.Mathlib.Decide.{dec_lt}
use native.Mathlib.Nat.{mod-lt, mod-eq_of_lt, mod-eq-sub-mod}
use salt_optimizations.Prelude.{ℕ, ◌+◌, ◌-◌, ◌*◌, ◌%◌, ◌^◌, ◌≤◌, ◌<◌, ◌≡◌, ◌∙◌, arith, le→leb}
use salt_optimizations.State.Probe.{probe, rank}

-- Once round the ring.
mod_below : (x c : ℕ) → x < c → x % c ≡ x
mod_below x c h = mod-eq_of_lt h

mod_round : (x c : ℕ) → c ≤ x → x < 2 * c → x % c ≡ x - c
mod_round x c lo hi = mod-eq-sub-mod lo ∙ mod-eq_of_lt (omega arith)

module _ (h c : ℕ) (pos : 0 < c) (small : c < 2 ^ 63) where
  start-lt : h % c < c
  start-lt = mod-lt h pos

  pub probe_zero : probe h 0 c ≡ h % c
  unfolding probe
  probe_zero =
      rw
        (
          mod_below (h % c + 0) (2 ^ 64) (omega (arith, start-lt)),
          mod_below (h % c + 0) c (omega (arith, start-lt)),
        )
        (omega arith)

  pub probe_below : (i : ℕ) → h % c + i < c → probe h i c ≡ h % c + i
  unfolding probe
  probe_below i hi = rw (mod_below (h % c + i) (2 ^ 64) (omega arith)) (mod_below _ c hi)

  pub probe_round : (i : ℕ) → i < c → c ≤ h % c + i → probe h i c ≡ h % c + i - c
  unfolding probe
  probe_round i hi lo =
      rw (mod_below (h % c + i) (2 ^ 64) (omega (arith, start-lt)))
        (mod_round _ c lo (omega (arith, start-lt)))

  rank_above : (s : ℕ) → s < c → h % c ≤ s → rank h s c ≡ s - h % c
  unfolding rank
  rank_above s hs lo = rw (probe_zero, le→leb (h % c) s lo)

  rank_under : (s : ℕ) → s < h % c → rank h s c ≡ s + c - h % c
  unfolding rank
  rank_under s lo = rw probe_zero (ground (arith, start-lt))

  -- With a capacity above 0 and below 2 ^ 63, a probe at a distance below the capacity is a slot of
  -- the bucket, and `rank` gives the distance back.
  pub rank-probe : (i : ℕ) → i < c → (probe h i c < c) × (rank h (probe h i c) c ≡ i)
  rank-probe i hi = elim (dec_lt (h % c + i) c) [
    | yes p ↦ rw (probe_below i p) (p, rank_above (h % c + i) p (omega arith) ∙ (omega arith))
    | no p ↦
        let lo : h % c + i - c < h % c = omega (arith, start-lt) in
        rw (probe_round i hi (omega arith))
          (omega (arith, start-lt), rank_under _ lo ∙ (omega arith))
  ]

  -- With a capacity above 0 and below 2 ^ 63, every slot of the bucket is the probe at its rank, which
  -- is below the capacity.
  pub probe-rank : (s : ℕ) → s < c → (rank h s c < c) × (probe h (rank h s c) c ≡ s)
  probe-rank s hs = elim (dec_lt s (h % c)) [
    | yes p ↦ rw (rank_under s p) (
      omega (arith, start-lt),
      probe_round _ (omega (arith, start-lt)) (omega (arith, start-lt)) ∙ (omega (arith, start-lt)),
    )
    | no p ↦
        rw (rank_above s hs (omega arith))
          (omega arith, probe_below _ (omega (arith, start-lt)) ∙ (omega arith))
  ]
