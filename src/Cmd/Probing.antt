-- ===== src/Cmd/Probing.antt =====
-- The loop around Probe in cmd/main.go: how often it asks, and how it ends.
use zenlayer_cloud_csi_drive.Prelude.{
  ℕ, zero, suc, ◌≡◌, ◌⊎◌, ◌≤◌, refl, Bool, true, not, ◌&&◌, arith, inl, inr,
}
use zenlayer_cloud_csi_drive.Prelude.Result.{Result, ok, err, Result-cases, is_ok}
use zenlayer_cloud_csi_drive.Prelude.Act.{Act}
use zenlayer_cloud_csi_drive.Cloud.Exec.{CloudError}
use zenlayer_cloud_csi_drive.Cmd.{probe_loop}

module _ {W : Type 0} (probing : Act CloudError W (Unit {0})) (sleep : W → W) where
  -- The world after n probes, each with a sleep after it.
  abbrev pub tried : ℕ → W → W
  tried zero w = w
  tried (suc n) w = tried n (sleep (probing w).1)

  -- Do the first n probes fail?
  abbrev pub fail_first : ℕ → W → Bool
  fail_first zero w = true
  fail_first (suc n) w = not (is_ok (probing w).0) && fail_first n (sleep (probing w).1)

  -- The first probe that succeeds ends the loop, or all of them fail.
  abbrev pub Ends : ℕ → W → Result CloudError (Unit {0}) × W → Type 0
  Ends left w r =
      ((n : ℕ) × (n ≤ left)
        × (fail_first n w ≡ true)
        × (is_ok (probing (tried n w)).0 ≡ true)
        × (r ≡ (ok tt, (probing (tried n w)).1)))
      ⊎ ((e : CloudError) × (fail_first (suc left) w ≡ true) × (r ≡ (err e, tried (suc left) w)))

  -- The loop around Probe ends: with the first probe that succeeds, if that is among the first and the
  -- rounds after it, with nothing done after that probe; and else with an error, after as many probes
  -- as there are rounds and one, each of which has failed and was followed by a sleep.
  pub probe_loop-Ends : (left : ℕ) (w : W) → Ends left w (probe_loop left probing sleep w)
  unfolding probe_loop
  probe_loop-Ends zero w = elim (Result-cases (probing w).0) [
    | inl (u, g) ↦ inl (0, omega arith, refl, ground (arith, g), ground (arith, g))
    | inr (e, g) ↦ inr (e, ground (arith, g), ground (arith, g))
  ]
  probe_loop-Ends (suc left) w = elim (Result-cases (probing w).0) [
    | inl (u, g) ↦ inl (0, omega arith, refl, ground (arith, g), ground (arith, g))
    | inr (e, g) ↦ elim (probe_loop-Ends left (sleep (probing w).1)) [
      | inl (n, few, failed, done, r) ↦
          inl (suc n, omega arith, ground (arith, g, failed), done, ground (arith, g, r))
      | inr (x, failed, r) ↦ inr (x, ground (arith, g, failed), ground (arith, g, r))
    ]
  ]
