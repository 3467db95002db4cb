-- ===== src/Cloud/Wait/Laws.antt =====
-- What a wait (pkg/cloud/utils.go) returns, by what its job has seen.
use zenlayer_cloud_csi_drive.Prelude.{
  ℕ, zero, suc, ◌≤◌, ◌<◌, ◌≡◌, refl, ◌⊎◌, inl, inr, Option, none, some, arith, subst,
}
use zenlayer_cloud_csi_drive.Prelude.Result.{Result, ok, err}
use zenlayer_cloud_csi_drive.Cloud.Exec.{Cloud, CloudError, timeout, continue}
use zenlayer_cloud_csi_drive.Cloud.Client.{Clock}
use zenlayer_cloud_csi_drive.Cloud.Wait.{stop_or, poll, wait_for_specific_or_error}

module _ {W A : Type 0} where
  pub stop_or-eq-ok :
      (k : Cloud W A) (r : Result CloudError (Option A)) (w : W) {a : A} {w' : W}
      → continue (stop_or k) r w ≡ (ok a, w')
      → ((r ≡ ok none) × (k w ≡ (ok a, w'))) ⊎ ((r ≡ ok (some a)) × (w ≡ w'))
  stop_or-eq-ok k (ok none) w h = inl (refl, h)
  stop_or-eq-ok k (ok (some b)) w h = inr (ground arith, ground arith)
  stop_or-eq-ok k (err e) w h = ground arith

module _ {W A : Type 0} (clock : Clock W) (f : Cloud W (Option A)) where
  poll_last :
      (n : ℕ) (w : W) {a : A} {w' : W}
      → poll clock f n w ≡ (ok a, w')
      → (u : W) × (f u ≡ (ok (some a), w'))
  unfolding poll
  poll_last zero w h = ground arith
  poll_last (suc n) w h =
      elim (stop_or-eq-ok (poll clock f n) (f (clock.pause w)).0 (f (clock.pause w)).1 h) [
        | inl (e, rest) ↦ poll_last n (f (clock.pause w)).1 rest
        | inr (e, g) ↦ (clock.pause w, ground arith)
      ]

  -- A wait that ends well has evaluated its job to a stop, in a state u, as the last thing.
  pub wait_last :
      (w : W) {a : A} {w' : W}
      → wait_for_specific_or_error clock f w ≡ (ok a, w')
      → (u : W) × (f u ≡ (ok (some a), w'))
  unfolding wait_for_specific_or_error
  wait_last w h = elim (stop_or-eq-ok (λ u. poll clock f (clock.rounds u) u) (f w).0 (f w).1 h) [
    | inl (e, rest) ↦ poll_last (clock.rounds (f w).1) (f w).1 rest
    | inr (e, g) ↦ (w, ground arith)
  ]

  module _ (P : W → Type 0) (waits : (u : W) → P u → P (clock.pause u))
      (looks : (u : W) (o : Option A) (u' : W) → f u ≡ (ok o, u') → P u → P u') where
    poll_keeps : (n : ℕ) (w : W) {a : A} {w' : W} → P w → poll clock f n w ≡ (ok a, w') → P w'
    unfolding poll
    poll_keeps zero w k h = absurd (ground arith)
    poll_keeps (suc n) w {a} k h =
        let u = clock.pause w in
        elim (stop_or-eq-ok (poll clock f n) (f u).0 (f u).1 h) [
          | inl (e, rest) ↦
              poll_keeps n (f u).1 (looks u none (f u).1 (ground arith) (waits w k)) rest
          | inr (e, g) ↦ subst P g (looks u (some a) (f u).1 (ground arith) (waits w k))
        ]

    -- A wait that ends well keeps what the pauses and the job keep.
    pub wait_keeps :
        (w : W) {a : A} {w' : W} → P w → wait_for_specific_or_error clock f w ≡ (ok a, w') → P w'
    unfolding wait_for_specific_or_error
    wait_keeps w {a} k h =
        elim (stop_or-eq-ok (λ u. poll clock f (clock.rounds u) u) (f w).0 (f w).1 h) [
          | inl (e, rest) ↦
              poll_keeps (clock.rounds (f w).1) (f w).1 (looks w none (f w).1 (ground arith) k) rest
          | inr (e, g) ↦ subst P g (looks w (some a) (f w).1 (ground arith) k)
        ]

  -- The state before the evaluation with number n, from 0, if the ones before it go on.
  abbrev pub before : ℕ → W → W
  before zero w = w
  before (suc n) w = before n (clock.pause (f w).1)

  -- The evaluations before number n go on.
  abbrev pub GoesOn : ℕ → W → Type 0
  GoesOn zero w = Unit {0}
  GoesOn (suc n) w = ((f w).0 ≡ ok none) × GoesOn n (clock.pause (f w).1)

  poll_reaches :
      (n m : ℕ) (w : W) (a : A) (u : W)
      → n < m
      → GoesOn n (clock.pause w)
      → f (before n (clock.pause w)) ≡ (ok (some a), u)
      → poll clock f m w ≡ (ok a, u)
  unfolding poll
  poll_reaches n zero w a u lt g h = absurd (omega arith)
  poll_reaches zero (suc m) w a u lt g h = ground arith
  poll_reaches (suc n) (suc m) w a u lt g h =
      rw (g.0) (poll_reaches n m (f (clock.pause w)).1 a u (omega arith) g.1 h)

  -- If the job first stops at evaluation number n, with a value a, and the ticker is heard n
  -- times before the timer, then the wait returns a, in the state after that evaluation.
  pub wait_reaches :
      (n : ℕ) (w : W) (a : A) (u : W)
      → GoesOn n w
      → n ≤ clock.rounds (f w).1
      → f (before n w) ≡ (ok (some a), u)
      → wait_for_specific_or_error clock f w ≡ (ok a, u)
  unfolding wait_for_specific_or_error
  wait_reaches zero w a u g le h = ground arith
  wait_reaches (suc n) w a u g le h =
      rw (g.0) (poll_reaches n (clock.rounds (f w).1) (f w).1 a u le g.1 h)

  poll_times_out : (m : ℕ) (w : W) → GoesOn m (clock.pause w) → (poll clock f m w).0 ≡ err timeout
  unfolding poll
  poll_times_out zero w g = refl
  poll_times_out (suc m) w g = rw (g.0) (poll_times_out m (f (clock.pause w)).1 g.1)

  -- If the first evaluation and the one after each tick go on, the wait ends with a timeout.
  pub wait_times_out :
      (w : W)
      → GoesOn (suc (clock.rounds (f w).1)) w
      → (wait_for_specific_or_error clock f w).0 ≡ err timeout
  unfolding wait_for_specific_or_error
  wait_times_out w g = rw (g.0) (poll_times_out (clock.rounds (f w).1) (f w).1 g.1)
