-- ===== src/Cloud/Wait/Quiet.antt =====
-- Waits whose job only looks: it never fails and changes nothing.
use zenlayer_cloud_csi_drive.Prelude.{
  ℕ, zero, suc, ◌≤◌, ◌≡◌, refl, inl, inr, Option, Option-cases, some, arith,
}
use zenlayer_cloud_csi_drive.Prelude.Result.{ok}
use zenlayer_cloud_csi_drive.Cloud.Exec.{Cloud}
use zenlayer_cloud_csi_drive.Cloud.Client.{Clock}
use zenlayer_cloud_csi_drive.Cloud.Wait.{poll, wait_for_specific_or_error}

-- The world after a number of intervals.
abbrev pub pauses : {W : Type 0} → Clock W → ℕ → W → W
pauses clock zero w = w
pauses clock (suc n) w = pauses clock n (clock.pause w)

-- What a job sees in a world after some intervals, when it stops there.
abbrev pub Stops : {W A : Type 0} → Clock W → (W → Option A) → ℕ → W → Type 0
Stops {A = A} clock look n w = (a : A) × (look (pauses clock n w) ≡ some a)

-- The wait has ended well where the job stops.
pub record Ended {W A : Type 0} (look : W → Option A) (run : Cloud W A) (w : W) : Type 0 where
  pub value : A
  pub last : W
  pub seen : look last ≡ some value
  pub returned : run w ≡ (ok value, last)

module _ {W A : Type 0} (clock : Clock W) (f : Cloud W (Option A)) (look : W → Option A)
    (quiet : (w : W) → f w ≡ (ok (look w), w)) where
  poll_ends :
      (n m : ℕ) (w : W)
      → suc n ≤ m
      → Stops clock look n (clock.pause w)
      → Ended look (poll clock f m) w
  unfolding poll
  poll_ends n zero w le s = absurd (omega arith)
  poll_ends zero (suc m) w le (a, e) = record {
    value = a;
    last = clock.pause w;
    seen = e;
    returned = rw (quiet (clock.pause w), e) refl;
  }
  poll_ends (suc n) (suc m) w le s = elim (Option-cases (look (clock.pause w))) [
    | inl e ↦
        let later = poll_ends n m (clock.pause w) (omega arith) s in
        record {
          value = later.value;
          last = later.last;
          seen = later.seen;
          returned = rw (quiet (clock.pause w), e) later.returned;
        }
    | inr (a, e) ↦ record {
      value = a;
      last = clock.pause w;
      seen = e;
      returned = rw (quiet (clock.pause w), e) refl;
    }
  ]

  -- If the job stops after some intervals, no more than the timer lets pass, the wait ends well.
  pub wait_ends :
      (n : ℕ) (w : W)
      → n ≤ clock.rounds w
      → Stops clock look n w
      → Ended look (wait_for_specific_or_error clock f) w
  unfolding wait_for_specific_or_error
  wait_ends zero w le (a, e) = record {
    value = a;
    last = w;
    seen = e;
    returned = rw (quiet w, e) refl;
  }
  wait_ends (suc n) w le s = elim (Option-cases (look w)) [
    | inl e ↦
        let later = poll_ends n (clock.rounds w) w le s in
        record {
          value = later.value;
          last = later.last;
          seen = later.seen;
          returned = rw (quiet w, e) later.returned;
        }
    | inr (a, e) ↦ record { value = a; last = w; seen = e; returned = rw (quiet w, e) refl }
  ]
