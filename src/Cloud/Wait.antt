-- ===== src/Cloud/Wait.antt =====
-- pkg/cloud/utils.go: polling until a state is reached, an error occurs or the timer fires.
pub mod Laws
pub mod Quiet
use zenlayer_cloud_csi_drive.Prelude.{ℕ, zero, suc, Option, none, some}
use zenlayer_cloud_csi_drive.Prelude.Result.{Result, ok, err}
use zenlayer_cloud_csi_drive.Cloud.Exec.{Cloud, CloudError, timeout, pure, raise, continue}
use zenlayer_cloud_csi_drive.Cloud.Client.{Clock}

-- A job returns `none` to go on, or `some a` to stop; `a` is what the job's closure has stored.
abbrev pub stop_or : {W A : Type 0} → Cloud W A → Option A → Cloud W A
stop_or k none = k
stop_or k (some a) = pure a

-- The loop after the first evaluation, with the number of ticks that come before the timer.
unfoldable pub poll : {W A : Type 0} → Clock W → Cloud W (Option A) → ℕ → Cloud W A
poll clock f zero w = (err timeout, clock.pause w)
poll clock f (suc n) w =
    continue (stop_or (poll clock f n)) (f (clock.pause w)).0 (f (clock.pause w)).1

unfoldable pub wait_for_specific_or_error :
    {W A : Type 0} → Clock W → Cloud W (Option A) → Cloud W A
unfolding poll
wait_for_specific_or_error clock f w =
    continue (stop_or (λ u. poll clock f (clock.rounds u) u)) (f w).0 (f w).1
