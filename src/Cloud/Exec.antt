-- ===== src/Cloud/Exec.antt =====
-- The errors of pkg/cloud, and its calls: an error stands for its kind; the texts of the messages are
-- not modelled.
use zenlayer_cloud_csi_drive.Prelude.{Text}
use zenlayer_cloud_csi_drive.Prelude.Act.{Act}
pub use zenlayer_cloud_csi_drive.Prelude.Act.{
  pure, raise, lift, continue, ◌>>=◌, ◌>>◌, refuse_if, continue-eq-ok, refuse_if-eq-ok,
  refuse_if-bind,
}

-- *ZenlayerCloudSdkError with its code, or any other error of a call of the SDK.
pub data SdkError : Type 0 where
  sdk : Text → SdkError
  transport : SdkError

pub data CloudError : Type 0 where
  api : SdkError → CloudError
  args_error nil_client nil_response repeated_id failed_ids still_exists timeout bad_status :
      CloudError

abbrev pub Cloud : Type 0 → Type 0 → Type 0
Cloud = Act CloudError
