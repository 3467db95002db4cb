-- ===== src/Rpc/Node/Stage/Devices.antt =====
-- What NodeStageVolume leaves alone of what the devices hold.
use zenlayer_cloud_csi_drive.Prelude.{
  ◌≡◌, refl, ◌∙◌, Bool, true, false, List, [], ◌∷◌, some, arith, Text, codes, is_empty, Bool-cases,
  inl, inr,
}
use zenlayer_cloud_csi_drive.Prelude.Result.{Result, ok, err}
use zenlayer_cloud_csi_drive.Prelude.Act.{Act}
use zenlayer_cloud_csi_drive.Prelude.Kept.{Kept, kept}
use zenlayer_cloud_csi_drive.Prelude.Lines.{has_prefix}
use zenlayer_cloud_csi_drive.Common.Mount.{format_and_mount}
use zenlayer_cloud_csi_drive.Common.Mount.Formats.{IsContent, run-Kept, format_and_mount_held}
use zenlayer_cloud_csi_drive.Driver.Capability.{VolumeCapability, MountVolume, get_mount}
use zenlayer_cloud_csi_drive.Host.System.{Host, FileError, not_exist, unreadable, MountError}
use zenlayer_cloud_csi_drive.Host.Contract.{TellsFormat, OthersKeepFormat}
use zenlayer_cloud_csi_drive.Rpc.State.{
  Server, Code, on_world, internal, invalid_argument, not_found,
}
use zenlayer_cloud_csi_drive.Rpc.State.Worlds.{
  Keeps, Keeps-on_world, Keeps-some_or, Keeps-bind, Keeps-require, Keeps-respond,
}
use zenlayer_cloud_csi_drive.Rpc.Node.Requests.{NodeStageRequest}
use zenlayer_cloud_csi_drive.Rpc.Node.Devices.{
  check_fs_type, device_path, look, scan, get_dev_path_by_serial,
}
use zenlayer_cloud_csi_drive.Rpc.Node.Mounts.{not_mounted, or_made, resize_if_needed, grow}
use zenlayer_cloud_csi_drive.Rpc.Node.Server.{NodeServer, fs_type_of}
use zenlayer_cloud_csi_drive.Rpc.Node.Stage.Quiet.{node_stage-Keeps}
use zenlayer_cloud_csi_drive.Rpc.Node.Stage.{
  mount_options, format_and_grow, mount_device, unless_mounted, stage_locked, node_stage_volume,
}

-- The device d, and the calls that are not FormatAndMount.
module _ {W : Type 0} (h : Host W) (format : W → Text → Text) (c : TellsFormat h format)
    (o : OthersKeepFormat h format) (d : Text) where
  abbrev view : W → Text
  view w = format w d

  look-view : (serial dev : Text) (w : W) → view (look h serial dev w).1 ≡ view w
  unfolding look
  look-view serial dev w = elim (Bool-cases (is_empty dev)) [
    | inl e ↦ rw e refl
    | inr e ↦ rw e (o.format-read_file _ d w)
  ]

  scan-view :
      (serial found : Text) (devs : List Text) (w : W)
      → view (scan h serial found devs w).1 ≡ view w
  unfolding scan
  scan-view serial found [] w = refl
  scan-view serial found (dev ∷ devs) w = ground (
    arith,
    look-view serial dev w,
    scan-view serial found devs (look h serial dev w).1,
    scan-view serial (device_path dev) devs (look h serial dev w).1,
  )

  scan-Kept : (serial : Text) (devs : List Text) → Kept view (scan h serial [] devs)
  scan-Kept serial devs = record { at = scan-view serial [] devs }

  get_dev_path_by_serial-Kept : (serial : Text) → Kept view (get_dev_path_by_serial h serial)
  unfolding get_dev_path_by_serial has_prefix
  get_dev_path_by_serial-Kept serial =
      let listing = λ (args : List Text). run-Kept h format c d (codes "lsblk") args refl in
      let found = λ (names : List Text). scan-Kept serial names in
      search (kept, listing, found) depth 20

  is_likely_not_mount_point-Kept : (path : Text) → Kept view (h.is_likely_not_mount_point path)
  is_likely_not_mount_point-Kept path = record { at = o.format-is_likely_not_mount_point path d }

  mkdir_all-Kept : (path : Text) → Kept view (h.mkdir_all path)
  mkdir_all-Kept path = record { at = o.format-mkdir_all path d }

  need_resize-Kept : (device path : Text) → Kept view (h.need_resize device path)
  need_resize-Kept device path = record { at = o.format-need_resize device path d }

  resize-Kept : (device path : Text) → Kept view (h.resize device path)
  resize-Kept device path = record { at = o.format-resize device path d }

  or_made-Kept : (path : Text) (r : Result FileError Bool) → Kept view (or_made h path r)
  unfolding or_made
  or_made-Kept path (ok b) = search kept
  or_made-Kept path (err not_exist) = search (kept, mkdir_all-Kept)
  or_made-Kept path (err unreadable) = search kept

  not_mounted-Kept : (path : Text) → Kept view (not_mounted h path)
  unfolding not_mounted
  not_mounted-Kept path = search (kept, is_likely_not_mount_point-Kept, or_made-Kept) depth 10

  grow-Kept : (device path : Text) (r : Result MountError Bool) → Kept view (grow h device path r)
  unfolding grow
  grow-Kept device path (ok true) = search (kept, resize-Kept)
  grow-Kept device path (ok false) = search kept
  grow-Kept device path (err e) = search kept

  resize_if_needed-Kept : (device path : Text) → Kept view (resize_if_needed h device path)
  unfolding resize_if_needed
  resize_if_needed-Kept device path = search (kept, need_resize-Kept, grow-Kept) depth 10

module _ {W : Type 0} (ns : NodeServer W) (format : W → Text → Text)
    (c : TellsFormat ns.host format) (o : OthersKeepFormat ns.host format) (d x : Text)
    (held : IsContent x) (req : NodeStageRequest) where
  abbrev Holds : W → Type 0
  Holds w = format w d ≡ x

  Holds-on_world :
      {E A : Type 0} (code : Code) (m : Act E W A)
      → Kept (λ w. format w d) m
      → Keeps Holds (on_world code m)
  Holds-on_world code m k = Keeps-on_world Holds code m (λ w h. k.at w ∙ h)

  Holds-device :
      (serial : Text) → Keeps Holds (on_world not_found (get_dev_path_by_serial ns.host serial))
  Holds-device serial =
      Holds-on_world not_found _ (get_dev_path_by_serial-Kept ns.host format c o d serial)

  format_and_grow-Holds :
      (m : MountVolume) (device : Text) → Keeps Holds (format_and_grow ns req m device)
  unfolding format_and_grow
  format_and_grow-Holds m device =
      let path = req.staging_target_path in
      Keeps-bind Holds _ _
        (Keeps-on_world Holds internal
          (format_and_mount ns.host device path (fs_type_of (some m)) [] (mount_options ns m) false)
          (λ w h.
            let still : IsContent (format w d) = rw h held in
            format_and_mount_held ns.host format c device path (fs_type_of (some m)) []
              (mount_options ns m) false d w still
            ∙ h))
        (λ u. Holds-on_world internal _ (resize_if_needed-Kept ns.host format c o d device path))

  unless_mounted-Holds :
      (m : MountVolume) (serial : Text) (absent : Bool)
      → Keeps Holds (unless_mounted ns req m serial absent)
  unfolding unless_mounted mount_device
  unless_mounted-Holds m serial true =
      Keeps-bind Holds _ _ (Holds-device serial) (λ device. format_and_grow-Holds m device)
  unless_mounted-Holds m serial false = Keeps-respond Holds tt

  stage_locked-Holds :
      (cap : VolumeCapability) (serial : Text) → Keeps Holds (stage_locked ns req cap serial)
  unfolding stage_locked
  stage_locked-Holds cap serial =
      let asking =
        Holds-on_world internal _ (not_mounted-Kept ns.host format c o d req.staging_target_path) in
      Keeps-some_or Holds invalid_argument (get_mount cap) _ (λ m has.
        Keeps-bind Holds _ _
          (Keeps-require Holds (check_fs_type (fs_type_of (some m))) invalid_argument)
          (λ u. Keeps-bind Holds _ _ asking (λ absent. unless_mounted-Holds m serial absent)))

-- NodeStageVolume destroys no data: a device whose content is known and not empty has it still
-- afterwards, whatever the request is and whatever it answers, be it the device that is staged or
-- another one. What devices hold is told by GetDiskFormat, and changed by no call but mkfs, which
-- changes its last argument.
pub node_stage_held :
    {W : Type 0} (ns : NodeServer W) (format : W → Text → Text) (c : TellsFormat ns.host format)
    (o : OthersKeepFormat ns.host format) (d : Text) (req : NodeStageRequest) (s : Server W)
    → IsContent (format s.world d)
    → format (node_stage_volume ns req s).1.world d ≡ format s.world d
node_stage_held ns format c o d req s held =
    let x = format s.world d in
    (node_stage-Keeps ns (Holds ns format c o d x held req) req
        (stage_locked-Holds ns format c o d x held req)).at
      s refl
