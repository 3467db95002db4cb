-- ===== src/Rpc/Node/Server.antt =====
-- pkg/disk/rpcserver/nodeserver.go: the server, and what its handlers share.
use zenlayer_cloud_csi_drive.Prelude.{
  List, [], ◌∷◌, ◌++◌, Option, none, some, Text, codes, str_eq, is_empty, if◌then◌else◌,
}
use zenlayer_cloud_csi_drive.Common.VolumeId.{parse_csi_vol_id}
use zenlayer_cloud_csi_drive.Driver.Capability.{DiskDriver, MountVolume}
use zenlayer_cloud_csi_drive.Host.System.{Host}

-- The locks stand in the Server that each handler acts on; the cloud manager serves no handler.
-- `feature_gates` is the variable FeatureGates of pkg/common.
pub record NodeServer (W : Type 0) : Type 0 where
  pub driver : DiskDriver
  pub host : Host W
  pub feature_gates : List Text

abbrev pub feat_mountopt_enable : Text
feat_mountopt_enable = codes "enable_mount_opt"

-- The flags of the request are added once for each time that the gate is named.
unfoldable pub add_mount_flags : List Text → List Text → List Text → List Text
add_mount_flags [] flags options = options
add_mount_flags (g ∷ gs) flags options =
    add_mount_flags gs flags (if str_eq g feat_mountopt_enable then options ++ flags else options)

abbrev pub default_fs_type : Text
default_fs_type = codes "ext4"

-- The file system of a capability: ext4 where none is named.
unfoldable pub fs_type_of : Option MountVolume → Text
fs_type_of none = default_fs_type
fs_type_of (some m) = if is_empty m.fs_type then default_fs_type else m.fs_type

-- The key of the lock for a clean-up: an identifier of another shape stands for itself.
unfoldable pub cleanup_key : Text → Text
unfolding parse_csi_vol_id
cleanup_key id = elim (parse_csi_vol_id id) [ none ↦ id | some p ↦ p.0 ]
