-- ===== src/Driver/Topology.antt =====
-- pkg/disk/driver/topology.go
use zenlayer_cloud_csi_drive.Prelude.{Text, [], pos}
use zenlayer_cloud_csi_drive.Driver.VolumeType.{VmType}

pub record Topology : Type 0 where
  pub zone_id : Text
  pub vmtp : VmType

-- &driver.Topology{}
abbrev pub empty_topology : Topology
empty_topology = record { zone_id = []; vmtp = pos 0 }

unfoldable pub new_topology : Text → VmType → Topology
new_topology zoneid vt = record { zone_id = zoneid; vmtp = vt }

unfoldable pub set_zone : Text → Topology → Topology
set_zone zoneid t = record t { zone_id = zoneid }

unfoldable pub set_vm_type : VmType → Topology → Topology
set_vm_type vt t = record t { vmtp = vt }
