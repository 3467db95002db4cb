-- ===== src/Rpc/Node/Expand/Laws.antt =====
-- The answers of NodeExpandVolume.
use zenlayer_cloud_csi_drive.Prelude.{
  ◌≡◌, ap, true, false, not, Option, some, arith, Text, is_empty, ℤ, ◌≤ℤ◌, leb_ℤ,
}
use zenlayer_cloud_csi_drive.Prelude.Result.{ok}
use zenlayer_cloud_csi_drive.Common.Calculator.{get_request_size_bytes, bytes}
use zenlayer_cloud_csi_drive.Common.VolumeId.{parse_csi_vol_id}
use zenlayer_cloud_csi_drive.Driver.Capability.{VolumeCapability, is_block}
use zenlayer_cloud_csi_drive.Rpc.State.{Server, internal, invalid_argument, not_found}
use zenlayer_cloud_csi_drive.Rpc.State.Runs.{require-eq-ok, on_world-eq-ok, with_lock-eq-ok}
use zenlayer_cloud_csi_drive.Rpc.Node.Requests.{NodeExpandRequest}
use zenlayer_cloud_csi_drive.Rpc.Node.Devices.{get_dev_path_by_serial, get_block_size_bytes}
use zenlayer_cloud_csi_drive.Rpc.Node.Server.{NodeServer}
use zenlayer_cloud_csi_drive.Rpc.Node.Expand.{
  expand_locked, expand_parsed, expand_file_system, node_expand_volume,
}

module _ {W : Type 0} (ns : NodeServer W) where
  -- The file system on the device with the serial was resized, and then the device had n bytes.
  pub record Grown (path serial : Text) (size : ℤ) (w : W) (answer : Option ℤ) : Type 0 where
    pub device : Text
    pub actual : ℤ
    pub named : (get_dev_path_by_serial ns.host serial w).0 ≡ ok device
    pub resized :
        (ns.host.resize device path (get_dev_path_by_serial ns.host serial w).1).0 ≡ ok true
    pub measured :
        (get_block_size_bytes ns.host device
          (ns.host.resize device path (get_dev_path_by_serial ns.host serial w).1).1).0
        ≡ ok actual
    pub answered : answer ≡ some actual
    pub enough : size ≤ℤ actual

  expand_locked-Grown :
      (path serial : Text) (size : ℤ) (s s' : Server W) (answer : Option ℤ)
      → expand_locked ns path serial size s ≡ (ok answer, s')
      → Grown path serial size s.world answer
  unfolding expand_locked
  expand_locked-Grown path serial size s s' answer g =
      let found = (get_dev_path_by_serial ns.host serial s.world).1 in
      let (device, named, g1) =
        on_world-eq-ok not_found (get_dev_path_by_serial ns.host serial) _ s g in
      let (done, grew, g2) =
        on_world-eq-ok internal (ns.host.resize device path) _ (record s { world = found }) g1 in
      let (whole, g3) = require-eq-ok done internal _ _ g2 in
      let (actual, measured, g4) =
        on_world-eq-ok internal (get_block_size_bytes ns.host device) _ _ g3 in
      let (enough, g5) = require-eq-ok (leb_ℤ size actual) internal _ _ g4 in
      record {
        device = device;
        actual = actual;
        named = ap (λ p. p.0) named;
        resized = ground (arith, grew, whole);
        measured = ap (λ p. p.0) measured;
        answered = ground (arith, g5);
        enough = ground (arith, enough);
      }

  expand_parsed-Grown :
      (req : NodeExpandRequest) (size : ℤ) (id serial : Text) (s s' : Server W) (answer : Option ℤ)
      → expand_parsed ns req size (id, serial) s ≡ (ok answer, s')
      → Grown req.volume_path serial size s.world answer
  unfolding expand_parsed
  expand_parsed-Grown req size id serial s s' answer g =
      let (l, t, g1, last) =
        with_lock-eq-ok id (expand_locked ns req.volume_path serial size) s g in
      expand_locked-Grown req.volume_path serial size (record s { locks = l }) t answer g1

  expand_file_system-Grown :
      (req : NodeExpandRequest) (size : ℤ) (id serial : Text) (s s' : Server W) (answer : Option ℤ)
      → parse_csi_vol_id req.volume_id ≡ some (id, serial)
      → get_request_size_bytes req.capacity_range ≡ bytes size
      → expand_file_system ns req s ≡ (ok answer, s')
      → Grown req.volume_path serial size s.world answer
  unfolding expand_file_system
  expand_file_system-Grown req size id serial s s' answer named sized g =
      expand_parsed-Grown req size id serial s s' answer (rw (named, sized) at g)

-- If NodeExpandVolume answers without an error, for an identifier of the driver and a capability that
-- is not that of a block device, and the capacity range asks for the given size, then the file system
-- on the device with the serial of the identifier was resized, and the answer is the size that the
-- device has after that, which is no smaller than the size asked for.
pub node_expand-Grown :
    {W : Type 0} (ns : NodeServer W) (req : NodeExpandRequest) (v : VolumeCapability)
    (id serial : Text) (size : ℤ) (s s' : Server W) (answer : Option ℤ)
    → parse_csi_vol_id req.volume_id ≡ some (id, serial)
    → req.volume_capability ≡ some v
    → is_block v ≡ false
    → get_request_size_bytes req.capacity_range ≡ bytes size
    → node_expand_volume ns req s ≡ (ok answer, s')
    → Grown ns req.volume_path serial size s.world answer
unfolding node_expand_volume expand_file_system expand_parsed
node_expand-Grown ns req v id serial size s s' answer named has file sized g =
    let (p, g1) = require-eq-ok (not (is_empty req.volume_id)) invalid_argument _ s g in
    let (q, g2) = require-eq-ok (not (is_empty req.volume_path)) invalid_argument _ s g1 in
    let g3 : expand_file_system ns req s ≡ (ok answer, s') = rw (has, file) at g2 in
    expand_file_system-Grown ns req size id serial s s' answer named sized g3
