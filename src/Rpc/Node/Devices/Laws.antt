-- ===== src/Rpc/Node/Devices/Laws.antt =====
-- getDevPathBySerial, against the list of the devices that have the serial.
use zenlayer_cloud_csi_drive.Prelude.{
  ◌≡◌, refl, false, not, List, [], ◌∷◌, ◌&&◌, Text, codes, arith, is_empty, if◌then◌else◌,
  Bool-cases, inl, inr,
}
use zenlayer_cloud_csi_drive.Prelude.Result.{Result, ok, err}
use zenlayer_cloud_csi_drive.Prelude.Lines.{split, newline, trim_space}
use zenlayer_cloud_csi_drive.Host.System.{Host, FileError}
use zenlayer_cloud_csi_drive.Rpc.Node.Devices.{
  DeviceError, no_device, duplicate_serial, serial_path, device_path, has_serial, look, scan,
  get_dev_path_by_serial,
}

-- The names of a list that are not empty and whose file has the serial.
abbrev pub matching : (Text → Result FileError Text) → Text → List Text → List Text
matching files serial [] = []
matching files serial (d ∷ ds) =
    let rest = matching files serial ds in
    if not (is_empty d) && has_serial serial (files (serial_path d)) then d ∷ rest else rest

-- The one device of a list.
abbrev pub only_device : List Text → Result DeviceError Text
only_device [] = err no_device
only_device (d ∷ []) = ok (device_path d)
only_device (d ∷ e ∷ ds) = err duplicate_serial

-- What is left to say of a list once a device is found.
abbrev unless_more : Text → List Text → Result DeviceError Text
unless_more found [] = ok found
unless_more found (d ∷ ds) = err duplicate_serial

unless_more-only_device :
    (d : Text) (ds : List Text) → unless_more (device_path d) ds ≡ only_device (d ∷ ds)
unless_more-only_device d [] = refl
unless_more-only_device d (e ∷ ds) = refl

-- A world w in which the files are what `files` says, and reading them changes nothing.
module _ {W : Type 0} (h : Host W) (files : Text → Result FileError Text) (w : W)
    (reads : (p : Text) → h.read_file p w ≡ (files p, w)) where
  look_lem :
      (serial d : Text)
      → look h serial d w ≡ (not (is_empty d) && has_serial serial (files (serial_path d)), w)
  unfolding look
  look_lem serial d = ground (arith, reads (serial_path d))

  scan_found :
      (serial found : Text) (ds : List Text)
      → is_empty found ≡ false
      → scan h serial found ds w ≡ (unless_more found (matching files serial ds), w)
  unfolding scan
  scan_found serial found [] some = rw some refl
  scan_found serial found (d ∷ ds) some =
      elim (Bool-cases (not (is_empty d) && has_serial serial (files (serial_path d)))) [
        | inl hit ↦ ground (arith, look_lem serial d, hit, some)
        | inr miss ↦ ground (arith, look_lem serial d, miss, scan_found serial found ds some)
      ]

  scan_lem :
      (serial : Text) (ds : List Text)
      → scan h serial [] ds w ≡ (only_device (matching files serial ds), w)
  unfolding scan is_empty device_path
  scan_lem serial [] = refl
  scan_lem serial (d ∷ ds) =
      elim (Bool-cases (not (is_empty d) && has_serial serial (files (serial_path d)))) [
        | inl hit ↦ ground (
          arith,
          look_lem serial d,
          hit,
          unless_more-only_device d (matching files serial ds),
          scan_found serial (device_path d) ds refl,
        )
        | inr miss ↦ ground (arith, look_lem serial d, miss, scan_lem serial ds)
      ]

  -- The loop of getDevPathBySerial finds the device by its serial: where lsblk prints the names and
  -- the files can be read, unreadable ones included, it answers with the one device among the names
  -- whose serial file has the serial; it fails if there is none, and if there are several. It changes
  -- nothing. Neither lsblk nor the reading of a file changes the world.
  pub get_dev_path_by_serial_lem :
      (serial out : Text)
      → h.run
          (codes "lsblk")
          (codes "-d" ∷ codes "-o" ∷ codes "NAME" ∷ codes "-n" ∷ codes "-i" ∷ [])
          w
        ≡ (ok out, w)
      → get_dev_path_by_serial h serial w
        ≡ (only_device (matching files serial (split newline (trim_space out))), w)
  unfolding get_dev_path_by_serial
  get_dev_path_by_serial_lem serial out listed =
      rw listed (scan_lem serial (split newline (trim_space out)))
