-- ===== src/Blockdev.antt =====
-- src/kernel/blockdev.cpp: the table of block devices, and reads and writes of their sectors. The
-- driver of the IDE disks, which programs ports, is a parameter; a buffer is what its bytes are.
pub mod Bounds
mod Tests
use continuum_os.Common.{
  ℕ, zero, suc, ◌+◌, ◌%◌, ◌^◌, Bool, true, false, ◌||◌, not, Option, none, some, List, [], ◌∷◌, ltb,
  leb, ◌==◌, if◌then◌else◌, get_or, set, replicate,
}
use continuum_os.Common.Int.{ℤ, pos, negsuc}
use continuum_os.Strings.{Text, is_zero}

abbrev pub blockdev_type_ide : ℕ
blockdev_type_ide = 1

abbrev pub blockdev_success : ℤ
blockdev_success = pos 0

abbrev pub blockdev_error : ℤ
blockdev_error = negsuc 0

abbrev pub blockdev_not_found : ℤ
blockdev_not_found = negsuc 1

abbrev pub max_block_devices : ℕ
max_block_devices = 8

-- `blockdev_info_t`.
pub record BlockDevice : Type 0 where
  pub type : ℕ
  pub device_id : ℕ
  pub sector_count : ℕ
  pub sector_size : ℕ
  pub present : Bool
  pub name : Text

pub record BlockDevices : Type 0 where
  pub devices : List BlockDevice
  pub device_count : ℕ

-- The driver: the sectors of each drive that `ide_init` found and that exists, and the transfers from
-- a sector on.
pub record IdeDriver (W : Type 0) : Type 0 where
  pub drives : List (Option ℕ)
  pub read_sectors : ℕ → ℕ → ℕ → W → ℤ × (ℕ → ℕ) × W
  pub write_sectors : ℕ → ℕ → ℕ → (ℕ → ℕ) → W → ℤ × W

abbrev pub no_device : BlockDevice
no_device = record {
  type = 0;
  device_id = 0;
  sector_count = 0;
  sector_size = 0;
  present = false;
  name = [];
}

unfoldable pub blockdev_register : BlockDevice → BlockDevices → ℤ × BlockDevices
blockdev_register info b = if leb max_block_devices b.device_count then (blockdev_error, b) else (
  blockdev_success,
  record { devices = set b.devices b.device_count info; device_count = b.device_count + 1 },
)

abbrev ide_device : ℕ → ℕ → BlockDevice
ide_device i sectors = record {
  type = blockdev_type_ide;
  device_id = i;
  sector_count = sectors;
  sector_size = 512;
  present = true;
  name = 104 ∷ 100 ∷ (48 + i) ∷ [];
}

-- The loop over the drives.
unfoldable pub register_drives : ℕ → List (Option ℕ) → BlockDevices → BlockDevices
register_drives i [] b = b
register_drives i (none ∷ drives) b =
    if ltb b.device_count max_block_devices then register_drives (i + 1) drives b else b
register_drives i (some sectors ∷ drives) b =
    if ltb b.device_count max_block_devices
    then register_drives (i + 1) drives (blockdev_register (ide_device i sectors) b).1
    else b

unfoldable pub blockdev_init : List (Option ℕ) → BlockDevices
blockdev_init drives =
    register_drives 0 drives (record { devices = replicate 8 no_device; device_count = 0 })

-- A device that is not in the table.
unfoldable pub is_missing : ℕ → BlockDevices → Bool
is_missing device b = leb b.device_count device || not (get_or b.devices device no_device).present

unfoldable pub blockdev_get_info : ℕ → BlockDevices → Option BlockDevice
blockdev_get_info device b =
    if is_missing device b then none else some (get_or b.devices device no_device)

-- The sectors are not all on the device; the sum is one of 32 bits.
unfoldable pub is_out_of_range : BlockDevice → ℕ → ℕ → Bool
is_out_of_range dev sector count =
    leb dev.sector_count sector
    || ltb dev.sector_count count
    || ltb dev.sector_count ((sector + count) % 2 ^ 32)

module _ {W : Type 0} (ide : IdeDriver W) (b : BlockDevices) where
  unfoldable pub blockdev_read : ℕ → ℕ → ℕ → (ℕ → ℕ) → W → ℤ × (ℕ → ℕ) × W
  blockdev_read device sector count buffer w =
      let dev = get_or b.devices device no_device in
      if is_missing device b
      then (blockdev_not_found, buffer, w)
      else (if leb dev.sector_count sector || not (dev.type == blockdev_type_ide)
          then (blockdev_error, buffer, w)
          else ide.read_sectors dev.device_id sector count w)

  unfoldable pub blockdev_write : ℕ → ℕ → ℕ → (ℕ → ℕ) → W → ℤ × W
  blockdev_write device sector count buffer w =
      let dev = get_or b.devices device no_device in
      if is_missing device b
      then (blockdev_not_found, w)
      else (if is_out_of_range dev sector count || not (dev.type == blockdev_type_ide)
          then (blockdev_error, w)
          else let (result, w') = ide.write_sectors dev.device_id sector count buffer w in
            (if is_zero result then blockdev_success else blockdev_error, w'))
