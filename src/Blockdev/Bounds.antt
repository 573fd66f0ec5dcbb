-- ===== src/Blockdev/Bounds.antt =====
-- Which writes of src/kernel/blockdev.cpp reach a disk.
use continuum_os.Common.{
  ℕ, ◌+◌, ◌-◌, ◌^◌, ◌≤◌, ◌<◌, ◌≡◌, true, false, ◌||◌, not, arith, ◌==◌, if◌then◌else◌, get_or,
  Bool-cases, inl, inr,
}
use continuum_os.Common.Int.{ℤ}
use continuum_os.Strings.{is_zero}
use continuum_os.Blockdev.{
  BlockDevices, IdeDriver, no_device, blockdev_type_ide, blockdev_success, blockdev_error,
  blockdev_not_found, is_missing, is_out_of_range, blockdev_write,
}

-- What becomes of the driver's answer.
abbrev answer : {W : Type 0} → ℤ × W → ℤ × W
answer (result, w) = (if is_zero result then blockdev_success else blockdev_error, w)

-- What a write comes to: it is refused and nothing is written, or the driver is given sectors that
-- are all on the device, and its answer is success or an error.
pub data Writing {W : Type 0} (ide : IdeDriver W) (b : BlockDevices) (device sector count : ℕ)
    (buffer : ℕ → ℕ) (w : W) : ℤ × W → Type 0 where
  missing :
      is_missing device b ≡ true
      → Writing ide b device sector count buffer w (blockdev_not_found, w)
  refused :
      is_missing device b ≡ false
      → (is_out_of_range (get_or b.devices device no_device) sector count
          || not ((get_or b.devices device no_device).type == blockdev_type_ide))
        ≡ true
      → Writing ide b device sector count buffer w (blockdev_error, w)
  written :
      (get_or b.devices device no_device).present ≡ true
      → device < b.device_count
      → sector + count ≤ (get_or b.devices device no_device).sector_count
      → Writing ide b device sector count buffer w (
          answer
            (ide.write_sectors (get_or b.devices device no_device).device_id sector count buffer w))

-- On a device of at most 2^32 - 256 sectors, `blockdev_write` of up to 255 sectors ends in one of the
-- outcomes of `Writing`.
pub blockdev_write-Writing :
    {W : Type 0} (ide : IdeDriver W) (b : BlockDevices) (device sector count : ℕ) (buffer : ℕ → ℕ)
    (w : W)
    → (get_or b.devices device no_device).sector_count ≤ 2 ^ 32 - 256
    → count < 256
    → Writing ide b device sector count buffer w (blockdev_write ide b device sector count buffer w)
unfolding blockdev_write is_missing is_out_of_range
blockdev_write-Writing ide b device sector count buffer w small few =
    let dev = get_or b.devices device no_device in
    elim (Bool-cases (is_missing device b)) [
      | inl m ↦ rw m (missing m)
      | inr here ↦ elim (Bool-cases (is_out_of_range dev sector count || not (dev.type == 1))) [
        | inl out ↦ rw (here, out) (refused here out)
        | inr fits ↦ rw (here, fits) (written (ground arith) (ground arith) (ground arith))
      ]
    ]
