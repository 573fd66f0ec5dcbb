-- ===== src/Blockdev/Tests.antt =====
-- The theorem on block devices at work.
use continuum_os.Common.{ℕ, suc, ◌≡◌, refl, true, arith, [], ◌∷◌}
use continuum_os.Common.Int.{pos}
use continuum_os.Blockdev.{BlockDevices, IdeDriver, is_missing, is_out_of_range, blockdev_write}
use continuum_os.Blockdev.Bounds.{Writing, blockdev_write-Writing}

-- A driver that counts its writes.
abbrev counter : IdeDriver ℕ
counter = record {
  drives = [];
  read_sectors = λ d s n w. (pos 0, λ i. 0, w);
  write_sectors = λ d s n buffer w. (pos 0, suc w);
}

abbrev one_disk : BlockDevices
one_disk = record {
  devices =
      record {
        type = 1;
        device_id = 0;
        sector_count = 100;
        sector_size = 512;
        present = true;
        name = [];
      }
      ∷ [];
  device_count = 1;
}

writes_once : blockdev_write counter one_disk 0 98 2 (λ i. 7) 0 ≡ (pos 0, 1)
unfolding blockdev_write is_missing is_out_of_range
writes_once = refl

blockdev_write-Writing_example :
    Writing counter one_disk 0 98 2 (λ i. 7) 0 (blockdev_write counter one_disk 0 98 2 (λ i. 7) 0)
blockdev_write-Writing_example =
    blockdev_write-Writing counter one_disk 0 98 2 (λ i. 7) 0 (omega arith) (omega arith)
