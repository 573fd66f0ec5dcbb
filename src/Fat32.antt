-- ===== src/Fat32.antt =====
-- src/kernel/fat32.cpp and include/kernel/fat32.h: the FAT32 file system on a block device. A buffer is
-- what its bytes are, and whether `kmalloc` has memory for one is an argument. A cluster number is
-- below 2^28, as the table's entries have it. A table that a failed mount has freed again is `none`.
pub mod Names
pub mod ShortNames
pub mod LongNames
pub mod Files
pub mod Chains
pub mod Alloc
pub mod Reading
pub mod Seeking
pub mod Writing
pub mod Sizes
pub mod WriteEnds
mod Tests
use Prim.Native.Nat.{◌*◌, ◌/◌}
use continuum_os.Common.{
  ℕ, zero, suc, ◌+◌, ◌-◌, ◌%◌, ◌^◌, Bool, true, false, ◌&&◌, ◌||◌, not, Option, none, some, List,
  ltb, leb, ◌==◌, if◌then◌else◌,
}
use continuum_os.Common.Int.{ℤ, pos, negsuc}
use continuum_os.Strings.{is_zero}
use continuum_os.Blockdev.{IdeDriver, BlockDevices, blockdev_read, blockdev_write}

abbrev fat32_signature : ℕ
fat32_signature = 43605

abbrev pub fat32_end_cluster : ℕ
fat32_end_cluster = 268435455

abbrev pub fat32_free_cluster : ℕ
fat32_free_cluster = 0

abbrev pub fat32_max_open_files : ℕ
fat32_max_open_files = 16

-- `fat32_boot_sector_t`, without the fields that nothing reads.
pub record BootSector : Type 0 where
  pub bytes_per_sector : ℕ
  pub sectors_per_cluster : ℕ
  pub reserved_sectors : ℕ
  pub num_fats : ℕ
  pub fat_size_16 : ℕ
  pub total_sectors_32 : ℕ
  pub fat_size_32 : ℕ
  pub root_cluster : ℕ
  pub signature : ℕ

-- `fat32_fs_t`; a null table is `none`.
pub record FatInfo : Type 0 where
  pub device_id : ℕ
  pub bytes_per_sector : ℕ
  pub sectors_per_cluster : ℕ
  pub reserved_sectors : ℕ
  pub num_fats : ℕ
  pub fat_size : ℕ
  pub root_cluster : ℕ
  pub data_start_sector : ℕ
  pub fat_start_sector : ℕ
  pub total_clusters : ℕ
  pub fat_table : Option (ℕ → ℕ)

-- `fat32_file_t`.
pub record FatFile : Type 0 where
  pub start_cluster : ℕ
  pub current_cluster : ℕ
  pub file_size : ℕ
  pub position : ℕ
  pub cluster_position : ℕ
  pub last_cluster : ℕ
  pub dir_cluster : ℕ
  pub dir_entry_cluster : ℕ
  pub dir_entry_index : ℕ
  pub in_use : Bool

-- The file system, and the state of the disks.
pub record Fat32 (W : Type 0) : Type 0 where
  pub fs_info : FatInfo
  pub open_files : List FatFile
  pub mounted : Bool
  pub disk : W

-- Words as their bytes, the low one first.
abbrev word_16 : (ℕ → ℕ) → ℕ → ℕ
word_16 bytes i = bytes i + 256 * bytes (i + 1)

abbrev word_32 : (ℕ → ℕ) → ℕ → ℕ
word_32 bytes i = word_16 bytes i + 65536 * word_16 bytes (i + 2)

unfoldable pub boot_sector : (ℕ → ℕ) → BootSector
boot_sector bytes = record {
  bytes_per_sector = word_16 bytes 11;
  sectors_per_cluster = bytes 13;
  reserved_sectors = word_16 bytes 14;
  num_fats = bytes 16;
  fat_size_16 = word_16 bytes 22;
  total_sectors_32 = word_32 bytes 32;
  fat_size_32 = word_32 bytes 36;
  root_cluster = word_32 bytes 44;
  signature = word_16 bytes 510;
}

-- The table from its bytes, and its bytes.
abbrev pub table_of : (ℕ → ℕ) → ℕ → ℕ
table_of bytes c = word_32 bytes (4 * c)

abbrev pub table_bytes : (ℕ → ℕ) → ℕ → ℕ
table_bytes table i = table (i / 4) / 256 ^ (i % 4) % 256

unfoldable pub fat32_validate_boot_sector : BootSector → ℤ
fat32_validate_boot_sector boot =
    if not (boot.signature == fat32_signature)
      || not (boot.fat_size_16 == 0)
      || boot.fat_size_32 == 0
      || not (boot.bytes_per_sector == 512)
    then negsuc 0
    else pos 0

-- `fs_info` from the boot sector; the table is still to be read.
unfoldable pub fs_info_of : ℕ → BootSector → FatInfo
fs_info_of device_id boot =
    let data_start = (boot.reserved_sectors + boot.num_fats * boot.fat_size_32) % 2 ^ 32 in
    record {
      device_id = device_id;
      bytes_per_sector = boot.bytes_per_sector;
      sectors_per_cluster = boot.sectors_per_cluster;
      reserved_sectors = boot.reserved_sectors;
      num_fats = boot.num_fats;
      fat_size = boot.fat_size_32;
      root_cluster = boot.root_cluster;
      data_start_sector = data_start;
      fat_start_sector = boot.reserved_sectors;
      total_clusters =
          (boot.total_sectors_32 + 2 ^ 32 - data_start) % 2 ^ 32 / boot.sectors_per_cluster;
      fat_table = none;
    }

-- The words of the table, which is there while a file system is mounted.
abbrev pub table : {W : Type 0} → Fat32 W → ℕ → ℕ
table fs c = elim fs.fs_info.fat_table [ none ↦ 0 | some t ↦ t c ]

abbrev pub with_table : {W : Type 0} → (ℕ → ℕ) → Fat32 W → Fat32 W
with_table t fs = record fs { fs_info = record fs.fs_info { fat_table = some t } }

abbrev pub set_entry : ℕ → ℕ → (ℕ → ℕ) → ℕ → ℕ
set_entry c x t i = if i == c then x else t i

-- The 28 bits of an entry that count.
abbrev pub low_28 : ℕ → ℕ
low_28 x = x % 2 ^ 28

-- A cluster that a chain goes on with.
abbrev pub is_link : ℕ → Bool
is_link c = leb 2 c && ltb c fat32_end_cluster

unfoldable pub fat32_unmount : {W : Type 0} → Fat32 W → ℤ × Fat32 W
fat32_unmount fs =
    if fs.mounted
    then (pos 0, record fs { fs_info = record fs.fs_info { fat_table = none }; mounted = false })
    else (negsuc 0, fs)

unfoldable pub fat32_cluster_to_sector : {W : Type 0} → ℕ → Fat32 W → ℕ
fat32_cluster_to_sector cluster fs =
    if ltb cluster 2
    then 0
    else (fs.fs_info.data_start_sector + (cluster - 2) * fs.fs_info.sectors_per_cluster) % 2 ^ 32

unfoldable pub fat32_get_next_cluster : {W : Type 0} → ℕ → Fat32 W → ℕ
fat32_get_next_cluster cluster fs = elim fs.fs_info.fat_table [
  | none ↦ fat32_end_cluster
  | some t ↦
      if not fs.mounted || leb fs.fs_info.total_clusters cluster
      then fat32_end_cluster
      else low_28 (t cluster)
]

-- `fat32_get_last_cluster`; `none` is a chain longer than the fuel.
unfoldable pub last_from : ℕ → ℕ → (ℕ → ℕ) → Option ℕ
last_from zero cluster t = none
last_from (suc fuel) cluster t =
    let further = last_from fuel (low_28 (t cluster)) t in
    if is_link (low_28 (t cluster)) then further else some cluster

unfoldable pub fat32_get_last_cluster : {W : Type 0} → ℕ → ℕ → Fat32 W → Option ℕ
fat32_get_last_cluster fuel start fs =
    let walked = last_from fuel start (table fs) in if is_link start then walked else some start

-- The first cluster from `c` on, of `n`, whose entry is free.
unfoldable pub free_from : ℕ → ℕ → (ℕ → ℕ) → Option ℕ
free_from zero c t = none
free_from (suc n) c t =
    let later = free_from n (c + 1) t in
    if low_28 (t c) == fat32_free_cluster then some c else later

-- The entry of the cluster before the new one keeps its upper four bits.
unfoldable pub link : ℕ → ℕ → (ℕ → ℕ) → ℕ → ℕ
link previous c t =
    if is_link previous then set_entry previous (t previous / 2 ^ 28 * 2 ^ 28 + c) t else t

-- The loop of `fat32_free_cluster_chain`.
unfoldable pub free_chain : ℕ → ℕ → (ℕ → ℕ) → Option (ℕ → ℕ)
free_chain zero cluster t = none
free_chain (suc fuel) cluster t =
    let further = free_chain fuel (low_28 (t cluster)) (set_entry cluster fat32_free_cluster t) in
    if is_link cluster then further else some t

module _ {W : Type 0} (ide : IdeDriver W) (b : BlockDevices) where
  -- Behind the call to read the table; the count of sectors is one of 8 bits.
  unfoldable pub read_table : FatInfo → Fat32 W → ℤ × Fat32 W
  read_table info fs =
      let (result, bytes, w) =
        blockdev_read ide b info.device_id info.fat_start_sector (info.fat_size % 256) (λ i. 0)
          fs.disk in
      if is_zero result
      then (
        pos 0,
        record fs {
          fs_info = record info { fat_table = some (table_of bytes) };
          mounted = true;
          disk = w;
        },
      )
      else (negsuc 0, record fs { fs_info = info; disk = w })

  unfoldable pub mount_boot : ℕ → Bool → (ℕ → ℕ) → Fat32 W → Option (ℤ × Fat32 W)
  mount_boot device_id memory bytes fs =
      let boot = boot_sector bytes in
      let info = fs_info_of device_id boot in
      if is_zero (fat32_validate_boot_sector boot)
      then (if boot.sectors_per_cluster == 0
          then none
          else (if memory
              then some (read_table info fs)
              else some (negsuc 0, record fs { fs_info = info })))
      else some (negsuc 0, fs)

  -- `fat32_mount`; `none` is the fault of a division by zero.
  unfoldable pub fat32_mount : ℕ → Bool → Fat32 W → Option (ℤ × Fat32 W)
  fat32_mount device_id memory fs =
      let (result, bytes, w) = blockdev_read ide b device_id 0 1 (λ i. 0) fs.disk in
      if fs.mounted
      then some (negsuc 0, fs)
      else (if is_zero result
          then mount_boot device_id memory bytes (record fs { disk = w })
          else some (negsuc 0, record fs { disk = w }))

  unfoldable pub fat32_read_cluster : ℕ → (ℕ → ℕ) → Fat32 W → ℤ × (ℕ → ℕ) × Fat32 W
  fat32_read_cluster cluster buffer fs =
      let sector = fat32_cluster_to_sector cluster fs in
      let (result, bytes, w) =
        blockdev_read ide b fs.fs_info.device_id sector (fs.fs_info.sectors_per_cluster % 256)
          buffer fs.disk in
      if not fs.mounted || sector == 0
      then (negsuc 0, buffer, fs)
      else (result, bytes, record fs { disk = w })

  unfoldable pub fat32_write_cluster : ℕ → (ℕ → ℕ) → Fat32 W → ℤ × Fat32 W
  fat32_write_cluster cluster buffer fs =
      let sector = fat32_cluster_to_sector cluster fs in
      let (result, w) =
        blockdev_write ide b fs.fs_info.device_id sector (fs.fs_info.sectors_per_cluster % 256)
          buffer fs.disk in
      if not fs.mounted || sector == 0 then (negsuc 0, fs) else (result, record fs { disk = w })

  -- The copies of the table from `copy` on, `n` of them.
  unfoldable pub flush_copies : ℕ → ℕ → FatInfo → (ℕ → ℕ) → W → ℤ × W
  flush_copies copy zero info bytes w = (pos 0, w)
  flush_copies copy (suc n) info bytes w =
      let (result, w') =
        blockdev_write ide b info.device_id
          ((info.fat_start_sector + copy * info.fat_size) % 2 ^ 32) (info.fat_size % 256) bytes w in
      if is_zero result then flush_copies (copy + 1) n info bytes w' else (negsuc 0, w')

  unfoldable pub fat32_flush_fat : Fat32 W → ℤ × Fat32 W
  fat32_flush_fat fs = elim fs.fs_info.fat_table [
    | none ↦ (negsuc 0, fs)
    | some t ↦
        let (result, w) = flush_copies 0 fs.fs_info.num_fats fs.fs_info (table_bytes t) fs.disk in
        if fs.mounted then (result, record fs { disk = w }) else (negsuc 0, fs)
  ]

  -- A free cluster that was found: marked, linked, cleared on the disk and flushed.
  unfoldable pub take_cluster : ℕ → ℕ → Fat32 W → ℕ × Fat32 W
  take_cluster previous c fs =
      let linked = with_table (link previous c (set_entry c fat32_end_cluster (table fs))) fs in
      let (cleared, fs') = fat32_write_cluster c (λ i. 0) linked in
      let (flushed, fs'') = fat32_flush_fat fs' in
      if is_zero cleared
      then (if is_zero flushed then c else 0, fs'')
      else (0, with_table (set_entry c fat32_free_cluster (table fs')) fs')

  unfoldable pub fat32_allocate_cluster : Bool → ℕ → Fat32 W → ℕ × Fat32 W
  fat32_allocate_cluster memory previous fs =
      if memory
      then elim (free_from (fs.fs_info.total_clusters - 2) 2 (table fs)) [
        | none ↦ (0, fs)
        | some c ↦ take_cluster previous c fs
      ]
      else (0, fs)

  -- `none` is a chain longer than the fuel.
  unfoldable pub fat32_free_cluster_chain : ℕ → ℕ → Fat32 W → Option (Fat32 W)
  fat32_free_cluster_chain fuel start fs =
      if is_link start
      then elim (free_chain fuel start (table fs)) [
        | none ↦ none
        | some t ↦ some (fat32_flush_fat (with_table t fs)).1
      ]
      else some fs
