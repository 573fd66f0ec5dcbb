-- ===== src/Fat32/Files.antt =====
-- The open files of src/kernel/fat32.cpp: `fat32_read`, `fat32_seek` and `fat32_close`, and what
-- `fat32_open` and `fat32_write` do once the directory has been read or before it is written again.
use Prim.Native.Nat.{◌*◌}
use continuum_os.Common.{
  ℕ, zero, suc, ◌+◌, ◌-◌, ◌%◌, ◌^◌, Bool, false, ◌&&◌, ◌||◌, not, Option, none, some, List, [], ◌∷◌,
  ◌++◌, ltb, leb, if◌then◌else◌, length, get_or, set,
}
use continuum_os.Common.Int.{ℤ, pos, negsuc}
use continuum_os.Strings.{is_zero}
use continuum_os.Blockdev.{IdeDriver, BlockDevices}
use continuum_os.Ramfs.{slice}
use continuum_os.Fat32.{
  Fat32, FatFile, fat32_end_cluster, fat32_get_next_cluster, fat32_read_cluster,
}

abbrev pub no_file : FatFile
no_file = record {
  start_cluster = 0;
  current_cluster = 0;
  file_size = 0;
  position = 0;
  cluster_position = 0;
  last_cluster = 0;
  dir_cluster = 0;
  dir_entry_cluster = 0;
  dir_entry_index = 0;
  in_use = false;
}

-- The open file of a descriptor.
unfoldable pub file_at : {W : Type 0} → ℤ → Fat32 W → Option FatFile
file_at (negsuc n) fs = none
file_at (pos fd) fs =
    if leb 16 fd || not (get_or fs.open_files fd no_file).in_use
    then none
    else some (get_or fs.open_files fd no_file)

unfoldable pub put_file : {W : Type 0} → ℤ → FatFile → Fat32 W → Fat32 W
put_file (negsuc n) file fs = fs
put_file (pos fd) file fs = record fs { open_files = set fs.open_files fd file }

abbrev pub cluster_size : {W : Type 0} → Fat32 W → ℕ
cluster_size fs = fs.fs_info.sectors_per_cluster * fs.fs_info.bytes_per_sector

unfoldable pub fat32_close : {W : Type 0} → ℤ → Fat32 W → Fat32 W
fat32_close fd fs = elim (file_at fd fs) [ none ↦ fs | some file ↦ put_file fd no_file fs ]

-- The first descriptor that is free, from `i` on.
unfoldable pub free_file : List FatFile → ℕ → Option ℕ
free_file [] i = none
free_file (f ∷ files) i = let later = free_file files (i + 1) in if f.in_use then later else some i

-- The loop of `fat32_seek`: the bytes that are left, and the file.
unfoldable pub seek_loop : {W : Type 0} → ℕ → ℕ → FatFile → Fat32 W → Option (ℕ × FatFile)
seek_loop zero position file fs = none
seek_loop (suc fuel) position file fs =
    let further =
      seek_loop fuel (position - cluster_size fs)
        (record file {
          current_cluster = fat32_get_next_cluster file.current_cluster fs;
          position = file.position + cluster_size fs;
        })
        fs in
    if leb (cluster_size fs) position && ltb file.current_cluster fat32_end_cluster
    then further
    else some (position, file)

abbrev pub at_start : FatFile → FatFile
at_start file = record file {
  current_cluster = file.start_cluster;
  position = 0;
  cluster_position = 0;
}

abbrev pub seek_end : ℕ × FatFile → FatFile
seek_end (position, file) = record file {
  cluster_position = position;
  position = file.position + position;
}

unfoldable pub seek_file : {W : Type 0} → ℕ → ℕ → FatFile → Fat32 W → Option FatFile
seek_file fuel position file fs =
    elim (seek_loop fuel (if ltb file.file_size position then file.file_size else position)
      (at_start file) fs) [ none ↦ none | some r ↦ some (seek_end r) ]

-- `none` is a loop longer than the fuel.
unfoldable pub fat32_seek : {W : Type 0} → ℕ → ℤ → ℕ → Fat32 W → Option (ℤ × Fat32 W)
fat32_seek fuel fd position fs = elim (file_at fd fs) [
  | none ↦ some (negsuc 0, fs)
  | some file ↦ elim (seek_file fuel position file fs) [
    | none ↦ none
    | some file' ↦ some (pos 0, put_file fd file' fs)
  ]
]

abbrev pub smaller : ℕ → ℕ → ℕ
smaller a c = if ltb a c then a else c

-- The file behind `n` bytes of its cluster.
abbrev pub advanced : {W : Type 0} → ℕ → FatFile → Fat32 W → FatFile
advanced n file fs =
    let used = file.cluster_position + n in
    record file {
      position = file.position + n;
      current_cluster =
          if leb (cluster_size fs) used
          then fat32_get_next_cluster file.current_cluster fs
          else file.current_cluster;
      cluster_position = if leb (cluster_size fs) used then 0 else used;
    }

-- The number of bytes, which is cut down to the file; the sum is one of 32 bits.
unfoldable pub bytes_to_read : ℕ → FatFile → ℕ
bytes_to_read size file =
    if ltb file.file_size ((file.position + size) % 2 ^ 32)
    then file.file_size - file.position
    else size

module _ {W : Type 0} (ide : IdeDriver W) (b : BlockDevices) where
  -- The loop of `fat32_read`, with `size` bytes to go: the bytes it adds, unless a cluster cannot be
  -- read, and the file. The buffer holds the last cluster read.
  unfoldable pub read_loop :
      ℕ → ℕ → (ℕ → ℕ) → FatFile → Fat32 W → Option (Option (List ℕ) × FatFile × Fat32 W)
  read_loop zero size buffer file fs = none
  read_loop (suc fuel) size buffer file fs =
      let (result, bytes, fs') = fat32_read_cluster ide b file.current_cluster buffer fs in
      let n = smaller size (cluster_size fs - file.cluster_position) in
      let further = read_loop fuel (size - n) bytes (advanced n file fs') fs' in
      if ltb 0 size && ltb file.current_cluster fat32_end_cluster
      then (if is_zero result
          then elim further [
            | none ↦ none
            | some (none, file', fs'') ↦ some (none, file', fs'')
            | some (some rest, file', fs'') ↦
                some (some (slice bytes file.cluster_position n ++ rest), file', fs'')
          ]
          else some (none, file, fs'))
      else some (some [], file, fs)

  abbrev pub read_answer : ℤ → Option (List ℕ) × FatFile × Fat32 W → ℤ × List ℕ × Fat32 W
  read_answer fd (none, file, fs) = (negsuc 0, [], put_file fd file fs)
  read_answer fd (some bytes, file, fs) = (pos (length bytes), bytes, put_file fd file fs)

  -- `none` is a loop longer than the fuel.
  unfoldable pub fat32_read : ℕ → Bool → ℤ → ℕ → Fat32 W → Option (ℤ × List ℕ × Fat32 W)
  fat32_read fuel memory fd size fs = elim (file_at fd fs) [
    | none ↦ some (negsuc 0, [], fs)
    | some file ↦
        if leb file.file_size file.position
        then some (pos 0, [], fs)
        else (if memory
            then elim (read_loop fuel (bytes_to_read size file) (λ i. 0) file fs) [
              | none ↦ none
              | some r ↦ some (read_answer fd r)
            ]
            else some (negsuc 0, [], fs))
  ]
