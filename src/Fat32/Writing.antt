-- ===== src/Fat32/Writing.antt =====
-- `fat32_write` of src/kernel/fat32.cpp, with the update of the file's directory entry. `memory` says
-- for each `kmalloc` of the call whether it has memory.
use Prim.Native.Nat.{◌*◌, ◌/◌}
use continuum_os.Common.{
  ℕ, zero, suc, ◌+◌, ◌-◌, ◌%◌, ◌^◌, Bool, true, false, ◌&&◌, ◌||◌, not, Option, none, some, List,
  ltb, leb, ◌==◌, if◌then◌else◌, length, get_or, drop,
}
use continuum_os.Common.Int.{ℤ, pos, negsuc}
use continuum_os.Strings.{is_zero}
use continuum_os.Blockdev.{IdeDriver, BlockDevices}
use continuum_os.Fat32.{
  Fat32, FatFile, is_link, table, low_28, fat32_read_cluster, fat32_write_cluster,
  fat32_allocate_cluster,
}
use continuum_os.Fat32.Files.{file_at, put_file, cluster_size, smaller}

-- Byte `k` of a word.
abbrev byte_of : ℕ → ℕ → ℕ
byte_of x k = x / 256 ^ k % 256

-- The bytes of a cluster with the entry at `base` updated: the first cluster and the size of the file.
unfoldable pub entry_updated : ℕ → FatFile → (ℕ → ℕ) → ℕ → ℕ
entry_updated base file bytes i =
    if leb (base + 26) i && ltb i (base + 28)
    then byte_of file.start_cluster (i - (base + 26))
    else (if leb (base + 20) i && ltb i (base + 22)
        then byte_of file.start_cluster (i - (base + 20) + 2)
        else (if leb (base + 28) i && ltb i (base + 32)
            then byte_of file.file_size (i - (base + 28))
            else bytes i))

-- A buffer with the first `n` bytes of a source at `offset`.
abbrev pub patched_with : ℕ → ℕ → List ℕ → (ℕ → ℕ) → ℕ → ℕ
patched_with offset n src bytes i =
    if leb offset i && ltb i (offset + n) then get_or src (i - offset) 0 else bytes i

-- The calls of `kmalloc`: for the buffer of the call, for the entry's cluster, and for the zeros of a
-- new cluster, with the bytes written so far and the place in the loop, of three.
pub data Kmalloc : Type 0 where
  for_call : Kmalloc
  for_entry : Kmalloc
  for_zeros : ℕ → ℕ → Kmalloc

-- A step of the loop: whether it goes on, and the file and the file system behind it.
abbrev pub Step : Type 0 → Type 0
Step W = Bool × FatFile × Fat32 W

module _ {W : Type 0} (ide : IdeDriver W) (b : BlockDevices) (memory : Kmalloc → Bool) where
  unfoldable pub fat32_update_file_entry : FatFile → Fat32 W → ℤ × Fat32 W
  fat32_update_file_entry file fs =
      let (result, bytes, fs') = fat32_read_cluster ide b file.dir_entry_cluster (λ i. 0) fs in
      let (written, fs'') =
        fat32_write_cluster ide b file.dir_entry_cluster
          (entry_updated (file.dir_entry_index * 32) file bytes) fs' in
      if ltb file.dir_entry_cluster 2 || not (memory for_entry)
      then (negsuc 0, fs)
      else (if is_zero result
          then (if is_zero written then pos 0 else negsuc 0, fs'')
          else (negsuc 0, fs'))

  -- A file without a cluster gets its first.
  unfoldable pub first_cluster : ℕ → FatFile → Fat32 W → Step W
  first_cluster done file fs =
      let (c, fs') =
        fat32_allocate_cluster ide b (memory (for_zeros done 0)) file.start_cluster fs in
      if ltb file.start_cluster 2
      then (
        not (c == 0),
        (if c == 0 then file else record file {
          start_cluster = c;
          current_cluster = c;
          last_cluster = c;
          cluster_position = 0;
        }),
        fs',
      )
      else (true, file, fs)

  -- A file behind its last cluster gets another.
  unfoldable pub further_cluster : ℕ → FatFile → Fat32 W → Step W
  further_cluster done file fs =
      let previous = if leb 2 file.last_cluster then file.last_cluster else file.start_cluster in
      let (c, fs') = fat32_allocate_cluster ide b (memory (for_zeros done 1)) previous fs in
      if is_link file.current_cluster then (true, file, fs) else (
        not (c == 0),
        (if c == 0 then file else record file {
          current_cluster = if is_link file.last_cluster then c else file.start_cluster;
          last_cluster = c;
          cluster_position = 0;
        }),
        fs',
      )

  -- A file at the end of its cluster goes to the next, which may be a new one.
  unfoldable pub next_cluster : ℕ → FatFile → Fat32 W → Step W
  next_cluster done file fs =
      let next = low_28 (table fs file.current_cluster) in
      let (c, fs') =
        fat32_allocate_cluster ide b (memory (for_zeros done 2)) file.current_cluster fs in
      if ltb file.cluster_position (cluster_size fs)
      then (true, file, fs)
      else (if is_link next
          then (true, record file { current_cluster = next; cluster_position = 0 }, fs)
          else (
            not (c == 0),
            (if c == 0
                then file
                else record file { current_cluster = c; last_cluster = c; cluster_position = 0 }),
            fs',
          ))

  -- One step after the other, unless the first stops.
  abbrev pub and_then : Step W → (FatFile → Fat32 W → Step W) → Step W
  and_then (goes_on, file, fs) step = if goes_on then step file fs else (false, file, fs)

  -- The cluster for the next bytes, with `done` bytes written.
  unfoldable pub find_cluster : ℕ → FatFile → Fat32 W → Step W
  find_cluster done file fs =
      and_then (and_then (first_cluster done file fs) (further_cluster done)) (next_cluster done)

  -- The cluster is read unless it is written in full, and written.
  unfoldable pub write_piece : ℕ → List ℕ → FatFile → Fat32 W → Step W
  write_piece n src file fs =
      let (result, bytes, fs') = fat32_read_cluster ide b file.current_cluster (λ i. 0) fs in
      let need_read = not (file.cluster_position == 0) || ltb n (cluster_size fs) in
      let from = if need_read then bytes else λ i. 0 in
      let behind = if need_read then fs' else fs in
      let (written, fs'') =
        fat32_write_cluster ide b file.current_cluster
          (patched_with file.cluster_position n src from) behind in
      let position = (file.position + n) % 2 ^ 32 in
      if need_read && not (is_zero result)
      then (false, file, fs')
      else (if is_zero written
          then (
            true,
            record file {
              cluster_position = file.cluster_position + n;
              position = position;
              file_size = if ltb file.file_size position then position else file.file_size;
            },
            fs'',
          )
          else (false, file, fs''))

  -- The loop, with `written` bytes done and `src` to go: the number of bytes written in the end.
  unfoldable pub write_loop : ℕ → ℕ → List ℕ → FatFile → Fat32 W → Option (ℕ × FatFile × Fat32 W)
  write_loop zero written src file fs = none
  write_loop (suc fuel) written src file fs =
      let found = find_cluster written file fs in
      let n = smaller (length src) (cluster_size found.2 - found.1.cluster_position) in
      let put_down = write_piece n src found.1 found.2 in
      let further = write_loop fuel (written + n) (drop n src) put_down.1 put_down.2 in
      if length src == 0
      then some (written, file, fs)
      else (if found.0
          then (if put_down.0 then further else some (written, put_down.1, put_down.2))
          else some (written, found.1, found.2))

  -- The end of the call, which updates the entry where all was written.
  unfoldable pub write_end : ℤ → ℕ → ℕ × FatFile × Fat32 W → ℤ × Fat32 W
  write_end fd size (written, file, fs) =
      let (updated, fs') = fat32_update_file_entry file (put_file fd file fs) in
      if written == size
      then (if is_zero updated then pos written else negsuc 0, fs')
      else (if ltb 0 written then pos written else negsuc 0, put_file fd file fs)

  -- `none` is a loop longer than the fuel.
  unfoldable pub fat32_write : ℕ → ℤ → List ℕ → Fat32 W → Option (ℤ × Fat32 W)
  fat32_write fuel fd buffer fs = elim (file_at fd fs) [
    | none ↦ some (negsuc 0, fs)
    | some file ↦
        if length buffer == 0
        then some (pos 0, fs)
        else (if memory for_call
            then elim (write_loop fuel 0 buffer file fs) [
              | none ↦ none
              | some r ↦ some (write_end fd (length buffer) r)
            ]
            else some (negsuc 0, fs))
  ]
