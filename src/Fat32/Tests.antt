-- ===== src/Fat32/Tests.antt =====
-- Runs of the model of src/kernel/fat32.cpp, and the theorems at work on a small disk.
use Prim.Native.Nat.{◌*◌}
use continuum_os.Common.{
  ℕ, zero, suc, ◌+◌, ◌<◌, ◌≡◌, ◌≢◌, refl, true, some, List, [], ◌∷◌, map, arith, ◌==◌,
  if◌then◌else◌, leb, replicate,
}
use continuum_os.Common.Int.{ℤ, pos}
use continuum_os.Blockdev.{
  BlockDevices, IdeDriver, blockdev_read, blockdev_write, is_missing, is_out_of_range,
}
use continuum_os.Ramfs.Links.{occurs}
use continuum_os.Fat32.{
  Fat32, FatFile, fat32_end_cluster, fat32_free_cluster, table, low_28, fat32_get_next_cluster,
  fat32_cluster_to_sector, free_chain, fat32_allocate_cluster, free_from, take_cluster,
  fat32_write_cluster, fat32_flush_fat, flush_copies,
}
use continuum_os.Fat32.Files.{no_file, fat32_seek, fat32_read}
use continuum_os.Fat32.Reading.{cluster_of, bytes_from, IsChain, IsReadable}
use continuum_os.Fat32.Seeking.{fat32_read-fat32_seek}
use continuum_os.Fat32.Chains.{Chain, last, then_on, last_of, free_chain-Chain}
use continuum_os.Fat32.Alloc.{
  Allocated, fat32_allocate_cluster-Allocated, fat32_allocate_cluster-Chain,
}
use continuum_os.Fat32.Writing.{fat32_write}
use continuum_os.Fat32.WriteEnds.{Counted, fat32_write_ends}
use continuum_os.Fat32.Names.{
  fat32_to_upper, fat32_build_short_name, fat32_short_name_to_string, fat32_utf16le_chunk_to_ascii,
}
use continuum_os.Fat32.ShortNames.{is_short, fat32_short_name_to_string-fat32_build_short_name}
use continuum_os.Fat32.LongNames.{is_plain, with_piece, fat32_utf16le_chunk_to_ascii-with_piece}

-- A disk whose sectors hold their own numbers.
abbrev numbered : IdeDriver ℕ
numbered = record {
  drives = [];
  read_sectors = λ d s n w. (pos 0, λ i. s, w);
  write_sectors = λ d s n buffer w. (pos 0, suc w);
}

abbrev one_disk : BlockDevices
one_disk = record {
  devices =
      record {
        type = 1;
        device_id = 0;
        sector_count = 100;
        sector_size = 512;
        present = true;
        name = [];
      }
      ∷ [];
  device_count = 1;
}

-- Cluster 3 follows cluster 2, and the others are free.
abbrev two_clusters : ℕ → ℕ
two_clusters c = if c == 2 then 3 else (if c == 3 then 268435455 else 0)

abbrev file_600 : FatFile
file_600 = record no_file { start_cluster = 2; current_cluster = 2; file_size = 600; in_use = true }

abbrev volume : Fat32 ℕ
volume = record {
  fs_info = record {
    device_id = 0;
    bytes_per_sector = 512;
    sectors_per_cluster = 1;
    reserved_sectors = 1;
    num_fats = 1;
    fat_size = 1;
    root_cluster = 2;
    data_start_sector = 10;
    fat_start_sector = 1;
    total_clusters = 20;
    fat_table = some two_clusters;
  };
  open_files = file_600 ∷ [];
  mounted = true;
  disk = 0;
}

abbrev clusters : List ℕ
clusters = 2 ∷ 3 ∷ []

abbrev sectors : ℕ → ℕ → ℕ
sectors c i = 8 + c

volume-IsChain : IsChain volume clusters
unfolding fat32_get_next_cluster
volume-IsChain = record { inside = inside; next = next }
  where
    inside : (i : ℕ) → i < 2 → cluster_of clusters i < fat32_end_cluster
    inside zero h = omega arith
    inside (suc zero) h = omega arith
    inside (suc (suc i)) h = absurd (omega arith)

    next :
        (i : ℕ)
        → i < 2
        → fat32_get_next_cluster (cluster_of clusters i) volume ≡ cluster_of clusters (suc i)
    next zero h = refl
    next (suc zero) h = refl
    next (suc (suc i)) h = absurd (omega arith)

volume-IsReadable : IsReadable numbered one_disk sectors volume clusters
unfolding fat32_cluster_to_sector blockdev_read is_missing
volume-IsReadable = record { mounted = refl; sector = sector; reads = reads }
  where
    sector : (i : ℕ) → i < 2 → fat32_cluster_to_sector (cluster_of clusters i) volume ≢ 0
    sector zero h = λ e. absurd (omega arith)
    sector (suc zero) h = λ e. absurd (omega arith)
    sector (suc (suc i)) h = absurd (omega arith)

    reads :
        (i : ℕ) (buffer : ℕ → ℕ)
        → i < 2
        → blockdev_read numbered one_disk 0
            (fat32_cluster_to_sector (cluster_of clusters i) volume)
            1
            buffer
            0
          ≡ (pos 0, sectors (cluster_of clusters i), 0)
    reads zero buffer h = refl
    reads (suc zero) buffer h = refl
    reads (suc (suc i)) buffer h = absurd (omega arith)

fat32_read-fat32_seek_example :
    (fs' fs'' : Fat32 ℕ) × (fat32_seek 1 (pos 0) (0 * 512 + 511) volume ≡ some (pos 0, fs'))
    × (fat32_read numbered one_disk 3 true (pos 0) 2 fs'
        ≡ some (pos 2, bytes_from sectors clusters 512 0 511 2, fs''))
fat32_read-fat32_seek_example =
    fat32_read-fat32_seek numbered one_disk sectors clusters 0 0 511 2 volume (omega arith)
      (omega arith) refl volume-IsChain volume-IsReadable refl (omega arith) (omega arith)
      (omega arith) (omega arith) (omega arith)

-- The last byte of cluster 2 and the first of cluster 3.
crosses : bytes_from sectors clusters 512 0 511 2 ≡ 10 ∷ 11 ∷ []
unfolding bytes_from
crosses = refl

volume-Chain : Chain two_clusters (2 ∷ 3 ∷ [])
unfolding occurs
volume-Chain = then_on refl refl refl (last refl refl)

free_chain-Chain_example :
    (t' : ℕ → ℕ) × (free_chain 3 2 two_clusters ≡ some t')
    × ((i : ℕ)
        → t' i ≡ (if leb 1 (occurs i (2 ∷ 3 ∷ [])) then fat32_free_cluster else two_clusters i))
free_chain-Chain_example = free_chain-Chain 3 2 (3 ∷ []) two_clusters volume-Chain (omega arith)

fat32_allocate_cluster-Allocated_example :
    Allocated numbered one_disk 3 volume (fat32_allocate_cluster numbered one_disk true 3 volume)
fat32_allocate_cluster-Allocated_example =
    fat32_allocate_cluster-Allocated numbered one_disk 3 volume

allocates_4 : (fat32_allocate_cluster numbered one_disk true 3 volume).0 ≡ 4
unfolding fat32_allocate_cluster free_from take_cluster fat32_write_cluster fat32_cluster_to_sector
    blockdev_write is_missing is_out_of_range fat32_flush_fat flush_copies
allocates_4 = refl

ends_at_3 : low_28 (table volume (last_of 2 (3 ∷ []))) ≢ 0
unfolding last_of
ends_at_3 = λ e. absurd (omega arith)

fat32_allocate_cluster-Chain_example :
    Chain
      (table (fat32_allocate_cluster numbered one_disk true 3 volume).1)
      (2 ∷ 3 ∷ (fat32_allocate_cluster numbered one_disk true 3 volume).0 ∷ [])
unfolding last_of
fat32_allocate_cluster-Chain_example =
    fat32_allocate_cluster-Chain numbered one_disk 2 (3 ∷ []) volume (omega arith) volume-Chain
      ends_at_3 (λ e. absurd (omega (arith, allocates_4)))

-- `a.b`
fat32_short_name_to_string-fat32_build_short_name_example :
    (short_name : List ℕ) × (fat32_build_short_name (97 ∷ 46 ∷ 98 ∷ []) ≡ some short_name)
    × (fat32_short_name_to_string short_name 13 ≡ map fat32_to_upper (97 ∷ 46 ∷ 98 ∷ []))
unfolding is_short
fat32_short_name_to_string-fat32_build_short_name_example =
    fat32_short_name_to_string-fat32_build_short_name 97 [] (98 ∷ []) (λ e. absurd (omega arith))
      refl refl (omega arith) (omega arith) (omega arith)

fat32_utf16le_chunk_to_ascii-with_piece_example :
    fat32_utf16le_chunk_to_ascii (replicate 13 97) 256 0 (λ i. 98) 13
    ≡ with_piece (replicate 13 97) 0 (λ i. 98) 13
unfolding is_plain
fat32_utf16le_chunk_to_ascii-with_piece_example =
    fat32_utf16le_chunk_to_ascii-with_piece (replicate 13 97) 256 0 (λ i. 98) refl (omega arith) 13

fat32_write_ends_example :
    (answer : ℤ) × (fs' : Fat32 ℕ) × (fat32_write numbered one_disk
        (λ k. true)
        4
        (pos 0)
        (7 ∷ 8 ∷ 9 ∷ [])
        volume
      ≡ some (answer, fs'))
    × Counted 3 answer
fat32_write_ends_example =
    fat32_write_ends numbered one_disk (λ k. true) 4 (pos 0) (7 ∷ 8 ∷ 9 ∷ []) volume (omega arith)
      (omega arith)
