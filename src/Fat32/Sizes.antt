-- ===== src/Fat32/Sizes.antt =====
-- No operation on clusters of src/kernel/fat32.cpp changes their size.
use continuum_os.Common.{
  ℕ, ◌-◌, ◌≡◌, refl, ◌∙◌, Bool, true, false, ◌||◌, not, Option, none, some, ◌==◌, if◌then◌else◌,
  Bool-cases, inl, inr,
}
use continuum_os.Common.Int.{ℤ, negsuc}
use continuum_os.Strings.{is_zero}
use continuum_os.Blockdev.{IdeDriver, BlockDevices}
use continuum_os.Fat32.{
  Fat32, table, with_table, link, set_entry, fat32_end_cluster, table_bytes, free_from,
  fat32_cluster_to_sector, fat32_read_cluster, fat32_write_cluster, flush_copies, fat32_flush_fat,
  take_cluster, fat32_allocate_cluster,
}
use continuum_os.Fat32.Files.{cluster_size}

module _ {W : Type 0} (ide : IdeDriver W) (b : BlockDevices) (memory : Bool) where
  pub read_size_kept :
      (c : ℕ) (buffer : ℕ → ℕ) (fs : Fat32 W)
      → cluster_size (fat32_read_cluster ide b c buffer fs).2 ≡ cluster_size fs
  unfolding fat32_read_cluster
  read_size_kept c buffer fs =
      elim (Bool-cases (not fs.mounted || fat32_cluster_to_sector c fs == 0)) [
        | inl e ↦ rw e refl
        | inr e ↦ rw e refl
      ]

  pub write_size_kept :
      (c : ℕ) (buffer : ℕ → ℕ) (fs : Fat32 W)
      → cluster_size (fat32_write_cluster ide b c buffer fs).1 ≡ cluster_size fs
  unfolding fat32_write_cluster
  write_size_kept c buffer fs =
      elim (Bool-cases (not fs.mounted || fat32_cluster_to_sector c fs == 0)) [
        | inl e ↦ rw e refl
        | inr e ↦ rw e refl
      ]

  flush_size_kept : (fs : Fat32 W) → cluster_size (fat32_flush_fat ide b fs).1 ≡ cluster_size fs
  unfolding fat32_flush_fat
  flush_size_kept fs = on fs.fs_info.fat_table
    where
      flushed : (ℕ → ℕ) → Bool → ℤ × Fat32 W
      flushed t m =
          let (result, w) =
            flush_copies ide b 0 fs.fs_info.num_fats fs.fs_info (table_bytes t) fs.disk in
          if m then (result, record fs { disk = w }) else (negsuc 0, fs)

      either : (t : ℕ → ℕ) (m : Bool) → cluster_size (flushed t m).1 ≡ cluster_size fs
      either t true = refl
      either t false = refl

      on :
          (r : Option (ℕ → ℕ))
          → cluster_size
              (elim r as (λ x. ℤ × Fat32 W) [
                | none ↦ (negsuc 0, fs)
                | some t ↦ flushed t fs.mounted
              ]).1
            ≡ cluster_size fs
      on none = refl
      on (some t) = either t fs.mounted

  take_size_kept :
      (previous c : ℕ) (fs : Fat32 W)
      → cluster_size (take_cluster ide b previous c fs).1 ≡ cluster_size fs
  unfolding take_cluster
  take_size_kept previous c fs =
      let linked = with_table (link previous c (set_entry c fat32_end_cluster (table fs))) fs in
      let kept = write_size_kept c (λ i. 0) linked in
      elim (Bool-cases (is_zero (fat32_write_cluster ide b c (λ i. 0) linked).0)) [
        | inl e ↦ rw e (flush_size_kept (fat32_write_cluster ide b c (λ i. 0) linked).1 ∙ kept)
        | inr e ↦ rw e kept
      ]

  pub allocate_size_kept :
      (previous : ℕ) (fs : Fat32 W)
      → cluster_size (fat32_allocate_cluster ide b memory previous fs).1 ≡ cluster_size fs
  unfolding fat32_allocate_cluster
  allocate_size_kept previous fs =
      on memory (free_from (fs.fs_info.total_clusters - 2) 2 (table fs))
    where
      on :
          (m : Bool) (r : Option ℕ)
          → cluster_size
              (if m
                then elim r as (λ x. ℕ × Fat32 W) [
                  | none ↦ (0, fs)
                  | some c ↦ take_cluster ide b previous c fs
                ]
                else (0, fs)).1
            ≡ cluster_size fs
      on true none = refl
      on true (some c) = take_size_kept previous c fs
      on false r = refl
