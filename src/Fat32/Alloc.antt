-- ===== src/Fat32/Alloc.antt =====
-- What `fat32_allocate_cluster` of src/kernel/fat32.cpp makes of the table.
use mathlib.Core.Path.{subst}
use continuum_os.Common.{
  ℕ, zero, suc, ◌+◌, ◌-◌, ◌≤◌, ◌<◌, ◌≡◌, ◌≢◌, refl, sym, ap, ◌∙◌, Bool, true, false, ◌||◌, not,
  Option, none, some, List, [], ◌∷◌, ◌++◌, arith, ◌==◌, if◌then◌else◌, Bool-cases, inl, inr,
}
use continuum_os.Common.Int.{ℤ, negsuc}
use continuum_os.Strings.{is_zero}
use continuum_os.Blockdev.{IdeDriver, BlockDevices}
use continuum_os.Fat32.{
  Fat32, fat32_end_cluster, fat32_free_cluster, table, with_table, set_entry, low_28, free_from,
  link, fat32_cluster_to_sector, fat32_write_cluster, flush_copies, fat32_flush_fat, take_cluster,
  fat32_allocate_cluster, table_bytes,
}
use continuum_os.Fat32.Chains.{Chain, last_of, link-Chain}

-- The lowest free cluster of a range, or none.
data Lowest (t : ℕ → ℕ) (c n : ℕ) : Option ℕ → Type 0 where
  nothing : ((j : ℕ) → c ≤ j → j < c + n → low_28 (t j) ≢ 0) → Lowest t c n none
  lowest :
      (k : ℕ)
      → c ≤ k
      → k < c + n
      → low_28 (t k) ≡ 0
      → ((j : ℕ) → c ≤ j → j < k → low_28 (t j) ≢ 0)
      → Lowest t c n (some k)

free_from-Lowest : (n c : ℕ) (t : ℕ → ℕ) → Lowest t c n (free_from n c t)
unfolding free_from
free_from-Lowest zero c t = nothing (λ j lo hi. absurd (omega arith))
free_from-Lowest (suc n) c t = elim (Bool-cases (low_28 (t c) == fat32_free_cluster)) [
  | inl f ↦
      rw f (lowest c (omega arith) (omega arith) (ground arith) (λ j lo hi. absurd (omega arith)))
  | inr u ↦ rw u (later u (free_from n (c + 1) t) (free_from-Lowest n (c + 1) t))
]
  where
    first :
        (low_28 (t c) == 0) ≡ false
        → (j : ℕ) → c ≤ j
        → (c + 1 ≤ j → low_28 (t j) ≢ 0)
        → low_28 (t j) ≢ 0
    first u j lo h = elim (Bool-cases (j == c)) [
      | inl e ↦
          let here : j ≡ c = ground arith in
          λ z. let z' = ap (λ x. low_28 (t x)) (sym here) ∙ z in ground arith
      | inr e ↦ h (ground arith)
    ]

    later :
        (low_28 (t c) == 0) ≡ false → (r : Option ℕ) → Lowest t (c + 1) n r → Lowest t c (suc n) r
    later u none (nothing h) = nothing (λ j lo hi. first u j lo (λ lo'. h j lo' (omega arith)))
    later u (some k) (lowest j lo hi z h) =
        lowest k (omega arith) (omega arith) z (λ i lo' hi'. first u i lo' (λ lo''. h i lo'' hi'))

-- Cluster `c` is free, and no lower one is.
pub record IsLowest {W : Type 0} (c : ℕ) (fs : Fat32 W) : Type 0 where
  pub at_least : 2 ≤ c
  pub inside : c < fs.fs_info.total_clusters
  pub free : low_28 (table fs c) ≡ 0
  pub below : (j : ℕ) → 2 ≤ j → j < c → low_28 (table fs j) ≢ 0

-- The volume whose table has cluster `c` as the end of a chain, behind `previous` if that is not 0.
abbrev pub linked : {W : Type 0} → ℕ → ℕ → Fat32 W → Fat32 W
linked previous c fs = with_table (link previous c (set_entry c fat32_end_cluster (table fs))) fs

-- The outcomes of an allocation: no cluster is free; or the lowest that is free becomes the end of a
-- chain, behind the previous cluster if there is one, and is the answer where the device takes the
-- zeros for the cluster and then the copies of the table. Where it refuses a copy the answer is 0,
-- though the table has the cluster; where it refuses the zeros the answer is 0 and the cluster's own
-- entry is free again, and the previous cluster's still leads to it.
pub data Allocated {W : Type 0} (ide : IdeDriver W) (b : BlockDevices) (previous : ℕ) (fs : Fat32 W)
    : ℕ × Fat32 W → Type 0 where
  full :
      ((c : ℕ) → 2 ≤ c → c < fs.fs_info.total_clusters → low_28 (table fs c) ≢ 0)
      → Allocated ide b previous fs (0, fs)
  granted :
      {fs' : Fat32 W} (c : ℕ)
      → IsLowest c fs
      → is_zero (fat32_write_cluster ide b c (λ i. 0) (linked previous c fs)).0 ≡ true
      → is_zero
          (fat32_flush_fat ide b (fat32_write_cluster ide b c (λ i. 0) (linked previous c fs)).1).0
        ≡ true
      → table fs' ≡ link previous c (set_entry c fat32_end_cluster (table fs))
      → Allocated ide b previous fs (c, fs')
  unflushed :
      {fs' : Fat32 W} (c : ℕ)
      → IsLowest c fs
      → is_zero (fat32_write_cluster ide b c (λ i. 0) (linked previous c fs)).0 ≡ true
      → is_zero
          (fat32_flush_fat ide b (fat32_write_cluster ide b c (λ i. 0) (linked previous c fs)).1).0
        ≡ false
      → table fs' ≡ link previous c (set_entry c fat32_end_cluster (table fs))
      → Allocated ide b previous fs (0, fs')
  uncleared :
      {fs' : Fat32 W} (c : ℕ)
      → IsLowest c fs
      → is_zero (fat32_write_cluster ide b c (λ i. 0) (linked previous c fs)).0 ≡ false
      → table fs'
        ≡ set_entry c fat32_free_cluster
            (link previous c (set_entry c fat32_end_cluster (table fs)))
      → Allocated ide b previous fs (0, fs')

module _ {W : Type 0} (ide : IdeDriver W) (b : BlockDevices) where
  table_written :
      (c : ℕ) (buffer : ℕ → ℕ) (fs : Fat32 W)
      → table (fat32_write_cluster ide b c buffer fs).1 ≡ table fs
  unfolding fat32_write_cluster
  table_written c buffer fs =
      elim (Bool-cases (not fs.mounted || fat32_cluster_to_sector c fs == 0)) [
        | inl e ↦ rw e refl
        | inr e ↦ rw e refl
      ]

  table_flushed : (fs : Fat32 W) → table (fat32_flush_fat ide b fs).1 ≡ table fs
  unfolding fat32_flush_fat
  table_flushed fs = on fs.fs_info.fat_table
    where
      flushed : (ℕ → ℕ) → Bool → ℤ × Fat32 W
      flushed t m =
          let (result, w) =
            flush_copies ide b 0 fs.fs_info.num_fats fs.fs_info (table_bytes t) fs.disk in
          if m then (result, record fs { disk = w }) else (negsuc 0, fs)

      either : (t : ℕ → ℕ) (m : Bool) → table (flushed t m).1 ≡ table fs
      either t true = refl
      either t false = refl

      on :
          (r : Option (ℕ → ℕ))
          → table
              (elim r as (λ x. ℤ × Fat32 W) [
                | none ↦ (negsuc 0, fs)
                | some t ↦ flushed t fs.mounted
              ]).1
            ≡ table fs
      on none = refl
      on (some t) = either t fs.mounted

  take_cluster-Allocated :
      (previous c : ℕ) (fs : Fat32 W)
      → IsLowest c fs
      → Allocated ide b previous fs (take_cluster ide b previous c fs)
  unfolding take_cluster
  take_cluster-Allocated previous c fs low = elim (Bool-cases (is_zero written.0)) [
    | inl e ↦ rw e (elim (Bool-cases (is_zero flushed.0)) [
      | inl f ↦ rw f (granted c low e f kept)
      | inr f ↦ rw f (unflushed c low e f kept)
    ])
    | inr e ↦
        rw e
          (uncleared c low e (ap (set_entry c 0) (table_written c (λ i. 0) (linked previous c fs))))
  ]
    where
      written : ℤ × Fat32 W
      written = fat32_write_cluster ide b c (λ i. 0) (linked previous c fs)

      flushed : ℤ × Fat32 W
      flushed = fat32_flush_fat ide b written.1

      kept : table flushed.1 ≡ table (linked previous c fs)
      kept = table_flushed written.1 ∙ table_written c (λ i. 0) (linked previous c fs)

  -- With memory for a cluster, `fat32_allocate_cluster` ends in one of these ways, whatever the device
  -- answers. No cluster from 2 on is free: it answers 0 and changes nothing. Otherwise the lowest free
  -- cluster becomes the end of a chain, behind the previous cluster if there is one; where the device
  -- takes the zeros for the cluster and then the copies of the table, the answer is the cluster; where
  -- it refuses a copy, the answer is 0 and the table keeps the cluster; where it refuses the zeros, the
  -- answer is 0 and the cluster's own entry is free again.
  pub fat32_allocate_cluster-Allocated :
      (previous : ℕ) (fs : Fat32 W)
      → Allocated ide b previous fs (fat32_allocate_cluster ide b true previous fs)
  unfolding fat32_allocate_cluster
  fat32_allocate_cluster-Allocated previous fs =
      on (free_from n 2 (table fs)) (free_from-Lowest n 2 (table fs))
    where
      n : ℕ
      n = fs.fs_info.total_clusters - 2

      on :
          (r : Option ℕ)
          → Lowest (table fs) 2 n r
          → Allocated ide b previous fs (elim r as (λ x. ℕ × Fat32 W) [
            | none ↦ (0, fs)
            | some c ↦ take_cluster ide b previous c fs
          ])
      on none (nothing h) = full (λ c lo hi. h c lo (omega arith))
      on (some k) (lowest j lo hi z h) =
          take_cluster-Allocated previous k fs
            (record { at_least = lo; inside = omega arith; free = z; below = h })

  -- A file that grows keeps its chain: where an allocation behind the last cluster of a chain, whose
  -- entry is not free, answers a cluster, the table chains the old clusters and then that one. The
  -- table has at most 2^28 - 1 clusters.
  pub fat32_allocate_cluster-Chain :
      (c : ℕ) (cs : List ℕ) (fs : Fat32 W)
      → fs.fs_info.total_clusters ≤ fat32_end_cluster
      → Chain (table fs) (c ∷ cs)
      → low_28 (table fs (last_of c cs)) ≢ 0
      → let r = fat32_allocate_cluster ide b true (last_of c cs) fs in
        r.0 ≢ 0 → Chain (table r.1) (c ∷ cs ++ r.0 ∷ [])
  fat32_allocate_cluster-Chain c cs fs small ch used some_ =
      on (fat32_allocate_cluster ide b true (last_of c cs) fs) some_
        (fat32_allocate_cluster-Allocated (last_of c cs) fs)
    where
      on :
          (r : ℕ × Fat32 W)
          → r.0 ≢ 0
          → Allocated ide b (last_of c cs) fs r
          → Chain (table r.1) (c ∷ cs ++ r.0 ∷ [])
      on r ne (full h) = absurd (ne refl)
      on r ne (unflushed x low w f e) = absurd (ne refl)
      on r ne (uncleared x low w e) = absurd (ne refl)
      on (a, fs') ne (granted x low w f e) =
          subst (λ t. Chain t (c ∷ cs ++ x ∷ [])) (sym e)
            (link-Chain c cs x (table fs) ch used (ground (arith, low.inside)) low.free)
