-- ===== src/Fat32/WriteEnds.antt =====
-- `fat32_write` of src/kernel/fat32.cpp ends, whatever the device answers.
use mathlib.Core.Path.{subst}
use continuum_os.Common.{
  ℕ, zero, suc, ◌+◌, ◌-◌, ◌%◌, ◌^◌, ◌≤◌, ◌<◌, ◌≡◌, refl, sym, ap, ◌∙◌, Bool, true, false, ◌||◌,
  ◌&&◌, not, Option, none, some, List, [], ◌∷◌, arith, ltb, leb, ◌==◌, if◌then◌else◌, length, drop,
  Bool-cases, inl, inr,
}
use continuum_os.Common.Int.{ℤ, pos, negsuc}
use continuum_os.Strings.{is_zero}
use continuum_os.Blockdev.{IdeDriver, BlockDevices}
use continuum_os.Fat32.{
  Fat32, FatFile, is_link, table, low_28, fat32_read_cluster, fat32_write_cluster,
  fat32_allocate_cluster,
}
use continuum_os.Fat32.Files.{cluster_size, smaller, file_at, put_file}
use continuum_os.Fat32.Sizes.{read_size_kept, write_size_kept, allocate_size_kept}
use continuum_os.Fat32.Writing.{
  Step, Kmalloc, for_call, for_zeros, first_cluster, further_cluster, next_cluster, and_then,
  find_cluster, write_piece, write_loop, patched_with, write_end, fat32_write,
  fat32_update_file_entry,
}

-- An answer of the call: an error, or a number of bytes up to the size.
pub data Counted (size : ℕ) : ℤ → Type 0 where
  failed : Counted size (negsuc 0)
  counted : (n : ℕ) → n ≤ size → Counted size (pos n)

module _ {W : Type 0} (ide : IdeDriver W) (b : BlockDevices) (memory : Kmalloc → Bool) where
  first_size_kept :
      (done : ℕ) (file : FatFile) (fs : Fat32 W)
      → cluster_size (first_cluster ide b memory done file fs).2 ≡ cluster_size fs
  unfolding first_cluster
  first_size_kept done file fs = elim (Bool-cases (ltb file.start_cluster 2)) [
    | inl e ↦ rw e (allocate_size_kept ide b (memory (for_zeros done 0)) file.start_cluster fs)
    | inr e ↦ rw e refl
  ]

  further_size_kept :
      (done : ℕ) (file : FatFile) (fs : Fat32 W)
      → cluster_size (further_cluster ide b memory done file fs).2 ≡ cluster_size fs
  unfolding further_cluster
  further_size_kept done file fs = elim (Bool-cases (is_link file.current_cluster)) [
    | inl e ↦ rw e refl
    | inr e ↦ rw e (
        allocate_size_kept ide b (memory (for_zeros done 1))
          (if leb 2 file.last_cluster then file.last_cluster else file.start_cluster) fs)
  ]

  -- A step that went on leaves the file inside of its cluster.
  abbrev Inside : ℕ → Step W → Type 0
  Inside size s = (cluster_size s.2 ≡ size) × (s.0 ≡ true → s.1.cluster_position < size)

  next_cluster-Inside :
      (done : ℕ) (file : FatFile) (fs : Fat32 W)
      → 0 < cluster_size fs
      → Inside (cluster_size fs) (next_cluster ide b memory done file fs)
  unfolding next_cluster
  next_cluster-Inside done file fs some_ =
      elim (Bool-cases (ltb file.cluster_position (cluster_size fs))) [
        | inl e ↦ rw e (refl, λ t. ground arith)
        | inr e ↦ elim (Bool-cases (is_link (low_28 (table fs file.current_cluster)))) [
          | inl l ↦ rw (e, l) (refl, λ t. some_)
          | inr l ↦
              rw (e, l)
                (
                  allocate_size_kept ide b (memory (for_zeros done 2)) file.current_cluster fs,
                  fresh (
                      (fat32_allocate_cluster ide b (memory (for_zeros done 2)) file.current_cluster
                        fs).0
                      == 0),
                )
        ]
      ]
    where
      fresh :
          (t : Bool)
          → not t ≡ true
          → (if t then file else record file {
            current_cluster =
                (fat32_allocate_cluster ide b
                  (memory (for_zeros done 2))
                  file.current_cluster
                  fs).0;
            last_cluster =
                (fat32_allocate_cluster ide b
                  (memory (for_zeros done 2))
                  file.current_cluster
                  fs).0;
            cluster_position = 0;
          }).cluster_position
            < cluster_size fs
      fresh true h = absurd (ground arith)
      fresh false h = some_

  then_size_kept :
      (size : ℕ) (g : Bool) (file : FatFile) (fs : Fat32 W) (step : FatFile → Fat32 W → Step W)
      → cluster_size fs ≡ size
      → cluster_size (step file fs).2 ≡ size
      → cluster_size (and_then ide b memory (g, file, fs) step).2 ≡ size
  then_size_kept size true file fs step k h = h
  then_size_kept size false file fs step k h = k

  then-Inside :
      (size : ℕ) (g : Bool) (file : FatFile) (fs : Fat32 W) (step : FatFile → Fat32 W → Step W)
      → cluster_size fs ≡ size
      → Inside size (step file fs)
      → Inside size (and_then ide b memory (g, file, fs) step)
  then-Inside size true file fs step k h = h
  then-Inside size false file fs step k h = (k, λ t. absurd (ground arith))

  find_cluster-Inside :
      (done : ℕ) (file : FatFile) (fs : Fat32 W)
      → 0 < cluster_size fs
      → Inside (cluster_size fs) (find_cluster ide b memory done file fs)
  unfolding find_cluster
  find_cluster-Inside done file fs some_ =
      let first = first_cluster ide b memory done file fs in
      let second = and_then ide b memory first (further_cluster ide b memory done) in
      let kept = first_size_kept done file fs in
      let kept' =
        then_size_kept (cluster_size fs) first.0 first.1 first.2 (further_cluster ide b memory done)
          kept (further_size_kept done first.1 first.2 ∙ kept) in
      then-Inside (cluster_size fs) second.0 second.1 second.2 (next_cluster ide b memory done)
        kept'
        (subst (λ n. Inside n (next_cluster ide b memory done second.1 second.2)) kept'
          (next_cluster-Inside done second.1 second.2 (subst (λ n. 0 < n) (sym kept') some_)))

  piece_size_kept :
      (n : ℕ) (src : List ℕ) (file : FatFile) (fs : Fat32 W)
      → cluster_size (write_piece ide b memory n src file fs).2 ≡ cluster_size fs
  unfolding write_piece
  piece_size_kept n src file fs =
      cases (not (file.cluster_position == 0) || ltb n (cluster_size fs))
    where
      read : ℤ × (ℕ → ℕ) × Fat32 W
      read = fat32_read_cluster ide b file.current_cluster (λ i. 0) fs

      kept : cluster_size read.2 ≡ cluster_size fs
      kept = read_size_kept ide b true file.current_cluster (λ i. 0) fs

      write_from : Bool → ℤ × Fat32 W
      write_from r =
          fat32_write_cluster ide b file.current_cluster
            (patched_with file.cluster_position n src (if r then read.1 else λ i. 0))
            (if r then read.2 else fs)

      moved : Bool → FatFile
      moved r = record file {
        cluster_position = file.cluster_position + n;
        position = (file.position + n) % 2 ^ 32;
        file_size =
            if ltb file.file_size ((file.position + n) % 2 ^ 32)
            then (file.position + n) % 2 ^ 32
            else file.file_size;
      }

      answer : Bool → Bool → Step W
      answer r z = if z then (true, moved r, (write_from r).1) else (false, file, (write_from r).1)

      behind :
          (r z : Bool)
          → cluster_size (if r then read.2 else fs) ≡ cluster_size fs
          → cluster_size (answer r z).2 ≡ cluster_size fs
      behind r z k = either z
        where
          wrote : cluster_size (write_from r).1 ≡ cluster_size fs
          wrote =
              write_size_kept ide b true file.current_cluster
                (patched_with file.cluster_position n src (if r then read.1 else λ i. 0))
                (if r then read.2 else fs)
              ∙ k

          either : (z : Bool) → cluster_size (answer r z).2 ≡ cluster_size fs
          either true = wrote
          either false = wrote

      result : Bool → Step W
      result r =
          if r && not (is_zero read.0)
          then (false, file, read.2)
          else answer r (is_zero (write_from r).0)

      cases : (r : Bool) → cluster_size (result r).2 ≡ cluster_size fs
      cases false = behind false (is_zero (write_from false).0) refl
      cases true = elim (Bool-cases (is_zero read.0)) [
        | inl z ↦ rw z (behind true (is_zero (write_from true).0) kept)
        | inr z ↦ rw z kept
      ]

  -- The loop of `fat32_write` ends on more fuel than there are bytes, with at most those bytes more
  -- written, whatever the device and each `kmalloc` answer, where a cluster has any bytes.
  pub write_loop_ends :
      (fuel written : ℕ) (src : List ℕ) (file : FatFile) (fs : Fat32 W)
      → 0 < cluster_size fs
      → length src < fuel
      → (r : ℕ × FatFile × Fat32 W) × (write_loop ide b memory fuel written src file fs ≡ some r)
        × (written ≤ r.0)
        × (r.0 ≤ written + length src)
  unfolding write_loop
  write_loop_ends zero written src file fs some_ h = absurd (omega arith)
  write_loop_ends (suc fuel) written src file fs some_ h = elim (Bool-cases (length src == 0)) [
    | inl done ↦ ((written, file, fs), rw done refl, omega arith, omega arith)
    | inr more ↦ elim (Bool-cases found.0) [
      | inr stop ↦ ((written, found.1, found.2), rw (more, stop) refl, omega arith, omega arith)
      | inl on ↦ elim (Bool-cases piece.0) [
        | inr stop ↦
            ((written, piece.1, piece.2), rw (more, on, stop) refl, omega arith, omega arith)
        | inl put_down ↦
            let bounds = count on (ground arith) in
            let left = length-drop n src in
            let (r, e, lo, hi) =
              write_loop_ends fuel (written + n) (drop n src) piece.1 piece.2
                (subst (λ k. 0 < k) (sym kept) some_) (omega (arith, left, bounds.0, bounds.1)) in
            (r, rw (more, on, put_down) e, omega arith, omega (arith, left, bounds.0, bounds.1))
      ]
    ]
  ]
    where
      found : Step W
      found = find_cluster ide b memory written file fs

      n : ℕ
      n = smaller (length src) (cluster_size found.2 - found.1.cluster_position)

      piece : Step W
      piece = write_piece ide b memory n src found.1 found.2

      kept : cluster_size piece.2 ≡ cluster_size fs
      kept = piece_size_kept n src found.1 found.2 ∙ (find_cluster-Inside written file fs some_).0

      count : found.0 ≡ true → 0 < length src → (0 < n) × (n ≤ length src)
      count on more =
          let inside = (find_cluster-Inside written file fs some_).1 on in
          let same = (find_cluster-Inside written file fs some_).0 in
          (ground (arith, inside, same), ground arith)

      length-drop : (k : ℕ) (xs : List ℕ) → length (drop k xs) ≡ length xs - k
      length-drop zero [] = refl
      length-drop zero (x ∷ xs) = omega arith
      length-drop (suc k) [] = omega arith
      length-drop (suc k) (x ∷ xs) = length-drop k xs ∙ omega arith

  -- `fat32_write` ends where clusters have any bytes, on more fuel than there are bytes to write and
  -- whatever the device and each `kmalloc` answer, with -1 or with a number of bytes up to those.
  pub fat32_write_ends :
      (fuel : ℕ) (fd : ℤ) (buffer : List ℕ) (fs : Fat32 W)
      → 0 < cluster_size fs
      → length buffer < fuel
      → (answer : ℤ) × (fs' : Fat32 W) × (fat32_write ide b memory fuel fd buffer fs
          ≡ some (answer, fs'))
        × Counted (length buffer) answer
  unfolding fat32_write write_end
  fat32_write_ends fuel fd buffer fs some_ h = on (file_at fd fs)
    where
      ends :
          (n : ℕ)
          → n ≤ length buffer
          → (u : Bool) (z : Bool)
          → Counted
              (length buffer)
              (if u then (if z then pos n else negsuc 0) else (if ltb 0 n then pos n else negsuc 0))
      ends n l true true = counted n l
      ends n l true false = failed
      ends n l false z = elim (Bool-cases (ltb 0 n)) [
        | inl e ↦ rw e (counted n l)
        | inr e ↦ rw e failed
      ]

      Result : Option (ℤ × Fat32 W) → Type 0
      Result r =
          (answer : ℤ) × (fs' : Fat32 W) × (r ≡ some (answer, fs')) × Counted (length buffer) answer

      closed :
          (x : ℕ × FatFile × Fat32 W)
          → x.0 ≤ length buffer
          → Counted (length buffer) (write_end ide b memory fd (length buffer) x).0
      closed x l = elim (Bool-cases (x.0 == length buffer)) [
        | inl e ↦ rw e (
            ends x.0 l true
              (is_zero (fat32_update_file_entry ide b memory x.1 (put_file fd x.1 x.2)).0))
        | inr e ↦ rw e (ends x.0 l false true)
      ]

      on :
          (r : Option FatFile)
          → Result (elim r as (λ x. Option (ℤ × Fat32 W)) [
            | none ↦ some (negsuc 0, fs)
            | some file ↦
                if length buffer == 0
                then some (pos 0, fs)
                else (if memory for_call
                    then elim (write_loop ide b memory fuel 0 buffer file fs) [
                      | none ↦ none
                      | some r ↦ some (write_end ide b memory fd (length buffer) r)
                    ]
                    else some (negsuc 0, fs))
          ])
      on none = (negsuc 0, fs, refl, failed)
      on (some file) = elim (Bool-cases (length buffer == 0)) [
        | inl e ↦
            (pos 0, fs, ap (λ t. if t then some (pos 0, fs) else rest) e, counted 0 (omega arith))
        | inr e ↦
            let skip = ap (λ t. if t then some (pos 0, fs) else rest) e in
            elim (Bool-cases (memory for_call)) [
              | inr m ↦ (
                negsuc 0,
                fs,
                skip ∙ ap (λ t. if t then finish loop else some (negsuc 0, fs)) m,
                failed,
              )
              | inl m ↦
                  let (r, e', lo, hi) = write_loop_ends fuel 0 buffer file fs some_ h in
                  (
                    (write_end ide b memory fd (length buffer) r).0,
                    (write_end ide b memory fd (length buffer) r).1,
                    skip
                        ∙ ap (λ t. if t then finish loop else some (negsuc 0, fs)) m
                        ∙ ap finish e',
                    closed r (omega arith),
                  )
            ]
      ]
        where
          loop : Option (ℕ × FatFile × Fat32 W)
          loop = write_loop ide b memory fuel 0 buffer file fs

          finish : Option (ℕ × FatFile × Fat32 W) → Option (ℤ × Fat32 W)
          finish o = elim o [
            | none ↦ none
            | some r ↦ some (write_end ide b memory fd (length buffer) r)
          ]

          rest : Option (ℤ × Fat32 W)
          rest = if memory for_call then finish loop else some (negsuc 0, fs)
