-- ===== src/Fat32/Seeking.antt =====
-- A seek of src/kernel/fat32.cpp and the read behind it.
use Prim.Native.Nat.{◌*◌}
use native.Mathlib.Nat.{mul-le-mul_right}
use continuum_os.Common.{
  ℕ, zero, suc, ◌+◌, ◌-◌, ◌%◌, ◌^◌, ◌≤◌, ◌<◌, ◌≡◌, refl, ap, ◌∙◌, true, false, ◌&&◌, ◌||◌, not,
  Option, none, some, List, [], arith, ltb, leb, ◌==◌, if◌then◌else◌, length, get_or, set,
  get_or-set_self, Bool-cases, inl, inr,
}
use continuum_os.Common.Int.{ℤ, pos, negsuc}
use continuum_os.Blockdev.{IdeDriver, BlockDevices}
use continuum_os.Fat32.{
  Fat32, FatFile, fat32_end_cluster, fat32_get_next_cluster, fat32_cluster_to_sector,
}
use continuum_os.Fat32.Files.{
  no_file, file_at, put_file, cluster_size, seek_loop, at_start, seek_end, seek_file, fat32_seek,
  read_loop, bytes_to_read, read_answer, fat32_read,
}
use continuum_os.Fat32.Reading.{
  cluster_of, bytes_from, IsChain, IsReadable, Reads, read_loop-bytes_from,
}

-- A file that has moved, from where it has moved to.
abbrev moved_to : ℕ → FatFile → ℕ → ℕ → Option (ℕ × FatFile)
moved_to r file c p = some (r, record file { current_cluster = c; position = p })

moved :
    (r : ℕ) (file : FatFile) {c c' p p' : ℕ}
    → c ≡ c'
    → p ≡ p'
    → moved_to r file c p ≡ moved_to r file c' p'
moved r file e f = λ i. moved_to r file (e i) (f i)

length-bytes_from :
    (data_ : ℕ → ℕ → ℕ) (cs : List ℕ) (size q r n : ℕ) → length (bytes_from data_ cs size q r n) ≡ n
unfolding bytes_from
length-bytes_from data_ cs size q r zero = refl
length-bytes_from data_ cs size q r (suc n) =
    let last = suc r == size in
    omega (
      arith,
      length-bytes_from data_ cs size (if last then suc q else q) (if last then 0 else suc r) n,
    )

module _ {W : Type 0} (ide : IdeDriver W) (b : BlockDevices) (data_ : ℕ → ℕ → ℕ) (cs : List ℕ) where
  -- The loop of a seek goes `q` clusters on.
  seek_loop-cluster_of :
      (fuel q r i : ℕ) (file : FatFile) (fs : Fat32 W)
      → IsChain fs cs
      → file.current_cluster ≡ cluster_of cs i
      → r < cluster_size fs
      → i + q ≤ length cs
      → q < fuel
      → seek_loop fuel (q * cluster_size fs + r) file fs
        ≡ some (
          r,
          record file {
            current_cluster = cluster_of cs (i + q);
            position = file.position + q * cluster_size fs;
          },
        )
  unfolding seek_loop
  seek_loop-cluster_of zero q r i file fs ch at w room enough = absurd (omega arith)
  seek_loop-cluster_of (suc fuel) zero r i file fs ch at w room enough =
      let stop : (leb (cluster_size fs) (0 * cluster_size fs + r)
            && ltb file.current_cluster fat32_end_cluster)
          ≡ false =
        ground arith in
      let left : 0 * cluster_size fs + r ≡ r = omega arith in
      rw stop refl
      ∙ ap (λ p. some (p, file)) left
      ∙ moved r file (at ∙ ap (cluster_of cs) (omega arith)) (omega arith)
  seek_loop-cluster_of (suc fuel) (suc q) r i file fs ch at w room enough =
      let on : (leb (cluster_size fs) (suc q * cluster_size fs + r)
            && ltb file.current_cluster fat32_end_cluster)
          ≡ true =
        ground (arith, at, ch.inside i (omega arith)) in
      let left : suc q * cluster_size fs + r - cluster_size fs ≡ q * cluster_size fs + r =
        omega arith in
      rw on refl
      ∙ ap (λ p. seek_loop fuel p next fs) left
      ∙ seek_loop-cluster_of fuel q r (suc i) next fs ch
          (ap (λ c. fat32_get_next_cluster c fs) at ∙ ch.next i (omega arith)) w (omega arith)
          (omega arith)
      ∙ moved r file (ap (cluster_of cs) (omega arith)) (omega arith)
    where
      next : FatFile
      next = record file {
        current_cluster = fat32_get_next_cluster file.current_cluster fs;
        position = file.position + cluster_size fs;
      }

  -- A change of the open files alone.
  abbrev with_files : List FatFile → Fat32 W → Fat32 W
  with_files files fs = record fs { open_files = files }

  with_files-IsChain :
      (files : List FatFile) (fs : Fat32 W) → IsChain fs cs → IsChain (with_files files fs) cs
  unfolding fat32_get_next_cluster
  with_files-IsChain files fs ch = record { inside = ch.inside; next = ch.next }

  with_files-IsReadable :
      (files : List FatFile) (fs : Fat32 W)
      → IsReadable ide b data_ fs cs
      → IsReadable ide b data_ (with_files files fs) cs
  unfolding fat32_cluster_to_sector
  with_files-IsReadable files fs r = record {
    mounted = r.mounted;
    sector = r.sector;
    reads = r.reads;
  }

  -- The file behind a seek to byte `r` of its cluster `q`.
  abbrev sought : ℕ → ℕ → FatFile → Fat32 W → FatFile
  sought q r file fs = record file {
    current_cluster = cluster_of cs q;
    position = q * cluster_size fs + r;
    cluster_position = r;
  }

  seek_file-sought :
      (q r : ℕ) (file : FatFile) (fs : Fat32 W)
      → IsChain fs cs
      → file.start_cluster ≡ cluster_of cs 0
      → r < cluster_size fs
      → q ≤ length cs
      → q * cluster_size fs + r ≤ file.file_size
      → seek_file (suc q) (q * cluster_size fs + r) file fs ≡ some (sought q r file fs)
  unfolding seek_file
  seek_file-sought q r file fs ch start w room small =
      let uncut : ltb file.file_size (q * cluster_size fs + r) ≡ false = ground arith in
      ap
        (λ t. ends (
          seek_loop (suc q) (if t then file.file_size else q * cluster_size fs + r) (at_start file)
            fs))
        uncut
      ∙ ap ends (
          seek_loop-cluster_of (suc q) q r 0 (at_start file) fs ch start w (omega arith)
            (omega arith))
      ∙ (λ i. some (record file {
        current_cluster = cluster_of cs (first i);
        position = total i;
        cluster_position = r;
      }))
    where
      ends : Option (ℕ × FatFile) → Option FatFile
      ends o = elim o [ none ↦ none | some x ↦ some (seek_end x) ]

      first : 0 + q ≡ q
      first = omega arith

      total : 0 + q * cluster_size fs + r ≡ q * cluster_size fs + r
      total = omega arith

  file_at_open :
      (fd : ℕ) (file : FatFile) (files : List FatFile) (fs : Fat32 W)
      → fd < 16
      → file.in_use ≡ true
      → get_or files fd no_file ≡ file
      → file_at (pos fd) (with_files files fs) ≡ some file
  unfolding file_at
  file_at_open fd file files fs low used e =
      let open_ : (leb 16 fd || not (get_or files fd no_file).in_use) ≡ false =
        ground (arith, ap FatFile.in_use e ∙ used) in
      rw open_ (ap some e)

  read_from :
      (fd n : ℕ) (file : FatFile) (fs : Fat32 W)
      → file_at (pos fd) fs ≡ some file
      → file.position + n ≤ file.file_size
      → 0 < n
      → file.file_size < 2 ^ 32
      → fat32_read ide b (suc n) true (pos fd) n fs
        ≡ elim (read_loop ide b (suc n) n (λ i. 0) file fs)
            as (λ x. Option (ℤ × List ℕ × Fat32 W)) [
              | none ↦ none
              | some x ↦ some (read_answer ide b (pos fd) x)
            ]
  unfolding fat32_read bytes_to_read
  read_from fd n file fs e inside more small =
      let before : leb file.file_size file.position ≡ false = ground arith in
      let uncut : ltb file.file_size ((file.position + n) % 2 ^ 32) ≡ false = ground arith in
      ap
        (λ o. elim o as (λ x. Option (ℤ × List ℕ × Fat32 W)) [
          | none ↦ some (negsuc 0, [], fs)
          | some f ↦
              if leb f.file_size f.position
              then some (pos 0, [], fs)
              else elim (read_loop ide b (suc n) (bytes_to_read n f) (λ i. 0) f fs)
                  as (λ x. Option (ℤ × List ℕ × Fat32 W)) [
                    | none ↦ none
                    | some x ↦ some (read_answer ide b (pos fd) x)
                  ]
        ])
        e
      ∙ rw (before, uncut) refl

  -- On a file whose clusters the table chains and the device reads, a seek to byte `r` of its cluster
  -- `q` and a read of `n` bytes inside of the file give exactly the bytes of the chain from there on,
  -- on fuel of one more than the clusters passed and the bytes read.
  pub fat32_read-fat32_seek :
      (fd q r n : ℕ) (fs : Fat32 W)
      → let file = get_or fs.open_files fd no_file in
        fd < 16
        → fd < length fs.open_files
        → file.in_use ≡ true
        → IsChain fs cs
        → IsReadable ide b data_ fs cs
        → file.start_cluster ≡ cluster_of cs 0
        → r < cluster_size fs
        → 0 < n
        → q * cluster_size fs + r + n ≤ file.file_size
        → file.file_size ≤ length cs * cluster_size fs
        → file.file_size < 2 ^ 32
        → (fs' fs'' : Fat32 W) × (fat32_seek (suc q) (pos fd) (q * cluster_size fs + r) fs
            ≡ some (pos 0, fs'))
          × (fat32_read ide b (suc n) true (pos fd) n fs'
              ≡ some (pos n, bytes_from data_ cs (cluster_size fs) q r n, fs''))
  unfolding fat32_seek put_file
  fat32_read-fat32_seek fd q r n fs low here used ch rd start w more inside big small = (
    fs',
    put_file (pos fd) (loop.0) fs',
    ap
          (λ o. elim o as (λ x. Option (ℤ × Fat32 W)) [
            | none ↦ some (negsuc 0, fs)
            | some f ↦
                elim (seek_file (suc q) (q * cluster_size fs + r) f fs)
                  as (λ x. Option (ℤ × Fat32 W)) [
                    | none ↦ none
                    | some f' ↦ some (pos 0, put_file (pos fd) f' fs)
                  ]
          ])
          (file_at_open fd file fs.open_files fs low used refl)
        ∙ ap
            (λ o. elim o as (λ x. Option (ℤ × Fat32 W)) [
              | none ↦ none
              | some f' ↦ some (pos 0, put_file (pos fd) f' fs)
            ])
            (seek_file-sought q r file fs ch start w clusters (omega arith)),
    read_from fd n file' fs'
          (file_at_open fd file' files fs low used
            (get_or-set_self fs.open_files fd file' no_file here))
          inside more small
        ∙ ap
            (λ o. elim o as (λ x. Option (ℤ × List ℕ × Fat32 W)) [
              | none ↦ none
              | some x ↦ some (read_answer ide b (pos fd) x)
            ])
            loop.1
        ∙ ap
            (λ k.
              some
                (pos k, bytes_from data_ cs (cluster_size fs) q r n, put_file (pos fd) loop.0 fs'))
            (length-bytes_from data_ cs (cluster_size fs) q r n),
  )
    where
      file : FatFile
      file = get_or fs.open_files fd no_file

      file' : FatFile
      file' = sought q r file fs

      files : List FatFile
      files = set fs.open_files fd file'

      fs' : Fat32 W
      fs' = with_files files fs

      clusters : q ≤ length cs
      clusters = elim (Bool-cases (leb q (length cs))) [
        | inl l ↦ ground arith
        | inr g ↦
            let beyond : length cs ≤ q = ground arith in
            absurd (omega (arith, mul-le-mul_right (cluster_size fs) beyond))
      ]

      loop : Reads ide b data_ cs (suc n) n q r (λ i. 0) file' fs'
      loop =
          read_loop-bytes_from ide b data_ cs (suc n) n q r (λ i. 0) file' fs'
            (with_files-IsChain files fs ch) (with_files-IsReadable files fs rd)
            (record { current = refl; offset = refl; within = w }) (omega arith) (omega arith)
