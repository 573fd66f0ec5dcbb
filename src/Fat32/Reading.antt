-- ===== src/Fat32/Reading.antt =====
-- What `fat32_seek` and `fat32_read` of src/kernel/fat32.cpp read of a chain of clusters.
use Prim.Native.Nat.{◌*◌}
use native.Mathlib.Nat.{mul-le-mul_right}
use continuum_os.Common.{
  ℕ, zero, suc, ◌+◌, ◌-◌, ◌%◌, ◌≤◌, ◌<◌, ◌≡◌, ◌≢◌, refl, sym, ap, ◌∙◌, true, false, ◌&&◌, ◌||◌, not,
  Option, none, some, List, [], ◌∷◌, ◌++◌, arith, ltb, leb, ◌==◌, if◌then◌else◌, length, get_or,
  Bool-cases, inl, inr,
}
use continuum_os.Common.Int.{ℤ, pos}
use continuum_os.Strings.{is_zero}
use continuum_os.Blockdev.{IdeDriver, BlockDevices, blockdev_read}
use continuum_os.Ramfs.{slice}
use continuum_os.Fat32.{
  Fat32, FatFile, fat32_end_cluster, fat32_get_next_cluster, fat32_cluster_to_sector,
  fat32_read_cluster,
}
use continuum_os.Fat32.Files.{cluster_size, smaller, advanced, read_loop}

-- The cluster of a chain at a place; the end mark stands behind the last.
abbrev pub cluster_of : List ℕ → ℕ → ℕ
cluster_of cs i = get_or cs i fat32_end_cluster

-- The bytes of a chain one by one: from byte `r` of its cluster `q` on, `n` of them.
unfoldable pub bytes_from : (ℕ → ℕ → ℕ) → List ℕ → ℕ → ℕ → ℕ → ℕ → List ℕ
bytes_from data_ cs size q r zero = []
bytes_from data_ cs size q r (suc n) =
    let last = suc r == size in
    data_ (cluster_of cs q) r
    ∷ bytes_from data_ cs size (if last then suc q else q) (if last then 0 else suc r) n

-- `cs` is a chain of clusters in the table.
pub record IsChain {W : Type 0} (fs : Fat32 W) (cs : List ℕ) : Type 0 where
  pub inside : (i : ℕ) → i < length cs → cluster_of cs i < fat32_end_cluster
  pub next :
      (i : ℕ) → i < length cs → fat32_get_next_cluster (cluster_of cs i) fs ≡ cluster_of cs (suc i)

-- The device answers a read of each cluster of the chain with its data, and stays as it is.
pub record IsReadable {W : Type 0} (ide : IdeDriver W) (b : BlockDevices) (data_ : ℕ → ℕ → ℕ)
    (fs : Fat32 W) (cs : List ℕ) : Type 0 where
  pub mounted : fs.mounted ≡ true
  pub sector : (i : ℕ) → i < length cs → fat32_cluster_to_sector (cluster_of cs i) fs ≢ 0
  pub reads :
      (i : ℕ) (buffer : ℕ → ℕ)
      → i < length cs
      → blockdev_read ide b fs.fs_info.device_id
          (fat32_cluster_to_sector (cluster_of cs i) fs)
          (fs.fs_info.sectors_per_cluster % 256)
          buffer
          fs.disk
        ≡ (pos 0, data_ (cluster_of cs i), fs.disk)

module _ (data_ : ℕ → ℕ → ℕ) (cs : List ℕ) (size : ℕ) where
  -- Bytes inside of a cluster.
  bytes_from_within :
      (k q r : ℕ)
      → r + k < size
      → bytes_from data_ cs size q r k ≡ slice (data_ (cluster_of cs q)) r k
  unfolding bytes_from slice
  bytes_from_within zero q r h = refl
  bytes_from_within (suc k) q r h =
      let inner : (suc r == size) ≡ false = ground arith in
      let one : suc r ≡ r + 1 = omega arith in
      rw (inner, bytes_from_within k q (suc r) (omega arith), one) refl

  -- The bytes to the end of a cluster, and those of the next.
  bytes_from_across :
      (k m q r : ℕ)
      → r + suc k ≡ size
      → bytes_from data_ cs size q r (suc k + m)
        ≡ slice (data_ (cluster_of cs q)) r (suc k) ++ bytes_from data_ cs size (suc q) 0 m
  unfolding bytes_from slice
  bytes_from_across zero m q r h =
      let last : (suc r == size) ≡ true = ground arith in
      let one : 1 + m ≡ suc m = omega arith in rw (one, last) refl
  bytes_from_across (suc k) m q r h =
      let inner : (suc r == size) ≡ false = ground arith in
      let one : suc (suc k) + m ≡ suc (suc k + m) = omega arith in
      let up : suc r ≡ r + 1 = omega arith in
      rw (one, inner, bytes_from_across k m q (suc r) (omega arith), up) refl

  bytes_from_chunk :
      (k n q r : ℕ)
      → 0 < k
      → k ≤ n
      → r + k ≡ size
      → bytes_from data_ cs size q r n
        ≡ slice (data_ (cluster_of cs q)) r k ++ bytes_from data_ cs size (suc q) 0 (n - k)
  bytes_from_chunk zero n q r more h e = absurd (omega arith)
  bytes_from_chunk (suc k) n q r more h e =
      ap (bytes_from data_ cs size q r) (omega arith) ∙ bytes_from_across k (n - suc k) q r e

module _ {W : Type 0} (ide : IdeDriver W) (b : BlockDevices) (data_ : ℕ → ℕ → ℕ) (cs : List ℕ) where
  read_cluster_of :
      (fs : Fat32 W) (i : ℕ) (buffer : ℕ → ℕ)
      → IsReadable ide b data_ fs cs
      → i < length cs
      → fat32_read_cluster ide b (cluster_of cs i) buffer fs ≡ (pos 0, data_ (cluster_of cs i), fs)
  unfolding fat32_read_cluster
  read_cluster_of fs i buffer r h =
      let there : (not fs.mounted || fat32_cluster_to_sector (cluster_of cs i) fs == 0) ≡ false =
        ground (arith, r.mounted, r.sector i h) in
      rw (there, r.reads i buffer h) refl

  -- A file stands at byte `r` of cluster `q` of the chain.
  pub record At (fs : Fat32 W) (q r : ℕ) (file : FatFile) : Type 0 where
    pub current : file.current_cluster ≡ cluster_of cs q
    pub offset : file.cluster_position ≡ r
    pub within : r < cluster_size fs

  abbrev then_read :
      List ℕ
      → Option (Option (List ℕ) × FatFile × Fat32 W)
      → Option (Option (List ℕ) × FatFile × Fat32 W)
  then_read bytes none = none
  then_read bytes (some (none, file, fs)) = some (none, file, fs)
  then_read bytes (some (some rest, file, fs)) = some (some (bytes ++ rest), file, fs)

  -- One turn of the loop.
  read_loop-suc :
      (fuel n q r : ℕ) (buffer : ℕ → ℕ) (file : FatFile) (fs : Fat32 W)
      → IsChain fs cs
      → IsReadable ide b data_ fs cs
      → At fs q r file
      → 0 < n
      → q < length cs
      → let k = smaller n (cluster_size fs - r) in
        read_loop ide b (suc fuel) n buffer file fs
        ≡ then_read
            (slice (data_ (cluster_of cs q)) r k)
            (read_loop ide b fuel (n - k) (data_ (cluster_of cs q)) (advanced k file fs) fs)
  unfolding read_loop
  read_loop-suc fuel n q r buffer file fs ch rd at more inside =
      let going : (ltb 0 n && ltb file.current_cluster fat32_end_cluster) ≡ true =
        ground (arith, at.current, ch.inside q inside) in
      rw going refl
      ∙ ap body (
          ap (λ c. fat32_read_cluster ide b c buffer fs) at.current
          ∙ read_cluster_of fs q buffer rd inside)
      ∙ as_then
          (slice (data_ (cluster_of cs q)) file.cluster_position (count file.cluster_position))
          (read_loop ide b fuel (n - count file.cluster_position) (data_ (cluster_of cs q))
            (advanced (count file.cluster_position) file fs) fs)
      ∙ ap
          (λ o. then_read (slice (data_ (cluster_of cs q)) o (count o)) (
            read_loop ide b fuel (n - count o) (data_ (cluster_of cs q))
              (advanced (count o) file fs) fs))
          at.offset
    where
      count : ℕ → ℕ
      count o = smaller n (cluster_size fs - o)

      Outcome : Type 0
      Outcome = Option (Option (List ℕ) × FatFile × Fat32 W)

      joined : List ℕ → Outcome → Outcome
      joined bytes o = elim o as (λ x. Outcome) [
        | none ↦ none
        | some (none, file', fs'') ↦ some (none, file', fs'')
        | some (some rest, file', fs'') ↦ some (some (bytes ++ rest), file', fs'')
      ]

      as_then : (bytes : List ℕ) (o : Outcome) → joined bytes o ≡ then_read bytes o
      as_then bytes none = refl
      as_then bytes (some (none, file', fs'')) = refl
      as_then bytes (some (some rest, file', fs'')) = refl

      body : ℤ × (ℕ → ℕ) × Fat32 W → Outcome
      body p =
          let k = smaller n (cluster_size fs - file.cluster_position) in
          let further = read_loop ide b fuel (n - k) p.1 (advanced k file p.2) p.2 in
          if is_zero p.0
          then joined (slice p.1 file.cluster_position k) further
          else some (none, file, p.2)

  abbrev pub Reads : ℕ → ℕ → ℕ → ℕ → (ℕ → ℕ) → FatFile → Fat32 W → Type 0
  Reads fuel n q r buffer file fs =
      (file' : FatFile) × (read_loop ide b fuel n buffer file fs
        ≡ some (some (bytes_from data_ cs (cluster_size fs) q r n), file', fs))

  -- The file behind the end of its cluster stands at the next.
  crossed-At :
      (q r : ℕ) (file : FatFile) (fs : Fat32 W)
      → IsChain fs cs
      → At fs q r file
      → q < length cs
      → At fs (suc q) 0 (advanced (cluster_size fs - r) file fs)
  crossed-At q r file fs ch at inside =
      let end : leb (cluster_size fs) (file.cluster_position + (cluster_size fs - r)) ≡ true =
        ground (arith, at.offset, at.within) in
      record {
        current = rw end (ap (λ c. fat32_get_next_cluster c fs) at.current ∙ ch.next q inside);
        offset = rw end refl;
        within = omega (arith, at.within);
      }

  -- The loop reads the bytes of the chain one after the other, on more fuel than there are bytes.
  pub read_loop-bytes_from :
      (fuel n q r : ℕ) (buffer : ℕ → ℕ) (file : FatFile) (fs : Fat32 W)
      → IsChain fs cs
      → IsReadable ide b data_ fs cs
      → At fs q r file
      → n < fuel
      → q * cluster_size fs + r + n ≤ length cs * cluster_size fs
      → Reads fuel n q r buffer file fs
  unfolding read_loop bytes_from
  read_loop-bytes_from zero n q r buffer file fs ch rd at enough room = absurd (omega arith)
  read_loop-bytes_from (suc fuel) zero q r buffer file fs ch rd at enough room = (file, refl)
  read_loop-bytes_from (suc zero) (suc m) q r buffer file fs ch rd at enough room =
      absurd (omega arith)
  read_loop-bytes_from (suc (suc fuel)) (suc m) q r buffer file fs ch rd at enough room =
      elim (Bool-cases (ltb (suc m) (size - r))) [
        | inl short ↦
            let k : smaller (suc m) (size - r) ≡ suc m = rw short refl in
            let none_left : suc m - suc m ≡ 0 = omega arith in
            (
              advanced (suc m) file fs,
              read_loop-suc (suc fuel) (suc m) q r buffer file fs ch rd at (omega arith) inside
                  ∙ ap
                      (λ j. then_read (slice (data_ (cluster_of cs q)) r j) (
                        read_loop ide b (suc fuel) (suc m - j) (data_ (cluster_of cs q))
                          (advanced j file fs) fs))
                      k
                  ∙ ap
                      (λ j. then_read (slice (data_ (cluster_of cs q)) r (suc m)) (
                        read_loop ide b (suc fuel) j (data_ (cluster_of cs q))
                          (advanced (suc m) file fs) fs))
                      none_left
                  ∙ ap (λ l. some (some l, advanced (suc m) file fs, fs))
                      (append_nil (slice (data_ (cluster_of cs q)) r (suc m))
                        ∙ sym (bytes_from_within data_ cs size (suc m) q r (ground arith))),
            )
        | inr long ↦
            let k : smaller (suc m) (size - r) ≡ size - r = rw long refl in
            let (file', rest) =
              read_loop-bytes_from (suc fuel) (suc m - (size - r)) (suc q) 0
                (data_ (cluster_of cs q)) (advanced (size - r) file fs) fs ch rd
                (crossed-At q r file fs ch at inside) (omega (arith, at.within))
                (ground (arith, at.within)) in
            (
              file',
              read_loop-suc (suc fuel) (suc m) q r buffer file fs ch rd at (omega arith) inside
                  ∙ ap
                      (λ j. then_read (slice (data_ (cluster_of cs q)) r j) (
                        read_loop ide b (suc fuel) (suc m - j) (data_ (cluster_of cs q))
                          (advanced j file fs) fs))
                      k
                  ∙ ap (then_read (slice (data_ (cluster_of cs q)) r (size - r))) rest
                  ∙ ap (λ l. some (some l, file', fs)) (sym (whole (ground (arith, at.within)))),
            )
      ]
    where
      size : ℕ
      size = cluster_size fs

      inside : q < length cs
      inside = elim (Bool-cases (ltb q (length cs))) [
        | inl l ↦ ground arith
        | inr g ↦
            let past : length cs ≤ q = ground arith in
            absurd (omega (arith, mul-le-mul_right size past))
      ]

      append_nil : (l : List ℕ) → l ++ [] ≡ l
      append_nil [] = refl
      append_nil (x ∷ l) = ap (λ t. x ∷ t) (append_nil l)

      whole :
          size - r ≤ suc m
          → bytes_from data_ cs size q r (suc m)
            ≡ slice (data_ (cluster_of cs q)) r (size - r)
              ++ bytes_from data_ cs size (suc q) 0 (suc m - (size - r))
      whole h =
          bytes_from_chunk data_ cs size (size - r) (suc m) q r (omega (arith, at.within)) h
            (omega (arith, at.within))
