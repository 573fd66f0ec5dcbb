-- ===== src/Ramfs/Data.antt =====
-- Reading and writing the bytes of a file.
use continuum_os.Common.{
  ℕ, suc, ◌+◌, ◌-◌, ◌%◌, ◌^◌, ◌≤◌, ◌<◌, ◌≡◌, ◌≢◌, refl, ap, ◌∙◌, List, [], ◌∷◌, none, some, true,
  false, ◌&&◌, ◌||◌, arith, ltb, leb, ◌==◌, length, get_or, if◌then◌else◌, Bool-cases, inl, inr,
}
use continuum_os.Common.Int.{pos}
use continuum_os.Heap.{align16}
use continuum_os.Heap.Layout.{align16-floor}
use continuum_os.Ramfs.{
  RamFs, FsNode, Buffer, fs_file, is_directory, content, slice, fs_read, regrow, overwrite,
  grow_file, write_node, fs_write,
}

-- The block of a node holds the whole file.
pub data Holds : FsNode → Type 0 where
  no_block : {n : FsNode} → n.data_block ≡ none → n.size ≡ 0 → Holds n
  in_block : {n : FsNode} (b : Buffer) → n.data_block ≡ some b → n.size ≤ b.capacity → Holds n

-- The bytes of a file with `buffer` written over them at `offset`.
abbrev pub patched : ℕ → List ℕ → (ℕ → ℕ) → ℕ → ℕ
patched offset buffer bytes i =
    if leb offset i && ltb i (offset + length buffer) then get_or buffer (i - offset) 0 else bytes i

-- What a write that is granted makes of a file.
pub record Written (offset : ℕ) (buffer : List ℕ) (n n' : FsNode) : Type 0 where
  pub kind : n'.type ≡ n.type
  pub size :
      n'.size ≡ (if ltb n.size (offset + length buffer) then offset + length buffer else n.size)
  pub bytes : (i : ℕ) → i < n.size → content n' i ≡ patched offset buffer (content n) i
  pub fresh :
      (i : ℕ)
      → offset ≤ i
      → i < offset + length buffer
      → content n' i ≡ get_or buffer (i - offset) 0
  pub holds : Holds n'

-- A node grown to `end` bytes.
pub record Grown (end : ℕ) (n n' : FsNode) : Type 0 where
  kind : n'.type ≡ n.type
  size : n'.size ≡ (if ltb n.size end then end else n.size)
  enough : end ≤ n'.size
  b : Buffer
  has : n'.data_block ≡ some b
  room : n'.size ≤ b.capacity
  kept : (i : ℕ) → i < n.size → b.bytes i ≡ content n i

align16-ge : (n : ℕ) → n ≤ 2 ^ 32 - 16 → n ≤ align16 n
align16-ge n h = omega (arith, align16-floor n)

pub grow_file-Grown :
    (end : ℕ) (f : ℕ → ℕ) (n : FsNode)
    → 0 < end
    → end ≤ 2 ^ 32 - 16
    → Holds n
    → (n' : FsNode) × (grow_file end (some f) n ≡ some n') × Grown end n n'
unfolding grow_file regrow
grow_file-Grown end f n nz small h = elim (Bool-cases (ltb n.size end)) [
  | inl more ↦ larger more h
  | inr stays ↦ (n, rw stays refl, kept_as_is stays h)
]
  where
    new : Buffer → FsNode
    new b = record n { data_block = some b; size = end }

    grown_to :
        (b : Buffer)
        → ltb n.size end ≡ true
        → regrow n.data_block end (some f) ≡ some b
        → end ≤ b.capacity
        → ((i : ℕ) → i < n.size → b.bytes i ≡ content n i)
        → (n' : FsNode) × (grow_file end (some f) n ≡ some n') × Grown end n n'
    grown_to b more e room same = (
      new b,
      rw (more, e) refl,
      record {
        kind = refl;
        size = rw more refl;
        enough = omega arith;
        b = b;
        has = refl;
        room = room;
        kept = same;
      },
    )

    larger :
        ltb n.size end ≡ true
        → Holds n
        → (n' : FsNode) × (grow_file end (some f) n ≡ some n') × Grown end n n'
    larger more (no_block e z) =
        grown_to (record { capacity = align16 end; bytes = f }) more (rw e refl)
          (align16-ge end small) (λ i l. absurd (omega arith))
    larger more (in_block b e c) = elim (Bool-cases (leb end b.capacity)) [
      | inl fits ↦ grown_to b more (rw (e, fits) refl) (ground arith) (λ i l. rw e refl)
      | inr moves ↦
          grown_to
            (record {
              capacity = align16 end;
              bytes = λ i. if ltb i b.capacity then b.bytes i else f i;
            })
            more (rw (e, moves) refl) (align16-ge end small)
            (λ i l. let inside : ltb i b.capacity ≡ true = ground arith in rw (inside, e) refl)
    ]

    kept_as_is : ltb n.size end ≡ false → Holds n → Grown end n n
    kept_as_is stays (no_block e z) = absurd (ground arith)
    kept_as_is stays (in_block b e c) = record {
      kind = refl;
      size = rw stays refl;
      enough = ground arith;
      b = b;
      has = e;
      room = c;
      kept = λ i l. rw e refl;
    }

pub write_node-Written :
    (offset : ℕ) (buffer : List ℕ) (n n' : FsNode)
    → Grown (offset + length buffer) n n'
    → Written offset buffer n (write_node offset buffer n')
unfolding write_node overwrite
write_node-Written offset buffer n n' g = record {
  kind = g.kind;
  size = g.size;
  bytes = λ i l. rw (g.has, g.kept i l) refl;
  fresh = λ i lo hi.
      let inside : (leb offset i && ltb i (offset + length buffer)) ≡ true = ground arith in
      rw (g.has, inside) refl;
  holds = in_block (record g.b { bytes = patched offset buffer g.b.bytes }) (rw g.has refl) g.room;
}

-- Writing to a file within 32 bits, with memory for a larger block, answers the number of bytes. The
-- file then ends where it did or behind the bytes written; those stand at the offset, and the other
-- bytes of the file are as they were. No other node changes.
pub fs_write-Written :
    (file offset : ℕ) (buffer : List ℕ) (fresh : ℕ → ℕ) (fs : RamFs)
    → (fs.nodes file).type ≡ fs_file
    → Holds (fs.nodes file)
    → 0 < length buffer
    → offset + length buffer ≤ 2 ^ 32 - 16
    → let r = fs_write file offset buffer (some fresh) fs in
      (r.0 ≡ pos (length buffer))
      × Written offset buffer (fs.nodes file) (r.1.nodes file)
      × ((a : ℕ) → a ≢ file → r.1.nodes a ≡ fs.nodes a)
unfolding fs_write
fs_write-Written file offset buffer fresh fs kind h nz small =
    let (n', e, g) =
      grow_file-Grown (offset + length buffer) fresh (fs.nodes file) (omega arith) small h in
    let end : (offset + length buffer) % 2 ^ 32 ≡ offset + length buffer = omega arith in
    let self : (file == file) ≡ true = ground arith in
    let regular : is_directory (fs.nodes file).type ≡ false = rw kind refl in
    rw (regular, end, e)
      (refl, rw self (write_node-Written offset buffer (fs.nodes file) n' g), λ a ne. ground arith)

pub slice-get_or :
    (bytes : ℕ → ℕ) (offset : ℕ) (buffer : List ℕ)
    → ((k : ℕ) → k < length buffer → bytes (offset + k) ≡ get_or buffer k 0)
    → slice bytes offset (length buffer) ≡ buffer
unfolding slice
slice-get_or bytes offset [] all = refl
slice-get_or bytes offset (b ∷ buffer) all =
    let first : bytes offset ≡ b = ap bytes (omega arith) ∙ all 0 (omega arith) in
    let rest =
      slice-get_or bytes (offset + 1) buffer
        (λ k h. ap bytes (omega arith) ∙ all (suc k) (omega arith)) in
    rw (first, rest) refl

fs_read-slice :
    (file offset size : ℕ) (fs : RamFs)
    → (fs.nodes file).type ≡ fs_file
    → offset + size ≤ (fs.nodes file).size
    → offset + size < 2 ^ 32
    → fs_read file offset size fs ≡ (pos size, slice (content (fs.nodes file)) offset size)
unfolding fs_read
fs_read-slice file offset size fs kind fits small =
    let open_ : (is_directory (fs.nodes file).type || ltb (fs.nodes file).size offset) ≡ false =
      rw kind (ground arith) in
    let whole : ltb (fs.nodes file).size ((offset + size) % 2 ^ 32) ≡ false = ground arith in
    rw (open_, whole) refl

-- What was written to a file is read back.
pub fs_read-fs_write :
    (file offset : ℕ) (buffer : List ℕ) (fresh : ℕ → ℕ) (fs : RamFs)
    → (fs.nodes file).type ≡ fs_file
    → Holds (fs.nodes file)
    → 0 < length buffer
    → offset + length buffer ≤ 2 ^ 32 - 16
    → fs_read file offset (length buffer) (fs_write file offset buffer (some fresh) fs).1
      ≡ (pos (length buffer), buffer)
fs_read-fs_write file offset buffer fresh fs kind h nz small =
    let (answer, w, others) = fs_write-Written file offset buffer fresh fs kind h nz small in
    let fs' = (fs_write file offset buffer (some fresh) fs).1 in
    fs_read-slice file offset (length buffer) fs' (w.kind ∙ kind) (ground (arith, w.size))
      (omega arith)
    ∙ ap (λ (l : List ℕ). (pos (length buffer), l))
        (slice-get_or (content (fs'.nodes file)) offset buffer (λ k l.
          w.fresh (offset + k) (omega arith) (omega arith)
          ∙ ap (λ i. get_or buffer i 0) (omega arith)))

-- `offset + size` wraps: a read that ends behind 4 GiB is not cut down to the file.
pub fs_read_wraps :
    (file offset size : ℕ) (fs : RamFs)
    → (fs.nodes file).type ≡ fs_file
    → offset ≤ (fs.nodes file).size
    → size < 2 ^ 32
    → 2 ^ 32 ≤ offset + size
    → (offset + size) % 2 ^ 32 ≤ (fs.nodes file).size
    → fs_read file offset size fs ≡ (pos size, slice (content (fs.nodes file)) offset size)
unfolding fs_read
fs_read_wraps file offset size fs kind within word over wrapped =
    let open_ : (is_directory (fs.nodes file).type || ltb (fs.nodes file).size offset) ≡ false =
      rw kind (ground arith) in
    let whole : ltb (fs.nodes file).size ((offset + size) % 2 ^ 32) ≡ false = ground arith in
    rw (open_, whole) refl
