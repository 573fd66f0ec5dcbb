-- ===== src/Ramfs/Files.antt =====
-- The files of the file system in memory behind the calls of src/kernel/vfs.cpp.
use mathlib.Core.Path.{subst}
use continuum_os.Common.{
  ℕ, ◌+◌, ◌-◌, ◌%◌, ◌^◌, ◌≤◌, ◌<◌, ◌≡◌, ◌≢◌, refl, sym, ap, ◌∙◌, [], Option, none, some, true,
  false, ◌||◌, not, arith, ltb, leb, ◌==◌, length, get_or,
}
use continuum_os.Common.Int.{ℤ, pos}
use continuum_os.Strings.{Text}
use continuum_os.Vfs.{Vfs, File, Operations, vfs_success, vfs_error, empty_mount, file_operation}
use continuum_os.Vfs.Calls.{vfs_read, vfs_write, vfs_seek, with_state, read_state}
use continuum_os.Ramfs.{RamFs, FsNode, put, content, slice, grow_file, write_node}
use continuum_os.Ramfs.Data.{
  Holds, no_block, in_block, Written, grow_file-Grown, write_node-Written, slice-get_or,
}
use continuum_os.Ramfs.Adapter.{
  has_data, ramfs_vfs_read, ramfs_vfs_write, ramfs_vfs_seek, ramfs_vfs_ops, lift_read, lift_write,
}

-- A file as it is behind a write, and the file system.
record WrittenAt (file file' : File) (buffer : Text) (fs fs' : RamFs) : Type 0 where
  position : file'.position ≡ file.position + length buffer
  handle : file'.fs_handle ≡ file.fs_handle
  in_use : file'.in_use ≡ true
  mount : file'.mount ≡ file.mount
  node : Written file.position buffer (fs.nodes file.fs_handle) (fs'.nodes file'.fs_handle)

ramfs_vfs_write-WrittenAt :
    (block : ℕ → ℕ) (file : File) (buffer : Text) (fs : RamFs)
    → file.in_use ≡ true
    → file.fs_handle ≢ 0
    → Holds (fs.nodes file.fs_handle)
    → 0 < length buffer
    → file.position + length buffer ≤ 2 ^ 32 - 16
    → (file' : File) × (fs' : RamFs) × (ramfs_vfs_write (some block) file buffer fs
        ≡ (pos (length buffer), file', fs'))
      × WrittenAt file file' buffer fs fs'
unfolding ramfs_vfs_write
ramfs_vfs_write-WrittenAt block file buffer fs used nz h nonempty small =
    let (n, e, g) =
      grow_file-Grown (file.position + length buffer) block (fs.nodes file.fs_handle) (omega arith)
        small h in
    let end : (file.position + length buffer) % 2 ^ 32 ≡ file.position + length buffer =
      omega arith in
    let grown = ap (λ x. grow_file x (some block) (fs.nodes file.fs_handle)) end ∙ e in
    let good : (not file.in_use || file.fs_handle == 0) ≡ false = ground arith in
    (
      record file { position = (file.position + length buffer) % 2 ^ 32 },
      put file.fs_handle (write_node file.position buffer n) fs,
      rw (good, grown) refl,
      record {
        position = end;
        handle = refl;
        in_use = used;
        mount = refl;
        node =
            let self : (file.fs_handle == file.fs_handle) ≡ true = ground arith in
            rw self (write_node-Written file.position buffer (fs.nodes file.fs_handle) n g);
      },
    )

has_data-Holds : (n : FsNode) → Holds n → 0 < n.size → has_data n ≡ true
has_data-Holds n (no_block e z) some_ = absurd (omega arith)
has_data-Holds n (in_block b e c) some_ = rw e refl

-- A read that stays inside of a file.
ramfs_vfs_read_inside :
    (file : File) (buffer : Text) (fs : RamFs)
    → file.in_use ≡ true
    → file.fs_handle ≢ 0
    → has_data (fs.nodes file.fs_handle) ≡ true
    → 0 < length buffer
    → file.position + length buffer ≤ (fs.nodes file.fs_handle).size
    → ramfs_vfs_read file (length buffer) fs ≡ (
      pos (length buffer),
      slice (content (fs.nodes file.fs_handle)) file.position (length buffer),
      record file { position = (file.position + length buffer) % 2 ^ 32 },
    )
unfolding ramfs_vfs_read
ramfs_vfs_read_inside file buffer fs used nz data_ nonempty inside =
    let good : (not file.in_use || file.fs_handle == 0 || not (has_data (fs.nodes file.fs_handle)))
        ≡ false =
      ground arith in
    let more : leb (fs.nodes file.fs_handle).size file.position ≡ false = ground arith in
    let all : ltb ((fs.nodes file.fs_handle).size - file.position) (length buffer) ≡ false =
      ground arith in
    rw (good, more, all) refl

module _ (node_at : RamFs → Option ℕ) (block : RamFs → Option (ℕ → ℕ)) (fuel : ℕ)
    (ops_at : ℕ → Operations (Option RamFs)) where
  abbrev State : Type 0
  State = Option RamFs

  -- A file in use on a mount of the file system in memory, whose state is `fs`.
  pub record IsOn (file : File) (v : Vfs State) (fs : RamFs) : Type 0 where
    pub used : file.in_use ≡ true
    pub i : ℕ
    pub mount : file.mount ≡ some i
    pub k : ℕ
    pub ops : (get_or v.mounts i empty_mount).ops ≡ some k
    pub table : ops_at k ≡ ramfs_vfs_ops node_at block fuel
    pub state : v.filesystems ≡ some fs

  through :
      {F : Type 0} (select : Operations State → Option F) (file : File) (v : Vfs State) (fs : RamFs)
      → IsOn file v fs
      → file_operation ops_at select file v ≡ select (ramfs_vfs_ops node_at block fuel)
  through {F = F} select file v fs on =
      rw (on.used, on.mount)
        (ap (λ o. elim o as (λ x. Option F) [ none ↦ none | some k ↦ select (ops_at k) ]) on.ops
          ∙ ap select on.table)

  write_through :
      (file file' : File) (buffer : Text) (v : Vfs State) (fs fs' : RamFs) (n : ℤ)
      → IsOn file v fs
      → ramfs_vfs_write (block fs) file buffer fs ≡ (n, file', fs')
      → vfs_write ops_at file buffer v ≡ (n, file', record v { filesystems = some fs' })
  unfolding vfs_write ramfs_vfs_ops
  write_through file file' buffer v fs fs' n on e =
      ap
        (λ o. elim o as (λ x. ℤ × File × Vfs State) [
          | none ↦ (vfs_error, file, v)
          | some write ↦ with_state ops_at v (write file buffer v.filesystems)
        ])
        (through Operations.write file v fs on)
      ∙ ap
          (λ w.
            with_state ops_at v (lift_write file (λ s. ramfs_vfs_write (block s) file buffer s) w))
          on.state
      ∙ ap (λ (r : ℤ × File × RamFs). with_state ops_at v (r.0, r.1, some r.2)) e

  read_through :
      (file file' : File) (size : ℕ) (bytes : Text) (v : Vfs State) (fs : RamFs) (n : ℤ)
      → IsOn file v fs
      → ramfs_vfs_read file size fs ≡ (n, bytes, file')
      → vfs_read ops_at file size v ≡ (n, bytes, file', record v { filesystems = some fs })
  unfolding vfs_read ramfs_vfs_ops
  read_through file file' size bytes v fs n on e =
      ap
        (λ o. elim o as (λ x. ℤ × Text × File × Vfs State) [
          | none ↦ (vfs_error, [], file, v)
          | some read ↦ read_state ops_at v (read file size v.filesystems)
        ])
        (through Operations.read file v fs on)
      ∙ ap (λ w. read_state ops_at v (lift_read file (ramfs_vfs_read file size) w)) on.state
      ∙ ap (λ (r : ℤ × Text × File). read_state ops_at v (r.0, r.1, r.2, some fs)) e

  seek_through :
      (file file' : File) (position : ℕ) (v : Vfs State) (fs : RamFs) (n : ℤ)
      → IsOn file v fs
      → ramfs_vfs_seek file position ≡ (n, file')
      → vfs_seek ops_at file position v ≡ (n, file', v)
  unfolding vfs_seek ramfs_vfs_ops
  seek_through file file' position v fs n on e =
      ap
        (λ o. elim o as (λ x. ℤ × File × Vfs State) [
          | none ↦ (vfs_error, file, v)
          | some seek ↦ with_state ops_at v (seek file position v.filesystems)
        ])
        (through Operations.seek file v fs on)
      ∙ ap (λ (r : ℤ × File). with_state ops_at v (r.0, r.1, v.filesystems)) e

  ramfs_vfs_seek_back :
      (file : File) (position : ℕ)
      → file.in_use ≡ true
      → file.fs_handle ≢ 0
      → ramfs_vfs_seek file position ≡ (vfs_success, record file { position = position })
  unfolding ramfs_vfs_seek
  ramfs_vfs_seek_back file position used nz =
      let good : (not file.in_use || file.fs_handle == 0) ≡ false = ground arith in rw good refl

  -- A seek to where the bytes were written, and the read.
  abbrev ReadsBack : Text → ℕ → ℤ × File × Vfs State → Type 0
  ReadsBack buffer position s =
      let r = vfs_read ops_at s.1 (length buffer) s.2 in
      (s.0 ≡ vfs_success) × (r.0 ≡ pos (length buffer)) × (r.1 ≡ buffer)

  read_written :
      (file file' : File) (buffer : Text) (v : Vfs State) (fs fs' : RamFs)
      → IsOn file v fs
      → WrittenAt file file' buffer fs fs'
      → file'.fs_handle ≢ 0
      → 0 < length buffer
      → file.position + length buffer < 2 ^ 32
      → ReadsBack buffer file.position
          (vfs_seek ops_at file' file.position (record v { filesystems = some fs' }))
  read_written file file' buffer v fs fs' on at nz nonempty small =
      subst (ReadsBack buffer file.position) (sym sought) (
        refl,
        ap (λ (r : ℤ × Text × File × Vfs State). r.0) read,
        ap (λ (r : ℤ × Text × File × Vfs State). r.1) read ∙ bytes,
      )
    where
      v' : Vfs State
      v' = record v { filesystems = some fs' }

      back : File
      back = record file' { position = file.position }

      on' : (f : File) → f.in_use ≡ true → f.mount ≡ file.mount → IsOn f v' fs'
      on' f u m = record {
        used = u;
        i = on.i;
        mount = m ∙ on.mount;
        k = on.k;
        ops = on.ops;
        table = on.table;
        state = refl;
      }

      node : FsNode
      node = fs'.nodes file'.fs_handle

      stored : Text
      stored = slice (content node) file.position (length buffer)

      past : File
      past = record back { position = (file.position + length buffer) % 2 ^ 32 }

      sought : vfs_seek ops_at file' file.position v' ≡ (vfs_success, back, v')
      sought =
          seek_through file' back file.position v' fs' vfs_success (on' file' at.in_use at.mount)
            (ramfs_vfs_seek_back file' file.position at.in_use nz)

      end : file.position + length buffer ≤ node.size
      end = ground (arith, at.node.size)

      read : vfs_read ops_at back (length buffer) v' ≡ (pos (length buffer), stored, past, v')
      read =
          read_through back past (length buffer) stored v' fs' (pos (length buffer))
            (on' back at.in_use at.mount)
            (ramfs_vfs_read_inside back buffer fs' at.in_use nz
              (has_data-Holds node at.node.holds (omega (arith, end))) nonempty end)

      bytes : stored ≡ buffer
      bytes = slice-get_or (content node) file.position buffer (λ j l.
          at.node.fresh (file.position + j) (omega arith) (omega arith)
          ∙ ap (λ i. get_or buffer i 0) (omega arith))

  -- What a program writes to a file it has open, it reads back after a seek to where it wrote, all by
  -- the calls of the virtual file system: each call succeeds, and the bytes are those written. The
  -- file's block holds the file, memory is there for a larger block, and the file ends within 32 bits.
  pub vfs_read-vfs_write :
      (file : File) (buffer : Text) (v : Vfs State) (fs : RamFs) (fresh : ℕ → ℕ)
      → IsOn file v fs
      → block fs ≡ some fresh
      → file.fs_handle ≢ 0
      → Holds (fs.nodes file.fs_handle)
      → 0 < length buffer
      → file.position + length buffer ≤ 2 ^ 32 - 16
      → let w = vfs_write ops_at file buffer v in
        let s = vfs_seek ops_at w.1 file.position w.2 in
        let r = vfs_read ops_at s.1 (length buffer) s.2 in
        (w.0 ≡ pos (length buffer))
        × (s.0 ≡ vfs_success)
        × (r.0 ≡ pos (length buffer))
        × (r.1 ≡ buffer)
  vfs_read-vfs_write file buffer v fs fresh on memory nz h nonempty small =
      let (file', fs', written, at) =
        ramfs_vfs_write-WrittenAt fresh file buffer fs on.used nz h nonempty small in
      let w : vfs_write ops_at file buffer v
          ≡ (pos (length buffer), file', record v { filesystems = some fs' }) =
        write_through file file' buffer v fs fs' (pos (length buffer)) on
          (ap (λ b. ramfs_vfs_write b file buffer fs) memory ∙ written) in
      let nz' : file'.fs_handle ≢ 0 = subst (λ a. a ≢ 0) (sym at.handle) nz in
      let rest = read_written file file' buffer v fs fs' on at nz' nonempty (omega arith) in
      subst
        (λ (w : ℤ × File × Vfs State).
          let s = vfs_seek ops_at w.1 file.position w.2 in
          let r = vfs_read ops_at s.1 (length buffer) s.2 in
          (w.0 ≡ pos (length buffer))
          × (s.0 ≡ vfs_success)
          × (r.0 ≡ pos (length buffer))
          × (r.1 ≡ buffer))
        (sym w) (refl, rest.0, rest.1, rest.2)
