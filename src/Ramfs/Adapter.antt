-- ===== src/Ramfs/Adapter.antt =====
-- src/kernel/ramfs_vfs.cpp: the table of operations that the file system in memory gives to the
-- virtual file system. Its state is `none` once the kernel has written through a null pointer or a
-- loop has run out of fuel.
use continuum_os.Common.{
  ℕ, zero, suc, ◌+◌, ◌-◌, ◌%◌, ◌^◌, List, [], ◌∷◌, Option, none, some, Bool, true, false, ◌||◌, not,
  ltb, leb, ◌==◌, length, take, if◌then◌else◌,
}
use continuum_os.Common.Int.{ℤ, pos}
use continuum_os.Strings.{Text, is_zero}
use continuum_os.Vfs.{File, Dirent, Operations, vfs_success, vfs_error, vfs_not_found}
use continuum_os.Ramfs.{
  RamFs, FsNode, is_file, is_directory, put, content, slice, grow_file, write_node,
}
use continuum_os.Ramfs.Paths.{fs_find_by_path, fs_mkdir, fs_touch, fs_remove, fs_rmdir}

abbrev vfs_type_file : ℕ
vfs_type_file = 1

abbrev vfs_type_directory : ℕ
vfs_type_directory = 2

unfoldable pub ramfs_vfs_open : Text → File → RamFs → ℤ × File
ramfs_vfs_open path file fs = elim (fs_find_by_path path fs) [
  | none ↦ (vfs_not_found, file)
  | some node ↦
      if is_directory (fs.nodes node).type
      then (vfs_error, file)
      else (vfs_success, record file { fs_handle = node; position = 0; in_use = true })
]

abbrev pub has_data : FsNode → Bool
has_data n = elim n.data_block [ none ↦ false | some b ↦ true ]

-- At most what is left of the file.
abbrev pub read_size : ℕ → ℕ → ℕ → ℕ
read_size position size end = if ltb (end - position) size then end - position else size

abbrev take_bytes : File → ℕ → FsNode → ℤ × Text × File
take_bytes file n node = (
  pos n,
  slice (content node) file.position n,
  record file { position = (file.position + n) % 2 ^ 32 },
)

unfoldable pub ramfs_vfs_read : File → ℕ → RamFs → ℤ × Text × File
ramfs_vfs_read file size fs =
    let node = fs.nodes file.fs_handle in
    if not file.in_use || file.fs_handle == 0 || not (has_data node)
    then (vfs_error, [], file)
    else (if leb node.size file.position
        then (pos 0, [], file)
        else take_bytes file (read_size file.position size node.size) node)

-- `block` is what a new block of memory holds, or none where there is no memory.
unfoldable pub ramfs_vfs_write : Option (ℕ → ℕ) → File → Text → RamFs → ℤ × File × RamFs
ramfs_vfs_write block file buffer fs =
    if not file.in_use || file.fs_handle == 0
    then (vfs_error, file, fs)
    else elim (grow_file ((file.position + length buffer) % 2 ^ 32) block
        (fs.nodes file.fs_handle)) [
          | none ↦ (vfs_error, file, fs)
          | some n ↦ (
            pos (length buffer),
            record file { position = (file.position + length buffer) % 2 ^ 32 },
            put file.fs_handle (write_node file.position buffer n) fs,
          )
        ]

unfoldable pub ramfs_vfs_seek : File → ℕ → ℤ × File
ramfs_vfs_seek file position =
    if not file.in_use || file.fs_handle == 0
    then (vfs_error, file)
    else (vfs_success, record file { position = position })

unfoldable pub ramfs_vfs_close : File → File
ramfs_vfs_close file =
    if file.in_use then record file { in_use = false; fs_handle = 0; position = 0 } else file

unfoldable pub entry_of : FsNode → Dirent
entry_of n = record {
  name = take 63 n.name;
  type = if is_file n.type then vfs_type_file else vfs_type_directory;
  size = n.size;
}

unfoldable pub entries_of : ℕ → List ℕ → RamFs → List Dirent
entries_of zero cs fs = []
entries_of (suc max) [] fs = []
entries_of (suc max) (c ∷ cs) fs = entry_of (fs.nodes c) ∷ entries_of max cs fs

unfoldable pub ramfs_vfs_readdir : Text → ℕ → RamFs → ℤ × List Dirent
ramfs_vfs_readdir path max_entries fs = elim (fs_find_by_path path fs) [
  | none ↦ (vfs_not_found, [])
  | some dir ↦ if is_file (fs.nodes dir).type then (vfs_error, []) else (
    pos (length (entries_of max_entries (fs.nodes dir).children fs)),
    entries_of max_entries (fs.nodes dir).children fs,
  )
]

unfoldable pub ramfs_vfs_stat : Text → RamFs → ℤ × Option Dirent
ramfs_vfs_stat path fs = elim (fs_find_by_path path fs) [
  | none ↦ (vfs_not_found, none)
  | some node ↦ (vfs_success, some (entry_of (fs.nodes node)))
]

-- The answer to a request for a node, and to one to remove it.
abbrev creation_answer : Option (Option ℕ × RamFs) → ℤ × Option RamFs
creation_answer none = (vfs_error, none)
creation_answer (some (none, fs)) = (vfs_error, some fs)
creation_answer (some (some node, fs)) = (vfs_success, some fs)

abbrev removal_answer : Option (ℤ × RamFs) → ℤ × Option RamFs
removal_answer none = (vfs_error, none)
removal_answer (some (result, fs)) = (if is_zero result then vfs_success else vfs_error, some fs)

unfoldable pub ramfs_vfs_create : Option ℕ → Option (ℕ → ℕ) → Text → RamFs → ℤ × Option RamFs
ramfs_vfs_create node block path fs = creation_answer (fs_touch path node block fs)

unfoldable pub ramfs_vfs_mkdir : Option ℕ → Text → RamFs → ℤ × Option RamFs
ramfs_vfs_mkdir node path fs = creation_answer (fs_mkdir path node fs)

unfoldable pub ramfs_vfs_remove : ℕ → Text → RamFs → ℤ × Option RamFs
ramfs_vfs_remove fuel path fs = removal_answer (fs_remove fuel path fs)

unfoldable pub ramfs_vfs_rmdir : ℕ → Text → RamFs → ℤ × Option RamFs
ramfs_vfs_rmdir fuel path fs = removal_answer (fs_rmdir fuel path fs)

-- One operation on a state that may be gone.
abbrev lift : {A : Type 0} → A → (RamFs → A × Option RamFs) → Option RamFs → A × Option RamFs
lift a step none = (a, none)
lift a step (some fs) = step fs

abbrev pub lift_write : File → (RamFs → ℤ × File × RamFs) → Option RamFs → ℤ × File × Option RamFs
lift_write file step none = (vfs_error, file, none)
lift_write file step (some fs) = let (result, file', fs') = step fs in (result, file', some fs')

abbrev pub lift_read :
    File → (RamFs → ℤ × Text × File) → Option RamFs → ℤ × Text × File × Option RamFs
lift_read file step none = (vfs_error, [], file, none)
lift_read file step (some fs) =
    let (result, bytes, file') = step fs in (result, bytes, file', some fs)

-- What `kmalloc` answers in a state of the file system, and the fuel of the removals.
module _ (node_at : RamFs → Option ℕ) (block : RamFs → Option (ℕ → ℕ)) (fuel : ℕ) where
  unfoldable pub ramfs_vfs_ops : Operations (Option RamFs)
  ramfs_vfs_ops = record {
    open_file = some (λ m path file w.
        lift_write file
          (λ fs. let (result, file') = ramfs_vfs_open path file fs in (result, file', fs)) w);
    read = some (λ file size w. lift_read file (ramfs_vfs_read file size) w);
    write =
        some (λ file buffer w. lift_write file (λ fs. ramfs_vfs_write (block fs) file buffer fs) w);
    seek = some (λ file position w.
        let (result, file') = ramfs_vfs_seek file position in (result, file', w));
    close = some (λ file w. (ramfs_vfs_close file, w));
    unmount = none;
    readdir = some (λ m path max_entries w. elim w [
      | none ↦ (vfs_error, [], none)
      | some fs ↦
          let (result, entries) = ramfs_vfs_readdir path max_entries fs in
          (result, entries, some fs)
    ]);
    mkdir = some (λ m path w. lift vfs_error (λ fs. ramfs_vfs_mkdir (node_at fs) path fs) w);
    rmdir = some (λ m path w. lift vfs_error (λ fs. ramfs_vfs_rmdir fuel path fs) w);
    create =
        some
          (λ m path w. lift vfs_error (λ fs. ramfs_vfs_create (node_at fs) (block fs) path fs) w);
    remove = some (λ m path w. lift vfs_error (λ fs. ramfs_vfs_remove fuel path fs) w);
    stat = some (λ m path w. elim w [
      | none ↦ (vfs_error, none, none)
      | some fs ↦ let (result, info) = ramfs_vfs_stat path fs in (result, info, some fs)
    ]);
  }
