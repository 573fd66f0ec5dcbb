-- ===== src/Ramfs/Tests.antt =====
-- Runs of the model of src/kernel/ramfs.cpp, and the theorems at work on small trees.
use continuum_os.Common.{
  ℕ, ◌-◌, ◌^◌, ◌≡◌, ◌≢◌, refl, sym, ◌∙◌, [], ◌∷◌, Option, none, some, Bool, true, false, arith,
  ◌==◌, if◌then◌else◌,
}
use continuum_os.Common.Int.{ℤ, pos}
use continuum_os.Strings.{Text, same, strcmp, difference, strrchr}
use continuum_os.Strings.Compare.{nul_free}
use continuum_os.Strings.Tokens.{lacks}
use continuum_os.Vfs.{Vfs, File, Operations, empty_mount, vfs_success}
use continuum_os.Vfs.Paths.{rebuild}
use continuum_os.Vfs.Walk.{IsComponent, no_components, components}
use continuum_os.Vfs.Calls.{vfs_read, vfs_write, vfs_seek}
use continuum_os.Ramfs.{
  RamFs, FsNode, fs_file, fs_directory, put, fs_read, content, slice, fs_find_child, child_named,
}
use continuum_os.Ramfs.Paths.{
  fs_find_by_path, walk_path, walk_turn, finish, enter_component, split_path, fs_touch, fs_remove,
}
use continuum_os.Ramfs.Data.{no_block, fs_read_wraps}
use continuum_os.Ramfs.Lookup.{descend, no_names, short, fs_find_by_path-rebuild}
use continuum_os.Ramfs.Links.{IsLinked, Unlinked, occurs, attach, attach-IsLinked, put-IsLinked}
use continuum_os.Ramfs.Create.{Made, fs_touch-Made}
use continuum_os.Ramfs.Removal.{Removed, fs_remove-Removed}
use continuum_os.Ramfs.Adapter.{ramfs_vfs_ops}
use continuum_os.Ramfs.Files.{IsOn, vfs_read-vfs_write}

abbrev blank : FsNode
blank = record {
  name = [];
  type = fs_file;
  size = 0;
  data_block = none;
  parent = none;
  children = [];
}

abbrev store : RamFs
store = record { nodes = λ a. blank; root = 1; fd_table = [] }

abbrev root_node : FsNode
root_node = record blank { name = 47 ∷ []; type = fs_directory }

-- The root alone, and the root with a file `a` at address 2.
abbrev disk : RamFs
disk = put 1 root_node store

abbrev file_a : FsNode
file_a = record blank { name = 97 ∷ [] }

abbrev disk_a : RamFs
disk_a = attach 1 2 (put 2 file_a disk)

store-IsLinked : IsLinked store
unfolding occurs
store-IsLinked = record {
  once = λ p c. omega arith;
  back = λ p c h. absurd (omega arith);
  room = λ p. omega arith;
  files = λ p h. refl;
}

store-Unlinked : (c : ℕ) → Unlinked c store
unfolding occurs
store-Unlinked c p = refl

disk-IsLinked : IsLinked disk
disk-IsLinked = (put-IsLinked 1 root_node store refl (store-Unlinked 1) store-IsLinked).0

disk-Unlinked : Unlinked 2 disk
unfolding occurs
disk-Unlinked p = on (p == 1)
  where
    on : (b : Bool) → occurs 2 (if b then root_node else blank).children ≡ 0
    on true = refl
    on false = refl

disk_a-IsLinked : IsLinked disk_a
disk_a-IsLinked =
    let made = put-IsLinked 2 file_a disk refl disk-Unlinked disk-IsLinked in
    attach-IsLinked 1 2 (put 2 file_a disk) made.0 made.1 (omega arith) refl

abbrev path_a : Text
path_a = 47 ∷ 97 ∷ []

found_root : fs_find_by_path (split_path path_a).0 disk ≡ some 1
unfolding fs_find_by_path split_path strrchr same strcmp difference
found_root = refl

not_root : (p : ℕ) → fs_find_by_path (split_path path_a).0 disk ≡ some p → 2 ≢ p
not_root p h e = let one : some 1 ≡ some p = sym found_root ∙ h in absurd (ground arith)

fs_touch-Made_example :
    (answer : Option ℕ) × (fs' : RamFs) × (fs_touch path_a (some 2) none disk ≡ some (answer, fs'))
    × Made path_a fs_file 2 disk answer fs'
    × IsLinked fs'
fs_touch-Made_example = fs_touch-Made path_a 2 none disk disk-IsLinked disk-Unlinked not_root

fs_remove-Removed_example :
    (answer : ℤ) × (fs' : RamFs) × (fs_remove 1 path_a disk_a ≡ some (answer, fs'))
    × Removed path_a disk_a answer fs'
    × IsLinked fs'
fs_remove-Removed_example = fs_remove-Removed 0 path_a disk_a disk_a-IsLinked

-- A file of one byte.
abbrev one_byte : RamFs
one_byte = record store {
  nodes =
      λ a. record blank { size = 1; data_block = some (record { capacity = 16; bytes = λ i. 65 }) };
}

fs_read_wraps_example :
    fs_read 2 1 (2 ^ 32 - 1) one_byte
    ≡ (pos (2 ^ 32 - 1), slice (content (one_byte.nodes 2)) 1 (2 ^ 32 - 1))
fs_read_wraps_example =
    fs_read_wraps 2 1 (2 ^ 32 - 1) one_byte refl (omega arith) (omega arith) (omega arith)
      (omega arith)

a-IsComponent : IsComponent (97 ∷ [])
unfolding same strcmp difference lacks
a-IsComponent = record { nonempty = λ e. cc; clean = refl; not_dot = refl; not_dot_dot = refl }

fs_find_by_path-rebuild_example :
    fs_find_by_path (rebuild ((97 ∷ []) ∷ [])) disk_a ≡ descend ((97 ∷ []) ∷ []) 1 disk_a
unfolding same strcmp difference lacks nul_free
fs_find_by_path-rebuild_example =
    fs_find_by_path-rebuild ((97 ∷ []) ∷ []) disk_a (components a-IsComponent no_components)
      (short (omega arith) refl no_names)

finds_a : fs_find_by_path path_a disk_a ≡ some 2
unfolding fs_find_by_path walk_path walk_turn finish enter_component fs_find_child child_named same
    strcmp difference
finds_a = refl

abbrev contents : RamFs → Option (ℕ → ℕ)
contents fs = some (λ i. 0)

abbrev tables : ℕ → Operations (Option RamFs)
tables a = ramfs_vfs_ops (λ fs. some 9) contents 1

abbrev mounted : Vfs (Option RamFs)
mounted = record {
  mounts = record empty_mount { ops = some 0; mounted = true } ∷ [];
  open_files = [];
  current_working_directory = 47 ∷ [];
  vfs_initialized = true;
  filesystems = some disk_a;
}

abbrev opened_a : File
opened_a = record { fs_handle = 2; mount = some 0; position = 5; in_use = true }

opened_a-IsOn : IsOn (λ fs. some 9) contents 1 tables opened_a mounted disk_a
opened_a-IsOn = record {
  used = refl;
  i = 0;
  mount = refl;
  k = 0;
  ops = refl;
  table = refl;
  state = refl;
}

vfs_read-vfs_write_example :
    let w = vfs_write tables opened_a (7 ∷ 8 ∷ []) mounted in
    let s = vfs_seek tables w.1 5 w.2 in
    let r = vfs_read tables s.1 2 s.2 in
    (w.0 ≡ pos 2) × (s.0 ≡ vfs_success) × (r.0 ≡ pos 2) × (r.1 ≡ 7 ∷ 8 ∷ [])
vfs_read-vfs_write_example =
    vfs_read-vfs_write (λ fs. some 9) contents 1 tables opened_a (7 ∷ 8 ∷ []) mounted disk_a
      (λ i. 0) opened_a-IsOn refl (λ e. absurd (omega arith)) (no_block refl refl) (omega arith)
      (omega arith)
