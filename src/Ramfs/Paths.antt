-- ===== src/Ramfs/Paths.antt =====
-- The paths of src/kernel/ramfs.cpp: `fs_find_by_path`, `fs_find_by_path_from` and `split_path`, and
-- the operations on paths.
use continuum_os.Common.{
  ℕ, zero, suc, ◌+◌, Bool, true, false, ◌&&◌, ◌||◌, Option, none, some, List, [], ◌∷◌, ◌++◌, ltb,
  ◌==◌, if◌then◌else◌, length, drop,
}
use continuum_os.Common.Int.{ℤ, pos, negsuc}
use continuum_os.Strings.{Text, same, strrchr}
use continuum_os.Vfs.Paths.{slash, dot, dot_dot}
use continuum_os.Ramfs.{
  RamFs, FileDescriptor, fs_file, fs_directory, is_file, is_directory, put, same_node,
  fs_create_node, fs_add_child, fs_find_child, fs_remove_child,
}

-- Where one component leads from a node.
unfoldable pub enter_component : Text → ℕ → RamFs → Option ℕ
enter_component name current fs =
    if same name dot
    then some current
    else (if same name dot_dot
        then some (elim (fs.nodes current).parent [ none ↦ current | some p ↦ p ])
        else fs_find_child current name fs)

-- The same for what has been collected in `temp`, which may be empty.
unfoldable pub finish : Text → ℕ → RamFs → Option ℕ
finish [] current fs = some current
finish (c ∷ cs) current fs = enter_component (c ∷ cs) current fs

-- One walk_turn of the loop over the characters: `temp` and `current` behind it, or NULL.
unfoldable pub walk_turn : ℕ → Text → ℕ → RamFs → Option (Text × ℕ)
walk_turn c temp current fs =
    if c == 47
    then elim (finish temp current fs) [ none ↦ none | some next ↦ some ([], next) ]
    else (if ltb (length temp) 63 then some (temp ++ c ∷ [], current) else none)

unfoldable pub walk_path : Text → Text → ℕ → RamFs → Option ℕ
walk_path [] temp current fs = finish temp current fs
walk_path (c ∷ path) temp current fs = elim (walk_turn c temp current fs) [
  | none ↦ none
  | some (temp', next) ↦ walk_path path temp' next fs
]

unfoldable pub fs_find_by_path : Text → RamFs → Option ℕ
fs_find_by_path [] fs = none
fs_find_by_path (c ∷ path) fs =
    if c == 47
    then (if same (c ∷ path) slash then some fs.root else walk_path path [] fs.root fs)
    else none

unfoldable pub fs_find_by_path_from : Text → ℕ → RamFs → Option ℕ
fs_find_by_path_from [] current fs = some current
fs_find_by_path_from (c ∷ path) current fs =
    if c == 47 then walk_path path [] fs.root fs else walk_path (c ∷ path) [] current fs

-- The parent's path and the name.
unfoldable pub split_path : Text → Text × Text
split_path path = elim (strrchr path 47) [
  | none ↦ ([], path)
  | some [] ↦ (slash, drop 1 path)
  | some (c ∷ cs) ↦ (c ∷ cs, drop (length (c ∷ cs) + 1) path)
]

-- A new directory whose parent was found, at `fresh`; `none` is a write through a null pointer.
unfoldable pub make_in : ℕ → Text → Option ℕ → RamFs → Option (Option ℕ × RamFs)
make_in parent name fresh fs =
    let made = fs_create_node name fs_directory fresh fs in
    if is_file (fs.nodes parent).type
    then some (none, fs)
    else elim (fs_add_child parent made.0 made.1) [ none ↦ none | some fs' ↦ some (made.0, fs') ]

unfoldable pub fs_mkdir : Text → Option ℕ → RamFs → Option (Option ℕ × RamFs)
fs_mkdir path fresh fs = elim (fs_find_by_path (split_path path).0 fs) [
  | none ↦ some (none, fs)
  | some parent ↦ make_in parent (split_path path).1 fresh fs
]

-- A new file with a block of 1024 bytes, or with none where there is no memory for it.
unfoldable pub with_block : Option ℕ → Option (ℕ → ℕ) → RamFs → RamFs
with_block none block fs = fs
with_block (some at) block fs =
    put at
      (record (fs.nodes at) {
        data_block = elim block [
          | none ↦ none
          | some f ↦ some (record { capacity = 1024; bytes = f })
        ];
      })
      fs

unfoldable pub touch_in : ℕ → Text → Option ℕ → Option (ℕ → ℕ) → RamFs → Option (Option ℕ × RamFs)
touch_in parent name none block fs = some (none, fs)
touch_in parent name (some at) block fs =
    let made = with_block (some at) block (fs_create_node name fs_file (some at) fs).1 in
    if is_file (fs.nodes parent).type
    then some (none, fs)
    else elim (fs_add_child parent (some at) made) [ none ↦ none | some fs' ↦ some (some at, fs') ]

unfoldable pub fs_touch : Text → Option ℕ → Option (ℕ → ℕ) → RamFs → Option (Option ℕ × RamFs)
fs_touch path fresh block fs = elim (fs_find_by_path (split_path path).0 fs) [
  | none ↦ some (none, fs)
  | some parent ↦ touch_in parent (split_path path).1 fresh block fs
]

-- Some descriptor in use is of the node.
unfoldable pub is_open : ℕ → List FileDescriptor → Bool
is_open node [] = false
is_open node (d ∷ ds) = (d.used && same_node d.node node) || is_open node ds

-- `fs_free_node`: the pointers that it clears before the memory goes.
unfoldable pub fs_free_node : ℕ → RamFs → RamFs
fs_free_node node fs = put node (record (fs.nodes node) { data_block = none; children = [] }) fs

-- The end of `fs_remove` and `fs_rmdir`. `none` is a recursion that the fuel does not reach the end of.
unfoldable pub unlink : ℕ → ℕ → RamFs → Option (ℤ × RamFs)
unlink fuel node fs = elim (fs.nodes node).parent [
  | none ↦ some (pos 0, fs_free_node node fs)
  | some p ↦ elim (fs_remove_child fuel p node fs) [
    | none ↦ none
    | some fs' ↦ some (pos 0, fs_free_node node fs')
  ]
]

unfoldable pub remove_found : ℕ → ℕ → RamFs → Option (ℤ × RamFs)
remove_found fuel node fs =
    if is_directory (fs.nodes node).type || is_open node fs.fd_table
    then some (negsuc 0, fs)
    else unlink fuel node fs

unfoldable pub fs_remove : ℕ → Text → RamFs → Option (ℤ × RamFs)
fs_remove fuel path fs = elim (fs_find_by_path path fs) [
  | none ↦ some (negsuc 0, fs)
  | some node ↦ remove_found fuel node fs
]

-- `while (current)`: whether `node` is met on the way up; `none` is a way longer than the fuel.
unfoldable pub is_above : ℕ → ℕ → Option ℕ → RamFs → Option Bool
is_above zero node current fs = none
is_above (suc fuel) node none fs = some false
is_above (suc fuel) node (some a) fs =
    let further = is_above fuel node (fs.nodes a).parent fs in
    if a == node then some true else further

-- The loop over the descriptors.
unfoldable pub open_below : ℕ → ℕ → List FileDescriptor → RamFs → Option Bool
open_below fuel node [] fs = some false
open_below fuel node (d ∷ ds) fs =
    let rest = open_below fuel node ds fs in
    let here : Option Bool = elim d.node [
      | none ↦ some false
      | some a ↦ is_above fuel node (fs.nodes a).parent fs
    ] in
    if d.used then elim here [ none ↦ none | some true ↦ some true | some false ↦ rest ] else rest

unfoldable pub rmdir_found : ℕ → ℕ → RamFs → Option (ℤ × RamFs)
rmdir_found fuel node fs =
    if is_file (fs.nodes node).type || ltb 0 (length (fs.nodes node).children)
    then some (negsuc 0, fs)
    else elim (open_below fuel node fs.fd_table fs) [
      | none ↦ none
      | some true ↦ some (negsuc 0, fs)
      | some false ↦ unlink fuel node fs
    ]

unfoldable pub fs_rmdir : ℕ → Text → RamFs → Option (ℤ × RamFs)
fs_rmdir fuel path fs =
    if same path slash then some (negsuc 0, fs) else elim (fs_find_by_path path fs) [
      | none ↦ some (negsuc 0, fs)
      | some node ↦ rmdir_found fuel node fs
    ]
