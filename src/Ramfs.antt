-- ===== src/Ramfs.antt =====
-- src/kernel/ramfs.cpp and include/kernel/ramfs.h: the file system in memory, a tree of nodes at
-- addresses, and the table of descriptors. Every node that is pointed to is in the store `nodes`, and
-- the file system has its root. What `kmalloc` answers is an argument: an address for a node, or the
-- bytes that a new block happens to hold; the array of a directory's children is taken to be there.
-- Log lines are left out, and so is what becomes of memory once it is freed.
pub mod Paths
pub mod Data
pub mod Lookup
pub mod Links
pub mod Create
pub mod Removal
pub mod Adapter
pub mod Files
mod Tests
use continuum_os.Common.{
  ℕ, zero, suc, ◌+◌, ◌-◌, ◌%◌, ◌^◌, Bool, true, false, ◌&&◌, ◌||◌, not, Option, none, some, List,
  [], ◌∷◌, ◌++◌, ltb, leb, ◌==◌, if◌then◌else◌, length, get_or, set, take, drop, replicate,
}
use continuum_os.Common.Int.{ℤ, pos, negsuc}
use continuum_os.Strings.{Text, same}
use continuum_os.Heap.{align16}

abbrev pub max_open_files : ℕ
max_open_files = 64

abbrev pub max_children : ℕ
max_children = 32

-- `FSNodeType`.
pub data NodeType : Type 0 where
  fs_file fs_directory : NodeType

-- A block that holds the data of a file: its size, and its bytes.
pub record Buffer : Type 0 where
  pub capacity : ℕ
  pub bytes : ℕ → ℕ

-- `FSNode`; `child_count` is the length of the children.
pub record FsNode : Type 0 where
  pub name : Text
  pub type : NodeType
  pub size : ℕ
  pub data_block : Option Buffer
  pub parent : Option ℕ
  pub children : List ℕ

pub record FileDescriptor : Type 0 where
  pub node : Option ℕ
  pub offset : ℕ
  pub used : Bool

pub record RamFs : Type 0 where
  pub nodes : ℕ → FsNode
  pub root : ℕ
  pub fd_table : List FileDescriptor

abbrev pub is_file : NodeType → Bool
is_file fs_file = true
is_file fs_directory = false

abbrev pub is_directory : NodeType → Bool
is_directory fs_file = false
is_directory fs_directory = true

-- A write through a node pointer.
abbrev pub put : ℕ → FsNode → RamFs → RamFs
put at n fs = record fs { nodes = λ a. if a == at then n else fs.nodes a }

abbrev pub same_node : Option ℕ → ℕ → Bool
same_node none a = false
same_node (some b) a = b == a

-- The name keeps 63 of its characters.
unfoldable pub fs_create_node : Text → NodeType → Option ℕ → RamFs → Option ℕ × RamFs
fs_create_node name type none fs = (none, fs)
fs_create_node name type (some at) fs = (
  some at,
  put at
      (record {
        name = take 63 name;
        type = type;
        size = 0;
        data_block = none;
        parent = none;
        children = [];
      })
      fs,
)

-- `fs_init`, at the address of the root.
unfoldable pub fs_init : ℕ → RamFs → RamFs
fs_init at fs = record (fs_create_node (47 ∷ []) fs_directory (some at) fs).1 { root = at }

-- `fs_add_child` to a node; `none` is a write through a null pointer.
unfoldable pub fs_add_child : ℕ → Option ℕ → RamFs → Option RamFs
fs_add_child parent child fs =
    if is_file (fs.nodes parent).type || leb max_children (length (fs.nodes parent).children)
    then some fs
    else elim child [
      | none ↦ none
      | some c ↦
          let fs' =
            put parent
              (record (fs.nodes parent) { children = (fs.nodes parent).children ++ c ∷ [] }) fs in
          some (put c (record (fs'.nodes c) { parent = some parent }) fs')
    ]

-- The first child with the name.
unfoldable pub child_named : Text → List ℕ → RamFs → Option ℕ
child_named name [] fs = none
child_named name (c ∷ cs) fs =
    let later = child_named name cs fs in if same (fs.nodes c).name name then some c else later

unfoldable pub fs_find_child : ℕ → Text → RamFs → Option ℕ
fs_find_child parent name fs =
    if is_directory (fs.nodes parent).type
    then child_named name (fs.nodes parent).children fs
    else none

-- Where an address stands in a list, and the list without what stands at a place.
unfoldable pub index_of : ℕ → List ℕ → Option ℕ
index_of a [] = none
index_of a (b ∷ bs) = elim (index_of a bs) [
  | none ↦ if b == a then some 0 else none
  | some i ↦ some (if b == a then 0 else suc i)
]

unfoldable pub remove_at : ℕ → List ℕ → List ℕ
remove_at i [] = []
remove_at zero (a ∷ rest) = rest
remove_at (suc i) (a ∷ rest) = a ∷ remove_at i rest

abbrev pub shift_left : ℕ → ℕ → RamFs → RamFs
shift_left parent i fs =
    put parent (record (fs.nodes parent) { children = remove_at i (fs.nodes parent).children }) fs

-- `fs_remove_child`, whose inner loop over the child's own children goes on to the next index though
-- the list has moved up. `none` is a recursion that the fuel does not reach the end of.
unfoldable mutual
  pub fs_remove_child : ℕ → ℕ → ℕ → RamFs → Option RamFs
  fs_remove_child zero parent child fs = none
  fs_remove_child (suc fuel) parent child fs =
      let cleared = remove_children fuel child 0 fs in
      if is_file (fs.nodes parent).type
      then some fs
      else elim (index_of child (fs.nodes parent).children) [
        | none ↦ some fs
        | some i ↦
            if is_directory (fs.nodes child).type
            then elim cleared [ none ↦ none | some fs' ↦ some (shift_left parent i fs') ]
            else some (shift_left parent i fs)
      ]

  pub remove_children : ℕ → ℕ → ℕ → RamFs → Option RamFs
  remove_children zero child j fs = none
  remove_children (suc fuel) child j fs =
      if ltb j (length (fs.nodes child).children)
      then elim (fs_remove_child fuel child (get_or (fs.nodes child).children j 0) fs) [
        | none ↦ none
        | some fs' ↦ remove_children fuel child (j + 1) fs'
      ]
      else some fs

-- The bytes from `offset` on.
unfoldable pub slice : (ℕ → ℕ) → ℕ → ℕ → List ℕ
slice bytes offset zero = []
slice bytes offset (suc n) = bytes offset ∷ slice bytes (offset + 1) n

-- A file without a block has size 0, and nothing of it is read.
abbrev pub content : FsNode → ℕ → ℕ
content n = elim n.data_block [ none ↦ λ i. 0 | some b ↦ b.bytes ]

-- The answer, and the bytes in the caller's buffer.
unfoldable pub fs_read : ℕ → ℕ → ℕ → RamFs → ℤ × List ℕ
fs_read file offset size fs =
    let n = fs.nodes file in
    let read_size = if ltb n.size ((offset + size) % 2 ^ 32) then n.size - offset else size in
    if is_directory n.type || ltb n.size offset
    then (negsuc 0, [])
    else (pos read_size, slice (content n) offset read_size)

-- `krealloc` to `n` bytes: a block that is large enough stays, and a new one takes over the bytes of
-- the old block. `fresh` is what the new block holds, or none where there is no memory.
unfoldable pub regrow : Option Buffer → ℕ → Option (ℕ → ℕ) → Option Buffer
regrow none n none = none
regrow none n (some fresh) = some (record { capacity = align16 n; bytes = fresh })
regrow (some b) n fresh = if leb n b.capacity then some b else elim fresh [
  | none ↦ none
  | some f ↦
      some
        (record { capacity = align16 n; bytes = λ i. if ltb i b.capacity then b.bytes i else f i })
]

-- `memcpy` of a buffer to a block.
unfoldable pub overwrite : ℕ → List ℕ → Option Buffer → Option Buffer
overwrite offset buffer none = none
overwrite offset buffer (some b) = some (record b {
  bytes = λ i.
      if leb offset i && ltb i (offset + length buffer)
      then get_or buffer (i - offset) 0
      else b.bytes i;
})

-- `file->size` grown to hold the write, with its block.
unfoldable pub grow_file : ℕ → Option (ℕ → ℕ) → FsNode → Option FsNode
grow_file end fresh n =
    if ltb n.size end
    then elim (regrow n.data_block end fresh) [
      | none ↦ none
      | some b ↦ some (record n { data_block = some b; size = end })
    ]
    else some n

unfoldable pub write_node : ℕ → List ℕ → FsNode → FsNode
write_node offset buffer n = record n { data_block = overwrite offset buffer n.data_block }

unfoldable pub fs_write : ℕ → ℕ → List ℕ → Option (ℕ → ℕ) → RamFs → ℤ × RamFs
fs_write file offset buffer fresh fs =
    if is_directory (fs.nodes file).type
    then (negsuc 0, fs)
    else elim (grow_file ((offset + length buffer) % 2 ^ 32) fresh (fs.nodes file)) [
      | none ↦ (negsuc 0, fs)
      | some n ↦ (pos (length buffer), put file (write_node offset buffer n) fs)
    ]

-- The first descriptor that is free, from `i` on.
unfoldable pub free_descriptor : List FileDescriptor → ℕ → Option ℕ
free_descriptor [] i = none
free_descriptor (d ∷ ds) i =
    let later = free_descriptor ds (i + 1) in if d.used then later else some i

unfoldable pub fs_open : Option ℕ → RamFs → ℤ × RamFs
fs_open node fs = elim (free_descriptor fs.fd_table 0) [
  | none ↦ (negsuc 0, fs)
  | some i ↦ (
    pos i,
    record fs { fd_table = set fs.fd_table i (record { node = node; offset = 0; used = true }) },
  )
]

abbrev no_descriptor : FileDescriptor
no_descriptor = record { node = none; offset = 0; used = false }

unfoldable pub fs_close : ℤ → RamFs → RamFs
fs_close (negsuc n) fs = fs
fs_close (pos i) fs = record fs {
  fd_table = set fs.fd_table i (record (get_or fs.fd_table i no_descriptor) { used = false });
}
