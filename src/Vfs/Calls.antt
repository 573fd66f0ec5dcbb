-- ===== src/Vfs/Calls.antt =====
-- The calls of src/kernel/vfs.cpp that go through a file system's operations. The operations may
-- change the state of the file systems and the file that they are given.
use continuum_os.Common.{
  ℕ, zero, suc, Bool, true, false, ◌&&◌, ◌||◌, not, Option, none, some, List, [], ◌∷◌, ◌++◌, ltb,
  ◌==◌, if◌then◌else◌, length, get_or, set, take, drop,
}
use continuum_os.Common.Int.{ℤ, pos, negsuc}
use continuum_os.Strings.{Text, same, strncmp, is_zero, strchr}
use continuum_os.Vfs.Paths.{vfs_normalize_path, slash}
use continuum_os.Vfs.{
  Vfs, File, Dirent, MountPoint, Operations, Resolved, failed, found, vfs_error, vfs_not_found,
  vfs_no_space, vfs_success, empty_mount, empty_file, first_slot, is_at, vfs_resolve_path,
  operation, file_operation, close_slot,
}

module _ {W : Type 0} (ops_at : ℕ → Operations W) where
  -- A new handle stays as the file system left it where that answered 0, and is given up otherwise.
  opened : ℕ → File → Vfs W → ℤ × File × W → ℤ × File × Vfs W
  opened k file v (result, handle, w) =
      if is_zero result
      then (result, handle, record v { open_files = set v.open_files k handle; filesystems = w })
      else (
        result,
        file,
        record v {
          open_files = set v.open_files k (record handle { in_use = false; mount = none });
          filesystems = w;
        },
      )

  open_with :
      ℕ
      → Text
      → File
      → Vfs W
      → (MountPoint → Text → File → W → ℤ × File × W)
      → Option ℕ
      → ℤ × File × Vfs W
  unfolding opened
  open_with i path file v call none = (vfs_no_space, file, v)
  open_with i path file v call (some k) = opened k file v (
      call (get_or v.mounts i empty_mount) path
        (record (get_or v.open_files k empty_file) { mount = some i }) v.filesystems)

  open_resolved : File → Vfs W → Resolved → ℤ × File × Vfs W
  unfolding open_with
  open_resolved file v (failed e) = (vfs_not_found, file, v)
  open_resolved file v (found i path) =
      elim (operation ops_at Operations.open_file (get_or v.mounts i empty_mount)) [
        | none ↦ (vfs_error, file, v)
        | some call ↦ open_with i path file v call (first_slot (λ f. not f.in_use) v.open_files 0)
      ]

  -- The answer comes with the caller's file.
  pub vfs_open : ℕ → Text → File → Vfs W → Option (ℤ × File × Vfs W)
  unfolding open_resolved
  vfs_open fuel path file v =
      if v.vfs_initialized
      then elim (vfs_resolve_path fuel path v) [
        | none ↦ none
        | some r ↦ some (open_resolved file v r)
      ]
      else some (vfs_error, file, v)

  abbrev pub with_state : Vfs W → ℤ × File × W → ℤ × File × Vfs W
  with_state v (result, file, w) = (result, file, record v { filesystems = w })

  abbrev pub read_state : Vfs W → ℤ × Text × File × W → ℤ × Text × File × Vfs W
  read_state v (result, bytes, file, w) = (result, bytes, file, record v { filesystems = w })

  -- The bytes read come with the answer.
  unfoldable pub vfs_read : File → ℕ → Vfs W → ℤ × Text × File × Vfs W
  vfs_read file size v = elim (file_operation ops_at Operations.read file v) [
    | none ↦ (vfs_error, [], file, v)
    | some read ↦ read_state v (read file size v.filesystems)
  ]

  unfoldable pub vfs_write : File → Text → Vfs W → ℤ × File × Vfs W
  vfs_write file buffer v = elim (file_operation ops_at Operations.write file v) [
    | none ↦ (vfs_error, file, v)
    | some write ↦ with_state v (write file buffer v.filesystems)
  ]

  unfoldable pub vfs_seek : File → ℕ → Vfs W → ℤ × File × Vfs W
  vfs_seek file position v = elim (file_operation ops_at Operations.seek file v) [
    | none ↦ (vfs_error, file, v)
    | some seek ↦ with_state v (seek file position v.filesystems)
  ]

  abbrev pub belongs_to : ℕ → File → Bool
  belongs_to i f = f.in_use && elim f.mount [ none ↦ false | some m ↦ m == i ]

  -- The loop over the open files, from slot `j` on for `n` slots.
  unfoldable pub close_all : ℕ → ℕ → ℕ → Vfs W → Vfs W
  close_all i j zero v = v
  close_all i j (suc n) v =
      close_all i (suc j) n
        (if belongs_to i (get_or v.open_files j empty_file) then close_slot ops_at j v else v)

  -- The slot given up, with its mount point, type and device left as they were.
  abbrev pub release : ℕ → Vfs W → Vfs W
  release i v = record v {
    mounts =
        set v.mounts i
          (record (get_or v.mounts i empty_mount) { ops = none; fs_data = none; mounted = false });
  }

  -- The file system's own unmounting, whose answer is only logged.
  unfoldable pub unmount_in : ℕ → Vfs W → Vfs W
  unmount_in i v = elim (operation ops_at Operations.unmount (get_or v.mounts i empty_mount)) [
    | none ↦ v
    | some unmount ↦ record v {
      filesystems = (unmount (get_or v.mounts i empty_mount) v.filesystems).1;
    }
  ]

  unfoldable pub vfs_unmount : Text → Vfs W → ℤ × Vfs W
  unfolding unmount_in
  vfs_unmount mountpoint v =
      if v.vfs_initialized
      then elim (first_slot (is_at mountpoint) v.mounts 0) [
        | none ↦ (vfs_not_found, v)
        | some i ↦ (vfs_success, release i (unmount_in i (close_all i 0 64 v)))
      ]
      else (vfs_error, v)

  in_state : Vfs W → ℤ × W → ℤ × Vfs W
  in_state v (result, w) = (result, record v { filesystems = w })

  path_resolved :
      (Operations W → Option (MountPoint → Text → W → ℤ × W)) → Vfs W → Resolved → ℤ × Vfs W
  unfolding in_state
  path_resolved select v (failed e) = (vfs_not_found, v)
  path_resolved select v (found i path) =
      elim (operation ops_at select (get_or v.mounts i empty_mount)) [
        | none ↦ (vfs_error, v)
        | some call ↦ in_state v (call (get_or v.mounts i empty_mount) path v.filesystems)
      ]

  -- What the four calls on a path have in common.
  pub path_call :
      (Operations W → Option (MountPoint → Text → W → ℤ × W))
      → ℕ
      → Text
      → Vfs W
      → Option (ℤ × Vfs W)
  unfolding path_resolved
  path_call select fuel path v =
      if v.vfs_initialized
      then elim (vfs_resolve_path fuel path v) [
        | none ↦ none
        | some r ↦ some (path_resolved select v r)
      ]
      else some (vfs_error, v)

  pub vfs_mkdir : ℕ → Text → Vfs W → Option (ℤ × Vfs W)
  vfs_mkdir = path_call Operations.mkdir

  pub vfs_rmdir : ℕ → Text → Vfs W → Option (ℤ × Vfs W)
  vfs_rmdir = path_call Operations.rmdir

  pub vfs_create : ℕ → Text → Vfs W → Option (ℤ × Vfs W)
  vfs_create = path_call Operations.create

  pub vfs_remove : ℕ → Text → Vfs W → Option (ℤ × Vfs W)
  vfs_remove = path_call Operations.remove

  stat_state : Vfs W → ℤ × Option Dirent × W → ℤ × Option Dirent × Vfs W
  stat_state v (result, info, w) = (result, info, record v { filesystems = w })

  stat_resolved : Vfs W → Resolved → ℤ × Option Dirent × Vfs W
  unfolding stat_state
  stat_resolved v (failed e) = (vfs_not_found, none, v)
  stat_resolved v (found i path) =
      elim (operation ops_at Operations.stat (get_or v.mounts i empty_mount)) [
        | none ↦ (vfs_error, none, v)
        | some stat ↦ stat_state v (stat (get_or v.mounts i empty_mount) path v.filesystems)
      ]

  pub vfs_stat : ℕ → Text → Vfs W → Option (ℤ × Option Dirent × Vfs W)
  unfolding stat_resolved
  vfs_stat fuel path v =
      if v.vfs_initialized
      then elim (vfs_resolve_path fuel path v) [ none ↦ none | some r ↦ some (stat_resolved v r) ]
      else some (vfs_error, none, v)

-- The entries that mount points add to a listing of the directory at `path`, which ends in a slash.
pub ends_in_slash : Text → Bool
ends_in_slash [] = false
ends_in_slash (c ∷ []) = c == 47
ends_in_slash (c ∷ d ∷ cs) = ends_in_slash (d ∷ cs)

abbrev listed_path : Text → Text
listed_path path = if ltb 0 (length path) && not (ends_in_slash path) then path ++ slash else path

pub has_entry : Text → List Dirent → Bool
has_entry name [] = false
has_entry name (e ∷ es) = if same e.name name then true else has_entry name es

-- The name of the entry that a mount adds, where it adds one.
pub child_name : Text → MountPoint → Option Text
child_name path m =
    if m.mounted
      && not (same m.mountpoint path || (length path == 1 && same m.mountpoint slash))
      && is_zero (strncmp m.mountpoint path (length path))
    then elim (strchr (drop (length path) m.mountpoint) 47) [
      | none ↦ some (drop (length path) m.mountpoint)
      | some r ↦ none
    ]
    else none

abbrev with_entry : Option Text → List Dirent → List Dirent
with_entry none entries = entries
with_entry (some name) entries =
    if has_entry name entries
    then entries
    else entries ++ record { name = take 63 name; type = 2; size = 0 } ∷ []

pub add_mounts : Text → List MountPoint → ℕ → List Dirent → List Dirent
add_mounts path [] max_entries entries = entries
add_mounts path (m ∷ ms) max_entries entries =
    if ltb (length entries) max_entries
    then add_mounts path ms max_entries (with_entry (child_name path m) entries)
    else entries

module _ {W : Type 0} (ops_at : ℕ → Operations W) where
  -- The answer is the first `count` entries, with their number, or an error.
  listed : Text → ℕ → Vfs W → ℤ × List Dirent × W → ℤ × List Dirent × Vfs W
  listed path max_entries v (negsuc e, entries, w) =
      (negsuc e, entries, record v { filesystems = w })
  listed path max_entries v (pos count, entries, w) =
      let all = add_mounts (listed_path path) v.mounts max_entries (take count entries) in
      (pos (length all), all, record v { filesystems = w })

  readdir_resolved : ℕ → Text → ℕ → Vfs W → Resolved → Option (ℤ × List Dirent × Vfs W)
  unfolding listed
  readdir_resolved fuel path max_entries v (failed e) = some (vfs_not_found, [], v)
  readdir_resolved fuel path max_entries v (found i relative_path) =
      elim (operation ops_at Operations.readdir (get_or v.mounts i empty_mount)) [
        | none ↦ some (vfs_error, [], v)
        | some readdir ↦ elim (vfs_normalize_path fuel v.current_working_directory path) [
          | none ↦ none
          | some normalized ↦ some (
              listed normalized max_entries v
                (readdir (get_or v.mounts i empty_mount) relative_path max_entries v.filesystems))
        ]
      ]

  pub vfs_readdir : ℕ → Text → ℕ → Vfs W → Option (ℤ × List Dirent × Vfs W)
  unfolding readdir_resolved
  vfs_readdir fuel path max_entries v =
      if v.vfs_initialized
      then elim (vfs_resolve_path fuel path v) [
        | none ↦ none
        | some r ↦ readdir_resolved fuel path max_entries v r
      ]
      else some (vfs_error, [], v)
