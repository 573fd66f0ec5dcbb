-- ===== src/Vfs.antt =====
-- src/kernel/vfs.cpp and include/kernel/vfs.h: the mount table, the table of open files, and the
-- resolution of paths. Paths are strings that fit their buffers, since the source copies them
-- unchecked; pointers that callers pass are not null. A file system is a table of operations, which
-- may each be null, on a state of its own. A function that calls `strtok` in its loop runs on fuel:
-- `none` is a loop that did not end. Log lines are left out.
pub mod Paths
pub mod Resolution
pub mod Walk
pub mod Normal
pub mod Mounts
pub mod Files
pub mod Calls
mod Tests
use continuum_os.Common.{
  ℕ, zero, suc, ◌+◌, ◌-◌, Bool, true, false, ◌&&◌, ◌||◌, not, Option, none, some, List, [], ◌∷◌,
  ◌++◌, ltb, leb, ◌==◌, if◌then◌else◌, length, get_or, set, drop, replicate,
}
use continuum_os.Common.Int.{ℤ, pos, negsuc}
use continuum_os.Strings.{Text, same, strncmp, is_zero, strchr}
use Paths.{vfs_normalize_path, working_path, slash}

abbrev pub vfs_max_mounts : ℕ
vfs_max_mounts = 8

abbrev pub vfs_max_open_files : ℕ
vfs_max_open_files = 64

abbrev pub vfs_success : ℤ
vfs_success = pos 0

abbrev pub vfs_error : ℤ
vfs_error = negsuc 0

abbrev pub vfs_not_found : ℤ
vfs_not_found = negsuc 1

abbrev pub vfs_no_space : ℤ
vfs_no_space = negsuc 2

abbrev pub vfs_not_mounted : ℤ
vfs_not_mounted = negsuc 4

abbrev pub vfs_already_mounted : ℤ
vfs_already_mounted = negsuc 5

-- `vfs_file_t`; its mount is a slot of the mount table.
pub record File : Type 0 where
  pub fs_handle : ℕ
  pub mount : Option ℕ
  pub position : ℕ
  pub in_use : Bool

-- `vfs_dirent_t`.
pub record Dirent : Type 0 where
  pub name : Text
  pub type : ℕ
  pub size : ℕ

-- `vfs_mount_t`; `ops` is the address of a table of operations.
pub record MountPoint : Type 0 where
  pub mountpoint : Text
  pub fs_type : ℕ
  pub device_id : ℕ
  pub fs_data : Option ℕ
  pub ops : Option ℕ
  pub mounted : Bool

-- `vfs_operations_t`, `open` being a word of the language, on file systems whose state is a `W`.
pub record Operations (W : Type 0) : Type 0 where
  pub open_file : Option (MountPoint → Text → File → W → ℤ × File × W)
  pub read : Option (File → ℕ → W → ℤ × Text × File × W)
  pub write : Option (File → Text → W → ℤ × File × W)
  pub seek : Option (File → ℕ → W → ℤ × File × W)
  pub close : Option (File → W → File × W)
  pub unmount : Option (MountPoint → W → ℤ × W)
  pub readdir : Option (MountPoint → Text → ℕ → W → ℤ × List Dirent × W)
  pub mkdir : Option (MountPoint → Text → W → ℤ × W)
  pub rmdir : Option (MountPoint → Text → W → ℤ × W)
  pub create : Option (MountPoint → Text → W → ℤ × W)
  pub remove : Option (MountPoint → Text → W → ℤ × W)
  pub stat : Option (MountPoint → Text → W → ℤ × Option Dirent × W)

pub record Vfs (W : Type 0) : Type 0 where
  pub mounts : List MountPoint
  pub open_files : List File
  pub current_working_directory : Text
  pub vfs_initialized : Bool
  pub filesystems : W

abbrev pub empty_mount : MountPoint
empty_mount = record {
  mountpoint = [];
  fs_type = 0;
  device_id = 0;
  fs_data = none;
  ops = none;
  mounted = false;
}

abbrev pub empty_file : File
empty_file = record { fs_handle = 0; mount = none; position = 0; in_use = false }

-- The first slot, from `i` on, that passes the test.
unfoldable pub first_slot : {A : Type 0} → (A → Bool) → List A → ℕ → Option ℕ
first_slot test [] i = none
first_slot test (x ∷ xs) i =
    let rest = first_slot test xs (i + 1) in if test x then some i else rest

-- `mounts[i].mounted && strcmp(mounts[i].mountpoint, mountpoint) == 0`.
abbrev pub is_at : Text → MountPoint → Bool
is_at mountpoint m = m.mounted && same m.mountpoint mountpoint

-- The character at `i`, or the NUL.
abbrev char_at : Text → ℕ → ℕ
char_at s i = get_or s i 0

-- The mount point is the path, or ends where the path has a slash.
abbrev pub covers : Text → MountPoint → Bool
covers path m =
    m.mounted
    && is_zero (strncmp path m.mountpoint (length m.mountpoint))
    && (char_at path (length m.mountpoint) == 0
        || char_at path (length m.mountpoint) == 47
        || same m.mountpoint slash)

-- `best_mount`, with `best_match_len`, over the slots from `i` on.
pub best_mount : Text → List MountPoint → ℕ → Option ℕ → ℕ → Option ℕ
best_mount path [] i best len = best
best_mount path (m ∷ ms) i best len =
    let better = covers path m && ltb len (length m.mountpoint) in
    best_mount path ms (i + 1) (if better then some i else best)
      (if better then length m.mountpoint else len)

-- Where a path leads: an error, or a mount and the path in it.
pub data Resolved : Type 0 where
  failed : ℤ → Resolved
  found : ℕ → Text → Resolved

-- `relative_path`, for an absolute path in a mount at `mountpoint`.
pub relative : Text → Text → Text
relative mountpoint path =
    if same mountpoint slash
    then path
    else (if char_at path (length mountpoint) == 47 then drop (length mountpoint) path else slash)

pub count_mounted : List MountPoint → ℕ
count_mounted [] = 0
count_mounted (m ∷ ms) = (if m.mounted then 1 else 0) + count_mounted ms

abbrev pub same_mount : Option ℕ → Option ℕ → Bool
same_mount none none = true
same_mount (some i) (some j) = i == j
same_mount _ _ = false

module _ {W : Type 0} where
  pub vfs_init : Vfs W → Vfs W
  vfs_init v = record v {
    mounts = replicate vfs_max_mounts empty_mount;
    open_files = replicate vfs_max_open_files empty_file;
    current_working_directory = slash;
    vfs_initialized = true;
  }

  pub place : Text → ℕ → ℕ → ℕ → Option ℕ → Vfs W → Option ℕ → ℤ × Vfs W
  place mountpoint fs_type device_id ops fs_data v none = (vfs_no_space, v)
  place mountpoint fs_type device_id ops fs_data v (some i) = (
    vfs_success,
    record v {
      mounts = set v.mounts i (record {
        mountpoint = mountpoint;
        fs_type = fs_type;
        device_id = device_id;
        fs_data = fs_data;
        ops = some ops;
        mounted = true;
      });
    },
  )

  pub vfs_mount : Text → ℕ → ℕ → ℕ → Option ℕ → Vfs W → ℤ × Vfs W
  unfolding place
  vfs_mount mountpoint fs_type device_id ops fs_data v =
      if not v.vfs_initialized || not (fs_type == 1 || fs_type == 2)
      then (vfs_error, v)
      else elim (first_slot (is_at mountpoint) v.mounts 0) [
        | some i ↦ (vfs_already_mounted, v)
        | none ↦
            place mountpoint fs_type device_id ops fs_data v
              (first_slot (λ m. not m.mounted) v.mounts 0)
      ]

  pub vfs_find_mount : Text → Vfs W → Option ℕ
  vfs_find_mount path v = if v.vfs_initialized then best_mount path v.mounts 0 none 0 else none

  resolve_in : Vfs W → Text → Option ℕ → Resolved
  resolve_in v path none = failed vfs_not_mounted
  resolve_in v path (some i) = found i (relative (get_or v.mounts i empty_mount).mountpoint path)

  -- The path is absolute when it gets here, so the loop's fuel is counted on it.
  pub vfs_resolve_path : ℕ → Text → Vfs W → Option Resolved
  unfolding resolve_in
  vfs_resolve_path fuel path v = elim (vfs_normalize_path fuel v.current_working_directory path) [
    | none ↦ none
    | some absolute_path ↦ some (resolve_in v absolute_path (vfs_find_mount absolute_path v))
  ]

  pub vfs_list_mounts : Vfs W → ℕ
  vfs_list_mounts v = if v.vfs_initialized then count_mounted v.mounts else 0

  chdir_to : Vfs W → Option Text → Option (ℤ × Vfs W)
  chdir_to v none = none
  chdir_to v (some path) = some (vfs_success, record v { current_working_directory = path })

  -- The path is resolved once for the mount and, made absolute, a second time for the directory.
  pub vfs_chdir : ℕ → Text → Vfs W → Option (ℤ × Vfs W)
  unfolding chdir_to
  vfs_chdir fuel path v =
      if not v.vfs_initialized then some (vfs_error, v) else elim (vfs_resolve_path fuel path v) [
        | none ↦ none
        | some (failed e) ↦ some (vfs_not_found, v)
        | some (found i p) ↦ chdir_to v (
            vfs_normalize_path fuel v.current_working_directory
              (working_path v.current_working_directory path))
      ]

-- The operations, by their address.
module _ {W : Type 0} (ops_at : ℕ → Operations W) where
  -- An operation of a mount, or none where one of the pointers is null.
  abbrev pub operation : {F : Type 0} → (Operations W → Option F) → MountPoint → Option F
  operation select m = elim m.ops [ none ↦ none | some ops ↦ select (ops_at ops) ]

  -- The same through a file that is in use.
  abbrev pub file_operation : {F : Type 0} → (Operations W → Option F) → File → Vfs W → Option F
  file_operation select file v =
      if file.in_use
      then elim file.mount [
        | none ↦ none
        | some i ↦ operation select (get_or v.mounts i empty_mount)
      ]
      else none

  -- The slot of the handle that a file was copied from.
  unfoldable pub handle_of : File → List File → Option ℕ
  handle_of file files =
      first_slot (λ h. h.in_use && h.fs_handle == file.fs_handle && same_mount h.mount file.mount)
        files 0

  abbrev pub clear_at : Option ℕ → List File → List File
  clear_at none files = files
  clear_at (some k) files = set files k empty_file

  -- The file system's part of closing a file.
  unfoldable pub close_in : File → Vfs W → W
  close_in file v = elim (file_operation Operations.close file v) [
    | none ↦ v.filesystems
    | some close ↦ (close file v.filesystems).1
  ]

  -- On the caller's copy of a handle.
  pub vfs_close : File → Vfs W → File × Vfs W
  vfs_close file v =
      if file.in_use
      then (
        empty_file,
        record v {
          open_files = clear_at (handle_of file v.open_files) v.open_files;
          filesystems = close_in file v;
        },
      )
      else (file, v)

  -- `vfs_close(&open_files[j])`.
  unfoldable pub close_slot : ℕ → Vfs W → Vfs W
  close_slot j v =
      let file = get_or v.open_files j empty_file in
      if file.in_use
      then record v {
        open_files = set (clear_at (handle_of file v.open_files) v.open_files) j empty_file;
        filesystems = close_in file v;
      }
      else v
