-- ===== src/Vfs/Tests.antt =====
-- Runs and instances of the theorems on the virtual file system.
use continuum_os.Common.{
  ℕ, suc, ◌++◌, ◌≡◌, refl, [], ◌∷◌, none, some, true, false, arith, get_or, replicate,
}
use continuum_os.Strings.{Text, same, strcmp, difference}
use continuum_os.Strings.Tokens.{lacks}
use continuum_os.Vfs.Paths.{dot, slash, join, rebuild, vfs_normalize_path}
use continuum_os.Vfs.Resolution.{no_names, short}
use continuum_os.Vfs.Walk.{IsComponent, no_components, components}
use continuum_os.Vfs.Normal.{vfs_normalize_path_normal, vfs_normalize_path-dot}
use continuum_os.Vfs.{
  Vfs, MountPoint, Operations, empty_mount, empty_file, first_slot, vfs_find_mount, vfs_success,
}
use continuum_os.Vfs.Mounts.{Best, vfs_find_mount-Best}
use continuum_os.Vfs.Calls.{belongs_to, vfs_unmount}
use continuum_os.Vfs.Files.{vfs_unmount_closes}

-- `mnt`
abbrev mnt : Text
mnt = 109 ∷ 110 ∷ 116 ∷ []

mnt-IsComponent : IsComponent mnt
unfolding same strcmp difference lacks
mnt-IsComponent = record { nonempty = λ e. cc; clean = refl; not_dot = refl; not_dot_dot = refl }

abbrev root_mount : MountPoint
root_mount = record {
  mountpoint = slash;
  fs_type = 1;
  device_id = 0;
  fs_data = none;
  ops = some 0;
  mounted = true;
}

abbrev one_mount : Vfs ℕ
one_mount = record {
  mounts = root_mount ∷ replicate 7 empty_mount;
  open_files =
      record { fs_handle = 4; mount = some 0; position = 0; in_use = true }
      ∷ replicate 63 empty_file;
  current_working_directory = slash;
  vfs_initialized = true;
  filesystems = 0;
}

abbrev ops_at : ℕ → Operations ℕ
ops_at a = record {
  open_file = none;
  read = none;
  write = none;
  seek = none;
  close = some (λ file w. (file, suc w));
  unmount = none;
  readdir = none;
  mkdir = none;
  rmdir = none;
  create = none;
  remove = none;
  stat = none;
}

vfs_normalize_path_normal_example :
    vfs_normalize_path 5 slash (rebuild (mnt ∷ mnt ∷ [])) ≡ some (rebuild (mnt ∷ mnt ∷ []))
unfolding rebuild join
vfs_normalize_path_normal_example =
    vfs_normalize_path_normal 5 slash (mnt ∷ mnt ∷ [])
      (components mnt-IsComponent (components mnt-IsComponent no_components))
      (short (omega arith) (short (omega arith) no_names)) (omega arith) (omega arith) (omega arith)

vfs_normalize_path-dot_example : vfs_normalize_path 100 slash (join (mnt ∷ []) ++ 47 ∷ dot) ≡ none
vfs_normalize_path-dot_example =
    vfs_normalize_path-dot 100 slash (mnt ∷ []) (components mnt-IsComponent no_components)
      (omega arith)

vfs_find_mount-Best_example :
    Best (47 ∷ mnt) one_mount.mounts 0 none 0 (vfs_find_mount (47 ∷ mnt) one_mount)
vfs_find_mount-Best_example = vfs_find_mount-Best (47 ∷ mnt) one_mount refl

vfs_unmount_closes_example :
    let r = vfs_unmount ops_at slash one_mount in
    (r.0 ≡ vfs_success)
    × (belongs_to ops_at 0 (get_or r.1.open_files 0 empty_file) ≡ false)
    × ((get_or r.1.mounts 0 empty_mount).mounted ≡ false)
unfolding first_slot same strcmp difference
vfs_unmount_closes_example = vfs_unmount_closes ops_at slash one_mount 0 0 refl refl (omega arith)
