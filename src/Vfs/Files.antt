-- ===== src/Vfs/Files.antt =====
-- The open files of src/kernel/vfs.cpp, when a mount goes away.
use native.Mathlib.Decide.{ℕ_discrete}
use continuum_os.Common.{
  ℕ, zero, suc, ◌+◌, ◌<◌, ◌≡◌, refl, ap, ◌∙◌, List, [], ◌∷◌, Option, none, some, Bool, true, false,
  ◌&&◌, arith, get_or, set, if◌then◌else◌,
}
use continuum_os.Common.Int.{ℤ}
use continuum_os.Strings.{Text}
use continuum_os.Vfs.{
  Vfs, File, Operations, empty_file, empty_mount, first_slot, is_at, handle_of, clear_at,
  close_slot, close_in, vfs_success, vfs_error, vfs_not_found, operation, MountPoint,
}
use continuum_os.Vfs.Calls.{belongs_to, close_all, release, unmount_in, vfs_unmount}

module _ {W : Type 0} (ops_at : ℕ → Operations W) (i : ℕ) where
  clear_other :
      (files : List File) (j k : ℕ)
      → belongs_to ops_at i (get_or files k empty_file) ≡ false
      → belongs_to ops_at i (get_or (set files j empty_file) k empty_file) ≡ false
  clear_other [] j k h = h
  clear_other (f ∷ fs) zero zero h = refl
  clear_other (f ∷ fs) zero (suc k) h = h
  clear_other (f ∷ fs) (suc j) zero h = h
  clear_other (f ∷ fs) (suc j) (suc k) h = clear_other fs j k h

  clear_self :
      (files : List File) (j : ℕ)
      → belongs_to ops_at i (get_or (set files j empty_file) j empty_file) ≡ false
  clear_self [] j = refl
  clear_self (f ∷ fs) zero = refl
  clear_self (f ∷ fs) (suc j) = clear_self fs j

  -- The file in a slot is not one of the mount's.
  abbrev Closed : ℕ → Vfs W → Type 0
  Closed k v = belongs_to ops_at i (get_or v.open_files k empty_file) ≡ false

  clear_at_other :
      (files : List File) (h : Option ℕ) (k : ℕ)
      → belongs_to ops_at i (get_or files k empty_file) ≡ false
      → belongs_to ops_at i (get_or (clear_at ops_at h files) k empty_file) ≡ false
  clear_at_other files none k c = c
  clear_at_other files (some j) k c = clear_other files j k c

  -- What closing a slot in use leaves.
  abbrev shut : ℕ → Vfs W → Vfs W
  shut j v = record v {
    open_files =
        set
          (clear_at ops_at (handle_of ops_at (get_or v.open_files j empty_file) v.open_files)
            v.open_files)
          j empty_file;
    filesystems = close_in ops_at (get_or v.open_files j empty_file) v;
  }

  close_slot-keeps : (j k : ℕ) (v : Vfs W) → Closed k v → Closed k (close_slot ops_at j v)
  unfolding close_slot
  close_slot-keeps j k v c = either (get_or v.open_files j empty_file).in_use
    where
      slot : Option ℕ
      slot = handle_of ops_at (get_or v.open_files j empty_file) v.open_files

      either : (b : Bool) → Closed k (if b then shut j v else v)
      either true =
          clear_other (clear_at ops_at slot v.open_files) j k (clear_at_other v.open_files slot k c)
      either false = c

  close_slot-closes :
      (j : ℕ) (v : Vfs W)
      → (get_or v.open_files j empty_file).in_use ≡ true
      → Closed j (close_slot ops_at j v)
  unfolding close_slot
  close_slot-closes j v u = either (get_or v.open_files j empty_file).in_use u
    where
      slot : Option ℕ
      slot = handle_of ops_at (get_or v.open_files j empty_file) v.open_files

      either : (b : Bool) → b ≡ true → Closed j (if b then shut j v else v)
      either true e = clear_self (clear_at ops_at slot v.open_files) j
      either false e = absurd (ground arith)

  -- One turn of the loop over the open files.
  abbrev turn : ℕ → Vfs W → Vfs W
  turn j v =
      if belongs_to ops_at i (get_or v.open_files j empty_file) then close_slot ops_at j v else v

  turn-closes : (j : ℕ) (v : Vfs W) → Closed j (turn j v)
  turn-closes j v = either (belongs_to ops_at i (get_or v.open_files j empty_file)) refl
    where
      used : (b c : Bool) → (b && c) ≡ true → b ≡ true
      used true c h = refl
      used false c h = absurd (ground arith)

      either :
          (b : Bool)
          → belongs_to ops_at i (get_or v.open_files j empty_file) ≡ b
          → Closed j (if b then close_slot ops_at j v else v)
      either true e = close_slot-closes j v (used (get_or v.open_files j empty_file).in_use _ e)
      either false e = e

  turn-keeps : (j k : ℕ) (v : Vfs W) → Closed k v → Closed k (turn j v)
  turn-keeps j k v c = either (belongs_to ops_at i (get_or v.open_files j empty_file))
    where
      either : (b : Bool) → Closed k (if b then close_slot ops_at j v else v)
      either true = close_slot-keeps j k v c
      either false = c

  close_all-closes :
      (j n k : ℕ) (v : Vfs W)
      → ((l : ℕ) → l < j → Closed l v)
      → k < j + n
      → Closed k (close_all ops_at i j n v)
  unfolding close_all
  close_all-closes j zero k v c h = c k (omega arith)
  close_all-closes j (suc n) k v c h = close_all-closes (suc j) n k (turn j v) below (omega arith)
    where
      below : (l : ℕ) → l < suc j → Closed l (turn j v)
      below l m = elim (ℕ_discrete l j) [
        | yes e ↦ rw e (turn-closes j v)
        | no ne ↦ turn-keeps j l v (c l (omega arith))
      ]

unset :
    (ms : List MountPoint) (i : ℕ) (m : MountPoint)
    → m.mounted ≡ false
    → (get_or (set ms i m) i empty_mount).mounted ≡ false
unset [] i m h = refl
unset (n ∷ ms) zero m h = h
unset (n ∷ ms) (suc i) m h = unset ms i m h

unmount_in-open_files :
    {W : Type 0} (ops_at : ℕ → Operations W) (i : ℕ) (v : Vfs W)
    → (unmount_in ops_at i v).open_files ≡ v.open_files
unfolding unmount_in
unmount_in-open_files {W = W} ops_at i v =
    either (operation ops_at Operations.unmount (get_or v.mounts i empty_mount))
  where
    either :
        (o : Option (MountPoint → W → ℤ × W))
        → let after : Vfs W = elim o [
          | none ↦ v
          | some unmount ↦ record v {
            filesystems = (unmount (get_or v.mounts i empty_mount) v.filesystems).1;
          }
        ] in
          after.open_files ≡ v.open_files
    either none = refl
    either (some unmount) = refl

unmounted :
    {W : Type 0} (ops_at : ℕ → Operations W) (mountpoint : Text) (v : Vfs W) (i : ℕ)
    → v.vfs_initialized ≡ true
    → first_slot (is_at mountpoint) v.mounts 0 ≡ some i
    → vfs_unmount ops_at mountpoint v
      ≡ (vfs_success, release ops_at i (unmount_in ops_at i (close_all ops_at i 0 64 v)))
unfolding vfs_unmount
unmounted {W} ops_at mountpoint v i up at =
    let slot : Option ℕ → ℤ × Vfs W = λ r. elim r [
      | none ↦ (vfs_not_found, v)
      | some i ↦ (vfs_success, release ops_at i (unmount_in ops_at i (close_all ops_at i 0 64 v)))
    ] in
    ap (λ b. if b then slot (first_slot (is_at mountpoint) v.mounts 0) else (vfs_error, v)) up
    ∙ ap slot at

-- Whatever the file systems do, once `vfs_unmount` has answered 0 the slot of the mount is unused and
-- none of the 64 handles is an open file of it.
pub vfs_unmount_closes :
    {W : Type 0} (ops_at : ℕ → Operations W) (mountpoint : Text) (v : Vfs W) (i k : ℕ)
    → v.vfs_initialized ≡ true
    → first_slot (is_at mountpoint) v.mounts 0 ≡ some i
    → k < 64
    → let r = vfs_unmount ops_at mountpoint v in
      (r.0 ≡ vfs_success)
      × (belongs_to ops_at i (get_or r.1.open_files k empty_file) ≡ false)
      × ((get_or r.1.mounts i empty_mount).mounted ≡ false)
vfs_unmount_closes ops_at mountpoint v i k up at h =
    let w = close_all ops_at i 0 64 v in
    rw (unmounted ops_at mountpoint v i up at) (
      refl,
      ap (λ files. belongs_to ops_at i (get_or files k empty_file))
            (unmount_in-open_files ops_at i w)
          ∙ close_all-closes ops_at i 0 64 k v (λ l m. absurd (omega arith)) (omega arith),
      unset (unmount_in ops_at i w).mounts i _ refl,
    )
