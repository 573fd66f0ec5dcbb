-- ===== src/Vfs/Mounts.antt =====
-- The mount table of src/kernel/vfs.cpp: which mount a path belongs to, and what mounting does.
use continuum_os.Common.{
  ℕ, zero, suc, ◌+◌, ◌≤◌, ◌<◌, ◌≡◌, ◌≢◌, refl, ap, ◌∙◌, List, [], ◌∷◌, Option, none, some, Bool,
  true, false, ◌&&◌, ◌||◌, not, arith, ltb, ◌==◌, length, get_or, Bool-cases, inl, inr,
}
use continuum_os.Common.Int.{ℤ}
use continuum_os.Strings.{Text}
use continuum_os.Vfs.{
  Vfs, MountPoint, empty_mount, first_slot, is_at, covers, best_mount, vfs_find_mount, vfs_error,
  vfs_success, vfs_no_space, vfs_already_mounted,
}

-- What the search for the best mount ends with, from a length to beat.
pub data Best (path : Text) (ms : List MountPoint) (i : ℕ) (best : Option ℕ) (len : ℕ)
    (r : Option ℕ) : Type 0 where
  unbeaten :
      r ≡ best
      → ((k : ℕ)
          → k < length ms
          → covers path (get_or ms k empty_mount) ≡ true
          → length (get_or ms k empty_mount).mountpoint ≤ len)
      → Best path ms i best len r
  longest :
      (j : ℕ)
      → r ≡ some (i + j)
      → j < length ms
      → covers path (get_or ms j empty_mount) ≡ true
      → len < length (get_or ms j empty_mount).mountpoint
      → ((k : ℕ)
          → k < length ms
          → covers path (get_or ms k empty_mount) ≡ true
          → length (get_or ms k empty_mount).mountpoint
            ≤ length (get_or ms j empty_mount).mountpoint)
      → Best path ms i best len r

both : (a b : Bool) → (a && b) ≡ true → (a ≡ true) × (b ≡ true)
both true b h = (refl, h)
both false b h = absurd (ground arith)

not_longer : (a : Bool) (len l : ℕ) → (a && ltb len l) ≡ false → a ≡ true → l ≤ len
not_longer true len l n c = ground arith
not_longer false len l n c = absurd (ground arith)

best_mount-Best :
    (path : Text) (ms : List MountPoint) (i : ℕ) (best : Option ℕ) (len : ℕ)
    → Best path ms i best len (best_mount path ms i best len)
unfolding best_mount
best_mount-Best path [] i best len = unbeaten refl (λ k h c. absurd (omega arith))
best_mount-Best path (m ∷ ms) i best len =
    elim (Bool-cases (covers path m && ltb len (length m.mountpoint))) [
      | inl y ↦ rw y (
          taken y (best_mount path ms (i + 1) (some i) (length m.mountpoint))
            (best_mount-Best path ms (i + 1) (some i) (length m.mountpoint)))
      | inr n ↦ rw n (
          passed n (best_mount path ms (i + 1) best len) (best_mount-Best path ms (i + 1) best len))
    ]
  where
    taken :
        (covers path m && ltb len (length m.mountpoint)) ≡ true
        → (r : Option ℕ) → Best path ms (i + 1) (some i) (length m.mountpoint) r
        → Best path (m ∷ ms) i best len r
    taken y r (unbeaten e all) =
        longest 0 (e ∙ ap some (omega arith)) (omega arith)
          (both (covers path m) (ltb len (length m.mountpoint)) y).0
          (ground (arith, (both (covers path m) (ltb len (length m.mountpoint)) y).1)) rest
      where
        rest :
            (k : ℕ)
            → k < length (m ∷ ms)
            → covers path (get_or (m ∷ ms) k empty_mount) ≡ true
            → length (get_or (m ∷ ms) k empty_mount).mountpoint ≤ length m.mountpoint
        rest zero h c = omega arith
        rest (suc k) h c = all k (omega arith) c
    taken y r (longest j e l c better all) =
        longest (suc j) (e ∙ ap some (omega arith)) (omega arith) c
          (ground (arith, (both (covers path m) (ltb len (length m.mountpoint)) y).1)) rest
      where
        rest :
            (k : ℕ)
            → k < length (m ∷ ms)
            → covers path (get_or (m ∷ ms) k empty_mount) ≡ true
            → length (get_or (m ∷ ms) k empty_mount).mountpoint
              ≤ length (get_or ms j empty_mount).mountpoint
        rest zero h c' = omega arith
        rest (suc k) h c' = all k (omega arith) c'

    passed :
        (covers path m && ltb len (length m.mountpoint)) ≡ false
        → (r : Option ℕ) → Best path ms (i + 1) best len r
        → Best path (m ∷ ms) i best len r
    passed n r (unbeaten e all) = unbeaten e rest
      where
        rest :
            (k : ℕ)
            → k < length (m ∷ ms)
            → covers path (get_or (m ∷ ms) k empty_mount) ≡ true
            → length (get_or (m ∷ ms) k empty_mount).mountpoint ≤ len
        rest zero h c = not_longer (covers path m) len (length m.mountpoint) n c
        rest (suc k) h c = all k (omega arith) c
    passed n r (longest j e l c better all) =
        longest (suc j) (e ∙ ap some (omega arith)) (omega arith) c better rest
      where
        rest :
            (k : ℕ)
            → k < length (m ∷ ms)
            → covers path (get_or (m ∷ ms) k empty_mount) ≡ true
            → length (get_or (m ∷ ms) k empty_mount).mountpoint
              ≤ length (get_or ms j empty_mount).mountpoint
        rest zero h c' = omega (arith, not_longer (covers path m) len (length m.mountpoint) n c')
        rest (suc k) h c' = all k (omega arith) c'

-- A path belongs to a mount that covers it and has the longest mount point of those that do; without
-- an answer no mount that covers the path has a mount point at all.
pub vfs_find_mount-Best :
    {W : Type 0} (path : Text) (v : Vfs W)
    → v.vfs_initialized ≡ true
    → Best path v.mounts 0 none 0 (vfs_find_mount path v)
unfolding vfs_find_mount
vfs_find_mount-Best path v up = rw up (best_mount-Best path v.mounts 0 none 0)

-- What the search for the first slot that passes a test ends with.
pub data FirstSlot {A : Type 0} (test : A → Bool) (d : A) (xs : List A) (i : ℕ) (r : Option ℕ)
    : Type 0 where
  at_slot :
      (j : ℕ)
      → r ≡ some (i + j)
      → j < length xs
      → test (get_or xs j d) ≡ true
      → FirstSlot test d xs i r
  nowhere :
      r ≡ none → ((k : ℕ) → k < length xs → test (get_or xs k d) ≡ false) → FirstSlot test d xs i r

pub first_slot-FirstSlot :
    {A : Type 0} (test : A → Bool) (d : A) (xs : List A) (i : ℕ)
    → FirstSlot test d xs i (first_slot test xs i)
unfolding first_slot
first_slot-FirstSlot test d [] i = nowhere refl (λ k h. absurd (omega arith))
first_slot-FirstSlot test d (x ∷ xs) i = elim (Bool-cases (test x)) [
  | inl y ↦ rw y (at_slot 0 (ap some (omega arith)) (omega arith) y)
  | inr n ↦ rw n (later n (first_slot test xs (i + 1)) (first_slot-FirstSlot test d xs (i + 1)))
]
  where
    later :
        test x ≡ false
        → (r : Option ℕ) → FirstSlot test d xs (i + 1) r
        → FirstSlot test d (x ∷ xs) i r
    later n r (at_slot j e h t) = at_slot (suc j) (e ∙ ap some (omega arith)) (omega arith) t
    later n r (nowhere e all) = nowhere e all'
      where
        all' : (k : ℕ) → k < length (x ∷ xs) → test (get_or (x ∷ xs) k d) ≡ false
        all' zero h = n
        all' (suc k) h = all k (omega arith)

-- What a call of `vfs_mount` comes to on an initialized table.
pub data Mounting {W : Type 0} (mountpoint : Text) (fs_type device_id ops : ℕ) (fs_data : Option ℕ)
    (v : Vfs W) (r : ℤ × Vfs W) : Type 0 where
  unsupported :
      r ≡ (vfs_error, v)
      → (fs_type == 1 || fs_type == 2) ≡ false
      → Mounting mountpoint fs_type device_id ops fs_data v r
  in_the_way :
      (i : ℕ)
      → r ≡ (vfs_already_mounted, v)
      → is_at mountpoint (get_or v.mounts i empty_mount) ≡ true
      → Mounting mountpoint fs_type device_id ops fs_data v r
  no_room :
      r ≡ (vfs_no_space, v)
      → ((k : ℕ) → k < length v.mounts → not (get_or v.mounts k empty_mount).mounted ≡ false)
      → Mounting mountpoint fs_type device_id ops fs_data v r
  mounted_at :
      (i : ℕ)
      → r.0 ≡ vfs_success
      → not (get_or v.mounts i empty_mount).mounted ≡ true
      → ((k : ℕ) → k < length v.mounts → is_at mountpoint (get_or v.mounts k empty_mount) ≡ false)
      → get_or r.1.mounts i empty_mount ≡ record {
        mountpoint = mountpoint;
        fs_type = fs_type;
        device_id = device_id;
        fs_data = fs_data;
        ops = some ops;
        mounted = true;
      }
      → ((k : ℕ) → i ≢ k → get_or r.1.mounts k empty_mount ≡ get_or v.mounts k empty_mount)
      → r.1.open_files ≡ v.open_files
      → Mounting mountpoint fs_type device_id ops fs_data v r
