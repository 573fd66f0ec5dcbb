-- ===== src/Scheduler/Slots.antt =====
-- The searches through the slots of the process table, and the number of those that are taken.
use continuum_os.Common.{
  ℕ, zero, suc, ◌+◌, ◌≤◌, ◌<◌, ◌≡◌, ◌≢◌, refl, ap, ◌∙◌, List, [], ◌∷◌, Option, none, some, false,
  arith, length, get_or, set, Bool-cases, inl, inr, ◌==◌,
}
use continuum_os.Process.{Process}
use continuum_os.Scheduler.{free_slot, slot_of}

-- How many slots are not NULL.
unfoldable pub occupied : List (Option ℕ) → ℕ
occupied [] = 0
occupied (none ∷ table) = occupied table
occupied (some a ∷ table) = suc (occupied table)

pub occupied-le : (table : List (Option ℕ)) → occupied table ≤ length table
unfolding occupied
occupied-le [] = omega arith
occupied-le (none ∷ table) = omega (arith, occupied-le table)
occupied-le (some a ∷ table) = omega (arith, occupied-le table)

pub occupied_zero :
    (table : List (Option ℕ)) (j : ℕ) → occupied table ≡ 0 → get_or table j none ≡ none
unfolding occupied
occupied_zero [] j h = refl
occupied_zero (none ∷ table) zero h = refl
occupied_zero (none ∷ table) (suc j) h = occupied_zero table j h
occupied_zero (some a ∷ table) j h = absurd (omega arith)

pub occupied-fill :
    (table : List (Option ℕ)) (j a : ℕ)
    → j < length table
    → get_or table j none ≡ none
    → occupied (set table j (some a)) ≡ suc (occupied table)
unfolding occupied
occupied-fill [] j a h e = absurd (omega arith)
occupied-fill (none ∷ table) zero a h e = refl
occupied-fill (some b ∷ table) zero a h e = absurd (cc)
occupied-fill (none ∷ table) (suc j) a h e = occupied-fill table j a (omega arith) e
occupied-fill (some b ∷ table) (suc j) a h e = ap suc (occupied-fill table j a (omega arith) e)

pub occupied-clear :
    (table : List (Option ℕ)) (j a : ℕ)
    → get_or table j none ≡ some a
    → suc (occupied (set table j none)) ≡ occupied table
unfolding occupied
occupied-clear [] j a e = absurd (cc)
occupied-clear (none ∷ table) zero a e = absurd (cc)
occupied-clear (some b ∷ table) zero a e = refl
occupied-clear (none ∷ table) (suc j) a e = occupied-clear table j a e
occupied-clear (some b ∷ table) (suc j) a e = ap suc (occupied-clear table j a e)

-- What the search for a free slot ends with.
pub data FreeSlot (table : List (Option ℕ)) (i : ℕ) (r : Option ℕ) : Type 0 where
  at_slot :
      (j : ℕ)
      → r ≡ some (i + j)
      → j < length table
      → get_or table j none ≡ none
      → ((k : ℕ) → k < j → get_or table k none ≢ none)
      → FreeSlot table i r
  no_slot : r ≡ none → occupied table ≡ length table → FreeSlot table i r

pub free_slot-FreeSlot : (table : List (Option ℕ)) (i : ℕ) → FreeSlot table i (free_slot table i)
unfolding free_slot occupied
free_slot-FreeSlot [] i = no_slot refl refl
free_slot-FreeSlot (none ∷ table) i =
    at_slot 0 (ap some (omega arith)) (omega arith) refl (λ k h. absurd (omega arith))
free_slot-FreeSlot (some a ∷ table) i =
    behind (free_slot table (i + 1)) (free_slot-FreeSlot table (i + 1))
  where
    taken :
        (j : ℕ)
        → ((k : ℕ) → k < j → get_or table k none ≢ none)
        → (k : ℕ) → k < suc j
        → get_or (some a ∷ table) k none ≢ none
    taken j all zero h e = cc
    taken j all (suc k) h e = all k (omega arith) e

    behind : (r : Option ℕ) → FreeSlot table (i + 1) r → FreeSlot (some a ∷ table) i r
    behind r (at_slot j e h z all) =
        at_slot (suc j) (e ∙ ap some (omega arith)) (omega arith) z (taken j all)
    behind r (no_slot e full) = no_slot e (ap suc full)

pub data Slot {E : Type 0} (pid : ℕ) (store : ℕ → Process E) (table : List (Option ℕ)) (i : ℕ)
    (r : Option ℕ) : Type 0 where
  found :
      (j a : ℕ)
      → r ≡ some (i + j)
      → get_or table j none ≡ some a
      → (store a).pid ≡ pid
      → ((k c : ℕ) → k < j → get_or table k none ≡ some c → (store c).pid ≢ pid)
      → Slot pid store table i r
  missing :
      r ≡ none
      → ((j a : ℕ) → get_or table j none ≡ some a → (store a).pid ≢ pid)
      → Slot pid store table i r

module _ {E : Type 0} (pid : ℕ) (store : ℕ → Process E) where
  pub slot_of-Slot :
      (table : List (Option ℕ)) (i : ℕ) → Slot pid store table i (slot_of pid store table i)
  unfolding slot_of
  slot_of-Slot [] i = missing refl (λ j a e. absurd (cc))
  slot_of-Slot (none ∷ table) i =
      behind (slot_of pid store table (i + 1)) (slot_of-Slot table (i + 1))
    where
      each :
          ((j a : ℕ) → get_or table j none ≡ some a → (store a).pid ≢ pid)
          → (j a : ℕ) → get_or (none ∷ table) j none ≡ some a
          → (store a).pid ≢ pid
      each all zero a e = absurd (cc)
      each all (suc j) a e = all j a e

      earlier :
          (j : ℕ)
          → ((k c : ℕ) → k < j → get_or table k none ≡ some c → (store c).pid ≢ pid)
          → (k c : ℕ) → k < suc j
          → get_or (none ∷ table) k none ≡ some c
          → (store c).pid ≢ pid
      earlier j before zero c l e = absurd (cc)
      earlier j before (suc k) c l e = before k c (omega arith) e

      behind : (r : Option ℕ) → Slot pid store table (i + 1) r → Slot pid store (none ∷ table) i r
      behind r (found j a e slot p before) =
          found (suc j) a (e ∙ ap some (omega arith)) slot p (earlier j before)
      behind r (missing e all) = missing e (each all)
  slot_of-Slot (some b ∷ table) i = elim (Bool-cases ((store b).pid == pid)) [
    | inl hit ↦
        rw hit
          (found 0 b (ap some (omega arith)) refl (ground arith) (λ k c l. absurd (omega arith)))
    | inr miss ↦
        rw miss (behind (slot_of pid store table (i + 1)) miss (slot_of-Slot table (i + 1)))
  ]
    where
      each :
          ((store b).pid == pid) ≡ false
          → ((j a : ℕ) → get_or table j none ≡ some a → (store a).pid ≢ pid)
          → (j a : ℕ) → get_or (some b ∷ table) j none ≡ some a
          → (store a).pid ≢ pid
      each miss all zero a e p = ground arith
      each miss all (suc j) a e p = all j a e p

      earlier :
          (j : ℕ)
          → ((store b).pid == pid) ≡ false
          → ((k c : ℕ) → k < j → get_or table k none ≡ some c → (store c).pid ≢ pid)
          → (k c : ℕ) → k < suc j
          → get_or (some b ∷ table) k none ≡ some c
          → (store c).pid ≢ pid
      earlier j miss before zero c l e p = ground arith
      earlier j miss before (suc k) c l e p = before k c (omega arith) e p

      behind :
          (r : Option ℕ)
          → ((store b).pid == pid) ≡ false
          → Slot pid store table (i + 1) r
          → Slot pid store (some b ∷ table) i r
      behind r miss (found j a e slot p before) =
          found (suc j) a (e ∙ ap some (omega arith)) slot p (earlier j miss before)
      behind r miss (missing e all) = missing e (each miss all)

pub emptied : (table : List (Option ℕ)) (j : ℕ) → get_or (set table j none) j none ≡ none
emptied [] j = refl
emptied (x ∷ table) zero = refl
emptied (x ∷ table) (suc j) = emptied table j
