-- ===== src/Scheduler/Table.antt =====
-- The process table and its count, through adding, removing and electing.
use native.Mathlib.Decide.{ℕ_discrete}
use continuum_os.Common.{
  ℕ, ◌-◌, ◌<◌, ◌≡◌, ◌≢◌, refl, sym, ap, ◌∙◌, List, Option, none, some, true, false, arith, length,
  get_or, set, length-set, get_or-set_self, get_or-set_ne, Bool-cases, inl, inr, leb, ◌==◌,
}
use continuum_os.Scheduler.{
  Scheduler, max_processes, free_slot, add_at, scheduler_add_process, sum_tickets, is_runnable,
  scheduler_next_process, slot_of, remove_at, scheduler_remove_process, same_pointer,
}
use continuum_os.Scheduler.Slots.{
  occupied, occupied-le, occupied_zero, occupied-fill, occupied-clear, FreeSlot, at_slot, no_slot,
  free_slot-FreeSlot, Slot, found, missing, slot_of-Slot, emptied,
}
use continuum_os.Scheduler.Lottery.{lottery-Elected, lottery_nobody, Elected, sum_tickets_zero}

pub record IsTable {E : Type 0} (s : Scheduler E) : Type 0 where
  pub sized : length s.process_table ≡ 32
  pub counted : s.process_count ≡ occupied s.process_table
  pub ticketed : (j a : ℕ) → get_or s.process_table j none ≡ some a → 0 < (s.processes a).tickets

-- What adding the process at `proc` comes to.
pub data Added {E : Type 0} (proc : ℕ) (s : Scheduler E) (r : Option (Scheduler E)) : Type 0 where
  added :
      (s' : Scheduler E) (j : ℕ)
      → r ≡ some s'
      → get_or s.process_table j none ≡ none
      → ((k : ℕ) → k < j → get_or s.process_table k none ≢ none)
      → get_or s'.process_table j none ≡ some proc
      → ((k : ℕ) → j ≢ k → get_or s'.process_table k none ≡ get_or s.process_table k none)
      → IsTable s'
      → Added proc s r
  refused : r ≡ none → s.process_count ≡ 32 → Added proc s r

module _ {E : Type 0} where
  add_at-IsTable :
      (proc j : ℕ) (s : Scheduler E)
      → IsTable s
      → j < 32
      → get_or s.process_table j none ≡ none
      → IsTable (add_at proc j s)
  unfolding add_at
  add_at-IsTable proc j s t h e = record {
    sized = length-set s.process_table j (some proc) ∙ t.sized;
    counted =
        omega (arith, t.counted, occupied-fill s.process_table j proc (omega (arith, t.sized)) e);
    ticketed = λ k a slot. elim (Bool-cases (a == proc)) [
      | inl same ↦ rw same (ground arith)
      | inr other ↦ rw other (old k a slot other)
    ];
  }
    where
      old :
          (k a : ℕ)
          → get_or (set s.process_table j (some proc)) k none ≡ some a
          → (a == proc) ≡ false
          → 0 < (s.processes a).tickets
      old k a slot other = elim (ℕ_discrete j k) [
        | yes e' ↦ absurd (
            ground
              (arith, get_or-set_self s.process_table j (some proc) none (omega (arith, t.sized))))
        | no ne ↦
            t.ticketed k a (sym (get_or-set_ne s.process_table j k (some proc) none ne) ∙ slot)
      ]

  -- On a table in order `scheduler_add_process` puts the process into the lowest free slot, leaves the
  -- other slots as they are and the table in order; it refuses only where all 32 slots are taken.
  pub scheduler_add_process-Added :
      (proc : ℕ) (s : Scheduler E) → IsTable s → Added proc s (scheduler_add_process proc s)
  unfolding scheduler_add_process add_at
  scheduler_add_process-Added proc s t = elim (Bool-cases (leb max_processes s.process_count)) [
    | inl full ↦
        rw full (refused refl (ground (arith, t.counted, t.sized, occupied-le s.process_table)))
    | inr room ↦
        rw room
          (search_in (free_slot s.process_table 0) room (free_slot-FreeSlot s.process_table 0))
  ]
    where
      search_in :
          (r : Option ℕ)
          → leb max_processes s.process_count ≡ false
          → FreeSlot s.process_table 0 r
          → Added proc s (elim r [ none ↦ none | some i ↦ some (add_at proc i s) ])
      search_in r room (no_slot e full) = absurd (ground (arith, t.counted, t.sized))
      search_in r room (at_slot j e h z all) =
          let slot : r ≡ some j = e ∙ ap some (omega arith) in
          rw slot (
            added (add_at proc j s) j refl z all
              (get_or-set_self s.process_table j (some proc) none h)
              (λ k ne. get_or-set_ne s.process_table j k (some proc) none ne)
              (add_at-IsTable proc j s t (omega (arith, t.sized)) z))

-- What `scheduler_next_process` comes to.
pub data Next {E : Type 0} (s : Scheduler E) (r : Option ℕ × Scheduler E) : Type 0 where
  idle :
      r ≡ (none, s)
      → ((j a : ℕ) → get_or s.process_table j none ≡ some a → is_runnable (s.processes a) ≡ false)
      → Next s r
  elected : Elected is_runnable s r → Next s r

module _ {E : Type 0} where
  -- On a table in order `scheduler_next_process` elects a process of the table that is alive and has
  -- no hooks, and makes its slot the current one; it answers NULL, changing nothing, only where no
  -- process of the table is alive and free of hooks.
  pub scheduler_next_process-Next :
      (s : Scheduler E) → IsTable s → Next s (scheduler_next_process s)
  unfolding scheduler_next_process
  scheduler_next_process-Next s t = elim (ℕ_discrete s.process_count 0) [
    | yes e ↦
        let empty : (s.process_count == 0) ≡ true = ground arith in
        rw empty (
          idle refl (λ j a slot.
            absurd (ground (arith, occupied_zero s.process_table j (omega (arith, t.counted))))))
    | no ne ↦
        let busy : (s.process_count == 0) ≡ false = ground arith in
        rw busy (elim (ℕ_discrete (sum_tickets is_runnable s.processes s.process_table) 0) [
          | yes z ↦ idle (lottery_nobody is_runnable s z) (λ j a slot.
              sum_tickets_zero is_runnable s.processes s.process_table j a z slot
                (t.ticketed j a slot))
          | no nz ↦ elected (lottery-Elected is_runnable s nz)
        ])
  ]

  Next-table :
      (s : Scheduler E) (r : Option ℕ × Scheduler E)
      → Next s r
      → (r.1.process_table ≡ s.process_table)
        × (r.1.process_count ≡ s.process_count)
        × (r.1.processes ≡ s.processes)
  Next-table s r (idle e all) = rw e (refl, refl, refl)
  Next-table s r (elected w) = rw (w.state) (refl, refl, refl)

same_pointer-true : (i : Option ℕ) (j : ℕ) → same_pointer i (some j) ≡ true → i ≡ some j
same_pointer-true none j h = absurd (cc)
same_pointer-true (some i) j h = ap some (ground arith)

same_pointer-false : (i : Option ℕ) (j : ℕ) → same_pointer i (some j) ≡ false → i ≢ some j
same_pointer-false none j h e = cc
same_pointer-false (some i) j h e = ground arith

-- The scheduler with slot `j` emptied, nothing else changed.
abbrev pub cleared : {E : Type 0} → ℕ → Scheduler E → Scheduler E
cleared j s = record s {
  process_table = set s.process_table j none;
  process_count = s.process_count - 1;
}

-- What becomes of the current process when slot `j` is emptied: where it was another slot, it stays;
-- where it was this one, `scheduler_next_process` elects anew from the emptied table.
pub data Reelects {E : Type 0} (j : ℕ) (s s' : Scheduler E) : Type 0 where
  stays : s.current_process_idx ≢ some j → s' ≡ cleared j s → Reelects j s s'
  anew :
      (answer : Option ℕ)
      → s.current_process_idx ≡ some j
      → (answer, s') ≡ scheduler_next_process (cleared j s)
      → Next (cleared j s) (answer, s')
      → Reelects j s s'

-- What removing the process with a pid comes to.
pub data Removed {E : Type 0} (pid : ℕ) (s : Scheduler E) (r : Option (Scheduler E)) : Type 0 where
  removed :
      (s' : Scheduler E) (j a : ℕ)
      → r ≡ some s'
      → get_or s.process_table j none ≡ some a
      → (s.processes a).pid ≡ pid
      → ((k c : ℕ) → k < j → get_or s.process_table k none ≡ some c → (s.processes c).pid ≢ pid)
      → get_or s'.process_table j none ≡ none
      → ((k : ℕ) → j ≢ k → get_or s'.process_table k none ≡ get_or s.process_table k none)
      → s'.processes ≡ s.processes
      → IsTable s'
      → Reelects j s s'
      → Removed pid s r
  unknown :
      r ≡ none
      → ((j a : ℕ) → get_or s.process_table j none ≡ some a → (s.processes a).pid ≢ pid)
      → Removed pid s r

module _ {E : Type 0} where
  cleared-IsTable :
      (j a : ℕ) (s : Scheduler E)
      → IsTable s
      → get_or s.process_table j none ≡ some a
      → IsTable (cleared j s)
  cleared-IsTable j a s t slot = record {
    sized = length-set s.process_table j none ∙ t.sized;
    counted = omega (arith, t.counted, occupied-clear s.process_table j a slot);
    ticketed = λ k b e. elim (ℕ_discrete j k) [
      | yes same ↦ absurd (ground (arith, emptied s.process_table j))
      | no ne ↦ t.ticketed k b (sym (get_or-set_ne s.process_table j k none none ne) ∙ e)
    ];
  }

  same_IsTable :
      (s s' : Scheduler E)
      → s'.process_table ≡ s.process_table
      → s'.process_count ≡ s.process_count
      → s'.processes ≡ s.processes
      → IsTable s
      → IsTable s'
  same_IsTable s s' e f g t = record {
    sized = rw e t.sized;
    counted = rw (e, f) t.counted;
    ticketed = rw (e, g) t.ticketed;
  }

  remove_at-Removed :
      (pid j a : ℕ) (s : Scheduler E)
      → IsTable s
      → get_or s.process_table j none ≡ some a
      → (s.processes a).pid ≡ pid
      → ((k c : ℕ) → k < j → get_or s.process_table k none ≡ some c → (s.processes c).pid ≢ pid)
      → Removed pid s (some (remove_at j s))
  unfolding remove_at
  remove_at-Removed pid j a s t slot p before =
      let old = cleared j s in
      let ok = cleared-IsTable j a s t slot in
      let (e, f, g) =
        Next-table old (scheduler_next_process old) (scheduler_next_process-Next old ok) in
      elim (Bool-cases (same_pointer s.current_process_idx (some j))) [
        | inl running ↦ rw running (
            removed (scheduler_next_process old).1 j a refl slot p before
              (ap (λ (l : List (Option ℕ)). get_or l j none) e ∙ emptied s.process_table j)
              (λ k ne.
                ap (λ (l : List (Option ℕ)). get_or l k none) e
                ∙ get_or-set_ne s.process_table j k none none ne)
              g (same_IsTable old (scheduler_next_process old).1 e f g ok)
              (anew (scheduler_next_process old).0 (same_pointer-true _ j running) refl
                (scheduler_next_process-Next old ok)))
        | inr other ↦ rw other (
            removed old j a refl slot p before (emptied s.process_table j)
              (λ k ne. get_or-set_ne s.process_table j k none none ne) refl ok
              (stays (same_pointer-false _ j other) refl))
      ]

  -- On a table in order, removing by pid clears the first slot that holds a process with that pid,
  -- leaves the other slots and the processes as they are, and keeps the table in order. Where the slot
  -- was not the current one, the count goes down by one and nothing else changes; where it was,
  -- `scheduler_next_process` elects anew from the cleared table. The answer is -1 only where no process of the table has the pid.
  pub scheduler_remove_process-Removed :
      (pid : ℕ) (s : Scheduler E) → IsTable s → Removed pid s (scheduler_remove_process pid s)
  unfolding scheduler_remove_process
  scheduler_remove_process-Removed pid s t =
      outcome (slot_of pid s.processes s.process_table 0)
        (slot_of-Slot pid s.processes s.process_table 0)
    where
      outcome :
          (r : Option ℕ)
          → Slot pid s.processes s.process_table 0 r
          → Removed pid s (elim r [ none ↦ none | some i ↦ some (remove_at i s) ])
      outcome r (found j a e slot p before) =
          let here : r ≡ some j = e ∙ ap some (omega arith) in
          rw here (remove_at-Removed pid j a s t slot p before)
      outcome r (missing e all) = rw e (unknown refl all)
