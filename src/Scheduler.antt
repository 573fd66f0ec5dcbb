-- ===== src/Scheduler.antt =====
-- src/kernel/scheduler.cpp and the tick of src/kernel/timer.cpp: the process table, the ticket
-- lottery, hooks and events, and the stack of foreground processes. A `Process*` that is not null is
-- an address of the store `processes`; `none` is a null pointer, and the index -1. Left out are the
-- drawing of the terminals (`terminal_windows::activate_process`, `on_process_exit`) and the jumps
-- into the trampoline, which `Switch` stands for. Ticket sums are of `int` and kept small enough not
-- to overflow.
pub mod Lottery
pub mod Slots
pub mod Table
pub mod Events
pub mod Focus
mod Tests
use Prim.Native.Nat.{bit_xor}
use continuum_os.Common.{
  ℕ, zero, suc, ◌+◌, ◌-◌, ◌*◌, ◌/◌, ◌%◌, ◌^◌, Bool, true, false, ◌&&◌, ◌||◌, Option, none, some,
  List, [], ◌∷◌, ltb, leb, ◌==◌, if◌then◌else◌, length, get_or, set, replicate,
}
use continuum_os.Common.Int.{ℤ, pos, negsuc}
use continuum_os.Process.{
  Process, CpuContext, Hook, HookType, time_reached, signal, matches, has_hook, remove_hook,
  process_has_matching_hook, process_is_valid, register_keyboard_handler, push_io_event,
}

abbrev pub max_processes : ℕ
max_processes = 32

abbrev pub scheduler_quantum_ticks : ℕ
scheduler_quantum_ticks = 10

pub record Scheduler (E : Type 0) : Type 0 where
  pub processes : ℕ → Process E
  pub process_table : List (Option ℕ)
  pub process_count : ℕ
  pub current_process_idx : Option ℕ
  pub xorshift32_state : ℕ
  pub quantum_counter : ℕ
  pub foreground_proc : Option ℕ
  pub foreground_stack : List ℕ
  pub timer_ticks : ℕ

-- `x ^= x << 13; x ^= x >> 17; x ^= x << 5` on uint32_t.
pub xorshift32 : ℕ → ℕ
xorshift32 x =
    let a = bit_xor x (x * 2 ^ 13 % 2 ^ 32) in
    let b = bit_xor a (a / 2 ^ 17) in bit_xor b (b * 2 ^ 5 % 2 ^ 32)

-- Two pointers are the same.
abbrev pub same_pointer : Option ℕ → Option ℕ → Bool
same_pointer none none = true
same_pointer (some a) (some b) = a == b
same_pointer _ _ = false

abbrev pub is_null : Option ℕ → Bool
is_null none = true
is_null (some a) = false

-- The first slot that is NULL, from slot `i` on.
pub free_slot : List (Option ℕ) → ℕ → Option ℕ
free_slot [] i = none
free_slot (none ∷ table) i = some i
free_slot (some a ∷ table) i = free_slot table (i + 1)

-- `while (process_remove_hook(proc, …) == 0)`; the fuel is the number of hooks and one more.
pub remove_hooks : ℕ → HookType → ℕ → List Hook → List Hook
remove_hooks zero type value hs = hs
remove_hooks (suc fuel) type value hs = elim (remove_hook type value hs) [
  | none ↦ hs
  | some hs' ↦ remove_hooks fuel type value hs'
]

-- What `context_switch` comes to: no switch, the trampoline into the process at an address, or
-- PANIC.
pub data Switch : Type 0 where
  stay : Switch
  switch_to : ℕ → Switch
  panic : Switch

module _ {E : Type 0} where
  -- A write through a process pointer.
  abbrev pub update : ℕ → Process E → (ℕ → Process E) → ℕ → Process E
  update at p store a = if a == at then p else store a

  pub scheduler_init : Scheduler E → Scheduler E
  scheduler_init s = record s {
    process_table = replicate max_processes none;
    process_count = 0;
    current_process_idx = none;
    foreground_proc = none;
    foreground_stack = [];
  }

  abbrev pub with_ticket : Process E → Process E
  with_ticket p = if ltb 0 p.tickets then p else record p { tickets = 1 }

  pub add_at : ℕ → ℕ → Scheduler E → Scheduler E
  add_at proc i s = record s {
    processes = update proc (with_ticket (s.processes proc)) s.processes;
    process_table = set s.process_table i (some proc);
    process_count = s.process_count + 1;
    current_process_idx = elim s.current_process_idx [ none ↦ some i | some c ↦ some c ];
  }

  -- `none` is the answer -1.
  pub scheduler_add_process : ℕ → Scheduler E → Option (Scheduler E)
  scheduler_add_process proc s =
      if leb max_processes s.process_count
      then none
      else elim (free_slot s.process_table 0) [ none ↦ none | some i ↦ some (add_at proc i s) ]

  -- The lottery over the processes that pass the test: the sum of their tickets, and the first slot
  -- at which the running count is above the winner.
  pub sum_tickets : (Process E → Bool) → (ℕ → Process E) → List (Option ℕ) → ℕ
  sum_tickets test store [] = 0
  sum_tickets test store (none ∷ table) = sum_tickets test store table
  sum_tickets test store (some a ∷ table) =
      (if test (store a) then (store a).tickets else 0) + sum_tickets test store table

  pub draw : (Process E → Bool) → (ℕ → Process E) → List (Option ℕ) → ℕ → ℕ → ℕ → Option (ℕ × ℕ)
  draw test store [] i count winner = none
  draw test store (none ∷ table) i count winner = draw test store table (i + 1) count winner
  draw test store (some a ∷ table) i count winner =
      let here = count + (store a).tickets in
      let next = draw test store table (i + 1) (if test (store a) then here else count) winner in
      if test (store a) && ltb winner here then some (i, a) else next

  drawn : Scheduler E → Option (ℕ × ℕ) → Option ℕ × Scheduler E
  drawn s none = (none, s)
  drawn s (some (i, a)) = (some a, record s { current_process_idx = some i })

  pub lottery : (Process E → Bool) → Scheduler E → Option ℕ × Scheduler E
  unfolding drawn
  lottery test s =
      let total = sum_tickets test s.processes s.process_table in
      let state = xorshift32 s.xorshift32_state in
      if total == 0
      then (none, s)
      else drawn (record s { xorshift32_state = state })
          (draw test s.processes s.process_table 0 0 (state % total))

  abbrev pub is_runnable : Process E → Bool
  is_runnable p = p.alive && length p.hooks == 0

  pub scheduler_next_process : Scheduler E → Option ℕ × Scheduler E
  scheduler_next_process s = if s.process_count == 0 then (none, s) else lottery is_runnable s

  abbrev pub process_is_eligible : HookType → ℕ → Process E → Bool
  process_is_eligible type value p =
      p.alive && (if length p.hooks == 0 then true else has_hook type value p.hooks)

  pub scheduler_next_eligible_process : HookType → ℕ → Scheduler E → Option ℕ × Scheduler E
  scheduler_next_eligible_process type value s =
      if s.process_count == 0
      then (none, s)
      else lottery (λ p. p.alive && process_is_eligible type value p) s

  -- The slot of the first process with this pid, from slot `i` on.
  pub slot_of : ℕ → (ℕ → Process E) → List (Option ℕ) → ℕ → Option ℕ
  slot_of pid store [] i = none
  slot_of pid store (none ∷ table) i = slot_of pid store table (i + 1)
  slot_of pid store (some a ∷ table) i =
      if (store a).pid == pid then some i else slot_of pid store table (i + 1)

  pub remove_at : ℕ → Scheduler E → Scheduler E
  remove_at i s =
      let s' = record s {
        process_table = set s.process_table i none;
        process_count = s.process_count - 1;
      } in
      if same_pointer s.current_process_idx (some i) then (scheduler_next_process s').1 else s'

  pub scheduler_remove_process : ℕ → Scheduler E → Option (Scheduler E)
  scheduler_remove_process pid s = elim (slot_of pid s.processes s.process_table 0) [
    | none ↦ none
    | some i ↦ some (remove_at i s)
  ]

  pub scheduler_current_process : Scheduler E → Option ℕ
  scheduler_current_process s = elim s.current_process_idx [
    | none ↦ none
    | some i ↦ if leb max_processes i then none else get_or s.process_table i none
  ]

  pub resume_process : HookType → ℕ → Process E → Process E
  unfolding process_has_matching_hook
  resume_process type value p =
      if process_has_matching_hook type value p
      then record p { hooks = remove_hooks (length p.hooks + 1) type value p.hooks }
      else p

  pub resume_slots : HookType → ℕ → List (Option ℕ) → (ℕ → Process E) → ℕ → Process E
  resume_slots type value [] store = store
  resume_slots type value (none ∷ table) store = resume_slots type value table store
  resume_slots type value (some a ∷ table) store =
      resume_slots type value table (update a (resume_process type value (store a)) store)

  pub scheduler_resume_processes_for_event : HookType → ℕ → Scheduler E → Scheduler E
  scheduler_resume_processes_for_event type value s = record s {
    processes = resume_slots type value s.process_table s.processes;
  }

  save_context : CpuContext → ℕ → Scheduler E → Scheduler E
  save_context regs a s =
      if (s.processes a).alive
      then record s { processes = update a (record (s.processes a) { context = regs }) s.processes }
      else s

  chosen : ℕ → Option ℕ × Scheduler E → Switch × Scheduler E
  chosen current (none, s) = (if (s.processes current).alive then stay else panic, s)
  chosen current (some next, s) =
      (if next == current && (s.processes current).alive then stay else switch_to next, s)

  pub context_switch : CpuContext → Scheduler E → Switch × Scheduler E
  unfolding save_context chosen
  context_switch regs s = elim (scheduler_current_process s) [
    | none ↦ (stay, s)
    | some current ↦ chosen current (scheduler_next_process (save_context regs current s))
  ]

  pub scheduler_on_tick : CpuContext → Scheduler E → Switch × Scheduler E
  scheduler_on_tick regs s =
      if leb scheduler_quantum_ticks (s.quantum_counter + 1)
      then context_switch regs (record s { quantum_counter = 0 })
      else (stay, record s { quantum_counter = s.quantum_counter + 1 })

  -- `timer_handler`.
  pub timer_handler : CpuContext → Scheduler E → Switch × Scheduler E
  timer_handler regs s =
      let ticks = (s.timer_ticks + 1) % 2 ^ 32 in
      scheduler_on_tick regs
        (scheduler_resume_processes_for_event time_reached ticks (record s { timer_ticks = ticks }))

  exit_switch : Option ℕ × Scheduler E → Switch × Scheduler E
  exit_switch (none, s) = (panic, s)
  exit_switch (some next, s) = (switch_to next, s)

  -- `scheduler_exit_current_and_switch`: a lottery over all that are alive, hooks or not.
  pub scheduler_exit_current_and_switch : Scheduler E → Switch × Scheduler E
  unfolding exit_switch
  scheduler_exit_current_and_switch s = exit_switch (lottery (λ p. p.alive) s)

-- Focus events are built by `process_event code value`, an `EVENT_PROCESS`.
module _ {E : Type 0} (blank : E) (process_event : ℕ → ℤ → E) where
  pub dispatch_focus_event : Option ℕ → ℕ → ℤ → Scheduler E → Scheduler E
  dispatch_focus_event none code value s = s
  dispatch_focus_event (some a) code value s =
      if (s.processes a).alive
      then scheduler_resume_processes_for_event signal (s.processes a).pid (record s {
        processes =
            update a (push_io_event blank (process_event code value) (s.processes a)) s.processes;
      })
      else s

  abbrev pub pid_or_none : Option ℕ → Scheduler E → ℤ
  pid_or_none none s = negsuc 0
  pid_or_none (some a) s = pos (s.processes a).pid

  pub scheduler_switch_foreground : Option ℕ → Option ℕ → Scheduler E → Scheduler E
  unfolding dispatch_focus_event
  scheduler_switch_foreground prev next s =
      if same_pointer prev next
      then s
      else (let s' = record s { foreground_proc = next } in
          let told = dispatch_focus_event prev 2 (pid_or_none next s') s' in
          dispatch_focus_event next 1 (pid_or_none next told) told)

  -- The stack as a list, its top first; a full stack takes no more.
  abbrev pub push_previous : Option ℕ → List ℕ → List ℕ
  push_previous none stack = stack
  push_previous (some a) stack = if ltb (length stack) max_processes then a ∷ stack else stack

  pub scheduler_set_foreground : Option ℕ → Scheduler E → Scheduler E
  scheduler_set_foreground proc s =
      if same_pointer s.foreground_proc proc
      then s
      else scheduler_switch_foreground s.foreground_proc proc
          (record s { foreground_stack = push_previous s.foreground_proc s.foreground_stack })

  abbrev pub pop_target : List ℕ → Option ℕ × List ℕ
  pop_target [] = (none, [])
  pop_target (a ∷ stack) = (some a, stack)

  clear_hooks : Option ℕ → Scheduler E → Scheduler E
  clear_hooks none s = s
  clear_hooks (some a) s =
      if (s.processes a).alive
      then record s { processes = update a (record (s.processes a) { hooks = [] }) s.processes }
      else s

  pub restore : Option ℕ × List ℕ → Scheduler E → Scheduler E
  unfolding clear_hooks
  restore (target, stack) s =
      scheduler_switch_foreground s.foreground_proc target
        (clear_hooks target (record s { foreground_stack = stack }))

  pub scheduler_restore_foreground : Option ℕ → Scheduler E → Scheduler E
  scheduler_restore_foreground owner s =
      if is_null owner || same_pointer owner s.foreground_proc
      then restore (pop_target s.foreground_stack) s
      else s

  -- `kill_process`, less the closing of its window.
  pub kill_process : ℕ → Scheduler E → Scheduler E
  kill_process a s =
      if process_is_valid (s.processes a)
      then scheduler_restore_foreground (some a) (record s {
        processes =
            update a (record (register_keyboard_handler none (s.processes a)) { alive = false })
              s.processes;
      })
      else s
