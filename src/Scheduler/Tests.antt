-- ===== src/Scheduler/Tests.antt =====
-- Runs and instances of the theorems on the scheduler.
use continuum_os.Common.{
  ℕ, ◌+◌, ◌≤◌, ◌<◌, ◌≡◌, ◌↔◌, refl, List, [], ◌∷◌, Option, none, some, arith, replicate,
  if◌then◌else◌,
}
use continuum_os.Common.Int.{ℤ}
use continuum_os.Process.{Process, signal, new_process}
use continuum_os.Scheduler.{
  Scheduler, is_runnable, draw, sum_tickets, scheduler_add_process, scheduler_next_process,
  scheduler_remove_process, scheduler_resume_processes_for_event, scheduler_set_foreground,
  scheduler_restore_foreground,
}
use continuum_os.Scheduler.Lottery.{before, draw_share, draw_total}
use continuum_os.Scheduler.Slots.{occupied}
use continuum_os.Scheduler.Table.{
  IsTable, Added, Next, Removed, scheduler_add_process-Added, scheduler_next_process-Next,
  scheduler_remove_process-Removed,
}
use continuum_os.Scheduler.Events.{in_table, woken, scheduler_resume_processes_for_event-Woken}
use continuum_os.Scheduler.Focus.{Keeps, restore-set_foreground}

-- The process at address `a` has pid `a`; processes 1 and 2 are in the table.
abbrev processes : ℕ → Process ℕ
processes a = new_process 0 a 4096 0 8192 16

abbrev table : List (Option ℕ)
table = some 1 ∷ some 2 ∷ replicate 30 none

abbrev two : Scheduler ℕ
two = record {
  processes = processes;
  process_table = table;
  process_count = 2;
  current_process_idx = none;
  xorshift32_state = 1;
  quantum_counter = 0;
  foreground_proc = some 2;
  foreground_stack = 1 ∷ [];
  timer_ticks = 0;
}

abbrev process_event : ℕ → ℤ → ℕ
process_event code value = code

two-IsTable : IsTable two
unfolding occupied new_process
two-IsTable = record { sized = refl; counted = refl; ticketed = λ j a slot. omega arith }

total : sum_tickets is_runnable processes table ≡ 2
unfolding sum_tickets new_process
total = refl

draw_share_example : (draw is_runnable processes table 0 0 1 ≡ some (1, 2)) ↔ (
    (before is_runnable processes 1 table ≤ 1)
    × (1 < before is_runnable processes 1 table + (processes 2).tickets))
unfolding new_process
draw_share_example = draw_share is_runnable processes table 1 2 1 refl refl

draw_total_example : (w : ℕ × ℕ) × (draw is_runnable processes table 0 0 1 ≡ some w)
draw_total_example = draw_total is_runnable processes table 1 (omega (arith, total))

scheduler_add_process-Added_example : Added 3 two (scheduler_add_process 3 two)
scheduler_add_process-Added_example = scheduler_add_process-Added 3 two two-IsTable

scheduler_next_process-Next_example : Next two (scheduler_next_process two)
scheduler_next_process-Next_example = scheduler_next_process-Next two two-IsTable

scheduler_remove_process-Removed_example : Removed 2 two (scheduler_remove_process 2 two)
scheduler_remove_process-Removed_example = scheduler_remove_process-Removed 2 two two-IsTable

scheduler_resume_processes_for_event-Woken_example :
    (scheduler_resume_processes_for_event signal 1 two).processes 1
    ≡ (if in_table 1 table then woken signal 1 (processes 1) else processes 1)
scheduler_resume_processes_for_event-Woken_example =
    scheduler_resume_processes_for_event-Woken signal 1 two 1

restore-set_foreground_example : Keeps two (
    scheduler_restore_foreground 0 process_event
      (some 3)
      (scheduler_set_foreground 0 process_event (some 3) two))
restore-set_foreground_example =
    restore-set_foreground 0 process_event 2 3 two refl (omega arith) (omega arith)
