-- ===== src/Process/Tests.antt =====
-- Runs and instances of the theorems on processes and their rings of events.
use continuum_os.Common.{ℕ, ◌≡◌, refl, List, [], ◌∷◌, length, replicate}
use continuum_os.Common.Int.{pos, negsuc}
use continuum_os.Process.{Hook, signal, custom, new_process, process_wait_for_io_event}
use continuum_os.Process.Waiting.{Waits, process_wait_for_io_event-Waits}
use continuum_os.Process.EventQueue.{EventQueue, ensure_integrity}
use continuum_os.Process.EventQueue.Integrity.{IsValid, ensure_integrity-IsValid}
use continuum_os.Process.EventQueue.Contents.{contents, run-run_queue, run, run_queue, pushes, pops}

-- A ring whose indices were overwritten.
abbrev broken : EventQueue ℕ
broken = record {
  guard_front = 0xE17E_17E1;
  queue = replicate 128 7;
  head = negsuc 4;
  tail = pos 130;
  count = pos 3;
  guard_back = 0xE17E_17E1;
}

broken_length : length broken.queue ≡ 128
broken_length = refl

abbrev no_event : ℕ
no_event = 0

abbrev hooks : List Hook
hooks =
    record { type = custom; trigger_value = 1 } ∷ record { type = signal; trigger_value = 5 } ∷ []

ensure_integrity-IsValid_example : IsValid (ensure_integrity 0 broken)
ensure_integrity-IsValid_example = ensure_integrity-IsValid 0 broken broken_length

run-run_queue_example :
    run 0 (ensure_integrity 0 broken) (pushes 4 ∷ pops ∷ [])
    ≡ run_queue 0 (contents 0 (ensure_integrity 0 broken)) (pushes 4 ∷ pops ∷ [])
run-run_queue_example =
    run-run_queue 0 (pushes 4 ∷ pops ∷ []) (ensure_integrity 0 broken)
      (ensure_integrity-IsValid 0 broken broken_length)

process_wait_for_io_event-Waits_example :
    Waits no_event
      (new_process 0 3 64 0 4096 16)
      (process_wait_for_io_event 0 (new_process 0 3 64 0 4096 16))
process_wait_for_io_event-Waits_example =
    process_wait_for_io_event-Waits no_event (new_process 0 3 64 0 4096 16)
