-- ===== src/Process.antt =====
-- src/kernel/process.cpp and include/kernel/process.h: the process control block with its ring of
-- I/O events and its wait hooks. The functions take a process where the source takes a pointer that
-- is not null; log lines and the saving of the interrupt flag are left out. The type of the events
-- is a parameter, with `blank` for the source's `IOEvent{}`. The hooks are the first `hook_count`
-- entries of the array.
pub mod EventQueue
pub mod Hooks
pub mod Waiting
mod Tests
use continuum_os.Common.{
  ℕ, zero, suc, ◌+◌, ◌-◌, Bool, true, false, ◌&&◌, Option, none, some, List, [], ◌∷◌, ◌++◌, ltb,
  leb, ◌==◌, if◌then◌else◌, length, replicate,
}
use continuum_os.Common.Int.{pos}
use EventQueue.{event_queue_guard, max_event_queue_size}

abbrev pub process_magic : ℕ
process_magic = 0x5052_4F43

abbrev pub max_hooks_per_process : ℕ
max_hooks_per_process = 8

pub data HookType : Type 0 where
  time_reached signal custom : HookType

pub record Hook : Type 0 where
  pub type : HookType
  pub trigger_value : ℕ

-- `CPUContext`.
pub record CpuContext : Type 0 where
  pub eip : ℕ
  pub esp : ℕ
  pub ebp : ℕ
  pub eax : ℕ
  pub ebx : ℕ
  pub ecx : ℕ
  pub edx : ℕ
  pub esi : ℕ
  pub edi : ℕ
  pub eflags : ℕ

-- `Process`, less its name and its page directory. `tickets` is never set below 1.
pub record Process (E : Type 0) : Type 0 where
  pub magic : ℕ
  pub pid : ℕ
  pub context : CpuContext
  pub stack_base : ℕ
  pub stack_size : ℕ
  pub alive : Bool
  pub speculative : ℕ
  pub logical_time : ℕ
  pub hooks : List Hook
  pub io_events : EventQueue.EventQueue E
  pub keyboard_handler : Option ℕ
  pub tickets : ℕ

abbrev pub same_type : HookType → HookType → Bool
same_type time_reached time_reached = true
same_type signal signal = true
same_type custom custom = true
same_type _ _ = false

-- `hooks[i].type == type && hooks[i].trigger_value == value`.
abbrev pub matches : HookType → ℕ → Hook → Bool
matches type value h = same_type h.type type && h.trigger_value == value

unfoldable pub add_hook : HookType → ℕ → List Hook → Option (List Hook)
add_hook type value hooks =
    if leb max_hooks_per_process (length hooks)
    then none
    else some (hooks ++ record { type = type; trigger_value = value } ∷ [])

-- The first matching hook goes, and those behind it move down one place.
unfoldable pub remove_hook : HookType → ℕ → List Hook → Option (List Hook)
remove_hook type value [] = none
remove_hook type value (h ∷ hs) =
    if matches type value h
    then some hs
    else elim (remove_hook type value hs) [ none ↦ none | some hs' ↦ some (h ∷ hs') ]

unfoldable pub has_hook : HookType → ℕ → List Hook → Bool
has_hook type value [] = false
has_hook type value (h ∷ hs) = if matches type value h then true else has_hook type value hs

module _ {E : Type 0} where
  -- `none` is the answer -1, with the process left alone.
  unfoldable pub process_register_hook : HookType → ℕ → Process E → Option (Process E)
  process_register_hook type value p = elim (add_hook type value p.hooks) [
    | none ↦ none
    | some hs ↦ some (record p { hooks = hs })
  ]

  unfoldable pub process_remove_hook : HookType → ℕ → Process E → Option (Process E)
  process_remove_hook type value p = elim (remove_hook type value p.hooks) [
    | none ↦ none
    | some hs ↦ some (record p { hooks = hs })
  ]

  unfoldable pub process_has_matching_hook : HookType → ℕ → Process E → Bool
  process_has_matching_hook type value p = has_hook type value p.hooks

  unfoldable pub process_is_valid : Process E → Bool
  process_is_valid p = p.magic == process_magic

  unfoldable pub register_keyboard_handler : Option ℕ → Process E → Process E
  unfolding process_is_valid
  register_keyboard_handler handler p =
      if process_is_valid p then record p { keyboard_handler = handler } else p

  unfoldable pub set_process_tickets : ℕ → Process E → Process E
  set_process_tickets tickets p = if ltb 0 tickets then record p { tickets = tickets } else p

  -- `process_yield_for_event`; the answer of the registration is not looked at.
  unfoldable pub process_yield_for_event : HookType → ℕ → Process E → Process E
  process_yield_for_event type value p =
      if process_has_matching_hook type value p
      then p
      else elim (process_register_hook type value p) [ none ↦ p | some p' ↦ p' ]

module _ {E : Type 0} (blank : E) where
  unfoldable pub push_io_event : E → Process E → Process E
  unfolding process_is_valid
  push_io_event event p =
      if process_is_valid p
      then record p { io_events = EventQueue.push blank event p.io_events }
      else p

  unfoldable pub with_events : Process E → Option E × EventQueue.EventQueue E → Option E × Process E
  with_events p (out, q) = (out, record p { io_events = q })

  -- `none` is the answer 0, with `*out_event` left alone.
  unfoldable pub pop_io_event : Process E → Option E × Process E
  unfolding process_is_valid with_events
  pop_io_event p =
      if process_is_valid p then with_events p (EventQueue.pop blank p.io_events) else (none, p)

  unfoldable pub after_wait : Option E × Process E → Option E × Process E
  after_wait (some event, p) = (some event, p)
  after_wait (none, p) = (none, process_yield_for_event signal p.pid p)

  unfoldable pub process_wait_for_io_event : Process E → Option E × Process E
  process_wait_for_io_event p = after_wait (pop_io_event p)

  -- The block that `k_start_process` fills in, for a stack at `stack` that `kmalloc` gave.
  unfoldable pub new_process : ℕ → ℕ → ℕ → ℕ → ℕ → Process E
  new_process pid entry speculative stack stack_size = record {
    magic = process_magic;
    pid = pid;
    context = record {
      eip = entry;
      esp = stack + stack_size;
      ebp = stack + stack_size;
      eax = 0;
      ebx = 0;
      ecx = 0;
      edx = 0;
      esi = 0;
      edi = 0;
      eflags = 0x202;
    };
    stack_base = stack;
    stack_size = stack_size;
    alive = true;
    speculative = speculative;
    logical_time = 0;
    hooks = [];
    io_events = record {
      guard_front = event_queue_guard;
      queue = replicate max_event_queue_size blank;
      head = pos 0;
      tail = pos 0;
      count = pos 0;
      guard_back = event_queue_guard;
    };
    keyboard_handler = none;
    tickets = 1;
  }
