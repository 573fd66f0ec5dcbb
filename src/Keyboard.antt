-- ===== src/Keyboard.antt =====
-- src/kernel/keyboard.cpp: scan codes, the state of shift and caps lock, and where an event goes. The
-- byte that the port holds is an argument, and so are the shell's process and its own handler.
pub mod State
mod Tests
use Prim.Native.Nat.{◌/◌}
use continuum_os.Common.{
  ℕ, zero, suc, ◌+◌, ◌-◌, ◌%◌, Bool, true, false, ◌&&◌, ◌||◌, not, Option, none, some, List, [],
  ◌∷◌, ltb, leb, ◌==◌, if◌then◌else◌, length, get_or, set,
}
use continuum_os.Process.{signal, push_io_event}
use continuum_os.Scheduler.{
  Scheduler, update, scheduler_resume_processes_for_event, scheduler_current_process,
}

abbrev keyboard_buffer_size : ℕ
keyboard_buffer_size = 128

-- `keyboard_event`.
pub record KeyboardEvent : Type 0 where
  pub scancode : ℕ
  pub shift : Bool
  pub caps_lock : Bool
  pub ctrl : Bool
  pub alt : Bool
  pub special : Bool
  pub release : Bool
  pub enter : Bool
  pub backspace : Bool
  pub up_arrow : Bool
  pub down_arrow : Bool
  pub left_arrow : Bool
  pub right_arrow : Bool

-- The variables of the module, `extended` of `read_keyboard` included.
pub record Keyboard : Type 0 where
  pub shift_pressed : Bool
  pub caps_lock_active : Bool
  pub extended : Bool

-- `scancode_to_ascii` up to its last entry that is not 0.
abbrev scancode_to_ascii : List ℕ
scancode_to_ascii =
    0 ∷ 0 ∷ 49 ∷ 50 ∷ 51 ∷ 52 ∷ 53 ∷ 54 ∷ 55 ∷ 56 ∷ 57 ∷ 48 ∷ 45 ∷ 61 ∷ 0 ∷ 0 ∷ 113 ∷ 119 ∷ 101
    ∷ 114 ∷ 116 ∷ 121 ∷ 117 ∷ 105 ∷ 111 ∷ 112 ∷ 91 ∷ 93 ∷ 10 ∷ 0 ∷ 97 ∷ 115 ∷ 100 ∷ 102 ∷ 103 ∷ 104
    ∷ 106 ∷ 107 ∷ 108 ∷ 59 ∷ 39 ∷ 96 ∷ 0 ∷ 92 ∷ 122 ∷ 120 ∷ 99 ∷ 118 ∷ 98 ∷ 110 ∷ 109 ∷ 44 ∷ 46 ∷ 47
    ∷ 0 ∷ 42 ∷ 0 ∷ 32 ∷ []

unfoldable pub toupper : ℕ → ℕ
toupper c = if leb 97 c && leb c 122 then c - 32 else c

unfoldable pub kb_to_ascii : KeyboardEvent → ℕ
kb_to_ascii event =
    let ascii = get_or scancode_to_ascii event.scancode 0 in
    if leb 128 event.scancode
    then 0
    else (if event.shift || event.caps_lock then toupper ascii else ascii)

abbrev pub is_shift : ℕ → Bool
is_shift code = code == 42 || code == 54

abbrev pub is_shift_release : ℕ → Bool
is_shift_release code = code == 170 || code == 182

-- The state behind a scan code.
unfoldable pub next_state : ℕ → Keyboard → Keyboard
next_state code k = if code == 224 then record k { extended = true } else record {
  shift_pressed =
      if is_shift code then true else (if is_shift_release code then false else k.shift_pressed);
  caps_lock_active = if code == 58 then not k.caps_lock_active else k.caps_lock_active;
  extended = false;
}

unfoldable pub read_keyboard : ℕ → Keyboard → KeyboardEvent × Keyboard
read_keyboard code k =
    let k' = next_state code k in
    let prefix = code == 224 in
    (
      record {
        scancode = code;
        shift = k'.shift_pressed;
        caps_lock = k'.caps_lock_active;
        ctrl = false;
        alt = false;
        special = prefix || k.extended;
        release = not prefix && leb 128 (code % 256);
        enter = not prefix && code == 28;
        backspace = not prefix && code == 14;
        up_arrow = not prefix && k.extended && code == 72;
        down_arrow = not prefix && k.extended && code == 80;
        left_arrow = not prefix && k.extended && code == 75;
        right_arrow = not prefix && k.extended && code == 77;
      },
      k',
    )

-- The ring of src/kernel/syscalls.cpp that system calls read typed characters from.
pub record KeyRing : Type 0 where
  pub keyboard_buffer : List ℕ
  pub keyboard_buffer_head : ℕ
  pub keyboard_buffer_tail : ℕ

unfoldable pub keyboard_buffer_push : ℕ → KeyRing → KeyRing
keyboard_buffer_push c r =
    let next_head = (r.keyboard_buffer_head + 1) % keyboard_buffer_size in
    if next_head == r.keyboard_buffer_tail then r else record r {
      keyboard_buffer = set r.keyboard_buffer r.keyboard_buffer_head c;
      keyboard_buffer_head = next_head;
    }

unfoldable pub keyboard_buffer_pop : KeyRing → ℕ × KeyRing
keyboard_buffer_pop r = if r.keyboard_buffer_head == r.keyboard_buffer_tail then (0, r) else (
  get_or r.keyboard_buffer r.keyboard_buffer_tail 0,
  record r { keyboard_buffer_tail = (r.keyboard_buffer_tail + 1) % keyboard_buffer_size },
)

module _ {E : Type 0} (blank : E) (keyboard_event : KeyboardEvent → E) where
  -- An event given to a process, which is woken if it waits for one.
  unfoldable pub deliver : KeyboardEvent → ℕ → Scheduler E → Scheduler E
  deliver event a s = scheduler_resume_processes_for_event signal (s.processes a).pid (record s {
    processes = update a (push_io_event blank (keyboard_event event) (s.processes a)) s.processes;
  })

  -- The process in the foreground, else the shell's, else the current one; `none` is the shell's own
  -- handler.
  unfoldable pub target_of : Option ℕ → Scheduler E → Option ℕ
  target_of shell s = elim s.foreground_proc [
    | some a ↦ some a
    | none ↦ elim shell [ some a ↦ some a | none ↦ scheduler_current_process s ]
  ]

  unfoldable pub dispatch_keyboard_event :
      KeyboardEvent
      → Option ℕ
      → (KeyboardEvent → Scheduler E → Scheduler E)
      → KeyRing
      → Scheduler E
      → KeyRing × Scheduler E
  dispatch_keyboard_event event shell shell_handle_key r s =
      let c = kb_to_ascii event in
      (
        if event.release || c == 0 then r else keyboard_buffer_push c r,
        elim (target_of shell s) [ none ↦ shell_handle_key event s | some a ↦ deliver event a s ],
      )
