-- ===== src/Process/Waiting.antt =====
-- `process_wait_for_io_event` of src/kernel/process.cpp.
use mathlib.Core.Path.{subst}
use continuum_os.Common.{
  ℕ, ◌≤◌, ◌≡◌, refl, sym, ap, ◌∙◌, List, [], ◌∷◌, ◌++◌, Option, none, some, Bool, true, false,
  arith, length, if◌then◌else◌, Bool-cases, inl, inr, leb, ◌⊎◌,
}
use continuum_os.Process.{
  Process, Hook, HookType, time_reached, signal, custom, has_hook, add_hook, max_hooks_per_process,
  process_has_matching_hook, process_register_hook, process_yield_for_event,
  process_wait_for_io_event, pop_io_event, after_wait, matches, process_is_valid, with_events,
}

-- Whether a process is blocked on an event, or its eight hooks are taken.
unfoldable pub Blocked : HookType → ℕ → List Hook → Type 0
Blocked type value hs = (has_hook type value hs ≡ true) ⊎ (max_hooks_per_process ≤ length hs)

has_hook-append :
    (type : HookType) (value : ℕ) (hs : List Hook)
    → has_hook type value (hs ++ record { type = type; trigger_value = value } ∷ []) ≡ true
unfolding has_hook
has_hook-append type value [] = itself type
  where
    itself :
        (type : HookType)
        → (if matches type value record { type = type; trigger_value = value } then true else false)
          ≡ true
    itself time_reached = ground arith
    itself signal = ground arith
    itself custom = ground arith
has_hook-append type value (h ∷ hs) =
    rw (has_hook-append type value hs) (either (matches type value h))
  where
    either : (b : Bool) → (if b then true else true) ≡ true
    either true = refl
    either false = refl

module _ {E : Type 0} where
  -- Yielding leaves the process blocked on the event, and never adds a second hook on it.
  process_yield_for_event-Blocked :
      (type : HookType) (value : ℕ) (p : Process E)
      → Blocked type value (process_yield_for_event type value p).hooks
  unfolding process_yield_for_event process_has_matching_hook process_register_hook add_hook Blocked
  process_yield_for_event-Blocked type value p = elim (Bool-cases (has_hook type value p.hooks)) [
    | inl y ↦ rw y (inl y)
    | inr n ↦ rw n (elim (Bool-cases (leb max_hooks_per_process (length p.hooks))) [
      | inl full ↦ rw full (inr (ground arith))
      | inr room ↦ rw room (inl (has_hook-append type value p.hooks))
    ])
  ]

module _ {E : Type 0} (blank : E) where
  pop_pid : (p : Process E) → (pop_io_event blank p).1.pid ≡ p.pid
  unfolding pop_io_event with_events
  pop_pid p = elim (Bool-cases (process_is_valid p)) [ inl y ↦ rw y refl | inr n ↦ rw n refl ]

  -- What waiting for an event comes to.
  pub data Waits (p : Process E) (r : Option E × Process E) : Type 0 where
    served : (event : E) → r.0 ≡ some event → r ≡ pop_io_event blank p → Waits p r
    blocked :
        (pop_io_event blank p).0 ≡ none → r.0 ≡ none → Blocked signal p.pid r.1.hooks → Waits p r

  -- A process that waits for an event gets the one that `pop_io_event` takes, with nothing else
  -- changed, or gets none where the queue had none, and is then blocked on the signal of its own
  -- pid unless its eight hooks are taken.
  pub process_wait_for_io_event-Waits :
      (p : Process E) → Waits p (process_wait_for_io_event blank p)
  unfolding process_wait_for_io_event after_wait
  process_wait_for_io_event-Waits p = outcome (pop_io_event blank p) refl
    where
      outcome : (r : Option E × Process E) → pop_io_event blank p ≡ r → Waits p (after_wait blank r)
      outcome (some event, p') e = served event refl (sym e)
      outcome (none, p') e =
          let same : p'.pid ≡ p.pid =
            ap (λ (r : Option E × Process E). r.1.pid) (sym e) ∙ pop_pid p in
          blocked (ap (λ (r : Option E × Process E). r.0) e) refl (
            subst (λ pid. Blocked signal pid (process_yield_for_event signal p'.pid p').hooks) same
              (process_yield_for_event-Blocked signal p'.pid p'))
