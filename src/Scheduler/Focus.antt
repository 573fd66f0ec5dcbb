-- ===== src/Scheduler/Focus.antt =====
-- The foreground process and the stack of those behind it, in src/kernel/scheduler.cpp and
-- `kill_process` of src/kernel/process.cpp.
use mathlib.Core.Path.{subst}
use continuum_os.Common.{
  ℕ, ◌<◌, ◌≡◌, ◌≢◌, refl, ap, sym, ◌∙◌, List, [], ◌∷◌, Option, none, some, Bool, true, false, arith,
  length, if◌then◌else◌, Bool-cases, inl, inr, ◌==◌, ltb,
}
use continuum_os.Common.Int.{ℤ}
use continuum_os.Process.{
  Process, HookType, push_io_event, process_is_valid, register_keyboard_handler, signal,
}
use continuum_os.Scheduler.{
  Scheduler, scheduler_resume_processes_for_event, dispatch_focus_event,
  scheduler_switch_foreground, scheduler_set_foreground, scheduler_restore_foreground, restore,
  clear_hooks, kill_process, same_pointer, update, push_previous, pop_target, max_processes,
}
use continuum_os.Scheduler.Events.{scheduler_resume_processes_for_event-Woken, in_table, woken}

push_io_event_alive :
    {E : Type 0} (blank event : E) (p : Process E) → (push_io_event blank event p).alive ≡ p.alive
unfolding push_io_event
push_io_event_alive blank event p = elim (Bool-cases (process_is_valid p)) [
  | inl y ↦ rw y refl
  | inr n ↦ rw n refl
]

-- What the focus events leave alone.
pub record Keeps {E : Type 0} (s s' : Scheduler E) : Type 0 where
  pub foreground : s'.foreground_proc ≡ s.foreground_proc
  pub stack : s'.foreground_stack ≡ s.foreground_stack
  pub life : (a : ℕ) → (s'.processes a).alive ≡ (s.processes a).alive

module _ {E : Type 0} where
  Keeps-refl : (s : Scheduler E) → Keeps s s
  Keeps-refl s = record { foreground = refl; stack = refl; life = λ a. refl }

  Keeps-trans : {s s' s'' : Scheduler E} → Keeps s s' → Keeps s' s'' → Keeps s s''
  Keeps-trans k k' = record {
    foreground = k'.foreground ∙ k.foreground;
    stack = k'.stack ∙ k.stack;
    life = λ a. k'.life a ∙ k.life a;
  }

  resume-Keeps :
      (type : HookType) (value : ℕ) (s : Scheduler E)
      → Keeps s (scheduler_resume_processes_for_event type value s)
  unfolding scheduler_resume_processes_for_event
  resume-Keeps type value s = record { foreground = refl; stack = refl; life = same }
    where
      either : (b : Bool) (p : Process E) → (if b then woken type value p else p).alive ≡ p.alive
      either true p = refl
      either false p = refl

      same :
          (a : ℕ)
          → ((scheduler_resume_processes_for_event type value s).processes a).alive
            ≡ (s.processes a).alive
      same a =
          ap (λ (p : Process E). p.alive)
            (scheduler_resume_processes_for_event-Woken type value s a)
          ∙ either (in_table a s.process_table) (s.processes a)

  update-Keeps :
      (at : ℕ) (p : Process E) (s : Scheduler E)
      → p.alive ≡ (s.processes at).alive
      → Keeps s (record s { processes = update at p s.processes })
  update-Keeps at p s e = record { foreground = refl; stack = refl; life = same }
    where
      same : (a : ℕ) → (update at p s.processes a).alive ≡ (s.processes a).alive
      same a = elim (Bool-cases (a == at)) [
        | inl y ↦ let here : a ≡ at = ground arith in rw (y, here) e
        | inr n ↦ rw n refl
      ]

module _ {E : Type 0} (blank : E) (process_event : ℕ → ℤ → E) where
  dispatch-Keeps :
      (a : Option ℕ) (code : ℕ) (value : ℤ) (s : Scheduler E)
      → Keeps s (dispatch_focus_event blank process_event a code value s)
  unfolding dispatch_focus_event
  dispatch-Keeps none code value s = Keeps-refl s
  dispatch-Keeps (some a) code value s = either (s.processes a).alive
    where
      event : Process E
      event = push_io_event blank (process_event code value) (s.processes a)

      s' : Scheduler E
      s' = record s { processes = update a event s.processes }

      either :
          (b : Bool)
          → Keeps s
              (if b then scheduler_resume_processes_for_event signal (s.processes a).pid s' else s)
      either true =
          Keeps-trans
            (update-Keeps a event s
              (push_io_event_alive blank (process_event code value) (s.processes a)))
            (resume-Keeps signal (s.processes a).pid s')
      either false = Keeps-refl s

  -- The switch itself: the new owner, and nobody else's life or the stack.
  switch-Keeps :
      (prev next : Option ℕ) (s : Scheduler E)
      → same_pointer prev next ≡ false
      → Keeps
          (record s { foreground_proc = next })
          (scheduler_switch_foreground blank process_event prev next s)
  unfolding scheduler_switch_foreground
  switch-Keeps prev next s differ =
      rw differ (Keeps-trans (dispatch-Keeps prev 2 _ _) (dispatch-Keeps next 1 _ _))

  refocus :
      {s s' : Scheduler E} (front : Option ℕ)
      → Keeps s s'
      → Keeps (record s { foreground_proc = front }) (record s' { foreground_proc = front })
  refocus front k = record { foreground = refl; stack = k.stack; life = k.life }

  clear_hooks-Keeps :
      (a : Option ℕ) (s : Scheduler E) → Keeps s (clear_hooks blank process_event a s)
  unfolding clear_hooks
  clear_hooks-Keeps none s = Keeps-refl s
  clear_hooks-Keeps (some a) s = either (s.processes a).alive
    where
      either :
          (b : Bool)
          → Keeps s (
              if b
              then record s {
                processes = update a (record (s.processes a) { hooks = [] }) s.processes;
              }
              else s)
      either true = update-Keeps a (record (s.processes a) { hooks = [] }) s refl
      either false = Keeps-refl s

  set_foreground-Keeps :
      (a b : ℕ) (s : Scheduler E)
      → s.foreground_proc ≡ some a
      → a ≢ b
      → length s.foreground_stack < 32
      → Keeps
          (record s { foreground_proc = some b; foreground_stack = a ∷ s.foreground_stack })
          (scheduler_set_foreground blank process_event (some b) s)
  unfolding scheduler_set_foreground
  set_foreground-Keeps a b s front ne room =
      let differ : (a == b) ≡ false = ground arith in
      let fits : ltb (length s.foreground_stack) max_processes ≡ true = ground arith in
      let old : Scheduler E = record s { foreground_stack = a ∷ s.foreground_stack } in
      subst
        (λ prev.
          Keeps (record old { foreground_proc = some b })
            (if same_pointer prev (some b)
              then s
              else scheduler_switch_foreground blank process_event prev (some b) (record s {
                foreground_stack = push_previous blank process_event prev s.foreground_stack;
              })))
        (sym front) (rw (differ, fits) (switch-Keeps (some a) (some b) old differ))

  restore_foreground-Keeps :
      (a b : ℕ) (stack : List ℕ) (s : Scheduler E)
      → s.foreground_proc ≡ some b
      → s.foreground_stack ≡ a ∷ stack
      → a ≢ b
      → Keeps
          (record s { foreground_proc = some a; foreground_stack = stack })
          (scheduler_restore_foreground blank process_event (some b) s)
  unfolding scheduler_restore_foreground restore
  restore_foreground-Keeps a b stack s front top ne =
      let self : (b == b) ≡ true = ground arith in
      let differ : (b == a) ≡ false = ground arith in
      let old : Scheduler E = record s { foreground_stack = stack } in
      let cleared = clear_hooks blank process_event (some a) old in
      subst
        (λ (w : Option ℕ × List ℕ).
          Keeps (record old { foreground_proc = some a })
            (if same_pointer (some b) w.0
              then restore blank process_event (pop_target blank process_event w.1) s
              else s))
        (λ i. (sym front i, sym top i))
        (rw self (
          subst
            (λ prev.
              Keeps (record old { foreground_proc = some a })
                (scheduler_switch_foreground blank process_event prev (some a) cleared))
            (sym front)
            (Keeps-trans (refocus (some a) (clear_hooks-Keeps (some a) old))
              (switch-Keeps (some b) (some a) cleared differ))))

  -- With room on the stack, giving the foreground to another process and then taking it back from
  -- that one leaves the foreground and the stack as they were, and no process dies or comes to life.
  pub restore-set_foreground :
      (a b : ℕ) (s : Scheduler E)
      → s.foreground_proc ≡ some a
      → a ≢ b
      → length s.foreground_stack < 32
      → Keeps s (
          scheduler_restore_foreground blank process_event
            (some b)
            (scheduler_set_foreground blank process_event (some b) s))
  restore-set_foreground a b s front ne room =
      let k = set_foreground-Keeps a b s front ne room in
      let there = scheduler_set_foreground blank process_event (some b) s in
      let l = restore_foreground-Keeps a b s.foreground_stack there k.foreground k.stack ne in
      record {
        foreground = l.foreground ∙ sym front;
        stack = l.stack;
        life = λ c. l.life c ∙ k.life c;
      }

  killed : ℕ → Scheduler E → Scheduler E
  killed a s = record s {
    processes =
        update a (record (register_keyboard_handler none (s.processes a)) { alive = false })
          s.processes;
  }

  killed_alive :
      (a b : ℕ) (s : Scheduler E)
      → (s.processes a).alive ≡ false
      → ((killed b s).processes a).alive ≡ false
  unfolding killed
  killed_alive a b s dead = elim (Bool-cases (a == b)) [ inl y ↦ rw y refl | inr n ↦ rw n dead ]

  kill_background :
      (a b : ℕ) (s : Scheduler E)
      → s.foreground_proc ≡ some b
      → a ≢ b
      → process_is_valid (s.processes a) ≡ true
      → kill_process blank process_event a s ≡ killed a s
  unfolding kill_process scheduler_restore_foreground killed
  kill_background a b s front ne valid =
      let differ : (a == b) ≡ false = ground arith in
      ap
        (λ v.
          if v then scheduler_restore_foreground blank process_event (some a) (killed a s) else s)
        valid
      ∙ ap
          (λ f.
            if same_pointer (some a) f
            then restore blank process_event (pop_target blank process_event s.foreground_stack)
                (killed a s)
            else killed a s)
          front
      ∙ rw differ refl

  -- A process that is killed while another is in the foreground stays on the stack: when that other
  -- one is killed too, the foreground goes to the dead process.
  pub killed_foreground :
      (a b : ℕ) (stack : List ℕ) (s : Scheduler E)
      → s.foreground_proc ≡ some b
      → s.foreground_stack ≡ a ∷ stack
      → a ≢ b
      → process_is_valid (s.processes a) ≡ true
      → process_is_valid (s.processes b) ≡ true
      → let r = kill_process blank process_event b (kill_process blank process_event a s) in
        (r.foreground_proc ≡ some a) × ((r.processes a).alive ≡ false)
  unfolding kill_process killed
  killed_foreground a b stack s front top ne va vb =
      let differ : (b == a) ≡ false = ground arith in
      let self : (a == a) ≡ true = ground arith in
      let s' = killed a s in
      let r = scheduler_restore_foreground blank process_event (some b) (killed b s') in
      let still : process_is_valid (s'.processes b) ≡ true = rw differ vb in
      let dead : (s'.processes a).alive ≡ false = rw self refl in
      let k = restore_foreground-Keeps a b stack (killed b s') front top ne in
      let gone : kill_process blank process_event b (kill_process blank process_event a s) ≡ r =
        ap (kill_process blank process_event b) (kill_background a b s front ne va)
        ∙ ap (λ v. if v then r else s') still in
      rw gone (k.foreground, k.life a ∙ killed_alive a b s' dead)
