-- ===== src/Scheduler/Events.antt =====
-- What an event does to the processes of the table, in src/kernel/scheduler.cpp:
-- `scheduler_resume_processes_for_event` and `dispatch_focus_event`.
use continuum_os.Common.{
  ℕ, zero, suc, ◌+◌, ◌<◌, ◌≡◌, refl, ap, ◌∙◌, sym, List, [], ◌∷◌, Option, none, some, Bool, true,
  false, arith, length, if◌then◌else◌, Bool-cases, inl, inr, ◌==◌,
}
use continuum_os.Common.Int.{ℤ}
use continuum_os.Process.{
  Process, Hook, HookType, signal, remove_hook, has_hook, push_io_event, process_has_matching_hook,
}
use continuum_os.Process.Hooks.{
  others, Removal, absent, removed, remove_hook-Removal, has_hook-others,
}
use continuum_os.Scheduler.{
  Scheduler, remove_hooks, resume_process, resume_slots, scheduler_resume_processes_for_event,
  update, dispatch_focus_event,
}

remove_hooks-others :
    (fuel : ℕ) (type : HookType) (value : ℕ) (hs : List Hook)
    → length hs < fuel
    → remove_hooks fuel type value hs ≡ others type value hs
unfolding remove_hooks
remove_hooks-others zero type value hs enough = absurd (omega arith)
remove_hooks-others (suc fuel) type value hs enough =
    step (remove_hook type value hs) (remove_hook-Removal type value hs)
      (λ hs' l. remove_hooks-others fuel type value hs' l)
  where
    step :
        (r : Option (List Hook))
        → Removal type value hs r
        → ((hs' : List Hook)
            → length hs' < fuel
            → remove_hooks fuel type value hs' ≡ others type value hs')
        → elim r [ none ↦ hs | some hs' ↦ remove_hooks fuel type value hs' ] ≡ others type value hs
    step r (absent e o n) ih = rw e (sym o)
    step r (removed hs' e o l y) ih = rw e (ih hs' (omega arith) ∙ o)

others-unhooked :
    (type : HookType) (value : ℕ) (hs : List Hook)
    → has_hook type value hs ≡ false
    → others type value hs ≡ hs
others-unhooked type value hs n = step (remove_hook-Removal type value hs)
  where
    step : {r : Option (List Hook)} → Removal type value hs r → others type value hs ≡ hs
    step (absent e o n') = o
    step (removed hs' e o l y) = ground arith

others-idempotent :
    (type : HookType) (value : ℕ) (hs : List Hook)
    → others type value (others type value hs) ≡ others type value hs
others-idempotent type value hs =
    others-unhooked type value (others type value hs) (has_hook-others type value hs)

-- An address stands in the process table.
unfoldable pub in_table : ℕ → List (Option ℕ) → Bool
in_table a [] = false
in_table a (none ∷ table) = in_table a table
in_table a (some b ∷ table) = if a == b then true else in_table a table

module _ {E : Type 0} where
  -- A process without its hooks on an event.
  abbrev pub woken : HookType → ℕ → Process E → Process E
  woken type value p = record p { hooks = others type value p.hooks }

  resume_process-woken :
      (type : HookType) (value : ℕ) (p : Process E)
      → resume_process type value p ≡ woken type value p
  unfolding resume_process process_has_matching_hook
  resume_process-woken type value p = elim (Bool-cases (has_hook type value p.hooks)) [
    | inl y ↦ rw (y, remove_hooks-others (length p.hooks + 1) type value p.hooks (omega arith)) refl
    | inr n ↦ rw (n, others-unhooked type value p.hooks n) refl
  ]

  resume_slots-woken :
      (type : HookType) (value : ℕ) (table : List (Option ℕ)) (store : ℕ → Process E) (a : ℕ)
      → resume_slots type value table store a
        ≡ (if in_table a table then woken type value (store a) else store a)
  unfolding resume_slots in_table
  resume_slots-woken type value [] store a = refl
  resume_slots-woken type value (none ∷ table) store a = resume_slots-woken type value table store a
  resume_slots-woken type value (some b ∷ table) store a =
      resume_slots-woken type value table (update b (resume_process type value (store b)) store) a
      ∙ there
    where
      there :
          (if in_table a table
            then woken type value (update b (resume_process type value (store b)) store a)
            else update b (resume_process type value (store b)) store a)
          ≡ (if (if a == b then true else in_table a table)
              then woken type value (store a)
              else store a)
      there = elim (Bool-cases (a == b)) [
        | inl y ↦
            let same : a ≡ b = ground arith in
            rw (y, same, resume_process-woken type value (store b)) (twice (in_table b table))
        | inr n ↦ rw n refl
      ]
        where
          twice :
              (known : Bool)
              → (if known
                  then woken type value (woken type value (store b))
                  else woken type value (store b))
                ≡ woken type value (store b)
          twice true = rw (others-idempotent type value (store b).hooks) refl
          twice false = refl

  -- An event takes the hooks on it from every process in the table, whether it is alive or not, keeps
  -- the rest of each such process, its other hooks in their order, and leaves every process outside the
  -- table alone.
  pub scheduler_resume_processes_for_event-Woken :
      (type : HookType) (value : ℕ) (s : Scheduler E) (a : ℕ)
      → (scheduler_resume_processes_for_event type value s).processes a
        ≡ (if in_table a s.process_table then woken type value (s.processes a) else s.processes a)
  unfolding scheduler_resume_processes_for_event
  scheduler_resume_processes_for_event-Woken type value s a =
      resume_slots-woken type value s.process_table s.processes a

  -- After an event no process of the table waits for it any more.
  pub nobody_waits :
      (type : HookType) (value : ℕ) (s : Scheduler E) (a : ℕ)
      → in_table a s.process_table ≡ true
      → has_hook type value ((scheduler_resume_processes_for_event type value s).processes a).hooks
        ≡ false
  nobody_waits type value s a known =
      rw (scheduler_resume_processes_for_event-Woken type value s a, known)
        (has_hook-others type value (s.processes a).hooks)

module _ {E : Type 0} (blank : E) (process_event : ℕ → ℤ → E) where
  -- A focus event sent to a living process of the table is pushed on its queue, and its hooks on the
  -- signal of its own pid go.
  pub dispatch_focus_event_wakes :
      (a code : ℕ) (value : ℤ) (s : Scheduler E)
      → (s.processes a).alive ≡ true
      → in_table a s.process_table ≡ true
      → (dispatch_focus_event blank process_event (some a) code value s).processes a
        ≡ woken signal
            (s.processes a).pid
            (push_io_event blank (process_event code value) (s.processes a))
  unfolding dispatch_focus_event
  dispatch_focus_event_wakes a code value s living known =
      let self : (a == a) ≡ true = ground arith in
      let event = push_io_event blank (process_event code value) (s.processes a) in
      let s' : Scheduler E = record s { processes = update a event s.processes } in
      let after = scheduler_resume_processes_for_event signal (s.processes a).pid s' in
      ap (λ b. (if b then after else s).processes a) living
      ∙ scheduler_resume_processes_for_event-Woken signal (s.processes a).pid s' a
      ∙ rw (known, self) refl
