-- ===== src/Process/EventQueue/Contents.antt =====
-- The ring as a queue of at most 128 events that gives up its oldest event for a new one.
use native.Mathlib.Decide.{dec_lt}
use continuum_os.Common.{
  ℕ, zero, suc, ◌+◌, ◌-◌, ◌%◌, ◌≤◌, ◌<◌, ◌≡◌, ◌≢◌, refl, ap, ◌∙◌, List, [], ◌∷◌, ◌++◌, Option, none,
  some, arith, length, get_or, set, length-set, get_or-set_self, get_or-set_ne, ◌==◌, if◌then◌else◌,
}
use continuum_os.Common.Int.{pos_part}
use continuum_os.Process.EventQueue.{
  EventQueue, ensure_integrity, drop_oldest, append_event, push, take_event, pop,
}
use continuum_os.Process.EventQueue.Integrity.{
  IsValid, ring, IsValid-ring, ring-IsValid, ensure_integrity-IsValid, ensure_integrity_valid,
}

-- The abstract queue, oldest first.
pub enqueue : {E : Type 0} → List E → E → List E
enqueue [] event = event ∷ []
enqueue (x ∷ xs) event = if length (x ∷ xs) == 128 then xs ++ event ∷ [] else (x ∷ xs) ++ event ∷ []

pub dequeue : {E : Type 0} → List E → Option E × List E
dequeue [] = (none, [])
dequeue (x ∷ xs) = (some x, xs)

module _ {E : Type 0} (blank : E) where
  -- The `n` events from slot `t` on, round the end.
  pub window : List E → ℕ → ℕ → List E
  window slots t zero = []
  window slots t (suc n) = get_or slots t blank ∷ window slots ((t + 1) % 128) n

  abbrev pub contents : EventQueue E → List E
  contents q = window q.queue (pos_part q.tail) (pos_part q.count)

  length-window : (slots : List E) (t n : ℕ) → length (window slots t n) ≡ n
  unfolding window
  length-window slots t zero = refl
  length-window slots t (suc n) = ap suc (length-window slots ((t + 1) % 128) n)

  -- A write just past the window, with the ring not full, extends it.
  window-set :
      (slots : List E) (e : E) (t n i : ℕ)
      → length slots ≡ 128
      → t < 128
      → n < 128
      → (t + n) % 128 ≡ i
      → window (set slots i e) t (suc n) ≡ window slots t n ++ e ∷ []
  unfolding window
  window-set slots e t zero i s ht hn q =
      rw same (ap (λ (x : E). x ∷ []) (get_or-set_self slots t e blank (omega arith)))
    where
      same : i ≡ t
      same = omega arith
  window-set slots e t (suc n) i s ht hn q = rw (get_or-set_ne slots i t e blank (omega arith)) (
      ap (λ (l : List E). get_or slots t blank ∷ l)
        (window-set slots e ((t + 1) % 128) n i s (omega arith) (omega arith) (omega arith)))

  take_ring :
      (slots : List E) (h t c : ℕ)
      → take_event blank (ring slots h t (suc c))
        ≡ (some (get_or slots t blank), ring slots h ((t + 1) % 128) c)
  unfolding take_event
  take_ring slots h t c = ground arith

  window_nonempty :
      (slots : List E) (t c : ℕ)
      → c ≢ 0
      → window slots t c ≡ get_or slots t blank ∷ window slots ((t + 1) % 128) (c - 1)
  unfolding window
  window_nonempty slots t zero ne = absurd (ne refl)
  window_nonempty slots t (suc c) ne = ap (λ k. window slots t (suc k)) (omega arith)

  push_room :
      (e : E) (slots : List E) (h t c : ℕ)
      → c < 128
      → append_event blank e (drop_oldest blank (ring slots h t c))
        ≡ ring (set slots h e) ((h + 1) % 128) t (suc c)
  unfolding append_event drop_oldest
  push_room e slots h t c l = ground arith

  push_full :
      (e : E) (slots : List E) (h t c : ℕ)
      → c ≡ 128
      → append_event blank e (drop_oldest blank (ring slots h t c))
        ≡ ring (set slots h e) ((h + 1) % 128) ((t + 1) % 128) 128
  unfolding append_event drop_oldest
  push_full e slots h t c l = ground arith

  enqueue_room : (l : List E) (e : E) → length l < 128 → enqueue l e ≡ l ++ e ∷ []
  unfolding enqueue
  enqueue_room [] e h = refl
  enqueue_room (x ∷ xs) e h = ground arith

  enqueue_full : (x : E) (xs : List E) (e : E) → length xs ≡ 127 → enqueue (x ∷ xs) e ≡ xs ++ e ∷ []
  unfolding enqueue
  enqueue_full x xs e h = ground arith

  -- What a call leaves: a valid ring that holds the given events.
  pub record Holds (q : EventQueue E) (events : List E) : Type 0 where
    pub valid : IsValid q
    pub holds : contents q ≡ events

  -- The same for an answer and the queue behind it.
  pub record Taken (r : Option E × EventQueue E) (l : Option E × List E) : Type 0 where
    pub answer : r.0 ≡ l.0
    pub valid : IsValid r.1
    pub left : contents r.1 ≡ l.1

  pushed_ring :
      (e : E) (slots : List E) (h t c : ℕ)
      → length slots ≡ 128
      → h < 128
      → t < 128
      → c ≤ 128
      → (t + c) % 128 ≡ h
      → Holds
          (append_event blank e (drop_oldest blank (ring slots h t c)))
          (enqueue (window slots t c) e)
  pushed_ring e slots h t c s hh ht hc ends = elim (dec_lt c 128) [
    | yes l ↦
        rw
          (
            push_room e slots h t c l,
            enqueue_room (window slots t c) e (omega (arith, length-window slots t c)),
          )
          (record {
            valid =
                ring-IsValid (set slots h e) ((h + 1) % 128) t (suc c) (length-set slots h e ∙ s)
                  (omega arith) ht (omega arith) (omega arith);
            holds = window-set slots e t c h s ht l ends;
          })
    | no g ↦
        let full : c ≡ 128 = omega arith in
        let one_less : c - 1 ≡ 127 = omega arith in
        rw
          (
            push_full e slots h t c full,
            window_nonempty slots t c (omega arith),
            enqueue_full (get_or slots t blank) (window slots ((t + 1) % 128) (c - 1)) e
                (omega (arith, length-window slots ((t + 1) % 128) (c - 1))),
          )
          (record {
            valid =
                ring-IsValid (set slots h e) ((h + 1) % 128) ((t + 1) % 128) 128
                  (length-set slots h e ∙ s) (omega arith) (omega arith) (omega arith)
                  (omega arith);
            holds = rw one_less (
                window-set slots e ((t + 1) % 128) 127 h s (omega arith) (omega arith)
                  (omega arith));
          })
  ]

  -- `push_io_event` into any ring of 128 slots leaves a valid ring with the new event behind those
  -- that the checked ring held, less the oldest if it held 128.
  pub push-Holds :
      (e : E) (q : EventQueue E)
      → length q.queue ≡ 128
      → Holds (push blank e q) (enqueue (contents (ensure_integrity blank q)) e)
  unfolding push
  push-Holds e q s =
      let v = ensure_integrity-IsValid blank q s in
      rw (IsValid-ring v) (
        pushed_ring e (ensure_integrity blank q).queue v.h v.t v.c v.storage v.head_lt v.tail_lt
          v.count_le v.ends)

  took_ring :
      (slots : List E) (h t c : ℕ)
      → length slots ≡ 128
      → h < 128
      → t < 128
      → c ≤ 128
      → (t + c) % 128 ≡ h
      → Taken (take_event blank (ring slots h t c)) (dequeue (window slots t c))
  unfolding take_event dequeue window
  took_ring slots h t zero s hh ht hc ends = record {
    answer = refl;
    valid = ring-IsValid slots h t 0 s hh ht hc ends;
    left = refl;
  }
  took_ring slots h t (suc c) s hh ht hc ends = rw take_ring (record {
    answer = refl;
    valid = ring-IsValid slots h ((t + 1) % 128) c s hh (omega arith) (omega arith) (omega arith);
    left = refl;
  })

  -- `pop_io_event` from any ring of 128 slots answers with the oldest event that the checked ring
  -- held, or with none, and leaves a valid ring with the others.
  pub pop-Taken :
      (q : EventQueue E)
      → length q.queue ≡ 128
      → Taken (pop blank q) (dequeue (contents (ensure_integrity blank q)))
  unfolding pop
  pop-Taken q s =
      let v = ensure_integrity-IsValid blank q s in
      rw (IsValid-ring v) (
        took_ring (ensure_integrity blank q).queue v.h v.t v.c v.storage v.head_lt v.tail_lt
          v.count_le v.ends)

  pub data Op : Type 0 where
    pushes : E → Op
    pops : Op

  -- A client's calls in order, with what each pop answers.
  pub run : EventQueue E → List Op → List (Option E)
  run q [] = []
  run q (pushes e ∷ ops) = run (push blank e q) ops
  run q (pops ∷ ops) = let (out, q') = pop blank q in out ∷ run q' ops

  pub run_queue : List E → List Op → List (Option E)
  run_queue l [] = []
  run_queue l (pushes e ∷ ops) = run_queue (enqueue l e) ops
  run_queue l (pops ∷ ops) = let (out, l') = dequeue l in out ∷ run_queue l' ops

  -- No sequence of pushes and pops tells a valid ring from the queue of the events that it holds.
  pub run-run_queue :
      (ops : List Op) (q : EventQueue E) → IsValid q → run q ops ≡ run_queue (contents q) ops
  unfolding run run_queue
  run-run_queue [] q v = refl
  run-run_queue (pushes e ∷ ops) q v =
      let p = push-Holds e q v.storage in
      run-run_queue ops (push blank e q) p.valid
      ∙ ap (λ (l : List E). run_queue l ops)
          (p.holds
            ∙ ap (λ (r : EventQueue E). enqueue (contents r) e) (ensure_integrity_valid blank q v))
  run-run_queue (pops ∷ ops) q v =
      let p = pop-Taken q v.storage in
      rw
        (
          run-run_queue ops (pop blank q).1 p.valid,
          p.answer,
          p.left,
          ensure_integrity_valid blank q v,
        )
        refl
