-- ===== src/Process/EventQueue/Integrity.antt =====
-- What the check of a ring makes of it.
use continuum_os.Common.{
  ℕ, ◌+◌, ◌%◌, ◌≤◌, ◌<◌, ◌≡◌, refl, List, arith, length, length-replicate, ◌==◌, Bool-cases, inl,
  inr, not, ◌||◌,
}
use continuum_os.Common.Int.{ℤ, pos, negsuc}
use continuum_os.Process.EventQueue.{
  EventQueue, event_queue_guard, normalize_index, repair_index, repair_range, distance,
  repair_count, reset_event_queue, repair, ensure_integrity,
}

-- A ring in order: its storage, its guards, its indices, and the count that they stand for.
pub record IsValid {E : Type 0} (q : EventQueue E) : Type 0 where
  pub storage : length q.queue ≡ 128
  pub front : q.guard_front ≡ event_queue_guard
  pub back : q.guard_back ≡ event_queue_guard
  pub h : ℕ
  pub head_is : q.head ≡ pos h
  pub head_lt : h < 128
  pub t : ℕ
  pub tail_is : q.tail ≡ pos t
  pub tail_lt : t < 128
  pub c : ℕ
  pub count_is : q.count ≡ pos c
  pub count_le : c ≤ 128
  pub ends : (t + c) % 128 ≡ h

repair_index-lt : (i : ℤ) → repair_index i < 128
unfolding repair_index normalize_index
repair_index-lt (pos n) = ground arith
repair_index-lt (negsuc n) = omega arith

repaired_count :
    (count h t : ℕ)
    → count ≤ 128
    → h < 128
    → t < 128
    → (repair_count count (distance h t) ≤ 128)
      × ((t + repair_count count (distance h t)) % 128 ≡ h)
unfolding repair_count distance
repaired_count count h t c l m = ground arith

repair_range-le : (i : ℤ) → repair_range i ≤ 128
unfolding repair_range
repair_range-le (pos n) = ground arith
repair_range-le (negsuc n) = omega arith

module _ {E : Type 0} (blank : E) where
  -- Whatever the guards, indices and count of a ring of 128 slots were, after the check the ring is
  -- valid.
  pub ensure_integrity-IsValid :
      (q : EventQueue E) → length q.queue ≡ 128 → IsValid (ensure_integrity blank q)
  unfolding ensure_integrity repair reset_event_queue
  ensure_integrity-IsValid q s =
      elim (Bool-cases
        (not (q.guard_front == event_queue_guard) || not (q.guard_back == event_queue_guard))) [
          | inl bad ↦ rw bad (record {
            storage = length-replicate 128 blank;
            front = refl;
            back = refl;
            h = 0;
            head_is = refl;
            head_lt = omega arith;
            t = 0;
            tail_is = refl;
            tail_lt = omega arith;
            c = 0;
            count_is = refl;
            count_le = omega arith;
            ends = refl;
          })
          | inr fine ↦ rw fine (record {
            storage = s;
            front = refl;
            back = refl;
            h = repair_index q.head;
            head_is = refl;
            head_lt = repair_index-lt q.head;
            t = repair_index q.tail;
            tail_is = refl;
            tail_lt = repair_index-lt q.tail;
            c =
                repair_count (repair_range q.count)
                  (distance (repair_index q.head) (repair_index q.tail));
            count_is = refl;
            count_le =
                (repaired_count (repair_range q.count) (repair_index q.head) (repair_index q.tail)
                  (repair_range-le q.count) (repair_index-lt q.head) (repair_index-lt q.tail)).0;
            ends =
                (repaired_count (repair_range q.count) (repair_index q.head) (repair_index q.tail)
                  (repair_range-le q.count) (repair_index-lt q.head) (repair_index-lt q.tail)).1;
          })
        ]

  index_same : (n : ℕ) → n < 128 → repair_index (pos n) ≡ n
  unfolding repair_index
  index_same n l = ground arith

  range_same : (n : ℕ) → n ≤ 128 → repair_range (pos n) ≡ n
  unfolding repair_range
  range_same n l = ground arith

  count_same :
      (c h t : ℕ)
      → c ≤ 128
      → h < 128
      → t < 128
      → (t + c) % 128 ≡ h
      → repair_count c (distance h t) ≡ c
  unfolding repair_count distance
  count_same c h t l hh ht e = ground arith

  -- The check leaves a valid ring as it is.
  pub ensure_integrity_valid : (q : EventQueue E) → IsValid q → ensure_integrity blank q ≡ q
  unfolding ensure_integrity repair
  ensure_integrity_valid q v = ground (
    arith,
    index_same v.h v.head_lt,
    index_same v.t v.tail_lt,
    range_same v.c v.count_le,
    count_same v.c v.h v.t v.count_le v.head_lt v.tail_lt v.ends,
  )

abbrev pub ring : {E : Type 0} → List E → ℕ → ℕ → ℕ → EventQueue E
ring slots h t c = record {
  guard_front = event_queue_guard;
  queue = slots;
  head = pos h;
  tail = pos t;
  count = pos c;
  guard_back = event_queue_guard;
}

-- A valid ring has no other form.
pub IsValid-ring : {E : Type 0} {q : EventQueue E} (v : IsValid q) → q ≡ ring q.queue v.h v.t v.c
IsValid-ring v = ground arith

pub ring-IsValid :
    {E : Type 0} (slots : List E) (h t c : ℕ)
    → length slots ≡ 128
    → h < 128
    → t < 128
    → c ≤ 128
    → (t + c) % 128 ≡ h
    → IsValid (ring slots h t c)
ring-IsValid slots h t c s hh ht hc e = record {
  storage = s;
  front = refl;
  back = refl;
  h = h;
  head_is = refl;
  head_lt = hh;
  t = t;
  tail_is = refl;
  tail_lt = ht;
  c = c;
  count_is = refl;
  count_le = hc;
  ends = e;
}
