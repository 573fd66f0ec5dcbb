-- ===== src/Process/EventQueue.antt =====
-- The per-process ring of I/O events (`EventQueue`), and the check that repairs it before each use.
-- Events are only moved, so their type is a parameter; `blank` is the source's `IOEvent{}`.
pub mod Integrity
pub mod Contents
use continuum_os.Common.{
  ℕ, zero, suc, ◌+◌, ◌-◌, ◌%◌, Bool, true, false, ◌&&◌, ◌||◌, not, Option, none, some, List, [],
  ◌∷◌, ltb, leb, ◌==◌, if◌then◌else◌, get_or, set, replicate,
}
use continuum_os.Common.Int.{ℤ, pos, negsuc, pos_part}

abbrev pub max_event_queue_size : ℕ
max_event_queue_size = 128

abbrev pub event_queue_guard : ℕ
event_queue_guard = 0xE17E_17E1

pub record EventQueue (E : Type 0) : Type 0 where
  pub guard_front : ℕ
  pub queue : List E
  pub head : ℤ
  pub tail : ℤ
  pub count : ℤ
  pub guard_back : ℕ

-- `%` of C on an int: the remainder has the sign of the dividend.
pub normalize_index : ℤ → ℕ
normalize_index (negsuc n) =
    (max_event_queue_size - suc n % max_event_queue_size) % max_event_queue_size
normalize_index (pos n) = n % max_event_queue_size

-- An index as the check leaves it.
pub repair_index : ℤ → ℕ
repair_index (negsuc n) = normalize_index (negsuc n)
repair_index (pos n) = if leb max_event_queue_size n then normalize_index (pos n) else n

pub repair_range : ℤ → ℕ
repair_range (negsuc n) = 0
repair_range (pos n) = if ltb max_event_queue_size n then 0 else n

-- `head - tail`, plus the size where that is negative; both lie in the ring.
pub distance : ℕ → ℕ → ℕ
distance head tail = if ltb head tail then head + max_event_queue_size - tail else head - tail

-- The two comparisons of the count with the distance, one after the other.
pub repair_count : ℕ → ℕ → ℕ
repair_count count d =
    let c = if not (count == d) && not (count == max_event_queue_size) then d else count in
    if c == max_event_queue_size && not (d == 0) then d else c

module _ {E : Type 0} (blank : E) where
  pub reset_event_queue : EventQueue E → EventQueue E
  reset_event_queue q = record {
    guard_front = event_queue_guard;
    queue = replicate max_event_queue_size blank;
    head = pos 0;
    tail = pos 0;
    count = pos 0;
    guard_back = event_queue_guard;
  }

  -- The part of the check behind the guards. Writing the three numbers back also where none of them
  -- was adjusted changes nothing.
  pub repair : EventQueue E → EventQueue E
  repair q =
      let head = repair_index q.head in
      let tail = repair_index q.tail in
      record {
        guard_front = event_queue_guard;
        queue = q.queue;
        head = pos head;
        tail = pos tail;
        count = pos (repair_count (repair_range q.count) (distance head tail));
        guard_back = event_queue_guard;
      }

  pub ensure_integrity : EventQueue E → EventQueue E
  ensure_integrity q =
      if not (q.guard_front == event_queue_guard) || not (q.guard_back == event_queue_guard)
      then reset_event_queue q
      else repair q

  -- The first branch of `push_io_event`: a full ring drops its oldest event.
  pub drop_oldest : EventQueue E → EventQueue E
  drop_oldest q =
      if pos_part q.count == max_event_queue_size
      then record q {
        tail = pos ((pos_part q.tail + 1) % max_event_queue_size);
        count = pos (pos_part q.count - 1);
      }
      else q

  pub append_event : E → EventQueue E → EventQueue E
  append_event event q = record q {
    queue = set q.queue (pos_part q.head) event;
    head = pos ((pos_part q.head + 1) % max_event_queue_size);
    count =
        if ltb (pos_part q.count) max_event_queue_size then pos (pos_part q.count + 1) else q.count;
  }

  -- `push_io_event` on the queue of a valid process.
  pub push : E → EventQueue E → EventQueue E
  push event q = append_event event (drop_oldest (ensure_integrity q))

  -- `pop_io_event` behind the check.
  pub take_event : EventQueue E → Option E × EventQueue E
  take_event q = if pos_part q.count == 0 then (none, q) else (
    some (get_or q.queue (pos_part q.tail) blank),
    record q {
      tail = pos ((pos_part q.tail + 1) % max_event_queue_size);
      count = pos (pos_part q.count - 1);
    },
  )

  -- `none` is the answer 0, for an empty queue.
  pub pop : EventQueue E → Option E × EventQueue E
  pop q = take_event (ensure_integrity q)
