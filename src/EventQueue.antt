-- ===== src/EventQueue.antt =====
-- runtime/desktop/src/wapi_host.h, "Event Queue": a ring of 256 events of 128 bytes each.
pub mod Fifo
pub mod Refine
pub mod Flush
use wapi.Base.{
  ℕ, zero, suc, ◌+◌, ◌-◌, ◌%◌, ◌≤◌, ◌<◌, ◌≡◌, Bool, true, false, Option, none, some, List, [], ◌∷◌,
  update, take, cells, leb, ◌==◌, if◌then◌else◌,
}
use wapi.Base.Bytes.{from_le}

abbrev pub queue_size : ℕ
queue_size = 256

-- `wapi_host_event_t`: its bytes.
abbrev pub Event : Type 0
Event = List ℕ

-- `wapi_event_queue_t`
pub record EventQueue : Type 0 where
  pub events : ℕ → Event
  pub head : ℕ
  pub tail : ℕ
  pub count : ℕ

unfoldable pub push : Event → EventQueue → Bool × EventQueue
push ev q = if leb queue_size q.count then (false, q) else (
  true,
  record q {
    events = update q.events q.tail ev;
    tail = (q.tail + 1) % queue_size;
    count = q.count + 1;
  },
)

unfoldable pub pop : EventQueue → Option (Event × EventQueue)
pop q =
    if q.count == 0
    then none
    else some (q.events q.head, record q { head = (q.head + 1) % queue_size; count = q.count - 1 })

-- The first four bytes of an event.
abbrev pub event_type : Event → ℕ
event_type ev = from_le (take 4 ev)

-- `while (q->count > 0) { pop; if (type != event_type) temp[new_count++] = ev; }`
unfoldable pub drain : ℕ → ℕ → EventQueue → List Event × EventQueue
drain zero type q = ([], q)
drain (suc n) type q = elim (pop q) [
  | none ↦ ([], q)
  | some (ev, rest) ↦
      let (temp, q') = drain n type rest in (if event_type ev == type then temp else ev ∷ temp, q')
]

unfoldable pub push_all : List Event → EventQueue → EventQueue
push_all [] q = q
push_all (ev ∷ evs) q = push_all evs (push ev q).1

unfoldable pub flush : ℕ → EventQueue → EventQueue
flush type q =
    if type == 0
    then record q { head = 0; tail = 0; count = 0 }
    else let (temp, q') = drain q.count type q in push_all temp q'

-- The representation invariant.
pub record IsValid (q : EventQueue) : Type 0 where
  pub head_in : q.head < queue_size
  pub count_in : q.count ≤ queue_size
  pub tail_at : q.tail ≡ (q.head + q.count) % queue_size

-- The events in the queue, oldest first.
abbrev pub contents : EventQueue → List Event
contents q = cells (λ k. q.events (k % queue_size)) q.head q.count
