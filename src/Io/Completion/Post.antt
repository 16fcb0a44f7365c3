-- ===== src/Io/Completion/Post.antt =====
-- What `push_completion_event` does to the runtime: one event at the end of the queue, if it has room.
use wapi.Base.{ℕ, ◌+◌, ◌≤◌, ◌<◌, ◌≡◌, false, [], ◌∷◌, ◌++◌, dec_lt, arith}
use wapi.EventQueue
use wapi.EventQueue.{EventQueue, Event, contents, queue_size, push}
use wapi.EventQueue.Refine.{push-room, push-full, push-IsValid}
use wapi.Runtime.{Runtime, Host, OpCtx}
use wapi.Io.Completion.{push_completion_event, completion_event}

-- How the completion of `c` leaves the event queue: with its event at the end, or as it was, if
-- there is no room.
pub data Announced (c : OpCtx) (q q' : EventQueue) : Type 0 where
  posted :
      (time : ℕ)
      → q.count < queue_size
      → contents q' ≡ contents q ++ completion_event time c ∷ []
      → EventQueue.IsValid q'
      → Announced c q q'
  lost : queue_size ≤ q.count → q' ≡ q → Announced c q q'

module _ {W : Type 0} where
  -- Nothing but the event queue and the world has changed.
  pub record SameTables (rt rt' : Runtime W) : Type 0 where
    pub guest : rt'.guest ≡ rt.guest
    pub handles : rt'.handles ≡ rt.handles

  -- One event, the completion of `c`, was added.
  pub record Posted (c : OpCtx) (rt rt' : Runtime W) : Type 0 where
    pub time : ℕ
    pub grown : contents rt'.event_queue ≡ contents rt.event_queue ++ completion_event time c ∷ []
    pub count : rt'.event_queue.count ≡ rt.event_queue.count + 1
    pub valid : EventQueue.IsValid rt'.event_queue

  module _ (host : Host W) where
    pub push_completion_event-SameTables :
        (c : OpCtx) (rt : Runtime W) → SameTables rt (push_completion_event host c rt)
    unfolding push_completion_event
    push_completion_event-SameTables c rt = ground arith

    pub push_completion_event-IsValid :
        (c : OpCtx) (rt : Runtime W)
        → EventQueue.IsValid rt.event_queue
        → EventQueue.IsValid (push_completion_event host c rt).event_queue
    unfolding push_completion_event
    push_completion_event-IsValid c rt v =
        ground
          (arith, push-IsValid (completion_event (host.monotonic_ns rt.world).0 c) rt.event_queue v)

    pub push_completion_event-Posted :
        (c : OpCtx) (rt : Runtime W)
        → c.suppress_completion ≡ false
        → EventQueue.IsValid rt.event_queue
        → rt.event_queue.count < queue_size
        → Posted c rt (push_completion_event host c rt)
    unfolding push_completion_event completion_event
    push_completion_event-Posted c rt loud v lt =
        let ts = (host.monotonic_ns rt.world).0 in
        let (done, count, grown) = push-room (completion_event ts c) rt.event_queue v lt in
        rw loud (record {
          time = ts;
          grown = grown;
          count = count;
          valid = push-IsValid (completion_event ts c) rt.event_queue v;
        })

    -- Where 256 events are waiting, `push_completion_event` leaves the event queue as it is: the
    -- completion is lost.
    push_completion_event-dropped :
        (c : OpCtx) (rt : Runtime W)
        → queue_size ≤ rt.event_queue.count
        → (push_completion_event host c rt).event_queue ≡ rt.event_queue
    unfolding push_completion_event
    push_completion_event-dropped c rt full =
        ground
          (arith, push-full (completion_event (host.monotonic_ns rt.world).0 c) rt.event_queue full)

    pub push_completion_event-Announced :
        (c : OpCtx) (rt : Runtime W)
        → c.suppress_completion ≡ false
        → EventQueue.IsValid rt.event_queue
        → Announced c rt.event_queue (push_completion_event host c rt).event_queue
    push_completion_event-Announced c rt loud v = elim (dec_lt rt.event_queue.count queue_size) [
      | yes lt ↦
          let p = push_completion_event-Posted c rt loud v lt in posted p.time lt p.grown p.valid
      | no full ↦ lost (omega arith) (push_completion_event-dropped c rt (omega arith))
    ]
