-- ===== src/EventQueue/Fifo.antt =====
-- What the event queue promises: a first-in first-out queue of at most 256 events, oldest first.
use wapi.Base.{
  Bool, true, false, Option, none, some, List, [], ◌∷◌, ◌++◌, length, leb, ◌==◌, if◌then◌else◌, ℕ,
}
use wapi.EventQueue.{Event, queue_size, event_type}

-- The newest event goes last, unless 256 are waiting.
unfoldable pub push : Event → List Event → Bool × List Event
push ev evs = if leb queue_size (length evs) then (false, evs) else (true, evs ++ ev ∷ [])

unfoldable pub pop : List Event → Option (Event × List Event)
pop [] = none
pop (ev ∷ evs) = some (ev, evs)

-- The events of other types than the given one.
unfoldable pub without : ℕ → List Event → List Event
without type [] = []
without type (ev ∷ evs) = if event_type ev == type then without type evs else ev ∷ without type evs
