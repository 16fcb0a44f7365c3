-- ===== src/Io/Poll/Refresh.antt =====
-- `cb_poll` from the pump to the answer: what it takes in, what becomes of the timeouts, what it hands
-- out.
use wapi.Base.{ℕ, ◌≡◌, List, [], ◌∷◌}
use wapi.Guest.{Guest, write_bytes}
use wapi.EventQueue
use wapi.EventQueue.{Event, EventQueue, contents, push}
use wapi.Runtime.{Runtime}
use wapi.Io.Poll.{zeros}

module _ {W : Type 0} where
  -- How a poll ends with these events waiting: with the first of them, or with zeros.
  pub data Answered (event_ptr : ℕ) (waiting : List Event) (m : Guest)
      : ℕ × Runtime W → Type 0 where
    event :
        (ev : Event) (rt' : Runtime W)
        → waiting ≡ ev ∷ contents rt'.event_queue
        → EventQueue.IsValid rt'.event_queue
        → rt'.guest ≡ (write_bytes m event_ptr ev).1
        → Answered event_ptr waiting m (1, rt')
    no_event :
        (rt' : Runtime W)
        → waiting ≡ []
        → contents rt'.event_queue ≡ []
        → rt'.guest ≡ (write_bytes m event_ptr zeros).1
        → Answered event_ptr waiting m (0, rt')
