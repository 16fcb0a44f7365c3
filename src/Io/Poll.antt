-- ===== src/Io/Poll.antt =====
-- `cb_poll`, `cb_wait` and `cb_flush` of the I/O bridge: how events reach the guest.
pub mod Taken
pub mod Refresh
use wapi.Base.{ℕ, ◌*◌, ◌-◌, Bool, true, false, Option, none, some, replicate, if◌then◌else◌}
use wapi.Abi.{is_neg, u64_mod}
use wapi.Guest.{Guest, write_bytes}
use wapi.EventQueue.{Event, EventQueue, pop, push_all, flush}
use wapi.Runtime.{Runtime, Host}
use wapi.Io.Timers.{check_timeouts}

abbrev pub zeros : Event
zeros = replicate 128 0

module _ {W : Type 0} where
  -- `wapi_wasm_write_bytes(event_ptr, ..., 128)`
  abbrev pub deliver : ℕ → Event → Runtime W → Runtime W
  deliver event_ptr ev rt = record rt { guest = (write_bytes rt.guest event_ptr ev).1 }

  -- The oldest event, if there is one, taken from the queue and written to the guest.
  unfoldable pub take_event : ℕ → Runtime W → Option (Runtime W)
  take_event event_ptr rt = elim (pop rt.event_queue) [
    | none ↦ none
    | some (ev, q) ↦ some (deliver event_ptr ev (record rt { event_queue = q }))
  ]

  -- An event and 1, or zeros and 0.
  unfoldable pub finish : ℕ → Runtime W → ℕ × Runtime W
  finish event_ptr rt = elim (take_event event_ptr rt) [
    | none ↦ (0, deliver event_ptr zeros rt)
    | some rt' ↦ (1, rt')
  ]

  -- `cb_flush`
  unfoldable pub flush_events : ℕ → Runtime W → Runtime W
  flush_events type rt = record rt { event_queue = flush type rt.event_queue }

module _ {W : Type 0} (host : Host W) where
  -- `wapi_host_pump_platform_events`
  unfoldable pub pump : Runtime W → Runtime W
  pump rt =
      let (evs, w) = host.poll_events rt.world in
      record rt { event_queue = push_all evs rt.event_queue; world = w }

  -- What `cb_poll` and `cb_wait` do before they look at the queue.
  unfoldable pub refresh : Runtime W → Runtime W
  refresh rt = check_timeouts host (pump rt)

  -- `cb_poll`
  unfoldable pub poll : ℕ → Runtime W → ℕ × Runtime W
  poll event_ptr rt = finish event_ptr (refresh rt)

  -- The timeout for the platform: the pattern of -1 for a negative one.
  abbrev pub wait_ns : ℕ → ℕ
  wait_ns timeout_ms = if is_neg timeout_ms then u64_mod - 1 else timeout_ms * 1000000

  -- `cb_wait`
  unfoldable pub wait : ℕ → ℕ → Runtime W → ℕ × Runtime W
  wait event_ptr timeout_ms rt =
      let rt' = refresh rt in
      elim (take_event event_ptr rt') [
        | some rt'' ↦ (1, rt'')
        | none ↦
            finish event_ptr
              (refresh (record rt' { world = host.wait_events rt'.world (wait_ns timeout_ms) }))
      ]
