-- ===== src/Runtime.antt =====
-- runtime/desktop/src/wapi_host.h, "Runtime State": the part of `g_rt` that the I/O bridge works on,
-- and what it calls of the platform and of the other files of the host.
use wapi.Base.{ℕ, Bool, false, Option, none, some, List, replicate}
use wapi.Guest.{Guest}
use wapi.Handles.{Handles}
use wapi.EventQueue.{Event, EventQueue}

-- One entry of `timeouts` in `wapi_io_queue_t`.
pub record Timeout : Type 0 where
  pub user_data : ℕ
  pub deadline_ns : ℕ
  pub active : Bool

-- `wapi_io_queue_t`. Nothing reads its completion ring: completions go to the event queue.
pub record IoQueue : Type 0 where
  pub capacity : ℕ
  pub timeouts : ℕ → Timeout
  pub timeout_count : ℕ

-- The union of a handle's data. A queue is owned by its one handle, so it stands there itself; other
-- pointers are numbers.
pub data Payload : Type 0 where
  zeroed : Payload
  timers : IoQueue → Payload
  stream : ℕ → Payload
  other : ℕ → Payload

-- `W` is the state of the world behind the platform layer.
pub record Runtime (W : Type 0) : Type 0 where
  pub guest : Guest
  pub handles : Handles Payload
  pub event_queue : EventQueue
  pub world : W

-- `op_ctx_t`
pub record OpCtx : Type 0 where
  pub opcode : ℕ
  pub flags : ℕ
  pub fd : ℕ
  pub flags2 : ℕ
  pub offset : ℕ
  pub addr : ℕ
  pub len : ℕ
  pub addr2 : ℕ
  pub len2 : ℕ
  pub user_data : ℕ
  pub result_ptr : ℕ
  pub result : ℕ
  pub cqe_flags : ℕ
  pub payload : List ℕ
  pub inline_payload : Bool
  pub suppress_completion : Bool

-- `op_ctx_t c = {0}`
abbrev pub empty_op : OpCtx
empty_op = record {
  opcode = 0;
  flags = 0;
  fd = 0;
  flags2 = 0;
  offset = 0;
  addr = 0;
  len = 0;
  addr2 = 0;
  len2 = 0;
  user_data = 0;
  result_ptr = 0;
  result = 0;
  cqe_flags = 0;
  payload = replicate 96 0;
  inline_payload = false;
  suppress_completion = false;
}

-- `wapi_plat_audio_spec_t`, less its padding
pub record AudioSpec : Type 0 where
  pub format : ℕ
  pub channels : ℕ
  pub freq : ℕ

-- The platform layer (wapi_plat.h), the C library's files, and the handlers of the sibling files.
pub record Host (W : Type 0) : Type 0 where
  -- `wapi_plat_time_monotonic_ns`, `wapi_plat_wake`, `wapi_plat_wait_events`
  pub monotonic_ns : W → ℕ × W
  pub wake : W → W
  pub wait_events : W → ℕ → W
  -- `wapi_plat_poll_events` until it is dry, each event translated
  pub poll_events : W → List Event × W
  -- whether `calloc` finds room for an I/O queue
  pub calloc : W → Bool × W
  pub fseek : W → ℕ → ℕ → W
  pub fread : W → ℕ → ℕ → List ℕ × W
  -- `fwrite` and the `fflush` behind it
  pub fwrite : W → ℕ → List ℕ → ℕ × W
  -- the `fprintf` of `op_log`: level, then tag and message, each with its address and its precision
  pub log : W → Guest → ℕ → Option (ℕ × ℕ) → ℕ × ℕ → W
  -- `wapi_plat_audio_open_device` of the default recording or playback device (0 is NULL), and
  -- `wapi_plat_audio_close_device`
  pub audio_open : W → Bool → Option AudioSpec → ℕ × W
  pub audio_close : W → ℕ → W
  -- `wapi_host_input_resolve_role` and `wapi_host_input_hid_request_role`
  pub resolve_role : ℕ → ℕ → Runtime W → ℕ × Runtime W
  pub request_hid : ℕ → ℕ → ℕ → ℕ → Runtime W → ℕ × Runtime W
  -- the `wapi_host_*_op` handlers, by opcode
  pub handler : ℕ → OpCtx → Runtime W → OpCtx × Runtime W

abbrev pub queue_of : Payload → Option IoQueue
queue_of (timers q) = some q
queue_of _ = none

abbrev pub stream_of : Payload → ℕ
stream_of (stream f) = f
stream_of _ = 0
