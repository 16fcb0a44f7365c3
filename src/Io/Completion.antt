-- ===== src/Io/Completion.antt =====
-- `push_completion_event`, the way in which every operation reports its end, and the handlers that do
-- nothing else.
pub mod Layout
pub mod Post
use Prim.Native.Nat.{bit_or}
use wapi.Base.{ℕ, ◌+◌, Bool, true, false, List, [], ◌∷◌, ◌++◌, replicate, if◌then◌else◌, drop, take}
use wapi.Base.Bytes.{to_le, from_le}
use wapi.Abi.{ok, err_nosys}
use wapi.EventQueue.{Event, EventQueue, push}
use wapi.Runtime.{Runtime, Host, OpCtx}

abbrev pub cqe_f_inline : ℕ
cqe_f_inline = 4

abbrev pub cqe_f_nosys : ℕ
cqe_f_nosys = 8

abbrev pub event_io_completion : ℕ
event_io_completion = 0x2000

-- The 128 bytes of the event: what the `memcpy` calls put at 0, 4, 8, 16, 20, 24 and 32, and zeros.
unfoldable pub completion_event : ℕ → OpCtx → Event
completion_event ts c =
    to_le 4 event_io_completion
    ++ (to_le 4 0
        ++ (to_le 8 ts
            ++ (to_le 4 c.result
                ++ (to_le 4
                      (if c.inline_payload then bit_or c.cqe_flags cqe_f_inline else c.cqe_flags)
                    ++ (to_le 8 c.user_data
                        ++ (if c.inline_payload then c.payload else replicate 96 0))))))

module _ {W : Type 0} (host : Host W) where
  -- An event that finds the queue full is dropped.
  unfoldable pub push_completion_event : OpCtx → Runtime W → Runtime W
  push_completion_event c rt =
      if c.suppress_completion
      then rt
      else let (ts, w) = host.monotonic_ns rt.world in
        record rt {
          event_queue = (push (completion_event ts c) rt.event_queue).1;
          world = host.wake w;
        }

unfoldable pub op_nosys : OpCtx → OpCtx
op_nosys c = record c { result = err_nosys; cqe_flags = bit_or c.cqe_flags cqe_f_nosys }

unfoldable pub op_nop : OpCtx → OpCtx
op_nop c = record c { result = ok }
