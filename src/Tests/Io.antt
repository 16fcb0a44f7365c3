-- ===== src/Tests/Io.antt =====
-- Runs of the I/O bridge (runtime/desktop/src/wapi_host_io.c) with a clock that ticks at every reading.
use wapi.Base.{
  ℕ, ◌+◌, ◌*◌, ◌≡◌, inr, ◌≤◌, refl, true, false, some, List, [], ◌∷◌, ◌++◌, arith, if◌then◌else◌,
  ◌==◌, length,
}
use wapi.Guest.{memory_size}
use wapi.Guest.Access.{wasm_ptr_complete}
use wapi.Handles.{free, file, io_queue, same_type, number}
use wapi.EventQueue
use wapi.EventQueue.{EventQueue, Event, contents}
use wapi.Runtime.{Runtime, Host, OpCtx, IoQueue, timers, stream, empty_op}
use wapi.Io.Completion.{completion_event, op_nop, event_io_completion}
use wapi.Io.Completion.Layout.{event_field, flags_of, completion_event-fields}
use wapi.Io.Timers.{expire, queue_at, check_timeouts, op_timeout, set_queue, cancel}
use wapi.Io.Timers.Expiry.{Fires, due_ids, expire-Fires}
use wapi.Io.Timers.Sweep.{Swept, check_timeouts-Swept}
use wapi.Io.Timers.Arm.{Armed, deadline, after_clock, op_timeout-Armed}
use wapi.Io.Timers.Cancel
use wapi.Io.Timers.Cancel.{cancel-Outcome}
use wapi.Io.Files.{op_read}
use wapi.Io.Files.Bounds.{FreadBounded, op_read-same_outside}
use wapi.Io.Roles.{role_open_audio}
use wapi.Io.Roles.Requests.{Opened, wanted, role_open_audio-Opened}
use wapi.Io.Submit.{handler_of, read_op}
use wapi.Io.Submit.Batch.{Submitted, done, next, submit-Batch}

abbrev clock : Host ℕ
clock = record {
  monotonic_ns = λ w. (w, w + 1);
  wake = λ w. w;
  wait_events = λ w ns. w + ns;
  poll_events = λ w. ([], w);
  calloc = λ w. (true, w);
  fseek = λ w f offset. w;
  fread = λ w f n. (if n == 0 then [] else 7 ∷ [], w);
  fwrite = λ w f bs. (length bs, w);
  log = λ w m level tag msg. w;
  audio_open = λ w recording spec. (1, w);
  audio_close = λ w d. w;
  resolve_role = λ kind index rt. (0, rt);
  request_hid = λ vendor product page usage rt. (0, rt);
  handler = λ opcode c rt. (c, rt);
}

-- The timeout of slot 0 is due at 100, that of slot 1 at 200.
abbrev two_timeouts : IoQueue
two_timeouts = record {
  capacity = 256;
  timeouts = λ i. record { user_data = 10 + i; deadline_ns = 100 + i * 100; active = true };
  timeout_count = 2;
}

abbrev no_events : EventQueue
no_events = record { events = λ i. []; head = 0; tail = 0; count = 0 }

abbrev runtime : Runtime ℕ
runtime = record {
  guest = record { memory_valid = true; data_size = 65536; bytes = λ i. 0 };
  handles = record {
    entries = λ i. record {
      type = if i == 4 then io_queue else if i == 5 then file else free;
      payload = if i == 4 then timers two_timeouts else stream 1;
    };
    next_handle = 6;
  };
  event_queue = no_events;
  world = 150;
}

no_events-IsValid : EventQueue.IsValid no_events
no_events-IsValid = record { head_in = omega arith; count_in = omega arith; tail_at = refl }

abbrev answered : OpCtx
answered = record empty_op { user_data = 9; result = 3 }

completion_event-fields_example :
    (event_field (completion_event 77 answered) 0 4 ≡ event_io_completion)
    × (event_field (completion_event 77 answered) 8 8 ≡ 77)
    × (event_field (completion_event 77 answered) 16 4 ≡ 3)
    × (event_field (completion_event 77 answered) 20 4 ≡ flags_of answered)
    × (event_field (completion_event 77 answered) 24 8 ≡ 9)
    × (length (completion_event 77 answered) ≡ 128)
completion_event-fields_example = completion_event-fields 77 answered (record {
  time_fits = omega arith;
  result_fits = omega arith;
  flags_fit = omega arith;
  user_data_fits = omega arith;
  payload_fits = refl;
})

expire-Fires_example :
    (evs : List Event) × Fires (due_ids 150 two_timeouts 0 2) evs
    × (contents (expire clock 2 0 150 two_timeouts runtime).1.event_queue
        ≡ contents runtime.event_queue ++ evs)
    × EventQueue.IsValid (expire clock 2 0 150 two_timeouts runtime).1.event_queue
unfolding due_ids
expire-Fires_example =
    expire-Fires clock 2 0 150 two_timeouts runtime no_events-IsValid (omega arith)

check_timeouts-Swept_example :
    Swept 150 (queue_at runtime 4) (queue_at (check_timeouts clock runtime) 4)
check_timeouts-Swept_example = check_timeouts-Swept clock runtime 4 (omega arith) (omega arith)

four_is_queue : queue_at runtime 4 ≡ some two_timeouts
unfolding same_type number
four_is_queue = refl

op_timeout-Armed_example :
    (q' : IoQueue) × Armed two_timeouts answered.user_data
      (deadline clock false answered runtime)
      q'
    × (op_timeout clock false answered runtime ≡ (
      record answered { suppress_completion = true },
      set_queue (after_clock clock false runtime) 4 q',
    ))
op_timeout-Armed_example =
    op_timeout-Armed clock false answered runtime 4 two_timeouts (omega arith) (omega arith)
      four_is_queue (λ k a b. absurd (omega arith)) (omega arith)

cancel-Outcome_example : Cancel.Outcome clock 11 runtime (cancel clock 11 runtime)
cancel-Outcome_example = cancel-Outcome clock 11 runtime no_events-IsValid

-- The guest's memory is all zeros, so every operation in it is a `NOP`.
abbrev nop_op : OpCtx
nop_op = empty_op

size : memory_size runtime.guest ≡ 65536
unfolding memory_size
size = refl

zero_op : (p : ℕ) → p + 80 ≤ 65536 → read_op runtime.guest p ≡ some nop_op
unfolding read_op
zero_op p h =
    let accepted =
      wasm_ptr_complete runtime.guest p 80 refl (λ e. omega arith) (omega (arith, size)) in
    rw (read_op, accepted) refl

submit-Batch_example : Submitted clock 2 0 800 (op_nop nop_op ∷ op_nop nop_op ∷ []) runtime
unfolding handler_of
submit-Batch_example =
    submit-Batch clock 0 800 (op_nop nop_op ∷ op_nop nop_op ∷ []) runtime
      (next (zero_op 800 (omega arith)) refl (next (zero_op 880 (omega arith)) refl done))
      no_events-IsValid (omega arith)

clock-FreadBounded : FreadBounded clock
unfolding FreadBounded
clock-FreadBounded w f n = ground arith

abbrev read_some : OpCtx
read_some = record empty_op { fd = 5; addr = 100; len = 8 }

op_read-same_outside_example :
    (op_read clock read_some runtime).1.guest.bytes 200 ≡ runtime.guest.bytes 200
op_read-same_outside_example =
    op_read-same_outside clock read_some runtime clock-FreadBounded refl (omega arith) (omega arith)
      200 (inr (omega arith))

role_open_audio-Opened_example :
    Opened clock true (wanted runtime.guest 0 0) runtime (role_open_audio clock true 0 0 runtime)
role_open_audio-Opened_example =
    role_open_audio-Opened clock true 0 0 runtime (record { low = omega arith; high = omega arith })
