-- ===== src/Io/Timers.antt =====
-- Timeouts: arming them, firing those that are due, cancelling one.
pub mod Expiry
pub mod Sweep
pub mod Cancel
pub mod Arm
use wapi.Base.{
  ℕ, zero, suc, ◌+◌, ◌-◌, ◌&&◌, not, Bool, true, false, Option, none, some, is_some, find_from,
  update, ltb, leb, ◌==◌, if◌then◌else◌,
}
use wapi.Abi.{u64, ok, err_nospc, err_noent, err_canceled}
use wapi.Handles.{
  Handles, io_queue, same_type, type_at, payload_at, set_payload, max_handles, alloc, release,
}
use wapi.Runtime.{
  Runtime, Host, OpCtx, IoQueue, Timeout, Payload, zeroed, timers, empty_op, queue_of,
}
use wapi.Io.Completion.{push_completion_event}

abbrev pub max_timeouts : ℕ
max_timeouts = 64

module _ {W : Type 0} where
  abbrev pub is_io_queue : Runtime W → ℕ → Bool
  is_io_queue rt h = same_type (type_at rt.handles h) io_queue

  -- The queue behind a handle of that type; `none` is a NULL pointer or another type.
  abbrev pub queue_at : Runtime W → ℕ → Option IoQueue
  queue_at rt h = if is_io_queue rt h then queue_of (payload_at rt.handles h) else none

  abbrev pub set_queue : Runtime W → ℕ → IoQueue → Runtime W
  set_queue rt h q = record rt { handles = set_payload rt.handles h (timers q) }

-- `q->timeouts[i].active = false`
abbrev pub disarm : IoQueue → ℕ → IoQueue
disarm q i = record q {
  timeouts = update q.timeouts i (record {
    user_data = (q.timeouts i).user_data;
    deadline_ns = (q.timeouts i).deadline_ns;
    active = false;
  });
}

abbrev pub arm : IoQueue → ℕ → ℕ → ℕ → IoQueue
arm q slot user_data deadline_ns = record q {
  timeouts =
      update q.timeouts slot
        (record { user_data = user_data; deadline_ns = deadline_ns; active = true });
}

-- The first slot that is not active, or a new one behind the others.
unfoldable pub choose_slot : IoQueue → ℕ × IoQueue
choose_slot q = elim (find_from (λ t. not (q.timeouts t).active) 0 q.timeout_count) [
  | some slot ↦ (slot, q)
  | none ↦ (q.timeout_count, record q { timeout_count = q.timeout_count + 1 })
]

abbrev pub due_at : ℕ → IoQueue → ℕ → Bool
due_at now q i = (q.timeouts i).active && leb (q.timeouts i).deadline_ns now

-- `op_ctx_t fake = {0}` with a result.
abbrev pub fake_op : ℕ → ℕ → OpCtx
fake_op user_data result = record empty_op { user_data = user_data; result = result }

abbrev pub pending_at : ℕ → IoQueue → ℕ → Bool
pending_at user_data q i = (q.timeouts i).active && (q.timeouts i).user_data == user_data

abbrev pub find_pending : ℕ → Option IoQueue → Option ℕ
find_pending user_data none = none
find_pending user_data (some q) = find_from (pending_at user_data q) 0 q.timeout_count

module _ {W : Type 0} (host : Host W) where
  -- `default_io_queue`: the first queue in the table, or a new one. The result is its handle.
  unfoldable pub default_io_queue : Runtime W → Option ℕ × Runtime W
  default_io_queue rt = elim (find_from (is_io_queue rt) 4 (max_handles - 4)) [
    | some h ↦ (some h, rt)
    | none ↦
        let (qh, handles) = alloc zeroed rt.handles io_queue in
        if qh == 0
        then (none, record rt { handles = handles })
        else let (good, w) = host.calloc rt.world in
          if good
          then (
            some qh,
            record rt {
              handles = set_payload handles qh (
                  timers (record {
                    capacity = 256;
                    timeouts = λ _. record { user_data = 0; deadline_ns = 0; active = false };
                    timeout_count = 0;
                  }));
              world = w;
            },
          )
          else (none, record rt { handles = release zeroed handles qh; world = w })
  ]

  -- `for (i = 0; i < q->timeout_count; i++)` of one queue, with `n` rounds left.
  unfoldable pub expire : ℕ → ℕ → ℕ → IoQueue → Runtime W → IoQueue × Runtime W
  expire zero i now q rt = (q, rt)
  expire (suc n) i now q rt =
      let fired =
        expire n (i + 1) now (disarm q i)
          (push_completion_event host (fake_op (q.timeouts i).user_data ok) rt) in
      let waits = expire n (i + 1) now q rt in if due_at now q i then fired else waits

  unfoldable pub check_queue : ℕ → ℕ → Runtime W → Runtime W
  check_queue now h rt = elim (queue_at rt h) [
    | none ↦ rt
    | some q ↦ let (q', rt') = expire q.timeout_count 0 now q rt in set_queue rt' h q'
  ]

  -- `for (h = 4; h < WAPI_MAX_HANDLES; h++)`, with `n` rounds left.
  unfoldable pub check_queues : ℕ → ℕ → ℕ → Runtime W → Runtime W
  check_queues zero h now rt = rt
  check_queues (suc n) h now rt = check_queues n (h + 1) now (check_queue now h rt)

  -- `wapi_io_check_timeouts`
  unfoldable pub check_timeouts : Runtime W → Runtime W
  check_timeouts rt =
      let (now, w) = host.monotonic_ns rt.world in
      check_queues (max_handles - 4) 4 now (record rt { world = w })

  -- `op_timeout` and `op_timeout_abs` on the queue that they found; the clock is read for the first.
  unfoldable pub arm_timeout : Bool → OpCtx → ℕ → IoQueue → Runtime W → OpCtx × Runtime W
  arm_timeout absolute c h q rt =
      if leb max_timeouts q.timeout_count
      then (record c { result = err_nospc }, rt)
      else let (slot, q') = choose_slot q in
        if absolute
        then (
          record c { suppress_completion = true },
          set_queue rt h (arm q' slot c.user_data c.offset),
        )
        else let (now, w) = host.monotonic_ns rt.world in
          (
            record c { suppress_completion = true },
            set_queue (record rt { world = w }) h (arm q' slot c.user_data (u64 (now + c.offset))),
          )

  unfoldable pub op_timeout : Bool → OpCtx → Runtime W → OpCtx × Runtime W
  op_timeout absolute c rt₀ =
      let (found, rt) = default_io_queue rt₀ in
      elim found [
        | none ↦ (record c { result = err_nospc }, rt)
        | some h ↦ elim (queue_at rt h) [
          | none ↦ (record c { result = err_nospc }, rt)
          | some q ↦ arm_timeout absolute c h q rt
        ]
      ]

  -- `cb_cancel` at the queue and the slot that its two loops stop at.
  unfoldable pub cancel_in : ℕ → ℕ → IoQueue → Option ℕ → Runtime W → ℕ × Runtime W
  cancel_in user_data h q none rt = (err_noent, rt)
  cancel_in user_data h q (some i) rt = (
    ok,
    push_completion_event host (fake_op user_data err_canceled) (set_queue rt h (disarm q i)),
  )

  unfoldable pub cancel_at : ℕ → ℕ → Option IoQueue → Runtime W → ℕ × Runtime W
  cancel_at user_data h none rt = (err_noent, rt)
  cancel_at user_data h (some q) rt = cancel_in user_data h q (find_pending user_data (some q)) rt

  -- `cb_cancel`: the first active timeout with that user data, in the first queue that has one.
  unfoldable pub cancel : ℕ → Runtime W → ℕ × Runtime W
  cancel user_data rt =
      elim (find_from (λ h. is_some (find_pending user_data (queue_at rt h))) 4 (max_handles - 4)) [
        | none ↦ (err_noent, rt)
        | some h ↦ cancel_at user_data h (queue_at rt h) rt
      ]
