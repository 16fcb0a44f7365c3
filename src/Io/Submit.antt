-- ===== src/Io/Submit.antt =====
-- `dispatch`, `read_op` and `cb_submit` of the I/O bridge: a batch of 80-byte operations in guest
-- memory, each one carried out and its completion posted before the next is read.
pub mod Nosys
pub mod Batch
use Prim.Native.Nat.{bit_or}
use wapi.Base.{
  ℕ, zero, suc, ◌+◌, ◌*◌, ◌||◌, Bool, true, false, Option, none, some, ◌==◌, if◌then◌else◌,
}
use wapi.Abi.{u32}
use wapi.Guest.{Guest, wasm_ptr}
use wapi.Handles.{valid, net_conn, net_listener, net_stream}
use wapi.Runtime.{Runtime, Host, OpCtx, empty_op}
use wapi.Io.Opcodes
use wapi.Io.Opcodes.{external_opcodes, contains}
use wapi.Io.Completion
use wapi.Io.Completion.{op_nosys, push_completion_event}
use wapi.Io.Timers.{op_timeout}
use wapi.Io.Files.{op_log, op_read, op_write, op_cap_request}
use wapi.Io.Roles.{field, op_role_request, op_role_repick}

-- Who carries an operation out.
pub data Handler : Type 0 where
  nop cap_request role_request role_repick reads writes logs close : Handler
  timeout : (absolute : Bool) → Handler
  external nosys : Handler

-- The switch of `dispatch`.
unfoldable pub handler_of : ℕ → Handler
handler_of n =
    if n == Opcodes.op_nop
    then nop
    else if n == Opcodes.op_cap_request
    then cap_request
    else if n == Opcodes.op_role_request
    then role_request
    else if n == Opcodes.op_role_repick
    then role_repick
    else if n == Opcodes.op_read
    then reads
    else if n == Opcodes.op_write
    then writes
    else if n == Opcodes.op_log
    then logs
    else if n == Opcodes.op_timeout
    then timeout false
    else if n == Opcodes.op_timeout_abs
    then timeout true
    else if n == Opcodes.op_close
    then close
    else if contains external_opcodes n
    then external
    else nosys

module _ {W : Type 0} (host : Host W) where
  unfoldable pub op_close : OpCtx → Runtime W → OpCtx × Runtime W
  op_close c rt =
      if valid rt.handles c.fd net_conn
        || (valid rt.handles c.fd net_listener || valid rt.handles c.fd net_stream)
      then host.handler Opcodes.op_close c rt
      else (op_nosys c, rt)

  unfoldable pub run : Handler → OpCtx → Runtime W → OpCtx × Runtime W
  run nop c rt = (Completion.op_nop c, rt)
  run cap_request c rt = op_cap_request c rt
  run role_request c rt = op_role_request host c rt
  run role_repick c rt = op_role_repick c rt
  run reads c rt = op_read host c rt
  run writes c rt = op_write host c rt
  run logs c rt = op_log host c rt
  run close c rt = op_close c rt
  run (timeout absolute) c rt = op_timeout host absolute c rt
  run external c rt = host.handler c.opcode c rt
  run nosys c rt = (op_nosys c, rt)

  unfoldable pub dispatch : OpCtx → Runtime W → OpCtx × Runtime W
  dispatch c rt = run (handler_of c.opcode) c rt

-- `read_op` into a context that is all zeros.
unfoldable pub read_op : Guest → ℕ → Option OpCtx
read_op m ptr = elim (wasm_ptr m ptr 80) [
  | none ↦ none
  | some b ↦ some (record empty_op {
    opcode = field m b 4;
    flags = field m (b + 4) 4;
    fd = field m (b + 8) 4;
    flags2 = field m (b + 12) 4;
    offset = field m (b + 16) 8;
    addr = field m (b + 24) 8;
    len = field m (b + 32) 8;
    addr2 = field m (b + 40) 8;
    len2 = field m (b + 48) 8;
    user_data = field m (b + 56) 8;
    result_ptr = field m (b + 64) 8;
  })
]

module _ {W : Type 0} (host : Host W) where
  -- One round of the loop, from the operation that was read.
  unfoldable pub perform : OpCtx → Runtime W → Runtime W
  perform c rt = let (c', rt') = dispatch host c rt in push_completion_event host c' rt'

  -- The loop with `n` rounds left: how many more were submitted. It stops at the first operation that
  -- is not all in memory.
  unfoldable pub submit_from : ℕ → ℕ → ℕ → Runtime W → ℕ × Runtime W
  submit_from zero i ops_ptr rt = (0, rt)
  submit_from (suc n) i ops_ptr rt = elim (read_op rt.guest (u32 (ops_ptr + u32 (i * 80)))) [
    | none ↦ (0, rt)
    | some c ↦ let (k, rt') = submit_from n (i + 1) ops_ptr (perform c rt) in (k + 1, rt')
  ]

  -- `cb_submit`: the count comes back as an `int32_t`.
  unfoldable pub submit : ℕ → ℕ → Runtime W → ℕ × Runtime W
  submit ops_ptr count rt = let (k, rt') = submit_from count 0 ops_ptr rt in (u32 k, rt')
