-- ===== src/Io/Files.antt =====
-- `op_log`, `op_read`, `op_write` and `op_cap_request` of the I/O bridge.
pub mod Bounds
use wapi.Base.{
  ℕ, ◌+◌, ◌≤◌, ◌&&◌, ◌||◌, not, Bool, true, false, Option, none, some, List, length, ◌==◌,
  if◌then◌else◌,
}
use wapi.Abi.{u32, ok, err_badf, err_inval}
use wapi.Guest.{Guest, wasm_ptr, peek, poke, write_u32, write_u64}
use wapi.Handles.{valid, file, payload_at}
use wapi.Runtime.{Runtime, Host, OpCtx, stream_of}

-- The levels that `op_log` has a prefix for; any other level is printed as INFO.
abbrev pub log_level : ℕ → ℕ
log_level n = if n == 0 || (n == 2 || n == 3) then n else 1

-- `if (c->result_ptr) wapi_wasm_write_u64(...)`
abbrev pub report_u64 : ℕ → ℕ → Guest → Guest
report_u64 result_ptr val m = if result_ptr == 0 then m else (write_u64 m (u32 result_ptr) val).1

abbrev pub report_u32 : ℕ → ℕ → Guest → Guest
report_u32 result_ptr val m = if result_ptr == 0 then m else (write_u32 m (u32 result_ptr) val).1

module _ {W : Type 0} (host : Host W) where
  unfoldable pub op_log : OpCtx → Runtime W → OpCtx × Runtime W
  op_log c rt =
      let tag =
        if not (c.addr2 == 0) && not (c.len2 == 0)
        then wasm_ptr rt.guest (u32 c.addr2) (u32 c.len2)
        else none in
      elim (wasm_ptr rt.guest (u32 c.addr) (u32 c.len)) [
        | none ↦ (record c { suppress_completion = true }, rt)
        | some msg ↦ (
          record c { suppress_completion = true },
          record rt {
            world =
                host.log rt.world rt.guest (log_level c.flags)
                  (elim tag [ none ↦ none | some t ↦ some (t, u32 c.len2) ]) (msg, u32 c.len);
          },
        )
      ]

  -- `if (c->offset != 0) fseek(f, (long)c->offset, SEEK_SET);`
  abbrev pub seek : ℕ → ℕ → W → W
  seek f offset w = if offset == 0 then w else host.fseek w f offset

  -- `op_read` from the buffer on: `fread` gets all 64 bits of the length.
  unfoldable pub read_into : OpCtx → ℕ → Runtime W → OpCtx × Runtime W
  read_into c buf rt =
      let f = stream_of (payload_at rt.handles c.fd) in
      let (got, w) = host.fread (seek f c.offset rt.world) f c.len in
      (
        record c { result = u32 (length got) },
        record rt {
          guest = report_u64 c.result_ptr (length got) (poke rt.guest buf got);
          world = w;
        },
      )

  unfoldable pub op_read : OpCtx → Runtime W → OpCtx × Runtime W
  op_read c rt =
      if not (valid rt.handles c.fd file)
      then (record c { result = err_badf }, rt)
      else elim (wasm_ptr rt.guest (u32 c.addr) (u32 c.len)) [
        | none ↦ (record c { result = err_inval }, rt)
        | some buf ↦ read_into c buf rt
      ]

  -- `op_write` from the buffer on.
  unfoldable pub write_from : OpCtx → ℕ → Runtime W → OpCtx × Runtime W
  write_from c buf rt =
      let f = stream_of (payload_at rt.handles c.fd) in
      let (bw, w) = host.fwrite (seek f c.offset rt.world) f (peek rt.guest buf c.len) in
      (
        record c { result = u32 bw },
        record rt { guest = report_u64 c.result_ptr bw rt.guest; world = w },
      )

  unfoldable pub op_write : OpCtx → Runtime W → OpCtx × Runtime W
  op_write c rt =
      if not (valid rt.handles c.fd file)
      then (record c { result = err_badf }, rt)
      else elim (wasm_ptr rt.guest (u32 c.addr) (u32 c.len)) [
        | none ↦ (record c { result = err_inval }, rt)
        | some buf ↦ write_from c buf rt
      ]

module _ {W : Type 0} where
  -- Every capability is granted.
  unfoldable pub op_cap_request : OpCtx → Runtime W → OpCtx × Runtime W
  op_cap_request c rt =
      (record c { result = ok }, record rt { guest = report_u32 c.result_ptr 0 rt.guest })
