-- ===== src/Fs/Views.antt =====
-- `read_stringview` of runtime/desktop/src/wapi_host_fs.c, and of wapi_host_kvstorage.c, which has a
-- copy of it. Bytes behind the end of the guest's memory are those of the host that lie there.
use wapi.Base.{ℕ, ◌+◌, ◌-◌, Option, none, some, List, [], ltb, ◌==◌, if◌then◌else◌}
use wapi.Base.Bytes.{from_le}
use wapi.Abi.{u32, u64_mod}
use wapi.Guest.{Guest, wasm_ptr, peek}
use wapi.Namespaces.{c_string}

-- From the two fields of the view: at most `room` bytes, without the 0 that the host puts behind them.
unfoldable pub view_chars : Guest → ℕ → ℕ → ℕ → Option (List ℕ)
view_chars m start len room =
    if start == 0
    then some []
    else if len == u64_mod - 1
    then elim (wasm_ptr m (u32 start) 1) [ none ↦ none | some s ↦ some (c_string (peek m s room)) ]
    else let copy = if ltb len room then len else room in
      elim (wasm_ptr m (u32 start) copy) [
        | none ↦ if copy == 0 then some [] else none
        | some s ↦ some (peek m s copy)
      ]

-- `none` is the result -1.
unfoldable pub read_stringview : Guest → ℕ → ℕ → Option (List ℕ)
read_stringview m sv_ptr out_cap = if out_cap == 0 then none else elim (wasm_ptr m sv_ptr 16) [
  | none ↦ none
  | some p ↦ view_chars m (from_le (peek m p 8)) (from_le (peek m (p + 8) 8)) (out_cap - 1)
]
