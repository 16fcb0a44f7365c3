-- ===== src/Caps.antt =====
-- The capability queries of the I/O bridge (runtime/desktop/src/wapi_host_io.c, from `read_wapi_sv` to
-- `cb_cap_query`): which parts of the interface this host has, by name.
pub mod Strings
pub mod Lookup
use wapi.Base.{
  ℕ, ◌+◌, ◌-◌, ◌≡◌, Bool, true, false, Option, none, some, List, [], ◌∷◌, ◌++◌, find_from, length,
  ltb, ◌==◌, if◌then◌else◌, replicate,
}
use wapi.Base.Bytes.{to_le}
use wapi.Abi.{ok, err_notcapable, u32}
use wapi.Guest.{Guest, write_bytes, write_u32}
use wapi.Caps.Strings.{bytes_eq, Fallible, read_sv}

-- `cap_entry_t`
pub record CapEntry : Type 0 where
  pub name : List ℕ
  pub state : ℕ
  pub major : ℕ
  pub minor : ℕ
  pub patch : ℕ

-- `{ "wapi.<name>", 0, 1, 0, 0 }`
abbrev cap : List ℕ → CapEntry
cap name = record {
  name = 119 ∷ 97 ∷ 112 ∷ 105 ∷ 46 ∷ name;
  state = 0;
  major = 1;
  minor = 0;
  patch = 0;
}

-- `g_caps`, which nothing changes. In ASCII: env, memory, io, clock, random, filesystem, net, gpu, surface, window, input, audio, text, clipboard, font, kv_storage, crypto, video, module, notifications, permissions.
unfoldable pub caps : List CapEntry
caps =
    cap (101 ∷ 110 ∷ 118 ∷ [])
    ∷ cap (109 ∷ 101 ∷ 109 ∷ 111 ∷ 114 ∷ 121 ∷ [])
    ∷ cap (105 ∷ 111 ∷ [])
    ∷ cap (99 ∷ 108 ∷ 111 ∷ 99 ∷ 107 ∷ [])
    ∷ cap (114 ∷ 97 ∷ 110 ∷ 100 ∷ 111 ∷ 109 ∷ [])
    ∷ cap (102 ∷ 105 ∷ 108 ∷ 101 ∷ 115 ∷ 121 ∷ 115 ∷ 116 ∷ 101 ∷ 109 ∷ [])
    ∷ cap (110 ∷ 101 ∷ 116 ∷ [])
    ∷ cap (103 ∷ 112 ∷ 117 ∷ [])
    ∷ cap (115 ∷ 117 ∷ 114 ∷ 102 ∷ 97 ∷ 99 ∷ 101 ∷ [])
    ∷ cap (119 ∷ 105 ∷ 110 ∷ 100 ∷ 111 ∷ 119 ∷ [])
    ∷ cap (105 ∷ 110 ∷ 112 ∷ 117 ∷ 116 ∷ [])
    ∷ cap (97 ∷ 117 ∷ 100 ∷ 105 ∷ 111 ∷ [])
    ∷ cap (116 ∷ 101 ∷ 120 ∷ 116 ∷ [])
    ∷ cap (99 ∷ 108 ∷ 105 ∷ 112 ∷ 98 ∷ 111 ∷ 97 ∷ 114 ∷ 100 ∷ [])
    ∷ cap (102 ∷ 111 ∷ 110 ∷ 116 ∷ [])
    ∷ cap (107 ∷ 118 ∷ 95 ∷ 115 ∷ 116 ∷ 111 ∷ 114 ∷ 97 ∷ 103 ∷ 101 ∷ [])
    ∷ cap (99 ∷ 114 ∷ 121 ∷ 112 ∷ 116 ∷ 111 ∷ [])
    ∷ cap (118 ∷ 105 ∷ 100 ∷ 101 ∷ 111 ∷ [])
    ∷ cap (109 ∷ 111 ∷ 100 ∷ 117 ∷ 108 ∷ 101 ∷ [])
    ∷ cap (110 ∷ 111 ∷ 116 ∷ 105 ∷ 102 ∷ 105 ∷ 99 ∷ 97 ∷ 116 ∷ 105 ∷ 111 ∷ 110 ∷ 115 ∷ [])
    ∷ cap (112 ∷ 101 ∷ 114 ∷ 109 ∷ 105 ∷ 115 ∷ 115 ∷ 105 ∷ 111 ∷ 110 ∷ 115 ∷ [])
    ∷ []

unfoldable pub find_in : List ℕ → List CapEntry → Option CapEntry
find_in name [] = none
find_in name (c ∷ cs) = if bytes_eq c.name name then some c else find_in name cs

unfoldable pub find_cap : List ℕ → Option CapEntry
find_cap name = find_in name caps

-- `(name && nlen) ? find_cap(name, nlen) : NULL`
unfoldable pub find_named : Option (List ℕ) → Option CapEntry
find_named none = none
find_named (some name) = if length name == 0 then none else find_cap name

-- `if (ptr) wapi_wasm_write_bytes(ptr, ...)`
abbrev pub report : ℕ → List ℕ → Guest → Guest
report ptr bs m = if ptr == 0 then m else (write_bytes m ptr bs).1

-- `cb_cap_supported`
unfoldable pub cap_supported : Guest → ℕ → Fallible ℕ
cap_supported m sv_ptr = elim (read_sv m sv_ptr) [
  | none ↦ none
  | some name ↦ some (elim (find_named name) [ none ↦ 0 | some c ↦ 1 ])
]

-- `cb_cap_version`
unfoldable pub cap_version : Guest → ℕ → ℕ → Fallible (ℕ × Guest)
cap_version m sv_ptr ver_ptr = elim (read_sv m sv_ptr) [
  | none ↦ none
  | some name ↦ some (elim (find_named name) [
    | none ↦ (err_notcapable, report ver_ptr (replicate 8 0) m)
    | some c ↦ (
      ok,
      report ver_ptr (to_le 2 c.major ++ (to_le 2 c.minor ++ (to_le 2 c.patch ++ to_le 2 0))) m,
    )
  ])
]

-- `WAPI_CAP_DENIED`
abbrev pub cap_denied : ℕ
cap_denied = 3

-- `if (state_ptr) wapi_wasm_write_u32(state_ptr, ...)`
abbrev pub report_state : ℕ → ℕ → Guest → Guest
report_state ptr state m = if ptr == 0 then m else (write_u32 m ptr state).1

-- `cb_cap_query`
unfoldable pub cap_query : Guest → ℕ → ℕ → Fallible (ℕ × Guest)
cap_query m sv_ptr state_ptr = elim (read_sv m sv_ptr) [
  | none ↦ none
  | some name ↦ some (elim (find_named name) [
    | none ↦ (err_notcapable, report_state state_ptr cap_denied m)
    | some c ↦ (ok, report_state state_ptr c.state m)
  ])
]
