-- ===== src/Io/Roles.antt =====
-- The role system of the I/O bridge: `op_role_request` walks an array of 56-byte requests in guest
-- memory and answers each one in place.
pub mod Requests
use wapi.Base.{
  ℕ, zero, suc, ◌+◌, ◌*◌, ◌/◌, ◌&&◌, not, Bool, true, false, Option, none, some, ◌==◌, leb, List,
  [], ◌∷◌, if◌then◌else◌,
}
use wapi.Base.Bytes.{from_le}
use wapi.Abi.{u32, ok, err_acces, err_noent, err_nosys}
use wapi.Guest.{Guest, wasm_ptr, peek, write_u32}
use wapi.Handles.{Handles, alloc, audio_device, set_payload}
use wapi.Runtime.{Runtime, Host, AudioSpec, OpCtx, Payload, other, zeroed}
use wapi.Io.Opcodes.{contains}
use wapi.Io.Files.{report_u32}

-- The kinds of role that `role_dispatch_one` tells apart.
pub data Role : Type 0 where
  audio : (recording : Bool) → Role
  input : Role
  hid : Role
  unsupported : Role

-- Keyboard, mouse, gamepad, touch, pen and pointer.
abbrev pub input_kinds : List ℕ
input_kinds = 0x06 ∷ 0x07 ∷ 0x08 ∷ 0x0D ∷ 0x0E ∷ 0x0F ∷ []

unfoldable pub role_of : ℕ → Role
role_of kind =
    if kind == 0x01
    then audio false
    else if kind == 0x02
    then audio true
    else if contains input_kinds kind
    then input
    else if kind == 0x0C
    then hid
    else unsupported

-- The little-endian integer of `n` bytes at an address.
abbrev pub field : Guest → ℕ → ℕ → ℕ
field m p n = from_le (peek m p n)

-- `wapi_host_audio_read_spec`
unfoldable pub read_spec : Guest → ℕ → Option AudioSpec
read_spec m ptr = elim (wasm_ptr m ptr 12) [
  | none ↦ none
  | some p ↦
      some (record { format = field m p 4; channels = field m (p + 4) 4; freq = field m (p + 8) 4 })
]

-- `wapi_role_request_t`, less its flags, padding and target, which nothing consults.
pub record RoleRequest : Type 0 where
  pub kind : ℕ
  pub prefs_addr : ℕ
  pub prefs_len : ℕ
  pub out_handle : ℕ
  pub out_result : ℕ

unfoldable pub read_request : Guest → ℕ → RoleRequest
read_request m p = record {
  kind = field m p 4;
  prefs_addr = field m (p + 8) 8;
  prefs_len = field m (p + 16) 4;
  out_handle = field m (p + 24) 8;
  out_result = field m (p + 32) 8;
}

-- `wapi_hid_prefs_t`: vendor, product, usage page, usage.
unfoldable pub read_hid_prefs : Guest → ℕ → ℕ → ℕ × ℕ × ℕ × ℕ
read_hid_prefs m prefs_addr prefs_len =
    if not (prefs_addr == 0) && leb 8 prefs_len
    then elim (wasm_ptr m (u32 prefs_addr) 8) [
      | none ↦ (0, 0, 0, 0)
      | some p ↦ (field m p 2, field m (p + 2) 2, field m (p + 4) 2, field m (p + 6) 2)
    ]
    else (0, 0, 0, 0)

-- `if (!handle) result = ...;`
abbrev pub granted : ℕ → ℕ → ℕ
granted handle refused = if handle == 0 then refused else ok

module _ {W : Type 0} (host : Host W) where
  -- `role_open_audio` from `wapi_handle_alloc` on: the open device gets a handle, or is closed.
  unfoldable pub attach : ℕ → W → Runtime W → ℕ × Handles Payload → ℕ × Runtime W
  attach d w rt (h, handles) =
      if h == 0
      then (0, record rt { handles = handles; world = host.audio_close w d })
      else (h, record rt { handles = set_payload handles h (other d); world = w })

  -- `role_open_audio`: the default device, its handle or 0.
  unfoldable pub role_open_audio : Bool → ℕ → ℕ → Runtime W → ℕ × Runtime W
  role_open_audio recording prefs_addr prefs_len rt =
      let spec =
        if not (prefs_addr == 0) && leb 12 prefs_len then read_spec rt.guest prefs_addr else none in
      let (d, w) = host.audio_open rt.world recording spec in
      if d == 0
      then (0, record rt { world = w })
      else attach d w rt (alloc zeroed rt.handles audio_device)

  -- The switch of `role_dispatch_one`: handle and result.
  unfoldable pub fulfil : RoleRequest → Role → Runtime W → (ℕ × ℕ) × Runtime W
  fulfil r (audio recording) rt =
      let (h, rt') = role_open_audio recording (u32 r.prefs_addr) r.prefs_len rt in
      ((h, granted h err_noent), rt')
  fulfil r input rt =
      let (h, rt') = host.resolve_role r.kind 0 rt in ((h, granted h err_noent), rt')
  fulfil r hid rt =
      let (vendor, product, page, usage) = read_hid_prefs rt.guest r.prefs_addr r.prefs_len in
      let (h, rt') = host.request_hid vendor product page usage rt in
      ((h, granted h err_acces), rt')
  fulfil r unsupported rt = ((0, err_nosys), rt)

  -- The answer, written where the request asks for it.
  unfoldable pub answer : RoleRequest → ℕ → ℕ → Guest → Guest
  answer r handle result m = report_u32 r.out_result result (report_u32 r.out_handle handle m)

  unfoldable pub role_dispatch_one : ℕ → Runtime W → Runtime W
  role_dispatch_one entry_addr rt = elim (wasm_ptr rt.guest entry_addr 56) [
    | none ↦ rt
    | some p ↦
        let r = read_request rt.guest p in
        let ((handle, result), rt') = fulfil r (role_of r.kind) rt in
        record rt' { guest = answer r handle result rt'.guest }
  ]

  -- `for (i = 0; i < count; i++)`, with `n` rounds left; the address wraps.
  unfoldable pub role_dispatch_all : ℕ → ℕ → ℕ → Runtime W → Runtime W
  role_dispatch_all zero i arr_addr rt = rt
  role_dispatch_all (suc n) i arr_addr rt =
      role_dispatch_all n (i + 1) arr_addr (role_dispatch_one (u32 (arr_addr + i * 56)) rt)

  unfoldable pub op_role_request : OpCtx → Runtime W → OpCtx × Runtime W
  op_role_request c rt =
      let count = if c.flags2 == 0 then u32 (c.len / 56) else c.flags2 in
      (record c { result = ok }, role_dispatch_all count 0 (u32 c.addr) rt)

module _ {W : Type 0} where
  -- The same handle is picked again.
  unfoldable pub op_role_repick : OpCtx → Runtime W → OpCtx × Runtime W
  op_role_repick c rt =
      (record c { result = ok }, record rt { guest = report_u32 c.result_ptr c.fd rt.guest })
