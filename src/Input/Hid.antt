-- ===== src/Input/Hid.antt =====
-- Raw HID devices in runtime/desktop/src/wapi_host_input.c: the grant of a role, and report I/O.
use wapi.Base.{
  ℕ, ◌+◌, ◌%◌, ◌&&◌, ◌||◌, not, Option, none, some, List, [], ◌∷◌, ◌++◌, length, take, ltb, ◌==◌,
  if◌then◌else◌,
}
use wapi.Base.Bytes.{to_le}
use wapi.Abi.{
  ok, err_badf, err_inval, err_io, err_nosys, err_nomem, err_noent, err_range, is_neg, u32,
}
use wapi.Guest.{Guest, wasm_ptr, peek, poke, write_bytes, write_u64}
use wapi.Input.{Input, Device, role_hid, dev_get}
use wapi.Input.Platform.{Platform, HidInfo}
use wapi.Input.Devices.{dev_alloc}

abbrev pub hid_device : HidInfo → ℕ → Device
hid_device info dev = record {
  kind = role_hid;
  backend_slot = 0;
  uid = info.uid;
  name = take 63 info.name;
  hid_dev = dev;
  hid_vendor = info.vendor_id;
  hid_product = info.product_id;
  hid_usage_page = info.usage_page;
  hid_usage = info.usage;
}

-- The first 32 bytes that `h_hid_endpoint_info` writes
abbrev endpoint_bytes : Device → ℕ → List ℕ
endpoint_bytes d desc_len =
    to_le 2 d.hid_vendor
    ++ (to_le 2 d.hid_product
        ++ (to_le 2 d.hid_usage_page
            ++ (to_le 2 d.hid_usage ++ (to_le 4 1 ++ (to_le 4 desc_len ++ d.uid)))))

abbrev is_hid : Option Device → Option Device
is_hid none = none
is_hid (some d) = if d.kind == role_hid then some d else none

-- A HID device that is open
abbrev open_hid : Option Device → Option ℕ
open_hid none = none
open_hid (some d) = if d.kind == role_hid && not (d.hid_dev == 0) then some d.hid_dev else none

-- `hid_prep_buffer`: the number of the report comes first.
abbrev pub prep_buffer : ℕ → List ℕ → List ℕ
prep_buffer report_id src = (report_id % 256) ∷ src

module _ {W : Type 0} (plat : Platform W) where
  -- The first device that has the usage and can be opened.
  unfoldable pub open_first : ℕ → List HidInfo → W → Option (ℕ × HidInfo) × W
  open_first usage [] w = (none, w)
  open_first usage (info ∷ infos) w =
      let (dev, w') = plat.hid_open w info.uid in
      let skip = open_first usage infos w in
      let next = open_first usage infos w' in
      if not (usage == 0) && not (info.usage == usage)
      then skip
      else elim dev [ none ↦ next | some d ↦ (some (d, info), w') ]

  -- The handle of a device that was opened, or the device closed again.
  unfoldable pub grant : Option (ℕ × HidInfo) → Input W → ℕ × Input W
  grant none s = (0, s)
  grant (some (dev, info)) s =
      let (h, s') = dev_alloc (hid_device info dev) s in
      if h == 0 then (0, record s' { world = plat.hid_close s'.world dev }) else (h, s')

  -- `wapi_host_input_hid_request_role`
  unfoldable pub hid_request_role : ℕ → ℕ → ℕ → ℕ → Input W → ℕ × Input W
  hid_request_role vendor product usage_page usage s =
      let (opened, w) =
        open_first usage (plat.hid_enumerate s.world vendor product usage_page) s.world in
      grant opened (record s { world = w })

  -- `h_hid_endpoint_info`
  unfoldable pub endpoint_info : ℕ → ℕ → ℕ → ℕ → ℕ → Input W → ℕ × Input W
  endpoint_info h info_out name_buf name_cap name_len_out s = elim (is_hid (dev_get s h)) [
    | none ↦ (err_inval, s)
    | some d ↦
        let m =
          (write_bytes s.guest info_out
            (endpoint_bytes d (plat.hid_descriptor_size s.world d.hid_dev))).1 in
        let copy = if ltb (length d.name) name_cap then length d.name else name_cap in
        let m' =
          if name_buf == 0 || (name_cap == 0 || length d.name == 0)
          then m
          else (write_bytes m name_buf (take copy d.name)).1 in
        (
          ok,
          record s {
            guest = if name_len_out == 0 then m' else (write_u64 m' name_len_out (length d.name)).1;
          },
        )
  ]

  -- `h_hid_serial`
  abbrev pub hid_serial : Input W → ℕ × Input W
  hid_serial s = (err_noent, s)

  -- `h_hid_report_descriptor`
  unfoldable pub report_descriptor : ℕ → ℕ → ℕ → ℕ → Input W → ℕ × Input W
  report_descriptor h buf_ptr buf_len out_ptr s = elim (open_hid (dev_get s h)) [
    | none ↦ (err_badf, s)
    | some dev ↦ elim (plat.hid_descriptor s.world dev) [
      | none ↦ (err_nosys, s)
      | some src ↦
          let copy = if ltb (length src) buf_len then length src else buf_len in
          let report : Guest → ℕ × Input W = λ m. (
            ok,
            record s { guest = if out_ptr == 0 then m else (write_u64 m out_ptr (length src)).1 },
          ) in
          if copy == 0 || buf_ptr == 0
          then report s.guest
          else elim (wasm_ptr s.guest buf_ptr (u32 copy)) [
            | none ↦ (err_inval, s)
            | some dst ↦ report (poke s.guest dst (take copy src))
          ]
    ]
  ]

  -- `h_hid_send_report` and `h_hid_send_feature`, which differ in the call that sends.
  unfoldable pub send : (W → ℕ → List ℕ → ℕ × W) → ℕ → ℕ → ℕ → ℕ → Input W → ℕ × Input W
  send transfer h report_id data_ptr data_len s = elim (open_hid (dev_get s h)) [
    | none ↦ (err_badf, s)
    | some dev ↦
        let go : List ℕ → ℕ × Input W = λ src.
          if ltb 1024 (data_len + 1) && not (plat.malloc s.world (data_len + 1))
          then (err_nomem, s)
          else let (r, w) = transfer s.world dev (prep_buffer report_id src) in
            (if is_neg r then err_io else ok, record s { world = w }) in
        if ltb 65535 data_len
        then (err_range, s)
        else if data_len == 0
        then go []
        else elim (wasm_ptr s.guest data_ptr data_len) [
          | none ↦ (err_inval, s)
          | some src ↦ go (peek s.guest src data_len)
        ]
  ]

  abbrev pub send_report : ℕ → ℕ → ℕ → ℕ → Input W → ℕ × Input W
  send_report = send plat.hid_write_report

  abbrev pub send_feature : ℕ → ℕ → ℕ → ℕ → Input W → ℕ × Input W
  send_feature = send plat.hid_send_feature

  -- `h_hid_receive_report`; the platform stores no more than it is asked for.
  unfoldable pub receive_report : ℕ → ℕ → ℕ → ℕ → Input W → ℕ × Input W
  receive_report h buf_ptr buf_len out_ptr s = elim (open_hid (dev_get s h)) [
    | none ↦ (err_badf, s)
    | some dev ↦
        let (got, w) = plat.hid_read_report s.world dev buf_len in
        let finish : Option ℕ → ℕ × Input W = λ dst. elim got [
          | none ↦ (err_io, record s { world = w })
          | some bs ↦
              let m : Guest = elim dst [ none ↦ s.guest | some p ↦ poke s.guest p bs ] in
              (ok, record s { world = w; guest = (write_u64 m out_ptr (length bs)).1 })
        ] in
        if ltb 65535 buf_len then (err_range, s) else elim (wasm_ptr s.guest buf_ptr buf_len) [
          | none ↦ if buf_len == 0 then finish none else (err_inval, s)
          | some p ↦ finish (some p)
        ]
  ]
