-- ===== src/Input/Devices.antt =====
-- Device handles of runtime/desktop/src/wapi_host_input.c: the aggregate devices, the gamepads by slot,
-- the roles, and what a guest asks of any device.
pub mod Bound
pub mod Binding
pub mod Pairing
use wapi.Base.{
  ℕ, zero, suc, ◌+◌, ◌-◌, ◌/◌, ◌%◌, ◌&&◌, ◌||◌, not, Bool, true, false, Option, none, some, List,
  [], ◌∷◌, ◌++◌, length, take, replicate, update, find_from, count_from, leb, ltb, ◌==◌,
  if◌then◌else◌,
}
use wapi.Abi.{ok, err_badf, err_inval, minus, u32}
use wapi.Guest.{Guest, wasm_ptr, poke, write_u64}
use wapi.Handles.{
  Handles, surface, input_device, same_type, max_handles, alloc, release, set_payload, type_at,
  payload_at,
}
use wapi.Input.{
  Input, Device, Payload, zeroed, device, window_at, Minted, gamepad_slots, role_keyboard,
  role_mouse, role_gamepad, role_hid, role_touch, role_pen, role_pointer, dev_get,
}
use wapi.Input.Platform.{Platform}

-- "Mouse", "Keyboard", "Pointer", "Touch", "Pen"
abbrev mouse_name : List ℕ
mouse_name = 77 ∷ 111 ∷ 117 ∷ 115 ∷ 101 ∷ []

abbrev keyboard_name : List ℕ
keyboard_name = 75 ∷ 101 ∷ 121 ∷ 98 ∷ 111 ∷ 97 ∷ 114 ∷ 100 ∷ []

abbrev pointer_name : List ℕ
pointer_name = 80 ∷ 111 ∷ 105 ∷ 110 ∷ 116 ∷ 101 ∷ 114 ∷ []

abbrev touch_name : List ℕ
touch_name = 84 ∷ 111 ∷ 117 ∷ 99 ∷ 104 ∷ []

abbrev pen_name : List ℕ
pen_name = 80 ∷ 101 ∷ 110 ∷ []

-- "XInput Gamepad " and "HID Gamepad "
abbrev xinput_name : List ℕ
xinput_name = 88 ∷ 73 ∷ 110 ∷ 112 ∷ 117 ∷ 116 ∷ 32 ∷ 71 ∷ 97 ∷ 109 ∷ 101 ∷ 112 ∷ 97 ∷ 100 ∷ 32 ∷ []

abbrev hid_name : List ℕ
hid_name = 72 ∷ 73 ∷ 68 ∷ 32 ∷ 71 ∷ 97 ∷ 109 ∷ 101 ∷ 112 ∷ 97 ∷ 100 ∷ 32 ∷ []

-- `%u` of a number below 100
abbrev decimal : ℕ → List ℕ
decimal n = if ltb n 10 then (48 + n) ∷ [] else (48 + n / 10) ∷ (48 + n % 10) ∷ []

abbrev pub pad_name : ℕ → List ℕ
pad_name slot = if ltb slot 4 then xinput_name ++ decimal slot else hid_name ++ decimal (slot - 4)

-- The record that `dev_alloc_fixed` fills; the names it is given are shorter than 64.
abbrev pub fixed_device : ℕ → ℕ → List ℕ → Device
fixed_device kind slot name = record {
  kind = kind;
  backend_slot = slot;
  uid = (kind % 256) ∷ (slot % 256) ∷ replicate 14 0;
  name = take 63 name;
  hid_dev = 0;
  hid_vendor = 0;
  hid_product = 0;
  hid_usage_page = 0;
  hid_usage = 0;
}

-- The record of a gamepad, of its generation.
abbrev pub pad_device : ℕ → ℕ → Device
pad_device slot generation = record (fixed_device role_gamepad slot []) {
  uid = role_gamepad ∷ (slot % 256) ∷ generation ∷ replicate 13 0;
  name = pad_name slot;
}

module _ {W : Type 0} where
  -- A handle for a device, with its record; 0 if the table is full.
  unfoldable pub dev_alloc : Device → Input W → ℕ × Input W
  dev_alloc d s =
      let (h, t) = alloc zeroed s.handles input_device in
      if h == 0
      then (0, record s { handles = t })
      else (h, record s { handles = set_payload t h (device d) })

  -- `dev_alloc_fixed`
  abbrev pub dev_alloc_fixed : ℕ → List ℕ → ℕ → Input W → ℕ × Input W
  dev_alloc_fixed kind name slot s = dev_alloc (fixed_device kind slot name) s

  -- The handle and the generation of a slot.
  abbrev pub bind_slot : ℕ → ℕ → ℕ → Input W → Input W
  bind_slot slot h generation s = record s {
    minted = record (s.minted) {
      gamepads = update s.minted.gamepads slot h;
      generations = update s.minted.generations slot generation;
    };
  }

  -- `dev_gamepad_for_slot`
  unfoldable pub gamepad_for_slot : ℕ → Input W → ℕ × Input W
  gamepad_for_slot slot s =
      if leb gamepad_slots slot
      then (0, s)
      else if not (s.minted.gamepads slot == 0)
      then (s.minted.gamepads slot, s)
      else let generation = (s.minted.generations slot + 1) % 256 in
        let (h, s') = dev_alloc (pad_device slot generation) s in
        if h == 0 then (0, s') else (h, bind_slot slot h generation s')

  -- `dev_gamepad_free_slot`
  unfoldable pub gamepad_free_slot : ℕ → Input W → Input W
  gamepad_free_slot slot s =
      if leb gamepad_slots slot
      then s
      else if s.minted.gamepads slot == 0
      then s
      else bind_slot slot 0 (s.minted.generations slot)
          (record s { handles = release zeroed s.handles (s.minted.gamepads slot) })

  -- One line of `wapi_host_input_init`: a device that has no handle yet gets one.
  unfoldable pub mint : Bool → ℕ → Device → (ℕ → Minted → Minted) → Input W → Input W
  mint wanted h d put s =
      let (h', s') = dev_alloc d s in
      if wanted && h == 0 then record s' { minted = put h' s'.minted } else s

module _ {W : Type 0} (plat : Platform W) where
  -- The five devices of `wapi_host_input_init`, the last two where the platform has them.
  abbrev mint_mouse : Input W → Input W
  mint_mouse s =
      mint true s.minted.mouse (fixed_device role_mouse 0 mouse_name)
        (λ h m. record m { mouse = h }) s

  abbrev mint_keyboard : Input W → Input W
  mint_keyboard s =
      mint true s.minted.keyboard (fixed_device role_keyboard 0 keyboard_name)
        (λ h m. record m { keyboard = h }) s

  abbrev mint_pointer : Input W → Input W
  mint_pointer s =
      mint true s.minted.pointer (fixed_device role_pointer 0 pointer_name)
        (λ h m. record m { pointer = h }) s

  abbrev mint_touch : Input W → Input W
  mint_touch s =
      mint (plat.touch_available s.world) s.minted.touch (fixed_device role_touch 0 touch_name)
        (λ h m. record m { touch = h }) s

  abbrev mint_pen : Input W → Input W
  mint_pen s =
      mint (plat.pen_available s.world) s.minted.pen (fixed_device role_pen 0 pen_name)
        (λ h m. record m { pen = h }) s

  -- `wapi_host_input_init`
  unfoldable pub init : Input W → Input W
  init s = mint_pen (mint_touch (mint_pointer (mint_keyboard (mint_mouse s))))

  -- The connected slot with `index` connected ones before it, among the `n` from `slot` on. An `index`
  -- below 0 is a number that `seen` does not reach.
  abbrev pub nth_connected : W → ℕ → ℕ → ℕ → ℕ → Option ℕ
  nth_connected w index seen slot zero = none
  nth_connected w index seen slot (suc n) =
      let found = plat.gamepad_connected w slot in
      let rest = nth_connected w index (if found then seen + 1 else seen) (slot + 1) n in
      if found && seen == index then some slot else rest

  -- `wapi_host_input_resolve_role`
  unfoldable pub resolve_role : ℕ → ℕ → Input W → ℕ × Input W
  resolve_role kind index s =
      if kind == role_mouse
      then (if index == 0 then s.minted.mouse else 0, s)
      else if kind == role_keyboard
      then (if index == 0 then s.minted.keyboard else 0, s)
      else if kind == role_pointer
      then (if index == 0 then s.minted.pointer else 0, s)
      else if kind == role_touch
      then (if index == 0 && plat.touch_available s.world then s.minted.touch else 0, s)
      else if kind == role_pen
      then (if index == 0 && plat.pen_available s.world then s.minted.pen else 0, s)
      else if kind == role_gamepad
      then elim (nth_connected s.world index 0 0 gamepad_slots) [
        | none ↦ (0, s)
        | some slot ↦ gamepad_for_slot slot s
      ]
      else (0, s)

  -- `wapi_host_input_count_role`
  unfoldable pub count_role : ℕ → Input W → ℕ
  count_role kind s =
      if kind == role_mouse || (kind == role_keyboard || kind == role_pointer)
      then 1
      else if kind == role_touch
      then (if plat.touch_available s.world then 1 else 0)
      else if kind == role_pen
      then (if plat.pen_available s.world then 1 else 0)
      else if kind == role_gamepad
      then count_from (plat.gamepad_connected s.world) 0 gamepad_slots
      else 0

  -- `wapi_surface_handle_from_window_id`
  unfoldable pub surface_of : ℕ → Input W → ℕ
  surface_of id s =
      if id == 0
      then 0
      else elim (find_from
          (λ i.
            same_type (type_at s.handles i) surface
            && (not (window_at (payload_at s.handles i) == 0)
                && plat.window_id s.world (window_at (payload_at s.handles i)) == id))
          1 (max_handles - 1)) [ none ↦ 0 | some i ↦ i ]

  -- `h_input_close`: only a HID device is the guest's to release.
  unfoldable pub close : ℕ → Input W → ℕ × Input W
  close h s = elim (dev_get s h) [
    | none ↦ (err_badf, s)
    | some d ↦
        if d.kind == role_hid
        then (
          ok,
          record s {
            handles = release zeroed s.handles h;
            world = if d.hid_dev == 0 then s.world else plat.hid_close s.world d.hid_dev;
          },
        )
        else (ok, s)
  ]

module _ {W : Type 0} where
  -- `h_input_role_kind`
  unfoldable pub role_kind : ℕ → Input W → ℕ
  role_kind h s = elim (dev_get s h) [ none ↦ minus 1 | some d ↦ d.kind ]

  -- `h_input_uid`
  unfoldable pub uid : ℕ → ℕ → Input W → ℕ × Input W
  uid h out s = elim (dev_get s h) [
    | none ↦ (err_badf, s)
    | some d ↦ elim (wasm_ptr s.guest out 16) [
      | none ↦ (err_inval, s)
      | some dst ↦ (ok, record s { guest = poke s.guest dst d.uid })
    ]
  ]

  -- `h_input_name`
  unfoldable pub name : ℕ → ℕ → ℕ → ℕ → Input W → ℕ × Input W
  name h buf_ptr buf_len out_ptr s = elim (dev_get s h) [
    | none ↦ (err_badf, s)
    | some d ↦
        let copy = if ltb (length d.name) buf_len then length d.name else buf_len in
        let put : Guest → ℕ × Input W =
          λ m. (ok, record s { guest = (write_u64 m out_ptr (length d.name)).1 }) in
        if copy == 0 then put s.guest else elim (wasm_ptr s.guest buf_ptr (u32 copy)) [
          | none ↦ (err_inval, s)
          | some dst ↦ put (poke s.guest dst (take copy d.name))
        ]
  ]
