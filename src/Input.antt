-- ===== src/Input.antt =====
-- runtime/desktop/src/wapi_host_input.c: the devices, the IME store and the pointer state that platform
-- events change and the imports of "wapi_input" read, with the part of `g_rt` that they share.
pub mod Platform
pub mod Devices
pub mod Ime
pub mod Layout
pub mod Translate
pub mod Pads
pub mod Pointing
pub mod Hid
pub mod Runs
pub mod Pump
pub mod Removal
use wapi.Base.{
  ℕ, ◌+◌, ◌-◌, ◌&&◌, not, Bool, true, false, Option, none, some, List, find_from, ◌==◌,
  if◌then◌else◌,
}
use wapi.Guest.{Guest}
use wapi.Handles.{
  Handles, Entry, HandleType, surface, input_device, menu, tray, same_type, max_handles, valid,
  payload_at,
}
use wapi.EventQueue.{Event, EventQueue, push}

-- `wapi_role_kind_t`
abbrev pub role_keyboard : ℕ
role_keyboard = 6

abbrev pub role_mouse : ℕ
role_mouse = 7

abbrev pub role_gamepad : ℕ
role_gamepad = 8

abbrev pub role_hid : ℕ
role_hid = 12

abbrev pub role_touch : ℕ
role_touch = 13

abbrev pub role_pen : ℕ
role_pen = 14

abbrev pub role_pointer : ℕ
role_pointer = 15

-- `wapi_input_device_t`; the platform's device is a number, 0 for NULL.
pub record Device : Type 0 where
  pub kind : ℕ
  pub backend_slot : ℕ
  pub uid : List ℕ
  pub name : List ℕ
  pub hid_dev : ℕ
  pub hid_vendor : ℕ
  pub hid_product : ℕ
  pub hid_usage_page : ℕ
  pub hid_usage : ℕ

-- The union of a handle's data; platform pointers are numbers, 0 for NULL.
pub data Payload : Type 0 where
  zeroed : Payload
  device : Device → Payload
  window : ℕ → Payload
  menu_of : (plat token : ℕ) → Payload
  tray_of : (plat token menu_handle : ℕ) → Payload
  other : ℕ → Payload

-- `ime_segment_store_t`
pub record Segment : Type 0 where
  pub start : ℕ
  pub length : ℕ
  pub flags : ℕ

-- `ime_slot_t`; the text up to its 0, and the first `segment_count` segments.
pub record ImeSlot : Type 0 where
  pub seq : ℕ
  pub text : List ℕ
  pub text_len : ℕ
  pub cursor : ℕ
  pub flags : ℕ
  pub segments : List Segment

-- `s_ime_slots` and `s_ime_next_seq`
pub record ImeStore : Type 0 where
  pub slots : ℕ → ImeSlot
  pub next_seq : ℕ

-- `s_ptr_state`; a float is its bit pattern.
pub record Pointer : Type 0 where
  pub x : ℕ
  pub y : ℕ
  pub buttons : ℕ

-- The handles of the aggregate devices, and of the gamepads by their slot.
pub record Minted : Type 0 where
  pub mouse : ℕ
  pub keyboard : ℕ
  pub pointer : ℕ
  pub touch : ℕ
  pub pen : ℕ
  pub gamepads : ℕ → ℕ
  pub generations : ℕ → ℕ

pub record Input (W : Type 0) : Type 0 where
  pub guest : Guest
  pub handles : Handles Payload
  pub event_queue : EventQueue
  pub running : Bool
  pub minted : Minted
  pub ime : ImeStore
  pub ptr_state : Pointer
  pub next_hotkey : ℕ
  pub world : W

abbrev pub gamepad_slots : ℕ
gamepad_slots = 16

abbrev pub is_device : Payload → Option Device
is_device (device d) = some d
is_device _ = none

-- `data.window`
abbrev pub window_at : Payload → ℕ
window_at (window w) = w
window_at _ = 0

abbrev kind_is : ℕ → Option Device → Bool
kind_is kind none = false
kind_is kind (some d) = d.kind == kind

module _ {W : Type 0} where
  -- `dev_get`
  unfoldable pub dev_get : Input W → ℕ → Option Device
  dev_get s h = if valid s.handles h input_device then is_device (payload_at s.handles h) else none

  -- `dev_is_kind`
  unfoldable pub dev_is_kind : Input W → ℕ → ℕ → Bool
  dev_is_kind s h kind = kind_is kind (dev_get s h)

  -- `wapi_event_queue_push`, its result dropped
  abbrev pub emit : Event → Input W → Input W
  emit ev s = record s { event_queue = (push ev s.event_queue).1 }
