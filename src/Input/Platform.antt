-- ===== src/Input/Platform.antt =====
-- What runtime/desktop/src/wapi_plat.h gives to the input code: its events, and the calls of the platform
-- layer.
use wapi.Base.{ℕ, Bool, Option, List}

-- Down, up or motion, of a finger or a pen.
pub data Phase : Type 0 where
  down up motion : Phase

-- `type` and `u` of `wapi_plat_event_t`; floats are bit patterns, text is the bytes before the 0.
pub data Body : Type 0 where
  quit window_close window_focus window_blur window_show window_hide window_min window_max
        window_restore :
      Body
  window_resize : (w h : ℕ) → Body
  window_move : (x y : ℕ) → Body
  key : (is_down : Bool) (scancode keycode mods down_byte repeat : ℕ) → Body
  text_input : List ℕ → Body
  ime_start ime_update ime_cancel : Body
  mouse_motion : (button_state x y xrel yrel : ℕ) → Body
  mouse_button : (is_down : Bool) (button down_byte clicks x y : ℕ) → Body
  mouse_wheel : (x y : ℕ) → Body
  finger : (phase : Phase) (touch_id finger_id x y dx dy pressure : ℕ) → Body
  pen :
      (phase : Phase) (pen_id tool_type button x y pressure tilt_x tilt_y twist distance : ℕ) → Body
  gpad_added gpad_removed : (gamepad_id : ℕ) → Body
  gpad_axis : (gamepad_id axis axis_value : ℕ) → Body
  gpad_button : (is_down : Bool) (gamepad_id button : ℕ) → Body
  hotkey : (hotkey_id : ℕ) → Body
  menu_select : (menu_token item_id : ℕ) → Body
  tray_click tray_menu : (tray_token item_id : ℕ) → Body
  drop_files : (x y : ℕ) → Body
  unknown : Body

-- `wapi_plat_event_t`
pub record PlatEvent : Type 0 where
  pub window_id : ℕ
  pub timestamp_ns : ℕ
  pub body : Body

-- `wapi_plat_gamepad_info_t`, what the host reads of it
pub record GamepadInfo : Type 0 where
  pub type : ℕ
  pub vendor_id : ℕ
  pub product_id : ℕ
  pub has_rumble : ℕ
  pub has_trigger_rumble : ℕ
  pub has_led : ℕ
  pub has_sensors : ℕ
  pub has_touchpad : ℕ
  pub battery_percent : ℕ
  pub battery_state : ℕ

-- `wapi_plat_hid_info_t`, what the host reads of it
pub record HidInfo : Type 0 where
  pub vendor_id : ℕ
  pub product_id : ℕ
  pub usage_page : ℕ
  pub usage : ℕ
  pub uid : List ℕ
  pub name : List ℕ

-- The preedit of a window: the bytes that fit the buffer, the length, the cursor, the segments.
pub record Preedit : Type 0 where
  pub text : List ℕ
  pub text_len : ℕ
  pub cursor : ℕ
  pub seg_count : ℕ

-- `wapi_plat_*`; a call that can change the world gives the new one. An `int` result is its bit pattern.
pub record Platform (W : Type 0) : Type 0 where
  pub poll_events : W → List PlatEvent × W
  pub window_id : W → ℕ → ℕ
  pub touch_available : W → Bool
  pub pen_available : W → Bool
  pub gamepad_connected : W → ℕ → Bool
  pub mouse_x : W → ℕ
  pub mouse_y : W → ℕ
  pub mouse_buttons : W → ℕ
  pub key_pressed : W → ℕ → Bool
  pub mod_state : W → ℕ
  pub ime_preedit : W → ℕ → Preedit
  pub ime_segment : W → ℕ → ℕ → Option (ℕ × ℕ × ℕ)
  pub set_relative_mouse : W → ℕ → Bool → W
  pub warp_mouse : W → ℕ → ℕ → ℕ → Bool × W
  pub set_cursor : W → ℕ → ℕ → W
  pub set_cursor_image : W → ℕ → List ℕ → ℕ → ℕ → ℕ → ℕ → Bool × W
  pub start_text_input : W → ℕ → W
  pub stop_text_input : W → ℕ → W
  pub ime_set_candidate_rect : W → ℕ → ℕ → ℕ → ℕ → ℕ → W
  pub ime_force_commit : W → ℕ → W
  pub ime_force_cancel : W → ℕ → W
  pub touch_max_fingers : W → ℕ
  pub touch_finger_count : W → ℕ
  pub touch_finger : W → ℕ → Option (ℕ × ℕ × ℕ × ℕ)
  pub pen_tool : W → ℕ
  pub pen_capabilities : W → ℕ
  pub pen_axis : W → ℕ → Option ℕ
  pub pen_x : W → ℕ
  pub pen_y : W → ℕ
  -- What the second of two enumerations gives, after `calloc`; nothing if either fails.
  pub hid_enumerate : W → ℕ → ℕ → ℕ → List HidInfo
  pub hid_open : W → List ℕ → Option ℕ × W
  pub hid_close : W → ℕ → W
  pub hid_descriptor_size : W → ℕ → ℕ
  pub hid_descriptor : W → ℕ → Option (List ℕ)
  pub hid_write_report : W → ℕ → List ℕ → ℕ × W
  pub hid_send_feature : W → ℕ → List ℕ → ℕ × W
  pub hid_read_report : W → ℕ → ℕ → Option (List ℕ) × W
  pub hotkey_register : W → ℕ → ℕ → ℕ → Bool × W
  pub hotkey_unregister : W → ℕ → W
  pub gamepad_info : W → ℕ → Option GamepadInfo
  pub gamepad_button_pressed : W → ℕ → ℕ → Bool
  pub gamepad_axis_value : W → ℕ → ℕ → ℕ
  pub gamepad_rumble : W → ℕ → ℕ → ℕ → ℕ → Bool × W
  pub gamepad_rumble_triggers : W → ℕ → ℕ → ℕ → ℕ → Bool × W
  pub gamepad_battery_percent : W → ℕ → ℕ
  pub gamepad_set_led : W → ℕ → ℕ → ℕ → ℕ → Bool × W
  pub gamepad_enable_sensor : W → ℕ → ℕ → Bool → Bool × W
  pub gamepad_sensor : W → ℕ → ℕ → Option (ℕ × ℕ × ℕ)
  pub gamepad_touchpad_finger : W → ℕ → ℕ → ℕ → Option (Bool × ℕ × ℕ × ℕ)
  -- Conversions of floats by the compiler: to an integer, and to the nearest by adding one half.
  pub float_to_int : ℕ → ℕ
  pub float_round : ℕ → ℕ
  -- Whether `malloc` gets room for so many bytes.
  pub malloc : W → ℕ → Bool
