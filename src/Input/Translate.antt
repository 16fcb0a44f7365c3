-- ===== src/Input/Translate.antt =====
-- `wapi_host_translate_event` of runtime/desktop/src/wapi_host_input.c: the events of the platform become
-- events of the guest, in the layouts of wapi.h.
use wapi.Base.{
  ℕ, zero, suc, ◌+◌, ◌-◌, ◌%◌, ◌&&◌, not, Bool, false, none, some, List, [], ◌∷◌, ◌++◌, length, ltb,
  ◌==◌, if◌then◌else◌,
}
use wapi.Base.Bytes.{to_le}
use wapi.Abi.{u32, u32_mod}
use wapi.Handles.{surface, same_type, max_handles, type_at, payload_at}
use wapi.Input.{Input, Segment, gamepad_slots, role_gamepad, dev_get, window_at, emit}
use wapi.Input.Platform.{
  Platform, PlatEvent, Body, Phase, quit, window_close, window_focus, window_blur, window_show,
  window_hide, window_min, window_max, window_restore, window_resize, window_move, key, text_input,
  ime_start, ime_update, ime_cancel, mouse_motion, mouse_button, mouse_wheel, finger, pen,
  gpad_added, gpad_removed, gpad_axis, gpad_button, hotkey, menu_select, tray_click, tray_menu,
  drop_files, unknown,
}
use wapi.Input.Devices.{gamepad_for_slot, gamepad_free_slot, surface_of}
use wapi.Input.Ime.{alloc_event, segs_max}
use wapi.Input.Layout.{
  event, half, PointerEvent, pointer_fields, of_phase, touching, menu_handle, tray_handle,
  ime_fields, uid_or_zeros, with_mouse,
}

module _ {W : Type 0} where
  -- `push_pointer`
  unfoldable pub push_pointer : ℕ → ℕ → PointerEvent → Input W → Input W
  push_pointer sid ts p s = record (emit (event p.type sid ts (pointer_fields p)) s) {
    ptr_state = record { x = p.x; y = p.y; buttons = p.buttons };
  }

  -- An IME event with its payload put into the store.
  unfoldable pub push_ime : ℕ → ℕ → ℕ → List ℕ → ℕ → ℕ → ℕ → List Segment → Input W → Input W
  push_ime type sid ts text len cursor flags segments s =
      let (seq, st) = alloc_event text len cursor flags segments s.ime in
      emit (event type sid ts (ime_fields seq len cursor (length segments) flags))
        (record s { ime = st })

  abbrev device_fields : ℕ → Input W → List ℕ
  device_fields h s =
      to_le 4 role_gamepad
      ++ (to_le 4 h ++ uid_or_zeros (elim (dev_get s h) [ none ↦ none | some d ↦ some d.uid ]))

  -- `WAPI_PLAT_EV_GPAD_ADDED`
  unfoldable pub on_added : ℕ → ℕ → Input W → Input W
  on_added slot ts s =
      let (h, s') = gamepad_for_slot slot s in emit (event 0x500 0 ts (device_fields h s')) s'

  -- `WAPI_PLAT_EV_GPAD_REMOVED`
  unfoldable pub on_removed : ℕ → ℕ → Input W → Input W
  on_removed slot ts s =
      let h = s.minted.gamepads (if ltb slot gamepad_slots then slot else 0) in
      gamepad_free_slot slot (emit (event 0x501 0 ts (device_fields h s)) s)

  -- An axis or a button: the event carries the handle of the slot.
  unfoldable pub on_gamepad : ℕ → ℕ → ℕ → List ℕ → Input W → Input W
  on_gamepad type slot ts fields s =
      let (h, s') = gamepad_for_slot slot s in emit (event type 0 ts (to_le 4 h ++ fields)) s'

  abbrev on_motion : ℕ → ℕ → ℕ → ℕ → ℕ → ℕ → ℕ → Input W → Input W
  on_motion sid ts button_state x y xrel yrel s =
      push_pointer sid ts
        (record {
          type = 0x902;
          pointer_id = 0;
          pointer_type = 0;
          button = 0;
          buttons = button_state % 256;
          x = x;
          y = y;
          dx = xrel;
          dy = yrel;
          pressure = if button_state == 0 then 0 else half;
          tilt_x = 0;
          tilt_y = 0;
          twist = 0;
        })
        (emit
          (event 0x400 sid ts (
            with_mouse s (
              to_le 4 button_state
              ++ (to_le 4 x ++ (to_le 4 y ++ (to_le 4 xrel ++ to_le 4 yrel))))))
          s)

  abbrev on_finger : ℕ → ℕ → Phase → ℕ → ℕ → ℕ → ℕ → ℕ → ℕ → ℕ → Input W → Input W
  on_finger sid ts phase touch_id finger_id x y dx dy pressure s =
      push_pointer sid ts
        (record {
          type = of_phase phase 0x900 0x901 0x902;
          pointer_id = u32 (u32 finger_id + 1);
          pointer_type = 1;
          button = 1;
          buttons = touching phase;
          x = x;
          y = y;
          dx = dx;
          dy = dy;
          pressure = pressure;
          tilt_x = 0;
          tilt_y = 0;
          twist = 0;
        })
        (emit
          (event (of_phase phase 0x700 0x701 0x702) sid ts (
            to_le 4 touch_id
            ++ (to_le 4 finger_id
                ++ (to_le 4 x ++ (to_le 4 y ++ (to_le 4 dx ++ (to_le 4 dy ++ to_le 4 pressure)))))))
          s)

  abbrev on_pen : ℕ → ℕ → Phase → ℕ → ℕ → ℕ → ℕ → ℕ → ℕ → ℕ → ℕ → ℕ → ℕ → Input W → Input W
  on_pen sid ts phase pen_id tool button x y pressure tilt_x tilt_y twist distance s =
      push_pointer sid ts
        (record {
          type = of_phase phase 0x900 0x901 0x902;
          pointer_id = u32_mod - 1;
          pointer_type = 2;
          button = 1;
          buttons = touching phase;
          x = x;
          y = y;
          dx = 0;
          dy = 0;
          pressure = pressure;
          tilt_x = tilt_x;
          tilt_y = tilt_y;
          twist = twist;
        })
        (emit
          (event (of_phase phase 0x800 0x801 0x802) sid ts (
            to_le 4 pen_id
            ++ (tool ∷ button ∷ 0 ∷ 0 ∷ []
                ++ (to_le 4 x
                    ++ (to_le 4 y
                        ++ (to_le 4 pressure
                            ++ (to_le 4 tilt_x
                                ++ (to_le 4 tilt_y ++ (to_le 4 twist ++ to_le 4 distance)))))))))
          s)

module _ {W : Type 0} (plat : Platform W) where
  -- The segments of a preedit that the platform gives, among the `n` from `i` on.
  abbrev gather : W → ℕ → ℕ → ℕ → List Segment
  gather w win i zero = []
  gather w win i (suc n) =
      let rest = gather w win (i + 1) n in
      elim (plat.ime_segment w win i) [
        | none ↦ rest
        | some (start, len, flags) ↦ record { start = start; length = len; flags = flags } ∷ rest
      ]

  -- The window of a surface handle; 0 if it is no surface.
  abbrev pub window_for : ℕ → Input W → ℕ
  window_for sid s =
      if not (sid == 0) && (ltb sid max_handles && same_type (type_at s.handles sid) surface)
      then window_at (payload_at s.handles sid)
      else 0

  -- `WAPI_PLAT_EV_IME_START` and `_UPDATE`
  unfoldable pub on_preedit : ℕ → ℕ → ℕ → Input W → Input W
  on_preedit type sid ts s =
      let win = window_for sid s in
      let p = plat.ime_preedit s.world win in
      let cap = if ltb p.seg_count segs_max then p.seg_count else segs_max in
      if win == 0
      then push_ime type sid ts [] 0 0 1 [] s
      else push_ime type sid ts p.text p.text_len p.cursor 1 (gather s.world win 0 cap) s

  -- `WAPI_PLAT_EV_MOUSE_DOWN` and `_UP`
  abbrev on_button : ℕ → ℕ → Bool → ℕ → ℕ → ℕ → ℕ → ℕ → Input W → Input W
  on_button sid ts is_down button down_byte clicks x y s =
      push_pointer sid ts
        (record {
          type = if is_down then 0x900 else 0x901;
          pointer_id = 0;
          pointer_type = 0;
          button = button;
          buttons = plat.mouse_buttons s.world % 256;
          x = x;
          y = y;
          dx = 0;
          dy = 0;
          pressure = if is_down then half else 0;
          tilt_x = 0;
          tilt_y = 0;
          twist = 0;
        })
        (emit
          (event (if is_down then 0x401 else 0x402) sid ts
            (with_mouse s (button ∷ down_byte ∷ clicks ∷ 0 ∷ [] ++ (to_le 4 x ++ to_le 4 y))))
          s)

  -- `WAPI_PLAT_EV_MENU_SELECT`, `WAPI_PLAT_EV_TRAY_CLICK` and `_MENU`, of the handle that the token stands for
  abbrev on_item : ℕ → ℕ → ℕ → ℕ → Input W → Input W
  on_item type handle item_id ts s = emit (event type 0 ts (to_le 4 handle ++ to_le 4 item_id)) s

  -- `WAPI_PLAT_EV_DROP_FILES`
  abbrev on_drop : ℕ → ℕ → ℕ → ℕ → Input W → Input W
  on_drop sid ts x y s =
      emit
        (event 0x1603 sid ts (
          to_le 4 0
          ++ (to_le 4 (plat.float_to_int x)
              ++ (to_le 4 (plat.float_to_int y) ++ (to_le 4 0 ++ to_le 4 1)))))
        s

  -- The `switch` of `wapi_host_translate_event`
  unfoldable pub translate_body : Body → ℕ → ℕ → Input W → Input W
  translate_body quit sid ts s = record (emit (event 0x100 0 ts []) s) { running = false }
  translate_body window_close sid ts s = emit (event 0x210 sid ts []) s
  translate_body window_focus sid ts s = emit (event 0x211 sid ts []) s
  translate_body window_blur sid ts s = emit (event 0x212 sid ts []) s
  translate_body window_show sid ts s = emit (event 0x213 sid ts []) s
  translate_body window_hide sid ts s = emit (event 0x214 sid ts []) s
  translate_body window_min sid ts s = emit (event 0x215 sid ts []) s
  translate_body window_max sid ts s = emit (event 0x216 sid ts []) s
  translate_body window_restore sid ts s = emit (event 0x217 sid ts []) s
  translate_body (window_resize w h) sid ts s = emit (event 0x200 sid ts (to_le 4 w ++ to_le 4 h)) s
  translate_body (window_move x y) sid ts s = emit (event 0x218 sid ts (to_le 4 x ++ to_le 4 y)) s
  translate_body (key is_down scancode keycode mods down_byte repeat) sid ts s =
      emit
        (event (if is_down then 0x300 else 0x301) sid ts (
          to_le 4 s.minted.keyboard
          ++ (to_le 4 scancode
              ++ (to_le 4 keycode ++ (to_le 2 mods ++ (down_byte ∷ repeat ∷ []))))))
        s
  translate_body (text_input text) sid ts s =
      push_ime 0x322 sid ts text (length text) (length text) 0 [] s
  translate_body ime_start sid ts s = on_preedit 0x320 sid ts s
  translate_body ime_update sid ts s = on_preedit 0x321 sid ts s
  translate_body ime_cancel sid ts s = push_ime 0x323 sid ts [] 0 0 0 [] s
  translate_body (mouse_motion button_state x y xrel yrel) sid ts s =
      on_motion sid ts button_state x y xrel yrel s
  translate_body (mouse_button is_down button down_byte clicks x y) sid ts s =
      on_button sid ts is_down button down_byte clicks x y s
  translate_body (mouse_wheel x y) sid ts s =
      emit (event 0x403 sid ts (with_mouse s (to_le 4 0 ++ (to_le 4 x ++ to_le 4 y)))) s
  translate_body (finger phase touch_id finger_id x y dx dy pressure) sid ts s =
      on_finger sid ts phase touch_id finger_id x y dx dy pressure s
  translate_body (pen phase pen_id tool button x y pressure tilt_x tilt_y twist distance) sid ts s =
      on_pen sid ts phase pen_id tool button x y pressure tilt_x tilt_y twist distance s
  translate_body (gpad_added slot) sid ts s = on_added slot ts s
  translate_body (gpad_removed slot) sid ts s = on_removed slot ts s
  translate_body (gpad_axis slot axis axis_value) sid ts s =
      on_gamepad 0x652 slot ts (axis ∷ 0 ∷ 0 ∷ 0 ∷ [] ++ to_le 2 axis_value) s
  translate_body (gpad_button is_down slot button) sid ts s =
      on_gamepad (if is_down then 0x653 else 0x654) slot ts
        (button ∷ (if is_down then 1 else 0) ∷ []) s
  translate_body (hotkey hotkey_id) sid ts s = emit (event 0x1830 0 ts (to_le 4 hotkey_id)) s
  translate_body (menu_select token item_id) sid ts s =
      on_item 0x1850 (menu_handle s.handles token) item_id ts s
  translate_body (tray_click token item_id) sid ts s =
      on_item 0x1820 (tray_handle s.handles token) item_id ts s
  translate_body (tray_menu token item_id) sid ts s =
      on_item 0x1821 (tray_handle s.handles token) item_id ts s
  translate_body (drop_files x y) sid ts s = on_drop sid ts x y s
  translate_body unknown sid ts s = s

  -- `wapi_host_translate_event`
  unfoldable pub translate : PlatEvent → Input W → Input W
  translate pe s = translate_body pe.body (surface_of plat pe.window_id s) pe.timestamp_ns s

  unfoldable pub translate_all : List PlatEvent → Input W → Input W
  translate_all [] s = s
  translate_all (pe ∷ pes) s = translate_all pes (translate pe s)

  -- `wapi_host_pump_platform_events`: batches until one is empty, on fuel.
  unfoldable pub pump : ℕ → Input W → Input W
  pump zero s = s
  pump (suc fuel) s =
      let (batch, w) = plat.poll_events s.world in
      elim batch [
        | [] ↦ record s { world = w }
        | pe ∷ pes ↦ pump fuel (translate_all (pe ∷ pes) (record s { world = w }))
      ]
