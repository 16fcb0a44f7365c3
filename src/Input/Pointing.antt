-- ===== src/Input/Pointing.antt =====
-- The imports of runtime/desktop/src/wapi_host_input.c for mouse, keyboard, pointer, touch, pen and hotkeys.
use wapi.Base.{
  ℕ, zero, suc, ◌+◌, ◌*◌, ◌-◌, ◌&&◌, ◌||◌, not, Bool, false, Option, none, some, List, ◌∷◌, ◌++◌,
  replicate, leb, ◌==◌, if◌then◌else◌,
}
use wapi.Base.Bytes.{to_le, from_le}
use wapi.Abi.{
  ok, err_badf, err_inval, err_notsup, err_busy, err_range, is_neg, le_zero, u32, u32_mod,
}
use wapi.Guest.{wasm_ptr, peek, poke, write_u32}
use wapi.Handles.{surface, same_type, max_handles, valid, type_at, payload_at}
use wapi.Input.{Input, role_keyboard, role_mouse, role_touch, role_pen, dev_is_kind, window_at}
use wapi.Input.Platform.{Platform}
use wapi.Input.Pads.{write_out}

module _ {W : Type 0} where
  -- Two floats that go out, wherever they have room.
  abbrev write_pair : ℕ → ℕ → ℕ → ℕ → Input W → ℕ × Input W
  write_pair xp yp x y s = (ok, record s { guest = (write_u32 (write_u32 s.guest xp x).1 yp y).1 })

  -- The bytes of a struct of 16, behind the check of its address.
  abbrev put_struct : ℕ → List ℕ → Input W → ℕ × Input W
  put_struct ptr bs s = elim (wasm_ptr s.guest ptr 16) [
    | none ↦ (err_inval, s)
    | some dst ↦ (ok, record s { guest = poke s.guest dst bs })
  ]

  -- `h_mouse_get_info`
  unfoldable pub mouse_get_info : ℕ → ℕ → Input W → ℕ × Input W
  mouse_get_info h info_pt s =
      if not (dev_is_kind s h role_mouse)
      then (err_inval, s)
      else put_struct info_pt (to_le 4 5 ++ (1 ∷ replicate 11 0)) s

  -- `h_pointer_get_info`
  unfoldable pub pointer_get_info : ℕ → Input W → ℕ × Input W
  pointer_get_info pi s = put_struct pi (1 ∷ 1 ∷ 1 ∷ 1 ∷ replicate 12 0) s

  -- `h_pointer_get_position`
  unfoldable pub pointer_get_position : ℕ → ℕ → Input W → ℕ × Input W
  pointer_get_position xp yp s = write_pair xp yp s.ptr_state.x s.ptr_state.y s

  -- `h_pointer_get_buttons`
  abbrev pub pointer_get_buttons : Input W → ℕ
  pointer_get_buttons s = s.ptr_state.buttons

module _ {W : Type 0} (plat : Platform W) where
  -- `h_mouse_get_position`
  unfoldable pub mouse_get_position : ℕ → ℕ → ℕ → Input W → ℕ × Input W
  mouse_get_position h xp yp s =
      if not (dev_is_kind s h role_mouse)
      then (err_badf, s)
      else write_pair xp yp (plat.mouse_x s.world) (plat.mouse_y s.world) s

  -- `h_mouse_get_button_state`
  unfoldable pub mouse_get_button_state : ℕ → Input W → ℕ
  mouse_get_button_state h s =
      if not (dev_is_kind s h role_mouse) then 0 else plat.mouse_buttons s.world

  -- `h_mouse_set_relative`
  unfoldable pub mouse_set_relative : ℕ → ℕ → ℕ → Input W → ℕ × Input W
  mouse_set_relative h sh on s =
      if not (dev_is_kind s h role_mouse)
      then (err_badf, s)
      else if not (valid s.handles sh surface)
      then (err_badf, s)
      else (
        ok,
        record s {
          world =
              plat.set_relative_mouse s.world (window_at (payload_at s.handles sh)) (not (on == 0));
        },
      )

  -- `h_mouse_warp`
  unfoldable pub mouse_warp : ℕ → ℕ → ℕ → ℕ → Input W → ℕ × Input W
  mouse_warp h sh x y s =
      if not (dev_is_kind s h role_mouse)
      then (err_badf, s)
      else if not (valid s.handles sh surface)
      then (err_badf, s)
      else let (done, w) = plat.warp_mouse s.world (window_at (payload_at s.handles sh)) x y in
        (if done then ok else err_notsup, record s { world = w })

  -- The window of entry `i`, if it is a surface with one.
  abbrev live_window : Input W → ℕ → Option ℕ
  live_window s i =
      if same_type (type_at s.handles i) surface && not (window_at (payload_at s.handles i) == 0)
      then some (window_at (payload_at s.handles i))
      else none

  -- The loop over the handles in `h_mouse_set_cursor`
  unfoldable pub cursor_loop : ℕ → ℕ → ℕ → Input W → Input W
  cursor_loop cursor i zero s = s
  cursor_loop cursor i (suc n) s = cursor_loop cursor (i + 1) n (elim (live_window s i) [
    | none ↦ s
    | some win ↦ record s { world = plat.set_cursor s.world win cursor }
  ])

  -- `h_mouse_set_cursor`
  unfoldable pub mouse_set_cursor : ℕ → ℕ → Input W → ℕ × Input W
  mouse_set_cursor h cursor s =
      if not (dev_is_kind s h role_mouse)
      then (err_badf, s)
      else (ok, cursor_loop cursor 1 (max_handles - 1) s)

  -- The loop over the handles in `h_mouse_set_cursor_image`; `any` says that one took the image.
  unfoldable pub image_loop : List ℕ → ℕ → ℕ → ℕ → ℕ → ℕ → ℕ → Bool → Input W → Bool × Input W
  image_loop src w h hot_x hot_y i zero any s = (any, s)
  image_loop src w h hot_x hot_y i (suc n) any s =
      let (took, world) = elim (live_window s i) as (λ x. Bool × W) [
        | none ↦ (false, s.world)
        | some win ↦ plat.set_cursor_image s.world win src w h hot_x hot_y
      ] in
      image_loop src w h hot_x hot_y (i + 1) n (any || took) (record s { world = world })

  -- `h_mouse_set_cursor_image`
  unfoldable pub mouse_set_cursor_image : ℕ → ℕ → ℕ → ℕ → ℕ → ℕ → Input W → ℕ × Input W
  mouse_set_cursor_image h data_ptr w_px h_px hot_x hot_y s =
      if not (dev_is_kind s h role_mouse)
      then (err_badf, s)
      else if le_zero w_px || le_zero h_px
      then (err_inval, s)
      else if leb u32_mod (w_px * h_px * 4)
      then (err_inval, s)
      else elim (wasm_ptr s.guest data_ptr (w_px * h_px * 4)) [
        | none ↦ (err_inval, s)
        | some src ↦
            let (any, s') =
              image_loop (peek s.guest src (w_px * h_px * 4)) w_px h_px hot_x hot_y 1
                (max_handles - 1) false s in
            (if any then ok else err_notsup, s')
      ]

  -- `h_keyboard_key_pressed`
  unfoldable pub keyboard_key_pressed : ℕ → ℕ → Input W → ℕ
  keyboard_key_pressed h sc s =
      if not (dev_is_kind s h role_keyboard)
      then 0
      else if is_neg sc || leb 256 sc
      then 0
      else if plat.key_pressed s.world sc
      then 1
      else 0

  -- `h_keyboard_get_modstate`
  unfoldable pub keyboard_get_modstate : ℕ → Input W → ℕ
  keyboard_get_modstate h s =
      if not (dev_is_kind s h role_keyboard) then 0 else plat.mod_state s.world

  -- `h_touch_get_info`
  unfoldable pub touch_get_info : ℕ → ℕ → Input W → ℕ × Input W
  touch_get_info h info_ptr s =
      if not (dev_is_kind s h role_touch)
      then (err_inval, s)
      else write_out info_ptr
          (to_le 4 0 ++ (to_le 4 (plat.touch_max_fingers s.world) ++ replicate 8 0)) s

  -- `h_touch_finger_count`
  unfoldable pub touch_finger_count : ℕ → Input W → ℕ
  touch_finger_count h s =
      if not (dev_is_kind s h role_touch) then 0 else plat.touch_finger_count s.world

  -- `h_touch_get_finger`
  unfoldable pub touch_get_finger : ℕ → ℕ → ℕ → Input W → ℕ × Input W
  touch_get_finger h fi state_ptr s =
      if not (dev_is_kind s h role_touch)
      then (err_inval, s)
      else elim (plat.touch_finger s.world fi) [
        | none ↦ (err_range, s)
        | some (index, x, y, pressure) ↦
            write_out state_ptr (to_le 4 index ++ (to_le 4 x ++ (to_le 4 y ++ to_le 4 pressure))) s
      ]

  -- `h_pen_get_info`
  unfoldable pub pen_get_info : ℕ → ℕ → Input W → ℕ × Input W
  pen_get_info h info_ptr s =
      if not (dev_is_kind s h role_pen)
      then (err_inval, s)
      else write_out info_ptr
          (to_le 4 (plat.pen_tool s.world)
            ++ (to_le 4 (plat.pen_capabilities s.world) ++ replicate 8 0))
          s

  -- `h_pen_get_axis`
  unfoldable pub pen_get_axis : ℕ → ℕ → ℕ → Input W → ℕ × Input W
  pen_get_axis h axis out_ptr s =
      if not (dev_is_kind s h role_pen) then (err_inval, s) else elim (plat.pen_axis s.world axis) [
        | none ↦ (err_notsup, s)
        | some v ↦ (ok, record s { guest = (write_u32 s.guest out_ptr v).1 })
      ]

  -- `h_pen_get_position`
  unfoldable pub pen_get_position : ℕ → ℕ → ℕ → Input W → ℕ × Input W
  pen_get_position h x_pt y_pt s =
      if not (dev_is_kind s h role_pen)
      then (err_inval, s)
      else write_pair x_pt y_pt (plat.pen_x s.world) (plat.pen_y s.world) s

  -- `h_hotkey_register`; the next number is never 0.
  unfoldable pub hotkey_register : ℕ → ℕ → Input W → ℕ × Input W
  hotkey_register binding_ptr out_id_ptr s = elim (wasm_ptr s.guest binding_ptr 16) [
    | none ↦ (err_inval, s)
    | some src ↦
        if not (from_le (peek s.guest src 4) == role_keyboard)
        then (err_notsup, s)
        else let id = s.next_hotkey in
          let next = if u32 (id + 1) == 0 then 1 else u32 (id + 1) in
          let (done, w) =
            plat.hotkey_register s.world id (from_le (peek s.guest (src + 8) 4))
              (from_le (peek s.guest (src + 12) 4)) in
          if done
          then (
            ok,
            record s { next_hotkey = next; world = w; guest = (write_u32 s.guest out_id_ptr id).1 },
          )
          else (err_busy, record s { next_hotkey = next; world = w })
  ]

  -- `h_hotkey_unregister`
  unfoldable pub hotkey_unregister : ℕ → Input W → ℕ × Input W
  hotkey_unregister id s = (ok, record s { world = plat.hotkey_unregister s.world id })
