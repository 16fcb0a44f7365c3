-- ===== src/Tests/Input.antt =====
-- Runs of the input code (runtime/desktop/src/wapi_host_input.c).
use wapi.Base.{
  ℕ, ◌≡◌, refl, true, false, none, some, List, [], ◌∷◌, ◌++◌, length, if◌then◌else◌, arith,
}
use wapi.Abi.{ok}
use wapi.Guest.{Guest, memory_size, peek}
use wapi.Handles.{free, same_type, number}
use wapi.Input.{Input, zeroed}
use wapi.Input.Platform.{Platform, PlatEvent, Preedit, quit, gpad_added}
use wapi.Input.Devices.{init}
use wapi.Input.Translate.{translate, pump}
use wapi.Input.Ime.{find, read_text}
use wapi.Input.Ime.Log.{Commit, store_after, entry, is_recent, find-store_after}
use wapi.Input.Ime.Reading.{front, read_text-commit}
use wapi.Input.Runs.{IsFresh, IsPaired, started, initialised, translated, Run-IsPaired}
use wapi.Input.Removal.{Refuses, removal, translate-Refuses}
use wapi.Input.Pump.{Waiting, pump-drained}

abbrev zeros : Guest
zeros = record { memory_valid = true; data_size = 1024; bytes = λ i. 0 }

-- One event at a time.
abbrev poll_one : List PlatEvent → List PlatEvent × List PlatEvent
poll_one [] = ([], [])
poll_one (pe ∷ pes) = (pe ∷ [], pes)

abbrev no_preedit : Preedit
no_preedit = record { text = []; text_len = 0; cursor = 0; seg_count = 0 }

-- A platform with gamepads at no slot, whose world is the events that wait.
abbrev events_only : Platform (List PlatEvent)
events_only = record {
  poll_events = poll_one;
  window_id = λ w win. 0;
  touch_available = λ w. false;
  pen_available = λ w. false;
  gamepad_connected = λ w slot. false;
  mouse_x = λ w. 0;
  mouse_y = λ w. 0;
  mouse_buttons = λ w. 0;
  key_pressed = λ w sc. false;
  mod_state = λ w. 0;
  ime_preedit = λ w win. no_preedit;
  ime_segment = λ w win i. none;
  set_relative_mouse = λ w win on. w;
  warp_mouse = λ w win x y. (true, w);
  set_cursor = λ w win cursor. w;
  set_cursor_image = λ w win src a b x y. (true, w);
  start_text_input = λ w win. w;
  stop_text_input = λ w win. w;
  ime_set_candidate_rect = λ w win a b x y. w;
  ime_force_commit = λ w win. w;
  ime_force_cancel = λ w win. w;
  touch_max_fingers = λ w. 0;
  touch_finger_count = λ w. 0;
  touch_finger = λ w i. none;
  pen_tool = λ w. 0;
  pen_capabilities = λ w. 0;
  pen_axis = λ w axis. none;
  pen_x = λ w. 0;
  pen_y = λ w. 0;
  hid_enumerate = λ w vendor product page. [];
  hid_open = λ w uid. (none, w);
  hid_close = λ w dev. w;
  hid_descriptor_size = λ w dev. 0;
  hid_descriptor = λ w dev. none;
  hid_write_report = λ w dev bs. (0, w);
  hid_send_feature = λ w dev bs. (0, w);
  hid_read_report = λ w dev n. (none, w);
  hotkey_register = λ w id a b. (true, w);
  hotkey_unregister = λ w id. w;
  gamepad_info = λ w slot. none;
  gamepad_button_pressed = λ w slot b. false;
  gamepad_axis_value = λ w slot a. 0;
  gamepad_rumble = λ w slot a b c. (true, w);
  gamepad_rumble_triggers = λ w slot a b c. (true, w);
  gamepad_battery_percent = λ w slot. 255;
  gamepad_set_led = λ w slot a b c. (true, w);
  gamepad_enable_sensor = λ w slot sensor on. (true, w);
  gamepad_sensor = λ w slot sensor. none;
  gamepad_touchpad_finger = λ w slot a b. none;
  float_to_int = λ x. x;
  float_round = λ x. x;
  malloc = λ w n. true;
}

abbrev commit_of : List ℕ → Commit
commit_of text = record {
  text = text;
  text_len = length text;
  cursor = 0;
  flags = 0;
  segments = [];
}

-- "a", then "bc", then "d"
abbrev history : List Commit
history = commit_of (100 ∷ []) ∷ commit_of (98 ∷ 99 ∷ []) ∷ commit_of (97 ∷ []) ∷ []

abbrev event_of_pad : PlatEvent
event_of_pad = record { window_id = 0; timestamp_ns = 7; body = gpad_added 2 }

abbrev two_events : List PlatEvent
two_events = event_of_pad ∷ record { window_id = 0; timestamp_ns = 8; body = quit } ∷ []

abbrev idle : Input (List PlatEvent)
idle = record {
  guest = zeros;
  handles = record { entries = λ i. record { type = free; payload = zeroed }; next_handle = 4 };
  event_queue = record { events = λ i. []; head = 0; tail = 0; count = 0 };
  running = true;
  minted = record {
    mouse = 0;
    keyboard = 0;
    pointer = 0;
    touch = 0;
    pen = 0;
    gamepads = λ i. 0;
    generations = λ i. 0;
  };
  ime = store_after history;
  ptr_state = record { x = 0; y = 0; buttons = 0 };
  next_hotkey = 1;
  world = two_events;
}

idle-IsFresh : IsFresh idle
unfolding same_type number
idle-IsFresh = record {
  cursor = record { low = omega arith; high = omega arith };
  no_pads = λ h. refl;
  no_handles = λ slot. refl;
}

events_only-Waiting : Waiting events_only (λ w. w)
events_only-Waiting = record { taken = together; empty = drained }
  where
    together : (w : List PlatEvent) → (poll_one w).0 ++ (poll_one w).1 ≡ w
    together [] = refl
    together (pe ∷ pes) = refl

    drained : (w : List PlatEvent) → (poll_one w).0 ≡ [] → w ≡ []
    drained [] e = refl
    drained (pe ∷ pes) e = absurd cc

-- The text of the second of three events.
find-store_after_example :
    find 2 (store_after history) ≡ (if is_recent history 2 then some (entry history 2) else none)
find-store_after_example = find-store_after history 2

read_text-commit_example :
    ((read_text 2 64 16 32 idle).0 ≡ ok)
    × (peek (read_text 2 64 16 32 idle).1.guest 64 2 ≡ front (98 ∷ 99 ∷ []))
unfolding memory_size front
read_text-commit_example =
    read_text-commit (commit_of (100 ∷ []) ∷ []) (commit_of (97 ∷ []) ∷ [])
      (commit_of (98 ∷ 99 ∷ [])) 64 16 32 idle refl (omega arith) refl (omega arith) (omega arith)
      (omega arith) refl (omega arith)

-- A gamepad is plugged in.
Run-IsPaired_example : IsPaired (translate events_only event_of_pad (init events_only idle))
Run-IsPaired_example =
    Run-IsPaired events_only (translated event_of_pad (initialised (started idle idle-IsFresh)))

pump-drained_example :
    (pump events_only 3 idle ≡ pump events_only 5 idle) × ((pump events_only 3 idle).world ≡ [])
pump-drained_example =
    pump-drained events_only (λ w. w) events_only-Waiting 3 5 idle (omega arith) (omega arith)

abbrev plugged : Input (List PlatEvent)
plugged = translate events_only event_of_pad idle

-- The gamepad is pulled out again.
translate-Refuses_example :
    Refuses events_only (plugged.minted.gamepads 2) (translate events_only (removal 0 9 2) plugged)
translate-Refuses_example =
    translate-Refuses events_only 0 9 2 (translated event_of_pad (started idle idle-IsFresh))
      (omega arith)
