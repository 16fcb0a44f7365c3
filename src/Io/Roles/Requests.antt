-- ===== src/Io/Roles/Requests.antt =====
-- What a role request is answered with.
use wapi.Base.{
  ℕ, ◌≤◌, ◌<◌, ◌≡◌, ◌≢◌, refl, ap, ◌∙◌, ◌↔◌, Bool, false, Option, none, arith, update_ne,
  if◌then◌else◌, ◌==◌, ◌&&◌, not, leb, ℕ_discrete, update_self,
}
use wapi.Abi.{ok}
use wapi.Guest.{Guest}
use wapi.Handles
use wapi.Handles.{
  Handles, alloc, audio_device, free, free_at, type_at, payload_at, set_payload, max_handles,
}
use wapi.Handles.Alloc.{alloc-Outcome, Outcome, took, full}
use wapi.Runtime.{Runtime, Host, Payload, AudioSpec, zeroed, other}
use wapi.Io.Roles.{Role, RoleRequest, attach, read_spec, role_open_audio, fulfil}

-- The format that a request asks for; none is the device's own.
abbrev pub wanted : Guest → ℕ → ℕ → Option AudioSpec
wanted m prefs_addr prefs_len =
    if not (prefs_addr == 0) && leb 12 prefs_len then read_spec m prefs_addr else none

module _ {W : Type 0} (host : Host W) where
  -- How `role_open_audio` ends: the platform opens no device; there is no free handle, and the device
  -- is closed again; or a handle that was free is on the device.
  pub data Opened (recording : Bool) (spec : Option AudioSpec) (rt : Runtime W)
      : ℕ × Runtime W → Type 0 where
    no_device :
        (w : W)
        → host.audio_open rt.world recording spec ≡ (0, w)
        → Opened recording spec rt (0, record rt { world = w })
    no_handle :
        (d : ℕ) (w : W)
        → d ≢ 0
        → host.audio_open rt.world recording spec ≡ (d, w)
        → ((i : ℕ) → 4 ≤ i → i < max_handles → free_at rt.handles i ≡ false)
        → Opened recording spec rt (0, record rt { world = host.audio_close w d })
    opened :
        (h d : ℕ) (w : W) (t' : Handles Payload)
        → d ≢ 0
        → host.audio_open rt.world recording spec ≡ (d, w)
        → 4 ≤ h
        → h < max_handles
        → type_at rt.handles h ≡ free
        → type_at t' h ≡ audio_device
        → payload_at t' h ≡ other d
        → ((i : ℕ) → i ≢ h → t'.entries i ≡ rt.handles.entries i)
        → Opened recording spec rt (h, record rt { handles = t'; world = w })

  -- For every kind of role, a request is answered with the result OK exactly if it is answered
  -- with a handle that is not 0.
  fulfil-coherent :
      (r : RoleRequest) (role : Role) (rt : Runtime W)
      → ((fulfil host r role rt).0.1 ≡ ok) ↔ ((fulfil host r role rt).0.0 ≢ 0)
  unfolding fulfil
  fulfil-coherent r role rt = ground arith

  attach-Opened :
      (recording : Bool) (spec : Option AudioSpec) (d : ℕ) (w : W) (rt : Runtime W)
      {r : ℕ × Handles Payload}
      → d ≢ 0
      → host.audio_open rt.world recording spec ≡ (d, w)
      → Outcome zeroed rt.handles audio_device r
      → Opened recording spec rt (attach host d w rt r)
  unfolding attach
  attach-Opened recording spec d w rt nz device (full none_free) = no_handle d w nz device none_free
  attach-Opened recording spec d w rt nz device (took {h} {t'} a) =
      let e : Handles.Entry Payload = record { type = type_at t' h; payload = other d } in
      let at_h = update_self t'.entries h e in
      let named : (h == 0) ≡ false = ground (arith, a.above_streams) in
      rw (attach, named)
        (opened h d w (set_payload t' h (other d)) nz device a.above_streams a.in_table a.was_free
          (ap (λ x. x.type) at_h ∙ a.has_type) (ap (λ x. x.payload) at_h)
          (λ i ne. update_ne t'.entries h e i ne ∙ a.others i ne))

  -- On a handle table whose cursor lies in its bounds, `role_open_audio` asks the platform for a
  -- device for playback or recording in the wanted format. Without one it returns 0, and without
  -- a free handle it closes the device and returns 0, with all but the world as it was; otherwise
  -- it returns a handle from 4 to 4095 that was free and now is an audio device with the pointer
  -- that the platform gave, every other handle, the events and the guest's memory as they were.
  pub role_open_audio-Opened :
      (recording : Bool) (prefs_addr prefs_len : ℕ) (rt : Runtime W)
      → Handles.Alloc.IsValid rt.handles
      → Opened recording
          (wanted rt.guest prefs_addr prefs_len)
          rt
          (role_open_audio host recording prefs_addr prefs_len rt)
  unfolding role_open_audio
  role_open_audio-Opened recording prefs_addr prefs_len rt v =
      let spec = wanted rt.guest prefs_addr prefs_len in
      let (d, w) = host.audio_open rt.world recording spec in
      elim (ℕ_discrete d 0) [
        | yes e ↦ rw (role_open_audio, e) (no_device w (ap (λ x. (x, w)) e))
        | no ne ↦
            let there : (d == 0) ≡ false = ground arith in
            rw (role_open_audio, there)
              (attach-Opened recording spec d w rt ne refl
                (alloc-Outcome zeroed rt.handles audio_device v))
      ]
