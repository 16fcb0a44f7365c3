-- ===== src/Input/Devices/Binding.antt =====
-- What a new handle for a slot of runtime/desktop/src/wapi_host_input.c, or its loss, does to the pairing of
-- slots and handles.
use wapi.Base.{
  some-injective, none≢some, ℕ, ◌≤◌, ◌<◌, ◌≡◌, refl, sym, ap, ◌∙◌, ◌≢◌, false, none, some, arith,
  ◌==◌, ==_refl, update, ℕ_discrete,
}
use wapi.Handles.{Handles, free, input_device, same_type_iff, max_handles}
use wapi.Handles.Alloc.{IsValid}
use wapi.Input.{Device, Payload, device, gamepad_slots, role_gamepad}
use wapi.Input.Devices.Bound.{IsBound, pad_slot, free-pad_slot}

-- A new handle for a slot that had none.
pub bind-IsBound :
    (slot h : ℕ) (d : Device) (t t' : Handles Payload) (pads : ℕ → ℕ)
    → IsBound t pads
    → slot < gamepad_slots
    → pads slot ≡ 0
    → d.kind ≡ role_gamepad
    → d.backend_slot ≡ slot
    → 4 ≤ h
    → h < max_handles
    → IsValid t'
    → pad_slot (t.entries h) ≡ none
    → t'.entries h ≡ record { type = input_device; payload = device d }
    → ((i : ℕ) → i ≢ h → t'.entries i ≡ t.entries i)
    → IsBound t' (update pads slot h)
bind-IsBound slot h d t t' pads b lt unbound kind own low inside v was now others = record {
  cursor = record { low = v.low; high = v.high };
  live = λ k klt ne. elim (ℕ_discrete k slot) [
    | yes e ↦ rw (e, ==_refl slot) (inside, here)
    | no apart ↦
        let other : (k == slot) ≡ false = ground arith in
        let (k_in, k_here) = b.live k klt (rw other at ne) in
        let distinct : pads k ≢ h =
          λ e. none≢some (sym (sym k_here ∙ ap (λ i. pad_slot (t.entries i)) e ∙ was)) in
        rw other (k_in, ap pad_slot (others (pads k) distinct) ∙ k_here)
  ];
  owned = λ i k ilt e. elim (ℕ_discrete i h) [
    | yes same ↦
        let k_is : k ≡ slot =
          some-injective _ _ (sym e ∙ ap (λ j. pad_slot (t'.entries j)) same ∙ here) in
        rw (k_is, ==_refl slot) (lt, ((λ z. ground arith), sym same))
    | no ne ↦
        let (k_lt, (k_some, k_own)) = b.owned i k ilt (sym (ap pad_slot (others i ne)) ∙ e) in
        elim (ℕ_discrete k slot) [
          | yes same ↦ absurd (k_some (sym k_own ∙ ap pads same ∙ unbound))
          | no apart ↦
              let other : (k == slot) ≡ false = ground arith in rw other (k_lt, (k_some, k_own))
        ]
  ];
}
  where
    here : pad_slot (t'.entries h) ≡ some slot
    here = rw now (ground (arith, (same_type_iff input_device input_device).1 refl, kind, own))

-- A slot that loses its handle, which is freed.
pub unbind-IsBound :
    (slot : ℕ) (t t' : Handles Payload) (pads : ℕ → ℕ)
    → IsBound t pads
    → slot < gamepad_slots
    → pads slot ≢ 0
    → IsValid t'
    → (t'.entries (pads slot)).type ≡ free
    → ((i : ℕ) → i ≢ pads slot → t'.entries i ≡ t.entries i)
    → IsBound t' (update pads slot 0)
unbind-IsBound slot t t' pads b lt bound v freed others = record {
  cursor = record { low = v.low; high = v.high };
  live = λ k klt ne. elim (ℕ_discrete k slot) [
    | yes e ↦ absurd (ne (rw (e, ==_refl slot) refl))
    | no apart ↦
        let other : (k == slot) ≡ false = ground arith in
        let (k_in, k_here) = b.live k klt (rw other at ne) in
        let (inside, here) = b.live slot lt bound in
        let distinct : pads k ≢ pads slot = λ e.
          apart (some-injective _ _ (sym k_here ∙ ap (λ i. pad_slot (t.entries i)) e ∙ here)) in
        rw other (k_in, ap pad_slot (others (pads k) distinct) ∙ k_here)
  ];
  owned = λ i k ilt e. elim (ℕ_discrete i (pads slot)) [
    | yes same ↦ absurd (none≢some (sym (sym e ∙ ap (λ j. pad_slot (t'.entries j)) same ∙ gone)))
    | no ne ↦
        let (k_lt, (k_some, k_own)) = b.owned i k ilt (sym (ap pad_slot (others i ne)) ∙ e) in
        elim (ℕ_discrete k slot) [
          | yes same ↦ absurd (ne (sym k_own ∙ ap pads same))
          | no apart ↦
              let other : (k == slot) ≡ false = ground arith in rw other (k_lt, (k_some, k_own))
        ]
  ];
}
  where
    gone : pad_slot (t'.entries (pads slot)) ≡ none
    gone = free-pad_slot (t'.entries (pads slot)) freed
