-- ===== src/Input/Devices/Pairing.antt =====
-- What the operations on devices do to the gamepads of the slots.
use wapi.Base.{
  inl, inr, ℕ, ◌+◌, ◌%◌, ◌≡◌, refl, sym, ap, ◌∙◌, subst, ◌≢◌, ◌&&◌, Bool, true, false, Option, none,
  some, arith, ◌==◌, leb, if◌then◌else◌, ℕ_discrete, Bool-cases, Option-cases,
}
use wapi.Handles.{Handles, input_device, same_type_iff, release}
use wapi.Handles.Alloc.{IsValid, release-IsValid}
use wapi.Input.{
  role_mouse, role_keyboard, role_pointer, role_touch, role_pen, Input, Device, Payload, zeroed,
  gamepad_slots, role_gamepad, role_hid, dev_get, Minted,
}
use wapi.Input.Platform.{Platform}
use wapi.Input.Devices.{
  dev_alloc, gamepad_for_slot, gamepad_free_slot, pad_device, mint, init, nth_connected,
  resolve_role, close,
}
use wapi.Input.Devices.Binding.{bind-IsBound, unbind-IsBound}
use wapi.Input.Devices.Bound.{
  IsBound, SamePads, Added, added, refused, pad_slot, dev_alloc-Added, SamePads-IsBound,
  release-entries, release-SamePads, dev_get-inside, other-pad_slot,
}

-- A call that leaves the gamepads alone and changes nothing but the table.
pub data Quiet {W : Type 0} (s : Input W) : ℕ × Input W → Type 0 where
  quiet :
      {h : ℕ} {t : Handles Payload} → SamePads s.handles t → Quiet s (h, record s { handles = t })

abbrev pub Bound : {W : Type 0} → Input W → Type 0
Bound s = IsBound s.handles s.minted.gamepads

module _ {W : Type 0} where
  pub gamepad_for_slot-Bound :
      (slot : ℕ) (s : Input W) → Bound s → Bound (gamepad_for_slot slot s).1
  unfolding gamepad_for_slot
  gamepad_for_slot-Bound slot s b = elim (Bool-cases (leb gamepad_slots slot)) [
    | inl outside ↦ rw (gamepad_for_slot, outside) b
    | inr inside ↦ elim (Bool-cases (s.minted.gamepads slot == 0)) [
      | inr there ↦ rw (gamepad_for_slot, inside, there) b
      | inl unbound ↦
          go inside unbound refl
            (dev_alloc-Added (pad_device slot ((s.minted.generations slot + 1) % 256)) s b.cursor)
    ]
  ]
    where
      go :
          {q : ℕ × Input W}
          → leb gamepad_slots slot ≡ false
          → (s.minted.gamepads slot == 0) ≡ true
          → dev_alloc (pad_device slot ((s.minted.generations slot + 1) % 256)) s ≡ q
          → Added (pad_device slot ((s.minted.generations slot + 1) % 256)) s q
          → Bound (gamepad_for_slot slot s).1
      go inside unbound e (added {h} {t} low high v was now others) =
          let apart : (h == 0) ≡ false = ground arith in
          rw (gamepad_for_slot, inside, unbound, e, apart)
            (bind-IsBound slot h (pad_device slot ((s.minted.generations slot + 1) % 256)) s.handles
              t s.minted.gamepads b (ground arith) (ground arith) refl refl low high v was now
              others)
      go inside unbound e (refused {t} same) =
          rw (gamepad_for_slot, inside, unbound, e) (SamePads-IsBound same b)

  pub gamepad_free_slot-Bound :
      (slot : ℕ) (s : Input W) → Bound s → Bound (gamepad_free_slot slot s)
  unfolding gamepad_free_slot
  gamepad_free_slot-Bound slot s b = elim (Bool-cases (leb gamepad_slots slot)) [
    | inl outside ↦ rw (gamepad_free_slot, outside) b
    | inr inside ↦ elim (Bool-cases (s.minted.gamepads slot == 0)) [
      | inl unbound ↦ rw (gamepad_free_slot, inside, unbound) b
      | inr there ↦
          let h = s.minted.gamepads slot in
          let bound : h ≢ 0 = ground arith in
          let (in_table, here) = b.live slot (ground arith) bound in
          let (freed, others) = release-entries s.handles h bound in_table in
          rw (gamepad_free_slot, inside, there)
            (unbind-IsBound slot s.handles (release zeroed s.handles h) s.minted.gamepads b
              (ground arith) bound (release-IsValid zeroed s.handles h b.cursor) freed others)
    ]
  ]

  pub dev_alloc-Quiet :
      (d : Device) (s : Input W)
      → (d.kind == role_gamepad) ≡ false
      → IsValid s.handles
      → Quiet s (dev_alloc d s)
  dev_alloc-Quiet d s ne v = go (dev_alloc-Added d s v)
    where
      go : {q : ℕ × Input W} → Added d s q → Quiet s q
      go (added {h} {t} low high v was now others) = quiet {t = t} (record {
        cursor = record { low = v.low; high = v.high };
        same = λ i lt. elim (ℕ_discrete i h) [
          | yes same ↦
              let silent : pad_slot (t.entries h) ≡ none =
                rw (now, ne, (same_type_iff input_device input_device).1 refl) refl in
              ap (λ j. pad_slot (t.entries j)) same
              ∙ silent
              ∙ sym was
              ∙ sym (ap (λ j. pad_slot (s.handles.entries j)) same)
          | no apart ↦ ap pad_slot (others i apart)
        ];
      })
      go (refused {t} same) = quiet same

  mint-Bound :
      (wanted : Bool) (h : ℕ) (d : Device) (put : ℕ → Minted → Minted) (s : Input W)
      → (d.kind == role_gamepad) ≡ false
      → ((i : ℕ) (m : Minted) → (put i m).gamepads ≡ m.gamepads)
      → Bound s
      → Bound (mint wanted h d put s)
  unfolding mint
  mint-Bound wanted h d put s ne keeps b = go refl (dev_alloc-Quiet d s ne b.cursor)
    where
      go : {q : ℕ × Input W} → dev_alloc d s ≡ q → Quiet s q → Bound (mint wanted h d put s)
      go e (quiet {h = h'} {t} same) = elim (Bool-cases (wanted && h == 0)) [
        | inl needed ↦
            rw (mint, e, needed)
              (subst (λ pads. IsBound t pads) (sym (keeps h' s.minted)) (SamePads-IsBound same b))
        | inr has ↦ rw (mint, e, has) b
      ]

module _ {W : Type 0} (plat : Platform W) where
  pub init-Bound : (s : Input W) → Bound s → Bound (init plat s)
  unfolding init
  init-Bound s b =
      mint-Bound _ _ _ _ _ refl (λ i m. refl)
        (mint-Bound _ _ _ _ _ refl (λ i m. refl)
          (mint-Bound _ _ _ _ _ refl (λ i m. refl)
            (mint-Bound _ _ _ _ _ refl (λ i m. refl) (mint-Bound _ _ _ _ _ refl (λ i m. refl) b))))

  either : (c : Bool) (x y : ℕ × Input W) → Bound x.1 → Bound y.1 → Bound (if c then x else y).1
  either true x y bx by = bx
  either false x y bx by = by

  pub resolve_role-Bound :
      (kind index : ℕ) (s : Input W) → Bound s → Bound (resolve_role plat kind index s).1
  unfolding resolve_role
  resolve_role-Bound kind index s b = either (kind == role_mouse) _ _ b (
      either (kind == role_keyboard) _ _ b (
        either (kind == role_pointer) _ _ b (
          either (kind == role_touch) _ _ b (
            either (kind == role_pen) _ _ b (
              either (kind == role_gamepad) _ _
                (found (nth_connected plat s.world index 0 0 gamepad_slots)) b)))))
    where
      found :
          (o : Option ℕ)
          → Bound
              (elim o as (λ x. ℕ × Input W) [
                | none ↦ (0, s)
                | some slot ↦ gamepad_for_slot slot s
              ]).1
      found none = b
      found (some slot) = gamepad_for_slot-Bound slot s b

  pub close-Bound : (h : ℕ) (s : Input W) → Bound s → Bound (close plat h s).1
  unfolding close
  close-Bound h s b = elim (Option-cases (dev_get s h)) [
    | inl none_there ↦ rw (close, none_there) b
    | inr (d, e) ↦ elim (Bool-cases (d.kind == role_hid)) [
      | inr other ↦ rw (close, e, other) b
      | inl hid ↦
          let (ne, lt) = dev_get-inside s h e in
          let no_pad : (d.kind == role_gamepad) ≡ false = ground arith in
          rw (close, e, hid)
            (SamePads-IsBound
              (release-SamePads s.handles h b.cursor ne lt (other-pad_slot s h e no_pad)) b)
    ]
  ]
