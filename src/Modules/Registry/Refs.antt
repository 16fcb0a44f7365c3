-- ===== src/Modules/Registry/Refs.antt =====
-- How many handles of the table stand for a slot.
use wapi.Base.{
  ℕ, ◌+◌, ◌≤◌, ◌<◌, ◌≡◌, refl, sym, ap, ◌∙◌, ◌≢◌, ◌⊎◌, inl, inr, ◌&&◌, Bool, true, false, Option,
  none, some, arith, ◌==◌, ==_refl, if◌then◌else◌, count_from, count_from-le, count_from_ext,
  count_from-none, count_from_more, count_from_pos, update, update_self, update_ne, ℕ_discrete,
}
use wapi.Handles.{
  free, loaded_module, same_type, same_type_iff, Handles, Entry, max_handles, type_at, payload_at,
  set_payload, valid, release,
}
use wapi.Handles.Alloc.{Allocated}
use wapi.Handles.Checks.{valid_iff}

abbrev is_slot : ℕ → Option ℕ → Bool
is_slot s none = false
is_slot s (some k) = k == s

-- The entry is a module's, and its slot is `s`.
abbrev pub is_ref : ℕ → Entry (Option ℕ) → Bool
is_ref s e = same_type e.type loaded_module && is_slot s e.payload

unfoldable pub refs : Handles (Option ℕ) → ℕ → ℕ
refs t s = count_from (λ h. is_ref s (t.entries h)) 0 max_handles

-- One reference to `slot`, none to any other.
abbrev pub one_to : ℕ → ℕ → ℕ
one_to slot s = if s == slot then 1 else 0

pub refs-le : (t : Handles (Option ℕ)) (s : ℕ) → refs t s ≤ max_handles
unfolding refs
refs-le t s = count_from-le (λ h. is_ref s (t.entries h)) 0 max_handles

abbrev Dead : Entry (Option ℕ) → Type 0
Dead e = (s : ℕ) → is_ref s e ≡ false

pub loaded_module≢free : loaded_module ≢ free
loaded_module≢free e = ground (arith, (same_type_iff loaded_module free).1 e)

pub Dead-free : (e : Entry (Option ℕ)) → e.type ≡ free → Dead e
Dead-free e is_free s =
    ground (arith, same_type_iff e.type loaded_module, loaded_module≢free, is_free)

Dead-null : (e : Entry (Option ℕ)) → e.payload ≡ none → Dead e
Dead-null e null s = rw null (ground arith)

is_ref-same : (s : ℕ) {d e : Entry (Option ℕ)} → d ≡ e → is_ref s d ≡ is_ref s e
is_ref-same s h = ap (is_ref s) h

-- The tables agree but for one entry, which stands for no slot.
refs-same :
    (t t' : Handles (Option ℕ)) (h s : ℕ)
    → ((i : ℕ) → i ≢ h → t'.entries i ≡ t.entries i)
    → Dead (t.entries h)
    → Dead (t'.entries h)
    → refs t' s ≡ refs t s
unfolding refs
refs-same t t' h s others before after =
    count_from_ext (λ i. is_ref s (t'.entries i)) (λ i. is_ref s (t.entries i)) 0 max_handles
      λ j a b. elim (ℕ_discrete j h) [
        | yes e ↦ rw e (after s ∙ sym (before s))
        | no ne ↦ is_ref-same s (others j ne)
      ]

-- The tables agree but for one entry, which stands for `slot` in the second.
refs-more :
    (t t' : Handles (Option ℕ)) (h slot s : ℕ)
    → h < max_handles
    → ((i : ℕ) → i ≢ h → t'.entries i ≡ t.entries i)
    → Dead (t.entries h)
    → type_at t' h ≡ loaded_module
    → payload_at t' h ≡ some slot
    → refs t' s ≡ refs t s + one_to slot s
unfolding refs
refs-more t t' h slot s inside others before kind here = elim (ℕ_discrete s slot) [
  | yes e ↦
      let now : is_ref s (t'.entries h) ≡ true =
        rw (kind, here, e) (ground (arith, (same_type_iff loaded_module loaded_module).1 refl)) in
      let more =
        count_from_more (λ i. is_ref s (t.entries i)) (λ i. is_ref s (t'.entries i)) h 0 max_handles
          (omega arith) (omega arith) (before s) now (λ j ne. is_ref-same s (sym (others j ne))) in
      rw (e, ==_refl slot) (rw e at more)
  | no ne ↦
      let other : is_slot s (some slot) ≡ false = ground arith in
      let now : is_ref s (t'.entries h) ≡ false = rw here (ground (arith, other)) in
      let same =
        count_from_ext (λ i. is_ref s (t'.entries i)) (λ i. is_ref s (t.entries i)) 0 max_handles
          λ j a b. elim (ℕ_discrete j h) [
            | yes e ↦ rw e (now ∙ sym (before s))
            | no apart ↦ is_ref-same s (others j apart)
          ] in
      ground (arith, same)
]

-- A handle that is made and given its slot.
pub refs-give :
    {t t' : Handles (Option ℕ)} {h : ℕ} (slot s : ℕ)
    → Allocated none t loaded_module h t'
    → refs (set_payload t' h (some slot)) s ≡ refs t s + one_to slot s
refs-give {t} {t'} {h} slot s a =
    refs-more t (set_payload t' h (some slot)) h slot s a.in_table
      (λ i ne. update_ne t'.entries h _ i ne ∙ a.others i ne) (Dead-free (t.entries h) a.was_free)
      (ap (λ e. e.type) (update_self t'.entries h _) ∙ a.has_type)
      (ap (λ e. e.payload) (update_self t'.entries h _))

-- What is a module's handle then was one before, or is the new one.
pub give_kept :
    {t t' : Handles (Option ℕ)} {h : ℕ} (slot i s : ℕ)
    → Allocated none t loaded_module h t'
    → is_ref s ((set_payload t' h (some slot)).entries i) ≡ true
    → (is_ref s (t.entries i) ≡ true) ⊎ (s ≡ slot)
give_kept {t} {t'} {h} slot i s a e = elim (ℕ_discrete i h) [
  | yes same ↦
      let here : is_ref s (record { type = type_at t' h; payload = some slot }) ≡ true =
        is_ref-same s (sym (update_self t'.entries h _))
        ∙ ap (λ j. is_ref s ((set_payload t' h (some slot)).entries j)) (sym same)
        ∙ e in
      inr (ground arith)
  | no ne ↦ inl (is_ref-same s (sym (update_ne t'.entries h _ i ne ∙ a.others i ne)) ∙ e)
]

-- Tables with the same references.
pub refs_ext :
    (t t' : Handles (Option ℕ)) (s : ℕ)
    → ((h : ℕ) → is_ref s (t'.entries h) ≡ is_ref s (t.entries h))
    → refs t' s ≡ refs t s
unfolding refs
refs_ext t t' s same =
    count_from_ext (λ h. is_ref s (t'.entries h)) (λ h. is_ref s (t.entries h)) 0 max_handles
      (λ h a b. same h)

pub refs-none :
    (t : Handles (Option ℕ)) (s : ℕ) → ((h : ℕ) → is_ref s (t.entries h) ≡ false) → refs t s ≡ 0
unfolding refs
refs-none t s no_refs =
    count_from-none (λ h. is_ref s (t.entries h)) 0 max_handles (λ h a b. no_refs h)

module _ (t : Handles (Option ℕ)) (h : ℕ) (is_module : valid t h loaded_module ≡ true) where
  release_entries :
      release none t h
      ≡ record t { entries = update t.entries h (record { type = free; payload = none }) }
  unfolding release
  release_entries =
      let (pos, inside, _) = (valid_iff t h loaded_module loaded_module≢free).0 is_module in
      ground arith

  release_others : (i : ℕ) → i ≢ h → (release none t h).entries i ≡ t.entries i
  release_others i ne = rw release_entries (update_ne t.entries h _ i ne)

  release_gone : Dead ((release none t h).entries h)
  release_gone = rw release_entries (Dead-free _ (ap (λ e. e.type) (update_self t.entries h _)))

  pub is_ref-valid : (slot : ℕ) → payload_at t h ≡ some slot → is_ref slot (t.entries h) ≡ true
  is_ref-valid slot here =
      let (_, _, kind) = (valid_iff t h loaded_module loaded_module≢free).0 is_module in
      rw (kind, here)
        (ground (arith, (same_type_iff loaded_module loaded_module).1 refl, ==_refl slot))

  pub refs_pos : (slot : ℕ) → payload_at t h ≡ some slot → 0 < refs t slot
  unfolding refs
  refs_pos slot here =
      let (_, inside, _) = (valid_iff t h loaded_module loaded_module≢free).0 is_module in
      count_from_pos (λ i. is_ref slot (t.entries i)) h 0 max_handles (omega arith) (omega arith)
        (is_ref-valid slot here)

  -- A handle that is released drops its reference.
  pub refs-release :
      (slot s : ℕ)
      → payload_at t h ≡ some slot
      → refs t s ≡ refs (release none t h) s + one_to slot s
  refs-release slot s here =
      let (_, inside, kind) = (valid_iff t h loaded_module loaded_module≢free).0 is_module in
      refs-more (release none t h) t h slot s inside (λ i ne. sym (release_others i ne))
        release_gone kind here

  pub refs-release_null : (s : ℕ) → payload_at t h ≡ none → refs (release none t h) s ≡ refs t s
  refs-release_null s null =
      refs-same t (release none t h) h s release_others (Dead-null (t.entries h) null) release_gone

  -- What is still a module's handle was one before.
  pub release_kept :
      (i s : ℕ) → is_ref s ((release none t h).entries i) ≡ true → is_ref s (t.entries i) ≡ true
  release_kept i s e = elim (ℕ_discrete i h) [
    | yes same ↦
        let gone = release_gone s in cc (ap (λ j. is_ref s ((release none t h).entries j)) same)
    | no ne ↦ is_ref-same s (sym (release_others i ne)) ∙ e
  ]
