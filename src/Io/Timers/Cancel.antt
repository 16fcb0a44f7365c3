-- ===== src/Io/Timers/Cancel.antt =====
-- `cb_cancel`: whether a pending timeout is found, and what becomes of it.
use wapi.Base.{
  ℕ, ◌-◌, ◌≤◌, ◌<◌, ◌≡◌, refl, inl, inr, Bool, true, false, Option, none, some, arith, find_from,
  find_from-Found, find_from-none, is_some, Option-cases, ap, ◌∙◌, ◌≢◌, update_self, update_ne,
}
use wapi.Abi.{ok, err_noent, err_canceled}
use wapi.EventQueue
use wapi.EventQueue.{EventQueue}
use wapi.Handles.{Entry, type_at, max_handles}
use wapi.Runtime.{Runtime, Host, IoQueue, Payload, timers}
use wapi.Io.Completion.{push_completion_event}
use wapi.Io.Completion.Post.{
  Announced, push_completion_event-SameTables, push_completion_event-Announced,
}
use wapi.Io.Timers.Sweep.{queue_in}
use wapi.Io.Timers.{
  is_io_queue, queue_at, set_queue, disarm, fake_op, pending_at, find_pending, cancel_in, cancel_at,
  cancel,
}

none_at :
    (user_data : ℕ) (q : IoQueue) (o : Option IoQueue) (i : ℕ)
    → o ≡ some q
    → is_some (find_pending user_data o) ≡ false
    → i < q.timeout_count
    → pending_at user_data q i ≡ false
none_at user_data q o i e h lt = elim (Option-cases (find_pending user_data (some q))) [
  | inl n ↦
      find_from-none (pending_at user_data q) 0 q.timeout_count n i (omega arith) (omega arith)
  | inr (k, s) ↦ absurd (ground (arith, e, h, s))
]

some_at :
    (user_data : ℕ) (o : Option IoQueue)
    → is_some (find_pending user_data o) ≡ true
    → (q : IoQueue) × (i : ℕ) × (o ≡ some q)
      × (find_pending user_data o ≡ some i)
      × (i < q.timeout_count)
      × (pending_at user_data q i ≡ true)
some_at user_data none h = ground arith
some_at user_data (some q) h = elim (Option-cases (find_pending user_data (some q))) [
  | inl n ↦ absurd (ground (arith, n, h))
  | inr (k, s) ↦
      let f = find_from-Found (pending_at user_data q) 0 q.timeout_count k s in
      (q, k, refl, s, omega (arith, f.high), f.hit)
]

module _ {W : Type 0} where
  -- The slot `i` of the queue at handle `h` holds a pending timeout with this user data.
  pub record Pending (rt : Runtime W) (user_data h : ℕ) (q : IoQueue) (i : ℕ) : Type 0 where
    pub low : 4 ≤ h
    pub high : h < max_handles
    pub queue : queue_at rt h ≡ some q
    pub slot : i < q.timeout_count
    pub pending : pending_at user_data q i ≡ true

  -- No timeout with this user data is pending.
  pub NonePending : Runtime W → ℕ → Type 0
  NonePending rt user_data =
      (h i : ℕ) (q : IoQueue)
      → 4 ≤ h
      → h < max_handles
      → queue_at rt h ≡ some q
      → i < q.timeout_count
      → pending_at user_data q i ≡ false

module _ {W : Type 0} where
  -- The runtime after the timeout of slot `i` of the queue `q` at handle `h` is canceled.
  pub record Canceled (rt : Runtime W) (user_data h : ℕ) (q : IoQueue) (i : ℕ) (rt' : Runtime W)
      : Type 0 where
    pub after : IoQueue
    pub at_h : queue_at rt' h ≡ some after
    pub same_count : after.timeout_count ≡ q.timeout_count
    pub disarmed : (after.timeouts i).active ≡ false
    pub other_slots : (j : ℕ) → j ≢ i → after.timeouts j ≡ q.timeouts j
    pub other_handles : (k : ℕ) → k ≢ h → rt'.handles.entries k ≡ rt.handles.entries k
    pub guest : rt'.guest ≡ rt.guest
    pub announced : Announced (fake_op user_data err_canceled) rt.event_queue rt'.event_queue

module _ {W : Type 0} (host : Host W) where
  cancel_in-Canceled :
      (user_data h : ℕ) (q : IoQueue) (i : ℕ) (rt : Runtime W)
      → queue_at rt h ≡ some q
      → EventQueue.IsValid rt.event_queue
      → Canceled rt user_data h q i (
          push_completion_event host (fake_op user_data err_canceled) (set_queue rt h (disarm q i)))
  cancel_in-Canceled user_data h q i rt at_h v =
      let c = fake_op user_data err_canceled in
      let set = set_queue rt h (disarm q i) in
      let same = push_completion_event-SameTables host c set in
      let kind : is_io_queue rt h ≡ true = ground (arith, at_h) in
      let e : Entry Payload = record {
        type = type_at rt.handles h;
        payload = timers (disarm q i);
      } in
      record {
        after = disarm q i;
        at_h =
            ap (λ t. queue_in (t.entries h)) same.handles
            ∙ ap queue_in (update_self rt.handles.entries h e)
            ∙ rw kind refl;
        same_count = refl;
        disarmed = ap (λ t. t.active) (update_self q.timeouts i _);
        other_slots = λ j ne. update_ne q.timeouts i _ j ne;
        other_handles =
            λ k ne. ap (λ t. t.entries k) same.handles ∙ update_ne rt.handles.entries h e k ne;
        guest = same.guest;
        announced = push_completion_event-Announced host c set refl v;
      }

  -- The two ways in which `cb_cancel` ends.
  pub data Outcome (user_data : ℕ) (rt : Runtime W) : ℕ × Runtime W → Type 0 where
    canceled :
        (h i : ℕ) (q : IoQueue) (rt' : Runtime W)
        → Pending rt user_data h q i
        → Canceled rt user_data h q i rt'
        → Outcome user_data rt (ok, rt')
    not_found : NonePending rt user_data → Outcome user_data rt (err_noent, rt)

  -- If the event queue is well formed, `cancel` either finds an active timeout with the user data
  -- at a handle from 4 to 4095, disarms it, leaves every other slot, every other handle and the
  -- guest's memory as they were, and returns OK; a completion with the result CANCELED is then at
  -- the end of the event queue, or is lost if 256 events wait. Or no such timeout is pending in
  -- any queue, and it returns NOENT and changes nothing.
  pub cancel-Outcome :
      (user_data : ℕ) (rt : Runtime W)
      → EventQueue.IsValid rt.event_queue
      → Outcome user_data rt (cancel host user_data rt)
  unfolding cancel cancel_at cancel_in NonePending
  cancel-Outcome user_data rt v = elim (Option-cases (find_from holds 4 (max_handles - 4))) [
    | inl e ↦
        rw (e, cancel)
          (not_found (λ h i q low high at_h lt.
            none_at user_data q (queue_at rt h) i at_h
              (find_from-none holds 4 (max_handles - 4) e h low (omega arith)) lt))
    | inr (h, e) ↦
        let f = find_from-Found holds 4 (max_handles - 4) h e in
        let (q, i, at_h, slot, lt, hit) = some_at user_data (queue_at rt h) f.hit in
        rw (e, cancel, at_h, cancel_at, (rw at_h at slot), cancel_in)
          (canceled h i q _
            (record {
              low = f.low;
              high = omega (arith, f.high);
              queue = at_h;
              slot = lt;
              pending = hit;
            })
            (cancel_in-Canceled user_data h q i rt at_h v))
  ]
    where
      holds : ℕ → Bool
      holds h = is_some (find_pending user_data (queue_at rt h))
