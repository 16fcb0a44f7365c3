-- ===== src/Io/Timers/Expiry.antt =====
-- `wapi_io_check_timeouts` on one queue: every timeout that is due fires once, the others stay.
use wapi.Base.{
  ℕ, zero, suc, ◌+◌, ◌≤◌, ◌<◌, ◌≡◌, refl, ap, sym, ◌∙◌, ◌≢◌, ◌⊎◌, inl, inr, ◌&&◌, true, false, List,
  [], ◌∷◌, ◌++◌, arith, update_self, update_ne, length, Bool-cases, leb, if◌then◌else◌, ℕ_discrete,
}
use mathlib.Core.List.{append_assoc, append-nil}
use wapi.Abi.{ok}
use wapi.EventQueue
use wapi.EventQueue.{EventQueue, Event, contents, queue_size}
use wapi.Runtime.{Runtime, Host, IoQueue, Timeout}
use wapi.Io.Completion.{push_completion_event, completion_event}
use wapi.Io.Completion.Post.{
  SameTables, Posted, push_completion_event-SameTables, push_completion_event-Posted,
}
use wapi.Io.Timers.{disarm, due_at, fake_op, expire}

-- A slot after the check.
abbrev pub settled : ℕ → IoQueue → ℕ → Timeout
settled now q j =
    if due_at now q j
    then record {
      user_data = (q.timeouts j).user_data;
      deadline_ns = (q.timeouts j).deadline_ns;
      active = false;
    }
    else q.timeouts j

-- The user data of the due timeouts of the slots `[i, i + n)`, in order.
unfoldable pub due_ids : ℕ → IoQueue → ℕ → ℕ → List ℕ
due_ids now q i zero = []
due_ids now q i (suc n) =
    if due_at now q i
    then (q.timeouts i).user_data ∷ due_ids now q (i + 1) n
    else due_ids now q (i + 1) n

-- The completions of these timeouts, each with the time at which it was posted.
pub data Fires : List ℕ → List Event → Type 0 where
  none_due : Fires [] []
  fires :
      {u : ℕ} {us : List ℕ} {evs : List Event} (ts : ℕ)
      → Fires us evs
      → Fires (u ∷ us) (completion_event ts (fake_op u ok) ∷ evs)

-- Disarming a slot does not change what the later rounds see.
slot_disarm : (q : IoQueue) (i j : ℕ) → j ≢ i → (disarm q i).timeouts j ≡ q.timeouts j
slot_disarm q i j ne = update_ne q.timeouts i _ j ne

due_ids-disarm :
    (now : ℕ) (q : IoQueue) (k i n : ℕ) → k < i → due_ids now (disarm q k) i n ≡ due_ids now q i n
unfolding due_ids
due_ids-disarm now q k i zero lt = refl
due_ids-disarm now q k i (suc n) lt =
    let same = slot_disarm q k i (λ e. omega arith) in
    let rest = due_ids-disarm now q k (i + 1) n (omega arith) in
    let user = ap (λ t. t.user_data) same in
    let test = ap (λ t. t.active && leb t.deadline_ns now) same in rw (test, user, rest) refl

settled-disarm :
    (now : ℕ) (q : IoQueue) (k j : ℕ) → j ≢ k → settled now (disarm q k) j ≡ settled now q j
settled-disarm now q k j ne =
    ap
      (λ t.
        if t.active && leb t.deadline_ns now
        then record { user_data = t.user_data; deadline_ns = t.deadline_ns; active = false }
        else t)
      (slot_disarm q k j ne)

-- What the loop makes of the slots.
pub record Settled (n i now : ℕ) (q q' : IoQueue) : Type 0 where
  pub same_count : q'.timeout_count ≡ q.timeout_count
  pub passed : (j : ℕ) → i ≤ j → j < i + n → q'.timeouts j ≡ settled now q j
  pub others : (j : ℕ) → (j < i) ⊎ (i + n ≤ j) → q'.timeouts j ≡ q.timeouts j

-- One round at a slot that is due.
round_due :
    (n i now : ℕ) (q q' : IoQueue)
    → due_at now q i ≡ true
    → Settled n (i + 1) now (disarm q i) q'
    → Settled (suc n) i now q q'
round_due n i now q q' due s = record {
  same_count = s.same_count;
  passed = λ j a b. elim (ℕ_discrete j i) [
    | yes e ↦ rw (e, s.others i (inl (omega arith)), due) (update_self q.timeouts i _)
    | no ne ↦ s.passed j (omega arith) (omega arith) ∙ settled-disarm now q i j ne
  ];
  others = λ j out. s.others j (omega arith) ∙ slot_disarm q i j (λ e. omega arith);
}

-- One round at a slot that is not.
round_later :
    (n i now : ℕ) (q q' : IoQueue)
    → due_at now q i ≡ false
    → Settled n (i + 1) now q q'
    → Settled (suc n) i now q q'
round_later n i now q q' later s = record {
  same_count = s.same_count;
  passed = λ j a b. elim (ℕ_discrete j i) [
    | yes e ↦ rw (e, s.others i (inl (omega arith)), later) refl
    | no ne ↦ s.passed j (omega arith) (omega arith)
  ];
  others = λ j out. s.others j (omega arith);
}

module _ {W : Type 0} (host : Host W) where
  pub expire-SameTables :
      (n i now : ℕ) (q : IoQueue) (rt : Runtime W) → SameTables rt (expire host n i now q rt).1
  unfolding expire
  expire-SameTables zero i now q rt = record { guest = refl; handles = refl }
  expire-SameTables (suc n) i now q rt = elim (Bool-cases (due_at now q i)) [
    | inl due ↦
        let rt' = push_completion_event host (fake_op (q.timeouts i).user_data ok) rt in
        let rest = expire-SameTables n (i + 1) now (disarm q i) rt' in
        let first =
          push_completion_event-SameTables host (fake_op (q.timeouts i).user_data ok) rt in
        rw due (record { guest = rest.guest ∙ first.guest; handles = rest.handles ∙ first.handles })
    | inr later ↦ rw later (expire-SameTables n (i + 1) now q rt)
  ]

  pub expire-Settled :
      (n i now : ℕ) (q : IoQueue) (rt : Runtime W) → Settled n i now q (expire host n i now q rt).0
  unfolding expire
  expire-Settled zero i now q rt = record {
    same_count = refl;
    passed = λ j a b. absurd (omega arith);
    others = λ j h. refl;
  }
  expire-Settled (suc n) i now q rt = elim (Bool-cases (due_at now q i)) [
    | inl due ↦
        let rt' = push_completion_event host (fake_op (q.timeouts i).user_data ok) rt in
        rw due (round_due n i now q _ due (expire-Settled n (i + 1) now (disarm q i) rt'))
    | inr later ↦ rw later (round_later n i now q _ later (expire-Settled n (i + 1) now q rt))
  ]

  -- If the event queue is well formed and has room for one event for each due timeout among the
  -- `n` slots from `i` on, the check of these slots appends to the queue exactly one successful
  -- completion for each due timeout, with its user data, in the order of the slots, and the queue
  -- stays well formed.
  pub expire-Fires :
      (n i now : ℕ) (q : IoQueue) (rt : Runtime W)
      → EventQueue.IsValid rt.event_queue
      → rt.event_queue.count + length (due_ids now q i n) ≤ queue_size
      → (evs : List Event) × Fires (due_ids now q i n) evs
        × (contents (expire host n i now q rt).1.event_queue ≡ contents rt.event_queue ++ evs)
        × EventQueue.IsValid (expire host n i now q rt).1.event_queue
  unfolding expire due_ids
  expire-Fires zero i now q rt v h = ([], none_due, sym (append-nil _), v)
  expire-Fires (suc n) i now q rt v h = elim (Bool-cases (due_at now q i)) [
    | inl due ↦
        let c = fake_op (q.timeouts i).user_data ok in
        let p = push_completion_event-Posted host c rt refl v (room_for_one due h) in
        rw due (
          fires_first (expire host n (i + 1) now (disarm q i) (push_completion_event host c rt)).1 p
            (expire-Fires n (i + 1) now (disarm q i) (push_completion_event host c rt) p.valid
              (room_for_rest due h p)))
    | inr later ↦ rw later (expire-Fires n (i + 1) now q rt v (rw (later, due_ids) at h))
  ]
    where
      room_for_one :
          due_at now q i ≡ true
          → rt.event_queue.count + length (due_ids now q i (suc n)) ≤ queue_size
          → rt.event_queue.count < queue_size
      room_for_one due h = ground arith

      room_for_rest :
          due_at now q i ≡ true
          → rt.event_queue.count + length (due_ids now q i (suc n)) ≤ queue_size
          → Posted
              (fake_op (q.timeouts i).user_data ok)
              rt
              (push_completion_event host (fake_op (q.timeouts i).user_data ok) rt)
          → (push_completion_event host (fake_op (q.timeouts i).user_data ok) rt).event_queue.count
              + length (due_ids now (disarm q i) (i + 1) n)
            ≤ queue_size
      room_for_rest due h p =
          rw (p.count, due_ids-disarm now q i (i + 1) n (omega arith)) (ground arith)

      fires_first :
          {rt' : Runtime W} (r : Runtime W)
          → Posted (fake_op (q.timeouts i).user_data ok) rt rt'
          → ((evs : List Event) × Fires (due_ids now (disarm q i) (i + 1) n) evs
              × (contents r.event_queue ≡ contents rt'.event_queue ++ evs)
              × EventQueue.IsValid r.event_queue)
          → (evs : List Event) × Fires ((q.timeouts i).user_data ∷ due_ids now q (i + 1) n) evs
            × (contents r.event_queue ≡ contents rt.event_queue ++ evs)
            × EventQueue.IsValid r.event_queue
      fires_first r p (evs, f, e, valid) = (
        completion_event p.time (fake_op (q.timeouts i).user_data ok) ∷ evs,
        fires p.time (rw (due_ids-disarm now q i (i + 1) n (omega arith)) at f),
        e ∙ ap (λ xs. xs ++ evs) p.grown ∙ append_assoc (contents rt.event_queue) _ evs,
        valid,
      )
