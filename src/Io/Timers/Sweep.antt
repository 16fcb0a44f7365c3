-- ===== src/Io/Timers/Sweep.antt =====
-- `wapi_io_check_timeouts` over the whole handle table.
use wapi.Base.{
  ℕ, zero, suc, ◌+◌, ◌-◌, ◌≤◌, ◌<◌, ◌≡◌, refl, ap, sym, ◌∙◌, subst, ◌≢◌, ◌⊎◌, inl, inr, true,
  Option, none, some, arith, update_self, update_ne, Option-cases, ℕ_discrete, if◌then◌else◌,
}
use wapi.Handles.{Entry, io_queue, same_type, max_handles}
use wapi.Runtime.{Runtime, Host, IoQueue, Payload, queue_of}
use wapi.Io.Timers.{queue_at, is_io_queue, expire, check_queue, check_queues, check_timeouts}
use wapi.Io.Timers.Expiry.{Settled, expire-Settled, expire-SameTables}

-- `queue_at`, of an entry.
abbrev pub queue_in : Entry Payload → Option IoQueue
queue_in e = if same_type e.type io_queue then queue_of e.payload else none

-- What becomes of the queue at a handle.
pub data Swept (now : ℕ) : Option IoQueue → Option IoQueue → Type 0 where
  no_queue : Swept now none none
  swept : (q q' : IoQueue) → Settled q.timeout_count 0 now q q' → Swept now (some q) (some q')

module _ {W : Type 0} where
  abbrev entry : Runtime W → ℕ → Entry Payload
  entry rt h = rt.handles.entries h

  is_queue :
      (rt : Runtime W) (h : ℕ) (q : IoQueue) → queue_at rt h ≡ some q → is_io_queue rt h ≡ true
  is_queue rt h q e = ground (arith, e)

module _ {W : Type 0} (host : Host W) where
  check_queue-other :
      (now h : ℕ) (rt : Runtime W) (j : ℕ)
      → j ≢ h
      → entry (check_queue host now h rt) j ≡ entry rt j
  unfolding check_queue
  check_queue-other now h rt j ne = elim (Option-cases (queue_at rt h)) [
    | inl e ↦ rw (e, check_queue) refl
    | inr (q, e) ↦
        rw (e, check_queue)
          (update_ne (expire host q.timeout_count 0 now q rt).1.handles.entries h _ j ne
            ∙ ap (λ t. t.entries j) (expire-SameTables host q.timeout_count 0 now q rt).handles)
  ]

  check_queue_self :
      (now h : ℕ) (rt : Runtime W)
      → Swept now (queue_at rt h) (queue_at (check_queue host now h rt) h)
  unfolding check_queue
  check_queue_self now h rt = elim (Option-cases (queue_at rt h)) [
    | inl e ↦ rw (check_queue-absent e, e) no_queue
    | inr (q, e) ↦
        rw (check_queue-present q e, e) (swept q _ (expire-Settled host q.timeout_count 0 now q rt))
  ]
    where
      check_queue-absent : queue_at rt h ≡ none → check_queue host now h rt ≡ rt
      check_queue-absent e = rw (e, check_queue) refl

      check_queue-present :
          (q : IoQueue)
          → queue_at rt h ≡ some q
          → queue_at (check_queue host now h rt) h ≡ some (expire host q.timeout_count 0 now q rt).0
      check_queue-present q e =
          let same = (expire-SameTables host q.timeout_count 0 now q rt).handles in
          let kind = ap (λ t. same_type (t.entries h).type io_queue) same ∙ is_queue rt h q e in
          let at_h = update_self (expire host q.timeout_count 0 now q rt).1.handles.entries h _ in
          rw (e, check_queue) (ap queue_in at_h ∙ rw kind refl)

  check_queues-Swept :
      (n h now : ℕ) (rt : Runtime W) (j : ℕ)
      → (h ≤ j → j < h + n → Swept now (queue_at rt j) (queue_at (check_queues host n h now rt) j))
        × ((j < h) ⊎ (h + n ≤ j) → entry (check_queues host n h now rt) j ≡ entry rt j)
  unfolding check_queues
  check_queues-Swept zero h now rt j = (λ a b. absurd (omega arith), λ out. refl)
  check_queues-Swept (suc n) h now rt j =
      let rt' = check_queue host now h rt in
      let (inside, outside) = check_queues-Swept n (h + 1) now rt' j in
      (
        λ a b. elim (ℕ_discrete j h) [
          | yes e ↦
              let here =
                subst (λ k. Swept now (queue_at rt k) (queue_at rt' k)) (sym e)
                  (check_queue_self now h rt) in
              subst (Swept now (queue_at rt j)) (sym (ap queue_in (outside (inl (omega arith)))))
                here
          | no ne ↦
              subst (λ o. Swept now o (queue_at (check_queues host n (h + 1) now rt') j))
                (ap queue_in (check_queue-other now h rt j ne)) (inside (omega arith) (omega arith))
        ],
        λ out. outside (omega arith) ∙ check_queue-other now h rt j (λ e. omega arith),
      )

  -- After `wapi_io_check_timeouts`, at every handle from 4 to 4095, a queue has every timeout
  -- that was active and due at the time of the check disarmed and every other slot unchanged,
  -- with the same number of slots; and a handle without a queue is still without one.
  pub check_timeouts-Swept :
      (rt : Runtime W) (h : ℕ)
      → 4 ≤ h
      → h < max_handles
      → Swept (host.monotonic_ns rt.world).0 (queue_at rt h) (queue_at (check_timeouts host rt) h)
  unfolding check_timeouts
  check_timeouts-Swept rt h low high =
      let (now, w) = host.monotonic_ns rt.world in
      (check_queues-Swept (max_handles - 4) 4 now (record rt { world = w }) h).0 low (omega arith)
