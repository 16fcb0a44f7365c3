-- ===== src/Io/Timers/Arm.antt =====
-- `op_timeout` and `op_timeout_abs`: one slot is armed, or the table of slots is exhausted.
use wapi.Base.{
  ℕ, ◌+◌, ◌≤◌, ◌<◌, ◌≡◌, refl, ◌∙◌, ◌≢◌, inl, inr, not, Bool, true, false, arith, update_self,
  update_ne, find_from, find_from-Found, find_from-hit, ℕ_discrete, dec_lt, Option-cases, some, ap,
  ltb, ◌-◌, if◌then◌else◌,
}
use wapi.Abi.{err_nospc, u64}
use wapi.Handles.{max_handles}
use wapi.Runtime.{Runtime, Host, OpCtx, IoQueue}
use wapi.Io.Timers.{
  max_timeouts, arm, choose_slot, arm_timeout, set_queue, queue_at, is_io_queue, default_io_queue,
  op_timeout,
}

-- What `choose_slot` finds: a slot that is handed out and idle, or the next one.
pub record Chosen (q : IoQueue) (slot : ℕ) (q' : IoQueue) : Type 0 where
  pub known : slot ≤ q.timeout_count
  pub was_idle : (slot < q.timeout_count → (q.timeouts slot).active ≡ false)
  pub count :
      q'.timeout_count ≡ (if ltb slot q.timeout_count then q.timeout_count else q.timeout_count + 1)
  pub same_slots : (j : ℕ) → q'.timeouts j ≡ q.timeouts j

pub choose_slot-Chosen : (q : IoQueue) → Chosen q (choose_slot q).0 (choose_slot q).1
unfolding choose_slot
choose_slot-Chosen q =
    elim (Option-cases (find_from (λ t. not (q.timeouts t).active) 0 q.timeout_count)) [
      | inl e ↦
          rw (e, choose_slot)
            (record {
              known = omega arith;
              was_idle = λ lt. absurd (omega arith);
              count = ground arith;
              same_slots = λ j. refl;
            })
      | inr (slot, e) ↦
          let f = find_from-Found (λ t. not (q.timeouts t).active) 0 q.timeout_count slot e in
          rw (e, choose_slot)
            (record {
              known = omega (arith, f.high);
              was_idle = λ lt. ground (arith, f.hit);
              count = ground (arith, f.high);
              same_slots = λ j. refl;
            })
    ]

-- The queue with one more timeout armed, in a slot that was idle or in a new one behind the others.
pub record Armed (q : IoQueue) (user_data deadline_ns : ℕ) (q' : IoQueue) : Type 0 where
  pub slot : ℕ
  pub known : slot ≤ q.timeout_count
  pub was_idle : slot < q.timeout_count → (q.timeouts slot).active ≡ false
  pub count :
      q'.timeout_count ≡ (if ltb slot q.timeout_count then q.timeout_count else q.timeout_count + 1)
  pub bounded : q'.timeout_count ≤ max_timeouts
  pub armed :
      q'.timeouts slot ≡ record { user_data = user_data; deadline_ns = deadline_ns; active = true }
  pub others : (j : ℕ) → j ≢ slot → q'.timeouts j ≡ q.timeouts j

arm-Armed :
    (q : IoQueue) (user_data deadline_ns : ℕ)
    → q.timeout_count < max_timeouts
    → Armed q user_data deadline_ns (arm (choose_slot q).1 (choose_slot q).0 user_data deadline_ns)
arm-Armed q user_data deadline_ns lt =
    let c = choose_slot-Chosen q in
    record {
      slot = (choose_slot q).0;
      known = c.known;
      was_idle = c.was_idle;
      count = c.count;
      bounded = ground (arith, c.count);
      armed = update_self (choose_slot q).1.timeouts (choose_slot q).0 _;
      others =
          λ j ne. update_ne (choose_slot q).1.timeouts (choose_slot q).0 _ j ne ∙ c.same_slots j;
    }

-- A search stops at the first hit.
find_from-first :
    (p : ℕ → Bool) (i n j : ℕ)
    → i ≤ j
    → j < i + n
    → p j ≡ true
    → ((k : ℕ) → i ≤ k → k < j → p k ≡ false)
    → find_from p i n ≡ some j
find_from-first p i n j a b hit before =
    let (k, e) = find_from-hit p i n j a b hit in
    let f = find_from-Found p i n k e in
    elim (ℕ_discrete k j) [
      | yes same ↦ e ∙ ap some same
      | no ne ↦ elim (dec_lt k j) [
        | yes lt ↦ absurd (ground (arith, before k f.low lt, f.hit))
        | no ge ↦ absurd (ground (arith, f.first j a (omega arith), hit))
      ]
    ]

module _ {W : Type 0} (host : Host W) where
  -- The deadline: the clock and the offset added in 64 bits, or the offset itself.
  abbrev pub deadline : Bool → OpCtx → Runtime W → ℕ
  deadline absolute c rt =
      if absolute then c.offset else u64 ((host.monotonic_ns rt.world).0 + c.offset)

  abbrev pub after_clock : Bool → Runtime W → Runtime W
  after_clock absolute rt =
      if absolute then rt else record rt { world = (host.monotonic_ns rt.world).1 }

  arm_timeout-Armed :
      (absolute : Bool) (c : OpCtx) (h : ℕ) (q : IoQueue) (rt : Runtime W)
      → q.timeout_count < max_timeouts
      → (q' : IoQueue) × Armed q c.user_data (deadline absolute c rt) q'
        × (arm_timeout host absolute c h q rt
            ≡ (record c { suppress_completion = true }, set_queue (after_clock absolute rt) h q'))
  unfolding arm_timeout
  arm_timeout-Armed true c h q rt lt = (_, arm-Armed q c.user_data c.offset lt, ground arith)
  arm_timeout-Armed false c h q rt lt = (
    _,
    arm-Armed q c.user_data (u64 ((host.monotonic_ns rt.world).0 + c.offset)) lt,
    ground arith,
  )

  -- On a queue with 64 slots handed out, `op_timeout` and `op_timeout_abs` answer NOSPC and
  -- change nothing, whether or not any of the slots is still active.
  arm_timeout-exhausted :
      (absolute : Bool) (c : OpCtx) (h : ℕ) (q : IoQueue) (rt : Runtime W)
      → max_timeouts ≤ q.timeout_count
      → arm_timeout host absolute c h q rt ≡ (record c { result = err_nospc }, rt)
  unfolding arm_timeout
  arm_timeout-exhausted absolute c h q rt le = ground arith

  -- Where the first queue of the handle table, at a handle from 4 to 4095, has fewer than 64
  -- slots handed out, `op_timeout` and `op_timeout_abs` arm in it one slot that was idle, or a
  -- new one behind the others, with the user data and the deadline (the clock plus the offset in
  -- 64 bits, or the offset itself); they leave all other slots alone, count one slot more exactly
  -- if it is new, and suppress the completion.
  pub op_timeout-Armed :
      (absolute : Bool) (c : OpCtx) (rt : Runtime W) (h : ℕ) (q : IoQueue)
      → 4 ≤ h
      → h < max_handles
      → queue_at rt h ≡ some q
      → ((k : ℕ) → 4 ≤ k → k < h → is_io_queue rt k ≡ false)
      → q.timeout_count < max_timeouts
      → (q' : IoQueue) × Armed q c.user_data (deadline absolute c rt) q'
        × (op_timeout host absolute c rt
            ≡ (record c { suppress_completion = true }, set_queue (after_clock absolute rt) h q'))
  unfolding op_timeout default_io_queue
  op_timeout-Armed absolute c rt h q low high at_h before lt =
      let kind : is_io_queue rt h ≡ true = ground (arith, at_h) in
      let first : find_from (is_io_queue rt) 4 (max_handles - 4) ≡ some h =
        find_from-first (is_io_queue rt) 4 (max_handles - 4) h low (omega arith) kind before in
      let (q', armed, result) = arm_timeout-Armed absolute c h q rt lt in
      let found : default_io_queue host rt ≡ (some h, rt) = rw (default_io_queue, first) refl in
      let is_h = ap (λ x. x.0) found in
      let same = ap (λ x. x.1) found in
      (
        q',
        armed,
        rw (op_timeout, is_h, same, at_h) (ap (arm_timeout host absolute c h q) same ∙ result),
      )
