-- ===== src/Io/Poll/Taken.antt =====
-- What `cb_poll` and `cb_wait` take into the event queue (runtime/desktop/src/wapi_host_io.c).
use wapi.Base.{
  ℕ, zero, suc, ◌+◌, ◌-◌, ◌≡◌, refl, ap, sym, ◌∙◌, inl, inr, List, [], ◌∷◌, ◌++◌, take,
  Option-cases, Bool-cases, dec_lt, arith,
}
use mathlib.Core.List.{append_assoc, append-nil}
use wapi.Abi.{ok}
use wapi.EventQueue
use wapi.EventQueue.{Event, EventQueue, contents, queue_size, push, push_all}
use wapi.EventQueue.Refine.{push-IsValid, push-room, push-full}
use wapi.Runtime.{Runtime, Host, IoQueue}
use wapi.Io.Completion.{completion_event, push_completion_event}
use wapi.Io.Completion.Post.{Announced, posted, lost, push_completion_event-Announced}
use wapi.Io.Timers.{queue_at, disarm, due_at, fake_op, expire, check_queue, check_queues}

-- Events that report timeouts.
pub data Rung : List Event → Type 0 where
  silence : Rung []
  rings :
      (time user_data : ℕ) {evs : List Event}
      → Rung evs
      → Rung (completion_event time (fake_op user_data ok) ∷ evs)

Rung-append : {xs ys : List Event} → Rung xs → Rung ys → Rung (xs ++ ys)
Rung-append silence r = r
Rung-append (rings time user_data rest) r = rings time user_data (Rung-append rest r)

-- The queue `q'` is `q` with events of timeouts behind.
pub record Extends (q q' : EventQueue) : Type 0 where
  pub more : List Event
  pub rung : Rung more
  pub grown : contents q' ≡ contents q ++ more
  pub valid : EventQueue.IsValid q'

Extends-same : (q : EventQueue) → EventQueue.IsValid q → Extends q q
Extends-same q v = record {
  more = [];
  rung = silence;
  grown = sym (append-nil (contents q));
  valid = v;
}

Extends-then : {q q' q'' : EventQueue} → Extends q q' → Extends q' q'' → Extends q q''
Extends-then {q} a b = record {
  more = a.more ++ b.more;
  rung = Rung-append a.rung b.rung;
  grown = b.grown ∙ ap (λ xs. xs ++ b.more) a.grown ∙ append_assoc (contents q) a.more b.more;
  valid = b.valid;
}

Announced-Extends :
    (user_data : ℕ) (q : EventQueue) {q' : EventQueue}
    → EventQueue.IsValid q
    → Announced (fake_op user_data ok) q q'
    → Extends q q'
Announced-Extends user_data q v (posted time lt grown valid) = record {
  more = completion_event time (fake_op user_data ok) ∷ [];
  rung = rings time user_data silence;
  grown = grown;
  valid = valid;
}
Announced-Extends user_data q v (lost full same) = rw same (Extends-same q v)

take_nothing : (n : ℕ) → take {A = Event} n [] ≡ []
take_nothing zero = refl
take_nothing (suc n) = refl

-- As many events as there is room for come behind those that wait.
pub push_all_lem :
    (evs : List Event) (q : EventQueue)
    → EventQueue.IsValid q
    → (contents (push_all evs q) ≡ contents q ++ take (queue_size - q.count) evs)
      × EventQueue.IsValid (push_all evs q)
unfolding push_all
push_all_lem [] q v = (
  sym (append-nil (contents q))
      ∙ ap (λ xs. contents q ++ xs) (sym (take_nothing (queue_size - q.count))),
  v,
)
push_all_lem (ev ∷ evs) q v = elim (dec_lt q.count queue_size) [
  | yes lt ↦
      let (_, count, grown) = push-room ev q v lt in
      let (all, valid) = push_all_lem evs (push ev q).1 (push-IsValid ev q v) in
      let left : queue_size - q.count ≡ suc (queue_size - (push ev q).1.count) =
        omega (arith, count, v.count_in) in
      (
        all
            ∙ ap (λ xs. xs ++ take (queue_size - (push ev q).1.count) evs) grown
            ∙ append_assoc (contents q) (ev ∷ []) (take (queue_size - (push ev q).1.count) evs)
            ∙ ap (λ n. contents q ++ take n (ev ∷ evs)) (sym left),
        valid,
      )
  | no ge ↦
      let same : (push ev q).1 ≡ q = ap (λ x. x.1) (push-full ev q (omega arith)) in
      let (all, _) = push_all_lem evs q v in
      let (_, valid) = push_all_lem evs (push ev q).1 (push-IsValid ev q v) in
      let none_left : queue_size - q.count ≡ 0 = omega arith in
      (
        ap (λ x. contents (push_all evs x)) same
            ∙ all
            ∙ ap (λ n. contents q ++ take n evs) none_left
            ∙ ap (λ n. contents q ++ take n (ev ∷ evs)) (sym none_left),
        valid,
      )
]

module _ {W : Type 0} (host : Host W) where
  expire-Extends :
      (n i now : ℕ) (q : IoQueue) (rt : Runtime W)
      → EventQueue.IsValid rt.event_queue
      → Extends rt.event_queue (expire host n i now q rt).1.event_queue
  unfolding expire
  expire-Extends zero i now q rt v = Extends-same rt.event_queue v
  expire-Extends (suc n) i now q rt v = elim (Bool-cases (due_at now q i)) [
    | inl due ↦
        let u = (q.timeouts i).user_data in
        let one =
          Announced-Extends u rt.event_queue v
            (push_completion_event-Announced host (fake_op u ok) rt refl v) in
        rw due (
          Extends-then one (
            expire-Extends n (i + 1) now (disarm q i) (push_completion_event host (fake_op u ok) rt)
              one.valid))
    | inr later ↦ rw later (expire-Extends n (i + 1) now q rt v)
  ]

  check_queue-Extends :
      (now h : ℕ) (rt : Runtime W)
      → EventQueue.IsValid rt.event_queue
      → Extends rt.event_queue (check_queue host now h rt).event_queue
  unfolding check_queue
  check_queue-Extends now h rt v = elim (Option-cases (queue_at rt h)) [
    | inl e ↦ rw (check_queue, e) (Extends-same rt.event_queue v)
    | inr (q, e) ↦ rw (check_queue, e) (expire-Extends q.timeout_count 0 now q rt v)
  ]

  pub check_queues-Extends :
      (n h now : ℕ) (rt : Runtime W)
      → EventQueue.IsValid rt.event_queue
      → Extends rt.event_queue (check_queues host n h now rt).event_queue
  unfolding check_queues
  check_queues-Extends zero h now rt v = Extends-same rt.event_queue v
  check_queues-Extends (suc n) h now rt v =
      let one = check_queue-Extends now h rt v in
      Extends-then one (check_queues-Extends n (h + 1) now (check_queue host now h rt) one.valid)
