-- ===== src/EventQueue/Flush.antt =====
-- `wapi_event_queue_flush` drops the events of one type, and keeps the others in their order.
use wapi.Base.{
  ℕ, zero, suc, ◌+◌, ◌%◌, ◌≤◌, ◌≡◌, refl, ap, sym, ◌∙◌, List, [], ◌∷◌, ◌++◌, cells, length, arith,
  ◌==◌, if◌then◌else◌, Bool-cases, inl, inr,
}
use mathlib.Core.List.{append_assoc, append-nil}
use wapi.EventQueue.{
  EventQueue, Event, queue_size, push, drain, push_all, flush, event_type, IsValid, contents,
}
use wapi.EventQueue.Fifo
use wapi.EventQueue.Refine.{push-IsValid, push-room, length-contents, pop-cases}

length-without : (type : ℕ) (evs : List Event) → length (Fifo.without type evs) ≤ length evs
unfolding Fifo.without
length-without type [] = omega arith
length-without type (ev ∷ evs) = ground (arith, length-without type evs)

-- The queue after the loop: empty, where the loop started with at most `n` events.
drain_lem :
    (n type : ℕ) (q : EventQueue)
    → IsValid q
    → q.count ≤ n
    → let (temp, q') = drain n type q in
      (temp ≡ Fifo.without type (contents q)) × (q'.count ≡ 0) × IsValid q'
unfolding drain Fifo.without
drain_lem zero type q v h = elim (pop-cases q v) [
  | inl e ↦ (rw e.no_contents refl, e.no_count, v)
  | inr (ev, q', p) ↦ absurd (omega (arith, p.shorter))
]
drain_lem (suc n) type q v h = elim (pop-cases q v) [
  | inl e ↦ rw (e.nothing, e.no_contents, drain) (refl, e.no_count, v)
  | inr (ev, q', p) ↦
      let (kept, empty, valid) = drain_lem n type q' p.still (omega (arith, p.shorter)) in
      rw (p.result, p.oldest, drain)
        (ap (λ r. if event_type ev == type then r else ev ∷ r) kept, empty, valid)
]

-- Pushing events for which there is room appends them.
pub push_all_lem :
    (evs : List Event) (q : EventQueue)
    → IsValid q
    → q.count + length evs ≤ queue_size
    → (contents (push_all evs q) ≡ contents q ++ evs) × IsValid (push_all evs q)
unfolding push_all
push_all_lem [] q v h = (sym (append-nil (contents q)), v)
push_all_lem (ev ∷ evs) q v h =
    let (done, count, grown) = push-room ev q v (omega arith) in
    let (rest, valid) =
      push_all_lem evs (push ev q).1 (push-IsValid ev q v) (omega (arith, count)) in
    (rest ∙ ap (λ xs. xs ++ evs) grown ∙ append_assoc (contents q) (ev ∷ []) evs, valid)

-- On a well-formed ring, `flush` removes the events of the given type, or all events for type 0,
-- keeps the others in their order, and leaves a well-formed ring.
pub flush_lem :
    (type : ℕ) (q : EventQueue)
    → IsValid q
    → (contents (flush type q) ≡ (if type == 0 then [] else Fifo.without type (contents q)))
      × IsValid (flush type q)
unfolding flush
flush_lem type q v = elim (Bool-cases (type == 0)) [
  | inl all ↦ rw (all, flush) (refl, omega arith)
  | inr one ↦
      let (kept, empty, valid) = drain_lem q.count type q v (omega arith) in
      let (left, valid') = push_all_lem (drain q.count type q).0 (drain q.count type q).1 valid (
        omega
          (arith, empty, ap length kept, length-without type (contents q), length-contents q)) in
      rw (one, flush)
        (
          left
              ∙ ap
                  (λ n.
                    cells (λ k. (drain q.count type q).1.events (k % queue_size))
                      (drain q.count type q).1.head n
                    ++ (drain q.count type q).0)
                  empty
              ∙ kept,
          valid',
        )
]
