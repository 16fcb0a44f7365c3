-- ===== src/EventQueue/Refine.antt =====
-- The ring behaves as the queue of its contents.
use wapi.Base.{
  ℕ, zero, suc, ◌+◌, ◌-◌, ◌==◌, ◌%◌, ◌≤◌, ◌<◌, dec_lt, ℕ_discrete, ◌≡◌, refl, ap, ap₂, ◌∙◌, ◌≢◌,
  ◌⊎◌, inl, inr, true, false, Option, none, some, List, [], ◌∷◌, ◌++◌, update, update_self,
  update_ne, cells, cells_ext, cells_snoc, length, length-cells, arith,
}
use wapi.EventQueue.{EventQueue, Event, queue_size, push, pop, IsValid, contents}
use wapi.EventQueue.Fifo

pub push-IsValid : (ev : Event) (q : EventQueue) → IsValid q → IsValid (push ev q).1
unfolding push
push-IsValid ev q v = ground arith

pub pop-IsValid :
    (q : EventQueue) {ev : Event} {q' : EventQueue} → IsValid q → pop q ≡ some (ev, q') → IsValid q'
unfolding pop
pop-IsValid q v e = ground arith

pub length-contents : (q : EventQueue) → length (contents q) ≡ q.count
length-contents q = length-cells (λ k. q.events (k % queue_size)) q.head q.count

-- Writing the cell behind the window extends the window.
contents-write :
    (f : ℕ → Event) (h n : ℕ) (ev : Event)
    → n < queue_size
    → cells (λ k. update f ((h + n) % queue_size) ev (k % queue_size)) h (suc n)
      ≡ cells (λ k. f (k % queue_size)) h n ++ ev ∷ []
contents-write f h n ev lt =
    cells_snoc (λ k. update f ((h + n) % queue_size) ev (k % queue_size)) h n
    ∙ ap₂ (λ xs x. xs ++ x ∷ [])
        (cells_ext (λ k. update f ((h + n) % queue_size) ev (k % queue_size))
          (λ k. f (k % queue_size)) h n
          (λ j lo hi. update_ne f ((h + n) % queue_size) ev (j % queue_size) (λ e. omega arith)))
        (update_self f ((h + n) % queue_size) ev)

-- A window depends on its start only up to the size of the ring.
cells-wrap :
    (f : ℕ → Event) (i j n : ℕ)
    → i % queue_size ≡ j % queue_size
    → cells (λ k. f (k % queue_size)) i n ≡ cells (λ k. f (k % queue_size)) j n
cells-wrap f i j zero e = refl
cells-wrap f i j (suc n) e = ap₂ ◌∷◌ (ap f e) (cells-wrap f (i + 1) (j + 1) n (omega arith))

-- The oldest event, and the ring that `pop` leaves.
cells-front :
    (f : ℕ → Event) (h n : ℕ)
    → h < queue_size
    → n ≢ 0
    → cells (λ k. f (k % queue_size)) h n
      ≡ f h ∷ cells (λ k. f (k % queue_size)) ((h + 1) % queue_size) (n - 1)
cells-front f h zero lt ne = absurd (ne refl)
cells-front f h (suc n) lt ne = ap₂ ◌∷◌ (ap f (omega arith)) (
    cells-wrap f (h + 1) ((h + 1) % queue_size) n (omega arith)
    ∙ ap (cells (λ k. f (k % queue_size)) ((h + 1) % queue_size)) (omega arith))

pub push-full : (ev : Event) (q : EventQueue) → queue_size ≤ q.count → push ev q ≡ (false, q)
unfolding push
push-full ev q h = ground arith

-- A push into a ring with room appends the event.
pub push-room :
    (ev : Event) (q : EventQueue)
    → IsValid q
    → q.count < queue_size
    → ((push ev q).0 ≡ true)
      × ((push ev q).1.count ≡ q.count + 1)
      × (contents (push ev q).1 ≡ contents q ++ ev ∷ [])
unfolding push
push-room ev q v lt = ground (arith, contents-write q.events q.head q.count ev lt)

-- On a well-formed ring, `push` answers as the bounded first-in first-out queue does, its new
-- contents are that queue's, and the ring stays well formed.
pub push_refines :
    (ev : Event) (q : EventQueue)
    → IsValid q
    → let (done, q') = push ev q in ((done, contents q') ≡ Fifo.push ev (contents q)) × IsValid q'
unfolding Fifo.push
push_refines ev q v = (
  elim (dec_lt q.count queue_size) [
    | yes lt ↦ ground (arith, length-contents q, push-room ev q v lt)
    | no full ↦ ground (arith, length-contents q, push-full ev q (omega arith))
  ],
  push-IsValid ev q v,
)

-- The event and the queue of contents that a `pop` leaves.
abbrev pub seen : Option (Event × EventQueue) → Option (Event × List Event)
seen none = none
seen (some (ev, q)) = some (ev, contents q)

-- The ring after a `pop` of `q`.
abbrev pub left_by : EventQueue → Option (Event × EventQueue) → EventQueue
left_by q none = q
left_by q (some (ev, q')) = q'

-- On a well-formed ring, `pop` returns the event that the first-in first-out queue returns and
-- leaves its contents, it returns nothing exactly where that queue does, and the ring stays well
-- formed.
pub pop_refines :
    (q : EventQueue)
    → IsValid q
    → (seen (pop q) ≡ Fifo.pop (contents q)) × IsValid (left_by q (pop q))
unfolding pop Fifo.pop
pop_refines q v = (
  ground (arith, cells-front q.events q.head q.count v.head_in),
  elim (ℕ_discrete q.count 0) [
    | yes e ↦
        let empty : (q.count == 0) ≡ true = ground arith in
        rw empty (record { head_in = v.head_in; count_in = v.count_in; tail_at = v.tail_at })
    | no ne ↦
        let some_left : (q.count == 0) ≡ false = ground arith in
        rw some_left (record {
          head_in = omega arith;
          count_in = omega (arith, v.count_in);
          tail_at = omega (arith, v.tail_at);
        })
  ],
)

-- The two ways in which a `pop` ends.
pub record Popped (q : EventQueue) (ev : Event) (q' : EventQueue) : Type 0 where
  pub result : pop q ≡ some (ev, q')
  pub oldest : contents q ≡ ev ∷ contents q'
  pub shorter : q.count ≡ q'.count + 1
  pub still : IsValid q'

pub record IsEmpty (q : EventQueue) : Type 0 where
  pub nothing : pop q ≡ none
  pub no_count : q.count ≡ 0
  pub no_contents : contents q ≡ []

pub pop-cases :
    (q : EventQueue) → IsValid q → IsEmpty q ⊎ ((ev : Event) × (q' : EventQueue) × Popped q ev q')
unfolding pop
pop-cases q v = elim (ℕ_discrete q.count 0) [
  | yes e ↦ inl (record {
    nothing = ground arith;
    no_count = e;
    no_contents = ap (cells (λ k. q.events (k % queue_size)) q.head) e;
  })
  | no ne ↦ inr (
    q.events q.head,
    record q { head = (q.head + 1) % queue_size; count = q.count - 1 },
    record {
      result = ground arith;
      oldest = cells-front q.events q.head q.count v.head_in ne;
      shorter = omega arith;
      still = ground arith;
    },
  )
]
