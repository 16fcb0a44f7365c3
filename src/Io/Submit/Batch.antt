-- ===== src/Io/Submit/Batch.antt =====
-- `cb_submit` over a whole batch: one completion per operation, in the order of the batch.
use wapi.Base.{
  ℕ, suc, ◌+◌, ◌*◌, ◌≤◌, ◌≡◌, refl, ap, sym, subst, ◌∙◌, false, Option, none, some, List, [], ◌∷◌,
  ◌++◌, length, arith,
}
use mathlib.Core.List.{append_assoc, append-nil}
use wapi.Abi.{u32}
use wapi.Guest.{Guest}
use wapi.EventQueue
use wapi.EventQueue.{Event, contents, queue_size}
use wapi.Runtime.{Runtime, Host, OpCtx}
use wapi.Io.Completion.{op_nop, op_nosys, push_completion_event, completion_event}
use wapi.Io.Completion.Post.{
  SameTables, Posted, push_completion_event-SameTables, push_completion_event-Posted,
}
use wapi.Io.Submit
use wapi.Io.Submit.{Handler, handler_of, run, dispatch, perform, read_op, submit_from}

-- The answer of a handler that touches nothing but the operation.
abbrev pub answer_of : Handler → OpCtx → Option OpCtx
answer_of Submit.nop c = some (op_nop c)
answer_of Submit.nosys c = some (op_nosys c)
answer_of _ c = none

-- From index `i` on the memory holds these operations, with these answers.
pub data Batch (m : Guest) (ops_ptr : ℕ) : ℕ → List OpCtx → Type 0 where
  done : {i : ℕ} → Batch m ops_ptr i []
  next :
      {i : ℕ} {c c' : OpCtx} {cs : List OpCtx}
      → read_op m (u32 (ops_ptr + u32 (i * 80))) ≡ some c
      → answer_of (handler_of c.opcode) c ≡ some c'
      → Batch m ops_ptr (i + 1) cs
      → Batch m ops_ptr i (c' ∷ cs)

-- The events that report these operations, each with its time.
pub data Reports : List OpCtx → List Event → Type 0 where
  none_left : Reports [] []
  report :
      {c : OpCtx} {cs : List OpCtx} {evs : List Event} (ts : ℕ)
      → Reports cs evs
      → Reports (c ∷ cs) (completion_event ts c ∷ evs)

read_op-loud :
    (m : Guest) (p : ℕ) (c : OpCtx) → read_op m p ≡ some c → c.suppress_completion ≡ false
unfolding read_op
read_op-loud m p c e = ground arith

answer_of-loud :
    (h : Handler) (c c' : OpCtx)
    → answer_of h c ≡ some c'
    → c.suppress_completion ≡ false
    → c'.suppress_completion ≡ false
unfolding op_nop op_nosys
answer_of-loud h c c' e loud = ground arith

module _ {W : Type 0} (host : Host W) where
  run-answer_of :
      (h : Handler) (c c' : OpCtx) (rt : Runtime W)
      → answer_of h c ≡ some c'
      → run host h c rt ≡ (c', rt)
  unfolding run
  run-answer_of h c c' rt e = ground arith

  perform-answer :
      (c c' : OpCtx) (rt : Runtime W)
      → answer_of (handler_of c.opcode) c ≡ some c'
      → perform host c rt ≡ push_completion_event host c' rt
  unfolding perform dispatch
  perform-answer c c' rt a =
      rw (perform, dispatch, run-answer_of (handler_of c.opcode) c c' rt a) refl

  -- What a batch does.
  pub record Submitted (n i ops_ptr : ℕ) (cs : List OpCtx) (rt : Runtime W) : Type 0 where
    pub all : (submit_from host n i ops_ptr rt).0 ≡ n
    pub same : SameTables rt (submit_from host n i ops_ptr rt).1
    pub events : List Event
    pub reports : Reports cs events
    pub grown :
        contents (submit_from host n i ops_ptr rt).1.event_queue ≡ contents rt.event_queue ++ events
    pub valid : EventQueue.IsValid (submit_from host n i ops_ptr rt).1.event_queue

  -- One operation and the rest of the batch.
  submit_next :
      (n i ops_ptr : ℕ) (c c' : OpCtx) (cs : List OpCtx) (rt : Runtime W)
      → read_op rt.guest (u32 (ops_ptr + u32 (i * 80))) ≡ some c
      → perform host c rt ≡ push_completion_event host c' rt
      → Posted c' rt (push_completion_event host c' rt)
      → Submitted n (i + 1) ops_ptr cs (push_completion_event host c' rt)
      → Submitted (suc n) i ops_ptr (c' ∷ cs) rt
  unfolding submit_from
  submit_next n i ops_ptr c c' cs rt e did p s =
      let first = push_completion_event-SameTables host c' rt in
      let rt' = push_completion_event host c' rt in
      let one : submit_from host (suc n) i ops_ptr rt ≡ (
        (submit_from host n (i + 1) ops_ptr rt').0 + 1,
        (submit_from host n (i + 1) ops_ptr rt').1,
      ) =
        rw (submit_from, e, did) refl in
      let after = ap (λ x. x.1) one in
      record {
        all = ap (λ x. x.0) one ∙ omega (arith, s.all);
        same = subst (SameTables rt) (sym after) (record {
          guest = s.same.guest ∙ first.guest;
          handles = s.same.handles ∙ first.handles;
        });
        events = completion_event p.time c' ∷ s.events;
        reports = report p.time s.reports;
        grown =
            ap (λ x. contents x.event_queue) after
            ∙ s.grown
            ∙ ap (λ xs. xs ++ s.events) p.grown
            ∙ append_assoc (contents rt.event_queue) (completion_event p.time c' ∷ []) s.events;
        valid = subst (λ x. EventQueue.IsValid x.event_queue) (sym after) s.valid;
      }

  -- If from index `i` on the guest's memory holds a batch of operations that the host answers by
  -- itself (`NOP`, and those it does not have), the event queue is well formed and has room for
  -- one event each, then `submit` counts them all, posts one completion for each in the order of
  -- the batch, and changes neither the guest's memory nor the handle table.
  pub submit-Batch :
      (i ops_ptr : ℕ) (cs : List OpCtx) (rt : Runtime W)
      → Batch rt.guest ops_ptr i cs
      → EventQueue.IsValid rt.event_queue
      → rt.event_queue.count + length cs ≤ queue_size
      → Submitted (length cs) i ops_ptr cs rt
  unfolding submit_from
  submit-Batch i ops_ptr [] rt b v room = record {
    all = refl;
    same = record { guest = refl; handles = refl };
    events = [];
    reports = none_left;
    grown = sym (append-nil (contents rt.event_queue));
    valid = v;
  }
  submit-Batch i ops_ptr (c' ∷ cs) rt (next {c = c} e a rest) v room =
      let rt' = push_completion_event host c' rt in
      let loud = answer_of-loud (handler_of c.opcode) c c' a (read_op-loud rt.guest _ c e) in
      let p = push_completion_event-Posted host c' rt loud v (omega arith) in
      let same = push_completion_event-SameTables host c' rt in
      submit_next (length cs) i ops_ptr c c' cs rt e (perform-answer c c' rt a) p (
        submit-Batch (i + 1) ops_ptr cs rt'
          (subst (λ m. Batch m ops_ptr (i + 1) cs) (sym same.guest) rest) p.valid
          (omega (arith, p.count)))
