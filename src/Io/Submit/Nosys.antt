-- ===== src/Io/Submit/Nosys.antt =====
-- What `dispatch` does with an operation that this host does not have.
use wapi.Base.{
  ℕ, ◌<◌, ◌≡◌, refl, inl, inr, Bool, true, false, List, [], ◌∷◌, ◌==◌, ==_iff, arith, Bool-cases,
  if◌then◌else◌,
}
use wapi.EventQueue
use wapi.EventQueue.{contents, queue_size}
use wapi.Runtime.{Runtime, Host, OpCtx}
use wapi.Io.Opcodes.{unimplemented_opcodes, contains}
use wapi.Io.Completion.{op_nosys}
use wapi.Io.Completion.Post.{
  SameTables, Posted, push_completion_event-SameTables, push_completion_event-Posted,
}
use wapi.Io.Submit.{Handler, nosys, handler_of, run, dispatch, perform}

abbrev is_nosys : Handler → Bool
is_nosys nosys = true
is_nosys _ = false

all_nosys : List ℕ → Bool
all_nosys [] = true
all_nosys (n ∷ ns) = if is_nosys (handler_of n) then all_nosys ns else false

nosys_of : (h : Handler) → is_nosys h ≡ true → h ≡ nosys
nosys_of h e = ground arith

nosys_in : (ns : List ℕ) (n : ℕ) → all_nosys ns ≡ true → contains ns n ≡ true → handler_of n ≡ nosys
unfolding all_nosys
nosys_in [] n a c = ground arith
nosys_in (m ∷ ns) n a c = elim (Bool-cases (n == m)) [
  | inl e ↦ nosys_of (handler_of n) (rw ((==_iff n m).0 e) (ground arith))
  | inr e ↦ nosys_in ns n (ground arith) (ground arith)
]

unimplemented_lem : all_nosys unimplemented_opcodes ≡ true
unfolding all_nosys handler_of
unimplemented_lem = refl

pub handler_of-unimplemented :
    (n : ℕ) → contains unimplemented_opcodes n ≡ true → handler_of n ≡ nosys
handler_of-unimplemented n c = nosys_in unimplemented_opcodes n unimplemented_lem c

module _ {W : Type 0} (host : Host W) where
  -- An operation that the switch of `dispatch` sends to `op_nosys`, whose completion is not
  -- suppressed, submitted while the event queue is well formed and has room, changes neither the
  -- guest's memory nor the handle table, and is answered by one event with the result NOSYS and
  -- the flag for it.
  perform-nosys :
      (c : OpCtx) (rt : Runtime W)
      → handler_of c.opcode ≡ nosys
      → c.suppress_completion ≡ false
      → EventQueue.IsValid rt.event_queue
      → rt.event_queue.count < queue_size
      → SameTables rt (perform host c rt) × Posted (op_nosys c) rt (perform host c rt)
  unfolding perform dispatch run op_nosys
  perform-nosys c rt h loud v lt =
      rw (h, perform, dispatch, run)
        (
          push_completion_event-SameTables host (op_nosys c) rt,
          push_completion_event-Posted host (op_nosys c) rt loud v lt,
        )
