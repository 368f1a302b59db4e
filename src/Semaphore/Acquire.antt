-- ===== src/Semaphore/Acquire.antt =====
-- src/semaphore.rs: the `Acquire` future. Its `node` lives at the address `p`; `cx` is the waker of
-- the task that polls.
use Prim.Native.Nat.{bit_and}
use local_sync.Prelude.{
  ℕ, ◌-◌, Bool, true, false, not, ◌&&◌, Option, none, some, ◌==◌, ltb, leb, if◌then◌else◌, Outcome,
  done, panic, ◌>>=◌, Result, ok, err,
}
use local_sync.LinkedList
use local_sync.LinkedList.{Ptr, unlinked}
use local_sync.WakeList.{Waker}
use local_sync.Semaphore.Word.{closed_flag, shl, shr}
use local_sync.Semaphore.Inner.{Inner, waiter, update, assign_permits}
use local_sync.Semaphore.Release.{add_permits}

pub data AcquireError : Type 0 where
  acquire_closed : AcquireError

pub data Poll {ℓ} (A : Type ℓ) : Type ℓ where
  ready : A → Poll A
  pending : Poll A

pub record Acquire : Type 0 where
  pub num_permits : ℕ
  pub queued : Bool

-- What a poll hands back: its value, and the semaphore.
abbrev pub Polled : Type 0
Polled = Poll (Result AcquireError (Unit {0})) × Inner

-- `Acquire::new`: the node is written at an address of its own.
unfoldable pub new : ℕ → Ptr → Inner → Acquire × Inner
new num_permits p s =
    let q = s.queue in
    (
      record { num_permits = num_permits; queued = false },
      record s {
        nodes = update s.nodes p (waiter num_permits);
        queue = record q { links = update q.links p unlinked };
      },
    )

-- The waker that the node holds after "Replace waker if needed".
abbrev pub registered : Option Waker → Waker → Option Waker
registered none cx = some cx
registered (some w) cx = if w == cx then some w else some cx

-- The end of `poll_acquire`, for a waiter that is not served.
abbrev pub enqueue : Waker → Ptr → Bool → Inner → Outcome Polled
enqueue cx p queued s = do
  let w = s.nodes p
  let s1 = record s { nodes = update s.nodes p (record w { waker = registered w.waker cx }) }
  if queued
      then done (pending, s1)
      else do queue ← LinkedList.push_front p s1.queue; done (pending, record s1 { queue = queue })

-- "Clear permits and assign it", and what follows.
abbrev pub take_all : ℕ → Waker → Ptr → Bool → Inner → Outcome Polled
take_all fuel cx p queued s = do
  let (w, permits, full) = assign_permits (s.nodes p) (shr s.permits)
  let s1 = record s { permits = 0; nodes = update s.nodes p w }
  if full
      then (add_permits fuel permits s1 >>= λ s2. done (ready (ok tt), s2))
      else enqueue cx p queued s1

unfoldable pub poll_acquire : ℕ → Waker → ℕ → Ptr → Bool → Inner → Outcome Polled
poll_acquire fuel cx num_permits p queued s =
    let needed = if queued then shl (s.nodes p).state else shl num_permits in
    if ltb 0 (bit_and s.permits closed_flag)
    then done (ready (err acquire_closed), s)
    else if leb needed s.permits && not queued
    then done (ready (ok tt), record s { permits = s.permits - needed })
    else take_all fuel cx p queued s

-- `Future::poll`: how the result changes the flag `queued`.
abbrev pub requeue : Acquire → Poll (Result AcquireError (Unit {0})) → Acquire
requeue a pending = record a { queued = true }
requeue a (ready (err e)) = a
requeue a (ready (ok u)) = record a { queued = false }

unfoldable pub poll : ℕ → Waker → Ptr → Acquire → Inner → Outcome (Polled × Acquire)
poll fuel cx p a s = do
  (r, s1) ← poll_acquire fuel cx a.num_permits p a.queued s
  done ((r, s1), requeue a r)

-- The subtraction panics below zero.
abbrev pub give_back : ℕ → Ptr → Acquire → Inner → Outcome Inner
give_back fuel p a s =
    if ltb a.num_permits (s.nodes p).state
    then panic
    else let acquired = a.num_permits - (s.nodes p).state in
      if ltb 0 acquired then add_permits fuel acquired s else done s

-- `Drop for Acquire`
unfoldable pub drop : ℕ → Ptr → Acquire → Inner → Outcome Inner
drop fuel p a s = if not a.queued then done s else do
  (_, queue) ← LinkedList.remove p s.queue
  give_back fuel p a (record s { queue = queue })
