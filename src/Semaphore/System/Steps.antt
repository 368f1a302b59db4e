-- ===== src/Semaphore/System/Steps.antt =====
-- Each operation of a client of src/semaphore.rs against the invariant of the whole system.
use local_sync.Prelude.{
  ℕ, ◌+◌, ◌-◌, ◌^◌, ◌<◌, ap, inl, inr, List, arith, le→leb, lt→leb, le→ltb, lt→ltb, Bool-cases, has,
  length, dec_le, Returns, returns, Returns-bind, ok, err,
}
use local_sync.LinkedList.{Ptr}
use local_sync.WakeList.{Waker}
use local_sync.Semaphore.Word.{max_permits}
use local_sync.Semaphore.Inner.{is_closed, available_permits}
use local_sync.Semaphore.Acquire
use local_sync.Semaphore.Acquire.{Acquire, ready, pending}
use local_sync.Semaphore.WellFormed.{try_acquire_cases}
use local_sync.Semaphore.Queued.{drop_idle}
use local_sync.Semaphore.System
use local_sync.Semaphore.System.{System, Op, step}
use local_sync.Semaphore.System.Inv.{Inv, available_held}
use local_sync.Semaphore.System.Adjust.{Inv-futures, Inv-forget}
use local_sync.Semaphore.System.Calls.{Good, release_call, close_call, start_call, spend_call}
use local_sync.Semaphore.System.Drops.{drop_call}
use local_sync.Semaphore.System.Polls.{AfterPoll, poll_call}

module _ {c : System} {ws : List Ptr} (i : Inv c ws) (fuel : ℕ)
    (enough : length c.live + 1 < fuel) where
  pub give_back-Good : (n : ℕ) → Returns Good (step fuel (System.give_back n) c)
  unfolding step
  give_back-Good n = elim (dec_le n c.held) [
    | yes h ↦ rw (le→leb n c.held h) (
        Returns-bind
          (release_call i fuel enough n (c.held - n) c.capacity
            (omega (arith, available_held i, i.limit)) (omega arith) i.limit)
          λ t (g, _). returns g)
    | no h ↦ rw (lt→leb n c.held (omega arith)) (returns (ws, i))
  ]

  pub add-Good : (n : ℕ) → Returns Good (step fuel (System.add n) c)
  unfolding step
  add-Good n = elim (dec_le (c.capacity + n) max_permits) [
    | yes h ↦ rw (le→leb (c.capacity + n) max_permits h) (
        Returns-bind
          (release_call i fuel enough n c.held (c.capacity + n) (omega arith) (omega arith) h)
          λ t (g, _). returns g)
    | no h ↦ rw (lt→leb (c.capacity + n) max_permits (omega arith)) (returns (ws, i))
  ]

  pub forget-Good : (n : ℕ) → Returns Good (step fuel (System.forget n) c)
  unfolding step
  forget-Good n = elim (dec_le n c.held) [
    | yes h ↦ rw (le→leb n c.held h) (
        returns (
          ws,
          Inv-forget i (c.held - n) (c.capacity - n) (omega arith)
              (omega (arith, available_held i)),
        ))
    | no h ↦ rw (lt→leb n c.held (omega arith)) (returns (ws, i))
  ]

  pub close-Good : Returns Good (step fuel System.close c)
  unfolding step
  close-Good = Returns-bind (close_call i fuel enough) λ t (g, _). returns g

  pub try_acquire-Good : (n : ℕ) → Returns Good (step fuel (System.try_acquire n) c)
  unfolding step
  try_acquire-Good n = elim (dec_le n max_permits) [
    | no h ↦ rw (lt→leb n max_permits (omega arith)) (returns (ws, i))
    | yes h ↦
        rw (le→leb n max_permits h, (try_acquire_cases n c.sem).1 h)
          (elim (Bool-cases (is_closed c.sem)) [
            | inl shut ↦ rw shut (returns (ws, i))
            | inr free ↦ rw free (elim (dec_le n (available_permits c.sem)) [
              | no few ↦ rw (lt→ltb (available_permits c.sem) n (omega arith)) (returns (ws, i))
              | yes room ↦
                  rw (le→ltb (available_permits c.sem) n room)
                    (returns (ws, spend_call i fuel enough n room free))
            ])
          ])
  ]

  pub start-Good : (p : Ptr) (n : ℕ) → Returns Good (step fuel (System.start p n) c)
  unfolding step
  start-Good p n = elim (Bool-cases (has p c.live)) [
    | inl there ↦ rw there (returns (ws, i))
    | inr out ↦ rw out (elim (dec_le (2 ^ 32) n) [
      | yes big ↦ rw (le→ltb n (2 ^ 32) big) (returns (ws, i))
      | no small ↦
          rw (lt→ltb n (2 ^ 32) (omega arith))
            (returns (ws, start_call i fuel enough p n out (omega arith)))
    ])
  ]

  pub drop-Good : (p : Ptr) → Returns Good (step fuel (System.drop p) c)
  unfolding step
  drop-Good p = elim (Bool-cases (has p c.live)) [
    | inl here ↦ rw here (Returns-bind (drop_call i fuel enough p here) λ t (g, _). returns g)
    | inr out ↦ rw out (returns (ws, i))
  ]

  polled-Good :
      (p : Ptr) (r : Acquire.Polled) (a : Acquire)
      → AfterPoll c p (r, a)
      → Returns Good (System.polled fuel p c r.0 r.1 a)
  polled-Good p (pending, t) a ((g, _, _), _) = returns g
  polled-Good p (ready (err e), t) a (_, same, own) =
      rw (same, own) (returns (ws, Inv-futures i _ λ q _. ground arith))
  polled-Good p (ready (ok u), t) a ((g, _, _), own) =
      rw (drop_idle fuel p a t (ap (λ (b : Acquire). b.queued) own)) (returns g)

  pub poll-Good : (cx : Waker) (p : Ptr) → Returns Good (step fuel (System.poll cx p) c)
  unfolding step
  poll-Good cx p = elim (Bool-cases (has p c.live)) [
    | inl here ↦
        rw here (
          Returns-bind (poll_call i fuel enough cx p here)
            λ ((r, t), a) g. polled-Good p (r, t) a g)
    | inr out ↦ rw out (returns (ws, i))
  ]
