-- ===== src/Semaphore/System/Safe.antt =====
-- What holds of every semaphore of src/semaphore.rs that clients can bring about.
use local_sync.Prelude.{
  ℕ, ◌+◌, ◌≤◌, ◌<◌, ◌≡◌, [], arith, length, Returns, returns, Returns-value, Returns-done,
}
use local_sync.LinkedList.{Ptr, Links, unlinked}
use local_sync.Semaphore.Word.{max_permits}
use local_sync.Semaphore.Inner
use local_sync.Semaphore.Inner.{Waiter, available_permits, is_closed}
use local_sync.Semaphore.WellFormed.{new-WellFormed}
use local_sync.Semaphore.System
use local_sync.Semaphore.System.{System, Op, step, initial, Reach, here, later}
use local_sync.Semaphore.System.Inv.{available_held}
use local_sync.Semaphore.System.Calls.{Good}
use local_sync.Semaphore.System.Steps.{
  start-Good, poll-Good, drop-Good, try_acquire-Good, give_back-Good, add-Good, forget-Good,
  close-Good,
}

step-Good :
    (fuel : ℕ) (op : Op) (c : System)
    → length c.live + 1 < fuel
    → Good c
    → Returns Good (step fuel op c)
step-Good fuel (System.start p n) c enough (ws, i) = start-Good i fuel enough p n
step-Good fuel (System.poll cx p) c enough (ws, i) = poll-Good i fuel enough cx p
step-Good fuel (System.drop p) c enough (ws, i) = drop-Good i fuel enough p
step-Good fuel (System.try_acquire n) c enough (ws, i) = try_acquire-Good i fuel enough n
step-Good fuel (System.give_back n) c enough (ws, i) = give_back-Good i fuel enough n
step-Good fuel (System.add n) c enough (ws, i) = add-Good i fuel enough n
step-Good fuel (System.forget n) c enough (ws, i) = forget-Good i fuel enough n
step-Good fuel System.close c enough (ws, i) = close-Good i fuel enough

module _ (nodes : Ptr → Waiter) (links : Links) (clean : (p : Ptr) → links p ≡ unlinked) (n : ℕ)
    (small : n ≤ max_permits) where
  abbrev pub new_system : System
  new_system = initial (Inner.new nodes links n) n

  pub new_system-Good : Good new_system
  new_system-Good =
      let (wf, all, free) = new-WellFormed nodes links n clean in
      (
        [],
        record {
          wf = wf;
          distinct = tt;
          waiting = λ q h. cc;
          waker = λ q h. cc;
          future = λ q h. cc;
          served = λ q h. cc;
          sum = omega (arith, all);
          limit = small;
        },
      )

  -- Over nodes with cleared pointers and at most the maximum of permits, whatever clients of a new
  -- semaphore do, in whatever order, the invariant holds of the semaphore and all its futures:
  -- those in the queue are live and marked as queued, once each, with a waker; a queued future off
  -- the queue of an open semaphore needs nothing more; and the permits available, those that
  -- futures were assigned and those that clients hold are together all there are.
  pub Reach-Good : {c : System} → Reach new_system c → Good c
  Reach-Good here = new_system-Good
  Reach-Good (later fuel op r enough e) =
      Returns-value (step-Good fuel op _ enough (Reach-Good r)) e

  -- From every such state every operation returns, given fuel for each live future, to such a state
  -- again: no assertion fails, no subtraction goes below zero and no loop runs on.
  pub Reach-step :
      (c : System) (fuel : ℕ) (op : Op)
      → Reach new_system c
      → length c.live + 1 < fuel
      → Returns (Reach new_system) (step fuel op c)
  Reach-step c fuel op r enough =
      let (d, e, g) = Returns-done (step-Good fuel op c enough (Reach-Good r)) in
      rw e (returns (later fuel op r enough e))

  -- Over nodes with cleared pointers and at most the maximum of permits, whatever clients of a new
  -- semaphore do, the permits available and those that clients hold are together no more than there
  -- are.
  pub Reach-held_le :
      (c : System) → Reach new_system c → available_permits c.sem + c.held ≤ c.capacity
  Reach-held_le c r = let (ws, i) = Reach-Good r in available_held i
