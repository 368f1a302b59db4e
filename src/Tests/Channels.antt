-- ===== src/Tests/Channels.antt =====
-- The theorems on src/mpsc/bounded.rs and src/mpsc/unbounded.rs at concrete channels.
use local_sync.Semaphore.WellFormed.{WellFormed}
use local_sync.Mpsc.Bounded.Handover.{HandsOver}
use local_sync.Prelude.{
  some, inr, ◌∷◌, [], ℕ, ◌+◌, ◌<◌, ◌≤◌, ◌≡◌, refl, none, List, ◌++◌, arith, length, Outcome, done,
  Returns,
}
use local_sync.LinkedList
use local_sync.LinkedList.{Ptr, unlinked}
use local_sync.Semaphore.Inner
use local_sync.Semaphore.Inner.{Waiter, waiter, available_permits}
use local_sync.Semaphore.Acquire
use local_sync.Mpsc.Order.{Holds}
use local_sync.Mpsc.Bounded
use local_sync.Mpsc.Bounded.Runs.{Run, send, recv, step, Reach, here, later}
use local_sync.Mpsc.Bounded.Flow.{Reach-HandsOver, new_run, Reach-order, step-Reach}

abbrev blank : Ptr → Waiter
blank q = waiter 0

-- A channel for one value at a time
abbrev single : Run ℕ
single = new_run (λ a. none) 0 blank (λ q. unlinked) (λ q. refl) 1 (omega arith)

abbrev after : Outcome (Run ℕ) → Run ℕ
after (done r) = r
after m = single

-- The value 5 is sent, the send of 6 waits.
abbrev filled : Run ℕ
filled = after (step 6 (send 30 7 5) single)

abbrev stuck : Run ℕ
stuck = after (step 6 (send 31 8 6) filled)

stuck-Reach : Reach 1 single stuck
unfolding step Bounded.poll_send Acquire.poll Acquire.poll_acquire Acquire.new Bounded.channel
    Inner.new Acquire.drop Inner.is_closed Inner.assign_permits LinkedList.push_front LinkedList.new
stuck-Reach =
    later 6 (send 31 8 6) (later 6 (send 30 7 5) here (omega arith) refl) (omega arith) refl

stuck_few : length stuck.live + 1 + 2 < 6
unfolding step Bounded.poll_send Acquire.poll Acquire.poll_acquire Acquire.new Bounded.channel
    Inner.new Acquire.drop Inner.is_closed Inner.assign_permits LinkedList.push_front LinkedList.new
stuck_few = omega arith

Reach-order_example :
    (xs : List ℕ) × Holds stuck.chan.queue xs
    × (stuck.accepted ≡ stuck.taken ++ xs)
    × (available_permits stuck.chan.semaphore + length xs ≤ 1)
Reach-order_example =
    Reach-order (λ a. none) 0 blank (λ q. unlinked) (λ q. refl) 1 (omega arith) stuck stuck-Reach

step-Reach_example : Returns (Reach 1 single) (step 6 (recv 32) stuck)
step-Reach_example =
    step-Reach (λ a. none) 0 blank (λ q. unlinked) (λ q. refl) 1 (omega arith) stuck 6 (recv 32)
      stuck-Reach stuck_few

stuck-WellFormed : WellFormed stuck.chan.semaphore (8 ∷ [])
unfolding step Bounded.poll_send Acquire.poll Acquire.poll_acquire Acquire.new Bounded.channel
    Inner.new Acquire.drop Inner.is_closed Inner.assign_permits LinkedList.push_front LinkedList.new
stuck-WellFormed = record {
  waits = record {
    fifo = record {
      list = record { head = refl; tail = refl; chain = (refl, refl, tt); distinct = (refl, tt) };
      clean = λ p out. ground arith;
    };
    needy = (omega arith, tt);
  };
  fits = omega arith;
  busy = inr refl;
  flag = refl;
}

stuck_value : 0 < stuck.chan.queue.len
unfolding step Bounded.poll_send Acquire.poll Acquire.poll_acquire Acquire.new Bounded.channel
    Inner.new Acquire.drop Inner.is_closed Inner.assign_permits LinkedList.push_front LinkedList.new
stuck_value = omega arith

stuck-waker : (stuck.chan.semaphore.nodes 8).waker ≡ some 31
unfolding step Bounded.poll_send Acquire.poll Acquire.poll_acquire Acquire.new Bounded.channel
    Inner.new Acquire.drop Inner.is_closed Inner.assign_permits LinkedList.push_front LinkedList.new
stuck-waker = refl

Reach-HandsOver_example : Returns (HandsOver stuck 8 31 33 6 6) (Bounded.poll_recv 6 32 stuck.chan)
Reach-HandsOver_example =
    Reach-HandsOver (λ a. none) 0 blank (λ q. unlinked) (λ q. refl) 1 (omega arith) stuck 8 [] 31 32
      33 6 6 stuck-Reach stuck_value stuck-WellFormed stuck-waker (omega (arith, stuck_few))
