-- ===== src/Tests/Systems.antt =====
-- The theorems on systems of src/semaphore.rs at concrete systems.
use mathlib.Core.List.{Mem}
use local_sync.Prelude.{
  ◌+◌, refl, inr, true, false, some, none, [], ◌∷◌, arith, ◌==◌, if◌then◌else◌, Outcome, done,
  length, ◌<◌, Returns,
}
use local_sync.LinkedList
use local_sync.LinkedList.{Ptr, unlinked}
use local_sync.Semaphore.Inner
use local_sync.Semaphore.Inner.{Inner, Waiter, waiter, available_permits, is_closed}
use local_sync.Semaphore.Acquire
use local_sync.Semaphore.Acquire.{Acquire}
use local_sync.Semaphore.Owned.{starting, AfterFirst, poll_many_owned, poll_many_owned-AfterFirst}
use local_sync.Semaphore.System
use local_sync.Semaphore.System.{System, Op, step, initial, Reach, here, later}
use local_sync.Semaphore.System.Inv.{Inv}
use local_sync.Semaphore.System.Calls.{Good}
use local_sync.Semaphore.System.Safe.{new_system, Reach-Good, Reach-step}
use local_sync.Semaphore.System.Liveness.{Acquired, oldest-Acquired}

abbrev blank : Ptr → Waiter
blank q = waiter 0

-- Three permits
abbrev three : System
three = new_system blank (λ q. unlinked) (λ q. refl) 3 (omega arith)

-- A client makes a future for two permits at the address 7, another takes two at once, and the
-- future waits.
abbrev made : System
made = System.started 7 2 three

abbrev taken : System
taken = record made { sem = record made.sem { permits = 2 }; held = 2 }

abbrev after : Outcome System → System
after (done c) = c
after m = three

abbrev parked : System
parked = after (step 5 (System.poll 30 7) taken)

parked-Reach : Reach three parked
unfolding step Acquire.new Inner.try_acquire Inner.new Acquire.poll Acquire.poll_acquire
    Inner.assign_permits LinkedList.push_front LinkedList.new
parked-Reach =
    later 5 (System.poll 30 7)
      (later 5 (System.try_acquire 2) (later 5 (System.start 7 2) here (omega arith) refl)
        (omega arith) refl)
      (omega arith) refl

parked_few : length parked.live + 1 < 5
unfolding step Acquire.new Inner.try_acquire Inner.new Acquire.poll Acquire.poll_acquire
    Inner.assign_permits LinkedList.push_front LinkedList.new
parked_few = omega arith

Reach-Good_example : Good parked
Reach-Good_example = Reach-Good blank (λ q. unlinked) (λ q. refl) 3 (omega arith) parked-Reach

Reach-step_example : Returns (Reach three) (step 5 (System.give_back 2) parked)
Reach-step_example =
    Reach-step blank (λ q. unlinked) (λ q. refl) 3 (omega arith) parked 5 (System.give_back 2)
      parked-Reach parked_few

-- Two futures wait, the one at address 1 for two permits and the one at 2 for one. A client has three.
abbrev busy : System
busy = record {
  sem = record {
    permits = 0;
    queue = record {
      head = some 2;
      tail = some 1;
      links = λ q.
          if q == 1
          then record { prev = some 2; next = none }
          else if q == 2
          then record { prev = none; next = some 1 }
          else unlinked;
    };
    closed = false;
    nodes = λ q.
        if q == 1
        then record { state = 2; waker = some 11 }
        else if q == 2
        then record { state = 1; waker = some 12 }
        else waiter 0;
    woken = [];
  };
  live = 1 ∷ 2 ∷ [];
  futures = λ q. record { num_permits = if q == 1 then 2 else 1; queued = true };
  held = 3;
  capacity = 3;
}

busy-Inv : Inv busy (1 ∷ 2 ∷ [])
unfolding available_permits is_closed
busy-Inv = record {
  wf = record {
    waits = record {
      fifo = record {
        list = record {
          head = refl;
          tail = refl;
          chain = (refl, refl, (refl, refl, tt));
          distinct = (refl, (refl, tt));
        };
        clean = λ p out. ground arith;
      };
      needy = (omega arith, (omega arith, tt));
    };
    fits = omega arith;
    busy = inr refl;
    flag = refl;
  };
  distinct = (refl, (refl, tt));
  waiting = λ q h. (h, refl);
  waker = λ q h. ground (arith, h);
  future = λ q h. record { need_le = ground arith; small = ground arith; whole = λ idle. cc };
  served = λ q h b out free. cc;
  sum = omega arith;
  limit = omega arith;
}

oldest-Acquired_example :
    Returns
      (λ d. Mem 11 d.sem.woken × Returns (Acquired 1 d) (step 4 (System.poll 40 1) d))
      (step 4 (System.give_back 2) busy)
oldest-Acquired_example =
    oldest-Acquired busy 1 (2 ∷ []) 11 40 2 4 busy-Inv refl (omega arith) (omega arith)
      (omega arith)

poll_many_owned-AfterFirst_example :
    Returns (AfterFirst busy 9 1) (poll_many_owned 5 40 9 1 starting busy.sem)
poll_many_owned-AfterFirst_example =
    poll_many_owned-AfterFirst busy 9 1 refl (1 ∷ 2 ∷ []) 40 5 busy-Inv (omega arith) (omega arith)
