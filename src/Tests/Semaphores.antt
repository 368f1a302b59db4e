-- ===== src/Tests/Semaphores.antt =====
-- The theorems on src/semaphore.rs at concrete semaphores.
use local_sync.Prelude.{
  ◌+◌, ◌≡◌, refl, inl, inr, true, false, none, some, [], ◌∷◌, arith, ◌==◌, if◌then◌else◌, done, ok,
  Returns,
}
use local_sync.LinkedList.{Ptr, Links, unlinked}
use local_sync.Semaphore.Inner
use local_sync.Semaphore.Inner.{
  Inner, TryAcquireError, Waiter, waiter, available_permits, is_closed,
}
use local_sync.Semaphore.Release.{release, add_permits}
use local_sync.Semaphore.Acquire
use local_sync.Semaphore.Acquire.{Acquire}
use local_sync.Semaphore.Serve.{serve, served_wakers}
use local_sync.Semaphore.Grants.{Granted, GrantedBy, add_permits-serve}
use local_sync.Semaphore.Fair.{serve-rem_le}
use local_sync.Semaphore.WellFormed.{WellFormed, Closed, new-WellFormed, close-Closed}
use local_sync.Semaphore.Handout.{HandedOut, release-HandedOut}
use local_sync.Semaphore.Futures.{IsFresh}
use local_sync.Semaphore.Public.{try_acquire_many, drop_permit}
use local_sync.Semaphore.Permits.{try_acquire_many-drop_permit}
use local_sync.Semaphore.Queued.{poll_served, drop_waiting}

-- Two futures wait: the one at address 1 for two more permits, then the one at 2 for one more. The
-- ones at 3 and 4 do not wait: 3 has all it asked for, 4 asks for five.
abbrev busy_links : Links
busy_links q =
    if q == 1
    then record { prev = some 2; next = none }
    else if q == 2
    then record { prev = none; next = some 1 }
    else unlinked

abbrev busy_nodes : Ptr → Waiter
busy_nodes q =
    if q == 1
    then record { state = 2; waker = some 11 }
    else if q == 2
    then record { state = 1; waker = some 12 }
    else if q == 4
    then waiter 5
    else waiter 0

abbrev busy : Inner
busy = record {
  permits = 0;
  queue = record { head = some 2; tail = some 1; links = busy_links };
  closed = false;
  nodes = busy_nodes;
  woken = [];
}

busy-WellFormed : WellFormed busy (1 ∷ 2 ∷ [])
busy-WellFormed = record {
  waits = record {
    fifo = record {
      list = record {
        head = refl;
        tail = refl;
        chain = (refl, refl, (refl, refl, tt));
        distinct = (refl, (refl, tt));
      };
      clean = λ p out. ground arith;
    };
    needy = (omega arith, (omega arith, tt));
  };
  fits = omega arith;
  busy = inr refl;
  flag = refl;
}

-- Three permits, nobody waits.
abbrev idle : Inner
idle = record {
  permits = 6;
  queue = record { head = none; tail = none; links = λ q. unlinked };
  closed = false;
  nodes = busy_nodes;
  woken = [];
}

idle-WellFormed : WellFormed idle []
idle-WellFormed = record {
  waits = record {
    fifo = record {
      list = record { head = refl; tail = refl; chain = tt; distinct = tt };
      clean = λ p out. refl;
    };
    needy = tt;
  };
  fits = omega arith;
  busy = inl refl;
  flag = refl;
}

add_permits-serve_example : Returns (Granted 3 busy (1 ∷ 2 ∷ [])) (add_permits 4 3 busy)
add_permits-serve_example =
    add_permits-serve 4 3 busy (1 ∷ 2 ∷ []) busy-WellFormed.waits (omega arith)
      (omega (arith, serve-rem_le 3 busy.nodes (1 ∷ 2 ∷ []))) (omega arith)

release-HandedOut_example : Returns (HandedOut 3 busy (1 ∷ 2 ∷ [])) (release 4 3 busy)
release-HandedOut_example =
    release-HandedOut 4 3 busy (1 ∷ 2 ∷ []) busy-WellFormed (omega arith) (omega arith)
      (omega arith)

close-Closed_example : Returns (Closed busy (1 ∷ 2 ∷ [])) (Inner.close 3 busy)
close-Closed_example = close-Closed 3 busy (1 ∷ 2 ∷ []) busy-WellFormed (omega arith)

new-WellFormed_example :
    WellFormed (Inner.new busy_nodes (λ q. unlinked) 3) []
    × (available_permits (Inner.new busy_nodes (λ q. unlinked) 3) ≡ 3)
    × (is_closed (Inner.new busy_nodes (λ q. unlinked) 3) ≡ false)
new-WellFormed_example = new-WellFormed busy_nodes (λ q. unlinked) 3 (λ p. refl)

abbrev fresh_five : Acquire
fresh_five = record { num_permits = 5; queued = false }

five-IsFresh : IsFresh fresh_five 4 idle []
five-IsFresh = record { idle = refl; absent = refl; whole = refl; small = omega arith }

abbrev idle_two : Inner
idle_two = record idle { nodes = λ q. waiter 2 }

abbrev fresh_two : Acquire
fresh_two = record { num_permits = 2; queued = false }

abbrev waiting_three : Acquire
waiting_three = record { num_permits = 3; queued = true }

poll_served_example :
    Returns
      (λ ((r, t), b).
        (r ≡ Acquire.ready (ok tt))
        × (b ≡ record waiting_three { queued = false })
        × WellFormed t (1 ∷ 2 ∷ [])
        × (t.permits ≡ 0)
        × ((q : Ptr) → t.nodes q ≡ busy.nodes q))
      (Acquire.poll 4 9 3 waiting_three busy)
unfolding is_closed available_permits
poll_served_example =
    poll_served 4 9 3 waiting_three busy (1 ∷ 2 ∷ []) busy-WellFormed refl refl refl refl
      (omega arith) (omega arith)

drop_waiting_example :
    Returns
      (λ t.
        GrantedBy (serve 1 busy.nodes (2 ∷ [])) (served_wakers 1 busy.nodes (2 ∷ [])) busy t
        × WellFormed t (serve 1 busy.nodes (2 ∷ [])).left)
      (Acquire.drop 3 1 waiting_three busy)
drop_waiting_example =
    drop_waiting 3 1 waiting_three busy [] (2 ∷ []) busy-WellFormed refl (omega arith) (omega arith)
      (omega arith)

abbrev shut : Inner
shut = record idle { permits = 7; closed = true }

try_acquire_many-drop_permit_example :
    (t : Inner) × (try_acquire_many 2 idle ≡ done (ok (record { permits = 2 }), t))
    × (available_permits t + 2 ≡ available_permits idle)
    × Returns (λ u. (u.permits ≡ 6) × WellFormed u []) (drop_permit 2 (record { permits = 2 }) t)
unfolding is_closed available_permits
try_acquire_many-drop_permit_example =
    try_acquire_many-drop_permit 2 idle [] idle-WellFormed refl (omega arith) (omega arith) 2
      (omega arith)
