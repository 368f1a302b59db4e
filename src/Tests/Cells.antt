-- ===== src/Tests/Cells.antt =====
-- The theorems on src/once_cell.rs at concrete cells.
use mathlib.Core.List.{Mem}
use local_sync.Prelude.{
  true, err, some, ℕ, Result, inr, ◌++◌, ◌∷◌, [], ◌≡◌, refl, false, none, arith, length, ◌+◌, ◌<◌,
  Outcome, done, ok, Returns, Returns-value,
}
use local_sync.LinkedList.{Ptr, unlinked}
use local_sync.Semaphore.Inner
use local_sync.Semaphore.Inner.{Waiter, waiter}
use local_sync.Semaphore.Acquire
use local_sync.Semaphore.Acquire.{Poll, ready, pending}
use local_sync.Semaphore.Public
use local_sync.Semaphore.Public.{AcquireResult}
use local_sync.WakeList.{Waker}
use local_sync.Semaphore.Serve.{all_wakers}
use local_sync.Semaphore.WellFormed.{WellFormed}
use local_sync.OnceCell.Wakes.{poll_try-wakes}
use local_sync.LinkedList
use local_sync.OnceCell
use local_sync.OnceCell.{OnceCell, new_with, get, into_inner}
use local_sync.OnceCell.Init.{acquiring, drop_task, starting, running, poll_try_init, poll_init}
use local_sync.OnceCell.Handover.{Takes, drop_task-Takes, poll_try-Takes}
use local_sync.OnceCell.Same.{ok_run, ok_poll, poll_init-poll_try_init}
use local_sync.OnceCell.Runs
use local_sync.OnceCell.Runs.{Run, Op, start, poll_try, set, step, initial, Reach, here, later}
use local_sync.OnceCell.Turn.{Reply}
use local_sync.OnceCell.Fine.{Fine}
use local_sync.OnceCell.Set.{SetAfter, set_turn, new_with-Fine}
use local_sync.OnceCell.Life.{Lives, made, shared, taken, Lives-Kept}
use local_sync.OnceCell.History.{Kept, poll_try-Reply, Reach-Kept, Reach-Returns, Reach-running}

abbrev seven : Ptr
seven = 7

abbrev blank : Ptr → Waiter
blank q = waiter 0

abbrev fresh : OnceCell ℕ
fresh = OnceCell.new blank (λ q. unlinked)

abbrev before : Run ℕ
before = initial fresh

before-Fine : Fine before
unfolding new_with
before-Fine =
    (Returns-value (new_with-Fine blank (λ q. unlinked) (λ q. refl) 2 (omega arith) none) refl).0

abbrev after : Outcome (Run ℕ) → Run ℕ
after (done r) = r
after m = before

-- A task starts at the address 7, and its first poll takes the permit.
abbrev started : Run ℕ
started = after (step {E = ℕ} 5 (start 7) before)

abbrev at_work : Run ℕ
at_work = after (step {E = ℕ} 5 (poll_try 30 7 pending) started)

at_work-Reach : Reach ℕ before at_work
unfolding step poll_try_init OnceCell.new Public.poll_result Acquire.poll Acquire.poll_acquire
    Public.acquire Acquire.new Public.new Inner.new Acquire.drop
at_work-Reach =
    later 5 (poll_try 30 7 pending) (later 5 (start 7) here (omega arith) refl) (omega arith) refl

at_work_few : length at_work.waiting + 2 < 5
unfolding step poll_try_init OnceCell.new Public.poll_result Acquire.poll Acquire.poll_acquire
    Public.acquire Acquire.new Public.new Inner.new Acquire.drop
at_work_few = omega arith

at_work-running : at_work.tasks 7 ≡ running (record { permits = 1 })
unfolding step poll_try_init OnceCell.new Public.poll_result Acquire.poll Acquire.poll_acquire
    Public.acquire Acquire.new Public.new Inner.new Acquire.drop
at_work-running = refl

set_turn_example : Returns (SetAfter before 5) (OnceCell.set 5 5 fresh)
set_turn_example = set_turn before before-Fine 5 (omega arith) 5

poll_init-poll_try_init_example :
    ok_run ℕ (poll_init 5 30 7 (ready 5) starting fresh)
    ≡ poll_try_init 5 30 7 (ok_poll ℕ (ready 5)) starting fresh
poll_init-poll_try_init_example = poll_init-poll_try_init ℕ 5 30 7 (ready 5) starting fresh

-- A cell is made, set and emptied.
emptied-Lives : Lives ℕ before
unfolding step OnceCell.new new_with OnceCell.take OnceCell.into_inner OnceCell.drop OnceCell.set
    Public.try_acquire Inner.try_acquire Public.new Inner.new Public.close Inner.close
    Inner.close_loop LinkedList.pop_back LinkedList.new Public.forget
    local_sync.Semaphore.Release.release
emptied-Lives =
    taken blank (λ q. unlinked) (λ q. refl)
      (shared (made 2 blank (λ q. unlinked) none (λ q. refl) (omega arith) refl)
        (later 5 (set 5) here (omega arith) refl))
      (λ q. refl) refl

Lives-Kept_example : Kept before at_work
Lives-Kept_example = Lives-Kept before at_work emptied-Lives at_work-Reach

Reach-Returns_example : Returns (Reach ℕ before) (step {E = ℕ} 5 (set 5) at_work)
Reach-Returns_example = Reach-Returns before before-Fine at_work 5 (set 5) at_work-Reach at_work_few

Reach-running_example : (seven ≡ 7) × (at_work.cell.value ≡ none)
Reach-running_example =
    Reach-running before before-Fine at_work 7 7 (record { permits = 1 }) (record { permits = 1 })
      at_work-Reach at_work-running at_work-running

at_work_more : Runs.is_finished (at_work.tasks 7) ≡ false
unfolding step poll_try_init OnceCell.new Public.poll_result Acquire.poll Acquire.poll_acquire
    Public.acquire Acquire.new Public.new Inner.new Acquire.drop
at_work_more = refl

poll_try-Reply_example :
    Returns
      (λ x. Reply true (ready (ok 5)) at_work.cell x × Kept at_work (Runs.polled 7 at_work x))
      (poll_try_init {E = ℕ} 5 31 7 (ready (ok 5)) (at_work.tasks 7) at_work.cell)
unfolding step poll_try_init OnceCell.new Public.poll_result Acquire.poll Acquire.poll_acquire
    Public.acquire Acquire.new Public.new Inner.new Acquire.drop
poll_try-Reply_example =
    poll_try-Reply at_work (Reach-Kept before before-Fine at_work at_work-Reach).0 5 at_work_few 31
      7 (ready (ok 5)) at_work_more

-- A second task waits at the address 8.
abbrev joined : Run ℕ
joined = after (step {E = ℕ} 6 (start 8) at_work)

abbrev crowded : Run ℕ
crowded = after (step {E = ℕ} 6 (poll_try 31 8 pending) joined)

crowded-Reach : Reach ℕ before crowded
unfolding step poll_try_init OnceCell.new Public.poll_result Acquire.poll Acquire.poll_acquire
    Public.acquire Acquire.new Public.new Inner.new Acquire.drop Inner.assign_permits
    LinkedList.push_front LinkedList.new
crowded-Reach =
    later 6 (poll_try 31 8 pending) (later 6 (start 8) at_work-Reach (omega arith) refl)
      (omega arith) refl

crowded-WellFormed : WellFormed crowded.cell.semaphore (8 ∷ [])
unfolding step poll_try_init OnceCell.new Public.poll_result Acquire.poll Acquire.poll_acquire
    Public.acquire Acquire.new Public.new Inner.new Acquire.drop Inner.assign_permits
    LinkedList.push_front LinkedList.new
crowded-WellFormed = record {
  waits = record {
    fifo = record {
      list = record { head = refl; tail = refl; chain = (refl, refl, tt); distinct = (refl, tt) };
      clean = λ p out. ground arith;
    };
    needy = (omega arith, tt);
  };
  fits = omega arith;
  busy = inr refl;
  flag = refl;
}

crowded_few : length crowded.waiting + 3 < 6
unfolding step poll_try_init OnceCell.new Public.poll_result Acquire.poll Acquire.poll_acquire
    Public.acquire Acquire.new Public.new Inner.new Acquire.drop Inner.assign_permits
    LinkedList.push_front LinkedList.new
crowded_few = omega arith

crowded-running : crowded.tasks 7 ≡ running (record { permits = 1 })
unfolding step poll_try_init OnceCell.new Public.poll_result Acquire.poll Acquire.poll_acquire
    Public.acquire Acquire.new Public.new Inner.new Acquire.drop Inner.assign_permits
    LinkedList.push_front LinkedList.new
crowded-running = refl

poll_try-wakes_example :
    Returns
      (λ x.
        (x.0 ≡ ready (ok 5))
        × (x.2.semaphore.woken
            ≡ crowded.cell.semaphore.woken ++ all_wakers crowded.cell.semaphore.nodes (8 ∷ []))
        × ((q : Ptr) (cy : Waker) (answer : Poll (Result ℕ ℕ))
            → Runs.is_finished ((Runs.polled 7 crowded x).tasks q) ≡ false
            → Returns
                (λ y. y.0 ≡ ready (ok 5))
                (poll_try_init 6 cy q answer ((Runs.polled 7 crowded x).tasks q) x.2)))
      (poll_try_init {E = ℕ} 6 40 7 (ready (ok 5)) (crowded.tasks 7) crowded.cell)
poll_try-wakes_example =
    poll_try-wakes crowded 5 6 40 7 (record { permits = 1 }) (8 ∷ [])
      (Reach-Kept before before-Fine crowded crowded-Reach).0 crowded-running crowded-WellFormed
      (omega arith) crowded_few

crowded_enough : length crowded.waiting + 2 < 6
crowded_enough = omega (arith, crowded_few)

-- What the task at the address 8 awaits
abbrev awaited : AcquireResult
awaited = record { acquire = record { num_permits = 1; queued = true }; permits = 1 }

crowded-waits : crowded.tasks 8 ≡ acquiring awaited
unfolding step poll_try_init OnceCell.new Public.poll_result Acquire.poll Acquire.poll_acquire
    Public.acquire Acquire.new Public.new Inner.new Acquire.drop Inner.assign_permits
    LinkedList.push_front LinkedList.new
crowded-waits = refl

crowded-waker : (crowded.cell.semaphore.nodes 8).waker ≡ some 31
unfolding step poll_try_init OnceCell.new Public.poll_result Acquire.poll Acquire.poll_acquire
    Public.acquire Acquire.new Public.new Inner.new Acquire.drop Inner.assign_permits
    LinkedList.push_front LinkedList.new
crowded-waker = refl

crowded-runs : crowded.tasks 7 ≡ running (record { permits = 1 })
unfolding step poll_try_init OnceCell.new Public.poll_result Acquire.poll Acquire.poll_acquire
    Public.acquire Acquire.new Public.new Inner.new Acquire.drop Inner.assign_permits
    LinkedList.push_front LinkedList.new
crowded-runs = refl

crowded-Fine : Fine crowded
crowded-Fine = (Reach-Kept before before-Fine crowded crowded-Reach).0

drop_task-Takes_example :
    Returns
      (λ c.
        Mem 31 c.semaphore.woken
        × Returns
            (Takes {E = ℕ} awaited crowded.cell)
            (poll_try_init {E = ℕ} 6 32 8 pending (crowded.tasks 8) c))
      (drop_task 6 7 (crowded.tasks 7) crowded.cell)
drop_task-Takes_example =
    drop_task-Takes crowded 7 8 (record { permits = 1 }) awaited [] 31 32 6 crowded-Fine
      crowded-WellFormed crowded-runs crowded-waits crowded-waker crowded_enough ℕ

poll_try-Takes_example :
    Returns
      (λ (res, t, c).
        (res ≡ ready (err 9))
        × Mem 31 c.semaphore.woken
        × Returns
            (Takes {E = ℕ} awaited crowded.cell)
            (poll_try_init {E = ℕ} 6 32 8 pending (crowded.tasks 8) c))
      (poll_try_init {E = ℕ} 6 33 7 (ready (err 9)) (crowded.tasks 7) crowded.cell)
poll_try-Takes_example =
    poll_try-Takes crowded 7 8 (record { permits = 1 }) awaited [] 31 32 6 crowded-Fine
      crowded-WellFormed crowded-runs crowded-waits crowded-waker crowded_enough 9 33
