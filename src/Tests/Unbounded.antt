-- ===== src/Tests/Unbounded.antt =====
-- The theorems on the handles of src/mpsc/unbounded.rs at concrete histories.
use local_sync.Prelude.{
  ℕ, ◌≡◌, ◌<◌, refl, none, List, arith, Outcome, done, panic, fault, out_of_fuel, Returns,
}
use local_sync.Mpsc.Chan.{unlimited_permits}
use local_sync.Mpsc.Handles
use local_sync.Mpsc.Unbounded.Runs
use local_sync.Mpsc.Unbounded.Runs.{Run, Reach, start, after, step, opened, rx_rc}
use local_sync.Mpsc.Unbounded.Flow.{Sound, step-Run, Reach-Sound}
use local_sync.Mpsc.Unbounded.Wakes.{
  Answer, SendWakes, DropWakes, recv-Answer, Reach-SendWakes, Reach-DropWakes,
}

abbrev fresh_run : Run ℕ
fresh_run = opened (λ _. none) 0

-- The run that a step leads to
abbrev then_run : Outcome (Run ℕ) → Run ℕ
then_run (done r) = r
then_run panic = fresh_run
then_run fault = fresh_run
then_run out_of_fuel = fresh_run

-- 42 is sent.
abbrev one_sent : Run ℕ
one_sent = then_run (step 0 1 (Runs.send 42) fresh_run)

-- The receiver waits as task 3.
abbrev asleep : Run ℕ
asleep = then_run (step 0 1 (Runs.recv 3) fresh_run)

one_sent-Reach : Reach one_sent
unfolding opened step
one_sent-Reach = after 0 1 (Runs.send 42) (start (λ _. none) 0) (omega arith) (omega arith) refl

asleep-Reach : Reach asleep
unfolding opened step
asleep-Reach = after 0 1 (Runs.recv 3) (start (λ _. none) 0) (omega arith) (omega arith) refl

step-Run_example : Returns Reach (step 1 1 Runs.drop_rx one_sent)
unfolding step opened
step-Run_example = step-Run one_sent 1 1 Runs.drop_rx one_sent-Reach (omega arith) (omega arith)

Reach-Sound_example : (xs : List ℕ) × Sound one_sent xs
Reach-Sound_example = Reach-Sound one_sent one_sent-Reach

recv-Answer_example :
    Returns (Answer 3 one_sent) (Handles.recv unlimited_permits rx_rc 3 one_sent.shared)
unfolding step opened
recv-Answer_example = recv-Answer 3 one_sent one_sent-Reach refl

Reach-SendWakes_example :
    (asleep.shared.chan.queue.len ≡ 0) × (0 < asleep.txs) × SendWakes 3 4 42 asleep
unfolding step opened
Reach-SendWakes_example = Reach-SendWakes 3 4 42 asleep asleep-Reach refl refl refl

Reach-DropWakes_example : DropWakes 3 4 0 1 asleep
unfolding step opened
Reach-DropWakes_example = Reach-DropWakes 3 4 0 1 asleep asleep-Reach refl refl refl
