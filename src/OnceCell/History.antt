-- ===== src/OnceCell/History.antt =====
-- What holds of a cell of src/once_cell.rs and its tasks as long as it is shared: whatever tasks start,
-- are polled or dropped, and whatever `set` is called with, in any order.
use local_sync.Prelude.{
  ℕ, ◌+◌, ◌≤◌, ◌<◌, ◌≡◌, refl, sym, ◌∙◌, subst, Bool, true, false, none, arith, has, length,
  Outcome, done, panic, fault, out_of_fuel, Result, Returns, returns, Returns-value, Returns-done,
  Returns-bind, Returns-mono, Returns-if, if◌then◌else◌,
}
use local_sync.Prelude.Members.{delete, length-delete, length-delete_le, one_member}
use local_sync.LinkedList.{Ptr}
use local_sync.WakeList.{Waker}
use local_sync.Semaphore.Acquire.{Poll}
use local_sync.Semaphore.Public.{SemaphorePermit}
use local_sync.Semaphore.System.Inv.{available_held}
use local_sync.OnceCell.Init.{
  Task, starting, acquiring, running, finished, Polled, poll_try_init, poll_init,
}
use local_sync.OnceCell.Same.{ok_run, ok_result, ok_poll, poll_init-poll_try_init}
use local_sync.OnceCell.Runs
use local_sync.OnceCell.Runs.{
  Run, Op, start, poll_try, poll, drop, set, step, place, without, is_finished, is_running, Reach,
  here, later, view,
}
use local_sync.OnceCell.Turn.{rest_Good, nothing, held_unset, Reply, Stable}
use local_sync.OnceCell.Await.{turn, drop_turn}
use local_sync.OnceCell.Fine.{Fine, Belongs, Fine-At, Fine-Others, place-Fine}
use local_sync.OnceCell.Set.{set_turn}

-- A run whose result was marked as a success has the same end.
ok_run-Returns {ℓ κ μ} :
    {T : Type ℓ} (E : Type κ) (P : Polled (Result E T) T → Type μ) (m : Outcome (Polled T T))
    → Returns P (ok_run E m)
    → Returns (λ x. P (ok_result E x)) m
unfolding ok_run
ok_run-Returns E P (done x) (returns p) = returns p
ok_run-Returns E P panic r = let (x, e, _) = Returns-done r in cc
ok_run-Returns E P fault r = let (x, e, _) = Returns-done r in cc
ok_run-Returns E P out_of_fuel r = let (x, e, _) = Returns-done r in cc

-- The invariant holds after, and a cell that was set is as it was.
abbrev pub Kept {ℓ} : {T : Type ℓ} → Run T → Run T → Type ℓ
Kept r s = Fine s × Stable r.cell s.cell

module _ {ℓ} {T : Type ℓ} (r : Run T) (f : Fine r) (fuel : ℕ)
    (enough : length r.waiting + 2 < fuel) where
  fewer : (p : Ptr) → length (delete p r.waiting) + 2 < fuel
  fewer p = omega (arith, enough, length-delete_le p r.waiting)

  -- In a run that meets the invariant, a poll of a task of `get_or_try_init` that is not finished
  -- returns, with fuel for each waiting task, whatever the initializer answers. A value that it
  -- returns is the cell's after, and either was its value before, or the cell had none and the
  -- initializer has answered it; an error is the one that the initializer has answered, and the
  -- cell holds none; and it is pending where the task, which ran no initializer before, waits for a
  -- permit, or where it runs the initializer and that is pending, and the cell holds none. The
  -- invariant holds after, and a cell that was set is as it was.
  pub poll_try-Reply {κ} :
      {E : Type κ} (cx : Waker) (p : Ptr) (answer : Poll (Result E T))
      → is_finished (r.tasks p) ≡ false
      → Returns
          (λ x. Reply (is_running (r.tasks p)) answer r.cell x × Kept r (Runs.polled p r x))
          (poll_try_init fuel cx p answer (r.tasks p) r.cell)
  poll_try-Reply cx p answer more =
      let o = Fine-Others p r f in
      Returns-mono
        (turn p (without p r) o.out fuel (fewer p) r.cell answer cx (r.tasks p)
          (Fine-At p r f (r.tasks p) refl) more)
        λ (res, t, c) (at, reply, stable). (reply, (place-Fine p (without p r) o t c at, stable))

  -- A poll of `get_or_init`
  pub poll-Reply :
      (cx : Waker) (p : Ptr) (answer : Poll T)
      → is_finished (r.tasks p) ≡ false
      → Returns
          (λ (res, t, c).
            Reply
              (is_running (r.tasks p))
              (ok_poll (Unit {0}) answer)
              r.cell
              (ok_poll (Unit {0}) res, t, c)
            × Kept r (Runs.polled p r (res, t, c)))
          (poll_init fuel cx p answer (r.tasks p) r.cell)
  poll-Reply cx p answer more =
      ok_run-Returns (Unit {0})
        (λ (x : Polled (Result (Unit {0}) T) T).
          Reply (is_running (r.tasks p)) (ok_poll (Unit {0}) answer) r.cell x
          × Kept r (Runs.polled p r x))
        _
        (subst (Returns _)
          (sym (poll_init-poll_try_init (Unit {0}) fuel cx p answer (r.tasks p) r.cell))
          (poll_try-Reply cx p (ok_poll (Unit {0}) answer) more))

  start-Kept :
      (p : Ptr) (t : Task)
      → r.tasks p ≡ t
      → Kept r (if is_finished t then place p starting r.cell (without p r) else r)
  start-Kept p finished e =
      let o = Fine-Others p r f in
      let at = Fine-At p r f finished e in
      (
        place-Fine p (without p r) o starting r.cell (record {
          good =
              rest_Good p (without p r) o.out fuel (fewer p) r.cell.semaphore finished starting _ _
                at.good;
          cell = f.cell;
          one = tt;
        }),
        λ h. (refl, h),
      )
  start-Kept p starting e = (f, λ h. (refl, h))
  start-Kept p (acquiring a) e = (f, λ h. (refl, h))
  start-Kept p (running m) e = (f, λ h. (refl, h))

  pub step-Kept {κ} : {E : Type κ} (op : Op E T) → Returns (Kept r) (step fuel op r)
  unfolding step
  step-Kept (start p) = returns (start-Kept p (r.tasks p) refl)
  step-Kept (poll_try cx p answer) =
      Returns-if (is_finished (r.tasks p)) (λ over. returns (f, λ h. (refl, h)))
        λ more. Returns-bind (poll_try-Reply cx p answer more) λ x (_, k). returns k
  step-Kept (poll cx p answer) =
      Returns-if (is_finished (r.tasks p)) (λ over. returns (f, λ h. (refl, h)))
        λ more. Returns-bind (poll-Reply cx p answer more) λ x (_, k). returns k
  step-Kept (drop p) =
      let o = Fine-Others p r f in
      Returns-bind
        (drop_turn p (without p r) o.out fuel (fewer p) r.cell (r.tasks p)
          (Fine-At p r f (r.tasks p) refl))
        λ c (at, stable). returns (place-Fine p (without p r) o finished c at, stable)
  step-Kept (set v) =
      Returns-bind (set_turn r f fuel enough v) λ (_, c) (g, _, stable). returns (g, stable)

one_runs {ℓ} :
    {T : Type ℓ} (r : Run T) (p q : Ptr) (m n : SemaphorePermit)
    → Fine r
    → r.tasks p ≡ running m
    → r.tasks q ≡ running n
    → (p ≡ q) × (r.cell.value ≡ none)
one_runs r p q m n f at_p at_q =
    let (ws, i) = f.good in
    let (_, p_in, _) = subst (Belongs (has p r.waiting) (has p r.running)) at_p (f.member p) in
    let (_, q_in, _) = subst (Belongs (has q r.waiting) (has q r.running)) at_q (f.member q) in
    let some_run = length-delete p r.running p_in in
    let unset =
      held_unset (length (delete p r.running)) r.cell.value_set
        (omega (arith, available_held i, some_run)) in
    (
      one_member p q r.running (at_most r.cell.value_set (omega (arith, available_held i))) p_in
          q_in,
      nothing r.cell f.cell unset,
    )
  where
    at_most : {k : ℕ} (b : Bool) → k ≤ (if b then 0 else 1) → k ≤ 1
    at_most true h = omega (arith, h)
    at_most false h = h

module _ {ℓ κ} {T : Type ℓ} {E : Type κ} (s : Run T) (f : Fine s) where
  -- From a run that meets the invariant of the cell it holds again, as long as the cell is shared; and
  -- a cell that was set is still set, to the same value.
  pub Reach-Kept : (r : Run T) → Reach E s r → Kept s r
  Reach-Kept r here = (f, λ h. (refl, h))
  Reach-Kept r (later fuel op {r = q} before enough e) =
      let (g, stable) = Reach-Kept q before in
      let (h, next) = Returns-value (step-Kept q g fuel enough op) e in
      (
        h,
        λ set.
            let (same, still) = stable set in
            let (same2, still2) = next still in (same2 ∙ same, still2),
      )

  -- From every run that clients bring about from one that meets the invariant, every operation
  -- returns, given fuel for each waiting task, to such a run again: no debug assertion fails, and
  -- no value is read before it is written.
  pub Reach-Returns :
      (r : Run T) (fuel : ℕ) (op : Op E T)
      → Reach E s r
      → length r.waiting + 2 < fuel
      → Returns (Reach E s) (step fuel op r)
  Reach-Returns r fuel op before enough =
      let (t, e, k) = Returns-done (step-Kept r (Reach-Kept r before).0 fuel enough op) in
      rw e (returns (later fuel op before enough e))

  -- In every run that clients bring about from one that meets the invariant of the cell, two tasks
  -- that run an initializer are one and the same, and while it runs the cell holds no value.
  pub Reach-running :
      (r : Run T) (p q : Ptr) (m n : SemaphorePermit)
      → Reach E s r
      → r.tasks p ≡ running m
      → r.tasks q ≡ running n
      → (p ≡ q) × (r.cell.value ≡ none)
  Reach-running r p q m n before = one_runs r p q m n (Reach-Kept r before).0
