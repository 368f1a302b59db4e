-- ===== src/OnceCell/Set.antt =====
-- src/once_cell.rs: `set`, and the operations that need the cell for themselves, against the invariant.
use local_sync.Prelude.{
  ℕ, ◌+◌, ◌≤◌, ◌<◌, ◌≡◌, refl, ap, ◌∙◌, Bool, true, false, not, Option, none, some, arith, le→ltb,
  lt→ltb, dec_le, length, done, Result, ok, err, Returns, returns, Returns-bind, Returns-assert,
  Returns-if, if◌then◌else◌,
}
use local_sync.LinkedList.{Ptr, Links, unlinked}
use local_sync.Semaphore.Inner.{Waiter, available_permits}
use local_sync.Semaphore.WellFormed.{spend, new-WellFormed, try_acquire_cases}
use local_sync.Semaphore.Public
use local_sync.Semaphore.System.Adjust.{Inv-forget}
use local_sync.Semaphore.System.Calls.{spend_call, close_call}
use local_sync.Semaphore.System.Safe.{new_system-Good}
use local_sync.OnceCell
use local_sync.OnceCell.{
  OnceCell, SetError, already_initialized_error, initializing_error, set_value, get, into_inner,
  new_with, from,
}
use local_sync.OnceCell.Runs.{Run, initial, view}
use local_sync.OnceCell.Turn.{IsCell, Stable, set_call, read_set}
use local_sync.OnceCell.Fine.{Fine}

abbrev cap : Bool → ℕ
cap b = if b then 0 else 1

module _ {ℓ} {T : Type ℓ} where
  -- What `set` answers: it has set the cell, or the cell was set, or there was no permit.
  abbrev pub SetReply : OnceCell T → T → Result (SetError T) (Unit {0}) × OnceCell T → Type ℓ
  SetReply c v (ok u, d) = (c.value_set ≡ false) × (d.value_set ≡ true) × (d.value ≡ some v)
  SetReply c v (err (already_initialized_error w), d) = (c.value_set ≡ true) × (w ≡ v) × (d ≡ c)
  SetReply c v (err (initializing_error w), d) =
      (c.value_set ≡ false) × (available_permits c.semaphore ≡ 0) × (w ≡ v) × (d ≡ c)

  abbrev pub SetAfter : Run T → T → Result (SetError T) (Unit {0}) × OnceCell T → Type ℓ
  SetAfter r v (res, d) =
      Fine (record r { cell = d }) × SetReply r.cell v (res, d) × Stable r.cell d

  module _ (r : Run T) (f : Fine r) (fuel : ℕ) (enough : length r.waiting + 2 < fuel) where
    permit_turn :
        (v : T)
        → r.cell.value_set ≡ false
        → 1 ≤ available_permits r.cell.semaphore
        → Returns (SetAfter r v) (
            OnceCell.set_acquired fuel v r.cell
              (ok (record { permits = 1 }), spend 1 r.cell.semaphore))
    permit_turn v unset room =
        let (ws, i) = f.good in
        let c1 : OnceCell T = record r.cell { semaphore = spend 1 r.cell.semaphore } in
        let j = spend_call i fuel (omega (arith, enough)) 1 room (f.cell.shut ∙ unset) in
        Returns-assert (not r.cell.value_set) (ap not unset) (
          Returns-bind
            (set_call (record (view r) { held = length r.running + 1 }) c1 ws fuel v
              (record { permits = 1 }) j (omega (arith, enough)))
            λ (w, d) (same, stored, set, k, (left, after)). returns (
              record {
                good = (
                  left,
                  Inv-forget after (length r.running) (if d.value_set then 0 else 1)
                      (omega (arith, ap cap set, ap cap unset))
                      (omega (arith, ap cap set, ap cap unset)),
                );
                cell = k;
                distinct = f.distinct;
                member = f.member;
              },
              (unset, set, stored),
              λ h. cc (unset, h),
            ))

    -- In a run that meets the invariant, `set` returns, with fuel for each waiting task: the cell
    -- was not set and is set to the value; or it was set, the value comes back and nothing changes;
    -- or it was not set and no permit is available, the value comes back and nothing changes. The
    -- invariant holds after, and a cell that was set is as it was.
    pub set_turn : (v : T) → Returns (SetAfter r v) (OnceCell.set fuel v r.cell)
    unfolding OnceCell.set Public.try_acquire
    set_turn v =
        Returns-if r.cell.value_set (λ set. returns (f, (set, refl, refl), λ h. (refl, h)))
          λ unset.
            rw ((try_acquire_cases 1 r.cell.semaphore).1 (omega arith), f.cell.shut ∙ unset)
              (elim (dec_le 1 (available_permits r.cell.semaphore)) [
                | yes room ↦
                    rw (le→ltb (available_permits r.cell.semaphore) 1 room)
                      (permit_turn v unset room)
                | no few ↦
                    rw (lt→ltb (available_permits r.cell.semaphore) 1 (omega arith))
                      (returns (f, (unset, omega arith, refl, refl), λ h. (refl, h)))
              ])

  -- On a cell that is set exactly when it holds a value, `into_inner` returns what `get` reads, and
  -- the drop of the cell that follows drops no value.
  pub into_inner-get :
      (c : OnceCell T)
      → IsCell c
      → Returns (λ (v, dropped). (get c ≡ done v) × (dropped ≡ none)) (into_inner c)
  unfolding into_inner get OnceCell.drop
  into_inner-get c k =
      Returns-if c.value_set (λ set. read_set c _ k set λ v e. returns (rw (set, e) refl, refl))
        λ unset. rw unset (returns (refl, refl))

module _ {ℓ} {T : Type ℓ} (nodes : Ptr → Waiter) (links : Links)
    (clean : (p : Ptr) → links p ≡ unlinked) (fuel : ℕ) (enough : 1 < fuel) where
  -- Over nodes with cleared pointers and with enough fuel, `new_with` returns a cell that holds the
  -- value given, or none, and `get` reads it; with no task, the cell meets the invariant.
  pub new_with-Fine :
      (v : Option T)
      → Returns
          (λ c. Fine (initial c) × (c.value ≡ v) × (get c ≡ done v))
          (new_with fuel nodes links v)
  unfolding new_with OnceCell.new from get Public.new Public.close
  new_with-Fine none =
      let (wf, all, free) = new-WellFormed nodes links 1 clean in
      returns (
        record {
          good = new_system-Good nodes links clean 1 (omega arith);
          cell = record { shut = free; filled = refl };
          distinct = tt;
          member = λ q. (refl, refl);
        },
        refl,
        refl,
      )
  new_with-Fine (some v) =
      let (ws, i) = new_system-Good nodes links clean 0 (omega arith) in
      Returns-bind (close_call i fuel (omega (arith, enough))) λ t (g, shut). returns (
        record {
          good = g;
          cell = record { shut = shut; filled = refl };
          distinct = tt;
          member = λ q. (refl, refl);
        },
        refl,
        refl,
      )
