-- ===== src/OnceCell/Life.antt =====
-- A cell of src/once_cell.rs over its whole life: it is made, shared by tasks and by clients that call
-- `set`, and in between, when no task borrows it, a client that has it for itself takes the value out
-- or changes it in place.
use local_sync.Prelude.{
  ℕ, ◌<◌, ◌≡◌, refl, Option, none, arith, done, Returns, returns, Returns-value, Returns-bind,
  Returns-if, sym,
}
use local_sync.LinkedList.{Ptr, Links, unlinked}
use local_sync.Semaphore.Inner.{Waiter}
use local_sync.OnceCell.{OnceCell, new_with, get, take, get_mut}
use local_sync.OnceCell.Init.{finished}
use local_sync.OnceCell.Runs.{Run, Reach, initial}
use local_sync.OnceCell.Turn.{IsCell, read_set}
use local_sync.OnceCell.Fine.{Fine}
use local_sync.OnceCell.Set.{new_with-Fine, into_inner-get}
use local_sync.OnceCell.History.{Kept, Reach-Kept}

module _ {ℓ} {T : Type ℓ} where
  -- No task borrows the cell.
  abbrev pub Idle : Run T → Type 0
  Idle r = (q : Ptr) → r.tasks q ≡ finished

  -- The runs over the life of a cell
  pub data Lives {κ} (E : Type κ) : Run T → Type (ℓ ⊔ κ) where
    made :
        (fuel : ℕ) (nodes : Ptr → Waiter) (links : Links) (v : Option T) {c : OnceCell T}
        → ((p : Ptr) → links p ≡ unlinked)
        → 1 < fuel
        → new_with fuel nodes links v ≡ done c
        → Lives E (initial c)
    shared : {r s : Run T} → Lives E r → Reach E r s → Lives E s
    taken :
        (nodes : Ptr → Waiter) (links : Links) {r : Run T} {out : Option T × Option T}
        {d : OnceCell T}
        → ((p : Ptr) → links p ≡ unlinked)
        → Lives E r
        → Idle r
        → take nodes links r.cell ≡ done (out, d)
        → Lives E (initial d)
    changed :
        (change : T → T) {r : Run T} {out : Option T} {d : OnceCell T}
        → Lives E r
        → Idle r
        → get_mut change r.cell ≡ done (out, d)
        → Lives E (record r { cell = d })

  -- `take` hands out what `get` reads, the drop of the old cell drops no value, and a new one is left.
  take_new :
      (nodes : Ptr → Waiter) (links : Links) (c : OnceCell T)
      → ((p : Ptr) → links p ≡ unlinked)
      → IsCell c
      → Returns
          (λ ((v, dropped), d). (get c ≡ done v) × (dropped ≡ none) × Fine (initial d))
          (take nodes links c)
  unfolding take new_with
  take_new nodes links c clean k = Returns-bind (into_inner-get c k) λ (v, dropped) (same, nothing).
      returns (
        same,
        nothing,
        (Returns-value (new_with-Fine nodes links clean 2 (omega arith) none) refl).0,
      )

  get_mut-Fine :
      (change : T → T) (r : Run T)
      → Fine r
      → Returns (λ (out, d). Fine (record r { cell = d })) (get_mut change r.cell)
  unfolding get_mut
  get_mut-Fine change r f =
      Returns-if r.cell.value_set
        (λ set. read_set r.cell _ f.cell set λ v stored. returns (record {
          good = f.good;
          cell = record { shut = f.cell.shut; filled = sym set };
          distinct = f.distinct;
          member = f.member;
        }))
        λ unset. returns f

  Lives-Fine {κ} : {E : Type κ} (r : Run T) → Lives E r → Fine r
  Lives-Fine r (made fuel nodes links v clean enough e) =
      (Returns-value (new_with-Fine nodes links clean fuel enough v) e).0
  Lives-Fine r (shared {r = q} before on) = (Reach-Kept q (Lives-Fine q before) r on).0
  Lives-Fine r (taken nodes links {r = q} clean before idle e) =
      let (_, _, f) =
        Returns-value (take_new nodes links q.cell clean (Lives-Fine q before).cell) e in
      f
  Lives-Fine r (changed change {r = q} before idle e) =
      Returns-value (get_mut-Fine change q (Lives-Fine q before)) e

  -- Over the whole life of a cell, in which clients make it, share it with tasks and with calls of
  -- `set` in any order, and, while no task borrows it, take its value out or change it in place:
  -- from every state that comes about so, and however the cell is then shared, the invariant holds.
  -- The cell is set exactly when it holds a value and exactly when the semaphore is closed, and
  -- each task waits, runs or does neither as its place says; and a cell that was set is, as long as
  -- it is only shared, still set, to the same value.
  pub Lives-Kept {κ} : {E : Type κ} (s r : Run T) → Lives E s → Reach E s r → Kept s r
  Lives-Kept s r life on = Reach-Kept s (Lives-Fine s life) r on
