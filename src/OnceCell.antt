-- ===== src/OnceCell.antt =====
-- src/once_cell.rs: the cell and the operations that do not wait. The futures of `get_or_init` and
-- `get_or_try_init` stand in `Init`, histories of the operations that share the cell in `Runs`, of all in
-- `Life`; the other modules prove.
pub mod Init
pub mod Set
pub mod Same
pub mod Runs
pub mod Turn
pub mod Await
pub mod Fine
pub mod History
pub mod Life
pub mod Wakes
pub mod Handover
use local_sync.Prelude.{
  ℕ, Bool, true, false, not, Option, none, some, if◌then◌else◌, Outcome, done, ◌>>=◌, ◌>>◌, assert,
  assume_init, Result, ok, err,
}
use local_sync.LinkedList.{Ptr, Links}
use local_sync.Semaphore.Inner.{Inner, Waiter, TryAcquireError, closed, no_permits}
use local_sync.Semaphore.Public
use local_sync.Semaphore.Public.{SemaphorePermit}

-- `value` is `none` until it is first written.
pub record OnceCell {ℓ} (T : Type ℓ) : Type ℓ where
  pub value_set : Bool
  pub value : Option T
  pub semaphore : Inner

pub data SetError {ℓ} (T : Type ℓ) : Type ℓ where
  already_initialized_error : T → SetError T
  initializing_error : T → SetError T

module _ {ℓ} {T : Type ℓ} where
  -- over the memory in which the semaphore's waiters will live
  unfoldable pub new : (Ptr → Waiter) → Links → OnceCell T
  new nodes links = record { value_set = false; value = none; semaphore = Public.new nodes links 1 }

  -- `From<T>`
  unfoldable pub from : ℕ → (Ptr → Waiter) → Links → T → Outcome (OnceCell T)
  from fuel nodes links value = do
    semaphore ← Public.close fuel (Public.new nodes links 0)
    done (record { value_set = true; value = some value; semaphore = semaphore })

  unfoldable pub new_with : ℕ → (Ptr → Waiter) → Links → Option T → Outcome (OnceCell T)
  unfolding from new
  new_with fuel nodes links (some v) = from fuel nodes links v
  new_with fuel nodes links none = done (new nodes links)

  -- `initialized` and `initialized_mut`
  abbrev pub initialized : OnceCell T → Bool
  initialized c = c.value_set

  -- `get_unchecked` and `get_unchecked_mut`: on an empty cell it reads what was never written.
  abbrev pub get_unchecked : OnceCell T → Outcome T
  get_unchecked c = assume_init c.value

  unfoldable pub get : OnceCell T → Outcome (Option T)
  get c = if initialized c then (get_unchecked c >>= λ v. done (some v)) else done none

  -- `get_mut`, and the cell once its client has changed the value in place
  unfoldable pub get_mut : (T → T) → OnceCell T → Outcome (Option T × OnceCell T)
  get_mut change c =
      if initialized c
      then (get_unchecked c >>= λ v. done (some v, record c { value = some (change v) }))
      else done (none, c)

  -- The value is written, then the flag, then the semaphore is closed and the permit forgotten.
  unfoldable pub set_value : ℕ → T → SemaphorePermit → OnceCell T → Outcome (T × OnceCell T)
  set_value fuel value permit c = do
    let written = record c { value = some value }
    let flagged = record written { value_set = true }
    s ← Public.close fuel flagged.semaphore
    t ← Public.forget fuel permit s
    let set = record flagged { semaphore = t }
    v ← get_unchecked set
    done (v, set)

  -- The three arms of `set`
  abbrev pub set_acquired :
      ℕ
      → T
      → OnceCell T
      → Result TryAcquireError SemaphorePermit × Inner
      → Outcome (Result (SetError T) (Unit {0}) × OnceCell T)
  set_acquired fuel value c (ok permit, s) =
      let c1 = record c { semaphore = s } in
      assert (not (initialized c1))
      >> (set_value fuel value permit c1 >>= λ (_, c2). done (ok tt, c2))
  set_acquired fuel value c (err no_permits, s) =
      done (err (initializing_error value), record c { semaphore = s })
  set_acquired fuel value c (err closed, s) =
      done (err (already_initialized_error value), record c { semaphore = s })

  unfoldable pub set : ℕ → T → OnceCell T → Outcome (Result (SetError T) (Unit {0}) × OnceCell T)
  unfolding set_value
  set fuel value c =
      if initialized c
      then done (err (already_initialized_error value), c)
      else (Public.try_acquire c.semaphore >>= λ r. set_acquired fuel value c r)

  -- `Drop`: the value that is dropped
  unfoldable pub drop : OnceCell T → Outcome (Option T)
  drop c = if initialized c then (assume_init c.value >>= λ v. done (some v)) else done none

  -- What is read out, and what the cell's own `Drop` then drops
  unfoldable pub into_inner : OnceCell T → Outcome (Option T × Option T)
  unfolding drop
  into_inner c =
      if initialized c
      then (let c1 = record c { value_set = false } in
          assume_init c1.value >>= λ v. drop c1 >>= λ dropped. done (some v, dropped))
      else drop c >>= λ dropped. done (none, dropped)

  -- `take` leaves the default in place of the cell.
  unfoldable pub take :
      (Ptr → Waiter) → Links → OnceCell T → Outcome ((Option T × Option T) × OnceCell T)
  unfolding into_inner new
  take nodes links c = into_inner c >>= λ taken. done (taken, new nodes links)

  -- `Clone`, over the `clone` of the value
  unfoldable pub clone : ℕ → (Ptr → Waiter) → Links → (T → T) → OnceCell T → Outcome (OnceCell T)
  unfolding get new_with
  clone fuel nodes links clone_value c = get c >>= λ v. new_with fuel nodes links (cloned v)
    where
      cloned : Option T → Option T
      cloned none = none
      cloned (some v) = some (clone_value v)

  -- `PartialEq`, over the test on values
  unfoldable pub eq : (T → T → Bool) → OnceCell T → OnceCell T → Outcome Bool
  unfolding get
  eq eq_value c d = get c >>= λ v. get d >>= λ w. done (same v w)
    where
      same : Option T → Option T → Bool
      same none none = true
      same (some v) (some w) = eq_value v w
      same v w = false

  unfoldable pub is_already_init_err : SetError T → Bool
  is_already_init_err (already_initialized_error v) = true
  is_already_init_err (initializing_error v) = false

  unfoldable pub is_initializing_err : SetError T → Bool
  is_initializing_err (already_initialized_error v) = false
  is_initializing_err (initializing_error v) = true
