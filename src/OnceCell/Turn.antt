-- ===== src/OnceCell/Turn.antt =====
-- src/once_cell.rs: one poll or drop of a task, with the other tasks as they are.
use local_sync.Prelude.{
  ℕ, ◌+◌, ◌≤◌, ◌<◌, ◌≡◌, ◌⊎◌, inr, refl, sym, ap, ◌∙◌, Bool, true, false, Option, none, some,
  is_some, List, ◌∷◌, arith, ◌==◌, ==_self, has, has_apart, length, Outcome, ◌>>=◌, assume_init,
  Result, ok, err, Returns, returns, Returns-bind, if◌then◌else◌,
}
use local_sync.Prelude.Members.{delete}
use local_sync.LinkedList.{Ptr}
use local_sync.Semaphore.Inner.{Inner, update, is_closed}
use local_sync.Semaphore.Release.{release}
use local_sync.Semaphore.Acquire.{Acquire, Poll, ready, pending}
use local_sync.Semaphore.Public
use local_sync.Semaphore.Public.{SemaphorePermit, AcquireResult, permit_of}
use local_sync.Semaphore.Serve.{update_same}
use local_sync.Semaphore.System.{System}
use local_sync.Semaphore.System.Inv.{Inv, available_held}
use local_sync.Semaphore.System.Adjust.{Inv-futures, Inv-forget}
use local_sync.Semaphore.System.Calls.{Good, release_call, close_call}
use local_sync.OnceCell.{OnceCell, set_value, get_unchecked}
use local_sync.OnceCell.Init.{Task, acquiring, running, finished, Polled, try_value}
use local_sync.OnceCell.Runs.{Run, place, view, future_of}

-- Each task asks for one permit.
abbrev pub One : Task → Type 0
One (acquiring a) = (a.permits ≡ 1) × (a.acquire.num_permits ≡ 1)
One (running m) = m.permits ≡ 1
One t = Unit

pub held_unset : (k : ℕ) (b : Bool) → k + 1 ≤ (if b then 0 else 1) → b ≡ false
held_unset k true h = ground (arith, h)
held_unset k false h = refl

module _ {ℓ} {T : Type ℓ} where
  -- The cell is set exactly when the semaphore is closed, and exactly when it holds a value.
  pub record IsCell (c : OnceCell T) : Type ℓ where
    pub shut : is_closed c.semaphore ≡ c.value_set
    pub filled : is_some c.value ≡ c.value_set

  -- The task at `p` stands at `t`, and the cell is `c`.
  pub record At (p : Ptr) (r : Run T) (t : Task) (c : OnceCell T) : Type ℓ where
    pub good : Good (view (place p t c r))
    pub cell : IsCell c
    pub one : One t

  -- What a poll of a task on the cell `c` hands back, when the initializer would answer `answer`, and
  -- what becomes of the task and the cell; `ran` says whether it ran an initializer before. A value is
  -- the cell's, and was so before or is what the initializer gave; an error is the initializer's; and
  -- the task is pending where it waits for a permit, or where the initializer it runs is.
  abbrev pub Reply {κ} :
      {E : Type κ} → Bool → Poll (Result E T) → OnceCell T → Polled (Result E T) T → Type (ℓ ⊔ κ)
  Reply ran answer c (ready (ok v), t, d) =
      (d.value ≡ some v)
      × (t ≡ finished)
      × ((c.value ≡ some v) ⊎ ((c.value ≡ none) × (answer ≡ ready (ok v))))
  Reply ran answer c (ready (err e), t, d) =
      (d.value ≡ none) × (t ≡ finished) × (answer ≡ ready (err e))
  Reply ran answer c (pending, t, d) =
      (d.value ≡ none)
      × (((ran ≡ false) × ((a : AcquireResult) × (t ≡ acquiring a)))
          ⊎ (((m : SemaphorePermit) × (t ≡ running m)) × (answer ≡ pending)))

  -- A cell that is set stays as it is.
  abbrev pub Stable : OnceCell T → OnceCell T → Type ℓ
  Stable c d = c.value_set ≡ true → (d.value ≡ c.value) × (d.value_set ≡ true)

  abbrev pub After {κ} :
      {E : Type κ}
      → Ptr
      → Run T
      → Bool
      → Poll (Result E T)
      → OnceCell T
      → Polled (Result E T) T
      → Type (ℓ ⊔ κ)
  After p r ran answer c (res, t, d) = At p r t d × Reply ran answer c (res, t, d) × Stable c d

  pub nothing : (c : OnceCell T) → IsCell c → c.value_set ≡ false → c.value ≡ none
  nothing c k unset = none_of c.value (k.filled ∙ unset)
    where
      none_of : (v : Option T) → is_some v ≡ false → v ≡ none
      none_of none e = refl
      none_of (some v) e = cc

  -- A cell that is set can be read.
  pub read_set {κ μ} :
      {A : Type κ} {P : A → Type μ} (c : OnceCell T) (f : T → Outcome A)
      → IsCell c
      → c.value_set ≡ true
      → ((v : T) → c.value ≡ some v → Returns P (f v))
      → Returns P (get_unchecked c >>= f)
  read_set {A} {P} c f k set next = go c.value refl (k.filled ∙ set)
    where
      go : (v : Option T) → c.value ≡ v → is_some v ≡ true → Returns P (assume_init v >>= f)
      go none e h = cc
      go (some v) e h = next v e

  -- `set_value`, by one who holds a permit
  pub set_call :
      (d : System) (c : OnceCell T) (ws : List Ptr) (fuel : ℕ) (v : T) (m : SemaphorePermit)
      → Inv (record d { sem = c.semaphore }) ws
      → length d.live + 1 < fuel
      → Returns
          (λ (w, e).
            (w ≡ v)
            × (e.value ≡ some v)
            × (e.value_set ≡ true)
            × IsCell e
            × Good (record d { sem = e.semaphore }))
          (set_value fuel v m c)
  unfolding set_value Public.close Public.forget Public.drop_permit Public.add_permits release
  set_call d c ws fuel v m i enough =
      Returns-bind (close_call i fuel enough)
        λ t (g, shut). returns (refl, refl, refl, record { shut = shut; filled = refl }, g)

module _ {ℓ} {T : Type ℓ} (p : Ptr) (r : Run T) (out : has p r.waiting ≡ false) (fuel : ℕ)
    (enough : length r.waiting + 2 < fuel) where
  abbrev pub fut : Task → Ptr → Acquire
  fut t q = future_of (update r.tasks p t q)

  pub far : (q : Ptr) → has q r.waiting ≡ true → (p == q) ≡ false
  far q there = has_apart p q r.waiting out there

  pub other_task :
      (t u : Task) (q : Ptr) → (p == q) ≡ false → update r.tasks p u q ≡ update r.tasks p t q
  other_task t u q ne = ground (arith, ne)

  pub own_future : (t : Task) → fut t p ≡ future_of t
  own_future t = ap future_of (update_same r.tasks p t)

  pub alone : (l : List Ptr) → delete p (p ∷ l) ≡ l
  alone l = ground (arith, ==_self p)

  -- The semaphore with all futures but the one at `p`
  abbrev pub others : Inner → Task → ℕ → ℕ → System
  others s t h k = record { sem = s; live = r.waiting; futures = fut t; held = h; capacity = k }

  pub rest_Good : (s : Inner) (t u : Task) (h k : ℕ) → Good (others s t h k) → Good (others s u h k)
  rest_Good s t u h k (ws, i) =
      (ws, Inv-futures i (fut u) λ q there. ap future_of (other_task t u q (far q there)))

  abbrev pub cap : Bool → ℕ
  cap b = if b then 0 else 1

  -- The cell is not set while a task runs.
  pub running_unset :
      (c : OnceCell T) (m : SemaphorePermit) → At p r (running m) c → c.value_set ≡ false
  running_unset c m at =
      let (ws, i) = at.good in
      held_unset (length r.running) c.value_set (omega (arith, available_held i))

  module _ {κ} {E : Type κ} (c : OnceCell T) where
    -- A poll of the initializer, whether it ran before or not
    pub value_turn :
        (ran : Bool) (m : SemaphorePermit) (answer : Poll (Result E T))
        → At p r (running m) c
        → Returns (After p r ran answer c) (try_value fuel answer m c)
    unfolding try_value Public.drop_permit Public.add_permits
    value_turn ran m pending at = returns (
      at,
      (nothing c at.cell (running_unset c m at), inr ((m, refl), refl)),
      λ set. cc (running_unset c m at, set),
    )
    value_turn ran m (ready (ok v)) at =
        let (ws, i) = at.good in
        let unset = running_unset c m at in
        Returns-bind
          (set_call (view (place p (running m) c r)) c ws fuel v m i (omega (arith, enough)))
          λ (w, d) (same, stored, set, k, (left, j)). returns (
            record {
              good =
                  rest_Good d.semaphore (running m) finished (length r.running) (cap d.value_set) (
                    left,
                    Inv-forget j (length r.running) (cap d.value_set)
                        (omega (arith, ap cap set, ap cap unset))
                        (omega (arith, ap cap set, ap cap unset)),
                  );
              cell = k;
              one = tt;
            },
            (
              stored ∙ sym (ap some same),
              refl,
              inr (nothing c at.cell unset, ap (λ x. ready (ok x)) (sym same)),
            ),
            λ h. cc (running_unset c m at, h),
          )
    value_turn ran m (ready (err e)) at =
        let (ws, i) = at.good in
        let unset = running_unset c m at in
        Returns-bind
          (release_call i fuel (omega (arith, enough)) m.permits (length r.running)
            (if c.value_set then 0 else 1) (omega (arith, at.one)) (omega (arith, at.one)) i.limit)
          λ t (g, kept). returns (
            record {
              good = rest_Good t (running m) finished (length r.running) (cap c.value_set) g;
              cell = record { shut = kept ∙ at.cell.shut; filled = at.cell.filled };
              one = tt;
            },
            (nothing c at.cell unset, refl, refl),
            λ set. cc (unset, set),
          )
