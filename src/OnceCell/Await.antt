-- ===== src/OnceCell/Await.antt =====
-- src/once_cell.rs: a poll of a task that awaits its permit, a whole poll, and a drop.
use local_sync.Prelude.{
  ℕ, ◌+◌, ◌<◌, ◌≡◌, refl, sym, ap, ◌∙◌, subst, inl, inr, true, false, not, ◌∷◌, arith, ◌==◌,
  ==_self, Bool-cases, has, length, Outcome, done, ◌>>=◌, Result, ok, err, Returns, returns,
  Returns-bind, Returns-mono, Returns-assert, Returns-if, if◌then◌else◌,
}
use local_sync.Prelude.Members.{delete}
use local_sync.LinkedList.{Ptr}
use local_sync.WakeList.{Waker}
use local_sync.Semaphore.Inner.{Inner, update, is_closed}
use local_sync.Semaphore.Acquire
use local_sync.Semaphore.Acquire.{Acquire, AcquireError, Poll, ready, pending}
use local_sync.Semaphore.Public
use local_sync.Semaphore.Public.{SemaphorePermit, AcquireResult, permit_of}
use local_sync.Semaphore.Queued.{drop_idle}
use local_sync.Semaphore.System.Adjust.{Inv-futures}
use local_sync.Semaphore.System.Calls.{Good, Kept, release_call, start_call}
use local_sync.Semaphore.System.Drops.{drop_call}
use local_sync.Semaphore.System.Polls.{AfterPoll, poll_call}
use local_sync.OnceCell.{OnceCell}
use local_sync.OnceCell.Init.{
  Task, starting, acquiring, running, finished, try_acquired, try_acquire_permit, poll_try_init,
  drop_task,
}
use local_sync.OnceCell.Runs
use local_sync.OnceCell.Runs.{Run, is_running, place, view, future_of}
use local_sync.OnceCell.Turn.{
  IsCell, At, After, Stable, nothing, read_set, fut, own_future, alone, others, rest_Good,
  value_turn,
}

module _ {ℓ} {T : Type ℓ} (p : Ptr) (r : Run T) (out : has p r.waiting ≡ false) (fuel : ℕ)
    (enough : length r.waiting + 2 < fuel) where
  -- The future at `p` is gone.
  gone_Good :
      (s : Inner) (t u : Task) (h h' k : ℕ)
      → h ≡ h'
      → Good (record {
        sem = s;
        live = delete p (p ∷ r.waiting);
        futures = fut p r out fuel enough t;
        held = h;
        capacity = k;
      })
      → Good (others p r out fuel enough s u h' k)
  gone_Good s t u h h' k same g = rest_Good p r out fuel enough s t u h' k (
      subst (λ n. Good (others p r out fuel enough s t n k)) same
        (subst
          (λ l. Good (record {
            sem = s;
            live = l;
            futures = fut p r out fuel enough t;
            held = h;
            capacity = k;
          }))
          (alone p r out fuel enough r.waiting) g))

  -- The future at `p` has changed, or is new.
  polled_future :
      (t : Task) (a : AcquireResult) (q : Ptr)
      → fut p r out fuel enough (acquiring a) q ≡ update (fut p r out fuel enough t) p a.acquire q
  polled_future t a q = elim (Bool-cases (q == p)) [ inl e ↦ rw e refl | inr ne ↦ rw ne refl ]

  new_shut : (s : Inner) → is_closed (Acquire.new 1 p s).1 ≡ is_closed s
  unfolding Acquire.new is_closed
  new_shut s = refl

  new_one : (s : Inner) → (Acquire.new 1 p s).0.num_permits ≡ 1
  unfolding Acquire.new
  new_one s = refl

  module _ {κ} {E : Type κ} (c : OnceCell T) (answer : Poll (Result E T)) where
    acquired_turn :
        (a : AcquireResult) (polled : Acquire.Polled) (b : Acquire)
        → At p r (acquiring a) c
        → AfterPoll (view (place p (acquiring a) c r)) p (polled, b)
        → Returns (After p r false answer c) (
            try_acquired fuel p answer c
              (permit_of a.permits polled.0, record a { acquire = b }, polled.1))
    unfolding try_acquired
    acquired_turn a (pending, t) b at (((ws, i), free, still), num) =
        let unset = sym at.cell.shut ∙ free in
        returns (
          record {
            good = (
              ws,
              Inv-futures i (fut p r out fuel enough (acquiring (record a { acquire = b })))
                  λ q _. polled_future (acquiring a) (record a { acquire = b }) q,
            );
            cell = record { shut = still ∙ sym unset; filled = at.cell.filled };
            one = (
              at.one.0,
              num
                  ∙ ap (λ (x : Acquire). x.num_permits)
                      (own_future p r out fuel enough (acquiring a))
                  ∙ at.one.1,
            );
          },
          (nothing c at.cell unset, inl (refl, (record a { acquire = b }, refl))),
          λ set. cc (unset, set),
        )
    acquired_turn a (ready (err e), t) b at (shut, same, own) =
        let (ws, i) = at.good in
        let set = sym at.cell.shut ∙ shut in
        rw (same, own)
          (Returns-bind (drop_call i fuel (omega (arith, enough)) p (ground (arith, ==_self p)))
            λ s (g, kept).
              let k : IsCell (record c { semaphore = s }) = record {
                shut = kept ∙ at.cell.shut;
                filled = at.cell.filled;
              } in
              Returns-assert c.value_set set (
                read_set (record c { semaphore = s }) _ k set
                  λ v stored. returns (
                    record {
                      good =
                          gone_Good s (acquiring a) finished (length r.running) (length r.running) _
                            refl g;
                      cell = k;
                      one = tt;
                    },
                    (stored, refl, inl stored),
                    λ h. (refl, h),
                  )))
    acquired_turn a (ready (ok u), t) b at ((g, free, still), own) =
        let unset = sym at.cell.shut ∙ free in
        let num : (fut p r out fuel enough (acquiring a) p).num_permits ≡ 1 =
          ap (λ (x : Acquire). x.num_permits) (own_future p r out fuel enough (acquiring a))
          ∙ at.one.1 in
        rw (drop_idle fuel p b t (ap (λ (x : Acquire). x.queued) own)) (
          Returns-assert (not c.value_set) (ap not unset) (
            value_turn p r out fuel enough (record c { semaphore = t }) false
              (record { permits = a.permits }) answer
              (record {
                good =
                    gone_Good t (acquiring a) (running (record { permits = a.permits })) _ _ _
                      (omega (arith, ap (λ (x : Acquire). x.num_permits) own, num)) g;
                cell = record { shut = still ∙ sym unset; filled = at.cell.filled };
                one = at.one.0;
              })))

    await_turn :
        (cx : Waker) (a : AcquireResult)
        → At p r (acquiring a) c
        → Returns (After p r false answer c) (try_acquire_permit fuel cx p answer a c)
    unfolding try_acquire_permit Public.poll_result
    await_turn cx a at =
        let (ws, i) = at.good in
        let polled = poll_call i fuel (omega (arith, enough)) cx p (ground (arith, ==_self p)) in
        go (Acquire.poll fuel cx p a.acquire c.semaphore) (
          subst
            (λ x.
              Returns (AfterPoll (view (place p (acquiring a) c r)) p)
                (Acquire.poll fuel cx p x c.semaphore))
            (own_future p r out fuel enough (acquiring a)) polled)
      where
        go :
            (m : Outcome (Acquire.Polled × Acquire))
            → Returns (AfterPoll (view (place p (acquiring a) c r)) p) m
            → Returns (After p r false answer c) (
                (m >>= λ ((x, t), b). done (permit_of a.permits x, record a { acquire = b }, t))
                >>= λ x. try_acquired fuel p answer c x)
        go m (returns {a = (x, b)} g) = acquired_turn a x b at g

  module _ {κ} {E : Type κ} (c : OnceCell T) (answer : Poll (Result E T)) where
    start_turn :
        (cx : Waker)
        → At p r starting c
        → Returns (After p r false answer c) (poll_try_init fuel cx p answer starting c)
    unfolding poll_try_init Public.acquire
    start_turn cx at =
        Returns-if c.value_set
          (λ set. read_set c _ at.cell set λ v stored. returns (
            record {
              good =
                  rest_Good p r out fuel enough c.semaphore starting finished (length r.running) _
                    at.good;
              cell = at.cell;
              one = tt;
            },
            (stored, refl, inl stored),
            λ h. (refl, h),
          ))
          λ unset.
            let (ws, i) = at.good in
            let (a, t) = Acquire.new 1 p c.semaphore in
            let first : AcquireResult = record { acquire = a; permits = 1 } in
            Returns-mono
              (await_turn (record c { semaphore = t }) answer cx first
                (record {
                  good = (
                    ws,
                    Inv-futures (start_call i fuel (omega (arith, enough)) p 1 out (omega arith)) _
                        λ q _. polled_future starting first q,
                  );
                  cell = record {
                    shut = new_shut c.semaphore ∙ at.cell.shut;
                    filled = at.cell.filled;
                  };
                  one = (refl, new_one c.semaphore);
                }))
              λ x after. after

    -- A poll of the task, wherever it stands
    pub turn :
        (cx : Waker) (t : Task)
        → At p r t c
        → (Runs.is_finished t ≡ false)
        → Returns (After p r (is_running t) answer c) (poll_try_init fuel cx p answer t c)
    unfolding poll_try_init
    turn cx starting at more = start_turn cx at
    turn cx (acquiring a) at more = await_turn c answer cx a at
    turn cx (running m) at more = value_turn p r out fuel enough c true m answer at
    turn cx finished at more = cc

  -- A drop of the task, wherever it stands
  pub drop_turn :
      (c : OnceCell T) (t : Task)
      → At p r t c
      → Returns (λ d. At p r finished d × Stable c d) (drop_task fuel p t c)
  unfolding drop_task Public.drop_permit Public.add_permits
  drop_turn c starting at = returns (
    record {
      good =
          rest_Good p r out fuel enough c.semaphore starting finished (length r.running) _ at.good;
      cell = at.cell;
      one = tt;
    },
    λ h. (refl, h),
  )
  drop_turn c (acquiring a) at =
      let (ws, i) = at.good in
      let v = view (place p (acquiring a) c r) in
      Returns-bind
        (subst
          (λ x.
            Returns (λ s. Kept v (record v { sem = s; live = delete p (p ∷ r.waiting) }))
              (Acquire.drop fuel p x c.semaphore))
          (own_future p r out fuel enough (acquiring a))
          (drop_call i fuel (omega (arith, enough)) p (ground (arith, ==_self p))))
        λ s (g, kept). returns (
          record {
            good =
                gone_Good s (acquiring a) finished (length r.running) (length r.running) _ refl g;
            cell = record { shut = kept ∙ at.cell.shut; filled = at.cell.filled };
            one = tt;
          },
          λ h. (refl, h),
        )
  drop_turn c (running m) at =
      let (ws, i) = at.good in
      Returns-bind
        (release_call i fuel (omega (arith, enough)) m.permits (length r.running)
          (if c.value_set then 0 else 1) (omega (arith, at.one)) (omega (arith, at.one)) i.limit)
        λ t (g, kept). returns (
          record {
            good = rest_Good p r out fuel enough t (running m) finished (length r.running) _ g;
            cell = record { shut = kept ∙ at.cell.shut; filled = at.cell.filled };
            one = tt;
          },
          λ h. (refl, h),
        )
  drop_turn c finished at = returns (at, λ h. (refl, h))
