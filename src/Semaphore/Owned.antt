-- ===== src/Semaphore/Owned.antt =====
-- src/semaphore.rs: the futures of `acquire_owned` and `acquire_many_owned` as state machines, against
-- the invariant of a system.
use local_sync.Prelude.{
  ℕ, ◌+◌, ◌^◌, ◌<◌, ◌≡◌, refl, sym, ap, ◌∙◌, subst, inl, inr, true, false, List, ◌∷◌, arith, ◌==◌,
  ==_self, Bool-cases, has, has_apart, length, Outcome, done, panic, ◌>>=◌, Result, ok, err,
  Returns, returns, Returns-bind,
}
use local_sync.Prelude.Members.{delete}
use local_sync.LinkedList.{Ptr}
use local_sync.WakeList.{Waker}
use local_sync.Semaphore.Inner.{Inner, update, is_closed}
use local_sync.Semaphore.Acquire
use local_sync.Semaphore.Acquire.{Acquire, AcquireError, Poll, ready, pending}
use local_sync.Semaphore.Public.{OwnedSemaphorePermit}
use local_sync.Semaphore.Serve.{update_same}
use local_sync.Semaphore.Queued.{drop_idle}
use local_sync.Semaphore.System
use local_sync.Semaphore.System.{System}
use local_sync.Semaphore.System.Inv.{Inv}
use local_sync.Semaphore.System.Adjust.{Inv-futures}
use local_sync.Semaphore.System.Calls.{Good, start_call}
use local_sync.Semaphore.System.Drops.{drop_call}
use local_sync.Semaphore.System.Polls.{AfterPoll, poll_call}

-- Where a call stands: not polled yet, in `acquire(n).await`, or done.
pub data Owned : Type 0 where
  starting : Owned
  acquiring : Acquire → Owned
  finished : Owned

abbrev pub OwnedPolled : Type 0
OwnedPolled = Poll (Result AcquireError OwnedSemaphorePermit) × Owned × Inner

-- After a poll of the future, which is dropped when it is ready
unfoldable pub owned_acquired : ℕ → Ptr → ℕ → Acquire.Polled × Acquire → Outcome OwnedPolled
owned_acquired fuel p n ((pending, s), a) = done (pending, acquiring a, s)
owned_acquired fuel p n ((ready (err e), s), a) =
    Acquire.drop fuel p a s >>= λ t. done (ready (err e), finished, t)
owned_acquired fuel p n ((ready (ok u), s), a) =
    Acquire.drop fuel p a s >>= λ t. done (ready (ok (record { permits = n })), finished, t)

unfoldable pub owned_await : ℕ → Waker → Ptr → ℕ → Acquire → Inner → Outcome OwnedPolled
unfolding owned_acquired
owned_await fuel cx p n a s =
    Acquire.poll fuel cx p a s >>= λ polled. owned_acquired fuel p n polled

-- A poll of `acquire_many_owned(n)`; one that is done panics.
unfoldable pub poll_many_owned : ℕ → Waker → Ptr → ℕ → Owned → Inner → Outcome OwnedPolled
unfolding owned_await
poll_many_owned fuel cx p n starting s =
    let (a, t) = Acquire.new n p s in owned_await fuel cx p n a t
poll_many_owned fuel cx p n (acquiring a) s = owned_await fuel cx p n a s
poll_many_owned fuel cx p n finished s = panic

unfoldable pub poll_owned : ℕ → Waker → Ptr → Owned → Inner → Outcome OwnedPolled
unfolding owned_await
poll_owned fuel cx p starting s = let (a, t) = Acquire.new 1 p s in owned_await fuel cx p 1 a t
poll_owned fuel cx p (acquiring a) s = owned_await fuel cx p 1 a s
poll_owned fuel cx p finished s = panic

-- What the first poll leaves, by what it returns.
abbrev pub AfterFirst : System → Ptr → ℕ → OwnedPolled → Type 0
AfterFirst c p n (pending, acquiring a, t) =
    Good (record c { sem = t; live = p ∷ c.live; futures = update c.futures p a })
    × (is_closed c.sem ≡ false)
AfterFirst c p n (ready (ok m), finished, t) =
    Good (record c { sem = t; held = c.held + n }) × (m.permits ≡ n) × (is_closed c.sem ≡ false)
AfterFirst c p n (ready (err e), finished, t) =
    Good (record c { sem = t }) × (is_closed c.sem ≡ true)
AfterFirst c p n polled = ⊥

module _ (c : System) (p : Ptr) (n : ℕ) (out : has p c.live ≡ false) where
  twice : (a b : Acquire) (q : Ptr) → update c.futures p b q ≡ update (update c.futures p a) p b q
  twice a b q = elim (Bool-cases (q == p)) [ inl e ↦ rw e refl | inr ne ↦ rw ne refl ]

  -- The future at `p` is gone.
  gone_Good :
      (a : Acquire) (s : Inner) (h h' : ℕ)
      → h ≡ h'
      → Good (record c {
        sem = s;
        live = delete p (p ∷ c.live);
        futures = update c.futures p a;
        held = h;
      })
      → Good (record c { sem = s; held = h' })
  gone_Good a s h h' same (ws, i) =
      let alone : delete p (p ∷ c.live) ≡ c.live = ground (arith, ==_self p) in
      let j =
        subst
          (λ l. Inv (record c { sem = s; live = l; futures = update c.futures p a; held = h' }) ws)
          alone
          (subst
            (λ k.
              Inv
                (record c {
                  sem = s;
                  live = delete p (p ∷ c.live);
                  futures = update c.futures p a;
                  held = k;
                })
                ws)
            same i) in
      (
        ws,
        Inv-futures j c.futures
            λ q there. let ne = has_apart p q c.live out there in ground (arith, ne),
      )

  acquired-AfterFirst :
      (a : Acquire) (fuel : ℕ) (ws : List Ptr) (t : Inner) (x : Acquire.Polled) (b : Acquire)
      → Inv (record c { sem = t; live = p ∷ c.live; futures = update c.futures p a }) ws
      → is_closed t ≡ is_closed c.sem
      → a.num_permits ≡ n
      → length c.live + 2 < fuel
      → AfterPoll (record c { sem = t; live = p ∷ c.live; futures = update c.futures p a }) p (x, b)
      → Returns (AfterFirst c p n) (owned_acquired fuel p n (x, b))
  unfolding owned_acquired
  acquired-AfterFirst a fuel ws t (pending, s) b i shut num enough (((left, j), free, still), _) =
      returns ((left, Inv-futures j (update c.futures p b) λ q _. twice a b q), sym shut ∙ free)
  acquired-AfterFirst a fuel ws t (ready (err e), s) b i shut num enough
        (closed_before, same, own) =
      rw (same, own)
        (Returns-bind (drop_call i fuel (omega (arith, enough)) p (ground (arith, ==_self p)))
          λ u (g, k). returns (gone_Good a u c.held c.held refl g, sym shut ∙ closed_before))
  acquired-AfterFirst a fuel ws t (ready (ok u), s) b i shut num enough ((g, free, still), own) =
      rw (drop_idle fuel p b s (ap (λ (y : Acquire). y.queued) own)) (
        returns (
          gone_Good a s (c.held + b.num_permits) (c.held + n)
              (omega (
                arith,
                ap (λ (y : Acquire). y.num_permits) own,
                ap (λ (y : Acquire). y.num_permits) (update_same c.futures p a),
                num,
              ))
              g,
          refl,
          sym shut ∙ free,
        ))

  new_parts :
      (s : Inner)
      → (is_closed (Acquire.new n p s).1 ≡ is_closed s) × ((Acquire.new n p s).0.num_permits ≡ n)
  unfolding Acquire.new is_closed
  new_parts s = (refl, refl)

  -- In a system that meets the invariant, with enough fuel, the first poll of `acquire_many_owned`
  -- for fewer than `2 ^ 32` permits, at an address of its own, returns: pending on an open
  -- semaphore, and its future is one more of the system; or with a permit of as many, which the
  -- client then holds; or on a closed semaphore with the error. The invariant holds after.
  pub poll_many_owned-AfterFirst :
      (ws : List Ptr) (cx : Waker) (fuel : ℕ)
      → Inv c ws
      → n < 2 ^ 32
      → length c.live + 2 < fuel
      → Returns (AfterFirst c p n) (poll_many_owned fuel cx p n starting c.sem)
  unfolding poll_many_owned owned_await
  poll_many_owned-AfterFirst ws cx fuel i small enough =
      let (a, t) = Acquire.new n p c.sem in
      let (shut, num) = new_parts c.sem in
      let j = start_call i fuel (omega (arith, enough)) p n out small in
      let d : System = System.started p n c in
      Returns-bind
        (subst (λ x. Returns (AfterPoll d p) (Acquire.poll fuel cx p x t))
          (update_same c.futures p a)
          (poll_call j fuel (omega (arith, enough)) cx p (ground (arith, ==_self p))))
        λ (x, b) g. acquired-AfterFirst a fuel ws t x b j shut num enough g
