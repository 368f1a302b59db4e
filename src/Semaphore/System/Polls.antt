-- ===== src/Semaphore/System/Polls.antt =====
-- The poll of a future of src/semaphore.rs against the invariant of the whole system.
use local_sync.Prelude.{
  ℕ, ◌+◌, ◌-◌, ◌%◌, ◌≤◌, ◌<◌, ◌≡◌, refl, sym, ap, ◌∙◌, inl, inr, true, false, List, [], ◌∷◌, ◌++◌,
  arith, ◌==◌, ==_self, Bool-cases, has, has-append, length, dec_le, Returns, returns, Returns-mono,
  ok, err,
}
use local_sync.Prelude.Members.{delete}
use local_sync.LinkedList.{Ptr}
use local_sync.WakeList.{Waker}
use local_sync.Semaphore.Inner.{Inner, update, is_closed, available_permits}
use local_sync.Semaphore.Acquire
use local_sync.Semaphore.Acquire.{Acquire, ready, pending}
use local_sync.Semaphore.Serve.{need}
use local_sync.Semaphore.WellFormed.{is_closed-mod, spend, spend-WellFormed}
use local_sync.Semaphore.Futures.{IsFresh, poll_after_close, poll_enough, poll_short}
use local_sync.Semaphore.Queued.{poll_waiting, poll_served, nobody}
use local_sync.Semaphore.System.{System}
use local_sync.Semaphore.System.Inv.{Inv, available_held}
use local_sync.Semaphore.System.Moves.{finish-Inv, parked-Inv, idle_apart}
use local_sync.Semaphore.System.Calls.{Good, fuel_ok}

-- The invariant holds after, and the semaphore was and is open.
abbrev pub Open : System → System → Type 0
Open c d = Good d × (is_closed c.sem ≡ false) × (is_closed d.sem ≡ false)

-- What a poll of the future at `p` leaves, by what it returns.
abbrev pub AfterPoll : System → Ptr → Acquire.Polled × Acquire → Type 0
AfterPoll c p ((pending, t), a) =
    Open c (record c { sem = t; futures = update c.futures p a })
    × (a.num_permits ≡ (c.futures p).num_permits)
AfterPoll c p ((ready (err e), t), a) = (is_closed c.sem ≡ true) × (t ≡ c.sem) × (a ≡ c.futures p)
AfterPoll c p ((ready (ok u), t), a) =
    Open c (record c { sem = t; live = delete p c.live; held = c.held + a.num_permits })
    × (a ≡ record { num_permits = (c.futures p).num_permits; queued = false })

module _ {c : System} {ws : List Ptr} (i : Inv c ws) (fuel : ℕ)
    (enough : length c.live + 1 < fuel) where
  zero_available : {k : ℕ} → c.sem.permits ≡ 0 → k + available_permits c.sem ≡ k
  unfolding available_permits
  zero_available e = omega (arith, e)

  same_available :
      (p : Ptr) (t : Inner)
      → need c.sem.nodes p ≡ 0
      → t.permits ≡ c.sem.permits
      → available_permits t + need c.sem.nodes p ≡ available_permits c.sem
  unfolding available_permits
  same_available p t full same = omega (arith, full, same)

  spend_shut : (n : ℕ) → n ≤ available_permits c.sem → is_closed (spend n c.sem) ≡ is_closed c.sem
  unfolding available_permits
  spend_shut n room =
      is_closed-mod (spend n c.sem)
      ∙ ap (λ k. k == 1) (omega (arith, room))
      ∙ sym (is_closed-mod c.sem)

  parked_open : (t : Inner) → t.permits ≡ 0 → is_closed t ≡ false
  parked_open t e = is_closed-mod t ∙ ap (λ k. k % 2 == 1) e

  poll_first :
      (cx : Waker) (p : Ptr)
      → has p c.live ≡ true
      → is_closed c.sem ≡ false
      → (c.futures p).queued ≡ false
      → Returns (AfterPoll c p) (Acquire.poll fuel cx p (c.futures p) c.sem)
  poll_first cx p here free idle =
      let a = c.futures p in
      let f = i.future p here in
      let out = idle_apart i p idle in
      let fresh : IsFresh a p c.sem ws = record {
        idle = idle;
        absent = out;
        whole = f.whole idle;
        small = f.small;
      } in
      elim (dec_le a.num_permits (available_permits c.sem)) [
        | yes room ↦
            let (wf, sum) = spend-WellFormed a.num_permits c.sem ws room i.wf in
            rw (poll_enough fuel cx p a c.sem ws fresh free room) (
              returns (
                (
                  (
                    ws,
                    finish-Inv i p (spend a.num_permits c.sem) here out wf (λ q. refl) (λ _. free)
                        (omega (arith, sum, f.whole idle)),
                  ),
                  free,
                  spend_shut a.num_permits room ∙ free,
                ),
                refl,
              ))
        | no few ↦
            Returns-mono (poll_short fuel cx p a c.sem ws i.wf fresh free (omega arith))
              λ ((r, t), b) (e, eb, k).
                rw (e, eb)
                  (
                    (
                      (
                        ws ++ p ∷ [],
                        parked-Inv i cx p (a.num_permits - available_permits c.sem) (ws ++ p ∷ []) t
                            _ here k refl refl (ground (arith, has-append p ws (p ∷ []), ==_self p))
                            (λ q ne. ground (arith, has-append q ws (p ∷ []), ne)) free
                            (omega (arith, f.whole idle)),
                      ),
                      free,
                      parked_open t k.drained,
                    ),
                    refl,
                  )
      ]

  same_shut : (t : Inner) → t.permits ≡ c.sem.permits → is_closed t ≡ is_closed c.sem
  same_shut t e = is_closed-mod t ∙ ap (λ k. k % 2 == 1) e ∙ sym (is_closed-mod c.sem)

  pub poll_call :
      (cx : Waker) (p : Ptr)
      → has p c.live ≡ true
      → Returns (AfterPoll c p) (Acquire.poll fuel cx p (c.futures p) c.sem)
  poll_call cx p here = elim (Bool-cases (is_closed c.sem)) [
    | inl shut ↦
        rw (poll_after_close fuel cx p (c.futures p) c.sem shut) (returns (shut, refl, refl))
    | inr free ↦ elim (Bool-cases (c.futures p).queued) [
      | inr idle ↦ poll_first cx p here free idle
      | inl busy ↦ elim (Bool-cases (has p ws)) [
        | inl inside ↦
            let none_there = nobody c.sem ws p i.wf inside in
            Returns-mono (poll_waiting fuel cx p (c.futures p) c.sem ws i.wf free busy inside)
              λ ((r, t), b) (e, eb, k).
                rw (e, eb)
                  (
                    (
                      (
                        ws,
                        parked-Inv i cx p (need c.sem.nodes p) ws t (c.futures p) here k refl busy
                            inside (λ q _. refl) free (zero_available none_there),
                      ),
                      free,
                      parked_open t k.drained,
                    ),
                    refl,
                  )
        | inr out ↦
            let full = i.served p here busy out free in
            Returns-mono
              (poll_served fuel cx p (c.futures p) c.sem ws i.wf free busy out full
                (omega (arith, available_held i, i.limit)) (fuel_ok i fuel enough))
              λ ((r, t), b) (e, eb, wf, same, kept).
                rw (e, eb)
                  ((
                    (
                      (
                        ws,
                        finish-Inv i p t here out wf kept (λ _. free)
                            (same_available p t full same),
                      ),
                      free,
                      same_shut t same ∙ free,
                    ),
                    refl,
                  ))
      ]
    ]
  ]
