-- ===== src/Semaphore/System/Calls.antt =====
-- A release, a close, a new future and permits that are taken, of src/semaphore.rs, against the
-- invariant of the whole system.
use local_sync.Prelude.{
  ℕ, ◌+◌, ◌^◌, ◌≤◌, ◌<◌, ◌≡◌, refl, sym, ap, ◌∙◌, subst, inl, inr, true, false, is_some, List, [],
  arith, ◌==◌, ==_self, eq_of_test, Bool-cases, has, has_apart, Distinct, length, Returns,
  Returns-mono,
}
use local_sync.Prelude.Members.{total-same}
use local_sync.LinkedList.{Ptr}
use local_sync.LinkedList.Fifo.{IsFifo-Distinct}
use local_sync.Semaphore.Word.{max_permits}
use local_sync.Semaphore.Inner.{close, Waiter, update, is_closed, available_permits}
use local_sync.Semaphore.Release.{release}
use local_sync.Semaphore.Acquire
use local_sync.Semaphore.Acquire.{Acquire, ready, pending}
use local_sync.Semaphore.Serve.{need, update_same}
use local_sync.Semaphore.WellFormed.{release-WellFormed, close-Closed, spend, spend-WellFormed}
use local_sync.Semaphore.Futures.{new-IsFresh}
use local_sync.Semaphore.Effects.{Within, granted-Effects}
use local_sync.Semaphore.System
use local_sync.Semaphore.System.{System, Op, step}
use local_sync.Semaphore.System.Inv.{IsFuture, Inv, waiting_few, fits}
use local_sync.Semaphore.System.Moves.{Effects-Inv}

abbrev pub Good : System → Type 0
Good d = (ws : List Ptr) × Inv d ws

-- The invariant holds after, and the semaphore is closed only if it was.
abbrev pub Kept : System → System → Type 0
Kept c d = Good d × (is_closed d.sem ≡ is_closed c.sem)

module _ {c : System} {ws : List Ptr} (i : Inv c ws) (fuel : ℕ)
    (enough : length c.live + 1 < fuel) where
  pub fuel_ok : length ws + 1 < fuel
  fuel_ok = omega (arith, waiting_few i)

  pub ws_Distinct : Distinct ws
  ws_Distinct = IsFifo-Distinct ws i.wf.waits.fifo

  -- `release` of `n` permits, which are part of `k` then
  pub release_call :
      (n h k : ℕ)
      → n ≤ max_permits
      → k + c.held ≡ c.capacity + n + h
      → k ≤ max_permits
      → Returns (λ t. Kept c (record c { sem = t; held = h; capacity = k })) (release fuel n c.sem)
  release_call n h k small sum limit =
      Returns-mono (release-WellFormed fuel n c.sem ws i.wf small (fits i n small) fuel_ok)
        λ t (g, wf).
          let sub : Within ws c.live = λ q inside. (i.waiting q inside).0 in
          let e =
            granted-Effects n c.sem t ws c.live ws_Distinct i.distinct sub (fits i n small) g wf in
          (
            (
              _,
              Effects-Inv i n h k ws _ c.live t e i.distinct (λ q there. there) sub (λ q _. refl)
                  (omega (arith, i.sum, sum)) limit,
            ),
            e.shut,
          )

  pub close_call :
      Returns (λ t. Good (record c { sem = t }) × (is_closed t ≡ true)) (close fuel c.sem)
  close_call = Returns-mono (close-Closed fuel c.sem ws i.wf (omega (arith, fuel_ok))) λ t k. (
    (
      [],
      record {
        wf = k.wf;
        distinct = i.distinct;
        waiting = λ q inside. cc;
        waker = λ q inside. cc;
        future = λ q there. subst (IsFuture (c.futures q)) (sym (k.states q)) (i.future q there);
        served = λ q there busy out free. cc (k.shut, free);
        sum = omega (
          arith,
          i.sum,
          k.kept,
          total-same (need c.sem.nodes) (need t.nodes) c.live (λ q _. k.states q),
        );
        limit = i.limit;
      },
    ),
    k.shut,
  )

  -- A client takes permits that are there.
  pub spend_call :
      (n : ℕ)
      → n ≤ available_permits c.sem
      → is_closed c.sem ≡ false
      → Inv (record c { sem = spend n c.sem; held = c.held + n }) ws
  spend_call n room free =
      let (wf, sum) = spend-WellFormed n c.sem ws room i.wf in
      record {
        wf = wf;
        distinct = i.distinct;
        waiting = i.waiting;
        waker = i.waker;
        future = i.future;
        served = λ q there busy out _. i.served q there busy out free;
        sum = omega (arith, i.sum, sum);
        limit = i.limit;
      }

  pub start_call :
      (p : Ptr) (n : ℕ) → has p c.live ≡ false → n < 2 ^ 32 → Inv (System.started p n c) ws
  unfolding Acquire.new available_permits is_closed
  start_call p n out small =
      let apart : has p ws ≡ false = elim (Bool-cases (has p ws)) [
        | inl inside ↦ let there = (i.waiting p inside).0 in cc
        | inr o ↦ o
      ] in
      let (fresh, wf, same) = new-IsFresh n p c.sem ws small apart i.wf in
      let d = System.started p n c in
      let kept : (q : Ptr) → (p == q) ≡ false → d.sem.nodes q ≡ c.sem.nodes q =
        λ q ne. ground (arith, ne) in
      let other : (q : Ptr) → (p == q) ≡ false → d.futures q ≡ c.futures q =
        λ q ne. ground (arith, ne) in
      let far : (q : Ptr) → has q c.live ≡ true → (p == q) ≡ false =
        λ q there. has_apart p q c.live out there in
      record {
        wf = wf;
        distinct = (out, i.distinct);
        waiting = λ q inside.
            let (there, busy) = i.waiting q inside in
            (ground (arith, there), ap (λ (b : Acquire). b.queued) (other q (far q there)) ∙ busy);
        waker = λ q inside.
            ap (λ (v : Waiter). is_some v.waker) (kept q (far q (i.waiting q inside).0))
            ∙ i.waker q inside;
        future = λ q there. elim (Bool-cases (p == q)) [
          | inl e ↦
              subst (λ x. IsFuture (d.futures x) (need d.sem.nodes x)) (eq_of_test p q e)
                (subst (λ b. IsFuture b (need d.sem.nodes p)) (sym (update_same c.futures p fut))
                  (record {
                    need_le = omega (arith, fresh.whole);
                    small = small;
                    whole = λ _. fresh.whole;
                  }))
          | inr ne ↦
              subst (λ b. IsFuture b (need d.sem.nodes q)) (sym (other q ne))
                (subst (λ (v : Waiter). IsFuture (c.futures q) v.state) (sym (kept q ne))
                  (i.future q (ground (arith, there, ne))))
        ];
        served = λ q there busy q_out free. elim (Bool-cases (p == q)) [
          | inl e ↦ absurd (fresh_idle (eq_of_test p q e) busy)
          | inr ne ↦
              ap (λ (v : Waiter). v.state) (kept q ne)
              ∙ i.served q (ground (arith, there, ne))
                  (sym (ap (λ (b : Acquire). b.queued) (other q ne)) ∙ busy) q_out free
        ];
        sum = omega (
          arith,
          i.sum,
          fresh.whole,
          ap (λ (b : Acquire). b.num_permits) (update_same c.futures p fut),
          total-same (need c.sem.nodes) (need d.sem.nodes) c.live
              (λ q there. ap (λ (v : Waiter). v.state) (kept q (far q there))),
          total-same (λ q. (c.futures q).num_permits) (λ q. (d.futures q).num_permits) c.live
              (λ q there. ap (λ (b : Acquire). b.num_permits) (other q (far q there))),
        );
        limit = i.limit;
      }
    where
      fut : Acquire
      fut = record { num_permits = n; queued = false }

      fresh_idle : {q : Ptr} → p ≡ q → (update c.futures p fut q).queued ≡ true → ⊥
      fresh_idle e busy = ground (arith, e, busy, ==_self p)
