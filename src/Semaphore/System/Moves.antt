-- ===== src/Semaphore/System/Moves.antt =====
-- The three ways in which a poll, a drop or a release of src/semaphore.rs changes a system: permits are
-- handed out, a future is done, a future waits.
use local_sync.Prelude.{
  ℕ, ◌+◌, ◌≤◌, ◌≡◌, sym, ap, ◌∙◌, subst, inl, inr, true, false, is_some, List, arith, ◌==◌,
  eq_of_test, Bool-cases, has, has_apart, Distinct,
}
use local_sync.Prelude.Members.{
  delete, has-delete_other, has-delete_le, delete-Distinct, total, total-delete, total-same,
  total-update,
}
use local_sync.LinkedList.{Ptr}
use local_sync.WakeList.{Waker}
use local_sync.Semaphore.Word.{max_permits}
use local_sync.Semaphore.Inner.{Inner, Waiter, update, is_closed, available_permits}
use local_sync.Semaphore.Acquire.{Acquire}
use local_sync.Semaphore.Serve.{need, update_same}
use local_sync.Semaphore.Fair.{total_need}
use local_sync.Semaphore.Futures.{Parked}
use local_sync.Semaphore.WellFormed.{WellFormed}
use local_sync.Semaphore.Effects.{Within, Effects}
use local_sync.Semaphore.System.{System}
use local_sync.Semaphore.System.Inv.{IsFuture, Inv}

module _ {c : System} {ws : List Ptr} (i : Inv c ws) where
  -- A future that is not queued is not among those that wait.
  pub idle_apart : (p : Ptr) → (c.futures p).queued ≡ false → has p ws ≡ false
  idle_apart p idle = elim (Bool-cases (has p ws)) [
    | inl inside ↦ let busy = (i.waiting p inside).1 in cc
    | inr out ↦ out
  ]

  -- Permits handed out to `ws'`, the waiters among `live'`
  pub Effects-Inv :
      (n h k : ℕ) (ws' left live' : List Ptr) (t : Inner)
      → Effects n c.sem ws' live' t left
      → Distinct live'
      → Within live' c.live
      → Within ws' live'
      → ((q : Ptr) → has q live' ≡ true → has q ws' ≡ has q ws)
      → available_permits c.sem + n + total (λ p. (c.futures p).num_permits) live' + h
        ≡ k + total_need c.sem.nodes live'
      → k ≤ max_permits
      → Inv (record c { sem = t; live = live'; held = h; capacity = k }) left
  Effects-Inv n h k ws' left live' t e d sub_live sub_ws same sum limit = record {
    wf = e.wf;
    distinct = d;
    waiting = λ p inside.
        let here = sub_ws p (e.within p inside) in
        (here, (i.waiting p (sym (same p here) ∙ e.within p inside)).1);
    waker = λ p inside.
        ap is_some (e.waker p inside)
        ∙ i.waker p (sym (same p (sub_ws p (e.within p inside))) ∙ e.within p inside);
    future = λ p here.
        let f = i.future p (sub_live p here) in
        record {
          need_le = omega (arith, e.need_le p, f.need_le);
          small = f.small;
          whole = λ idle.
              ap (λ (w : Waiter). w.state) (e.outside p (same p here ∙ idle_apart p idle))
              ∙ f.whole idle;
        };
    served = λ p here busy out free. elim (Bool-cases (has p ws')) [
      | inl inside ↦ e.full p inside out
      | inr outside ↦
          ap (λ (w : Waiter). w.state) (e.outside p outside)
          ∙ i.served p (sub_live p here) busy (sym (same p here) ∙ outside) (sym e.shut ∙ free)
    ];
    sum = omega (arith, e.sum, sum);
    limit = limit;
  }

  -- A future that is done
  pub finish-Inv :
      (p : Ptr) (t : Inner)
      → has p c.live ≡ true
      → has p ws ≡ false
      → WellFormed t ws
      → ((q : Ptr) → t.nodes q ≡ c.sem.nodes q)
      → (is_closed t ≡ false → is_closed c.sem ≡ false)
      → available_permits t + need c.sem.nodes p ≡ available_permits c.sem
      → Inv
          (record c { sem = t; live = delete p c.live; held = c.held + (c.futures p).num_permits })
          ws
  finish-Inv p t here out wf same shut spent = record {
    wf = wf;
    distinct = delete-Distinct p c.live i.distinct;
    waiting = λ q inside.
        let (there, busy) = i.waiting q inside in
        (has-delete_other p q c.live (has_apart p q ws out inside) ∙ there, busy);
    waker = λ q inside. ap (λ (w : Waiter). is_some w.waker) (same q) ∙ i.waker q inside;
    future = λ q there.
        let f = i.future q (has-delete_le p q c.live there) in
        let e = ap (λ (w : Waiter). w.state) (same q) in
        record {
          need_le = omega (arith, e, f.need_le);
          small = f.small;
          whole = λ idle. e ∙ f.whole idle;
        };
    served = λ q there busy apart free.
        ap (λ (w : Waiter). w.state) (same q)
        ∙ i.served q (has-delete_le p q c.live there) busy apart (shut free);
    sum = omega (
      arith,
      i.sum,
      spent,
      total-delete (λ q. (c.futures q).num_permits) p c.live here,
      total-delete (need c.sem.nodes) p c.live here,
      total-same (need c.sem.nodes) (need t.nodes) (delete p c.live)
          (λ q _. ap (λ (w : Waiter). w.state) (same q)),
    );
    limit = i.limit;
  }

  -- A future that waits, for the first time or still
  pub parked-Inv :
      (cx : Waker) (p : Ptr) (k : ℕ) (ws' : List Ptr) (t : Inner) (a : Acquire)
      → has p c.live ≡ true
      → Parked cx p k c.sem ws' t
      → a.num_permits ≡ (c.futures p).num_permits
      → a.queued ≡ true
      → has p ws' ≡ true
      → ((q : Ptr) → (p == q) ≡ false → has q ws' ≡ has q ws)
      → is_closed c.sem ≡ false
      → k + available_permits c.sem ≡ need c.sem.nodes p
      → Inv (record c { sem = t; futures = update c.futures p a }) ws'
  unfolding available_permits
  parked-Inv cx p k ws' t a here w num busy inside others free rest =
      let after = update c.futures p a in
      let self : after p ≡ a = update_same c.futures p a in
      let other : (q : Ptr) → (p == q) ≡ false → after q ≡ c.futures q =
        λ q ne. ground (arith, ne) in
      let kept : (q : Ptr) → (p == q) ≡ false → t.nodes q ≡ c.sem.nodes q =
        λ q ne. w.others q (ground (arith, ne)) in
      let own : IsFuture a (need t.nodes p) =
        let f = i.future p here in
        record {
          need_le = omega (arith, w.short, rest, f.need_le, num);
          small = omega (arith, f.small, num);
          whole = λ idle. cc;
        } in
      record {
        wf = w.wf;
        distinct = i.distinct;
        waiting = λ q q_in. elim (Bool-cases (p == q)) [
          | inl e ↦
              subst (λ x. (has x c.live ≡ true) × ((after x).queued ≡ true)) (eq_of_test p q e)
                (here, ap (λ (b : Acquire). b.queued) self ∙ busy)
          | inr ne ↦
              let (there, q_busy) = i.waiting q (sym (others q ne) ∙ q_in) in
              (there, ap (λ (b : Acquire). b.queued) (other q ne) ∙ q_busy)
        ];
        waker = λ q q_in. elim (Bool-cases (p == q)) [
          | inl e ↦
              subst (λ x. is_some (t.nodes x).waker ≡ true) (eq_of_test p q e) (ap is_some w.waker)
          | inr ne ↦
              ap (λ (v : Waiter). is_some v.waker) (kept q ne)
              ∙ i.waker q (sym (others q ne) ∙ q_in)
        ];
        future = λ q there. elim (Bool-cases (p == q)) [
          | inl e ↦
              subst (λ x. IsFuture (after x) (need t.nodes x)) (eq_of_test p q e)
                (subst (λ b. IsFuture b (need t.nodes p)) (sym self) own)
          | inr ne ↦
              subst (λ b. IsFuture b (need t.nodes q)) (sym (other q ne))
                (subst (λ (v : Waiter). IsFuture (c.futures q) v.state) (sym (kept q ne))
                  (i.future q there))
        ];
        served = λ q there q_busy q_out q_free. elim (Bool-cases (p == q)) [
          | inl e ↦ let same = eq_of_test p q e in absurd (parked_out same q_out inside)
          | inr ne ↦
              ap (λ (v : Waiter). v.state) (kept q ne)
              ∙ i.served q there (sym (ap (λ (b : Acquire). b.queued) (other q ne)) ∙ q_busy)
                  (sym (others q ne) ∙ q_out) free
        ];
        sum = omega (
          arith,
          i.sum,
          rest,
          w.drained,
          w.short,
          total-update (need c.sem.nodes) (need t.nodes) p c.live i.distinct here
              (λ q ne. ap (λ (v : Waiter). v.state) (kept q ne)),
          total-same (λ q. (c.futures q).num_permits) (λ q. (after q).num_permits) c.live
              (λ q _. elim (Bool-cases (p == q)) [
                | inl e ↦
                    subst (λ x. (after x).num_permits ≡ (c.futures x).num_permits)
                      (eq_of_test p q e) (ap (λ (b : Acquire). b.num_permits) self ∙ num)
                | inr ne ↦ ap (λ (b : Acquire). b.num_permits) (other q ne)
              ]),
        );
        limit = i.limit;
      }
    where
      parked_out : {q : Ptr} → p ≡ q → has q ws' ≡ false → has p ws' ≡ true → ⊥
      parked_out same out inn = cc
