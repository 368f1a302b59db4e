-- ===== src/Semaphore/System/Adjust.antt =====
-- The invariant of a system of src/semaphore.rs when what clients know of it changes and the semaphore
-- does not.
use local_sync.Prelude.{
  ℕ, ◌+◌, ◌≤◌, ◌≡◌, sym, ap, ◌∙◌, subst, inl, inr, true, List, ◌∷◌, arith, ◌==◌, eq_of_test,
  Bool-cases, has,
}
use local_sync.Prelude.Members.{
  delete, has-delete_self, has-delete_other, delete-Distinct, total-same, total-delete,
}
use local_sync.LinkedList.{Ptr}
use local_sync.Semaphore.Acquire.{Acquire}
use local_sync.Semaphore.Serve.{need}
use local_sync.Semaphore.System.{System}
use local_sync.Semaphore.System.Inv.{IsFuture, Inv}

module _ {c : System} {ws : List Ptr} (i : Inv c ws) where
  -- Only the futures that live count.
  pub Inv-futures :
      (f : Ptr → Acquire)
      → ((q : Ptr) → has q c.live ≡ true → f q ≡ c.futures q)
      → Inv (record c { futures = f }) ws
  Inv-futures f same = record {
    wf = i.wf;
    distinct = i.distinct;
    waiting = λ q inside.
        let (there, busy) = i.waiting q inside in
        (there, ap (λ (a : Acquire). a.queued) (same q there) ∙ busy);
    waker = i.waker;
    future = λ q there.
        subst (λ a. IsFuture a (need c.sem.nodes q)) (sym (same q there)) (i.future q there);
    served = λ q there busy.
        i.served q there (sym (ap (λ (a : Acquire). a.queued) (same q there)) ∙ busy);
    sum = omega (
      arith,
      i.sum,
      total-same (λ q. (c.futures q).num_permits) (λ q. (f q).num_permits) c.live
          (λ q there. ap (λ (a : Acquire). a.num_permits) (same q there)),
    );
    limit = i.limit;
  }

  -- Permits that a client had are gone.
  pub Inv-forget :
      (h k : ℕ)
      → k ≤ c.capacity
      → c.capacity + h ≡ k + c.held
      → Inv (record c { held = h; capacity = k }) ws
  Inv-forget h k fewer both = record {
    wf = i.wf;
    distinct = i.distinct;
    waiting = i.waiting;
    waker = i.waker;
    future = i.future;
    served = i.served;
    sum = omega (arith, i.sum, both);
    limit = omega (arith, i.limit, fewer);
  }

  -- The order of the futures does not matter.
  pub Inv-front : (p : Ptr) → has p c.live ≡ true → Inv (record c { live = p ∷ delete p c.live }) ws
  Inv-front p here = record {
    wf = i.wf;
    distinct = (has-delete_self p c.live i.distinct, delete-Distinct p c.live i.distinct);
    waiting = λ q inside. let (there, busy) = i.waiting q inside in (same q ∙ there, busy);
    waker = i.waker;
    future = λ q there. i.future q (sym (same q) ∙ there);
    served = λ q there. i.served q (sym (same q) ∙ there);
    sum = omega (
      arith,
      i.sum,
      total-delete (λ q. (c.futures q).num_permits) p c.live here,
      total-delete (need c.sem.nodes) p c.live here,
    );
    limit = i.limit;
  }
    where
      same : (q : Ptr) → has q (p ∷ delete p c.live) ≡ has q c.live
      same q = elim (Bool-cases (p == q)) [
        | inl e ↦ ground (arith, e, eq_of_test p q e, here)
        | inr ne ↦ ground (arith, ne, has-delete_other p q c.live ne)
      ]
