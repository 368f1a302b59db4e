-- ===== src/Semaphore/System/Drops.antt =====
-- The drop of a future of src/semaphore.rs against the invariant of the whole system.
use local_sync.Prelude.{
  ℕ, ◌+◌, ◌-◌, ◌<◌, ◌≡◌, refl, sym, ap, ◌∙◌, subst, inl, inr, true, false, List, ◌∷◌, ◌++◌, arith,
  ◌==◌, Bool-cases, has, has_apart, has-append, Distinct, Distinct-delete, length, length-append,
  Returns, returns, Returns-mono,
}
use local_sync.Prelude.Members.{
  delete, has-delete_other, has-delete_le, has-delete_self, delete-Distinct, has-split,
  total-delete,
}
use local_sync.LinkedList.{Ptr}
use local_sync.Semaphore.Inner.{Inner}
use local_sync.Semaphore.Acquire
use local_sync.Semaphore.Acquire.{Acquire, ready, pending}
use local_sync.Semaphore.Serve.{need}
use local_sync.Semaphore.WellFormed.{WellFormed}
use local_sync.Semaphore.Queued.{drop_idle, drop_waiting, drop_taken}
use local_sync.Semaphore.Effects.{Within, Effects, granted-Effects}
use local_sync.Semaphore.System.{System}
use local_sync.Semaphore.System.Inv.{IsFuture, Inv, fits}
use local_sync.Semaphore.System.Moves.{Effects-Inv, idle_apart}
use local_sync.Semaphore.System.Calls.{Kept, fuel_ok, ws_Distinct}

module _ {c : System} {ws : List Ptr} (i : Inv c ws) (fuel : ℕ)
    (enough : length c.live + 1 < fuel) where
  -- A drop hands out what the future held among the others.
  dropped :
      (p : Ptr) (ws' left : List Ptr) (t : Inner)
      → has p c.live ≡ true
      → Effects ((c.futures p).num_permits - need c.sem.nodes p) c.sem ws' (delete p c.live) t left
      → Within ws' (delete p c.live)
      → ((q : Ptr) → has q (delete p c.live) ≡ true → has q ws' ≡ has q ws)
      → Kept c (record c { sem = t; live = delete p c.live })
  dropped p ws' left t here e sub same = (
    (
      left,
      Effects-Inv i ((c.futures p).num_permits - need c.sem.nodes p) c.held c.capacity ws' left
          (delete p c.live) t e (delete-Distinct p c.live i.distinct)
          (λ q there. has-delete_le p q c.live there) sub same
          (omega (
            arith,
            i.sum,
            (i.future p here).need_le,
            total-delete (λ q. (c.futures q).num_permits) p c.live here,
            total-delete (need c.sem.nodes) p c.live here,
          ))
          i.limit,
    ),
    e.shut,
  )

  -- Nothing held is nothing handed out.
  no-Effects :
      (p : Ptr)
      → IsFuture (c.futures p) (need c.sem.nodes p)
      → (c.futures p).queued ≡ false
      → Effects ((c.futures p).num_permits - need c.sem.nodes p) c.sem ws (delete p c.live) c.sem ws
  no-Effects p f idle = record {
    wf = i.wf;
    within = λ q q_in. q_in;
    full = λ q q_in q_out. cc;
    outside = λ q _. refl;
    need_le = λ q. omega arith;
    waker = λ q _. refl;
    shut = refl;
    sum = omega (arith, f.whole idle);
  }

  pub drop_call :
      (p : Ptr)
      → has p c.live ≡ true
      → Returns
          (λ t. Kept c (record c { sem = t; live = delete p c.live }))
          (Acquire.drop fuel p (c.futures p) c.sem)
  drop_call p here =
      let f = i.future p here in
      let a = c.futures p in
      let n : ℕ = a.num_permits - need c.sem.nodes p in
      let room = fits i n (omega (arith, f.small)) in
      elim (Bool-cases a.queued) [
        | inr idle ↦
            let apart = idle_apart i p idle in
            rw (drop_idle fuel p a c.sem idle) (
              returns
                (dropped p ws ws c.sem here (no-Effects p f idle) (sub_of apart) (λ q _. refl)))
        | inl busy ↦ elim (Bool-cases (has p ws)) [
          | inl inside ↦
              let (xs, ys, e) = has-split p ws inside in
              let (p_out, d) =
                Distinct-delete p xs ys (subst Distinct e (ws_Distinct i fuel enough)) in
              let same : (q : Ptr) → (p == q) ≡ false → has q (xs ++ ys) ≡ has q ws = λ q ne.
                ground (arith, has-append q xs ys, has-append q xs (p ∷ ys), ap (has q) e) in
              let sub : Within (xs ++ ys) (delete p c.live) = λ q q_in.
                let ne = has_apart p q (xs ++ ys) p_out q_in in
                has-delete_other p q c.live ne ∙ (i.waiting q (sym (same q ne) ∙ q_in)).0 in
              Returns-mono
                (drop_waiting fuel p a c.sem xs ys (subst (WellFormed c.sem) e i.wf) busy f.need_le
                  (omega (arith, f.small))
                  (omega (
                    arith,
                    (fuel_ok i fuel enough),
                    ap (λ l. length l) e,
                    length-append xs ys,
                    length-append xs (p ∷ ys),
                  )))
                λ t (g, wf).
                  dropped p (xs ++ ys) _ t here
                    (granted-Effects n c.sem t (xs ++ ys) (delete p c.live) d rest_Distinct sub room
                      g wf)
                    sub
                    λ q there.
                      same q (
                        has_apart p q (delete p c.live) (has-delete_self p c.live i.distinct) there)
          | inr out ↦
              let sub = sub_of out in
              Returns-mono
                (drop_taken fuel p a c.sem ws i.wf busy out f.need_le (omega (arith, f.small))
                  (fits i a.num_permits (omega (arith, f.small))) (fuel_ok i fuel enough))
                λ t (g, wf).
                  dropped p ws _ t here
                    (granted-Effects n c.sem t ws (delete p c.live) (ws_Distinct i fuel enough)
                      rest_Distinct sub room g wf)
                    sub (λ q _. refl)
        ]
      ]
    where
      rest_Distinct : Distinct (delete p c.live)
      rest_Distinct = delete-Distinct p c.live i.distinct

      sub_of : has p ws ≡ false → Within ws (delete p c.live)
      sub_of out q q_in =
          has-delete_other p q c.live (has_apart p q ws out q_in) ∙ (i.waiting q q_in).0
