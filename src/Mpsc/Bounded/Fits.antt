-- ===== src/Mpsc/Bounded/Fits.antt =====
-- src/mpsc/bounded.rs: each operation against the invariant of a run.
use local_sync.Prelude.{
  ℕ, ◌+◌, ◌<◌, ◌≡◌, refl, sym, ap, ◌∙◌, subst, inl, inr, true, false, Option, some, is_some, List,
  [], ◌∷◌, ◌++◌, arith, ◌==◌, ==_self, eq_of_test, Bool-cases, has, append_assoc, length,
  length-append, Result, ok, err, Returns, returns, Returns-bind, Returns-mono,
}
use local_sync.Prelude.Members.{delete, has-delete_le, delete-absent}
use local_sync.LinkedList.{Ptr}
use local_sync.WakeList.{Waker}
use local_sync.Semaphore.Inner.{Inner, update}
use local_sync.Semaphore.Serve.{update_same}
use local_sync.Semaphore.Acquire
use local_sync.Semaphore.Acquire.{Acquire, AcquireError, Poll, ready, pending}
use local_sync.Semaphore.Queued.{drop_idle}
use local_sync.Semaphore.System.Inv.{Inv}
use local_sync.Semaphore.System.Adjust.{Inv-futures, Inv-front}
use local_sync.Semaphore.System.Calls.{Good, start_call}
use local_sync.Semaphore.System.Drops.{drop_call}
use local_sync.Semaphore.System.Polls.{AfterPoll, poll_call}
use local_sync.Mpsc.Chan
use local_sync.Mpsc.Chan.{Chan, inner_permits}
use local_sync.Mpsc.Order.{Holds, send-Sent}
use local_sync.Mpsc.Bounded.{
  Sending, starting, acquiring, finished, send_acquired, send_await, poll_send, drop_send,
}
use local_sync.Mpsc.Bounded.Runs.{Run, view, polled}

new_one : (s : Inner) → (p : Ptr) → (Acquire.new 1 p s).0.num_permits ≡ 1
unfolding Acquire.new
new_one s p = refl

module _ {ℓ} {T : Type ℓ} where
  -- The queue holds `xs`, each with a permit: what was accepted is what was taken and `xs`.
  pub record Fits (n : ℕ) (xs : List T) (r : Run T) : Type ℓ where
    pub good : Good (view n xs r)
    pub holds : Holds r.chan.queue xs
    pub order : r.accepted ≡ r.taken ++ xs
    pub one :
        (p : Ptr)
        → has p r.live ≡ true
        → ((r.futures p).num_permits ≡ 1) × (is_some (r.values p) ≡ true)

  abbrev pub Fit : ℕ → Run T → Type ℓ
  Fit n r = (xs : List T) × Fits n xs r

  module _ (n : ℕ) (r : Run T) (xs : List T) (f : Fits n xs r) (fuel : ℕ)
      (enough : length r.live + 1 < fuel) (p : Ptr) where
    -- The send at `p` is gone.
    others_one :
        (q : Ptr)
        → has q (delete p r.live) ≡ true
        → ((r.futures q).num_permits ≡ 1) × (is_some (r.values q) ≡ true)
    others_one q there = f.one q (has-delete_le p q r.live there)

    -- The send at `p` waits.
    waits_one :
        (v : T) (b : Acquire) (q : Ptr)
        → b.num_permits ≡ 1
        → has q (p ∷ delete p r.live) ≡ true
        → ((update r.futures p b q).num_permits ≡ 1)
          × (is_some (update r.values p (some v) q) ≡ true)
    waits_one v b q one there = elim (Bool-cases (q == p)) [
      | inl e ↦ rw e (one, refl)
      | inr ne ↦ rw ne (others_one q (ground (arith, there, ne)))
    ]

    -- After a poll of the future of the send of `v` at `p`
    acquired-Fit :
        (v : T) (x : Acquire.Polled) (b : Acquire)
        → has p r.live ≡ true
        → AfterPoll (view n xs r) p (x, b)
        → Returns (λ y. Fit n (polled p v r y)) (send_acquired fuel p v r.chan (x, b))
    unfolding send_acquired inner_permits
    acquired-Fit v (pending, t) b here (((ws, i), free, still), num) = returns (
      xs,
      record {
        good = (ws, Inv-front i p here);
        holds = f.holds;
        order = f.order;
        one = λ q. waits_one v b q (num ∙ (f.one p here).0);
      },
    )
    acquired-Fit v (ready (err e), t) b here (shut, same, own) =
        let (ws, i) = f.good in
        rw (same, own)
          (Returns-bind (drop_call i fuel (omega (arith, enough)) p here) λ s (g, k).
            returns (xs, record { good = g; holds = f.holds; order = f.order; one = others_one }))
    acquired-Fit v (ready (ok u), t) b here ((g, free, still), own) =
        rw (drop_idle fuel p b t (ap (λ (a : Acquire). a.queued) own)) (
          Returns-bind
            (send-Sent (inner_permits fuel) v (record r.chan { semaphore = t }) xs f.holds still)
            λ (res, d) (e, s). rw e (
              returns (
                xs ++ v ∷ [],
                record {
                  good =
                      subst
                        (λ k. Good (record (view n xs r) {
                          sem = k;
                          live = delete p r.live;
                          held = length (xs ++ v ∷ []);
                        }))
                        (sym s.semaphore)
                        (subst
                          (λ k.
                            Good
                              (record (view n xs r) { sem = t; live = delete p r.live; held = k }))
                          (omega (
                            arith,
                            ap (λ (a : Acquire). a.num_permits) own,
                            (f.one p here).0,
                            length-append xs (v ∷ []),
                          ))
                          g);
                  holds = s.holds;
                  order = ap (λ l. l ++ v ∷ []) f.order ∙ append_assoc r.taken xs (v ∷ []);
                  one = others_one;
                },
              )))

    await-Fit :
        (cx : Waker) (v : T) (a : Acquire)
        → has p r.live ≡ true
        → r.futures p ≡ a
        → Returns (λ y. Fit n (polled p v r y)) (send_await fuel cx p v a r.chan)
    unfolding send_await
    await-Fit cx v a here own =
        let (ws, i) = f.good in
        Returns-bind
          (subst
            (λ x. Returns (AfterPoll (view n xs r) p) (Acquire.poll fuel cx p x r.chan.semaphore))
            own (poll_call i fuel (omega (arith, enough)) cx p here))
          λ (x, b) g. acquired-Fit v x b here g

    -- A poll of a send that waits
    pub poll-Fit :
        (cx : Waker) (v : T)
        → has p r.live ≡ true
        → Returns
            (λ y. Fit n (polled p v r y))
            (poll_send fuel cx p (acquiring v (r.futures p)) r.chan)
    unfolding poll_send
    poll-Fit cx v here = await-Fit cx v (r.futures p) here refl

    pub drop-Fit :
        (v : T)
        → has p r.live ≡ true
        → Returns
            (λ c. Fit n (record r { chan = c; live = delete p r.live }))
            (drop_send fuel p (acquiring v (r.futures p)) r.chan)
    unfolding drop_send
    drop-Fit v here =
        let (ws, i) = f.good in
        Returns-bind (drop_call i fuel (omega (arith, enough)) p here) λ s (g, k).
          returns (xs, record { good = g; holds = f.holds; order = f.order; one = others_one })

  -- Only the sends that wait count.
  moved :
      {n : ℕ} {xs : List T} (r : Run T) (l : List Ptr) (g : Ptr → Acquire) (h : Ptr → Option T)
      → Fits n xs r
      → r.live ≡ l
      → ((q : Ptr) → has q l ≡ true → (g q ≡ r.futures q) × (h q ≡ r.values q))
      → Fits n xs (record r { live = l; futures = g; values = h })
  moved {n} {xs} r l g h f e same =
      let (ws, i) = f.good in
      record {
        good = (
          ws,
          Inv-futures (subst (λ k. Inv (record (view n xs r) { live = k }) ws) e i) g
              λ q there. (same q there).0,
        );
        holds = f.holds;
        order = f.order;
        one = λ q there.
            let (a, b) = f.one q (ap (has q) e ∙ there) in
            let (c, d) = same q there in
            (ap (λ (x : Acquire). x.num_permits) c ∙ a, ap is_some d ∙ b);
      }

  module _ (n : ℕ) (r : Run T) (p : Ptr) (out : has p r.live ≡ false) (w : T) where
    -- with the send of `w` at `p`
    abbrev begun : Acquire × Inner → Run T
    begun (a, s) = record r {
      chan = record r.chan { semaphore = s };
      live = p ∷ r.live;
      futures = update r.futures p a;
      values = update r.values p (some w);
    }

    gone : delete p (p ∷ r.live) ≡ delete p r.live
    gone = ground (arith, ==_self p, delete-absent p r.live out)

    apart : (q : Ptr) → has q (delete p r.live) ≡ true → (q == p) ≡ false
    apart q there = elim (Bool-cases (q == p)) [
      | inl e ↦ absurd (hit (eq_of_test q p e) there)
      | inr ne ↦ ne
    ]
      where
        hit : {q : Ptr} → q ≡ p → has q (delete p r.live) ≡ true → ⊥
        hit same h = let absent = ap (has p) (delete-absent p r.live out) ∙ out in cc

    twice {κ} :
        {A : Type κ} (g : Ptr → A) (x y : A) (q : Ptr)
        → update g p y q ≡ update (update g p x) p y q
    twice g x y q = elim (Bool-cases (q == p)) [ inl e ↦ rw e refl | inr ne ↦ rw ne refl ]

    -- It does not show that the send had begun before.
    first-Fit :
        (x : Acquire × Inner)
        (y : Poll (Result Chan.SendError (Unit {0})) × Sending T × Chan T Inner)
        → Fit n (polled p w (begun x) y)
        → Fit n (polled p w r y)
    first-Fit x (res, acquiring v b, c) (xs, f) = (
      xs,
      moved (polled p w (begun x) (res, acquiring v b, c)) (p ∷ delete p r.live)
          (update r.futures p b) (update r.values p (some v)) f (ap (λ l. p ∷ l) gone)
          λ q _. (twice r.futures x.0 b q, twice r.values (some w) (some v) q),
    )
    first-Fit x (res, starting v, c) (xs, f) = (
      xs,
      moved (polled p w (begun x) (res, starting v, c)) (delete p r.live) r.futures r.values f gone
          λ q there. let ne = apart q there in (rw ne refl, rw ne refl),
    )
    first-Fit x (res, finished, c) (xs, f) = (
      xs,
      moved (polled p w (begun x) (res, finished, c)) (delete p r.live) r.futures r.values f gone
          λ q there. let ne = apart q there in (rw ne refl, rw ne refl),
    )

    -- The first poll of a send
    pub send-Fit :
        (cx : Waker) (xs : List T) (fuel : ℕ)
        → Fits n xs r
        → length r.live + 2 < fuel
        → Returns (λ y. Fit n (polled p w r y)) (poll_send fuel cx p (starting w) r.chan)
    unfolding poll_send
    send-Fit cx xs fuel f enough =
        let (ws, i) = f.good in
        let x = Acquire.new 1 p r.chan.semaphore in
        let num : x.0.num_permits ≡ 1 = new_one r.chan.semaphore p in
        let g : Fits n xs (begun x) = record {
          good = (ws, start_call i fuel (omega (arith, enough)) p 1 out (omega arith));
          holds = f.holds;
          order = f.order;
          one = λ q there. elim (Bool-cases (q == p)) [
            | inl e ↦ rw e (num, refl)
            | inr ne ↦ rw ne (f.one q (ground (arith, there, ne)))
          ];
        } in
        Returns-mono
          (await-Fit n (begun x) xs g fuel (omega (arith, enough)) p cx w x.0
            (ground (arith, ==_self p)) (update_same r.futures p x.0))
          λ y fit. first-Fit x y fit
