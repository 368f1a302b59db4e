-- ===== src/Mpsc/Bounded/Taking.antt =====
-- src/mpsc/bounded.rs: the receiver's operations, and those on the handles, against the invariant.
use local_sync.Prelude.{
  ℕ, ◌+◌, ◌-◌, ◌≤◌, ◌<◌, ◌≡◌, refl, sym, ap, ◌∙◌, subst, inl, inr, true, List, [], ◌∷◌, ◌++◌,
  append_assoc, append-nil, arith, ◌==◌, ltb, Bool-cases, length, Returns, returns, Returns-bind,
  Returns-assert, Returns-if,
}
use local_sync.WakeList.{Waker}
use local_sync.Semaphore.System.Inv.{available_held}
use local_sync.Semaphore.System.Calls.{Good, release_call, close_call}
use local_sync.Mpsc.Drain.{len_lem}
use local_sync.Mpsc.Pop.{pop_unchecked-holds}
use local_sync.Mpsc.Chan
use local_sync.Mpsc.Chan.{Chan, inner_permits, wake_rx, take_one}
use local_sync.Mpsc.Order.{Holds, drain-Holds, wake_rx-woken}
use local_sync.Mpsc.Bounded
use local_sync.Mpsc.Bounded.Runs.{Run, view, received, tried}
use local_sync.Mpsc.Bounded.Fits.{Fits, Fit}

module _ {ℓ} {T : Type ℓ} (n : ℕ) (r : Run T) (fuel : ℕ) (enough : length r.live + 1 < fuel) where
  -- With the queue as it was
  same-Fit :
      (xs : List T) (c : Chan T _)
      → Fits n xs r
      → c.queue ≡ r.chan.queue
      → Good (record (view n xs r) { sem = c.semaphore })
      → Fit n (record r { chan = c })
  same-Fit xs c f same g = (
    xs,
    record {
      good = g;
      holds = subst (λ q. Holds q xs) (sym same) f.holds;
      order = f.order;
      one = f.one;
    },
  )

  take_one-Fit :
      (x : T) (xs : List T)
      → Fits n (x ∷ xs) r
      → Returns
          (λ (v, c). Fit n (record r { chan = c; taken = r.taken ++ v ∷ [] }))
          (take_one (inner_permits fuel) r.chan)
  unfolding inner_permits
  take_one-Fit x xs f =
      let (ws, i) = f.good in
      let (ps, fs, is) = f.holds in
      Returns-bind (pop_unchecked-holds x r.chan.queue ps fs xs is) λ (v, q) (e, h).
        Returns-bind
          (release_call i fuel enough 1 (length xs) n (omega arith) (omega arith) i.limit)
          λ t (g, _). returns (
            xs,
            record {
              good = g;
              holds = h;
              order =
                  f.order
                  ∙ ap (λ y. r.taken ++ y ∷ xs) (sym e)
                  ∙ sym (append_assoc r.taken (v ∷ []) xs);
              one = f.one;
            },
          )

  pub try_recv-Fit :
      (xs : List T) → Fits n xs r → Returns (λ x. Fit n (tried r x)) (Bounded.try_recv fuel r.chan)
  unfolding Bounded.try_recv Chan.try_recv inner_permits
  try_recv-Fit [] f =
      let (ps, fs, is) = f.holds in
      rw ((len_lem r.chan.queue ps fs [] is).1) (elim (Bool-cases (r.chan.tx_count == 0)) [
        | inl over ↦ rw over (returns ([], f))
        | inr more ↦ rw more (returns ([], f))
      ])
  try_recv-Fit (x ∷ xs) f =
      let (ps, fs, is) = f.holds in
      rw ((len_lem r.chan.queue ps fs (x ∷ xs) is).1)
        (Returns-bind (take_one-Fit x xs f) λ (v, c) g. returns g)

  pub recv-Fit :
      (cx : Waker) (xs : List T)
      → Fits n xs r
      → Returns (λ x. Fit n (received r x)) (Bounded.poll_recv fuel cx r.chan)
  unfolding Bounded.poll_recv Chan.recv inner_permits
  recv-Fit cx [] f =
      let (ps, fs, is) = f.holds in
      rw ((len_lem r.chan.queue ps fs [] is).1) (elim (Bool-cases (r.chan.tx_count == 0)) [
        | inl over ↦ rw over (returns ([], f))
        | inr more ↦
            rw more (
              returns ([], record { good = f.good; holds = f.holds; order = f.order; one = f.one }))
      ])
  recv-Fit cx (x ∷ xs) f =
      let (ps, fs, is) = f.holds in
      rw ((len_lem r.chan.queue ps fs (x ∷ xs) is).1)
        (Returns-bind (take_one-Fit x xs f) λ (v, c) g. returns g)

  pub close-Fit :
      (xs : List T)
      → Fits n xs r
      → Returns (λ c. Fit n (record r { chan = c })) (Bounded.close fuel r.chan)
  unfolding Bounded.close Chan.close_rx inner_permits
  close-Fit xs f =
      let (ws, i) = f.good in
      Returns-bind (close_call i fuel enough)
        λ t (g, _). returns (same-Fit xs (record r.chan { semaphore = t }) f refl g)

  pub drop_tx-Fit :
      (xs : List T)
      → Fits n xs r
      → ltb 0 r.chan.tx_count ≡ true
      → Returns (λ c. Fit n (record r { chan = c })) (Chan.drop_tx (inner_permits fuel) r.chan)
  unfolding Chan.drop_tx inner_permits
  drop_tx-Fit xs f some_tx =
      let (ws, i) = f.good in
      let c1 : Chan T _ = record r.chan { tx_count = r.chan.tx_count - 1 } in
      Returns-assert (ltb 0 r.chan.tx_count) some_tx (
        Returns-if (r.chan.tx_count == 1)
          (λ last. Returns-bind (close_call i fuel enough) λ t (g, _).
            let c2 : Chan T _ = record c1 { semaphore = t } in
            let (_, _, queue, sem, _) = wake_rx-woken (inner_permits fuel) c2 c2.rx_waker in
            returns (
              same-Fit xs (wake_rx c2 c2.rx_waker) f queue
                (subst (λ s. Good (record (view n xs r) { sem = s })) (sym sem) g)))
          λ others. returns (same-Fit xs c1 f refl f.good))

  pub drop_rx-Fit :
      (xs : List T)
      → Fits n xs r
      → n ≤ fuel
      → Returns
          (λ (vals, c). Fit n (record r { chan = c; taken = r.taken ++ vals }))
          (Chan.drop_rx (inner_permits fuel) fuel r.chan)
  unfolding Chan.drop_rx inner_permits
  drop_rx-Fit xs f more =
      let (ws, i) = f.good in
      let (ps, fs, is) = f.holds in
      Returns-bind (close_call i fuel enough) λ s ((left, j), _).
        Returns-bind
          (drain-Holds fuel r.chan.queue xs f.holds (omega (arith, available_held i, more)))
          λ (vals, q) (e, h). rw ((len_lem r.chan.queue ps fs xs is).0) (
            Returns-bind
              (release_call j fuel enough (length xs) 0 n (omega (arith, available_held i, i.limit))
                (omega arith) i.limit)
              λ t (g, _). returns (
                [],
                record {
                  good = g;
                  holds = h;
                  order =
                      f.order ∙ ap (λ l. r.taken ++ l) (sym e) ∙ sym (append-nil (r.taken ++ vals));
                  one = f.one;
                },
              ))
