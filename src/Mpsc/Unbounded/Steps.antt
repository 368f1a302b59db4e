-- ===== src/Mpsc/Unbounded/Steps.antt =====
-- src/mpsc/unbounded.rs: the drops of the handles, from a state of Fine.
use local_sync.Prelude.{
  ℕ, zero, suc, ◌+◌, ◌≤◌, ◌<◌, ◌≡◌, refl, sym, ap, ◌∙◌, subst, Bool, true, false, some, List, [],
  ◌++◌, append-nil, arith, Returns, returns, Returns-bind, Returns-through,
}
use local_sync.WakeList.{Waker}
use local_sync.Mpsc.Chan.{Chan, Unlimited, unlimited_permits}
use local_sync.Mpsc.Order.{Holds}
use local_sync.Mpsc.Fresh.{drop_chan-lost}
use local_sync.Mpsc.Handles
use local_sync.Mpsc.Handles.{Shared}
use local_sync.Mpsc.Unbounded.Runs
use local_sync.Mpsc.Unbounded.Runs.{Run, Op, step}
use local_sync.Mpsc.Unbounded.Calls.{Left, drop_tx-Left, drop_rx-Drained}
use local_sync.Mpsc.Unbounded.Fine.{Open, run, Fine, receiving, hung_up, over}

module _ {ℓ} {T : Type ℓ} where
  -- The waker that is still registered after one of `n + 1` senders is gone
  Left-asleep :
      (n : ℕ) (rx : Bool) (c d : Chan T Unlimited) (xs : List T)
      → Open (suc n) rx c xs
      → Left c n d
      → (w : Waker) → d.rx_waker ≡ some w
      → (xs ≡ []) × (rx ≡ true → 0 < n)
  Left-asleep zero rx c d xs o left w k = let (_, gone, _) = left.last refl in cc
  Left-asleep (suc n) rx c d xs o left w k =
      let (_, same) = left.more (omega arith) in ((o.asleep w (sym same ∙ k)).0, λ _. omega arith)

  Left-Open :
      (n : ℕ) (rx : Bool) (c d : Chan T Unlimited) (xs : List T)
      → Open (suc n) rx c xs
      → Left c n d
      → Open n rx d xs
  Left-Open n rx c d xs o left = record {
    holds = subst (λ q. Holds q xs) (sym left.queue) o.holds;
    count = left.count;
    ended = λ z. (left.last z).0;
    asleep = Left-asleep n rx c d xs o left;
  }

  module _ (fuel blocks : ℕ) where
    drop_tx-over :
        (c : Chan T Unlimited) (lo ac ta : List T)
        → Open 1 false c []
        → c.queue.fresh ≤ blocks
        → ac ≡ ta ++ lo
        → Returns
            (λ s. Fine (record (run 1 false c 1 true lo ac ta) { shared = s; txs = 0 }))
            (Handles.drop_tx unlimited_permits fuel blocks Runs.tx_rc
              (Run.shared (run 1 false c 1 true lo ac ta)))
    unfolding Handles.drop_tx Handles.drop_rc
    drop_tx-over c lo ac ta o room e =
        Returns-through _ _ (drop_tx-Left c 0 (omega (arith, o.count))) λ d left.
          Returns-bind
            (drop_chan-lost fuel blocks d [] (Left-Open 0 false c d [] o left).holds (omega arith)
              (omega (arith, ap (λ q. q.fresh) left.queue, room)))
            λ (vals, u) none_left. returns (
              over u (lo ++ vals) ac ta
                (e ∙ ap (λ l. ta ++ l) (sym (append-nil lo) ∙ ap (λ l. lo ++ l) (sym none_left))))

    -- When another handle keeps the allocation
    drop_tx-more :
        (n m : ℕ) (c : Chan T Unlimited) (lo : List T) (Q : Shared T Unlimited → Type ℓ)
        → c.tx_count ≡ n + 1
        → ((d : Chan T Unlimited)
            → Left c n d
            → Q (record { chan = d; strong = suc m; live = true; lost = lo }))
        → Returns Q (
            Handles.drop_tx unlimited_permits fuel blocks Runs.tx_rc
              (record { chan = c; strong = suc (suc m); live = true; lost = lo }))
    unfolding Handles.drop_tx Handles.drop_rc
    drop_tx-more n m c lo Q e next =
        Returns-through _ _ (drop_tx-Left c n e) λ d left. returns (next d left)

    pub drop_tx-Fine :
        {r : Run T}
        → Fine r
        → r.shared.chan.queue.fresh ≤ blocks
        → Returns Fine (step fuel blocks Runs.drop_tx r)
    unfolding step
    drop_tx-Fine (receiving zero c xs ac ta o e) room = returns (receiving zero c xs ac ta o e)
    drop_tx-Fine (receiving (suc n) c xs ac ta o e) room =
        Returns-bind
          (drop_tx-more n n c []
            (λ s. Fine (record (run n true c (suc n) true [] ac ta) { shared = s }))
            (omega (arith, o.count))
            λ d left. receiving n d xs ac ta (Left-Open n true c d xs o left) e)
          λ s f. returns f
    drop_tx-Fine (hung_up zero c lo ac ta o shut e) room =
        Returns-bind (drop_tx-over c lo ac ta o room e) λ s f. returns f
    drop_tx-Fine (hung_up (suc n) c lo ac ta o shut e) room =
        Returns-bind
          (drop_tx-more (suc n) n c lo
            (λ s. Fine (record (run (suc n) false c (suc n) true lo ac ta) { shared = s }))
            (omega (arith, o.count))
            λ d left.
              hung_up n d lo ac ta (Left-Open (suc n) false c d [] o left)
                (ap (λ p. p.closed) (left.more (omega arith)).0 ∙ shut) e)
          λ s f. returns f
    drop_tx-Fine (over c lo ac ta e) room = returns (over c lo ac ta e)

    drop_rx-last :
        (c : Chan T Unlimited) (xs ac ta : List T)
        → Open 0 true c xs
        → c.queue.len ≤ fuel
        → c.queue.fresh ≤ blocks
        → ac ≡ ta ++ xs
        → Returns
            (λ s. Fine (record (run 0 true c 1 true [] ac ta) { shared = s; rx = false }))
            (Handles.drop_rx unlimited_permits fuel blocks Runs.rx_rc
              (Run.shared (run 0 true c 1 true [] ac ta)))
    unfolding Handles.drop_rx Handles.drop_rc
    drop_rx-last c xs ac ta o enough room e =
        let (_, _, is) = o.holds in
        Returns-through _ _ (drop_rx-Drained c fuel xs o.holds (omega (arith, is.count, enough)))
          λ (vals, d) (ev, dr).
            Returns-bind
              (drop_chan-lost fuel blocks d [] dr.holds (omega arith)
                (omega (arith, dr.fresh, room)))
              λ (none_left, u) en. returns (
                over u (vals ++ none_left) ac ta (
                  e
                  ∙ ap (λ l. ta ++ l)
                      (sym ev ∙ sym (append-nil vals) ∙ ap (λ l. vals ++ l) (sym en))))

    drop_rx-more :
        (n : ℕ) (c : Chan T Unlimited) (xs ac ta : List T)
        → Open (suc n) true c xs
        → c.queue.len ≤ fuel
        → ac ≡ ta ++ xs
        → Returns
            (λ s.
              Fine (record (run (suc n) true c (suc (suc n)) true [] ac ta) {
                shared = s;
                rx = false;
              }))
            (Handles.drop_rx unlimited_permits fuel blocks Runs.rx_rc
              (Run.shared (run (suc n) true c (suc (suc n)) true [] ac ta)))
    unfolding Handles.drop_rx Handles.drop_rc
    drop_rx-more n c xs ac ta o enough e =
        let (_, _, is) = o.holds in
        Returns-through _ _ (drop_rx-Drained c fuel xs o.holds (omega (arith, is.count, enough)))
          λ (vals, d) (ev, dr). returns (
            hung_up n d vals ac ta
              (record {
                holds = dr.holds;
                count = ap (λ d. d.tx_count) dr.rest ∙ o.count;
                ended = λ z. absurd (omega (arith, z));
                asleep = λ w k. (refl, λ f. omega arith);
              })
              (ap (λ d. d.semaphore.closed) dr.rest) (e ∙ ap (λ l. ta ++ l) (sym ev)))

    pub drop_rx-Fine :
        {r : Run T}
        → Fine r
        → r.shared.chan.queue.len ≤ fuel
        → r.shared.chan.queue.fresh ≤ blocks
        → Returns Fine (step fuel blocks Runs.drop_rx r)
    unfolding step
    drop_rx-Fine (receiving zero c xs ac ta o e) enough room =
        Returns-bind (drop_rx-last c xs ac ta o enough room e) λ s f. returns f
    drop_rx-Fine (receiving (suc n) c xs ac ta o e) enough room =
        Returns-bind (drop_rx-more n c xs ac ta o enough e) λ s f. returns f
    drop_rx-Fine (hung_up n c lo ac ta o shut e) enough room =
        returns (hung_up n c lo ac ta o shut e)
    drop_rx-Fine (over c lo ac ta e) enough room = returns (over c lo ac ta e)
