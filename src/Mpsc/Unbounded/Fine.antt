-- ===== src/Mpsc/Unbounded/Fine.antt =====
-- src/mpsc/unbounded.rs: what holds of a channel without a bound and its handles, whatever its clients
-- do, and that each call keeps it.
use local_sync.Prelude.{
  ℕ, zero, suc, ◌<◌, ◌≡◌, sym, ap, ◌∙◌, subst, inl, inr, Bool, true, false, some, List, [], ◌∷◌,
  ◌++◌, append_assoc, append-nil, arith, Returns, returns, Returns-through,
}
use local_sync.WakeList.{Waker}
use local_sync.Mpsc.Chan
use local_sync.Mpsc.Chan.{Chan, Unlimited, unlimited_permits, registered}
use local_sync.Mpsc.Order.{Holds}
use local_sync.Mpsc.Handles
use local_sync.Mpsc.Handles.{Shared}
use local_sync.Mpsc.Unbounded.Runs
use local_sync.Mpsc.Unbounded.Runs.{Run, Op, step}
use local_sync.Mpsc.Unbounded.Calls.{send-Given}

module _ {ℓ} {T : Type ℓ} where
  -- A channel that is in use: `n` senders, with `xs` in the queue. A waker that is registered waits for
  -- a value that is not there yet, from a sender that is.
  pub record Open (n : ℕ) (rx : Bool) (c : Chan T Unlimited) (xs : List T) : Type ℓ where
    pub holds : Holds c.queue xs
    pub count : c.tx_count ≡ n
    pub ended : n ≡ 0 → c.semaphore.closed ≡ true
    pub asleep : (w : Waker) → c.rx_waker ≡ some w → (xs ≡ []) × (rx ≡ true → 0 < n)

  abbrev pub run : ℕ → Bool → Chan T Unlimited → ℕ → Bool → List T → List T → List T → Run T
  run n rx c strong live lo ac ta = record {
    shared = record { chan = c; strong = strong; live = live; lost = lo };
    txs = n;
    rx = rx;
    accepted = ac;
    taken = ta;
  }

  pub data Fine : Run T → Type ℓ where
    receiving :
        (n : ℕ) (c : Chan T Unlimited) (xs ac ta : List T)
        → Open n true c xs
        → ac ≡ ta ++ xs
        → Fine (run n true c (suc n) true [] ac ta)
    hung_up :
        (n : ℕ) (c : Chan T Unlimited) (lo ac ta : List T)
        → Open (suc n) false c []
        → c.semaphore.closed ≡ true
        → ac ≡ ta ++ lo
        → Fine (run (suc n) false c (suc n) true lo ac ta)
    over :
        (c : Chan T Unlimited) (lo ac ta : List T)
        → ac ≡ ta ++ lo
        → Fine (run 0 false c 0 false lo ac ta)

  cloned :
      (n : ℕ) (rx : Bool) (c : Chan T Unlimited) (xs : List T)
      → Open (suc n) rx c xs
      → Open (suc (suc n)) rx (Chan.clone_tx c) xs
  unfolding Chan.clone_tx
  cloned n rx c xs o = record {
    holds = o.holds;
    count = omega (arith, o.count);
    ended = λ z. absurd (omega (arith, z));
    asleep = λ w k. ((o.asleep w k).0, λ _. omega arith);
  }

  module _ (fuel blocks : ℕ) where
    pub send-Fine : (t : T) {r : Run T} → Fine r → Returns Fine (step fuel blocks (Runs.send t) r)
    unfolding step Handles.send Chan.send unlimited_permits
    send-Fine t (receiving zero c xs ac ta o e) = returns (receiving zero c xs ac ta o e)
    send-Fine t (receiving (suc n) c xs ac ta o e) =
        Returns-through _ _ (send-Given c t xs o.holds) λ (r, d) g. elim g [
          | inl (shut, er, ed) ↦ returns (
              receiving (suc n) d xs (ac ++ Runs.logged t r) ta
                (subst (λ d. Open (suc n) true d xs) (sym ed) o)
                (ap (λ r. ac ++ Runs.logged t r) er ∙ append-nil ac ∙ e))
          | inr (free, er, s) ↦ returns (
              receiving (suc n) d (xs ++ t ∷ []) (ac ++ Runs.logged t r) ta
                (record {
                  holds = s.holds;
                  count = s.tx_count ∙ o.count;
                  ended = λ z. absurd (omega (arith, z));
                  asleep = λ w k. cc;
                })
                (ap (λ r. ac ++ Runs.logged t r) er
                  ∙ ap (λ l. l ++ t ∷ []) e
                  ∙ append_assoc ta xs (t ∷ [])))
        ]
    send-Fine t (hung_up n c lo ac ta o shut e) =
        Returns-through _ _ (send-Given c t [] o.holds) λ (r, d) g. elim g [
          | inl (_, er, ed) ↦ returns (
              hung_up n d lo (ac ++ Runs.logged t r) ta
                (subst (λ d. Open (suc n) false d []) (sym ed) o)
                (ap (λ d. d.semaphore.closed) ed ∙ shut)
                (ap (λ r. ac ++ Runs.logged t r) er ∙ append-nil ac ∙ e))
          | inr (free, er, s) ↦ cc
        ]
    send-Fine t (over c lo ac ta e) = returns (over c lo ac ta e)

    pub clone_tx-Fine : {r : Run T} → Fine r → Returns Fine (step fuel blocks Runs.clone_tx r)
    unfolding step Handles.clone_tx Chan.clone_tx
    clone_tx-Fine (receiving zero c xs ac ta o e) = returns (receiving zero c xs ac ta o e)
    clone_tx-Fine (receiving (suc n) c xs ac ta o e) =
        returns (receiving (suc (suc n)) (Chan.clone_tx c) xs ac ta (cloned n true c xs o) e)
    clone_tx-Fine (hung_up n c lo ac ta o shut e) =
        returns (hung_up (suc n) (Chan.clone_tx c) lo ac ta (cloned n false c [] o) shut e)
    clone_tx-Fine (over c lo ac ta e) = returns (over c lo ac ta e)
