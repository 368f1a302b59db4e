-- ===== src/Mpsc/Unbounded/Receiving.antt =====
-- src/mpsc/unbounded.rs: the calls of the receiver, from a state of Fine.
use local_sync.Prelude.{
  ℕ, ◌≡◌, refl, sym, ap, ◌∙◌, subst, inl, inr, Bool, true, false, List, [], ◌∷◌, ◌++◌, ◌==◌,
  if◌then◌else◌, append_assoc, append-nil, arith, err, Returns, returns, Returns-through,
}
use local_sync.WakeList.{Waker}
use local_sync.Mpsc.Chan
use local_sync.Mpsc.Chan.{Chan, Unlimited, unlimited_permits, registered}
use local_sync.Mpsc.Handles
use local_sync.Mpsc.Handles.{Shared}
use local_sync.Mpsc.Unbounded.Runs
use local_sync.Mpsc.Unbounded.Runs.{Run, Op, step}
use local_sync.Mpsc.Unbounded.Calls.{Took, recv-Received, try_recv-Tried}
use local_sync.Mpsc.Unbounded.Fine.{Open, Fine, receiving, hung_up, over}

not_read {ℓ} :
    {T : Type ℓ} (b : Bool)
    → Runs.tried {T = T} (if b then err Chan.disconnected else err Chan.empty) ≡ []
not_read true = refl
not_read false = refl

module _ {ℓ} {T : Type ℓ} where
  Took-Open :
      (n : ℕ) (x : T) (c d : Chan T Unlimited) (xs : List T)
      → Open n true c (x ∷ xs)
      → Took c xs d
      → Open n true d xs
  Took-Open n x c d xs o t = record {
    holds = t.holds;
    count = ap (λ d. d.tx_count) t.rest ∙ o.count;
    ended = λ z. ap (λ d. d.semaphore.closed) t.rest ∙ o.ended z;
    asleep = λ w k. let (never, _) = o.asleep w (sym (ap (λ d. d.rx_waker) t.rest) ∙ k) in cc;
  }

  took_order : (x v : T) (ac ta xs : List T) → v ≡ x → ac ≡ ta ++ x ∷ xs → ac ≡ (ta ++ v ∷ []) ++ xs
  took_order x v ac ta xs same e =
      e ∙ ap (λ y. ta ++ y ∷ xs) (sym same) ∙ sym (append_assoc ta (v ∷ []) xs)

  -- Nothing was read from an empty queue.
  unread : (ac ta l : List T) → l ≡ [] → ac ≡ ta ++ [] → ac ≡ (ta ++ l) ++ []
  unread ac ta l none_read e =
      e ∙ ap (λ m. m ++ []) (sym (append-nil ta) ∙ ap (λ m. ta ++ m) (sym none_read))

  module _ (fuel blocks : ℕ) where
    pub recv-Fine :
        (cx : Waker) {r : Run T} → Fine r → Returns Fine (step fuel blocks (Runs.recv cx) r)
    unfolding step Handles.recv
    recv-Fine cx (receiving n c [] ac ta o e) =
        Returns-through _ _ (recv-Received c cx [] o.holds) λ (r, d) g. elim g [
          | inl (z, er, ed) ↦ returns (
              receiving n d [] ac (ta ++ Runs.received r) (subst (λ d. Open n true d []) (sym ed) o)
                (unread ac ta (Runs.received r) (ap Runs.received er) e))
          | inr (pos, er, ed) ↦ returns (
              receiving n d [] ac (ta ++ Runs.received r)
                (subst (λ d. Open n true d []) (sym ed)
                  (record {
                    holds = o.holds;
                    count = o.count;
                    ended = o.ended;
                    asleep = λ w k. (refl, λ _. omega (arith, pos, o.count));
                  }))
                (unread ac ta (Runs.received r) (ap Runs.received er) e))
        ]
    recv-Fine cx (receiving n c (x ∷ xs) ac ta o e) =
        Returns-through _ _ (recv-Received c cx (x ∷ xs) o.holds) λ (r, d) (er, t). returns (
          receiving n d xs ac (ta ++ Runs.received r) (Took-Open n x c d xs o t)
            (took_order x x ac ta xs refl e ∙ ap (λ r. (ta ++ Runs.received r) ++ xs) (sym er)))
    recv-Fine cx (hung_up n c lo ac ta o shut e) = returns (hung_up n c lo ac ta o shut e)
    recv-Fine cx (over c lo ac ta e) = returns (over c lo ac ta e)

    pub try_recv-Fine : {r : Run T} → Fine r → Returns Fine (step fuel blocks Runs.try_recv r)
    unfolding step Handles.try_recv
    try_recv-Fine (receiving n c [] ac ta o e) =
        Returns-through _ _ (try_recv-Tried c [] o.holds) λ (r, d) (er, ed). returns (
          receiving n d [] ac (ta ++ Runs.tried r) (subst (λ d. Open n true d []) (sym ed) o)
            (unread ac ta (Runs.tried r) (ap Runs.tried er ∙ not_read (c.tx_count == 0)) e))
    try_recv-Fine (receiving n c (x ∷ xs) ac ta o e) =
        Returns-through _ _ (try_recv-Tried c (x ∷ xs) o.holds) λ (r, d) (er, t). returns (
          receiving n d xs ac (ta ++ Runs.tried r) (Took-Open n x c d xs o t)
            (took_order x x ac ta xs refl e ∙ ap (λ r. (ta ++ Runs.tried r) ++ xs) (sym er)))
    try_recv-Fine (hung_up n c lo ac ta o shut e) = returns (hung_up n c lo ac ta o shut e)
    try_recv-Fine (over c lo ac ta e) = returns (over c lo ac ta e)

    pub close-Fine : {r : Run T} → Fine r → Returns Fine (step fuel blocks Runs.close r)
    unfolding step Handles.close Chan.close_rx unlimited_permits
    close-Fine (receiving n c xs ac ta o e) = returns (
        receiving n (record c { semaphore = record { closed = true } }) xs ac ta
          (record { holds = o.holds; count = o.count; ended = λ z. refl; asleep = o.asleep }) e)
    close-Fine (hung_up n c lo ac ta o shut e) = returns (hung_up n c lo ac ta o shut e)
    close-Fine (over c lo ac ta e) = returns (over c lo ac ta e)
