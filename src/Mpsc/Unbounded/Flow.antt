-- ===== src/Mpsc/Unbounded/Flow.antt =====
-- What holds of every channel of src/mpsc/unbounded.rs and its handles, whatever its clients do.
use local_sync.Prelude.{
  ◌<◌, ◌⊎◌, inl, inr, ℕ, ◌+◌, ◌≤◌, ◌≡◌, refl, sym, ap, ◌∙◌, Bool, true, false, Option, List, [],
  ◌++◌, append-nil, arith, Returns, returns, Returns-done, Returns-value,
}
use local_sync.Mpsc.Block
use local_sync.Mpsc.Block.{Address}
use local_sync.Mpsc.Drain.{new-IsQueue}
use local_sync.Mpsc.Chan.{unlimited}
use local_sync.Mpsc.Order.{Holds}
use local_sync.Mpsc.Handles
use local_sync.Mpsc.Handles.{Shared}
use local_sync.Mpsc.Unbounded.Runs
use local_sync.Mpsc.Unbounded.Runs.{Run, Op, step, Reach, start, after, opened, tx_rc, rx_rc}
use local_sync.Mpsc.Unbounded.Fine.{Fine, receiving, hung_up, over, send-Fine, clone_tx-Fine}
use local_sync.Mpsc.Unbounded.Steps.{drop_tx-Fine, drop_rx-Fine}
use local_sync.Mpsc.Unbounded.Receiving.{recv-Fine, try_recv-Fine, close-Fine}

-- The receiver's handle, as a count
abbrev pub one_of : Bool → ℕ
one_of true = 1
one_of false = 0

module _ {ℓ} {T : Type ℓ} where
  step-Fine :
      (fuel blocks : ℕ) (op : Op T) {r : Run T}
      → Fine r
      → r.shared.chan.queue.len ≤ fuel
      → r.shared.chan.queue.fresh ≤ blocks
      → Returns Fine (step fuel blocks op r)
  step-Fine fuel blocks (Runs.send t) f enough room = send-Fine fuel blocks t f
  step-Fine fuel blocks Runs.clone_tx f enough room = clone_tx-Fine fuel blocks f
  step-Fine fuel blocks Runs.drop_tx f enough room = drop_tx-Fine fuel blocks f room
  step-Fine fuel blocks (Runs.recv cx) f enough room = recv-Fine fuel blocks cx f
  step-Fine fuel blocks Runs.try_recv f enough room = try_recv-Fine fuel blocks f
  step-Fine fuel blocks Runs.close f enough room = close-Fine fuel blocks f
  step-Fine fuel blocks Runs.drop_rx f enough room = drop_rx-Fine fuel blocks f enough room

  opened-Fine : (heap : Address → Option (Block.Block T)) (p : Address) → Fine (opened heap p)
  unfolding opened Handles.channel Handles.new Handles.new_tx unlimited
  opened-Fine heap p =
      receiving 1 _ [] [] []
        (record {
          holds = ([], [], new-IsQueue heap p);
          count = refl;
          ended = λ z. absurd (omega (arith, z));
          asleep = λ w k. cc;
        })
        refl

  pub Reach-Fine : (r : Run T) → Reach r → Fine r
  Reach-Fine r (start heap p) = opened-Fine heap p
  Reach-Fine r (after fuel blocks op {r = q} before enough room e) =
      Returns-value (step-Fine fuel blocks op (Reach-Fine q before) enough room) e

  -- Clients own the handles of a new unbounded channel, and call, clone and drop them in any order.
  -- Each call returns, to a history of the same kind, when the drops have fuel for the length of
  -- the queue and for the blocks ever allocated: no assertion fails, no handle reaches the `Chan`
  -- after it was freed, no block is read or freed after it was freed, and no slot is read that
  -- holds no value.
  pub step-Run :
      (r : Run T) (fuel blocks : ℕ) (op : Op T)
      → Reach r
      → r.shared.chan.queue.len ≤ fuel
      → r.shared.chan.queue.fresh ≤ blocks
      → Returns Reach (step fuel blocks op r)
  step-Run r fuel blocks op before enough room =
      let (s, e, _) = Returns-done (step-Fine fuel blocks op (Reach-Fine r before) enough room) in
      rw e (returns (after fuel blocks op before enough room e))

  -- The allocation, which is live as long as there is a handle, and where the values are: the queue
  -- holds `xs`; none is dropped as long as there is the receiver, and none is left after it.
  abbrev pub Sound : Run T → List T → Type ℓ
  Sound r xs =
      (r.accepted ≡ r.taken ++ (r.shared.lost ++ xs))
      × (((r.rx ≡ true) × (r.shared.lost ≡ [])) ⊎ ((r.rx ≡ false) × (xs ≡ [])))
      × (r.shared.strong ≡ r.txs + one_of r.rx)
      × (((r.shared.live ≡ true) × (0 < r.shared.strong) × Holds r.shared.chan.queue xs)
          ⊎ ((r.shared.live ≡ false) × (r.shared.strong ≡ 0) × (xs ≡ [])))

  Fine-Sound : {r : Run T} → Fine r → (xs : List T) × Sound r xs
  Fine-Sound (receiving n c xs ac ta o e) =
      (xs, (e, inl (refl, refl), omega arith, inl (refl, omega arith, o.holds)))
  Fine-Sound (hung_up n c lo ac ta o shut e) = (
    [],
    (
      e ∙ ap (λ l. ta ++ l) (sym (append-nil lo)),
      inr (refl, refl),
      omega arith,
      inl (refl, omega arith, o.holds),
    ),
  )
  Fine-Sound (over c lo ac ta e) = (
    [],
    (e ∙ ap (λ l. ta ++ l) (sym (append-nil lo)), inr (refl, refl), refl, inr (refl, refl, refl)),
  )

  -- In every such history there are values `xs` such that those that `send` accepted are those
  -- received, followed by those dropped with the receiver or the channel, followed by `xs`, in
  -- order; none is dropped while there is the receiver, and `xs` is empty once it is gone. The
  -- allocation counts its handles: while there is one it is live and the queue holds `xs`, and
  -- after the last it is freed and `xs` is empty.
  pub Reach-Sound : (r : Run T) → Reach r → (xs : List T) × Sound r xs
  Reach-Sound r before = Fine-Sound (Reach-Fine r before)
