-- ===== src/Oneshot/Refine/Halves.antt =====
-- src/oneshot.rs: the operations that set a flag, against Spec, and `Drop for Inner`.
use local_sync.Prelude.{
  ◌≡◌, refl, ap, Bool, true, false, not, Option, none, some, List, [], ◌∷◌, ◌++◌, ◌==◌,
  if◌then◌else◌, done, Bool-cases, eq_of_test, inl, inr,
}
use local_sync.WakeList.{Waker}
use local_sync.Oneshot.State
use local_sync.Oneshot.Inner
use local_sync.Oneshot.Inner.{Inner}
use local_sync.Oneshot.Spec
use local_sync.Oneshot.Spec.{Channel, concrete}

-- Whether the slot is kept or refilled, it ends with a waker for the same task.
pub same_task {ℓ} :
    {A : Type ℓ} (w cx : Waker) (k : Waker → List Waker → A) (d : List Waker)
    → (if w == cx then k w d else k cx (d ++ w ∷ [])) ≡ k cx (if w == cx then d else d ++ w ∷ [])
same_task w cx k d = elim (Bool-cases (w == cx)) [
  | inl e ↦ rw (e) (ap (λ x. k x d) (eq_of_test w cx e))
  | inr e ↦ rw (e) refl
]

module _ {ℓ} {T : Type ℓ} where
  abbrev pub of_parts :
      Option Waker → Option Waker → Bool → Bool → Option T → List Waker → List Waker → Channel T
  of_parts rx tx se sh v l d = record {
    sent = se;
    shut = sh;
    value = v;
    tx_task = tx;
    rx_task = rx;
    woken = l;
    dropped = d;
  }

  complete_parts :
      (rx tx : Option Waker) (se sh : Bool) (v : Option T) (l d : List Waker)
      → Inner.complete (concrete (of_parts rx tx se sh v l d))
        ≡ done (
          not (Channel.shut (of_parts rx tx se sh v l d)),
          concrete (Spec.complete (of_parts rx tx se sh v l d)),
        )
  unfolding Inner.complete Spec.complete State.is_rx_task_set State.is_complete State.is_closed
      State.is_tx_task_set State.set_rx_task State.unset_rx_task State.set_complete State.set_closed
      State.set_tx_task State.unset_tx_task
  complete_parts none none true true v l d = refl
  complete_parts none none true false v l d = refl
  complete_parts none none false true v l d = refl
  complete_parts none none false false v l d = refl
  complete_parts none (some w) true true v l d = refl
  complete_parts none (some w) true false v l d = refl
  complete_parts none (some w) false true v l d = refl
  complete_parts none (some w) false false v l d = refl
  complete_parts (some r) none true true v l d = refl
  complete_parts (some r) none true false v l d = refl
  complete_parts (some r) none false true v l d = refl
  complete_parts (some r) none false false v l d = refl
  complete_parts (some r) (some w) true true v l d = refl
  complete_parts (some r) (some w) true false v l d = refl
  complete_parts (some r) (some w) false true v l d = refl
  complete_parts (some r) (some w) false false v l d = refl

  pub complete_lem :
      (c : Channel T)
      → Inner.complete (concrete c) ≡ done (not (Channel.shut c), concrete (Spec.complete c))
  complete_lem c = complete_parts c.rx_task c.tx_task c.sent c.shut c.value c.woken c.dropped

  send_parts :
      (t : T) (rx tx : Option Waker) (se sh : Bool) (v : Option T) (l d : List Waker)
      → Inner.send t (concrete (of_parts rx tx se sh v l d))
        ≡ (let (r, a) = Spec.send t (of_parts rx tx se sh v l d) in done (r, concrete a))
  unfolding Inner.send Inner.complete Spec.send State.is_rx_task_set State.is_complete
      State.is_closed State.is_tx_task_set State.set_rx_task State.unset_rx_task State.set_complete
      State.set_closed State.set_tx_task State.unset_tx_task
  send_parts t none none true true v l d = refl
  send_parts t none none true false v l d = refl
  send_parts t none none false true v l d = refl
  send_parts t none none false false v l d = refl
  send_parts t none (some w) true true v l d = refl
  send_parts t none (some w) true false v l d = refl
  send_parts t none (some w) false true v l d = refl
  send_parts t none (some w) false false v l d = refl
  send_parts t (some r) none true true v l d = refl
  send_parts t (some r) none true false v l d = refl
  send_parts t (some r) none false true v l d = refl
  send_parts t (some r) none false false v l d = refl
  send_parts t (some r) (some w) true true v l d = refl
  send_parts t (some r) (some w) true false v l d = refl
  send_parts t (some r) (some w) false true v l d = refl
  send_parts t (some r) (some w) false false v l d = refl

  pub send_lem :
      (t : T) (c : Channel T)
      → Inner.send t (concrete c) ≡ (let (r, a) = Spec.send t c in done (r, concrete a))
  send_lem t c = send_parts t c.rx_task c.tx_task c.sent c.shut c.value c.woken c.dropped

  close_parts :
      (rx tx : Option Waker) (se sh : Bool) (v : Option T) (l d : List Waker)
      → Inner.close (concrete (of_parts rx tx se sh v l d))
        ≡ done (concrete (Spec.close (of_parts rx tx se sh v l d)))
  unfolding Inner.close Spec.close State.is_rx_task_set State.is_complete State.is_closed
      State.is_tx_task_set State.set_rx_task State.unset_rx_task State.set_complete State.set_closed
      State.set_tx_task State.unset_tx_task
  close_parts none none true true v l d = refl
  close_parts none none true false v l d = refl
  close_parts none none false true v l d = refl
  close_parts none none false false v l d = refl
  close_parts none (some w) true true v l d = refl
  close_parts none (some w) true false v l d = refl
  close_parts none (some w) false true v l d = refl
  close_parts none (some w) false false v l d = refl
  close_parts (some r) none true true v l d = refl
  close_parts (some r) none true false v l d = refl
  close_parts (some r) none false true v l d = refl
  close_parts (some r) none false false v l d = refl
  close_parts (some r) (some w) true true v l d = refl
  close_parts (some r) (some w) true false v l d = refl
  close_parts (some r) (some w) false true v l d = refl
  close_parts (some r) (some w) false false v l d = refl

  pub close_lem : (c : Channel T) → Inner.close (concrete c) ≡ done (concrete (Spec.close c))
  close_lem c = close_parts c.rx_task c.tx_task c.sent c.shut c.value c.woken c.dropped

  drop_parts :
      (rx tx : Option Waker) (se sh : Bool) (v : Option T) (l d : List Waker)
      → Inner.drop (concrete (of_parts rx tx se sh v l d))
        ≡ done (record (concrete (of_parts rx tx se sh v l d)) {
          tx_task = none;
          rx_task = none;
          dropped =
              Spec.log
                (Spec.log
                  (Channel.dropped (of_parts rx tx se sh v l d))
                  (Channel.rx_task (of_parts rx tx se sh v l d)))
                (Channel.tx_task (of_parts rx tx se sh v l d));
        })
  unfolding Inner.drop State.is_rx_task_set State.is_complete State.is_closed State.is_tx_task_set
      State.set_rx_task State.unset_rx_task State.set_complete State.set_closed State.set_tx_task
      State.unset_tx_task
  drop_parts none none true true v l d = refl
  drop_parts none none true false v l d = refl
  drop_parts none none false true v l d = refl
  drop_parts none none false false v l d = refl
  drop_parts none (some w) true true v l d = refl
  drop_parts none (some w) true false v l d = refl
  drop_parts none (some w) false true v l d = refl
  drop_parts none (some w) false false v l d = refl
  drop_parts (some r) none true true v l d = refl
  drop_parts (some r) none true false v l d = refl
  drop_parts (some r) none false true v l d = refl
  drop_parts (some r) none false false v l d = refl
  drop_parts (some r) (some w) true true v l d = refl
  drop_parts (some r) (some w) true false v l d = refl
  drop_parts (some r) (some w) false true v l d = refl
  drop_parts (some r) (some w) false false v l d = refl

  -- When the shared part is dropped, each waker that a task slot holds is dropped once, the
  -- receiver's first, and no slot is read that was not written.
  pub drop_lem :
      (c : Channel T)
      → Inner.drop (concrete c)
        ≡ done (record (concrete c) {
          tx_task = none;
          rx_task = none;
          dropped = Spec.log (Spec.log (Channel.dropped c) (Channel.rx_task c)) (Channel.tx_task c);
        })
  drop_lem c = drop_parts c.rx_task c.tx_task c.sent c.shut c.value c.woken c.dropped
