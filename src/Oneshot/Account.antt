-- ===== src/Oneshot/Account.antt =====
-- src/oneshot.rs: the account of the wakers that a channel was given. One that a slot holds, or that was
-- dropped, is never lost: a call can only add the waker of the task that polls.
use mathlib.Core.List.{Perm, perm_middle}
use mathlib.Core.List.Perm
use local_sync.Prelude.{
  ◌≡◌, refl, sym, ap, ◌∙◌, subst, ◌⊎◌, inl, inr, Option, none, some, List, [], ◌∷◌, ◌++◌,
  append_assoc, append-nil, ◌==◌, eq_of_test, Bool-cases, Returns,
}
use local_sync.WakeList.{Waker}
use local_sync.Oneshot.Spec
use local_sync.Oneshot.Handles.{held}
use local_sync.Oneshot.Worlds
use local_sync.Oneshot.Worlds.{World, Op, step}
use local_sync.Oneshot.Fates.{Fine}

-- The waker of the task that polls
abbrev pub joining {ℓ} : {T : Type ℓ} → Op T → List Waker
joining (Worlds.poll cx) = cx ∷ []
joining (Worlds.poll_closed cx) = cx ∷ []
joining op = []

-- The wakers that were dropped, and those in the slots
abbrev pub account : List Waker → Option Waker → Option Waker → List Waker
account d r w = (d ++ held r) ++ held w

abbrev pub wakers {ℓ} : {T : Type ℓ} → World T → List Waker
wakers w = account w.shared.inner.dropped w.shared.inner.rx_task w.shared.inner.tx_task

abbrev pub Joined : List Waker → List Waker → List Waker → Type 0
Joined l before after = Perm after before ⊎ Perm after (l ++ before)

-- What the account is after a call
abbrev pub Accounts {ℓ} : {T : Type ℓ} → Op T → World T → World T → Type 0
Accounts op w v = Joined (joining op) (wakers w) (wakers v)

abbrev pub Moves {ℓ} : {T : Type ℓ} → Op T → World T → Type ℓ
Moves op w = Returns (λ v. Fine v × Accounts op w v) (step op w)

of_path : (l k : List Waker) → l ≡ k → Perm l k
of_path l k e = subst (λ x. Perm l x) e (Perm.refl l)

log-held : (d : List Waker) (r : Option Waker) → Spec.log d r ≡ d ++ held r
log-held d none = sym (append-nil d)
log-held d (some x) = refl

-- The slots are emptied.
pub freed-account :
    (d : List Waker) (r w : Option Waker)
    → Perm (account (Spec.log (Spec.log d r) w) none none) (account d r w)
freed-account d r w =
    of_path _ _ (
      append-nil _
      ∙ append-nil _
      ∙ log-held (Spec.log d r) w
      ∙ ap (λ l. l ++ held w) (log-held d r))

insert : (cx : Waker) (l t : List Waker) → Perm ((l ++ cx ∷ []) ++ t) (cx ∷ (l ++ t))
insert cx l t = Perm.trans (of_path _ _ (append_assoc l (cx ∷ []) t)) (perm_middle l t)

-- The receiver's task registers.
pub refresh_rx :
    (cx : Waker) (d : List Waker) (r w : Option Waker)
    → Joined (cx ∷ []) (account d r w) (account (Spec.refresh d r cx) (some cx) w)
refresh_rx cx d none w = inr (
    Perm.trans (insert cx d (held w))
      (of_path _ _ (ap (λ l. cx ∷ (l ++ held w)) (sym (append-nil d)))))
refresh_rx cx d (some a) w = elim (Bool-cases (a == cx)) [
  | inl e ↦ rw e (inl (of_path _ _ (ap (λ x. (d ++ x ∷ []) ++ held w) (sym (eq_of_test a cx e)))))
  | inr ne ↦ rw ne (inr (insert cx (d ++ a ∷ []) (held w)))
]

-- The sender's task registers.
pub refresh_tx :
    (cx : Waker) (d : List Waker) (r w : Option Waker)
    → Joined (cx ∷ []) (account d r w) (account (Spec.refresh d w cx) r (some cx))
refresh_tx cx d r none = inr (perm_middle (d ++ held r) [])
refresh_tx cx d r (some b) = elim (Bool-cases (b == cx)) [
  | inl e ↦ rw e (inl (of_path _ _ (ap (λ x. (d ++ held r) ++ x ∷ []) (sym (eq_of_test b cx e)))))
  | inr ne ↦ rw ne (
      inr (
        Perm.trans (perm_middle ((d ++ b ∷ []) ++ held r) []) (
          Perm.cons' refl (
            Perm.trans (of_path _ _ (append-nil _)) (
              Perm.trans (insert b d (held r)) (
                Perm.trans (of_path _ _ (ap (λ l. b ∷ l) (sym (append-nil (d ++ held r)))))
                  (Perm.symm (perm_middle (d ++ held r) []))))))))
]
