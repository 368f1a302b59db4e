-- ===== src/OnceCell/Fine.antt =====
-- src/once_cell.rs: the invariant of a cell with its tasks, and how one task is taken out and put back.
use local_sync.Prelude.{
  ℕ, ◌≡◌, refl, sym, ap, ◌∙◌, subst, inl, inr, Bool, true, false, List, ◌∷◌, arith, ◌==◌, ==_self,
  eq_of_test, Bool-cases, has, Distinct, length,
}
use local_sync.Prelude.Members.{
  delete, delete-absent, delete-Distinct, has-delete_self, has-delete_other, length-delete,
}
use local_sync.LinkedList.{Ptr}
use local_sync.Semaphore.Inner.{update}
use local_sync.Semaphore.Serve.{update_same}
use local_sync.Semaphore.System.Inv.{Inv}
use local_sync.Semaphore.System.Adjust.{Inv-futures, Inv-front}
use local_sync.Semaphore.System.Calls.{Good}
use local_sync.OnceCell.{OnceCell}
use local_sync.OnceCell.Init.{Task, starting, acquiring, running, finished}
use local_sync.OnceCell.Runs.{Run, place, without, view, future_of}
use local_sync.OnceCell.Turn.{One, IsCell, At}

-- Whether a task waits and whether it runs, by where it stands
abbrev pub Belongs : Bool → Bool → Task → Type 0
Belongs a b (acquiring t) = (a ≡ true) × (b ≡ false) × One (acquiring t)
Belongs a b (running m) = (a ≡ false) × (b ≡ true) × One (running m)
Belongs a b t = (a ≡ false) × (b ≡ false)

module _ {ℓ} {T : Type ℓ} where
  pub record Fine (r : Run T) : Type ℓ where
    pub good : Good (view r)
    pub cell : IsCell r.cell
    pub distinct : Distinct r.running
    pub member : (q : Ptr) → Belongs (has q r.waiting) (has q r.running) (r.tasks q)

  -- The tasks but the one at `p`
  pub record Others (p : Ptr) (r : Run T) : Type ℓ where
    pub out : has p r.waiting ≡ false
    pub idle : has p r.running ≡ false
    pub distinct : Distinct r.running
    pub member :
        (q : Ptr) → (p == q) ≡ false → Belongs (has q r.waiting) (has q r.running) (r.tasks q)

module _ {ℓ} {T : Type ℓ} (p : Ptr) (r : Run T) where
  pub Fine-Others : Fine r → Others p (without p r)
  Fine-Others f =
      let (ws, i) = f.good in
      record {
        out = has-delete_self p r.waiting i.distinct;
        idle = has-delete_self p r.running f.distinct;
        distinct = delete-Distinct p r.running f.distinct;
        member = λ q ne.
            subst (λ a. Belongs a (has q (delete p r.running)) (r.tasks q))
              (sym (has-delete_other p q r.waiting ne))
              (subst (λ b. Belongs (has q r.waiting) b (r.tasks q))
                (sym (has-delete_other p q r.running ne)) (f.member q));
      }

  same_future :
      (t : Task)
      → r.tasks p ≡ t
      → (q : Ptr) → future_of (update r.tasks p t q) ≡ future_of (r.tasks q)
  same_future t e q = elim (Bool-cases (q == p)) [
    | inl h ↦ rw h (ap future_of (sym e ∙ ap r.tasks (sym (eq_of_test q p h))))
    | inr ne ↦ rw ne refl
  ]

  -- Over the same semaphore, with what a client holds told otherwise
  told :
      (t : Task) (live' : List Ptr) (h : ℕ)
      → r.tasks p ≡ t
      → (ws : List Ptr) → Inv (record (view r) { live = live' }) ws
      → h ≡ length r.running
      → Good (record (view r) {
        live = live';
        held = h;
        futures = λ q. future_of (update r.tasks p t q);
      })
  told t live' h e ws i same =
      subst
        (λ n. Good (record (view r) {
          live = live';
          held = n;
          futures = λ q. future_of (update r.tasks p t q);
        }))
        (sym same) (ws, Inv-futures i _ λ q _. same_future t e q)

  pub Fine-At : (f : Fine r) → (t : Task) → r.tasks p ≡ t → At p (without p r) t r.cell
  Fine-At f t e = go t e (subst (Belongs (has p r.waiting) (has p r.running)) e (f.member p))
    where
      idle_Good :
          (t : Task)
          → r.tasks p ≡ t
          → has p r.waiting ≡ false
          → has p r.running ≡ false
          → Good (record (view r) {
            live = delete p r.waiting;
            held = length (delete p r.running);
            futures = λ q. future_of (update r.tasks p t q);
          })
      idle_Good t e w n =
          let (ws, i) = f.good in
          told t (delete p r.waiting) (length (delete p r.running)) e ws
            (subst (λ l. Inv (record (view r) { live = l }) ws) (sym (delete-absent p r.waiting w))
              i)
            (ap (λ l. length l) (delete-absent p r.running n))

      go :
          (t : Task)
          → r.tasks p ≡ t
          → Belongs (has p r.waiting) (has p r.running) t
          → At p (without p r) t r.cell
      go starting e (w, n) = record { good = idle_Good starting e w n; cell = f.cell; one = tt }
      go finished e (w, n) = record { good = idle_Good finished e w n; cell = f.cell; one = tt }
      go (acquiring a) e (w, n, one) =
          let (ws, i) = f.good in
          record {
            good =
                told (acquiring a) (p ∷ delete p r.waiting) (length (delete p r.running)) e ws
                  (Inv-front i p w) (ap (λ l. length l) (delete-absent p r.running n));
            cell = f.cell;
            one = one;
          }
      go (running m) e (w, n, one) =
          let (ws, i) = f.good in
          record {
            good =
                told (running m) (delete p r.waiting) (length (p ∷ delete p r.running)) e ws
                  (subst (λ l. Inv (record (view r) { live = l }) ws)
                    (sym (delete-absent p r.waiting w)) i)
                  (omega (arith, length-delete p r.running n));
            cell = f.cell;
            one = one;
          }

module _ {ℓ} {T : Type ℓ} (p : Ptr) (r : Run T) (o : Others p r) where
  member_of :
      (w l : List Ptr) (t : Task)
      → Belongs (has p w) (has p l) t
      → ((q : Ptr) → (p == q) ≡ false → (has q w ≡ has q r.waiting) × (has q l ≡ has q r.running))
      → (q : Ptr) → Belongs (has q w) (has q l) (update r.tasks p t q)
  member_of w l t own others q = elim (Bool-cases (p == q)) [
    | inl e ↦
        subst (λ x. Belongs (has x w) (has x l) (update r.tasks p t x)) (eq_of_test p q e)
          (subst (Belongs (has p w) (has p l)) (sym (update_same r.tasks p t)) own)
    | inr ne ↦
        let (a, b) = others q ne in
        let kept : update r.tasks p t q ≡ r.tasks q = ground (arith, ne) in
        subst (Belongs (has q w) (has q l)) (sym kept) (
          subst (λ x. Belongs x (has q l) (r.tasks q)) (sym a)
            (subst (λ x. Belongs (has q r.waiting) x (r.tasks q)) (sym b) (o.member q ne)))
  ]

  front : (l : List Ptr) → has p (p ∷ l) ≡ true
  front l = ground (arith, ==_self p)

  behind : (l : List Ptr) (q : Ptr) → (p == q) ≡ false → has q (p ∷ l) ≡ has q l
  behind l q ne = ground (arith, ne)

  pub place-Fine : (t : Task) (c : OnceCell T) → At p r t c → Fine (place p t c r)
  place-Fine starting c at = record {
    good = at.good;
    cell = at.cell;
    distinct = o.distinct;
    member = member_of r.waiting r.running starting (o.out, o.idle) λ q ne. (refl, refl);
  }
  place-Fine finished c at = record {
    good = at.good;
    cell = at.cell;
    distinct = o.distinct;
    member = member_of r.waiting r.running finished (o.out, o.idle) λ q ne. (refl, refl);
  }
  place-Fine (acquiring a) c at = record {
    good = at.good;
    cell = at.cell;
    distinct = o.distinct;
    member =
        member_of (p ∷ r.waiting) r.running (acquiring a) (front r.waiting, o.idle, at.one)
          λ q ne. (behind r.waiting q ne, refl);
  }
  place-Fine (running m) c at = record {
    good = at.good;
    cell = at.cell;
    distinct = (o.idle, o.distinct);
    member =
        member_of r.waiting (p ∷ r.running) (running m) (o.out, front r.running, at.one)
          λ q ne. (refl, behind r.running q ne);
  }
