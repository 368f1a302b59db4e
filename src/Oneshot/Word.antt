-- ===== src/Oneshot/Word.antt =====
-- src/oneshot.rs: the words of `State` are the numbers below 16, one for each choice of the four flags,
-- and the four tests read a word's flags back.
use mathlib.Core.Equiv.{IsEquiv, Iso, iso_to_equiv}
use mathlib.Core.HLevel.{Σ_prop_path}
use native.Mathlib.Bridge.{le_prop}
use local_sync.Prelude.{
  ℕ, zero, suc, subst, inl, inr, ◌==◌, eq_of_test, Bool-cases, ◌<◌, ◌≡◌, refl, arith, Bool, true,
  false,
}
use local_sync.Oneshot.State.{
  word, word_tests, word_setters, set_rx_task, unset_rx_task, set_complete, set_closed, set_tx_task,
  unset_tx_task, is_rx_task_set, is_complete, is_closed, is_tx_task_set,
}

abbrev pub Flags : Type 0
Flags = Bool × Bool × Bool × Bool

-- A word that the flags can make
abbrev pub Word : Type 0
Word = (n : ℕ) × (n < 16)

pub small : (rx sent shut tx : Bool) → word rx sent shut tx < 16
small true true true true = omega arith
small true true true false = omega arith
small true true false true = omega arith
small true true false false = omega arith
small true false true true = omega arith
small true false true false = omega arith
small true false false true = omega arith
small true false false false = omega arith
small false true true true = omega arith
small false true true false = omega arith
small false true false true = omega arith
small false true false false = omega arith
small false false true true = omega arith
small false false true false = omega arith
small false false false true = omega arith
small false false false false = omega arith

abbrev pub to_word : Flags → Word
to_word (rx, sent, shut, tx) = (word rx sent shut tx, small rx sent shut tx)

abbrev pub flags_of : Word → Flags
flags_of (n, small) = (is_rx_task_set n, is_complete n, is_closed n, is_tx_task_set n)

-- A property of each number below a bound
abbrev Below {ℓ} : (ℕ → Type ℓ) → ℕ → Type ℓ
Below P zero = Unit
Below P (suc k) = P k × Below P k

below_all {ℓ} : (P : ℕ → Type ℓ) (k n : ℕ) → n < k → Below P k → P n
below_all P zero n less all = absurd (omega (arith, less))
below_all P (suc k) n less (here, rest) = elim (Bool-cases (k == n)) [
  | inl e ↦ subst P (eq_of_test k n e) here
  | inr ne ↦ below_all P k n (ground (arith, less, ne)) rest
]

word_read :
    (n : ℕ) → n < 16 → word (is_rx_task_set n) (is_complete n) (is_closed n) (is_tx_task_set n) ≡ n
unfolding is_rx_task_set is_complete is_closed is_tx_task_set
word_read n less =
    below_all (λ n. word (is_rx_task_set n) (is_complete n) (is_closed n) (is_tx_task_set n) ≡ n) 16
      n less
      (
        refl,
        (
          refl,
          (
            refl,
            (
              refl,
              (
                refl,
                (
                  refl,
                  (
                    refl,
                    (refl, (refl, (refl, (refl, (refl, (refl, (refl, (refl, (refl, tt))))))))),
                  ),
                ),
              ),
            ),
          ),
        ),
      )

flags_read : (f : Flags) → flags_of (to_word f) ≡ f
flags_read (rx, sent, shut, tx) =
    let (e1, e2, e3, e4) = word_tests rx sent shut tx in λ i. (e1 i, e2 i, e3 i, e4 i)

flags : Iso Flags Word
flags = record {
  fun = to_word;
  inv = flags_of;
  rinv = λ (n, less). Σ_prop_path (λ n. le_prop) (word_read n less);
  linv = flags_read;
}

-- The words of `State` are one for one the choices of the four flags: the map from flags to the
-- numbers below 16 is an equivalence, whose inverse reads the flags with the four tests; and along
-- it each of the six setters changes its own flag and no other.
pub to_word-IsEquiv :
    IsEquiv to_word
    × ((w : Word) → to_word (flags_of w) ≡ w)
    × ((f : Flags) → flags_of (to_word f) ≡ f)
    × ((rx sent shut tx : Bool)
        → (set_rx_task (word rx sent shut tx) ≡ word true sent shut tx)
          × (unset_rx_task (word rx sent shut tx) ≡ word false sent shut tx)
          × (set_complete (word rx sent shut tx) ≡ word rx true shut tx)
          × (set_closed (word rx sent shut tx) ≡ word rx sent true tx)
          × (set_tx_task (word rx sent shut tx) ≡ word rx sent shut true)
          × (unset_tx_task (word rx sent shut tx) ≡ word rx sent shut false))
unfolding flags
to_word-IsEquiv = ((iso_to_equiv flags).1, flags.rinv, flags.linv, word_setters)
