-- ===== src/Oneshot/State.antt =====
-- src/oneshot.rs: the word of flags. The setters take the cell's content and give the new content,
-- which they also return.
use Prim.Native.Nat.{bit_and, bit_or}
use local_sync.Prelude.{ℕ, ◌+◌, ◌-◌, ◌^◌, ◌≡◌, refl, Bool, true, false, ◌==◌}

abbrev pub rx_task_set : ℕ
rx_task_set = 0b00001

abbrev pub value_sent : ℕ
value_sent = 0b00010

abbrev pub closed : ℕ
closed = 0b00100

abbrev pub tx_task_set : ℕ
tx_task_set = 0b01000

-- `!flag` on a `usize` of 64 bits
abbrev complement : ℕ → ℕ
complement flag = 2 ^ 64 - 1 - flag

unfoldable pub new : ℕ
new = 0

unfoldable pub is_complete : ℕ → Bool
is_complete w = bit_and w value_sent == value_sent

unfoldable pub set_complete : ℕ → ℕ
set_complete w = bit_or w value_sent

unfoldable pub is_rx_task_set : ℕ → Bool
is_rx_task_set w = bit_and w rx_task_set == rx_task_set

unfoldable pub set_rx_task : ℕ → ℕ
set_rx_task w = bit_or w rx_task_set

unfoldable pub unset_rx_task : ℕ → ℕ
unset_rx_task w = bit_and w (complement rx_task_set)

unfoldable pub is_closed : ℕ → Bool
is_closed w = bit_and w closed == closed

unfoldable pub set_closed : ℕ → ℕ
set_closed w = bit_or w closed

unfoldable pub set_tx_task : ℕ → ℕ
set_tx_task w = bit_or w tx_task_set

unfoldable pub unset_tx_task : ℕ → ℕ
unset_tx_task w = bit_and w (complement tx_task_set)

unfoldable pub is_tx_task_set : ℕ → Bool
is_tx_task_set w = bit_and w tx_task_set == tx_task_set

-- The four flags, and the word that holds them.
abbrev bit : Bool → ℕ → ℕ
bit true n = n
bit false n = 0

abbrev pub word : Bool → Bool → Bool → Bool → ℕ
word rx sent shut tx = bit rx 1 + bit sent 2 + bit shut 4 + bit tx 8

-- On every word of the four flags each of the four tests reads its own flag.
pub word_tests :
    (rx sent shut tx : Bool)
    → (is_rx_task_set (word rx sent shut tx) ≡ rx)
      × (is_complete (word rx sent shut tx) ≡ sent)
      × (is_closed (word rx sent shut tx) ≡ shut)
      × (is_tx_task_set (word rx sent shut tx) ≡ tx)
unfolding is_rx_task_set is_complete is_closed is_tx_task_set
word_tests true true true true = (refl, refl, refl, refl)
word_tests true true true false = (refl, refl, refl, refl)
word_tests true true false true = (refl, refl, refl, refl)
word_tests true true false false = (refl, refl, refl, refl)
word_tests true false true true = (refl, refl, refl, refl)
word_tests true false true false = (refl, refl, refl, refl)
word_tests true false false true = (refl, refl, refl, refl)
word_tests true false false false = (refl, refl, refl, refl)
word_tests false true true true = (refl, refl, refl, refl)
word_tests false true true false = (refl, refl, refl, refl)
word_tests false true false true = (refl, refl, refl, refl)
word_tests false true false false = (refl, refl, refl, refl)
word_tests false false true true = (refl, refl, refl, refl)
word_tests false false true false = (refl, refl, refl, refl)
word_tests false false false true = (refl, refl, refl, refl)
word_tests false false false false = (refl, refl, refl, refl)

-- On every word of the four flags each of the six setters changes its own flag and no other.
pub word_setters :
    (rx sent shut tx : Bool)
    → (set_rx_task (word rx sent shut tx) ≡ word true sent shut tx)
      × (unset_rx_task (word rx sent shut tx) ≡ word false sent shut tx)
      × (set_complete (word rx sent shut tx) ≡ word rx true shut tx)
      × (set_closed (word rx sent shut tx) ≡ word rx sent true tx)
      × (set_tx_task (word rx sent shut tx) ≡ word rx sent shut true)
      × (unset_tx_task (word rx sent shut tx) ≡ word rx sent shut false)
unfolding set_rx_task unset_rx_task set_complete set_closed set_tx_task unset_tx_task
word_setters true true true true = (refl, refl, refl, refl, refl, refl)
word_setters true true true false = (refl, refl, refl, refl, refl, refl)
word_setters true true false true = (refl, refl, refl, refl, refl, refl)
word_setters true true false false = (refl, refl, refl, refl, refl, refl)
word_setters true false true true = (refl, refl, refl, refl, refl, refl)
word_setters true false true false = (refl, refl, refl, refl, refl, refl)
word_setters true false false true = (refl, refl, refl, refl, refl, refl)
word_setters true false false false = (refl, refl, refl, refl, refl, refl)
word_setters false true true true = (refl, refl, refl, refl, refl, refl)
word_setters false true true false = (refl, refl, refl, refl, refl, refl)
word_setters false true false true = (refl, refl, refl, refl, refl, refl)
word_setters false true false false = (refl, refl, refl, refl, refl, refl)
word_setters false false true true = (refl, refl, refl, refl, refl, refl)
word_setters false false true false = (refl, refl, refl, refl, refl, refl)
word_setters false false false true = (refl, refl, refl, refl, refl, refl)
word_setters false false false false = (refl, refl, refl, refl, refl, refl)
