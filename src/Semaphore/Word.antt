-- ===== src/Semaphore/Word.antt =====
-- The permit counter of src/semaphore.rs: a `usize` of 64 bits whose lowest bit says "closed".
use Prim.Native.Nat.{bit_and, bit_or}
use local_sync.Prelude.{ℕ, ◌+◌, ◌-◌, ◌*◌, ◌/◌, ◌%◌, ◌^◌, ◌≡◌}
use local_sync.Prelude.Bits.{bit_and-one, bit_or-one, bit_and-ones}

abbrev pub usize_mod : ℕ
usize_mod = 2 ^ 64

-- `usize::MAX >> 3`
abbrev pub max_permits : ℕ
max_permits = (2 ^ 64 - 1) / 2 ^ 3

abbrev pub closed_flag : ℕ
closed_flag = 1

-- `x << PERMIT_SHIFT` and `x >> PERMIT_SHIFT`
abbrev pub shl : ℕ → ℕ
shl x = x * 2 % usize_mod

abbrev pub shr : ℕ → ℕ
shr x = x / 2

pub bit_and-closed : (w : ℕ) → bit_and w closed_flag ≡ w % 2
bit_and-closed w = bit_and-one w

pub bit_or-closed : (w : ℕ) → bit_or w closed_flag ≡ w / 2 * 2 + 1
bit_or-closed w = bit_or-one w

pub bit_and-max_permits : (n : ℕ) → bit_and n max_permits ≡ n % 2 ^ 61
bit_and-max_permits n = bit_and-ones 61 n
