-- ===== src/DoubleBuffer/Banks.antt =====
-- double_buffering/dblbuffering/src/lib.rs: what the reads of one file leave in the two banks.
use divers.Base.{ℕ, zero, suc, ◌%◌, ◌≡◌, ◌≢◌, refl, bit_and, inl, inr, Bool-cases, ◌==◌, arith}
use divers.Base.Bits.{and_one}
use divers.DoubleBuffer.Reader.{
  File, EceBuffer, EceBuffers, new_bank, new_buffers, get_bank, apply_bank, fill,
}

-- The bank that the read with the number is going to fill: what the one two before has left.
unfoldable pub before : (capacity : ℕ) → File → ℕ → EceBuffer
before capacity file zero = new_bank capacity
before capacity file (suc zero) = new_bank capacity
before capacity file (suc (suc n)) = fill (file n) (before capacity file n)

-- The bank behind the read with the number.
abbrev pub chunk : (capacity : ℕ) → File → ℕ → EceBuffer
chunk capacity file n = before capacity file (suc (suc n))

pub get_bank-new : (x capacity : ℕ) → get_bank x (new_buffers capacity) ≡ new_bank capacity
unfolding get_bank
get_bank-new x capacity = elim (Bool-cases (bit_and x 1 == 0)) [
  | inl e ↦ rw e refl
  | inr e ↦ rw e refl
]

-- Only the parity of a number counts.
pub get_bank-parity : (x y : ℕ) (b : EceBuffers) → x % 2 ≡ y % 2 → get_bank x b ≡ get_bank y b
unfolding get_bank
get_bank-parity x y b e = ground (arith, and_one x, and_one y)

pub get_bank-applied :
    (x y : ℕ) (g : EceBuffer → EceBuffer) (b : EceBuffers)
    → x % 2 ≡ y % 2
    → get_bank y (apply_bank x g b) ≡ g (get_bank y b)
unfolding get_bank apply_bank
get_bank-applied x y g b e = ground (arith, and_one x, and_one y)

pub get_bank-other :
    (x y : ℕ) (g : EceBuffer → EceBuffer) (b : EceBuffers)
    → x % 2 ≢ y % 2
    → get_bank y (apply_bank x g b) ≡ get_bank y b
unfolding get_bank apply_bank
get_bank-other x y g b e = ground (arith, and_one x, and_one y)
