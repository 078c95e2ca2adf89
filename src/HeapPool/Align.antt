-- ===== src/HeapPool/Align.antt =====
-- heap_pool.c: the macros `__ALIGN` and `is_power_of_two`, and `__compute_new_alignment`.
use native.Mathlib.Nat.{
  div-mul-le_self, lt-div-mul-add, pow-le-pow_right, pow-zero, mul-le-mul_right,
  lt_of_mul-lt-mul_right, two-pow-succ,
}
use native.Mathlib.Decide.{dec_lt}
use divers.Base.{
  ℕ, zero, suc, ◌+◌, ◌-◌, ◌*◌, ◌/◌, ◌%◌, ◌^◌, ◌≤◌, ◌<◌, ◌≡◌, refl, sym, ap, ◌∙◌, inl, inr, ◌↔◌, max,
  bit_and, true, arith, ◌||◌, ◌==◌, Bool-cases, lt→ltb,
}
use divers.Base.Bits.{pow_pos, and_mask, and_pred_pow, pow_of_and_pred}
use divers.HeapPool.{
  word_mod, sizeof_size, add64, sub64, align_up, is_power_of_two, compute_new_alignment,
}

-- A power of two that is a `size_t`.
abbrev pub IsPowerOfTwo : ℕ → Type 0
IsPowerOfTwo y = (k : ℕ) × (k < 64) × (y ≡ 2 ^ k)

-- `r` is the least multiple of `y` that is not below `x`.
pub record IsCeiling (x y r : ℕ) : Type 0 where
  pub quotient : ℕ
  pub multiple : r ≡ quotient * y
  pub above : x ≤ r
  pub least : r < x + y

pub power_bounds : (y : ℕ) → IsPowerOfTwo y → (0 < y) × (y + y ≤ word_mod)
power_bounds y (k, lt, e) =
    let top : 2 ^ suc k ≤ 2 ^ 64 = pow-le-pow_right (omega arith) lt in
    (omega (arith, pow_pos k), omega (arith, top, two-pow-succ k))

align_up-eq : (x y : ℕ) → IsPowerOfTwo y → x + y ≤ word_mod → align_up x y ≡ (x + y - 1) / y * y
unfolding align_up add64 sub64
align_up-eq x y (k, lt, e) fits =
    let (pos, top) = power_bounds y (k, lt, e) in
    let sum : ((x + y) % word_mod + word_mod - 1) % word_mod ≡ x + y - 1 = omega arith in
    let mask : word_mod - 1 - (y + word_mod - 1) % word_mod ≡ 2 ^ 64 - 2 ^ k = omega arith in
    rw (sum, mask)
      (and_mask 64 k (x + y - 1) (omega arith) (omega arith)
        ∙ ap (λ (t : ℕ). (x + y - 1) / t * t) (sym e))

-- On a power of two, and where the sum does not wrap, `__ALIGN(x, y)` is the least multiple of `y`
-- from `x` on.
pub align_up-IsCeiling :
    (x y : ℕ) → IsPowerOfTwo y → x + y ≤ word_mod → IsCeiling x y (align_up x y)
align_up-IsCeiling x y p fits =
    let (pos, top) = power_bounds y p in
    record {
      quotient = (x + y - 1) / y;
      multiple = align_up-eq x y p fits;
      above = omega (arith, align_up-eq x y p fits, lt-div-mul-add {a = x + y - 1} pos);
      least = omega (arith, align_up-eq x y p fits, div-mul-le_self (x + y - 1) y);
    }

power_small : (k v : ℕ) → v ≡ 2 ^ k → v < word_mod → k < 64
power_small k v e small = elim (dec_lt k 64) [
  | yes lt ↦ lt
  | no ge ↦
      let top : 2 ^ 64 ≤ 2 ^ k = pow-le-pow_right (omega arith) {i = 64} (omega arith) in
      absurd (omega arith)
]

IsPowerOfTwo-of_and : (v : ℕ) → 0 < v → v < word_mod → bit_and v (v - 1) ≡ 0 → IsPowerOfTwo v
IsPowerOfTwo-of_and v pos small e =
    let (k, q) = pow_of_and_pred v v (omega arith) pos e in (k, power_small k v q small, q)

-- `is_power_of_two` accepts exactly the powers of two among the non-zero sizes.
pub is_power_of_two_iff :
    (v : ℕ) → 0 < v → v < word_mod → (is_power_of_two v ≡ true) ↔ IsPowerOfTwo v
unfolding is_power_of_two sub64
is_power_of_two_iff v pos small = (to, from)
  where
    predecessor : (v + word_mod - 1) % word_mod ≡ v - 1
    predecessor = omega arith

    to : ((v == 1) || (bit_and v ((v + word_mod - 1) % word_mod) == 0)) ≡ true → IsPowerOfTwo v
    to h = elim (Bool-cases (v == 1)) [
      | inl one ↦ (0, omega arith, ground arith)
      | inr more ↦ IsPowerOfTwo-of_and v pos small (ap (bit_and v) (sym predecessor) ∙ ground arith)
    ]

    from : IsPowerOfTwo v → ((v == 1) || (bit_and v ((v + word_mod - 1) % word_mod) == 0)) ≡ true
    from (k, lt, e) =
        let none_shared : bit_and v (v - 1) ≡ 0 =
          ap (λ (t : ℕ). bit_and t (t - 1)) e ∙ and_pred_pow k in
        ground (arith, ap (bit_and v) predecessor)

pow-multiple : (k n : ℕ) → 2 ^ k ≤ 2 ^ n → (q : ℕ) × (2 ^ n ≡ q * 2 ^ k)
pow-multiple zero n le = (2 ^ n, omega (arith, pow-zero 2))
pow-multiple (suc k) zero le = absurd (omega (arith, pow-zero 2, two-pow-succ k, pow_pos k))
pow-multiple (suc k) (suc n) le =
    let (q, e) = pow-multiple k n (omega (arith, two-pow-succ k, two-pow-succ n)) in
    (q, omega (arith, two-pow-succ n, ap (λ t. q * t) (two-pow-succ k)))

-- One power of two divides another that is not smaller.
pub power-multiple : (y z : ℕ) → IsPowerOfTwo y → IsPowerOfTwo z → y ≤ z → (q : ℕ) × (z ≡ q * y)
power-multiple y z (k, _, e) (n, _, f) le =
    let (q, m) = pow-multiple k n (omega arith) in (q, f ∙ m ∙ ap (λ t. q * t) (sym e))

-- Rounding a multiple up leaves it.
pub IsCeiling-multiple : (x y q r : ℕ) → IsCeiling x y r → x ≡ q * y → r ≡ x
IsCeiling-multiple x y q r c e =
    let below : c.quotient * y < (q + 1) * y = omega (arith, c.multiple, c.least) in
    let le : c.quotient ≤ q = omega (arith, lt_of_mul-lt-mul_right y below) in
    let over : c.quotient * y ≤ q * y = mul-le-mul_right y le in omega (arith, c.multiple, c.above)

pub align_up-multiple :
    (x y q : ℕ) → IsPowerOfTwo y → x + y ≤ word_mod → x ≡ q * y → align_up x y ≡ x
align_up-multiple x y q p fits e =
    IsCeiling-multiple x y q (align_up x y) (align_up-IsCeiling x y p fits) e

-- For a power of two, `__compute_new_alignment` is the larger of it and `sizeof(size_t)`.
pub compute_new_alignment-max :
    (a : ℕ) → IsPowerOfTwo a → compute_new_alignment a ≡ max a sizeof_size
unfolding compute_new_alignment add64 sub64
compute_new_alignment-max a p = elim (dec_lt a sizeof_size) [
  | yes lt ↦
      let (q, e) = power-multiple a 8 p (3, omega arith, refl) (omega arith) in
      let (pos, top) = power_bounds a p in
      let eight : (a + (8 + word_mod - a) % word_mod) % word_mod ≡ 8 = omega arith in
      rw (lt→ltb a 8 lt, eight) (align_up-multiple 8 a q p (omega arith) e ∙ omega arith)
  | no ge ↦ ground arith
]
