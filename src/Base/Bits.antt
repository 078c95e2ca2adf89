-- ===== src/Base/Bits.antt =====
-- The law of `&` for the lowest digit, and masks: what `x & ~(2^k - 1)` and `x & (x - 1)` are.
use Prim.Native.Nat.{
  ℕ, zero, suc, ◌+◌, ◌-◌, ◌*◌, ◌/◌, ◌%◌, ◌^◌, ◌≤◌, ◌<◌, min, bit_and, digits, bit_and-bitwise,
}
use mathlib.Core.Path.{◌≡◌, refl, sym, ap, ap₂, ◌∙◌}
use native.Mathlib.Omega.{arith}
use native.Mathlib.Nat.{
  one-le-pow, pow-zero, pow-succ', two-pow-succ, div-div-eq-div-mul, pow-le-pow_right,
}
use native.Mathlib.Decide.{ℕ_discrete}

-- The common digits of two numbers, when `m` rounds are given to find them.
abbrev shared : ℕ → ℕ → ℕ → ℕ
shared m x y = digits (λ rest. zero) min m x y

pub zero-bit_and : (y : ℕ) → bit_and 0 y ≡ 0
zero-bit_and y = bit_and-bitwise 0 y

-- With as many rounds as the first number counts, nothing is missed.
shared-bit_and : (n m x y : ℕ) → m ≤ n → x ≤ m → shared m x y ≡ bit_and x y
shared-bit_and n zero zero y in_n in_m = sym (zero-bit_and y)
shared-bit_and n zero (suc x) y in_n in_m = absurd (omega arith)
shared-bit_and n (suc m) zero y in_n in_m = sym (zero-bit_and y)
shared-bit_and zero (suc m) (suc x) y in_n in_m = absurd (omega arith)
shared-bit_and (suc n) (suc m) (suc x) y in_n in_m =
    let half = suc x / 2 in
    omega (
      arith,
      bit_and-bitwise (suc x) y,
      shared-bit_and n m half (y / 2) (omega arith) (omega arith),
      shared-bit_and n x half (y / 2) (omega arith) (omega arith),
    )

pub bit_and_step : (x y : ℕ) → bit_and x y ≡ bit_and (x / 2) (y / 2) * 2 + min (x % 2) (y % 2)
bit_and_step zero y = omega (arith, zero-bit_and y, zero-bit_and (y / 2))
bit_and_step (suc x) y = omega (
  arith,
  bit_and-bitwise (suc x) y,
  shared-bit_and x x (suc x / 2) (y / 2) (omega arith) (omega arith),
)

pub pow_pos : (k : ℕ) → 0 < 2 ^ k
pow_pos k = one-le-pow k 2 (omega arith)

and_ones : (w a : ℕ) → a < 2 ^ w → bit_and a (2 ^ w - 1) ≡ a
and_ones zero a h = let e : a ≡ 0 = omega (arith, pow-zero 2) in rw e (zero-bit_and (2 ^ zero - 1))
and_ones (suc w) a h =
    let halved : (2 ^ suc w - 1) / 2 ≡ 2 ^ w - 1 = omega (arith, two-pow-succ w, pow_pos w) in
    omega (
      arith,
      bit_and_step a (2 ^ suc w - 1),
      ap (bit_and (a / 2)) halved,
      and_ones w (a / 2) (omega (arith, two-pow-succ w)),
      two-pow-succ w,
      pow_pos w,
    )

-- `x & ~(2^k - 1)` on words of `n` bits clears the low `k` digits.
pub and_mask : (n k a : ℕ) → k ≤ n → a < 2 ^ n → bit_and a (2 ^ n - 2 ^ k) ≡ a / 2 ^ k * 2 ^ k
and_mask n zero a le h = omega (arith, and_ones n a h, pow-zero 2)
and_mask zero (suc k) a le h = absurd (omega arith)
and_mask (suc n) (suc k) a le h =
    let le' : k ≤ n = omega arith in
    let grow : 2 ^ k ≤ 2 ^ n = pow-le-pow_right (omega arith) le' in
    let halved : (2 ^ suc n - 2 ^ suc k) / 2 ≡ 2 ^ n - 2 ^ k =
      omega (arith, two-pow-succ n, two-pow-succ k) in
    let quotient : a / 2 ^ suc k ≡ a / 2 / 2 ^ k =
      ap (λ t. a / t) (pow-succ' 2 k) ∙ sym (div-div-eq-div-mul a 2 (2 ^ k)) in
    omega (
      arith,
      grow,
      bit_and_step a (2 ^ suc n - 2 ^ suc k),
      ap (bit_and (a / 2)) halved,
      and_mask n k (a / 2) le' (omega (arith, two-pow-succ n)),
      two-pow-succ n,
      two-pow-succ k,
      quotient,
      ap (λ t. t * 2 ^ suc k) quotient,
      ap (λ t. a / 2 / 2 ^ k * t) (two-pow-succ k),
    )

and_self : (n a : ℕ) → a ≤ n → bit_and a a ≡ a
and_self n zero h = zero-bit_and 0
and_self zero (suc a) h = absurd (omega arith)
and_self (suc n) (suc a) h =
    omega (arith, bit_and_step (suc a) (suc a), and_self n (suc a / 2) (omega arith))

-- A power of two shares no digit with its predecessor.
pub and_pred_pow : (k : ℕ) → bit_and (2 ^ k) (2 ^ k - 1) ≡ 0
and_pred_pow zero = refl
and_pred_pow (suc k) =
    let halved : 2 ^ suc k / 2 ≡ 2 ^ k = omega (arith, two-pow-succ k) in
    let pred_halved : (2 ^ suc k - 1) / 2 ≡ 2 ^ k - 1 = omega (arith, two-pow-succ k, pow_pos k) in
    omega (
      arith,
      bit_and_step (2 ^ suc k) (2 ^ suc k - 1),
      ap₂ bit_and halved pred_halved,
      and_pred_pow k,
      two-pow-succ k,
    )

-- Only a power of two shares no digit with its predecessor.
pub pow_of_and_pred : (n v : ℕ) → v ≤ n → 0 < v → bit_and v (v - 1) ≡ 0 → (k : ℕ) × (v ≡ 2 ^ k)
pow_of_and_pred zero v h pos e = absurd (omega arith)
pow_of_and_pred (suc n) v h pos e = elim (ℕ_discrete (v % 2) 0) [
  | yes even ↦
      let halved : (v - 1) / 2 ≡ v / 2 - 1 = omega arith in
      let (k, q) =
        pow_of_and_pred n (v / 2) (omega arith) (omega arith)
          (omega (arith, bit_and_step v (v - 1), ap (bit_and (v / 2)) halved)) in
      (suc k, omega (arith, two-pow-succ k))
  | no odd ↦
      let halved : (v - 1) / 2 ≡ v / 2 = omega arith in
      (
        0,
        omega (
          arith,
          pow-zero 2,
          bit_and_step v (v - 1),
          ap (bit_and (v / 2)) halved,
          and_self v (v / 2) (omega arith),
        ),
      )
]

and_zero : (n x : ℕ) → x ≤ n → bit_and x 0 ≡ 0
and_zero n zero h = zero-bit_and 0
and_zero zero (suc x) h = absurd (omega arith)
and_zero (suc n) (suc x) h =
    omega (arith, bit_and_step (suc x) 0, and_zero n (suc x / 2) (omega arith))

-- `x & 1` is the lowest digit.
pub and_one : (x : ℕ) → bit_and x 1 ≡ x % 2
and_one x = omega (arith, bit_and_step x 1, and_zero (x / 2) (x / 2) (omega arith))
