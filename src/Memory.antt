-- ===== src/Memory.antt =====
-- Byte memory, and the little-endian words that the C code reads and writes through casts:
-- `*(size_t*)p` is 8 bytes, an i386 `*(long*)p` is 4. Used for heap_pool and got_modifier.
use divers.Base.{
  ℕ, zero, suc, List, [], ◌∷◌, ◌+◌, ◌*◌, ◌/◌, ◌%◌, ◌^◌, ◌≤◌, ◌<◌, ◌≡◌, refl, ◌⊎◌, ap₂, ◌∙◌, arith,
  ◌==◌, if◌then◌else◌,
}
use native.Mathlib.Nat.{pow-succ'}

-- A byte for each address.
abbrev pub Mem : Type 0
Mem = ℕ → ℕ

unfoldable pub poke : Mem → ℕ → ℕ → Mem
poke m a b x = if x == a then b else m x

-- The word of `n` bytes at an address.
unfoldable pub load : ℕ → Mem → ℕ → ℕ
load zero m a = 0
load (suc n) m a = m a + 256 * load n m (a + 1)

unfoldable pub store : ℕ → Mem → ℕ → ℕ → Mem
unfolding poke
store zero m a v = m
store (suc n) m a v = store n (poke m a (v % 256)) (a + 1) (v / 256)

-- Bytes that hold the given words of four bytes, each at its address, and are 0 elsewhere.
abbrev pub words : List (ℕ × ℕ) → Mem
words [] = λ x. 0
words ((a, v) ∷ ws) = store 4 (words ws) a v

-- The `n` bytes at `a` and the `k` bytes at `b` share no address.
abbrev pub Apart : ℕ → ℕ → ℕ → ℕ → Type 0
Apart a n b k = (a + n ≤ b) ⊎ (b + k ≤ a)

pub poke_self : (m : Mem) (a b : ℕ) → poke m a b a ≡ b
unfolding poke
poke_self m a b = ground arith

-- A store changes only its own bytes.
pub store-outside : (n : ℕ) (m : Mem) (a v x : ℕ) → (x < a) ⊎ (a + n ≤ x) → store n m a v x ≡ m x
unfolding store poke
store-outside zero m a v x h = refl
store-outside (suc n) m a v x h =
    store-outside n (poke m a (v % 256)) (a + 1) (v / 256) x (omega arith) ∙ ground arith

-- A load reads only its own bytes.
pub load-ext :
    (n : ℕ) (m m' : Mem) (a : ℕ)
    → ((x : ℕ) → a ≤ x → x < a + n → m x ≡ m' x)
    → load n m a ≡ load n m' a
unfolding load
load-ext zero m m' a h = refl
load-ext (suc n) m m' a h =
    ap₂ (λ (p q : ℕ). p + 256 * q) (h a (omega arith) (omega arith))
      (load-ext n m m' (a + 1) (λ x lo hi. h x (omega arith) (omega arith)))

pub load-store_self : (n : ℕ) (m : Mem) (a v : ℕ) → v < 256 ^ n → load n (store n m a v) a ≡ v
unfolding load store
load-store_self zero m a v h = omega arith
load-store_self (suc n) m a v h = omega (
  arith,
  store-outside n (poke m a (v % 256)) (a + 1) (v / 256) a (omega arith),
  poke_self m a (v % 256),
  load-store_self n (poke m a (v % 256)) (a + 1) (v / 256) (omega (arith, pow-succ' 256 n)),
)

pub load-store-Apart :
    (n k : ℕ) (m : Mem) (a b v : ℕ) → Apart a n b k → load n (store k m b v) a ≡ load n m a
load-store-Apart n k m a b v h =
    load-ext n (store k m b v) m a (λ x lo hi. store-outside k m b v x (omega arith))

pub load-poke-Apart :
    (n : ℕ) (m : Mem) (a x b : ℕ) → (x < a) ⊎ (a + n ≤ x) → load n (poke m x b) a ≡ load n m a
unfolding poke
load-poke-Apart n m a x b h =
    load-ext n (λ y. if y == x then b else m y) m a (λ y lo hi. ground arith)

-- Two memories agree outside the bytes `[a, a + n)`.
abbrev pub SameOutside : ℕ → ℕ → Mem → Mem → Type 0
SameOutside a n m m' = (x : ℕ) → (x < a) ⊎ (a + n ≤ x) → m' x ≡ m x

-- Every address holds a byte.
abbrev pub IsBytes : Mem → Type 0
IsBytes m = (x : ℕ) → m x < 256

-- A word that is loaded and stored copies its bytes.
pub store-load :
    (n : ℕ) (m m' : Mem) (a b k : ℕ)
    → IsBytes m'
    → k < n
    → store n m a (load n m' b) (a + k) ≡ m' (b + k)
unfolding store load poke
store-load zero m m' a b k h lt = absurd (omega arith)
store-load (suc n) m m' a b zero h lt =
    let byte : (m' b + 256 * load n m' (b + 1)) % 256 ≡ m' b = omega (arith, h b) in
    let here : a + 0 ≡ a = omega arith in
    let there : b + 0 ≡ b = omega arith in
    rw (here, there)
      (store-outside n (poke m a ((m' b + 256 * load n m' (b + 1)) % 256)) (a + 1)
          ((m' b + 256 * load n m' (b + 1)) / 256) a (omega arith)
        ∙ poke_self m a ((m' b + 256 * load n m' (b + 1)) % 256)
        ∙ byte)
store-load (suc n) m m' a b (suc k) h lt =
    let rest : (m' b + 256 * load n m' (b + 1)) / 256 ≡ load n m' (b + 1) = omega (arith, h b) in
    let from : a + suc k ≡ a + 1 + k = omega arith in
    let to : b + suc k ≡ b + 1 + k = omega arith in
    rw (rest, from, to)
      (store-load n (poke m a ((m' b + 256 * load n m' (b + 1)) % 256)) m' (a + 1) (b + 1) k h
        (omega arith))
