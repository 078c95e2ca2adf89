-- ===== src/HeapPool/Create/Fill.antt =====
-- heap_pool.c: the loop of `heap_pool_create` that fills the index array and the headers.
use native.Mathlib.Decide.{ℕ_discrete}
use native.Mathlib.Numerals.{add-one}
use divers.Base.{
  ℕ, zero, suc, ◌+◌, ◌-◌, ◌*◌, ◌%◌, ◌≤◌, ◌<◌, ◌≡◌, refl, ◌⊎◌, subst, ◌∙◌, some, false, not, ◌&&◌,
  arith, ◌==◌,
}
use divers.Memory.{Mem, load, store, load-ext, load-store_self, load-store-Apart, store-outside}
use divers.HeapPool.{word_mod, init_loop, sub64}
use divers.HeapPool.Layout.{mul_step}

-- The rounds from `i` on, of `n`, have filled the index array at `w` and the headers of the chunks
-- that stand every `s` bytes from `q` on, and changed nothing else below the first of them.
pub record IsFilled (q w s n i : ℕ) (m m' : Mem) : Type 0 where
  pub index : (j : ℕ) → i ≤ j → j < n → load 8 m' (w + 8 * j) ≡ suc j
  pub header : (j : ℕ) → i ≤ j → j < n → load 8 m' (q + j * s - 8) ≡ j
  pub same : (x : ℕ) → (x < w + 8 * i) ⊎ ((w + 8 * n ≤ x) × (x < q + i * s - 8)) → m' x ≡ m x

module _ (a q w s n : ℕ) (room : w + 8 * n + 8 ≤ q) (wide : 8 ≤ s) (small : q + n * s < word_mod)
    (asserts : (i : ℕ) → i < n → (not (a == 0) && not ((q + i * s) % a == 0)) ≡ false) where
  -- What one round stores.
  abbrev round : ℕ → Mem → Mem
  round i m = store 8 (store 8 m (w + 8 * i) (suc i)) (q + i * s - 8) i

  round_index : (i : ℕ) (m : Mem) → i < n → load 8 (round i m) (w + 8 * i) ≡ suc i
  round_index i m lt =
      load-store-Apart 8 8 (store 8 m (w + 8 * i) (suc i)) (w + 8 * i) (q + i * s - 8) i
        (omega arith)
      ∙ load-store_self 8 m (w + 8 * i) (suc i) (omega arith)

  round_header : (i : ℕ) (m : Mem) → i < n → load 8 (round i m) (q + i * s - 8) ≡ i
  round_header i m lt =
      load-store_self 8 (store 8 m (w + 8 * i) (suc i)) (q + i * s - 8) i (omega arith)

  round-outside :
      (i : ℕ) (m : Mem) (x : ℕ)
      → i < n
      → (x < w + 8 * i) ⊎ ((w + 8 * n ≤ x) × (x < q + i * s - 8))
      → round i m x ≡ m x
  round-outside i m x lt h =
      store-outside 8 (store 8 m (w + 8 * i) (suc i)) (q + i * s - 8) i x (omega arith)
      ∙ store-outside 8 m (w + 8 * i) (suc i) x (omega arith)

  -- The later rounds spare what round `i` stored.
  IsFilled-round :
      (i : ℕ) (m m' : Mem)
      → i < n
      → IsFilled q w s n (suc i) (round i m) m'
      → IsFilled q w s n i m m'
  IsFilled-round i m m' lt f = record {
    index = λ j le below. elim (ℕ_discrete i j) [
      | yes e ↦
          subst (λ k. load 8 m' (w + 8 * k) ≡ suc k) e
            (load-ext 8 m' (round i m) (w + 8 * i) (λ x lo hi. f.same x (omega arith))
              ∙ round_index i m lt)
      | no ne ↦ f.index j (omega arith) below
    ];
    header = λ j le below. elim (ℕ_discrete i j) [
      | yes e ↦
          subst (λ k. load 8 m' (q + k * s - 8) ≡ k) e
            (load-ext 8 m' (round i m) (q + i * s - 8) (λ x lo hi. f.same x (omega arith))
              ∙ round_header i m lt)
      | no ne ↦ f.header j (omega arith) below
    ];
    same = λ x h. f.same x (omega arith) ∙ round-outside i m x lt h;
  }

  -- Every assertion holds, and the rounds fill what is left.
  pub init_loop-IsFilled :
      (r i : ℕ) (m : Mem)
      → i + r ≡ n
      → (m' : Mem) × (init_loop a s r i (w + 8 * i) (q + i * s) m ≡ some m')
        × IsFilled q w s n i m m'
  unfolding init_loop sub64
  init_loop-IsFilled zero i m e = (
    m,
    refl,
    record {
      index = λ j le lt. absurd (omega arith);
      header = λ j le lt. absurd (omega arith);
      same = λ x h. refl;
    },
  )
  init_loop-IsFilled (suc r) i m e =
      let lt : i < n = omega arith in
      let bound = mul_step s i n lt in
      let (m', run, filled) = init_loop-IsFilled r (suc i) (round i m) (omega arith) in
      let header : (q + i * s + word_mod - 8) % word_mod ≡ q + i * s - 8 = omega arith in
      let walker : w + 8 * i + 8 ≡ w + 8 * suc i = omega arith in
      let ptr : q + i * s + s ≡ q + suc i * s = omega arith in
      (m', rw (asserts i lt, header, walker, ptr, add-one) run, IsFilled-round i m m' lt filled)
