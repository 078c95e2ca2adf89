-- ===== src/HeapPool/Layout.antt =====
-- heap_pool: where the chunks of a laid-out pool lie.
use native.Mathlib.Nat.{mul-le-mul_right}
use native.Mathlib.Decide.{dec_lt}
use divers.Base.{ℕ, ◌+◌, ◌-◌, ◌*◌, ◌≤◌, ◌<◌, ◌≡◌, ◌≢◌, false, arith}
use divers.Memory.{Apart}
use divers.HeapPool.{Pool, raw, is_err, nth_chunk, nb_free}
use divers.HeapPool.Invariant.{chunk, IsLaidOut}

pub mul_step : (s i j : ℕ) → i < j → i * s + s ≤ j * s
mul_step s i j lt = omega (arith, mul-le-mul_right s lt)

module _ {p : Pool} (l : IsLaidOut p) where
  open l use {mapped, below_errors, index_first, stride, hole, inside, headers_inside}

  -- Chunk `i` and the header in front of it stand behind the index array and inside the mapping.
  pub chunk_inside :
      (i : ℕ)
      → i < p.desc.nrel
      → (raw p + 8 * p.desc.nrel + 8 ≤ chunk p i)
        × (chunk p i + p.desc.szel ≤ p.base + p.desc.allocsize)
  chunk_inside i lt = omega (arith, mul_step p.desc.szck i p.desc.nrel lt)

  -- Two chunks share no byte, and neither lies over the header of the other.
  pub chunks-Apart :
      (i j : ℕ) → i ≢ j → Apart (chunk p i - 8) (p.desc.szel + 8) (chunk p j - 8) (p.desc.szel + 8)
  chunks-Apart i j ne = elim (dec_lt i j) [
    | yes lt ↦ omega (arith, mul_step p.desc.szck i j lt)
    | no ge ↦ omega (arith, mul_step p.desc.szck j i (omega arith))
  ]

  pub nth_chunk-chunk : (i : ℕ) → i < p.desc.nrel → nth_chunk p i ≡ chunk p i
  unfolding nth_chunk
  nth_chunk-chunk i lt = omega (arith, chunk_inside i lt)

  -- The address of a chunk is neither null nor an error pointer.
  pub chunk-not_err : (i : ℕ) → i < p.desc.nrel → is_err (chunk p i) ≡ false
  unfolding is_err
  chunk-not_err i lt = ground (arith, chunk_inside i lt)

  pub nb_free-sub : p.desc.nralloc ≤ p.desc.nrel → nb_free p ≡ p.desc.nrel - p.desc.nralloc
  unfolding nb_free
  nb_free-sub le = omega arith
