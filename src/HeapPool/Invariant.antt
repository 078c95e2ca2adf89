-- ===== src/HeapPool/Invariant.antt =====
-- heap_pool: what is true of a pool between two calls. The free chunks are the list that
-- `hpd_firstfree` and the index array spell; all other chunks below `hpd_nrel` are in use.
use divers.Base.{ℕ, ◌+◌, ◌-◌, ◌*◌, ◌≤◌, ◌<◌, ◌≡◌, false, List, [], ◌∷◌, length, has, Distinct, All}
use divers.Memory.{load}
use divers.HeapPool.{Pool, word_mod, max_errno, sizeof_desc, index_at}

-- Where chunk `i` begins, with no wrap.
abbrev pub chunk : Pool → ℕ → ℕ
chunk p i = p.base + p.desc.offfirstelem + i * p.desc.szck

-- The parts of the mapping are in order: descriptor, index array, and behind it the chunks, each
-- behind a hole that holds its index, all inside the mapping.
pub record IsLaidOut (p : Pool) : Type 0 where
  pub mapped : 0 < p.base
  pub below_errors : p.base + p.desc.allocsize + max_errno < word_mod
  pub index_first : sizeof_desc + 8 * p.desc.nrel + 8 ≤ p.desc.offfirstelem
  pub stride : p.desc.szck ≡ p.desc.holesize + p.desc.szel
  pub hole : 8 ≤ p.desc.holesize
  pub inside : p.desc.offfirstelem + p.desc.nrel * p.desc.szck ≤ p.desc.allocsize + p.desc.holesize
  pub headers_inside : p.desc.offfirstelem ≤ p.desc.allocsize

-- From index `h` the index array leads through the list.
abbrev pub Chain : (ℕ → ℕ) → ℕ → List ℕ → Type 0
Chain next h [] = Unit
Chain next h (x ∷ xs) = (h ≡ x) × Chain next (next x) xs

abbrev pub Below : ℕ → List ℕ → Type 0
Below n = All (λ x. x < n)

-- The pool's free chunks are those of the list, in the order in which `heap_pool_alloc` takes them.
pub record IsPool (p : Pool) (frees : List ℕ) : Type 0 where
  pub layout : IsLaidOut p
  pub total : length frees + p.desc.nralloc ≡ p.desc.nrel
  pub distinct : Distinct frees
  pub in_range : Below p.desc.nrel frees
  pub chain : Chain (index_at p) p.desc.firstfree frees
  pub headers :
      (i : ℕ)
      → i < p.desc.nrel
      → load 8 p.mem (p.base + p.desc.offfirstelem + i * p.desc.szck - 8) ≡ i

-- Chunk `i` is in use.
abbrev pub InUse : Pool → List ℕ → ℕ → Type 0
InUse p frees i = (i < p.desc.nrel) × (has i frees ≡ false)
