-- ===== src/HeapPool/Client.antt =====
-- heap_pool: any sequence of calls by a client that frees only what it holds and writes only inside
-- the chunks that it holds.
pub mod Steps
pub mod Safety
use native.Mathlib.Decide.{ℕ_discrete}
use mathlib.Core.Bool.{false≢true}
use divers.Base.{
  ℕ, suc, ◌+◌, ◌-◌, ◌*◌, ◌≤◌, ◌<◌, ◌≡◌, refl, ◌≢◌, ◌⊎◌, inl, inr, ap, ap₂, sym, subst, ◌∙◌, Bool,
  true, false, ◌||◌, List, [], ◌∷◌, map, arith, ◌==◌, if◌then◌else◌, ==-refl, ne→==, Bool-cases,
  length, has, Distinct, All,
}
use divers.Memory.{Apart, poke}
use divers.HeapPool.{Pool, raw, is_err, alloc, free, err_ptr, enomem}
use divers.HeapPool.Invariant.{chunk, IsPool, InUse}
use divers.HeapPool.Layout.{chunk_inside, chunks-Apart, chunk-not_err}
use divers.HeapPool.Ops.{
  taken, returned, alloc-taken, taken-IsPool, alloc-full, free-returned, returned-IsPool,
  written-IsPool,
}

-- A pool and the addresses that the client holds, the last one first.
pub record State : Type 0 where
  pub pool : Pool
  pub live : List ℕ

abbrev pub release : ℕ → List ℕ → List ℕ
release a [] = []
release a (x ∷ xs) = if a == x then xs else x ∷ release a xs

pub data Step : State → State → Type 0 where
  take :
      (s : State)
      → is_err (alloc s.pool).0 ≡ false
      → Step s (record { pool = (alloc s.pool).1; live = (alloc s.pool).0 ∷ s.live })
  refused :
      (s : State) → is_err (alloc s.pool).0 ≡ true → Step s (record s { pool = (alloc s.pool).1 })
  give :
      (s : State) (a : ℕ)
      → has a s.live ≡ true
      → Step s (record { pool = free s.pool a; live = release a s.live })
  write :
      (s : State) (a x b : ℕ)
      → has a s.live ≡ true
      → a ≤ x
      → x < a + s.pool.desc.szel
      → Step s (record s { pool = record (s.pool) { mem = poke s.pool.mem x b } })

pub data Reach (s : State) : State → Type 0 where
  here : Reach s s
  next : {t u : State} → Reach s t → Step t u → Reach s u

-- The client holds exactly the chunks that are not free.
pub record IsHeld (s : State) (frees used : List ℕ) : Type 0 where
  pub pool : IsPool s.pool frees
  pub live : s.live ≡ map (chunk s.pool) used
  pub in_use : All (InUse s.pool frees) used
  pub distinct : Distinct used
  pub count : length used ≡ s.pool.desc.nralloc

abbrev pub IsSound : State → Type 0
IsSound s = (frees : List ℕ) × (used : List ℕ) × IsHeld s frees used
