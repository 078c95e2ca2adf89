-- ===== src/HeapPool/Refine.antt =====
-- heap_pool: the abstract view of a pool, a stack of the numbers of its free chunks, and the runs of calls
-- that tell no difference.
use divers.Base.{ℕ, ◌≡◌, refl, ap₂, ◌<◌, false, List, [], ◌∷◌, map, Option, none, some, has}
use divers.HeapPool.{Pool, alloc, free, err_ptr, enomem}
use divers.HeapPool.Invariant.{chunk, IsPool}
use divers.HeapPool.Ops.{
  taken, returned, alloc-taken, taken-IsPool, alloc-full, free-returned, returned-IsPool,
}

-- A call: `heap_pool_alloc`, or `heap_pool_free` of chunk number `i`.
pub data Op : Type 0 where
  take : Op
  give : ℕ → Op

-- The specification: what a stack of free numbers answers to the allocations.
abbrev pub answers : (frees : List ℕ) → List Op → List (Option ℕ)
answers frees [] = []
answers [] (take ∷ ops) = none ∷ answers [] ops
answers (i ∷ frees) (take ∷ ops) = some i ∷ answers frees ops
answers frees (give i ∷ ops) = answers (i ∷ frees) ops

-- The calls give back only chunks that are in use.
abbrev pub Allowed : (n : ℕ) (frees : List ℕ) → List Op → Type 0
Allowed n frees [] = Unit
Allowed n [] (take ∷ ops) = Allowed n [] ops
Allowed n (i ∷ frees) (take ∷ ops) = Allowed n frees ops
Allowed n frees (give i ∷ ops) = (i < n) × (has i frees ≡ false) × Allowed n (i ∷ frees) ops

-- The code: what `heap_pool_alloc` returns along the same calls.
pub run : Pool → List Op → List ℕ
run p [] = []
run p (take ∷ ops) = let (a, q) = alloc p in a ∷ run q ops
run p (give i ∷ ops) = run (free p (chunk p i)) ops

-- The pointer that stands for an answer.
abbrev pub pointer : Pool → Option ℕ → ℕ
pointer p none = err_ptr enomem
pointer p (some i) = chunk p i

-- From a pool in order, along any calls that give back only chunks in use, `heap_pool_alloc` and `heap_pool_free` behave as
-- the stack of the free chunks: each allocation returns the chunk on top, and -ENOMEM exactly when the
-- stack is empty.
pub run_refines :
    (ops : List Op) (p : Pool) (frees : List ℕ)
    → IsPool p frees
    → Allowed p.desc.nrel frees ops
    → run p ops ≡ map (pointer p) (answers frees ops)
unfolding run
run_refines [] p [] v ok = refl
run_refines [] p (i ∷ frees) v ok = refl
run_refines (take ∷ ops) p [] v ok = rw (alloc-full v) (ap₂ ◌∷◌ refl (run_refines ops p [] v ok))
run_refines (take ∷ ops) p (i ∷ frees) v ok =
    rw (alloc-taken v) (ap₂ ◌∷◌ refl (run_refines ops (taken p) frees (taken-IsPool v) ok))
run_refines (give i ∷ ops) p [] v (lt, out, ok) =
    rw (free-returned v i (lt, out))
      (run_refines ops (returned p i) (i ∷ []) (returned-IsPool v i (lt, out)) ok)
run_refines (give i ∷ ops) p (j ∷ frees) v (lt, out, ok) =
    rw (free-returned v i (lt, out))
      (run_refines ops (returned p i) (i ∷ j ∷ frees) (returned-IsPool v i (lt, out)) ok)
