-- ===== src/HeapPool/Program.antt =====
-- heap_pool/main.c: the program that takes ten chunks of a pool and gives them back, and does the same with
-- ten blocks of malloc. The times that it measures are left out.
pub mod Reverse
pub mod Main
use divers.Base.{ℕ, false, Option, none, some, List, [], ◌∷◌, if◌then◌else◌}
use divers.Memory.{Mem}
use divers.Resources.{Held, block, release, ◌>>=◌}
use divers.HeapPool.{Pool, Created, failed, created, aborted, is_err_or_null, alloc, free}
use divers.HeapPool.Sharing.{create_held, destroy}

-- The loop that fills `tab`, over its entries that the bound on `i` leaves: behind an error pointer they stay
-- as they are.
unfoldable pub alloc_loop : (tab : List ℕ) → Pool → List ℕ × Pool
alloc_loop [] p = ([], p)
alloc_loop (t ∷ tab) p =
    let (a, q) = alloc p in
    let (rest, r) = alloc_loop tab q in if is_err_or_null a then (a ∷ tab, q) else (a ∷ rest, r)

-- The loop that frees.
unfoldable pub free_loop : (tab : List ℕ) → Pool → Pool
free_loop [] p = p
free_loop (a ∷ tab) p = free_loop tab (free p a)

-- The loop over `malloc`, with what its calls up to the tenth return; `pp` is filled from its last entry.
unfoldable pub malloc_loop : (answers pp : List (Option ℕ)) → Held → List (Option ℕ) × Held
malloc_loop [] pp held = (pp, held)
malloc_loop (none ∷ answers) pp held = (none ∷ pp, held)
malloc_loop (some b ∷ answers) pp held = malloc_loop answers (some b ∷ pp) (block b ∷ held)

-- The loop over `free`, which does nothing to NULL.
unfoldable pub free_blocks : (pp : List (Option ℕ)) → Held → Option Held
free_blocks [] held = some held
free_blocks (none ∷ pp) held = free_blocks pp held
free_blocks (some b ∷ pp) held = release (block b) held >>= λ h. free_blocks pp h

-- How `main` ends: it returns before it has a pool, or 0 behind `heap_pool_destroy`, with the pool as it was given to
-- that; an `assert` fails, or it unmaps what is not mapped.
pub data Ended : Type 0 where
  returned : ℕ → Held → Ended
  destroyed : (last : Pool) → Held → Ended
  abort : Ended
  fault : Ended

-- `main` behind the creation; its name for the pool is NULL.
unfoldable pub use_pool : (tab : List ℕ) → (answers : List (Option ℕ)) → Pool → Held → Ended
unfolding alloc_loop malloc_loop free_blocks free_loop destroy
use_pool tab answers p held =
    let (tab', q) = alloc_loop tab p in
    let (pp, held') = malloc_loop answers [] held in
    let last = free_loop tab' q in
    elim (free_blocks pp held' >>= λ h. destroy false last [] h) [
      | none ↦ fault
      | some r ↦ destroyed last r.0
    ]

-- `main` behind `heap_pool_create`, which does not put a pool at NULL; -1 is written 1.
unfoldable pub with_created : (tab : List ℕ) → (answers : List (Option ℕ)) → Created × Held → Ended
unfolding use_pool
with_created tab answers (failed w, h) = if is_err_or_null w then returned 1 h else fault
with_created tab answers (created p, h) =
    if is_err_or_null p.base then returned 1 h else use_pool tab answers p h
with_created tab answers (aborted, h) = abort

-- `main`, with the ten entries of `tab` that it uses as they are on the stack.
unfoldable pub main :
    (tab : List ℕ) → (answers : List (Option ℕ)) → (pagesize addr : ℕ) → Mem → Held → Ended
unfolding with_created create_held
main tab answers pagesize addr m held =
    with_created tab answers (create_held pagesize 10 128 0 addr m held)
