-- ===== src/HeapPool/Program/Main.antt =====
-- heap_pool/main.c: `main` gives back what it takes.
use divers.Base.{
  Option, none, some, [], ℕ, ◌≤◌, ◌≡◌, refl, ap, ◌∙◌, arith, subst, List, ◌∷◌, take, drop, length,
  map, false,
}
use divers.Memory.{Mem}
use divers.Resources.{Held, block, mapping, release-top}
use divers.HeapPool.{Pool, created, create_nrel, create_allocsize, create, is_err_or_null}
use divers.HeapPool.Invariant.{chunk, IsPool}
use divers.HeapPool.Create.{indices, length-indices, create-IsFresh}
use divers.HeapPool.Create.Sizes.{IsArgs}
use divers.HeapPool.Sharing.{create_held, destroy}
use divers.HeapPool.Sharing.Balance.{create-mapped}
use divers.HeapPool.Program.{
  alloc_loop, free_loop, malloc_loop, free_blocks, destroyed, use_pool, with_created, main,
}
use divers.HeapPool.Program.Reverse.{rev_append, loops_reverse}

base-not_null : (p : Pool) (frees : List ℕ) → IsPool p frees → is_err_or_null p.base ≡ false
unfolding is_err_or_null
base-not_null p frees v = ground (arith, v.layout.mapped, v.layout.below_errors)

-- What `malloc` gave is freed.
malloc_loop-freed :
    (answers pp : List (Option ℕ)) (held : Held)
    → let (pp', held') = malloc_loop answers pp held in free_blocks pp' held' ≡ free_blocks pp held
unfolding malloc_loop free_blocks
malloc_loop-freed [] pp held = refl
malloc_loop-freed (none ∷ answers) pp held = refl
malloc_loop-freed (some b ∷ answers) pp held =
    malloc_loop-freed answers (some b ∷ pp) (block b ∷ held) ∙ rw (release-top (block b) held) refl

use_pool-returned :
    (tab : List ℕ) (answers : List (Option ℕ)) (p : Pool) (frees : List ℕ) (held : Held)
    → IsPool p frees
    → length tab ≤ length frees
    → use_pool tab answers p (mapping p.base p.desc.allocsize ∷ held)
      ≡ destroyed (free_loop (alloc_loop tab p).0 (alloc_loop tab p).1) held
unfolding use_pool destroy
use_pool-returned tab answers p frees held v le =
    let (_, _, base, size) = loops_reverse tab p frees v le in
    let blocks = malloc_loop-freed answers [] (mapping p.base p.desc.allocsize ∷ held) in
    rw (use_pool, blocks) (rw (base, size, release-top (mapping p.base p.desc.allocsize) held) refl)

main_used :
    (tab : List ℕ) (answers : List (Option ℕ)) (pagesize addr : ℕ) (m : Mem) (p : Pool)
    (held : Held)
    → create pagesize 10 128 0 addr m ≡ created p
    → is_err_or_null p.base ≡ false
    → main tab answers pagesize addr m held
      ≡ use_pool tab answers p (mapping addr (create_allocsize pagesize 10 128 0) ∷ held)
unfolding main create_held with_created
main_used tab answers pagesize addr m p held e ok =
    let made : create_held pagesize 10 128 0 addr m held
        ≡ (created p, mapping addr (create_allocsize pagesize 10 128 0) ∷ held) =
      rw (e, create_held) refl in
    ap (with_created tab answers) made ∙ rw ok refl

-- With sensible arguments and a mapping, where the page size gives the pool ten chunks, `main` takes the first ten and
-- gives all ten back: the pool that it destroys is in order, and all its chunks are free, the ten on top in the other
-- order. It ends with 0, holding nothing that it did not hold before, whichever of its calls of `malloc` fail.
pub main-returned :
    (tab : List ℕ) (answers : List (Option ℕ)) (pagesize addr : ℕ) (m : Mem) (held : Held)
    → length tab ≡ 10
    → IsArgs pagesize 10 128 0 addr
    → 10 ≤ create_nrel pagesize 10 128 0
    → (p : Pool) × (last : Pool) × (create pagesize 10 128 0 addr m ≡ created p)
      × (main tab answers pagesize addr m held ≡ destroyed last held)
      × let frees = indices 0 p.desc.nrel in
        ((alloc_loop tab p).0 ≡ map (chunk p) (take 10 frees))
        × IsPool last (rev_append (take 10 frees) (drop 10 frees))
main-returned tab answers pagesize addr m held ten args enough =
    let (p, e, fresh) = create-IsFresh args m in
    let (base, size, nrel) = create-mapped pagesize 10 128 0 addr m p e in
    let frees = indices 0 p.desc.nrel in
    let le : length tab ≤ length frees = omega (arith, length-indices 0 p.desc.nrel) in
    let (taken, back, _, _) = loops_reverse tab p frees fresh.pool le in
    let ends = use_pool-returned tab answers p frees held fresh.pool le in
    (
      p,
      free_loop (alloc_loop tab p).0 (alloc_loop tab p).1,
      e,
      main_used tab answers pagesize addr m p held e (base-not_null p frees fresh.pool)
          ∙ rw⁻¹ (base, size) ends,
      (
        subst (λ n. (alloc_loop tab p).0 ≡ map (chunk p) (take n frees)) ten taken,
        subst
            (λ n.
              IsPool (free_loop (alloc_loop tab p).0 (alloc_loop tab p).1)
                (rev_append (take n frees) (drop n frees)))
            ten back,
      ),
    )
