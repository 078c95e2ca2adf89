-- ===== src/HeapPool/Samples.antt =====
-- heap_pool: runs on a pool of three chunks of 1000 bytes, and the theorems at that pool.
use divers.Base.{
  List, map, take, drop, length, zero, suc, ◌+◌, ◌<◌, none, some, ◌==◌, if◌then◌else◌,
}
use mathlib.Core.Option.{some-injective}
use divers.Base.{ℕ, ◌*◌, ◌^◌, ◌≤◌, ◌≡◌, refl, inl, false, [], ◌∷◌, arith, ==-refl}
use divers.Memory.{Mem, load, store}
use divers.HeapPool.{
  Pool, Created, failed, created, aborted, raw, init_loop, lay_out, create_at, create, create_nrel,
  is_err, alloc, free,
}
use divers.HeapPool.Create.{indices, IsFresh, create-IsFresh}
use divers.HeapPool.Create.Sizes.{IsArgs}
use divers.HeapPool.Client.{State, Step, Reach, here, next, IsSound}
use divers.HeapPool.Client.Steps.{Reach-IsSound}
use divers.HeapPool.Client.Safety.{IsSafe, Reach-IsSafe, create-IsPool, create-IsSound, alloc-free}
use divers.HeapPool.{word_mod, max_errno}
use divers.HeapPool.Invariant.{chunk, IsPool}
use divers.HeapPool.Sharing.{Answers, attach, get_stat}
use divers.HeapPool.Sharing.Balance.{file_of, attach-IsPool}
use divers.HeapPool.Program.{alloc_loop, destroyed, main}
use divers.HeapPool.Program.Reverse.{rev_append}
use divers.HeapPool.Program.Main.{main-returned}
use divers.HeapPool.Refine.{Op, answers, Allowed, run, pointer, run_refines}

abbrev zeros : Mem
zeros x = 0

abbrev nothing : Pool
nothing = record {
  base = 0;
  desc = record {
    next = 0;
    szel = 0;
    nrel = 0;
    nralloc = 0;
    firstfree = 0;
    szck = 0;
    holesize = 0;
    allocsize = 0;
    offfirstelem = 0;
  };
  mem = zeros;
}

abbrev pool_of : Created → Pool
pool_of (created p) = p
pool_of (failed w) = nothing
pool_of aborted = nothing

abbrev at : ℕ
at = 2 ^ 16

abbrev pool : Pool
pool = pool_of (create 4096 3 1000 0 at zeros)

args : IsArgs 4096 3 1000 0 at
args = record {
  page = (12, omega arith, refl);
  page_small = omega arith;
  page_word = omega arith;
  nb_pos = omega arith;
  nb_small = omega arith;
  size_small = omega arith;
  alignment = inl refl;
  in_page = omega arith;
  mapped = omega arith;
  user = omega arith;
  on_page = (16, refl);
}

pool_created : create 4096 3 1000 0 at zeros ≡ created pool
unfolding create create_at lay_out init_loop create_nrel store
pool_created = refl

-- Ten chunks of 386 bytes are asked for, and the pool has nine.
one_less : create_nrel 4096 10 386 0 ≡ 9
unfolding create_nrel
one_less = refl

-- The client takes one chunk.
abbrev s0 : State
s0 = record { pool = pool; live = [] }

first_free : is_err (alloc pool).0 ≡ false
unfolding create create_at lay_out init_loop create_nrel store alloc is_err load
first_free = refl

trace : Reach s0 (record { pool = (alloc pool).1; live = (alloc pool).0 ∷ [] })
trace = next here (Step.take s0 first_free)

create-IsFresh_example :
    (p : Pool) × (create 4096 3 1000 0 at zeros ≡ created p) × IsFresh 3 1000 0 p
create-IsFresh_example = create-IsFresh args zeros

abbrev s1 : State
s1 = record { pool = (alloc pool).1; live = (alloc pool).0 ∷ [] }

Reach-IsSafe_example : IsSafe s1
Reach-IsSafe_example = Reach-IsSafe zeros pool args pool_created trace

s1-IsSound : IsSound s1
s1-IsSound = Reach-IsSound (create-IsSound zeros pool args pool_created) trace

alloc-free_example :
    let a = (alloc pool).0 in
    let (b, q) = alloc (free s1.pool a) in
    (b ≡ a)
    × (q.desc.nralloc ≡ s1.pool.desc.nralloc)
    × ((x : ℕ) → raw s1.pool + 8 * s1.pool.desc.nrel ≤ x → q.mem x ≡ s1.pool.mem x)
alloc-free_example =
    alloc-free {s = s1} (alloc pool).0 s1-IsSound (ground (arith, ==-refl (alloc pool).0))

-- Two chunks are taken, the first is given back and taken again.
abbrev calls : List Op
calls = Op.take ∷ Op.take ∷ Op.give 0 ∷ Op.take ∷ []

calls-Allowed : Allowed pool.desc.nrel (indices 0 pool.desc.nrel) calls
unfolding create create_at lay_out init_loop create_nrel store
calls-Allowed = (omega arith, refl, tt)

run_refines_example : run pool calls ≡ map (pointer pool) (answers (indices 0 pool.desc.nrel) calls)
run_refines_example =
    run_refines calls pool (indices 0 pool.desc.nrel) (create-IsPool zeros pool args pool_created)
      calls-Allowed

-- Another process maps the pool at `2 ^ 20`.
in_space : 2 ^ 20 + pool.desc.allocsize + max_errno < word_mod
unfolding create create_at lay_out init_loop create_nrel store
in_space = omega arith

attach-IsPool_example : IsPool (attach (2 ^ 20) (file_of pool)) (indices 0 pool.desc.nrel)
attach-IsPool_example =
    attach-IsPool pool (indices 0 pool.desc.nrel) (2 ^ 20)
      (create-IsPool zeros pool args pool_created) (omega arith) in_space

-- The file `/dev/shm/p` is there, with a pool of one page.
abbrev shared : Answers
shared = record {
  stat = λ path. elim (length path) [ zero ↦ none | suc n ↦ if n == 9 then some 4096 else none ];
  stat_errno = 2;
  shm_opened = some 5;
  addr = 2 ^ 20;
  file = file_of pool;
}

-- The name `/p`.
abbrev name : List ℕ
name = 47 ∷ 112 ∷ []

shared-sized :
    (st_size : ℕ) → get_stat shared.stat name ≡ some st_size → shared.file.0.allocsize ≡ st_size
unfolding get_stat create create_at lay_out init_loop create_nrel store
shared-sized st_size e = some-injective 4096 st_size e

main_args : IsArgs 4096 10 128 0 at
main_args = record {
  page = (12, omega arith, refl);
  page_small = omega arith;
  page_word = omega arith;
  nb_pos = omega arith;
  nb_small = omega arith;
  size_small = omega arith;
  alignment = inl refl;
  in_page = omega arith;
  mapped = omega arith;
  user = omega arith;
  on_page = (16, refl);
}

enough_chunks : 10 ≤ create_nrel 4096 10 128 0
unfolding create_nrel
enough_chunks = omega arith

-- What is on the stack before.
abbrev junk : List ℕ
junk = 1 ∷ 2 ∷ 3 ∷ 4 ∷ 5 ∷ 6 ∷ 7 ∷ 8 ∷ 9 ∷ 10 ∷ []

main-returned_example :
    (p : Pool) × (last : Pool) × (create 4096 10 128 0 at zeros ≡ created p)
    × (main junk (some 70 ∷ some 80 ∷ none ∷ []) 4096 at zeros [] ≡ destroyed last [])
    × let frees = indices 0 p.desc.nrel in
      ((alloc_loop junk p).0 ≡ map (chunk p) (take 10 frees))
      × IsPool last (rev_append (take 10 frees) (drop 10 frees))
main-returned_example =
    main-returned junk (some 70 ∷ some 80 ∷ none ∷ []) 4096 at zeros [] refl main_args enough_chunks
