-- ===== src/HeapPool/Create.antt =====
-- heap_pool.c: `heap_pool_create` establishes the invariant, and refuses what it must.
pub mod Sizes
pub mod Fill
pub mod Place
use native.Mathlib.Nat.{
  mul-le-mul, lt_of_mul-lt-mul_right, add-zero, mod-eq-sub-mul-div, mul-mod_left,
}
use native.Mathlib.Decide.{ℕ_discrete}
use divers.Base.{
  ℕ, zero, suc, ◌+◌, ◌-◌, ◌*◌, ◌%◌, ◌^◌, ◌≤◌, ◌<◌, ◌≡◌, refl, ◌≢◌, ◌↔◌, inl, inr, ap, sym, subst,
  ◌∙◌, List, some, [], ◌∷◌, Bool, true, false, not, ◌&&◌, arith, ◌==◌, ne→==, Bool-cases, length,
  has, Distinct,
}
use divers.Memory.{Mem, load}
use divers.HeapPool.{
  Pool, Created, failed, created, word_mod, add64, sub64, einval, err_ptr, map_failed,
  is_power_of_two, align_up, create_align, create_holesize, create_allocsize, create_nrel,
  init_loop, lay_out, create_at, create,
}
use divers.HeapPool.Align.{
  IsPowerOfTwo, IsCeiling, power-multiple, power_bounds, is_power_of_two_iff,
}
use divers.HeapPool.Invariant.{chunk, Chain, Below, IsLaidOut, IsPool}
use divers.HeapPool.Create.Sizes.{Multiple, IsArgs, IsSized, sized, wanted_small}
use divers.HeapPool.Create.Fill.{IsFilled, init_loop-IsFilled}
use divers.HeapPool.Create.Place.{
  start, place, alloc_small, align_power, align-multiple, place-IsCeiling, place_inside,
  array_inside, Multiple-add, Multiple-mul, Multiple_trans,
}

-- `i`, `i + 1`, ..., `r` numbers in all.
abbrev pub indices : ℕ → ℕ → List ℕ
indices i zero = []
indices i (suc r) = i ∷ indices (suc i) r

pub length-indices : (i r : ℕ) → length (indices i r) ≡ r
length-indices i zero = refl
length-indices i (suc r) = ap suc (length-indices (suc i) r)

not-mem-indices : (x i r : ℕ) → x < i → has x (indices i r) ≡ false
not-mem-indices x i zero lt = refl
not-mem-indices x i (suc r) lt = ground (arith, not-mem-indices x (suc i) r (omega arith))

Distinct-indices : (i r : ℕ) → Distinct (indices i r)
Distinct-indices i zero = tt
Distinct-indices i (suc r) = (not-mem-indices i (suc i) r (omega arith), Distinct-indices (suc i) r)

Below-indices : (i r n : ℕ) → i + r ≤ n → Below n (indices i r)
Below-indices i zero n le = tt
Below-indices i (suc r) n le = (omega arith, Below-indices (suc i) r n (omega arith))

Chain-indices :
    (next : ℕ → ℕ) (i r n : ℕ)
    → i + r ≤ n
    → ((j : ℕ) → j < n → next j ≡ suc j)
    → Chain next i (indices i r)
Chain-indices next i zero n le e = tt
Chain-indices next i (suc r) n le e =
    (refl, rw (e i (omega arith)) (Chain-indices next (suc i) r n (omega arith) e))

-- A multiple passes the assertion on the alignment.
Multiple-passes : (a x : ℕ) → (a ≢ 0 → Multiple a x) → (not (a == 0) && not (x % a == 0)) ≡ false
Multiple-passes zero x m = refl
Multiple-passes (suc a) x m =
    let (q, e) = m (λ z. cc) in
    let none_left : x % suc a ≡ 0 = rw e (mul-mod_left q (suc a)) in rw none_left (ground arith)

-- What `heap_pool_create` promises of the pool that it returns.
pub record IsFresh (nb size align' : ℕ) (p : Pool) : Type 0 where
  pub pool : IsPool p (indices 0 p.desc.nrel)
  pub payload : p.desc.szel ≡ size
  pub count : nb ≤ p.desc.nrel + 1
  pub aligned : (i : ℕ) → align' ≢ 0 → Multiple align' (chunk p i)

add64-eq : (a b : ℕ) → a + b < word_mod → add64 a b ≡ a + b
unfolding add64
add64-eq a b h = omega arith

sub64-eq : (a b : ℕ) → b ≤ a → a < word_mod → sub64 a b ≡ a - b
unfolding sub64
sub64-eq a b le lt = omega arith

-- What is returned when the loop ends, nothing wraps and no assertion fails.
lay_out-created :
    (size align' addr align hole alloc n : ℕ) (m m' : Mem)
    → hole + size < word_mod
    → addr ≤ align_up (add64 (addr + 72 + 8 * n) align) align
    → align_up (add64 (addr + 72 + 8 * n) align) align < word_mod
    → init_loop align'
        (hole + size)
        n
        0
        (addr + 72)
        (align_up (add64 (addr + 72 + 8 * n) align) align)
        m
      ≡ some m'
    → lay_out size align' addr align hole alloc n m
      ≡ created (record {
        base = addr;
        desc = record {
          next = 0;
          szel = size;
          nrel = n;
          nralloc = 0;
          firstfree = 0;
          szck = hole + size;
          holesize = hole;
          allocsize = alloc;
          offfirstelem = align_up (add64 (addr + 72 + 8 * n) align) align - addr;
        };
        mem = m';
      })
unfolding lay_out
lay_out-created size align' addr align hole alloc n m m' fits le lt run =
    let strides : add64 size hole ≡ hole + size = omega (arith, add64-eq size hole) in
    let strides' : add64 hole size ≡ hole + size = omega (arith, add64-eq hole size) in
    let ptr = align_up (add64 (addr + 72 + 8 * n) align) align in
    let offset : sub64 ptr addr ≡ ptr - addr = omega (arith, sub64-eq ptr addr) in
    rw (strides, run, lay_out) (rw (strides', offset))

module _ {pagesize nb size align' addr : ℕ} (args : IsArgs pagesize nb size align' addr)
    (m : Mem) where
  sizes :
      IsSized pagesize nb size align'
        (create_holesize size align')
        (create_align align')
        (create_allocsize pagesize nb size align')
        (create_nrel pagesize nb size align')
  sizes = sized args

  small : nb * (8 + size + create_holesize size align') ≤ 2 ^ 62
  small = wanted_small args

  -- The stride from chunk to chunk, the address of the first one, and the number of chunks.
  abbrev stride : ℕ
  stride = create_holesize size align' + size

  abbrev first : ℕ
  first = place args sizes small

  abbrev count : ℕ
  count = create_nrel pagesize nb size align'

  -- The pool that is returned, over the filled bytes.
  abbrev fresh : Mem → Pool
  fresh m' = record {
    base = addr;
    desc = record {
      next = 0;
      szel = size;
      nrel = count;
      nralloc = 0;
      firstfree = 0;
      szck = stride;
      holesize = create_holesize size align';
      allocsize = create_allocsize pagesize nb size align';
      offfirstelem = first - addr;
    };
    mem = m';
  }

  first-IsCeiling : IsCeiling (start args sizes small) (create_align align') first
  first-IsCeiling = place-IsCeiling args sizes small

  align-Multiple : align' ≢ 0 → Multiple align' (create_align align')
  align-Multiple ne = elim args.alignment [
    | inl e ↦ absurd (ne e)
    | inr p ↦
        power-multiple align' (create_align align') p (align_power args sizes small)
          (omega (arith, sizes.align_eq))
  ]

  chunk-Multiple : (i : ℕ) → align' ≢ 0 → Multiple align' (first + i * stride)
  chunk-Multiple i ne =
      Multiple-add align' first (i * stride)
        (Multiple_trans align' (create_align align') first (align-Multiple ne)
          (first-IsCeiling.quotient, first-IsCeiling.multiple))
        (Multiple-mul align' i stride (sizes.stride ne))

  -- The first header stands behind the index array, and no address wraps.
  room : addr + 72 + 8 * count + 8 ≤ first
  room = omega (arith, first-IsCeiling.above, sizes.align_eq)

  no_wrap : first + count * stride < 2 ^ 63 + 2 ^ 48
  no_wrap = omega (arith, place_inside args sizes small, args.user, alloc_small args sizes small)

  filled :
      (m' : Mem) × (init_loop align' stride count 0 (addr + 72 + 8 * 0) (first + 0 * stride) m
        ≡ some m')
      × IsFilled first (addr + 72) stride count 0 m m'
  filled =
      init_loop-IsFilled align' first (addr + 72) stride count room (omega (arith, sizes.hole_ge))
        (omega (arith, no_wrap))
        (λ i lt. Multiple-passes align' (first + i * stride) (chunk-Multiple i)) count 0 m
        (omega arith)

  create_at-fresh : create_at pagesize nb size align' addr m ≡ created (fresh filled.0)
  unfolding create_at
  create_at-fresh =
      lay_out-created size align' addr (create_align align') (create_holesize size align')
        (create_allocsize pagesize nb size align') count m filled.0
        (omega (arith, sizes.hole_le, args.size_small, args.in_page, args.page_small))
        (omega (arith, room)) (omega (arith, no_wrap))
        (subst (λ w. init_loop align' stride count 0 w first m ≡ some filled.0) (omega arith)
          (subst (λ q. init_loop align' stride count 0 (addr + 72 + 8 * 0) q m ≡ some filled.0)
            (omega arith) filled.1))

  -- The first chunk's address, from the descriptor.
  first-offset : addr + (first - addr) ≡ first
  first-offset = omega (arith, room)

  fresh-IsLaidOut : (m' : Mem) → IsLaidOut (fresh m')
  fresh-IsLaidOut m' = record {
    mapped = args.mapped;
    below_errors = omega (arith, args.user, alloc_small args sizes small);
    index_first = omega (arith, room);
    stride = refl;
    hole = sizes.hole_ge;
    inside = ends;
    headers_inside = omega (arith, place_inside args sizes small);
  }
    where
      ends :
          first - addr + count * stride
          ≤ create_allocsize pagesize nb size align' + create_holesize size align'
      ends = omega (arith, place_inside args sizes small, sizes.hole_ge, room)

  count_enough : nb ≤ count + 1
  count_enough =
      let unit = 8 + size + create_holesize size align' in
      let more : nb * unit < (count + 2) * unit = omega (arith, sizes.alloc_ge, sizes.nrel_gt) in
      omega (arith, lt_of_mul-lt-mul_right unit more)

  fresh-IsFresh :
      (m' : Mem)
      → IsFilled first (addr + 72) stride count 0 m m'
      → IsFresh nb size align' (fresh m')
  fresh-IsFresh m' f = record {
    pool = record {
      layout = fresh-IsLaidOut m';
      total = omega (arith, length-indices 0 count);
      distinct = Distinct-indices 0 count;
      in_range = Below-indices 0 count count (omega arith);
      chain =
          Chain-indices (λ j. load 8 m' (addr + 72 + 8 * j)) 0 count count (omega arith)
            (λ j lt. f.index j (omega arith) lt);
      headers = λ i lt. rw first-offset (f.header i (omega arith) lt);
    };
    payload = refl;
    count = count_enough;
    aligned = λ i ne. rw first-offset (chunk-Multiple i ne);
  }

  -- With sensible arguments and a mapping, `heap_pool_create` returns a pool whose chunks are all
  -- free, laid out apart and inside the mapping, aligned as asked; it has `nb` chunks, or one less.
  pub create-IsFresh :
      (p : Pool) × (create pagesize nb size align' addr m ≡ created p) × IsFresh nb size align' p
  unfolding create
  create-IsFresh =
      (fresh filled.0, rw (accepted, mapped) create_at-fresh, fresh-IsFresh filled.0 filled.2)
    where
      accepted : (not (align' == 0) && not (is_power_of_two align')) ≡ false
      accepted = elim args.alignment [
        | inl e ↦ rw e
        | inr p ↦
            let small' : align' < word_mod = omega (arith, args.in_page, args.page_small) in
            let good : is_power_of_two align' ≡ true =
              (is_power_of_two_iff align' (power_bounds align' p).0 small').1 p in
            ground (arith)
      ]

      mapped : (addr == map_failed) ≡ false
      mapped = ground (arith, args.user)

create_at-ne-failed :
    (pagesize nb size align' addr : ℕ) (m : Mem) (w : ℕ)
    → create_at pagesize nb size align' addr m ≢ failed w
unfolding create_at lay_out
create_at-ne-failed pagesize nb size align' addr m w = ground arith

-- An alignment that is no power of two is refused with -EINVAL, and no other is.
pub create-refuses :
    (pagesize nb size align' addr : ℕ) (m : Mem)
    → align' < word_mod
    → (create pagesize nb size align' addr m ≡ failed (err_ptr einval))
      ↔ (align' ≢ 0 × ¬ IsPowerOfTwo align')
unfolding create
create-refuses pagesize nb size align' addr m small = elim (ℕ_discrete align' 0) [
  | yes e ↦ (
    λ h. ground (arith, create_at-ne-failed pagesize nb size align' addr m (err_ptr einval)),
    λ h. absurd (h.0 e),
  )
  | no ne ↦
      let test = is_power_of_two_iff align' (omega arith) small in
      (
        λ h. (
          ne,
          λ p.
              let good : is_power_of_two align' ≡ true = test.1 p in
              ground (arith, create_at-ne-failed pagesize nb size align' addr m (err_ptr einval)),
        ),
        λ h. elim (Bool-cases (is_power_of_two align')) [
          | inl good ↦ absurd (h.1 (test.0 good))
          | inr bad ↦ ground arith
        ],
      )
]
