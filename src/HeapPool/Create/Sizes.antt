-- ===== src/HeapPool/Create/Sizes.antt =====
-- heap_pool.c: the sizes that `heap_pool_create` computes, when nothing wraps.
use native.Mathlib.Nat.{mul-le-mul, mul-le-mul_right, div-mul-le_self, lt-div-mul-add}
use native.Mathlib.Decide.{dec_lt}
use divers.Base.{
  ℕ, ◌+◌, ◌-◌, ◌*◌, ◌/◌, ◌%◌, ◌^◌, ◌≤◌, ◌<◌, ◌≡◌, ◌≢◌, ◌⊎◌, inl, inr, ap, max, arith, lt→ltb, ne→==,
}
use divers.HeapPool.{
  word_mod, sizeof_desc, add64, sub64, mul64, align_up, create_align, create_holesize,
  create_allocsize, create_nrel,
}
use divers.HeapPool.Align.{
  IsPowerOfTwo, IsCeiling, power_bounds, align_up-IsCeiling, compute_new_alignment-max,
}

abbrev pub Multiple : ℕ → ℕ → Type 0
Multiple a x = (q : ℕ) × (x ≡ q * a)

-- The arguments of `heap_pool_create`, with what the system gives: a page size, and an address that
-- `mmap` returned. A page has at most 2^30 bytes, and a process's addresses are below 2^47.
pub record IsArgs (pagesize nb size align' addr : ℕ) : Type 0 where
  pub page : IsPowerOfTwo pagesize
  pub page_small : pagesize ≤ 2 ^ 30
  pub page_word : 8 ≤ pagesize
  pub nb_pos : 0 < nb
  pub nb_small : nb ≤ 2 ^ 30
  pub size_small : size ≤ 2 ^ 30
  pub alignment : (align' ≡ 0) ⊎ IsPowerOfTwo align'
  pub in_page : align' ≤ pagesize
  pub mapped : 0 < addr
  pub user : addr < 2 ^ 47
  pub on_page : Multiple pagesize addr

-- The sizes, `u` bytes for each element: an index, a hole and a chunk.
pub record IsSized (pagesize nb size align' hole align alloc n : ℕ) : Type 0 where
  pub align_eq : align ≡ max align' 8
  pub hole_ge : 8 ≤ hole
  pub hole_le : hole ≤ 8 + align'
  pub stride : align' ≢ 0 → Multiple align' (hole + size)
  pub alloc_pages : Multiple pagesize alloc
  pub alloc_ge : 72 + align + nb * (8 + size + hole) ≤ alloc + hole
  pub alloc_lt : alloc + hole < 72 + align + nb * (8 + size + hole) + pagesize
  pub nrel_le : n * (8 + size + hole) + align + 72 ≤ alloc
  pub nrel_gt : alloc < n * (8 + size + hole) + (8 + size + hole) + align + 72

module _ {pagesize nb size align' addr : ℕ} (args : IsArgs pagesize nb size align' addr) where
  align-max : create_align align' ≡ max align' 8
  unfolding create_align
  align-max = elim args.alignment [
    | inl e ↦ rw e
    | inr p ↦
        let (pos, _) = power_bounds align' p in
        rw (ne→== align' 0 (omega arith)) (compute_new_alignment-max align' p)
  ]

  -- With an alignment the hole makes the stride a multiple of it; without, it holds the index.
  hole_rounded :
      1 < align'
      → IsPowerOfTwo align'
      → create_holesize size align' ≡ align_up (size + 8) align' - size
  unfolding create_holesize add64 sub64
  hole_rounded lt p =
      let next : (size + 8) % word_mod ≡ size + 8 = omega (arith, args.size_small) in
      let c =
        align_up-IsCeiling (size + 8) align' p
          (omega (arith, args.size_small, args.in_page, args.page_small)) in
      rw (lt→ltb 1 align' lt, next)
        (omega (arith, c.above, c.least, args.size_small, args.in_page, args.page_small))

  hole_plain : ¬ (1 < align') → create_holesize size align' ≡ 8
  unfolding create_holesize
  hole_plain ge = ground arith

  hole_facts :
      (8 ≤ create_holesize size align')
      × (create_holesize size align' ≤ 8 + align')
      × (align' ≢ 0 → Multiple align' (create_holesize size align' + size))
  hole_facts = elim (dec_lt 1 align') [
    | no ge ↦ (
      omega (arith, hole_plain ge),
      omega (arith, hole_plain ge),
      λ ne. (
        create_holesize size align' + size,
        omega (arith, ap (λ t. (create_holesize size align' + size) * t) (one ge ne)),
      ),
    )
    | yes lt ↦
        let p = power lt in
        let c =
          align_up-IsCeiling (size + 8) align' p
            (omega (arith, args.size_small, args.in_page, args.page_small)) in
        let e = hole_rounded lt p in
        (
          omega (arith, c.above),
          omega (arith, c.least),
          λ ne. (c.quotient, omega (arith, c.multiple, c.above)),
        )
  ]
    where
      one : ¬ (1 < align') → align' ≢ 0 → align' ≡ 1
      one ge ne = omega arith

      power : 1 < align' → IsPowerOfTwo align'
      power lt = elim args.alignment [ inl e ↦ absurd (omega arith) | inr p ↦ p ]

  -- The bytes asked for, without the one hole that is left out.
  abbrev wanted : ℕ
  wanted =
      72
      + create_align align'
      - create_holesize size align'
      + nb * (8 + size + create_holesize size align')

  pub wanted_small : nb * (8 + size + create_holesize size align') ≤ 2 ^ 30 * 2 ^ 32
  wanted_small =
      mul-le-mul {m₂ = 2 ^ 32} args.nb_small
        (omega (arith, hole_facts.1, args.size_small, args.in_page, args.page_small))

  alloc_rounded : create_allocsize pagesize nb size align' ≡ align_up wanted pagesize
  unfolding create_allocsize add64 sub64 mul64
  alloc_rounded =
      let hole = create_holesize size align' in
      let align = create_align align' in
      let unit = 8 + size + hole in
      let small = wanted_small in
      let one_unit : ((8 + size) % word_mod + hole) % word_mod ≡ unit =
        omega (arith, hole_facts.1, args.size_small, args.in_page, args.page_small) in
      let product : nb * unit % word_mod ≡ nb * unit = omega arith in
      let front : sub64 (add64 sizeof_desc align) hole ≡ 72 + align - hole =
        omega (arith, hole_facts.1, align-max, args.in_page, args.page_small) in
      let sum : (72 + align - hole + nb * unit) % word_mod ≡ 72 + align - hole + nb * unit =
        omega (arith, hole_facts.1, align-max, args.in_page, args.page_small) in
      rw (one_unit, product, front, sum)

  alloc-IsCeiling : IsCeiling wanted pagesize (create_allocsize pagesize nb size align')
  alloc-IsCeiling =
      let small = wanted_small in
      rw alloc_rounded (
        align_up-IsCeiling wanted pagesize args.page
          (omega (arith, hole_facts.1, align-max, args.in_page, args.page_small)))

  one_fits : 8 + size + create_holesize size align' ≤ nb * (8 + size + create_holesize size align')
  one_fits = omega (arith, mul-le-mul_right (8 + size + create_holesize size align') args.nb_pos)

  nrel-div :
      create_nrel pagesize nb size align'
      ≡ (create_allocsize pagesize nb size align' - create_align align' - 72)
        / (8 + size + create_holesize size align')
  unfolding create_nrel add64 sub64
  nrel-div =
      let hole = create_holesize size align' in
      let align = create_align align' in
      let alloc = create_allocsize pagesize nb size align' in
      let c = alloc-IsCeiling in
      let small = wanted_small in
      let unit : ((8 + hole) % word_mod + size) % word_mod ≡ 8 + size + hole =
        omega (arith, hole_facts.1, args.size_small, args.in_page, args.page_small) in
      let first : (alloc + word_mod - align) % word_mod ≡ alloc - align = omega (
        arith, c.above, c.least, one_fits, hole_facts.1, align-max, args.in_page, args.page_small,
      ) in
      let second : (alloc - align + word_mod - 72) % word_mod ≡ alloc - align - 72 = omega (
        arith, c.above, c.least, one_fits, hole_facts.1, align-max, args.in_page, args.page_small,
      ) in
      rw (unit, first, second)

  pub sized :
      IsSized pagesize nb size align'
        (create_holesize size align')
        (create_align align')
        (create_allocsize pagesize nb size align')
        (create_nrel pagesize nb size align')
  sized =
      let hole = create_holesize size align' in
      let align = create_align align' in
      let unit = 8 + size + hole in
      let alloc = create_allocsize pagesize nb size align' in
      let c = alloc-IsCeiling in
      let rest = alloc - align - 72 in
      record {
        align_eq = align-max;
        hole_ge = hole_facts.0;
        hole_le = hole_facts.1;
        stride = hole_facts.2;
        alloc_pages = (c.quotient, c.multiple);
        alloc_ge = omega (arith, c.above);
        alloc_lt = omega (arith, c.least, hole_facts.1, align-max);
        nrel_le =
            rw nrel-div (
              omega (arith, div-mul-le_self rest unit, c.above, one_fits, hole_facts.1, align-max));
        nrel_gt = rw nrel-div (omega (arith, lt-div-mul-add {a = rest} {b = unit} (omega arith)));
      }
