-- ===== src/HeapPool/Create/Place.antt =====
-- heap_pool.c: where `heap_pool_create` puts the first chunk.
use native.Mathlib.Nat.{mul-le-mul_right, lt_of_mul-lt-mul_right}
use native.Mathlib.Decide.{dec_lt}
use divers.Base.{ℕ, ◌+◌, ◌*◌, ◌%◌, ◌^◌, ◌≤◌, ◌<◌, ◌≡◌, refl, inl, inr, ap, sym, subst, arith}
use divers.HeapPool.{word_mod, add64, align_up}
use divers.HeapPool.Align.{
  IsPowerOfTwo, IsCeiling, power-multiple, align_up-IsCeiling, IsCeiling-multiple,
}
use divers.HeapPool.Create.Sizes.{Multiple, IsArgs, IsSized}

pub Multiple-le : (a x y : ℕ) → Multiple a x → Multiple a y → x < y + a → x ≤ y
Multiple-le a x y (i, e) (j, f) lt =
    let below : i * a < (j + 1) * a = omega arith in
    let le : i ≤ j = omega (arith, lt_of_mul-lt-mul_right a below) in
    omega (arith, mul-le-mul_right a le)

pub Multiple-add : (a x y : ℕ) → Multiple a x → Multiple a y → Multiple a (x + y)
Multiple-add a x y (i, e) (j, f) = (i + j, omega arith)

pub Multiple-mul : (a k x : ℕ) → Multiple a x → Multiple a (k * x)
Multiple-mul a k x (i, e) = (k * i, omega (arith, ap (λ t. k * t) e))

pub Multiple_trans : (a b x : ℕ) → Multiple a b → Multiple b x → Multiple a x
Multiple_trans a b x (i, e) (j, f) = (j * i, omega (arith, ap (λ t. j * t) e))

module _ {pagesize nb size align' addr hole align alloc n : ℕ}
    (args : IsArgs pagesize nb size align' addr)
    (sized : IsSized pagesize nb size align' hole align alloc n)
    (small : nb * (8 + size + hole) ≤ 2 ^ 62) where
  abbrev pub start : ℕ
  start = addr + 72 + 8 * n + align

  abbrev pub place : ℕ
  place = align_up (add64 (addr + 72 + 8 * n) align) align

  eight : IsPowerOfTwo 8
  eight = (3, omega arith, refl)

  pub align_power : IsPowerOfTwo align
  align_power = elim (dec_lt 8 align') [
    | no ge ↦ subst IsPowerOfTwo (omega (arith, sized.align_eq)) eight
    | yes lt ↦ elim args.alignment [
      | inl e ↦ absurd (omega arith)
      | inr p ↦ subst IsPowerOfTwo (omega (arith, sized.align_eq)) p
    ]
  ]

  pub alloc_small : alloc ≤ 2 ^ 63
  alloc_small = omega (arith, sized.alloc_lt, sized.align_eq, args.in_page, args.page_small, small)

  pub array_inside : start + n * (hole + size) ≤ addr + alloc
  array_inside = omega (arith, sized.nrel_le)

  pub align-multiple : (x : ℕ) → Multiple pagesize x → Multiple align x
  align-multiple x m =
      Multiple_trans align pagesize x
        (power-multiple align pagesize align_power args.page
          (omega (arith, sized.align_eq, args.in_page, args.page_word)))
        m

  pub place-IsCeiling : IsCeiling start align place
  unfolding add64
  place-IsCeiling =
      let fits = array_inside in
      let sum : (addr + 72 + 8 * n + align) % word_mod ≡ start =
        omega (arith, args.user, alloc_small) in
      rw sum (
        align_up-IsCeiling start align align_power
          (omega (arith, args.user, alloc_small, sized.align_eq, args.in_page, args.page_small)))

  -- A small alignment needs no rounding.
  place_unrounded : align ≡ 8 → place ≡ start
  place_unrounded e =
      let (q, f) = align-multiple addr args.on_page in
      IsCeiling-multiple start align (q + 9 + n + 1) place place-IsCeiling
        (omega (arith, ap (λ t. q * t) e, ap (λ t. (q + 9 + n + 1) * t) e))

  -- The chunks end inside the mapping.
  pub place_inside : place + n * (hole + size) ≤ addr + alloc
  place_inside = elim (dec_lt 8 align') [
    | no ge ↦ omega (arith, place_unrounded (omega (arith, sized.align_eq)), array_inside)
    | yes lt ↦
        let same : align ≡ align' = omega (arith, sized.align_eq) in
        let stride =
          subst (λ a. Multiple a (hole + size)) (sym same) (sized.stride (omega arith)) in
        let c = place-IsCeiling in
        Multiple-le align (place + n * (hole + size)) (addr + alloc)
          (Multiple-add align place (n * (hole + size)) (c.quotient, c.multiple)
            (Multiple-mul align n (hole + size) stride))
          (Multiple-add align addr alloc (align-multiple addr args.on_page)
            (align-multiple alloc sized.alloc_pages))
          (omega (arith, c.least, array_inside))
  ]
