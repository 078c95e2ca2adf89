-- ===== src/Base/Pigeonhole.antt =====
-- The pigeonhole principle on lists of numbers.
use native.Mathlib.Decide.{ℕ_discrete}
use divers.Base.{
  ℕ, zero, suc, ◌≤◌, ◌<◌, ◌≡◌, refl, inl, inr, true, false, List, [], ◌∷◌, arith, ◌==◌,
  if◌then◌else◌, Bool-cases, ==-refl, ne→==, length, has, Distinct, All,
}

without : ℕ → List ℕ → List ℕ
without a [] = []
without a (x ∷ xs) = if a == x then xs else x ∷ without a xs

has-without : (a b : ℕ) (xs : List ℕ) → has b xs ≡ false → has b (without a xs) ≡ false
unfolding without
has-without a b [] h = refl
has-without a b (x ∷ xs) h = ground (arith, has-without a b xs)

length-without : (a : ℕ) (xs : List ℕ) → has a xs ≡ true → length xs ≡ suc (length (without a xs))
unfolding without
length-without a [] h = cc
length-without a (x ∷ xs) h = ground (arith, length-without a xs)

Distinct-without : (a : ℕ) (xs : List ℕ) → Distinct xs → Distinct (without a xs)
unfolding without
Distinct-without a [] h = tt
Distinct-without a (x ∷ xs) (new, rest) =
    ground (arith, Distinct-without a xs rest, has-without a x xs new)

All-lower : (n : ℕ) (xs : List ℕ) → has n xs ≡ false → All (λ x. x < suc n) xs → All (λ x. x < n) xs
All-lower n [] out h = tt
All-lower n (x ∷ xs) out (lt, h) = (ground arith, All-lower n xs (ground arith) h)

All-without :
    (n : ℕ) (xs : List ℕ) → Distinct xs → All (λ x. x < suc n) xs → All (λ x. x < n) (without n xs)
unfolding without
All-without n [] d h = tt
All-without n (x ∷ xs) (new, d) (lt, h) = elim (ℕ_discrete n x) [
  | yes e ↦ rw (e, ==-refl) (All-lower x xs new (rw e at h))
  | no ne ↦ rw (ne→== n x ne) (omega arith, All-without n xs d h)
]

-- Of the numbers below `n`, a list without repetitions holds `n` at most.
pub length-le_of_Distinct :
    (n : ℕ) (xs : List ℕ) → Distinct xs → All (λ x. x < n) xs → length xs ≤ n
length-le_of_Distinct zero [] d h = omega arith
length-le_of_Distinct zero (x ∷ xs) d h = omega arith
length-le_of_Distinct (suc n) xs d h = elim (Bool-cases (has n xs)) [
  | inl present ↦ omega (
    arith,
    length-without n xs present,
    length-le_of_Distinct n (without n xs) (Distinct-without n xs d) (All-without n xs d h),
  )
  | inr out ↦ omega (arith, length-le_of_Distinct n xs d (All-lower n xs out h))
]
