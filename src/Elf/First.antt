-- ===== src/Elf/First.antt =====
-- What a search of a table promises: the first record that has a property.
use divers.Base.{
  ℕ, zero, suc, ◌+◌, ◌*◌, ◌<◌, ◌≡◌, refl, ◌⊎◌, inl, inr, ap, sym, subst, ◌∙◌, Bool, true, false,
  Bool-cases, Option, none, some, if◌then◌else◌, arith, ◌↔◌,
}
use mathlib.Core.Bool.{false≢true}
use divers.Elf.{scan, scan_in}

-- Record `r` is number `k` of the `n` records of `size` bytes from `p` on, and is the first of them
-- with the property; a search that finds nothing leaves none with the property.
abbrev pub IsFirst : (ℕ → Type 0) → (size n p : ℕ) → Option ℕ → Type 0
IsFirst P size n p none = (k : ℕ) → k < n → ¬ P (p + k * size)
IsFirst P size n p (some r) =
    (k : ℕ) × (k < n) × (r ≡ p + k * size) × P r × ((j : ℕ) → j < k → ¬ P (p + j * size))

step : (j p size : ℕ) → p + suc j * size ≡ p + size + j * size
step j p size = omega arith

step_none : (p size : ℕ) → p ≡ p + 0 * size
step_none p size = omega arith

module _ (P : ℕ → Type 0) (size : ℕ) where
  IsFirst-here : (n p : ℕ) → P p → IsFirst P size (suc n) p (some p)
  IsFirst-here n p h = (0, omega arith, omega arith, h, λ j lt q. omega arith)

  past :
      (n p : ℕ)
      → ¬ P p
      → (k : ℕ) → ((j : ℕ) → j < k → ¬ P (p + size + j * size))
      → (j : ℕ) → j < suc k
      → ¬ P (p + j * size)
  past n p none_here k h zero lt q = none_here (subst P (omega arith) q)
  past n p none_here k h (suc j) lt q = h j (omega arith) (subst P (step j p size) q)

  IsFirst-later :
      (n p : ℕ) (o : Option ℕ) → ¬ P p → IsFirst P size n (p + size) o → IsFirst P size (suc n) p o
  IsFirst-later n p none nh h = past n p nh n h
  IsFirst-later n p (some r) nh (k, lt, e, q, h) =
      (suc k, omega arith, e ∙ sym (step k p size), q, past n p nh k h)

-- A loop whose test decides the property finds the first record with it.
pub scan-IsFirst :
    (P : ℕ → Type 0) (size : ℕ) (test : ℕ → Bool)
    → ((x : ℕ) → (test x ≡ true) ↔ P x)
    → (n p : ℕ) → IsFirst P size n p (scan size test n p)
unfolding scan
scan-IsFirst P size test dec zero p = λ k lt h. omega arith
scan-IsFirst P size test dec (suc n) p = elim (Bool-cases (test p)) [
  | inl t ↦
      subst (IsFirst P size (suc n) p)
        (sym (ap (λ b. if b then some p else scan size test n (p + size)) t))
        (IsFirst-here P size n p ((dec p).0 t))
  | inr f ↦
      subst (IsFirst P size (suc n) p)
        (sym (ap (λ b. if b then some p else scan size test n (p + size)) f))
        (IsFirst-later P size n p _ (λ q. false≢true (sym f ∙ (dec p).1 q))
          (scan-IsFirst P size test dec n (p + size)))
]

-- The same for a search inside each record of an outer table: `L` says which records are searched and
-- `T` what the search of a record promises.
abbrev pub IsFirstIn : (ℕ → Type 0) → (ℕ → Option ℕ → Type 0) → (size n p : ℕ) → Option ℕ → Type 0
IsFirstIn L T size n p none = (k : ℕ) → k < n → L (p + k * size) → T (p + k * size) none
IsFirstIn L T size n p (some r) =
    (k : ℕ) × (k < n)
    × L (p + k * size)
    × T (p + k * size) (some r)
    × ((j : ℕ) → j < k → L (p + j * size) → T (p + j * size) none)

-- The search of one record: it looks into the records of `L` only.
abbrev pub Searches : (ℕ → Type 0) → (ℕ → Option ℕ → Type 0) → ℕ → Option ℕ → Type 0
Searches L T x o = (L x × T x o) ⊎ ((¬ L x) × (o ≡ none))

module _ (L : ℕ → Type 0) (T : ℕ → Option ℕ → Type 0) (size : ℕ) where
  past_in :
      (p : ℕ)
      → (L p → T p none)
      → (k : ℕ) → ((j : ℕ) → j < k → L (p + size + j * size) → T (p + size + j * size) none)
      → (j : ℕ) → j < suc k
      → L (p + j * size)
      → T (p + j * size) none
  past_in p none_here k h zero lt q =
      subst (λ x. T x none) (step_none p size) (none_here (subst L (sym (step_none p size)) q))
  past_in p none_here k h (suc j) lt q =
      subst (λ x. T x none) (sym (step j p size)) (h j (omega arith) (subst L (step j p size) q))

  IsFirstIn-here : (n p r : ℕ) → L p → T p (some r) → IsFirstIn L T size (suc n) p (some r)
  IsFirstIn-here n p r l t = (
    0,
    omega arith,
    subst L (step_none p size) l,
    subst (λ x. T x (some r)) (step_none p size) t,
    λ j lt q. absurd (omega arith),
  )

  IsFirstIn-later :
      (n p : ℕ) (o : Option ℕ)
      → (L p → T p none)
      → IsFirstIn L T size n (p + size) o
      → IsFirstIn L T size (suc n) p o
  IsFirstIn-later n p none nh h = past_in p nh n h
  IsFirstIn-later n p (some r) nh (k, lt, l, t, h) = (
    suc k,
    omega arith,
    subst L (sym (step k p size)) l,
    subst (λ x. T x (some r)) (sym (step k p size)) t,
    past_in p nh k h,
  )

-- A loop around such a search finds the first result.
pub scan_in-IsFirstIn :
    (L : ℕ → Type 0) (T : ℕ → Option ℕ → Type 0) (size : ℕ) (search : ℕ → Option ℕ)
    → ((x : ℕ) → Searches L T x (search x))
    → (n p : ℕ) → IsFirstIn L T size n p (scan_in size search n p)
unfolding scan_in
scan_in-IsFirstIn L T size search h zero p = λ k lt l. absurd (omega arith)
scan_in-IsFirstIn L T size search h (suc n) p =
    let rest = scan_in size search n (p + size) in
    let ih = scan_in-IsFirstIn L T size search h n (p + size) in go (search p) (h p) rest ih
  where
    go :
        (o : Option ℕ)
        → Searches L T p o
        → (rest : Option ℕ) → IsFirstIn L T size n (p + size) rest
        → IsFirstIn L T size (suc n) p (elim o [ none ↦ rest | some r ↦ some r ])
    go none (inl (l, t)) rest ih = IsFirstIn-later L T size n p rest (λ _. t) ih
    go none (inr (nl, e)) rest ih = IsFirstIn-later L T size n p rest (λ l. absurd (nl l)) ih
    go (some r) (inl (l, t)) rest ih = IsFirstIn-here L T size n p r l t
    go (some r) (inr (nl, e)) rest ih = absurd cc

-- A search behind a test that decides the property.
pub guarded :
    (L : Type 0) (b : Bool)
    → (b ≡ true) ↔ L
    → (T : ℕ → Option ℕ → Type 0) (x : ℕ) (o : Option ℕ) → T x o
    → (L × T x (if b then o else none)) ⊎ ((¬ L) × ((if b then o else none) ≡ none))
guarded L true d T x o t = inl (d.0 refl, t)
guarded L false d T x o t = inr (λ l. false≢true (d.1 l), refl)
