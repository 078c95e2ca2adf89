-- ===== src/MapParser/Digits.antt =====
-- got_modifier/map_parser.c: `%hu` of the file names, a number in decimal.
use divers.Base.{
  ℕ, zero, suc, ◌≢◌, ◌⊎◌, sym, All, ◌==◌, ==_iff, ltb→ge, ◌+◌, ◌-◌, ◌*◌, ◌/◌, ◌%◌, ◌^◌, ◌≤◌, ◌<◌,
  ◌≡◌, refl, ap, ◌∙◌, inl, inr, true, List, [], ◌∷◌, ◌++◌, length, length-append, ltb, leb, ltb→lt,
  Bool-cases, ◌&&◌, if◌then◌else◌, arith,
}
use native.Mathlib.Nat.{pow-succ'}
use mathlib.Core.List.{append_assoc, append-nil}

-- A number in decimal, of at most `fuel` digits.
unfoldable pub decimal : (fuel : ℕ) → ℕ → List ℕ
decimal zero v = []
decimal (suc fuel) v =
    let rest = decimal fuel (v / 10) in
    if ltb v 10 then (48 + v) ∷ [] else rest ++ ((48 + v % 10) ∷ [])

pub length-decimal : (fuel v : ℕ) → length (decimal fuel v) ≤ fuel
unfolding decimal
length-decimal zero v = omega arith
length-decimal (suc zero) v = elim (Bool-cases (ltb v 10)) [
  | inl t ↦ rw t (omega arith)
  | inr f ↦ rw f (omega arith)
]
length-decimal (suc (suc fuel)) v = elim (Bool-cases (ltb v 10)) [
  | inl t ↦ rw (t, decimal) (omega arith)
  | inr f ↦
      rw (f, decimal)
        (omega (
          arith,
          length-decimal (suc fuel) (v / 10),
          length-append (decimal (suc fuel) (v / 10)) ((48 + v % 10) ∷ []),
        ))
]

-- What a reader of the name takes for the number: the digits up to the first other character.
abbrev pub read_number : (seen : ℕ) → List ℕ → ℕ
read_number seen [] = seen
read_number seen (c ∷ cs) =
    let rest = read_number (seen * 10 + (c - 48)) cs in if leb 48 c && leb c 57 then rest else seen

-- One digit more.
read_digit :
    (seen d : ℕ) (rest : List ℕ)
    → d < 10
    → read_number seen ((48 + d) ∷ rest) ≡ read_number (seen * 10 + d) rest
read_digit seen d rest lt =
    let low : leb 48 (48 + d) ≡ true = ground arith in
    let high : leb (48 + d) 57 ≡ true = ground arith in
    let value : 48 + d - 48 ≡ d = omega arith in
    rw (low, high) (ap (λ k. read_number (seen * 10 + k) rest) value)

read_number-decimal :
    (fuel v : ℕ) (rest : List ℕ)
    → v < 10 ^ fuel
    → read_number 0 (decimal fuel v ++ rest) ≡ read_number v rest
unfolding decimal
read_number-decimal zero v rest lt = let none_left : v ≡ 0 = omega (arith, lt) in rw none_left refl
read_number-decimal (suc fuel) v rest lt = elim (Bool-cases (ltb v 10)) [
  | inl t ↦ rw t (read_digit 0 v rest (ltb→lt v 10 t) ∙ ap (λ k. read_number k rest) (omega arith))
  | inr f ↦
      let front = decimal fuel (v / 10) in
      let less : v / 10 < 10 ^ fuel = omega (arith, lt, pow-succ' 10 fuel) in
      let parts : v / 10 * 10 + v % 10 ≡ v = omega arith in
      rw f (
        ap (read_number 0) (append_assoc front ((48 + v % 10) ∷ []) rest)
        ∙ read_number-decimal fuel (v / 10) ((48 + v % 10) ∷ rest) less
        ∙ read_digit (v / 10) (v % 10) rest (omega arith)
        ∙ ap (λ k. read_number k rest) parts)
]

All-append : (P : ℕ → Type 0) (xs ys : List ℕ) → All P xs → All P ys → All P (xs ++ ys)
All-append P [] ys a b = b
All-append P (x ∷ xs) ys (p, a) b = (p, All-append P xs ys a b)

decimal-digits : (fuel v : ℕ) → All (λ c. (48 ≤ c) × (c ≤ 57)) (decimal fuel v)
unfolding decimal
decimal-digits zero v = tt
decimal-digits (suc fuel) v = elim (Bool-cases (ltb v 10)) [
  | inl t ↦ rw t ((omega arith, omega (arith, ltb→lt v 10 t)), tt)
  | inr f ↦ rw f (
      All-append (λ c. (48 ≤ c) × (c ≤ 57)) (decimal fuel (v / 10)) ((48 + v % 10) ∷ [])
        (decimal-digits fuel (v / 10)) ((omega arith, omega arith), tt))
]

abbrev pub StartsHigh : List ℕ → Type 0
StartsHigh digits = (d : ℕ) × (ds : List ℕ) × (digits ≡ d ∷ ds) × (d ≢ 48)

decimal-StartsHigh : (fuel v : ℕ) → 1 ≤ v → v < 10 ^ fuel → StartsHigh (decimal fuel v)
unfolding decimal
decimal-StartsHigh zero v low lt = absurd (omega (arith, low, lt))
decimal-StartsHigh (suc fuel) v low lt = elim (Bool-cases (ltb v 10)) [
  | inl t ↦ rw t (48 + v, [], refl, λ e. absurd (omega (arith, e, low)))
  | inr f ↦
      let less : v / 10 < 10 ^ fuel = omega (arith, lt, pow-succ' 10 fuel) in
      let more : 1 ≤ v / 10 = omega (arith, ltb→ge v 10 f) in
      let (d, ds, e, high) = decimal-StartsHigh fuel (v / 10) more less in
      rw f (d, ds ++ ((48 + v % 10) ∷ []), ap (λ xs. xs ++ ((48 + v % 10) ∷ [])) e, high)
]

-- The digits of the number in decimal, without zeros in front.
abbrev pub IsNumber : (v : ℕ) → List ℕ → Type 0
IsNumber v digits =
    All (λ c. (48 ≤ c) × (c ≤ 57)) digits
    × ((digits ≡ 48 ∷ []) ⊎ StartsHigh digits)
    × (read_number 0 digits ≡ v)

pub decimal-IsNumber : (v : ℕ) → v < 2 ^ 16 → IsNumber v (decimal 5 v)
unfolding decimal
decimal-IsNumber v lt = (
  decimal-digits 5 v,
  elim (Bool-cases (v == 0)) [
    | inl e ↦ inl (ap (decimal 5) ((==_iff v 0).0 e))
    | inr ne ↦ inr (decimal-StartsHigh 5 v (grind (arith, ne)) (omega (arith, lt)))
  ],
  ap (read_number 0) (sym (append-nil (decimal 5 v)))
      ∙ read_number-decimal 5 v [] (omega (arith, lt)),
)
