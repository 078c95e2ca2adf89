-- ===== src/Links/Segs.antt =====
-- tad: lists as chains of `next` pointers, and what writing one pointer does to them.
use divers.Base.{
  ℕ, zero, suc, ◌<◌, ◌≡◌, refl, ◌≢◌, sym, ap, subst, ◌∙◌, Bool, true, false, ◌||◌, Option, some,
  List, [], ◌∷◌, ◌++◌, arith, ◌==◌, inl, inr, Bool-cases, ==-refl, ne→==, length, has, Distinct,
}
use divers.Links.{Ptr, ok, walk_while, take_while, drop_while, first_or, last_or, upd}

-- The pointers lead through the elements, none of them NULL, to `q`.
abbrev pub Seg : (Ptr → Option Ptr) → List Ptr → Ptr → Type 0
Seg nxt [] q = Unit
Seg nxt (x ∷ xs) q = (x ≢ 0) × (nxt x ≡ some (first_or q xs)) × Seg nxt xs q

pub Seg-ext :
    (nxt nxt' : Ptr → Option Ptr) (xs : List Ptr) (q : Ptr)
    → ((p : Ptr) → has p xs ≡ true → nxt' p ≡ nxt p)
    → Seg nxt xs q
    → Seg nxt' xs q
Seg-ext nxt nxt' [] q same s = tt
Seg-ext nxt nxt' (x ∷ xs) q same (ne, e, s) = (
  ne,
  same x (ground (arith, ==-refl x)) ∙ e,
  Seg-ext nxt nxt' xs q (λ p m. same p (ground arith)) s,
)

-- An element that the chain does not hold may be written.
pub Seg-upd :
    (nxt : Ptr → Option Ptr) (xs : List Ptr) (q p r : Ptr)
    → has p xs ≡ false
    → Seg nxt xs q
    → Seg (upd nxt p r) xs q
Seg-upd nxt xs q p r out s = Seg-ext nxt (upd nxt p r) xs q (λ x m. spared x m) s
  where
    spared : (x : Ptr) → has x xs ≡ true → upd nxt p r x ≡ nxt x
    spared x m = elim (Bool-cases (x == p)) [
      | inl e ↦ let same : x ≡ p = ground arith in let bad : has x xs ≡ false = rw same out in cc
      | inr ne ↦ rw ne
    ]

first_or-append : (q : Ptr) (xs ys : List Ptr) → first_or q (xs ++ ys) ≡ first_or (first_or q ys) xs
first_or-append q [] ys = refl
first_or-append q (x ∷ xs) ys = refl

-- A chain in two parts.
pub Seg-append :
    (nxt : Ptr → Option Ptr) (xs ys : List Ptr) (q : Ptr)
    → Seg nxt xs (first_or q ys)
    → Seg nxt ys q
    → Seg nxt (xs ++ ys) q
Seg-append nxt [] ys q s t = t
Seg-append nxt (x ∷ xs) ys q (ne, e, s) t =
    (ne, e ∙ ap some (sym (first_or-append q xs ys)), Seg-append nxt xs ys q s t)

pub Seg-split :
    (nxt : Ptr → Option Ptr) (xs ys : List Ptr) (q : Ptr)
    → Seg nxt (xs ++ ys) q
    → Seg nxt xs (first_or q ys) × Seg nxt ys q
Seg-split nxt [] ys q s = (tt, s)
Seg-split nxt (x ∷ xs) ys q (ne, e, s) =
    let (a, b) = Seg-split nxt xs ys q s in ((ne, e ∙ ap some (first_or-append q xs ys), a), b)

pub has-last_or : (x : Ptr) (xs : List Ptr) → has (last_or x xs) (x ∷ xs) ≡ true
has-last_or x [] = ground (arith, ==-refl x)
has-last_or x (y ∷ ys) = ground (arith, has-last_or y ys)

-- Setting the last pointer of a chain turns its end.
pub Seg-retarget :
    (nxt : Ptr → Option Ptr) (x : Ptr) (xs : List Ptr) (q r : Ptr)
    → Distinct (x ∷ xs)
    → Seg nxt (x ∷ xs) q
    → Seg (upd nxt (last_or x xs) r) (x ∷ xs) r
Seg-retarget nxt x [] q r d (ne, e, s) = (ne, rw (==-refl x), tt)
Seg-retarget nxt x (y ∷ ys) q r (new, d) (ne, e, s) =
    let apart : (x == last_or y ys) ≡ false = ne→== x (last_or y ys) (λ z. clash z) in
    (ne, rw apart e, Seg-retarget nxt y ys q r d s)
  where
    clash : x ≡ last_or y ys → ⊥
    clash z =
        let bad : has x (y ∷ ys) ≡ true =
          subst (λ t. has t (y ∷ ys) ≡ true) (sym z) (has-last_or y ys) in
        cc

-- The two parts of a list at the first element that fails the test.
pub take-append-drop_while :
    (test : Ptr → Bool) (xs : List Ptr) → take_while test xs ++ drop_while test xs ≡ xs
take-append-drop_while test [] = refl
take-append-drop_while test (x ∷ xs) = elim (Bool-cases (test x)) [
  | inl e ↦ rw e (ap (λ l. x ∷ l) (take-append-drop_while test xs))
  | inr e ↦ rw e
]

-- The walk ends, at the first element that fails the test, with the element before it.
pub walk_while_lem :
    (nxt : Ptr → Option Ptr) (test : Ptr → Bool) (fuel : ℕ) (xs : List Ptr) (pwalk : Ptr)
    → length xs < fuel
    → Seg nxt xs 0
    → walk_while nxt test fuel (first_or 0 xs) pwalk
      ≡ ok (first_or 0 (drop_while test xs), last_or pwalk (take_while test xs))
unfolding walk_while
walk_while_lem nxt test zero xs pwalk enough s = absurd (omega arith)
walk_while_lem nxt test (suc fuel) [] pwalk enough s = refl
walk_while_lem nxt test (suc fuel) (x ∷ xs) pwalk enough (ne, e, s) = elim (Bool-cases (test x)) [
  | inl pass ↦ rw (ne→== x 0 ne, pass, e) (walk_while_lem nxt test fuel xs x (omega arith) s)
  | inr stop ↦ rw (ne→== x 0 ne, stop)
]

pub has-append : (a : Ptr) (xs ys : List Ptr) → has a (xs ++ ys) ≡ (has a xs || has a ys)
has-append a [] ys = refl
has-append a (x ∷ xs) ys = ground (arith, has-append a xs ys)

pub Distinct-split :
    (xs ys : List Ptr)
    → Distinct (xs ++ ys)
    → Distinct xs × Distinct ys × ((a : Ptr) → has a xs ≡ true → has a ys ≡ false)
Distinct-split [] ys d = (tt, d, λ a m. cc)
Distinct-split (x ∷ xs) ys (new, d) =
    let (a, b, apart) = Distinct-split xs ys d in
    ((ground (arith, has-append x xs ys), a), b, λ p m. away p m (apart p))
  where
    away :
        (p : Ptr) → has p (x ∷ xs) ≡ true → (has p xs ≡ true → has p ys ≡ false) → has p ys ≡ false
    away p m h = elim (Bool-cases (p == x)) [
      | inl e ↦ let same : p ≡ x = ground arith in rw same (ground (arith, has-append x xs ys))
      | inr ne ↦ h (ground arith)
    ]

pub Distinct-join :
    (xs ys : List Ptr)
    → Distinct xs
    → Distinct ys
    → ((a : Ptr) → has a xs ≡ true → has a ys ≡ false)
    → Distinct (xs ++ ys)
Distinct-join [] ys d e apart = e
Distinct-join (x ∷ xs) ys (new, d) e apart =
    let out : has x ys ≡ false = apart x (ground (arith, ==-refl x)) in
    (ground (arith, has-append x xs ys), Distinct-join xs ys d e (λ a m. apart a (ground arith)))

pub not-mem-append :
    (a : Ptr) (xs ys : List Ptr)
    → has a (xs ++ ys) ≡ false
    → (has a xs ≡ false) × (has a ys ≡ false)
not-mem-append a [] ys out = (refl, out)
not-mem-append a (x ∷ xs) ys out =
    let (p, q) = not-mem-append a xs ys (ground arith) in (ground arith, q)

pub not-mem-tail : (a y : Ptr) (ys : List Ptr) → has a (y ∷ ys) ≡ false → has a ys ≡ false
not-mem-tail a y ys out = ground arith

-- The last element of a chain is no NULL and points to the end.
pub Seg-last :
    (nxt : Ptr → Option Ptr) (x : Ptr) (xs : List Ptr) (q : Ptr)
    → Seg nxt (x ∷ xs) q
    → (last_or x xs ≢ 0) × (nxt (last_or x xs) ≡ some q)
Seg-last nxt x [] q (ne, e, s) = (ne, e)
Seg-last nxt x (y ∷ ys) q (ne, e, s) = Seg-last nxt y ys q s
