-- ===== src/Resources.antt =====
-- What a program holds of the system, for the code that opens and closes: descriptors, mappings,
-- streams, handles of dlopen, the kernel objects of a driver, and blocks of calloc. A release of
-- what is not held is a fault, `none`.
pub mod Counts
use divers.Base.{
  ℕ, ◌≡◌, refl, ap₂, Bool, true, false, ◌&&◌, Option, none, some, List, [], ◌∷◌, ◌==◌, ==-refl,
  if◌then◌else◌,
}

pub data Resource : Type 0 where
  descriptor : ℕ → Resource
  mapping : ℕ → ℕ → Resource
  stream : ℕ → Resource
  handle : ℕ → Resource
  region : ℕ → Resource
  class' : ℕ → Resource
  cdev : ℕ → Resource
  device : ℕ → Resource
  block : ℕ → Resource

abbrev pub same : Resource → Resource → Bool
same (descriptor a) (descriptor b) = a == b
same (mapping a n) (mapping b k) = (a == b) && (n == k)
same (stream a) (stream b) = a == b
same (handle a) (handle b) = a == b
same (region a) (region b) = a == b
same (class' a) (class' b) = a == b
same (cdev a) (cdev b) = a == b
same (device a) (device b) = a == b
same (block a) (block b) = a == b
same _ _ = false

-- What is held, the last first.
abbrev pub Held : Type 0
Held = List Resource

infixl 5 ◌>>=◌
abbrev pub ◌>>=◌ : {A B : Type 0} → Option A → (A → Option B) → Option B
none >>= f = none
some a >>= f = f a

unfoldable pub release : Resource → Held → Option Held
release r [] = none
release r (x ∷ xs) =
    let rest = release r xs in
    if same r x then some xs else elim rest [ none ↦ none | some ys ↦ some (x ∷ ys) ]

same_refl : (r : Resource) → same r r ≡ true
same_refl (descriptor a) = ==-refl a
same_refl (mapping a n) = ap₂ ◌&&◌ (==-refl a) (==-refl n)
same_refl (stream a) = ==-refl a
same_refl (handle a) = ==-refl a
same_refl (region a) = ==-refl a
same_refl (class' a) = ==-refl a
same_refl (cdev a) = ==-refl a
same_refl (device a) = ==-refl a
same_refl (block a) = ==-refl a

pub release-top : (r : Resource) (h : Held) → release r (r ∷ h) ≡ some h
unfolding release
release-top r h = rw (same_refl r) refl

pub release-below :
    (r x : Resource) (h : Held) → same r x ≡ false → release r (x ∷ r ∷ h) ≡ some (x ∷ h)
unfolding release
release-below r x h e = rw (e, same_refl r) refl

pub release-third :
    (r x y : Resource) (h : Held)
    → same r x ≡ false
    → same r y ≡ false
    → release r (x ∷ y ∷ r ∷ h) ≡ some (x ∷ y ∷ h)
unfolding release
release-third r x y h e e' = rw (e, e', same_refl r) refl
