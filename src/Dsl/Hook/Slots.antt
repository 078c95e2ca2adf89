-- ===== src/Dsl/Hook/Slots.antt =====
-- dslelf/dsl_elf.c: which words of the library the loop of `main` writes.
use divers.Base.{
  ℕ, ◌+◌, ◌^◌, ◌<◌, ◌≤◌, ◌≡◌, refl, ◌∙◌, ◌⊎◌, inl, inr, arith, Bool, true, false, Option, none,
  some, List, [], ◌∷◌, All,
}
use mathlib.Core.Option.{some-injective}
use divers.Memory.{Mem, load, store, Apart, load-store_self, load-store-Apart, store-outside}
use divers.Dsl.{ExternalSym}
use divers.Dsl.Hook.{hook_loop}

-- The words that the symbols with the name have in the library; each has a relocation.
pub data AreSlots (m : Mem) (same : ℕ → Bool) (iov_base : ℕ)
    : List ExternalSym → List ℕ → Type 0 where
  nil : AreSlots m same iov_base [] []
  skip :
      {es : List ExternalSym} {ss : List ℕ} (e : ExternalSym)
      → same e.name ≡ false
      → AreSlots m same iov_base es ss
      → AreSlots m same iov_base (e ∷ es) ss
  slot :
      {es : List ExternalSym} {ss : List ℕ} (e : ExternalSym) (rel : ℕ)
      → same e.name ≡ true
      → e.rel ≡ some rel
      → AreSlots m same iov_base es ss
      → AreSlots m same iov_base (e ∷ es) ((iov_base + load 8 m rel) ∷ ss)

-- Two words are one or share no byte.
abbrev pub Loose : ℕ → List ℕ → Type 0
Loose a ss = All (λ b. (a ≡ b) ⊎ Apart a 8 b 8) ss

abbrev pub AreLoose : List ℕ → Type 0
AreLoose [] = Unit
AreLoose (a ∷ ss) = Loose a ss × AreLoose ss

abbrev pub Outside : ℕ → List ℕ → Type 0
Outside x ss = All (λ a. (x < a) ⊎ (a + 8 ≤ x)) ss

-- All words hold the value, and no other byte changed.
abbrev pub IsHooked : (funky : ℕ) → List ℕ → Mem → Option Mem → Type 0
IsHooked funky ss p none = ⊥
IsHooked funky ss p (some p') =
    All (λ a. load 8 p' a ≡ funky) ss × ((x : ℕ) → Outside x ss → p' x ≡ p x)

-- So too, and a word that held the value before still does.
abbrev Hooked : (funky : ℕ) → List ℕ → Mem → Option Mem → Type 0
Hooked funky ss p o =
    IsHooked funky ss p o
    × ((p' : Mem) → o ≡ some p' → (a : ℕ) → load 8 p a ≡ funky → Loose a ss → load 8 p' a ≡ funky)

stored :
    (p : Mem) (a b funky : ℕ)
    → funky < 2 ^ 64
    → load 8 p a ≡ funky
    → (a ≡ b) ⊎ Apart a 8 b 8
    → load 8 (store 8 p b funky) a ≡ funky
stored p a b funky lt e (inl same) = rw same (load-store_self 8 p b funky (omega arith))
stored p a b funky lt e (inr apart) = load-store-Apart 8 8 p a b funky apart ∙ e

after_store :
    (p : Mem) (b funky : ℕ) (ss : List ℕ) (o : Option Mem)
    → funky < 2 ^ 64
    → Loose b ss
    → Hooked funky ss (store 8 p b funky) o
    → Hooked funky (b ∷ ss) p o
after_store p b funky ss none lt loose (h, keep) = absurd h
after_store p b funky ss (some p') lt loose ((all, same), keep) = (
  (
    (keep p' refl b (load-store_self 8 p b funky (omega arith)) loose, all),
    λ x out. same x out.1 ∙ store-outside 8 p b funky x out.0,
  ),
  λ q e a held apart. keep q e a (stored p a b funky lt held apart.0) apart.1,
)

module _ (m : Mem) (same : ℕ → Bool) (iov_base funky : ℕ) (lt : funky < 2 ^ 64) where
  hook_loop-Hooked :
      {es : List ExternalSym} {ss : List ℕ}
      → AreSlots m same iov_base es ss
      → (p : Mem) → AreLoose ss
      → Hooked funky ss p (hook_loop m same iov_base funky es p)
  unfolding hook_loop
  hook_loop-Hooked nil p loose =
      ((tt, λ x out. refl), λ p' e a held apart. rw⁻¹ (some-injective p p' e) held)
  hook_loop-Hooked (skip x f sl) p loose = rw (f, hook_loop) (hook_loop-Hooked sl p loose)
  hook_loop-Hooked (slot {es} {ss} x rel t r sl) p (here, loose) =
      let b = iov_base + load 8 m rel in
      rw (t, hook_loop)
        (rw r (
          after_store p b funky ss (hook_loop m same iov_base funky es (store 8 p b funky)) lt here
            (hook_loop-Hooked sl (store 8 p b funky) loose)))

  -- If each symbol with the name has a relocation, and their words are the same or apart, the loop of `main`
  -- ends; then all these words hold the new address, and no other byte of the library has changed.
  pub hook_loop-IsHooked :
      {es : List ExternalSym} {ss : List ℕ} (p : Mem)
      → AreSlots m same iov_base es ss
      → AreLoose ss
      → IsHooked funky ss p (hook_loop m same iov_base funky es p)
  hook_loop-IsHooked p sl loose = (hook_loop-Hooked sl p loose).0
