-- ===== src/ThreadName.antt =====
-- thread_name/thsetname.c: `set_thread_name`, whose argument is the text at an address. `prctl` is not modelled:
-- the result is the text that it is given.
pub mod Threads
mod Samples
use divers.Base.{
  ℕ, zero, suc, ◌+◌, ◌≡◌, refl, ap, List, [], ◌∷◌, ◌++◌, ◌==◌, if◌then◌else◌, length, arith,
  Bool-cases, inl, inr,
}
use divers.Memory.{Mem}
use divers.SymResolver.{strncpy}

abbrev pub max_name_len : ℕ
max_name_len = 16

-- `name`, with the 0 at its end.
unfoldable pub set_thread_name : Mem → (thread_name : ℕ) → List ℕ
unfolding strncpy
set_thread_name m thread_name = strncpy max_name_len m thread_name ++ (0 ∷ [])

-- A text up to its first 0.
abbrev pub text_of : List ℕ → List ℕ
text_of [] = []
text_of (c ∷ cs) = if c == 0 then [] else c ∷ text_of cs

-- At most `n` characters of the text at an address.
abbrev pub prefix : ℕ → Mem → ℕ → List ℕ
prefix zero m p = []
prefix (suc n) m p = if m p == 0 then [] else m p ∷ prefix n m (p + 1)

strncpy-prefix : (n : ℕ) (m : Mem) (p : ℕ) → text_of (strncpy n m p ++ (0 ∷ [])) ≡ prefix n m p
unfolding strncpy
strncpy-prefix zero m p = refl
strncpy-prefix (suc n) m p = elim (Bool-cases (m p == 0)) [
  | inl t ↦ rw t refl
  | inr f ↦ rw f (ap (λ cs. m p ∷ cs) (strncpy-prefix n m (p + 1)))
]

length-strncpy : (n : ℕ) (m : Mem) (p : ℕ) → length (strncpy n m p ++ (0 ∷ [])) ≡ n + 1
unfolding strncpy
length-strncpy zero m p = refl
length-strncpy (suc n) m p = omega (arith, length-strncpy n m (if m p == 0 then p else p + 1))

-- `set_thread_name` fills its 17 bytes and not more, and gives `prctl` the first 16 characters of the name, ended by
-- a 0 also when the name is longer.
pub set_thread_name-prefix :
    (m : Mem) (thread_name : ℕ)
    → (length (set_thread_name m thread_name) ≡ max_name_len + 1)
      × (text_of (set_thread_name m thread_name) ≡ prefix max_name_len m thread_name)
unfolding set_thread_name
set_thread_name-prefix m thread_name =
    (length-strncpy max_name_len m thread_name, strncpy-prefix max_name_len m thread_name)
