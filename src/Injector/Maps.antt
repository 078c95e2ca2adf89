-- ===== src/Injector/Maps.antt =====
-- got_modifier/process_injector.c: the search for a library among the mappings of a process.
use divers.Base.{
  ℕ, ◌≡◌, ◌≢◌, refl, ◌⊎◌, inl, inr, ◌↔◌, Bool, true, false, Option, none, some, List, [], ◌∷◌,
  Bool-cases,
}
use mathlib.Core.Bool.{false≢true}
use divers.Resources.{Held, stream, release-top}
use divers.Injector.{maps_loop, check_for_dso}

-- The name is in one of the lines.
abbrev pub Names : (ℕ → Bool) → List ℕ → Type 0
Names strstr [] = ⊥
Names strstr (l ∷ ls) = (strstr l ≡ true) ⊎ Names strstr ls

maps_loop-Names :
    (strstr : ℕ → Bool) (line l : ℕ) (ls : List ℕ)
    → (maps_loop strstr line (l ∷ ls) ≡ true) ↔ Names strstr (l ∷ ls)
unfolding maps_loop
maps_loop-Names strstr line l [] = elim (Bool-cases (strstr l)) [
  | inl t ↦ rw t (λ e. inl refl, λ h. refl)
  | inr f ↦ rw f (λ e. inl e, λ h. elim h [ inl e ↦ e | inr e ↦ absurd e ])
]
maps_loop-Names strstr line l (k ∷ ls) =
    let (to, from) = maps_loop-Names strstr l k ls in
    elim (Bool-cases (strstr l)) [
      | inl t ↦ rw t (λ e. inl refl, λ h. refl)
      | inr f ↦ rw f (λ e. inr (to e), λ h. elim h [ inl e ↦ cc | inr n ↦ from n ])
    ]

-- For a file with a line, `process_injector_check_for_dso` closes what it opened, and returns true if and
-- only if the file opens and the name is in one of its lines.
pub check_for_dso-Names :
    (fopened : Option ℕ) (strstr : ℕ → Bool) (line l : ℕ) (ls : List ℕ) (held : Held)
    → (ret : Bool) × (check_for_dso fopened strstr line (l ∷ ls) held ≡ some (ret, held))
      × ((ret ≡ true) ↔ ((fopened ≢ none) × Names strstr (l ∷ ls)))
unfolding check_for_dso
check_for_dso-Names none strstr line l ls held =
    (false, refl, (λ e. absurd (false≢true e), λ h. absurd (h.0 refl)))
check_for_dso-Names (some fp) strstr line l ls held =
    let (to, from) = maps_loop-Names strstr line l ls in
    (
      maps_loop strstr line (l ∷ ls),
      rw (release-top (stream fp) held) refl,
      (λ e. (λ n. cc, to e), λ h. from h.1),
    )
