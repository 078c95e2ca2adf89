-- ===== src/DsoPlugin.antt =====
-- dso/dso_plugin.c and dso/dso_plugin.h: a plugin is a library that dlopen loads and a symbol in it.
-- `dlopen` and `dlsym` are the system's; NULL is 0.
pub mod Program
use divers.Base.{
  ℕ, ◌≡◌, refl, ◌≢◌, ◌⊎◌, inl, inr, true, Bool-cases, ◌==◌, ◌||◌, not, if◌then◌else◌, Option, none,
  some, ◌∷◌, ==→ne, ==_iff,
}
use divers.Resources.{Held, handle, release, release-top, ◌>>=◌}

-- `struct dso_plugin_desc`.
pub record Plugin : Type 0 where
  pub vmem : ℕ
  pub vsym : ℕ

-- `dso_plugin_exit` of a descriptor that is not NULL.
unfoldable pub exit : Plugin → Held → Option Held
exit p held = if not (p.vmem == 0) then release (handle p.vmem) held else some held

-- `dso_plugin_init`: what it returns (1 stands for -1), the descriptor, and what is held. The
-- handle that `dlopen` gives is counted; `dlsym` searches the library of the handle.
unfoldable pub init :
    (dlopen : ℕ → ℕ) (dlsym : ℕ → ℕ → ℕ) (file ent : ℕ) → Plugin → Held → Option (ℕ × Plugin × Held)
init dlopen dlsym file ent p held =
    if (file == 0) || (ent == 0)
    then some (1, p, held)
    else (let vmem = dlopen file in
        if vmem == 0
        then some (1, record p { vmem = vmem }, held)
        else (let p' = record p { vmem = vmem; vsym = dlsym vmem ent } in
            if p'.vsym == 0
            then (release (handle vmem) (handle vmem ∷ held) >>= λ held'. some (1, p', held'))
            else some (0, p', handle vmem ∷ held)))

-- `dso_plugin_get_entry`.
unfoldable pub get_entry : Plugin → ℕ
get_entry p = if not (p.vsym == 0) then p.vsym else 0

-- `dso_plugin_get_sym` of a descriptor that is not NULL.
unfoldable pub get_sym : (dlsym : ℕ → ℕ → ℕ) (symname : ℕ) → Plugin → ℕ × Plugin
unfolding get_entry
get_sym dlsym symname p = let p' = record p { vsym = dlsym p.vmem symname } in (get_entry p', p')

-- What `dso_plugin_init` promises: with 0, the plugin's library is held, `dso_plugin_get_entry` gives the
-- entry, and `dso_plugin_exit` gives all back; with -1, nothing more is held than before.
abbrev pub IsInit :
    (dlopen : ℕ → ℕ) (dlsym : ℕ → ℕ → ℕ) (file ent : ℕ) → Held → Option (ℕ × Plugin × Held) → Type 0
IsInit dlopen dlsym file ent held none = ⊥
IsInit dlopen dlsym file ent held (some (ret, p, held')) =
    ((ret ≡ 0)
      × (p.vmem ≡ dlopen file)
      × (get_entry p ≡ dlsym (dlopen file) ent)
      × (get_entry p ≢ 0)
      × (held' ≡ handle (dlopen file) ∷ held)
      × (exit p held' ≡ some held))
    ⊎ ((ret ≡ 1)
        × (held' ≡ held)
        × ((((file == 0) || (ent == 0)) ≡ true)
            ⊎ (dlopen file ≡ 0)
            ⊎ (dlsym (dlopen file) ent ≡ 0)))

-- `dso_plugin_init` never closes what it did not open, and ends as promised: on success the entry is
-- found and one `dso_plugin_exit` closes the library; when an argument is NULL, the library does not open
-- or the entry is not found, it returns -1 and nothing more is held.
pub init-IsInit :
    (dlopen : ℕ → ℕ) (dlsym : ℕ → ℕ → ℕ) (file ent : ℕ) (p : Plugin) (held : Held)
    → IsInit dlopen dlsym file ent held (init dlopen dlsym file ent p held)
unfolding init exit get_entry
init-IsInit dlopen dlsym file ent p held = elim (Bool-cases ((file == 0) || (ent == 0))) [
  | inl t ↦ rw t (inr (refl, refl, inl t))
  | inr f ↦ rw f (elim (Bool-cases (dlopen file == 0)) [
    | inl t ↦ rw t (inr (refl, refl, inr (inl ((==_iff (dlopen file) 0).0 t))))
    | inr open' ↦ rw open' (elim (Bool-cases (dlsym (dlopen file) ent == 0)) [
      | inl t ↦
          rw (t, release-top (handle (dlopen file)) held)
            (inr (refl, refl, inr (inr ((==_iff (dlsym (dlopen file) ent) 0).0 t))))
      | inr found ↦ rw found (
          inl (
            refl,
            refl,
            rw found refl,
            rw found (==→ne (dlsym (dlopen file) ent) 0 found),
            refl,
            rw (open', release-top (handle (dlopen file)) held) refl,
          ))
    ])
  ])
]
