-- ===== src/Dsl/Files.antt =====
-- dslelf/dsl_elf.c: opening and closing a file keep the system's objects in balance.
use divers.Base.{ℕ, ◌≡◌, refl, ◌⊎◌, inl, inr, Option-cases, Option, none, some, ◌∷◌}
use divers.Resources.{Held, descriptor, mapping, release-top}
use divers.Dsl.{File, Answers, file_open, file_close}

-- What `dls_file_open` promises: with all three calls done it returns 0 and `dls_file_close` gives back all
-- that it took; else it returns the error and holds nothing more.
abbrev pub IsOpened : Answers → File → Held → Option (ℕ × File × Held) → Type 0
IsOpened a f held none = ⊥
IsOpened a f held (some (ret, f', h)) =
    ((fd : ℕ) × (n : ℕ) × (addr : ℕ) × (a.opened ≡ some fd)
      × (a.st_size ≡ some n)
      × (a.mapped ≡ some addr)
      × (ret ≡ 0)
      × (f' ≡ record { fd = fd; map = addr; size = n })
      × (h ≡ mapping addr n ∷ descriptor fd ∷ held)
      × (file_close f' h ≡ some held))
    ⊎ ((ret ≡ a.errno)
        × (f' ≡ f)
        × (h ≡ held)
        × ((a.opened ≡ none) ⊎ (a.st_size ≡ none) ⊎ (a.mapped ≡ none)))

-- `dls_file_open` closes only what it opened, and ends as promised: on success it describes the file,
-- holds its descriptor and its mapping, and one `dls_file_close` gives both back; when a call fails it
-- returns the error, leaves the description as it was and holds nothing more.
pub file_open-IsOpened :
    (a : Answers) (f : File) (held : Held) → IsOpened a f held (file_open a f held)
unfolding file_open file_close
file_open-IsOpened a f held = elim (Option-cases a.opened) [
  | inl n ↦ rw n (inr (refl, refl, refl, inl refl))
  | inr (fd, e) ↦ rw e (elim (Option-cases a.st_size) [
    | inl n ↦ rw (n, release-top (descriptor fd) held) (inr (refl, refl, refl, inr (inl refl)))
    | inr (size, e') ↦ rw e' (elim (Option-cases a.mapped) [
      | inl n ↦ rw (n, release-top (descriptor fd) held) (inr (refl, refl, refl, inr (inr refl)))
      | inr (addr, e'') ↦ rw e'' (
          inl (
            fd,
            size,
            addr,
            refl,
            refl,
            refl,
            refl,
            refl,
            refl,
            rw (release-top (mapping addr size) (descriptor fd ∷ held))
                (release-top (descriptor fd) held),
          ))
    ])
  ])
]
