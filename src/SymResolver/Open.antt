-- ===== src/SymResolver/Open.antt =====
-- sym_resolv/sym_resolver.c: opening and closing keep the system's objects in balance.
use divers.Base.{
  ℕ, ◌≡◌, refl, ap, ap₂, sym, ◌∙◌, ◌≢◌, ◌⊎◌, inl, inr, Bool, Bool-cases, Option-cases, Option, none,
  some, ◌∷◌, ◌==◌, if◌then◌else◌, arith, ==_iff, ==→ne,
}
use divers.Memory.{Mem}
use divers.Elf.Class32.{e_shstrndx}
use divers.Resources.{Held, descriptor, mapping, release-top, ◌>>=◌}
use divers.SymResolver.{
  SymDesc, Files, find_strtab, find_symtab, find_tables, sr_no_symtab, sr_open_maperr, open', close,
  get_sectionhdr_by_name,
}

-- The search for the tables leaves the fields that the labels use.
IsFound : SymDesc → ℕ × SymDesc → Type 0
IsFound desc (ret, d) =
    (d.fd ≡ desc.fd)
    × (d.mem ≡ desc.mem)
    × (d.memlen ≡ desc.memlen)
    × (ret ≡ 0 → (d.shdrsymtab ≢ none) × (d.shdrstrsymtab ≢ none))

-- What `sym_resolv_open` promises: with 0, the descriptor and the mapping are held, the symbols and their
-- names are found, and one `sym_resolv_close` gives all back; with -1, nothing more is held, unless the
-- file came as descriptor 0.
abbrev pub IsOpened :
    (symtab strtab : ℕ → Bool) → Files → Held → Option (ℕ × SymDesc × Held) → Type 0
IsOpened symtab strtab files held none = ⊥
IsOpened symtab strtab files held (some (ret, d, h)) =
    ((ret ≡ 0)
      × (files.opened ≡ some d.fd)
      × (h ≡ mapping d.mem d.memlen ∷ descriptor d.fd ∷ held)
      × (close d h ≡ some held)
      × (d.shdrsymtab ≢ none)
      × (d.shdrstrsymtab ≢ none))
    ⊎ ((ret ≡ 1)
        × (h ≡ held)
        × ((files.opened ≡ none)
            ⊎ (files.size ≡ none)
            ⊎ (files.mapped ≡ none)
            ⊎ ((desc : SymDesc) × (files.mapped ≡ some desc.mem)
                × ((find_tables symtab strtab files.bytes desc).0 ≢ 0))))
    ⊎ ((ret ≡ 1) × (files.opened ≡ some 0) × (h ≡ descriptor 0 ∷ held))

close-held :
    (d : SymDesc) (held : Held)
    → close d (mapping d.mem d.memlen ∷ descriptor d.fd ∷ held) ≡ some held
unfolding close
close-held d held =
    rw (release-top (mapping d.mem d.memlen) (descriptor d.fd ∷ held))
      (release-top (descriptor d.fd) held)

some-ne_none : {o : Option ℕ} {a : ℕ} → o ≡ some a → o ≢ none
some-ne_none e n = cc

one-or_zero : (o : Option ℕ) → ◌≡◌ {A = ℕ} (elim o [ none ↦ 1 | some t ↦ 0 ]) 0 → o ≢ none
one-or_zero none e = absurd (omega arith)
one-or_zero (some t) e = some-ne_none refl

find_strtab-IsFound :
    (strtab : ℕ → Bool) (m : Mem) (desc : SymDesc)
    → desc.shdrsymtab ≢ none
    → IsFound desc (find_strtab strtab m desc)
unfolding find_strtab IsFound
find_strtab-IsFound strtab m desc s =
    (refl, refl, refl, λ e. (s, one-or_zero (get_sectionhdr_by_name m desc strtab) e))

find_symtab-IsFound :
    (symtab strtab : ℕ → Bool) (m : Mem) (desc : SymDesc)
    → IsFound desc (find_symtab symtab strtab m desc)
unfolding find_symtab IsFound
find_symtab-IsFound symtab strtab m desc =
    elim (Option-cases (get_sectionhdr_by_name m desc symtab)) [
      | inl n ↦ rw (n, find_symtab) (refl, refl, refl, λ e. absurd (omega arith))
      | inr (s, e) ↦
          rw (e, find_symtab)
            (find_strtab-IsFound strtab m
              (record desc { shdrsymtab = get_sectionhdr_by_name m desc symtab }) (some-ne_none e))
    ]

find_tables-IsFound :
    (symtab strtab : ℕ → Bool) (m : Mem) (desc : SymDesc)
    → IsFound desc (find_tables symtab strtab m desc)
unfolding find_tables IsFound
find_tables-IsFound symtab strtab m desc = elim (Bool-cases (e_shstrndx m desc.mem == 0)) [
  | inl t ↦ rw t (refl, refl, refl, λ e. absurd (omega arith))
  | inr f ↦ rw f (find_symtab-IsFound symtab strtab m _)
]

-- Behind the search: the end of the function, or its labels.
finish :
    (symtab strtab : ℕ → Bool) (files : Files) (held : Held) (d2 : SymDesc) (fd : ℕ)
    → d2.fd ≡ fd
    → files.opened ≡ some fd
    → files.mapped ≡ some d2.mem
    → (r : ℕ × SymDesc) → (r.0 ≢ 0 → (find_tables symtab strtab files.bytes d2).0 ≢ 0)
    → IsFound d2 r
    → IsOpened symtab strtab files held (
        if r.0 == 0
        then some (0, r.1, mapping d2.mem d2.memlen ∷ descriptor fd ∷ held)
        else (sr_no_symtab r.1 (mapping d2.mem d2.memlen ∷ descriptor fd ∷ held) >>= λ h.
            some (1, r.1, h)))
unfolding IsFound sr_no_symtab sr_open_maperr
finish symtab strtab files held d2 fd same_fd e mapped (ret, d) miss (f, a, l, found) =
    let objects : mapping d2.mem d2.memlen ∷ descriptor fd ∷ held
        ≡ mapping d.mem d.memlen ∷ descriptor d.fd ∷ held =
      ap₂ (λ x y. x ∷ y) (ap₂ mapping (sym a) (sym l))
        (ap (λ x. descriptor x ∷ held) (sym (f ∙ same_fd))) in
    elim (Bool-cases (ret == 0)) [
      | inl t ↦
          let (s, n) = found ((==_iff ret 0).0 t) in
          rw (t, objects)
            (inl (refl, e ∙ ap some (sym (f ∙ same_fd)), refl, close-held d held, s, n))
      | inr t ↦
          rw
            (
              t,
              objects,
              release-top (mapping d.mem d.memlen) (descriptor d.fd ∷ held),
              release-top (descriptor d.fd) held,
            )
            (inr (inl (refl, refl, inr (inr (inr (d2, mapped, miss (==→ne ret 0 t)))))))
    ]

-- `sym_resolv_open` gives back only what it took, and ends as promised: with 0 the symbol table and its
-- names are found and one `sym_resolv_close` gives everything back; with -1, when a call failed or a table
-- is missing, nothing more is held than before, except the file if its descriptor is 0.
pub open-IsOpened :
    (symtab strtab : ℕ → Bool) (pid : ℕ) (files : Files) (desc : SymDesc) (held : Held)
    → IsOpened symtab strtab files held (open' symtab strtab pid files desc held)
unfolding open' sr_no_symtab sr_open_maperr
open-IsOpened symtab strtab pid files desc held = elim (Option-cases files.opened) [
  | inl n ↦ rw n (inr (inl (refl, refl, inl refl)))
  | inr (fd, e) ↦ rw e (elim (Bool-cases (fd == 0)) [
    | inl t ↦ rw t (
        inr (
          inr
            (refl, ap some ((==_iff fd 0).0 t), ap (λ x. descriptor x ∷ held) ((==_iff fd 0).0 t))))
    | inr f ↦ rw f (elim (Option-cases files.size) [
      | inl n ↦ rw (n, release-top (descriptor fd) held) (inr (inl (refl, refl, inr (inl refl))))
      | inr (len, e') ↦ rw e' (elim (Option-cases files.mapped) [
        | inl n ↦
            rw (n, release-top (descriptor fd) held) (inr (inl (refl, refl, inr (inr (inl refl)))))
        | inr (addr, e'') ↦
            let d2 : SymDesc = record desc { fd = fd; mem = addr; memlen = len; pid = pid } in
            rw e'' (
              finish symtab strtab
                (record files { opened = some fd; size = some len; mapped = some addr }) held d2 fd
                refl refl refl (find_tables symtab strtab files.bytes d2) (λ h. h)
                (find_tables-IsFound symtab strtab files.bytes d2))
      ])
    ])
  ])
]
