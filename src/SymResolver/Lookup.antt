-- ===== src/SymResolver/Lookup.antt =====
-- sym_resolv/sym_resolver.c: what the searches for an address and for a name find.
use divers.Base.{
  ℕ, ◌+◌, ◌/◌, ◌%◌, ◌^◌, ◌≤◌, ◌<◌, ◌≡◌, refl, ◌≢◌, ◌⊎◌, inl, inr, Bool, true, Option, none, some,
  List, [], ◌∷◌, drop, arith, Option-cases, ne→==,
}
use mathlib.Core.Option
use divers.Memory.{Mem}
use divers.Elf.{scan}
use divers.Elf.First.{IsFirst, scan-IsFirst}
use divers.Elf.Class32.{
  sizeof_shdr, sh_name, sh_offset, sh_size, sizeof_sym, st_name, st_value, st_size, e_shnum,
}
use divers.SymResolver.{
  SymDesc, SymResolv, get_sectionhdr_by_name, covers, get_funcname_by_addr, strncpy, symbol,
  resolve, resolve_addr,
}

-- `addr` lies in the symbol at `walker`.
abbrev pub Covers : Mem → (addr walker : ℕ) → Type 0
Covers m addr walker =
    (st_value m walker ≤ addr) × (addr < (st_value m walker + st_size m walker) % 2 ^ 32)

-- The symbols of the section `symtab`: the first one that covers `addr`.
abbrev pub IsCovering : Mem → SymDesc → (symtab addr : ℕ) → Option ℕ → Type 0
IsCovering m desc symtab addr o =
    IsFirst (Covers m addr) sizeof_sym (sh_size m symtab / sizeof_sym)
      (desc.mem + sh_offset m symtab) o

-- What is written for an address: the first symbol that covers it, or else what `dladdr` says, or else an
-- empty name beside the address that was there.
abbrev pub IsResolved :
    Mem
    → SymDesc
    → (symtab strtab : ℕ) → (dladdr : ℕ → Option (ℕ × ℕ)) → (addr : ℕ) → SymResolv
    → SymResolv
    → Type 0
IsResolved m desc symtab strtab dladdr addr old new =
    ((walker : ℕ) × IsCovering m desc symtab addr (some walker)
      × (new.symaddr ≡ st_value m walker)
      × (new.symname ≡ strncpy 512 m (desc.mem + sh_offset m strtab + st_name m walker)))
    ⊎ ((sname : ℕ) × (saddr : ℕ) × IsCovering m desc symtab addr none
        × (dladdr addr ≡ some (sname, saddr))
        × (new ≡ record { symaddr = saddr; symname = strncpy 512 m sname }))
    ⊎ (IsCovering m desc symtab addr none
        × (dladdr addr ≡ none)
        × (new ≡ record { symaddr = old.symaddr; symname = 0 ∷ drop 1 old.symname }))

-- Each result beside its address and what was there before.
pub data AreResolved (m : Mem) (desc : SymDesc) (symtab strtab : ℕ) (dladdr : ℕ → Option (ℕ × ℕ))
    : List (ℕ × SymResolv) → List SymResolv → Type 0 where
  done : AreResolved m desc symtab strtab dladdr [] []
  more :
      {addr : ℕ} {old new : SymResolv} {rest : List (ℕ × SymResolv)} {news : List SymResolv}
      → IsResolved m desc symtab strtab dladdr addr old new
      → AreResolved m desc symtab strtab dladdr rest news
      → AreResolved m desc symtab strtab dladdr ((addr, old) ∷ rest) (new ∷ news)

scan-IsCovering :
    (m : Mem) (desc : SymDesc) (symtab addr : ℕ)
    → IsCovering m desc symtab addr (
        scan sizeof_sym
          (covers m addr)
          (sh_size m symtab / sizeof_sym)
          (desc.mem + sh_offset m symtab))
scan-IsCovering m desc symtab addr =
    scan-IsFirst (Covers m addr) sizeof_sym (covers m addr) (λ x. ground arith) _ _

module _ (m : Mem) (desc : SymDesc) (symtab strtab : ℕ) (dladdr : ℕ → Option (ℕ × ℕ))
    (has_symtab : desc.shdrsymtab ≡ some symtab)
    (has_strtab : desc.shdrstrsymtab ≡ some strtab) where
  funcname-found :
      (addr : ℕ) (old : SymResolv) (o : Option ℕ)
      → scan sizeof_sym
          (covers m addr)
          (sh_size m symtab / sizeof_sym)
          (desc.mem + sh_offset m symtab)
        ≡ o
      → get_funcname_by_addr m desc addr old
        ≡ Option.map
            (λ w. record {
              symaddr = st_value m w;
              symname = strncpy 512 m (desc.mem + sh_offset m strtab + st_name m w);
            })
            o
  unfolding get_funcname_by_addr
  funcname-found addr old none e = rw (has_symtab, has_strtab, e) refl
  funcname-found addr old (some w) e = rw (has_symtab, has_strtab, e) refl

  resolve-IsResolved :
      (addr : ℕ) (old : SymResolv) (o : Option ℕ)
      → scan sizeof_sym
          (covers m addr)
          (sh_size m symtab / sizeof_sym)
          (desc.mem + sh_offset m symtab)
        ≡ o
      → IsCovering m desc symtab addr o
      → IsResolved m desc symtab strtab dladdr addr old (resolve m desc dladdr addr old)
  unfolding resolve
  resolve-IsResolved addr old (some w) e found =
      rw (funcname-found addr old (some w) e, resolve) (inl (w, found, refl, refl))
  resolve-IsResolved addr old none e found = elim (Option-cases (dladdr addr)) [
    | inl n ↦ rw (funcname-found addr old none e, n, resolve) (inr (inr (found, refl, refl)))
    | inr ((sname, saddr), d) ↦
        rw (funcname-found addr old none e, d, resolve)
          (inr (inl (sname, saddr, found, refl, refl)))
  ]

  -- With the symbol table and its names found, `sym_resolv_addr` writes for each address, in their order,
  -- the first symbol that covers it; where none does, what `dladdr` knows; and where that knows none, an
  -- empty name, which leaves the symbol's address as it was.
  pub resolve_addr-AreResolved :
      (work : List (ℕ × SymResolv))
      → AreResolved m desc symtab strtab dladdr work (resolve_addr m desc dladdr work)
  unfolding resolve_addr
  resolve_addr-AreResolved [] = done
  resolve_addr-AreResolved ((addr, old) ∷ work) =
      more (resolve-IsResolved addr old _ refl (scan-IsCovering m desc symtab addr))
        (resolve_addr-AreResolved work)

-- `__sym_resolv_get_sectionhdr_by_name` returns the first of the `e_shnum` section headers with the
-- name, and NULL only if none has it.
pub get_sectionhdr_by_name-IsFirst :
    (m : Mem) (desc : SymDesc) (same : ℕ → Bool)
    → desc.ehdr ≢ 0
    → IsFirst
        (λ s. same (desc.sectionstr + sh_name m s) ≡ true)
        sizeof_shdr
        (e_shnum m desc.ehdr)
        desc.shdr
        (get_sectionhdr_by_name m desc same)
unfolding get_sectionhdr_by_name
get_sectionhdr_by_name-IsFirst m desc same h =
    rw (ne→== desc.ehdr 0 h) (scan-IsFirst _ sizeof_shdr _ (λ x. (λ e. e, λ e. e)) _ _)

-- With the symbol table and its names found, `sym_resolv_symbol` returns the first symbol with the name,
-- and NULL only if none has it.
pub symbol-IsFirst :
    (m : Mem) (desc : SymDesc) (same : ℕ → Bool) (symtab strtab : ℕ)
    → desc.shdrsymtab ≡ some symtab
    → desc.shdrstrsymtab ≡ some strtab
    → IsFirst
        (λ s. same (desc.mem + sh_offset m strtab + st_name m s) ≡ true)
        sizeof_sym
        (sh_size m symtab / sizeof_sym)
        (desc.mem + sh_offset m symtab)
        (symbol m desc same)
unfolding symbol
symbol-IsFirst m desc same symtab strtab h h' =
    rw (h, h') (scan-IsFirst _ sizeof_sym _ (λ x. (λ e. e, λ e. e)) _ _)
