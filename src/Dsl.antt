-- ===== src/Dsl.antt =====
-- dslelf/dsl_elf.c: reading the undefined symbols and their relocations of a mapped ELF file, in the
-- 64-bit build. The system's calls are parameters; `strcmp` against a fixed name is a test on addresses,
-- `malloc` and `realloc` are taken to succeed, and a return value -e is written as e.
pub mod Files
pub mod Symbols
pub mod Hook
mod Samples
use divers.Base.{
  ℕ, zero, suc, ◌+◌, ◌-◌, ◌*◌, ◌/◌, ◌%◌, Bool, true, false, ◌&&◌, Option, none, some, List, [], ◌∷◌,
  ◌==◌, if◌then◌else◌,
}
use divers.Memory.{Mem, load}
use divers.Elf.{scan, scan_in}
use divers.Resources.{Held, descriptor, mapping, release, ◌>>=◌}

-- `struct dls_file`.
pub record File : Type 0 where
  pub fd : ℕ
  pub map : ℕ
  pub size : ℕ

-- What the system answers to `dls_file_open`; `none` is a failure, with `errno`.
pub record Answers : Type 0 where
  pub opened : Option ℕ
  pub st_size : Option ℕ
  pub mapped : Option ℕ
  pub errno : ℕ

-- `dls_file_open`.
unfoldable pub file_open : Answers → File → Held → Option (ℕ × File × Held)
file_open a f held = elim (a.opened) [
  | none ↦ some (a.errno, f, held)
  | some fd ↦
      let closed = release (descriptor fd) (descriptor fd ∷ held) >>= λ h. some (a.errno, f, h) in
      elim (a.st_size) [
        | none ↦ closed
        | some n ↦ elim (a.mapped) [
          | none ↦ closed
          | some addr ↦
              some
                (0, record { fd = fd; map = addr; size = n }, mapping addr n ∷ descriptor fd ∷ held)
        ]
      ]
]

-- `dls_file_close`.
unfoldable pub file_close : File → Held → Option Held
file_close f held = release (mapping f.map f.size) held >>= λ h. release (descriptor f.fd) h

-- `Elf64_Ehdr`, `Elf64_Shdr`, `Elf64_Sym` and `Elf64_Rela`, at the offsets that elf.h fixes.
abbrev pub e_shoff : Mem → ℕ → ℕ
e_shoff m ehdr = load 8 m (ehdr + 40)

abbrev pub e_shnum : Mem → ℕ → ℕ
e_shnum m ehdr = load 2 m (ehdr + 60)

abbrev pub e_shstrndx : Mem → ℕ → ℕ
e_shstrndx m ehdr = load 2 m (ehdr + 62)

abbrev pub sizeof_shdr : ℕ
sizeof_shdr = 64

abbrev pub sh_name : Mem → ℕ → ℕ
sh_name m shdr = load 4 m shdr

abbrev pub sh_type : Mem → ℕ → ℕ
sh_type m shdr = load 4 m (shdr + 4)

abbrev pub sh_offset : Mem → ℕ → ℕ
sh_offset m shdr = load 8 m (shdr + 24)

abbrev pub sh_size : Mem → ℕ → ℕ
sh_size m shdr = load 8 m (shdr + 32)

abbrev pub sh_link : Mem → ℕ → ℕ
sh_link m shdr = load 4 m (shdr + 40)

abbrev pub sizeof_sym : ℕ
sizeof_sym = 24

abbrev pub st_name : Mem → ℕ → ℕ
st_name m sym = load 4 m sym

abbrev pub st_info : Mem → ℕ → ℕ
st_info m sym = load 1 m (sym + 4)

abbrev pub sizeof_rel : ℕ
sizeof_rel = 16

abbrev pub sizeof_rela : ℕ
sizeof_rela = 24

-- `ELF64_R_SYM(rela->r_info)`.
abbrev pub r_sym : Mem → ℕ → ℕ
r_sym m rela = load 8 m (rela + 8) / 4294967296

abbrev pub sht_rela : ℕ
sht_rela = 4

-- `dls_file_get_section_strings`.
abbrev pub file_get_section_strings : Mem → (f : ℕ) → ℕ
file_get_section_strings m f = f + sh_offset m (f + e_shoff m f + e_shstrndx m f * sizeof_shdr)

-- `dls_get_shdr_by_name`; `same p` is `strcmp(p, name) == 0`.
unfoldable pub get_shdr_by_name : Mem → (base : ℕ) (same : ℕ → Bool) → Option ℕ
get_shdr_by_name m base same =
    scan sizeof_shdr (λ shdr. same (file_get_section_strings m base + sh_name m shdr))
      (e_shnum m base) (base + e_shoff m base)

-- The inner loop of `dls_get_rel_sym`: its count divides by the size of a record of the other kind.
unfoldable pub rel_in : Mem → (base sym_ind walker : ℕ) → Option ℕ
rel_in m base sym_ind walker =
    scan sizeof_rela (λ curr. r_sym m curr == sym_ind) (sh_size m walker / sizeof_rel)
      (base + sh_offset m walker)

-- `dls_get_rel_sym`.
unfoldable pub get_rel_sym : Mem → (base section_ind sym_ind : ℕ) → Option ℕ
unfolding rel_in
get_rel_sym m base section_ind sym_ind =
    scan_in sizeof_shdr
      (λ walker.
        if (sh_type m walker == sht_rela) && (section_ind == sh_link m walker)
        then rel_in m base sym_ind walker
        else none)
      (e_shnum m base) (base + e_shoff m base)

-- `struct dls_external_sym`.
pub record ExternalSym : Type 0 where
  pub rel : Option ℕ
  pub name : ℕ
  pub sym' : ℕ

-- A global symbol without a type.
abbrev pub is_external : Mem → ℕ → Bool
is_external m sym = (st_info m sym / 16 == 1) && (st_info m sym % 16 == 0)

-- The loop of `dls_get_external_syms`, over `rounds` symbols from number `i` on, at `sym`.
unfoldable pub external_loop :
    Mem → (base section_ind names : ℕ) → (rounds i sym : ℕ) → List ExternalSym
external_loop m base section_ind names zero i sym = []
external_loop m base section_ind names (suc rounds) i sym =
    let rest = external_loop m base section_ind names rounds (i + 1) (sym + sizeof_sym) in
    if is_external m sym
    then record { rel = get_rel_sym m base section_ind i; name = names + st_name m sym; sym' = sym }
      ∷ rest
    else rest

-- `dls_get_external_syms`; it reads through NULL if one of the sections is missing, `none`.
unfoldable pub get_external_syms :
    Mem → (base : ℕ) (dynsym dynstr : ℕ → Bool) → Option (List ExternalSym)
unfolding external_loop
get_external_syms m base dynsym dynstr = get_shdr_by_name m base dynsym >>= λ s4.
    get_shdr_by_name m base dynstr >>= λ s5. some (
      external_loop m base ((s4 - (base + e_shoff m base)) / sizeof_shdr) (base + sh_offset m s5)
        (sh_size m s4 / sizeof_sym) 0 (base + sh_offset m s4))
