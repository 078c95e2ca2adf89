-- ===== src/Dsl/Symbols.antt =====
-- dslelf/dsl_elf.c: what the searches for relocations and for undefined symbols find.
use divers.Base.{
  All, has, get_elem?, ◌↔◌, ◌<◌, true, length, ℕ, zero, suc, ◌+◌, ◌-◌, ◌*◌, ◌/◌, ◌≡◌, Bool, Option,
  some, List, [], ◌∷◌, arith, if◌then◌else◌, ◌==◌,
}
use divers.Memory.{Mem, load}
use divers.Elf.First.{IsFirst, IsFirstIn, scan-IsFirst, scan_in-IsFirstIn, guarded}
use divers.Dsl.{
  e_shoff, e_shnum, sizeof_shdr, sh_type, sh_link, sh_size, sh_offset, sizeof_rel, sizeof_rela,
  r_sym, sht_rela, rel_in, get_rel_sym, ExternalSym, sizeof_sym, st_name,
}

-- Which sections `dls_get_rel_sym` looks into, and what it looks for in one of them.
abbrev pub IsLinkedRela : Mem → ℕ → ℕ → Type 0
IsLinkedRela m section_ind x = (sh_type m x ≡ sht_rela) × (sh_link m x ≡ section_ind)

abbrev pub IsRelaOf : Mem → (base sym_ind x : ℕ) → Option ℕ → Type 0
IsRelaOf m base sym_ind x o =
    IsFirst (λ rela. r_sym m rela ≡ sym_ind) sizeof_rela (sh_size m x / sizeof_rel)
      (base + sh_offset m x) o

rel_in-IsRelaOf :
    (m : Mem) (base sym_ind x : ℕ) → IsRelaOf m base sym_ind x (rel_in m base sym_ind x)
unfolding rel_in
rel_in-IsRelaOf m base sym_ind x =
    scan-IsFirst (λ rela. r_sym m rela ≡ sym_ind) sizeof_rela (λ curr. r_sym m curr == sym_ind)
      (λ y. ground arith) _ _

-- `dls_get_rel_sym` returns the first relocation of the symbol in the first RELA section linked to the
-- symbols' section that has one, among as many records of 24 bytes as the section has 16 bytes; and
-- NULL only if no such section has one.
pub get_rel_sym-IsFirstIn :
    (m : Mem) (base section_ind sym_ind : ℕ)
    → IsFirstIn
        (IsLinkedRela m section_ind)
        (IsRelaOf m base sym_ind)
        sizeof_shdr
        (e_shnum m base)
        (base + e_shoff m base)
        (get_rel_sym m base section_ind sym_ind)
unfolding get_rel_sym
get_rel_sym-IsFirstIn m base section_ind sym_ind =
    scan_in-IsFirstIn (IsLinkedRela m section_ind) (IsRelaOf m base sym_ind) sizeof_shdr _
      (λ x.
        guarded (IsLinkedRela m section_ind x) _ (ground arith) (IsRelaOf m base sym_ind) x _
          (rel_in-IsRelaOf m base sym_ind x))
      _ _

-- The numbers from `i` on, and those whose symbol in the table at `p` is external.
abbrev pub range : (n i : ℕ) → List ℕ
range zero i = []
range (suc n) i = i ∷ range n (i + 1)

abbrev pub filter : (ℕ → Bool) → List ℕ → List ℕ
filter test [] = []
filter test (x ∷ xs) = if test x then x ∷ filter test xs else filter test xs

-- What is listed for symbol number `i` of the table at `p`.
abbrev pub external : Mem → (base section_ind names p i : ℕ) → ExternalSym
external m base section_ind names p i = record {
  rel = get_rel_sym m base section_ind i;
  name = names + st_name m (p + i * sizeof_sym);
  sym' = p + i * sizeof_sym;
}

-- Each number is less than those behind it.
abbrev pub Ascending : List ℕ → Type 0
Ascending [] = Unit
Ascending (k ∷ ks) = All (λ j. k < j) ks × Ascending ks

-- What `dls_get_external_syms` lists of the symbols of the section `s4` with names in `s5`: there are ascending numbers,
-- exactly those of the symbols whose `st_info` is 16, global and without a type, and at each place the symbol with the
-- number there, its name and its first relocation.
abbrev pub AreListed : Mem → (base s4 s5 : ℕ) → List ExternalSym → Type 0
AreListed m base s4 s5 out =
    let p = base + sh_offset m s4 in
    (ks : List ℕ) × Ascending ks
    × ((k : ℕ)
        → (has k ks ≡ true)
          ↔ ((k < sh_size m s4 / sizeof_sym) × (load 1 m (p + k * sizeof_sym + 4) ≡ 16)))
    × (length out ≡ length ks)
    × ((j k : ℕ)
        → get_elem? ks j ≡ some k
        → (rel : Option ℕ) × (get_elem? out j
            ≡ some (record {
              rel = rel;
              name = base + sh_offset m s5 + st_name m (p + k * sizeof_sym);
              sym' = p + k * sizeof_sym;
            }))
          × IsFirstIn (IsLinkedRela m ((s4 - (base + e_shoff m base)) / sizeof_shdr))
              (IsRelaOf m base k) sizeof_shdr (e_shnum m base) (base + e_shoff m base) rel)
