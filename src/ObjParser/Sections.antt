-- ===== src/ObjParser/Sections.antt =====
-- got_modifier/linux_obj_parser.c: what the searches for sections and relocations find.
use divers.Base.{ℕ, ◌+◌, ◌/◌, ◌≡◌, ◌==◌, Option, arith}
use divers.Memory.{Mem}
use divers.Elf.First.{IsFirst, IsFirstIn, scan-IsFirst, scan_in-IsFirstIn, guarded}
use divers.ObjParser.{
  e_shnum, e_shoff, sizeof_shdr, sh_type, sh_link, sh_offset, sht_rel, sizeof_rel, r_sym,
  get_section_by_type, find_rel_in, find_rel_by_sym,
}

-- `lop_get_section_by_type` returns the first of the `e_shnum` section headers that has the type, and
-- NULL only if none has.
pub get_section_by_type-IsFirst :
    (m : Mem) (base type' : ℕ)
    → IsFirst
        (λ x. sh_type m x ≡ type')
        sizeof_shdr
        (e_shnum m base)
        (base + e_shoff m base)
        (get_section_by_type m base type')
unfolding get_section_by_type
get_section_by_type-IsFirst m base type' =
    scan-IsFirst (λ x. sh_type m x ≡ type') sizeof_shdr (λ x. type' == sh_type m x)
      (λ x. ground arith) (e_shnum m base) (base + e_shoff m base)

-- Which sections `lop_find_rel_by_sym` looks into.
abbrev pub IsLinkedRel : Mem → ℕ → ℕ → Type 0
IsLinkedRel m sind x = (sh_type m x ≡ sht_rel) × (sh_link m x ≡ sind)

-- What it looks for in one of them.
abbrev pub IsRelOf : Mem → (ehdr ind x : ℕ) → Option ℕ → Type 0
IsRelOf m ehdr ind x o =
    IsFirst (λ rel. r_sym m rel ≡ ind) sizeof_rel (sh_offset m x / sizeof_rel)
      (ehdr + sh_offset m x) o

find_rel_in-IsRelOf : (m : Mem) (ehdr ind x : ℕ) → IsRelOf m ehdr ind x (find_rel_in m ehdr ind x)
unfolding find_rel_in
find_rel_in-IsRelOf m ehdr ind x =
    scan-IsFirst (λ rel. r_sym m rel ≡ ind) sizeof_rel (λ current. r_sym m current == ind)
      (λ y. ground arith) (sh_offset m x / sizeof_rel) (ehdr + sh_offset m x)

-- `lop_find_rel_by_sym` returns the first relocation of the symbol in the first REL section linked to
-- the symbols' section that has one, among as many records as `sh_offset` holds; and NULL only if no
-- such section has one.
pub find_rel_by_sym-IsFirstIn :
    (m : Mem) (ehdr shdr sind ind : ℕ)
    → IsFirstIn
        (IsLinkedRel m sind)
        (IsRelOf m ehdr ind)
        sizeof_shdr
        (e_shnum m ehdr)
        shdr
        (find_rel_by_sym m ehdr shdr sind ind)
unfolding find_rel_by_sym
find_rel_by_sym-IsFirstIn m ehdr shdr sind ind =
    scan_in-IsFirstIn (IsLinkedRel m sind) (IsRelOf m ehdr ind) sizeof_shdr _
      (λ x.
        guarded (IsLinkedRel m sind x) _ (ground arith) (IsRelOf m ehdr ind) x _
          (find_rel_in-IsRelOf m ehdr ind x))
      (e_shnum m ehdr) shdr
