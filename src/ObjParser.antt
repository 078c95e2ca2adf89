-- ===== src/ObjParser.antt =====
-- got_modifier/linux_obj_parser.c: reading the dynamic symbols of a 32-bit ELF image at `base`.
-- `strcmp` and `exit` are the system's: `same p` is `strcmp(name, p) == 0`, and an exit is a result.
-- Pointers are numbers.
pub mod Sections
pub mod Segments
pub mod Spin
pub mod Symbols
pub mod Info
pub mod Display
mod Samples
use divers.Base.{
  ℕ, zero, suc, ◌+◌, ◌-◌, ◌*◌, ◌/◌, ◌%◌, Bool, true, false, ◌&&◌, not, Option, none, some, List, [],
  ◌∷◌, ltb, ◌==◌, if◌then◌else◌, bit_and, length,
}
use divers.Memory.{Mem, load}
use divers.Elf.{scan, scan_in}
pub use divers.Elf.Class32.{
  e_phoff, e_shoff, e_phnum, e_shnum, sizeof_shdr, sh_type, sh_offset, sh_size, sh_link, sizeof_sym,
  st_name, sizeof_rel, r_sym, sht_rel, sht_dynsym, sizeof_phdr, p_type, p_vaddr, p_flags,
}

-- `lop_get_section_by_type`.
unfoldable pub get_section_by_type : Mem → (base type' : ℕ) → Option ℕ
get_section_by_type m base type' =
    scan sizeof_shdr (λ current. type' == sh_type m current) (e_shnum m base)
      (base + e_shoff m base)

-- `lop_get_section_dynstr_tab`.
abbrev pub get_section_dynstr_tab : Mem → (base dyn : ℕ) → ℕ
get_section_dynstr_tab m base dyn = base + e_shoff m base + sh_link m dyn * sizeof_shdr

-- The inner loop of `lop_find_rel_by_sym`, over the relocations of one section.
unfoldable pub find_rel_in : Mem → (ehdr ind iter : ℕ) → Option ℕ
find_rel_in m ehdr ind iter =
    scan sizeof_rel (λ current. r_sym m current == ind) (sh_offset m iter / sizeof_rel)
      (ehdr + sh_offset m iter)

-- `lop_find_rel_by_sym`.
unfoldable pub find_rel_by_sym : Mem → (ehdr shdr sind ind : ℕ) → Option ℕ
unfolding find_rel_in
find_rel_by_sym m ehdr shdr sind ind =
    scan_in sizeof_shdr
      (λ iter.
        if (sh_type m iter == sht_rel) && (sind == sh_link m iter)
        then find_rel_in m ehdr ind iter
        else none)
      (e_shnum m ehdr) shdr

-- `lop_get_dynsym_by_name`.
unfoldable pub get_dynsym_by_name : Mem → (base : ℕ) (same : ℕ → Bool) → Option ℕ
unfolding get_section_by_type
get_dynsym_by_name m base same = elim (get_section_by_type m base sht_dynsym) [
  | none ↦ none
  | some dyn ↦
      let str = get_section_dynstr_tab m base dyn in
      scan sizeof_sym (λ currsym. same (base + sh_offset m str + st_name m currsym))
        (sh_size m dyn / sizeof_sym) (base + sh_offset m dyn * sizeof_sym)
]

-- `struct lop_dynsym`.
pub record Dynsym : Type 0 where
  pub sym' : ℕ
  pub rel : Option ℕ
  pub symname : ℕ

abbrev pub lop_max_dynsym : ℕ
lop_max_dynsym = 128

-- The loop of `lop_build_plt_table`, over the `rounds` symbols from number `i` on.
unfoldable pub plt_entries : Mem → (ehdr shdr sind name : ℕ) → (rounds i symbol : ℕ) → List Dynsym
plt_entries m ehdr shdr sind name zero i symbol = []
plt_entries m ehdr shdr sind name (suc rounds) i symbol =
    record {
      sym' = symbol;
      rel = find_rel_by_sym m ehdr shdr sind i;
      symname = name + st_name m symbol;
    }
    ∷ plt_entries m ehdr shdr sind name rounds (i + 1) (symbol + sizeof_sym)

-- `lop_build_plt_table`: the entries of `lop_plt` that it fills, and what it returns.
-- `lop_dynsym_count` is their number; it is at most 128, so it fits in its byte.
unfoldable pub build_plt_table : Mem → (ehdr shdr dyn str : ℕ) → List Dynsym × ℕ
unfolding plt_entries
build_plt_table m ehdr shdr dyn str =
    let num_sym = sh_size m dyn / sizeof_sym in
    let rounds = if ltb num_sym lop_max_dynsym then num_sym else lop_max_dynsym in
    let plt =
      plt_entries m ehdr shdr ((dyn - shdr) / sizeof_shdr) (ehdr + sh_offset m str) rounds 0
        (ehdr + sh_offset m dyn) in
    (plt, if length plt == 0 then 1 else 0)

-- `nb_affect`, `lop_textvaddr` and `lop_datavaddr`.
pub record Segs : Type 0 where
  pub nb_affect : ℕ
  pub textvaddr : ℕ
  pub datavaddr : ℕ

-- The body of the loop.
unfoldable pub affect : Mem → ℕ → Segs → Segs
affect m current s =
    if p_type m current == 1
    then if not (bit_and (p_flags m current) 1 == 0)
      then record s { nb_affect = s.nb_affect + 1; textvaddr = p_vaddr m current }
      else if not (bit_and (p_flags m current) 2 == 0)
      then record s { nb_affect = s.nb_affect + 1; datavaddr = p_vaddr m current }
      else s
    else s

-- The loop; its counter `i` is a byte, and fuel bounds its rounds.
unfoldable pub segment_loop : Mem → ℕ → (phnum i current : ℕ) → Segs → Option Segs
unfolding affect
segment_loop m zero phnum i current s = none
segment_loop m (suc fuel) phnum i current s =
    let rest =
      segment_loop m fuel phnum ((i + 1) % 256) (current + sizeof_phdr) (affect m current s) in
    if ltb i phnum && ltb s.nb_affect 2 then rest else some s

-- `lop_read_segment_info`, with the segments and what it returns.
unfoldable pub read_segment_info : Mem → ℕ → (ehdr phdr : ℕ) → Segs → Option (Segs × ℕ)
unfolding segment_loop
read_segment_info m fuel ehdr phdr s = elim (segment_loop m fuel (e_phnum m ehdr) 0 phdr s) [
  | none ↦ none
  | some t ↦ some (t, if t.nb_affect == 2 then 0 else 1)
]

-- `lop_read_dynsym_section`: `none` is `exit(1)` without a section of dynamic symbols.
unfoldable pub read_dynsym_section : Mem → (ehdr shdr : ℕ) → Option (List Dynsym × ℕ)
read_dynsym_section m ehdr shdr = elim (get_section_by_type m ehdr sht_dynsym) [
  | none ↦ none
  | some dyn ↦ some (build_plt_table m ehdr shdr dyn (get_section_dynstr_tab m ehdr dyn))
]

-- `struct lop_info`.
pub record LopInfo : Type 0 where
  pub ehdr : ℕ
  pub phdr : ℕ
  pub shdr : ℕ
  pub segs : Segs
  pub plt : List Dynsym

-- `lop_init_info` ends with the information, ends the process, or its fuel is out.
pub data InitInfo : Type 0 where
  filled : LopInfo → InitInfo
  exited : InitInfo
  out_of_fuel : InitInfo

unfoldable pub init_info : Mem → ℕ → (base : ℕ) → InitInfo
init_info m fuel base =
    let phdr = base + e_phoff m base in
    let shdr = base + e_shoff m base in
    elim (read_segment_info m fuel base phdr
      (record { nb_affect = 0; textvaddr = 0; datavaddr = 0 })) [
        | none ↦ out_of_fuel
        | some (s, ret) ↦
            if not (ret == 0) then exited else (elim (read_dynsym_section m base shdr) [
              | none ↦ exited
              | some (plt, ret') ↦
                  if not (ret' == 0)
                  then exited
                  else (filled
                      (record { ehdr = base; phdr = phdr; shdr = shdr; segs = s; plt = plt }))
            ])
      ]
