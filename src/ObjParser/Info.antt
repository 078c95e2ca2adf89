-- ===== src/ObjParser/Info.antt =====
-- got_modifier/linux_obj_parser.c: what `lop_init_info` gives.
use divers.Base.{
  List, Option, true, false, length, get_elem?, min, ◌-◌, ◌*◌, ◌/◌, arith, ℕ, ◌+◌, ◌<◌, ◌≡◌, ◌≢◌,
  refl, ◌⊎◌, inl, inr, Bool-cases, Option-cases, none, some, ◌==◌, ==_iff, ==→ne, take,
}
use divers.Memory.{Mem}
use divers.Elf.First.{IsFirst, IsFirstIn}
use divers.ObjParser.Sections.{
  IsLinkedRel, IsRelOf, get_section_by_type-IsFirst, find_rel_by_sym-IsFirstIn,
}
use divers.ObjParser.Symbols.{build_plt_table-entries}
use divers.ObjParser.{
  Dynsym, find_rel_by_sym, sh_type, sh_size, sh_offset, sh_link, sizeof_sym, sizeof_shdr, st_name,
  e_shnum, lop_max_dynsym, Segs, LopInfo, filled, exited, init_info, read_dynsym_section,
  get_section_by_type, build_plt_table, get_section_dynstr_tab, sht_dynsym, e_phoff, e_shoff,
  e_phnum,
}
use divers.ObjParser.Segments.{assign, kinds, read_segment_info-take}

abbrev pub no_segs : Segs
no_segs = record { nb_affect = 0; textvaddr = 0; datavaddr = 0 }

-- The first 128 symbols of the section `dyn`, each with its name and its relocation, at least one.
abbrev pub IsTable : Mem → (base dyn : ℕ) → List Dynsym → Type 0
IsTable m base dyn plt =
    (length plt ≡ min (sh_size m dyn / sizeof_sym) lop_max_dynsym)
    × (0 < length plt)
    × ((i : ℕ)
        → i < length plt
        → (rel : Option ℕ) × (get_elem? plt i
            ≡ some (record {
              sym' = base + sh_offset m dyn + i * sizeof_sym;
              rel = rel;
              symname =
                  base
                  + sh_offset m (base + e_shoff m base + sh_link m dyn * sizeof_shdr)
                  + st_name m (base + sh_offset m dyn + i * sizeof_sym);
            }))
          × IsFirstIn (IsLinkedRel m ((dyn - (base + e_shoff m base)) / sizeof_shdr))
              (IsRelOf m base i) sizeof_shdr (e_shnum m base) (base + e_shoff m base) rel)

abbrev pub IsDynsym : Mem → (base : ℕ) → Option ℕ → Type 0
IsDynsym m base o =
    IsFirst (λ x. sh_type m x ≡ sht_dynsym) sizeof_shdr (e_shnum m base) (base + e_shoff m base) o

-- The information of an image: where its headers stand, the addresses of its first two fitting segments, and the table
-- of the first section of dynamic symbols.
abbrev pub IsInfo : Mem → (base : ℕ) → LopInfo → Type 0
IsInfo m base info =
    (info.ehdr ≡ base)
    × (info.phdr ≡ base + e_phoff m base)
    × (info.shdr ≡ base + e_shoff m base)
    × (info.segs ≡ assign (take 2 (kinds m (e_phnum m base) (base + e_phoff m base))) no_segs)
    × (info.segs.nb_affect ≡ 2)
    × ((dyn : ℕ) × IsDynsym m base (some dyn) × IsTable m base dyn info.plt)

-- An image without such information: two fitting segments, or a section of dynamic symbols, or symbols in
-- the first such section are missing.
abbrev pub IsRefused : Mem → (base : ℕ) → Type 0
IsRefused m base =
    ((assign (take 2 (kinds m (e_phnum m base) (base + e_phoff m base))) no_segs).nb_affect ≢ 2)
    ⊎ IsDynsym m base none
    ⊎ ((dyn : ℕ) × IsDynsym m base (some dyn) × (sh_size m dyn / sizeof_sym ≡ 0))

build_plt_table-IsTable :
    (m : Mem) (base dyn : ℕ)
    → (let (plt, ret) =
          build_plt_table m base (base + e_shoff m base) dyn (get_section_dynstr_tab m base dyn) in
        ((ret == 0) ≡ true → IsTable m base dyn plt)
        × ((ret == 0) ≡ false → sh_size m dyn / sizeof_sym ≡ 0))
build_plt_table-IsTable m base dyn =
    let shdr = base + e_shoff m base in
    let str = get_section_dynstr_tab m base dyn in
    let n = sh_size m dyn / sizeof_sym in
    let (len, at, ret) = build_plt_table-entries m base shdr dyn str in
    (
      λ ok.
          let filled : 0 < min n lop_max_dynsym = elim (Bool-cases (min n lop_max_dynsym == 0)) [
            | inl z ↦ absurd (grind (arith, rw (ret, z) at ok))
            | inr nz ↦ omega (arith, ==→ne (min n lop_max_dynsym) 0 nz)
          ] in
          (
            len,
            omega (arith, len, filled),
            λ i lt. (
              find_rel_by_sym m base shdr ((dyn - shdr) / sizeof_shdr) i,
              at i (omega (arith, len, lt)),
              find_rel_by_sym-IsFirstIn m base shdr ((dyn - shdr) / sizeof_shdr) i,
            ),
          ),
      λ bad. elim (Bool-cases (min n lop_max_dynsym == 0)) [
        | inl z ↦ omega (arith, (==_iff (min n lop_max_dynsym) 0).0 z)
        | inr nz ↦ absurd (grind (arith, rw (ret, nz) at bad))
      ],
    )

-- On an image with fewer than 256 program headers and fuel for each and one more, `lop_init_info` ends: the
-- process is ended, and two segments or the dynamic symbols are missing; or the information is that of
-- the image: where its headers stand, the addresses of its two segments, and the first 128 dynamic symbols, at least
-- one, each with its name and its relocation.
pub init_info-IsInfo :
    (m : Mem) (base fuel : ℕ)
    → e_phnum m base < 256
    → e_phnum m base < fuel
    → ((init_info m fuel base ≡ exited) × IsRefused m base)
      ⊎ ((info : LopInfo) × (init_info m fuel base ≡ filled info) × IsInfo m base info)
unfolding init_info read_dynsym_section
init_info-IsInfo m base fuel small lt =
    let phdr = base + e_phoff m base in
    let t = assign (take 2 (kinds m (e_phnum m base) phdr)) no_segs in
    let read = read_segment_info-take m base phdr fuel no_segs refl small lt in
    elim (Bool-cases (t.nb_affect == 2)) [
      | inr f ↦ inl (rw (read, init_info) (rw f refl), inl (==→ne t.nb_affect 2 f))
      | inl two ↦ elim (Option-cases (get_section_by_type m base sht_dynsym)) [
        | inl n ↦ inl (
          rw (read, init_info) (rw (two, n, read_dynsym_section) refl),
          inr (inl (rw n at (get_section_by_type-IsFirst m base sht_dynsym))),
        )
        | inr (dyn, e) ↦
            let built =
              build_plt_table m base (base + e_shoff m base) dyn
                (get_section_dynstr_tab m base dyn) in
            let first = rw e at (get_section_by_type-IsFirst m base sht_dynsym) in
            elim (Bool-cases (built.1 == 0)) [
              | inr f ↦ inl (
                rw (read, init_info) (rw (two, e, read_dynsym_section) (rw f refl)),
                inr (inr (dyn, first, (build_plt_table-IsTable m base dyn).1 f)),
              )
              | inl ok ↦ inr (
                record {
                  ehdr = base;
                  phdr = phdr;
                  shdr = base + e_shoff m base;
                  segs = t;
                  plt = built.0;
                },
                rw (read, init_info) (rw (two, e, read_dynsym_section) (rw ok refl)),
                (
                  refl,
                  refl,
                  refl,
                  refl,
                  (==_iff t.nb_affect 2).0 two,
                  (dyn, first, (build_plt_table-IsTable m base dyn).0 ok),
                ),
              )
            ]
      ]
    ]
