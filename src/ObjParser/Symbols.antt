-- ===== src/ObjParser/Symbols.antt =====
-- got_modifier/linux_obj_parser.c: the table of dynamic symbols, and the search for a symbol's name.
use divers.Base.{
  ℕ, zero, suc, ◌+◌, ◌-◌, ◌*◌, ◌/◌, ◌<◌, ◌≡◌, refl, ap, subst, sym, ◌∙◌, ◌⊎◌, inl, inr, Bool, true,
  ltb, ◌==◌, if◌then◌else◌, Option, none, some, length, get_elem?, arith, min,
}
use divers.Memory.{Mem}
use divers.Elf.{scan}
use divers.Elf.First.{IsFirst, scan-IsFirst}
use divers.ObjParser.{
  Dynsym, plt_entries, build_plt_table, find_rel_by_sym, st_name, sizeof_sym, sizeof_shdr, sh_size,
  sh_offset, lop_max_dynsym, e_shnum, e_shoff, sh_type, sht_dynsym, get_section_by_type,
  get_section_dynstr_tab, get_dynsym_by_name,
}
use divers.ObjParser.Sections.{get_section_by_type-IsFirst}

-- What the table holds for symbol number `i` of a section.
abbrev pub plt_entry : Mem → (ehdr shdr dyn str i : ℕ) → Dynsym
plt_entry m ehdr shdr dyn str i = record {
  sym' = ehdr + sh_offset m dyn + i * sizeof_sym;
  rel = find_rel_by_sym m ehdr shdr ((dyn - shdr) / sizeof_shdr) i;
  symname = ehdr + sh_offset m str + st_name m (ehdr + sh_offset m dyn + i * sizeof_sym);
}

pub plt-length :
    (m : Mem) (ehdr shdr sind name n i p : ℕ) → length (plt_entries m ehdr shdr sind name n i p) ≡ n
unfolding plt_entries
plt-length m ehdr shdr sind name zero i p = refl
plt-length m ehdr shdr sind name (suc n) i p =
    ap suc (plt-length m ehdr shdr sind name n (i + 1) (p + sizeof_sym))

plt-at :
    (m : Mem) (ehdr shdr sind name n i p k : ℕ)
    → k < n
    → get_elem? (plt_entries m ehdr shdr sind name n i p) k
      ≡ some (record {
        sym' = p + k * sizeof_sym;
        rel = find_rel_by_sym m ehdr shdr sind (i + k);
        symname = name + st_name m (p + k * sizeof_sym);
      })
unfolding plt_entries
plt-at m ehdr shdr sind name zero i p k lt = absurd (omega arith)
plt-at m ehdr shdr sind name (suc n) i p zero lt =
    let e : p ≡ p + 0 * sizeof_sym = omega arith in
    let f : i ≡ i + 0 = omega arith in
    ap
      (λ q. some (record {
        sym' = q;
        rel = find_rel_by_sym m ehdr shdr sind i;
        symname = name + st_name m q;
      }))
      e
    ∙ ap
        (λ j. some (record {
          sym' = p + 0 * sizeof_sym;
          rel = find_rel_by_sym m ehdr shdr sind j;
          symname = name + st_name m (p + 0 * sizeof_sym);
        }))
        f
plt-at m ehdr shdr sind name (suc n) i p (suc k) lt =
    let e : p + sizeof_sym + k * sizeof_sym ≡ p + suc k * sizeof_sym = omega arith in
    let f : i + 1 + k ≡ i + suc k = omega arith in
    plt-at m ehdr shdr sind name n (i + 1) (p + sizeof_sym) k (omega arith)
    ∙ ap
        (λ q. some (record {
          sym' = q;
          rel = find_rel_by_sym m ehdr shdr sind (i + 1 + k);
          symname = name + st_name m q;
        }))
        e
    ∙ ap
        (λ j. some (record {
          sym' = p + suc k * sizeof_sym;
          rel = find_rel_by_sym m ehdr shdr sind j;
          symname = name + st_name m (p + suc k * sizeof_sym);
        }))
        f

-- `lop_build_plt_table` fills one entry for each symbol of the section up to 128, each with its symbol,
-- its name and its relocation, and returns 0 if and only if the section has a symbol.
pub build_plt_table-entries :
    (m : Mem) (ehdr shdr dyn str : ℕ)
    → (let (plt, ret) = build_plt_table m ehdr shdr dyn str in
        let count = min (sh_size m dyn / sizeof_sym) lop_max_dynsym in
        (length plt ≡ count)
        × ((i : ℕ) → i < count → get_elem? plt i ≡ some (plt_entry m ehdr shdr dyn str i))
        × (ret ≡ (if count == 0 then 1 else 0)))
unfolding build_plt_table
build_plt_table-entries m ehdr shdr dyn str =
    let num_sym = sh_size m dyn / sizeof_sym in
    let sind = (dyn - shdr) / sizeof_shdr in
    let name = ehdr + sh_offset m str in
    let p = ehdr + sh_offset m dyn in
    let rounds = if ltb num_sym lop_max_dynsym then num_sym else lop_max_dynsym in
    let count : rounds ≡ min num_sym lop_max_dynsym = ground arith in
    let len = plt-length m ehdr shdr sind name rounds 0 p ∙ count in
    (
      len,
      λ i lt.
          let zi : 0 + i ≡ i = omega arith in
          plt-at m ehdr shdr sind name rounds 0 p i (subst (λ c. i < c) (sym count) lt)
          ∙ ap
              (λ j. some (record {
                sym' = p + i * sizeof_sym;
                rel = find_rel_by_sym m ehdr shdr sind j;
                symname = name + st_name m (p + i * sizeof_sym);
              }))
              zi,
      ap (λ c. if c == 0 then 1 else 0) len,
    )

-- What `lop_get_dynsym_by_name` looks at: the symbols of the section `dyn`, in the place where it reads
-- them, and their names.
abbrev pub IsNamed : Mem → (base : ℕ) → (ℕ → Bool) → (dyn : ℕ) → Option ℕ → Type 0
IsNamed m base same dyn o =
    IsFirst
      (λ s. same (base + sh_offset m (get_section_dynstr_tab m base dyn) + st_name m s) ≡ true)
      sizeof_sym (sh_size m dyn / sizeof_sym) (base + sh_offset m dyn * sizeof_sym) o

-- `lop_get_dynsym_by_name` returns NULL if no section has the type SHT_DYNSYM; else it returns the first
-- symbol with the name, among those that it reads at `sh_offset` times sixteen behind the image's start.
pub get_dynsym_by_name-IsNamed :
    (m : Mem) (base : ℕ) (same : ℕ → Bool)
    → (((k : ℕ)
          → k < e_shnum m base
          → ¬ (sh_type m (base + e_shoff m base + k * sizeof_shdr) ≡ sht_dynsym))
        × (get_dynsym_by_name m base same ≡ none))
      ⊎ ((dyn : ℕ) × IsFirst
            (λ x. sh_type m x ≡ sht_dynsym)
            sizeof_shdr
            (e_shnum m base)
            (base + e_shoff m base)
            (some dyn)
          × IsNamed m base same dyn (get_dynsym_by_name m base same))
unfolding get_dynsym_by_name
get_dynsym_by_name-IsNamed m base same =
    go (get_section_by_type m base sht_dynsym) (get_section_by_type-IsFirst m base sht_dynsym)
  where
    go :
        (o : Option ℕ)
        → IsFirst
            (λ x. sh_type m x ≡ sht_dynsym)
            sizeof_shdr
            (e_shnum m base)
            (base + e_shoff m base)
            o
        → (let r : Option ℕ = elim o [
          | none ↦ none
          | some dyn ↦
              scan sizeof_sym
                (λ s. same (base + sh_offset m (get_section_dynstr_tab m base dyn) + st_name m s))
                (sh_size m dyn / sizeof_sym)
                (base + sh_offset m dyn * sizeof_sym)
        ] in
            (((k : ℕ)
                → k < e_shnum m base
                → ¬ (sh_type m (base + e_shoff m base + k * sizeof_shdr) ≡ sht_dynsym))
              × (r ≡ none))
            ⊎ ((dyn : ℕ) × IsFirst
                  (λ x. sh_type m x ≡ sht_dynsym)
                  sizeof_shdr
                  (e_shnum m base)
                  (base + e_shoff m base)
                  (some dyn)
                × IsNamed m base same dyn r))
    go none h = inl (h, refl)
    go (some dyn) h = inr (dyn, h, scan-IsFirst _ sizeof_sym _ (λ x. (λ e. e, λ e. e)) _ _)
