-- ===== src/ObjParser/Display.antt =====
-- got_modifier/linux_obj_parser.c: `lop_display`, by what it prints. A text is its address, 0 for the empty one that
-- is printed in place of NULL.
use divers.Base.{
  ℕ, zero, suc, ◌+◌, ◌%◌, ◌≤◌, ◌<◌, ◌≡◌, refl, ap, sym, ◌∙◌, subst, inl, inr, Option, none, some,
  List, [], ◌∷◌, map, length, drop, get_elem?, ltb, ltb→lt, ltb→ge, Bool-cases, if◌then◌else◌,
  arith,
}
use divers.Memory.{Mem, load}
use divers.Resources.{◌>>=◌}
use divers.Elf.Class32.{st_value}
use divers.ObjParser.Info.{init_info-IsInfo}
use divers.ObjParser.{
  Dynsym, LopInfo, init_info, InitInfo, out_of_fuel, filled, exited, e_phnum, lop_max_dynsym,
}

-- The line of an entry of `lop_plt`.
pub record PltLine : Type 0 where
  pub name : ℕ
  pub type' : ℕ
  pub value : ℕ
  pub visibility : ℕ
  pub offset : ℕ

pub record Shown : Type 0 where
  pub ehdr : ℕ
  pub shdr : ℕ
  pub phdr : ℕ
  pub text : ℕ
  pub data' : ℕ
  pub count : ℕ
  pub lines : List PltLine

-- `lop_plt[i].lop_rel ? lop_plt[i].lop_rel->r_offset : 0`.
abbrev pub offset_of : Mem → Option ℕ → ℕ
offset_of m none = 0
offset_of m (some rel) = load 4 m rel

abbrev pub plt_line : Mem → Dynsym → PltLine
plt_line m e = record {
  name = e.symname;
  type' = load 1 m (e.sym' + 12);
  value = st_value m e.sym';
  visibility = load 1 m (e.sym' + 13);
  offset = offset_of m e.rel;
}

-- The loop; its counter is a byte, and fuel bounds its rounds. The entries from number `i` on are given with it.
unfoldable pub display_loop : Mem → (fuel count i : ℕ) → (plt : List Dynsym) → Option (List PltLine)
display_loop m zero count i plt = none
display_loop m (suc fuel) count i plt =
    let rest = display_loop m fuel count ((i + 1) % 256) plt in
    if ltb i count
    then (get_elem? plt i >>= λ e. rest >>= λ ls. some (plt_line m e ∷ ls))
    else some []

-- All that is printed, with the lines of the table.
abbrev pub shown : LopInfo → List PltLine → Shown
shown info lines = record {
  ehdr = info.ehdr;
  shdr = info.shdr;
  phdr = info.phdr;
  text = info.segs.textvaddr;
  data' = info.segs.datavaddr;
  count = length info.plt;
  lines = lines;
}

-- `lop_display`.
unfoldable pub display : Mem → (fuel : ℕ) → LopInfo → Option Shown
unfolding display_loop
display m fuel info =
    display_loop m fuel (length info.plt) 0 info.plt >>= λ lines. some (shown info lines)

get_elem?-drop :
    (i : ℕ) (xs : List Dynsym)
    → i < length xs
    → (x : Dynsym) × (get_elem? xs i ≡ some x) × (drop i xs ≡ x ∷ drop (suc i) xs)
get_elem?-drop i [] lt = absurd (omega arith)
get_elem?-drop zero (x ∷ xs) lt = (x, refl, refl)
get_elem?-drop (suc i) (x ∷ xs) lt = get_elem?-drop i xs (omega arith)

drop-all : (i : ℕ) (xs : List Dynsym) → length xs ≤ i → drop i xs ≡ []
drop-all zero [] le = refl
drop-all (suc i) [] le = refl
drop-all zero (x ∷ xs) le = absurd (omega arith)
drop-all (suc i) (x ∷ xs) le = drop-all i xs (omega arith)

loop-lines :
    (m : Mem) (fuel i : ℕ) (plt : List Dynsym)
    → length plt ≤ lop_max_dynsym
    → i ≤ length plt
    → length plt < i + fuel
    → display_loop m fuel (length plt) i plt ≡ some (map (plt_line m) (drop i plt))
unfolding display_loop
loop-lines m zero i plt small le enough = absurd (omega arith)
loop-lines m (suc fuel) i plt small le enough = elim (Bool-cases (ltb i (length plt))) [
  | inl t ↦
      let (x, at, e) = get_elem?-drop i plt (ltb→lt i (length plt) t) in
      let wraps_not : (i + 1) % 256 ≡ suc i = omega (arith, ltb→lt i (length plt) t) in
      rw (t, wraps_not, at, e)
        (rw
          (loop-lines m fuel (suc i) plt small (omega (arith, ltb→lt i (length plt) t))
            (omega arith))
          refl)
  | inr f ↦ rw (f, drop-all i plt (ltb→ge i (length plt) f)) refl
]

abbrev info_of : LopInfo → InitInfo → LopInfo
info_of d (filled info) = info
info_of d exited = d
info_of d out_of_fuel = d

-- Of the information that `lop_init_info` gives of an image with fewer than 256 program headers, `lop_display` ends and
-- prints one line for each symbol of the table, in its order.
pub display-lines :
    (m : Mem) (base fuel : ℕ) (info : LopInfo)
    → e_phnum m base < 256
    → e_phnum m base < fuel
    → lop_max_dynsym < fuel
    → init_info m fuel base ≡ filled info
    → display m fuel info ≡ some (shown info (map (plt_line m) info.plt))
unfolding display
display-lines m base fuel info small enough rounds e =
    elim (init_info-IsInfo m base fuel small enough) [
      | inl (exits, _) ↦ absurd (grind (arith, exits, e))
      | inr (info', e', (_, _, _, _, _, (_, _, (count, _, _)))) ↦
          let same : info' ≡ info = ap (info_of info) (sym e' ∙ e) in
          let le : length info.plt ≤ lop_max_dynsym =
            subst (λ (i : LopInfo). length i.plt ≤ lop_max_dynsym) same (omega (arith, count)) in
          rw (loop-lines m fuel 0 info.plt le (omega arith) (omega arith)) refl
    ]
