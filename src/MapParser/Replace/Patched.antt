-- ===== src/MapParser/Replace/Patched.antt =====
-- got_modifier/map_parser.c: which word of the traced program is replaced, and by what.
use divers.Base.{
  ℕ, ◌+◌, ◌%◌, ◌^◌, ◌≡◌, refl, ◌∙◌, ◌⊎◌, inl, inr, Bool, true, false, Bool-cases, Option, none,
  some, List, [], ◌∷◌, arith, if◌then◌else◌,
}
use divers.Memory.{Mem, load, SameOutside, load-store_self, store-outside}
use divers.Elf.Class32.{st_value}
use divers.ObjParser.{Dynsym}
use divers.Injector.{Tracee}
use divers.MapParser.Replace.{is_named, find_rel, find_sym, r_offset, replace_virtual_addrfunc}

-- Entry `e` stands at some place of the table, has the name, and no entry before it has; or none has it.
pub data First (same : ℕ → Bool) : List Dynsym → Option Dynsym → Type 0 where
  missing : First same [] none
  here : {e : Dynsym} {es : List Dynsym} → is_named same e ≡ true → First same (e ∷ es) (some e)
  later :
      {e : Dynsym} {es : List Dynsym} {o : Option Dynsym}
      → is_named same e ≡ false
      → First same es o
      → First same (e ∷ es) o

-- The same for the last entry with the name.
pub data Last (same : ℕ → Bool) : List Dynsym → Option Dynsym → Type 0 where
  missing : Last same [] none
  behind :
      {e e' : Dynsym} {es : List Dynsym} → Last same es (some e') → Last same (e ∷ es) (some e')
  here :
      {e : Dynsym} {es : List Dynsym}
      → is_named same e ≡ true
      → Last same es none
      → Last same (e ∷ es) (some e)
  later :
      {e : Dynsym} {es : List Dynsym}
      → is_named same e ≡ false
      → Last same es none
      → Last same (e ∷ es) none

-- The relocation of an entry that may be missing.
abbrev pub rel_of : Option Dynsym → Option ℕ
rel_of none = none
rel_of (some e) = e.rel

abbrev pub sym_of : Option ℕ → Option Dynsym → Option ℕ
sym_of o none = o
sym_of o (some e) = some e.sym'

find_rel-First :
    (same : ℕ → Bool) (es : List Dynsym)
    → (o : Option Dynsym) × First same es o × (find_rel same es ≡ rel_of o)
unfolding find_rel
find_rel-First same [] = (none, First.missing, refl)
find_rel-First same (e ∷ es) = elim (Bool-cases (is_named same e)) [
  | inl t ↦ (some e, First.here t, rw t)
  | inr f ↦ let (o, h, q) = find_rel-First same es in (o, First.later f h, rw f q)
]

find_sym-Last :
    (same : ℕ → Bool) (es : List Dynsym) (acc : Option ℕ)
    → (o : Option Dynsym) × Last same es o × (find_sym same es acc ≡ sym_of acc o)
unfolding find_sym
find_sym-Last same [] acc = (none, Last.missing, refl)
find_sym-Last same (e ∷ es) acc =
    go (is_named same e) refl (find_sym-Last same es (if is_named same e then some e.sym' else acc))
  where
    go :
        (b : Bool)
        → is_named same e ≡ b
        → ((o : Option Dynsym) × Last same es o
            × (find_sym same es (if is_named same e then some e.sym' else acc)
                ≡ sym_of (if is_named same e then some e.sym' else acc) o))
        → (o : Option Dynsym) × Last same (e ∷ es) o
          × (find_sym same es (if is_named same e then some e.sym' else acc) ≡ sym_of acc o)
    go true t (none, l, q) = (some e, Last.here t l, q ∙ rw t)
    go false f (none, l, q) = (none, Last.later f l, q ∙ rw f)
    go b t (some e', l, q) = (some e', Last.behind l, q)

-- With both entries found and the process attached, one word is replaced; else nothing is.
abbrev pub IsReplaced :
    (attached : Bool) (m1 m2 : Mem) (o1 o2 : Option Dynsym) (lib_vaddr : ℕ)
    → Tracee
    → Tracee
    → Type 0
IsReplaced attached m1 m2 o1 o2 lib_vaddr t t' =
    ((rel : ℕ) × (e : Dynsym) × (rel_of o1 ≡ some rel)
      × (o2 ≡ some e)
      × (attached ≡ true)
      × (load 4 t'.mem (r_offset m1 rel) ≡ (lib_vaddr + st_value m2 e.sym') % 2 ^ 32)
      × SameOutside (r_offset m1 rel) 4 t.mem t'.mem
      × (t'.regs ≡ t.regs))
    ⊎ ((t' ≡ t) × ((rel_of o1 ≡ none) ⊎ (o2 ≡ none) ⊎ (attached ≡ false)))

replaced :
    (same1 same2 : ℕ → Bool) (attached : Bool) (m1 m2 : Mem) (plt1 plt2 : List Dynsym)
    (lib_vaddr : ℕ) (t : Tracee) (r : Option ℕ) (o1 o2 : Option Dynsym)
    → find_rel same1 plt1 ≡ r
    → rel_of o1 ≡ r
    → find_sym same2 plt2 none ≡ sym_of none o2
    → IsReplaced attached m1 m2 o1 o2 lib_vaddr t
        (replace_virtual_addrfunc same1 same2 attached m1 m2 plt1 plt2 lib_vaddr t)
unfolding replace_virtual_addrfunc
replaced same1 same2 attached m1 m2 plt1 plt2 lib_vaddr t none o1 o2 q1 e q2 =
    rw (q1, replace_virtual_addrfunc) (inr (refl, inl e))
replaced same1 same2 attached m1 m2 plt1 plt2 lib_vaddr t (some rel) o1 none q1 e q2 =
    rw (q1, q2, replace_virtual_addrfunc) (inr (refl, inr (inl refl)))
replaced same1 same2 false m1 m2 plt1 plt2 lib_vaddr t (some rel) o1 (some s) q1 e q2 =
    rw (q1, q2, replace_virtual_addrfunc) (inr (refl, inr (inr refl)))
replaced same1 same2 true m1 m2 plt1 plt2 lib_vaddr t (some rel) o1 (some s) q1 e q2 =
    let new_val = (lib_vaddr + st_value m2 s.sym') % 2 ^ 32 in
    rw (q1, q2, replace_virtual_addrfunc)
      (inl (
        rel,
        s,
        e,
        refl,
        refl,
        load-store_self 4 t.mem (r_offset m1 rel) new_val (omega arith),
        λ x out. store-outside 4 t.mem (r_offset m1 rel) new_val x out,
        refl,
      ))

module _ (same1 same2 : ℕ → Bool) (attached : Bool) (m1 m2 : Mem) (plt1 plt2 : List Dynsym)
    (lib_vaddr : ℕ) (t : Tracee) where
  -- `map_parser_replace_virtual_addrfunc` stores, at the place that the relocation of the first entry with
  -- the first name says, the library's address plus the value of the last entry with the second name,
  -- and changes no other byte and no register. If the first has no relocation, an entry is missing or
  -- the process cannot be attached, it changes nothing.
  pub replace-IsReplaced :
      (o1 : Option Dynsym) × (o2 : Option Dynsym) × First same1 plt1 o1
      × Last same2 plt2 o2
      × IsReplaced attached m1 m2 o1 o2 lib_vaddr t
          (replace_virtual_addrfunc same1 same2 attached m1 m2 plt1 plt2 lib_vaddr t)
  unfolding replace_virtual_addrfunc
  replace-IsReplaced =
      let (o1, first, q1) = find_rel-First same1 plt1 in
      let (o2, last, q2) = find_sym-Last same2 plt2 none in
      (
        o1,
        o2,
        first,
        last,
        replaced same1 same2 attached m1 m2 plt1 plt2 lib_vaddr t (rel_of o1) o1 o2 q1 refl q2,
      )
