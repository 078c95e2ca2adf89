-- ===== src/SymResolver/Program.antt =====
-- sym_resolv/test.c: a program that asks for five addresses and one name. The addresses of its functions are
-- parameters, and so is the memory of its five results before they are written; the times that it prints are left
-- out.
use divers.Base.{
  ℕ, ◌+◌, ◌≡◌, refl, ap, inl, inr, ◌⊎◌, Bool, Option, none, some, List, [], ◌∷◌, ◌++◌, ◌==◌, ==_iff,
  if◌then◌else◌, Option-cases,
}
use divers.Memory.{Mem}
use divers.Elf.Class32.{st_value, st_size}
use divers.Resources.{Held, descriptor, ◌>>=◌}
use divers.SymResolver.{SymDesc, SymResolv, Files, open', close, resolve_addr, symbol}
use divers.SymResolver.Open.{IsOpened, open-IsOpened}
use divers.SymResolver.Lookup.{AreResolved, resolve_addr-AreResolved}

-- What is printed; a name that `dladdr` gives is an address.
pub data Line : Type 0 where
  unable : Line
  searched : (un : ℕ) (res : SymResolv) → Line
  finds : (un saddr sname : ℕ) → Line
  not_found : (un : ℕ) → Line
  value : (value size info : ℕ) → Line

-- `un`, with the address that `f1` has left in `toto`.
abbrev pub un : (f1 malloc sym_resolv_addr toto : ℕ) → List ℕ
un f1 malloc sym_resolv_addr toto = f1 ∷ (f1 + 5) ∷ malloc ∷ sym_resolv_addr ∷ toto ∷ []

-- Each address with its result; `res i` is what the results hold before.
abbrev pub with_results : (res : ℕ → SymResolv) → (i : ℕ) → List ℕ → List (ℕ × SymResolv)
with_results res i [] = []
with_results res i (a ∷ rest) = (a, res i) ∷ with_results res (i + 1) rest

-- The two loops that print.
unfoldable pub searches : List ℕ → List SymResolv → List Line
searches (a ∷ rest) (r ∷ rs) = searched a r ∷ searches rest rs
searches _ _ = []

unfoldable pub dladdrs : (dladdr : ℕ → Option (ℕ × ℕ)) → List ℕ → List Line
dladdrs dladdr [] = []
dladdrs dladdr (a ∷ rest) =
    let line : Line = elim (dladdr a) [
      | none ↦ not_found a
      | some (sname, saddr) ↦ finds a saddr sname
    ] in
    line ∷ dladdrs dladdr rest

unfoldable pub symbol_line : Mem → Option ℕ → List Line
symbol_line m none = []
symbol_line m (some p) = value (st_value m p) (st_size m p) (m (p + 12)) ∷ []

-- What surrounds the program.
pub record Setting : Type 0 where
  pub symtab : ℕ → Bool
  pub strtab : ℕ → Bool
  pub is_toto : ℕ → Bool
  pub pid : ℕ
  pub files : Files
  pub dladdr : ℕ → Option (ℕ × ℕ)
  pub addresses : List ℕ
  pub old_desc : SymDesc
  pub old_res : ℕ → SymResolv

-- What `main` prints when the file is open.
unfoldable pub printed : Setting → SymDesc → List Line
unfolding searches dladdrs symbol_line resolve_addr symbol
printed s d =
    let m = s.files.bytes in
    let res = resolve_addr m d s.dladdr (with_results s.old_res 0 s.addresses) in
    searches s.addresses res
    ++ (dladdrs s.dladdr s.addresses ++ symbol_line m (symbol m d s.is_toto))

abbrev with_held : List Line → Held → Option (List Line × Held)
with_held out held = some (out, held)

-- `main`.
unfoldable pub main : Setting → Held → Option (List Line × Held)
unfolding printed open' close
main s held = open' s.symtab s.strtab s.pid s.files s.old_desc held >>= λ (r : ℕ × SymDesc × Held).
    if r.0 == 0
    then (close r.1 r.2 >>= λ h. with_held (printed s r.1) h)
    else with_held (unable ∷ []) r.2

-- The program has nothing more than before, except for a file that was opened as descriptor 0; if it could open its
-- file, each printed result is what is promised of its address.
abbrev pub IsDone : Setting → Held → Option (List Line × Held) → Type 0
IsDone s held o =
    let m = s.files.bytes in
    ((d : SymDesc) × (symtab : ℕ) × (strtab : ℕ) × (news : List SymResolv) × AreResolved m d symtab
        strtab s.dladdr (with_results s.old_res 0 s.addresses) news
      × (o
          ≡ some (
            searches s.addresses news
                ++ (dladdrs s.dladdr s.addresses ++ symbol_line m (symbol m d s.is_toto)),
            held,
          )))
    ⊎ (o ≡ some (unable ∷ [], held))
    ⊎ ((s.files.opened ≡ some 0) × (o ≡ some (unable ∷ [], descriptor 0 ∷ held)))

module _ (s : Setting) (held : Held) where
  opened-IsDone :
      (r : Option (ℕ × SymDesc × Held))
      → open' s.symtab s.strtab s.pid s.files s.old_desc held ≡ r
      → IsOpened s.symtab s.strtab s.files held r
      → IsDone s held (main s held)
  unfolding main printed
  opened-IsDone none e i = absurd i
  opened-IsDone (some (ret, d, h)) e (inl (z, _, _, c, t, n)) = elim (Option-cases d.shdrsymtab) [
    | inl missing ↦ absurd (t missing)
    | inr (symtab, has_symtab) ↦ elim (Option-cases d.shdrstrsymtab) [
      | inl missing ↦ absurd (n missing)
      | inr (strtab, has_strtab) ↦ inl (
        d,
        symtab,
        strtab,
        _,
        resolve_addr-AreResolved s.files.bytes d symtab strtab s.dladdr has_symtab has_strtab
            (with_results s.old_res 0 s.addresses),
        simp (e, (==_iff ret 0).1 z, c) refl,
      )
    ]
  ]
  opened-IsDone (some (ret, d, h)) e (inr (inl (o, k, _))) =
      inr (inl (simp (e, o) (ap (λ b. some (unable ∷ [], b)) k)))
  opened-IsDone (some (ret, d, h)) e (inr (inr (o, z, k))) =
      inr (inr (z, simp (e, o) (ap (λ b. some (unable ∷ [], b)) k)))

-- The program ends, whatever the system answers, and gives back what it took, except for a file that was opened as
-- descriptor 0; if it could open its file, it prints for each of its addresses the first symbol that covers it, what
-- `dladdr` knows where there is none, and an empty name where that knows none.
pub main-IsDone : (s : Setting) (held : Held) → IsDone s held (main s held)
main-IsDone s held =
    opened-IsDone s held _ refl (open-IsOpened s.symtab s.strtab s.pid s.files s.old_desc held)
