-- ===== src/SigLooker/Report.antt =====
-- sig_looker/sig_look.c: what the handler reports and gives back, and how the program ends.
use Prim.Native.String.{String}
use divers.Base.{
  ℕ, suc, ◌≡◌, ◌≢◌, ◌≤◌, refl, sym, subst, ◌-◌, ap, ap₂, ◌∙◌, inl, inr, ◌⊎◌, Bool, true, false,
  Option, none, some, List, [], ◌∷◌, ◌++◌, map, Bool-cases, ◌==◌, if◌then◌else◌, ne→==, ==→ne,
  Option-cases, ==_iff, arith,
}
use divers.DbgPrint.{Printed, dbg_printf}
use divers.Resources.{Held, descriptor}
use divers.SymResolver.{SymDesc, open', close}
use divers.SymResolver.Open.{IsOpened, open-IsOpened}
use divers.SigLooker.{
  Text, signal, code_is, addr_access, sender, in_function, unable, registered, plop,
  sigsegvcode_itoa, System, Delivery, print, faulting, on_segv, Process, init, deliver, test, main,
}

-- Texts on a stream, the last first, if traces are shown.
abbrev pub reported : System → (stream : ℕ) → List Text → Printed Text → Printed Text
reported sys stream ts out = if sys.show_trace then map (λ t. (stream, t)) ts ++ out else out

-- The names of the codes of SIGSEGV.
abbrev pub IsCodeName : ℕ → String → Type 0
IsCodeName code name =
    ((code ≡ 1) × (name ≡ "addr_not_mapped"))
    ⊎ ((code ≡ 2) × (name ≡ "addr_not_allowed"))
    ⊎ ((code ≢ 1) × (code ≢ 2) × (name ≡ "code_unknown"))

-- The address that is looked up: register 14 of the context, or the caller where there is none or it is 0.
abbrev pub IsFaulting : Delivery → ℕ → Type 0
IsFaulting dl ptr =
    ((dl.context ≡ some ptr) × (ptr ≢ 0))
    ⊎ (((dl.context ≡ none) ⊎ (dl.context ≡ some 0)) × (ptr ≡ dl.return_address))

-- The four texts that do not need the program's file.
abbrev pub four : System → (signum : ℕ) → (code_name : String) → Delivery → List Text
four sys signum code_name dl =
    sender dl.info.si_pid
    ∷ addr_access dl.info.si_addr
    ∷ code_is code_name
    ∷ signal (sys.sys_siglist signum)
    ∷ []

-- The reports with a name for the code and an address.
abbrev pub IsReportOf :
    System
    → (signum : ℕ) → (code_name : String) → (ptr : ℕ) → Delivery
    → Printed Text
    → Held
    → Option (Printed Text × Held)
    → Type 0
IsReportOf sys signum code_name ptr dl out held o =
    let opening = open' sys.symtab sys.strtab sys.pid sys.files dl.old_desc held in
    ((d : SymDesc) × (h : Held) × (opening ≡ some (0, d, h))
      × (o
          ≡ some (
            reported sys sys.stderr
                (in_function (sys.get_funcname d ptr dl.old_res) ∷ four sys signum code_name dl)
                out,
            held,
          )))
    ⊎ ((d : SymDesc) × (opening ≡ some (1, d, held))
        × (o ≡ some (reported sys sys.stderr (four sys signum code_name dl) out, held)))
    ⊎ ((sys.files.opened ≡ some 0)
        × (o
            ≡ some
                (reported sys sys.stderr (four sys signum code_name dl) out, descriptor 0 ∷ held)))

-- What the handler promises: the four texts, and the function of the address if the program's file was opened; what
-- is held is as before, but for a file that was opened as descriptor 0.
abbrev pub IsReported :
    System → (signum : ℕ) → Delivery → Printed Text → Held → Option (Printed Text × Held) → Type 0
IsReported sys signum dl out held o =
    (code_name : String) × (ptr : ℕ) × IsCodeName dl.info.si_code code_name
    × IsFaulting dl ptr
    × IsReportOf sys signum code_name ptr dl out held o

sigsegvcode_itoa-IsCodeName : (code : ℕ) → IsCodeName code (sigsegvcode_itoa code)
unfolding sigsegvcode_itoa
sigsegvcode_itoa-IsCodeName code = elim (Bool-cases (code == 1)) [
  | inl t ↦ rw t (inl ((==_iff code 1).0 t, refl))
  | inr f ↦ elim (Bool-cases (code == 2)) [
    | inl t ↦ rw (f, t) (inr (inl ((==_iff code 2).0 t, refl)))
    | inr g ↦ rw (f, g) (inr (inr (==→ne code 1 f, ==→ne code 2 g, refl)))
  ]
]

faulting-IsFaulting : (dl : Delivery) → IsFaulting dl (faulting dl)
faulting-IsFaulting dl = elim (Option-cases dl.context) [
  | inl e ↦ rw e (inr (inl refl, refl))
  | inr (g, e) ↦ elim (Bool-cases (g == 0)) [
    | inl z ↦ rw (e, z) (inr (inr (ap some ((==_iff g 0).0 z)), refl))
    | inr nz ↦ rw (e, nz) (inl (refl, ==→ne g 0 nz))
  ]
]

print-reported :
    (sys : System) (stream : ℕ) (t : Text) (out : Printed Text)
    → stream ≢ 0
    → print sys stream t out ≡ reported sys stream (t ∷ []) out
unfolding print dbg_printf
print-reported sys stream t out ne = rw (ne→== stream 0 ne) refl

reported-cons :
    (sys : System) (stream : ℕ) (t : Text) (ts : List Text) (out : Printed Text)
    → stream ≢ 0
    → print sys stream t (reported sys stream ts out) ≡ reported sys stream (t ∷ ts) out
reported-cons sys stream t ts out ne =
    print-reported sys stream t (reported sys stream ts out) ne
    ∙ elim (Bool-cases sys.show_trace) [ inl e ↦ rw e refl | inr e ↦ rw e refl ]

module _ (sys : System) (signum : ℕ) (dl : Delivery) (out : Printed Text)
    (ne : sys.stderr ≢ 0) where
  -- The first four calls of `dbg_printf`.
  abbrev printed : Printed Text
  printed = print sys sys.stderr (sender dl.info.si_pid) (
      print sys sys.stderr (addr_access dl.info.si_addr) (
        print sys sys.stderr (code_is (sigsegvcode_itoa dl.info.si_code))
          (print sys sys.stderr (signal (sys.sys_siglist signum)) out)))

  printed-four :
      printed ≡ reported sys sys.stderr (four sys signum (sigsegvcode_itoa dl.info.si_code) dl) out
  unfolding print dbg_printf
  printed-four = elim (Bool-cases sys.show_trace) [
    | inl t ↦ rw (ne→== sys.stderr 0 ne, t) refl
    | inr f ↦ rw f refl
  ]

  module _ (held : Held) (ret : ℕ) (d : SymDesc) (h : Held)
      (e : open' sys.symtab sys.strtab sys.pid sys.files dl.old_desc held ≡ some (ret, d, h)) where
    on_segv-failed :
        (ret == 0) ≡ false
        → on_segv sys signum dl out held
          ≡ some (
            reported sys sys.stderr (four sys signum (sigsegvcode_itoa dl.info.si_code) dl) out,
            h,
          )
    unfolding on_segv
    on_segv-failed f = rw (e, f) (ap (λ o. some (o, h)) printed-four)

    on_segv-found :
        (ret == 0) ≡ true
        → close d h ≡ some held
        → on_segv sys signum dl out held
          ≡ some (
            reported sys sys.stderr
                (in_function (sys.get_funcname d (faulting dl) dl.old_res)
                  ∷ four sys signum (sigsegvcode_itoa dl.info.si_code) dl)
                out,
            held,
          )
    unfolding on_segv
    on_segv-found t c =
        let res = sys.get_funcname d (faulting dl) dl.old_res in
        rw (e, t, c)
          (ap (λ o. some (o, held))
            (ap (print sys sys.stderr (in_function res)) printed-four
              ∙ reported-cons sys sys.stderr (in_function res)
                  (four sys signum (sigsegvcode_itoa dl.info.si_code) dl) out ne))

-- The handler, by what the opening of the file gives.
opened-IsReportOf :
    (sys : System) (signum : ℕ) (dl : Delivery) (out : Printed Text) (held : Held)
    (r : Option (ℕ × SymDesc × Held))
    → sys.stderr ≢ 0
    → open' sys.symtab sys.strtab sys.pid sys.files dl.old_desc held ≡ r
    → IsOpened sys.symtab sys.strtab sys.files held r
    → IsReportOf sys signum
        (sigsegvcode_itoa dl.info.si_code)
        (faulting dl)
        dl
        out
        held
        (on_segv sys signum dl out held)
opened-IsReportOf sys signum dl out held none ne e i = absurd i
opened-IsReportOf sys signum dl out held (some (ret, d, h)) ne e (inl (z, _, _, c, _, _)) = inl (
  d,
  h,
  e ∙ ap (λ k. some (k, d, h)) z,
  on_segv-found sys signum dl out ne held ret d h e ((==_iff ret 0).1 z) c,
)
opened-IsReportOf sys signum dl out held (some (ret, d, h)) ne e (inr (inl (o, k, _))) = inr (
    inl (
      d,
      e ∙ ap₂ (λ a b. some (a, d, b)) o k,
      on_segv-failed sys signum dl out ne held ret d h e (rw o refl)
          ∙ ap
              (λ b. some (
                reported sys sys.stderr (four sys signum (sigsegvcode_itoa dl.info.si_code) dl) out,
                b,
              ))
              k,
    ))
opened-IsReportOf sys signum dl out held (some (ret, d, h)) ne e (inr (inr (o, z, k))) = inr (
    inr (
      z,
      on_segv-failed sys signum dl out ne held ret d h e (rw o refl)
          ∙ ap
              (λ b. some (
                reported sys sys.stderr (four sys signum (sigsegvcode_itoa dl.info.si_code) dl) out,
                b,
              ))
              k,
    ))

-- The handler never gives back what it does not hold. It reports the signal, its code, the address and the sender, on
-- standard error, and, if the program's file was opened, the function of register 14 of the context, or of the
-- handler's caller where that is missing or 0; then it holds what it held before, except for the file if its
-- descriptor is 0.
pub on_segv-IsReported :
    (sys : System) (signum : ℕ) (dl : Delivery) (out : Printed Text) (held : Held)
    → sys.stderr ≢ 0
    → IsReported sys signum dl out held (on_segv sys signum dl out held)
on_segv-IsReported sys signum dl out held ne = (
  sigsegvcode_itoa dl.info.si_code,
  faulting dl,
  sigsegvcode_itoa-IsCodeName dl.info.si_code,
  faulting-IsFaulting dl,
  opened-IsReportOf sys signum dl out held _ ne refl
      (open-IsOpened sys.symtab sys.strtab sys.pid sys.files dl.old_desc held),
)

-- The handler of SIGSEGV was set: what it reports is printed, once. It was not: nothing more is.
abbrev pub IsEnded : System → Delivery → (set : Bool) → Printed Text → Held → Process → Type 0
IsEnded sys dl true out held p = IsReported sys 11 dl out held (some (p.out, p.held))
IsEnded sys dl false out held p = (p.out ≡ out) × (p.held ≡ held)

-- What is printed before the first store.
abbrev pub greeting : System → (set : Bool) → Printed Text → Printed Text
greeting sys set out =
    print sys sys.stdout plop
      (print sys sys.stdout registered (if set then out else print sys sys.stderr unable out))

IsReported-some :
    (sys : System) (signum : ℕ) (dl : Delivery) (out : Printed Text) (held : Held)
    (o : Option (Printed Text × Held))
    → IsReported sys signum dl out held o
    → (r : Printed Text × Held) × (o ≡ some r)
IsReported-some sys signum dl out held o (_, _, _, _, inl (_, _, _, e)) = (_, e)
IsReported-some sys signum dl out held o (_, _, _, _, inr (inl (_, _, e))) = (_, e)
IsReported-some sys signum dl out held o (_, _, _, _, inr (inr (_, e))) = (_, e)

module _ (sys : System) (dl : Delivery) (n : ℕ) (p : Process) (lives : p.alive ≡ true) where
  test-unset : p.handler ≡ false → test sys dl (suc n) p ≡ some (record p { alive = false })
  unfolding test deliver
  test-unset f = rw (f, deliver) refl

  test-set :
      (r : Printed Text × Held)
      → p.handler ≡ true
      → on_segv sys 11 dl p.out p.held ≡ some r
      → test sys dl (suc (suc n)) p
        ≡ some (record p { handler = false; alive = false; out = r.0; held = r.1 })
  unfolding test deliver
  test-set r t e = simp (t, e, lives) refl

main_two :
    (sys : System) (set : Bool) (dl : Delivery) (n : ℕ) (p : Process)
    → sys.stderr ≢ 0
    → p.alive ≡ true
    → p.handler ≡ false
    → (p' : Process) × (main sys dl (suc (suc n)) (init sys set p) ≡ some p')
      × (p'.alive ≡ false)
      × IsEnded sys dl set (greeting sys set p.out) p.held p'
unfolding main init
main_two sys true dl n p ne lives unset =
    let out = greeting sys true p.out in
    let p1 = record p { handler = true; out = out } in
    let report = on_segv-IsReported sys 11 dl out p.held ne in
    let (r, e) = IsReported-some sys 11 dl out p.held (on_segv sys 11 dl out p.held) report in
    (
      record p { handler = false; alive = false; out = r.0; held = r.1 },
      test-set sys dl n p1 lives r refl e,
      refl,
      subst (IsReported sys 11 dl out p.held) e report,
    )
main_two sys false dl n p ne lives unset =
    let out = greeting sys false p.out in
    let p1 = record p { handler = false; out = out } in
    (
      record p1 { alive = false },
      rw unset (test-unset sys dl (suc n) p1 lives refl),
      refl,
      (refl, refl),
    )

-- The program does not survive the store to NULL: the handler, if it could be set, reports it once and returns, then
-- the same store ends the process. Two tries are enough.
pub main-IsEnded :
    (sys : System) (set : Bool) (dl : Delivery) (fuel : ℕ) (p : Process)
    → sys.stderr ≢ 0
    → p.alive ≡ true
    → p.handler ≡ false
    → 2 ≤ fuel
    → (p' : Process) × (main sys dl fuel (init sys set p) ≡ some p')
      × (p'.alive ≡ false)
      × IsEnded sys dl set (greeting sys set p.out) p.held p'
main-IsEnded sys set dl fuel p ne lives unset enough =
    let e : fuel ≡ suc (suc (fuel - 2)) = omega arith in
    subst
      (λ k.
        (p' : Process) × (main sys dl k (init sys set p) ≡ some p')
        × (p'.alive ≡ false)
        × IsEnded sys dl set (greeting sys set p.out) p.held p')
      (sym e) (main_two sys set dl (fuel - 2) p ne lives unset)
