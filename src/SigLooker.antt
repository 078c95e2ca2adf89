-- ===== src/SigLooker.antt =====
-- sig_looker/sig_look.c: the handler of SIGSEGV, its registration, and the program that tries it. The handler runs on
-- sym_resolv and dbg_print; `sym_resolv_get_funcname_by_addr`, which no header of the repository declares, is a
-- parameter, as are the answers of the system. Of a context only register 14 is read. `printf` and `puts` are left
-- out.
pub mod Report
mod Samples
use Prim.Native.String.{String}
use divers.Base.{
  ℕ, zero, suc, Bool, true, false, Option, none, some, List, [], ◌∷◌, ◌==◌, ◌||◌, if◌then◌else◌,
}
use divers.DbgPrint.{Printed, dbg_printf}
use divers.Resources.{Held, ◌>>=◌}
use divers.SymResolver.{SymDesc, SymResolv, Files, open', close}

-- What is printed.
pub data Text : Type 0 where
  signal : (name : String) → Text
  code_is : String → Text
  addr_access : ℕ → Text
  sender : ℕ → Text
  in_function : SymResolv → Text
  unable : Text
  registered : Text
  plop : Text

abbrev pub segv_maperr : ℕ
segv_maperr = 1

abbrev pub segv_accerr : ℕ
segv_accerr = 2

-- `sig_looker_sigsegvcode_itoa`, with `tab` at its two places.
abbrev pub tab : ℕ → String
tab code = if code == segv_maperr then "addr_not_mapped" else "addr_not_allowed"

unfoldable pub sigsegvcode_itoa : ℕ → String
sigsegvcode_itoa code =
    if (code == segv_maperr) || (code == segv_accerr) then tab code else "code_unknown"

pub record Siginfo : Type 0 where
  pub si_code : ℕ
  pub si_addr : ℕ
  pub si_pid : ℕ

-- What surrounds the handler: the streams, whether traces are shown, the names of the signals, what the opening of
-- the program's own file meets, and the function that finds a name.
pub record System : Type 0 where
  pub show_trace : Bool
  pub stdout : ℕ
  pub stderr : ℕ
  pub sys_siglist : ℕ → String
  pub symtab : ℕ → Bool
  pub strtab : ℕ → Bool
  pub pid : ℕ
  pub files : Files
  pub get_funcname : SymDesc → (addr : ℕ) → SymResolv → SymResolv

-- What a signal brings: `gregs[14]` of the context, if there is one, and the caller of the handler; with what the two
-- locals of the handler hold before they are written.
pub record Delivery : Type 0 where
  pub info : Siginfo
  pub context : Option ℕ
  pub return_address : ℕ
  pub old_desc : SymDesc
  pub old_res : SymResolv

unfoldable pub print : System → (stream : ℕ) → Text → Printed Text → Printed Text
unfolding dbg_printf
print sys stream text out = dbg_printf sys.show_trace sys.stdout stream text out

-- `ptr` of the handler.
abbrev pub faulting : Delivery → ℕ
faulting dl =
    let gip : ℕ = elim dl.context [ none ↦ 0 | some g ↦ g ] in
    if gip == 0 then dl.return_address else gip

abbrev pub with_held : Printed Text → Held → Option (Printed Text × Held)
with_held out held = some (out, held)

-- `sig_looker_on_segv`: what is printed and what is held.
unfoldable pub on_segv :
    System → (signum : ℕ) → Delivery → Printed Text → Held → Option (Printed Text × Held)
unfolding print sigsegvcode_itoa
on_segv sys signum dl out held =
    let o1 = print sys sys.stderr (signal (sys.sys_siglist signum)) out in
    let o2 = print sys sys.stderr (code_is (sigsegvcode_itoa dl.info.si_code)) o1 in
    let o3 = print sys sys.stderr (addr_access dl.info.si_addr) o2 in
    let o4 = print sys sys.stderr (sender dl.info.si_pid) o3 in
    open' sys.symtab sys.strtab sys.pid sys.files dl.old_desc held >>= λ (r : ℕ × SymDesc × Held).
    if r.0 == 0
    then (let res = sys.get_funcname r.1 (faulting dl) dl.old_res in
        close r.1 r.2 >>= λ h. with_held (print sys sys.stderr (in_function res) o4) h)
    else some (o4, r.2)

-- The process: whether its handler is set, whether it lives, what it has printed and what it holds.
pub record Process : Type 0 where
  pub handler : Bool
  pub alive : Bool
  pub out : Printed Text
  pub held : Held

-- `sig_looker_init`; with SA_RESETHAND the handler is taken out when it is called.
unfoldable pub init : System → (sigaction_ok : Bool) → Process → Process
unfolding print
init sys sigaction_ok p =
    let o = if sigaction_ok then p.out else print sys sys.stderr unable p.out in
    record p { handler = sigaction_ok || p.handler; out = print sys sys.stdout registered o }

-- SIGSEGV, number 11: without the handler it ends the process.
unfoldable pub deliver : System → Delivery → Process → Option Process
unfolding on_segv
deliver sys dl p =
    if p.handler
    then (on_segv sys 11 dl p.out p.held >>= λ (r : Printed Text × Held).
        some (record p { handler = false; out = r.0; held = r.1 }))
    else some (record p { alive = false })

-- `*ptr = 4` at NULL is tried again when a handler returns.
unfoldable pub test : System → Delivery → (fuel : ℕ) → Process → Option Process
unfolding deliver
test sys dl zero p = some p
test sys dl (suc fuel) p =
    deliver sys dl p >>= λ p'. if p'.alive then test sys dl fuel p' else some p'

-- `main`, behind the constructor.
unfoldable pub main : System → Delivery → (fuel : ℕ) → Process → Option Process
unfolding print test
main sys dl fuel p = test sys dl fuel (record p { out = print sys sys.stdout plop p.out })
