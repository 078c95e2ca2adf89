-- ===== src/SigLooker/Samples.antt =====
-- sig_looker/sig_look.c: a program whose own file cannot be opened, and one that has two descriptors.
use divers.Base.{◌≡◌, refl, true, false, none, some, [], ◌∷◌, arith}
use divers.DbgPrint.{dbg_printf}
use divers.Resources.{Held, descriptor}
use divers.SymResolver.{SymDesc, Files, open'}
use divers.SigLooker.{
  signal, code_is, addr_access, sender, System, Delivery, Process, sigsegvcode_itoa, print, on_segv,
}
use divers.SigLooker.Report.{IsReported, on_segv-IsReported}

abbrev files : Files
files = record { opened = none; size = none; mapped = none; bytes = λ a. 0 }

abbrev system : System
system = record {
  show_trace = true;
  stdout = 1;
  stderr = 2;
  sys_siglist = λ n. "Segmentation fault";
  symtab = λ p. false;
  strtab = λ p. false;
  pid = 42;
  files = files;
  get_funcname = λ d a res. res;
}

abbrev blank : SymDesc
blank = record {
  fd = 0;
  mem = 0;
  memlen = 0;
  pid = 0;
  ehdr = 0;
  shdr = 0;
  shdrstrsectab = none;
  shdrsymtab = none;
  shdrstrsymtab = none;
  sectionstr = 0;
}

abbrev delivery : Delivery
delivery = record {
  info = record { si_code = 2; si_addr = 0; si_pid = 7 };
  context = some 4096;
  return_address = 5000;
  old_desc = blank;
  old_res = record { symaddr = 0; symname = [] };
}

abbrev held : Held
held = descriptor 1 ∷ descriptor 2 ∷ []

reports :
    on_segv system 11 delivery [] held
    ≡ some (
      (2, sender 7)
          ∷ (2, addr_access 0)
          ∷ (2, code_is "addr_not_allowed")
          ∷ (2, signal "Segmentation fault")
          ∷ [],
      held,
    )
unfolding on_segv print dbg_printf sigsegvcode_itoa open'
reports = refl

on_segv-IsReported_example :
    IsReported system 11 delivery [] held (on_segv system 11 delivery [] held)
on_segv-IsReported_example = on_segv-IsReported system 11 delivery [] held (omega arith)

abbrev process : Process
process = record { handler = false; alive = true; out = []; held = held }
