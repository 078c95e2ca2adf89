-- ===== src/DbgPrint.antt =====
-- dbg_print/dbgprint.c: `dbg_printf`. The texts are of any kind; the formatting is `vfprintf`'s.
use divers.Base.{ℕ, Bool, List, ◌∷◌, ◌==◌, if◌then◌else◌}

-- What was printed, the last first, each to its stream.
abbrev pub Printed : Type 0 → Type 0
Printed A = List (ℕ × A)

-- `dbg_printf`, with and without DBG_PRINT_SHOW_TRACE; what it returns is looked at nowhere.
unfoldable pub dbg_printf :
    {A : Type 0} → (show_trace : Bool) → (stdout where' : ℕ) → A → Printed A → Printed A
dbg_printf show_trace stdout where' str out =
    if show_trace then (if where' == 0 then stdout else where', str) ∷ out else out
