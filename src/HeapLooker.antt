-- ===== src/HeapLooker.antt =====
-- heap_looker/heap_looker.c with HEAP_LOOKER_TRACEON: the functions that stand in front of the allocator's.
-- The allocator that `dlsym(RTLD_NEXT, ...)` finds, `dladdr` and `__builtin_return_address(0)`, the caller, are
-- parameters. What the C library allocates by itself inside `dlsym` and `vfprintf` is left out.
pub mod Transparent
pub mod Programs
pub mod Trace
mod Samples
use divers.DbgPrint.{Printed, dbg_printf}
use divers.Base.{
  ℕ, ◌*◌, ◌%◌, ◌^◌, Bool, true, false, ◌&&◌, ◌||◌, not, Option, none, some, List, [], ◌∷◌, ◌==◌,
  if◌then◌else◌,
}

-- The texts that are printed.
pub data Text : Type 0 where
  action_alloc : (start len : ℕ) → Text
  action_free : (start : ℕ) → Text
  call_name : (dli_sname : ℕ) → Text
  call_addr : (ptr : ℕ) → Text

-- What was printed, the last first, each to its stream.
abbrev pub Out : Type 0
Out = Printed Text

-- The next allocator: its functions on its state. NULL is 0.
pub record Allocator (S : Type 0) : Type 0 where
  pub malloc_ptr : ℕ → S → ℕ × S
  pub calloc_ptr : ℕ → ℕ → S → ℕ × S
  pub realloc_ptr : ℕ → ℕ → S → ℕ × S
  pub free_ptr : ℕ → S → S

pub data Name : Type 0 where
  malloc' : Name
  calloc' : Name
  realloc' : Name
  free' : Name

pub record System (S : Type 0) : Type 0 where
  pub next : Allocator S
  pub dlsym : Name → Bool
  pub dladdr : ℕ → Option ℕ
  pub show_trace : Bool
  pub stdout : ℕ

-- The statics: the stream, and which of the four pointers are set; with the allocator's state and the output.
pub record Looker (S : Type 0) : Type 0 where
  pub fp : ℕ
  pub loaded : Name → Bool
  pub heap : S
  pub out : Out

-- `__heap_looker_init` and `__heap_looker_exit`.
unfoldable pub init : {S : Type 0} → System S → (fp : ℕ) → Looker S → Looker S
init sys fp s = record s { fp = if not (fp == 0) then fp else sys.stdout }

unfoldable pub exit : {S : Type 0} → Looker S → Looker S
exit s = s

abbrev pub same_name : Name → Name → Bool
same_name malloc' malloc' = true
same_name calloc' calloc' = true
same_name realloc' realloc' = true
same_name free' free' = true
same_name _ _ = false

-- `__load_func_if`: whether the pointer is set behind it, and the statics.
unfoldable pub load_func_if : {S : Type 0} → System S → Name → Looker S → Bool × Looker S
load_func_if sys name s =
    let set = s.loaded name || sys.dlsym name in
    (set, record s { loaded = λ n. if same_name n name then set else s.loaded n })

-- The second call of `dbg_printf` in both macros.
unfoldable pub write_call : {S : Type 0} → System S → (caller : ℕ) → Looker S → Looker S
unfolding dbg_printf
write_call sys caller s =
    let text : Text = elim (sys.dladdr caller) [
      | none ↦ call_addr caller
      | some name ↦ call_name name
    ] in
    record s { out = dbg_printf sys.show_trace sys.stdout s.fp text s.out }

-- `HEAP_LOOKER_WRITE_ALLOCBACKTRACE` and `HEAP_LOOKER_WRITE_FREEBACKTRACE`.
unfoldable pub write_alloc : {S : Type 0} → System S → (caller addr len : ℕ) → Looker S → Looker S
unfolding dbg_printf write_call
write_alloc sys caller addr len s =
    write_call sys caller
      (record s { out = dbg_printf sys.show_trace sys.stdout s.fp (action_alloc addr len) s.out })

unfoldable pub write_free : {S : Type 0} → System S → (caller addr : ℕ) → Looker S → Looker S
unfolding dbg_printf write_call
write_free sys caller addr s =
    write_call sys caller
      (record s { out = dbg_printf sys.show_trace sys.stdout s.fp (action_free addr) s.out })

-- What the three functions that allocate do behind the pointer's call.
abbrev pub traced : {S : Type 0} → System S → (caller len : ℕ) → Looker S → ℕ × S → ℕ × Looker S
traced sys caller len s (ret, heap) =
    let s' = record s { heap = heap } in
    (ret, if not (s.fp == 0) && not (ret == 0) then write_alloc sys caller ret len s' else s')

unfoldable pub malloc : {S : Type 0} → System S → (caller len : ℕ) → Looker S → ℕ × Looker S
unfolding load_func_if write_alloc
malloc sys caller len s =
    let (set, s') = load_func_if sys malloc' s in
    if set then traced sys caller len s' (sys.next.malloc_ptr len s'.heap) else (0, s')

unfoldable pub calloc : {S : Type 0} → System S → (caller a b : ℕ) → Looker S → ℕ × Looker S
unfolding load_func_if write_alloc
calloc sys caller a b s =
    let (set, s') = load_func_if sys calloc' s in
    if set then traced sys caller (a * b % 2 ^ 64) s' (sys.next.calloc_ptr a b s'.heap) else (0, s')

unfoldable pub realloc : {S : Type 0} → System S → (caller base a : ℕ) → Looker S → ℕ × Looker S
unfolding load_func_if write_alloc
realloc sys caller base a s =
    let (set, s') = load_func_if sys realloc' s in
    if set then traced sys caller a s' (sys.next.realloc_ptr base a s'.heap) else (0, s')

unfoldable pub free : {S : Type 0} → System S → (caller base : ℕ) → Looker S → Looker S
unfolding load_func_if write_free
free sys caller base s =
    let (set, s') = load_func_if sys free' s in
    if not set
    then s'
    else (let s1 = record s' { heap = sys.next.free_ptr base s'.heap } in
        if s1.fp == 0 then s1 else write_free sys caller base s1)
