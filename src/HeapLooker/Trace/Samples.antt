-- ===== src/HeapLooker/Trace/Samples.antt =====
-- heap_looker/main.c: the program on an allocator that hands out addresses one behind the other.
use divers.Base.{ℕ, ◌+◌, ◌≡◌, refl, true, false, none, some, [], ◌∷◌, ◌==◌, if◌then◌else◌, arith}
use divers.DbgPrint.{dbg_printf}
use divers.HeapLooker.{
  Allocator, System, Looker, malloc, calloc, realloc, free, load_func_if, write_alloc, write_free,
  write_call, init, exit,
}
use divers.HeapLooker.Transparent.{perform}
use divers.HeapLooker.Programs.{followed_by, run_program, history}
use divers.HeapLooker.Trace.{reading, count, live, replaced, trace-reading}
use divers.HeapLooker.Trace.Example.{poet, body, main, body-IsProper, HasRoom}

-- No block is at 0.
abbrev bump : Allocator ℕ
bump = record {
  malloc_ptr = λ len h. (h + 1, h + 1 + len);
  calloc_ptr = λ a b h. (h + 1, h + 1 + a + b);
  realloc_ptr = λ base a h. (h + 1, h + 1 + a);
  free_ptr = λ base h. h;
}

abbrev system : System ℕ
system = record {
  next = bump;
  dlsym = λ name. true;
  dladdr = λ ptr. if ptr == 20 then some 70 else none;
  show_trace = true;
  stdout = 1;
}

room : HasRoom system
room = record {
  malloc_room = λ len h. omega arith;
  calloc_room = λ a b h. omega arith;
  realloc_room = λ base a h. omega arith;
}

-- The program of heap_looker/main.c; its calls return to the addresses from 20 on.
abbrev sites : ℕ → ℕ
sites n = 20 + n

abbrev silent : Looker ℕ
silent = record { fp = 2; loaded = λ name. false; heap = 4096; out = [] }

main_runs : reading (main system sites silent).out ≡ 4126 ∷ 4111 ∷ []
unfolding main body poet followed_by init exit run_program perform malloc calloc realloc free
    load_func_if write_alloc write_free write_call dbg_printf
main_runs = refl

trace-reading_example :
    count 4111 (reading (run_program system (body sites) silent).out)
    ≡ count 4111 (live (history system (body sites) silent.heap) [])
      + replaced 4111 (history system (body sites) silent.heap)
trace-reading_example =
    trace-reading system (body sites) silent 4111 (λ name. refl) refl (omega arith) refl
      (omega arith) (body-IsProper system sites silent.heap)
