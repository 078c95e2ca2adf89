-- ===== src/HeapLooker/Trace/Example.antt =====
-- heap_looker/f1.c, heap_looker/main.c: a program on the allocator, by the calls that it makes; `site` gives the
-- addresses behind its calls. `strdup` is the C library's: it takes the bytes of its text from `malloc`.
use divers.Base.{
  ℕ, ◌+◌, ◌≡◌, ◌≢◌, refl, sym, ap, ap₂, ◌∙◌, ne→==, true, [], ◌∷◌, arith, ◌==◌, if◌then◌else◌,
}
use divers.HeapLooker.{System, Looker, Name, init, exit}
use divers.HeapLooker.Transparent.{to_malloc, to_calloc, to_realloc, to_free}
use divers.HeapLooker.Programs.{Program, done, call, followed_by, run_program, history, History}
use divers.HeapLooker.Trace.{reading, count, live, trace-reading, IsProper, replaced}

module _ (site : ℕ → ℕ) where
  -- `f1`, `f2` and `f3`.
  abbrev pub f1 : Program
  f1 = call (to_malloc (site 0) 4) λ p. call (to_free (site 1) p) λ _. done

  abbrev pub f2 : Program
  f2 = call (to_calloc (site 2) 4 4) λ p. call (to_free (site 3) p) λ _. done

  abbrev pub f3 : Program
  f3 =
      call (to_malloc (site 4) 2)
        λ p. call (to_realloc (site 5) p 6) λ q. call (to_free (site 6) q) λ _. done

  -- `poet`, without the number that it returns.
  unfoldable pub poet : Program
  unfolding followed_by
  poet = followed_by f1 (followed_by f2 f3)

  -- What `main` does between `heap_looker_init` and `heap_looker_exit`; "coucou" has 6 characters.
  unfoldable pub body : Program
  unfolding poet followed_by
  body = followed_by poet (
      call (to_malloc (site 7) 4)
        λ p. call (to_malloc (site 8) 7) λ copy. call (to_free (site 9) p) λ _. done)

-- `main`, with the stream `stdout`.
unfoldable pub main : {S : Type 0} → System S → (site : ℕ → ℕ) → Looker S → Looker S
unfolding init exit run_program body
main sys site s = exit (run_program sys (body site) (init sys sys.stdout s))

pub body-IsProper :
    {S : Type 0} (sys : System S) (site : ℕ → ℕ) (h : S) → IsProper (history sys (body site) h) []
unfolding body history
body-IsProper sys site h = ground arith

-- The calls of `main`, by the blocks that they return.
abbrev calls_of : (site : ℕ → ℕ) (a b p q m copy : ℕ) → History
calls_of site a b p q m copy =
    (to_malloc (site 0) 4, a)
    ∷ (to_free (site 1) a, 0)
    ∷ (to_calloc (site 2) 4 4, b)
    ∷ (to_free (site 3) b, 0)
    ∷ (to_malloc (site 4) 2, p)
    ∷ (to_realloc (site 5) p 6, q)
    ∷ (to_free (site 6) q, 0)
    ∷ (to_malloc (site 7) 4, m)
    ∷ (to_malloc (site 8) 7, copy)
    ∷ (to_free (site 9) m, 0)
    ∷ []

calls_of-live :
    (site : ℕ → ℕ) (a b p q m copy : ℕ)
    → a ≢ 0
    → b ≢ 0
    → p ≢ 0
    → q ≢ 0
    → m ≢ 0
    → copy ≢ 0
    → live (calls_of site a b p q m copy) [] ≡ copy ∷ []
calls_of-live site a b p q m copy na nb np nq nm nc = ground arith

calls_of-replaced :
    (site : ℕ → ℕ) (a b p q m copy x : ℕ)
    → q ≢ 0
    → replaced x (calls_of site a b p q m copy) ≡ (if p == x then 1 else 0)
calls_of-replaced site a b p q m copy x nq = ground arith

-- The allocator has what is asked for.
pub record HasRoom {S : Type 0} (sys : System S) : Type 0 where
  pub malloc_room : (len : ℕ) (h : S) → (sys.next.malloc_ptr len h).0 ≢ 0
  pub calloc_room : (a b : ℕ) (h : S) → (sys.next.calloc_ptr a b h).0 ≢ 0
  pub realloc_room : (base a : ℕ) (h : S) → (sys.next.realloc_ptr base a h).0 ≢ 0

-- `main` ends with one block in use, the copy that `strdup` made; its trace tells of two, that one and the block of
-- `f3` that `realloc` has replaced.
pub main-reading :
    {S : Type 0} (sys : System S) (site : ℕ → ℕ) (s : Looker S)
    → ((name : Name) → sys.dlsym name ≡ true)
    → sys.show_trace ≡ true
    → sys.stdout ≢ 0
    → s.out ≡ []
    → HasRoom sys
    → (p : ℕ) × (copy : ℕ) × (live (history sys (body site) s.heap) [] ≡ copy ∷ [])
      × ((b : ℕ)
          → b ≢ 0
          → count b (reading (main sys site s).out)
            ≡ (if copy == b then 1 else 0) + (if p == b then 1 else 0))
unfolding main body poet followed_by history init exit
main-reading sys site s found shown stream fresh room =
    let r1 = next.malloc_ptr 4 s.heap in
    let r2 = next.calloc_ptr 4 4 (next.free_ptr r1.0 r1.1) in
    let r3 = next.malloc_ptr 2 (next.free_ptr r2.0 r2.1) in
    let r4 = next.realloc_ptr r3.0 6 r3.1 in
    let r5 = next.malloc_ptr 4 (next.free_ptr r4.0 r4.1) in
    let r6 = next.malloc_ptr 7 r5.1 in
    let held =
      calls_of-live site r1.0 r2.0 r3.0 r4.0 r5.0 r6.0 (malloc_room _ _) (calloc_room _ _ _)
        (malloc_room _ _) (realloc_room _ _ _) (malloc_room _ _) (malloc_room _ _) in
    (
      r3.0,
      r6.0,
      held,
      λ b ne.
          let s0 = init sys sys.stdout s in
          let fp : s0.fp ≡ sys.stdout = rw (ne→== sys.stdout 0 stream) refl in
          let all =
            trace-reading sys (body site) s0 b found shown (λ z. stream (sym fp ∙ z)) fresh ne
              (body-IsProper sys site s.heap) in
          all
          ∙ ap₂ ◌+◌ (ap (count b) held ∙ omega arith)
              (calls_of-replaced site r1.0 r2.0 r3.0 r4.0 r5.0 r6.0 b (realloc_room _ _ _)),
    )
  where
    open sys use {next}
    open room use {malloc_room, calloc_room, realloc_room}
