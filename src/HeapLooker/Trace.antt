-- ===== src/HeapLooker/Trace.antt =====
-- heap_looker/heap_looker.c: what a reader of the trace takes for the blocks in use.
pub mod Example
mod Samples
use divers.Base.{
  ℕ, ◌+◌, ◌-◌, ◌<◌, ◌≡◌, ◌≢◌, refl, Bool, true, false, List, [], ◌∷◌, ◌++◌, ◌==◌, if◌then◌else◌,
  not, ◌&&◌, ◌||◌, arith, Bool-cases, inl, inr, ◌⊎◌, ne→==, Option-cases, ◌*◌, ◌%◌, ◌^◌,
}
use divers.HeapLooker.{
  Text, action_alloc, action_free, call_name, call_addr, Out, System, Looker, Name,
}
use divers.HeapLooker.Transparent.{
  Call, to_malloc, to_calloc, to_realloc, to_free, alloc_texts, texts, told, caller_text,
}
use divers.HeapLooker.Programs.{
  Program, History, told_all, history, run_program, run_program-history,
}

-- The blocks without one at the address, if there is one.
abbrev pub erase : ℕ → List ℕ → List ℕ
erase a [] = []
erase a (x ∷ xs) = let rest = erase a xs in if x == a then xs else x ∷ rest

abbrev pub count : ℕ → List ℕ → ℕ
count b [] = 0
count b (x ∷ xs) = (if x == b then 1 else 0) + count b xs

-- A line of the trace, read: the lines with a caller say nothing of blocks.
abbrev pub apply_text : Text → List ℕ → List ℕ
apply_text (action_alloc start len) bs = start ∷ bs
apply_text (action_free start) bs = erase start bs
apply_text (call_name n) bs = bs
apply_text (call_addr p) bs = bs

-- The trace, the last line first.
abbrev pub reading : Out → List ℕ
reading [] = []
reading ((fp, t) ∷ out) = apply_text t (reading out)

-- The blocks that a program has behind a call, by what the C library's functions are for.
abbrev pub live_after : Call → ℕ → List ℕ → List ℕ
live_after (to_malloc c len) r bs = if r == 0 then bs else r ∷ bs
live_after (to_calloc c a b) r bs = if r == 0 then bs else r ∷ bs
live_after (to_realloc c base a) r bs =
    if r == 0 then (if a == 0 then erase base bs else bs) else r ∷ erase base bs
live_after (to_free c base) r bs = erase base bs

abbrev pub live : History → List ℕ → List ℕ
live [] bs = bs
live ((c, r) ∷ cs) bs = live cs (live_after c r bs)

-- How often a block at the address was given to a `realloc` that did not fail.
abbrev pub handed : ℕ → Call → ℕ → ℕ
handed b (to_realloc c base a) r = if base == b && (not (r == 0) || (a == 0)) then 1 else 0
handed b _ r = 0

abbrev pub replaced : ℕ → History → ℕ
replaced b [] = 0
replaced b ((c, r) ∷ cs) = handed b c r + replaced b cs

-- A program gives to `free` and `realloc` only NULL and what it has.
abbrev pub IsCallProper : Call → List ℕ → Type 0
IsCallProper (to_realloc c base a) bs = (base ≡ 0) ⊎ (0 < count base bs)
IsCallProper (to_free c base) bs = (base ≡ 0) ⊎ (0 < count base bs)
IsCallProper _ bs = Unit

abbrev pub IsProper : History → List ℕ → Type 0
IsProper [] bs = Unit
IsProper ((c, r) ∷ cs) bs = IsCallProper c bs × IsProper cs (live_after c r bs)

count-erase :
    (a b : ℕ) (xs : List ℕ) → count b (erase a xs) ≡ count b xs - (if a == b then 1 else 0)
count-erase a b [] = omega arith
count-erase a b (x ∷ xs) = ground (arith, count-erase a b xs)

module _ {S : Type 0} (sys : System S) (shown : sys.show_trace ≡ true) (fp : ℕ)
    (stream : (fp == 0) ≡ false) where
  reading_caller :
      (caller : ℕ) (out : Out) → reading ((fp, caller_text sys caller) ∷ out) ≡ reading out
  reading_caller caller out = elim (Option-cases (sys.dladdr caller)) [
    | inl e ↦ rw (e, caller_text) refl
    | inr (n, e) ↦ rw (e, caller_text) refl
  ]

  reading-alloc :
      (caller r len : ℕ) (out : Out)
      → reading (told sys fp (alloc_texts sys caller r len) ++ out)
        ≡ (if r == 0 then reading out else r ∷ reading out)
  reading-alloc caller r len out = elim (Bool-cases (r == 0)) [
    | inl z ↦ rw (stream, shown, z) refl
    | inr z ↦ rw (stream, shown, z) (reading_caller caller ((fp, action_alloc r len) ∷ out))
  ]

  reading-free :
      (caller base r : ℕ) (out : Out)
      → reading (told sys fp (texts sys (to_free caller base) r) ++ out) ≡ erase base (reading out)
  reading-free caller base r out =
      rw (stream, shown) (reading_caller caller ((fp, action_free base) ∷ out))

  -- One call.
  reading-call :
      (b k : ℕ) (c : Call) (r : ℕ) (bs : List ℕ) (out : Out)
      → b ≢ 0
      → IsCallProper c bs
      → count b (reading out) ≡ count b bs + k
      → count b (reading (told sys fp (texts sys c r) ++ out))
        ≡ count b (live_after c r bs) + (k + handed b c r)
  reading-call b k (to_malloc c len) r bs out ne proper e =
      rw (reading-alloc c r len out) (ground (arith, e))
  reading-call b k (to_calloc c x y) r bs out ne proper e =
      rw (reading-alloc c r (x * y % 2 ^ 64) out) (ground (arith, e))
  reading-call b k (to_realloc c base a) r bs out ne proper e =
      rw (reading-alloc c r a out) (ground (arith, e, count-erase base b bs))
  reading-call b k (to_free c base) r bs out ne proper e =
      rw (reading-free c base r out)
        (ground (arith, e, count-erase base b bs, count-erase base b (reading out)))

  reading_from :
      (b k : ℕ) (cs : History) (bs : List ℕ) (out : Out)
      → b ≢ 0
      → IsProper cs bs
      → count b (reading out) ≡ count b bs + k
      → count b (reading (told_all sys fp cs out)) ≡ count b (live cs bs) + (k + replaced b cs)
  reading_from b k [] bs out ne proper e = omega (arith, e)
  reading_from b k ((c, r) ∷ cs) bs out ne (p, ps) e = omega (
    arith,
    reading_from b (k + handed b c r) cs (live_after c r bs) (told sys fp (texts sys c r) ++ out) ne
        ps (reading-call b k c r bs out ne p e),
  )

-- The trace of a program that gives back only what it has: a block stands in it as in use once if the program has
-- it, and once more for each `realloc` that it was given to and that did not fail, since no line tells of the end of
-- the old block.
pub trace-reading :
    {S : Type 0} (sys : System S) (p : Program) (s : Looker S) (b : ℕ)
    → ((name : Name) → sys.dlsym name ≡ true)
    → sys.show_trace ≡ true
    → s.fp ≢ 0
    → s.out ≡ []
    → b ≢ 0
    → IsProper (history sys p s.heap) []
    → count b (reading (run_program sys p s).out)
      ≡ count b (live (history sys p s.heap) []) + replaced b (history sys p s.heap)
trace-reading sys p s b found shown stream fresh ne proper =
    let (heaps, fps, outs) = run_program-history sys found p s in
    rw (outs, fresh)
      (omega (
        arith,
        reading_from sys shown s.fp (ne→== s.fp 0 stream) b 0 (history sys p s.heap) [] [] ne proper
            refl,
      ))
