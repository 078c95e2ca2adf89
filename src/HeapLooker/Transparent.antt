-- ===== src/HeapLooker/Transparent.antt =====
-- heap_looker/heap_looker.c: a program that runs with the functions in front of its allocator sees what it
-- would see without them, and the output tells of each call.
use divers.Base.{
  ℕ, ◌*◌, ◌%◌, ◌^◌, ◌≡◌, refl, sym, ap, ap₂, ◌∙◌, Bool, true, false, ◌||◌, not, none, some, List,
  [], ◌∷◌, ◌++◌, ◌==◌, if◌then◌else◌, Bool-cases, inl, inr, map,
}
use divers.DbgPrint.{dbg_printf}
use divers.HeapLooker.{
  Text, action_alloc, action_free, call_name, call_addr, Out, Name, malloc', calloc', realloc',
  free', System, Looker, same_name, load_func_if, write_call, write_alloc, write_free, traced,
  malloc, calloc, realloc, free,
}

-- The calls of a program, each with its caller.
pub data Call : Type 0 where
  to_malloc : (caller len : ℕ) → Call
  to_calloc : (caller a b : ℕ) → Call
  to_realloc : (caller base a : ℕ) → Call
  to_free : (caller base : ℕ) → Call

module _ {S : Type 0} (sys : System S) where
  -- Through the functions in front; `free` returns nothing.
  unfoldable pub perform : Call → Looker S → ℕ × Looker S
  perform (to_malloc caller len) s = malloc sys caller len s
  perform (to_calloc caller a b) s = calloc sys caller a b s
  perform (to_realloc caller base a) s = realloc sys caller base a s
  perform (to_free caller base) s = (0, free sys caller base s)

  unfoldable pub run : List Call → Looker S → List ℕ × Looker S
  run [] s = ([], s)
  run (c ∷ cs) s = let (r, s1) = perform c s in let (rs, s2) = run cs s1 in (r ∷ rs, s2)

  -- Straight to the allocator.
  abbrev pub direct : Call → S → ℕ × S
  direct (to_malloc caller len) h = sys.next.malloc_ptr len h
  direct (to_calloc caller a b) h = sys.next.calloc_ptr a b h
  direct (to_realloc caller base a) h = sys.next.realloc_ptr base a h
  direct (to_free caller base) h = (0, sys.next.free_ptr base h)

  abbrev pub run_direct : List Call → S → List ℕ × S
  run_direct [] h = ([], h)
  run_direct (c ∷ cs) h =
      let (r, h1) = direct c h in let (rs, h2) = run_direct cs h1 in (r ∷ rs, h2)

  -- What is told of a call that returns `r`: the call, and before it the block; of NULL nothing.
  abbrev pub caller_text : ℕ → Text
  caller_text caller = elim (sys.dladdr caller) [
    | none ↦ call_addr caller
    | some name ↦ call_name name
  ]

  abbrev pub alloc_texts : (caller r len : ℕ) → List Text
  alloc_texts caller r len = if r == 0 then [] else caller_text caller ∷ action_alloc r len ∷ []

  abbrev pub texts : Call → ℕ → List Text
  texts (to_malloc caller len) r = alloc_texts caller r len
  texts (to_calloc caller a b) r = alloc_texts caller r (a * b % 2 ^ 64)
  texts (to_realloc caller base a) r = alloc_texts caller r a
  texts (to_free caller base) r = caller_text caller ∷ action_free base ∷ []

  abbrev pub told : (fp : ℕ) → List Text → Out
  told fp ts = if (fp == 0) || not sys.show_trace then [] else map (λ t. (fp, t)) ts

  abbrev pub log : (fp : ℕ) → List Call → List ℕ → Out → Out
  log fp (c ∷ cs) (r ∷ rs) out = log fp cs rs (told fp (texts c r) ++ out)
  log fp _ _ out = out

  -- One call, when its function is found.
  pub record IsSeen (c : Call) (s : Looker S) (r : ℕ × Looker S) : Type 0 where
    pub result : r.0 ≡ (direct c s.heap).0
    pub heap : r.1.heap ≡ (direct c s.heap).1
    pub fp : r.1.fp ≡ s.fp
    pub out : r.1.out ≡ told s.fp (texts c (direct c s.heap).0) ++ s.out

  -- What the macros print, when there is a stream.
  write_alloc-told :
      (caller r len : ℕ) (s : Looker S)
      → (s.fp == 0) ≡ false
      → (r == 0) ≡ false
      → (write_alloc sys caller r len s).out ≡ told s.fp (alloc_texts caller r len) ++ s.out
  unfolding write_alloc write_call dbg_printf
  write_alloc-told caller r len s f z = elim (Bool-cases sys.show_trace) [
    | inl t ↦ rw (t, f, z) refl
    | inr n ↦ rw (n, f) refl
  ]

  write_free-told :
      (caller base : ℕ) (s : Looker S)
      → (s.fp == 0) ≡ false
      → (write_free sys caller base s).out
        ≡ told s.fp (caller_text caller ∷ action_free base ∷ []) ++ s.out
  unfolding write_free write_call dbg_printf
  write_free-told caller base s f = elim (Bool-cases sys.show_trace) [
    | inl t ↦ rw (t, f) refl
    | inr n ↦ rw (n, f) refl
  ]

  -- What stands behind the pointer's call.
  record IsTraced (s : Looker S) (h : S) (ts : List Text) (s' : Looker S) : Type 0 where
    heap : s'.heap ≡ h
    fp : s'.fp ≡ s.fp
    out : s'.out ≡ told s.fp ts ++ s.out

  traced-IsTraced :
      (caller len : ℕ) (s : Looker S) (r : ℕ) (h : S)
      → IsTraced s h (alloc_texts caller r len) (traced sys caller len s (r, h)).1
  unfolding write_alloc write_call
  traced-IsTraced caller len s r h = elim (Bool-cases (s.fp == 0)) [
    | inl t ↦ rw t (record { heap = refl; fp = refl; out = rw t refl })
    | inr f ↦ elim (Bool-cases (r == 0)) [
      | inl z ↦
          rw (f, z)
            (record {
              heap = refl;
              fp = refl;
              out = elim (Bool-cases sys.show_trace) [
                | inl o ↦ rw (f, o) refl
                | inr o ↦ rw (f, o) refl
              ];
            })
      | inr z ↦
          let s' = record s { heap = h } in
          let written : (traced sys caller len s (r, h)).1 ≡ write_alloc sys caller r len s' =
            rw (f, z) refl in
          record {
            heap = ap (λ q. q.heap) written;
            fp = ap (λ q. q.fp) written;
            out = ap (λ q. q.out) written ∙ write_alloc-told caller r len s' f z;
          }
    ]
  ]

  module _ (found : (name : Name) → sys.dlsym name ≡ true) where
    set_true : (b : Bool) (name : Name) → b || sys.dlsym name ≡ true
    set_true true name = refl
    set_true false name = found name

    -- The statics with the pointer set.
    abbrev with_loaded : Name → Looker S → Looker S
    with_loaded name s = record s { loaded = λ n. if same_name n name then true else s.loaded n }

    load_func_if-found :
        (name : Name) (s : Looker S) → load_func_if sys name s ≡ (true, with_loaded name s)
    unfolding load_func_if
    load_func_if-found name s = rw (set_true (s.loaded name) name) refl

    free-IsSeen :
        (caller base : ℕ) (s s' : Looker S)
        → s' ≡ (
            let s1 = record (with_loaded free' s) { heap = sys.next.free_ptr base s.heap } in
            if s.fp == 0 then s1 else write_free sys caller base s1)
        → IsSeen (to_free caller base) s (0, s')
    unfolding write_free write_call
    free-IsSeen caller base s s' e = elim (Bool-cases (s.fp == 0)) [
      | inl t ↦
          let e' = e ∙ ap (λ (b : Bool). if b then s1 else write_free sys caller base s1) t in
          record {
            result = refl;
            heap = ap (λ q. q.heap) e';
            fp = ap (λ q. q.fp) e';
            out = ap (λ q. q.out) e' ∙ rw t refl;
          }
      | inr f ↦
          let e' = e ∙ ap (λ (b : Bool). if b then s1 else write_free sys caller base s1) f in
          record {
            result = refl;
            heap = ap (λ q. q.heap) e';
            fp = ap (λ q. q.fp) e';
            out = ap (λ q. q.out) e' ∙ write_free-told caller base s1 f;
          }
    ]
      where
        s1 : Looker S
        s1 = record (with_loaded free' s) { heap = sys.next.free_ptr base s.heap }

    -- The three functions that allocate, behind `__load_func_if`.
    traced-IsSeen :
        (c : Call) (name : Name) (caller len : ℕ) (s : Looker S) (f : S → ℕ × S) (r : ℕ × Looker S)
        → direct c s.heap ≡ f s.heap
        → texts c (f s.heap).0 ≡ alloc_texts caller (f s.heap).0 len
        → r ≡ traced sys caller len (with_loaded name s) (f s.heap)
        → IsSeen c s r
    traced-IsSeen c name caller len s f r same ts e =
        let t = traced-IsTraced caller len (with_loaded name s) (f s.heap).0 (f s.heap).1 in
        record {
          result = ap (λ q. q.0) e ∙ ap (λ q. q.0) (sym same);
          heap = ap (λ q. q.1.heap) e ∙ t.heap ∙ ap (λ q. q.1) (sym same);
          fp = ap (λ q. q.1.fp) e ∙ t.fp;
          out =
              ap (λ q. q.1.out) e
              ∙ t.out
              ∙ ap (λ ws. told s.fp ws ++ s.out) (sym ts ∙ ap (λ q. texts c q.0) (sym same));
        }

    pub perform-IsSeen : (c : Call) (s : Looker S) → IsSeen c s (perform c s)
    unfolding perform malloc calloc realloc free
    perform-IsSeen (to_malloc caller len) s =
        traced-IsSeen (to_malloc caller len) malloc' caller len s (sys.next.malloc_ptr len)
          (perform (to_malloc caller len) s) refl refl
          (ap
            (λ (q : Bool × Looker S).
              if q.0
              then traced sys caller len q.1 (sys.next.malloc_ptr len q.1.heap)
              else (0, q.1))
            (load_func_if-found malloc' s))
    perform-IsSeen (to_calloc caller a b) s =
        traced-IsSeen (to_calloc caller a b) calloc' caller (a * b % 2 ^ 64) s
          (sys.next.calloc_ptr a b) (perform (to_calloc caller a b) s) refl refl
          (ap
            (λ (q : Bool × Looker S).
              if q.0
              then traced sys caller (a * b % 2 ^ 64) q.1 (sys.next.calloc_ptr a b q.1.heap)
              else (0, q.1))
            (load_func_if-found calloc' s))
    perform-IsSeen (to_realloc caller base a) s =
        traced-IsSeen (to_realloc caller base a) realloc' caller a s (sys.next.realloc_ptr base a)
          (perform (to_realloc caller base a) s) refl refl
          (ap
            (λ (q : Bool × Looker S).
              if q.0
              then traced sys caller a q.1 (sys.next.realloc_ptr base a q.1.heap)
              else (0, q.1))
            (load_func_if-found realloc' s))
    perform-IsSeen (to_free caller base) s =
        let s1 = record (with_loaded free' s) { heap = sys.next.free_ptr base s.heap } in
        let freed : free sys caller base s
            ≡ (if s.fp == 0 then s1 else write_free sys caller base s1) =
          ap
            (λ (q : Bool × Looker S).
              if not (q.0)
              then q.1
              else (let s2 = record (q.1) { heap = sys.next.free_ptr base q.1.heap } in
                  if s2.fp == 0 then s2 else write_free sys caller base s2))
            (load_func_if-found free' s) in
        free-IsSeen caller base s (free sys caller base s) freed

    -- If `dlsym` finds the four functions, a run through the functions in front returns what the allocator
    -- returns to the same calls, leaves the allocator as they leave it, and prints, when a stream was set and the
    -- texts are shown, of each call in its order the block and the caller; NULL is not told.
    pub run-IsTransparent :
        (cs : List Call) (s : Looker S)
        → let (rs, s') = run cs s in
          let (rs', heap) = run_direct cs s.heap in
          (rs ≡ rs') × (s'.heap ≡ heap) × (s'.fp ≡ s.fp) × (s'.out ≡ log s.fp cs rs' s.out)
    unfolding run
    run-IsTransparent [] s = (refl, refl, refl, refl)
    run-IsTransparent (c ∷ cs) s =
        let s1 = (perform c s).1 in
        let seen = perform-IsSeen c s in
        let (results, heaps, fps, outs) = run-IsTransparent cs s1 in
        (
          ap₂ ◌∷◌ seen.result (results ∙ ap (λ h. (run_direct cs h).0) seen.heap),
          heaps ∙ ap (λ h. (run_direct cs h).1) seen.heap,
          fps ∙ seen.fp,
          outs
              ∙ ap (λ h. log s1.fp cs (run_direct cs h).0 s1.out) seen.heap
              ∙ ap₂ (λ fp out. log fp cs (run_direct cs (direct c s.heap).1).0 out) seen.fp
                  seen.out,
        )
