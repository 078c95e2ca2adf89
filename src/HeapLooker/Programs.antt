-- ===== src/HeapLooker/Programs.antt =====
-- heap_looker/heap_looker.c: programs whose calls depend on what the earlier ones returned.
use divers.Base.{ℕ, ◌≡◌, refl, ap₂, ◌∙◌, true, List, [], ◌∷◌, ◌++◌}
use divers.HeapLooker.{Out, Name, System, Looker}
use divers.HeapLooker.Transparent.{Call, perform, direct, texts, told, perform-IsSeen}

pub data Program : Type 0 where
  done : Program
  call : Call → (ℕ → Program) → Program

-- One program behind the other.
unfoldable pub followed_by : Program → Program → Program
followed_by done q = q
followed_by (call c k) q = call c (λ r. followed_by (k r) q)

-- The calls of a run, with what they returned.
abbrev pub History : Type 0
History = List (Call × ℕ)

module _ {S : Type 0} (sys : System S) where
  -- Through the functions in front.
  unfoldable pub run_program : Program → Looker S → Looker S
  run_program done s = s
  run_program (call c k) s = let r = perform sys c s in run_program (k r.0) r.1

  -- Straight to the allocator.
  unfoldable pub history : Program → S → History
  history done h = []
  history (call c k) h = let r = direct sys c h in (c, r.0) ∷ history (k r.0) r.1

  unfoldable pub heap_after : Program → S → S
  heap_after done h = h
  heap_after (call c k) h = let r = direct sys c h in heap_after (k r.0) r.1

  -- What is told of a history, on the stream `fp`.
  abbrev pub told_all : (fp : ℕ) → History → Out → Out
  told_all fp [] out = out
  told_all fp ((c, r) ∷ cs) out = told_all fp cs (told sys fp (texts sys c r) ++ out)

  module _ (found : (name : Name) → sys.dlsym name ≡ true) where
    -- Also where its calls depend on what it was given, a program runs as it would straight on the allocator,
    -- and the trace tells its calls.
    pub run_program-history :
        (p : Program) (s : Looker S)
        → let s' = run_program p s in
          (s'.heap ≡ heap_after p s.heap)
          × (s'.fp ≡ s.fp)
          × (s'.out ≡ told_all s.fp (history p s.heap) s.out)
    unfolding run_program history heap_after
    run_program-history done s = (refl, refl, refl)
    run_program-history (call c k) s =
        let r = perform sys c s in
        let seen = perform-IsSeen sys found c s in
        let (heaps, fps, outs) = run_program-history (k r.0) r.1 in
        (
          heaps ∙ ap₂ (λ a h. heap_after (k a) h) seen.result seen.heap,
          fps ∙ seen.fp,
          outs
              ∙ ap₂ (λ a h. told_all r.1.fp (history (k a) h) r.1.out) seen.result seen.heap
              ∙ ap₂
                  (λ fp out.
                    told_all fp (history (k (direct sys c s.heap).0) (direct sys c s.heap).1) out)
                  seen.fp seen.out,
        )
