-- ===== src/DoubleBuffer/Samples.antt =====
-- double_buffering/dblbuffering/src/lib.rs: one reader with a buffer of two bytes, on a file of three.
use divers.Base.{
  ℕ, zero, suc, ◌≤◌, ◌≡◌, refl, inl, inr, Option, none, some, List, [], ◌∷◌, ◌++◌, Option-cases,
  arith, subst, sym,
}
use mathlib.Core.Option.{some-injective}
use divers.DoubleBuffer.Reader.{File, get_bank, apply_bank, fill, take_job, reader_step}
use divers.DoubleBuffer.{
  EceWorker, Setting, WriterPlace, returned, waiting, send_work, wait_readers, process_writer,
  writer_step, new_worker, update, writes, reads, Reach, here, more,
}
use divers.DoubleBuffer.Flow.{AreOpened}
use divers.DoubleBuffer.Invariant.{IsBehind}
use divers.DoubleBuffer.Printed.{IsPrinted, Reach-IsPrinted}
use divers.DoubleBuffer.Progress.{HasStep, Reach-HasStep}

-- Two bytes, then one, then none.
abbrev pub three_bytes : File
three_bytes zero = some (1 ∷ 2 ∷ [])
three_bytes (suc zero) = some (3 ∷ [])
three_bytes (suc (suc _)) = some []

abbrev pub setting : Setting
setting = record {
  nr = 1;
  capacity = 2;
  nr_files = 1;
  filename = λ i. "/tmp/1.txt";
  open' = λ name. some three_bytes;
}

pub setting-AreOpened : AreOpened setting (λ i. three_bytes)
setting-AreOpened = record {
  names = omega arith;
  opens = λ i lt. refl;
  some_reader = omega arith;
  some_byte = λ e. omega arith;
}

-- One step after the other: zero is the writer's, else the reader's whose number follows.
unfoldable steps : List ℕ → EceWorker → Option EceWorker
steps [] w = some w
steps (zero ∷ rest) w = elim (writer_step setting w) [ none ↦ none | some v ↦ steps rest v ]
steps (suc i ∷ rest) w = elim (reader_step setting.open' (w.readers i)) [
  | none ↦ none
  | some (r, answers) ↦
      steps rest (record w { readers = update w.readers i r; listener = w.listener ++ answers })
]

abbrev AreThreads : List ℕ → Type 0
AreThreads [] = Unit
AreThreads (t ∷ rest) = (t ≤ 1) × AreThreads rest

steps-Reach :
    (order : List ℕ) (w v : EceWorker)
    → AreThreads order
    → steps order w ≡ some v
    → Reach setting w
    → Reach setting v
unfolding steps
steps-Reach [] w v t e r = subst (Reach setting) (some-injective w v e) r
steps-Reach (zero ∷ rest) w v (_, t) e r = elim (Option-cases (writer_step setting w)) [
  | inl n ↦ absurd (grind (arith, rw (n, steps) at e))
  | inr (u, s) ↦ steps-Reach rest u v t (rw (s, steps) at e) (more r (writes u s))
]
steps-Reach (suc i ∷ rest) w v (le, t) e r =
    elim (Option-cases (reader_step setting.open' (w.readers i))) [
      | inl n ↦ absurd (grind (arith, rw (n, steps) at e))
      | inr ((s, answers), q) ↦
          steps-Reach rest _ v t (rw (q, steps) at e) (more r (reads i s answers (omega arith) q))
    ]

-- The writer sends the name and the first job, and the reader answers it; then the second job and the first output.
abbrev order : List ℕ
order = 0 ∷ 0 ∷ 1 ∷ 0 ∷ 0 ∷ 1 ∷ 1 ∷ 1 ∷ 0 ∷ 0 ∷ 1 ∷ 0 ∷ 0 ∷ 0 ∷ 1 ∷ 1 ∷ 0 ∷ 0 ∷ 0 ∷ 0 ∷ 0 ∷ []

abbrev shown : Option EceWorker → Option (WriterPlace × List (List ℕ))
shown none = none
shown (some w) = some (w.place, w.printed)

order-printed :
    shown (steps order (new_worker setting)) ≡ some (returned, (1 ∷ 2 ∷ []) ∷ (3 ∷ 0 ∷ []) ∷ [])
unfolding steps writer_step reader_step take_job fill get_bank apply_bank send_work wait_readers
    process_writer
order-printed = refl

abbrev made : Option EceWorker → EceWorker
made none = new_worker setting
made (some w) = w

abbrev at_end : EceWorker
at_end = made (steps order (new_worker setting))

made-some :
    (o : Option EceWorker) (p : WriterPlace × List (List ℕ)) → shown o ≡ some p → o ≡ some (made o)
made-some none p e = absurd (cc)
made-some (some w) p e = refl

at_end-Reach : Reach setting at_end
at_end-Reach =
    steps-Reach order (new_worker setting) at_end (ground arith)
      (made-some (steps order (new_worker setting)) _ order-printed) here

Reach-IsPrinted_example : IsPrinted setting (λ i. three_bytes) at_end
Reach-IsPrinted_example =
    Reach-IsPrinted setting (λ i. three_bytes) setting-AreOpened at_end at_end-Reach

-- The writer waits for the first answer.
abbrev start : List ℕ
start = 0 ∷ 0 ∷ 1 ∷ 0 ∷ 0 ∷ []

start-waits : shown (steps start (new_worker setting)) ≡ some (waiting 0, [])
unfolding steps writer_step reader_step take_job fill get_bank apply_bank send_work wait_readers
    process_writer
start-waits = refl

abbrev at_wait : EceWorker
at_wait = made (steps start (new_worker setting))

at_wait-Reach : Reach setting at_wait
at_wait-Reach =
    steps-Reach start (new_worker setting) at_wait (ground arith)
      (made-some (steps start (new_worker setting)) _ start-waits) here

at_wait-place : at_wait.place ≡ waiting 0
unfolding steps writer_step reader_step take_job fill get_bank apply_bank send_work wait_readers
    process_writer
at_wait-place = refl

Reach-HasStep_example : HasStep setting at_wait
Reach-HasStep_example =
    Reach-HasStep setting (λ i. three_bytes) setting-AreOpened at_wait at_wait-Reach
      (subst (λ p. ¬ IsBehind p) (sym at_wait-place) (λ b. b))
