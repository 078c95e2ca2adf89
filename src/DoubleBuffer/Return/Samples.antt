-- ===== src/DoubleBuffer/Return/Samples.antt =====
-- double_buffering/dblbuffering/src/lib.rs: one reader; the writer goes first whenever it can.
use divers.Base.{ℕ, zero, suc, inl, inr, refl, Option, none, some, List, ◌++◌, arith, Option-cases}
use divers.DoubleBuffer.Reader.{EceReader, EceJob, fill, reader_step}
use divers.DoubleBuffer.{
  EceWorker, writer_step, new_worker, update, Step, writes, reads, Reach, here, more,
}
use divers.DoubleBuffer.Banks.{before}
use divers.DoubleBuffer.Invariant.{IsBehind}
use divers.DoubleBuffer.Progress.{Reach-HasStep}
use divers.DoubleBuffer.Return.{Returns, run-Returns}
use divers.DoubleBuffer.Samples.{three_bytes, setting, setting-AreOpened}

read_by : EceWorker → Option (EceReader × List EceJob) → EceWorker
read_by w none = w
read_by w (some (r, answers)) = record w {
  readers = update w.readers 0 r;
  listener = w.listener ++ answers;
}

next_of : EceWorker → Option EceWorker → EceWorker
unfolding read_by
next_of w none = read_by w (reader_step setting.open' (w.readers 0))
next_of w (some v) = v

run : ℕ → EceWorker
unfolding next_of
run zero = new_worker setting
run (suc n) = next_of (run n) (writer_step setting (run n))

next : EceWorker → EceWorker
unfolding next_of
next w = next_of w (writer_step setting w)

next-Step : (w : EceWorker) → (v : EceWorker) × Step setting w v → Step setting w (next w)
unfolding next next_of read_by
next-Step w (v, writes _ e) = rw e (writes v e)
next-Step w (v, reads zero r answers lt e) = elim (Option-cases (writer_step setting w)) [
  | inl n ↦ rw (n, e) (reads 0 r answers lt e)
  | inr (u, s) ↦ rw s (writes u s)
]
next-Step w (v, reads (suc i) r answers lt e) = absurd (omega arith)

next-Reach : (w : EceWorker) → Reach setting w → Reach setting (next w)
unfolding next next_of read_by
next-Reach w r = elim (Option-cases (writer_step setting w)) [
  | inr (u, s) ↦ rw s (more r (writes u s))
  | inl n ↦ elim (Option-cases (reader_step setting.open' (w.readers 0))) [
    | inl m ↦ rw (n, m) r
    | inr ((s, answers), e) ↦ rw (n, e) (more r (reads 0 s answers (omega arith) e))
  ]
]

run-Reach : (n : ℕ) → Reach setting (run n)
unfolding run next
run-Reach zero = here
run-Reach (suc n) = next-Reach (run n) (run-Reach n)

run-Step : (n : ℕ) → (¬ IsBehind (run n).place) → Step setting (run n) (run (suc n))
unfolding run next
run-Step n b =
    next-Step (run n)
      (Reach-HasStep setting (λ i. three_bytes) setting-AreOpened (run n) (run-Reach n) b)

run-Returns_example : Returns setting (λ i. three_bytes) run
unfolding run before fill
run-Returns_example =
    run-Returns setting (λ i. three_bytes) setting-AreOpened 1 run (omega arith) refl run-Step
