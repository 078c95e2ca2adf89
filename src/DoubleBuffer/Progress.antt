-- ===== src/DoubleBuffer/Progress.antt =====
-- double_buffering/dblbuffering/src/lib.rs: `work` is never stuck before it returns.
use Prim.Native.String.{String}
use divers.Base.{
  ℕ, suc, ◌<◌, ◌≡◌, ◌≢◌, inl, inr, refl, ap, subst, Option, none, length, arith, List-cases, ne→==,
  Option-cases,
}
use divers.DoubleBuffer.Reader.{
  File, EceReader, Place, receiving, holding, answering, ended, panicked, reader_step,
}
use divers.DoubleBuffer.{
  EceWorker, Setting, WriterPlace, opening, starting, waiting, sending, writing, returned,
  finishing, joining, dropped, failed, writer_step, wait_readers, Step, writes, reads, Reach,
}
use divers.DoubleBuffer.Running.{IsReader, IsRunning, IsAlive, taken}
use divers.DoubleBuffer.Flow.{AreOpened, total-short}
use divers.DoubleBuffer.Invariant.{IsPlaced, IsWorking, IsBehind}
use divers.DoubleBuffer.Printed.{Reach-Kept}

module _ (capacity : ℕ) (name : String) (file : File) (open' : String → Option File) where
  running_moves :
      (sent acked : ℕ) (p : Place) (r : EceReader)
      → r.place ≡ p
      → IsRunning capacity file sent acked r
      → acked < sent
      → reader_step open' r ≢ none
  unfolding reader_step
  running_moves sent acked receiving r at v lt e = elim (List-cases r.queue) [
    | inl q ↦ absurd (ground (arith, v.count, ap length q, ap taken at, lt))
    | inr (job, jobs, q) ↦ absurd (grind (arith, rw (at, q) at e))
  ]
  running_moves sent acked (holding job) r at v lt e =
      absurd (grind (arith, rw (at, v.opened) at e))
  running_moves sent acked (answering job) r at v lt e = absurd (grind (arith, rw at at e))
  running_moves sent acked ended r at v lt e = subst IsAlive at v.alive
  running_moves sent acked panicked r at v lt e = subst IsAlive at v.alive

  -- A reader that owes an answer has a step.
  reader_moves :
      (sent acked : ℕ) (r : EceReader)
      → IsReader capacity name file sent acked r
      → acked < sent
      → reader_step open' r ≢ none
  unfolding reader_step
  reader_moves sent acked r (inl v) lt = running_moves sent acked r.place r refl v lt
  reader_moves sent acked r (inr v) lt = λ e. absurd (grind (arith, rw (v.place, v.first) at e))

abbrev pub HasStep : Setting → EceWorker → Type 0
HasStep c w = (v : EceWorker) × Step c w v

module _ (c : Setting) (file : ℕ → File) (o : AreOpened c file) where
  by_writer : (w : EceWorker) → writer_step c w ≢ none → HasStep c w
  by_writer w e = elim (Option-cases (writer_step c w)) [
    | inl n ↦ absurd (e n)
    | inr (v, s) ↦ (v, writes v s)
  ]

  -- While answers are awaited and none has come, some reader owes one.
  waiting_moves :
      (k d : ℕ) (acked : ℕ → ℕ) (w : EceWorker)
      → w.place ≡ waiting d
      → IsWorking c file k acked w
      → HasStep c w
  unfolding writer_step wait_readers
  waiting_moves k d acked w at inv =
      let (lt, p) = subst (IsPlaced c file k acked w.printed) at inv.placed in
      let flow = rw at at inv.flow in
      let some_reader = ne→== c.nr 0 (λ z. omega (arith, o.some_reader)) in
      elim (List-cases w.listener) [
        | inr (x, rest, q) ↦ by_writer w (λ e. absurd (grind (arith, rw (at, some_reader, q) at e)))
        | inl q ↦
            let (i, below, owes) =
              total-short c.nr (suc k) acked (omega (arith, flow.count, ap length q, lt)) in
            elim (Option-cases (reader_step c.open' (w.readers i))) [
              | inl n ↦ absurd (
                  reader_moves c.capacity (c.filename i) (file i) c.open' (suc k) (acked i)
                    (w.readers i) (flow.each i below) owes n)
              | inr ((r, answers), s) ↦ (_, reads i r answers below s)
            ]
      ]

  working_moves :
      (k : ℕ) (acked : ℕ → ℕ) (p : WriterPlace) (w : EceWorker)
      → w.place ≡ p
      → IsWorking c file k acked w
      → HasStep c w
  unfolding writer_step
  working_moves k acked (opening i) w at inv = by_writer w (λ e. absurd (grind (arith, rw at at e)))
  working_moves k acked (starting i) w at inv =
      by_writer w (λ e. absurd (grind (arith, rw at at e)))
  working_moves k acked (waiting d) w at inv = waiting_moves k d acked w at inv
  working_moves k acked (sending i) w at inv = by_writer w (λ e. absurd (grind (arith, rw at at e)))
  working_moves k acked (writing i len) w at inv =
      by_writer w (λ e. absurd (grind (arith, rw at at e)))
  working_moves k acked returned w at inv =
      absurd (subst (IsPlaced c file k acked w.printed) at inv.placed)
  working_moves k acked (finishing _) w at inv =
      absurd (subst (IsPlaced c file k acked w.printed) at inv.placed)
  working_moves k acked (joining _) w at inv =
      absurd (subst (IsPlaced c file k acked w.printed) at inv.placed)
  working_moves k acked dropped w at inv =
      absurd (subst (IsPlaced c file k acked w.printed) at inv.placed)
  working_moves k acked failed w at inv =
      absurd (subst (IsPlaced c file k acked w.printed) at inv.placed)

  -- There is at least one reader and one byte of capacity, and each reader has a file that opens: then as long as
  -- `work` has not returned, some thread has a next step, in whatever order the steps were made.
  pub Reach-HasStep : (w : EceWorker) → Reach c w → ¬ IsBehind w.place → HasStep c w
  Reach-HasStep w r working =
      let (acked, kept) = Reach-Kept c file o w r in
      elim kept [
        | inl (k, inv) ↦ working_moves k acked w.place w refl inv
        | inr (k, (b, _, _, _)) ↦ absurd (working b)
      ]
