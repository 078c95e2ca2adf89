-- ===== src/DoubleBuffer/Return.antt =====
-- double_buffering/dblbuffering/src/lib.rs: every run of the threads brings `work` to its return.
mod Samples
use mathlib.Core.Option.{some-injective}
use divers.Base.{
  ℕ, zero, suc, ◌+◌, ◌*◌, ◌-◌, ◌≤◌, ◌<◌, ◌≡◌, ◌≢◌, ◌⊎◌, inl, inr, refl, sym, ap, ◌∙◌, subst, Bool,
  true, false, ◌&&◌, Option, none, some, List, [], ◌∷◌, ◌++◌, ◌==◌, length, length-append, arith,
  ltb, ltb→lt, ltb→ge, Bool-cases, Option-cases, List-cases, ne→==, ==_iff, ==→ne,
}
use divers.DoubleBuffer.Reader.{File, EceJob, EceReader, reader_step}
use divers.DoubleBuffer.{
  EceWorker, Setting, WriterPlace, opening, starting, waiting, sending, writing, returned,
  finishing, joining, dropped, failed, writer_step, send_work, wait_readers, process_writer, update,
  send, open_job, work_job, new_worker, Step, writes, reads, Reach, here, more,
}
use divers.DoubleBuffer.Flow.{AreOpened, total}
use divers.DoubleBuffer.Output.{row, output, last_len, AreFull}
use divers.DoubleBuffer.Invariant.{IsBehind}
use divers.DoubleBuffer.Printed.{IsPrinted, Reach-IsPrinted}
use divers.DoubleBuffer.Left.{at_writer, of_reader, left, total-reader, reader-Less}

module _ (c : Setting) (bound : ℕ) (some_reader : 0 < c.nr) where
  abbrev Lower : EceWorker → EceWorker → Type 0
  Lower w v = length v.printed ≤ bound → left c bound v < left c bound w

  sent-total :
      (i : ℕ) (job : EceJob) (w : EceWorker)
      → i < c.nr
      → total c.nr (λ j. of_reader ((send i job w).readers j))
        ≡ total c.nr (λ j. of_reader (w.readers j)) + 5
  sent-total i job w lt =
      let r = w.readers i in
      let s = record r { queue = r.queue ++ (job ∷ []) } in
      omega (arith, total-reader c.nr i w.readers s lt, length-append r.queue (job ∷ []))

  place-Lower :
      (p : WriterPlace) (w v : EceWorker)
      → w.place ≡ p
      → ¬ IsBehind p
      → writer_step c w ≡ some v
      → Lower w v
  unfolding writer_step send_work wait_readers process_writer
  place-Lower (opening i) w v at b e = elim (Bool-cases (ltb i c.nr_files && ltb i c.nr)) [
    | inl t ↦
        let lt : ltb i c.nr ≡ true = ground (arith, t) in
        subst (Lower w) (some-injective _ v (rw (at, t) at e)) (λ le. rw at (
          omega
            (arith, sent-total i (open_job (c.filename i)) w (ltb→lt i c.nr lt), ltb→lt i c.nr lt)))
    | inr f ↦ subst (Lower w) (some-injective _ v (rw (at, f) at e)) (λ le. rw at (omega arith))
  ]
  place-Lower (starting i) w v at b e = elim (Bool-cases (ltb i c.nr)) [
    | inl t ↦ subst (Lower w) (some-injective _ v (rw (at, t) at e)) (λ le. rw at (
        omega
          (arith, sent-total i (work_job c w.offset false) w (ltb→lt i c.nr t), ltb→lt i c.nr t)))
    | inr f ↦ subst (Lower w) (some-injective _ v (rw (at, f) at e)) (λ le. rw at (omega arith))
  ]
  place-Lower (waiting d) w v at b e =
      let some_nr = ne→== c.nr 0 (λ z. omega (arith, some_reader)) in
      elim (List-cases w.listener) [
        | inl q ↦ absurd (grind (arith, rw (at, some_nr, q) at e))
        | inr (x, rest, q) ↦ elim (Bool-cases (d + 1 == c.nr)) [
          | inl t ↦
              subst (Lower w) (some-injective _ v (rw (at, some_nr, q, t) at e))
                (λ le. rw at (omega (arith, ap length q)))
          | inr f ↦
              subst (Lower w) (some-injective _ v (rw (at, some_nr, q, f) at e))
                (λ le. rw at (omega (arith, ap length q)))
        ]
      ]
  place-Lower (sending i) w v at b e = elim (Bool-cases (ltb i c.nr)) [
    | inl t ↦ subst (Lower w) (some-injective _ v (rw (at, t) at e)) (λ le. rw at (
        omega
          (arith, sent-total i (work_job c w.offset false) w (ltb→lt i c.nr t), ltb→lt i c.nr t)))
    | inr f ↦ subst (Lower w) (some-injective _ v (rw (at, f) at e)) (λ le. rw at (omega arith))
  ]
  place-Lower (writing i len) w v at b e = elim (Bool-cases (ltb i c.nr)) [
    | inl t ↦
        subst (Lower w) (some-injective _ v (rw (at, t) at e))
          (λ le. rw at (omega (arith, le, length-append w.printed (_ ∷ []))))
    | inr f ↦ elim (Bool-cases (ltb len c.capacity)) [
      | inl t ↦
          subst (Lower w) (some-injective _ v (rw (at, f, t) at e)) (λ le. rw at (omega arith))
      | inr g ↦
          subst (Lower w) (some-injective _ v (rw (at, f, g) at e))
            (λ le. rw at (omega (arith, ltb→ge i c.nr f, some_reader)))
    ]
  ]
  place-Lower returned w v at b e = absurd (b tt)
  place-Lower (finishing _) w v at b e = absurd (b tt)
  place-Lower (joining _) w v at b e = absurd (b tt)
  place-Lower dropped w v at b e = absurd (b tt)
  place-Lower failed w v at b e = absurd (b tt)

  -- A step of a thread leaves fewer steps.
  step-Lower : (w v : EceWorker) → ¬ IsBehind w.place → Step c w v → Lower w v
  step-Lower w v b (writes _ e) = place-Lower w.place w v refl b e
  step-Lower w v b (reads i r answers lt e) = λ le. omega (
    arith,
    total-reader c.nr i w.readers r lt,
    reader-Less c.open' (w.readers i) (r, answers) e,
    length-append w.listener answers,
  )

IsBehind-cases : (p : WriterPlace) → IsBehind p ⊎ (¬ IsBehind p)
IsBehind-cases (opening _) = inr (λ b. b)
IsBehind-cases (starting _) = inr (λ b. b)
IsBehind-cases (waiting _) = inr (λ b. b)
IsBehind-cases (sending _) = inr (λ b. b)
IsBehind-cases (writing _ _) = inr (λ b. b)
IsBehind-cases returned = inl tt
IsBehind-cases (finishing _) = inl tt
IsBehind-cases (joining _) = inl tt
IsBehind-cases dropped = inl tt
IsBehind-cases failed = inl tt

module _ (c : Setting) (file : ℕ → File) where
  length-row : (k i : ℕ) → length (row c file k i) ≡ i
  unfolding row
  length-row k zero = refl
  length-row k (suc i) = omega (arith, length-append (row c file k i) (_ ∷ []), length-row k i)

  length-output : (k : ℕ) → length (output c file k) ≡ c.nr * k
  unfolding output
  length-output zero = omega arith
  length-output (suc k) = omega (
    arith,
    length-append (output c file k) (row c file k c.nr),
    length-output k,
    length-row k c.nr,
  )

  -- No more is printed than up to a round that ends the loop.
  printed-le :
      (last : ℕ) (w : EceWorker)
      → last_len c file last c.nr < c.capacity
      → IsPrinted c file w
      → length w.printed ≤ c.nr * suc last
  printed-le last w short (k, full, p) =
      let in_time : k ≤ last = elim (Bool-cases (ltb last k)) [
        | inl t ↦ absurd (omega (arith, full last (ltb→lt last k t), short))
        | inr f ↦ ltb→ge last k f
      ] in
      let split : last ≡ k + (last - k) = omega arith in
      let more_rounds = ap (λ t. c.nr * t) split in
      elim p [
        | inl (_, (i, le, e)) ↦ omega (
          arith,
          more_rounds,
          ap length e,
          length-append (output c file k) (row c file k i),
          length-output k,
          length-row k i,
        )
        | inr (_, _, e) ↦ omega (arith, more_rounds, ap length e, length-output (suc k))
      ]

-- The run has a state behind `work`, and what was printed by then.
abbrev pub Returns : Setting → (ℕ → File) → (ℕ → EceWorker) → Type 0
Returns c file run = (n : ℕ) × IsBehind (run n).place × IsPrinted c file (run n)

module _ (c : Setting) (file : ℕ → File) (o : AreOpened c file) where
  module _ (last : ℕ) (run : ℕ → EceWorker) (short : last_len c file last c.nr < c.capacity)
      (steps : (i : ℕ) → ¬ IsBehind (run i).place → Step c (run i) (run (suc i))) where
    next-Lower :
        (n : ℕ)
        → Reach c (run n)
        → (¬ IsBehind (run n).place)
        → left c (c.nr * suc last) (run (suc n)) < left c (c.nr * suc last) (run n)
    next-Lower n r b =
        let s = steps n b in
        step-Lower c (c.nr * suc last) o.some_reader (run n) (run (suc n)) b s (
          printed-le c file last (run (suc n)) short
            (Reach-IsPrinted c file o (run (suc n)) (more r s)))

    Returns-from :
        (m n : ℕ) → Reach c (run n) → left c (c.nr * suc last) (run n) ≤ m → Returns c file run
    Returns-from zero n r le = elim (IsBehind-cases (run n).place) [
      | inl b ↦ (n, b, Reach-IsPrinted c file o (run n) r)
      | inr b ↦ absurd (omega (arith, next-Lower n r b, le))
    ]
    Returns-from (suc m) n r le = elim (IsBehind-cases (run n).place) [
      | inl b ↦ (n, b, Reach-IsPrinted c file o (run n) r)
      | inr b ↦ Returns-from m (suc n) (more r (steps n b)) (omega (arith, next-Lower n r b, le))
    ]

  -- There is at least one reader and one byte of capacity, each reader has a file that opens, and in some round the
  -- `len` of the last reader's buffer is less than the capacity, where a read that fails leaves the `len` as the read
  -- two before has left it, and 0 if there is none: then in every run, whichever thread makes each step, `work`
  -- returns, and has printed by then whole rounds of the readers' buffers, up to the first of those rounds.
  pub run-Returns :
      (last : ℕ) (run : ℕ → EceWorker)
      → last_len c file last c.nr < c.capacity
      → run 0 ≡ new_worker c
      → ((i : ℕ) → ¬ IsBehind (run i).place → Step c (run i) (run (suc i)))
      → Returns c file run
  run-Returns last run short starts steps =
      Returns-from last run short steps (left c (c.nr * suc last) (run 0)) 0
        (subst (Reach c) (sym starts) here) (omega arith)
