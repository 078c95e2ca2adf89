-- ===== src/DoubleBuffer/Invariant/Steps.antt =====
-- double_buffering/dblbuffering/src/lib.rs: the steps of the writer keep what holds at its places.
use mathlib.Core.Option.{some-injective}
use divers.Base.{
  ℕ, suc, ◌+◌, ◌*◌, ◌≡◌, inl, inr, refl, sym, ap, subst, Bool, true, false, some, List, ◌==◌, ◌&&◌,
  length, arith, ne→==, Bool-cases, List-cases, ==_iff, ==→ne, lt→ltb, ge→ltb, ltb→lt, ltb→ge,
  if◌then◌else◌, ltb,
}
use divers.DoubleBuffer.Reader.{File, EceJob, EceReader}
use divers.DoubleBuffer.{
  EceWorker, Setting, opening, starting, waiting, send_work, wait_readers, writer_step,
}
use divers.DoubleBuffer.Flow.{
  AreOpened, IsFlow, IsFlow-names, IsFlow-sends, IsFlow-same, total-full,
}
use divers.DoubleBuffer.Running.{IsReader-le}
use divers.DoubleBuffer.Invariant.{AreAnswered, IsPlaced, IsWorking, Kept}

and-false : (b : Bool) → (b && false) ≡ false
and-false true = refl
and-false false = refl

module _ (c : Setting) (file : ℕ → File) (o : AreOpened c file) where
  pub opening-Kept :
      (k i : ℕ) (acked : ℕ → ℕ) (w v : EceWorker)
      → w.place ≡ opening i
      → IsWorking c file k acked w
      → writer_step c w ≡ some v
      → Kept c file acked v
  unfolding writer_step
  opening-Kept k i acked w v at inv e =
      let (le, zero_k, p) = subst (IsPlaced c file k acked w.printed) at inv.placed in
      let flow = rw at at inv.flow in
      elim (Bool-cases (ltb i c.nr)) [
        | inl lt ↦
            let files = lt→ltb i c.nr_files (omega (arith, ltb→lt i c.nr lt, o.names)) in
            subst (Kept c file acked) (some-injective _ v (rw (at, lt, files) at e)) (
              inl (
                k,
                record {
                  flow = IsFlow-names c file (λ _. k) acked (c.nr * k) i w (ltb→lt i c.nr lt) flow;
                  bank = inv.bank;
                  full = inv.full;
                  placed = (omega (arith, ltb→lt i c.nr lt), zero_k, p);
                },
              ))
        | inr ge ↦
            let full = ltb→ge i c.nr ge in
            subst (Kept c file acked)
              (some-injective _ v (rw (at, ge, and-false (ltb i c.nr_files)) at e))
              (inl (
                k,
                record {
                  flow =
                      IsFlow-same c file (λ j. ltb j i) (λ _. true) (λ _. k)
                        (λ j. if ltb j 0 then suc k else k) acked (c.nr * k) (c.nr * k) w.readers
                        w.listener w.listener flow
                        (λ j lt.
                          (sym (lt→ltb j i (omega arith)), rw (ge→ltb j 0 (omega arith)) refl))
                        refl;
                  bank = inv.bank;
                  full = inv.full;
                  placed = (omega arith, p);
                },
              ))
      ]

  pub starting-Kept :
      (k i : ℕ) (acked : ℕ → ℕ) (w v : EceWorker)
      → w.place ≡ starting i
      → IsWorking c file k acked w
      → writer_step c w ≡ some v
      → Kept c file acked v
  unfolding writer_step send_work
  starting-Kept k i acked w v at inv e =
      let (le, p) = subst (IsPlaced c file k acked w.printed) at inv.placed in
      let flow = rw at at inv.flow in
      elim (Bool-cases (ltb i c.nr)) [
        | inl lt ↦ subst (Kept c file acked) (some-injective _ v (rw (at, lt) at e)) (
            inl (
              k,
              record {
                flow = IsFlow-sends c file acked (c.nr * k) k i w (ltb→lt i c.nr lt) flow;
                bank = inv.bank;
                full = inv.full;
                placed = (omega (arith, ltb→lt i c.nr lt), p);
              },
            ))
        | inr ge ↦
            let full = ltb→ge i c.nr ge in
            subst (Kept c file acked) (some-injective _ v (rw (at, ge) at e)) (
              inl (
                k,
                record {
                  flow =
                      IsFlow-same c file (λ _. true) (λ _. true) (λ j. if ltb j i then suc k else k)
                        (λ _. suc k) acked (c.nr * k) (c.nr * k + 0) w.readers w.listener w.listener
                        flow (λ j lt. (refl, rw (lt→ltb j i (omega arith)) refl)) (omega arith);
                  bank = inv.bank;
                  full = inv.full;
                  placed = (o.some_reader, p);
                },
              ))
      ]

  -- When the last answer of a round has come, every reader has answered.
  all_answered :
      (k : ℕ) (acked : ℕ → ℕ) (readers : ℕ → EceReader) (listener : List EceJob)
      → IsFlow c file (λ _. true) (λ _. suc k) (c.nr * suc k) acked readers listener
      → AreAnswered c file k acked
  all_answered k acked readers listener flow =
      total-full c.nr (suc k) acked
        (λ i lt.
          IsReader-le c.capacity (c.filename i) (file i) (suc k) (acked i) (readers i)
            (flow.each i lt))
        (omega (arith, flow.count))

  pub waiting-Kept :
      (k job_done : ℕ) (acked : ℕ → ℕ) (w v : EceWorker)
      → w.place ≡ waiting job_done
      → IsWorking c file k acked w
      → writer_step c w ≡ some v
      → Kept c file acked v
  unfolding writer_step wait_readers
  waiting-Kept k d acked w v at inv e =
      let (lt, p) = subst (IsPlaced c file k acked w.printed) at inv.placed in
      let flow = rw at at inv.flow in
      let some_reader = ne→== c.nr 0 (λ z. omega (arith, o.some_reader)) in
      elim (List-cases w.listener) [
        | inl q ↦ absurd (grind (arith, rw (at, some_reader, q) at e))
        | inr (x, rest, q) ↦ elim (Bool-cases (d + 1 == c.nr)) [
          | inl last ↦
              let d_last = (==_iff (d + 1) c.nr).0 last in
              let flow' =
                IsFlow-same c file (λ _. true) (λ _. true) (λ _. suc k) (λ _. suc k) acked
                  (c.nr * k + d) (c.nr * suc k) w.readers w.listener rest flow
                  (λ j lt. (refl, refl)) (omega (arith, ap length q, d_last)) in
              subst (Kept c file acked) (some-injective _ v (rw (at, some_reader, q, last) at e)) (
                inl (
                  k,
                  record {
                    flow =
                        IsFlow-same c file (λ _. true) (λ _. true) (λ _. suc k)
                          (λ j. if ltb j 0 then suc (suc k) else suc k) acked (c.nr * suc k)
                          (c.nr * suc k) w.readers rest rest flow'
                          (λ j lt. (refl, rw (ge→ltb j 0 (omega arith)) refl)) refl;
                    bank = inv.bank;
                    full = inv.full;
                    placed = (omega arith, p, all_answered k acked w.readers rest flow');
                  },
                ))
          | inr more ↦
              subst (Kept c file acked) (some-injective _ v (rw (at, some_reader, q, more) at e)) (
                inl (
                  k,
                  record {
                    flow =
                        IsFlow-same c file (λ _. true) (λ _. true) (λ _. suc k) (λ _. suc k) acked
                          (c.nr * k + d) (c.nr * k + (d + 1)) w.readers w.listener rest flow
                          (λ j lt. (refl, refl)) (omega (arith, ap length q));
                    bank = inv.bank;
                    full = inv.full;
                    placed = (omega (arith, ==→ne (d + 1) c.nr more), p);
                  },
                ))
        ]
      ]
